-- ===== src/Search/Config/Endpoints.antt =====
-- Which endpoints a configuration holds.
use mathlib.Core.Path.{subst}
use rust_sdk_mongodb_extensi.Prelude.{
  ℕ, String, ◌≡◌, ◌≢◌, refl, true, if_lem, Option, none, some, List, [], ◌∷◌,
}
use rust_sdk_mongodb_extensi.Prelude.Text.{trim, starts_with_char}
use rust_sdk_mongodb_extensi.Prelude.Text.Splitting.{split}
use rust_sdk_mongodb_extensi.Errors.{
  ExtensionResult, ok, err, ensure, map_err, ok_or, ok-injective, ensure-eq-ok, >>=-eq-ok,
}
use rust_sdk_mongodb_extensi.Json
use rust_sdk_mongodb_extensi.Json.{as_array}
use rust_sdk_mongodb_extensi.Search.Fetch.{OpenSearchConfig}
use rust_sdk_mongodb_extensi.Search.Config.{
  OptionReader, is_url, is_comment, strip_prefix, check_urls, config_from_endpoints, line_endpoints,
  json_endpoints, scan_lines, json_config, trimmed_config, parse_config,
}

abbrev pub AllUrls : List String → Type 0
AllUrls [] = Unit
AllUrls (endpoint ∷ endpoints) = (is_url endpoint ≡ true) × AllUrls endpoints

-- At least one endpoint, and all of them URLs of HTTP or HTTPS.
abbrev pub IsUsable : List String → Type 0
IsUsable endpoints = (endpoints ≢ []) × AllUrls endpoints

-- A result that is an error or a usable configuration.
abbrev UsableOr : ExtensionResult OpenSearchConfig → Type 0
UsableOr (ok cfg) = IsUsable cfg.endpoints
UsableOr (err e) = Unit

check_urls-AllUrls : (endpoints : List String) → check_urls endpoints ≡ ok tt → AllUrls endpoints
unfolding check_urls
check_urls-AllUrls [] h = tt
check_urls-AllUrls (endpoint ∷ endpoints) h =
    let (u, e, h1) = >>=-eq-ok (ensure (is_url endpoint) _) _ h in
    (ensure-eq-ok (is_url endpoint) _ e, check_urls-AllUrls endpoints h1)

usable_of :
    (r : ExtensionResult OpenSearchConfig)
    → ((cfg : OpenSearchConfig) → r ≡ ok cfg → IsUsable cfg.endpoints)
    → UsableOr r
usable_of (ok cfg) h = h cfg refl
usable_of (err e) h = tt

config_from_endpoints-UsableOr :
    (endpoints : List String) → UsableOr (config_from_endpoints endpoints)
unfolding config_from_endpoints
config_from_endpoints-UsableOr [] = tt
config_from_endpoints-UsableOr (endpoint ∷ endpoints) =
    usable_of (config_from_endpoints (endpoint ∷ endpoints)) (λ cfg h.
      let (u, e, h1) = >>=-eq-ok (check_urls (endpoint ∷ endpoints)) _ h in
      subst (λ (c : OpenSearchConfig). IsUsable c.endpoints) (ok-injective h1)
        (λ q. cc, check_urls-AllUrls (endpoint ∷ endpoints) e))

line-UsableOr :
    (o : Option String) (onward : ExtensionResult OpenSearchConfig)
    → UsableOr onward
    → UsableOr (elim o [
      | some rest ↦ config_from_endpoints (line_endpoints (split b',' rest))
      | none ↦ onward
    ])
line-UsableOr none onward h = h
line-UsableOr (some rest) onward h =
    config_from_endpoints-UsableOr (line_endpoints (split b',' rest))

scan_lines-UsableOr : (lines : List String) → UsableOr (scan_lines lines)
unfolding scan_lines
scan_lines-UsableOr [] = tt
scan_lines-UsableOr (line ∷ lines) =
    if_lem UsableOr (is_comment (trim line)) (scan_lines-UsableOr lines) (
      line-UsableOr (strip_prefix "endpoints:" (trim line)) (scan_lines lines)
        (scan_lines-UsableOr lines))

UsableOr-IsUsable :
    (r : ExtensionResult OpenSearchConfig) {cfg : OpenSearchConfig}
    → UsableOr r
    → r ≡ ok cfg
    → IsUsable cfg.endpoints
UsableOr-IsUsable r u h = subst UsableOr h u

module _ (reader : OptionReader) where
  json_config-UsableOr : (trimmed : String) → UsableOr (json_config reader trimmed)
  json_config-UsableOr trimmed = usable_of (json_config reader trimmed) (λ cfg h.
      let (value, e, h1) = >>=-eq-ok (map_err _ (reader.from_str trimmed)) _ h in
      let (values, e1, h2) = >>=-eq-ok (ok_or _ (as_array (Json.get "endpoints" value))) _ h1 in
      let (endpoints, e2, h3) = >>=-eq-ok (json_endpoints values) _ h2 in
      UsableOr-IsUsable (config_from_endpoints endpoints) (config_from_endpoints-UsableOr endpoints)
        h3)

  -- Options that are accepted, as JSON or as lines, give at least one endpoint, and each of them
  -- begins with http:// or https:// in any case.
  pub parse_config-IsUsable :
      (raw : Option (List ℕ)) {cfg : OpenSearchConfig}
      → parse_config reader raw ≡ ok cfg
      → IsUsable cfg.endpoints
  unfolding parse_config
  parse_config-IsUsable none h = cc
  parse_config-IsUsable (some raw) h =
      let (content, e, h1) = >>=-eq-ok (map_err _ (reader.from_utf8 raw)) _ h in
      UsableOr-IsUsable (trimmed_config reader (trim content))
        (if_lem UsableOr (starts_with_char b'{' (trim content))
          (json_config-UsableOr (trim content)) (scan_lines-UsableOr (split 10 (trim content))))
        h1
