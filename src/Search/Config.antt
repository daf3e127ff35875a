-- ===== src/Search/Config.antt =====
-- opensearch-extension-core/src/lib.rs: the options of the extension, as JSON or as lines. The
-- decoders of UTF-8 and of JSON are parameters.
pub mod Endpoints
use Prim.Native.Char.{Char, code}
use Prim.Native.String
use rust_sdk_mongodb_extensi.Prelude.{
  ℕ, ◌+◌, String, Bool, true, false, not, ◌&&◌, ◌||◌, if◌then◌else◌, Option, none, some, List, [],
  ◌∷◌, leb, ◌==◌,
}
use rust_sdk_mongodb_extensi.Prelude.Text.{
  is_empty, trim, starts_with_char, trim_start_matches, trim_end_matches,
}
use rust_sdk_mongodb_extensi.Prelude.Text.Splitting.{split}
use rust_sdk_mongodb_extensi.Errors.{
  Message, text, bad_value, failed_to_parse, ExtensionError, ExtensionResult, Result, ok, err,
  ◌>>=◌, ◌>>◌, ensure, map_err, ok_or,
}
use rust_sdk_mongodb_extensi.Json
use rust_sdk_mongodb_extensi.Json.{Json, as_str, as_array}
use rust_sdk_mongodb_extensi.Search.Fetch.{OpenSearchConfig}

-- String::from_utf8 and serde_json::from_str.
pub record OptionReader : Type 0 where
  pub from_utf8 : List ℕ → Result Message String
  pub from_str : String → Result Message Json

-- char::to_ascii_lowercase
abbrev pub to_ascii_lowercase : ℕ → ℕ
to_ascii_lowercase k = if leb 65 k && leb k 90 then k + 32 else k

-- Whether the text in lower case starts with a prefix.
unfoldable pub starts_with_lower : String → String → Bool
starts_with_lower String.[] s = true
starts_with_lower (String.◌∷◌ p prefix) String.[] = false
starts_with_lower (String.◌∷◌ p prefix) (String.◌∷◌ c s) =
    to_ascii_lowercase (code c) == code p && starts_with_lower prefix s

-- str::strip_prefix
unfoldable pub strip_prefix : String → String → Option String
strip_prefix String.[] s = some s
strip_prefix (String.◌∷◌ p prefix) String.[] = none
strip_prefix (String.◌∷◌ p prefix) (String.◌∷◌ c s) =
    let rest = strip_prefix prefix s in if code c == code p then rest else none

-- str::trim_matches with a character.
abbrev pub trim_matches : ℕ → String → String
trim_matches k s = trim_end_matches k (trim_start_matches k s)

abbrev pub is_url : String → Bool
is_url endpoint = starts_with_lower "http://" endpoint || starts_with_lower "https://" endpoint

-- The loop over the endpoints.
unfoldable pub check_urls : List String → ExtensionResult (Unit {0})
unfolding starts_with_lower
check_urls [] = ok tt
check_urls (endpoint ∷ endpoints) = do
  ensure (is_url endpoint) (
      bad_value
        (text "OpenSearch endpoint must start with http:// or https://: " ∷ text endpoint ∷ []))
  check_urls endpoints

abbrev no_endpoint : ExtensionError
no_endpoint = bad_value (text "endpoints must contain at least one OpenSearch URL" ∷ [])

unfoldable pub config_from_endpoints : List String → ExtensionResult OpenSearchConfig
unfolding check_urls
config_from_endpoints [] = err no_endpoint
config_from_endpoints (endpoint ∷ endpoints) = do
  check_urls (endpoint ∷ endpoints)
  ok (record { endpoints = endpoint ∷ endpoints })

abbrev not_strings : ExtensionError
not_strings = bad_value (text "endpoints must contain strings" ∷ [])

abbrev filled : Option String → Option String
filled none = none
filled (some s) = if is_empty (trim s) then none else some (trim s)

-- The collection of the elements of the JSON array.
unfoldable pub json_endpoints : List Json → ExtensionResult (List String)
unfolding trim
json_endpoints [] = ok []
json_endpoints (v ∷ vs) = do
  endpoint ← ok_or not_strings (filled (as_str (some v)))
  endpoints ← json_endpoints vs
  ok (endpoint ∷ endpoints)

-- The parts of the line that are not empty, without their quotes.
abbrev clean : String → String
clean s = trim_matches b'\'' (trim_matches b'"' (trim s))

unfoldable pub line_endpoints : List String → List String
unfolding trim trim_start_matches trim_end_matches
line_endpoints [] = []
line_endpoints (part ∷ parts) =
    let rest = line_endpoints parts in if is_empty (clean part) then rest else clean part ∷ rest

abbrev undefined_endpoints : ExtensionError
undefined_endpoints = bad_value (text "OpenSearch extension config must define endpoints" ∷ [])

abbrev pub is_comment : String → Bool
is_comment line = is_empty line || starts_with_char b'#' line

-- The loop over the lines. A line is trimmed, so that the ends that str::lines takes off make no
-- difference.
unfoldable pub scan_lines : List String → ExtensionResult OpenSearchConfig
unfolding trim strip_prefix split line_endpoints config_from_endpoints
scan_lines [] = err undefined_endpoints
scan_lines (line ∷ lines) =
    let onward = scan_lines lines in
    if is_comment (trim line) then onward else elim (strip_prefix "endpoints:" (trim line)) [
      | some rest ↦ config_from_endpoints (line_endpoints (split b',' rest))
      | none ↦ onward
    ]

module _ (reader : OptionReader) where
  abbrev pub json_config : String → ExtensionResult OpenSearchConfig
  json_config trimmed = do
    value ←
        map_err (λ e. failed_to_parse (text "extension config json: " ∷ e))
          (reader.from_str trimmed)
    values ←
        ok_or (bad_value (text "endpoints must be an array" ∷ []))
          (as_array (Json.get "endpoints" value))
    endpoints ← json_endpoints values
    config_from_endpoints endpoints

  abbrev pub trimmed_config : String → ExtensionResult OpenSearchConfig
  trimmed_config trimmed =
      if starts_with_char b'{' trimmed then json_config trimmed else scan_lines (split 10 trimmed)

  unfoldable pub parse_config : Option (List ℕ) → ExtensionResult OpenSearchConfig
  unfolding Json.get json_endpoints scan_lines config_from_endpoints
  parse_config none = err undefined_endpoints
  parse_config (some raw) = do
    content ←
        map_err (λ e. failed_to_parse (text "extension config utf8: " ∷ e)) (reader.from_utf8 raw)
    trimmed_config (trim content)
