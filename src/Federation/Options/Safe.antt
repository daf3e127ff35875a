-- ===== src/Federation/Options/Safe.antt =====
-- What the options and the opening of a cursor guarantee.
use mathlib.Core.Path.{subst}
use rust_sdk_mongodb_extensi.Prelude.{
  ℕ, ◌≤◌, ◌≡◌, refl, sym, ap, String, Bool, false, Bool-cases, inl, inr, if_lem, Option, none, some,
  [], ◌∷◌, arith,
}
use rust_sdk_mongodb_extensi.Prelude.Text.{is_empty, trim, starts_with_char}
use rust_sdk_mongodb_extensi.Prelude.Text.Trimming.{trim-trim}
use rust_sdk_mongodb_extensi.Prelude.Text.Splitting.{split}
use rust_sdk_mongodb_extensi.Errors.{
  Message, text, runtime, ◌>>=◌, ExtensionResult, Result, ok, err, map_err, ok-injective,
}
use rust_sdk_mongodb_extensi.Source.Ops.{Bytes}
use rust_sdk_mongodb_extensi.Federation.Paths.{JsonlExtensionConfig}
use rust_sdk_mongodb_extensi.Federation.Options.{
  OptionDecoder, ExtensionOptionsJson, demo_allowed_root, unwrap_or, not_blank, trimmed_root,
  config, parse_extension_options_yaml_lines, json_options, options_of, parse_extension_options,
  demo_extension_config_fallback, extension_config_from_context, scan, nothing_scanned,
}

-- A text that is not blank.
abbrev IsRoot : Option String → Type 0
IsRoot none = Unit
IsRoot (some s) = is_empty (trim s) ≡ false

not_blank-IsRoot : (o : Option String) → IsRoot (not_blank o)
not_blank-IsRoot none = tt
not_blank-IsRoot (some s) = elim (Bool-cases (is_empty (trim s))) [
  | inl e ↦ rw e tt
  | inr e ↦ rw (e, e) refl
]

trimmed_root-IsRoot : (o : Option String) → IsRoot (trimmed_root o)
trimmed_root-IsRoot none = tt
trimmed_root-IsRoot (some s) = elim (Bool-cases (is_empty (trim s))) [
  | inl e ↦ rw e tt
  | inr e ↦ rw (e, trim-trim s) e
]

module _ (decoder : OptionDecoder) where
  -- Lines and documents of at least one byte, and a root from a text that is not blank.
  pub IsSafe : JsonlExtensionConfig → Type 0
  IsSafe cfg =
      (1 ≤ cfg.max_line_bytes)
      × (1 ≤ cfg.max_document_bytes)
      × (root : String) × (cfg.allowed_root ≡ decoder.path_buf root)
      × (is_empty (trim root) ≡ false)

  root_of : (o : Option String) → IsRoot o → is_empty (trim (unwrap_or demo_allowed_root o)) ≡ false
  unfolding trim
  root_of none h = refl
  root_of (some s) h = h

  config-IsSafe :
      (root : Option String) (symlinks : Bool) (l d : Option ℕ)
      → IsRoot root
      → IsSafe (config decoder root symlinks l d)
  unfolding IsSafe
  config-IsSafe root symlinks l d h =
      (omega arith, omega arith, unwrap_or demo_allowed_root root, refl, root_of root h)

  -- An error, or options that are safe.
  abbrev SafeOr : ExtensionResult JsonlExtensionConfig → Type 0
  SafeOr (ok cfg) = IsSafe cfg
  SafeOr (err e) = Unit

  json-SafeOr :
      (r : Result Message ExtensionOptionsJson)
      → SafeOr (
          map_err (λ e. runtime (text "extension options JSON: " ∷ e)) r >>= λ j.
          ok (json_options decoder j))
  json-SafeOr (ok j) =
      config-IsSafe (trimmed_root j.allowed_root) j.allow_symlinks j.max_line_bytes
        j.max_document_bytes (trimmed_root-IsRoot j.allowed_root)
  json-SafeOr (err e) = tt

  lines-IsSafe : (t : String) → IsSafe (parse_extension_options_yaml_lines decoder t)
  unfolding parse_extension_options_yaml_lines
  lines-IsSafe t =
      let now = scan (split 10 t) nothing_scanned in
      config-IsSafe (not_blank now.root) now.symlinks now.line_bytes now.document_bytes
        (not_blank-IsRoot now.root)

  text-SafeOr :
      (r : Result Message String)
      → SafeOr (
          map_err (λ e. runtime (text "extension options are not valid UTF-8: " ∷ e)) r >>= λ t.
          options_of decoder (trim t))
  text-SafeOr (err e) = tt
  text-SafeOr (ok t) =
      if_lem SafeOr (starts_with_char b'{' (trim t)) (json-SafeOr (decoder.from_str (trim t)))
        (lines-IsSafe (trim t))

  -- Links are not allowed where the context gives no options.
  pub DeniesLinks : Option Bytes → JsonlExtensionConfig → Type 0
  DeniesLinks none cfg = cfg.allow_symlinks ≡ false
  DeniesLinks (some []) cfg = cfg.allow_symlinks ≡ false
  DeniesLinks (some (b ∷ raw)) cfg = Unit

  fallback-IsSafe : IsSafe (demo_extension_config_fallback decoder)
  unfolding IsSafe trim
  fallback-IsSafe = (omega arith, omega arith, demo_allowed_root, refl, refl)

  -- The options that a context gives allow lines and documents of at least one byte, and name a root
  -- that is not blank, as JSON or as lines, and also where there are none; then links are not allowed.
  pub extension_config_from_context-IsSafe :
      (options : Option Bytes) {cfg : JsonlExtensionConfig}
      → extension_config_from_context decoder options ≡ ok cfg
      → IsSafe cfg × DeniesLinks options cfg
  unfolding extension_config_from_context parse_extension_options DeniesLinks
  extension_config_from_context-IsSafe none h =
      let same = ok-injective h in
      (
        subst IsSafe same fallback-IsSafe,
        ap (λ (c : JsonlExtensionConfig). c.allow_symlinks) (sym same),
      )
  extension_config_from_context-IsSafe (some []) h =
      let same = ok-injective h in
      (
        subst IsSafe same fallback-IsSafe,
        ap (λ (c : JsonlExtensionConfig). c.allow_symlinks) (sym same),
      )
  extension_config_from_context-IsSafe (some (b ∷ raw)) h =
      (subst SafeOr h (text-SafeOr (decoder.from_utf8 (b ∷ raw))), tt)
