-- ===== src/Federation/Options.antt =====
-- examples/data-federation/data-federation-extension/src/lib.rs: the options of the extension, the
-- arguments of the stage, and its opening. The decoders and PathBuf::from are parameters.
pub mod Safe
pub mod Opened
use Prim.Native.Char.{Char, code}
use Prim.Native.String
use rust_sdk_mongodb_extensi.Prelude.{
  ℕ, ◌+◌, ◌-◌, ◌*◌, max, String, Bool, true, false, not, ◌&&◌, ◌||◌, if◌then◌else◌, Option, none,
  some, List, [], ◌∷◌, leb, ◌==◌,
}
use rust_sdk_mongodb_extensi.Prelude.Text.{◌=ₛ◌, is_empty, trim, starts_with_char}
use rust_sdk_mongodb_extensi.Prelude.Text.Splitting.{split}
use rust_sdk_mongodb_extensi.Errors.{
  Message, text, debug, failed_to_parse, runtime, display, ExtensionError, ExtensionResult, Result,
  ok, err, ◌>>=◌, ◌>>◌, ensure, map_err,
}
use rust_sdk_mongodb_extensi.Bson.{Document}
use rust_sdk_mongodb_extensi.Source.Ops.{Bytes}
use rust_sdk_mongodb_extensi.Search.Config.{
  strip_prefix, trim_matches, to_ascii_lowercase, is_comment,
}
use rust_sdk_mongodb_extensi.Federation.Lines.{u64_max}
use rust_sdk_mongodb_extensi.Federation.Paths.{
  Components, FileSystem, JsonlExtensionConfig, validate_stage_relative_path,
  resolve_under_allowed_root,
}
use rust_sdk_mongodb_extensi.Federation.Cursor.{ReadLocalJsonlState, Context, say}

pub record ExtensionOptionsJson : Type 0 where
  pub allowed_root : Option String
  pub allow_symlinks : Bool
  pub max_line_bytes : Option ℕ
  pub max_document_bytes : Option ℕ

-- std::str::from_utf8, serde_json::from_str, PathBuf::from, and parse_args for the arguments, which
-- gives their path and their limit.
pub record OptionDecoder : Type 0 where
  pub from_utf8 : Bytes → Result Message String
  pub from_str : String → Result Message ExtensionOptionsJson
  pub path_buf : String → Components
  pub parse_args : Document → ExtensionResult (String × Option ℕ)

-- DEMO_ALLOWED_ROOT
abbrev pub demo_allowed_root : String
demo_allowed_root = "/federation-data"

abbrev pub default_line_bytes : ℕ
default_line_bytes = 1048576

abbrev pub default_document_bytes : ℕ
default_document_bytes = 16777216

abbrev pub unwrap_or {ℓ} : {A : Type ℓ} → A → Option A → A
unwrap_or default none = default
unwrap_or default (some a) = a

-- str::parse for a u64: a sign and digits, and no more than the largest u64.
abbrev digit : Char → Option ℕ
digit c = if leb 48 (code c) && leb (code c) 57 then some (code c - 48) else none

abbrev bounded : ℕ → Option ℕ
bounded n = if leb n u64_max then some n else none

unfoldable pub digits : ℕ → String → Option ℕ
digits n String.[] = bounded n
digits n (String.◌∷◌ c s) = elim (digit c) [ none ↦ none | some d ↦ digits (n * 10 + d) s ]

unfoldable pub parse_u64 : String → Option ℕ
unfolding digits
parse_u64 String.[] = none
parse_u64 (String.◌∷◌ c s) =
    if starts_with_char b'+' (String.◌∷◌ c s)
    then (if is_empty s then none else digits 0 s)
    else digits 0 (String.◌∷◌ c s)

-- str::to_ascii_lowercase, compared with a text in lower case.
unfoldable pub equals_lower : String → String → Bool
equals_lower String.[] String.[] = true
equals_lower String.[] (String.◌∷◌ d t) = false
equals_lower (String.◌∷◌ c s) String.[] = false
equals_lower (String.◌∷◌ c s) (String.◌∷◌ d t) =
    to_ascii_lowercase (code c) == code d && equals_lower s t

-- The variables of the loop over the lines.
pub record Scanned : Type 0 where
  pub root : Option String
  pub symlinks : Bool
  pub line_bytes : Option ℕ
  pub document_bytes : Option ℕ

abbrev clean : String → String
clean v = trim_matches b'\'' (trim_matches b'"' (trim v))

abbrev is_true : String → Bool
is_true v = equals_lower v "true" || equals_lower v "1" || equals_lower v "yes"

abbrev first_of : Option Scanned → Scanned → Scanned
first_of none rest = rest
first_of (some here) rest = here

abbrev on_prefix : String → String → (String → Scanned) → Scanned → Scanned
on_prefix prefix s here rest = elim (strip_prefix prefix s) [ none ↦ rest | some v ↦ here v ]

-- One line, trimmed; a line with no known key changes nothing.
unfoldable pub scan_line : String → Scanned → Scanned
unfolding trim
scan_line s now =
    on_prefix "allowedRoot:" s (λ v. record now { root = some (clean v) })
      (on_prefix "allowSymlinks:" s (λ v. record now { symlinks = is_true (trim v) })
        (on_prefix "maxLineBytes:" s (λ v. record now { line_bytes = parse_u64 (trim v) })
          (on_prefix "maxDocumentBytes:" s (λ v. record now { document_bytes = parse_u64 (trim v) })
            now)))

-- The loop. A line is trimmed, so that the ends that str::lines takes off make no difference.
unfoldable pub scan : List String → Scanned → Scanned
unfolding scan_line trim
scan [] now = now
scan (line ∷ lines) now =
    scan lines (if is_comment (trim line) then now else scan_line (trim line) now)

abbrev pub nothing_scanned : Scanned
nothing_scanned = record { root = none; symlinks = false; line_bytes = none; document_bytes = none }

-- A root that is blank is left out.
abbrev pub not_blank : Option String → Option String
not_blank none = none
not_blank (some s) = if is_empty (trim s) then none else some s

abbrev pub trimmed_root : Option String → Option String
trimmed_root none = none
trimmed_root (some s) = if is_empty (trim s) then none else some (trim s)

module _ (decoder : OptionDecoder) where
  open decoder use {from_utf8, from_str, path_buf, parse_args}

  abbrev pub config : Option String → Bool → Option ℕ → Option ℕ → JsonlExtensionConfig
  config root symlinks line_bytes document_bytes = record {
    allowed_root = path_buf (unwrap_or demo_allowed_root root);
    allow_symlinks = symlinks;
    max_line_bytes = max (unwrap_or default_line_bytes line_bytes) 1;
    max_document_bytes = max (unwrap_or default_document_bytes document_bytes) 1;
  }

  unfoldable pub parse_extension_options_yaml_lines : String → JsonlExtensionConfig
  unfolding scan split
  parse_extension_options_yaml_lines content =
      let now = scan (split 10 content) nothing_scanned in
      config (not_blank now.root) now.symlinks now.line_bytes now.document_bytes

  abbrev pub json_options : ExtensionOptionsJson → JsonlExtensionConfig
  json_options j =
      config (trimmed_root j.allowed_root) j.allow_symlinks j.max_line_bytes j.max_document_bytes

  abbrev pub options_of : String → ExtensionResult JsonlExtensionConfig
  options_of t =
      if starts_with_char b'{' t
      then (map_err (λ e. runtime (text "extension options JSON: " ∷ e)) (from_str t) >>= λ j.
          ok (json_options j))
      else ok (parse_extension_options_yaml_lines t)

  unfoldable pub parse_extension_options : Bytes → ExtensionResult JsonlExtensionConfig
  unfolding parse_extension_options_yaml_lines trim
  parse_extension_options raw = do
    content ←
        map_err (λ e. runtime (text "extension options are not valid UTF-8: " ∷ e)) (from_utf8 raw)
    options_of (trim content)

  abbrev pub demo_extension_config_fallback : JsonlExtensionConfig
  demo_extension_config_fallback = record {
    allowed_root = path_buf demo_allowed_root;
    allow_symlinks = false;
    max_line_bytes = default_line_bytes;
    max_document_bytes = default_document_bytes;
  }

  -- The options of the context, if the host has given any.
  unfoldable pub extension_config_from_context : Option Bytes → ExtensionResult JsonlExtensionConfig
  unfolding parse_extension_options
  extension_config_from_context none = ok demo_extension_config_fallback
  extension_config_from_context (some []) = ok demo_extension_config_fallback
  extension_config_from_context (some (b ∷ raw)) = parse_extension_options (b ∷ raw)

  -- ReadLocalJsonl::parse
  unfoldable pub parse : Document → ExtensionResult (String × Option ℕ)
  unfolding trim validate_stage_relative_path
  parse args = do
    a ← parse_args args
    ensure (not (is_empty (trim a.0)))
        (failed_to_parse (text "missing required field \"path\"" ∷ []))
    validate_stage_relative_path (trim a.0)
    ok (trim a.0, a.1)

  module _ (fs : FileSystem)
      (open_file : (no_follow : Bool) → Components → Result Message Bytes) where
    -- The bytes of the file; without links it is opened with O_NOFOLLOW.
    unfoldable pub open_file_for_read : Components → Bool → ExtensionResult Bytes
    open_file_for_read path allow_symlinks =
        if not allow_symlinks
        then map_err (λ e. runtime (text "open (no symlink follow): " ∷ e)) (open_file true path)
        else map_err (λ e. runtime (text "open file: " ∷ e)) (open_file false path)

    abbrev pub opened :
        JsonlExtensionConfig
        → Option ℕ
        → ExtensionResult Bytes
        → ExtensionResult ReadLocalJsonlState
    opened cfg max_documents (err e) = err e
    opened cfg max_documents (ok reader) = ok (record {
      reader = reader;
      physical_line_no = 0;
      cfg = cfg;
      max_documents = max_documents;
      returned = 0;
      eof_logged = false;
    })

    abbrev pub open_resolved :
        JsonlExtensionConfig
        → String × Option ℕ
        → Context
        → ExtensionResult Components
        → ExtensionResult ReadLocalJsonlState × Context
    open_resolved cfg args c (err e) = (
      err e,
      say (text "readLocalJsonl: rejected or invalid path " ∷ debug args.0 ∷ text ": " ∷ display e)
          c,
    )
    open_resolved cfg args c (ok resolved) = (
      opened cfg args.1 (open_file_for_read resolved cfg.allow_symlinks),
      say (text "readLocalJsonl: opening " ∷ text (fs.display resolved) ∷ []) c,
    )

    abbrev pub open_with :
        String × Option ℕ
        → Context
        → ExtensionResult JsonlExtensionConfig
        → ExtensionResult ReadLocalJsonlState × Context
    open_with args c (err e) = (err e, c)
    open_with args c (ok cfg) = open_resolved cfg args c (resolve_under_allowed_root fs cfg args.0)

    -- ReadLocalJsonl::open, with the options of the context.
    unfoldable pub open_cursor :
        String × Option ℕ → Option Bytes → Context → ExtensionResult ReadLocalJsonlState × Context
    unfolding extension_config_from_context open_file_for_read resolve_under_allowed_root
    open_cursor args options c = open_with args c (extension_config_from_context options)
