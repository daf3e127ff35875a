-- ===== src/Federation/Paths.antt =====
-- examples/data-federation/data-federation-extension/src/lib.rs: the path of a file under the allowed
-- root. A path is its components; a component that has no slash is pushed as one. The file system is
-- a parameter.
pub mod Confined
use rust_sdk_mongodb_extensi.Prelude.{
  ℕ, String, Bool, true, false, not, ◌&&◌, ◌||◌, if◌then◌else◌, List, [], ◌∷◌, ◌++◌,
}
use rust_sdk_mongodb_extensi.Prelude.Text.{◌=ₛ◌, is_empty, trim, starts_with_char, contains_char}
use rust_sdk_mongodb_extensi.Prelude.Text.Splitting.{split}
use rust_sdk_mongodb_extensi.Errors.{
  Message, text, bad_value, failed_to_parse, runtime, ExtensionError, ExtensionResult, Result, ok,
  err, ◌>>=◌, ◌>>◌, ensure, map_err,
}

-- PathBuf
abbrev pub Components : Type 0
Components = List String

-- fs::canonicalize, whether fs::symlink_metadata reports a link, and Path::display.
pub record FileSystem : Type 0 where
  pub display : Components → String
  pub canonicalize : Components → Result Message Components
  pub symlink_metadata : Components → Result Message Bool

pub record JsonlExtensionConfig : Type 0 where
  pub allowed_root : Components
  pub allow_symlinks : Bool
  pub max_line_bytes : ℕ
  pub max_document_bytes : ℕ

-- The loop over the segments of the path.
unfoldable pub check_segments : List String → ExtensionResult (Unit {0})
check_segments [] = ok tt
check_segments (part ∷ parts) = do
  ensure (not (part =ₛ ".."))
      (bad_value (text "path must not contain parent directory (..) segments" ∷ []))
  ensure (not (contains_char 0 part)) (bad_value (text "path contains NUL byte" ∷ []))
  check_segments parts

abbrev validate_trimmed : String → ExtensionResult (Unit {0})
validate_trimmed path = do
  ensure (not (is_empty path)) (failed_to_parse (text "missing required field \"path\"" ∷ []))
  ensure (not (starts_with_char b'/' path || contains_char b'\\' path))
      (bad_value (text "path must be a relative path (no leading slash or backslashes)" ∷ []))
  check_segments (split b'/' path)

unfoldable pub validate_stage_relative_path : String → ExtensionResult (Unit {0})
unfolding trim check_segments split
validate_stage_relative_path path = validate_trimmed (trim path)

-- Path::starts_with
unfoldable pub starts_with : Components → Components → Bool
starts_with path [] = true
starts_with [] (c ∷ root) = false
starts_with (d ∷ path) (c ∷ root) = d =ₛ c && starts_with path root

module _ (fs : FileSystem) (cfg : JsonlExtensionConfig) where
  -- The test of one component; a missing file ends the walk.
  abbrev pub check_link : Components → Result Message Bool → ExtensionResult (Unit {0})
  check_link next (err e) =
      err (
        runtime (text "path not found: " ∷ text (fs.display next) ∷ text " (" ∷ e ++ text ")" ∷ []))
  check_link next (ok is_symlink) =
      ensure (not (is_symlink && not cfg.allow_symlinks))
        (bad_value (text "symlink not allowed at " ∷ text (fs.display next) ∷ []))

  -- The walk from the root.
  unfoldable pub walk : Components → List String → ExtensionResult Components
  walk cur [] = ok cur
  walk cur (part ∷ parts) = if is_empty part then walk cur parts else do
    check_link (cur ++ part ∷ []) (fs.symlink_metadata (cur ++ part ∷ []))
    walk (cur ++ part ∷ []) parts

  unfoldable pub resolve_under_allowed_root : String → ExtensionResult Components
  unfolding validate_stage_relative_path walk starts_with
  resolve_under_allowed_root rel = do
    validate_stage_relative_path rel
    root ←
        map_err (λ e. runtime (text "allowedRoot is not accessible: " ∷ e))
          (fs.canonicalize cfg.allowed_root)
    cur ← walk root (split b'/' (trim rel))
    final_path ←
        map_err (λ e. runtime (text "could not canonicalize target path: " ∷ e))
          (fs.canonicalize cur)
    ensure (starts_with final_path root) (bad_value (text "resolved path escapes allowedRoot" ∷ []))
    ok final_path
