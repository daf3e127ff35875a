-- ===== src/Federation/Options/Opened.antt =====
-- A cursor from its opening to the end of its file.
use mathlib.Core.Path.{subst}
use rust_sdk_mongodb_extensi.Prelude.{
  ℕ, ◌<◌, ◌≡◌, refl, ap, ◌∙◌, String, Bool, true, false, not, Option, none, List, length,
}
use rust_sdk_mongodb_extensi.Errors.{Message, ExtensionResult, Result, ok, err, map_err-eq-ok}
use rust_sdk_mongodb_extensi.Bson.{Document}
use rust_sdk_mongodb_extensi.Source.Ops.{Bytes}
use rust_sdk_mongodb_extensi.Federation.Lines.{u64_max}
use rust_sdk_mongodb_extensi.Federation.Paths.{
  Components, FileSystem, JsonlExtensionConfig, resolve_under_allowed_root,
}
use rust_sdk_mongodb_extensi.Federation.Cursor.{Formats, ReadLocalJsonlState, Context, drain}
use rust_sdk_mongodb_extensi.Federation.Cursor.Rows.{Holds}
use rust_sdk_mongodb_extensi.Federation.Cursor.Rows.Drained.{remaining, stream, IsLimit, drain-rows}
use rust_sdk_mongodb_extensi.Federation.Options.{
  OptionDecoder, extension_config_from_context, open_file_for_read, opened, open_resolved,
  open_with, open_cursor,
}

module _ (decoder : OptionDecoder) (fs : FileSystem)
    (open_file : (no_follow : Bool) → Components → Result Message Bytes) where
  -- A cursor at the start of the file that the path resolves to, under the configuration that the
  -- host's options stand for.
  pub IsOpened : String × Option ℕ → Option Bytes → ReadLocalJsonlState → Type 0
  IsOpened args options s =
      (extension_config_from_context decoder options ≡ ok s.cfg)
      × ((resolved : Components) × (resolve_under_allowed_root fs s.cfg args.0 ≡ ok resolved)
          × (open_file (not s.cfg.allow_symlinks) resolved ≡ ok s.reader)
          × (s.physical_line_no ≡ 0)
          × (s.max_documents ≡ args.1)
          × (s.returned ≡ 0))

  -- An error, or an opened cursor.
  abbrev OpenedOr : String × Option ℕ → Option Bytes → ExtensionResult ReadLocalJsonlState → Type 0
  OpenedOr args options (ok s) = IsOpened args options s
  OpenedOr args options (err e) = Unit

  read-eq-ok :
      (path : Components) (allow : Bool) {bytes : Bytes}
      → open_file_for_read decoder fs open_file path allow ≡ ok bytes
      → open_file (not allow) path ≡ ok bytes
  unfolding open_file_for_read
  read-eq-ok path true h = map_err-eq-ok _ (open_file false path) h
  read-eq-ok path false h = map_err-eq-ok _ (open_file true path) h

  opened-OpenedOr :
      (cfg : JsonlExtensionConfig) (args : String × Option ℕ) (options : Option Bytes)
      (resolved : Components) (r : ExtensionResult Bytes)
      → extension_config_from_context decoder options ≡ ok cfg
      → resolve_under_allowed_root fs cfg args.0 ≡ ok resolved
      → open_file_for_read decoder fs open_file resolved cfg.allow_symlinks ≡ r
      → OpenedOr args options (opened decoder fs open_file cfg args.1 r)
  unfolding IsOpened
  opened-OpenedOr cfg args options resolved (err e) c p q = tt
  opened-OpenedOr cfg args options resolved (ok bytes) c p q =
      (c, (resolved, p, read-eq-ok resolved cfg.allow_symlinks q, refl, refl, refl))

  resolved-OpenedOr :
      (cfg : JsonlExtensionConfig) (args : String × Option ℕ) (options : Option Bytes) (c : Context)
      (r : ExtensionResult Components)
      → extension_config_from_context decoder options ≡ ok cfg
      → resolve_under_allowed_root fs cfg args.0 ≡ r
      → OpenedOr args options (open_resolved decoder fs open_file cfg args c r).0
  resolved-OpenedOr cfg args options c (err e) o p = tt
  resolved-OpenedOr cfg args options c (ok resolved) o p =
      opened-OpenedOr cfg args options resolved _ o p refl

  with-OpenedOr :
      (args : String × Option ℕ) (options : Option Bytes) (c : Context)
      (r : ExtensionResult JsonlExtensionConfig)
      → extension_config_from_context decoder options ≡ r
      → OpenedOr args options (open_with decoder fs open_file args c r).0
  with-OpenedOr args options c (err e) o = tt
  with-OpenedOr args options c (ok cfg) o = resolved-OpenedOr cfg args options c _ o refl

  -- A cursor that is opened has the configuration that the host's options stand for, and reads the
  -- file that its path resolves to under the allowed root, opened without following a link where
  -- links are not allowed. If the lines of that file are within the limit, and each is blank or is a
  -- JSON object that stands for a document of an allowed size, its calls give these documents in
  -- order, at most as many as were asked for, and then the end.
  pub open_cursor-stream :
      (formats : Formats) (args : String × Option ℕ) (options : Option Bytes) (c c' : Context)
      (docs : List Document) {s : ReadLocalJsonlState}
      → (open_cursor decoder fs open_file args options c).0 ≡ ok s
      → s.cfg.max_line_bytes < u64_max
      → IsLimit args.1
      → Holds formats s.cfg 0 s.reader docs
      → IsOpened args options s
        × (drain formats none (length (stream (remaining args.1 0 docs))) s c'
            ≡ stream (remaining args.1 0 docs))
  unfolding open_cursor IsOpened
  open_cursor-stream formats args options c c' docs {s} h big few holds =
      let o = subst (OpenedOr args options) h (with-OpenedOr args options c _ refl) in
      let (configured, (resolved, p, q, line, limit, returned)) = o in
      let holds' : Holds formats s.cfg s.physical_line_no s.reader docs = rw line holds in
      let few' : IsLimit s.max_documents = rw limit few in
      let all = drain-rows formats s.cfg big docs s c' holds' refl few' in
      let same : remaining s.max_documents s.returned docs ≡ remaining args.1 0 docs =
        ap (λ m. remaining m s.returned docs) limit ∙ ap (λ n. remaining args.1 n docs) returned in
      (o, subst (λ ds. drain formats none (length (stream ds)) s c' ≡ stream ds) same all)
