-- ===== src/Tests/Federations.antt =====
-- Files of JSON Lines.
use rust_sdk_mongodb_extensi.Prelude.{
  suc, Bool, String, ◌≡◌, refl, false, if◌then◌else◌, ◌==◌, length, none, some, [], ◌∷◌, ◌++◌,
  arith,
}
use rust_sdk_mongodb_extensi.Bson
use rust_sdk_mongodb_extensi.Json.{object, end}
use rust_sdk_mongodb_extensi.Source.Ops.{Bytes}
use rust_sdk_mongodb_extensi.Prelude.Text.{trim, trim_start_matches, trim_end_matches}
use rust_sdk_mongodb_extensi.Prelude.Text.Splitting.{split}
use rust_sdk_mongodb_extensi.Errors.{Message, Result, ok, err}
use rust_sdk_mongodb_extensi.Federation.Lines.{read_jsonl_physical_line}
use rust_sdk_mongodb_extensi.Federation.Lines.Read.{Reads, read_jsonl_physical_line-Reads}
use rust_sdk_mongodb_extensi.Federation.Lines.Read.{ended}
use rust_sdk_mongodb_extensi.Federation.Cursor.{
  Formats, Context, ReadLocalJsonlState, drain, parse_jsonl_object_line,
}
use rust_sdk_mongodb_extensi.Federation.Cursor.Returned.{Reports, drain-Reports}
use rust_sdk_mongodb_extensi.Federation.Cursor.Rows.{
  Holds, no_line, blank_line, document_line, denotes,
}
use rust_sdk_mongodb_extensi.Federation.Cursor.Rows.Drained.{remaining, stream}
use rust_sdk_mongodb_extensi.Search.Config.{strip_prefix}
use rust_sdk_mongodb_extensi.Federation.Options.{
  OptionDecoder, extension_config_from_context, open_cursor, parse_u64,
}
use rust_sdk_mongodb_extensi.Federation.Options.Safe.{
  IsSafe, DeniesLinks, extension_config_from_context-IsSafe,
}
use rust_sdk_mongodb_extensi.Federation.Options.Opened.{IsOpened, open_cursor-stream}
use rust_sdk_mongodb_extensi.Federation.Paths.{
  Components, FileSystem, JsonlExtensionConfig, resolve_under_allowed_root,
}
use rust_sdk_mongodb_extensi.Federation.Paths.Confined.{
  AreSegments, Walked, resolve_under_allowed_root-confined,
}

read_jsonl_physical_line-Reads_example :
    Reads none 8 (65 ∷ 66 ∷ 10 ∷ 67 ∷ []) (read_jsonl_physical_line none 8 (65 ∷ 66 ∷ 10 ∷ 67 ∷ []))
read_jsonl_physical_line-Reads_example =
    read_jsonl_physical_line-Reads none 8 (65 ∷ 66 ∷ 10 ∷ 67 ∷ []) (omega arith)

-- A file system without links, whose paths are canonical.
abbrev plain : FileSystem
plain = record { display = λ p. ""; canonicalize = λ p. ok p; symlink_metadata = λ p. ok false }

abbrev cfg : JsonlExtensionConfig
cfg = record {
  allowed_root = "federation-data" ∷ [];
  allow_symlinks = false;
  max_line_bytes = 1048576;
  max_document_bytes = 16777216;
}

resolved :
    resolve_under_allowed_root plain cfg "nested/a.jsonl"
    ≡ ok ("federation-data" ∷ "nested" ∷ "a.jsonl" ∷ [])
unfolding resolve_under_allowed_root trim split
resolved = refl

resolve_under_allowed_root-confined_example :
    (root : Components) × (more : Components) × (cur : Components) × (plain.canonicalize
        cfg.allowed_root
      ≡ ok root)
    × ("federation-data" ∷ "nested" ∷ "a.jsonl" ∷ [] ≡ root ++ more)
    × AreSegments (split b'/' (trim "nested/a.jsonl"))
    × Walked plain cfg root cur
    × (plain.canonicalize cur ≡ ok ("federation-data" ∷ "nested" ∷ "a.jsonl" ∷ []))
resolve_under_allowed_root-confined_example =
    resolve_under_allowed_root-confined plain cfg "nested/a.jsonl" resolved

-- Two lines: a blank one, and the letter A, which stands for the empty object.
abbrev lines : Bytes
lines = 32 ∷ 10 ∷ 65 ∷ 10 ∷ []

abbrev text_of : Bytes → Result Message String
text_of (suc b ∷ []) = if b == 64 then ok "A" else ok " "
text_of bytes = ok ""

abbrev formats : Formats
formats = record {
  from_utf8 = text_of;
  from_str = λ s. ok (object end);
  to_document = λ v. ok Bson.end;
  to_vec = λ d. ok (5 ∷ 0 ∷ 0 ∷ 0 ∷ 0 ∷ []);
}

abbrev cursor : ReadLocalJsonlState
cursor = record {
  reader = lines;
  physical_line_no = 0;
  cfg = cfg;
  max_documents = some 3;
  returned = 0;
  eof_logged = false;
}

abbrev context : Context
context = record { metrics = none; log = [] }

drain-Reports_example : Reports (drain formats none 5 cursor context)
drain-Reports_example = drain-Reports formats cursor context 5 (omega arith)

-- Options of one line, which asks for lines of at most 64 bytes.
abbrev decoder : OptionDecoder
decoder = record {
  from_utf8 = λ b. ok "maxLineBytes: 64";
  from_str = λ s. err [];
  path_buf = λ s. "federation-data" ∷ [];
  parse_args = λ d. ok ("nested/a.jsonl", some 3);
}

abbrev small_lines : JsonlExtensionConfig
small_lines = record {
  allowed_root = "federation-data" ∷ [];
  allow_symlinks = false;
  max_line_bytes = 64;
  max_document_bytes = 16777216;
}

small_options : extension_config_from_context decoder (some (1 ∷ [])) ≡ ok small_lines
unfolding extension_config_from_context trim split strip_prefix trim_start_matches trim_end_matches
    parse_u64
small_options = refl

extension_config_from_context-IsSafe_example :
    IsSafe decoder small_lines × DeniesLinks decoder (some (1 ∷ [])) small_lines
extension_config_from_context-IsSafe_example =
    extension_config_from_context-IsSafe decoder (some (1 ∷ [])) small_options

abbrev opener : Bool → Components → Result Message Bytes
opener no_follow path = ok lines

abbrev opened_cursor : ReadLocalJsonlState
opened_cursor = record cursor { cfg = small_lines }

cursor-Holds : Holds formats small_lines 0 lines (Bson.end ∷ [])
unfolding trim parse_jsonl_object_line
cursor-Holds =
    blank_line {line = 32 ∷ []} {t = " "} (ended ((λ q. cc), tt) refl) (omega arith) refl refl (
      document_line {line = 65 ∷ []} {t = "A"} (ended ((λ q. cc), tt) refl) (omega arith) refl refl
        (denotes refl refl refl (omega arith)) no_line)

cursor-opened :
    (open_cursor decoder plain opener ("nested/a.jsonl", some 3) (some (1 ∷ [])) context).0
    ≡ ok opened_cursor
unfolding open_cursor resolve_under_allowed_root trim split extension_config_from_context
    strip_prefix trim_start_matches trim_end_matches parse_u64
cursor-opened = refl

open_cursor-stream_example :
    IsOpened decoder plain opener ("nested/a.jsonl", some 3) (some (1 ∷ [])) opened_cursor
    × (drain formats none
          (length (stream (remaining (some 3) 0 (Bson.end ∷ []))))
          opened_cursor
          context
        ≡ stream (remaining (some 3) 0 (Bson.end ∷ [])))
open_cursor-stream_example =
    open_cursor-stream decoder plain opener formats ("nested/a.jsonl", some 3) (some (1 ∷ []))
      context context (Bson.end ∷ []) cursor-opened (omega arith) (omega arith) cursor-Holds
