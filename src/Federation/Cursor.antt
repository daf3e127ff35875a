-- ===== src/Federation/Cursor.antt =====
-- examples/data-federation/data-federation-extension/src/lib.rs: the cursor over a file of JSON lines.
-- The reader is the bytes that are left, and `fault` the message of the fault that ends them, if there
-- is one. The loop runs on fuel.
pub mod Returned
pub mod Rows
use rust_sdk_mongodb_extensi.Prelude.{
  ℕ, zero, suc, ◌+◌, ◌-◌, ◌%◌, ◌^◌, min, Bool, true, false, not, if◌then◌else◌, Option, none, some,
  String, List, [], ◌∷◌, ◌++◌, length, ltb, leb,
}
use rust_sdk_mongodb_extensi.Prelude.Int.{ℤ, pos}
use rust_sdk_mongodb_extensi.Prelude.Text.{is_empty, trim}
use rust_sdk_mongodb_extensi.Errors.{
  Message, text, number, ExtensionError, bad_value, failed_to_parse, display, ExtensionResult,
  Result, ok, err, ◌>>=◌, ◌>>◌, ensure, map_err,
}
use rust_sdk_mongodb_extensi.Bson.{Document}
use rust_sdk_mongodb_extensi.Json.{Json, object}
use rust_sdk_mongodb_extensi.Stage.{Next, advanced, eof}
use rust_sdk_mongodb_extensi.Source.Ops.{Bytes}
use rust_sdk_mongodb_extensi.Host.Metrics.{inc, u64_as_i64}
use rust_sdk_mongodb_extensi.Federation.Lines.{u64_max, read_jsonl_physical_line}
use rust_sdk_mongodb_extensi.Federation.Paths.{JsonlExtensionConfig}

-- std::str::from_utf8, serde_json::from_str, bson::to_document and bson::to_vec.
pub record Formats : Type 0 where
  pub from_utf8 : Bytes → Result Message String
  pub from_str : String → Result Message Json
  pub to_document : Json → Result Message Document
  pub to_vec : Document → Result Message Bytes

abbrev pub is_object : Json → Bool
is_object (object members) = true
is_object v = false

-- "line {physical_line_no}: ..."
abbrev pub at_line : ℕ → Message → Message
at_line physical_line_no m = text "line " ∷ number (pos physical_line_no) ∷ text ": " ∷ m

abbrev pub encoded_len : Result Message Bytes → ℕ
encoded_len (ok bytes) = length bytes
encoded_len (err e) = u64_max

abbrev pub oversized : ℕ → ℕ → ℕ → ExtensionError
oversized physical_line_no len max_document_bytes = bad_value (
    at_line physical_line_no (
      text "document encodes to "
      ∷ number (pos len)
      ∷ text " bytes, exceeds maxDocumentBytes ("
      ∷ number (pos max_document_bytes)
      ∷ text ")"
      ∷ []))

module _ (formats : Formats) where
  open formats use {from_utf8, from_str, to_document, to_vec}

  unfoldable pub parse_jsonl_object_line : String → ℕ → ℕ → ExtensionResult Document
  parse_jsonl_object_line line physical_line_no max_document_bytes = do
    v ← map_err (λ e. failed_to_parse (at_line physical_line_no e)) (from_str line)
    ensure (is_object v) (
        bad_value
          (at_line physical_line_no (text "JSON value must be an object, not array/scalar" ∷ [])))
    doc ← map_err (λ e. failed_to_parse (at_line physical_line_no e)) (to_document v)
    ensure (leb (encoded_len (to_vec doc)) max_document_bytes)
        (oversized physical_line_no (encoded_len (to_vec doc)) max_document_bytes)
    ok doc

-- The context of a call: its metrics document, if it has one, and what was logged, the latest first.
pub record Context : Type 0 where
  pub metrics : Option Document
  pub log : List Message

abbrev pub count : String → ℤ → Context → Context
count key delta c = elim c.metrics [
  | none ↦ c
  | some d ↦ record c { metrics = some (inc key delta d) }
]

abbrev pub say : Message → Context → Context
say m c = record c { log = m ∷ c.log }

pub record ReadLocalJsonlState : Type 0 where
  pub reader : Bytes
  pub physical_line_no : ℕ
  pub cfg : JsonlExtensionConfig
  pub max_documents : Option ℕ
  pub returned : ℕ
  pub eof_logged : Bool

-- What a call gives, which is none where the fuel ran out, and what it leaves behind.
abbrev pub Stepped : Type 0
Stepped = (Option (ExtensionResult Next) × ReadLocalJsonlState) × Context

abbrev pub at_eof : Message → ReadLocalJsonlState → Context → Stepped
at_eof m s c =
    if s.eof_logged
    then ((some (ok eof), s), c)
    else ((some (ok eof), record s { eof_logged = true }), say m c)

-- A new document; the number of documents is a u64.
abbrev pub emit : Document → ReadLocalJsonlState → Context → Stepped
emit doc s c = (
  (some (ok (advanced doc none)), record s { returned = suc s.returned % 2 ^ 64 }),
  count "documents_returned" (pos 1) c,
)

abbrev pub on_document : ExtensionResult Document → ReadLocalJsonlState → Context → Stepped
on_document (ok doc) s c = emit doc s c
on_document (err e) s c =
    ((some (err e), s), say (text "readLocalJsonl: " ∷ display e) (count "parse_errors" (pos 1) c))

abbrev pub numbered : ReadLocalJsonlState → ReadLocalJsonlState
numbered s = record s { physical_line_no = min (suc s.physical_line_no) u64_max }

abbrev pub is_full : ReadLocalJsonlState → Option ℕ → Bool
is_full s none = false
is_full s (some limit) = leb limit s.returned

module _ (formats : Formats) (fault : Option Message) where
  -- The rest of a round, with what the next round does.
  module _ (again : ReadLocalJsonlState → Context → Stepped) where
    abbrev pub on_trimmed : String → ReadLocalJsonlState → Context → Stepped
    on_trimmed trimmed s c =
        if is_empty trimmed
        then again s (count "empty_lines_skipped" (pos 1) c)
        else on_document
            (parse_jsonl_object_line formats trimmed s.physical_line_no s.cfg.max_document_bytes) s
            c

    abbrev pub on_text : Result Message String → ReadLocalJsonlState → Context → Stepped
    on_text (ok line) s c = on_trimmed (trim line) s c
    on_text (err e) s c =
        ((some (err (bad_value (at_line s.physical_line_no (text "not valid UTF-8: " ∷ e)))), s), c)

    abbrev pub on_line : ExtensionResult (Option Bytes) → ReadLocalJsonlState → Context → Stepped
    on_line (err e) s c = ((some (err e), s), c)
    on_line (ok none) s c = at_eof (text "readLocalJsonl: EOF (end of file)" ∷ []) s c
    on_line (ok (some line)) s c =
        on_text (formats.from_utf8 line) (numbered s)
          (count "lines_read" (pos 1) (count "bytes_read" (u64_as_i64 (length line)) c))

  -- The loop.
  unfoldable pub next_line : ℕ → ReadLocalJsonlState → Context → Stepped
  next_line zero s c = ((none, s), c)
  next_line (suc fuel) s c =
      let (r, rest) = read_jsonl_physical_line fault s.cfg.max_line_bytes s.reader in
      on_line (λ s' c'. next_line fuel s' c') r (record s { reader = rest }) c

  -- A line that is read takes at least one byte, so the number of bytes is fuel enough.
  unfoldable pub next : ReadLocalJsonlState → Context → Stepped
  unfolding next_line
  next s c =
      if is_full s s.max_documents
      then at_eof (text "readLocalJsonl: EOF (maxDocuments reached)" ∷ []) s c
      else next_line (suc (length s.reader)) s c

  -- Calls of next, one after another.
  unfoldable pub drain : ℕ → ReadLocalJsonlState → Context → List (Option (ExtensionResult Next))
  unfolding next
  drain zero s c = []
  drain (suc n) s c = let ((r, s'), c') = next s c in r ∷ drain n s' c'
