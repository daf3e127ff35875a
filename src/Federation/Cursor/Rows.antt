-- ===== src/Federation/Cursor/Rows.antt =====
-- The rows of the cursor are the documents of the lines of the file.
pub mod Drained
use rust_sdk_mongodb_extensi.Prelude.{
  ℕ, zero, suc, min, ◌+◌, ◌-◌, ◌%◌, ◌^◌, ◌≤◌, ◌<◌, ◌≡◌, refl, sym, ap, ◌∙◌, Bool, true, false,
  Bool-cases, inl, inr, if◌then◌else◌, Option, none, some, String, List, [], ◌∷◌, ◌++◌, map, length,
  length-append, if_lem, leb, arith,
}
use rust_sdk_mongodb_extensi.Prelude.Int.{pos}
use rust_sdk_mongodb_extensi.Prelude.Text.{is_empty, trim}
use rust_sdk_mongodb_extensi.Errors.{Message, text, ExtensionResult, Result, ok, err}
use rust_sdk_mongodb_extensi.Bson.{Document}
use rust_sdk_mongodb_extensi.Json.{Members, object}
use rust_sdk_mongodb_extensi.Stage.{Next, advanced, eof}
use rust_sdk_mongodb_extensi.Source.Ops.{Bytes}
use rust_sdk_mongodb_extensi.Host.Metrics.{u64_as_i64}
use rust_sdk_mongodb_extensi.Federation.Lines.{
  u64_max, newline, read_from, read_jsonl_physical_line,
}
use rust_sdk_mongodb_extensi.Federation.Lines.Read.{
  Splits, ended, last, Splits-read_jsonl_physical_line,
}
use rust_sdk_mongodb_extensi.Federation.Paths.{JsonlExtensionConfig}
use rust_sdk_mongodb_extensi.Federation.Cursor.{
  Formats, Context, count, say, ReadLocalJsonlState, Stepped, at_eof, emit, on_document, on_trimmed,
  on_text, on_line, numbered, next_line, is_full, next, drain, parse_jsonl_object_line,
}

abbrev pub line_after : ℕ → ℕ
line_after n = min (suc n) u64_max

module _ (formats : Formats) (cfg : JsonlExtensionConfig) where
  -- A text that is an object of JSON, which stands for a document of an allowed size.
  pub data Denotes (t : String) (d : Document) : Type 0 where
    denotes :
        {members : Members} {bytes : Bytes}
        → formats.from_str t ≡ ok (object members)
        → formats.to_document (object members) ≡ ok d
        → formats.to_vec d ≡ ok bytes
        → length bytes ≤ cfg.max_document_bytes
        → Denotes t d

  parse_jsonl_object_line-Denotes :
      (t : String) (n : ℕ) {d : Document}
      → Denotes t d
      → parse_jsonl_object_line formats t n cfg.max_document_bytes ≡ ok d
  unfolding parse_jsonl_object_line
  parse_jsonl_object_line-Denotes t n (denotes {bytes} is_json is_bson encoded small) =
      let fits : leb (length bytes) cfg.max_document_bytes ≡ true = ground (arith, small) in
      rw (is_json, is_bson, encoded, fits) refl

  -- The documents of a file, from the number of the line before it: each line is within the limit,
  -- and is blank, or holds the next document.
  pub data Holds : ℕ → Bytes → List Document → Type 0 where
    no_line : {n : ℕ} → Holds n [] []
    blank_line :
        {n : ℕ} {line rest file : Bytes} {t : String} {docs : List Document}
        → Splits file line rest
        → length line ≤ cfg.max_line_bytes
        → formats.from_utf8 line ≡ ok t
        → is_empty (trim t) ≡ true
        → Holds (line_after n) rest docs
        → Holds n file docs
    document_line :
        {n : ℕ} {line rest file : Bytes} {t : String} {d : Document} {docs : List Document}
        → Splits file line rest
        → length line ≤ cfg.max_line_bytes
        → formats.from_utf8 line ≡ ok t
        → is_empty (trim t) ≡ false
        → Denotes (trim t) d
        → Holds (line_after n) rest docs
        → Holds n file (d ∷ docs)

  -- What a call gives, for the documents that are left.
  pub Gives : List Document → Option ℕ → ℕ → Stepped → Type 0
  Gives [] limit returned ((r, s), c) =
      (r ≡ some (ok eof))
      × Holds s.physical_line_no s.reader []
      × (s.cfg ≡ cfg)
      × (s.max_documents ≡ limit)
      × (s.returned ≡ returned)
  Gives (d ∷ docs) limit returned ((r, s), c) =
      (r ≡ some (ok (advanced d none)))
      × Holds s.physical_line_no s.reader docs
      × (s.cfg ≡ cfg)
      × (s.max_documents ≡ limit)
      × (s.returned ≡ suc returned % 2 ^ 64)

  Splits-shorter : (file line rest : Bytes) → Splits file line rest → length rest < length file
  Splits-shorter file line rest (ended p e) =
      omega (arith, ap length e, length-append line (newline ∷ rest))
  Splits-shorter file [] rest (last p e none_left some_byte) = absurd (some_byte refl)
  Splits-shorter file (b ∷ line) rest (last p e none_left some_byte) =
      omega (arith, ap length e, ap length none_left)

  pub at_eof-Gives :
      (m : Message) (s : ReadLocalJsonlState) (c : Context)
      → Holds s.physical_line_no s.reader []
      → s.cfg ≡ cfg
      → Gives [] s.max_documents s.returned (at_eof m s c)
  unfolding Gives
  at_eof-Gives m s c h e =
      if_lem (Gives [] s.max_documents s.returned) s.eof_logged (refl, h, e, refl, refl)
        (refl, h, e, refl, refl)

  module _ (big : cfg.max_line_bytes < u64_max) (limit : Option ℕ) (returned : ℕ)
      (logged : Bool) where
    abbrev at : ℕ → Bytes → ReadLocalJsonlState
    at n file = record {
      reader = file;
      physical_line_no = n;
      cfg = cfg;
      max_documents = limit;
      returned = returned;
      eof_logged = logged;
    }

    abbrev counted : Bytes → Context → Context
    counted line c = count "lines_read" (pos 1) (count "bytes_read" (u64_as_i64 (length line)) c)

    next_line-trimmed :
        (fuel n : ℕ) (file line rest : Bytes) (t : String) (c : Context)
        → Splits file line rest
        → length line ≤ cfg.max_line_bytes
        → formats.from_utf8 line ≡ ok t
        → next_line formats none (suc fuel) (at n file) c
          ≡ on_trimmed formats none
              (λ s' c'. next_line formats none fuel s' c')
              (trim t)
              (at (line_after n) rest)
              (counted line c)
    unfolding next_line
    next_line-trimmed fuel n file line rest t c splits fits u =
        let again =
          λ (s' : ReadLocalJsonlState) (c' : Context). next_line formats none fuel s' c' in
        ap (λ p. on_line formats none again p.0 (at n p.1) c)
          (Splits-read_jsonl_physical_line cfg.max_line_bytes big file line rest splits fits)
        ∙ ap (λ r. on_text formats none again r (at (line_after n) rest) (counted line c)) u

    emit-Gives :
        (n : ℕ) (rest : Bytes) (d : Document) (docs : List Document) (c : Context)
        → Holds n rest docs
        → Gives (d ∷ docs) limit returned (emit d (at n rest) c)
    unfolding Gives
    emit-Gives n rest d docs c h = (refl, h, refl, refl, refl)

    next_line-empty :
        (fuel n : ℕ) (c : Context)
        → next_line formats none (suc fuel) (at n []) c
          ≡ at_eof (text "readLocalJsonl: EOF (end of file)" ∷ []) (at n []) c
    unfolding next_line read_jsonl_physical_line read_from
    next_line-empty fuel n c = refl

    pub next_line-Gives :
        (fuel n : ℕ) (file : Bytes) (docs : List Document) (c : Context)
        → Holds n file docs
        → length file < fuel
        → Gives docs limit returned (next_line formats none fuel (at n file) c)
    next_line-Gives zero n file docs c h few = absurd (omega (arith, few))
    next_line-Gives (suc fuel) n file docs c no_line few =
        rw (next_line-empty fuel n c)
          (at_eof-Gives (text "readLocalJsonl: EOF (end of file)" ∷ []) (at n []) c no_line refl)
    next_line-Gives (suc fuel) n file docs c (blank_line {line} {rest} {t} splits fits u b more)
          few =
        rw (next_line-trimmed fuel n file line rest t c splits fits u, b)
          (next_line-Gives fuel (line_after n) rest docs _ more
            (omega (arith, few, Splits-shorter file line rest splits)))
    next_line-Gives (suc fuel) n file docs c
          (document_line {line} {rest} {t} {d} splits fits u b p more) few =
        rw
          (
            next_line-trimmed fuel n file line rest t c splits fits u,
            b,
            parse_jsonl_object_line-Denotes (trim t) (line_after n) p,
          )
          (emit-Gives (line_after n) rest d _ (counted line c) more)
