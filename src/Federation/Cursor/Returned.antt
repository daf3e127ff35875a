-- ===== src/Federation/Cursor/Returned.antt =====
-- Each call of the cursor comes to an end.
use rust_sdk_mongodb_extensi.Prelude.{
  ℕ, zero, suc, min, ◌+◌, ◌≤◌, ◌<◌, ◌≡◌, ◌≢◌, refl, ap, ◌∙◌, ◌⊎◌, inl, inr, if_lem, Option, none,
  some, String, List, [], ◌∷◌, ◌++◌, length, length-append, ltb, ◌==◌, arith,
}
use rust_sdk_mongodb_extensi.Prelude.Int.{pos}
use rust_sdk_mongodb_extensi.Prelude.Text.{is_empty, trim}
use rust_sdk_mongodb_extensi.Errors.{Message, text, ExtensionResult, Result, ok, err}
use rust_sdk_mongodb_extensi.Bson.{Document}
use rust_sdk_mongodb_extensi.Stage.{Next, advanced, eof}
use rust_sdk_mongodb_extensi.Federation.Lines.{
  u64_max, newline, LineRead, at_end, read_from, read_jsonl_physical_line,
}
use rust_sdk_mongodb_extensi.Federation.Cursor.{
  Formats, Context, count, ReadLocalJsonlState, Stepped, at_eof, on_document, on_text, on_line,
  numbered, next_line, is_full, next, drain, parse_jsonl_object_line,
}

module _ (fault : Option Message) (max : ℕ) where
  -- A line that is read, and an error that is not the fault at the end, leave fewer bytes.
  pub Shrinks : ℕ → LineRead → Type 0
  Shrinks bound (ok (some line), rest) = length rest < bound
  Shrinks bound (ok none, rest) = Unit
  Shrinks bound (err e, rest) = (length rest < bound) ⊎ (fault ≢ none)

  at_end-Shrinks :
      (f : Option Message) (buf : List ℕ) → fault ≡ f → Shrinks (length buf) (at_end f buf, [])
  unfolding Shrinks
  at_end-Shrinks (some e) buf same = inr (λ q. cc (same, q))
  at_end-Shrinks none [] same = tt
  at_end-Shrinks none (b ∷ buf) same = omega arith

  read_from-Shrinks :
      (bytes buf : List ℕ) (n bound : ℕ)
      → length bytes + length buf ≡ bound
      → Shrinks bound (read_from fault max bytes buf n)
  unfolding read_from Shrinks
  read_from-Shrinks [] buf n bound h =
      let same : length buf ≡ bound = omega (arith, h) in rw⁻¹ same (at_end-Shrinks fault buf refl)
  read_from-Shrinks (b ∷ bytes) buf n bound h =
      if_lem (Shrinks bound) (b == newline) (omega (arith, h)) (
        if_lem (Shrinks bound) (ltb max (min (suc n) u64_max)) (inl (omega (arith, h))) (
          read_from-Shrinks bytes (buf ++ b ∷ []) (min (suc n) u64_max) bound
            (omega (arith, h, length-append buf (b ∷ [])))))

  pub read_jsonl_physical_line-Shrinks :
      (bytes : List ℕ) → Shrinks (length bytes) (read_jsonl_physical_line fault max bytes)
  unfolding read_jsonl_physical_line
  read_jsonl_physical_line-Shrinks bytes = read_from-Shrinks bytes [] 0 (length bytes) (omega arith)

module _ (formats : Formats) (fault : Option Message) where
  -- A call that did not run out of fuel: it reported the end, or it took bytes off the file, or the
  -- reader is at fault.
  pub Progresses : ℕ → Stepped → Type 0
  Progresses bound l =
      (r : ExtensionResult Next) × (l.0.0 ≡ some r)
      × ((r ≡ ok eof) ⊎ (length l.0.1.reader < bound) ⊎ (fault ≢ none))

  at_eof-Progresses :
      (bound : ℕ) (m : Message) (s : ReadLocalJsonlState) (c : Context)
      → Progresses bound (at_eof m s c)
  unfolding Progresses
  at_eof-Progresses bound m s c =
      if_lem (Progresses bound) s.eof_logged (ok eof, refl, inl refl) (ok eof, refl, inl refl)

  on_document-Progresses :
      (bound : ℕ) (r : ExtensionResult Document) (s : ReadLocalJsonlState) (c : Context)
      → length s.reader < bound
      → Progresses bound (on_document r s c)
  unfolding Progresses
  on_document-Progresses bound (ok doc) s c h = (ok (advanced doc none), refl, inr (inl h))
  on_document-Progresses bound (err e) s c h = (err e, refl, inr (inl h))

  on_text-Progresses :
      (bound : ℕ) (again : ReadLocalJsonlState → Context → Stepped) (line : Result Message String)
      (s : ReadLocalJsonlState) (c : Context)
      → length s.reader < bound
      → ((c' : Context) → Progresses bound (again s c'))
      → Progresses bound (on_text formats fault again line s c)
  unfolding Progresses
  on_text-Progresses bound again (err e) s c few h = (_, refl, inr (inl few))
  on_text-Progresses bound again (ok line) s c few h =
      if_lem (Progresses bound) (is_empty (trim line)) (h (count "empty_lines_skipped" (pos 1) c)) (
        on_document-Progresses bound
          (parse_jsonl_object_line formats (trim line) s.physical_line_no s.cfg.max_document_bytes)
          s c few)

  on_line-Progresses :
      (bound : ℕ) (again : ReadLocalJsonlState → Context → Stepped) (max : ℕ) (p : LineRead)
      (s : ReadLocalJsonlState) (c : Context)
      → Shrinks fault max bound p
      → ((s' : ReadLocalJsonlState) (c' : Context)
          → length s'.reader < bound
          → Progresses bound (again s' c'))
      → Progresses bound (on_line formats fault again p.0 (record s { reader = p.1 }) c)
  unfolding Progresses Shrinks
  on_line-Progresses bound again max (err e, rest) s c k h = (err e, refl, inr k)
  on_line-Progresses bound again max (ok none, rest) s c k h =
      at_eof-Progresses bound (text "readLocalJsonl: EOF (end of file)" ∷ [])
        (record s { reader = rest }) c
  on_line-Progresses bound again max (ok (some line), rest) s c k h =
      let s' = numbered (record s { reader = rest }) in
      on_text-Progresses bound again (formats.from_utf8 line) s' _ k (λ c'. h s' c' k)

  next_line-Progresses :
      (fuel bound : ℕ) (s : ReadLocalJsonlState) (c : Context)
      → length s.reader < fuel
      → length s.reader ≤ bound
      → Progresses bound (next_line formats fault fuel s c)
  unfolding next_line Progresses
  next_line-Progresses zero bound s c h few = absurd (omega (arith, h))
  next_line-Progresses (suc fuel) bound s c h few =
      let max = s.cfg.max_line_bytes in
      let (r, e, k) =
        on_line-Progresses (length s.reader) (λ s' c'. next_line formats fault fuel s' c') max
          (read_jsonl_physical_line fault max s.reader) s c
          (read_jsonl_physical_line-Shrinks fault max s.reader)
          (λ s' c' fewer.
            next_line-Progresses fuel (length s.reader) s' c' (omega (arith, h, fewer))
              (omega (arith, fewer))) in
      (
        r,
        e,
        elim k [
          | inl end_of_file ↦ inl end_of_file
          | inr (inl fewer) ↦ inr (inl (omega (arith, fewer, few)))
          | inr (inr faulty) ↦ inr (inr faulty)
        ],
      )

  -- Every call of the cursor returns, whatever the file holds; and it reports the end of the file, or
  -- takes bytes off it, unless the reader is at fault.
  pub next-Progresses :
      (s : ReadLocalJsonlState) (c : Context)
      → Progresses (length s.reader) (next formats fault s c)
  unfolding next
  next-Progresses s c =
      if_lem (Progresses (length s.reader)) (is_full s s.max_documents)
        (at_eof-Progresses (length s.reader)
          (text "readLocalJsonl: EOF (maxDocuments reached)" ∷ []) s c)
        (next_line-Progresses (suc (length s.reader)) (length s.reader) s c (omega arith)
          (omega arith))

-- One of the calls reported the end of the file.
pub Reports : List (Option (ExtensionResult Next)) → Type 0
Reports [] = ⊥
Reports (r ∷ rs) = (r ≡ some (ok eof)) ⊎ Reports rs

-- Where the reader has no fault, one call more than the file has bytes reaches its end, also past
-- lines that are too long, malformed or oversized.
pub drain-Reports :
    (formats : Formats) (s : ReadLocalJsonlState) (c : Context) (n : ℕ)
    → length s.reader < n
    → Reports (drain formats none n s c)
unfolding drain Reports Progresses
drain-Reports formats s c zero h = absurd (omega (arith, h))
drain-Reports formats s c (suc n) h =
    let ((r0, s'), c') = next formats none s c in
    let (r, e, k) = next-Progresses formats none s c in
    elim k [
      | inl end_of_file ↦ inl (e ∙ ap some end_of_file)
      | inr (inl fewer) ↦ inr (drain-Reports formats s' c' n (omega (arith, fewer, h)))
      | inr (inr faulty) ↦ absurd (faulty refl)
    ]
