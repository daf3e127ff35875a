-- ===== src/Federation/Cursor/Rows/Drained.antt =====
-- The calls of the cursor, over a whole file.
use rust_sdk_mongodb_extensi.Prelude.{
  take, ℕ, zero, suc, ◌-◌, ◌%◌, ◌^◌, ◌≤◌, ◌<◌, ◌≡◌, refl, ap, ◌∙◌, true, false, Bool-cases, inl,
  inr, Option, none, some, List, [], ◌∷◌, length, if_lem, arith,
}
use rust_sdk_mongodb_extensi.Errors.{ExtensionResult, ok}
use rust_sdk_mongodb_extensi.Bson.{Document}
use rust_sdk_mongodb_extensi.Stage.{Next, advanced, eof}
use rust_sdk_mongodb_extensi.Federation.Lines.{u64_max}
use rust_sdk_mongodb_extensi.Federation.Paths.{JsonlExtensionConfig}
use rust_sdk_mongodb_extensi.Federation.Cursor.Rows.{Holds, Gives, next_line-Gives}
use rust_sdk_mongodb_extensi.Federation.Cursor.{
  Formats, Context, ReadLocalJsonlState, Stepped, next_line, is_full, next, drain,
}

-- The documents that a cursor still returns.
pub remaining : Option ℕ → ℕ → List Document → List Document
remaining none returned docs = docs
remaining (some limit) returned docs = take (limit - returned) docs

abbrev pub IsLimit : Option ℕ → Type 0
IsLimit none = Unit
IsLimit (some limit) = limit ≤ u64_max

-- What the host sees of documents, and of the end after them.
pub stream : List Document → List (Option (ExtensionResult Next))
stream [] = some (ok eof) ∷ []
stream (d ∷ docs) = some (ok (advanced d none)) ∷ stream docs

module _ (formats : Formats) (cfg : JsonlExtensionConfig) where
  module _ (big : cfg.max_line_bytes < u64_max) where
    is_full-remaining :
        (limit : Option ℕ) (s : ReadLocalJsonlState) (docs : List Document)
        → is_full s limit ≡ true
        → remaining limit s.returned docs ≡ []
    unfolding remaining
    is_full-remaining none s docs h = cc
    is_full-remaining (some limit) s docs h =
        let over : limit - s.returned ≡ 0 = ground (arith, h) in ap (λ k. take k docs) over

    room-remaining :
        (limit : Option ℕ) (s : ReadLocalJsonlState) (d : Document) (docs : List Document)
        → IsLimit limit
        → is_full s limit ≡ false
        → remaining limit s.returned (d ∷ docs) ≡ d ∷ remaining limit (suc s.returned % 2 ^ 64) docs
    unfolding remaining
    room-remaining none s d docs l h = refl
    room-remaining (some limit) s d docs l h =
        let step : limit - s.returned ≡ suc (limit - (suc s.returned % 2 ^ 64)) =
          ground (arith, h, l) in
        ap (λ k. take k (d ∷ docs)) step

    next_line-Gives_at :
        (docs : List Document) (s : ReadLocalJsonlState) (c : Context)
        → Holds formats cfg s.physical_line_no s.reader docs
        → s.cfg ≡ cfg
        → Gives formats cfg docs s.max_documents s.returned
            (next_line formats none (suc (length s.reader)) s c)
    next_line-Gives_at docs s c h e =
        let fuel = suc (length s.reader) in
        let s' = record s { cfg = cfg } in
        let q : next_line formats none fuel s c ≡ next_line formats none fuel s' c =
          ap (λ k. next_line formats none fuel (record s { cfg = k }) c) e in
        rw q (
          next_line-Gives formats cfg big s.max_documents s.returned s.eof_logged fuel
            s.physical_line_no s.reader docs c h (omega arith))

    eof-first :
        (s : ReadLocalJsonlState) (c : Context) (ds : List Document)
        → ds ≡ []
        → (next formats none s c).0.0 ≡ some (ok eof)
        → drain formats none (length (stream ds)) s c ≡ stream ds
    unfolding drain stream
    eof-first s c ds e h = rw e (ap (λ r. r ∷ []) h)

    row-first :
        (s : ReadLocalJsonlState) (c : Context) (d : Document) (ds more : List Document)
        → ds ≡ d ∷ more
        → (next formats none s c).0.0 ≡ some (ok (advanced d none))
        → drain formats none
            (length (stream more))
            (next formats none s c).0.1
            (next formats none s c).1
          ≡ stream more
        → drain formats none (length (stream ds)) s c ≡ stream ds
    unfolding drain stream
    row-first s c d ds more e h k = rw e (
        ap
          (λ r.
            r
            ∷ drain formats none (length (stream more)) (next formats none s c).0.1
                (next formats none s c).1)
          h
        ∙ ap (λ rs. some (ok (advanced d none)) ∷ rs) k)

    next-full :
        (s : ReadLocalJsonlState) (c : Context)
        → is_full s s.max_documents ≡ true
        → (next formats none s c).0.0 ≡ some (ok eof)
    unfolding next
    next-full s c h = rw h (if_lem (λ (l : Stepped). l.0.0 ≡ some (ok eof)) s.eof_logged refl refl)

    next-room :
        (docs : List Document) (s : ReadLocalJsonlState) (c : Context)
        → Holds formats cfg s.physical_line_no s.reader docs
        → s.cfg ≡ cfg
        → is_full s s.max_documents ≡ false
        → Gives formats cfg docs s.max_documents s.returned (next formats none s c)
    unfolding next
    next-room docs s c h e room = rw room (next_line-Gives_at docs s c h e)

    remaining-nil : (limit : Option ℕ) (returned : ℕ) → remaining limit returned [] ≡ []
    unfolding remaining
    remaining-nil none returned = refl
    remaining-nil (some limit) returned = go (limit - returned)
      where
        go : (k : ℕ) → ◌≡◌ {A = List Document} (take k []) []
        go zero = refl
        go (suc k) = refl

    ends-empty :
        (s : ReadLocalJsonlState) (c : Context)
        → Holds formats cfg s.physical_line_no s.reader []
        → s.cfg ≡ cfg
        → (next formats none s c).0.0 ≡ some (ok eof)
    unfolding Gives
    ends-empty s c h e = elim (Bool-cases (is_full s s.max_documents)) [
      | inl full ↦ next-full s c full
      | inr room ↦ (next-room [] s c h e room).0
    ]

    -- Over a file without a fault, whose lines are within the limit, a limit below the largest u64,
    -- and are blank or hold an object of an allowed size, the calls of the cursor give the documents
    -- of the lines in their order, at most `maxDocuments` of them, and then the end.
    pub drain-rows :
        (docs : List Document) (s : ReadLocalJsonlState) (c : Context)
        → Holds formats cfg s.physical_line_no s.reader docs
        → s.cfg ≡ cfg
        → IsLimit s.max_documents
        → drain formats none (length (stream (remaining s.max_documents s.returned docs))) s c
          ≡ stream (remaining s.max_documents s.returned docs)
    unfolding Gives
    drain-rows [] s c h e l =
        eof-first s c _ (remaining-nil s.max_documents s.returned) (ends-empty s c h e)
    drain-rows (d ∷ docs) s c h e l = elim (Bool-cases (is_full s s.max_documents)) [
      | inl full ↦
          eof-first s c _ (is_full-remaining s.max_documents s (d ∷ docs) full) (next-full s c full)
      | inr room ↦
          let ((r0, s'), c') = next formats none s c in
          let (r, more, ec, em, er) = next-room (d ∷ docs) s c h e room in
          let l' : IsLimit s'.max_documents = rw em l in
          let rest = drain-rows docs s' c' more ec l' in
          row-first s c d _ (remaining s.max_documents (suc s.returned % 2 ^ 64) docs)
            (room-remaining s.max_documents s d docs l room) r (rw (em, er) at rest)
    ]
