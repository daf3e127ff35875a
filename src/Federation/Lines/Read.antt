-- ===== src/Federation/Lines/Read.antt =====
-- A line that is read is the file up to the next newline, within the limit.
use mathlib.Core.List.{append_assoc, append-nil}
use rust_sdk_mongodb_extensi.Prelude.{
  ℕ, suc, false, ◌+◌, min, ◌≤◌, ◌<◌, ◌≡◌, ◌≢◌, refl, sym, ap, ◌∙◌, Bool-cases, inl, inr, Option,
  none, some, List, [], ◌∷◌, ◌++◌, length, ltb, ◌==◌, arith,
}
use rust_sdk_mongodb_extensi.Errors.{Message, ok, err}
use rust_sdk_mongodb_extensi.Federation.Lines.{
  u64_max, newline, LineRead, at_end, read_from, read_jsonl_physical_line,
}

-- Bytes without a newline.
abbrev pub IsLine : List ℕ → Type 0
IsLine [] = Unit
IsLine (b ∷ bytes) = (b ≢ newline) × IsLine bytes

-- How the bytes of a file are taken apart: a line that its newline ends, or, at the end of the file,
-- a line that is not empty.
pub data Splits (bytes line rest : List ℕ) : Type 0 where
  ended : IsLine line → bytes ≡ line ++ newline ∷ rest → Splits bytes line rest
  last : IsLine line → bytes ≡ line → rest ≡ [] → line ≢ [] → Splits bytes line rest

length-snoc : (xs : List ℕ) (x : ℕ) → length (xs ++ x ∷ []) ≡ suc (length xs)
length-snoc [] x = refl
length-snoc (y ∷ xs) x = omega (arith, length-snoc xs x)

snoc-IsLine : (xs : List ℕ) (x : ℕ) → IsLine xs → x ≢ newline → IsLine (xs ++ x ∷ [])
snoc-IsLine [] x p q = (q, tt)
snoc-IsLine (y ∷ xs) x (p, ps) q = (p, snoc-IsLine xs x ps q)

module _ (fault : Option Message) (max : ℕ) where
  -- What a line that is read is, for the whole file.
  abbrev pub Reads : List ℕ → LineRead → Type 0
  Reads bytes (ok (some line), rest) = Splits bytes line rest × (length line ≤ max)
  Reads bytes (ok none, rest) = (bytes ≡ []) × (rest ≡ [])
  Reads bytes (err e, rest) = Unit

  at_end-Reads :
      (bytes buf : List ℕ)
      → IsLine buf
      → bytes ≡ buf
      → length buf ≤ max
      → Reads bytes (at_end fault buf, [])
  at_end-Reads bytes buf p e few = go fault buf p e few
    where
      go :
          (f : Option Message) (buf : List ℕ)
          → IsLine buf
          → bytes ≡ buf
          → length buf ≤ max
          → Reads bytes (at_end f buf, [])
      go (some m) buf p e few = tt
      go none [] p e few = (e, refl)
      go none (b ∷ buf) p e few = (last p e refl (λ q. cc), few)

  read_from-Reads :
      (whole bytes buf : List ℕ) (n : ℕ)
      → IsLine buf
      → whole ≡ buf ++ bytes
      → n ≡ length buf
      → length buf ≤ max
      → max < u64_max
      → Reads whole (read_from fault max bytes buf n)
  unfolding read_from
  read_from-Reads whole [] buf n p e k few big = at_end-Reads whole buf p (e ∙ append-nil buf) few
  read_from-Reads whole (b ∷ bytes) buf n p e k few big = elim (Bool-cases (b == newline)) [
    | inl q ↦
        let same : b ≡ newline = ground (arith, q) in
        rw q (ended p (e ∙ ap (λ x. buf ++ x ∷ bytes) same), few)
    | inr q ↦ elim (Bool-cases (ltb max (min (suc n) u64_max))) [
      | inl l ↦ rw (q, l) tt
      | inr l ↦
          let other : b ≢ newline = ground (arith, q) in
          let fits : length (buf ++ b ∷ []) ≤ max = ground (arith, l, k, length-snoc buf b) in
          rw (q, l)
            (read_from-Reads whole bytes (buf ++ b ∷ []) (min (suc n) u64_max)
              (snoc-IsLine buf b p other) (e ∙ sym (append_assoc buf (b ∷ []) bytes))
              (ground (arith, k, few, big, length-snoc buf b)) fits big)
    ]
  ]

  -- With a limit below the largest u64, a line that is read has no newline and no more bytes than the
  -- limit, and it is the file up to its first newline, which is taken off with it, or the rest of the
  -- file where that has none; and the end is only reported for a file that has no byte left.
  pub read_jsonl_physical_line-Reads :
      (bytes : List ℕ) → max < u64_max → Reads bytes (read_jsonl_physical_line fault max bytes)
  unfolding read_jsonl_physical_line
  read_jsonl_physical_line-Reads bytes big =
      read_from-Reads bytes bytes [] 0 tt refl refl (omega arith) big

module _ (max : ℕ) (big : max < u64_max) where
  read_from-ended :
      (line rest buf : List ℕ) (n : ℕ)
      → IsLine line
      → n ≡ length buf
      → length buf + length line ≤ max
      → read_from none max (line ++ newline ∷ rest) buf n ≡ (ok (some (buf ++ line)), rest)
  unfolding read_from
  read_from-ended [] rest buf n p k few = ap (λ l. (ok (some l), rest)) (sym (append-nil buf))
  read_from-ended (b ∷ line) rest buf n (p, ps) k few =
      let other : (b == newline) ≡ false = ground (arith, p) in
      let fits : ltb max (min (suc n) u64_max) ≡ false = ground (arith, few, k, big) in
      rw (other, fits)
        (read_from-ended line rest (buf ++ b ∷ []) (min (suc n) u64_max) ps
            (omega (arith, k, few, big, length-snoc buf b)) (omega (arith, few, length-snoc buf b))
          ∙ ap (λ l. (ok (some l), rest)) (append_assoc buf (b ∷ []) line))

  read_from-last :
      (line buf : List ℕ) (n : ℕ)
      → IsLine line
      → n ≡ length buf
      → length buf + length line ≤ max
      → buf ++ line ≢ []
      → read_from none max line buf n ≡ (ok (some (buf ++ line)), [])
  unfolding read_from
  read_from-last [] buf n p k few some_byte = at_end-some buf some_byte
    where
      at_end-some :
          (xs : List ℕ)
          → xs ++ [] ≢ []
          → ◌≡◌ {A = LineRead} (at_end none xs, []) (ok (some (xs ++ [])), [])
      at_end-some [] h = absurd (h refl)
      at_end-some (x ∷ xs) h = ap (λ l. (ok (some l), [])) (sym (append-nil (x ∷ xs)))
  read_from-last (b ∷ line) buf n (p, ps) k few some_byte =
      let other : (b == newline) ≡ false = ground (arith, p) in
      let fits : ltb max (min (suc n) u64_max) ≡ false = ground (arith, few, k, big) in
      let whole = append_assoc buf (b ∷ []) line in
      rw (other, fits)
        (read_from-last line (buf ++ b ∷ []) (min (suc n) u64_max) ps
            (omega (arith, k, few, big, length-snoc buf b)) (omega (arith, few, length-snoc buf b))
            (λ q. some_byte (sym whole ∙ q))
          ∙ ap (λ l. (ok (some l), [])) whole)

  -- Conversely, a file without a fault that can be taken apart into a line within the limit and the
  -- bytes after it is read that way.
  pub Splits-read_jsonl_physical_line :
      (bytes line rest : List ℕ)
      → Splits bytes line rest
      → length line ≤ max
      → read_jsonl_physical_line none max bytes ≡ (ok (some line), rest)
  unfolding read_jsonl_physical_line
  Splits-read_jsonl_physical_line bytes line rest (ended p e) few =
      ap (λ b. read_from none max b [] 0) e
      ∙ read_from-ended line rest [] 0 p refl (omega (arith, few))
  Splits-read_jsonl_physical_line bytes line rest (last p e none_left some_byte) few =
      ap (λ b. read_from none max b [] 0) e
      ∙ (read_from-last line [] 0 p refl (omega (arith, few)) some_byte
          ∙ ap (λ r. (ok (some line), r)) (sym none_left))
