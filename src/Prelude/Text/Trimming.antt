-- ===== src/Prelude/Text/Trimming.antt =====
-- A trimmed text has no white space left at its ends, so trimming it again changes nothing.
use Prim.Native.Char.{code}
use Prim.Native.String.{String, [], ◌∷◌}
use mathlib.Core.Path.{◌≡◌, refl, ap, ◌∙◌}
use mathlib.Core.Bool.{false, ◌&&◌}
use mathlib.Core.Logic.{inl, inr}
use rust_sdk_mongodb_extensi.Prelude.Tests.{Bool-cases}
use rust_sdk_mongodb_extensi.Prelude.Text.{is_empty, is_whitespace, trim_start, trim_end, trim}

-- The text is empty or begins with no white space.
abbrev Begins : String → Type 0
Begins [] = Unit
Begins (c ∷ s) = is_whitespace (code c) ≡ false

trim_start-Begins : (s : String) → Begins (trim_start s)
unfolding trim_start
trim_start-Begins [] = tt
trim_start-Begins (c ∷ s) = elim (Bool-cases (is_whitespace (code c))) [
  | inl e ↦ rw e (trim_start-Begins s)
  | inr e ↦ rw e e
]

trim_start_of_Begins : (s : String) → Begins s → trim_start s ≡ s
unfolding trim_start
trim_start_of_Begins [] h = refl
trim_start_of_Begins (c ∷ s) h = rw h

trim_end-Begins : (s : String) → Begins s → Begins (trim_end s)
unfolding trim_end
trim_end-Begins [] h = tt
trim_end-Begins (c ∷ s) h = rw h h

trim_end-trim_end : (s : String) → trim_end (trim_end s) ≡ trim_end s
unfolding trim_end
trim_end-trim_end [] = refl
trim_end-trim_end (c ∷ s) = elim (Bool-cases (is_whitespace (code c) && is_empty (trim_end s))) [
  | inl e ↦ rw e
  | inr e ↦ rw e (rw (trim_end-trim_end s, e))
]

-- str::trim is idempotent.
pub trim-trim : (s : String) → trim (trim s) ≡ trim s
unfolding trim
trim-trim s =
    ap trim_end (trim_start_of_Begins _ (trim_end-Begins _ (trim_start-Begins s)))
    ∙ trim_end-trim_end (trim_start s)
