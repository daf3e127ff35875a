-- ===== src/Prelude/Text.antt =====
-- Native texts as the code uses `&str`: comparison, prefixes, trimming and splitting.
pub mod Trimming
pub mod Splitting
use Prim.Native.Nat.{ℕ}
use Prim.Native.Char.{Char, code}
use Prim.Native.String
use Prim.Native.String.{String, [], ◌∷◌}
use mathlib.Core.Path.{◌≡◌, refl}
use text.Mathlib.TextEquality.{eq_iff}
use mathlib.Core.Bool.{Bool, true, false, ◌&&◌, ◌||◌}
use text.Mathlib.Text
use rust_sdk_mongodb_extensi.Prelude.Tests.{leb, ◌==◌, if◌then◌else◌}

infix 50 ◌=ₛ◌
abbrev pub ◌=ₛ◌ : String → String → Bool
s =ₛ t = Text.◌==◌ s t

infixr 65 ◌+ₛ◌
abbrev pub ◌+ₛ◌ : String → String → String
s +ₛ t = String.◌++◌ s t

-- str::is_empty and str::starts_with a character.
abbrev pub is_empty : String → Bool
is_empty [] = true
is_empty (c ∷ s) = false

abbrev pub starts_with_char : ℕ → String → Bool
starts_with_char k [] = false
starts_with_char k (c ∷ s) = code c == k

-- str::contains and str::ends_with a character.
abbrev pub contains_char : ℕ → String → Bool
contains_char k [] = false
contains_char k (c ∷ s) = code c == k || contains_char k s

-- char::is_whitespace: the Unicode White_Space property.
pub is_whitespace : ℕ → Bool
is_whitespace k =
    (leb 9 k && leb k 13)
    || k == 32
    || k == 133
    || k == 160
    || k == 5760
    || (leb 8192 k && leb k 8202)
    || k == 8232
    || k == 8233
    || k == 8239
    || k == 8287
    || k == 12288

unfoldable pub trim_start : String → String
unfolding is_whitespace
trim_start [] = []
trim_start (c ∷ s) = if is_whitespace (code c) then trim_start s else c ∷ s

abbrev trim_cons : Char → String → Bool → String
trim_cons c rest drop = if drop && is_empty rest then [] else c ∷ rest

unfoldable pub trim_end : String → String
unfolding is_whitespace
trim_end [] = []
trim_end (c ∷ s) = trim_cons c (trim_end s) (is_whitespace (code c))

-- str::trim
unfoldable pub trim : String → String
unfolding trim_start trim_end
trim s = trim_end (trim_start s)

-- A test of two texts, both ways.
pub =ₛ→eq : (s t : String) → (s =ₛ t) ≡ true → s ≡ t
=ₛ→eq s t h = (eq_iff s t).0 h

pub =ₛ-refl : (s : String) → (s =ₛ s) ≡ true
=ₛ-refl s = (eq_iff s s).1 refl

-- str::ends_with a text: the text itself or its rest ends with it.
unfoldable pub ends_with : String → String → Bool
ends_with suffix [] = suffix =ₛ ""
ends_with suffix (c ∷ s) = suffix =ₛ (c ∷ s) || ends_with suffix s

abbrev strip_cons : ℕ → Char → String → String
strip_cons k c rest = if code c == k && is_empty rest then [] else c ∷ rest

-- str::trim_end_matches and str::trim_start_matches with a character.
unfoldable pub trim_end_matches : ℕ → String → String
trim_end_matches k [] = []
trim_end_matches k (c ∷ s) = strip_cons k c (trim_end_matches k s)

unfoldable pub trim_start_matches : ℕ → String → String
trim_start_matches k [] = []
trim_start_matches k (c ∷ s) = if code c == k then trim_start_matches k s else c ∷ s
