-- ===== src/Prelude/Text/Splitting.antt =====
-- str::split at a character.
use Prim.Native.Nat.{ℕ}
use Prim.Native.Char.{Char, code}
use Prim.Native.String.{String}
use mathlib.Core.List.{List, [], ◌∷◌}
use rust_sdk_mongodb_extensi.Prelude.Tests.{◌==◌, if◌then◌else◌}

abbrev prepend : Char → List String → List String
prepend c [] = String.◌∷◌ c "" ∷ []
prepend c (part ∷ parts) = String.◌∷◌ c part ∷ parts

-- The parts between the occurrences of the character.
unfoldable pub split : ℕ → String → List String
split k String.[] = "" ∷ []
split k (String.◌∷◌ c s) =
    let parts = split k s in if code c == k then "" ∷ parts else prepend c parts
