-- ===== src/Prelude/Word.antt =====
-- The 64-bit floating point numbers, as their IEEE 754 bit patterns: what the code asks of one is
-- whether it is finite, and its conversion to i64 by `as`.
use Prim.Native.Nat.{ℕ, zero, suc, ◌+◌, ◌-◌, ◌*◌, ◌/◌, ◌%◌, ◌^◌, min}
use mathlib.Core.Path.{◌≡◌, refl}
use mathlib.Core.Bool.{Bool, not, ◌&&◌, ◌||◌}
use rust_sdk_mongodb_extensi.Prelude.Tests.{leb, ltb, ◌==◌, if◌then◌else◌}
use rust_sdk_mongodb_extensi.Prelude.Int.{ℤ, pos, negsuc, i64_max}

pub record F64 : Type 0 where
  pub bits : ℕ

abbrev pub exponent_field : F64 → ℕ
exponent_field v = v.bits / 2 ^ 52 % 2048

-- f64::is_finite: neither an infinity nor a NaN.
abbrev pub is_finite : F64 → Bool
is_finite v = not (exponent_field v == 2047)

-- The magnitude of a finite value, rounded toward zero.
abbrev pub whole : F64 → ℕ
whole v =
    let e = exponent_field v in
    let m = 2 ^ 52 + v.bits % 2 ^ 52 in
    if ltb e 1023 then 0 else if leb 1075 e then m * 2 ^ (e - 1075) else m / 2 ^ (1075 - e)

abbrev pub negate_i64 : ℕ → ℤ
negate_i64 n = if n == 0 then pos 0 else negsuc (min n (i64_max + 1) - 1)

-- `v as i64` of a finite value: toward zero, and saturating at the bounds.
unfoldable pub as_i64 : F64 → ℤ
as_i64 v = if v.bits / 2 ^ 63 % 2 == 0 then pos (min (whole v) i64_max) else negate_i64 (whole v)

-- The highest k ≤ `from` with 2 ^ k ≤ n, or 0.
pub top_bit : ℕ → ℕ → ℕ
top_bit zero n = 0
top_bit (suc k) n = let lower = top_bit k n in if leb (2 ^ suc k) n then suc k else lower

-- A quotient by 2 ^ shift, rounded to nearest and to even at a tie.
abbrev pub round_shift : ℕ → ℕ → ℕ
round_shift n zero = n
round_shift n (suc s) =
    let q = n / 2 ^ suc s in
    let r = n % 2 ^ suc s in if ltb (2 ^ s) r || (r == 2 ^ s && q % 2 == 1) then q + 1 else q

abbrev pub magnitude_bits : ℕ → ℕ → ℕ
magnitude_bits e n =
    if leb e 52
    then (e + 1023) * 2 ^ 52 + (n - 2 ^ e) * 2 ^ (52 - e)
    else (e + 1023) * 2 ^ 52 + (round_shift n (e - 52) - 2 ^ 52)

abbrev pub natural_bits : ℕ → ℕ
natural_bits n = if n == 0 then 0 else magnitude_bits (top_bit 64 n) n

-- `as f64` of an integer of at most 64 bits.
unfoldable pub as_f64 : ℤ → F64
unfolding top_bit
as_f64 (pos n) = record { bits = natural_bits n }
as_f64 (negsuc n) = record { bits = 2 ^ 63 + natural_bits (suc n) }

as_f64_tests :
    ((as_f64 (pos 1)).bits ≡ 0x3ff0000000000000)
    × ((as_f64 (negsuc 2)).bits ≡ 0xc008000000000000)
    × ((as_f64 (pos 9007199254740993)).bits ≡ 0x4340000000000000)
    × (as_i64 (as_f64 (negsuc 41)) ≡ negsuc 41)
unfolding as_f64 as_i64
as_f64_tests = (refl, refl, refl, refl)
