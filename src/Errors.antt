-- ===== src/Errors.antt =====
-- extension-sdk-mongodb/src/error.rs: the error type of the stages, its status code and reason,
-- and the results that carry it. A panic is a third outcome, which `ffi_boundary` catches.
use rust_sdk_mongodb_extensi.Prelude.{
  List, ◌∷◌, String, ◌≡◌, refl, ap, Option, none, some, Bool, true, false,
}
use rust_sdk_mongodb_extensi.Prelude.Int.{ℤ, pos, negsuc}

-- The message of an error, as the pieces of its `format!` call: literal text, a text shown by
-- `{}`, a text shown by `{:?}`, and a number.
pub data Part : Type 0 where
  text : String → Part
  debug : String → Part
  number : ℤ → Part

abbrev pub Message : Type 0
Message = List Part

pub data ExtensionError : Type 0 where
  bad_value : Message → ExtensionError
  failed_to_parse : Message → ExtensionError
  runtime : Message → ExtensionError
  host_error : ℤ → Message → ExtensionError

-- MONGO_EXTENSION_STATUS_OK and MONGO_EXTENSION_STATUS_RUNTIME_ERROR of the ABI.
abbrev pub status_ok_code : ℤ
status_ok_code = pos 0

abbrev pub status_runtime_error_code : ℤ
status_runtime_error_code = negsuc 0

unfoldable pub status_code : ExtensionError → ℤ
status_code (host_error code reason) = code
status_code (bad_value s) = status_runtime_error_code
status_code (failed_to_parse s) = status_runtime_error_code
status_code (runtime s) = status_runtime_error_code

unfoldable pub status_reason : ExtensionError → Message
status_reason (bad_value s) = text "bad value: " ∷ s
status_reason (failed_to_parse s) = text "failed to parse: " ∷ s
status_reason (runtime s) = s
status_reason (host_error code reason) = reason

-- `Display`.
unfoldable pub display : ExtensionError → Message
display (bad_value s) = s
display (failed_to_parse s) = s
display (runtime s) = s
display (host_error code reason) = reason

-- `std::result::Result`.
pub data Result {ℓ κ} (E : Type ℓ) (A : Type κ) : Type (ℓ ⊔ κ) where
  ok : A → Result E A
  err : E → Result E A

abbrev pub ExtensionResult {ℓ} : Type ℓ → Type ℓ
ExtensionResult A = Result ExtensionError A

-- The operator `?`: an error returns early.
infixl 5 ◌>>=◌ ◌>>◌
abbrev pub ◌>>=◌ {ℓ κ υ} :
    {E : Type ℓ} {A : Type κ} {B : Type υ} → Result E A → (A → Result E B) → Result E B
err failure >>= continue = err failure
ok value >>= continue = continue value

abbrev pub ◌>>◌ {ℓ κ} : {E : Type ℓ} {B : Type κ} → Result E (Unit {0}) → Result E B → Result E B
first >> second = first >>= λ done. second

-- An early return when a test fails.
abbrev pub ensure {ℓ} : {E : Type ℓ} → Bool → E → Result E (Unit {0})
ensure false failure = err failure
ensure true failure = ok tt

abbrev pub ok_or {ℓ κ} : {E : Type ℓ} {A : Type κ} → E → Option A → Result E A
ok_or e none = err e
ok_or e (some a) = ok a

abbrev pub map_err {ℓ κ υ} :
    {E : Type ℓ} {D : Type κ} {A : Type υ} → (E → D) → Result E A → Result D A
map_err f (ok a) = ok a
map_err f (err e) = err (f e)

pub >>=-eq-ok {ℓ κ υ} :
    {E : Type ℓ} {A : Type κ} {B : Type υ} (first : Result E A) (continue : A → Result E B)
    {result : B}
    → (first >>= continue) ≡ ok result
    → (value : A) × (first ≡ ok value) × (continue value ≡ ok result)
>>=-eq-ok (err failure) continue same = cc
>>=-eq-ok (ok value) continue same = (value, refl, same)

pub ensure-eq-ok {ℓ} : {E : Type ℓ} (b : Bool) (e : E) → ensure b e ≡ ok tt → b ≡ true
ensure-eq-ok false failure same = cc
ensure-eq-ok true failure same = refl

pub ok-injective {ℓ κ} :
    {E : Type ℓ} {A : Type κ} {a b : A} → ◌≡◌ {A = Result E A} (ok a) (ok b) → a ≡ b
ok-injective h = cc

pub err-injective {ℓ κ} :
    {E : Type ℓ} {A : Type κ} {a b : E} → ◌≡◌ {A = Result E A} (err a) (err b) → a ≡ b
err-injective h = cc

pub ok_or-eq-ok {ℓ κ} :
    {E : Type ℓ} {A : Type κ} (e : E) (o : Option A) {a : A} → ok_or e o ≡ ok a → o ≡ some a
ok_or-eq-ok e none h = cc
ok_or-eq-ok e (some a) h = cc

pub map_err-eq-ok {ℓ κ υ} :
    {E : Type ℓ} {D : Type κ} {A : Type υ} (f : E → D) (r : Result E A) {x : A}
    → map_err f r ≡ ok x
    → r ≡ ok x
map_err-eq-ok f (ok a) h = ap ok (ok-injective h)
map_err-eq-ok f (err e) h = cc
