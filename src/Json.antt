-- ===== src/Json.antt =====
-- JSON values as `serde_json::Value` hands them to the code. A number is an integer of at
-- most 64 bits or a float; an object is its members, in order.
use rust_sdk_mongodb_extensi.Prelude.{
  ℕ, String, Bool, Option, none, some, List, [], ◌∷◌, if◌then◌else◌,
}
use rust_sdk_mongodb_extensi.Prelude.Int.{ℤ, pos}
use rust_sdk_mongodb_extensi.Prelude.Word
use rust_sdk_mongodb_extensi.Prelude.Word.{F64}
use rust_sdk_mongodb_extensi.Prelude.Text.{◌=ₛ◌}

mutual
  pub data Json : Type 0 where
    null : Json
    boolean : Bool → Json
    integer : ℤ → Json
    float : F64 → Json
    string : String → Json
    array : Elements → Json
    object : Members → Json

  pub data Elements : Type 0 where
    nil : Elements
    cons : Json → Elements → Elements

  pub data Members : Type 0 where
    end : Members
    member : String → Json → Members → Members

abbrev pub elements : Elements → List Json
elements nil = []
elements (cons v vs) = v ∷ elements vs

unfoldable pub find_member : String → Members → Option Json
find_member k end = none
find_member k (member j v ms) = if j =ₛ k then some v else find_member k ms

-- Value::get with a key: only an object has members.
unfoldable pub get : String → Json → Option Json
unfolding find_member
get k (object ms) = find_member k ms
get k _ = none

infixl 5 ◌>>=◌
abbrev ◌>>=◌ {ℓ κ} : {A : Type ℓ} {B : Type κ} → Option A → (A → Option B) → Option B
none >>= f = none
some a >>= f = f a

-- Value::pointer with two keys, neither of which is an index.
unfoldable pub pointer : (first second : String) → Json → Option Json
unfolding get
pointer first second value = do inner ← get first value; get second inner

abbrev pub as_str : Option Json → Option String
as_str (some (string s)) = some s
as_str _ = none

abbrev pub as_array : Option Json → Option (List Json)
as_array (some (array vs)) = some (elements vs)
as_array _ = none

abbrev pub as_f64 : Option Json → Option F64
as_f64 (some (integer n)) = some (Word.as_f64 n)
as_f64 (some (float v)) = some v
as_f64 _ = none

abbrev pub as_u64 : Option Json → Option ℕ
as_u64 (some (integer (pos n))) = some n
as_u64 _ = none

abbrev pub as_bool : Option Json → Option Bool
as_bool (some (boolean b)) = some b
as_bool _ = none
