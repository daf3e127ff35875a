-- ===== src/Search/Filter/Values.antt =====
-- Field names and scalar values: the check accepts exactly those of the grammar.
use rust_sdk_mongodb_extensi.Prelude.{String, ◌≡◌, refl, true, arith}
use rust_sdk_mongodb_extensi.Errors.{ok, >>=-eq-ok}
use rust_sdk_mongodb_extensi.Bson.{
  Bson, string, boolean, int32, int64, double, document, array, other, Document, end, field, Items,
  nil, cons,
}
use rust_sdk_mongodb_extensi.Search.Filter.{
  single_entry, validate_field_name, single_field, is_scalar, require_scalar, require_scalars,
}
use rust_sdk_mongodb_extensi.Search.Filter.Grammar.{IsFieldName, IsScalar, AllItems}

pub validate_field_name_sound : (s : String) → validate_field_name s ≡ ok tt → IsFieldName s
unfolding validate_field_name
validate_field_name_sound String.[] h = cc
validate_field_name_sound (String.◌∷◌ c s) h = ground arith

pub validate_field_name_complete : (s : String) → IsFieldName s → validate_field_name s ≡ ok tt
unfolding validate_field_name
validate_field_name_complete String.[] h = absurd h
validate_field_name_complete (String.◌∷◌ c s) h = ground arith

pub is_scalar_sound : (v : Bson) → is_scalar v ≡ true → IsScalar v
is_scalar_sound (string s) h = tt
is_scalar_sound (boolean b) h = tt
is_scalar_sound (int32 n) h = tt
is_scalar_sound (int64 n) h = tt
is_scalar_sound (double x) h = ground arith
is_scalar_sound (document d) h = cc
is_scalar_sound (array vs) h = cc
is_scalar_sound (other n) h = cc

pub is_scalar_complete : (v : Bson) → IsScalar v → is_scalar v ≡ true
is_scalar_complete (string s) h = refl
is_scalar_complete (boolean b) h = refl
is_scalar_complete (int32 n) h = refl
is_scalar_complete (int64 n) h = refl
is_scalar_complete (double x) h = ground arith
is_scalar_complete (document d) h = absurd h
is_scalar_complete (array vs) h = absurd h
is_scalar_complete (other n) h = absurd h

pub require_scalar_sound : (v : Bson) (kind : String) → require_scalar v kind ≡ ok tt → IsScalar v
unfolding require_scalar
require_scalar_sound v kind h = is_scalar_sound v (ground arith)

pub require_scalar_complete :
    (v : Bson) (kind : String) → IsScalar v → require_scalar v kind ≡ ok tt
unfolding require_scalar
require_scalar_complete v kind h = rw (is_scalar_complete v h)

pub require_scalars_sound :
    (vs : Items) (kind : String) → require_scalars vs kind ≡ ok tt → AllItems IsScalar vs
unfolding require_scalars
require_scalars_sound nil kind h = tt
require_scalars_sound (cons v vs) kind h =
    let (_, first, rest) = >>=-eq-ok (require_scalar v kind) (λ _. require_scalars vs kind) h in
    (require_scalar_sound v kind first, require_scalars_sound vs kind rest)

pub require_scalars_complete :
    (vs : Items) (kind : String) → AllItems IsScalar vs → require_scalars vs kind ≡ ok tt
unfolding require_scalars
require_scalars_complete nil kind h = refl
require_scalars_complete (cons v vs) kind (p, h) =
    rw (require_scalar_complete v kind p) (require_scalars_complete vs kind h)

pub single_field_sound :
    (body : Document) (kind : String) (v : Bson)
    → single_field body kind ≡ ok v
    → (name : String) × (body ≡ field name v end) × IsFieldName name
unfolding single_field single_entry
single_field_sound end kind v h = cc
single_field_sound (field name w end) kind v h =
    let (_, named, e) = >>=-eq-ok (validate_field_name name) _ h in
    (name, cc, validate_field_name_sound name named)
single_field_sound (field name w (field _ _ _)) kind v h = cc

pub single_field_complete :
    (name kind : String) (v : Bson) → IsFieldName name → single_field (field name v end) kind ≡ ok v
unfolding single_field
single_field_complete name kind v h = rw (validate_field_name_complete name h)
