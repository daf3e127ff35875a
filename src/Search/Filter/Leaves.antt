-- ===== src/Search/Filter/Leaves.antt =====
-- The clauses that hold no other clause: the check accepts exactly those of the grammar.
use rust_sdk_mongodb_extensi.Prelude.{
  ◌≤◌, String, ◌≡◌, refl, inl, inr, true, arith, leb, leb→le, Bool-cases, and_iff,
}
use rust_sdk_mongodb_extensi.Prelude.Text.{◌=ₛ◌, =ₛ→eq}
use rust_sdk_mongodb_extensi.Errors.{ExtensionResult, ensure, ok, ◌>>=◌, >>=-eq-ok}
use rust_sdk_mongodb_extensi.Bson.{
  Bson, string, boolean, int32, int64, double, document, array, other, Document, end, field, Items,
  nil, cons, len_items,
}
use rust_sdk_mongodb_extensi.Search.Filter.{
  single_entry, single_field, require_scalars, is_string, all_strings, range_bound, range_bounds,
  term_value, terms_values, range_value, exists_value, ids_values, exists_message, ids_message,
}
use rust_sdk_mongodb_extensi.Search.Filter.Values.{
  validate_field_name_sound, require_scalar_sound, require_scalar_complete, require_scalars_sound,
  single_field_sound,
}
use rust_sdk_mongodb_extensi.Search.Filter.Grammar.{
  IsFieldName, IsScalar, IsText, AllItems, IsBound, gt, gte, lt, lte, format, IsRange, IsTermValue,
  plain, wrapped, IsLeaf, term, terms, range, exists, ids,
}

is_string_sound : (v : Bson) → is_string v ≡ true → IsText v
is_string_sound (string s) h = tt
is_string_sound _ h = cc

pub is_string_complete : (v : Bson) → IsText v → is_string v ≡ true
is_string_complete (string s) h = refl
is_string_complete (boolean b) h = absurd h
is_string_complete (int32 n) h = absurd h
is_string_complete (int64 n) h = absurd h
is_string_complete (double x) h = absurd h
is_string_complete (document d) h = absurd h
is_string_complete (array vs) h = absurd h
is_string_complete (other n) h = absurd h

all_strings_sound : (vs : Items) → all_strings vs ≡ true → AllItems IsText vs
all_strings_sound nil h = tt
all_strings_sound (cons v vs) h =
    let (p, q) = (and_iff (is_string v) (all_strings vs)).0 h in
    (is_string_sound v p, all_strings_sound vs q)

pub all_strings_complete : (vs : Items) → AllItems IsText vs → all_strings vs ≡ true
all_strings_complete nil h = refl
all_strings_complete (cons v vs) (p, h) = rw (is_string_complete v p) (all_strings_complete vs h)

pub term_value_sound : (v : Bson) → term_value v ≡ ok tt → IsTermValue v
unfolding single_entry
term_value_sound (document end) h = cc
term_value_sound (document (field key v end)) h = elim (Bool-cases (key =ₛ "value")) [
  | inl e ↦ rw (=ₛ→eq key "value" e) (wrapped (require_scalar_sound v "term" (rw e at h)))
  | inr e ↦ cc (rw e at h)
]
term_value_sound (document (field _ _ (field _ _ _))) h = cc
term_value_sound (string s) h = plain tt
term_value_sound (boolean b) h = plain tt
term_value_sound (int32 n) h = plain tt
term_value_sound (int64 n) h = plain tt
term_value_sound (double x) h = plain (require_scalar_sound (double x) "term" h)
term_value_sound (array vs) h = plain (require_scalar_sound (array vs) "term" h)
term_value_sound (other n) h = plain (require_scalar_sound (other n) "term" h)

term_value_scalar : (v : Bson) → IsScalar v → term_value v ≡ ok tt
term_value_scalar (string s) h = require_scalar_complete (string s) "term" h
term_value_scalar (boolean b) h = require_scalar_complete (boolean b) "term" h
term_value_scalar (int32 n) h = require_scalar_complete (int32 n) "term" h
term_value_scalar (int64 n) h = require_scalar_complete (int64 n) "term" h
term_value_scalar (double x) h = require_scalar_complete (double x) "term" h
term_value_scalar (document d) h = absurd h
term_value_scalar (array vs) h = absurd h
term_value_scalar (other n) h = absurd h

pub term_value_complete : {v : Bson} → IsTermValue v → term_value v ≡ ok tt
unfolding single_entry
term_value_complete (wrapped {v} h) = require_scalar_complete v "term" h
term_value_complete (plain {v} h) = term_value_scalar v h

range_bound_sound : (op : String) (v : Bson) → range_bound op v ≡ ok tt → IsBound op v
range_bound_sound op v h = elim (Bool-cases (op =ₛ "gt")) [
  | inl e ↦ rw (=ₛ→eq op "gt" e) (gt (require_scalar_sound v "range" (rw e at h)))
  | inr a ↦ elim (Bool-cases (op =ₛ "gte")) [
    | inl e ↦ rw (=ₛ→eq op "gte" e) (gte (require_scalar_sound v "range" (rw (a, e) at h)))
    | inr b ↦ elim (Bool-cases (op =ₛ "lt")) [
      | inl e ↦ rw (=ₛ→eq op "lt" e) (lt (require_scalar_sound v "range" (rw (a, b, e) at h)))
      | inr c ↦ elim (Bool-cases (op =ₛ "lte")) [
        | inl e ↦
            rw (=ₛ→eq op "lte" e) (lte (require_scalar_sound v "range" (rw (a, b, c, e) at h)))
        | inr d ↦ elim (Bool-cases (op =ₛ "format")) [
          | inl e ↦ rw (=ₛ→eq op "format" e) (format (is_string_sound v (ground arith)))
          | inr e ↦ cc (rw (a, b, c, d, e) at h)
        ]
      ]
    ]
  ]
]

range_bounds_sound : (d : Document) → range_bounds d ≡ ok tt → IsRange d
unfolding range_bounds
range_bounds_sound end h = tt
range_bounds_sound (field op v rest) h =
    let (_, first, others) = >>=-eq-ok (range_bound op v) (λ _. range_bounds rest) h in
    (range_bound_sound op v first, range_bounds_sound rest others)

range_bound_complete : {op : String} {v : Bson} → IsBound op v → range_bound op v ≡ ok tt
range_bound_complete (gt {v} h) = require_scalar_complete v "range" h
range_bound_complete (gte {v} h) = require_scalar_complete v "range" h
range_bound_complete (lt {v} h) = require_scalar_complete v "range" h
range_bound_complete (lte {v} h) = require_scalar_complete v "range" h
range_bound_complete (format {v} h) = rw (is_string_complete v h)

pub range_bounds_complete : (d : Document) → IsRange d → range_bounds d ≡ ok tt
unfolding range_bounds
range_bounds_complete end h = refl
range_bounds_complete (field op v rest) (p, h) =
    rw (range_bound_complete p) (range_bounds_complete rest h)

-- One arm of the check: the field of the body, then its value.
pub field_arm_sound :
    {P : Bson → Type 0} (body : Document) (kind : String)
    (check : Bson → ExtensionResult (Unit {0}))
    → ((v : Bson) → check v ≡ ok tt → P v)
    → (single_field body kind >>= check) ≡ ok tt
    → (name : String) × (v : Bson) × (body ≡ field name v end) × IsFieldName name × P v
field_arm_sound body kind check sound h =
    let (v, found, checked) = >>=-eq-ok (single_field body kind) check h in
    let (name, shape, named) = single_field_sound body kind v found in
    (name, v, shape, named, sound v checked)

pub data IsTerms : Bson → Type 0 where
  are : {vs : Items} → len_items vs ≤ 1024 → AllItems IsScalar vs → IsTerms (array vs)

pub data IsRangeValue : Bson → Type 0 where
  bounds : {d : Document} → IsRange d → IsRangeValue (document d)

pub terms_values_sound : (v : Bson) → terms_values v ≡ ok tt → IsTerms v
terms_values_sound (array vs) h =
    let (_, few, scalars) =
      >>=-eq-ok (ensure (leb (len_items vs) 1024) _) (λ _. require_scalars vs "terms") h in
    are (leb→le _ _ (ground arith)) (require_scalars_sound vs "terms" scalars)
terms_values_sound _ h = cc

pub range_value_sound : (v : Bson) → range_value v ≡ ok tt → IsRangeValue v
range_value_sound (document d) h = bounds (range_bounds_sound d h)
range_value_sound _ h = cc

pub term_arm_sound :
    (body : Document) → (single_field body "term" >>= term_value) ≡ ok tt → IsLeaf "term" body
term_arm_sound body h =
    let (name, v, shape, named, p) = field_arm_sound body "term" term_value term_value_sound h in
    rw shape (term named p)

pub terms-IsLeaf :
    {name : String} {v : Bson} → IsFieldName name → IsTerms v → IsLeaf "terms" (field name v end)
terms-IsLeaf n (are few p) = terms n few p

pub range-IsLeaf :
    {name : String} {v : Bson}
    → IsFieldName name
    → IsRangeValue v
    → IsLeaf "range" (field name v end)
range-IsLeaf n (bounds p) = range n p

pub exists_arm_sound :
    (body : Document)
    → (single_entry body exists_message >>= λ e. exists_value e.0 e.1) ≡ ok tt
    → IsLeaf "exists" body
unfolding single_entry
exists_arm_sound (field key (string name) end) h = elim (Bool-cases (key =ₛ "field")) [
  | inl e ↦ rw (=ₛ→eq key "field" e) (exists (validate_field_name_sound name (rw e at h)))
  | inr e ↦ cc (rw e at h)
]
exists_arm_sound (field key _ end) h = cc
exists_arm_sound _ h = cc

pub ids_arm_sound :
    (body : Document)
    → (single_entry body ids_message >>= λ e. ids_values e.0 e.1) ≡ ok tt
    → IsLeaf "ids" body
unfolding single_entry
ids_arm_sound (field key (array vs) end) h = elim (Bool-cases (key =ₛ "values")) [
  | inl e ↦
      let (few, strings) = (and_iff (leb (len_items vs) 1024) (all_strings vs)).0 (ground arith) in
      rw (=ₛ→eq key "values" e) (ids (leb→le _ _ few) (all_strings_sound vs strings))
  | inr e ↦ cc (rw e at h)
]
ids_arm_sound (field key _ end) h = cc
ids_arm_sound _ h = cc
