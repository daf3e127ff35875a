-- ===== src/Search/Filter/Kinds.antt =====
-- The arms of the `match` on the kind of a clause, joined: the check of a clause that holds no
-- other clause accepts exactly those of the grammar.
use rust_sdk_mongodb_extensi.Prelude.{String, ◌≡◌, inl, inr, le→leb, Bool-cases}
use rust_sdk_mongodb_extensi.Prelude.Text.{◌=ₛ◌, =ₛ→eq}
use rust_sdk_mongodb_extensi.Errors.{ok}
use rust_sdk_mongodb_extensi.Bson.{Document, len_items}
use rust_sdk_mongodb_extensi.Search.Filter.{validate_leaf, terms_values, range_value}
use rust_sdk_mongodb_extensi.Search.Filter.Grammar.{IsLeaf, term, terms, range, exists, ids}
use rust_sdk_mongodb_extensi.Search.Filter.Values.{
  validate_field_name_complete, require_scalars_complete, single_field_complete,
}
use rust_sdk_mongodb_extensi.Search.Filter.Leaves.{
  term_arm_sound, terms-IsLeaf, range-IsLeaf, exists_arm_sound, ids_arm_sound, field_arm_sound,
  terms_values_sound, range_value_sound, term_value_complete, range_bounds_complete,
  all_strings_complete,
}

pub validate_leaf_sound :
    (kind : String) (body : Document) → validate_leaf kind body ≡ ok tt → IsLeaf kind body
unfolding validate_leaf
validate_leaf_sound kind body h = elim (Bool-cases (kind =ₛ "term")) [
  | inl e ↦ rw (=ₛ→eq kind "term" e) (term_arm_sound body (rw e at h))
  | inr a ↦ elim (Bool-cases (kind =ₛ "terms")) [
    | inl e ↦
        let (name, v, shape, named, p) =
          field_arm_sound body "terms" terms_values terms_values_sound (rw (a, e) at h) in
        rw (=ₛ→eq kind "terms" e, shape) (terms-IsLeaf named p)
    | inr b ↦ elim (Bool-cases (kind =ₛ "range")) [
      | inl e ↦
          let (name, v, shape, named, p) =
            field_arm_sound body "range" range_value range_value_sound (rw (a, b, e) at h) in
          rw (=ₛ→eq kind "range" e, shape) (range-IsLeaf named p)
      | inr c ↦ elim (Bool-cases (kind =ₛ "exists")) [
        | inl e ↦ rw (=ₛ→eq kind "exists" e) (exists_arm_sound body (rw (a, b, c, e) at h))
        | inr d ↦ elim (Bool-cases (kind =ₛ "ids")) [
          | inl e ↦ rw (=ₛ→eq kind "ids" e) (ids_arm_sound body (rw (a, b, c, d, e) at h))
          | inr e ↦ cc (rw (a, b, c, d, e) at h)
        ]
      ]
    ]
  ]
]

pub validate_leaf_complete :
    {kind : String} {body : Document} → IsLeaf kind body → validate_leaf kind body ≡ ok tt
unfolding validate_leaf
validate_leaf_complete (term {name} {v} n p) =
    rw (single_field_complete name "term" v n) (term_value_complete p)
validate_leaf_complete (terms {name} {vs} n few p) =
    rw (validate_field_name_complete name n, le→leb (len_items vs) 1024 few)
      (require_scalars_complete vs "terms" p)
validate_leaf_complete (range {name} {bounds} n p) =
    rw (validate_field_name_complete name n) (range_bounds_complete bounds p)
validate_leaf_complete (exists {name} n) = validate_field_name_complete name n
validate_leaf_complete (ids {vs} few p) =
    rw (le→leb (len_items vs) 1024 few, all_strings_complete vs p)
