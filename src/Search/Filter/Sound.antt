-- ===== src/Search/Filter/Sound.antt =====
-- What the check of a filter accepts is in the grammar and within the limits: by induction over the
-- filter.
use rust_sdk_mongodb_extensi.Prelude.{
  ℕ, suc, ◌+◌, ◌≤◌, max, String, ◌≡◌, refl, ◌↔◌, inl, inr, true, ◌&&◌, arith, Bool-cases, and_iff,
}
use rust_sdk_mongodb_extensi.Prelude.Text.{◌=ₛ◌, =ₛ→eq}
use rust_sdk_mongodb_extensi.Errors.{
  ExtensionError, ExtensionResult, ok, ◌>>◌, ensure, ensure-eq-ok, >>=-eq-ok,
}
use rust_sdk_mongodb_extensi.Bson.{
  Bson, string, int32, int64, document, array, Document, end, field, Items, nil, cons,
}
use rust_sdk_mongodb_extensi.Search.Filter.{
  validate_leaf, is_occur, is_minimum, within_limits, validate_filter_clause, validate_bool,
  validate_clauses,
}
use rust_sdk_mongodb_extensi.Search.Filter.Grammar.{
  IsOccur, must, filter, should, must_not, IsMinimum, small, large, percent, IsClause, leaf,
  boolean_clause, IsBody, done, one, many, minimum, IsClauses, none_left, and_then, clause_count,
  body_count, items_count, nesting, body_nesting, items_nesting,
}
use rust_sdk_mongodb_extensi.Search.Filter.Kinds.{validate_leaf_sound}

is_occur_sound : (s : String) → is_occur s ≡ true → IsOccur s
is_occur_sound s h = elim (Bool-cases (s =ₛ "must")) [
  | inl e ↦ rw (=ₛ→eq s "must" e) must
  | inr a ↦ elim (Bool-cases (s =ₛ "filter")) [
    | inl e ↦ rw (=ₛ→eq s "filter" e) filter
    | inr b ↦ elim (Bool-cases (s =ₛ "should")) [
      | inl e ↦ rw (=ₛ→eq s "should" e) should
      | inr c ↦ rw (=ₛ→eq s "must_not" (rw (a, b, c) at h)) must_not
    ]
  ]
]

pub is_occur_complete : {s : String} → IsOccur s → is_occur s ≡ true
is_occur_complete must = refl
is_occur_complete filter = refl
is_occur_complete should = refl
is_occur_complete must_not = refl

is_minimum_sound : (v : Bson) → is_minimum v ≡ true → IsMinimum v
is_minimum_sound (int32 n) h = small
is_minimum_sound (int64 n) h = large
is_minimum_sound (string s) h = percent
is_minimum_sound _ h = cc

-- The state of the check on entry to a clause, or to the clauses of a body, is within its limits.
pub within_limits_iff :
    (depth clauses : ℕ) → (within_limits depth clauses ≡ true) ↔ ((depth ≤ 8) × (clauses ≤ 256))
within_limits_iff depth clauses = ground arith

-- The test at the head of a clause, once the clause is accepted.
limits_of_ok :
    {B : Type 0} (depth clauses : ℕ) (e : ExtensionError) (rest : ExtensionResult B) {m : B}
    → (ensure (within_limits depth clauses) e >> rest) ≡ ok m
    → (depth ≤ 8) × (clauses ≤ 256) × (rest ≡ ok m)
limits_of_ok depth clauses e rest h =
    let (_, met, later) = >>=-eq-ok (ensure (within_limits depth clauses) e) (λ _. rest) h in
    let (deep, few) = (within_limits_iff depth clauses).0 (ensure-eq-ok _ e met) in
    (deep, few, later)

mutual
  unfolding validate_filter_clause clause_count nesting

  pub validate_filter_clause-IsClause :
      (d : Document) (depth clauses m : ℕ)
      → validate_filter_clause d depth clauses ≡ ok m
      → IsClause d × (clauses + clause_count d ≡ m) × (m ≤ 256) × (depth + nesting d ≤ 9)
  validate_filter_clause-IsClause (field kind (document body) end) depth clauses m h =
      let (deep, few, h') = limits_of_ok depth (suc clauses) _ _ h in
      elim (Bool-cases (kind =ₛ "bool")) [
        | inl e ↦
            let (p, counted, bounded, nested) =
              validate_bool-IsBody body depth (suc clauses) m (rw e at h') in
            rw (=ₛ→eq kind "bool" e) (boolean_clause p, omega arith, omega arith, omega arith)
        | inr e ↦
            let (_, checked, same) = >>=-eq-ok (validate_leaf kind body) _ (rw e at h') in
            rw e (
              leaf (validate_leaf_sound kind body checked),
              ground arith,
              ground arith,
              omega arith,
            )
      ]
  validate_filter_clause-IsClause _ depth clauses m h = ground arith

  validate_bool-IsBody :
      (d : Document) (depth clauses m : ℕ)
      → validate_bool d depth clauses ≡ ok m
      → IsBody d
        × (clauses + body_count d ≡ m)
        × (m ≤ max clauses 256)
        × (depth + body_nesting d ≤ max depth 8)
  validate_bool-IsBody end depth clauses m h = (done, ground arith, ground arith, omega arith)
  validate_bool-IsBody (field occur (document d) rest) depth clauses m h =
      elim (Bool-cases (is_occur occur)) [
        | inl e ↦
            let (n, first, later) =
              >>=-eq-ok (validate_filter_clause d (suc depth) clauses) _ (rw e at h) in
            let (p, c, b, k) = validate_filter_clause-IsClause d (suc depth) clauses n first in
            let (q, c', b', k') = validate_bool-IsBody rest depth n m later in
            (one (is_occur_sound occur e) p q, omega arith, omega arith, omega arith)
        | inr e ↦ cc (rw e at h)
      ]
  validate_bool-IsBody (field occur (array items) rest) depth clauses m h =
      elim (Bool-cases (is_occur occur)) [
        | inl e ↦
            let (n, first, later) =
              >>=-eq-ok (validate_clauses occur items depth clauses) _ (rw e at h) in
            let (p, c, b, k) = validate_clauses-IsClauses occur items depth clauses n first in
            let (q, c', b', k') = validate_bool-IsBody rest depth n m later in
            (many (is_occur_sound occur e) p q, omega arith, omega arith, omega arith)
        | inr e ↦ cc (rw e at h)
      ]
  validate_bool-IsBody (field occur v rest) depth clauses m h = elim (Bool-cases (is_occur occur)) [
    | inl e ↦ cc (rw e at h)
    | inr e ↦
        let (_, tested, later) =
          >>=-eq-ok (ensure (occur =ₛ "minimum_should_match" && is_minimum v) _)
            (λ _. validate_bool rest depth clauses) (rw e at h) in
        let (named, typed) =
          (and_iff (occur =ₛ "minimum_should_match") (is_minimum v)).0 (ensure-eq-ok _ _ tested) in
        let (q, c, b, k) = validate_bool-IsBody rest depth clauses m later in
        rw (=ₛ→eq occur "minimum_should_match" named)
          (minimum (is_minimum_sound v typed) q, c, b, k)
  ]

  validate_clauses-IsClauses :
      (occur : String) (items : Items) (depth clauses m : ℕ)
      → validate_clauses occur items depth clauses ≡ ok m
      → IsClauses items
        × (clauses + items_count items ≡ m)
        × (m ≤ max clauses 256)
        × (depth + items_nesting items ≤ max depth 8)
  validate_clauses-IsClauses occur nil depth clauses m h =
      (none_left, ground arith, ground arith, omega arith)
  validate_clauses-IsClauses occur (cons (document d) items) depth clauses m h =
      let (n, first, later) = >>=-eq-ok (validate_filter_clause d (suc depth) clauses) _ h in
      let (p, c, b, k) = validate_filter_clause-IsClause d (suc depth) clauses n first in
      let (q, c', b', k') = validate_clauses-IsClauses occur items depth n m later in
      (and_then p q, omega arith, omega arith, omega arith)
  validate_clauses-IsClauses occur (cons v items) depth clauses m h = cc
