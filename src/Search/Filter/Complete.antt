-- ===== src/Search/Filter/Complete.antt =====
-- Every filter of the grammar that is within the limits is accepted: by induction over the grammar.
use rust_sdk_mongodb_extensi.Prelude.{ℕ, suc, ◌+◌, ◌≤◌, String, ◌≡◌, refl, ap, ◌∙◌, false, arith}
use rust_sdk_mongodb_extensi.Prelude.Text.{◌=ₛ◌}
use rust_sdk_mongodb_extensi.Errors.{ok}
use rust_sdk_mongodb_extensi.Bson.{Document, Items}
use rust_sdk_mongodb_extensi.Search.Filter.{validate_filter_clause, validate_bool, validate_clauses}
use rust_sdk_mongodb_extensi.Search.Filter.Grammar.{
  small, large, percent, IsLeaf, term, terms, range, exists, ids, IsClause, leaf, boolean_clause,
  IsBody, done, one, many, minimum, IsClauses, none_left, and_then, clause_count, body_count,
  items_count, nesting, body_nesting, items_nesting,
}
use rust_sdk_mongodb_extensi.Search.Filter.Kinds.{validate_leaf_complete}
use rust_sdk_mongodb_extensi.Search.Filter.Sound.{is_occur_complete, within_limits_iff}

leaf-ne-bool : {kind : String} {body : Document} → IsLeaf kind body → (kind =ₛ "bool") ≡ false
leaf-ne-bool (term n p) = refl
leaf-ne-bool (terms n few p) = refl
leaf-ne-bool (range n p) = refl
leaf-ne-bool (exists n) = refl
leaf-ne-bool (ids few p) = refl

mutual
  unfolding validate_filter_clause clause_count nesting

  pub clause_complete :
      {d : Document}
      → IsClause d
      → (depth clauses : ℕ) → depth + nesting d ≤ 9
      → clauses + clause_count d ≤ 256
      → validate_filter_clause d depth clauses ≡ ok (clauses + clause_count d)
  clause_complete (leaf {kind} {body} p) depth clauses deep few =
      let e = leaf-ne-bool p in
      let deep' : depth + 1 ≤ 9 = rw e at deep in
      let few' : clauses + 1 ≤ 256 = rw e at few in
      rw
        (
          (within_limits_iff depth (suc clauses)).1 (omega arith, omega arith),
          e,
          validate_leaf_complete p,
        )
        (ap ok (omega arith))
  clause_complete (boolean_clause {body} p) depth clauses deep few =
      rw ((within_limits_iff depth (suc clauses)).1 (omega arith, omega arith))
        (body_complete p depth (suc clauses) (omega arith) (omega arith) ∙ ap ok (omega arith))

  body_complete :
      {d : Document}
      → IsBody d
      → (depth clauses : ℕ) → depth + body_nesting d ≤ 8
      → clauses + body_count d ≤ 256
      → validate_bool d depth clauses ≡ ok (clauses + body_count d)
  body_complete done depth clauses deep few = ap ok (omega arith)
  body_complete (one {d} {rest} o p q) depth clauses deep few =
      rw (is_occur_complete o, clause_complete p (suc depth) clauses (omega arith) (omega arith))
        (body_complete q depth (clauses + clause_count d) (omega arith) (omega arith)
          ∙ ap ok (omega arith))
  body_complete (many {occur} {items} {rest} o p q) depth clauses deep few =
      rw (is_occur_complete o, items_complete occur p depth clauses (omega arith) (omega arith))
        (body_complete q depth (clauses + items_count items) (omega arith) (omega arith)
          ∙ ap ok (omega arith))
  body_complete (minimum small q) depth clauses deep few = body_complete q depth clauses deep few
  body_complete (minimum large q) depth clauses deep few = body_complete q depth clauses deep few
  body_complete (minimum percent q) depth clauses deep few = body_complete q depth clauses deep few

  items_complete :
      (occur : String) {items : Items}
      → IsClauses items
      → (depth clauses : ℕ) → depth + items_nesting items ≤ 8
      → clauses + items_count items ≤ 256
      → validate_clauses occur items depth clauses ≡ ok (clauses + items_count items)
  items_complete occur none_left depth clauses deep few = ap ok (omega arith)
  items_complete occur (and_then {d} {items} p q) depth clauses deep few =
      rw (clause_complete p (suc depth) clauses (omega arith) (omega arith)) (
        items_complete occur q depth (clauses + clause_count d) (omega arith) (omega arith)
        ∙ ap ok (omega arith))
