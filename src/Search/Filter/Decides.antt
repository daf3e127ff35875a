-- ===== src/Search/Filter/Decides.antt =====
-- The check of a filter, as `parse_vector_search_args` calls it, against the grammar.
use rust_sdk_mongodb_extensi.Prelude.{ℕ, ◌≤◌, ◌≡◌, ◌↔◌, ◌∙◌, ap, arith}
use rust_sdk_mongodb_extensi.Errors.{ok}
use rust_sdk_mongodb_extensi.Bson.{Document}
use rust_sdk_mongodb_extensi.Search.Filter.{validate_filter_clause}
use rust_sdk_mongodb_extensi.Search.Filter.Grammar.{IsClause, clause_count, nesting}
use rust_sdk_mongodb_extensi.Search.Filter.Sound.{validate_filter_clause-IsClause}
use rust_sdk_mongodb_extensi.Search.Filter.Complete.{clause_complete}

-- The check of a filter, started at depth 1 with no clause counted, succeeds exactly on the clauses
-- of the grammar that are nested at most 8 deep and hold at most 256 clauses, and then it has
-- counted them.
pub validate_filter_clause_iff :
    (filter : Document) (clauses : ℕ)
    → (validate_filter_clause filter 1 0 ≡ ok clauses)
      ↔ (IsClause filter × (nesting filter ≤ 8) × (clause_count filter ≡ clauses) × (clauses ≤ 256))
validate_filter_clause_iff filter clauses = (
  λ h.
      let (p, c, b, k) = validate_filter_clause-IsClause filter 1 0 clauses h in
      (p, omega arith, omega arith, b),
  λ h. clause_complete h.0 1 0 (omega arith) (omega arith) ∙ ap ok (omega arith),
)
