-- ===== src/Search/Args/Valid.antt =====
-- What the arguments are once they have been parsed.
use mathlib.Core.Path.{subst}
use rust_sdk_mongodb_extensi.Prelude.{
  ◌≤◌, String, ◌≡◌, ◌≢◌, inl, inr, true, Option, none, some, arith, Bool-cases,
}
use rust_sdk_mongodb_extensi.Prelude.Int.{ℤ, pos, ◌≤ℤ◌}
use rust_sdk_mongodb_extensi.Prelude.Text.{is_empty, trim}
use rust_sdk_mongodb_extensi.Prelude.Text.Trimming.{trim-trim}
use rust_sdk_mongodb_extensi.Errors.{ok, ok-injective, >>=-eq-ok}
use rust_sdk_mongodb_extensi.Bson.{Bson, document, Document, get}
use rust_sdk_mongodb_extensi.Search.Filter.{validate_filter_clause}
use rust_sdk_mongodb_extensi.Search.Filter.Grammar.{IsClause, clause_count, nesting}
use rust_sdk_mongodb_extensi.Search.Filter.Decides.{validate_filter_clause_iff}
use rust_sdk_mongodb_extensi.Search.Args.{
  QueryArgs, get_str, trimmed_string, bson_string, i64_in, bounded, number_of, bson_i64, filter_of,
  parse_vector_search_args,
}

-- A text that is not empty and has no white space at its ends.
pub record IsTrimmed (s : String) : Type 0 where
  pub filled : s ≢ ""
  pub trimmed : trim s ≡ s

pub record IsForwardable (filter : Document) : Type 0 where
  pub grammar : IsClause filter
  pub shallow : nesting filter ≤ 8
  pub small : clause_count filter ≤ 256

abbrev pub IsFilter : Option Document → Type 0
IsFilter none = Unit
IsFilter (some filter) = IsForwardable filter

pub record IsValid (q : QueryArgs) : Type 0 where
  pub path : IsTrimmed q.path
  pub query : IsTrimmed q.query
  pub positive : pos 1 ≤ℤ q.limit
  pub capped : q.limit ≤ℤ pos 1000
  pub filter : IsFilter q.filter

is_empty_of_eq : (s : String) → s ≡ "" → is_empty s ≡ true
is_empty_of_eq s e = rw e

trimmed_string_sound :
    (key : String) (o : Option String) (s : String) → trimmed_string key o ≡ ok s → IsTrimmed s
trimmed_string_sound key none s h = cc
trimmed_string_sound key (some v) s h = elim (Bool-cases (is_empty (trim v))) [
  | inl e ↦ cc (rw e at h)
  | inr e ↦
      let same : trim v ≡ s = cc (rw e at h) in
      rw (← same)
        (record { filled = λ q. cc (is_empty_of_eq (trim v) q, e); trimmed = trim-trim v })
]

bson_string-IsTrimmed :
    (args : Document) (key s : String) → bson_string args key ≡ ok s → IsTrimmed s
unfolding bson_string
bson_string-IsTrimmed args key s h = trimmed_string_sound key (get_str key args) s h

bounded_sound :
    (key : String) (low high n m : ℤ) → bounded key low high n ≡ ok m → (low ≤ℤ m) × (m ≤ℤ high)
bounded_sound key low high n m h = ground arith

-- A number argument is its default, or within its bounds.
pub bson_i64_bounds :
    (args : Document) (key : String) (default low high m : ℤ)
    → low ≤ℤ default
    → default ≤ℤ high
    → bson_i64 args key default low high ≡ ok m
    → (low ≤ℤ m) × (m ≤ℤ high)
unfolding bson_i64
bson_i64_bounds args key default low high m a b h = go (get key args) h
  where
    go : (o : Option Bson) → i64_in key default low high o ≡ ok m → (low ≤ℤ m) × (m ≤ℤ high)
    go none e = ground arith
    go (some v) e =
        let (n, _, e') = >>=-eq-ok (number_of key v) (bounded key low high) e in
        bounded_sound key low high n m e'

filter_of-IsFilter : (o : Option Bson) (f : Option Document) → filter_of o ≡ ok f → IsFilter f
filter_of-IsFilter none f h = subst IsFilter (ok-injective h) tt
filter_of-IsFilter (some (document d)) f h =
    let (n, e, e') = >>=-eq-ok (validate_filter_clause d 1 0) _ h in
    let (p, k, c, b) = (validate_filter_clause_iff d n).0 e in
    subst IsFilter (ok-injective e') (record { grammar = p; shallow = k; small = omega arith })
filter_of-IsFilter (some _) f h = cc

-- Arguments that are parsed hold a path and a query that are trimmed and not empty, a limit from 1
-- to 1000, and no filter but one of the grammar, nested at most 8 deep and of at most 256 clauses.
pub parse_vector_search_args-IsValid :
    (args : Document) {q : QueryArgs} → parse_vector_search_args args ≡ ok q → IsValid q
unfolding parse_vector_search_args
parse_vector_search_args-IsValid args {q} h =
    let (filter, f, h1) = >>=-eq-ok (filter_of (get "filter" args)) _ h in
    let (path, p, h2) = >>=-eq-ok (bson_string args "path") _ h1 in
    let (query, s, h3) = >>=-eq-ok (bson_string args "query") _ h2 in
    let (limit, l, h4) = >>=-eq-ok (bson_i64 args "limit" (pos 10) (pos 1) (pos 1000)) _ h3 in
    subst IsValid (ok-injective h4) (record {
      path = bson_string-IsTrimmed args "path" path p;
      query = bson_string-IsTrimmed args "query" query s;
      positive =
          (bson_i64_bounds args "limit" (pos 10) (pos 1) (pos 1000) limit (omega arith)
            (omega arith) l).0;
      capped =
          (bson_i64_bounds args "limit" (pos 10) (pos 1) (pos 1000) limit (omega arith)
            (omega arith) l).1;
      filter = filter_of-IsFilter (get "filter" args) filter f;
    })
