-- ===== src/Search/Args/Forward/Reparsed.antt =====
-- The stage of candidates parses its arguments again, to the same ones.
use rust_sdk_mongodb_extensi.Prelude.{
  String, ◌≡◌, refl, true, Bool-cases, inl, inr, Option, none, some, arith,
}
use rust_sdk_mongodb_extensi.Prelude.Int.{ℤ, pos, ◌≤ℤ◌}
use rust_sdk_mongodb_extensi.Prelude.Text.{is_empty}
use rust_sdk_mongodb_extensi.Errors.{ok}
use rust_sdk_mongodb_extensi.Bson.{Document, get}
use rust_sdk_mongodb_extensi.Search.Filter.Grammar.{clause_count}
use rust_sdk_mongodb_extensi.Search.Filter.Decides.{validate_filter_clause_iff}
use rust_sdk_mongodb_extensi.Search.Args.{
  QueryArgs, trimmed_string, bson_string, bounded, bson_i64, filter_of, parse_vector_search_args,
}
use rust_sdk_mongodb_extensi.Search.Args.Valid.{IsTrimmed, IsFilter, IsValid}
use rust_sdk_mongodb_extensi.Search.Args.Forward.{filter_entry, forwarded}

empty_is : (s : String) → is_empty s ≡ true → s ≡ ""
empty_is String.[] h = refl
empty_is (String.◌∷◌ c s) h = cc

trimmed_again : (key s : String) → IsTrimmed s → trimmed_string key (some s) ≡ ok s
trimmed_again key s t = elim (Bool-cases (is_empty s)) [
  | inl e ↦ absurd (t.filled (empty_is s e))
  | inr e ↦ rw (t.trimmed, e) refl
]

bounded_again :
    (key : String) (n : ℤ) → pos 1 ≤ℤ n → n ≤ℤ pos 1000 → bounded key (pos 1) (pos 1000) n ≡ ok n
bounded_again key n low high = ground (arith, low, high)

filter_again : (f : Option Document) → IsFilter f → filter_of (get "filter" (filter_entry f)) ≡ ok f
unfolding get
filter_again none p = refl
filter_again (some filter) p =
    rw
      ((validate_filter_clause_iff filter (clause_count filter)).1
        (p.grammar, p.shallow, refl, p.small))
      refl

-- The stage of candidates parses its arguments to those that the expansion was made from, where these
-- are valid.
pub forwarded-parse :
    (args : QueryArgs) → IsValid args → parse_vector_search_args (forwarded args) ≡ ok args
unfolding parse_vector_search_args bson_string bson_i64 get
forwarded-parse args v =
    rw
      (
        filter_again args.filter v.filter,
        trimmed_again "path" args.path v.path,
        trimmed_again "query" args.query v.query,
        bounded_again "limit" args.limit v.positive v.capped,
      )
      refl
