-- ===== src/Tests/Filters.antt =====
-- Filters and arguments of $vectorSearch.
use rust_sdk_mongodb_extensi.Prelude.{ℕ, ◌≤◌, ◌≡◌, ◌↔◌, refl, true, none, some, arith}
use rust_sdk_mongodb_extensi.Prelude.Int.{pos}
use rust_sdk_mongodb_extensi.Errors.{ok}
use rust_sdk_mongodb_extensi.Bson.{string, int32, document, array, Document, end, field, nil, cons}
use rust_sdk_mongodb_extensi.Search.Filter.{validate_filter_clause}
use rust_sdk_mongodb_extensi.Search.Filter.Grammar.{IsClause, nesting, clause_count}
use rust_sdk_mongodb_extensi.Search.Filter.Decides.{validate_filter_clause_iff}
use rust_sdk_mongodb_extensi.Search.Args.{QueryArgs, parse_vector_search_args}
use rust_sdk_mongodb_extensi.Search.Args.Valid.{IsValid, parse_vector_search_args-IsValid}
use rust_sdk_mongodb_extensi.Search.Args.Forward.{forwarded}
use rust_sdk_mongodb_extensi.Search.Args.Forward.Reparsed.{forwarded-parse}

abbrev bags : Document
bags = field "term" (document (field "category" (string "bags") end)) end

abbrev cheap : Document
cheap =
    field "range" (document (field "price" (document (field "lte" (int32 (pos 50)) end)) end)) end

abbrev bags_and_cheap : Document
bags_and_cheap =
    field "bool"
      (document (
        field "must" (array (cons (document bags) nil))
          (field "filter" (document cheap) (field "minimum_should_match" (int32 (pos 1)) end))))
      end

bags_and_cheap_counted : validate_filter_clause bags_and_cheap 1 0 ≡ ok 3
unfolding validate_filter_clause
bags_and_cheap_counted = refl

validate_filter_clause_iff_example : (validate_filter_clause bags_and_cheap 1 0 ≡ ok 3) ↔ (
    IsClause bags_and_cheap
    × (nesting bags_and_cheap ≤ 8)
    × (clause_count bags_and_cheap ≡ 3)
    × (3 ≤ 256))
validate_filter_clause_iff_example = validate_filter_clause_iff bags_and_cheap 3

abbrev rain : Document
rain =
    field "path" (string " description ")
      (field "query" (string "rain") (field "filter" (document bags) end))

abbrev rain_args : QueryArgs
rain_args = record { path = "description"; query = "rain"; limit = pos 10; filter = some bags }

rain_parsed : parse_vector_search_args rain ≡ ok rain_args
unfolding parse_vector_search_args rust_sdk_mongodb_extensi.Prelude.Text.trim
rain_parsed = refl

rain_args-IsValid : IsValid rain_args
rain_args-IsValid = parse_vector_search_args-IsValid rain rain_parsed

parse_vector_search_args-IsValid_example : IsValid rain_args
parse_vector_search_args-IsValid_example = parse_vector_search_args-IsValid rain rain_parsed

forwarded-parse_example : parse_vector_search_args (forwarded rain_args) ≡ ok rain_args
forwarded-parse_example = forwarded-parse rain_args rain_args-IsValid
