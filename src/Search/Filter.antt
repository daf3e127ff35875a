-- ===== src/Search/Filter.antt =====
-- opensearch-extension-core/src/lib.rs: the check of the `filter` argument, which is forwarded to
-- OpenSearch as query DSL. The `&mut usize` counter of clauses is passed and returned; where the
-- check fails, the caller drops the counter.
pub mod Grammar
pub mod Values
pub mod Leaves
pub mod Kinds
pub mod Sound
pub mod Complete
pub mod Decides
use rust_sdk_mongodb_extensi.Prelude.{
  ℕ, suc, ◌+◌, String, Bool, true, false, not, ◌&&◌, ◌||◌, List, [], ◌∷◌, Option, none, some, leb,
  ltb, if◌then◌else◌,
}
use rust_sdk_mongodb_extensi.Prelude.Word.{is_finite}
use rust_sdk_mongodb_extensi.Prelude.Text.{◌=ₛ◌, is_empty, starts_with_char}
use rust_sdk_mongodb_extensi.Errors.{
  Part, text, debug, Message, ExtensionError, bad_value, Result, ExtensionResult, ok, err, ◌>>=◌,
  ◌>>◌, ensure,
}
use rust_sdk_mongodb_extensi.Bson.{
  Bson, string, boolean, int32, int64, double, document, array, Document, end, field, Items, nil,
  cons, len_items,
}

abbrev pub max_filter_depth : ℕ
max_filter_depth = 8

abbrev pub max_filter_clauses : ℕ
max_filter_clauses = 256

abbrev pub max_filter_terms : ℕ
max_filter_terms = 1024

abbrev pub bad_filter : Message → ExtensionError
bad_filter message = bad_value (text "filter: " ∷ message)

unfoldable pub single_entry : Document → Message → ExtensionResult (String × Bson)
single_entry (field k v end) message = ok (k, v)
single_entry _ message = err (bad_filter message)

unfoldable pub validate_field_name : String → ExtensionResult (Unit {0})
validate_field_name name =
    if is_empty name || starts_with_char b'_' name
    then err (bad_filter (text "field " ∷ debug name ∷ text " is not allowed" ∷ []))
    else ok tt

unfoldable pub single_field : Document → String → ExtensionResult Bson
unfolding single_entry validate_field_name
single_field body kind = do
  (name, value) ← single_entry body (text kind ∷ text " must target exactly one field" ∷ [])
  validate_field_name name
  ok value

abbrev pub is_scalar : Bson → Bool
is_scalar (string s) = true
is_scalar (boolean b) = true
is_scalar (int32 v) = true
is_scalar (int64 v) = true
is_scalar (double v) = is_finite v
is_scalar _ = false

unfoldable pub require_scalar : Bson → String → ExtensionResult (Unit {0})
require_scalar value kind =
    if is_scalar value
    then ok tt
    else err (bad_filter (text kind ∷ text " values must be strings, numbers or booleans" ∷ []))

abbrev term_message : Message
term_message = text "term accepts only {value: <scalar>}" ∷ []

abbrev term_value : Bson → ExtensionResult (Unit {0})
term_value (document d) = do
  (key, inner) ← single_entry d term_message
  ensure (key =ₛ "value") (bad_filter term_message)
  require_scalar inner "term"
term_value value = require_scalar value "term"

-- try_for_each of require_scalar
unfoldable pub require_scalars : Items → String → ExtensionResult (Unit {0})
unfolding require_scalar
require_scalars nil kind = ok tt
require_scalars (cons v vs) kind = do require_scalar v kind; require_scalars vs kind

abbrev terms_values : Bson → ExtensionResult (Unit {0})
terms_values (array values) = do
  ensure (leb (len_items values) max_filter_terms)
      (bad_filter (text "terms has too many values" ∷ []))
  require_scalars values "terms"
terms_values _ = err (bad_filter (text "terms must map one field to an array of values" ∷ []))

abbrev pub is_bound : String → Bool
is_bound op = op =ₛ "gt" || op =ₛ "gte" || op =ₛ "lt" || op =ₛ "lte"

abbrev pub is_string : Bson → Bool
is_string (string s) = true
is_string _ = false

abbrev range_bound : String → Bson → ExtensionResult (Unit {0})
range_bound op value =
    if is_bound op
    then require_scalar value "range"
    else ensure (op =ₛ "format" && is_string value)
        (bad_filter (text "unsupported range option " ∷ text op ∷ []))

unfoldable pub range_bounds : Document → ExtensionResult (Unit {0})
unfolding require_scalar
range_bounds end = ok tt
range_bounds (field op value rest) = do range_bound op value; range_bounds rest

abbrev range_value : Bson → ExtensionResult (Unit {0})
range_value (document bounds) = range_bounds bounds
range_value _ = err (bad_filter (text "range must map one field to bounds" ∷ []))

abbrev exists_message : Message
exists_message = text "exists accepts only {field: <name>}" ∷ []

abbrev exists_value : String → Bson → ExtensionResult (Unit {0})
exists_value key (string name) =
    if key =ₛ "field" then validate_field_name name else err (bad_filter exists_message)
exists_value key _ = err (bad_filter exists_message)

abbrev ids_message : Message
ids_message = text "ids accepts only {values: [<string>]}" ∷ []

abbrev pub all_strings : Items → Bool
all_strings nil = true
all_strings (cons v vs) = is_string v && all_strings vs

abbrev ids_values : String → Bson → ExtensionResult (Unit {0})
ids_values key (array values) = do
  ensure (key =ₛ "values") (bad_filter ids_message)
  ensure (leb (len_items values) max_filter_terms && all_strings values) (bad_filter ids_message)
ids_values key _ = err (bad_filter ids_message)

-- The arms of the `match` on the kind, but for `bool`.
unfoldable pub validate_leaf : String → Document → ExtensionResult (Unit {0})
unfolding single_entry single_field require_scalar require_scalars range_bounds validate_field_name
validate_leaf kind body =
    if kind =ₛ "term"
    then (do value ← single_field body "term"; term_value value)
    else if kind =ₛ "terms"
    then (do value ← single_field body "terms"; terms_values value)
    else if kind =ₛ "range"
    then (do value ← single_field body "range"; range_value value)
    else if kind =ₛ "exists"
    then (do (key, value) ← single_entry body exists_message; exists_value key value)
    else if kind =ₛ "ids"
    then (do (key, values) ← single_entry body ids_message; ids_values key values)
    else err (bad_filter (text "unsupported query type " ∷ text kind ∷ []))

abbrev pub is_occur : String → Bool
is_occur occur = occur =ₛ "must" || occur =ₛ "filter" || occur =ₛ "should" || occur =ₛ "must_not"

abbrev pub is_minimum : Bson → Bool
is_minimum (int32 v) = true
is_minimum (int64 v) = true
is_minimum (string s) = true
is_minimum _ = false

abbrev unsupported_option : String → ExtensionError
unsupported_option occur = bad_filter (text "unsupported bool option " ∷ text occur ∷ [])

abbrev within_limits : ℕ → ℕ → Bool
within_limits depth clauses = leb depth max_filter_depth && leb clauses max_filter_clauses

abbrev not_single : ExtensionError
not_single = bad_filter (text "each clause must have exactly one query type" ∷ [])

abbrev too_deep : ExtensionError
too_deep = bad_filter (text "too deeply nested or too many clauses" ∷ [])

unfoldable mutual
  unfolding validate_leaf

  pub validate_filter_clause : Document → ℕ → ℕ → ExtensionResult ℕ
  validate_filter_clause (field kind (document body) end) depth clauses = do
    let inner = validate_bool body depth (suc clauses)
    ensure (within_limits depth (suc clauses)) too_deep
    if kind =ₛ "bool" then inner else (do validate_leaf kind body; ok (suc clauses))
  validate_filter_clause (field kind value end) depth clauses = do
    ensure (within_limits depth (suc clauses)) too_deep
    err (bad_filter (text kind ∷ text " must be a document" ∷ []))
  validate_filter_clause clause depth clauses = do
    ensure (within_limits depth (suc clauses)) too_deep
    err not_single

  -- The entries of the body of a `bool` clause.
  pub validate_bool : Document → ℕ → ℕ → ExtensionResult ℕ
  validate_bool end depth clauses = ok clauses
  validate_bool (field occur (document d) rest) depth clauses =
      if is_occur occur
      then (do n ← validate_filter_clause d (suc depth) clauses; validate_bool rest depth n)
      else err (unsupported_option occur)
  validate_bool (field occur (array items) rest) depth clauses =
      if is_occur occur
      then (do n ← validate_clauses occur items depth clauses; validate_bool rest depth n)
      else err (unsupported_option occur)
  validate_bool (field occur value rest) depth clauses =
      if is_occur occur
      then err (bad_filter (text "bool." ∷ text occur ∷ text " must be a clause or array" ∷ []))
      else do
        ensure (occur =ₛ "minimum_should_match" && is_minimum value) (unsupported_option occur)
        validate_bool rest depth clauses

  -- The loop over an array of clauses.
  pub validate_clauses : String → Items → ℕ → ℕ → ExtensionResult ℕ
  validate_clauses occur nil depth clauses = ok clauses
  validate_clauses occur (cons (document d) items) depth clauses = do
    n ← validate_filter_clause d (suc depth) clauses
    validate_clauses occur items depth n
  validate_clauses occur (cons value items) depth clauses =
      err (bad_filter (text "bool." ∷ text occur ∷ text " items must be clauses" ∷ []))
