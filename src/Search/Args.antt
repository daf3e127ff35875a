-- ===== src/Search/Args.antt =====
-- opensearch-extension-core/src/lib.rs: the arguments of $vectorSearch.
pub mod Valid
pub mod Forward
use rust_sdk_mongodb_extensi.Prelude.{
  ℕ, String, Bool, true, false, ◌||◌, List, [], ◌∷◌, Option, none, some, if◌then◌else◌,
}
use rust_sdk_mongodb_extensi.Prelude.Int.{ℤ, pos, ltb_ℤ}
use rust_sdk_mongodb_extensi.Prelude.Word.{F64, is_finite, as_i64}
use rust_sdk_mongodb_extensi.Prelude.Text.{is_empty, trim}
use rust_sdk_mongodb_extensi.Errors.{
  text, number, bad_value, ExtensionResult, ok, err, ◌>>=◌, ◌>>◌, ensure,
}
use rust_sdk_mongodb_extensi.Bson.{Bson, string, int32, int64, double, document, Document, get}
use rust_sdk_mongodb_extensi.Search.Filter.{bad_filter, validate_filter_clause}

pub record QueryArgs : Type 0 where
  pub path : String
  pub query : String
  pub limit : ℤ
  pub filter : Option Document

abbrev pub default_limit : ℤ
default_limit = pos 10

abbrev pub max_limit : ℤ
max_limit = pos 1000

-- Document::get_str
abbrev pub get_str : String → Document → Option String
get_str key args = elim (get key args) [ some (string s) ↦ some s | _ ↦ none ]

abbrev trimmed_string : String → Option String → ExtensionResult String
trimmed_string key none = err (bad_value (text key ∷ text " must be a string" ∷ []))
trimmed_string key (some value) =
    if is_empty (trim value)
    then err (bad_value (text key ∷ text " must not be empty" ∷ []))
    else ok (trim value)

unfoldable pub bson_string : Document → String → ExtensionResult String
unfolding get
bson_string args key = trimmed_string key (get_str key args)

abbrev number_of : String → Bson → ExtensionResult ℤ
number_of key (int32 v) = ok v
number_of key (int64 v) = ok v
number_of key (double v) =
    if is_finite v
    then ok (as_i64 v)
    else err (bad_value (text key ∷ text " must be a finite number" ∷ []))
number_of key _ = err (bad_value (text key ∷ text " must be a finite number" ∷ []))

abbrev bounded : String → (low high : ℤ) → ℤ → ExtensionResult ℤ
bounded key low high parsed =
    if ltb_ℤ parsed low || ltb_ℤ high parsed
    then err (
        bad_value
          (text key ∷ text " must be between " ∷ number low ∷ text " and " ∷ number high ∷ []))
    else ok parsed

abbrev i64_in : String → (default low high : ℤ) → Option Bson → ExtensionResult ℤ
i64_in key default low high none = ok default
i64_in key default low high (some value) = do
  parsed ← number_of key value
  bounded key low high parsed

unfoldable pub bson_i64 : Document → String → (default low high : ℤ) → ExtensionResult ℤ
unfolding get as_i64
bson_i64 args key default low high = i64_in key default low high (get key args)

abbrev filter_of : Option Bson → ExtensionResult (Option Document)
filter_of none = ok none
filter_of (some (document filter)) = do
  clauses ← validate_filter_clause filter 1 0
  ok (some filter)
filter_of (some _) = err (bad_filter (text "filter must be a document" ∷ []))

unfoldable pub parse_vector_search_args : Document → ExtensionResult QueryArgs
unfolding validate_filter_clause bson_string bson_i64 get
parse_vector_search_args args = do
  filter ← filter_of (get "filter" args)
  path ← bson_string args "path"
  query ← bson_string args "query"
  limit ← bson_i64 args "limit" default_limit (pos 1) max_limit
  ok (record { path = path; query = query; limit = limit; filter = filter })
