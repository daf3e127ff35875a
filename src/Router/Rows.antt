-- ===== src/Router/Rows.antt =====
-- opensearch-extension-core/src/mongos.rs: the search of a router and its cursor. The rows of an
-- answer are document keys; the merger looks the documents up.
pub mod Ready
use rust_sdk_mongodb_extensi.Prelude.{
  ℕ, String, Bool, true, false, if◌then◌else◌, Option, none, some, List, [], ◌∷◌, ◌++◌,
}
use rust_sdk_mongodb_extensi.Prelude.Word.{F64}
use rust_sdk_mongodb_extensi.Prelude.Text.{◌+ₛ◌, trim_end_matches}
use rust_sdk_mongodb_extensi.Errors.{
  Part, Message, text, runtime, ExtensionError, ExtensionResult, Result, ok, err,
}
use rust_sdk_mongodb_extensi.Bson.{
  Bson, string, double, document, array, boolean, other, Document, end, field, Items, nil, cons,
  get,
}
use rust_sdk_mongodb_extensi.Json.{Json}
use rust_sdk_mongodb_extensi.Stage.{Next, advanced, eof}
use rust_sdk_mongodb_extensi.Source.Ops.{CatalogContext, Caught}
use rust_sdk_mongodb_extensi.Search.Args.{QueryArgs}
use rust_sdk_mongodb_extensi.Search.Control.{
  QueryControl, Action, and_then, ◌>>=◌, ◌>>◌, pure, fail, total,
}
use rust_sdk_mongodb_extensi.Search.Fetch.{
  OpenSearchConfig, as_usize, score_key, next_attempt_timeout, body_of,
}
use rust_sdk_mongodb_extensi.Router.Decode.{KeyReader, invalid, decode_response}

pub record SearchState : Type 0 where
  pub args : QueryArgs
  pub index : String
  pub config : OpenSearchConfig
  pub rows : Option (List (Document × F64))

-- DEFAULT_TIMEOUT_MS, as milliseconds.
abbrev pub default_timeout : ℕ
default_timeout = 2000

unfoldable pub search_url : String → String → String
unfolding trim_end_matches
search_url endpoint index =
    trim_end_matches b'/' endpoint +ₛ "/" +ₛ index +ₛ "/_search?allow_partial_search_results=false"

-- errors.join("; ")
abbrev pub join : List Message → Message
join [] = []
join (message ∷ []) = message
join (message ∷ messages) = message ++ text "; " ∷ join messages

-- The key as the array of its fields, as documents with `k` and `v`.
unfoldable pub key_parts : Document → Items
key_parts end = nil
key_parts (field k v rest) =
    cons (document (field "k" (string k) (field "v" v end))) (key_parts rest)

abbrev row_with_id : Document → F64 → Option Bson → Option Next
row_with_id key score none = none
row_with_id key score (some id) = some (
    advanced (field "_id" id (field "__mongoKey" (array (key_parts key)) end))
      (some (field score_key (double score) end)))

-- The row of a key; none is the panic of `unwrap` on a key without _id.
unfoldable pub row_of : Document → F64 → Option Next
unfolding get key_parts
row_of key score = row_with_id key score (get "_id" key)

module _ (ctx : QueryControl) (reader : KeyReader) where
  open ctx use {World, check_interrupt, post_search}

  -- An answer is decoded, and that ends the search; only a failed request goes on.
  abbrev pub answered :
      SearchState
      → (Message → Action World (List (Document × F64)))
      → Result Message Json
      → Action World (List (Document × F64))
  answered state continue (ok value) =
      fail (decode_response reader value (as_usize state.args.limit))
  answered state continue (err e) = continue e

  unfoldable pub fetch_from :
      SearchState → List String → List Message → Action World (List (Document × F64))
  fetch_from state [] errors =
      fail (err (invalid (text "All OpenSearch endpoints failed: " ∷ join errors)))
  fetch_from state (endpoint ∷ endpoints) errors = do
    timeout ← next_attempt_timeout ctx default_timeout
    response ←
        total (post_search (search_url endpoint state.index) (body_of ctx state.args) timeout)
    check_interrupt
    answered state
        (λ e. fetch_from state endpoints (errors ++ (text endpoint ∷ text ": " ∷ e) ∷ [])) response

  unfoldable pub fetch : SearchState → Action World (List (Document × F64))
  unfolding fetch_from
  fetch state = fetch_from state state.config.endpoints []

  unfoldable pub load :
      SearchState → Option (List (Document × F64)) → Action World (List (Document × F64))
  load state (some rows) = pure rows
  load state none = fetch state

  abbrev pub unwrapped : Option Next → Caught Next
  unwrapped none = none
  unwrapped (some row) = some (ok row)

  abbrev pub pop : SearchState → List (Document × F64) → Caught Next × SearchState
  pop state [] = (some (ok eof), record state { rows = some [] })
  pop state ((key, score) ∷ rows) =
      (unwrapped (row_of key score), record state { rows = some rows })

  abbrev pub conclude :
      SearchState
      → ExtensionResult (List (Document × F64)) × World
      → (Caught Next × SearchState) × World
  conclude state (ok rows, w) = (pop state rows, w)
  conclude state (err e, w) = ((some (err e), state), w)

  unfoldable pub next : SearchState → World → (Caught Next × SearchState) × World
  next state w = conclude state ((do check_interrupt; load state state.rows) w)

-- The match of a looked-up document against the whole key: every part of the key is the value at its
-- path, a missing value counting as null. `null` is the BSON null.
abbrev key_matches : Bson → Bson
key_matches null =
    let items = λ (a b : Bson). array (cons a (cons b nil)) in
    let one = λ (k : String) (v : Bson). document (field k v end) in
    let get_field =
      one "$getField"
        (document (field "field" (string "$$this") (field "input" (string "$$value") end))) in
    let is_object = one "$eq" (items (one "$type" (string "$$value")) (string "object")) in
    let cond = one "$cond" (array (cons is_object (cons get_field (cons null nil)))) in
    let reduce = one "$reduce" (
      document (
        field "input" (one "$split" (items (string "$$part.k") (string ".")))
          (field "initialValue" (string "$$ROOT") (field "in" cond end)))) in
    let equal = one "$eq" (items (one "$ifNull" (items reduce null)) (string "$$part.v")) in
    let mapped = one "$map" (
      document (
        field "input" (string "$$documentKey")
          (field "as" (string "part") (field "in" equal end)))) in
    one "$allElementsTrue" (array (cons mapped nil))

abbrev in_router_only : Option CatalogContext → Option CatalogContext
in_router_only none = none
in_router_only (some c) = if c.in_router then some c else none

abbrev lookup_for : Bson → Option CatalogContext → ExtensionResult (List Document)
lookup_for null none =
    err (invalid (text "OpenSearch mongos extension requires a bound router namespace" ∷ []))
lookup_for null (some c) = ok (
    field "$lookup"
      (document (
        field "from" (string c.collection_name) (
          field "localField" (string "_id") (
            field "foreignField" (string "_id") (
              field "let" (document (field "documentKey" (string "$__mongoKey") end)) (
                field "pipeline"
                  (array (
                    cons
                      (document
                        (field "$match" (document (field "$expr" (key_matches null) end)) end))
                      nil))
                  (field "as" (string "__mongoDocument") end)))))))
      end
    ∷ field "$unwind" (string "$__mongoDocument") end
    ∷ field "$replaceWith" (string "$__mongoDocument") end
    ∷ [])

unfoldable pub lookup_pipeline : Bson → Option CatalogContext → ExtensionResult (List Document)
lookup_pipeline null catalog = lookup_for null (in_router_only catalog)
