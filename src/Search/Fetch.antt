-- ===== src/Search/Fetch.antt =====
-- opensearch-extension-core/src/lib.rs: the request to OpenSearch, with failover over the endpoints.
pub mod Decode
pub mod Attempts
use mathlib.Core.Path.{◌≡◌}
use rust_sdk_mongodb_extensi.Prelude.{
  ℕ, suc, ◌+◌, ◌-◌, ◌%◌, ◌^◌, String, Bool, Option, none, some, List, [], ◌∷◌, ◌++◌, ltb, length,
  if◌then◌else◌,
}
use rust_sdk_mongodb_extensi.Prelude.Int.{ℤ, pos, negsuc}
use rust_sdk_mongodb_extensi.Prelude.Word.{F64}
use rust_sdk_mongodb_extensi.Prelude.Text.{◌+ₛ◌, trim_end_matches}
use rust_sdk_mongodb_extensi.Errors
use rust_sdk_mongodb_extensi.Errors.{
  Message, text, number, runtime, ExtensionResult, Result, ok, err, ok_or,
}
use rust_sdk_mongodb_extensi.Bson.{Bson, string, double, Document, end, field, insert}
use rust_sdk_mongodb_extensi.Json
use rust_sdk_mongodb_extensi.Json.{Json, Members, as_str, as_array, as_f64, pointer}
use rust_sdk_mongodb_extensi.Search.Args.{QueryArgs}
use rust_sdk_mongodb_extensi.Search.Timeout.{request_timeout}
use rust_sdk_mongodb_extensi.Search.Control.{QueryControl, Action, ◌>>=◌, ◌>>◌, pure, fail, total}

pub record OpenSearchConfig : Type 0 where
  pub endpoints : List String

pub record SearchState : Type 0 where
  pub args : QueryArgs
  pub index : String
  pub config : OpenSearchConfig
  pub timeout : ℕ
  pub pending : List Document
  pub loaded : Bool

-- `as usize` of an i64, on 64 bits.
abbrev pub as_usize : ℤ → ℕ
as_usize (pos n) = n % 2 ^ 64
as_usize (negsuc n) = 2 ^ 64 - suc n % 2 ^ 64

abbrev pub score_key : String
score_key = "$vectorSearchScore"

abbrev zero_score : F64
zero_score = record { bits = 0 }

abbrev pub score_of : Option F64 → F64
score_of none = zero_score
score_of (some score) = score

unfoldable pub decode_candidate : Json → Result Message Document
unfolding Json.get insert
decode_candidate hit =
    Errors.◌>>=◌ (ok_or (text "OpenSearch hit missing _id" ∷ []) (as_str (Json.get "_id" hit)))
      λ id. ok (
        insert score_key (double (score_of (as_f64 (Json.get "_score" hit))))
          (field "_id" (string id) end))

-- The loop over the hits.
unfoldable pub decode_each : List Json → Result Message (List Document)
unfolding decode_candidate
decode_each [] = ok []
decode_each (hit ∷ hits) =
    Errors.◌>>=◌ (decode_candidate hit)
      λ candidate. Errors.◌>>=◌ (decode_each hits) λ out. ok (candidate ∷ out)

abbrev pub more_hits : ℕ → ℕ → Message
more_hits n limit =
    text "OpenSearch returned more hits than requested ("
    ∷ number (pos n)
    ∷ text " > "
    ∷ number (pos limit)
    ∷ text ")"
    ∷ []

unfoldable pub decode_candidates : Json → ℕ → Result Message (List Document)
unfolding pointer decode_each
decode_candidates value limit =
    Errors.◌>>=◌
      (ok_or (text "OpenSearch response missing hits.hits" ∷ [])
        (as_array (pointer "hits" "hits" value)))
      λ hits.
        if ltb limit (length hits) then err (more_hits (length hits) limit) else decode_each hits

-- opensearch_body, given the filter as JSON.
abbrev with_filter : Option Json → Members
with_filter none = Members.end
with_filter (some filter) = Members.member "filter" filter Members.end

unfoldable pub opensearch_body : QueryArgs → Option Json → Json
opensearch_body args filter = Json.object (
    Members.member "size" (Json.integer args.limit) (
      Members.member "_source" (Json.boolean Bool.false) (
        Members.member "query"
          (Json.object (
            Members.member "neural"
              (Json.object (
                Members.member (args.path +ₛ "_embedding")
                  (Json.object (
                    Members.member "query_text" (Json.string args.query)
                      (Members.member "k" (Json.integer args.limit) (with_filter filter))))
                  Members.end))
              Members.end))
          Members.end)))

unfoldable pub search_url : String → String → String
unfolding trim_end_matches
search_url endpoint index = trim_end_matches b'/' endpoint +ₛ "/" +ₛ index +ₛ "/_search"

abbrev pub or_none_attempted : Option Message → Message
or_none_attempted none = text "no endpoint attempted" ∷ []
or_none_attempted (some message) = message

abbrev pub all_failed : Option Message → Message
all_failed last = text "all OpenSearch endpoints failed: " ∷ or_none_attempted last

module _ (ctx : QueryControl) where
  open ctx use {World, check_interrupt, deadline_timestamp_ms, now_ms, post_search, doc_to_json}

  unfoldable pub next_attempt_timeout : ℕ → Action World ℕ
  next_attempt_timeout limit = do
    check_interrupt
    now ← total now_ms
    deadline ← deadline_timestamp_ms
    fail (request_timeout deadline now limit)

  unfoldable pub body_of : QueryArgs → Json
  body_of args =
      opensearch_body args (elim args.filter [ none ↦ none | some f ↦ some (doc_to_json f) ])

  -- One round of the loop: the answer of the endpoint, decoded.
  unfoldable pub attempt : SearchState → String → Action World (Result Message (List Document))
  attempt state endpoint = do
    timeout ← next_attempt_timeout state.timeout
    response ← total (post_search (search_url endpoint state.index) (body_of state.args) timeout)
    check_interrupt
    pure (Errors.◌>>=◌ response λ value. decode_candidates value (as_usize state.args.limit))

  unfoldable pub fetch_from :
      SearchState → List String → Option Message → Action World (List Document)
  fetch_from state [] last = fail (err (runtime (all_failed last)))
  fetch_from state (endpoint ∷ endpoints) last = do
    answer ← attempt state endpoint
    elim answer [
      | ok documents ↦ pure documents
      | err message ↦ fetch_from state endpoints (some message)
    ]

  unfoldable pub fetch_candidates : SearchState → Action World (List Document)
  unfolding fetch_from
  fetch_candidates state = fetch_from state state.config.endpoints none
