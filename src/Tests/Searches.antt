-- ===== src/Tests/Searches.antt =====
-- Searches on a replica set, against OpenSearch endpoints whose answers are scripted.
use rust_sdk_mongodb_extensi.Prelude.{
  ◌≤◌, ◌+◌, ◌-◌, min, String, ◌≡◌, ◌↔◌, refl, false, none, some, List, [], ◌∷◌, ◌++◌, map,
  replicate, arith,
}
use rust_sdk_mongodb_extensi.Prelude.Int.{pos, i64_max, ◌≤ℤ◌}
use rust_sdk_mongodb_extensi.Prelude.Word.{F64}
use rust_sdk_mongodb_extensi.Errors.{Message, text, Result, ok, err, bad_value}
use rust_sdk_mongodb_extensi.Bson.{Document, end, field, string, double}
use rust_sdk_mongodb_extensi.Json
use rust_sdk_mongodb_extensi.Json.{Json, as_array, pointer}
use rust_sdk_mongodb_extensi.Stage.{eof}
use rust_sdk_mongodb_extensi.Search.Timeout.{request_timeout, request_timeout_iff}
use rust_sdk_mongodb_extensi.Search.Control.{QueryControl}
use rust_sdk_mongodb_extensi.Search.Fetch.{
  SearchState, decode_candidates, fetch_candidates, search_url,
}
use rust_sdk_mongodb_extensi.Search.Fetch.Decode.{AreCandidates, decode_candidates_sound}
use rust_sdk_mongodb_extensi.Search.Fetch.Attempts.{Ends, fetch_candidates_searches}
use rust_sdk_mongodb_extensi.Search.Cursor.{row, next_result, pull}
use rust_sdk_mongodb_extensi.Search.Cursor.Drain.{pull_search, next_result-eq-err}

-- The answers to come, and the URLs of the requests so far.
record Network : Type 0 where
  answers : List (Result Message Json)
  posted : List String

abbrev no_answer : Message
no_answer = text "connection refused" ∷ []

abbrev answer_of : List (Result Message Json) → Result Message Json
answer_of [] = err no_answer
answer_of (a ∷ rest) = a

abbrev rest_of : List (Result Message Json) → List (Result Message Json)
rest_of [] = []
rest_of (a ∷ rest) = rest

abbrev scripted : QueryControl
scripted = record {
  World = Network;
  check_interrupt = λ w. (ok tt, w);
  deadline_timestamp_ms = λ w. (ok none, w);
  now_ms = λ w. (pos 1000, w);
  post_search = λ url body t w. (
    answer_of w.answers,
    record w { answers = rest_of w.answers; posted = w.posted ++ url ∷ [] },
  );
  doc_to_json = λ d. Json.object Json.end;
  attempts = λ w. w.posted;
  check-attempts = λ w. refl;
  deadline-attempts = λ w. refl;
  now-attempts = λ w. refl;
  post-attempts = λ url body t w. refl;
}

-- A host that interrupts every operation.
abbrev interrupted : QueryControl
interrupted = record scripted { check_interrupt = λ w. (err (bad_value (text "killed" ∷ [])), w) }

abbrev score : F64
score = record { bits = 4605380978949069210 }

abbrev hits : List Json
hits =
    Json.object
      (Json.member "_id" (Json.string "a") (Json.member "_score" (Json.float score) Json.end))
    ∷ []

abbrev elements_of : List Json → Json.Elements
elements_of [] = Json.nil
elements_of (v ∷ vs) = Json.cons v (elements_of vs)

abbrev response : Json
response = Json.object (
    Json.member "hits" (Json.object (Json.member "hits" (Json.array (elements_of hits)) Json.end))
      Json.end)

abbrev candidate : Document
candidate = field "_id" (string "a") (field "$vectorSearchScore" (double score) end)

decoded : decode_candidates response 10 ≡ ok (candidate ∷ [])
unfolding decode_candidates
decoded = refl

decode_candidates_sound_example :
    (found : List Json) × (as_array (pointer "hits" "hits" response) ≡ some found)
    × AreCandidates found (candidate ∷ [])
    × (1 ≤ 10)
decode_candidates_sound_example = decode_candidates_sound response 10 decoded

request_timeout_iff_example :
    (request_timeout (some (pos 1500)) (pos 1000) 30000 ≡ ok 500)
    ↔ (¬ (pos 1500 ≤ℤ pos 1000) × (500 ≡ min 30000 (min (1500 + 0 - (0 + 1000)) i64_max)))
request_timeout_iff_example =
    request_timeout_iff (pos 1500) (pos 1000) 30000 500 (λ e. absurd (ground (arith, e)))

abbrev two_endpoints : SearchState
two_endpoints = record {
  args = record { path = "description"; query = "rain"; limit = pos 10; filter = none };
  index = "mongodb.shop.items";
  config = record { endpoints = "http://a:9200/" ∷ "http://b:9200" ∷ [] };
  timeout = 30000;
  pending = [];
  loaded = false;
}

-- The first endpoint is down, and the second answers.
abbrev failover : Network
failover = record { answers = err no_answer ∷ ok response ∷ []; posted = [] }

abbrev searched : Network
searched = record {
  answers = [];
  posted =
      "http://a:9200/mongodb.shop.items/_search" ∷ "http://b:9200/mongodb.shop.items/_search" ∷ [];
}

fails_over : fetch_candidates scripted two_endpoints failover ≡ (ok (candidate ∷ []), searched)
unfolding fetch_candidates decode_candidates rust_sdk_mongodb_extensi.Search.Fetch.attempt
    rust_sdk_mongodb_extensi.Search.Fetch.next_attempt_timeout request_timeout search_url
fails_over = refl

fetch_candidates_searches_example :
    (tried : List String) × (untried : List String) × (two_endpoints.config.endpoints
      ≡ tried ++ untried)
    × (searched.posted ≡ [] ++ map (λ e. search_url e "mongodb.shop.items") tried)
    × Ends scripted two_endpoints tried untried (ok (candidate ∷ []))
fetch_candidates_searches_example =
    fetch_candidates_searches scripted two_endpoints failover searched (ok (candidate ∷ []))
      fails_over

pull_search_example :
    ((pull scripted 3 two_endpoints failover).0.0
      ≡ map (λ d. ok (row d)) (candidate ∷ []) ++ replicate 2 (ok eof))
    × ((pull scripted 3 two_endpoints failover).1.posted ≡ searched.posted)
pull_search_example =
    pull_search scripted (λ w. refl) 2 2 (candidate ∷ []) two_endpoints failover searched refl refl
      fails_over

killed :
    next_result interrupted two_endpoints failover
    ≡ ((err (bad_value (text "killed" ∷ [])), two_endpoints), failover)
unfolding next_result
killed = refl

next_result-eq-err_example : two_endpoints ≡ two_endpoints
next_result-eq-err_example =
    next_result-eq-err interrupted two_endpoints two_endpoints failover failover
      (bad_value (text "killed" ∷ [])) killed
