-- ===== src/Tests/Routers.antt =====
-- Searches on a router.
use rust_sdk_mongodb_extensi.Prelude.{
  ℕ, ◌≤◌, String, ◌≡◌, ◌≢◌, refl, Bool, true, false, Option, none, some, List, [], ◌∷◌, ◌++◌,
  length,
}
use rust_sdk_mongodb_extensi.Prelude.Int.{pos}
use rust_sdk_mongodb_extensi.Prelude.Word.{F64}
use rust_sdk_mongodb_extensi.Errors.{ok}
use rust_sdk_mongodb_extensi.Bson.{string, int32, document, Document, end, field}
use rust_sdk_mongodb_extensi.Json
use rust_sdk_mongodb_extensi.Json.{Json, as_array, pointer}
use rust_sdk_mongodb_extensi.Search.Args.{QueryArgs}
use rust_sdk_mongodb_extensi.Search.Control.{QueryControl}
use rust_sdk_mongodb_extensi.Router.Decode.{KeyReader, is_incomplete, decode_response}
use rust_sdk_mongodb_extensi.Router.Decode.Sound.{AreRows, decode_response-AreRows}
use rust_sdk_mongodb_extensi.Router.Arguments.{parse, IsAccepted, parse-IsAccepted}
use rust_sdk_mongodb_extensi.Router.Rows.{SearchState, next}
use rust_sdk_mongodb_extensi.Router.Rows.Ready.{IsReady, next-IsReady}

-- A reader that takes every text for the key of the same document.
abbrev key : Document
key = field "_id" (int32 (pos 7)) (field "location.region" (string "eu") end)

abbrev reader : KeyReader
reader = record { from_str = λ s. ok (Json.string s); try_from = λ v. ok (document key) }

abbrev score : F64
score = record { bits = 4605380978949069210 }

abbrev hit : Json
hit =
    Json.object
      (Json.member "_id" (Json.string "{}") (Json.member "_score" (Json.float score) Json.end))

abbrev response : Json
response = Json.object (
    Json.member "hits"
      (Json.object (Json.member "hits" (Json.array (Json.cons hit Json.nil)) Json.end)) Json.end)

decoded : decode_response reader response 10 ≡ ok ((key, score) ∷ [])
unfolding decode_response
decoded = refl

decode_response-AreRows_example :
    (hits : List Json) × (is_incomplete reader response ≡ false)
    × (as_array (pointer "hits" "hits" response) ≡ some hits)
    × AreRows reader hits ((key, score) ∷ [])
    × (1 ≤ 10)
decode_response-AreRows_example = decode_response-AreRows reader response 10 decoded

abbrev rain : Document
rain = field "path" (string "description") (field "query" (string "rain") end)

abbrev rain_args : QueryArgs
rain_args = record { path = "description"; query = "rain"; limit = pos 10; filter = none }

rain_parsed : parse rain ≡ ok rain_args
unfolding parse rust_sdk_mongodb_extensi.Prelude.Text.trim
rain_parsed = refl

parse-IsAccepted_example : IsAccepted rain rain_args
parse-IsAccepted_example = parse-IsAccepted rain rain_parsed

-- A network on which every request is answered.
abbrev answering : QueryControl
answering = record {
  World = List String;
  check_interrupt = λ w. (ok tt, w);
  deadline_timestamp_ms = λ w. (ok none, w);
  now_ms = λ w. (pos 1000, w);
  post_search = λ url body t w. (ok response, w ++ url ∷ []);
  doc_to_json = λ d. Json.null;
  attempts = λ w. w;
  check-attempts = λ w. refl;
  deadline-attempts = λ w. refl;
  now-attempts = λ w. refl;
  post-attempts = λ url body t w. refl;
}

abbrev fresh : SearchState
fresh = record {
  args = rain_args;
  index = "mongodb.shop.items";
  config = record { endpoints = "http://a:9200" ∷ [] };
  rows = none;
}

fresh-IsReady : IsReady fresh
unfolding IsReady
fresh-IsReady = tt

next-IsReady_example :
    ((next answering reader fresh []).0.0 ≢ none) × IsReady (next answering reader fresh []).0.1
next-IsReady_example = next-IsReady answering reader fresh [] fresh-IsReady
