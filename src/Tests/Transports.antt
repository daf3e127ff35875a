-- ===== src/Tests/Transports.antt =====
-- One signed request to OpenSearch, and a search that is interrupted.
use rust_sdk_mongodb_extensi.Prelude.{
  ◌≡◌, refl, ℕ, false, String, if◌then◌else◌, Option, none, some, List, [], ◌∷◌, ◌++◌,
}
use rust_sdk_mongodb_extensi.Prelude.Text.{◌=ₛ◌}
use rust_sdk_mongodb_extensi.Errors.{ok}
use rust_sdk_mongodb_extensi.Json.{object, end}
use rust_sdk_mongodb_extensi.Prelude.Int.{pos}
use rust_sdk_mongodb_extensi.Host.Services.{code_of}
use rust_sdk_mongodb_extensi.Host.Context.{QueryContext}
use rust_sdk_mongodb_extensi.Search.Fetch.{SearchState, fetch_candidates}
use rust_sdk_mongodb_extensi.Search.Staged.{stage_control}
use rust_sdk_mongodb_extensi.Search.Staged.Interrupted.{fetch_candidates-interrupted}
use rust_sdk_mongodb_extensi.Search.Transport.{Request, response, Network}

abbrev environment : String → Option String
environment name = if name =ₛ "OPENSEARCH_AWS_REGION" then some "eu-west-1" else some "true"

-- A network that answers every request with an empty object, and remembers it.
abbrev network : Network
network = record {
  World = List Request;
  var = environment;
  to_vec = λ v. ok (123 ∷ 125 ∷ []);
  from_slice = λ b. ok (object end);
  now = λ w. (7, w);
  sign = λ auth url bytes time. ok (("authorization", "AWS4") ∷ []);
  send_bytes = λ r w. (response 200 (123 ∷ 125 ∷ []) false, w ++ r ∷ []);
  sent = λ w. w;
  now-sent = λ w. refl;
  send-sent = λ r w. refl;
}

-- A host that interrupts with 11601, and a search of one endpoint.
abbrev killing : QueryContext
killing = record {
  World = ℕ;
  check_for_interrupt = λ st w. (record { get_code = pos 11601; get_reason = none }, w);
  get_deadline_timestamp_ms = λ w. ((none, pos 500), w);
}

abbrev state : SearchState
state = record {
  args = record { path = "plot"; query = "space"; limit = pos 10; filter = none };
  index = "mongodb.db.films";
  config = record { endpoints = "https://search" ∷ [] };
  timeout = 2000;
  pending = [];
  loaded = false;
}

fetch_candidates-interrupted_example :
    (let (r, v) =
        fetch_candidates
          (stage_control killing network (λ d. object end) (some tt))
          state
          ((3, []), []) in
      (code_of r ≡ pos 11601) × (v.0.1 ≡ []) × (v.1 ≡ []))
fetch_candidates-interrupted_example =
    fetch_candidates-interrupted killing network (λ d. object end) state "https://search" []
      (pos 11601) ((3, []), []) refl refl (λ q. cc)
