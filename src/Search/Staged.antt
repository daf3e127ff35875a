-- ===== src/Search/Staged.antt =====
-- opensearch-extension-core/src/lib.rs: the QueryControl of a stage, by its context, the clock and
-- the transport. The surroundings are those of the host, those of the network, and the URLs that
-- post_search has been called with.
pub mod Interrupted
use rust_sdk_mongodb_extensi.Prelude.{String, Option, List, [], ◌∷◌, ◌++◌, refl}
use rust_sdk_mongodb_extensi.Prelude.Int.{pos}
use rust_sdk_mongodb_extensi.Bson.{Document}
use rust_sdk_mongodb_extensi.Json.{Json}
use rust_sdk_mongodb_extensi.Host.Context.{QueryContext, check_interrupt, deadline_timestamp_ms}
use rust_sdk_mongodb_extensi.Search.Control.{QueryControl}
use rust_sdk_mongodb_extensi.Search.Transport.{Network, post_search}

module _ (host : QueryContext) (network : Network) (doc_to_json : Document → Json) where
  abbrev pub Surroundings : Type 0
  Surroundings = (host.World × network.World) × List String

  -- The clock of the network gives milliseconds; `bound` tells whether the stage has a query context.
  abbrev pub stage_control : (bound : Option (Unit {0})) → QueryControl
  stage_control bound = record {
    World = Surroundings;
    check_interrupt = λ w. let (r, q) = check_interrupt host bound w.0.0 in (r, ((q, w.0.1), w.1));
    deadline_timestamp_ms =
        λ w. let (r, q) = deadline_timestamp_ms host bound w.0.0 in (r, ((q, w.0.1), w.1));
    now_ms = λ w. let (t, n) = network.now w.0.1 in (pos t, ((w.0.0, n), w.1));
    post_search = λ url body timeout w.
        let (r, n) = post_search network url body timeout w.0.1 in
        (r, ((w.0.0, n), w.1 ++ url ∷ []));
    doc_to_json = doc_to_json;
    attempts = λ w. w.1;
    check-attempts = λ w. refl;
    deadline-attempts = λ w. refl;
    now-attempts = λ w. refl;
    post-attempts = λ url body t w. refl;
  }
