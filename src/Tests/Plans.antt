-- ===== src/Tests/Plans.antt =====
-- Distributed plans, with a host that numbers its parse nodes.
use rust_sdk_mongodb_extensi.Prelude.{
  ℕ, ◌≡◌, refl, Bool, true, false, none, some, List, [], ◌∷◌, ◌++◌, map, length,
}
use rust_sdk_mongodb_extensi.Prelude.Int.{pos}
use rust_sdk_mongodb_extensi.Errors.{ok}
use rust_sdk_mongodb_extensi.Bson.{int32, Document, end, field}
use rust_sdk_mongodb_extensi.Source.Ops.{Codec}
use rust_sdk_mongodb_extensi.Plan.Stages.{LogicalObj, Element, logical_stage, parse_node}
use rust_sdk_mongodb_extensi.Plan.Containers.{Plan}
use rust_sdk_mongodb_extensi.Plan.Host.{
  Holding, Call, shards_call, merger_call, transfer_call, destroy_container_call, destroy_plan_call,
  steps,
}
use rust_sdk_mongodb_extensi.Plan.Ownership.{tally, tally-steps}
use rust_sdk_mongodb_extensi.Plan.Build.{ParseNodeFactory, plan_of, build_merger}
use rust_sdk_mongodb_extensi.Plan.Build.Owned.{accounted, in_plan, build_merger-Owns}
use rust_sdk_mongodb_extensi.Plan.Logical.{PlanHooks, log_dpl}
use rust_sdk_mongodb_extensi.Plan.Logical.Applied.{PlansOnce, log_dpl-PlansOnce}

abbrev numbering : ParseNodeFactory
numbering = record {
  World = List ℕ;
  create_host_parse_node = λ d w. (ok (length w), w ++ length w ∷ []);
  created = λ w. w;
  create-created = λ d w. refl;
}

abbrev source : LogicalObj
source = record { args = 7 ∷ []; catalog = none; plan_applied = false }

abbrev unwind : Document
unwind = field "$unwind" (int32 (pos 0)) end

build_merger-Owns_example :
    (nodes : List ℕ) × ((build_merger numbering (logical_stage source) (unwind ∷ []) true []).1
      ≡ [] ++ nodes)
    × (accounted numbering in_plan
          (build_merger numbering (logical_stage source) (unwind ∷ []) true []).0
        ≡ (logical_stage source ∷ []) ++ map parse_node nodes)
build_merger-Owns_example = build_merger-Owns numbering (logical_stage source) (unwind ∷ []) true []

abbrev codec : Codec
codec = record { access_error = λ v. []; from_reader = λ b. ok end; to_writer = λ d. ok [] }

abbrev hooks : PlanHooks
hooks = record {
  merging_pipeline = some (λ args catalog. some (ok (some (unwind ∷ []))));
  static_properties_doc = some end;
}

log_dpl-PlansOnce_example :
    PlansOnce numbering codec hooks source (log_dpl numbering codec hooks source []).0
log_dpl-PlansOnce_example = log_dpl-PlansOnce numbering codec hooks source []

-- A plan of both parts: one stage for the shards, and two for the merger.
abbrev holding : Holding
holding = record {
  plan = some (
      plan_of numbering (logical_stage source ∷ parse_node 0 ∷ [])
        (some (record { stages = some (parse_node 1 ∷ []) })));
  containers = [];
  received = [];
  destroyed = [];
}

-- The shards are extracted first and transferred after the merger is extracted, which is destroyed
-- with its stages.
abbrev session : List Call
session =
    shards_call
    ∷ merger_call
    ∷ transfer_call 1 (some (record { size = 1; elements = some [] }))
    ∷ transfer_call 0 (some (record { size = 1; elements = some [] }))
    ∷ transfer_call 1 none
    ∷ destroy_container_call 1
    ∷ destroy_container_call 0
    ∷ destroy_plan_call
    ∷ []

abbrev is_node : Element → Bool
is_node (parse_node n) = true
is_node (logical_stage obj) = false

tally-steps_example : tally is_node (steps holding session) ≡ tally is_node holding
tally-steps_example = tally-steps is_node holding session

-- The second transfer of the shards hands nothing over.
handed_over_once :
    ((steps holding session).received ≡ parse_node 1 ∷ [])
    × ((steps holding session).destroyed ≡ logical_stage source ∷ parse_node 0 ∷ [])
unfolding steps rust_sdk_mongodb_extensi.Plan.Host.step rust_sdk_mongodb_extensi.Plan.Host.pick
    rust_sdk_mongodb_extensi.Plan.Containers.extract_shards
    rust_sdk_mongodb_extensi.Plan.Containers.extract_merger
    rust_sdk_mongodb_extensi.Plan.Containers.container_transfer
    rust_sdk_mongodb_extensi.Plan.Containers.plan_destroy
handed_over_once = (refl, refl)
