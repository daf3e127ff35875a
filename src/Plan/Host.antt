-- ===== src/Plan/Host.antt =====
-- extension-sdk-mongodb/src/distributed_plan.rs: a plan and its containers in the hands of the host,
-- which calls their virtual tables.
use rust_sdk_mongodb_extensi.Prelude.{ℕ, zero, suc, Option, none, some, List, [], ◌∷◌, ◌++◌}
use rust_sdk_mongodb_extensi.Errors.{ok, err}
use rust_sdk_mongodb_extensi.Plan.Stages.{Element}
use rust_sdk_mongodb_extensi.Plan.Containers.{
  Container, DplArray, stages_of, container_destroy, Transferred, container_transfer, Plan,
  plan_destroy, extract_shards, extract_merger,
}

-- What the host holds: the plan, until it destroys it, the containers that it extracted, the
-- elements that were transferred to it, and the log of those that the extension destroyed.
pub record Holding : Type 0 where
  pub plan : Option Plan
  pub containers : List Container
  pub received : List Element
  pub destroyed : List Element

-- The calls of the host. A call on a container names it by its place among those that the host holds.
pub data Call : Type 0 where
  shards_call : Call
  merger_call : Call
  transfer_call : ℕ → Option DplArray → Call
  destroy_container_call : ℕ → Call
  destroy_plan_call : Call

abbrev pub hold : List Container → Option Container → List Container
hold containers none = containers
hold containers (some container) = container ∷ containers

abbrev pub with_other :
    Container → Option (Container × List Container) → Option (Container × List Container)
with_other other none = none
with_other other (some (c, rest)) = some (c, other ∷ rest)

-- The container at a place, and the others.
unfoldable pub pick : ℕ → List Container → Option (Container × List Container)
pick n [] = none
pick zero (c ∷ rest) = some (c, rest)
pick (suc n) (c ∷ rest) = with_other c (pick n rest)

abbrev pub elements_of : Option DplArray → List Element
elements_of none = []
elements_of (some out) = stages_of out.elements

-- A transfer that succeeds hands its elements over, and the container, now empty, stays, at the first
-- place.
abbrev pub received_by : Holding → List Container → Transferred → Holding
received_by h rest ((ok done, this), out) = record h {
  containers = hold rest this;
  received = elements_of out ++ h.received;
}
received_by h rest ((err e, this), out) = record h { containers = hold rest this }

abbrev pub on_plan : Holding → Call → Plan → Holding
on_plan h shards_call plan =
    let ((r, out), plan') = extract_shards plan in
    record h { plan = some plan'; containers = hold h.containers out }
on_plan h merger_call plan =
    let ((r, out), plan') = extract_merger plan in
    record h { plan = some plan'; containers = hold h.containers out }
on_plan h destroy_plan_call plan = record h {
  plan = none;
  destroyed = plan_destroy plan ++ h.destroyed;
}
on_plan h call plan = h

abbrev pub on_container : Holding → Call → Container → List Container → Holding
on_container h (transfer_call n out) c rest = received_by h rest (container_transfer (some c) out)
on_container h (destroy_container_call n) c rest = record h {
  containers = rest;
  destroyed = container_destroy (some c) ++ h.destroyed;
}
on_container h call c rest = h

abbrev pub plan_step : Holding → Call → Option Plan → Holding
plan_step h call none = h
plan_step h call (some plan) = on_plan h call plan

abbrev pub container_step : Holding → Call → Option (Container × List Container) → Holding
container_step h call none = h
container_step h call (some (c, rest)) = on_container h call c rest

-- A call on the plan is left out once the plan is destroyed, and so is one on a container that the
-- host does not hold.
unfoldable pub step : Holding → Call → Holding
unfolding pick
step h (transfer_call n out) = container_step h (transfer_call n out) (pick n h.containers)
step h (destroy_container_call n) =
    container_step h (destroy_container_call n) (pick n h.containers)
step h call = plan_step h call h.plan

unfoldable pub steps : Holding → List Call → Holding
steps h [] = h
steps h (call ∷ calls) = steps (step h call) calls
