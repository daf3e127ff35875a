-- ===== src/Plan/Logical/Applied.antt =====
-- A plan is made once: the stage that runs on the merger is not planned again.
use rust_sdk_mongodb_extensi.Prelude.{
  ℕ, ◌≡◌, refl, Bool, true, false, not, if_lem, Option, none, some, List, [], ◌∷◌, map,
}
use rust_sdk_mongodb_extensi.Errors.{Message, ExtensionResult, Result, ok, err}
use rust_sdk_mongodb_extensi.Bson.{Document}
use rust_sdk_mongodb_extensi.Source.Ops.{CatalogContext, Caught, Codec}
use rust_sdk_mongodb_extensi.Source.Exec.{requires_input_of}
use rust_sdk_mongodb_extensi.Plan.Stages.{
  LogicalObj, logical_alloc, log_clone, Element, logical_stage, parse_node,
}
use rust_sdk_mongodb_extensi.Plan.Containers.{Plan}
use rust_sdk_mongodb_extensi.Plan.Build.{
  ParseNodeFactory, OrDropped, build_merger, push_suffix, build_shards, with_node, plan_of,
  shards_of, match_nothing,
}
use rust_sdk_mongodb_extensi.Plan.Build.Owned.{in_container, push_suffix-Owns, accounted}
use rust_sdk_mongodb_extensi.Plan.Logical.{
  PlanHooks, Planned, log_dpl, applied, planned, build_for, with_suffix, with_args, with_hook,
}

-- The merger of a plan runs this stage first, and then nodes of the host.
abbrev pub Starts : LogicalObj → Plan → Type 0
Starts obj plan =
    (nodes : List ℕ) × (in_container plan.merger ≡ logical_stage obj ∷ map parse_node nodes)

abbrev pub AllStart : LogicalObj → OrDropped Plan → Type 0
AllStart obj (ok plan) = Starts obj plan
AllStart obj (err dropped) = Unit

module _ (host : ParseNodeFactory) where
  open host use {World, create_host_parse_node}

  sharded-AllStart :
      (obj : LogicalObj) (stages : List Element) (p : ExtensionResult ℕ × World)
      → (nodes : List ℕ) × (stages ≡ logical_stage obj ∷ map parse_node nodes)
      → AllStart obj
          (with_node host err stages
            (λ node v. (ok (plan_of host stages (some (shards_of host node))), v))
            p).0
  sharded-AllStart obj stages (ok node, v) h = h
  sharded-AllStart obj stages (err e, v) h = tt

  build_shards-AllStart :
      (obj : LogicalObj) (b : Bool) (p : OrDropped (List Element) × World)
      → (nodes : List ℕ) × (accounted host (λ l. l) p.0 ≡ logical_stage obj ∷ map parse_node nodes)
      → AllStart obj (build_shards host b p).0
  build_shards-AllStart obj b (err dropped, w) h = tt
  build_shards-AllStart obj false (ok stages, w) h = h
  build_shards-AllStart obj true (ok stages, w) h =
      sharded-AllStart obj stages (create_host_parse_node match_nothing w) h

  build_merger-AllStart :
      (obj : LogicalObj) (suffix : List Document) (b : Bool) (w : World)
      → AllStart obj (build_merger host (logical_stage obj) suffix b w).0
  unfolding build_merger
  build_merger-AllStart obj suffix b w =
      let (nodes, c, a) = push_suffix-Owns host (logical_stage obj ∷ []) suffix w in
      build_shards-AllStart obj b (push_suffix host (logical_stage obj ∷ []) suffix w) (nodes, a)

  module _ (codec : Codec) (hooks : PlanHooks) where
    -- What holds of the outcome of planning a stage: a plan starts with the stage that has been
    -- marked, and planning a clone of that one makes no plan.
    pub PlansOnce : LogicalObj → Planned → Type 0
    PlansOnce this (err dropped) = Unit
    PlansOnce this (ok none) = Unit
    PlansOnce this (ok (some plan)) =
        Starts (record this { plan_applied = true }) plan
        × ((w : World)
            → log_dpl host codec hooks (log_clone (record this { plan_applied = true })) w
              ≡ (ok none, w))

    applied_clone :
        (this : LogicalObj) (w : World)
        → log_dpl host codec hooks (log_clone (record this { plan_applied = true })) w
          ≡ (ok none, w)
    unfolding log_dpl log_clone
    applied_clone this w = refl

    planned-PlansOnce :
        (this : LogicalObj) (p : OrDropped Plan × World)
        → AllStart (applied host codec hooks this) p.0
        → PlansOnce this (planned host codec hooks p).0
    unfolding PlansOnce logical_alloc
    planned-PlansOnce this (ok plan, w) h = (h, applied_clone this)
    planned-PlansOnce this (err dropped, w) h = tt

    build_for-PlansOnce :
        (this : LogicalObj) (suffix : List Document) (d : Option Document) (w : World)
        → PlansOnce this (build_for host codec hooks this suffix d w).0
    unfolding PlansOnce
    build_for-PlansOnce this suffix none w = tt
    build_for-PlansOnce this suffix (some d) w =
        planned-PlansOnce this _ (
          build_merger-AllStart (applied host codec hooks this) suffix (not (requires_input_of d))
            w)

    with_suffix-PlansOnce :
        (this : LogicalObj) (c : Caught (Option (List Document))) (w : World)
        → PlansOnce this (with_suffix host codec hooks this c w).0
    unfolding PlansOnce
    with_suffix-PlansOnce this none w = tt
    with_suffix-PlansOnce this (some (err e)) w = tt
    with_suffix-PlansOnce this (some (ok none)) w = tt
    with_suffix-PlansOnce this (some (ok (some suffix))) w =
        build_for-PlansOnce this suffix hooks.static_properties_doc w

    with_args-PlansOnce :
        (this : LogicalObj)
        (hook : Document → Option CatalogContext → Caught (Option (List Document)))
        (r : Result Message Document) (w : World)
        → PlansOnce this (with_args host codec hooks this hook r w).0
    unfolding PlansOnce
    with_args-PlansOnce this hook (err m) w = tt
    with_args-PlansOnce this hook (ok args) w =
        with_suffix-PlansOnce this (hook args this.catalog) w

    with_hook-PlansOnce :
        (this : LogicalObj)
        (o : Option (Document → Option CatalogContext → Caught (Option (List Document))))
        (w : World)
        → PlansOnce this (with_hook host codec hooks this o w).0
    unfolding PlansOnce
    with_hook-PlansOnce this none w = tt
    with_hook-PlansOnce this (some hook) w =
        with_args-PlansOnce this hook (codec.from_reader this.args) w

    -- Planning a stage gives an error, no plan, or a plan whose merger runs a copy of the stage, which
    -- has its arguments and its catalog and is marked, and then nodes of the host; and planning a clone of that copy gives no plan, so that
    -- planning does not recur.
    pub log_dpl-PlansOnce :
        (this : LogicalObj) (w : World) → PlansOnce this (log_dpl host codec hooks this w).0
    unfolding log_dpl PlansOnce
    log_dpl-PlansOnce this w =
        if_lem (λ (p : Planned × World). PlansOnce this p.0) this.plan_applied tt
          (with_hook-PlansOnce this hooks.merging_pipeline w)
