-- ===== src/Plan/Ownership.antt =====
-- A plan in the hands of the host: every stage is at one place, whatever the host calls.
use rust_sdk_mongodb_extensi.Prelude.{
  ℕ, zero, suc, ◌+◌, ◌≡◌, refl, ap, ◌∙◌, Bool, not, ◌||◌, ◌&&◌, if_lem, if◌then◌else◌, Option, none,
  some, List, [], ◌∷◌, ◌++◌, length, ◌==◌, arith,
}
use rust_sdk_mongodb_extensi.Errors.{ExtensionResult, ok, err}
use rust_sdk_mongodb_extensi.Plan.Stages.{Element}
use rust_sdk_mongodb_extensi.Plan.Containers.{
  Container, DplArray, stages_of, container_destroy, Transferred, transfer_at, container_transfer,
  Plan, plan_destroy, extract_shards, extract_merger_at, extract_merger, is_nil, is_null,
}
use rust_sdk_mongodb_extensi.Plan.Host.{
  Holding, Call, hold, with_other, pick, elements_of, received_by, on_plan, on_container, plan_step,
  container_step, step, steps, shards_call, merger_call, transfer_call, destroy_container_call,
  destroy_plan_call,
}

module _ (same : Element → Bool) where
  -- How many elements of a list are the one that is asked for.
  pub count : List Element → ℕ
  count [] = 0
  count (x ∷ xs) = (if same x then 1 else 0) + count xs

  abbrev pub in_container : Option Container → ℕ
  in_container none = 0
  in_container (some c) = count (stages_of c.stages)

  pub in_containers : List Container → ℕ
  in_containers [] = 0
  in_containers (c ∷ cs) = in_container (some c) + in_containers cs

  abbrev pub in_plan : Option Plan → ℕ
  in_plan none = 0
  in_plan (some plan) = in_container plan.merger + in_container plan.shards

  -- How often a stage is anywhere.
  pub tally : Holding → ℕ
  tally h = in_plan h.plan + in_containers h.containers + count h.received + count h.destroyed

  count-++ : (xs ys : List Element) → count (xs ++ ys) ≡ count xs + count ys
  unfolding count
  count-++ [] ys = omega arith
  count-++ (x ∷ xs) ys = omega (arith, count-++ xs ys)

  in_containers-hold :
      (cs : List Container) (o : Option Container)
      → in_containers (hold cs o) ≡ in_container o + in_containers cs
  unfolding in_containers
  in_containers-hold cs none = omega arith
  in_containers-hold cs (some c) = refl

  -- The container that is picked, and the others, are what there was.
  IsPick : List Container → Option (Container × List Container) → Type 0
  IsPick cs none = Unit
  IsPick cs (some (c, rest)) = in_containers cs ≡ in_container (some c) + in_containers rest

  with_other-IsPick :
      (d : Container) (cs : List Container) (o : Option (Container × List Container))
      → IsPick cs o
      → IsPick (d ∷ cs) (with_other d o)
  unfolding IsPick in_containers
  with_other-IsPick d cs none h = tt
  with_other-IsPick d cs (some (c, rest)) h = omega (arith, h)

  pick-IsPick : (n : ℕ) (cs : List Container) → IsPick cs (pick n cs)
  unfolding IsPick pick in_containers
  pick-IsPick n [] = tt
  pick-IsPick zero (c ∷ rest) = refl
  pick-IsPick (suc n) (c ∷ rest) = with_other-IsPick c rest (pick n rest) (pick-IsPick n rest)

  count-container_destroy : (o : Option Container) → count (container_destroy o) ≡ in_container o
  unfolding container_destroy count
  count-container_destroy none = refl
  count-container_destroy (some c) = refl

  count-plan_destroy : (plan : Plan) → count (plan_destroy plan) ≡ in_plan (some plan)
  unfolding plan_destroy
  count-plan_destroy plan = omega (
    arith,
    count-++ (container_destroy plan.merger) (container_destroy plan.shards),
    count-container_destroy plan.merger,
    count-container_destroy plan.shards,
  )

  -- What the transfer of a container adds to the host's elements, it takes from the container.
  IsKept : Container → Transferred → Type 0
  IsKept c ((ok done, this), out) =
      in_container this + count (elements_of out) ≡ in_container (some c)
  IsKept c ((err e, this), out) = in_container this ≡ in_container (some c)

  transfer_at-IsKept :
      (c : Container) (out : DplArray) (o : Option (List Element))
      → c.stages ≡ o
      → IsKept c (transfer_at c out o)
  unfolding IsKept count
  transfer_at-IsKept c out none e = refl
  transfer_at-IsKept c out (some stages) e =
      if_lem (IsKept c)
        (not (out.size == length stages) || (not (is_nil stages) && is_null out.elements)) refl
        (omega (arith, ap (λ o. count (stages_of o)) e))

  container_transfer-IsKept :
      (c : Container) (out : Option DplArray) → IsKept c (container_transfer (some c) out)
  unfolding container_transfer IsKept
  container_transfer-IsKept c none = refl
  container_transfer-IsKept c (some out) = transfer_at-IsKept c out c.stages refl

  tally-received_by :
      (h : Holding) (c : Container) (rest : List Container) (t : Transferred)
      → IsKept c t
      → IsPick h.containers (some (c, rest))
      → tally (received_by h rest t) ≡ tally h
  unfolding IsKept tally IsPick
  tally-received_by h c rest ((ok done, this), out) k e =
      omega (arith, k, e, in_containers-hold rest this, count-++ (elements_of out) h.received)
  tally-received_by h c rest ((err x, this), out) k e =
      omega (arith, k, e, in_containers-hold rest this)

  destroyed_plan :
      (h : Holding) (plan : Plan)
      → h.plan ≡ some plan
      → tally (record h { plan = none; destroyed = plan_destroy plan ++ h.destroyed }) ≡ tally h
  unfolding tally
  destroyed_plan h plan e =
      omega (arith, ap in_plan e, count-++ (plan_destroy plan) h.destroyed, count-plan_destroy plan)

  destroyed_container :
      (h : Holding) (c : Container) (rest : List Container)
      → IsPick h.containers (some (c, rest))
      → tally
          (record h { containers = rest; destroyed = container_destroy (some c) ++ h.destroyed })
        ≡ tally h
  unfolding tally IsPick
  destroyed_container h c rest e = omega (
    arith,
    e,
    count-++ (container_destroy (some c)) h.destroyed,
    count-container_destroy (some c),
  )

  -- What an extraction takes from the plan, it hands out.
  abbrev Extracted : Type 0
  Extracted = (ExtensionResult (Unit {0}) × Option Container) × Plan

  IsMoved : Plan → Extracted → Type 0
  IsMoved plan t = in_plan (some t.1) + in_container t.0.1 ≡ in_plan (some plan)

  extract_shards-IsMoved : (plan : Plan) → IsMoved plan (extract_shards plan)
  unfolding IsMoved extract_shards
  extract_shards-IsMoved plan =
      if_lem (IsMoved plan) plan.shards_extracted (omega arith) (omega arith)

  extract_merger_at-IsMoved :
      (plan : Plan) (o : Option Container)
      → plan.merger ≡ o
      → IsMoved plan (extract_merger_at plan o)
  unfolding IsMoved
  extract_merger_at-IsMoved plan none e = omega arith
  extract_merger_at-IsMoved plan (some c) e = omega (arith, ap in_container e)

  tally-extracted :
      (h : Holding) (plan : Plan) (t : Extracted)
      → h.plan ≡ some plan
      → IsMoved plan t
      → tally (record h { plan = some t.1; containers = hold h.containers t.0.1 }) ≡ tally h
  unfolding tally IsMoved
  tally-extracted h plan t e k =
      omega (arith, k, ap in_plan e, in_containers-hold h.containers t.0.1)

  tally-on_plan :
      (h : Holding) (call : Call) (plan : Plan)
      → h.plan ≡ some plan
      → tally (on_plan h call plan) ≡ tally h
  unfolding extract_merger
  tally-on_plan h shards_call plan e =
      tally-extracted h plan (extract_shards plan) e (extract_shards-IsMoved plan)
  tally-on_plan h merger_call plan e =
      tally-extracted h plan (extract_merger plan) e
        (extract_merger_at-IsMoved plan plan.merger refl)
  tally-on_plan h destroy_plan_call plan e = destroyed_plan h plan e
  tally-on_plan h (transfer_call n out) plan e = refl
  tally-on_plan h (destroy_container_call n) plan e = refl

  tally-on_container :
      (h : Holding) (call : Call) (c : Container) (rest : List Container)
      → IsPick h.containers (some (c, rest))
      → tally (on_container h call c rest) ≡ tally h
  tally-on_container h (transfer_call n out) c rest e =
      tally-received_by h c rest (container_transfer (some c) out) (container_transfer-IsKept c out)
        e
  tally-on_container h (destroy_container_call n) c rest e = destroyed_container h c rest e
  tally-on_container h shards_call c rest e = refl
  tally-on_container h merger_call c rest e = refl
  tally-on_container h destroy_plan_call c rest e = refl

  tally-plan_step :
      (h : Holding) (call : Call) (o : Option Plan)
      → h.plan ≡ o
      → tally (plan_step h call o) ≡ tally h
  tally-plan_step h call none e = refl
  tally-plan_step h call (some plan) e = tally-on_plan h call plan e

  tally-container_step :
      (h : Holding) (call : Call) (o : Option (Container × List Container))
      → IsPick h.containers o
      → tally (container_step h call o) ≡ tally h
  tally-container_step h call none e = refl
  tally-container_step h call (some (c, rest)) e = tally-on_container h call c rest e

  tally-step : (h : Holding) (call : Call) → tally (step h call) ≡ tally h
  unfolding step
  tally-step h (transfer_call n out) =
      tally-container_step h (transfer_call n out) _ (pick-IsPick n h.containers)
  tally-step h (destroy_container_call n) =
      tally-container_step h (destroy_container_call n) _ (pick-IsPick n h.containers)
  tally-step h shards_call = tally-plan_step h shards_call h.plan refl
  tally-step h merger_call = tally-plan_step h merger_call h.plan refl
  tally-step h destroy_plan_call = tally-plan_step h destroy_plan_call h.plan refl

  -- Whatever the host calls, on the plan and on any of the containers that it holds, in whatever order
  -- and with whatever arguments, every stage of a plan is
  -- at one place, as often as at the start: in the plan, in a container, with the host, or destroyed.
  pub tally-steps : (h : Holding) (calls : List Call) → tally (steps h calls) ≡ tally h
  unfolding steps
  tally-steps h [] = refl
  tally-steps h (call ∷ calls) = tally-steps (step h call) calls ∙ tally-step h call
