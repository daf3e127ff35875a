-- ===== src/Plan/Build/Owned.antt =====
-- Which stages a plan that is built holds, and which a failure drops.
use mathlib.Core.List.{append_assoc, append-nil}
use rust_sdk_mongodb_extensi.Prelude.{
  ℕ, ◌≡◌, refl, sym, ap, ◌∙◌, Bool, true, false, if_lem, Option, none, some, List, [], ◌∷◌, ◌++◌,
  map,
}
use rust_sdk_mongodb_extensi.Errors.{ExtensionResult, ok, err}
use rust_sdk_mongodb_extensi.Bson.{Document}
use rust_sdk_mongodb_extensi.Plan.Stages.{Element, parse_node}
use rust_sdk_mongodb_extensi.Plan.Containers.{Container, stages_of, Plan}
use rust_sdk_mongodb_extensi.Plan.Build.{
  handle_of, ParseNodeFactory, is_stage_document, not_a_stage, match_nothing, OrDropped, with_node,
  push_suffix, plan_of, shards_of, build_shards, build_merger,
}

abbrev pub in_container : Option Container → List Element
in_container none = []
in_container (some c) = stages_of c.stages

abbrev pub in_plan : Plan → List Element
in_plan plan = in_container plan.merger ++ in_container plan.shards

map-++ : (xs ys : List ℕ) → map parse_node (xs ++ ys) ≡ map parse_node xs ++ map parse_node ys
map-++ [] ys = refl
map-++ (x ∷ xs) ys = ap (λ l. parse_node x ∷ l) (map-++ xs ys)

module _ (host : ParseNodeFactory) where
  open host use {World, create_host_parse_node, created}

  -- The elements that an outcome holds or has dropped.
  abbrev pub accounted : {A : Type 0} → (A → List Element) → OrDropped A → List Element
  accounted held (ok a) = held a
  accounted held (err (e, dropped)) = dropped

  -- The nodes that were created since a world are, after the stages so far, those of the outcome.
  abbrev pub Owns :
      {A : Type 0} → (A → List Element) → List Element → World → OrDropped A × World → Type 0
  Owns held stages w out =
      (nodes : List ℕ) × (created out.1 ≡ created w ++ nodes)
      × (accounted held out.0 ≡ stages ++ map parse_node nodes)

  kept-Owns :
      {A : Type 0} (held : A → List Element) (stages : List Element) (w : World) (a : OrDropped A)
      → accounted held a ≡ stages
      → Owns held stages w (a, w)
  kept-Owns held stages w a e = ([], sym (append-nil (created w)), e ∙ sym (append-nil stages))

  with_node-Owns :
      {A : Type 0} (held : A → List Element) (stages : List Element)
      (f : ℕ → World → OrDropped A × World) (d : Document) (w : World)
      → ((node : ℕ) (v : World) → Owns held (stages ++ parse_node node ∷ []) v (f node v))
      → Owns held stages w (with_node host err stages f (create_host_parse_node d w))
  with_node-Owns held stages f d w h = go (create_host_parse_node d w) (host.create-created d w)
    where
      go :
          (p : ExtensionResult ℕ × World)
          → created p.1 ≡ created w ++ handle_of p.0
          → Owns held stages w (with_node host err stages f p)
      go (err e, v) c = ([], c, sym (append-nil stages))
      go (ok node, v) c =
          let (nodes, c', a) = h node v in
          (
            node ∷ nodes,
            c' ∙ (ap (λ l. l ++ nodes) c ∙ append_assoc (created w) (node ∷ []) nodes),
            a ∙ append_assoc stages (parse_node node ∷ []) (map parse_node nodes),
          )

  pub push_suffix-Owns :
      (stages : List Element) (suffix : List Document) (w : World)
      → Owns (λ l. l) stages w (push_suffix host stages suffix w)
  unfolding push_suffix
  push_suffix-Owns stages [] w = kept-Owns (λ l. l) stages w (ok stages) refl
  push_suffix-Owns stages (spec ∷ suffix) w =
      if_lem (Owns (λ l. l) stages w) (is_stage_document spec)
        (with_node-Owns (λ l. l) stages _ spec w
          (λ node v. push_suffix-Owns (stages ++ parse_node node ∷ []) suffix v))
        (kept-Owns (λ l. l) stages w (err (not_a_stage, stages)) refl)

  build_shards-Owns :
      (source : Element) (suppress_input : Bool) (w : World) (p : OrDropped (List Element) × World)
      → Owns (λ l. l) (source ∷ []) w p
      → Owns in_plan (source ∷ []) w (build_shards host suppress_input p)
  build_shards-Owns source b w (err dropped, v) h = h
  build_shards-Owns source false w (ok stages, v) (nodes, c, a) = (nodes, c, append-nil stages ∙ a)
  build_shards-Owns source true w (ok stages, v) (nodes, c, a) =
      let (more, c', a') =
        with_node-Owns in_plan stages
          (λ node v'. (ok (plan_of host stages (some (shards_of host node))), v')) match_nothing v
          (λ node v'.
            kept-Owns in_plan (stages ++ parse_node node ∷ []) v'
              (ok (plan_of host stages (some (shards_of host node)))) refl) in
      (
        nodes ++ more,
        c' ∙ (ap (λ l. l ++ more) c ∙ append_assoc (created w) nodes more),
        a'
            ∙ (ap (λ l. l ++ map parse_node more) a
                ∙ ap (λ l. source ∷ l) (sym (map-++ nodes more))),
      )

  -- Every parse node that the host has created for a plan is, after the source and in the order of
  -- its creation, a stage of the plan, on the merger or on the shards; and where the plan cannot be
  -- built, the source and these nodes are dropped, so that none is leaked.
  pub build_merger-Owns :
      (source : Element) (suffix : List Document) (suppress_input : Bool) (w : World)
      → Owns in_plan (source ∷ []) w (build_merger host source suffix suppress_input w)
  unfolding build_merger
  build_merger-Owns source suffix suppress_input w =
      build_shards-Owns source suppress_input w (push_suffix host (source ∷ []) suffix w)
        (push_suffix-Owns (source ∷ []) suffix w)
