-- ===== src/Plan/Build.antt =====
-- extension-sdk-mongodb/src/distributed_plan.rs: `build_merger`. The host's factory of parse nodes is
-- a parameter.
pub mod Owned
use rust_sdk_mongodb_extensi.Prelude.{
  ℕ, ◌≡◌, String, Bool, true, false, not, ◌&&◌, ◌||◌, if◌then◌else◌, Option, none, some, List, [],
  ◌∷◌, ◌++◌, ◌==◌,
}
use rust_sdk_mongodb_extensi.Prelude.Text.{starts_with_char}
use rust_sdk_mongodb_extensi.Errors.{
  text, ExtensionError, bad_value, ExtensionResult, Result, ok, err,
}
use rust_sdk_mongodb_extensi.Bson.{Bson, boolean, document, Document, end, field}
use rust_sdk_mongodb_extensi.Plan.Stages.{Element, parse_node}
use rust_sdk_mongodb_extensi.Plan.Containers.{Container, Plan}

abbrev pub handle_of : ExtensionResult ℕ → List ℕ
handle_of (ok node) = node ∷ []
handle_of (err e) = []

-- host.rs: create_host_parse_node. `created` lists the nodes that it has handed out.
pub record ParseNodeFactory : Type 1 where
  pub World : Type 0
  pub create_host_parse_node : Document → World → ExtensionResult ℕ × World
  pub created : World → List ℕ
  pub create-created :
      (d : Document) (w : World)
      → created (create_host_parse_node d w).1
        ≡ created w ++ handle_of (create_host_parse_node d w).0

-- A document of one entry whose key begins with a dollar sign.
abbrev pub is_stage_document : Document → Bool
is_stage_document (field key v end) = starts_with_char b'$' key
is_stage_document _ = false

abbrev pub not_a_stage : ExtensionError
not_a_stage = bad_value (text "DPL suffix must contain single-operator stage documents" ∷ [])

-- doc! {"$match": {"$expr": false}}
abbrev pub match_nothing : Document
match_nothing = field "$match" (document (field "$expr" (boolean false) end)) end

-- A failure, with the elements that are dropped on the way out.
abbrev pub OrDropped : Type 0 → Type 0
OrDropped A = Result (ExtensionError × List Element) A

module _ (host : ParseNodeFactory) where
  open host use {World, create_host_parse_node}

  -- What follows the creation of a node: its failure drops the stages.
  abbrev pub with_node {ℓ} :
      {A : Type ℓ}
      → (ExtensionError × List Element → A)
      → List Element
      → (ℕ → World → A × World)
      → ExtensionResult ℕ × World
      → A × World
  with_node fail stages f (ok node, w) = f node w
  with_node fail stages f (err e, w) = (fail (e, stages), w)

  -- The loop over the suffix, from the stages so far.
  unfoldable pub push_suffix :
      List Element → List Document → World → OrDropped (List Element) × World
  push_suffix stages [] w = (ok stages, w)
  push_suffix stages (spec ∷ suffix) w =
      if is_stage_document spec
      then with_node err stages (λ node v. push_suffix (stages ++ parse_node node ∷ []) suffix v)
          (create_host_parse_node spec w)
      else (err (not_a_stage, stages), w)

  abbrev pub plan_of : List Element → Option Container → Plan
  plan_of merger shards = record {
    merger = some (record { stages = some merger });
    shards = shards;
    shards_extracted = false;
  }

  abbrev pub shards_of : ℕ → Container
  shards_of node = record { stages = some (parse_node node ∷ []) }

  -- The shard component, and the plan.
  abbrev pub build_shards : Bool → OrDropped (List Element) × World → OrDropped Plan × World
  build_shards suppress_input (err dropped, w) = (err dropped, w)
  build_shards false (ok stages, w) = (ok (plan_of stages none), w)
  build_shards true (ok stages, w) =
      with_node err stages (λ node v. (ok (plan_of stages (some (shards_of node))), v))
        (create_host_parse_node match_nothing w)

  unfoldable pub build_merger : Element → List Document → Bool → World → OrDropped Plan × World
  unfolding push_suffix
  build_merger source suffix suppress_input w =
      build_shards suppress_input (push_suffix (source ∷ []) suffix w)
