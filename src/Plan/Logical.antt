-- ===== src/Plan/Logical.antt =====
-- extension-sdk-mongodb/src/source_stage.rs: the distributed planning of a logical source stage.
pub mod Applied
use rust_sdk_mongodb_extensi.Prelude.{
  ℕ, ◌≡◌, refl, sym, ap, ◌∙◌, Bool, true, false, not, if◌then◌else◌, Option, none, some, List, [],
  ◌∷◌, ◌++◌, map,
}
use rust_sdk_mongodb_extensi.Errors.{
  Message, text, ExtensionError, failed_to_parse, runtime, ExtensionResult, Result, ok, err,
  map_err,
}
use rust_sdk_mongodb_extensi.Bson.{Document, end}
use rust_sdk_mongodb_extensi.Source.Ops.{CatalogContext, Caught, Bytes, Codec}
use rust_sdk_mongodb_extensi.Source.Exec.{requires_input_of}
use rust_sdk_mongodb_extensi.Plan.Stages.{
  LogicalObj, logical_alloc, log_clone, Element, logical_stage, parse_node,
}
use rust_sdk_mongodb_extensi.Plan.Containers.{Container, Plan}
use rust_sdk_mongodb_extensi.Plan.Build.{
  ParseNodeFactory, OrDropped, build_merger, plan_of, push_suffix, build_shards, with_node,
}

-- The hook `merging_pipeline`, which may be missing and may panic, and the document of properties.
pub record PlanHooks : Type 0 where
  pub merging_pipeline : Option (Document → Option CatalogContext → Caught (Option (List Document)))
  pub static_properties_doc : Option Document

-- What the call returns to the host: no plan, a plan, or an error with what was dropped.
abbrev pub Planned : Type 0
Planned = OrDropped (Option Plan)

abbrev planning_panic : ExtensionError
planning_panic = runtime (text "panic during distributed planning" ∷ [])

module _ (host : ParseNodeFactory) (codec : Codec) (hooks : PlanHooks) where
  open host use {World}

  abbrev pub planned : OrDropped Plan × World → Planned × World
  planned (ok plan, w) = (ok (some plan), w)
  planned (err dropped, w) = (err dropped, w)

  -- The clone that runs on the merger.
  abbrev pub applied : LogicalObj → LogicalObj
  applied this = record (logical_alloc this.args this.catalog) { plan_applied = true }

  abbrev pub build_for : LogicalObj → List Document → Option Document → World → Planned × World
  build_for this suffix none w = (err (planning_panic, logical_stage (applied this) ∷ []), w)
  build_for this suffix (some properties) w = planned (
      build_merger host (logical_stage (applied this)) suffix (not (requires_input_of properties))
        w)

  abbrev pub with_suffix : LogicalObj → Caught (Option (List Document)) → World → Planned × World
  with_suffix this none w = (err (planning_panic, []), w)
  with_suffix this (some (err e)) w = (err (e, []), w)
  with_suffix this (some (ok none)) w = (ok none, w)
  with_suffix this (some (ok (some suffix))) w = build_for this suffix hooks.static_properties_doc w

  abbrev pub with_args :
      LogicalObj
      → (Document → Option CatalogContext → Caught (Option (List Document)))
      → Result Message Document
      → World
      → Planned × World
  with_args this hook (err m) w = (err (failed_to_parse m, []), w)
  with_args this hook (ok args) w = with_suffix this (hook args this.catalog) w

  abbrev pub with_hook :
      LogicalObj
      → Option (Document → Option CatalogContext → Caught (Option (List Document)))
      → World
      → Planned × World
  with_hook this none w = (ok none, w)
  with_hook this (some hook) w = with_args this hook (codec.from_reader this.args) w

  unfoldable pub log_dpl : LogicalObj → World → Planned × World
  log_dpl this w =
      if this.plan_applied then (ok none, w) else with_hook this hooks.merging_pipeline w
