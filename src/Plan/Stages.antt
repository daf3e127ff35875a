-- ===== src/Plan/Stages.antt =====
-- extension-sdk-mongodb/src/source_stage.rs and distributed_plan.rs: the stages of a plan.
use rust_sdk_mongodb_extensi.Prelude.{ℕ, Bool, false, Option}
use rust_sdk_mongodb_extensi.Source.Ops.{CatalogContext, Bytes}

-- The logical stage of a source; its hooks are those of the extension.
pub record LogicalObj : Type 0 where
  pub args : Bytes
  pub catalog : Option CatalogContext
  pub plan_applied : Bool

unfoldable pub logical_alloc : Bytes → Option CatalogContext → LogicalObj
logical_alloc args catalog = record { args = args; catalog = catalog; plan_applied = false }

unfoldable pub log_clone : LogicalObj → LogicalObj
unfolding logical_alloc
log_clone this = record (logical_alloc this.args this.catalog) { plan_applied = this.plan_applied }

-- MongoExtensionDPLArrayElement: an owned logical stage, or an owned parse node of the host, by its
-- handle.
pub data Element : Type 0 where
  logical_stage : LogicalObj → Element
  parse_node : ℕ → Element
