-- ===== src/Plan/Containers.antt =====
-- extension-sdk-mongodb/src/distributed_plan.rs: the plan and its two containers, as the host drives
-- them. An OwnedStage is its element, and dropping one destroys it.
use rust_sdk_mongodb_extensi.Prelude.{
  ℕ, Bool, true, false, not, ◌||◌, ◌&&◌, if◌then◌else◌, Option, none, some, List, [], ◌∷◌, ◌++◌,
  length, ◌==◌,
}
use rust_sdk_mongodb_extensi.Errors.{text, ExtensionError, bad_value, ExtensionResult, ok, err}
use rust_sdk_mongodb_extensi.Plan.Stages.{Element}

-- `stages` is none once they have been transferred.
pub record Container : Type 0 where
  pub stages : Option (List Element)

-- MongoExtensionDPLArray: the size that the host gives, and its array, which may be null, with what
-- has been written to it.
pub record DplArray : Type 0 where
  pub size : ℕ
  pub elements : Option (List Element)

abbrev pub stages_of : Option (List Element) → List Element
stages_of none = []
stages_of (some stages) = stages

unfoldable pub container_size : Container → ℕ
container_size this = length (stages_of this.stages)

-- Box::from_raw and drop: the elements that are destroyed.
unfoldable pub container_destroy : Option Container → List Element
container_destroy none = []
container_destroy (some this) = stages_of this.stages

abbrev pub is_null : {A : Type 0} → Option A → Bool
is_null none = true
is_null (some a) = false

abbrev pub is_nil : List Element → Bool
is_nil [] = true
is_nil (stage ∷ stages) = false

abbrev pub null_argument : ExtensionError
null_argument = bad_value (text "null DPL transfer argument" ∷ [])

abbrev pub already_transferred : ExtensionError
already_transferred = bad_value (text "DPL container already transferred" ∷ [])

abbrev pub invalid_array : ExtensionError
invalid_array = bad_value (text "invalid DPL output array" ∷ [])

-- The status, the container and the array that a call leaves.
abbrev pub Transferred : Type 0
Transferred = (ExtensionResult (Unit {0}) × Option Container) × Option DplArray

-- The body of the transfer for a container that still has its stages.
abbrev pub transfer_stages : Container → DplArray → List Element → Transferred
transfer_stages this out stages =
    if not (out.size == length stages) || (not (is_nil stages) && is_null out.elements)
    then ((err invalid_array, some this), some out)
    else (
      (ok tt, some (record this { stages = none })),
      some (record out { elements = some stages }),
    )

abbrev pub transfer_at : Container → DplArray → Option (List Element) → Transferred
transfer_at this out none = ((err already_transferred, some this), some out)
transfer_at this out (some stages) = transfer_stages this out stages

unfoldable pub container_transfer : Option Container → Option DplArray → Transferred
container_transfer none out = ((err null_argument, none), out)
container_transfer (some this) none = ((err null_argument, some this), none)
container_transfer (some this) (some out) = transfer_at this out this.stages

pub record Plan : Type 0 where
  pub merger : Option Container
  pub shards : Option Container
  pub shards_extracted : Bool

unfoldable pub plan_destroy : Plan → List Element
unfolding container_destroy
plan_destroy this = container_destroy this.merger ++ container_destroy this.shards

abbrev pub shards_gone : ExtensionError
shards_gone = bad_value (text "DPL shards already extracted" ∷ [])

abbrev pub merger_gone : ExtensionError
merger_gone = bad_value (text "DPL merger already extracted" ∷ [])

-- What `*out` holds after the call: a container or null.
unfoldable pub extract_shards : Plan → (ExtensionResult (Unit {0}) × Option Container) × Plan
extract_shards this =
    if this.shards_extracted
    then ((err shards_gone, none), this)
    else ((ok tt, this.shards), record this { shards = none; shards_extracted = true })

abbrev pub extract_merger_at :
    Plan → Option Container → (ExtensionResult (Unit {0}) × Option Container) × Plan
extract_merger_at this none = ((err merger_gone, none), this)
extract_merger_at this (some container) = ((ok tt, some container), record this { merger = none })

unfoldable pub extract_merger : Plan → (ExtensionResult (Unit {0}) × Option Container) × Plan
extract_merger this = extract_merger_at this this.merger
