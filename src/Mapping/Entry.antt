-- ===== src/Mapping/Entry.antt =====
-- extension-sdk-mongodb/src/map_transform.rs and version.rs: the entry point of a map-transform
-- extension, and its initialization, over the static variables of the process.
pub mod Initialized
pub mod First
use rust_sdk_mongodb_extensi.Prelude.{
  ℕ, ◌≡◌, refl, sym, ap, ◌∙◌, Bool, true, false, not, ◌&&◌, ◌||◌, Bool-cases, inl, inr,
  if◌then◌else◌, Option, none, some, List, [], ◌∷◌,
}
use rust_sdk_mongodb_extensi.Prelude.Int.{ℤ, pos}
use rust_sdk_mongodb_extensi.Errors.{
  Message, text, ExtensionError, ExtensionResult, Result, ok, err,
}
use rust_sdk_mongodb_extensi.Source.Ops.{Bytes}
use rust_sdk_mongodb_extensi.Source.Entry.{Version, supports_selected_version}
use rust_sdk_mongodb_extensi.Host.Services.{
  HostServices, Process, set_host_services, cache_extension_options_from_portal,
}
use rust_sdk_mongodb_extensi.Mapping.Ops.{Boundary, MapStageGlobals, failure}

-- MAP_ACTIVE_STAGE and EXTENSION_OBJ_ADDR, beside the variables of host.rs.
pub record MapProcess : Type 0 where
  pub host : Process
  pub active : Option MapStageGlobals
  pub installed : Bool

abbrev pub new_process : MapProcess
new_process = record {
  host = record { host_services = none; options_snapshot = none };
  active = none;
  installed = false;
}

-- OnceLock::get_or_init
abbrev pub get_or_init {ℓ} : {A : Type ℓ} → Option A → A → A
get_or_init none a = a
get_or_init (some first) a = first

-- The arguments of a call of the entry point; a null pointer is none.
pub record EntryCall : Type 0 where
  pub globals : MapStageGlobals
  pub version : Version
  pub services : Option HostServices
  pub out_null : Bool

abbrev pub is_null {ℓ} : {A : Type ℓ} → Option A → Bool
is_null none = true
is_null (some a) = false

module _ (extension_api_version : Version) where
  abbrev pub install : EntryCall → MapProcess → MapProcess
  install call p = record {
    host = set_host_services call.services p.host;
    active = some (get_or_init p.active call.globals);
    installed = true;
  }

  unfoldable pub get_map_extension_impl :
      EntryCall → MapProcess → ExtensionResult (Unit {0}) × MapProcess
  unfolding supports_selected_version set_host_services
  get_map_extension_impl call p =
      if is_null call.services || call.out_null
      then (err (failure (text "null parameter to get_mongodb_extension" ∷ [])), p)
      else if not (supports_selected_version extension_api_version call.version)
      then (err (failure (text "incompatible extension API version" ∷ [])), p)
      else (ok tt, install call p)

  pub call_all : List EntryCall → MapProcess → MapProcess
  call_all [] p = p
  call_all (call ∷ calls) p = call_all calls (get_map_extension_impl call p).1

-- The host's portal, and the hook of a stage for its initialization, which may panic.
pub record Portal : Type 1 where
  pub World : Type 0
  pub get_extension_options : Bytes
  pub on_extension_initialized : MapStageGlobals → Option (World → Boundary (Unit {0}) × World)
  pub register_stage_descriptor : World → Option ℤ × World

module _ (portal : Portal) where
  open portal use {
    World, get_extension_options, on_extension_initialized, register_stage_descriptor,
  }

  abbrev pub Initialized : Type 0
  Initialized = ExtensionResult (Unit {0}) × World

  abbrev pub init_panic : ExtensionError
  init_panic = failure (text "panic during extension initialize" ∷ [])

  abbrev pub registration : Option ℤ → ExtensionResult (Unit {0})
  registration none = err (failure (text "null status from register_stage_descriptor" ∷ []))
  registration (some (pos ℕ.zero)) = ok tt
  registration (some code) = err (failure (text "register_stage_descriptor failed" ∷ []))

  abbrev pub register : Bool → World → Initialized
  register false w = (err (failure (text "extension object not installed" ∷ [])), w)
  register true w = let (st, w') = register_stage_descriptor w in (registration st, w')

  abbrev pub after_hook : Bool → Boundary (Unit {0}) × World → Initialized
  after_hook installed (none, w) = (err init_panic, w)
  after_hook installed (some (err e), w) = (err (failure e), w)
  after_hook installed (some (ok done), w) = register installed w

  abbrev pub run_hook : Bool → World → Option (World → Boundary (Unit {0}) × World) → Initialized
  run_hook installed w none = register installed w
  run_hook installed w (some init) = after_hook installed (init w)

  -- The globals that are not installed make map_globals panic.
  abbrev pub initialize : Option MapStageGlobals → Bool → World → Initialized
  initialize none installed w = (err init_panic, w)
  initialize (some globals) installed w = run_hook installed w (on_extension_initialized globals)

  -- What the call returns, the variables and the world.
  unfoldable pub ext_init : MapProcess → World → Initialized × MapProcess
  unfolding cache_extension_options_from_portal
  ext_init p w = (
    initialize p.active p.installed w,
    record p { host = cache_extension_options_from_portal (some get_extension_options) p.host },
  )

module _ (api : Version) where
  -- A call that is accepted: its pointers are not null, and its version is the extension's.
  abbrev pub is_accepted : EntryCall → Bool
  is_accepted call =
      not (is_null call.services || call.out_null) && supports_selected_version api call.version

  -- The first accepted one of some calls.
  pub first_accepted : List EntryCall → Option EntryCall
  first_accepted [] = none
  first_accepted (call ∷ calls) = if is_accepted call then some call else first_accepted calls
