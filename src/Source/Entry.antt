-- ===== src/Source/Entry.antt =====
-- extension-sdk-mongodb/src/source_stage.rs and version.rs: the entry point of an extension, and its
-- initialization. The static object of the process is a value that is passed and returned.
pub mod Registered
use rust_sdk_mongodb_extensi.Prelude.{
  ℕ, String, Bool, true, false, not, ◌&&◌, ◌||◌, if◌then◌else◌, Option, none, some, List, [], ◌∷◌,
  map, ◌==◌,
}
use rust_sdk_mongodb_extensi.Prelude.Int.{ℤ, pos, negsuc}
use rust_sdk_mongodb_extensi.Prelude.Text.{◌=ₛ◌, is_empty}
use rust_sdk_mongodb_extensi.Source.Ops.{Bytes, Caught}
use rust_sdk_mongodb_extensi.Host.Services.{
  HostServices, Process, set_host_services, cache_extension_options_from_portal,
}
use rust_sdk_mongodb_extensi.Errors.{
  Message, text, ExtensionError, runtime, host_error, ExtensionResult, Result, ok, err, ◌>>=◌, ◌>>◌,
  ensure,
}

-- MongoExtensionAPIVersion
pub record Version : Type 0 where
  pub major : ℕ
  pub minor : ℕ

-- EXTENSION_API_VERSION, of the ABI.
module _ (extension_api_version : Version) where
  unfoldable pub supports_selected_version : Version → Bool
  supports_selected_version selected =
      selected.major == extension_api_version.major && selected.minor == extension_api_version.minor

-- status::new_error_status with code -1.
abbrev pub new_error_status : Message → ExtensionError
new_error_status message = host_error (negsuc 0) message

abbrev duplicate : String → ExtensionError
duplicate name = new_error_status (text "duplicate source stage name " ∷ text name ∷ [])

-- The inner loop: no later stage has this name.
unfoldable pub check_later : String → List String → ExtensionResult (Unit {0})
check_later name [] = ok tt
check_later name (other ∷ names) = do
  ensure (not (name =ₛ other)) (duplicate name)
  check_later name names

unfoldable pub check_stage_names : List String → ExtensionResult (Unit {0})
unfolding check_later
check_stage_names [] = ok tt
check_stage_names (name ∷ names) = do
  ensure (not (is_empty name)) (new_error_status (text "source stage name must not be empty" ∷ []))
  check_later name names
  check_stage_names names

abbrev pub is_nil : List String → Bool
is_nil [] = true
is_nil (name ∷ names) = false

-- OnceLock::get_or_init: the stages of the object that the process keeps.
abbrev pub get_or_init : Option (List String) → List String → List String
get_or_init none names = names
get_or_init (some installed) names = installed

abbrev is_null : Option HostServices → Bool
is_null none = true
is_null (some services) = false

abbrev kept : Option HostServices → Process → ExtensionResult (List String) → Process
kept services p (ok names) = set_host_services services p
kept services p (err e) = p

module _ (extension_api_version : Version) where
  -- The object that the extension hands out, by the names of its stages. The flags say whether the
  -- pointers are null; `installed` is the object of an earlier call.
  unfoldable pub get_multi_source_extension_impl :
      (names : List String) (version : Version) (services_null out_null : Bool)
      → Option (List String)
      → ExtensionResult (List String)
  unfolding check_stage_names supports_selected_version
  get_multi_source_extension_impl names version services_null out_null installed = do
    ensure (not (services_null || out_null))
        (new_error_status (text "null parameter to get_mongodb_extension" ∷ []))
    ensure (not (is_nil names))
        (new_error_status (text "source extension must register at least one stage" ∷ []))
    check_stage_names names
    ensure (supports_selected_version extension_api_version version)
        (new_error_status (text "incompatible extension API version" ∷ []))
    ok (get_or_init installed names)

  -- The variables of the process after that call: an accepted one has set the host services.
  unfoldable pub process_after :
      (names : List String) (version : Version) (services : Option HostServices) (out_null : Bool)
      → Option (List String)
      → Process
      → Process
  unfolding get_multi_source_extension_impl set_host_services
  process_after names version services out_null installed p =
      kept services p
        (get_multi_source_extension_impl names version (is_null services) out_null installed)

-- The host's portal: its options, the hook of each stage, which may panic, and what it does with a
-- descriptor: its status is null, or has a code.
pub record Registry : Type 1 where
  pub World : Type 0
  pub get_extension_options : Bytes
  pub on_extension_initialized : String → World → Caught (Unit {0}) × World
  pub register_stage_descriptor : String → World → Option ℤ × World

abbrev pub registration_failed : String → ExtensionError
registration_failed name = runtime (text "register_stage_descriptor failed for " ∷ text name ∷ [])

abbrev pub null_status : ExtensionError
null_status = runtime (text "null status from register_stage_descriptor" ∷ [])

abbrev initialize_panic : ExtensionError
initialize_panic = runtime (text "panic during extension initialize" ∷ [])

-- A panic ends the closure, as an error does.
abbrev uncaught : {W : Type 0} → Caught (Unit {0}) × W → ExtensionResult (Unit {0}) × W
uncaught (none, w) = (err initialize_panic, w)
uncaught (some r, w) = (r, w)

abbrev pub registration : String → Option ℤ → ExtensionResult (Unit {0})
registration name none = err null_status
registration name (some (pos ℕ.zero)) = ok tt
registration name (some _) = err (registration_failed name)

module _ (registry : Registry) where
  open registry use {
    World, get_extension_options, on_extension_initialized, register_stage_descriptor,
  }

  -- What follows a call that succeeds.
  abbrev pub onward :
      ExtensionResult (Unit {0}) × World
      → (World → (ExtensionResult (Unit {0}) × List String) × World)
      → List String
      → (ExtensionResult (Unit {0}) × List String) × World
  onward (ok done, w) f registered = f w
  onward (err e, w) f registered = ((err e, registered), w)

  -- The loop over the descriptors, with the names that have been registered so far.
  unfoldable pub register_all :
      List String → List String → World → (ExtensionResult (Unit {0}) × List String) × World
  register_all [] registered w = ((ok tt, registered), w)
  register_all (name ∷ names) registered w =
      onward (uncaught (on_extension_initialized name w))
        (λ w1.
          let (st, w2) = register_stage_descriptor name w1 in
          onward (registration name st, w2) (λ w3. register_all names (name ∷ registered) w3)
            registered)
        registered

  abbrev register_installed :
      Option (List String) → World → (ExtensionResult (Unit {0}) × List String) × World
  register_installed none w = ((err (runtime (text "extension object not installed" ∷ [])), []), w)
  register_installed (some names) w = register_all names [] w

  -- What the call returns for the object that is installed, if there is one, with the names that
  -- were registered, and the variables of the process, which keep the host's options.
  unfoldable pub ext_init :
      Option (List String)
      → Process
      → World
      → ((ExtensionResult (Unit {0}) × List String) × World) × Process
  unfolding register_all cache_extension_options_from_portal
  ext_init installed p w = (
    register_installed installed w,
    cache_extension_options_from_portal (some get_extension_options) p,
  )
