-- ===== src/Mapping/Entry/Initialized.antt =====
-- What the initialization of a map-transform extension does, described without its code.
use rust_sdk_mongodb_extensi.Prelude.{ℕ, ◌≢◌, ◌≡◌, refl, true, Option, none, some, [], ◌∷◌}
use rust_sdk_mongodb_extensi.Prelude.Int.{ℤ, pos, negsuc}
use rust_sdk_mongodb_extensi.Errors.{Message, text, ExtensionResult, ok, err}
use rust_sdk_mongodb_extensi.Mapping.Ops.{Boundary, failure, MapStageGlobals}
use rust_sdk_mongodb_extensi.Mapping.Entry.{
  Portal, Initialized, init_panic, registration, after_hook, run_hook,
}

module _ (portal : Portal) where
  open portal use {
    World, get_extension_options, on_extension_initialized, register_stage_descriptor,
  }

  -- The hook of a stage has succeeded, from one world to another, or there is none.
  pub data HookRan (globals : MapStageGlobals) (w : World) : World → Type 0 where
    no_hook : on_extension_initialized globals ≡ none → HookRan globals w w
    ran :
        {init : World → Boundary (Unit {0}) × World} {w' : World}
        → on_extension_initialized globals ≡ some init
        → init w ≡ (some (ok tt), w')
        → HookRan globals w w'

  -- What a registration comes to: a status that is not null, whose code is 0.
  pub data Registers : Option ℤ → ExtensionResult (Unit {0}) → Type 0 where
    registered : Registers (some (pos 0)) (ok tt)
    null_status :
        Registers none (err (failure (text "null status from register_stage_descriptor" ∷ [])))
    refused :
        {code : ℤ}
        → code ≢ pos 0
        → Registers (some code) (err (failure (text "register_stage_descriptor failed" ∷ [])))

  -- What the initialization does for the stage of the process, from a world: its result and the
  -- world that it leaves.
  pub data Initializes (w : World) : Option MapStageGlobals → Initialized portal → Type 0 where
    no_stage : Initializes w none (err (init_panic portal), w)
    hook_panics :
        {globals : MapStageGlobals} {init : World → Boundary (Unit {0}) × World} {w' : World}
        → on_extension_initialized globals ≡ some init
        → init w ≡ (none, w')
        → Initializes w (some globals) (err (init_panic portal), w')
    hook_fails :
        {globals : MapStageGlobals} {init : World → Boundary (Unit {0}) × World} {e : Message}
        {w' : World}
        → on_extension_initialized globals ≡ some init
        → init w ≡ (some (err e), w')
        → Initializes w (some globals) (err (failure e), w')
    registers :
        {globals : MapStageGlobals} {w' : World} {r : ExtensionResult (Unit {0})}
        → HookRan globals w w'
        → Registers (register_stage_descriptor w').0 r
        → Initializes w (some globals) (r, (register_stage_descriptor w').1)

  registration-Registers : (st : Option ℤ) → Registers st (registration portal st)
  registration-Registers none = null_status
  registration-Registers (some (pos ℕ.zero)) = registered
  registration-Registers (some (pos (ℕ.suc n))) = refused (λ e. cc)
  registration-Registers (some (negsuc n)) = refused (λ e. cc)

  after_hook-Initializes :
      (globals : MapStageGlobals) (w : World) (init : World → Boundary (Unit {0}) × World)
      (out : Boundary (Unit {0}) × World)
      → on_extension_initialized globals ≡ some init
      → init w ≡ out
      → Initializes w (some globals) (after_hook portal true out)
  after_hook-Initializes globals w init (none, w') h e = hook_panics h e
  after_hook-Initializes globals w init (some (err m), w') h e = hook_fails h e
  after_hook-Initializes globals w init (some (ok tt), w') h e =
      registers (ran h e) (registration-Registers (register_stage_descriptor w').0)

  pub run_hook-Initializes :
      (globals : MapStageGlobals) (w : World) (hook : Option (World → Boundary (Unit {0}) × World))
      → on_extension_initialized globals ≡ hook
      → Initializes w (some globals) (run_hook portal true w hook)
  run_hook-Initializes globals w none h =
      registers (no_hook h) (registration-Registers (register_stage_descriptor w).0)
  run_hook-Initializes globals w (some init) h =
      after_hook-Initializes globals w init (init w) h refl
