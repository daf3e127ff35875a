-- ===== src/Mapping/Entry/First.antt =====
-- The stage of a process is that of the first call of the entry point that is accepted.
use mathlib.Core.Path.{subst}
use rust_sdk_mongodb_extensi.Prelude.{
  ◌≡◌, refl, sym, ap, if_lem, ◌∙◌, Bool, true, false, not, ◌&&◌, ◌||◌, Bool-cases, inl, inr,
  if◌then◌else◌, Option, none, some, List, [], ◌∷◌,
}
use rust_sdk_mongodb_extensi.Source.Entry.{Version, supports_selected_version}
use rust_sdk_mongodb_extensi.Host.Services.{
  HostServices, Process, set_host_services, cache_extension_options_from_portal,
}
use rust_sdk_mongodb_extensi.Mapping.Ops.{MapStageGlobals}
use rust_sdk_mongodb_extensi.Mapping.Entry.Initialized.{Initializes, no_stage, run_hook-Initializes}
use rust_sdk_mongodb_extensi.Mapping.Entry.{
  MapProcess, new_process, get_or_init, EntryCall, is_null, install, get_map_extension_impl,
  call_all, is_accepted, first_accepted, Portal, initialize, ext_init,
}

abbrev pub globals_of : Option EntryCall → Option MapStageGlobals
globals_of none = none
globals_of (some call) = some call.globals

abbrev pub is_some_call : Option EntryCall → Bool
is_some_call none = false
is_some_call (some call) = true

-- The services of a call, where it has any.
abbrev pub HasServices : Option EntryCall → Option HostServices → Type 0
HasServices none o = o ≡ none
HasServices (some call) o = (s : HostServices) × (call.services ≡ some s) × (o ≡ some s)

-- The variables of the process are those that this call has set, if there is one.
abbrev pub ProcessOf : Option EntryCall → MapProcess → Type 0
ProcessOf o p =
    HasServices o p.host.host_services × (p.active ≡ globals_of o) × (p.installed ≡ is_some_call o)

set-keeps :
    (services : Option HostServices) (h : Process) (s : HostServices)
    → h.host_services ≡ some s
    → (set_host_services services h).host_services ≡ some s
unfolding set_host_services
set-keeps none h s e = e
set-keeps (some later) h s e = rw e refl

set-first :
    (services : Option HostServices) (h : Process) (s : HostServices)
    → services ≡ some s
    → h.host_services ≡ none
    → (set_host_services services h).host_services ≡ some s
unfolding set_host_services
set-first none h s e n = cc
set-first (some first) h s e n = rw n e

module _ (api : Version) where
  call-install :
      (call : EntryCall) (p : MapProcess)
      → (get_map_extension_impl api call p).1
        ≡ (if is_accepted api call then install api call p else p)
  unfolding get_map_extension_impl
  call-install call p = elim (Bool-cases (is_null call.services || call.out_null)) [
    | inl e ↦ rw e refl
    | inr e ↦ elim (Bool-cases (supports_selected_version api call.version)) [
      | inl f ↦ rw (e, f) refl
      | inr f ↦ rw (e, f) refl
    ]
  ]

  accepted-services :
      (services : Option HostServices) (out_null good : Bool)
      → (not (is_null services || out_null) && good) ≡ true
      → (s : HostServices) × (services ≡ some s)
  accepted-services none out_null good h = cc
  accepted-services (some s) out_null good h = (s, refl)

  install-keeps :
      (first call : EntryCall) (p : MapProcess)
      → ProcessOf (some first) p
      → ProcessOf (some first) (install api call p)
  install-keeps first call p ((s, e, host), active, installed) = (
    (s, e, set-keeps call.services p.host s host),
    ap (λ a. some (get_or_init a call.globals)) active,
    refl,
  )

  install-first :
      (call : EntryCall) (p : MapProcess)
      → is_accepted api call ≡ true
      → ProcessOf none p
      → ProcessOf (some call) (install api call p)
  install-first call p h (host, active, installed) =
      let (s, e) =
        accepted-services call.services call.out_null (supports_selected_version api call.version)
          h in
      (
        (s, e, set-first call.services p.host s e host),
        ap (λ a. some (get_or_init a call.globals)) active,
        refl,
      )

  call_all-keeps :
      (calls : List EntryCall) (first : EntryCall) (p : MapProcess)
      → ProcessOf (some first) p
      → ProcessOf (some first) (call_all api calls p)
  unfolding call_all
  call_all-keeps [] first p h = h
  call_all-keeps (call ∷ calls) first p h = call_all-keeps calls first _ (
      subst (ProcessOf (some first)) (sym (call-install call p))
        (if_lem (ProcessOf (some first)) (is_accepted api call) (install-keeps first call p h) h))

  moved :
      (calls : List EntryCall) (p : MapProcess) {o : Option EntryCall} {q : MapProcess}
      → first_accepted api calls ≡ o
      → call_all api calls p ≡ q
      → ProcessOf o q
      → ProcessOf (first_accepted api calls) (call_all api calls p)
  moved calls p e f h =
      subst (λ o. ProcessOf o (call_all api calls p)) (sym e) (subst (ProcessOf _) (sym f) h)

  call_all-ProcessOf :
      (calls : List EntryCall) (p : MapProcess)
      → ProcessOf none p
      → ProcessOf (first_accepted api calls) (call_all api calls p)
  unfolding call_all first_accepted
  call_all-ProcessOf [] p h = h
  call_all-ProcessOf (call ∷ calls) p h = elim (Bool-cases (is_accepted api call)) [
    | inl e ↦
        moved (call ∷ calls) p (ap (λ b. if b then some call else first_accepted api calls) e)
          (ap (λ x. call_all api calls x)
            (call-install call p ∙ ap (λ b. if b then install api call p else p) e))
          (call_all-keeps calls call (install api call p) (install-first call p e h))
    | inr e ↦
        moved (call ∷ calls) p (ap (λ b. if b then some call else first_accepted api calls) e)
          (ap (λ x. call_all api calls x)
            (call-install call p ∙ ap (λ b. if b then install api call p else p) e))
          (call_all-ProcessOf calls p h)
  ]

module _ (portal : Portal) where
  open portal use {World, get_extension_options}

  initialize-Initializes :
      (first : Option EntryCall) (w : World)
      → Initializes portal w
          (globals_of first)
          (initialize portal (globals_of first) (is_some_call first) w)
  initialize-Initializes none w = no_stage
  initialize-Initializes (some call) w = run_hook-Initializes portal call.globals w _ refl

  ext_init-Initializes :
      (p : MapProcess) (first : Option EntryCall) (w : World)
      → p.active ≡ globals_of first
      → p.installed ≡ is_some_call first
      → Initializes portal w (globals_of first) (ext_init portal p w).0
  unfolding ext_init
  ext_init-Initializes p first w active installed =
      subst (Initializes portal w (globals_of first))
        (sym (
          ap (λ a. initialize portal a p.installed w) active
          ∙ ap (λ b. initialize portal (globals_of first) b w) installed))
        (initialize-Initializes first w)

  -- After any calls of the entry point, accepted or not, the host services and the stage of the
  -- process are those of the first call that was accepted; none is set where no call was. The
  -- initialization then runs the hook of that stage, if it has one, and calls the host to register
  -- its descriptor exactly where the hook succeeded; it succeeds itself exactly where the host's
  -- status is 0, and it panics where there is no stage. It keeps the host's options.
  pub call_all-ext_init :
      (api : Version) (calls : List EntryCall) (w : World)
      → (let p = call_all api calls new_process in
          let first = first_accepted api calls in
          ProcessOf first p
          × Initializes portal w (globals_of first) (ext_init portal p w).0
          × ((ext_init portal p w).1.host.options_snapshot ≡ some get_extension_options))
  unfolding ext_init cache_extension_options_from_portal
  call_all-ext_init api calls w =
      let p = call_all api calls new_process in
      let first = first_accepted api calls in
      let o = call_all-ProcessOf api calls new_process (refl, refl, refl) in
      let (services, active, installed) = o in
      (o, ext_init-Initializes p first w active installed, refl)
