-- ===== src/Host/Services.antt =====
-- extension-sdk-mongodb/src/host.rs and status.rs: the host services of the process, and the nodes
-- that the host makes. A pointer to a vtable is the callbacks behind it.
use rust_sdk_mongodb_extensi.Prelude.{ℕ, ◌≡◌, refl, ap, ◌∙◌, ◌↔◌, Option, none, some, [], ◌∷◌}
use rust_sdk_mongodb_extensi.Prelude.Int.{ℤ, pos, negsuc}
use rust_sdk_mongodb_extensi.Errors.{
  Message, text, ExtensionError, failed_to_parse, runtime, host_error, status_code, ExtensionResult,
  ok, err, ◌>>=◌, map_err, ok_or, >>=-eq-ok, ok_or-eq-ok, ok-injective, map_err-eq-ok,
}
use rust_sdk_mongodb_extensi.Bson.{Document}
use rust_sdk_mongodb_extensi.Source.Ops.{Bytes, Codec}

-- A status that is not null: its code, and its reason, which is none for a null or an empty view.
pub record HostStatus : Type 0 where
  pub get_code : ℤ
  pub get_reason : Option Message

abbrev pub reason_or : Message → HostStatus → Message
reason_or default st = elim st.get_reason [ none ↦ default | some m ↦ m ]

-- The status of a result.
abbrev pub code_of {ℓ} : {A : Type ℓ} → ExtensionResult A → ℤ
code_of (ok a) = pos 0
code_of (err e) = status_code e

-- A status that is OK gives a value; another is an error with its code and its reason.
abbrev pub settled_at {ℓ} : {A : Type ℓ} → ℤ → A → Message → ExtensionResult A
settled_at (pos ℕ.zero) a m = ok a
settled_at code a m = err (host_error code m)

-- Services of the host: what each call returns, and the node that it writes, if it writes one.
pub record HostServices : Type 0 where
  pub create_id_lookup : Bytes → Option HostStatus × Option ℕ
  pub create_host_agg_stage_parse_node : Bytes → Option HostStatus × Option ℕ

-- HOST_SERVICES_VTABLE_ADDR and EXTENSION_OPTIONS_SNAPSHOT.
pub record Process : Type 0 where
  pub host_services : Option HostServices
  pub options_snapshot : Option Bytes

-- OnceLock::set of services that are not null.
abbrev set_once : Option HostServices → HostServices → HostServices
set_once none services = services
set_once (some first) services = first

unfoldable pub set_host_services : Option HostServices → Process → Process
set_host_services none p = p
set_host_services (some services) p = record p {
  host_services = some (set_once p.host_services services);
}

-- The options of a portal; a null portal is none, and a null view is no bytes.
unfoldable pub cache_extension_options_from_portal : Option Bytes → Process → Process
cache_extension_options_from_portal none p = p
cache_extension_options_from_portal (some options) p = record p { options_snapshot = some options }

abbrev pub uninitialized : ExtensionError
uninitialized = runtime (text "host services not initialized" ∷ [])

-- The status of a call that makes a node, and the node.
abbrev node_of :
    (no_status failed no_node : Message) → Option HostStatus × Option ℕ → ExtensionResult ℕ
node_of no_status failed no_node (none, out) = err (runtime no_status)
node_of no_status failed no_node (some st, out) = do
  written ← settled_at st.get_code out (reason_or failed st)
  ok_or (runtime no_node) written

module _ (codec : Codec) (p : Process) where
  unfoldable pub create_id_lookup_ast : Document → ExtensionResult ℕ
  create_id_lookup_ast spec = do
    vt ← ok_or uninitialized p.host_services
    raw ← map_err failed_to_parse (codec.to_writer spec)
    node_of (text "null status from create_id_lookup" ∷ []) (text "create_id_lookup failed" ∷ [])
        (text "create_id_lookup returned null AST node" ∷ []) (vt.create_id_lookup raw)

  unfoldable pub create_host_parse_node : Document → ExtensionResult ℕ
  create_host_parse_node spec = do
    vt ← ok_or uninitialized p.host_services
    raw ← map_err failed_to_parse (codec.to_writer spec)
    node_of (text "null status from create_host_agg_stage_parse_node" ∷ [])
        (text "create_host_agg_stage_parse_node failed" ∷ [])
        (text "host returned null parse node" ∷ []) (vt.create_host_agg_stage_parse_node raw)

pub settled_at-eq-ok {ℓ} :
    {A : Type ℓ} (code : ℤ) (a : A) (m : Message) {b : A}
    → settled_at code a m ≡ ok b
    → (code ≡ pos 0) × (a ≡ b)
settled_at-eq-ok (pos ℕ.zero) a m h = (refl, ok-injective h)
settled_at-eq-ok (pos (ℕ.suc n)) a m h = cc
settled_at-eq-ok (negsuc n) a m h = cc

-- The status of what a call is settled to is the host's.
pub settled_at-code_of {ℓ} :
    {A : Type ℓ} (code : ℤ) (a : A) (m : Message) → code_of (settled_at code a m) ≡ code
unfolding status_code
settled_at-code_of (pos ℕ.zero) a m = refl
settled_at-code_of (pos (ℕ.suc n)) a m = refl
settled_at-code_of (negsuc n) a m = refl

-- The host made this node.
pub HasMade : Option HostStatus × Option ℕ → ℕ → Type 0
HasMade answer n =
    (st : HostStatus) × (st.get_code ≡ pos 0) × (answer.0 ≡ some st) × (answer.1 ≡ some n)

node_of-HasMade :
    (a b c : Message) (answer : Option HostStatus × Option ℕ) {n : ℕ}
    → node_of a b c answer ≡ ok n
    → HasMade answer n
unfolding HasMade
node_of-HasMade a b c (none, out) h = cc
node_of-HasMade a b c (some st, out) h =
    let (o, e, h1) = >>=-eq-ok (settled_at st.get_code out (reason_or b st)) _ h in
    let (good, same) = settled_at-eq-ok st.get_code out _ e in
    (st, good, refl, same ∙ ok_or-eq-ok (runtime c) o h1)

made-node_of :
    (a b c : Message) (answer : Option HostStatus × Option ℕ) {n : ℕ}
    → HasMade answer n
    → node_of a b c answer ≡ ok n
unfolding HasMade
made-node_of a b c (first, out) (st, good, e, o) =
    ap (λ f. node_of a b c (f, out)) e
    ∙ (ap (λ k. settled_at k out (reason_or b st) >>= λ x. ok_or (runtime c) x) good
        ∙ ap (λ x. ok_or (runtime c) x) o)

-- A node for a lookup is given exactly where the services are installed, the document is written,
-- and the host reports success and writes the node; in every other case there is an error.
pub create_id_lookup_ast_iff :
    (codec : Codec) (p : Process) (spec : Document) (n : ℕ)
    → (create_id_lookup_ast codec p spec ≡ ok n) ↔ (
        (services : HostServices) × (raw : Bytes) × (p.host_services ≡ some services)
        × (codec.to_writer spec ≡ ok raw)
        × HasMade (services.create_id_lookup raw) n)
unfolding create_id_lookup_ast
create_id_lookup_ast_iff codec p spec n = (
  λ h.
      let (vt, e, h1) = >>=-eq-ok (ok_or uninitialized p.host_services) _ h in
      let (raw, e1, h2) = >>=-eq-ok (map_err failed_to_parse (codec.to_writer spec)) _ h1 in
      (
        vt,
        raw,
        ok_or-eq-ok uninitialized p.host_services e,
        map_err-eq-ok failed_to_parse (codec.to_writer spec) e1,
        node_of-HasMade _ _ _ (vt.create_id_lookup raw) h2,
      ),
  λ k.
      let (vt, raw, e, e1, made) = k in
      rw (e, e1) (made-node_of _ _ _ (vt.create_id_lookup raw) made),
)
