-- ===== src/Host/Context.antt =====
-- extension-sdk-mongodb/src/stage_context.rs: the queries of a stage to the host. The pointer to the
-- query context is an option; a reason is read before its status is destroyed.
use mathlib.Core.Path.{subst}
use rust_sdk_mongodb_extensi.Prelude.{◌≡◌, ◌≢◌, ℕ, refl, Option, none, some, String, [], ◌∷◌}
use rust_sdk_mongodb_extensi.Prelude.Int.{ℤ, pos, negsuc}
use rust_sdk_mongodb_extensi.Prelude.Text.{◌+ₛ◌}
use rust_sdk_mongodb_extensi.Errors.{Message, text, host_error, ExtensionResult, ok, err}
use rust_sdk_mongodb_extensi.Source.Ops.{CatalogContext}
use rust_sdk_mongodb_extensi.Host.Services.{
  HostStatus, reason_or, code_of, settled_at, settled_at-code_of,
}

unfoldable pub namespace : CatalogContext → String
namespace c = c.database_name +ₛ "." +ₛ c.collection_name

-- MongoExtensionQueryExecutionContext: the host fills in a status that begins OK and without a
-- reason, and writes a timestamp.
pub record QueryContext : Type 1 where
  pub World : Type 0
  pub check_for_interrupt : HostStatus → World → HostStatus × World
  pub get_deadline_timestamp_ms : World → (Option HostStatus × ℤ) × World

abbrev pub new_status : HostStatus
new_status = record { get_code = pos 0; get_reason = none }

abbrev pub interrupt_message : Message
interrupt_message = text "check_for_interrupt" ∷ []

abbrev pub deadline_message : Message
deadline_message = text "get_deadline_timestamp_ms failed" ∷ []

-- A null status is a success.
abbrev pub deadline_of : Option HostStatus → ℤ → ExtensionResult (Option ℤ)
deadline_of none ts = ok (some ts)
deadline_of (some st) ts = settled_at st.get_code (some ts) (reason_or deadline_message st)

-- What a host's status stands for: success where its code is 0, or an error with its code, and with
-- its reason where it has one.
pub data Settles (A : Type 0) (a : A) (default : Message)
    : HostStatus → ExtensionResult A → Type 0 where
  went_on : {st : HostStatus} → st.get_code ≡ pos 0 → Settles A a default st (ok a)
  stopped :
      {st : HostStatus} {reason : Message}
      → st.get_code ≢ pos 0
      → st.get_reason ≡ some reason
      → Settles A a default st (err (host_error st.get_code reason))
  stopped_without_reason :
      {st : HostStatus}
      → st.get_code ≢ pos 0
      → st.get_reason ≡ none
      → Settles A a default st (err (host_error st.get_code default))

settled_at-Settles :
    (A : Type 0) (a : A) (default : Message) (st : HostStatus)
    → Settles A a default st (settled_at st.get_code a (reason_or default st))
settled_at-Settles A a default st = at st.get_code st.get_reason refl refl
  where
    at :
        (code : ℤ) (reason : Option Message)
        → st.get_code ≡ code
        → st.get_reason ≡ reason
        → Settles A a default st (settled_at code a (elim reason [ none ↦ default | some m ↦ m ]))
    at (pos ℕ.zero) reason e f = went_on e
    at (pos (ℕ.suc n)) none e f =
        subst (λ c. Settles A a default st (err (host_error c default))) e
          (stopped_without_reason (λ g. cc) f)
    at (pos (ℕ.suc n)) (some m) e f =
        subst (λ c. Settles A a default st (err (host_error c m))) e (stopped (λ g. cc) f)
    at (negsuc n) none e f =
        subst (λ c. Settles A a default st (err (host_error c default))) e
          (stopped_without_reason (λ g. cc) f)
    at (negsuc n) (some m) e f =
        subst (λ c. Settles A a default st (err (host_error c m))) e (stopped (λ g. cc) f)

-- A deadline: a null status is a success.
pub IsDeadline : Option HostStatus → ℤ → ExtensionResult (Option ℤ) → Type 0
IsDeadline none ts r = r ≡ ok (some ts)
IsDeadline (some st) ts r = Settles (Option ℤ) (some ts) deadline_message st r

deadline_of-IsDeadline : (st : Option HostStatus) (ts : ℤ) → IsDeadline st ts (deadline_of st ts)
unfolding IsDeadline
deadline_of-IsDeadline none ts = refl
deadline_of-IsDeadline (some st) ts = settled_at-Settles (Option ℤ) (some ts) deadline_message st

-- A context that is bound to the host, or is not.
module _ (host : QueryContext) where
  open host use {World, check_for_interrupt, get_deadline_timestamp_ms}

  unfoldable pub check_interrupt : Option (Unit {0}) → World → ExtensionResult (Unit {0}) × World
  check_interrupt none w = (ok tt, w)
  check_interrupt (some bound) w =
      let (qs, w') = check_for_interrupt new_status w in
      (settled_at qs.get_code tt (reason_or interrupt_message qs), w')

  unfoldable pub deadline_timestamp_ms :
      Option (Unit {0}) → World → ExtensionResult (Option ℤ) × World
  deadline_timestamp_ms none w = (ok none, w)
  deadline_timestamp_ms (some bound) w =
      let ((st, ts), w') = get_deadline_timestamp_ms w in (deadline_of st ts, w')

  -- A stage that is bound to the host goes on after `check_interrupt` exactly where the host left 0 in
  -- the status, and otherwise fails with the code of the status and its reason; its deadline is the
  -- timestamp that the host wrote where the status is null or its code 0, and otherwise fails with
  -- the code and the reason. Unbound, it goes on, and has no deadline.
  pub check_interrupt-code_of :
      (w : World)
      → (code_of (check_interrupt (some tt) w).0 ≡ (check_for_interrupt new_status w).0.get_code)
        × Settles
            (Unit {0})
            tt
            interrupt_message
            (check_for_interrupt new_status w).0
            (check_interrupt (some tt) w).0
        × IsDeadline
            (get_deadline_timestamp_ms w).0.0
            (get_deadline_timestamp_ms w).0.1
            (deadline_timestamp_ms (some tt) w).0
        × (check_interrupt none w ≡ (ok tt, w))
        × (deadline_timestamp_ms none w ≡ (ok none, w))
  unfolding check_interrupt deadline_timestamp_ms
  check_interrupt-code_of w =
      let (qs, w1) = check_for_interrupt new_status w in
      let ((st, ts), w2) = get_deadline_timestamp_ms w in
      (
        settled_at-code_of qs.get_code tt (reason_or interrupt_message qs),
        settled_at-Settles (Unit {0}) tt interrupt_message qs,
        deadline_of-IsDeadline st ts,
        refl,
        refl,
      )
