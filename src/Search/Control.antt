-- ===== src/Search/Control.antt =====
-- opensearch-extension-core/src/lib.rs: what a search asks of its surroundings. `QueryControl` is
-- the trait of that name; the clock is SystemTime::now, and `post_search` is the function of
-- transport.rs as its callers see it. `attempts` is what an observer has seen posted, by URL.
use mathlib.Core.Path.{◌≡◌, refl}
use mathlib.Core.Logic.{◌⊎◌, inl, inr}
use rust_sdk_mongodb_extensi.Prelude.{ℕ, String, Option, List, [], ◌∷◌, ◌++◌}
use rust_sdk_mongodb_extensi.Prelude.Int.{ℤ}
use rust_sdk_mongodb_extensi.Errors.{Message, ExtensionError, ExtensionResult, Result, ok, err}
use rust_sdk_mongodb_extensi.Bson.{Document}
use rust_sdk_mongodb_extensi.Json.{Json}

pub record QueryControl : Type 1 where
  pub World : Type 0
  pub check_interrupt : World → ExtensionResult (Unit {0}) × World
  pub deadline_timestamp_ms : World → ExtensionResult (Option ℤ) × World
  pub now_ms : World → ℤ × World
  pub post_search : String → Json → ℕ → World → Result Message Json × World
  pub doc_to_json : Document → Json
  pub attempts : World → List String
  pub check-attempts : (w : World) → attempts (check_interrupt w).1 ≡ attempts w
  pub deadline-attempts : (w : World) → attempts (deadline_timestamp_ms w).1 ≡ attempts w
  pub now-attempts : (w : World) → attempts (now_ms w).1 ≡ attempts w
  pub post-attempts :
      (url : String) (body : Json) (t : ℕ) (w : World)
      → attempts (post_search url body t w).1 ≡ attempts w ++ url ∷ []

-- A call that threads the world and may fail.
abbrev pub Action {ℓ} : Type 0 → Type ℓ → Type ℓ
Action W A = W → ExtensionResult A × W

-- What follows a call, on its outcome.
abbrev pub and_then {ℓ κ} :
    {W : Type 0} {A : Type ℓ} {B : Type κ}
    → ExtensionResult A × W
    → (A → Action W B)
    → ExtensionResult B × W
and_then (ok a, w) f = f a w
and_then (err e, w) f = (err e, w)

infixl 5 ◌>>=◌ ◌>>◌
abbrev pub ◌>>=◌ {ℓ κ} :
    {W : Type 0} {A : Type ℓ} {B : Type κ} → Action W A → (A → Action W B) → Action W B
◌>>=◌ m f w = and_then (m w) f

abbrev pub ◌>>◌ {ℓ κ} :
    {W : Type 0} {A : Type ℓ} {B : Type κ} → Action W A → Action W B → Action W B
m >> k = m >>= λ _. k

abbrev pub pure {ℓ} : {W : Type 0} {A : Type ℓ} → A → Action W A
pure a w = (ok a, w)

abbrev pub fail {ℓ} : {W : Type 0} {A : Type ℓ} → ExtensionResult A → Action W A
fail r w = (r, w)

-- A call that cannot fail.
abbrev pub total {ℓ} : {W : Type 0} {A : Type ℓ} → (W → A × W) → Action W A
total m w = let (a, w') = m w in (ok a, w')

-- A sequence of two calls stops at the first, or runs the second where the first succeeded.
module _ {ℓ κ} {W : Type 0} {A : Type ℓ} {B : Type κ} (f : A → Action W B) {r : ExtensionResult B}
    {v : W} where
  pub and_then-eq :
      (p : ExtensionResult A × W)
      → and_then p f ≡ (r, v)
      → ((e : ExtensionError) × (p ≡ (err e, v)) × (r ≡ err e))
        ⊎ ((a : A) × (w : W) × (p ≡ (ok a, w)) × (f a w ≡ (r, v)))
  and_then-eq (ok a, w) h = inr (a, w, refl, h)
  and_then-eq (err e, w) h = inl (e, cc, cc)
