-- ===== src/Search/Staged/Interrupted.antt =====
-- A search of a stage that the host interrupts.
use rust_sdk_mongodb_extensi.Prelude.{
  ◌≡◌, ◌≢◌, refl, sym, ap, ◌∙◌, Option, none, some, String, List, ◌∷◌,
}
use rust_sdk_mongodb_extensi.Prelude.Int.{ℤ, pos}
use rust_sdk_mongodb_extensi.Errors.{Message, ExtensionError, status_code, ExtensionResult, ok, err}
use rust_sdk_mongodb_extensi.Bson.{Document}
use rust_sdk_mongodb_extensi.Json.{Json}
use rust_sdk_mongodb_extensi.Host.Services.{code_of}
use rust_sdk_mongodb_extensi.Host.Context.{
  QueryContext, new_status, check_interrupt, check_interrupt-code_of,
}
use rust_sdk_mongodb_extensi.Search.Control.{QueryControl}
use rust_sdk_mongodb_extensi.Search.Transport.{Network}
use rust_sdk_mongodb_extensi.Search.Fetch.{
  SearchState, next_attempt_timeout, attempt, fetch_from, fetch_candidates,
}
use rust_sdk_mongodb_extensi.Search.Staged.{Surroundings, stage_control}

-- The first thing that a search with an endpoint does is to ask for an interrupt.
first_interrupt :
    (ctx : QueryControl) (state : SearchState) (endpoint : String) (endpoints : List String)
    (last : Option Message) (w v : ctx.World) (e : ExtensionError)
    → ctx.check_interrupt w ≡ (err e, v)
    → fetch_from ctx state (endpoint ∷ endpoints) last w ≡ (err e, v)
unfolding fetch_from attempt next_attempt_timeout
first_interrupt ctx state endpoint endpoints last w v e h = rw h refl

-- An outcome of `check_interrupt` that has this code.
failed_with :
    (r : ExtensionResult (Unit {0})) (code : ℤ)
    → code_of r ≡ code
    → code ≢ pos 0
    → (e : ExtensionError) × (r ≡ err e) × (status_code e ≡ code)
failed_with (ok done) code h other = absurd (other (sym h))
failed_with (err e) code h other = (e, refl, h)

module _ (host : QueryContext) (network : Network) (doc_to_json : Document → Json) where
  -- A search of a stage that the host interrupts before its first request fails with the code that
  -- the host left, and sends nothing: neither the network nor the list of posted URLs changes. The
  -- configuration has an endpoint.
  pub fetch_candidates-interrupted :
      (state : SearchState) (endpoint : String) (endpoints : List String) (code : ℤ)
      (w : Surroundings host network doc_to_json)
      → state.config.endpoints ≡ endpoint ∷ endpoints
      → (host.check_for_interrupt new_status w.0.0).0.get_code ≡ code
      → code ≢ pos 0
      → (let (r, v) = fetch_candidates (stage_control host network doc_to_json (some tt)) state w in
          (code_of r ≡ code) × (v.0.1 ≡ w.0.1) × (v.1 ≡ w.1))
  unfolding fetch_candidates
  fetch_candidates-interrupted state endpoint endpoints code w some_endpoint asked other =
      let ctx = stage_control host network doc_to_json (some tt) in
      let (r, q) = check_interrupt host (some tt) w.0.0 in
      let (e, failed, same) =
        failed_with r code ((check_interrupt-code_of host w.0.0).0 ∙ asked) other in
      let interrupted : ctx.check_interrupt w ≡ (err e, ((q, w.0.1), w.1)) =
        ap (λ x. (x, ((q, w.0.1), w.1))) failed in
      let whole : fetch_candidates ctx state w ≡ (err e, ((q, w.0.1), w.1)) =
        ap (λ es. fetch_from ctx state es none w) some_endpoint
        ∙ first_interrupt ctx state endpoint endpoints none w _ e interrupted in
      rw whole (same, refl, refl)
