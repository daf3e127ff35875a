-- ===== src/Search/Fetch/Attempts.antt =====
-- Which requests a search posts, and where its answer comes from.
use mathlib.Core.Path.{subst}
use mathlib.Core.List.{append_assoc, append-nil}
use rust_sdk_mongodb_extensi.Prelude.{
  ℕ, ◌≤◌, String, ◌≡◌, ◌≢◌, refl, sym, ap, ◌∙◌, ◌⊎◌, inl, inr, Option, none, some, List, [], ◌∷◌,
  ◌++◌, map, length,
}
use rust_sdk_mongodb_extensi.Errors
use rust_sdk_mongodb_extensi.Errors.{
  err-injective, ok-injective, Message, ExtensionError, ExtensionResult, Result, ok, err, runtime,
}
use rust_sdk_mongodb_extensi.Bson.{Document}
use rust_sdk_mongodb_extensi.Search.Timeout.{request_timeout-eq-err, deadline_exceeded}
use rust_sdk_mongodb_extensi.Search.Control.{QueryControl, and_then-eq}
use rust_sdk_mongodb_extensi.Search.Fetch.Decode.{decode_candidates_sound}
use rust_sdk_mongodb_extensi.Search.Fetch.{
  SearchState, search_url, all_failed, next_attempt_timeout, body_of, attempt, fetch_from,
  fetch_candidates, as_usize,
}

module _ (ctx : QueryControl) where
  open ctx use {World, check_interrupt, deadline_timestamp_ms, now_ms, post_search, attempts}

  -- An error that the host reported, or that a deadline in the past makes.
  abbrev pub IsFromHost : ExtensionError → Type 0
  IsFromHost e =
      ((w : World) × ((check_interrupt w).0 ≡ err e))
      ⊎ ((w : World) × ((deadline_timestamp_ms w).0 ≡ err e))
      ⊎ (e ≡ deadline_exceeded)

  timeout-inv :
      (limit : ℕ) (w v : World) (r : ExtensionResult ℕ)
      → next_attempt_timeout ctx limit w ≡ (r, v)
      → (attempts v ≡ attempts w) × ((e : ExtensionError) → r ≡ err e → IsFromHost e)
  unfolding next_attempt_timeout
  timeout-inv limit w v r h = elim (and_then-eq _ (check_interrupt w) h) [
    | inl (e, p, q) ↦ (
      rw p at (ctx.check-attempts w),
      λ e' q'. inl (w, ap (λ z. z.0) p ∙ ap err (err-injective (sym q ∙ q'))),
    )
    | inr (_, w1, p, h1) ↦
        let w2 = (now_ms w1).1 in
        let same : attempts w2 ≡ attempts w =
          ctx.now-attempts w1 ∙ (rw p at (ctx.check-attempts w)) in
        elim (and_then-eq _ (deadline_timestamp_ms w2) h1) [
          | inl (e, p2, q) ↦ (
            (rw p2 at (ctx.deadline-attempts w2)) ∙ same,
            λ e' q'. inr (inl (w2, ap (λ z. z.0) p2 ∙ ap err (err-injective (sym q ∙ q')))),
          )
          | inr (deadline, w3, p2, h2) ↦ (
            (ap attempts (sym (ap (λ z. z.1) h2)) ∙ (rw p2 at (ctx.deadline-attempts w2))) ∙ same,
            λ e q.
                inr (
                  inr (request_timeout-eq-err deadline (now_ms w1).0 limit (ap (λ z. z.0) h2 ∙ q))),
          )
        ]
  ]

  -- How one round ends: before its request with an error, or after it, with an error or an answer.
  data Round (state : SearchState) (endpoint : String) (w v : World)
      (r : ExtensionResult (Result Message (List Document))) : Type 0 where
    before :
        (e : ExtensionError)
        → r ≡ err e
        → IsFromHost e
        → attempts v ≡ attempts w
        → Round state endpoint w v r
    after :
        ((e : ExtensionError) → r ≡ err e → IsFromHost e)
        → attempts v ≡ attempts w ++ search_url endpoint state.index ∷ []
        → ((docs : List Document) → r ≡ ok (ok docs) → length docs ≤ as_usize state.args.limit)
        → Round state endpoint w v r

  attempt-inv :
      (state : SearchState) (endpoint : String) (w v : World)
      (r : ExtensionResult (Result Message (List Document)))
      → attempt ctx state endpoint w ≡ (r, v)
      → Round state endpoint w v r
  unfolding attempt
  attempt-inv state endpoint w v r h =
      elim (and_then-eq _ (next_attempt_timeout ctx state.timeout w) h) [
        | inl (e, p, q) ↦
            let (same, host) = timeout-inv state.timeout w v (err e) p in
            before e q (host e refl) same
        | inr (t, w1, p, h1) ↦
            let (same, _) = timeout-inv state.timeout w w1 (ok t) p in
            let url = search_url endpoint state.index in
            let w2 = (post_search url (body_of ctx state.args) t w1).1 in
            let posted : attempts w2 ≡ attempts w ++ url ∷ [] =
              ctx.post-attempts url (body_of ctx state.args) t w1 ∙ ap (λ l. l ++ url ∷ []) same in
            elim (and_then-eq _ (check_interrupt w2) h1) [
              | inl (e, p2, q) ↦
                  after (λ e' q'. inl (w2, ap (λ z. z.0) p2 ∙ ap err (err-injective (sym q ∙ q'))))
                    ((rw p2 at (ctx.check-attempts w2)) ∙ posted)
                    (λ docs q'. absurd (cc (sym q ∙ q')))
              | inr (_, w3, p2, h2) ↦
                  let response = (post_search url (body_of ctx state.args) t w1).0 in
                  after (λ e q. cc (ap (λ z. z.0) h2 ∙ q))
                    (ap attempts (sym (ap (λ z. z.1) h2))
                      ∙ ((rw p2 at (ctx.check-attempts w2)) ∙ posted))
                    (λ docs q.
                      let (value, _, e) =
                        Errors.>>=-eq-ok response _ (ok-injective (ap (λ z. z.0) h2 ∙ q)) in
                      (decode_candidates_sound value (as_usize state.args.limit) e).3)
            ]
      ]

  -- What a search did: the endpoints that it tried, in order, and those that it left.
  record Searched (state : SearchState) (endpoints : List String) (w v : World)
      (r : ExtensionResult (List Document)) : Type 0 where
    pub tried : List String
    pub untried : List String
    pub split : endpoints ≡ tried ++ untried
    pub posted : attempts v ≡ attempts w ++ map (λ e. search_url e state.index) tried
    pub answered :
        (docs : List Document)
        → r ≡ ok docs
        → (tried ≢ []) × (length docs ≤ as_usize state.args.limit)
    pub failed :
        (e : ExtensionError)
        → r ≡ err e
        → IsFromHost e ⊎ ((untried ≡ []) × ((m : Option Message) × (e ≡ runtime (all_failed m))))

  one_more :
      (state : SearchState) (endpoint : String) (endpoints : List String) (w w1 v : World)
      (r : ExtensionResult (List Document))
      → attempts w1 ≡ attempts w ++ search_url endpoint state.index ∷ []
      → Searched state endpoints w1 v r
      → Searched state (endpoint ∷ endpoints) w v r
  one_more state endpoint endpoints w w1 v r p s = record {
    tried = endpoint ∷ s.tried;
    untried = s.untried;
    split = ap (λ l. endpoint ∷ l) s.split;
    posted = s.posted ∙ rw p (append_assoc (attempts w) _ _);
    answered = λ docs q. (λ e. cc, (s.answered docs q).1);
    failed = s.failed;
  }

  stopped :
      (state : SearchState) (endpoint : String) (endpoints : List String) (w v : World)
      (r : ExtensionResult (List Document)) (e : ExtensionError)
      → Round state endpoint w v (err e)
      → r ≡ err e
      → Searched state (endpoint ∷ endpoints) w v r
  stopped state endpoint endpoints w v r e (before e' same host unposted) q = record {
    tried = [];
    untried = endpoint ∷ endpoints;
    split = refl;
    posted = unposted ∙ sym (append-nil (attempts w));
    answered = λ docs q'. absurd (cc (sym q ∙ q'));
    failed = λ e'' q'.
        inl (subst IsFromHost (sym (err-injective same) ∙ err-injective (sym q ∙ q')) host);
  }
  stopped state endpoint endpoints w v r e (after host posted _) q = record {
    tried = endpoint ∷ [];
    untried = endpoints;
    split = refl;
    posted = posted;
    answered = λ docs q'. absurd (cc (sym q ∙ q'));
    failed = λ e'' q'. inl (host e'' (ap err (err-injective (sym q ∙ q'))));
  }

  answered_at :
      (state : SearchState) (endpoint : String) (endpoints : List String) (w v : World)
      (r : ExtensionResult (List Document)) (docs : List Document)
      → Round state endpoint w v (ok (ok docs))
      → r ≡ ok docs
      → Searched state (endpoint ∷ endpoints) w v r
  answered_at state endpoint endpoints w v r docs (before e same host unposted) q = cc
  answered_at state endpoint endpoints w v r docs (after host posted few) q = record {
    tried = endpoint ∷ [];
    untried = endpoints;
    split = refl;
    posted = posted;
    answered = λ docs' q'. (
      λ e. cc,
      subst (λ l. length l ≤ as_usize state.args.limit) (ok-injective (sym q ∙ q')) (few docs refl),
    );
    failed = λ e q'. cc (sym q ∙ q');
  }

  posted_of_err :
      (state : SearchState) (endpoint : String) (w v : World) (m : Message)
      → Round state endpoint w v (ok (err m))
      → attempts v ≡ attempts w ++ search_url endpoint state.index ∷ []
  posted_of_err state endpoint w v m (before e same host unposted) = cc
  posted_of_err state endpoint w v m (after host posted few) = posted

  fetch_from_searches :
      (state : SearchState) (endpoints : List String) (last : Option Message) (w v : World)
      (r : ExtensionResult (List Document))
      → fetch_from ctx state endpoints last w ≡ (r, v)
      → Searched state endpoints w v r
  unfolding fetch_from
  fetch_from_searches state [] last w v r h = record {
    tried = [];
    untried = [];
    split = refl;
    posted = ap attempts (sym (ap (λ z. z.1) h)) ∙ sym (append-nil (attempts w));
    answered = λ docs q. absurd (cc (ap (λ z. z.0) h ∙ q));
    failed = λ e q. inr (refl, (last, err-injective (sym (ap (λ z. z.0) h ∙ q))));
  }
  fetch_from_searches state (endpoint ∷ endpoints) last w v r h =
      elim (and_then-eq _ (attempt ctx state endpoint w) h) [
        | inl (e, p, q) ↦
            stopped state endpoint endpoints w v r e (attempt-inv state endpoint w v (err e) p) q
        | inr (ok docs, w1, p, h1) ↦
            answered_at state endpoint endpoints w v r docs
              (rw (ap (λ z. z.1) h1) at (attempt-inv state endpoint w w1 (ok (ok docs)) p))
              (sym (ap (λ z. z.0) h1))
        | inr (err m, w1, p, h1) ↦
            one_more state endpoint endpoints w w1 v r
              (posted_of_err state endpoint w w1 m (attempt-inv state endpoint w w1 (ok (err m)) p))
              (fetch_from_searches state endpoints (some m) w1 v r h1)
      ]

  -- How a search ends, by the endpoints that it tried and those that it left.
  pub Ends : SearchState → List String → List String → ExtensionResult (List Document) → Type 0
  Ends state tried untried (ok docs) = (tried ≢ []) × (length docs ≤ as_usize state.args.limit)
  Ends state tried untried (err e) =
      IsFromHost e ⊎ ((untried ≡ []) × ((m : Option Message) × (e ≡ runtime (all_failed m))))

  ends :
      (state : SearchState) (endpoints : List String) (w v : World)
      (r : ExtensionResult (List Document)) (s : Searched state endpoints w v r)
      → Ends state s.tried s.untried r
  unfolding Ends
  ends state endpoints w v (ok docs) s = s.answered docs refl
  ends state endpoints w v (err e) s = s.failed e refl

  -- A search posts to the endpoints of the configuration from the first on, each at most once. If
  -- it succeeds, it has tried at least one and returns no more documents than the limit; if it
  -- fails, the error is the host's or a deadline in the past, or every endpoint has been tried.
  pub fetch_candidates_searches :
      (state : SearchState) (w v : World) (r : ExtensionResult (List Document))
      → fetch_candidates ctx state w ≡ (r, v)
      → (tried : List String) × (untried : List String) × (state.config.endpoints
          ≡ tried ++ untried)
        × (attempts v ≡ attempts w ++ map (λ e. search_url e state.index) tried)
        × Ends state tried untried r
  unfolding fetch_candidates
  fetch_candidates_searches state w v r h =
      let s = fetch_from_searches state state.config.endpoints none w v r h in
      (s.tried, s.untried, s.split, s.posted, ends state state.config.endpoints w v r s)
