-- ===== src/Search/Cursor/Drain.antt =====
-- How a cursor that has run its search hands out the candidates.
use rust_sdk_mongodb_extensi.Prelude.{
  ℕ, zero, suc, ◌+◌, ◌≡◌, refl, sym, ap, ◌∙◌, true, false, if◌then◌else◌, List, [], ◌∷◌, ◌++◌, map,
  length, replicate, arith,
}
use rust_sdk_mongodb_extensi.Errors.{ExtensionError, ExtensionResult, ok, err}
use rust_sdk_mongodb_extensi.Bson.{Document}
use rust_sdk_mongodb_extensi.Stage.{eof}
use rust_sdk_mongodb_extensi.Search.Control.{QueryControl, and_then, ◌>>=◌, pure}
use rust_sdk_mongodb_extensi.Search.Fetch.{SearchState, fetch_candidates}
use rust_sdk_mongodb_extensi.Search.Cursor.{row, pop_front, conclude, load, next_result, pull}

module _ (ctx : QueryControl) where
  open ctx use {World, check_interrupt, attempts}

  -- A call of `next_result` that fails leaves the state as it was, so the next call starts the
  -- search again.
  pub next_result-eq-err :
      (state state' : SearchState) (w w' : World) (e : ExtensionError)
      → next_result ctx state w ≡ ((err e, state'), w')
      → state' ≡ state
  unfolding next_result
  next_result-eq-err state state' w w' e h = go _ h
    where
      go :
          (p : ExtensionResult SearchState × World)
          → conclude state p ≡ ((err e, state'), w')
          → state' ≡ state
      go (ok loaded, v) q = absurd (cc (ap (λ z. z.0.0) q))
      go (err e', v) q = sym (ap (λ z. z.0.1) q)

  load_loaded :
      (state : SearchState) (w : World) → state.loaded ≡ true → load ctx state w ≡ (ok state, w)
  unfolding load
  load_loaded state w l =
      ap
        (λ b.
          (if b
              then pure state
              else fetch_candidates ctx state >>= λ documents.
                  pure (record state { pending = documents; loaded = true }))
            w)
        l

  load_search :
      (documents : List Document) (state : SearchState) (w v : World)
      → state.loaded ≡ false
      → fetch_candidates ctx state w ≡ (ok documents, v)
      → load ctx state w ≡ (ok (record state { pending = documents; loaded = true }), v)
  unfolding load
  load_search documents state w v l f =
      ap
        (λ b.
          (if b
              then pure state
              else fetch_candidates ctx state >>= λ documents'.
                  pure (record state { pending = documents'; loaded = true }))
            w)
        l
      ∙ ap
          (λ p.
            and_then p (λ documents'. pure (record state { pending = documents'; loaded = true })))
          f

  next_searched :
      (documents : List Document) (state : SearchState) (w v : World)
      → (check_interrupt w).0 ≡ ok tt
      → state.loaded ≡ false
      → fetch_candidates ctx state (check_interrupt w).1 ≡ (ok documents, v)
      → next_result ctx state w ≡ (
        (
          ok (pop_front (record state { pending = documents; loaded = true })).0,
          (pop_front (record state { pending = documents; loaded = true })).1,
        ),
        v,
      )
  unfolding next_result
  next_searched documents state w v alive l f =
      rw (alive, load_search documents state (check_interrupt w).1 v l f)

  next_loaded :
      (state : SearchState) (w : World)
      → (check_interrupt w).0 ≡ ok tt
      → state.loaded ≡ true
      → next_result ctx state w
        ≡ ((ok (pop_front state).0, (pop_front state).1), (check_interrupt w).1)
  unfolding next_result
  next_loaded state w alive loaded = rw (alive, load_loaded state (check_interrupt w).1 loaded)

  module _ (alive : (w : World) → (check_interrupt w).0 ≡ ok tt) where
    drained :
        (k n : ℕ) (pending : List Document) (state : SearchState) (w : World)
        → n ≡ length pending + k
        → state.loaded ≡ true
        → state.pending ≡ pending
        → ((pull ctx n state w).0.0 ≡ map (λ d. ok (row d)) pending ++ replicate k (ok eof))
          × (attempts (pull ctx n state w).1 ≡ attempts w)
    unfolding pull pop_front
    drained zero zero [] state w m l p = (refl, refl)
    drained zero (suc n) [] state w m l p = absurd (omega arith)
    drained (suc k) zero [] state w m l p = absurd (omega arith)
    drained (suc k) (suc n) [] state w m l p =
        rw (next_loaded state w (alive w) l, p)
          (let (rows, same) =
              drained k n [] (record state { pending = [] }) (check_interrupt w).1 (omega arith) l
                refl in
            (ap (λ rs. ok eof ∷ rs) rows, same ∙ ctx.check-attempts w))
    drained k zero (d ∷ pending) state w m l p = absurd (omega arith)
    drained k (suc n) (d ∷ pending) state w m l p =
        rw (next_loaded state w (alive w) l, p)
          (let (rows, same) =
              drained k n pending (record state { pending = pending }) (check_interrupt w).1
                (omega arith) l refl in
            (ap (λ rs. ok (row d) ∷ rs) rows, same ∙ ctx.check-attempts w))

    -- With a host that never interrupts, a cursor whose search finds some documents hands out the
    -- row of each of them once and in order, then the end of the stream at every later call, and
    -- posts nothing after the search.
    pub pull_search :
        (k n : ℕ) (documents : List Document) (state : SearchState) (w v : World)
        → suc n ≡ length documents + k
        → state.loaded ≡ false
        → fetch_candidates ctx state (check_interrupt w).1 ≡ (ok documents, v)
        → ((pull ctx (suc n) state w).0.0 ≡ map (λ d. ok (row d)) documents ++ replicate k (ok eof))
          × (attempts (pull ctx (suc n) state w).1 ≡ attempts v)
    unfolding pull pop_front
    pull_search zero n [] state w v m l f = absurd (omega arith)
    pull_search (suc k) n [] state w v m l f = rw (next_searched _ state w v (alive w) l f) (
        let (rows, same) =
          drained k n [] (record state { pending = []; loaded = true }) v (omega arith) refl refl in
        (ap (λ rs. ok eof ∷ rs) rows, same))
    pull_search k n (d ∷ documents) state w v m l f = rw (next_searched _ state w v (alive w) l f) (
        let (rows, same) =
          drained k n documents (record state { pending = documents; loaded = true }) v
            (omega arith) refl refl in
        (ap (λ rs. ok (row d) ∷ rs) rows, same))
