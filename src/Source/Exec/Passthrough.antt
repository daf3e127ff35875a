-- ===== src/Source/Exec/Passthrough.antt =====
-- An executable stage that reads its upstream stage.
use rust_sdk_mongodb_extensi.Prelude.{
  ℕ, zero, suc, ◌≡◌, refl, ap, ◌∙◌, true, if◌then◌else◌, Option, none, some, List, [], ◌∷◌,
}
use rust_sdk_mongodb_extensi.Bson.{Document}
use rust_sdk_mongodb_extensi.Source.Ops.{
  CatalogContext, Bytes, Codec, Code, k_advanced, k_eof, GetNextResult, Status, Returned, status_ok,
  upstream_status, SourceOps,
}
use rust_sdk_mongodb_extensi.Source.Exec.{
  init, passthrough, generator, ExecObj, exec_alloc, exec_set_source, is_failure, requires_input_of,
  forward, probe, probed, dispatch, settle, exec_get_next, run,
}
use rust_sdk_mongodb_extensi.Source.Exec.Generator.{run-generator}

module _ (ops : SourceOps) (codec : Codec) where
  open ops use {World, State, Upstream, get_next, open_from_doc, next, static_properties_doc}

  returned_of : Option Status → Returned
  returned_of none = status_ok
  returned_of (some bad) = upstream_status bad

  -- The upstream stage on its own, called by the host.
  pub pull_upstream : ℕ → Upstream → GetNextResult → World → List (Returned × GetNextResult) × World
  pull_upstream zero src res w = ([], w)
  pull_upstream (suc n) src res w =
      let ((st, res'), w') = get_next src res w in
      let (rs, w'') = pull_upstream n src res' w' in ((returned_of (is_failure st), res') ∷ rs, w'')

  forward-returned_of :
      (this : ExecObj ops codec) (res : GetNextResult) (w : World) (st : Option Status)
      → forward ops codec this res w st ≡ (((returned_of st, res), this), w)
  unfolding returned_of
  forward-returned_of this res w none = refl
  forward-returned_of this res w (some bad) = refl

  forward_step :
      (this : ExecObj ops codec) (src : Upstream) (res : GetNextResult) (w : World)
      → this.mode ≡ passthrough
      → this.source ≡ some src
      → exec_get_next ops codec this res w ≡ (
        ((returned_of (is_failure (get_next src res w).0.0), (get_next src res w).0.1), this),
        (get_next src res w).1,
      )
  unfolding exec_get_next
  forward_step this src res w m e =
      ap (λ k. settle ops codec this res w k static_properties_doc) m
      ∙ (ap (λ o. dispatch ops codec this res w passthrough o) e
          ∙ forward-returned_of this (get_next src res w).0.1 (get_next src res w).1
              (is_failure (get_next src res w).0.0))

  -- Once a row of the upstream stage has been forwarded, the stage answers as the upstream stage
  -- does, and does nothing else to the world.
  pub run-passthrough :
      (n : ℕ) (this : ExecObj ops codec) (src : Upstream) (res : GetNextResult) (w : World)
      → this.mode ≡ passthrough
      → this.source ≡ some src
      → run ops codec n this res w
        ≡ (((pull_upstream n src res w).0, this), (pull_upstream n src res w).1)
  unfolding run pull_upstream
  run-passthrough zero this src res w m e = refl
  run-passthrough (suc n) this src res w m e =
      let ((st, res'), w') = get_next src res w in
      rw (forward_step this src res w m e) (
        ap (λ p. (((returned_of (is_failure st), res') ∷ p.0.0, p.0.1), p.1))
          (run-passthrough n this src res' w' m e))

  module _ (d : Document) (args : Bytes) (catalog : Option CatalogContext) (src : Upstream) (n : ℕ)
      (res : GetNextResult) (w : World) (declared : static_properties_doc ≡ some d)
      (reads : requires_input_of d ≡ true) (fine : is_failure (get_next src res w).0.0 ≡ none) where
    abbrev attached : ExecObj ops codec
    attached = exec_set_source ops codec src (exec_alloc ops codec args catalog)

    abbrev detached : ExecObj ops codec
    detached = exec_alloc ops codec args catalog

    first_probed :
        (code : Code)
        → (get_next src res w).0.1.code ≡ code
        → exec_get_next ops codec attached res w
          ≡ probed ops codec attached (get_next src res w).0.1 code (get_next src res w).1
    unfolding exec_get_next exec_set_source exec_alloc
    first_probed code c =
        let ((st, res'), w') = get_next src res w in
        ap (λ o. settle ops codec attached res w init o) declared
        ∙ (ap
              (λ b.
                if b
                then dispatch ops codec attached res w init (some src)
                else dispatch ops codec (record attached { mode = generator }) res w generator
                    (some src))
              reads
            ∙ (ap (λ o. probe ops codec attached res' w' o) fine
                ∙ ap (λ k. probed ops codec attached res' k w') c))

    -- A stage that reads its input and whose upstream stage answers first with a row answers from
    -- then on as the upstream stage does, and does nothing else to the world.
    pub run-upstream_first :
        (get_next src res w).0.1.code ≡ k_advanced
        → ((run ops codec (suc n) attached res w).0.0 ≡ (pull_upstream (suc n) src res w).0)
          × ((run ops codec (suc n) attached res w).1 ≡ (pull_upstream (suc n) src res w).1)
    unfolding run pull_upstream exec_set_source exec_alloc returned_of
    run-upstream_first c =
        let ((st, res'), w') = get_next src res w in
        let on = record attached { saw_upstream_advanced = true; mode = passthrough } in
        let e = run-passthrough n on src res' w' refl refl in
        rw (first_probed k_advanced c, fine)
          (ap (λ p. (status_ok, res') ∷ p.0.0) e, ap (λ p. p.1) e)

    empty_generates :
        (get_next src res w).0.1.code ≡ k_eof
        → exec_get_next ops codec attached res w
          ≡ exec_get_next ops codec
              (record attached { mode = generator })
              (get_next src res w).0.1
              (get_next src res w).1
    unfolding exec_get_next exec_set_source exec_alloc
    empty_generates c = first_probed k_eof c

    detached_generates :
        (res' : GetNextResult) (w' : World)
        → exec_get_next ops codec detached res' w'
          ≡ exec_get_next ops codec (record detached { mode = generator }) res' w'
    unfolding exec_get_next exec_alloc
    detached_generates res' w' =
        ap (λ o. settle ops codec detached res' w' init o) declared
        ∙ ap
            (λ b.
              if b
              then dispatch ops codec detached res' w' init none
              else dispatch ops codec (record detached { mode = generator }) res' w' generator none)
            reads

    -- A stage that reads its input and whose upstream stage ends before its first row generates:
    -- from the world that the upstream stage left, it answers as the stage without one does.
    pub run-upstream_empty :
        (get_next src res w).0.1.code ≡ k_eof
        → ((run ops codec (suc n) attached res w).0.0
            ≡ (run ops codec (suc n) detached (get_next src res w).0.1 (get_next src res w).1).0.0)
          × ((run ops codec (suc n) attached res w).1
              ≡ (run ops codec (suc n) detached (get_next src res w).0.1 (get_next src res w).1).1)
    unfolding run exec_set_source exec_alloc
    run-upstream_empty c =
        let ((st, res'), w') = get_next src res w in
        rw (empty_generates c, detached_generates res' w')
          (run-generator ops codec (some src) (suc n) (record detached { mode = generator }) res' w'
            refl)
