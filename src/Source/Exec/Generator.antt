-- ===== src/Source/Exec/Generator.antt =====
-- An executable stage whose rows come from its generator.
use rust_sdk_mongodb_extensi.Prelude.{
  ℕ, zero, suc, ◌≡◌, refl, ap, ◌∙◌, Bool, true, false, if◌then◌else◌, Option, none, some, ◌∷◌,
}
use rust_sdk_mongodb_extensi.Errors.{Message, ExtensionResult, Result, ok, err}
use rust_sdk_mongodb_extensi.Bson.{Document}
use rust_sdk_mongodb_extensi.Stage.{Next, advanced, eof}
use rust_sdk_mongodb_extensi.Source.Ops.{
  CatalogContext, Caught, Bytes, Codec, GetNextResult, SourceOps,
}
use rust_sdk_mongodb_extensi.Source.Exec.{
  init, generator, ExecObj, exec_alloc, Left, requires_input_of, advanced_result, write_row,
  deliver, step_open, open_then, open_or_step, generate_from, generate, dispatch, settle,
  exec_get_next, run,
}

module _ (ops : SourceOps) (codec : Codec) where
  open ops use {
    World, State, Upstream, get_next, open_from_doc, drop_state, next, static_properties_doc,
  }

  -- A stage with another upstream pointer, after a call.
  pub with_source : Option Upstream → Left ops codec → Left ops codec
  with_source s ((r, this), w) = ((r, record this { source = s }), w)

  pub generator-generate :
      (this : ExecObj ops codec) (res : GetNextResult) (w : World)
      → this.mode ≡ generator
      → exec_get_next ops codec this res w ≡ generate ops codec this res w
  unfolding exec_get_next
  generator-generate this res w m = ap (λ k. settle ops codec this res w k static_properties_doc) m

  first_generates :
      (d : Document) (this : ExecObj ops codec) (res : GetNextResult) (w : World)
      → static_properties_doc ≡ some d
      → requires_input_of d ≡ false
      → this.mode ≡ init
      → exec_get_next ops codec this res w
        ≡ exec_get_next ops codec (record this { mode = generator }) res w
  unfolding exec_get_next
  first_generates d this res w p r m =
      ap (λ k. settle ops codec this res w k static_properties_doc) m
      ∙ (ap (λ o. settle ops codec this res w init o) p
          ∙ ap
              (λ b.
                if b
                then dispatch ops codec this res w init this.source
                else dispatch ops codec (record this { mode = generator }) res w generator
                    this.source)
              r)

  module _ (s : Option Upstream) where
    -- Two calls that differ only in the upstream pointer of the stage, which stays a generator.
    AgreeAs : Left ops codec → Left ops codec → Type 0
    AgreeAs l l' = (l' ≡ with_source s l) × (l.0.1.mode ≡ generator)

    agree_if :
        (b : Bool) (x y x' y' : Left ops codec)
        → AgreeAs x x'
        → AgreeAs y y'
        → AgreeAs (if b then x else y) (if b then x' else y')
    agree_if true x y x' y' p q = p
    agree_if false x y x' y' p q = q

    module _ (this : ExecObj ops codec) (m : this.mode ≡ generator) (res : GetNextResult) where
      that : ExecObj ops codec
      that = record this { source = s }

      write_row-source :
          (st : State) (w : World) (row : ExtensionResult GetNextResult)
          → AgreeAs (write_row ops codec this res st w row) (write_row ops codec that res st w row)
      unfolding AgreeAs with_source that
      write_row-source st w (ok row) = (refl, m)
      write_row-source st w (err e) = (refl, m)

      deliver-source :
          (st : State) (out : Caught Next) (w : World)
          → AgreeAs (deliver ops codec this res st out w) (deliver ops codec that res st out w)
      unfolding AgreeAs with_source that
      deliver-source st none w = (refl, m)
      deliver-source st (some (err e)) w = (refl, m)
      deliver-source st (some (ok eof)) w = (refl, m)
      deliver-source st (some (ok (advanced document metadata))) w =
          write_row-source st w (advanced_result codec document metadata)

      step_open-source :
          (st : State) (w : World)
          → AgreeAs (step_open ops codec this res st w) (step_open ops codec that res st w)
      unfolding that
      step_open-source st w =
          let ((st', out), w') = next st this.catalog w in deliver-source st' out w'

      open_then-source :
          (p : Caught State × World)
          → AgreeAs (open_then ops codec this res p) (open_then ops codec that res p)
      unfolding AgreeAs with_source that
      open_then-source (none, w) = (refl, m)
      open_then-source (some (err e), w) = (refl, m)
      open_then-source (some (ok st), w) = step_open-source st w

      open_or_step-source :
          (d : Document) (w : World) (o : Option State)
          → AgreeAs (open_or_step ops codec this res d w o) (open_or_step ops codec that res d w o)
      unfolding that
      open_or_step-source d w none = open_then-source (open_from_doc d this.catalog w)
      open_or_step-source d w (some st) = step_open-source st w

      generate_from-source :
          (args : Result Message Document) (w : World)
          → AgreeAs
              (generate_from ops codec this res args w)
              (generate_from ops codec that res args w)
      unfolding AgreeAs with_source that
      generate_from-source (err e) w = (refl, m)
      generate_from-source (ok d) w = open_or_step-source d w this.state

      generate-source :
          (w : World) → AgreeAs (generate ops codec this res w) (generate ops codec that res w)
      unfolding generate that AgreeAs with_source
      generate-source w =
          agree_if this.generator_done _ _ _ _ (refl, m)
            (generate_from-source (codec.from_reader this.args) w)

    exec_get_next-source :
        (this : ExecObj ops codec) (res : GetNextResult) (w : World)
        → this.mode ≡ generator
        → AgreeAs
            (exec_get_next ops codec this res w)
            (exec_get_next ops codec (record this { source = s }) res w)
    unfolding that
    exec_get_next-source this res w m =
        rw
          (generator-generate this res w m, generator-generate (record this { source = s }) res w m)
          (generate-source this m res w)

    -- A generator, run with and without the upstream stage.
    abbrev pub RunsAlike : (ℕ → ExecObj ops codec → GetNextResult → World → Type 0)
    RunsAlike n this res w =
        ((run ops codec n (record this { source = s }) res w).0.0
          ≡ (run ops codec n this res w).0.0)
        × ((run ops codec n (record this { source = s }) res w).1 ≡ (run ops codec n this res w).1)

    pub run-generator :
        (n : ℕ) (this : ExecObj ops codec) (res : GetNextResult) (w : World)
        → this.mode ≡ generator
        → RunsAlike n this res w
    unfolding run AgreeAs with_source
    run-generator zero this res w m = (refl, refl)
    run-generator (suc n) this res w m =
        let l = exec_get_next ops codec this res w in
        let (e, m') = exec_get_next-source this res w m in
        let (rows, worlds) = run-generator n l.0.1 l.0.0.1 l.1 m' in
        rw e (ap (λ rs. l.0.0 ∷ rs) rows, worlds)

  -- A stage that declares `requiresInputDocSource: false` never reads the upstream stage that it is
  -- attached to: its answers and what it does to the world are those of the stage without one.
  pub run-ignores_source :
      (d : Document) (args : Bytes) (catalog : Option CatalogContext) (src : Upstream) (n : ℕ)
      (res : GetNextResult) (w : World)
      → static_properties_doc ≡ some d
      → requires_input_of d ≡ false
      → RunsAlike (some src) n (exec_alloc ops codec args catalog) res w
  unfolding exec_alloc run
  run-ignores_source d args catalog src zero res w p r = (refl, refl)
  run-ignores_source d args catalog src (suc n) res w p r =
      let this = exec_alloc ops codec args catalog in
      let that = record this { source = some src } in
      rw (first_generates d that res w p r refl, first_generates d this res w p r refl)
        (run-generator (some src) (suc n) (record this { mode = generator }) res w refl)
