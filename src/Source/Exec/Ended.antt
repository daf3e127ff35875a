-- ===== src/Source/Exec/Ended.antt =====
-- An executable stage whose generator has ended.
use rust_sdk_mongodb_extensi.Prelude.{
  ℕ, zero, suc, ◌≡◌, refl, ap, ◌∙◌, true, false, if◌then◌else◌, none, some, ◌∷◌, replicate,
}
use rust_sdk_mongodb_extensi.Errors.{ok}
use rust_sdk_mongodb_extensi.Bson.{Document}
use rust_sdk_mongodb_extensi.Stage.{eof}
use rust_sdk_mongodb_extensi.Source.Ops.{Codec, GetNextResult, status_ok, SourceOps}
use rust_sdk_mongodb_extensi.Source.Exec.{
  generator, ExecObj, deliver, step_open, open_then, open_or_step, generate_from, generate,
  exec_get_next, run, set_eof_empty,
}
use rust_sdk_mongodb_extensi.Source.Exec.Generator.{generator-generate}

module _ (ops : SourceOps) (codec : Codec) where
  open ops use {World, State, open_from_doc, drop_state, next}

  done_step :
      (this : ExecObj ops codec) (res : GetNextResult) (w : World)
      → this.mode ≡ generator
      → this.generator_done ≡ true
      → exec_get_next ops codec this res w ≡ (((status_ok, set_eof_empty), this), w)
  unfolding generate
  done_step this res w m d =
      generator-generate ops codec this res w m
      ∙ ap
          (λ b.
            if b
            then (((status_ok, set_eof_empty), this), w)
            else generate_from ops codec this res (codec.from_reader this.args) w)
          d

  run-ended :
      (n : ℕ) (this : ExecObj ops codec) (res : GetNextResult) (w : World)
      → this.mode ≡ generator
      → this.generator_done ≡ true
      → run ops codec n this res w ≡ ((replicate n (status_ok, set_eof_empty), this), w)
  unfolding run
  run-ended zero this res w m d = refl
  run-ended (suc n) this res w m d = rw (done_step this res w m d) (
      ap (λ p. (((status_ok, set_eof_empty) ∷ p.0.0, p.0.1), p.1))
        (run-ended n this set_eof_empty w m d))

  -- The state that a call hands to the hook `next`, and the world then: the one that the stage holds,
  -- or the one that open_from_doc makes of the arguments where it holds none.
  pub data Steps (this : ExecObj ops codec) (w : World) : State → World → Type 0 where
    held : {st : State} → this.state ≡ some st → Steps this w st w
    opened :
        {st : State} {w' : World} {d : Document}
        → this.state ≡ none
        → codec.from_reader this.args ≡ ok d
        → open_from_doc d this.catalog w ≡ (some (ok st), w')
        → Steps this w st w'

  generate_from-Steps :
      (this : ExecObj ops codec) (res : GetNextResult) (w : World) (d : Document) {st : State}
      {w' : World}
      → codec.from_reader this.args ≡ ok d
      → Steps this w st w'
      → generate_from ops codec this res (codec.from_reader this.args) w
        ≡ step_open ops codec this res st w'
  generate_from-Steps this res w d read (held e) =
      ap (λ r. generate_from ops codec this res r w) read
      ∙ ap (λ o. open_or_step ops codec this res d w o) e
  generate_from-Steps this res w d read (opened {d = d'} e read' o) =
      ap (λ r. generate_from ops codec this res r w) read'
      ∙ (ap (λ s. open_or_step ops codec this res d' w s) e
          ∙ ap (λ p. open_then ops codec this res p) o)

  -- The stage after its generator's end.
  abbrev pub ended : ExecObj ops codec → ExecObj ops codec
  ended this = record this { state = none; generator_done = true }

  ending_step :
      (this : ExecObj ops codec) (res : GetNextResult) (w : World) (d : Document) {st : State}
      {w' : World}
      → this.mode ≡ generator
      → this.generator_done ≡ false
      → codec.from_reader this.args ≡ ok d
      → Steps this w st w'
      → (next st this.catalog w').0.1 ≡ some (ok eof)
      → exec_get_next ops codec this res w ≡ (
        ((status_ok, set_eof_empty), ended this),
        drop_state (next st this.catalog w').0.0 (next st this.catalog w').1,
      )
  unfolding generate
  ending_step this res w d {st} {w'} m going read steps over =
      let ((st', out), v) = next st this.catalog w' in
      generator-generate ops codec this res w m
      ∙ (ap
            (λ b.
              if b
              then (((status_ok, set_eof_empty), this), w)
              else generate_from ops codec this res (codec.from_reader this.args) w)
            going
          ∙ (generate_from-Steps this res w d read steps
              ∙ ap (λ o. deliver ops codec this res st' o v) over))

  -- From the call in which the hook `next` gives the end, that call and every later one answer the end
  -- of the stream. The state that the hook left is dropped, the stage holds none, and nothing happens
  -- to the world afterwards. The arguments decode, and the stage is a generator.
  pub run-done :
      (n : ℕ) (this : ExecObj ops codec) (res : GetNextResult) (w : World) (d : Document)
      {st : State} {w' : World}
      → this.mode ≡ generator
      → this.generator_done ≡ false
      → codec.from_reader this.args ≡ ok d
      → Steps this w st w'
      → (next st this.catalog w').0.1 ≡ some (ok eof)
      → run ops codec (suc n) this res w ≡ (
        (replicate (suc n) (status_ok, set_eof_empty), ended this),
        drop_state (next st this.catalog w').0.0 (next st this.catalog w').1,
      )
  unfolding run
  run-done n this res w d m going read steps over =
      rw (ending_step this res w d m going read steps over) (
        ap (λ p. (((status_ok, set_eof_empty) ∷ p.0.0, p.0.1), p.1))
          (run-ended n (ended this) set_eof_empty _ m refl))
