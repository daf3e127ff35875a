-- ===== src/Source/Exec/Balance.antt =====
-- Which states of the generator an executable stage holds, and which it has freed.
use rust_sdk_mongodb_extensi.Prelude.{
  ℕ, zero, suc, ◌+◌, ◌≡◌, refl, if_lem, Option, none, some, arith,
}
use rust_sdk_mongodb_extensi.Errors.{Message, ExtensionResult, Result, ok, err}
use rust_sdk_mongodb_extensi.Bson.{Document}
use rust_sdk_mongodb_extensi.Stage.{Next, advanced, eof}
use rust_sdk_mongodb_extensi.Source.Ops.{
  CatalogContext, Caught, Bytes, Codec, Code, k_advanced, k_eof, k_pause_execution, GetNextResult,
  Status, allocated, SourceOps,
}
use rust_sdk_mongodb_extensi.Source.Exec.{
  Mode, init, passthrough, generator, ExecObj, exec_alloc, exec_destroy, exec_set_source, Left,
  is_failure, requires_input_of, advanced_result, write_row, deliver, step_open, open_then,
  open_or_step, generate_from, generate, forward, probe, probed, dispatch, settle, exec_get_next,
  run,
}

-- How many states a pointer to one holds.
pub held : {A : Type 0} → Option A → ℕ
held none = 0
held (some st) = 1

module _ (ops : SourceOps) (codec : Codec) where
  open ops use {
    World, State, opens, drops, get_next, open_from_doc, next, drop_state, static_properties_doc,
  }

  -- Every state that was opened is either held by the stage or has been freed.
  pub IsBalanced : ExecObj ops codec → World → Type 0
  IsBalanced this w = opens w ≡ held this.state + drops w

  IsLeftBalanced : Left ops codec → Type 0
  unfolding IsBalanced
  IsLeftBalanced l = IsBalanced l.0.1 l.1

  write_row-IsBalanced :
      (this : ExecObj ops codec) (res : GetNextResult) (st : State) (w : World)
      (row : ExtensionResult GetNextResult)
      → opens w ≡ 1 + drops w
      → IsLeftBalanced (write_row ops codec this res st w row)
  unfolding IsLeftBalanced held
  write_row-IsBalanced this res st w (ok row) h = h
  write_row-IsBalanced this res st w (err e) h = h

  deliver-IsBalanced :
      (this : ExecObj ops codec) (res : GetNextResult) (st : State) (out : Caught Next) (w : World)
      → opens w ≡ 1 + drops w
      → IsLeftBalanced (deliver ops codec this res st out w)
  unfolding IsLeftBalanced held
  deliver-IsBalanced this res st none w h = h
  deliver-IsBalanced this res st (some (err e)) w h = h
  deliver-IsBalanced this res st (some (ok eof)) w h =
      omega (arith, ops.drop-opens st w, ops.drop-drops st w)
  deliver-IsBalanced this res st (some (ok (advanced document metadata))) w h =
      write_row-IsBalanced this res st w (advanced_result codec document metadata) h

  step_open-IsBalanced :
      (this : ExecObj ops codec) (res : GetNextResult) (st : State) (w : World)
      → opens w ≡ 1 + drops w
      → IsLeftBalanced (step_open ops codec this res st w)
  step_open-IsBalanced this res st w h =
      let ((st', out), w') = next st this.catalog w in
      deliver-IsBalanced this res st' out w'
        (omega (arith, h, ops.next-opens st this.catalog w, ops.next-drops st this.catalog w))

  open_then-IsBalanced :
      (this : ExecObj ops codec) (res : GetNextResult) (p : Caught State × World)
      → this.state ≡ none
      → opens p.1 ≡ allocated p.0 + drops p.1
      → IsLeftBalanced (open_then ops codec this res p)
  unfolding IsLeftBalanced held
  open_then-IsBalanced this res (none, w) e h = rw e h
  open_then-IsBalanced this res (some (err x), w) e h = rw e h
  open_then-IsBalanced this res (some (ok st), w) e h = step_open-IsBalanced this res st w h

  open_or_step-IsBalanced :
      (this : ExecObj ops codec) (res : GetNextResult) (d : Document) (w : World) (o : Option State)
      → this.state ≡ o
      → opens w ≡ held o + drops w
      → IsLeftBalanced (open_or_step ops codec this res d w o)
  unfolding held
  open_or_step-IsBalanced this res d w none e h =
      open_then-IsBalanced this res (open_from_doc d this.catalog w) e
        (omega (arith, h, ops.open-opens d this.catalog w, ops.open-drops d this.catalog w))
  open_or_step-IsBalanced this res d w (some st) e h = step_open-IsBalanced this res st w h

  generate_from-IsBalanced :
      (this : ExecObj ops codec) (res : GetNextResult) (args : Result Message Document) (w : World)
      → IsBalanced this w
      → IsLeftBalanced (generate_from ops codec this res args w)
  unfolding IsLeftBalanced IsBalanced
  generate_from-IsBalanced this res (err m) w h = h
  generate_from-IsBalanced this res (ok d) w h =
      open_or_step-IsBalanced this res d w this.state refl h

  generate-IsBalanced :
      (this : ExecObj ops codec) (res : GetNextResult) (w : World)
      → IsBalanced this w
      → IsLeftBalanced (generate ops codec this res w)
  unfolding IsLeftBalanced generate
  generate-IsBalanced this res w h =
      if_lem IsLeftBalanced this.generator_done h
        (generate_from-IsBalanced this res (codec.from_reader this.args) w h)

  forward-IsBalanced :
      (this : ExecObj ops codec) (res : GetNextResult) (w : World) (st : Option Status)
      → IsBalanced this w
      → IsLeftBalanced (forward ops codec this res w st)
  unfolding IsLeftBalanced
  forward-IsBalanced this res w none h = h
  forward-IsBalanced this res w (some bad) h = h

  probed-IsBalanced :
      (this : ExecObj ops codec) (res : GetNextResult) (code : Code) (w : World)
      → IsBalanced this w
      → IsLeftBalanced (probed ops codec this res code w)
  unfolding IsLeftBalanced IsBalanced
  probed-IsBalanced this res k_advanced w h = h
  probed-IsBalanced this res k_pause_execution w h = h
  probed-IsBalanced this res k_eof w h =
      if_lem IsLeftBalanced this.saw_upstream_advanced h
        (generate-IsBalanced (record this { mode = generator }) res w h)

  probe-IsBalanced :
      (this : ExecObj ops codec) (res : GetNextResult) (w : World) (st : Option Status)
      → IsBalanced this w
      → IsLeftBalanced (probe ops codec this res w st)
  unfolding IsLeftBalanced
  probe-IsBalanced this res w none h = probed-IsBalanced this res res.code w h
  probe-IsBalanced this res w (some bad) h = h

  upstream-IsBalanced :
      (this : ExecObj ops codec) (src : ops.Upstream) (res : GetNextResult) (w : World)
      → IsBalanced this w
      → IsBalanced this (get_next src res w).1
  unfolding IsBalanced
  upstream-IsBalanced this src res w h =
      omega (arith, h, ops.upstream-opens src res w, ops.upstream-drops src res w)

  dispatch-IsBalanced :
      (this : ExecObj ops codec) (res : GetNextResult) (w : World) (m : Mode)
      (src : Option ops.Upstream)
      → IsBalanced this w
      → IsLeftBalanced (dispatch ops codec this res w m src)
  unfolding IsLeftBalanced IsBalanced
  dispatch-IsBalanced this res w passthrough none h = h
  dispatch-IsBalanced this res w generator src h = generate-IsBalanced this res w h
  dispatch-IsBalanced this res w init none h =
      generate-IsBalanced (record this { mode = generator }) res w h
  dispatch-IsBalanced this res w passthrough (some src) h =
      let ((st, res'), w') = get_next src res w in
      forward-IsBalanced this res' w' (is_failure st) (upstream-IsBalanced this src res w h)
  dispatch-IsBalanced this res w init (some src) h =
      let ((st, res'), w') = get_next src res w in
      probe-IsBalanced this res' w' (is_failure st) (upstream-IsBalanced this src res w h)

  settle-IsBalanced :
      (this : ExecObj ops codec) (res : GetNextResult) (w : World) (m : Mode) (d : Option Document)
      → IsBalanced this w
      → IsLeftBalanced (settle ops codec this res w m d)
  unfolding IsLeftBalanced IsBalanced
  settle-IsBalanced this res w init none h = h
  settle-IsBalanced this res w init (some d) h =
      if_lem IsLeftBalanced (requires_input_of d)
        (dispatch-IsBalanced this res w init this.source h)
        (dispatch-IsBalanced (record this { mode = generator }) res w generator this.source h)
  settle-IsBalanced this res w passthrough d h =
      dispatch-IsBalanced this res w passthrough this.source h
  settle-IsBalanced this res w generator d h =
      dispatch-IsBalanced this res w generator this.source h

  -- The calls of get_next keep the balance of a stage that has it.
  pub run-IsBalanced :
      (n : ℕ) (this : ExecObj ops codec) (res : GetNextResult) (w : World)
      → IsBalanced this w
      → IsBalanced (run ops codec n this res w).0.1 (run ops codec n this res w).1
  unfolding run exec_get_next IsLeftBalanced
  run-IsBalanced zero this res w h = h
  run-IsBalanced (suc n) this res w h =
      let ((r, this'), w') = exec_get_next ops codec this res w in
      run-IsBalanced n this' r.1 w' (settle-IsBalanced this res w this.mode static_properties_doc h)

  exec_destroy-frees :
      (this : ExecObj ops codec) (w : World)
      → IsBalanced this w
      → opens (exec_destroy ops codec this w) ≡ drops (exec_destroy ops codec this w)
  unfolding IsBalanced exec_destroy held
  exec_destroy-frees this w h = go this.state h
    where
      go :
          (o : Option State)
          → opens w ≡ held o + drops w
          → opens (elim o [ none ↦ w | some st ↦ drop_state st w ])
            ≡ drops (elim o [ none ↦ w | some st ↦ drop_state st w ])
      go none g = omega (arith, g)
      go (some st) g = omega (arith, g, ops.drop-opens st w, ops.drop-drops st w)

  -- A stage that is allocated in a world where every opened state has been freed, is attached to an
  -- upstream stage, is called any number of times and is then destroyed, leaves a world where every
  -- opened state has been freed: none is leaked and none is freed twice, also where calls fail or
  -- panic.
  pub run-exec_destroy :
      (args : Bytes) (catalog : Option CatalogContext) (src : ops.Upstream) (n : ℕ)
      (res : GetNextResult) (w : World)
      → opens w ≡ drops w
      → (let ((rs, this), v) =
            run ops codec n
              (exec_set_source ops codec src (exec_alloc ops codec args catalog))
              res
              w in
          opens (exec_destroy ops codec this v) ≡ drops (exec_destroy ops codec this v))
  unfolding IsBalanced exec_alloc exec_set_source held
  run-exec_destroy args catalog src n res w h =
      let start = exec_set_source ops codec src (exec_alloc ops codec args catalog) in
      let ((rs, this), v) = run ops codec n start res w in
      exec_destroy-frees this v (run-IsBalanced n start res w (omega (arith, h)))
