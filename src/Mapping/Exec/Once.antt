-- ===== src/Mapping/Exec/Once.antt =====
-- How many rows an executable stage emits.
use rust_sdk_mongodb_extensi.Prelude.{
  ℕ, zero, suc, ◌+◌, ◌≤◌, ◌≡◌, refl, ap, ◌∙◌, Bool, true, false, ◌||◌, if◌then◌else◌, Option, none,
  some, List, [], ◌∷◌, arith,
}
use rust_sdk_mongodb_extensi.Errors.{ok, err}
use rust_sdk_mongodb_extensi.Bson.{Document}
use rust_sdk_mongodb_extensi.Source.Ops.{
  Bytes, Codec, Code, k_advanced, k_eof, k_pause_execution, Status, Returned, status_ok,
  upstream_status, into_raw_status,
}
use rust_sdk_mongodb_extensi.Source.Exec.{is_failure}
use rust_sdk_mongodb_extensi.Mapping.Ops.{
  Boundary, RowResult, Heap, release_byte_container, empty_byte_container,
  document_from_byte_container, MapStageGlobals, Source,
}
use rust_sdk_mongodb_extensi.Mapping.Exec.Upstream.{pull_upstream, call-answered, call-Follows}
use rust_sdk_mongodb_extensi.Mapping.Exec.{
  ExecObj, Left, left, deliver, deliver_synthetic, at_end, on_code, answered, exec_get_next, run,
  mapped_row, synthetic_row,
}

-- One for a result that holds a row, without an error.
abbrev pub row_of : Code → ℕ
row_of k_advanced = 1
row_of k_eof = 0
row_of k_pause_execution = 0

abbrev pub row_returned : Returned → Code → ℕ
row_returned status_ok code = row_of code
row_returned (upstream_status st) code = 0
row_returned (into_raw_status e) code = 0

abbrev pub row_answered : Option Status → Code → ℕ
row_answered none code = row_of code
row_answered (some bad) code = 0

pub rows_answered : List (Option Status × RowResult) → ℕ
rows_answered [] = 0
rows_answered ((st, r) ∷ more) = row_answered (is_failure st) r.code + rows_answered more

module _ (host : Source) where
  open host use {World, Upstream, get_next}

  abbrev emitted : Left host → ℕ
  emitted l = row_returned l.returned l.res.code

  pub rows_emitted : List (Left host) → ℕ
  rows_emitted [] = 0
  rows_emitted (l ∷ ls) = row_returned l.returned l.res.code + rows_emitted ls

  -- One while the stage may still make up a row.
  abbrev pub spare : ExecObj host → ℕ
  spare this = if this.saw_upstream_advanced || this.emitted_eof_synthetic then 0 else 1

  -- A call spends no more than what the upstream stage gave and what the stage may make up.
  Affords : ℕ → ExecObj host → Left host → Type 0
  Affords given this l = emitted l + spare l.this ≤ given + spare this

  deliver-Affords :
      (r : RowResult) (this : ExecObj host) (h : Heap) (w : World) (o : Boundary Bytes)
      → r.code ≡ k_advanced
      → this.saw_upstream_advanced ≡ true
      → emitted (deliver host r this h w o) + spare (deliver host r this h w o).this ≤ 1
  deliver-Affords r this h w none c s = ground (arith, s)
  deliver-Affords r this h w (some (err m)) c s = ground (arith, s)
  deliver-Affords r this h w (some (ok bytes)) c s = let one = ap row_of c in ground (arith, s, one)

  deliver_synthetic-Affords :
      (r : RowResult) (this : ExecObj host) (h : Heap) (w : World) (o : Boundary Bytes)
      → r.code ≡ k_eof
      → (this.saw_upstream_advanced || this.emitted_eof_synthetic) ≡ false
      → Affords 0 this (deliver_synthetic host r this h w o)
  unfolding Affords
  deliver_synthetic-Affords r this h w none c s = ground (arith, s)
  deliver_synthetic-Affords r this h w (some (err m)) c s = ground (arith, s)
  deliver_synthetic-Affords r this h w (some (ok bytes)) c s = ground (arith, s)

  module _ (globals : MapStageGlobals) (codec : Codec) where
    at_end-Affords :
        (r : RowResult) (this : ExecObj host) (h : Heap) (w : World)
        (hook : Option (Document → Boundary Document))
        → r.code ≡ k_eof
        → (this.saw_upstream_advanced || this.emitted_eof_synthetic) ≡ false
        → Affords 0 this (at_end host globals codec r this h w hook)
    unfolding Affords
    at_end-Affords r this h w none c s = let none_of = ap row_of c in ground (arith, none_of)
    at_end-Affords r this h w (some on_eof) c s =
        deliver_synthetic-Affords r this h w (synthetic_row globals codec this.args on_eof) c s

    over-Affords :
        (b : Bool) (r : RowResult) (this : ExecObj host) (h : Heap) (w : World)
        → (this.saw_upstream_advanced || this.emitted_eof_synthetic) ≡ b
        → r.code ≡ k_eof
        → Affords 0 this (
            if b
            then left host status_ok r this h w
            else at_end host globals codec r this h w globals.on_eof_no_rows)
    unfolding Affords
    over-Affords true r this h w s c = let none_of = ap row_of c in ground (arith, none_of)
    over-Affords false r this h w s c = at_end-Affords r this h w globals.on_eof_no_rows c s

    on_code-Affords :
        (code : Code) (r : RowResult) (this : ExecObj host) (h : Heap) (w : World)
        → r.code ≡ code
        → Affords (row_of code) this (on_code host globals codec code r this h w)
    unfolding Affords
    on_code-Affords k_pause_execution r this h w c =
        let none_of = ap row_of c in ground (arith, none_of)
    on_code-Affords k_eof r this h w c =
        over-Affords (this.saw_upstream_advanced || this.emitted_eof_synthetic) r this h w refl c
    on_code-Affords k_advanced r this h w c =
        let one =
          deliver-Affords (record r { result_document = empty_byte_container })
            (record this { saw_upstream_advanced = true })
            (release_byte_container r.result_document h) w
            (mapped_row globals codec this.args
              (document_from_byte_container codec r.result_document))
            c refl in
        omega (arith, one)

    answered-Affords :
        (st : Option Status) (r : RowResult) (this : ExecObj host) (h : Heap) (w : World)
        → Affords (row_answered st r.code) this (answered host globals codec st r this h w)
    unfolding Affords
    answered-Affords none r this h w = on_code-Affords r.code r this h w refl
    answered-Affords (some bad) r this h w = omega arith

    call-Affords :
        (src : Upstream) (blank : RowResult) (this : ExecObj host) (h : Heap) (w : World)
        → this.source ≡ some src
        → Affords
            (row_answered (is_failure (get_next src blank w).0.0) (get_next src blank w).0.1.code)
            this
            (exec_get_next host globals codec blank this h w)
    call-Affords src blank this h w e = rw (call-answered host globals codec src blank this h w e) (
        answered-Affords (is_failure (get_next src blank w).0.0) (get_next src blank w).0.1 this h
          (get_next src blank w).1)

    -- A stage never emits more rows than its upstream stage, but for one row that it makes up where
    -- it has neither seen a row nor made one up before; that is at most one over all the calls.
    pub run-rows_emitted :
        (src : Upstream) (blank : RowResult) (n : ℕ) (this : ExecObj host) (h : Heap) (w : World)
        → this.source ≡ some src
        → rows_emitted (run host globals codec n blank this h w)
          ≤ rows_answered (pull_upstream host n src blank w) + spare this
    unfolding run pull_upstream rows_emitted rows_answered Affords
    run-rows_emitted src blank zero this h w e = omega arith
    run-rows_emitted src blank (suc n) this h w e =
        let l = exec_get_next host globals codec blank this h w in
        let (same, kept, args) = call-Follows host globals codec src blank this h w e in
        let rest = run-rows_emitted src blank n l.this l.heap l.world (kept ∙ e) in
        let moved = ap (λ v. rows_answered (pull_upstream host n src blank v)) same in
        omega (arith, call-Affords src blank this h w e, rest, moved)
