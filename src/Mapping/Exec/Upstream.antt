-- ===== src/Mapping/Exec/Upstream.antt =====
-- What the upstream stage of an executable stage answers, call after call.
use rust_sdk_mongodb_extensi.Prelude.{
  ℕ, zero, suc, ◌≡◌, refl, ap, if_lem, true, ◌||◌, Option, none, some, List, [], ◌∷◌,
}
use rust_sdk_mongodb_extensi.Errors.{ok, err}
use rust_sdk_mongodb_extensi.Bson.{Document}
use rust_sdk_mongodb_extensi.Source.Ops.{
  Bytes, Codec, Code, k_advanced, k_eof, k_pause_execution, Status,
}
use rust_sdk_mongodb_extensi.Source.Exec.{is_failure}
use rust_sdk_mongodb_extensi.Mapping.Ops.{
  Boundary, RowResult, Heap, release_byte_container, empty_byte_container,
  document_from_byte_container, MapStageGlobals, Source,
}
use rust_sdk_mongodb_extensi.Mapping.Exec.{
  ExecObj, Left, deliver, deliver_synthetic, at_end, on_code, answered, pull, exec_get_next,
  mapped_row, synthetic_row,
}

module _ (host : Source) where
  open host use {World, Upstream, get_next}

  -- The upstream stage's answers to calls with a result each.
  unfoldable pub pull_upstream : ℕ → Upstream → RowResult → World → List (Option Status × RowResult)
  pull_upstream zero src blank w = []
  pull_upstream (suc n) src blank w =
      let (answer, w') = get_next src blank w in answer ∷ pull_upstream n src blank w'

  -- A call leaves the world to the upstream stage, and keeps the arguments and the pointer to it.
  abbrev pub Follows : ExecObj host → World → Left host → Type 0
  Follows this w l = (l.world ≡ w) × (l.this.source ≡ this.source) × (l.this.args ≡ this.args)

  deliver-Follows :
      (r : RowResult) (this : ExecObj host) (h : Heap) (w : World) (o : Boundary Bytes)
      → Follows this w (deliver host r this h w o)
  deliver-Follows r this h w none = (refl, refl, refl)
  deliver-Follows r this h w (some (err m)) = (refl, refl, refl)
  deliver-Follows r this h w (some (ok bytes)) = (refl, refl, refl)

  deliver_synthetic-Follows :
      (r : RowResult) (this : ExecObj host) (h : Heap) (w : World) (o : Boundary Bytes)
      → Follows this w (deliver_synthetic host r this h w o)
  deliver_synthetic-Follows r this h w none = (refl, refl, refl)
  deliver_synthetic-Follows r this h w (some (err m)) = (refl, refl, refl)
  deliver_synthetic-Follows r this h w (some (ok bytes)) = (refl, refl, refl)

  module _ (globals : MapStageGlobals) (codec : Codec) where
    at_end-Follows :
        (r : RowResult) (this : ExecObj host) (h : Heap) (w : World)
        (hook : Option (Document → Boundary Document))
        → Follows this w (at_end host globals codec r this h w hook)
    at_end-Follows r this h w none = (refl, refl, refl)
    at_end-Follows r this h w (some on_eof) =
        deliver_synthetic-Follows r this h w (synthetic_row globals codec this.args on_eof)

    on_code-Follows :
        (code : Code) (r : RowResult) (this : ExecObj host) (h : Heap) (w : World)
        → Follows this w (on_code host globals codec code r this h w)
    on_code-Follows k_pause_execution r this h w = (refl, refl, refl)
    on_code-Follows k_eof r this h w =
        if_lem (Follows this w) (this.saw_upstream_advanced || this.emitted_eof_synthetic)
          (refl, refl, refl) (at_end-Follows r this h w globals.on_eof_no_rows)
    on_code-Follows k_advanced r this h w =
        deliver-Follows (record r { result_document = empty_byte_container })
          (record this { saw_upstream_advanced = true })
          (release_byte_container r.result_document h) w
          (mapped_row globals codec this.args
            (document_from_byte_container codec r.result_document))

    answered-Follows :
        (st : Option Status) (r : RowResult) (this : ExecObj host) (h : Heap) (w : World)
        → Follows this w (answered host globals codec st r this h w)
    answered-Follows none r this h w = on_code-Follows r.code r this h w
    answered-Follows (some bad) r this h w = (refl, refl, refl)

    module _ (src : Upstream) (blank : RowResult) (this : ExecObj host) (h : Heap) (w : World)
        (attached : this.source ≡ some src) where
      pub call-answered :
          exec_get_next host globals codec blank this h w
          ≡ answered host globals codec
              (is_failure (get_next src blank w).0.0)
              (get_next src blank w).0.1
              this
              h
              (get_next src blank w).1
      unfolding exec_get_next
      call-answered = ap (λ o. pull host globals codec o blank this h w) attached

      pub call-Follows :
          Follows this (get_next src blank w).1 (exec_get_next host globals codec blank this h w)
      call-Follows = rw call-answered (
          answered-Follows (is_failure (get_next src blank w).0.0) (get_next src blank w).0.1 this h
            (get_next src blank w).1)
