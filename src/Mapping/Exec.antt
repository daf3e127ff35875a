-- ===== src/Mapping/Exec.antt =====
-- extension-sdk-mongodb/src/map_transform.rs: the executable stage, from exec_alloc to exec_destroy.
-- A pointer is an option. What the host is handed back in a call's result is the host's.
pub mod Upstream
pub mod Buffers
pub mod Hooks
pub mod Images
pub mod Once
use rust_sdk_mongodb_extensi.Prelude.{
  ℕ, zero, suc, Bool, true, false, ◌||◌, if◌then◌else◌, Option, none, some, List, [], ◌∷◌,
}
use rust_sdk_mongodb_extensi.Errors.{Message, text, Result, ok, err}
use rust_sdk_mongodb_extensi.Bson.{Document}
use rust_sdk_mongodb_extensi.Source.Ops.{
  Bytes, Codec, Code, k_advanced, k_eof, k_pause_execution, Status, Returned, status_ok,
  upstream_status, into_raw_status,
}
use rust_sdk_mongodb_extensi.Source.Exec.{is_failure}
use rust_sdk_mongodb_extensi.Mapping.Ops.{
  Boundary, ByteContainer, RowResult, Heap, empty_byte_container, release_byte_container,
  release_owned_metadata, from_bytes, document_from_byte_container, failure, MapStageGlobals,
  Source,
}

abbrev pub transform_panic : Message
transform_panic = text "panic during map transform" ∷ []

abbrev pub eof_panic : Message
eof_panic = text "panic during on_eof_no_rows" ∷ []

module _ (globals : MapStageGlobals) (codec : Codec) where
  -- The document that a hook gave, written.
  abbrev pub written : Boundary Document → Boundary Bytes
  written none = none
  written (some (err e)) = some (err e)
  written (some (ok out)) = some (codec.to_writer out)

  abbrev pub transform_with : Document → Result Message Document → Boundary Bytes
  transform_with row (err e) = some (err e)
  transform_with row (ok args) = written (globals.transform row args)

  -- The closure for a row, up to the allocation of its buffer.
  abbrev pub mapped_row : Bytes → Result Message Document → Boundary Bytes
  mapped_row args (err e) = some (err e)
  mapped_row args (ok row) = transform_with row (codec.from_reader args)

  abbrev pub synthesize : (Document → Boundary Document) → Result Message Document → Boundary Bytes
  synthesize on_eof (err e) = some (err e)
  synthesize on_eof (ok args) = written (on_eof args)

  -- The closure for the end of an input that had no rows.
  abbrev pub synthetic_row : Bytes → (Document → Boundary Document) → Boundary Bytes
  synthetic_row args on_eof = synthesize on_eof (codec.from_reader args)

module _ (host : Source) where
  open host use {World, Upstream, get_next}

  pub record ExecObj : Type 0 where
    pub args : Bytes
    pub source : Option Upstream
    pub saw_upstream_advanced : Bool
    pub emitted_eof_synthetic : Bool

  unfoldable pub exec_alloc : Bytes → ExecObj
  exec_alloc args = record {
    args = args;
    source = none;
    saw_upstream_advanced = false;
    emitted_eof_synthetic = false;
  }

  unfoldable pub exec_set_source : Upstream → ExecObj → ExecObj
  exec_set_source src this = record this { source = some src }

  -- What a call leaves behind: what it returns, the result, the stage, the buffers, the world.
  pub record Left : Type 0 where
    pub returned : Returned
    pub res : RowResult
    pub this : ExecObj
    pub heap : Heap
    pub world : World

  abbrev pub left : Returned → RowResult → ExecObj → Heap → World → Left
  left r res this h w = record { returned = r; res = res; this = this; heap = h; world = w }

  abbrev pub set_eof_empty : RowResult
  set_eof_empty = record {
    code = k_eof;
    result_document = empty_byte_container;
    result_metadata = empty_byte_container;
  }

  abbrev pub failed : Message → RowResult → ExecObj → Heap → World → Left
  failed e res this h w =
      let (res', h') = release_owned_metadata res h in
      left (into_raw_status (failure e)) res' this h' w

  -- What is done with a row's bytes; the metadata of the upstream stage goes with them.
  abbrev pub deliver : RowResult → ExecObj → Heap → World → Boundary Bytes → Left
  deliver res this h w none = failed transform_panic res this h w
  deliver res this h w (some (err e)) = failed e res this h w
  deliver res this h w (some (ok bytes)) =
      let (raw, h') = from_bytes bytes h in
      left status_ok (record res { result_document = raw }) this h' w

  abbrev pub deliver_synthetic : RowResult → ExecObj → Heap → World → Boundary Bytes → Left
  deliver_synthetic res this h w none = failed eof_panic res this h w
  deliver_synthetic res this h w (some (err e)) = failed e res this h w
  deliver_synthetic res this h w (some (ok bytes)) =
      let (raw, h1) = from_bytes bytes h in
      let (res', h2) = release_owned_metadata res h1 in
      left status_ok
        (record {
          code = k_advanced;
          result_document = raw;
          result_metadata = empty_byte_container;
        })
        (record this { emitted_eof_synthetic = true }) h2 w

  module _ (globals : MapStageGlobals) (codec : Codec) where
    abbrev pub at_end :
        RowResult → ExecObj → Heap → World → Option (Document → Boundary Document) → Left
    at_end res this h w none = left status_ok res this h w
    at_end res this h w (some on_eof) =
        deliver_synthetic res this h w (synthetic_row globals codec this.args on_eof)

    abbrev pub on_code : Code → RowResult → ExecObj → Heap → World → Left
    on_code k_advanced res this h w =
        deliver (record res { result_document = empty_byte_container })
          (record this { saw_upstream_advanced = true })
          (release_byte_container res.result_document h) w
          (mapped_row globals codec this.args
            (document_from_byte_container codec res.result_document))
    on_code k_eof res this h w =
        if this.saw_upstream_advanced || this.emitted_eof_synthetic
        then left status_ok res this h w
        else at_end res this h w globals.on_eof_no_rows
    on_code k_pause_execution res this h w = left status_ok res this h w

    abbrev pub answered : Option Status → RowResult → ExecObj → Heap → World → Left
    answered (some bad) res this h w = left (upstream_status bad) res this h w
    answered none res this h w = on_code res.code res this h w

    abbrev pub pull : Option Upstream → RowResult → ExecObj → Heap → World → Left
    pull none res this h w = left status_ok set_eof_empty this h w
    pull (some src) res this h w =
        let ((st, res'), w') = get_next src res w in answered (is_failure st) res' this h w'

    unfoldable pub exec_get_next : RowResult → ExecObj → Heap → World → Left
    unfolding document_from_byte_container release_byte_container release_owned_metadata
    exec_get_next res this h w = pull this.source res this h w

    -- The host's calls of get_next, each with a result of its own.
    unfoldable pub run : ℕ → RowResult → ExecObj → Heap → World → List Left
    unfolding exec_get_next
    run zero blank this h w = []
    run (suc n) blank this h w =
        let l = exec_get_next blank this h w in l ∷ run n blank l.this l.heap l.world
