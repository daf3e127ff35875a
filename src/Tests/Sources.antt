-- ===== src/Tests/Sources.antt =====
-- Source stages, with a generator that counts down from two.
use rust_sdk_mongodb_extensi.Prelude.{
  ℕ, zero, suc, ◌+◌, ◌≡◌, refl, Bool, true, false, Option, none, some, List, [], ◌∷◌,
}
use rust_sdk_mongodb_extensi.Prelude.Int.{pos}
use rust_sdk_mongodb_extensi.Errors.{ok}
use rust_sdk_mongodb_extensi.Bson.{boolean, int32, Document, end, field}
use rust_sdk_mongodb_extensi.Stage.{Next, advanced, eof}
use rust_sdk_mongodb_extensi.Source.Ops.{
  Caught, Bytes, Codec, k_advanced, empty_view, byte_buf, foreign, GetNextResult, Status, Returned,
  status_ok, SourceOps,
}
use rust_sdk_mongodb_extensi.Source.Exec.{
  ExecObj, set_eof_empty, generator, exec_alloc, exec_set_source, exec_destroy, run,
  requires_input_of,
}
use rust_sdk_mongodb_extensi.Source.Exec.Balance.{run-exec_destroy}
use rust_sdk_mongodb_extensi.Source.Exec.Generator.{run-ignores_source}
use rust_sdk_mongodb_extensi.Source.Exec.Ended.{ended, held, run-done}
use rust_sdk_mongodb_extensi.Source.Exec.Passthrough.{
  pull_upstream, run-upstream_first, run-upstream_empty,
}

record Host : Type 0 where
  rows : List GetNextResult
  opened : ℕ
  dropped : ℕ

abbrev row : GetNextResult
row = record { code = k_advanced; result_document = foreign 7; result_metadata = empty_view }

-- The host's upstream stage hands out its rows, then the end.
abbrev upstream_at : Host → List GetNextResult → (Option Status × GetNextResult) × Host
upstream_at w [] = ((none, set_eof_empty), w)
upstream_at w (r ∷ rs) = ((none, r), record w { rows = rs })

abbrev upstream : Unit {0} → GetNextResult → Host → (Option Status × GetNextResult) × Host
upstream u r w = upstream_at w w.rows

upstream-opened : (w : Host) (rs : List GetNextResult) → (upstream_at w rs).1.opened ≡ w.opened
upstream-opened w [] = refl
upstream-opened w (r ∷ rs) = refl

upstream-dropped : (w : Host) (rs : List GetNextResult) → (upstream_at w rs).1.dropped ≡ w.dropped
upstream-dropped w [] = refl
upstream-dropped w (r ∷ rs) = refl

-- The hook `next`: one row for each number left.
abbrev count_down : ℕ → ℕ × Caught Next
count_down zero = (zero, some (ok eof))
count_down (suc k) = (k, some (ok (advanced (field "n" (int32 (pos k)) end) none)))

abbrev properties : Bool → Document
properties b = field "requiresInputDocSource" (boolean b) end

abbrev counting : Bool → SourceOps
counting b = record {
  World = Host;
  State = ℕ;
  Upstream = Unit {0};
  static_properties_doc = some (properties b);
  open_from_doc = λ d c w. (some (ok 2), record w { opened = 1 + w.opened });
  drop_state = λ s w. record w { dropped = suc w.dropped };
  next = λ s c w. (count_down s, w);
  get_next = upstream;
  opens = λ w. w.opened;
  drops = λ w. w.dropped;
  open-opens = λ d c w. refl;
  open-drops = λ d c w. refl;
  drop-opens = λ s w. refl;
  drop-drops = λ s w. refl;
  next-opens = λ s c w. refl;
  next-drops = λ s c w. refl;
  upstream-opens = λ u r w. upstream-opened w w.rows;
  upstream-drops = λ u r w. upstream-dropped w w.rows;
}

-- A codec that writes an empty document as one byte, and every other as two.
abbrev bytes_of : Document → Bytes
bytes_of end = 0 ∷ []
bytes_of (field k v d) = 1 ∷ 1 ∷ []

abbrev codec : Codec
codec = record {
  access_error = λ v. [];
  from_reader = λ b. ok end;
  to_writer = λ d. ok (bytes_of d);
}

abbrev host : List GetNextResult → Host
host rows = record { rows = rows; opened = 0; dropped = 0 }

run-exec_destroy_example :
    (let ((rs, this), v) =
        run
          (counting true)
          codec
          5
          (exec_set_source
            (counting true)
            codec
            tt
            (exec_alloc (counting true) codec (5 ∷ []) none))
          set_eof_empty
          (host []) in
      (exec_destroy (counting true) codec this v).opened
      ≡ (exec_destroy (counting true) codec this v).dropped)
run-exec_destroy_example =
    run-exec_destroy (counting true) codec (5 ∷ []) none tt 5 set_eof_empty (host []) refl

reads_input : requires_input_of (properties true) ≡ true
unfolding rust_sdk_mongodb_extensi.Bson.get
reads_input = refl

ignores_input : requires_input_of (properties false) ≡ false
unfolding rust_sdk_mongodb_extensi.Bson.get
ignores_input = refl

run-ignores_source_example :
    ((run
        (counting false)
        codec
        3
        (record (exec_alloc (counting false) codec (5 ∷ []) none) { source = some tt })
        set_eof_empty
        (host (row ∷ []))).0.0
      ≡ (run
          (counting false)
          codec
          3
          (exec_alloc (counting false) codec (5 ∷ []) none)
          set_eof_empty
          (host (row ∷ []))).0.0)
    × ((run
          (counting false)
          codec
          3
          (record (exec_alloc (counting false) codec (5 ∷ []) none) { source = some tt })
          set_eof_empty
          (host (row ∷ []))).1
        ≡ (run
            (counting false)
            codec
            3
            (exec_alloc (counting false) codec (5 ∷ []) none)
            set_eof_empty
            (host (row ∷ []))).1)
run-ignores_source_example =
    run-ignores_source (counting false) codec (properties false) (5 ∷ []) none tt 3 set_eof_empty
      (host (row ∷ [])) refl ignores_input

-- A stage whose generator has no row left.
abbrev exhausted : ExecObj (counting true) codec
exhausted = record (exec_alloc (counting true) codec (5 ∷ []) none) {
  mode = generator;
  state = some 0;
}

run-done_example : run (counting true) codec 3 exhausted row (host []) ≡ (
  (
    (status_ok, set_eof_empty) ∷ (status_ok, set_eof_empty) ∷ (status_ok, set_eof_empty) ∷ [],
    ended (counting true) codec exhausted,
  ),
  record (host []) { dropped = 1 },
)
unfolding exec_alloc
run-done_example =
    run-done (counting true) codec 2 exhausted row (host []) end refl refl refl (held refl) refl

abbrev reading : (rows : List GetNextResult) → (List (Returned × GetNextResult) × Host)
reading rows =
    let ((rs, this), w) =
      run (counting true) codec 3
        (exec_set_source (counting true) codec tt (exec_alloc (counting true) codec (5 ∷ []) none))
        set_eof_empty (host rows) in
    (rs, w)

run-upstream_first_example :
    ((reading (row ∷ [])).0
      ≡ (pull_upstream (counting true) codec 3 tt set_eof_empty (host (row ∷ []))).0)
    × ((reading (row ∷ [])).1
        ≡ (pull_upstream (counting true) codec 3 tt set_eof_empty (host (row ∷ []))).1)
run-upstream_first_example =
    run-upstream_first (counting true) codec (properties true) (5 ∷ []) none tt 2 set_eof_empty
      (host (row ∷ [])) refl reads_input refl refl

abbrev generating : List (Returned × GetNextResult) × Host
generating =
    let ((rs, this), w) =
      run (counting true) codec 3 (exec_alloc (counting true) codec (5 ∷ []) none) set_eof_empty
        (host []) in
    (rs, w)

run-upstream_empty_example : ((reading []).0 ≡ generating.0) × ((reading []).1 ≡ generating.1)
run-upstream_empty_example =
    run-upstream_empty (counting true) codec (properties true) (5 ∷ []) none tt 2 set_eof_empty
      (host []) refl reads_input refl refl

-- The generator gives its two rows, and then the end at every call.
counts_down :
    generating.0
    ≡ (
      status_ok,
      record {
        code = k_advanced;
        result_document = byte_buf (1 ∷ 1 ∷ []);
        result_metadata = empty_view;
      },
    )
      ∷ (
        status_ok,
        record {
          code = k_advanced;
          result_document = byte_buf (1 ∷ 1 ∷ []);
          result_metadata = empty_view;
        },
      )
      ∷ (status_ok, set_eof_empty)
      ∷ []
unfolding run exec_alloc rust_sdk_mongodb_extensi.Source.Exec.exec_get_next
    rust_sdk_mongodb_extensi.Source.Exec.generate
counts_down = refl
