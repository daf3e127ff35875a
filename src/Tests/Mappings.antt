-- ===== src/Tests/Mappings.antt =====
-- Map-transform and pass-through stages, over an upstream stage that counts its rows down.
use rust_sdk_mongodb_extensi.Prelude.{
  ℕ, zero, suc, ◌+◌, ◌≤◌, ◌≡◌, refl, sym, ap, ◌∙◌, true, false, Bool-cases, inl, inr, if◌then◌else◌,
  Option, none, some, String, [], ◌∷◌, map, length,
}
use rust_sdk_mongodb_extensi.Prelude.Text.{◌=ₛ◌, =ₛ→eq}
use rust_sdk_mongodb_extensi.Errors.{Message, Result, ok, err, ◌>>=◌, ok-injective}
use rust_sdk_mongodb_extensi.Bson.{
  Bson, string, boolean, int32, int64, double, document, array, other, Document, end, field,
}
use rust_sdk_mongodb_extensi.Source.Ops.{Bytes, Codec, k_advanced, k_eof, Status}
use rust_sdk_mongodb_extensi.Mapping.Ops.{
  byte_view, byte_buf, RowResult, owned_by, empty_heap, MapStageGlobals, Source,
  document_from_byte_container,
}
use rust_sdk_mongodb_extensi.Mapping.Exec.{ExecObj, exec_alloc, exec_set_source, run}
use rust_sdk_mongodb_extensi.Mapping.Exec.Upstream.{pull_upstream}
use rust_sdk_mongodb_extensi.Mapping.Exec.Buffers.{
  count, heap_after, handed_over, transferred, run-disposes,
}
use rust_sdk_mongodb_extensi.Mapping.Exec.Once.{
  rows_emitted, rows_answered, spare, run-rows_emitted,
}
use rust_sdk_mongodb_extensi.Mapping.Exec.Hooks.{maps, made_up, in_buf}
use rust_sdk_mongodb_extensi.Mapping.Exec.Images.{
  seen_of, fed, feed, no_images, image, run-stream, stream,
}
use rust_sdk_mongodb_extensi.Mapping.Nodes.{
  desc_parse, parse_get_query_shape, parse_to_bson_for_log, log_serialize, first_args,
}
use rust_sdk_mongodb_extensi.Mapping.Nodes.Compiled.{desc_parse-log_serialize}
use rust_sdk_mongodb_extensi.Passthrough
use rust_sdk_mongodb_extensi.Passthrough.{StageGlobals, desc_parse-run}

-- A codec that writes the empty document and the stage `{$m: {}}`, and reads back what it writes.
abbrev stage : Document
stage = field "$m" (document end) end

abbrev reader : Bytes → Result Message Document
reader (zero ∷ []) = ok end
reader (suc zero ∷ []) = ok stage
reader bytes = err []

abbrev stage_writer : String → Document → Document → Result Message Bytes
stage_writer k end end = if k =ₛ "$m" then ok (1 ∷ []) else err []
stage_writer k end (field j v d) = err []
stage_writer k (field j v d) rest = err []

abbrev value_writer : String → Bson → Document → Result Message Bytes
value_writer k (document args) rest = stage_writer k args rest
value_writer k v rest = err []

abbrev writer : Document → Result Message Bytes
writer end = ok (0 ∷ [])
writer (field k v rest) = value_writer k v rest

abbrev codec : Codec
codec = record { access_error = λ v. []; from_reader = reader; to_writer = writer }

reads_back : (d : Document) (b : Bytes) → writer d ≡ ok b → reader b ≡ ok d
reads_back end b h = ap reader (sym (ok-injective h))
reads_back (field k (string s) rest) b h = cc
reads_back (field k (boolean s) rest) b h = cc
reads_back (field k (int32 s) rest) b h = cc
reads_back (field k (int64 s) rest) b h = cc
reads_back (field k (double s) rest) b h = cc
reads_back (field k (array s) rest) b h = cc
reads_back (field k (other s) rest) b h = cc
reads_back (field k (document (field j v d)) rest) b h = cc
reads_back (field k (document end) (field j v d)) b h = cc
reads_back (field k (document end) end) b h = elim (Bool-cases (k =ₛ "$m")) [
  | inl e ↦
      let h' = rw e at h in
      ap reader (sym (ok-injective h'))
      ∙ ap (λ s. ok (field s (document end) end)) (sym (=ₛ→eq k "$m" e))
  | inr e ↦ absurd (refused_other (rw e at h))
]
  where
    refused_other : ◌≡◌ {A = Result Message Bytes} (err []) (ok b) → ⊥
    refused_other q = cc

abbrev globals : MapStageGlobals
globals = record {
  name = "$m";
  expect_empty = true;
  transform = λ r a. some (ok r);
  on_eof_no_rows = some (λ a. some (ok stage));
  static_properties_doc = end;
  expand_from_args_doc = none;
}

abbrev blank : RowResult
blank = record { code = k_eof; result_document = byte_view []; result_metadata = byte_view [] }

-- Each row owns its document and its metadata.
abbrev counted_row : ℕ → RowResult
counted_row k = record {
  code = k_advanced;
  result_document = byte_buf (100 + k) (0 ∷ []);
  result_metadata = byte_buf (200 + k) (0 ∷ []);
}

abbrev count_rows : ℕ → (Option Status × RowResult) × ℕ
count_rows zero = ((none, blank), 0)
count_rows (suc k) = ((none, counted_row k), k)

abbrev host : Source
host = record { World = ℕ; Upstream = Unit {0}; get_next = λ u r w. count_rows w }

bare_end :
    (w : ℕ) → (count_rows w).0.1.code ≡ k_eof → owned_by (count_rows w).0.1.result_document ≡ []
bare_end zero e = refl
bare_end (suc k) e = cc

run-disposes_example :
    (let ls =
        run host globals codec 3 blank
          (exec_set_source host tt (exec_alloc host (0 ∷ [])))
          empty_heap
          2 in
      count 101 (heap_after host 101 empty_heap ls).destroyed + handed_over host 101 ls
      ≡ transferred host 101 (pull_upstream host 3 tt blank 2)
        + count 101 (heap_after host 101 empty_heap ls).made)
run-disposes_example = run-disposes host 101 globals codec (0 ∷ []) tt blank bare_end 3 2

abbrev attached : ExecObj host
attached = record {
  args = 0 ∷ [];
  source = some tt;
  saw_upstream_advanced = false;
  emitted_eof_synthetic = false;
}

run-rows_emitted_example :
    rows_emitted host (run host globals codec 4 blank attached empty_heap 2)
    ≤ rows_answered (pull_upstream host 4 tt blank 2) + spare host attached
run-rows_emitted_example = run-rows_emitted host globals codec tt blank 4 attached empty_heap 2 refl

run-stream_example :
    map (seen_of host) (
      run host globals codec
        (length (stream ((0 ∷ []) ∷ (0 ∷ []) ∷ []) (some (1 ∷ []))))
        blank
        (exec_set_source host tt (exec_alloc host (0 ∷ [])))
        empty_heap
        2)
    ≡ stream ((0 ∷ []) ∷ (0 ∷ []) ∷ []) (some (1 ∷ []))
unfolding document_from_byte_container
run-stream_example =
    run-stream host codec tt blank globals (some (λ a. some (ok stage))) (0 ∷ []) empty_heap refl
      (made_up refl refl refl) (feed refl refl in_buf refl (feed refl refl in_buf refl fed))
      (image (maps refl refl refl) (image (maps refl refl refl) no_images)) (refl, refl)
      (refl, refl)

desc_parse-log_serialize_example :
    (desc_parse globals codec (1 ∷ []) ≡ ok (0 ∷ []))
    × (parse_get_query_shape globals codec (0 ∷ []) ≡ ok (1 ∷ []))
    × (parse_to_bson_for_log globals codec (0 ∷ []) ≡ ok (1 ∷ []))
unfolding desc_parse first_args log_serialize
desc_parse-log_serialize_example =
    desc_parse-log_serialize globals codec reads_back (1 ∷ []) refl refl

abbrev passing : StageGlobals
passing = record {
  name = "$m";
  expect_empty = true;
  static_properties_doc = end;
  expand_from_args_doc = none;
}

desc_parse-run_example :
    ((Passthrough.desc_parse passing codec (1 ∷ []) >>= λ p.
    Passthrough.parse_expand passing codec p)
      ≡ ok ((0 ∷ []) ∷ []))
    × (Passthrough.run host 3 blank
          (Passthrough.exec_set_source host tt (Passthrough.log_compile host (0 ∷ [])))
          2
        ≡ pull_upstream host 3 tt blank 2)
desc_parse-run_example =
    desc_parse-run host passing codec reads_back (1 ∷ []) end end tt 3 blank 2 refl refl refl refl
