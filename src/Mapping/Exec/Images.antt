-- ===== src/Mapping/Exec/Images.antt =====
-- The rows of an executable stage are the images of the rows of its upstream stage.
use rust_sdk_mongodb_extensi.Prelude.{
  ℕ, suc, ◌≡◌, refl, ap, ◌∙◌, true, false, ◌||◌, if◌then◌else◌, Option, none, some, List, [], ◌∷◌,
  map, length,
}
use rust_sdk_mongodb_extensi.Errors.{Message, Result, ok}
use rust_sdk_mongodb_extensi.Bson.{Document}
use rust_sdk_mongodb_extensi.Source.Ops.{
  Bytes, Codec, Code, k_advanced, k_eof, k_pause_execution, Returned, status_ok,
}
use rust_sdk_mongodb_extensi.Source.Exec.{is_failure}
use rust_sdk_mongodb_extensi.Mapping.Ops.{
  Boundary, ByteContainer, from_bytes, RowResult, Heap, release_byte_container,
  empty_byte_container, container_bytes, MapStageGlobals, Source,
}
use rust_sdk_mongodb_extensi.Mapping.Exec.Hooks.{
  Carries, document-Carries, Maps, MakesUp, no_hook, made_up, mapped_row-Maps, synthetic_row-made,
}
use rust_sdk_mongodb_extensi.Mapping.Exec.Upstream.{call-answered}
use rust_sdk_mongodb_extensi.Mapping.Exec.{
  ExecObj, exec_alloc, exec_set_source, Left, left, deliver, answered, on_code, at_end,
  deliver_synthetic, exec_get_next, run, mapped_row,
}

-- What the host sees of a call: a row, by its bytes, the end of the input, a pause, or an error.
pub data Seen : Type 0 where
  row : Result Message Bytes → Seen
  end_of_input : Seen
  paused : Seen
  refused : Returned → Seen

abbrev pub seen : Returned → Code → ByteContainer → Seen
seen status_ok k_advanced c = row (container_bytes c)
seen status_ok k_eof c = end_of_input
seen status_ok k_pause_execution c = paused
seen r code c = refused r

-- Rows, and the end after them.
pub rows_then_end : List Bytes → List Seen
rows_then_end [] = end_of_input ∷ []
rows_then_end (bytes ∷ images) = row (ok bytes) ∷ rows_then_end images

-- The stream of a map-transform stage, described from its input.
pub stream : List Bytes → Option Bytes → List Seen
stream [] none = rows_then_end []
stream [] (some bytes) = rows_then_end (bytes ∷ [])
stream (bytes ∷ images) synthetic = rows_then_end (bytes ∷ images)

module _ (host : Source) where
  open host use {World, Upstream, get_next}

  abbrev pub seen_of : Left host → Seen
  seen_of l = seen l.returned l.res.code l.res.result_document

  module _ (codec : Codec) (src : Upstream) (blank : RowResult) where
    -- The upstream stage hands out these rows, from one world to another.
    pub data Feeds : List Document → World → World → Type 0 where
      fed : {w : World} → Feeds [] w w
      feed :
          {d : Document} {raw : Bytes} {rows : List Document} {w v : World}
          → is_failure (get_next src blank w).0.0 ≡ none
          → (get_next src blank w).0.1.code ≡ k_advanced
          → Carries raw (get_next src blank w).0.1.result_document
          → codec.from_reader raw ≡ ok d
          → Feeds rows (get_next src blank w).1 v
          → Feeds (d ∷ rows) w v

    -- The upstream stage is at its end.
    abbrev pub IsAtEnd : World → Type 0
    IsAtEnd w =
        (is_failure (get_next src blank w).0.0 ≡ none) × ((get_next src blank w).0.1.code ≡ k_eof)

    module _ (globals : MapStageGlobals) where
      -- The hook maps these rows, under the arguments, to documents with these bytes.
      pub data HasImages (args : Bytes) : List Document → List Bytes → Type 0 where
        no_images : HasImages args [] []
        image :
            {d : Document} {bytes : Bytes} {rows : List Document} {images : List Bytes}
            → Maps globals codec args d bytes
            → HasImages args rows images
            → HasImages args (d ∷ rows) (bytes ∷ images)

      call-image :
          (this : ExecObj host) (h : Heap) (w : World) (d : Document) (raw bytes : Bytes)
          → this.source ≡ some src
          → is_failure (get_next src blank w).0.0 ≡ none
          → (get_next src blank w).0.1.code ≡ k_advanced
          → Carries raw (get_next src blank w).0.1.result_document
          → codec.from_reader raw ≡ ok d
          → Maps globals codec this.args d bytes
          → exec_get_next host globals codec blank this h w
            ≡ deliver host
                (record (get_next src blank w).0.1 { result_document = empty_byte_container })
                (record this { saw_upstream_advanced = true })
                (release_byte_container (get_next src blank w).0.1.result_document h)
                (get_next src blank w).1
                (some (ok bytes))
      call-image this h w d raw bytes e good code has doc out =
          let ((st, r), w') = get_next src blank w in
          call-answered host globals codec src blank this h w e
          ∙ (ap (λ o. answered host globals codec o r this h w') good
              ∙ (ap (λ k. on_code host globals codec k r this h w') code
                  ∙ ap
                      (λ o.
                        deliver host (record r { result_document = empty_byte_container })
                          (record this { saw_upstream_advanced = true })
                          (release_byte_container r.result_document h) w' o)
                      (ap (λ x. mapped_row globals codec this.args x)
                          (document-Carries codec raw has doc)
                        ∙ mapped_row-Maps globals codec this.args d out)))

      call-end :
          (this : ExecObj host) (h : Heap) (w : World)
          → this.source ≡ some src
          → IsAtEnd w
          → (this.saw_upstream_advanced || this.emitted_eof_synthetic) ≡ true
          → exec_get_next host globals codec blank this h w
            ≡ left host status_ok (get_next src blank w).0.1 this h (get_next src blank w).1
      call-end this h w e (good, code) over =
          let ((st, r), w') = get_next src blank w in
          call-answered host globals codec src blank this h w e
          ∙ (ap (λ o. answered host globals codec o r this h w') good
              ∙ (ap (λ k. on_code host globals codec k r this h w') code
                  ∙ ap
                      (λ b.
                        if b
                        then left host status_ok r this h w'
                        else at_end host globals codec r this h w' globals.on_eof_no_rows)
                      over))

      run-images :
          {rows : List Document} {images : List Bytes} {w v : World} (this : ExecObj host)
          (h : Heap)
          → Feeds rows w v
          → HasImages this.args rows images
          → IsAtEnd v
          → this.source ≡ some src
          → (this.saw_upstream_advanced || this.emitted_eof_synthetic) ≡ true
          → map seen_of (run host globals codec (length (rows_then_end images)) blank this h w)
            ≡ rows_then_end images
      unfolding run rows_then_end
      run-images {w} this h fed no_images (good, code) e over =
          rw (call-end this h w e (good, code) over, code) refl
      run-images {w} this h (feed {d} {raw} {rows} good code has doc more) (image {bytes} out rest)
            ends e over =
          let on = record this { saw_upstream_advanced = true } in
          let ((st, r), w') = get_next src blank w in
          rw (call-image this h w d raw bytes e good code has doc out, code)
            (ap (λ s. row (ok bytes) ∷ s) (run-images on _ more rest ends e refl))

      call-empty :
          (this : ExecObj host) (h : Heap) (w : World)
          → this.source ≡ some src
          → IsAtEnd w
          → this.saw_upstream_advanced ≡ false
          → this.emitted_eof_synthetic ≡ false
          → exec_get_next host globals codec blank this h w
            ≡ at_end host globals codec
                (get_next src blank w).0.1
                this
                h
                (get_next src blank w).1
                globals.on_eof_no_rows
      call-empty this h w e (good, code) saw made =
          let ((st, r), w') = get_next src blank w in
          call-answered host globals codec src blank this h w e
          ∙ (ap (λ o. answered host globals codec o r this h w') good
              ∙ (ap (λ k. on_code host globals codec k r this h w') code
                  ∙ (ap
                        (λ b.
                          if b || this.emitted_eof_synthetic
                          then left host status_ok r this h w'
                          else at_end host globals codec r this h w' globals.on_eof_no_rows)
                        saw
                      ∙ ap
                          (λ b.
                            if b
                            then left host status_ok r this h w'
                            else at_end host globals codec r this h w' globals.on_eof_no_rows)
                          made)))

      abbrev fresh : Bytes → ExecObj host
      fresh args = exec_set_source host src (exec_alloc host args)

      after_first :
          (n : ℕ) (this : ExecObj host) (h : Heap) (w : World) {l : Left host}
          → exec_get_next host globals codec blank this h w ≡ l
          → map seen_of (run host globals codec (suc n) blank this h w)
            ≡ seen_of l ∷ map seen_of (run host globals codec n blank l.this l.heap l.world)
      unfolding run
      after_first n this h w e =
          ap (λ l. seen_of l ∷ map seen_of (run host globals codec n blank l.this l.heap l.world)) e

      run-empty :
          (hook : Option (Document → Boundary Document)) {synthetic : Option Bytes} (args : Bytes)
          (h : Heap) (w : World)
          → globals.on_eof_no_rows ≡ hook
          → MakesUp globals codec args hook synthetic
          → IsAtEnd w
          → IsAtEnd (get_next src blank w).1
          → map seen_of
              (run host globals codec (length (stream [] synthetic)) blank (fresh args) h w)
            ≡ stream [] synthetic
      unfolding run stream rows_then_end exec_alloc exec_set_source
      run-empty none args h w hooked no_hook (good, code) again =
          let ((st, r), w') = get_next src blank w in
          after_first 0 (fresh args) h w (
            call-empty (fresh args) h w refl (good, code) refl refl
            ∙ ap (λ f. at_end host globals codec r (fresh args) h w' f) hooked)
          ∙ ap (λ k. seen status_ok k r.result_document ∷ []) code
      run-empty (some on_eof) args h w hooked (made_up {bytes} read hook write) ends again =
          let ((st, r), w') = get_next src blank w in
          after_first 1 (fresh args) h w (
            call-empty (fresh args) h w refl ends refl refl
            ∙ (ap (λ f. at_end host globals codec r (fresh args) h w' f) hooked
                ∙ ap (λ o. deliver_synthetic host r (fresh args) h w' o)
                    (synthetic_row-made globals codec args on_eof read hook write)))
          ∙ ap (λ s. row (ok bytes) ∷ s)
              (run-images (record (fresh args) { emitted_eof_synthetic = true }) _ fed no_images
                again refl refl)

      -- A stage over an upstream stage that hands out some rows and then stays at its end: as many
      -- calls as the stream is long give the images of the rows, in their order, and the end. Where
      -- there was no row, the row that the hook makes up, if there is a hook, comes before the end.
      -- The image of a row is what the hook gives for it and the decoded arguments, written as bytes;
      -- the arguments and the rows decode, the hooks succeed, and their documents are written.
      pub run-stream :
          (hook : Option (Document → Boundary Document)) {synthetic : Option Bytes} (args : Bytes)
          {rows : List Document} {images : List Bytes} {w v : World} (h : Heap)
          → globals.on_eof_no_rows ≡ hook
          → MakesUp globals codec args hook synthetic
          → Feeds rows w v
          → HasImages args rows images
          → IsAtEnd v
          → IsAtEnd (get_next src blank v).1
          → map seen_of
              (run host globals codec (length (stream images synthetic)) blank (fresh args) h w)
            ≡ stream images synthetic
      unfolding run stream rows_then_end exec_alloc exec_set_source
      run-stream hook args {w} h hooked makes fed no_images ends again =
          run-empty hook args h w hooked makes ends again
      run-stream hook args {w} h hooked makes (feed {d} {raw} good code has doc more)
            (image {bytes} {images} out rest) ends again =
          let on = record (fresh args) { saw_upstream_advanced = true } in
          let ((st, r), w') = get_next src blank w in
          let (image_of, h') = from_bytes bytes (release_byte_container r.result_document h) in
          let n = length (rows_then_end images) in
          after_first n (fresh args) h w
            (call-image (fresh args) h w d raw bytes refl good code has doc out)
          ∙ (ap
                (λ k.
                  seen status_ok k image_of ∷ map seen_of (run host globals codec n blank on h' w'))
                code
              ∙ ap (λ s. row (ok bytes) ∷ s) (run-images on h' more rest ends refl refl))
