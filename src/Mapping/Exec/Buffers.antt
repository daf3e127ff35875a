-- ===== src/Mapping/Exec/Buffers.antt =====
-- Which buffers an executable stage destroys, and which it hands to the host.
use rust_sdk_mongodb_extensi.Prelude.{
  ℕ, zero, suc, ◌+◌, ◌≡◌, refl, ap, ◌∙◌, if_lem, true, ◌||◌, ◌==◌, if◌then◌else◌, Option, none,
  some, List, [], ◌∷◌, arith,
}
use rust_sdk_mongodb_extensi.Errors.{Message, ok, err}
use rust_sdk_mongodb_extensi.Bson.{Document}
use rust_sdk_mongodb_extensi.Source.Ops.{
  Bytes, Codec, Code, k_advanced, k_eof, k_pause_execution, Status, Returned, status_ok,
  upstream_status,
}
use rust_sdk_mongodb_extensi.Source.Exec.{is_failure}
use rust_sdk_mongodb_extensi.Mapping.Ops.{
  Boundary, ByteContainer, byte_view, null_buf, byte_buf, RowResult, Heap, owned_by, empty_heap,
  empty_byte_container, cleared, release_byte_container, release_owned_metadata,
  document_from_byte_container, MapStageGlobals, Source,
}
use rust_sdk_mongodb_extensi.Mapping.Exec.Upstream.{pull_upstream, call-answered, call-Follows}
use rust_sdk_mongodb_extensi.Mapping.Exec.{
  ExecObj, exec_alloc, exec_set_source, Left, left, failed, deliver, deliver_synthetic, at_end,
  on_code, answered, exec_get_next, run, transform_panic, eof_panic, mapped_row, synthetic_row,
}

-- How often an identity is in a list of them.
abbrev pub count : ℕ → List ℕ → ℕ
count i [] = 0
count i (j ∷ js) = (if i == j then 1 else 0) + count i js

-- How often a result owns a buffer.
abbrev pub holds : ℕ → RowResult → ℕ
holds i res = count i (owned_by res.result_document) + count i (owned_by res.result_metadata)

release-destroyed :
    (i : ℕ) (c : ByteContainer) (h : Heap)
    → (count i (release_byte_container c h).destroyed ≡ count i (owned_by c) + count i h.destroyed)
      × ((release_byte_container c h).made ≡ h.made)
unfolding release_byte_container
release-destroyed i (byte_view bytes) h = (omega arith, refl)
release-destroyed i null_buf h = (omega arith, refl)
release-destroyed i (byte_buf id bytes) h = (omega arith, refl)

cleared-owned_by : (c : ByteContainer) → owned_by (cleared c) ≡ []
cleared-owned_by (byte_view bytes) = refl
cleared-owned_by null_buf = refl
cleared-owned_by (byte_buf id bytes) = refl

module _ (host : Source) (i : ℕ) where
  open host use {World, Upstream, get_next}

  -- A call that began with these buffers and this answer of the upstream stage: whatever was
  -- transferred or allocated has been destroyed or is in the result.
  pub IsSettled : Heap → RowResult → Left host → Type 0
  IsSettled h r l =
      count i l.heap.destroyed + holds i l.res + count i h.made
      ≡ count i h.destroyed + holds i r + count i l.heap.made

  failed-IsSettled :
      (e : Message) (r : RowResult) (this : ExecObj host) (h : Heap) (w : World)
      → IsSettled h r (failed host e r this h w)
  unfolding IsSettled release_owned_metadata
  failed-IsSettled e r this h w =
      let (d, m) = release-destroyed i r.result_metadata h in
      rw (cleared-owned_by r.result_metadata, m) (omega (arith, d))

  deliver-IsSettled :
      (r : RowResult) (this : ExecObj host) (h : Heap) (w : World) (o : Boundary Bytes)
      → owned_by r.result_document ≡ []
      → IsSettled h r (deliver host r this h w o)
  unfolding IsSettled
  deliver-IsSettled r this h w none e = failed-IsSettled transform_panic r this h w
  deliver-IsSettled r this h w (some (err m)) e = failed-IsSettled m r this h w
  deliver-IsSettled r this h w (some (ok bytes)) e = rw e (omega arith)

  deliver_synthetic-IsSettled :
      (r : RowResult) (this : ExecObj host) (h : Heap) (w : World) (o : Boundary Bytes)
      → owned_by r.result_document ≡ []
      → IsSettled h r (deliver_synthetic host r this h w o)
  unfolding IsSettled release_owned_metadata
  deliver_synthetic-IsSettled r this h w none e = failed-IsSettled eof_panic r this h w
  deliver_synthetic-IsSettled r this h w (some (err m)) e = failed-IsSettled m r this h w
  deliver_synthetic-IsSettled r this h w (some (ok bytes)) e =
      let mid = record h { next_id = suc h.next_id; made = h.next_id ∷ h.made } in
      let (d, m) = release-destroyed i r.result_metadata mid in rw (e, m) (omega (arith, d))

  released_first :
      (r : RowResult) (h : Heap) (l : Left host)
      → IsSettled
          (release_byte_container r.result_document h)
          (record r { result_document = empty_byte_container })
          l
      → IsSettled h r l
  unfolding IsSettled
  released_first r h l k =
      let (d, m) = release-destroyed i r.result_document h in
      let k' = rw m at k in omega (arith, k', d)

  untouched :
      (st : Returned) (r : RowResult) (this : ExecObj host) (h : Heap) (w : World)
      → IsSettled h r (left host st r this h w)
  unfolding IsSettled
  untouched st r this h w = refl

  -- The buffers after the calls, and how often a buffer is in what they handed to the host.
  pub heap_after : Heap → List (Left host) → Heap
  heap_after h [] = h
  heap_after h (l ∷ ls) = heap_after l.heap ls

  pub handed_over : List (Left host) → ℕ
  handed_over [] = 0
  handed_over (l ∷ ls) = holds i l.res + handed_over ls

  -- How often a buffer is in what the upstream stage transferred.
  pub transferred : List (Option Status × RowResult) → ℕ
  transferred [] = 0
  transferred (a ∷ more) = holds i a.1 + transferred more

  module _ (globals : MapStageGlobals) (codec : Codec) where
    at_end-IsSettled :
        (r : RowResult) (this : ExecObj host) (h : Heap) (w : World)
        (hook : Option (Document → Boundary Document))
        → owned_by r.result_document ≡ []
        → IsSettled h r (at_end host globals codec r this h w hook)
    at_end-IsSettled r this h w none e = untouched status_ok r this h w
    at_end-IsSettled r this h w (some on_eof) e =
        deliver_synthetic-IsSettled r this h w (synthetic_row globals codec this.args on_eof) e

    on_code-IsSettled :
        (code : Code) (r : RowResult) (this : ExecObj host) (h : Heap) (w : World)
        → (code ≡ k_eof → owned_by r.result_document ≡ [])
        → IsSettled h r (on_code host globals codec code r this h w)
    on_code-IsSettled k_pause_execution r this h w e = untouched status_ok r this h w
    on_code-IsSettled k_eof r this h w e =
        if_lem (IsSettled h r) (this.saw_upstream_advanced || this.emitted_eof_synthetic)
          (untouched status_ok r this h w)
          (at_end-IsSettled r this h w globals.on_eof_no_rows (e refl))
    on_code-IsSettled k_advanced r this h w e = released_first r h _ (
        deliver-IsSettled (record r { result_document = empty_byte_container })
          (record this { saw_upstream_advanced = true })
          (release_byte_container r.result_document h) w
          (mapped_row globals codec this.args
            (document_from_byte_container codec r.result_document))
          refl)

    answered-IsSettled :
        (st : Option Status) (r : RowResult) (this : ExecObj host) (h : Heap) (w : World)
        → (r.code ≡ k_eof → owned_by r.result_document ≡ [])
        → IsSettled h r (answered host globals codec st r this h w)
    answered-IsSettled none r this h w e = on_code-IsSettled r.code r this h w e
    answered-IsSettled (some bad) r this h w e = untouched (upstream_status bad) r this h w

    call-IsSettled :
        (src : Upstream) (blank : RowResult) (this : ExecObj host) (h : Heap) (w : World)
        → this.source ≡ some src
        → ((get_next src blank w).0.1.code ≡ k_eof
            → owned_by (get_next src blank w).0.1.result_document ≡ [])
        → IsSettled h (get_next src blank w).0.1 (exec_get_next host globals codec blank this h w)
    call-IsSettled src blank this h w e bare =
        rw (call-answered host globals codec src blank this h w e) (
          answered-IsSettled (is_failure (get_next src blank w).0.0) (get_next src blank w).0.1 this
            h (get_next src blank w).1 bare)

    run-balance :
        (src : Upstream) (blank : RowResult)
        (bare : (w : World)
          → (get_next src blank w).0.1.code ≡ k_eof
          → owned_by (get_next src blank w).0.1.result_document ≡ [])
        (n : ℕ) (this : ExecObj host) (h : Heap) (w : World)
        → this.source ≡ some src
        → (let ls = run host globals codec n blank this h w in
            count i (heap_after h ls).destroyed + handed_over ls + count i h.made
            ≡ count i h.destroyed
              + transferred (pull_upstream host n src blank w)
              + count i (heap_after h ls).made)
    unfolding run pull_upstream heap_after handed_over transferred IsSettled
    run-balance src blank bare zero this h w e = omega arith
    run-balance src blank bare (suc n) this h w e =
        let l = exec_get_next host globals codec blank this h w in
        let (same, kept, args) = call-Follows host globals codec src blank this h w e in
        let rest = run-balance src blank bare n l.this l.heap l.world (kept ∙ e) in
        let moved = ap (λ v. transferred (pull_upstream host n src blank v)) same in
        let one = call-IsSettled src blank this h w e (bare w) in omega (arith, one, rest, moved)

    -- Over the calls of a stage that is attached to an upstream stage whose ends carry no document
    -- buffer, each buffer that the upstream stage transferred or the stage allocated is destroyed
    -- once or handed to the host once, as often as it was transferred or allocated, also where a row
    -- is malformed and where a hook fails or panics.
    pub run-disposes :
        (args : Bytes) (src : Upstream) (blank : RowResult)
        (bare : (w : World)
          → (get_next src blank w).0.1.code ≡ k_eof
          → owned_by (get_next src blank w).0.1.result_document ≡ [])
        (n : ℕ) (w : World)
        → (let ls =
              run host globals codec n blank
                (exec_set_source host src (exec_alloc host args))
                empty_heap
                w in
            count i (heap_after empty_heap ls).destroyed + handed_over ls
            ≡ transferred (pull_upstream host n src blank w)
              + count i (heap_after empty_heap ls).made)
    unfolding exec_alloc exec_set_source
    run-disposes args src blank bare n w =
        let start = exec_set_source host src (exec_alloc host args) in
        omega (arith, run-balance src blank bare n start empty_heap w refl)
