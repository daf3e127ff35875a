-- ===== src/Source/Nodes/Blobs.antt =====
-- What the parse node of a stage and the nodes of its expansion hold.
use mathlib.Core.Path.{subst}
use rust_sdk_mongodb_extensi.Prelude.{String, ◌≡◌, ◌≢◌, refl, ap, not, ◌&&◌, List, [], ◌∷◌}
use rust_sdk_mongodb_extensi.Prelude.Text.{◌=ₛ◌, =ₛ→eq}
use rust_sdk_mongodb_extensi.Errors.{
  failed_to_parse, Result, ok, err, ensure, map_err, ok-injective, ensure-eq-ok, >>=-eq-ok,
}
use rust_sdk_mongodb_extensi.Bson.{Bson, document, Document, end, field}
use rust_sdk_mongodb_extensi.Source.Ops.{Bytes, Codec}
use rust_sdk_mongodb_extensi.Source.Nodes.{
  StageSpec, is_empty_document, write, inner_document, stage_arg_blob, stage_arg_blobs,
  pipeline_stage_arg_blobs, parse_first, desc_parse, parse_get_query_shape,
}

-- What is written is read back.
abbrev pub IsFaithful : Codec → Type 0
IsFaithful codec =
    (d : Document) (bytes : Bytes) → codec.to_writer d ≡ ok bytes → codec.from_reader bytes ≡ ok d

-- The arguments of stage documents that all name the stage.
pub data AreArguments (codec : Codec) (name : String) : List Document → List Bytes → Type 0 where
  no_more : AreArguments codec name [] []
  argument :
      {inner : Document} {blob : Bytes} {docs : List Document} {blobs : List Bytes}
      → codec.from_reader blob ≡ ok inner
      → AreArguments codec name docs blobs
      → AreArguments codec name (field name (document inner) end ∷ docs) (blob ∷ blobs)

module _ (codec : Codec) where
  map_err-eq :
      {A : Type 0} {E D : Type 0} (f : E → D) (r : Result E A) {a : A}
      → map_err f r ≡ ok a
      → r ≡ ok a
  map_err-eq f (ok a) h = ap ok (ok-injective h)
  map_err-eq f (err e) h = cc

  inner_document-eq : (v : Bson) (d : Document) → inner_document codec v ≡ ok d → v ≡ document d
  inner_document-eq (document d') d h = ap document (ok-injective h)
  inner_document-eq _ d h = cc

  module _ (faithful : IsFaithful codec) where
    written_back : (d : Document) (b : Bytes) → write codec d ≡ ok b → codec.from_reader b ≡ ok d
    written_back d b h = faithful d b (map_err-eq failed_to_parse (codec.to_writer d) h)

    stage_arg_blobs-AreArguments :
        (name : String) (docs : List Document) (blobs : List Bytes)
        → stage_arg_blobs codec name docs ≡ ok blobs
        → AreArguments codec name docs blobs
    unfolding stage_arg_blobs stage_arg_blob
    stage_arg_blobs-AreArguments name [] blobs h =
        subst (AreArguments codec name []) (ok-injective h) no_more
    stage_arg_blobs-AreArguments name (end ∷ docs) blobs h = cc
    stage_arg_blobs-AreArguments name (field k v (field k' v' d) ∷ docs) blobs h = cc
    stage_arg_blobs-AreArguments name (field k v end ∷ docs) blobs h =
        let (b, e, h1) = >>=-eq-ok (stage_arg_blob codec name (field k v end)) _ h in
        let (bs, es, h2) = >>=-eq-ok (stage_arg_blobs codec name docs) _ h1 in
        let (u, e1, g1) = >>=-eq-ok (ensure (k =ₛ name) _) _ e in
        let (inner, e2, g2) = >>=-eq-ok (inner_document codec v) _ g1 in
        let same = =ₛ→eq k name (ensure-eq-ok (k =ₛ name) _ e1) in
        let is_doc = inner_document-eq v inner e2 in
        rw (same, is_doc)
          (subst (λ l. AreArguments codec name (field name (document inner) end ∷ docs) l)
            (ok-injective h2)
            (argument (written_back inner b g2) (stage_arg_blobs-AreArguments name docs bs es)))

    -- With a codec that reads back what it writes, an expansion to a pipeline is accepted only if every
    -- document of it has the name of the stage as its one key, and then the nodes hold the arguments
    -- of these documents, in their order.
    pub pipeline_stage_arg_blobs-AreArguments :
        (name : String) (docs : List Document) {blobs : List Bytes}
        → pipeline_stage_arg_blobs codec name docs ≡ ok blobs
        → (docs ≢ []) × AreArguments codec name docs blobs
    unfolding pipeline_stage_arg_blobs
    pipeline_stage_arg_blobs-AreArguments name [] h = cc
    pipeline_stage_arg_blobs-AreArguments name (d ∷ docs) {blobs} h =
        (λ e. cc, stage_arg_blobs-AreArguments name (d ∷ docs) blobs h)

    -- With a codec that reads back what it writes, a stage document is parsed only if its first entry
    -- has the name of the stage and a document as its value; the query shape of the parse node is then
    -- that entry alone.
    pub desc_parse-shape :
        (spec : StageSpec) (stage_bson : Bytes) {blob : Bytes}
        → desc_parse codec spec stage_bson ≡ ok blob
        → (args : Document) × (rest : Document) × (codec.from_reader stage_bson
            ≡ ok (field spec.name (document args) rest))
          × (parse_get_query_shape codec spec blob
              ≡ write codec (field spec.name (document args) end))
    unfolding desc_parse parse_get_query_shape
    desc_parse-shape spec stage_bson {blob} h =
        let (doc, e, h1) = >>=-eq-ok (map_err _ (codec.from_reader stage_bson)) _ h in
        first_entry doc (map_err-eq _ (codec.from_reader stage_bson) e) h1
      where
        first_entry :
            (doc : Document)
            → codec.from_reader stage_bson ≡ ok doc
            → parse_first codec spec doc ≡ ok blob
            → (args : Document) × (rest : Document) × (codec.from_reader stage_bson
                ≡ ok (field spec.name (document args) rest))
              × (parse_get_query_shape codec spec blob
                  ≡ write codec (field spec.name (document args) end))
        first_entry end e g = cc
        first_entry (field k v rest) e g =
            let (u, e1, g1) = >>=-eq-ok (ensure (k =ₛ spec.name) _) _ g in
            let (args, e2, g2) = >>=-eq-ok (inner_document codec v) _ g1 in
            let (u', e3, g3) =
              >>=-eq-ok (ensure (not (spec.expect_empty && not (is_empty_document args))) _) _ g2 in
            let same = =ₛ→eq k spec.name (ensure-eq-ok (k =ₛ spec.name) _ e1) in
            let is_doc = inner_document-eq v args e2 in
            let back : codec.from_reader blob ≡ ok args = written_back args blob g3 in
            (args, rest, rw (same, is_doc) at e, rw back refl)
