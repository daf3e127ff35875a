-- ===== src/Mapping/Nodes/Compiled.antt =====
-- What a stage document becomes, from its parse to the executable stage and back to a document.
use rust_sdk_mongodb_extensi.Prelude.{◌≡◌, ap, Bool, true, false, not, ◌&&◌, none, [], ◌∷◌}
use rust_sdk_mongodb_extensi.Prelude.Text.{◌=ₛ◌, =ₛ-refl}
use rust_sdk_mongodb_extensi.Errors.{text, ok, ◌>>=◌, ensure, map_err, >>=-eq-ok, ensure-eq-ok}
use rust_sdk_mongodb_extensi.Bson.{document, Document, end, field}
use rust_sdk_mongodb_extensi.Source.Ops.{Bytes, Codec}
use rust_sdk_mongodb_extensi.Source.Nodes.{is_empty_document}
use rust_sdk_mongodb_extensi.Mapping.Ops.{MapStageGlobals}
use rust_sdk_mongodb_extensi.Mapping.Nodes.{
  inner, first_args, desc_parse, parse_get_query_shape, parse_to_bson_for_log, log_serialize,
  parse_expand, expand_with,
}

module _ (globals : MapStageGlobals) (codec : Codec) where
  open globals use {name, expect_empty, expand_from_args_doc, transform}

  -- The test on the arguments of a stage that has none.
  abbrev allowed : Document → Bool
  allowed args = not (expect_empty && not (is_empty_document args))

  first_args-eq-ok :
      (doc : Document) {args : Bytes}
      → first_args globals codec doc ≡ ok args
      → (a : Document) × (allowed a ≡ true) × (codec.to_writer a ≡ ok args)
  unfolding first_args
  first_args-eq-ok end h = cc
  first_args-eq-ok (field key value rest) h =
      let (u, e, h1) = >>=-eq-ok (ensure (key =ₛ name) _) _ h in
      let (a, e1, h2) = >>=-eq-ok (inner globals codec value) _ h1 in
      let (u2, e2, h3) = >>=-eq-ok (ensure (allowed a) _) _ h2 in
      (a, ensure-eq-ok (allowed a) _ e2, h3)

  first_args-field :
      (a rest : Document) {args : Bytes}
      → allowed a ≡ true
      → codec.to_writer a ≡ ok args
      → first_args globals codec (field name (document a) rest) ≡ ok args
  unfolding first_args
  first_args-field a rest fine w = rw (=ₛ-refl name, fine) w

  module _
      (reads_back : (d : Document) (b : Bytes)
        → codec.to_writer d ≡ ok b
        → codec.from_reader b ≡ ok d) where
    parsed_again :
        (a : Document) {args out : Bytes}
        → allowed a ≡ true
        → codec.to_writer a ≡ ok args
        → codec.to_writer (field name (document a) end) ≡ ok out
        → desc_parse globals codec out ≡ ok args
    unfolding desc_parse
    parsed_again a {out} fine w o =
        rw (reads_back (field name (document a) end) out o) (first_args-field a end fine w)

    -- The document of a stage that was parsed, as the logical stage is sent on, as the shape of the
    -- query gives it and as it is logged, is parsed to the same arguments. The codec reads back what
    -- it writes.
    pub desc_parse-log_serialize :
        (stage_bson : Bytes) {args out : Bytes}
        → desc_parse globals codec stage_bson ≡ ok args
        → log_serialize globals codec args ≡ ok out
        → (desc_parse globals codec out ≡ ok args)
          × (parse_get_query_shape globals codec args ≡ ok out)
          × (parse_to_bson_for_log globals codec args ≡ ok out)
    unfolding desc_parse log_serialize parse_get_query_shape parse_to_bson_for_log
    desc_parse-log_serialize stage_bson {args} {out} p s =
        let (doc, e, h) =
          >>=-eq-ok (map_err (λ e. text "parse bson: " ∷ e) (codec.from_reader stage_bson)) _ p in
        let (a, fine, w) = first_args-eq-ok doc h in
        let back = reads_back a args w in
        let o = rw back at s in (parsed_again a fine w o, rw back o, rw back o)

    pub desc_parse-parse_expand :
        (stage_bson : Bytes) (a rest : Document) {args : Bytes}
        → expand_from_args_doc ≡ none
        → codec.from_reader stage_bson ≡ ok (field name (document a) rest)
        → (expect_empty && not (is_empty_document a)) ≡ false
        → codec.to_writer a ≡ ok args
        → (desc_parse globals codec stage_bson >>= λ p. parse_expand globals codec p)
          ≡ ok (args ∷ [])
    unfolding desc_parse parse_expand
    desc_parse-parse_expand stage_bson a rest {args} plain e fine w =
        let back = reads_back a args w in
        rw (e, first_args-field a rest (ap not fine) w, back)
          (ap (λ f. expand_with globals codec f args a) plain)
