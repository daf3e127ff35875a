-- ===== src/Mapping/Nodes.antt =====
-- extension-sdk-mongodb/src/map_transform.rs: the descriptor, the parse node, the nodes of its
-- expansion and the logical stage. A node is its argument bytes.
pub mod Compiled
use rust_sdk_mongodb_extensi.Prelude.{
  String, Bool, true, false, not, ◌&&◌, Option, none, some, List, [], ◌∷◌, map,
}
use rust_sdk_mongodb_extensi.Prelude.Text.{◌=ₛ◌}
use rust_sdk_mongodb_extensi.Errors.{
  Message, text, display, Result, ok, err, ◌>>=◌, ◌>>◌, ensure, map_err,
}
use rust_sdk_mongodb_extensi.Bson.{Bson, document, Document, end, field}
use rust_sdk_mongodb_extensi.Source.Ops.{Bytes, Codec}
use rust_sdk_mongodb_extensi.Source.Nodes.{
  Expansion, self_stage, pipeline, with_host_id_lookup, is_empty_document, pipeline_stage_arg_blobs,
}
use rust_sdk_mongodb_extensi.Mapping.Ops.{Boundary, MapStageGlobals, Source}
use rust_sdk_mongodb_extensi.Mapping.Exec.{ExecObj, exec_alloc}

module _ (globals : MapStageGlobals) (codec : Codec) where
  open globals use {name, expect_empty, expand_from_args_doc}

  -- Document::get_document of an entry.
  abbrev pub inner : Bson → Result Message Document
  inner (document d) = ok d
  inner v = err (codec.access_error v)

  -- The arguments of the first entry of a stage document; its other entries are not read.
  unfoldable pub first_args : Document → Result Message Bytes
  first_args end = err (text "stage document must have one field" ∷ [])
  first_args (field key value rest) = do
    ensure (key =ₛ name) (text "expected stage " ∷ text name ∷ text ", got " ∷ text key ∷ [])
    args ← inner value
    ensure (not (expect_empty && not (is_empty_document args)))
        (text "stage definition must be an empty object" ∷ [])
    codec.to_writer args

  unfoldable pub desc_parse : Bytes → Result Message Bytes
  unfolding first_args
  desc_parse stage_bson = do
    doc ← map_err (λ e. text "parse bson: " ∷ e) (codec.from_reader stage_bson)
    first_args doc

  unfoldable pub parse_get_query_shape : Bytes → Result Message Bytes
  parse_get_query_shape args_bytes = do
    args ← codec.from_reader args_bytes
    codec.to_writer (field name (document args) end)

  unfoldable pub parse_to_bson_for_log : Bytes → Result Message Bytes
  parse_to_bson_for_log args_bytes = do
    args ← map_err (λ e. text "log bson" ∷ []) (codec.from_reader args_bytes)
    codec.to_writer (field name (document args) end)

  unfoldable pub log_serialize : Bytes → Result Message Bytes
  log_serialize args_bytes = do
    args ← map_err (λ e. text "serialize" ∷ []) (codec.from_reader args_bytes)
    codec.to_writer (field name (document args) end)

  unfoldable pub ast_get_properties : Result Message Bytes
  ast_get_properties = codec.to_writer globals.static_properties_doc

  abbrev pub expanded : Bytes → Expansion → Result Message (List Bytes)
  expanded args_bytes self_stage = ok (args_bytes ∷ [])
  expanded args_bytes (pipeline docs) = map_err display (pipeline_stage_arg_blobs codec name docs)
  expanded args_bytes (with_host_id_lookup extension_stage id_lookup) =
      err (text "WithHostIdLookup expansion is only supported by source stages" ∷ [])

  abbrev pub unwound : Boundary Expansion → Result Message Expansion
  unwound none = err (text "panic during expand" ∷ [])
  unwound (some r) = r

  abbrev pub expand_with :
      Option (Document → Boundary Expansion) → Bytes → Document → Result Message (List Bytes)
  expand_with none args_bytes args_doc = ok (args_bytes ∷ [])
  expand_with (some expand_fn) args_bytes args_doc = do
    expansion ← unwound (expand_fn args_doc)
    expanded args_bytes expansion

  -- The AST nodes of the container.
  unfoldable pub parse_expand : Bytes → Result Message (List Bytes)
  parse_expand args_bytes = do
    args_doc ← codec.from_reader args_bytes
    expand_with expand_from_args_doc args_bytes args_doc

-- The logical stage of an AST node, and the executable stage of a logical one.
abbrev pub ast_bind : Bytes → Bytes
ast_bind args = args

unfoldable pub log_compile : (host : Source) → Bytes → ExecObj host
unfolding exec_alloc
log_compile host args = exec_alloc host args
