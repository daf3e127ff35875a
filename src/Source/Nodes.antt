-- ===== src/Source/Nodes.antt =====
-- extension-sdk-mongodb/src/source_stage.rs and expansion.rs: from the stage document of a pipeline
-- to the parse node, and from the parse node to the nodes of its expansion.
pub mod Blobs
use rust_sdk_mongodb_extensi.Prelude.{
  ℕ, String, Bool, true, false, not, ◌&&◌, ◌||◌, if◌then◌else◌, Option, none, some, List, [], ◌∷◌,
  map,
}
use rust_sdk_mongodb_extensi.Prelude.Text.{◌=ₛ◌}
use rust_sdk_mongodb_extensi.Errors.{
  Message, text, ExtensionError, bad_value, failed_to_parse, runtime, ExtensionResult, Result, ok,
  err, ◌>>=◌, ◌>>◌, ensure, map_err,
}
use rust_sdk_mongodb_extensi.Bson.{Bson, document, Document, end, field}
use rust_sdk_mongodb_extensi.Source.Ops.{Caught, Bytes, Codec}

-- expansion.rs
pub data Expansion : Type 0 where
  self_stage : Expansion
  pipeline : List Document → Expansion
  with_host_id_lookup : (extension_stage id_lookup : Document) → Expansion

unfoldable pub stage_documents : Expansion → List Document
stage_documents self_stage = []
stage_documents (pipeline stages) = stages
stage_documents (with_host_id_lookup extension_stage id_lookup) = extension_stage ∷ id_lookup ∷ []

abbrev pub is_empty_document : Document → Bool
is_empty_document end = true
is_empty_document (field k v d) = false

-- The name of the stage, whether its arguments must be empty, and its hook `expand_inner`.
pub record StageSpec : Type 0 where
  pub name : String
  pub expect_empty : Bool
  pub expand_inner : Document → Caught Expansion

-- An AST node: one of this stage, by its arguments, or the host's node of an id lookup.
pub data Ast : Type 0 where
  ast_alloc : Bytes → Ast
  id_lookup_ast : ℕ → Ast

-- ffi_boundary and the match on its result.
abbrev pub caught {ℓ} : {A : Type ℓ} → Message → Caught A → ExtensionResult A
caught message none = err (runtime message)
caught message (some r) = r

module _ (codec : Codec) where
  -- Document::get_document of an entry.
  abbrev pub inner_document : Bson → ExtensionResult Document
  inner_document (document d) = ok d
  inner_document v = err (bad_value (codec.access_error v))

  abbrev pub write : Document → ExtensionResult Bytes
  write d = map_err failed_to_parse (codec.to_writer d)

  abbrev pub read : Bytes → ExtensionResult Document
  read bytes = map_err failed_to_parse (codec.from_reader bytes)

  -- One round of the loop over the pipeline.
  unfoldable pub stage_arg_blob : String → Document → ExtensionResult Bytes
  stage_arg_blob stage_name end = err (bad_value (text "empty stage document" ∷ []))
  stage_arg_blob stage_name (field k v (field k' v' d)) =
      err (bad_value (text "stage document must have exactly one field" ∷ []))
  stage_arg_blob stage_name (field k v end) = do
    ensure (k =ₛ stage_name) (
        bad_value (
          text "expanded pipeline stages must use operator "
          ∷ text stage_name
          ∷ text ", got "
          ∷ text k
          ∷ []))
    inner ← inner_document v
    write inner

  unfoldable pub stage_arg_blobs : String → List Document → ExtensionResult (List Bytes)
  unfolding stage_arg_blob
  stage_arg_blobs stage_name [] = ok []
  stage_arg_blobs stage_name (d ∷ rest) = do
    w ← stage_arg_blob stage_name d
    out ← stage_arg_blobs stage_name rest
    ok (w ∷ out)

  unfoldable pub pipeline_stage_arg_blobs : String → List Document → ExtensionResult (List Bytes)
  unfolding stage_arg_blobs
  pipeline_stage_arg_blobs stage_name [] =
      err (bad_value (text "expanded pipeline must not be empty" ∷ []))
  pipeline_stage_arg_blobs stage_name (d ∷ rest) = stage_arg_blobs stage_name (d ∷ rest)

  -- The arguments of a parse node, for a stage document; only its first entry is read.
  abbrev pub parse_first : StageSpec → Document → ExtensionResult Bytes
  parse_first spec end = err (bad_value (text "stage document must have one field" ∷ []))
  parse_first spec (field key value rest) = do
    ensure (key =ₛ spec.name)
        (bad_value (text "expected stage " ∷ text spec.name ∷ text ", got " ∷ text key ∷ []))
    args ← inner_document value
    ensure (not (spec.expect_empty && not (is_empty_document args)))
        (bad_value (text "stage definition must be an empty object" ∷ []))
    write args

  unfoldable pub desc_parse : StageSpec → Bytes → ExtensionResult Bytes
  desc_parse spec stage_bson = do
    doc ← map_err (λ e. failed_to_parse (text "parse bson: " ∷ e)) (codec.from_reader stage_bson)
    parse_first spec doc

  -- The shape of the query, and the stage in the log: the arguments under the name.
  unfoldable pub parse_get_query_shape : StageSpec → Bytes → ExtensionResult Bytes
  parse_get_query_shape spec args_bytes = do
    args ← read args_bytes
    write (field spec.name (document args) end)

  abbrev first_blob : List Bytes → ExtensionResult Bytes
  first_blob [] = err (bad_value (text "missing extension stage" ∷ []))
  first_blob (b ∷ blobs) = ok b

  abbrev expand_to :
      StageSpec → Bytes → (Document → ExtensionResult ℕ) → Expansion → ExtensionResult (List Ast)
  expand_to spec args create_id_lookup_ast self_stage = ok (ast_alloc args ∷ [])
  expand_to spec args create_id_lookup_ast (pipeline docs) = do
    blobs ← pipeline_stage_arg_blobs spec.name docs
    ok (map ast_alloc blobs)
  expand_to spec args create_id_lookup_ast (with_host_id_lookup extension_stage id_lookup) = do
    blobs ← pipeline_stage_arg_blobs spec.name (extension_stage ∷ [])
    blob ← first_blob blobs
    node ← create_id_lookup_ast id_lookup
    ok (ast_alloc blob ∷ id_lookup_ast node ∷ [])

  -- The nodes of the container that `expand` returns. `create_id_lookup_ast` is the host's.
  unfoldable pub parse_expand :
      StageSpec → (Document → ExtensionResult ℕ) → Bytes → ExtensionResult (List Ast)
  unfolding pipeline_stage_arg_blobs
  parse_expand spec create_id_lookup_ast args_bytes = do
    args ← read args_bytes
    expansion ← caught (text "panic during expand" ∷ []) (spec.expand_inner args)
    expand_to spec args_bytes create_id_lookup_ast expansion
