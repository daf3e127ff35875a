-- ===== src/Passthrough.antt =====
-- extension-sdk-mongodb/src/passthrough.rs: a stage that hands on what its upstream stage answers. Its
-- nodes are, word for word, those of map_transform.rs, which read these globals only.
use rust_sdk_mongodb_extensi.Prelude.{
  ℕ, zero, suc, ◌≡◌, refl, ap, Bool, Option, none, some, List, [], ◌∷◌, String, not, ◌&&◌, false,
}
use rust_sdk_mongodb_extensi.Prelude.Int.{pos}
use rust_sdk_mongodb_extensi.Errors.{Message, Result, ok, ◌>>=◌}
use rust_sdk_mongodb_extensi.Bson.{document, Document, field}
use rust_sdk_mongodb_extensi.Source.Ops.{Bytes, Codec, Status}
use rust_sdk_mongodb_extensi.Source.Nodes.{Expansion, is_empty_document}
use rust_sdk_mongodb_extensi.Mapping.Ops.{Boundary, RowResult, MapStageGlobals, Source}
use rust_sdk_mongodb_extensi.Mapping.Exec.{set_eof_empty}
use rust_sdk_mongodb_extensi.Mapping.Exec.Upstream.{pull_upstream}
use rust_sdk_mongodb_extensi.Mapping.Nodes
use rust_sdk_mongodb_extensi.Mapping.Nodes.Compiled.{desc_parse-parse_expand}

pub record StageGlobals : Type 0 where
  pub name : String
  pub expect_empty : Bool
  pub static_properties_doc : Document
  pub expand_from_args_doc : Option (Document → Boundary Expansion)

-- The fields that the nodes read; the others are of no use to them.
abbrev pub node_globals : StageGlobals → MapStageGlobals
node_globals globals = record {
  name = globals.name;
  expect_empty = globals.expect_empty;
  transform = λ row args. some (ok row);
  on_eof_no_rows = none;
  static_properties_doc = globals.static_properties_doc;
  expand_from_args_doc = globals.expand_from_args_doc;
}

module _ (globals : StageGlobals) (codec : Codec) where
  unfoldable pub desc_parse : Bytes → Result Message Bytes
  desc_parse stage_bson = Nodes.desc_parse (node_globals globals) codec stage_bson

  unfoldable pub parse_expand : Bytes → Result Message (List Bytes)
  parse_expand args_bytes = Nodes.parse_expand (node_globals globals) codec args_bytes

  unfoldable pub parse_get_query_shape : Bytes → Result Message Bytes
  parse_get_query_shape args_bytes =
      Nodes.parse_get_query_shape (node_globals globals) codec args_bytes

  unfoldable pub log_serialize : Bytes → Result Message Bytes
  log_serialize args_bytes = Nodes.log_serialize (node_globals globals) codec args_bytes

-- status::status_ok
abbrev pub status_ok : Status
status_ok = record { get_code = pos 0 }

module _ (host : Source) where
  open host use {World, Upstream, get_next}

  pub record ExecObj : Type 0 where
    pub args : Bytes
    pub source : Option Upstream

  unfoldable pub exec_alloc : Bytes → ExecObj
  exec_alloc args = record { args = args; source = none }

  unfoldable pub log_compile : Bytes → ExecObj
  unfolding exec_alloc
  log_compile args = exec_alloc args

  unfoldable pub exec_set_source : Upstream → ExecObj → ExecObj
  exec_set_source src this = record this { source = some src }

  abbrev pub pull : Option Upstream → RowResult → World → (Option Status × RowResult) × World
  pull none res w = ((some status_ok, set_eof_empty host), w)
  pull (some src) res w = get_next src res w

  unfoldable pub exec_get_next : RowResult → ExecObj → World → (Option Status × RowResult) × World
  exec_get_next res this w = pull this.source res w

  unfoldable pub run : ℕ → RowResult → ExecObj → World → List (Option Status × RowResult)
  unfolding exec_get_next
  run zero blank this w = []
  run (suc n) blank this w =
      let (answer, w') = exec_get_next blank this w in answer ∷ run n blank this w'

  run-upstream :
      (src : Upstream) (n : ℕ) (args : Bytes) (blank : RowResult) (w : World)
      → run n blank (exec_set_source src (log_compile args)) w ≡ pull_upstream host n src blank w
  unfolding run pull_upstream log_compile exec_set_source
  run-upstream src zero args blank w = refl
  run-upstream src (suc n) args blank w =
      let (answer, w') = get_next src blank w in
      ap (λ s. answer ∷ s) (run-upstream src n args blank w')

  module _ (globals : StageGlobals) (codec : Codec)
      (reads_back : (d : Document) (b : Bytes)
        → codec.to_writer d ≡ ok b
        → codec.from_reader b ≡ ok d) where
    open globals use {name, expect_empty, expand_from_args_doc}

    -- A stage document with arguments that the stage allows, parsed and expanded without a hook,
    -- gives one node; compiled and attached to an upstream stage, it answers every call as the
    -- upstream stage does, errors included. The codec reads back what it writes.
    pub desc_parse-run :
        (stage_bson : Bytes) (a rest : Document) {args : Bytes} (src : Upstream) (n : ℕ)
        (blank : RowResult) (w : World)
        → expand_from_args_doc ≡ none
        → codec.from_reader stage_bson ≡ ok (field name (document a) rest)
        → (expect_empty && not (is_empty_document a)) ≡ false
        → codec.to_writer a ≡ ok args
        → ((desc_parse globals codec stage_bson >>= λ p. parse_expand globals codec p)
            ≡ ok (args ∷ []))
          × (run n blank (exec_set_source src (log_compile args)) w
              ≡ pull_upstream host n src blank w)
    unfolding desc_parse parse_expand
    desc_parse-run stage_bson a rest {args} src n blank w plain e fine o = (
      desc_parse-parse_expand (node_globals globals) codec reads_back stage_bson a rest plain e fine
          o,
      run-upstream src n args blank w,
    )
