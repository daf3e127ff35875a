-- ===== src/Lib.antt =====
-- The extension SDK for MongoDB aggregation stages, the OpenSearch extensions built on it, and an
-- example extension that reads files.
--
-- The parts and how they interact. An extension is a set of hooks. The SDK stands between them
-- and the host: it parses a stage document, expands it, plans it on a router, and drives the
-- hooks when the host asks for rows. The OpenSearch extensions implement $vectorSearch in two
-- ways. On a replica set the stage is expanded to a stage of candidates and the host's id lookup;
-- on a router it gives document keys, and a plan made of host stages looks the documents up on
-- the merger.
--
-- Which file models what:
-- - Prelude: shared names, Boolean tests, integers (Int: ℤ as two constructors; Word: 64-bit
--   floating point numbers as bit patterns) and texts (Text). Tests of two native numbers go by
--   compare.
-- - Errors: extension-sdk-mongodb/src/error.rs. A message is the pieces of its format! call.
-- - Bson, Json: the values of the bson and serde_json crates, as far as the code looks into them.
-- - Search: opensearch-extension-core/src/lib.rs. Filter is validate_filter_clause and what it
--   calls; Filter/Grammar is its description by a grammar. Args is parse_vector_search_args, and
--   Args/Forward id_lookup_expansion. Config is parse_config. Timeout, Control and Fetch are
--   request_timeout, the trait QueryControl and fetch_candidates; Cursor is next_result.
--   Transport is opensearch-extension-core/src/transport.rs, Staged the QueryControl of a stage.
-- - Router: opensearch-extension-core/src/mongos.rs. Decode is decode_hit and decode_response,
--   Arguments is RouterVectorSearch::parse, Rows is fetch, next and lookup_pipeline.
-- - Source: extension-sdk-mongodb/src/source_stage.rs. Ops holds the hooks and the host's
--   interface, Exec is exec_get_next and the life of an executable stage, Nodes is desc_parse,
--   parse_expand and expansion.rs, Expanded the containers of an expansion, Entry the entry point
--   and ext_init.
-- - Mapping: extension-sdk-mongodb/src/map_transform.rs. Ops holds the hooks, the byte buffers
--   and what releases them, Exec is exec_get_next, Nodes is desc_parse, parse_expand and the
--   documents that a stage is written to, Entry is get_map_extension_impl and ext_init.
-- - Passthrough: extension-sdk-mongodb/src/passthrough.rs, whose nodes are those of Mapping.
-- - Host: host.rs, stage_context.rs, operation_metrics.rs and version.rs of
--   extension-sdk-mongodb. Services is set_host_services and the calls that make nodes, Context
--   is check_interrupt and deadline_timestamp_ms, Metrics the updates of the metrics document,
--   Versions is host_supports_extension.
-- - Plan: extension-sdk-mongodb/src/distributed_plan.rs, with log_dpl of source_stage.rs in
--   Logical. Host is the host as it calls the plan and its containers.
-- - Federation: examples/data-federation/data-federation-extension/src/lib.rs. Lines is
--   read_jsonl_physical_line, Paths is validate_stage_relative_path and
--   resolve_under_allowed_root, Options is parse_extension_options, ReadLocalJsonl::parse and
--   open, Cursor is ReadLocalJsonl::next.
-- - Tests: runs at fixed inputs and applications of the theorems.
--
-- How state is modelled. A pointer that may be null is an option. A mutable object is a record
-- that is passed and returned; a call returns what it gives the host, the object and the state of
-- the surroundings. A closure under ffi_boundary has a third outcome, none, for a panic. The
-- counter of clauses that validate_filter_clause takes by reference is an argument and the
-- result. A byte buffer that stages hand to each other has an identity, and the stage's buffers
-- are the list of those that it made and of those that it destroyed. The static variables of a
-- process are a record.
--
-- What is a parameter, because it is no code of the repository: the surroundings of a search
-- (QueryControl, which Search/Staged fills with a stage's context and Transport), the hooks of a
-- stage and its upstream stage (SourceOps, and MapStageGlobals with Source), the BSON encoding
-- (Codec), the readers of texts (KeyReader, OptionReader, OptionDecoder, Formats), the host's
-- factory of parse nodes (ParseNodeFactory), its registry (Registry, Portal), its services and
-- query contexts (HostServices, QueryContext), the network with the signer (Network), and the
-- file system (FileSystem). What the code relies on there is a field or a hypothesis: a hook
-- leaves the counts of states alone but for the one that it opens or frees, a request is seen
-- once, a factory lists the nodes that it makes.
--
-- Bounds. The loops that are modelled run over a list or the structure of a document, but for
-- one: the loop of ReadLocalJsonl::next runs on fuel. Each round takes at least one byte off the
-- file, so that one more than the number of its bytes is enough, and next gives that much. i64
-- and u64 arithmetic saturates where the code says so; `as usize` of an i64 wraps at 2 ^ 64. The
-- number of a line's bytes is compared below the largest u64.
--
-- What is not modelled: the C structures of the ABI, the logger, the property documents, the
-- clones of nodes, the callbacks that only return a success, a drop_state or a function of the host
-- that panics, the Fibonacci and HTTP fetch examples, and the test programs.
pub mod Prelude
pub mod Errors
pub mod Bson
pub mod Json
pub mod Stage
pub mod Search
pub mod Source
pub mod Host
pub mod Mapping
pub mod Passthrough
pub mod Plan
pub mod Router
pub mod Federation
mod Tests
