-- ===== src/Search/Args/Forward.antt =====
-- opensearch-extension-core/src/lib.rs: the expansion of $vectorSearch on a replica set, to a stage of
-- candidates and the host's id lookup.
pub mod Reparsed
use rust_sdk_mongodb_extensi.Prelude.{ℕ, String, Option, none, some}
use rust_sdk_mongodb_extensi.Bson.{string, int64, document, Document, end, field}
use rust_sdk_mongodb_extensi.Search.Args.{QueryArgs}
use rust_sdk_mongodb_extensi.Source.Nodes.{Expansion, with_host_id_lookup}

-- `inner.insert("filter", …)`, where there is a filter.
abbrev pub filter_entry : Option Document → Document
filter_entry none = end
filter_entry (some filter) = field "filter" (document filter) end

-- The arguments of the stage of candidates.
abbrev pub forwarded : QueryArgs → Document
forwarded args = field "path" (string args.path) (
    field "query" (string args.query) (field "limit" (int64 args.limit) (filter_entry args.filter)))

unfoldable pub id_lookup_expansion : String → QueryArgs → Expansion
id_lookup_expansion stage_name args =
    with_host_id_lookup (field stage_name (document (forwarded args)) end)
      (field "$_internalSearchIdLookup" (document (field "limit" (int64 args.limit) end)) end)
