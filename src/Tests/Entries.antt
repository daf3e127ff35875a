-- ===== src/Tests/Entries.antt =====
-- Parse nodes, expansions and the entry point of an extension.
use rust_sdk_mongodb_extensi.Prelude.{
  String, ◌≡◌, ◌≢◌, refl, sym, ap, true, false, none, some, List, [], ◌∷◌, ◌++◌,
}
use rust_sdk_mongodb_extensi.Prelude.Int.{pos}
use rust_sdk_mongodb_extensi.Errors.{Message, text, Result, ok, err, ok-injective}
use rust_sdk_mongodb_extensi.Bson.{int32, document, Document, end, field}
use rust_sdk_mongodb_extensi.Source.Ops.{Bytes, Codec}
use rust_sdk_mongodb_extensi.Source.Nodes.{
  self_stage, StageSpec, ast_alloc, write, desc_parse, parse_get_query_shape,
  pipeline_stage_arg_blobs,
}
use rust_sdk_mongodb_extensi.Source.Nodes.Blobs.{
  IsFaithful, AreArguments, pipeline_stage_arg_blobs-AreArguments, desc_parse-shape,
}
use rust_sdk_mongodb_extensi.Source.Expanded.{
  expanded_multi, exp_multi_transfer, exp_multi_destroy, written, exp_multi_transfer-destroy,
}
use rust_sdk_mongodb_extensi.Source.Entry.{Version, get_or_init, get_multi_source_extension_impl}
use rust_sdk_mongodb_extensi.Source.Entry.Registered.{
  AreStageNames, get_multi_source_extension_impl-AreStageNames,
}

-- A codec of three documents.
abbrev one : Document
one = field "n" (int32 (pos 1)) end

abbrev staged : Document
staged = field "$count" (document one) end

abbrev read_small : Bytes → Result Message Document
read_small [] = ok end
read_small (b ∷ []) = ok one
read_small (b ∷ c ∷ bytes) = ok staged

-- Only the empty document is written.
abbrev write_small : Document → Result Message Bytes
write_small end = ok []
write_small (field k v d) = err (text "too large" ∷ [])

abbrev small : Codec
small = record { access_error = λ v. []; from_reader = read_small; to_writer = write_small }

small-IsFaithful : IsFaithful small
small-IsFaithful end bytes h = ap read_small (ok-injective (sym h))
small-IsFaithful (field k v d) bytes h = cc

abbrev empty_stage : Document
empty_stage = field "$count" (document end) end

blobs : pipeline_stage_arg_blobs small "$count" (empty_stage ∷ []) ≡ ok ([] ∷ [])
unfolding pipeline_stage_arg_blobs
blobs = refl

pipeline_stage_arg_blobs-AreArguments_example :
    (empty_stage ∷ [] ≢ []) × AreArguments small "$count" (empty_stage ∷ []) ([] ∷ [])
pipeline_stage_arg_blobs-AreArguments_example =
    pipeline_stage_arg_blobs-AreArguments small small-IsFaithful "$count" (empty_stage ∷ []) blobs

-- A codec that reads every text but the empty one as a stage document.
abbrev read_staged : Bytes → Result Message Document
read_staged [] = ok end
read_staged (b ∷ bytes) = ok empty_stage

abbrev staging : Codec
staging = record { access_error = λ v. []; from_reader = read_staged; to_writer = write_small }

staging-IsFaithful : IsFaithful staging
staging-IsFaithful end bytes h = ap read_staged (ok-injective (sym h))
staging-IsFaithful (field k v d) bytes h = cc

abbrev count : StageSpec
count = record { name = "$count"; expect_empty = true; expand_inner = λ d. some (ok self_stage) }

parsed : desc_parse staging count (9 ∷ []) ≡ ok []
unfolding desc_parse
parsed = refl

desc_parse-shape_example :
    (args : Document) × (rest : Document) × (staging.from_reader (9 ∷ [])
      ≡ ok (field "$count" (document args) rest))
    × (parse_get_query_shape staging count [] ≡ write staging (field "$count" (document args) end))
desc_parse-shape_example = desc_parse-shape staging staging-IsFaithful count (9 ∷ []) parsed

exp_multi_transfer-destroy_example :
    (let (r, this) =
        exp_multi_transfer (expanded_multi (ast_alloc [] ∷ ast_alloc (1 ∷ []) ∷ [])) 1 in
      written r ++ exp_multi_destroy this ≡ ast_alloc [] ∷ ast_alloc (1 ∷ []) ∷ [])
exp_multi_transfer-destroy_example =
    exp_multi_transfer-destroy (ast_alloc [] ∷ ast_alloc (1 ∷ []) ∷ []) 1

abbrev names : List String
names = "$a" ∷ "$b" ∷ []

abbrev api : Version
api = record { major = 0; minor = 1 }

loaded : get_multi_source_extension_impl api names api false false none ≡ ok names
unfolding get_multi_source_extension_impl
loaded = refl

get_multi_source_extension_impl-AreStageNames_example :
    (false ≡ false)
    × (false ≡ false)
    × (names ≢ [])
    × AreStageNames names
    × (api.major ≡ api.major)
    × (api.minor ≡ api.minor)
    × (names ≡ get_or_init none names)
get_multi_source_extension_impl-AreStageNames_example =
    get_multi_source_extension_impl-AreStageNames api names api false false none loaded
