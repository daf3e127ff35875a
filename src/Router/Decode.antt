-- ===== src/Router/Decode.antt =====
-- opensearch-extension-core/src/mongos.rs: the answers of OpenSearch, as document keys with scores.
-- The readers of JSON texts and of extended JSON are parameters.
pub mod Sound
use Prim.Native.Char.{code}
use Prim.Native.String
use rust_sdk_mongodb_extensi.Prelude.{
  ℕ, ◌+◌, String, Bool, true, false, not, ◌&&◌, ◌||◌, if◌then◌else◌, Option, none, some, List, [],
  ◌∷◌, length, ltb, ◌==◌,
}
use rust_sdk_mongodb_extensi.Prelude.Int.{ℤ, pos}
use rust_sdk_mongodb_extensi.Prelude.Word.{F64, is_finite}
use rust_sdk_mongodb_extensi.Prelude.Text.{◌=ₛ◌, is_empty, starts_with_char, contains_char}
use rust_sdk_mongodb_extensi.Prelude.Text.Splitting.{split}
use rust_sdk_mongodb_extensi.Errors.{
  Message, text, runtime, ExtensionError, ExtensionResult, Result, ok, err, ◌>>=◌, ◌>>◌, ensure,
  ok_or, map_err,
}
use rust_sdk_mongodb_extensi.Bson.{Bson, document, Document, end, field, get}
use rust_sdk_mongodb_extensi.Search.Fetch.{more_hits}
use rust_sdk_mongodb_extensi.Json
use rust_sdk_mongodb_extensi.Json.{Json, pointer, as_str, as_array, as_f64, as_u64, as_bool}

-- serde_json::from_str and Bson::try_from.
pub record KeyReader : Type 0 where
  pub from_str : String → Result Message Json
  pub try_from : Json → Result Message Bson

abbrev pub invalid : Message → ExtensionError
invalid message = runtime message

-- The bytes of a character in UTF-8, and str::len.
abbrev pub len_utf8 : ℕ → ℕ
len_utf8 k = if ltb k 128 then 1 else if ltb k 2048 then 2 else if ltb k 65536 then 3 else 4

unfoldable pub len : String → ℕ
len String.[] = 0
len (String.◌∷◌ c s) = len_utf8 (code c) + len s

abbrev pub bad_part : String → Bool
bad_part part = is_empty part || starts_with_char b'$' part || contains_char 0 part

abbrev pub any_bad : List String → Bool
any_bad [] = false
any_bad (part ∷ parts) = bad_part part || any_bad parts

-- A path that some component of which is not allowed.
abbrev pub bad_path : String → Bool
bad_path path = any_bad (split b'.' path)

unfoldable pub any_bad_path : Document → Bool
unfolding split
any_bad_path end = false
any_bad_path (field path v d) = bad_path path || any_bad_path d

abbrev pub contains_key : Option Bson → Bool
contains_key none = false
contains_key (some v) = true

abbrev pub as_key : Bson → ExtensionResult Document
as_key (document key) = ok key
as_key _ = err (invalid (text "Document key must be an object" ∷ []))

abbrev pub finite_only : Option F64 → Option F64
finite_only none = none
finite_only (some score) = if is_finite score then some score else none

abbrev pub max_key_len : ℕ
max_key_len = 512

module _ (reader : KeyReader) where
  unfoldable pub decode_hit : Json → ExtensionResult (Document × F64)
  unfolding len any_bad_path Json.get get
  decode_hit hit = do
    raw ←
        ok_or (invalid (text "OpenSearch hit missing string _id" ∷ []))
          (as_str (Json.get "_id" hit))
    ensure (not (ltb max_key_len (len raw)))
        (invalid (text "OpenSearch composite document key exceeds 512 UTF-8 bytes" ∷ []))
    json ← map_err (λ e. invalid (text "Invalid document key JSON: " ∷ e)) (reader.from_str raw)
    bson ← map_err (λ e. invalid (text "Invalid document key BSON: " ∷ e)) (reader.try_from json)
    key ← as_key bson
    ensure (not (not (contains_key (get "_id" key)) || any_bad_path key))
        (invalid (text "Document key needs _id and valid MongoDB field paths" ∷ []))
    score ←
        ok_or (invalid (text "OpenSearch hit missing finite score" ∷ []))
          (finite_only (as_f64 (Json.get "_score" hit)))
    ok (key, score)

  -- The collection of the hits into one result.
  unfoldable pub decode_hits : List Json → ExtensionResult (List (Document × F64))
  unfolding decode_hit
  decode_hits [] = ok []
  decode_hits (hit ∷ hits) = do row ← decode_hit hit; rows ← decode_hits hits; ok (row ∷ rows)

  abbrev is_true : Option Bool → Bool
  is_true (some b) = b
  is_true none = false

  abbrev is_positive : Option ℕ → Bool
  is_positive (some n) = ltb 0 n
  is_positive none = false

  abbrev pub is_incomplete : Json → Bool
  is_incomplete value =
      is_true (as_bool (Json.get "timed_out" value))
      || is_positive (as_u64 (pointer "_shards" "failed" value))

  unfoldable pub decode_response : Json → ℕ → ExtensionResult (List (Document × F64))
  unfolding Json.get pointer decode_hits
  decode_response value limit = do
    ensure (not (is_incomplete value))
        (invalid (text "OpenSearch returned incomplete results" ∷ []))
    hits ←
        ok_or (invalid (text "OpenSearch response missing hits.hits" ∷ []))
          (as_array (pointer "hits" "hits" value))
    ensure (not (ltb limit (length hits))) (invalid (more_hits (length hits) limit))
    decode_hits hits
