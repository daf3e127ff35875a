-- ===== src/Bson.antt =====
-- BSON values as the stages see them: the variants that the source matches on by name, and `other`
-- for every other variant of `bson::Bson`. A document is its entries, in order.
use rust_sdk_mongodb_extensi.Prelude.{
  ℕ, suc, String, Bool, Option, none, some, if◌then◌else◌, List, [], ◌∷◌,
}
use rust_sdk_mongodb_extensi.Prelude.Int.{ℤ}
use rust_sdk_mongodb_extensi.Prelude.Word.{F64}
use rust_sdk_mongodb_extensi.Prelude.Text.{◌=ₛ◌}

mutual
  pub data Bson : Type 0 where
    string : String → Bson
    boolean : Bool → Bson
    int32 : ℤ → Bson
    int64 : ℤ → Bson
    double : F64 → Bson
    document : Document → Bson
    array : Items → Bson
    other : ℕ → Bson

  pub data Document : Type 0 where
    end : Document
    field : String → Bson → Document → Document

  pub data Items : Type 0 where
    nil : Items
    cons : Bson → Items → Items

-- Document::get: the value of the entry with this key.
unfoldable pub get : String → Document → Option Bson
get k end = none
get k (field j v d) = if j =ₛ k then some v else get k d

-- Document::insert: a new value for a key that is there, or a new last entry.
unfoldable pub insert : String → Bson → Document → Document
insert k v end = field k v end
insert k v (field j w d) = if j =ₛ k then field k v d else field j w (insert k v d)

unfoldable pub keys : Document → List String
keys end = []
keys (field k v d) = k ∷ keys d

unfoldable pub len_items : Items → ℕ
len_items nil = 0
len_items (cons v vs) = suc (len_items vs)

unfoldable pub len_document : Document → ℕ
len_document end = 0
len_document (field k v d) = suc (len_document d)

-- Document::remove: the value of the key, and the document without its entry.
unfoldable pub remove : String → Document → Option Bson × Document
remove k end = (none, end)
remove k (field j v d) =
    let (found, rest) = remove k d in if j =ₛ k then (some v, d) else (found, field j v rest)
