-- ===== src/Search/Filter/Grammar.antt =====
-- The filters that the module doc of the check promises to accept, as a grammar that does not
-- mention the code: a closed set of clauses, with the number of clauses and their nesting.
use Prim.Native.Char.{code}
use rust_sdk_mongodb_extensi.Prelude.{ℕ, suc, ◌+◌, ◌≤◌, max, String, ◌≢◌, if◌then◌else◌}
use rust_sdk_mongodb_extensi.Prelude.Word.{exponent_field}
use rust_sdk_mongodb_extensi.Prelude.Text.{◌=ₛ◌}
use rust_sdk_mongodb_extensi.Bson.{
  Bson, string, int32, int64, double, document, array, other, Document, end, field, Items, nil,
  cons, len_items,
}

-- A field name that is not empty and does not begin with an underscore.
abbrev pub IsFieldName : String → Type 0
IsFieldName String.[] = ⊥
IsFieldName (String.◌∷◌ c s) = code c ≢ b'_'

abbrev pub IsScalar : Bson → Type 0
IsScalar (double v) = exponent_field v ≢ 2047
IsScalar (document d) = ⊥
IsScalar (array vs) = ⊥
IsScalar (other n) = ⊥
IsScalar _ = Unit

abbrev pub IsText : Bson → Type 0
IsText (string s) = Unit
IsText _ = ⊥

abbrev pub AllItems : (Bson → Type 0) → Items → Type 0
AllItems P nil = Unit
AllItems P (cons v vs) = P v × AllItems P vs

pub data IsBound : String → Bson → Type 0 where
  gt : {v : Bson} → IsScalar v → IsBound "gt" v
  gte : {v : Bson} → IsScalar v → IsBound "gte" v
  lt : {v : Bson} → IsScalar v → IsBound "lt" v
  lte : {v : Bson} → IsScalar v → IsBound "lte" v
  format : {v : Bson} → IsText v → IsBound "format" v

abbrev pub IsRange : Document → Type 0
IsRange end = Unit
IsRange (field op v rest) = IsBound op v × IsRange rest

pub data IsTermValue : Bson → Type 0 where
  plain : {v : Bson} → IsScalar v → IsTermValue v
  wrapped : {v : Bson} → IsScalar v → IsTermValue (document (field "value" v end))

-- The clauses that hold no other clause.
pub data IsLeaf : String → Document → Type 0 where
  term :
      {name : String} {v : Bson}
      → IsFieldName name
      → IsTermValue v
      → IsLeaf "term" (field name v end)
  terms :
      {name : String} {vs : Items}
      → IsFieldName name
      → len_items vs ≤ 1024
      → AllItems IsScalar vs
      → IsLeaf "terms" (field name (array vs) end)
  range :
      {name : String} {bounds : Document}
      → IsFieldName name
      → IsRange bounds
      → IsLeaf "range" (field name (document bounds) end)
  exists : {name : String} → IsFieldName name → IsLeaf "exists" (field "field" (string name) end)
  ids :
      {vs : Items}
      → len_items vs ≤ 1024
      → AllItems IsText vs
      → IsLeaf "ids" (field "values" (array vs) end)

pub data IsOccur : String → Type 0 where
  must : IsOccur "must"
  filter : IsOccur "filter"
  should : IsOccur "should"
  must_not : IsOccur "must_not"

pub data IsMinimum : Bson → Type 0 where
  small : {v : _} → IsMinimum (int32 v)
  large : {v : _} → IsMinimum (int64 v)
  percent : {s : String} → IsMinimum (string s)

mutual
  pub data IsClause : Document → Type 0 where
    leaf :
        {kind : String} {body : Document}
        → IsLeaf kind body
        → IsClause (field kind (document body) end)
    boolean_clause : {body : Document} → IsBody body → IsClause (field "bool" (document body) end)

  pub data IsBody : Document → Type 0 where
    done : IsBody end
    one :
        {occur : String} {d rest : Document}
        → IsOccur occur
        → IsClause d
        → IsBody rest
        → IsBody (field occur (document d) rest)
    many :
        {occur : String} {items : Items} {rest : Document}
        → IsOccur occur
        → IsClauses items
        → IsBody rest
        → IsBody (field occur (array items) rest)
    minimum :
        {v : Bson} {rest : Document}
        → IsMinimum v
        → IsBody rest
        → IsBody (field "minimum_should_match" v rest)

  pub data IsClauses : Items → Type 0 where
    none_left : IsClauses nil
    and_then :
        {d : Document} {items : Items}
        → IsClause d
        → IsClauses items
        → IsClauses (cons (document d) items)

-- How many clauses a filter holds.
unfoldable mutual
  pub clause_count : Document → ℕ
  clause_count (field kind (document body) end) =
      let inner = body_count body in if kind =ₛ "bool" then suc inner else 1
  clause_count _ = 1

  pub body_count : Document → ℕ
  body_count end = 0
  body_count (field occur (document d) rest) = clause_count d + body_count rest
  body_count (field occur (array items) rest) = items_count items + body_count rest
  body_count (field occur v rest) = body_count rest

  pub items_count : Items → ℕ
  items_count nil = 0
  items_count (cons (document d) items) = clause_count d + items_count items
  items_count (cons v items) = items_count items

-- How deep they are nested.
unfoldable mutual
  pub nesting : Document → ℕ
  nesting (field kind (document body) end) =
      let inner = body_nesting body in if kind =ₛ "bool" then suc inner else 1
  nesting _ = 1

  pub body_nesting : Document → ℕ
  body_nesting end = 0
  body_nesting (field occur (document d) rest) = max (nesting d) (body_nesting rest)
  body_nesting (field occur (array items) rest) = max (items_nesting items) (body_nesting rest)
  body_nesting (field occur v rest) = body_nesting rest

  pub items_nesting : Items → ℕ
  items_nesting nil = 0
  items_nesting (cons (document d) items) = max (nesting d) (items_nesting items)
  items_nesting (cons v items) = items_nesting items
