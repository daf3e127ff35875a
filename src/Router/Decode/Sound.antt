-- ===== src/Router/Decode/Sound.antt =====
-- What the rows of a decoded answer are.
use mathlib.Core.Path.{subst}
use rust_sdk_mongodb_extensi.Prelude.{
  ℕ, ◌≤◌, String, ◌≡◌, ◌≢◌, refl, sym, ap, ◌∙◌, Bool, true, false, not, ◌||◌, Bool-cases, inl, inr,
  Option, none, some, List, [], ◌∷◌, length, ltb, arith,
}
use rust_sdk_mongodb_extensi.Prelude.Word.{F64, is_finite}
use rust_sdk_mongodb_extensi.Prelude.Text.{is_empty, starts_with_char, contains_char}
use rust_sdk_mongodb_extensi.Prelude.Text.Splitting.{split}
use rust_sdk_mongodb_extensi.Errors.{
  Result, ok, err, ok_or, ensure, map_err, ok-injective, ok_or-eq-ok, ensure-eq-ok, >>=-eq-ok,
}
use rust_sdk_mongodb_extensi.Bson.{Bson, document, Document, end, field, get}
use rust_sdk_mongodb_extensi.Json
use rust_sdk_mongodb_extensi.Json.{Json, pointer, as_str, as_array, as_f64, as_bool, as_u64}
use rust_sdk_mongodb_extensi.Router.Decode.{
  KeyReader, len, bad_part, any_bad, bad_path, any_bad_path, contains_key, as_key, finite_only,
  decode_hit, decode_hits, is_incomplete, decode_response,
}

-- A component of a field path of MongoDB.
pub record IsPart (part : String) : Type 0 where
  pub filled : part ≢ ""
  pub plain : starts_with_char b'$' part ≡ false
  pub no_nul : contains_char 0 part ≡ false

abbrev pub AllParts : List String → Type 0
AllParts [] = Unit
AllParts (part ∷ parts) = IsPart part × AllParts parts

abbrev pub AllPaths : Document → Type 0
AllPaths end = Unit
AllPaths (field path v d) = AllParts (split b'.' path) × AllPaths d

-- A row that a hit stands for: its key is a document with an _id, whose fields are paths, read from
-- a text of at most 512 bytes, and its score is a finite number.
pub record IsRow (reader : KeyReader) (hit : Json) (key : Document) (score : F64) : Type 0 where
  pub raw : String
  pub json : Json
  pub id : Bson
  pub is_raw : as_str (Json.get "_id" hit) ≡ some raw
  pub short : len raw ≤ 512
  pub read : reader.from_str raw ≡ ok json
  pub typed : reader.try_from json ≡ ok (document key)
  pub has_id : get "_id" key ≡ some id
  pub paths : AllPaths key
  pub is_score : as_f64 (Json.get "_score" hit) ≡ some score
  pub finite : is_finite score ≡ true

or_false : (a b : Bool) → (a || b) ≡ false → (a ≡ false) × (b ≡ false)
or_false a b h = ground arith

false_of_not : (b : Bool) → not b ≡ true → b ≡ false
false_of_not b h = ground arith

bad_part-IsPart : (part : String) → bad_part part ≡ false → IsPart part
bad_part-IsPart part h =
    let (h', c) = or_false (is_empty part || starts_with_char b'$' part) (contains_char 0 part) h in
    let (e, s) = or_false (is_empty part) (starts_with_char b'$' part) h' in
    record { filled = λ q. cc (sym e ∙ ap is_empty q); plain = s; no_nul = c }

any_bad-AllParts : (parts : List String) → any_bad parts ≡ false → AllParts parts
any_bad-AllParts [] h = tt
any_bad-AllParts (part ∷ parts) h =
    let (p, q) = or_false (bad_part part) (any_bad parts) h in
    (bad_part-IsPart part p, any_bad-AllParts parts q)

any_bad_path-AllPaths : (d : Document) → any_bad_path d ≡ false → AllPaths d
unfolding any_bad_path
any_bad_path-AllPaths end h = tt
any_bad_path-AllPaths (field path v d) h =
    let (p, q) = or_false (bad_path path) (any_bad_path d) h in
    (any_bad-AllParts (split b'.' path) p, any_bad_path-AllPaths d q)

found : (o : Option Bson) → not (contains_key o) ≡ false → (v : Bson) × (o ≡ some v)
found none h = cc
found (some v) h = (v, refl)

as_key-eq : (b : Bson) (key : Document) → as_key b ≡ ok key → b ≡ document key
as_key-eq (document d) key h = ap document (ok-injective h)
as_key-eq _ key h = cc

some-injective : {A : Type 0} {a b : A} → some a ≡ some b → a ≡ b
some-injective h = cc

finite_only-eq :
    (o : Option F64) (score : F64)
    → finite_only o ≡ some score
    → (o ≡ some score) × (is_finite score ≡ true)
finite_only-eq none score h = cc
finite_only-eq (some s) score h = elim (Bool-cases (is_finite s)) [
  | inl e ↦
      let same : some s ≡ some score = rw e at h in
      (same, subst (λ v. is_finite v ≡ true) (some-injective same) e)
  | inr e ↦ cc (rw e at h)
]

map_err-eq :
    {A : Type 0} {E D : Type 0} (f : E → D) (r : Result E A) {a : A} → map_err f r ≡ ok a → r ≡ ok a
map_err-eq f (ok a) h = ap ok (ok-injective h)
map_err-eq f (err e) h = cc

module _ (reader : KeyReader) where
  decode_hit-IsRow :
      (hit : Json) (key : Document) (score : F64)
      → decode_hit reader hit ≡ ok (key, score)
      → IsRow reader hit key score
  unfolding decode_hit
  decode_hit-IsRow hit key score h =
      let (raw, e1, h1) = >>=-eq-ok (ok_or _ (as_str (Json.get "_id" hit))) _ h in
      let (u1, e2, h2) = >>=-eq-ok (ensure (not (ltb 512 (len raw))) _) _ h1 in
      let (json, e3, h3) = >>=-eq-ok (map_err _ (reader.from_str raw)) _ h2 in
      let (b, e4, h4) = >>=-eq-ok (map_err _ (reader.try_from json)) _ h3 in
      let (k, e5, h5) = >>=-eq-ok (as_key b) _ h4 in
      let (u2, e6, h6) =
        >>=-eq-ok (ensure (not (not (contains_key (get "_id" k)) || any_bad_path k)) _) _ h5 in
      let (sc, e7, h7) = >>=-eq-ok (ok_or _ (finite_only (as_f64 (Json.get "_score" hit)))) _ h6 in
      let sound =
        false_of_not _
          (ensure-eq-ok (not (not (contains_key (get "_id" k)) || any_bad_path k)) _ e6) in
      let (has, clean) = or_false (not (contains_key (get "_id" k))) (any_bad_path k) sound in
      let (id, is_id) = found (get "_id" k) has in
      let (is_score, finite) =
        finite_only-eq (as_f64 (Json.get "_score" hit)) sc (ok_or-eq-ok _ _ e7) in
      let few : ltb 512 (len raw) ≡ false =
        false_of_not (ltb 512 (len raw)) (ensure-eq-ok _ _ e2) in
      subst (λ (p : Document × F64). IsRow reader hit p.0 p.1) (ok-injective h7)
        (record {
          raw = raw;
          json = json;
          id = id;
          is_raw = ok_or-eq-ok _ _ e1;
          short = ground (arith, few);
          read = map_err-eq _ (reader.from_str raw) e3;
          typed = map_err-eq _ (reader.try_from json) e4 ∙ ap ok (as_key-eq b k e5);
          has_id = is_id;
          paths = any_bad_path-AllPaths k clean;
          is_score = is_score;
          finite = finite;
        })

  abbrev pub AreRows : List Json → List (Document × F64) → Type 0
  AreRows [] [] = Unit
  AreRows (hit ∷ hits) ((key, score) ∷ rows) = IsRow reader hit key score × AreRows hits rows
  AreRows _ _ = ⊥

  decode_hits-AreRows :
      (hits : List Json) (rows : List (Document × F64))
      → decode_hits reader hits ≡ ok rows
      → AreRows hits rows
  unfolding decode_hits
  decode_hits-AreRows [] rows h = subst (AreRows []) (ok-injective h) tt
  decode_hits-AreRows (hit ∷ hits) rows h =
      let ((key, score), p, h1) = >>=-eq-ok (decode_hit reader hit) _ h in
      let (rest, q, h2) = >>=-eq-ok (decode_hits reader hits) _ h1 in
      subst (AreRows (hit ∷ hits)) (ok-injective h2)
        (decode_hit-IsRow hit key score p, decode_hits-AreRows hits rest q)

  length-AreRows :
      (hits : List Json) (rows : List (Document × F64))
      → AreRows hits rows
      → length rows ≡ length hits
  length-AreRows [] [] h = refl
  length-AreRows [] (row ∷ rows) h = absurd h
  length-AreRows (hit ∷ hits) [] h = absurd h
  length-AreRows (hit ∷ hits) ((key, score) ∷ rows) (p, h) =
      omega (arith, length-AreRows hits rows h)

  -- An answer is accepted only if it is complete and has no more hits than were asked for; then its
  -- rows are those of its hits, one for each and in their order.
  pub decode_response-AreRows :
      (value : Json) (limit : ℕ) {rows : List (Document × F64)}
      → decode_response reader value limit ≡ ok rows
      → (hits : List Json) × (is_incomplete reader value ≡ false)
        × (as_array (pointer "hits" "hits" value) ≡ some hits)
        × AreRows hits rows
        × (length rows ≤ limit)
  unfolding decode_response
  decode_response-AreRows value limit {rows} h =
      let (u, e, h1) = >>=-eq-ok (ensure (not (is_incomplete reader value)) _) _ h in
      let (hits, e1, h2) = >>=-eq-ok (ok_or _ (as_array (pointer "hits" "hits" value))) _ h1 in
      let (u', e2, h3) = >>=-eq-ok (ensure (not (ltb limit (length hits))) _) _ h2 in
      let few : ltb limit (length hits) ≡ false =
        false_of_not (ltb limit (length hits)) (ensure-eq-ok _ _ e2) in
      let rows_of = decode_hits-AreRows hits rows h3 in
      let small : length rows ≤ limit = ground (arith, few, length-AreRows hits rows rows_of) in
      (hits, false_of_not _ (ensure-eq-ok _ _ e), ok_or-eq-ok _ _ e1, rows_of, small)
