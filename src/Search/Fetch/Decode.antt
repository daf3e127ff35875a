-- ===== src/Search/Fetch/Decode.antt =====
-- The candidates of an answer: one for each hit, in order, or an error.
use rust_sdk_mongodb_extensi.Prelude.{
  ℕ, ◌≤◌, ◌≡◌, refl, inl, inr, List, [], ◌∷◌, String, Option, none, some, length, ltb, arith,
  Bool-cases,
}
use mathlib.Core.Path.{subst}
use rust_sdk_mongodb_extensi.Prelude.Word.{F64}
use rust_sdk_mongodb_extensi.Errors.{ok, ok_or, ok-injective, ok_or-eq-ok, >>=-eq-ok}
use rust_sdk_mongodb_extensi.Bson.{Bson, Document, field, end}
use rust_sdk_mongodb_extensi.Json
use rust_sdk_mongodb_extensi.Json.{Json, as_str, as_array, as_f64, pointer}
use rust_sdk_mongodb_extensi.Search.Fetch.{
  decode_candidate, decode_each, decode_candidates, score_key, score_of,
}

-- The candidate that a hit stands for: its key as a text, and its score, which is the number zero for
-- a hit whose score is none.
pub data IsCandidate : Json → Document → Type 0 where
  scored :
      {hit : Json} {id : String} {score : F64}
      → as_str (Json.get "_id" hit) ≡ some id
      → as_f64 (Json.get "_score" hit) ≡ some score
      → IsCandidate hit (field "_id" (Bson.string id) (field score_key (Bson.double score) end))
  unscored :
      {hit : Json} {id : String}
      → as_str (Json.get "_id" hit) ≡ some id
      → as_f64 (Json.get "_score" hit) ≡ none
      → IsCandidate hit
          (field "_id" (Bson.string id) (field score_key (Bson.double (record { bits = 0 })) end))

abbrev pub AreCandidates : List Json → List Document → Type 0
AreCandidates [] [] = Unit
AreCandidates (hit ∷ hits) (d ∷ docs) = IsCandidate hit d × AreCandidates hits docs
AreCandidates _ _ = ⊥

-- The candidate with the score that the hit was read to have.
score_of-IsCandidate :
    (hit : Json) (id : String) (score : Option F64)
    → as_str (Json.get "_id" hit) ≡ some id
    → as_f64 (Json.get "_score" hit) ≡ score
    → IsCandidate hit
        (field "_id" (Bson.string id) (field score_key (Bson.double (score_of score)) end))
score_of-IsCandidate hit id none e f = unscored e f
score_of-IsCandidate hit id (some score) e f = scored e f

decode_candidate_sound :
    (hit : Json) (d : Document) → decode_candidate hit ≡ ok d → IsCandidate hit d
unfolding decode_candidate
decode_candidate_sound hit d h =
    let (id, e, e') = >>=-eq-ok (ok_or _ (as_str (Json.get "_id" hit))) _ h in
    subst (IsCandidate hit) (ok-injective e')
      (score_of-IsCandidate hit id _ (ok_or-eq-ok _ _ e) refl)

decode_each_sound :
    (hits : List Json) (docs : List Document) → decode_each hits ≡ ok docs → AreCandidates hits docs
unfolding decode_each
decode_each_sound [] docs h = subst (AreCandidates []) (ok-injective h) tt
decode_each_sound (hit ∷ hits) docs h =
    let (d, p, h1) = >>=-eq-ok (decode_candidate hit) _ h in
    let (rest, q, h2) = >>=-eq-ok (decode_each hits) _ h1 in
    subst (AreCandidates (hit ∷ hits)) (ok-injective h2)
      (decode_candidate_sound hit d p, decode_each_sound hits rest q)

length-AreCandidates :
    (hits : List Json) (docs : List Document) → AreCandidates hits docs → length docs ≡ length hits
length-AreCandidates [] [] h = refl
length-AreCandidates [] (d ∷ docs) h = absurd h
length-AreCandidates (hit ∷ hits) [] h = absurd h
length-AreCandidates (hit ∷ hits) (d ∷ docs) (p, h) =
    omega (arith, length-AreCandidates hits docs h)

-- The documents of an accepted answer are the candidates of its hits, one for each and in their
-- order, each with the key and the score of its hit, and no more than were asked for.
pub decode_candidates_sound :
    (value : Json) (limit : ℕ) {docs : List Document}
    → decode_candidates value limit ≡ ok docs
    → (hits : List Json) × (as_array (pointer "hits" "hits" value) ≡ some hits)
      × AreCandidates hits docs
      × (length docs ≤ limit)
unfolding decode_candidates
decode_candidates_sound value limit {docs} h =
    let (hits, e, h1) = >>=-eq-ok (ok_or _ (as_array (pointer "hits" "hits" value))) _ h in
    elim (Bool-cases (ltb limit (length hits))) [
      | inl b ↦ cc (rw b at h1)
      | inr b ↦
          let are = decode_each_sound hits docs (rw b at h1) in
          let n : length docs ≤ limit = ground (arith, length-AreCandidates hits docs are) in
          (hits, ok_or-eq-ok _ _ e, are, n)
    ]
