-- ===== src/Host/Metrics.antt =====
-- extension-sdk-mongodb/src/operation_metrics.rs and stage_context.rs: the metrics document that a
-- stage shares with the host. Without metrics every update is left out.
use rust_sdk_mongodb_extensi.Prelude.{
  ℕ, ◌^◌, ◌-◌, ◌≡◌, refl, ap, ◌∙◌, Bool, true, false, if◌then◌else◌, ltb, inl, inr, Option, none,
  some, List, [], ◌∷◌, String, Bool-cases,
}
use rust_sdk_mongodb_extensi.Prelude.Int.{ℤ, pos, negsuc, saturating_add}
use rust_sdk_mongodb_extensi.Prelude.Text.{◌=ₛ◌, =ₛ→eq}
use rust_sdk_mongodb_extensi.Errors.{ok, err, Result, Message}
use rust_sdk_mongodb_extensi.Bson.{Bson, int64, Document, end, field, get, insert}
use rust_sdk_mongodb_extensi.Source.Ops.{Bytes, Codec}

-- Bson::as_i64 with a default of 0: only an Int64 has a value.
abbrev pub as_i64_or : Option Bson → ℤ
as_i64_or (some (int64 n)) = n
as_i64_or v = pos 0

unfoldable pub inc : String → ℤ → Document → Document
inc key delta doc = insert key (int64 (saturating_add (as_i64_or (get key doc)) delta)) doc

-- `as i64` of a u64.
abbrev pub u64_as_i64 : ℕ → ℤ
u64_as_i64 n = if ltb n (2 ^ 63) then pos n else negsuc (2 ^ 64 - n - 1)

unfoldable pub record_time : String → ℕ → Document → Document
record_time key elapsed_ns doc = insert key (int64 (u64_as_i64 elapsed_ns)) doc

-- The loop of sdk_met_update over the entries of a patch.
unfoldable pub merge : Document → Document → Document
merge end doc = doc
merge (field k v extra) doc = merge extra (insert k v doc)

abbrev update_with : Result Message Document → Document → Document
update_with (ok extra) doc = merge extra doc
update_with (err e) doc = doc

-- A patch that is null, or empty, or no document changes nothing.
unfoldable pub sdk_met_update : Codec → Option Bytes → Document → Document
unfolding merge
sdk_met_update codec none doc = doc
sdk_met_update codec (some []) doc = doc
sdk_met_update codec (some (b ∷ patch)) doc = update_with (codec.from_reader (b ∷ patch)) doc

-- What a stage and the host do to the document.
pub data Update : Type 0 where
  add : String → ℤ → Update
  time : String → ℕ → Update
  patch : Option Bytes → Update

module _ (codec : Codec) where
  abbrev pub apply : Update → Document → Document
  apply (add key delta) doc = inc key delta doc
  apply (time key elapsed_ns) doc = record_time key elapsed_ns doc
  apply (patch bytes) doc = sdk_met_update codec bytes doc

  pub apply_all : List Update → Document → Document
  apply_all [] doc = doc
  apply_all (u ∷ us) doc = apply_all us (apply u doc)

  -- The value of one key, followed on its own.
  abbrev pub patched : String → Document → Option Bson → Option Bson
  patched k end v = v
  patched k (field j w extra) v = patched k extra (if j =ₛ k then some w else v)

  abbrev patched_by : String → Result Message Document → Option Bson → Option Bson
  patched_by k (ok extra) v = patched k extra v
  patched_by k (err e) v = v

  abbrev pub follow : String → Update → Option Bson → Option Bson
  follow k (add key delta) v =
      if key =ₛ k then some (int64 (saturating_add (as_i64_or v) delta)) else v
  follow k (time key elapsed_ns) v = if key =ₛ k then some (int64 (u64_as_i64 elapsed_ns)) else v
  follow k (patch none) v = v
  follow k (patch (some [])) v = v
  follow k (patch (some (b ∷ bytes))) v = patched_by k (codec.from_reader (b ∷ bytes)) v

  pub follow_all : String → List Update → Option Bson → Option Bson
  follow_all k [] v = v
  follow_all k (u ∷ us) v = follow_all k us (follow k u v)

-- What is found under a key after an insertion.
get-insert :
    (k j : String) (w : Bson) (d : Document)
    → get k (insert j w d) ≡ (if j =ₛ k then some w else get k d)
unfolding get insert
get-insert k j w end = refl
get-insert k j w (field i x d) = elim (Bool-cases (i =ₛ j)) [
  | inl e ↦ let same = =ₛ→eq i j e in rw (e, ap (λ s. s =ₛ k) same) (if_again (j =ₛ k))
  | inr ne ↦
      rw (ne, get-insert k j w d)
        (elim (Bool-cases (i =ₛ k)) [ inl f ↦ rw (f, apart f ne) refl | inr nf ↦ rw nf refl ])
]
  where
    if_again :
        (b : Bool)
        → (if b then some w else get k d) ≡ (if b then some w else (if b then some x else get k d))
    if_again true = refl
    if_again false = refl

    apart : (i =ₛ k) ≡ true → (i =ₛ j) ≡ false → (j =ₛ k) ≡ false
    apart f ne = elim (Bool-cases (j =ₛ k)) [ inl g ↦ cc (=ₛ→eq j k g, f, ne) | inr g ↦ g ]

module _ (codec : Codec) (k : String) where
  get-merge : (extra doc : Document) → get k (merge extra doc) ≡ patched codec k extra (get k doc)
  unfolding merge
  get-merge end doc = refl
  get-merge (field j w extra) doc =
      get-merge extra (insert j w doc) ∙ ap (λ v. patched codec k extra v) (get-insert k j w doc)

  get-update_with :
      (r : Result Message Document) (doc : Document)
      → get k (update_with r doc) ≡ patched_by codec k r (get k doc)
  get-update_with (ok extra) doc = get-merge extra doc
  get-update_with (err e) doc = refl

  get-apply :
      (u : Update) (doc : Document) → get k (apply codec u doc) ≡ follow codec k u (get k doc)
  unfolding inc record_time sdk_met_update
  get-apply (add key delta) doc =
      get-insert k key _ doc
      ∙ elim (Bool-cases (key =ₛ k)) [ inl e ↦ rw (e, =ₛ→eq key k e) refl | inr ne ↦ rw ne refl ]
  get-apply (time key elapsed_ns) doc = get-insert k key _ doc
  get-apply (patch none) doc = refl
  get-apply (patch (some [])) doc = refl
  get-apply (patch (some (b ∷ bytes))) doc = get-update_with (codec.from_reader (b ∷ bytes)) doc

  -- After any updates the value of a key is what its own updates make of it, in their order: the
  -- sums that stop at the bounds of i64, the times and the patches of other keys have no part in it.
  pub get-apply_all :
      (us : List Update) (doc : Document)
      → get k (apply_all codec us doc) ≡ follow_all codec k us (get k doc)
  unfolding apply_all follow_all
  get-apply_all [] doc = refl
  get-apply_all (u ∷ us) doc =
      get-apply_all us (apply codec u doc) ∙ ap (λ v. follow_all codec k us v) (get-apply u doc)
