-- ===== src/Source/Entry/Registered.antt =====
-- Which extensions are accepted at the entry point.
use rust_sdk_mongodb_extensi.Prelude.{
  String, ◌≡◌, ◌≢◌, sym, ap, Bool, true, false, not, ◌||◌, Option, List, [], ◌∷◌, arith,
}
use rust_sdk_mongodb_extensi.Prelude.Text.{◌=ₛ◌, =ₛ-refl, is_empty}
use rust_sdk_mongodb_extensi.Errors.{ok, ensure, >>=-eq-ok, ensure-eq-ok, ok-injective}
use rust_sdk_mongodb_extensi.Source.Entry.{
  Version, supports_selected_version, check_later, check_stage_names, is_nil, get_or_init,
  get_multi_source_extension_impl,
}

-- A name that is not one of a list.
abbrev pub IsFresh : String → List String → Type 0
IsFresh name [] = Unit
IsFresh name (other ∷ names) = (name ≢ other) × IsFresh name names

-- Names that are not empty and differ from each other.
abbrev pub AreStageNames : List String → Type 0
AreStageNames [] = Unit
AreStageNames (name ∷ names) = (name ≢ "") × IsFresh name names × AreStageNames names

false_of_not : (b : Bool) → not b ≡ true → b ≡ false
false_of_not b h = ground arith

check_later-IsFresh :
    (name : String) (names : List String) → check_later name names ≡ ok tt → IsFresh name names
unfolding check_later
check_later-IsFresh name [] h = tt
check_later-IsFresh name (other ∷ names) h =
    let (u, e, h1) = >>=-eq-ok (ensure (not (name =ₛ other)) _) _ h in
    let differ = false_of_not (name =ₛ other) (ensure-eq-ok _ _ e) in
    (λ q. cc (ap (λ s. name =ₛ s) (sym q), =ₛ-refl name, differ), check_later-IsFresh name names h1)

check_stage_names-AreStageNames :
    (names : List String) → check_stage_names names ≡ ok tt → AreStageNames names
unfolding check_stage_names
check_stage_names-AreStageNames [] h = tt
check_stage_names-AreStageNames (name ∷ names) h =
    let (u, e, h1) = >>=-eq-ok (ensure (not (is_empty name)) _) _ h in
    let (u', e', h2) = >>=-eq-ok (check_later name names) _ h1 in
    let filled = false_of_not (is_empty name) (ensure-eq-ok _ _ e) in
    (
      λ q. cc (ap is_empty q, filled),
      check_later-IsFresh name names e',
      check_stage_names-AreStageNames names h2,
    )

-- The entry point hands out an object only for pointers that are not null, at least one stage, names
-- that are not empty and differ from each other, and the major and minor version of the extension;
-- the object is the one of the first call of the process.
pub get_multi_source_extension_impl-AreStageNames :
    (api : Version) (names : List String) (version : Version) (services_null out_null : Bool)
    (installed : Option (List String)) {object : List String}
    → get_multi_source_extension_impl api names version services_null out_null installed ≡ ok object
    → (services_null ≡ false)
      × (out_null ≡ false)
      × (names ≢ [])
      × AreStageNames names
      × (version.major ≡ api.major)
      × (version.minor ≡ api.minor)
      × (object ≡ get_or_init installed names)
unfolding get_multi_source_extension_impl supports_selected_version
get_multi_source_extension_impl-AreStageNames api names version sn on installed h =
    let (u, e, h1) = >>=-eq-ok (ensure (not (sn || on)) _) _ h in
    let (u1, e1, h2) = >>=-eq-ok (ensure (not (is_nil names)) _) _ h1 in
    let (u2, e2, h3) = >>=-eq-ok (check_stage_names names) _ h2 in
    let (u3, e3, h4) = >>=-eq-ok (ensure (supports_selected_version api version) _) _ h3 in
    let present = ensure-eq-ok (not (sn || on)) _ e in
    let some_stage = false_of_not (is_nil names) (ensure-eq-ok _ _ e1) in
    let same = ensure-eq-ok (supports_selected_version api version) _ e3 in
    (
      ground (arith, present),
      ground (arith, present),
      λ q. cc (ap is_nil q, some_stage),
      check_stage_names-AreStageNames names e2,
      ground (arith, same),
      ground (arith, same),
      sym (ok-injective h4),
    )
