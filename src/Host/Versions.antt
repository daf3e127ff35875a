-- ===== src/Host/Versions.antt =====
-- extension-sdk-mongodb/src/version.rs: which versions of the API the host and the extension share.
use rust_sdk_mongodb_extensi.Prelude.{
  ℕ, ◌≤◌, ◌≡◌, refl, ◌↔◌, ◌⊎◌, inl, inr, Bool, true, false, ◌&&◌, if◌then◌else◌, ◌==◌, if_lem, leb,
  leb→le, le→leb, Option, none, some, List, [], ◌∷◌, arith,
}
use rust_sdk_mongodb_extensi.Source.Entry.{Version}

-- The loop over the versions of the host, which stops at the first that is found.
unfoldable pub search_versions : List Version → Version → (found_major found_minor : Bool) → Bool
search_versions [] extension found_major found_minor = found_major && found_minor
search_versions (host ∷ rest) extension found_major found_minor =
    let later = search_versions rest extension true found_minor in
    let other = search_versions rest extension found_major found_minor in
    if host.major == extension.major
    then (if leb extension.minor host.minor then true else later)
    else other

-- A vector whose pointer is null is none.
unfoldable pub host_supports_extension : Option (List Version) → Version → Bool
unfolding search_versions
host_supports_extension none extension = false
host_supports_extension (some []) extension = false
host_supports_extension (some (v ∷ versions)) extension =
    search_versions (v ∷ versions) extension false false

-- write_supported_versions, for a vector that is not null.
abbrev pub supported_versions : Version → List Version
supported_versions extension_api_version = extension_api_version ∷ []

-- One of the versions has this major number, and at least this minor number.
pub HasVersion : Version → List Version → Type 0
HasVersion extension [] = ⊥
HasVersion extension (host ∷ rest) =
    ((host.major ≡ extension.major) × (extension.minor ≤ host.minor)) ⊎ HasVersion extension rest

eq_of_test : (a b : ℕ) → (a == b) ≡ true → a ≡ b
eq_of_test a b h = ground arith

eq_tested : (a b : ℕ) → a ≡ b → (a == b) ≡ true
eq_tested a b h = ground (arith, h)

-- What a round of the loop has found.
by_tests :
    (major minor later other : Bool)
    → (if major then (if minor then true else later) else other) ≡ true
    → ((major ≡ true) × (minor ≡ true)) ⊎ (later ≡ true) ⊎ (other ≡ true)
by_tests true true later other h = inl (refl, refl)
by_tests true false later other h = inr (inl h)
by_tests false minor later other h = inr (inr h)

search_versions-HasVersion :
    (versions : List Version) (extension : Version) (found_major : Bool)
    → search_versions versions extension found_major false ≡ true
    → HasVersion extension versions
unfolding search_versions HasVersion
search_versions-HasVersion [] extension found h = ground (arith, h)
search_versions-HasVersion (host ∷ rest) extension found h =
    elim (by_tests (host.major == extension.major) (leb extension.minor host.minor) _ _ h) [
      | inl p ↦ inl (eq_of_test _ _ p.0, leb→le _ _ p.1)
      | inr (inl p) ↦ inr (search_versions-HasVersion rest extension true p)
      | inr (inr p) ↦ inr (search_versions-HasVersion rest extension found p)
    ]

HasVersion-search_versions :
    (versions : List Version) (extension : Version) (found_major : Bool)
    → HasVersion extension versions
    → search_versions versions extension found_major false ≡ true
unfolding search_versions HasVersion
HasVersion-search_versions [] extension found h = absurd h
HasVersion-search_versions (host ∷ rest) extension found (inl (major, minor)) =
    let fits = le→leb extension.minor host.minor minor in
    let same = eq_tested host.major extension.major major in rw (same, fits) refl
HasVersion-search_versions (host ∷ rest) extension found (inr h) =
    if_lem (λ b. b ≡ true) (host.major == extension.major)
      (if_lem (λ b. b ≡ true) (leb extension.minor host.minor) refl
        (HasVersion-search_versions rest extension true h))
      (HasVersion-search_versions rest extension found h)

-- The host supports an extension exactly where one of its versions has the major number of the
-- extension and at least its minor number; a vector that is null or empty has none.
pub host_supports_extension_iff :
    (versions : List Version) (extension : Version)
    → ((host_supports_extension (some versions) extension ≡ true) ↔ HasVersion extension versions)
      × (host_supports_extension none extension ≡ false)
unfolding host_supports_extension HasVersion
host_supports_extension_iff [] extension = (((λ h. cc), λ h. absurd h), refl)
host_supports_extension_iff (v ∷ versions) extension = (
  (
    λ h. search_versions-HasVersion (v ∷ versions) extension false h,
    λ h. HasVersion-search_versions (v ∷ versions) extension false h,
  ),
  refl,
)
