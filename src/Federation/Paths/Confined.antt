-- ===== src/Federation/Paths/Confined.antt =====
-- A path that is resolved stays under the allowed root.
use mathlib.Core.Path.{subst}
use rust_sdk_mongodb_extensi.Prelude.{
  String, ◌≡◌, ◌≢◌, refl, sym, ap, ◌∙◌, Bool, true, false, not, ◌&&◌, ◌||◌, Bool-cases, and_iff,
  inl, inr, List, [], ◌∷◌, ◌++◌, arith,
}
use rust_sdk_mongodb_extensi.Prelude.Text.{
  ◌=ₛ◌, =ₛ→eq, =ₛ-refl, is_empty, trim, starts_with_char, contains_char,
}
use rust_sdk_mongodb_extensi.Prelude.Text.Splitting.{split}
use rust_sdk_mongodb_extensi.Errors.{
  Message, Result, ok, err, ensure, map_err, ok-injective, ensure-eq-ok, >>=-eq-ok,
}
use rust_sdk_mongodb_extensi.Federation.Paths.{
  Components, FileSystem, JsonlExtensionConfig, check_segments, validate_stage_relative_path,
  starts_with, check_link, walk, resolve_under_allowed_root,
}

-- Segments of which none is the parent directory and none has a NUL byte.
abbrev pub AreSegments : List String → Type 0
AreSegments [] = Unit
AreSegments (part ∷ parts) = ((part ≢ "..") × (contains_char 0 part ≡ false)) × AreSegments parts

false_of_not : (b : Bool) → not b ≡ true → b ≡ false
false_of_not b h = ground arith

check_segments-AreSegments :
    (parts : List String) → check_segments parts ≡ ok tt → AreSegments parts
unfolding check_segments
check_segments-AreSegments [] h = tt
check_segments-AreSegments (part ∷ parts) h =
    let (u, e, h1) = >>=-eq-ok (ensure (not (part =ₛ "..")) _) _ h in
    let (u', e', h2) = >>=-eq-ok (ensure (not (contains_char 0 part)) _) _ h1 in
    let differ = false_of_not (part =ₛ "..") (ensure-eq-ok _ _ e) in
    (
      (
        λ q. cc (ap (λ s. s =ₛ "..") q, =ₛ-refl "..", differ),
        false_of_not (contains_char 0 part) (ensure-eq-ok _ _ e'),
      ),
      check_segments-AreSegments parts h2,
    )

starts_with-++ :
    (path root : Components)
    → starts_with path root ≡ true
    → (more : Components) × (path ≡ root ++ more)
unfolding starts_with
starts_with-++ path [] h = (path, refl)
starts_with-++ [] (c ∷ root) h = cc
starts_with-++ (d ∷ path) (c ∷ root) h =
    let (p, q) = (and_iff (d =ₛ c) (starts_with path root)).0 h in
    let (more, e) = starts_with-++ path root q in (more, rw (=ₛ→eq d c p, e) refl)

map_err-eq :
    {A : Type 0} {E D : Type 0} (f : E → D) (r : Result E A) {a : A} → map_err f r ≡ ok a → r ≡ ok a
map_err-eq f (ok a) h = ap ok (ok-injective h)
map_err-eq f (err e) h = cc

module _ (fs : FileSystem) (cfg : JsonlExtensionConfig) where
  -- A walk from one path to another over components that exist, of which none is a link where links
  -- are not allowed.
  pub data Walked : Components → Components → Type 0 where
    arrived : {cur : Components} → Walked cur cur
    through :
        {cur last : Components} (part : String) (is_symlink : Bool)
        → fs.symlink_metadata (cur ++ part ∷ []) ≡ ok is_symlink
        → (is_symlink && not cfg.allow_symlinks) ≡ false
        → Walked (cur ++ part ∷ []) last
        → Walked cur last

  link_checked :
      (path : Components) (r : Result Message Bool)
      → check_link fs cfg path r ≡ ok tt
      → (b : Bool) × (r ≡ ok b) × ((b && not cfg.allow_symlinks) ≡ false)
  link_checked path (err e) h = cc
  link_checked path (ok b) h =
      (b, refl, false_of_not (b && not cfg.allow_symlinks) (ensure-eq-ok _ _ h))

  walk-Walked :
      (cur : Components) (parts : List String) (last : Components)
      → walk fs cfg cur parts ≡ ok last
      → Walked cur last
  unfolding walk
  walk-Walked cur [] last h = subst (Walked cur) (ok-injective h) arrived
  walk-Walked cur (part ∷ parts) last h = elim (Bool-cases (is_empty part)) [
    | inl e ↦ walk-Walked cur parts last (rw e at h)
    | inr e ↦
        let (u, c, h1) =
          >>=-eq-ok (check_link fs cfg (cur ++ part ∷ []) (fs.symlink_metadata (cur ++ part ∷ [])))
            _ (rw e at h) in
        let (b, q, fine) =
          link_checked (cur ++ part ∷ []) (fs.symlink_metadata (cur ++ part ∷ [])) c in
        through part b q fine (walk-Walked (cur ++ part ∷ []) parts last h1)
  ]

  -- A path that is resolved lies under the canonical allowed root; no segment of it is the parent
  -- directory, and the walk from the root to what is made canonical goes over existing components,
  -- of which none is a link where links are not allowed.
  pub resolve_under_allowed_root-confined :
      (rel : String) {final_path : Components}
      → resolve_under_allowed_root fs cfg rel ≡ ok final_path
      → (root : Components) × (more : Components) × (cur : Components) × (fs.canonicalize
            cfg.allowed_root
          ≡ ok root)
        × (final_path ≡ root ++ more)
        × AreSegments (split b'/' (trim rel))
        × Walked root cur
        × (fs.canonicalize cur ≡ ok final_path)
  unfolding resolve_under_allowed_root validate_stage_relative_path
  resolve_under_allowed_root-confined rel {final_path} h =
      let (u, v, h1) = >>=-eq-ok (validate_stage_relative_path rel) _ h in
      let (root, e, h2) = >>=-eq-ok (map_err _ (fs.canonicalize cfg.allowed_root)) _ h1 in
      let (cur, k, h3) = >>=-eq-ok (walk fs cfg root (split b'/' (trim rel))) _ h2 in
      let (final', e', h4) = >>=-eq-ok (map_err _ (fs.canonicalize cur)) _ h3 in
      let (u', s, h5) = >>=-eq-ok (ensure (starts_with final' root) _) _ h4 in
      let (more, under) = starts_with-++ final' root (ensure-eq-ok _ _ s) in
      let (v1, a1, g1) = >>=-eq-ok (ensure (not (is_empty (trim rel))) _) _ v in
      let (v2, a2, g2) =
        >>=-eq-ok
          (ensure (not (starts_with_char b'/' (trim rel) || contains_char b'\\' (trim rel))) _) _
          g1 in
      (
        root,
        more,
        cur,
        map_err-eq _ (fs.canonicalize cfg.allowed_root) e,
        sym (ok-injective h5) ∙ under,
        check_segments-AreSegments (split b'/' (trim rel)) g2,
        walk-Walked root (split b'/' (trim rel)) cur k,
        map_err-eq _ (fs.canonicalize cur) e' ∙ ap ok (ok-injective h5),
      )
