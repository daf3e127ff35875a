-- ===== src/Router/Arguments.antt =====
-- opensearch-extension-core/src/mongos.rs: the arguments of $vectorSearch on a router.
use rust_sdk_mongodb_extensi.Prelude.{
  String, ◌⊎◌, inl, inr, Bool-cases, ◌≡◌, sym, ap, ◌∙◌, Bool, true, false, not, ◌||◌, Option, none,
  some, [], ◌∷◌, arith,
}
use rust_sdk_mongodb_extensi.Prelude.Text.{◌=ₛ◌, =ₛ→eq, starts_with_char, contains_char, ends_with}
use rust_sdk_mongodb_extensi.Prelude.Int.{ℤ}
use rust_sdk_mongodb_extensi.Errors.{
  text, bad_value, ExtensionError, ExtensionResult, ok, ◌>>=◌, ◌>>◌, ensure, >>=-eq-ok,
  ensure-eq-ok, ok-injective,
}
use rust_sdk_mongodb_extensi.Bson.{Bson, int32, int64, Document, end, field, get}
use rust_sdk_mongodb_extensi.Search.Args.{QueryArgs, parse_vector_search_args}
use rust_sdk_mongodb_extensi.Search.Args.Valid.{IsValid, parse_vector_search_args-IsValid}

abbrev pub is_argument : String → Bool
is_argument name = name =ₛ "path" || name =ₛ "query" || name =ₛ "limit" || name =ₛ "filter"

abbrev unsupported : String → ExtensionError
unsupported name = bad_value (text "Unsupported vectorSearch argument: " ∷ text name ∷ [])

-- The loop over the keys of the arguments.
unfoldable pub check_names : Document → ExtensionResult (Unit {0})
check_names end = ok tt
check_names (field name value rest) = do
  ensure (is_argument name) (unsupported name)
  check_names rest

abbrev pub is_integer : Option Bson → Bool
is_integer none = true
is_integer (some (int32 v)) = true
is_integer (some (int64 v)) = true
is_integer (some _) = false

abbrev pub is_reserved : String → Bool
is_reserved path =
    starts_with_char b'_' path || contains_char b'.' path || ends_with "_embedding" path

unfoldable pub parse : Document → ExtensionResult QueryArgs
unfolding check_names get parse_vector_search_args ends_with
parse args = do
  check_names args
  ensure (is_integer (get "limit" args)) (bad_value (text "limit must be an integer" ∷ []))
  parsed ← parse_vector_search_args args
  ensure (not (is_reserved parsed.path))
      (bad_value (text "path must be a projected flat text field" ∷ []))
  ok parsed

-- The names of the arguments are the four that are known.
abbrev pub IsKnown : String → Type 0
IsKnown name = (name ≡ "path") ⊎ (name ≡ "query") ⊎ (name ≡ "limit") ⊎ (name ≡ "filter")

abbrev pub AllKnown : Document → Type 0
AllKnown end = Unit
AllKnown (field name value rest) = IsKnown name × AllKnown rest

-- A limit that is left out, or is an Int32 or an Int64.
pub data IsWhole : Option Bson → Type 0 where
  absent : IsWhole none
  small : {v : ℤ} → IsWhole (some (int32 v))
  large : {v : ℤ} → IsWhole (some (int64 v))

-- Arguments that a router accepts: a replica set parses them to the same query, every name is known,
-- the limit is an integer, and the path has no dot, no leading underscore and no _embedding at its
-- end.
pub record IsAccepted (args : Document) (q : QueryArgs) : Type 0 where
  pub replica : parse_vector_search_args args ≡ ok q
  pub names : AllKnown args
  pub integer : IsWhole (get "limit" args)
  pub valid : IsValid q
  pub plain : starts_with_char b'_' q.path ≡ false
  pub flat : contains_char b'.' q.path ≡ false
  pub projected : ends_with "_embedding" q.path ≡ false

is_argument-IsKnown : (name : String) → is_argument name ≡ true → IsKnown name
is_argument-IsKnown name h = elim (Bool-cases (name =ₛ "path")) [
  | inl e ↦ inl (=ₛ→eq name "path" e)
  | inr a ↦ elim (Bool-cases (name =ₛ "query")) [
    | inl e ↦ inr (inl (=ₛ→eq name "query" e))
    | inr b ↦ elim (Bool-cases (name =ₛ "limit")) [
      | inl e ↦ inr (inr (inl (=ₛ→eq name "limit" e)))
      | inr c ↦ inr (inr (inr (=ₛ→eq name "filter" (last _ _ _ _ a b c h))))
    ]
  ]
]
  where
    last :
        (a b c d : Bool) → a ≡ false → b ≡ false → c ≡ false → (a || b || c || d) ≡ true → d ≡ true
    last a b c d p q r e = ground arith

is_integer-IsWhole : (limit : Option Bson) → is_integer limit ≡ true → IsWhole limit
is_integer-IsWhole none h = absent
is_integer-IsWhole (some (int32 v)) h = small
is_integer-IsWhole (some (int64 v)) h = large
is_integer-IsWhole (some _) h = cc

check_names-AllKnown : (args : Document) → check_names args ≡ ok tt → AllKnown args
unfolding check_names
check_names-AllKnown end h = tt
check_names-AllKnown (field name value rest) h =
    let (u, e, h1) = >>=-eq-ok (ensure (is_argument name) (unsupported name)) _ h in
    (
      is_argument-IsKnown name (ensure-eq-ok (is_argument name) (unsupported name) e),
      check_names-AllKnown rest h1,
    )

none_of : (a b c : Bool) → not (a || b || c) ≡ true → (a ≡ false) × (b ≡ false) × (c ≡ false)
none_of a b c h = ground arith

-- What a router accepts as arguments of $vectorSearch a replica set parses to the same query, the
-- filter included; its names are among the four that are known, its limit is left out or an integer,
-- and its path is a flat field that is projected.
pub parse-IsAccepted : (args : Document) {q : QueryArgs} → parse args ≡ ok q → IsAccepted args q
unfolding parse
parse-IsAccepted args {q} h =
    let (u, e, h1) = >>=-eq-ok (check_names args) _ h in
    let (u1, e1, h2) = >>=-eq-ok (ensure (is_integer (get "limit" args)) _) _ h1 in
    let (p, e2, h3) = >>=-eq-ok (parse_vector_search_args args) _ h2 in
    let (u2, e3, h4) = >>=-eq-ok (ensure (not (is_reserved p.path)) _) _ h3 in
    let same : p ≡ q = ok-injective h4 in
    let (a, b, c) =
      none_of (starts_with_char b'_' p.path) (contains_char b'.' p.path)
        (ends_with "_embedding" p.path) (ensure-eq-ok _ _ e3) in
    record {
      replica = e2 ∙ ap ok same;
      names = check_names-AllKnown args e;
      integer = is_integer-IsWhole (get "limit" args) (ensure-eq-ok _ _ e1);
      valid = parse_vector_search_args-IsValid args (e2 ∙ ap ok same);
      plain = ap (λ (x : QueryArgs). starts_with_char b'_' x.path) (sym same) ∙ a;
      flat = ap (λ (x : QueryArgs). contains_char b'.' x.path) (sym same) ∙ b;
      projected = ap (λ (x : QueryArgs). ends_with "_embedding" x.path) (sym same) ∙ c;
    }
