-- ===== src/Search/Timeout.antt =====
-- opensearch-extension-core/src/lib.rs: the time that one request to OpenSearch may take.
-- A Duration is its whole milliseconds; a deadline is an i64.
use rust_sdk_mongodb_extensi.Prelude.{
  ℕ, ◌+◌, ◌-◌, min, ◌≡◌, ◌≢◌, ◌↔◌, Bool, Option, none, some, [], ◌∷◌, arith, ◌==◌, if◌then◌else◌,
}
use rust_sdk_mongodb_extensi.Prelude.Int.{
  ℤ, pos, negsuc, pos_part, neg_part, i64_max, ◌≤ℤ◌, saturating_sub, leb_ℤ,
}
use rust_sdk_mongodb_extensi.Errors.{text, runtime, ExtensionError, ExtensionResult, ok, err}

abbrev is_unbounded : ℤ → Bool
is_unbounded (pos n) = n == i64_max
is_unbounded (negsuc n) = Bool.false

abbrev pub deadline_exceeded : ExtensionError
deadline_exceeded = runtime (text "query deadline exceeded before OpenSearch request" ∷ [])

abbrev time_left : ℕ → ℤ → ExtensionResult ℕ
time_left limit remaining =
    if leb_ℤ remaining (pos 0) then err deadline_exceeded else ok (min limit (pos_part remaining))

unfoldable pub request_timeout : Option ℤ → ℤ → ℕ → ExtensionResult ℕ
unfolding saturating_sub
request_timeout none now limit = ok limit
request_timeout (some deadline) now limit =
    if is_unbounded deadline then ok limit else time_left limit (saturating_sub deadline now)

pub request_timeout-eq-err :
    (deadline : Option ℤ) (now : ℤ) (limit : ℕ) {e : ExtensionError}
    → request_timeout deadline now limit ≡ err e
    → e ≡ deadline_exceeded
unfolding request_timeout
request_timeout-eq-err none now limit h = cc
request_timeout-eq-err (some deadline) now limit h = ground arith

-- With a deadline in i64 that is not the marker of no deadline, a request is allowed exactly while
-- the deadline lies ahead, and then it gets the smaller of the limit and the time left, which
-- saturates at the largest i64.
pub request_timeout_iff :
    (deadline now : ℤ) (limit t : ℕ)
    → deadline ≢ pos i64_max
    → (request_timeout (some deadline) now limit ≡ ok t) ↔ (
        ¬ (deadline ≤ℤ now)
        × (t
            ≡ min limit (
                min
                  (pos_part deadline + neg_part now - (neg_part deadline + pos_part now))
                  i64_max)))
unfolding request_timeout
request_timeout_iff deadline now limit t bounded = ground arith
