-- ===== src/Search/Transport/Guarded.antt =====
-- What is sent to OpenSearch, and which answers are accepted.
use rust_sdk_mongodb_extensi.Prelude.{
  ℕ, ◌≤◌, ◌≡◌, ◌⊎◌, String, true, false, none, some, [], ◌∷◌, ◌++◌, length,
}
use rust_sdk_mongodb_extensi.Errors.{Message, Result, ok, err}
use rust_sdk_mongodb_extensi.Json.{Json}
use rust_sdk_mongodb_extensi.Source.Ops.{Bytes}
use rust_sdk_mongodb_extensi.Search.Transport.{
  max_response_bytes, AwsAuth, load, is_allowed, Request, Received, response, Network, headers,
}

module _ (network : Network) where
  open network use {World, var, to_vec, from_slice, now, sign, send_bytes, sent}

  -- A whole response of status 200 within the limit, whose bytes are read as this value.
  abbrev pub IsWhole : Received → Json → Type 0
  IsWhole received v =
      (bytes : Bytes) × (received ≡ response 200 bytes false)
      × (length bytes ≤ max_response_bytes)
      × (from_slice bytes ≡ ok v)

  -- The value of a whole response, or an error where the answer is no whole response.
  abbrev pub Accepts : Received → Result Message Json → Type 0
  Accepts received (err e) = ¬ ((v : Json) × IsWhole received v)
  Accepts received (ok v) = IsWhole received v

  -- The headers of a request: none where no region is configured, or a signature of what is sent,
  -- over HTTPS or with the override.
  pub IsSigned : Request → Type 0
  IsSigned r =
      ((load var ≡ ok none) × (r.headers ≡ []))
      ⊎ ((auth : AwsAuth) × (time : ℕ) × (load var ≡ ok (some auth))
          × (is_allowed auth r.url ≡ true)
          × (sign auth r.url r.body time ≡ ok r.headers))

  -- Either nothing is sent and there is an error, or one request is, in a world in which nothing else
  -- was sent, and the result is what is accepted of its answer.
  pub data Posts (url : String) (body : Json) (timeout : ℕ) (w : World)
      : Result Message Json × World → Type 0 where
    unsent : {e : Message} {w' : World} → sent w' ≡ sent w → Posts url body timeout w (err e, w')
    posted :
        {result : Result Message Json} (r : Request) (v : World)
        → sent v ≡ sent w
        → sent (send_bytes r v).1 ≡ sent w ++ r ∷ []
        → r.url ≡ url
        → r.timeout ≡ timeout
        → r.redirects ≡ 0
        → to_vec body ≡ ok r.body
        → IsSigned r
        → Accepts (send_bytes r v).0 result
        → Posts url body timeout w (result, (send_bytes r v).1)
