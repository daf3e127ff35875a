-- ===== src/Search/Transport.antt =====
-- opensearch-extension-core/src/transport.rs: one request to OpenSearch, signed for AWS where the
-- environment asks for it. The environment, the signer, the clock and the network are parameters.
pub mod Guarded
use Prim.Native.Char.{code}
use Prim.Native.String
use rust_sdk_mongodb_extensi.Prelude.{
  ℕ, suc, ◌*◌, String, Bool, true, false, not, ◌&&◌, ◌||◌, if◌then◌else◌, Option, none, some, List,
  [], ◌∷◌, ◌++◌, ◌≡◌, length, take, leb, ltb, ◌==◌,
}
use rust_sdk_mongodb_extensi.Prelude.Int.{pos}
use rust_sdk_mongodb_extensi.Prelude.Text.{◌=ₛ◌, is_empty, trim}
use rust_sdk_mongodb_extensi.Errors.{
  Message, text, number, Result, ok, err, ◌>>=◌, ◌>>◌, ensure, map_err, ok_or,
}
use rust_sdk_mongodb_extensi.Json.{Json}
use rust_sdk_mongodb_extensi.Source.Ops.{Bytes}
use rust_sdk_mongodb_extensi.Search.Config.{strip_prefix}

-- MAX_RESPONSE_BYTES
abbrev pub max_response_bytes : ℕ
max_response_bytes = 4194304

pub record AwsAuth : Type 0 where
  pub region : String
  pub access_key : String
  pub secret_key : String
  pub session_token : Option String
  pub allow_http : Bool

abbrev is_region_char : ℕ → Bool
is_region_char k = (leb 97 k && leb k 122) || (leb 48 k && leb k 57) || k == 45

unfoldable pub is_region : String → Bool
is_region String.[] = true
is_region (String.◌∷◌ c s) = is_region_char (code c) && is_region s

abbrev filled : Option String → Option String
filled none = none
filled (some v) = if is_empty (trim v) then none else some v

abbrev given : Option String → Option String
given none = none
given (some v) = if is_empty v then none else some v

abbrev says_true : Option String → Bool
says_true none = false
says_true (some v) = v =ₛ "true"

module _ (get : String → Option String) where
  abbrev required : String → Result Message String
  required name = ok_or (text name ∷ text " is required for AWS signing" ∷ []) (filled (get name))

  abbrev pub load_region : Option String → Result Message (Option AwsAuth)
  load_region none = ok none
  load_region (some region) = do
    ensure (not (is_empty region) && is_region region)
        (text "OPENSEARCH_AWS_REGION must be a valid region name" ∷ [])
    access_key ← required "AWS_ACCESS_KEY_ID"
    secret_key ← required "AWS_SECRET_ACCESS_KEY"
    ok (
        some (record {
          region = region;
          access_key = access_key;
          secret_key = secret_key;
          session_token = given (get "AWS_SESSION_TOKEN");
          allow_http = says_true (get "OPENSEARCH_AWS_ALLOW_HTTP");
        }))

  unfoldable pub load : Result Message (Option AwsAuth)
  unfolding is_region trim
  load = load_region (get "OPENSEARCH_AWS_REGION")

-- str::starts_with a text.
abbrev pub has_prefix : String → String → Bool
has_prefix prefix s = elim (strip_prefix prefix s) [ none ↦ false | some rest ↦ true ]

-- HTTPS, or HTTP where the override allows it.
abbrev pub is_allowed : AwsAuth → String → Bool
is_allowed auth url = has_prefix "https://" url || (auth.allow_http && has_prefix "http://" url)

abbrev pub Headers : Type 0
Headers = List (String × String)

-- Which step of the signing failed.
pub data SignFault : Type 0 where
  invalid_parameters : SignFault
  invalid_url : SignFault
  signing_failed : SignFault

abbrev fault_message : SignFault → Message
fault_message invalid_parameters = text "Invalid AWS signing parameters" ∷ []
fault_message invalid_url = text "Invalid AWS request URL" ∷ []
fault_message signing_failed = text "AWS signing failed" ∷ []

-- A request as it is sent: its redirects are how many are followed, and its headers those beside the
-- content type.
pub record Request : Type 0 where
  pub url : String
  pub timeout : ℕ
  pub redirects : ℕ
  pub headers : Headers
  pub body : Bytes

-- What is received: an error, or a response with its status and its bytes, whose reading may fail
-- after the last.
pub data Received : Type 0 where
  status_error : ℕ → Received
  transport_error : Received
  response : (status : ℕ) → Bytes → (broken : Bool) → Received

-- `sent` is what an observer has seen sent.
pub record Network : Type 1 where
  pub World : Type 0
  pub var : String → Option String
  pub to_vec : Json → Result Message Bytes
  pub from_slice : Bytes → Result Message Json
  pub now : World → ℕ × World
  pub sign : AwsAuth → String → Bytes → ℕ → Result SignFault Headers
  pub send_bytes : Request → World → Received × World
  pub sent : World → List Request
  pub now-sent : (w : World) → sent (now w).1 ≡ sent w
  pub send-sent : (r : Request) (w : World) → sent (send_bytes r w).1 ≡ sent w ++ r ∷ []

module _ (network : Network) where
  open network use {World, var, to_vec, from_slice, now, sign, send_bytes}

  unfoldable pub headers : AwsAuth → String → Bytes → ℕ → Result Message Headers
  headers auth url body time = do
    ensure (is_allowed auth url) (
        text "AWS OpenSearch requires HTTPS; HTTP is allowed only with the explicit local override"
        ∷ [])
    map_err fault_message (sign auth url body time)

  abbrev failed : Message
  failed = text "OpenSearch transport failed" ∷ []

  -- The reader is asked for one byte more than the limit, and breaks only if it comes to its end.
  unfoldable pub read_json_capped : Bytes → Bool → ℕ → Result Message Json
  read_json_capped bytes broken max = do
    ensure (not (broken && leb (length bytes) max)) failed
    ensure (leb (length (take (suc max) bytes)) max)
        (text "OpenSearch response too large (limit " ∷ number (pos max) ∷ text " bytes)" ∷ [])
    map_err (λ e. text "Invalid OpenSearch JSON response" ∷ []) (from_slice (take (suc max) bytes))

  abbrev pub answer : Received → Result Message Json
  answer (status_error status) = err (text "OpenSearch HTTP " ∷ number (pos status) ∷ [])
  answer transport_error = err failed
  answer (response status bytes broken) =
      ensure (status == 200) (text "OpenSearch HTTP " ∷ number (pos status) ∷ [])
      >> read_json_capped bytes broken max_response_bytes

  abbrev pub request : String → ℕ → Bytes → Headers → Request
  request url timeout bytes signed = record {
    url = url;
    timeout = timeout;
    redirects = 0;
    headers = signed;
    body = bytes;
  }

  abbrev pub send :
      String → ℕ → Bytes → Result Message Headers → World → Result Message Json × World
  send url timeout bytes (err e) w = (err e, w)
  send url timeout bytes (ok signed) w =
      let (received, w') = send_bytes (request url timeout bytes signed) w in (answer received, w')

  abbrev pub authorize :
      String → ℕ → Bytes → Result Message (Option AwsAuth) → World → Result Message Json × World
  authorize url timeout bytes (err e) w = (err e, w)
  authorize url timeout bytes (ok none) w = send url timeout bytes (ok []) w
  authorize url timeout bytes (ok (some auth)) w =
      let (time, w') = now w in send url timeout bytes (headers auth url bytes time) w'

  abbrev pub encoded : String → ℕ → Result Message Bytes → World → Result Message Json × World
  encoded url timeout (err e) w = (err e, w)
  encoded url timeout (ok bytes) w = authorize url timeout bytes (load var) w

  abbrev pub unencodable : Message → Message
  unencodable e = text "Cannot encode OpenSearch request" ∷ []

  unfoldable pub post_search : String → Json → ℕ → World → Result Message Json × World
  unfolding headers read_json_capped load
  post_search url body timeout w = encoded url timeout (map_err unencodable (to_vec body)) w
