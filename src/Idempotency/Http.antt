-- ===== src/Idempotency/Http.antt =====
-- Requests, responses and keys: config.rs, headers.rs, key.rs and response.rs of
-- server/src/api/idempotency.
use Prim.Native.String.{String, len, slice}
use text.Mathlib.Text.{starts_with}
use ethpayserver.Base.{
  ℕ, Bool, not, ◌||◌, Option, none, some, List, [], ◌∷◌, ◌++◌, any, length, ltb, leb, if◌then◌else◌,
}
use ethpayserver.Base.Text.{eq_str, eq_ignore_case, is_empty_str}
use ethpayserver.Base.Assoc.{lookup}

-- A header's bytes, and a body's.
abbrev pub Bytes : Type 0
Bytes = List ℕ

abbrev pub Headers : Type 0
Headers = List (String × Bytes)

-- A body is none if reading it fails.
pub record Request : Type 0 where
  pub method : String
  pub path : String
  pub headers : Headers
  pub body : Option Bytes

pub record Response : Type 0 where
  pub status : ℕ
  pub headers : Headers
  pub body : Option Bytes

pub record CachedResponse : Type 0 where
  pub request_hash : String
  pub status : ℕ
  pub body : Bytes
  pub headers : List (String × String)

-- The operations of the crates http, sha2 with hex, and serde_json.
pub record Crates : Type 0 where
  -- `HeaderValue::to_str`: the text of visible ASCII characters.
  pub to_str : Bytes → Option String
  pub as_bytes : String → Bytes
  pub is_valid_header : String × String → Bool
  pub is_status : ℕ → Bool
  pub sha256_hex : Bytes → String
  pub to_vec : CachedResponse → Option String
  pub from_slice : String → Option CachedResponse

abbrev pub max_key_length : ℕ
max_key_length = 255

abbrev pub max_request_body : ℕ
max_request_body = 1048576

abbrev pub max_response_body : ℕ
max_response_body = 1048576

abbrev pub lock_ttl_secs : ℕ
lock_ttl_secs = 300

abbrev pub non_replayable_headers : List String
non_replayable_headers =
    "date" ∷ "server" ∷ "connection" ∷ "transfer-encoding" ∷ "content-length" ∷ "keep-alive"
    ∷ "upgrade" ∷ "proxy-authenticate" ∷ "proxy-authorization" ∷ "te" ∷ "trailers"
    ∷ "idempotency-replayed" ∷ []

unfoldable pub is_replayable_header : String → Bool
is_replayable_header name = not (any (λ d. eq_ignore_case name d) non_replayable_headers)

-- `axum::body::to_bytes`: an error for a body over the limit.
abbrev pub to_bytes : ℕ → Option Bytes → Option Bytes
to_bytes limit none = none
to_bytes limit (some bytes) = if leb (length bytes) limit then some bytes else none

module _ (x : Crates) where
  abbrev pub keep_text : String → Option String → List (String × String) → List (String × String)
  keep_text name none rest = rest
  keep_text name (some value) rest = (name, value) ∷ rest

  unfoldable pub collect_cacheable_headers : Headers → List (String × String)
  unfolding is_replayable_header
  collect_cacheable_headers [] = []
  collect_cacheable_headers ((name, value) ∷ headers) =
      let rest = collect_cacheable_headers headers in
      if is_replayable_header name then keep_text name (x.to_str value) rest else rest

  -- The text is ASCII, as `to_str` gives no other.
  unfoldable pub validate_key : Bytes → Option String
  validate_key value = elim (x.to_str value) [
    | none ↦ none
    | some key_str ↦
        if is_empty_str key_str || ltb max_key_length (len key_str) then none else some key_str
  ]

  abbrev pub bearer_token : String → Option String
  bearer_token auth =
      if starts_with auth "Bearer "
      then (let token = slice auth 7 (len auth) in if ltb (len token) 32 then none else some token)
      else none

  abbrev pub token_of : Option Bytes → Option String
  token_of none = none
  token_of (some value) = elim (x.to_str value) [ none ↦ none | some auth ↦ bearer_token auth ]

  unfoldable pub extract_scope : Request → Option String
  extract_scope req = token_of (lookup eq_str "authorization" req.headers)

  unfoldable pub compute_hash : String → String → Bytes → String
  compute_hash method path body =
      x.sha256_hex (x.as_bytes method ++ b':' ∷ x.as_bytes path ++ b':' ∷ body)

  abbrev pub header_bytes : List (String × String) → Headers
  header_bytes [] = []
  header_bytes ((name, value) ∷ headers) = (name, x.as_bytes value) ∷ header_bytes headers

  -- A response of these headers, an error if one of them is no header.
  unfoldable pub build_replay_response : CachedResponse → Response
  build_replay_response cached =
      if any (λ h. not (x.is_valid_header h)) cached.headers
      then record { status = 500; headers = []; body = some [] }
      else record {
        status = if x.is_status cached.status then cached.status else 200;
        headers = header_bytes cached.headers ++ ("idempotency-replayed", x.as_bytes "true") ∷ [];
        body = some cached.body;
      }

-- The bodies of these are JSON texts that name the error.
abbrev pub canned : ℕ → Response
canned status = record { status = status; headers = []; body = some [] }

abbrev pub conflict_response : Response
conflict_response = canned 409

abbrev pub in_flight_response : Response
in_flight_response = canned 425

abbrev pub invalid_key_response : Response
invalid_key_response = canned 400
