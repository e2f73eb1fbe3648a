-- ===== src/Idempotency/Middleware.antt =====
-- The layer between its awaits: middleware.rs and `handle_and_cache` of cache.rs in
-- server/src/api/idempotency.
use Prim.Native.String.{String, ◌++◌}
use ethpayserver.Base.{ℕ, zero, suc, ◌+◌, Bool, ◌&&◌, Option, none, some, leb, ltb, if◌then◌else◌}
use ethpayserver.Base.Text.{eq_str}
use ethpayserver.Base.Assoc.{lookup}
use ethpayserver.Idempotency.Http.{
  Bytes, Request, Response, CachedResponse, Crates, max_request_body, max_response_body, to_bytes,
  collect_cacheable_headers, validate_key, extract_scope, compute_hash, canned, conflict_response,
  in_flight_response, invalid_key_response,
}
use ethpayserver.Idempotency.Cache.{
  Store, cache_key, set_ex, call, CacheLookup, replay, conflict, miss, error, cache_lookup,
  acquire_lock, release_lock,
}

-- A request with its key; the name is `{scope}:{key}`.
pub record Keyed : Type 0 where
  pub request : Request
  pub name : String
  pub request_hash : String

-- Where a request stands: before the `GET`, before the `SET NX`, in the handler with the lock, in the
-- handler without it, before the `SETEX`, before the `DEL`, or answered.
pub data Phase : Type 0 where
  looking locking handling : Keyed → Phase
  bypassing : Request → Phase
  caching : Keyed → String → Response → Phase
  releasing : Keyed → Response → Phase
  answered : Response → Phase

abbrev pub is_success : ℕ → Bool
is_success status = leb 200 status && ltb status 300

module _ (x : Crates) (next : ℕ → Request → Response) (ttl_secs : ℕ) where
  abbrev pub with_body : Request → String → String → Option Bytes → Phase
  with_body req scope key_str none = answered (canned 413)
  with_body req scope key_str (some bytes) = looking (record {
    request = record req { body = some bytes };
    name = scope ++ ":" ++ key_str;
    request_hash = compute_hash x req.method req.path bytes;
  })

  abbrev pub with_scope : Request → String → Option String → Phase
  with_scope req key_str none = bypassing req
  with_scope req key_str (some scope) =
      with_body req scope key_str (to_bytes max_request_body req.body)

  abbrev pub with_key : Request → Option String → Phase
  with_key req none = answered invalid_key_response
  with_key req (some key_str) = with_scope req key_str (extract_scope x req)

  abbrev pub with_header : Request → Option Bytes → Phase
  with_header req none = bypassing req
  with_header req (some key_header) = with_key req (validate_key x key_header)

  -- Up to the first await.
  unfoldable pub enter : Request → Phase
  unfolding validate_key extract_scope compute_hash
  enter req =
      if eq_str req.method "POST"
      then with_header req (lookup eq_str "idempotency-key" req.headers)
      else bypassing req

  abbrev pub looked_up : Keyed → CacheLookup → Phase
  looked_up k (replay resp) = answered resp
  looked_up k conflict = answered conflict_response
  looked_up k miss = locking k
  looked_up k error = bypassing k.request

  abbrev pub serialized : Keyed → Response → Option String → Phase
  serialized k response none = releasing k response
  serialized k response (some json) = caching k json response

  abbrev pub cached_entry : Keyed → Response → Bytes → CachedResponse
  cached_entry k response bytes = record {
    request_hash = k.request_hash;
    status = response.status;
    body = bytes;
    headers = collect_cacheable_headers x response.headers;
  }

  abbrev pub read_body : Keyed → Response → Option Bytes → Phase
  read_body k response none = releasing k (canned 500)
  read_body k response (some bytes) =
      serialized k (record response { body = some bytes })
        (x.to_vec (cached_entry k response bytes))

  unfoldable pub handled : Keyed → Response → Phase
  unfolding collect_cacheable_headers
  handled k response =
      if is_success response.status
      then read_body k response (to_bytes max_response_body response.body)
      else releasing k response

  -- To the next await, which is a call of redis or the handler's run.
  unfoldable pub proceed : Phase → Store → Phase × Store
  unfolding handled cache_lookup acquire_lock release_lock
  proceed (looking k) s =
      let found = cache_lookup x k.name k.request_hash s in (looked_up k found.0, found.1)
  proceed (locking k) s =
      let taken = acquire_lock k.name s in
      ((if taken.0 then handling k else answered in_flight_response), taken.1)
  proceed (handling k) s = (handled k (next s.runs k.request), record s { runs = s.runs + 1 })
  proceed (bypassing req) s = (answered (next s.runs req), record s { runs = s.runs + 1 })
  proceed (caching k json response) s =
      (releasing k response, call (set_ex (cache_key k.name) ttl_secs json) s)
  proceed (releasing k response) s = (answered response, release_lock k.name s)
  proceed (answered response) s = (answered response, s)

  abbrev pub proceeds : ℕ → Phase × Store → Phase × Store
  proceeds zero (p, s) = (p, s)
  proceeds (suc n) (p, s) = proceeds n (proceed p s)

  -- A request that is alone: five awaits at most.
  unfoldable pub middleware : Request → Store → Phase × Store
  unfolding enter proceed
  middleware req s = proceeds 5 (enter req, s)
