-- ===== src/Idempotency/Steps.antt =====
-- The single calls of a request that goes well: server/src/api/idempotency/middleware.rs and cache.rs.
use Prim.Native.String.{String}
use ethpayserver.Base.{
  ℕ, ◌+◌, ◌≡◌, refl, true, false, inl, inr, Bool-cases, none, some, if◌then◌else◌,
}
use ethpayserver.Base.Text.{eq_str}
use ethpayserver.Idempotency.Http.{
  Bytes, Request, Response, CachedResponse, Crates, lock_ttl_secs, max_response_body, to_bytes,
  build_replay_response, conflict_response,
}
use ethpayserver.Idempotency.Cache.{
  Store, cache_key, lock_key, read, set_ex, delete, count_call, cache_lookup, acquire_lock,
  release_lock,
}
use ethpayserver.Idempotency.Middleware.{
  Keyed, looking, locking, handling, caching, releasing, answered, is_success, cached_entry,
  handled, proceed,
}

module _ (x : Crates) (next : ℕ → Request → Response) (ttl_secs : ℕ) where
  pub looking-miss :
      (k : Keyed) (s : Store)
      → s.down s.calls ≡ false
      → read (cache_key k.name) s ≡ none
      → proceed x next ttl_secs (looking k) s ≡ (locking k, count_call s)
  unfolding proceed cache_lookup
  looking-miss k s up empty = rw (up, empty) refl

  pub looking-hit :
      (k : Keyed) (s : Store) (json : String) (entry : CachedResponse)
      → s.down s.calls ≡ false
      → read (cache_key k.name) s ≡ some json
      → x.from_slice json ≡ some entry
      → proceed x next ttl_secs (looking k) s ≡ (
        answered (
            if eq_str entry.request_hash k.request_hash
            then build_replay_response x entry
            else conflict_response),
        count_call s,
      )
  unfolding proceed cache_lookup
  looking-hit k s json entry up found parsed =
      elim (Bool-cases (eq_str entry.request_hash k.request_hash)) [
        | inl same ↦ rw (up, found, parsed, same) refl
        | inr other ↦ rw (up, found, parsed, other) refl
      ]

  pub locking-free :
      (k : Keyed) (s : Store)
      → s.down s.calls ≡ false
      → read (lock_key k.name) s ≡ none
      → proceed x next ttl_secs (locking k) s
        ≡ (handling k, set_ex (lock_key k.name) lock_ttl_secs "1" (count_call s))
  unfolding proceed acquire_lock
  locking-free k s up free = rw (up, free) refl

  pub handling-good :
      (k : Keyed) (s : Store) (bytes : Bytes) (json : String)
      → is_success (next s.runs k.request).status ≡ true
      → to_bytes max_response_body (next s.runs k.request).body ≡ some bytes
      → x.to_vec (cached_entry x next ttl_secs k (next s.runs k.request) bytes) ≡ some json
      → proceed x next ttl_secs (handling k) s ≡ (
        caching k json (record (next s.runs k.request) { body = some bytes }),
        record s { runs = s.runs + 1 },
      )
  unfolding proceed handled
  handling-good k s bytes json good fits written = rw (good, fits, written) refl

  pub caching-up :
      (k : Keyed) (json : String) (response : Response) (s : Store)
      → s.down s.calls ≡ false
      → proceed x next ttl_secs (caching k json response) s
        ≡ (releasing k response, set_ex (cache_key k.name) ttl_secs json (count_call s))
  unfolding proceed
  caching-up k json response s up = rw up refl

  pub releasing-up :
      (k : Keyed) (response : Response) (s : Store)
      → s.down s.calls ≡ false
      → proceed x next ttl_secs (releasing k response) s
        ≡ (answered response, delete (lock_key k.name) (count_call s))
  unfolding proceed release_lock
  releasing-up k response s up = rw up refl
