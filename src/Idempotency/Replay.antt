-- ===== src/Idempotency/Replay.antt =====
-- A request and its repetition: server/src/api/idempotency.
use Prim.Native.String.{String}
use ethpayserver.Base.{
  ℕ, ◌+◌, ◌<◌, ◌≡◌, refl, ap, ◌∙◌, true, false, not, none, some, [], ◌∷◌, ◌++◌, any, ltb,
  if◌then◌else◌, arith,
}
use ethpayserver.Base.Text.{eq_str, eq_str_iff}
use ethpayserver.Base.Assoc.{insert}
use ethpayserver.Idempotency.Http.{
  Bytes, Request, Response, Crates, lock_ttl_secs, max_response_body, to_bytes,
  collect_cacheable_headers, header_bytes, build_replay_response, conflict_response,
}
use ethpayserver.Idempotency.Cache.{Store, cache_key, lock_key, read, set_ex, delete, count_call}
use ethpayserver.Idempotency.Keys.{lookup-insert, lookup-remove, lock-cache, eq_str_refl}
use ethpayserver.Idempotency.Middleware.{
  Keyed, looking, answered, is_success, enter, cached_entry, proceeds, middleware,
}
use ethpayserver.Idempotency.Interleaved.{wait}
use ethpayserver.Idempotency.Steps.{
  looking-miss, looking-hit, locking-free, handling-good, caching-up, releasing-up,
}

eq_str_flip : (a b : String) → eq_str a b ≡ false → eq_str b a ≡ false
eq_str_flip a b apart = ground (arith, apart, eq_str_iff a b, eq_str_iff b a)

earlier : (now secs ttl : ℕ) → secs < ttl → ltb (now + secs) (now + ttl) ≡ true
earlier now secs ttl h = ground (arith, h)

module _ (x : Crates) (next : ℕ → Request → Response) (ttl_secs : ℕ) where
  module _ (req : Request) (k : Keyed) (s : Store) (bytes : Bytes) (json : String)
      (up : (n : ℕ) → s.down n ≡ false) (keyed : enter x next ttl_secs req ≡ looking k)
      (empty : read (cache_key k.name) s ≡ none) (free : read (lock_key k.name) s ≡ none)
      (good : is_success (next s.runs k.request).status ≡ true)
      (fits : to_bytes max_response_body (next s.runs k.request).body ≡ some bytes)
      (written : x.to_vec (cached_entry x next ttl_secs k (next s.runs k.request) bytes)
        ≡ some json) where
    abbrev response : Response
    response = record (next s.runs k.request) { body = some bytes }

    abbrev ran : Store
    ran = record (set_ex (lock_key k.name) lock_ttl_secs "1" (count_call (count_call s))) {
      runs = s.runs + 1;
    }

    abbrev stored : Store
    stored =
        delete (lock_key k.name)
          (count_call (set_ex (cache_key k.name) ttl_secs json (count_call ran)))

    first-run : middleware x next ttl_secs req s ≡ (answered response, stored)
    unfolding middleware
    first-run =
        ap (λ p. proceeds x next ttl_secs 5 (p, s)) keyed
        ∙ ap (proceeds x next ttl_secs 4) (looking-miss x next ttl_secs k s (up s.calls) empty)
        ∙ ap (proceeds x next ttl_secs 3)
            (locking-free x next ttl_secs k (count_call s) (up (s.calls + 1)) free)
        ∙ ap (proceeds x next ttl_secs 2) (
            handling-good x next ttl_secs k
              (set_ex (lock_key k.name) lock_ttl_secs "1" (count_call (count_call s))) bytes json
              good fits written)
        ∙ ap (proceeds x next ttl_secs 1)
            (caching-up x next ttl_secs k json response ran (up ran.calls))
        ∙ releasing-up x next ttl_secs k response
            (set_ex (cache_key k.name) ttl_secs json (count_call ran)) (up (ran.calls + 1))

    stored-cache :
        (secs : ℕ) → secs < ttl_secs → read (cache_key k.name) (wait secs stored) ≡ some json
    stored-cache secs soon =
        rw
          (
            lookup-remove (cache_key k.name) (lock_key k.name)
                (insert eq_str (cache_key k.name) (json, s.now + ttl_secs) ran.entries),
            eq_str_flip (lock_key k.name) (cache_key k.name) (lock-cache k.name k.name),
            lookup-insert (cache_key k.name) (cache_key k.name) (json, s.now + ttl_secs)
                ran.entries,
            eq_str_refl (cache_key k.name),
            earlier s.now secs ttl_secs soon,
          )
          refl

    again-run :
        (again : Request) (k' : Keyed) (secs : ℕ)
        → enter x next ttl_secs again ≡ looking k'
        → k'.name ≡ k.name
        → secs < ttl_secs
        → x.from_slice json ≡ some (cached_entry x next ttl_secs k (next s.runs k.request) bytes)
        → middleware x next ttl_secs again (wait secs stored) ≡ (
          answered (
              if eq_str k.request_hash k'.request_hash
              then build_replay_response x
                  (cached_entry x next ttl_secs k (next s.runs k.request) bytes)
              else conflict_response),
          count_call (wait secs stored),
        )
    unfolding middleware
    again-run again k' secs keyed' same soon parsed =
        ap (λ p. proceeds x next ttl_secs 5 (p, wait secs stored)) keyed'
        ∙ ap (proceeds x next ttl_secs 4) (
            looking-hit x next ttl_secs k' (wait secs stored) json
              (cached_entry x next ttl_secs k (next s.runs k.request) bytes) (up (stored.calls))
              (ap (λ name. read (cache_key name) (wait secs stored)) same ∙ stored-cache secs soon)
              parsed)

-- A request with a new key whose handler succeeds is answered with that response, and while the cached entry
-- lives, the same request again is answered with the same status and body and the replayable headers, marked as
-- a replay, without a run of the handler. Redis answers every call; the entry is written and parsed without
-- an error, and its status and headers are ones that a response can have.
pub repeated_replays :
    (x : Crates) (next : ℕ → Request → Response) (ttl_secs : ℕ) (req : Request) (k : Keyed)
    (s : Store) (bytes : Bytes) (json : String)
    → ((n : ℕ) → s.down n ≡ false)
    → enter x next ttl_secs req ≡ looking k
    → read (cache_key k.name) s ≡ none
    → read (lock_key k.name) s ≡ none
    → is_success (next s.runs k.request).status ≡ true
    → to_bytes max_response_body (next s.runs k.request).body ≡ some bytes
    → x.to_vec (cached_entry x next ttl_secs k (next s.runs k.request) bytes) ≡ some json
    → x.from_slice json ≡ some (cached_entry x next ttl_secs k (next s.runs k.request) bytes)
    → x.is_status (next s.runs k.request).status ≡ true
    → any
        (λ h. not (x.is_valid_header h))
        (collect_cacheable_headers x (next s.runs k.request).headers)
      ≡ false
    → (again : Request) (k' : Keyed) (secs : ℕ) → enter x next ttl_secs again ≡ looking k'
    → k'.name ≡ k.name
    → k'.request_hash ≡ k.request_hash
    → secs < ttl_secs
    → ((middleware x next ttl_secs req s).0
        ≡ answered (record (next s.runs k.request) { body = some bytes }))
      × (middleware x next ttl_secs again (wait secs (middleware x next ttl_secs req s).1) ≡ (
        answered (record {
          status = (next s.runs k.request).status;
          headers =
              header_bytes x (collect_cacheable_headers x (next s.runs k.request).headers)
              ++ ("idempotency-replayed", x.as_bytes "true") ∷ [];
          body = some bytes;
        }),
        count_call (wait secs (middleware x next ttl_secs req s).1),
      ))
unfolding build_replay_response
repeated_replays x next ttl_secs req k s bytes json up keyed empty free good fits written parsed
      real valid again k' secs keyed' same_name same_hash soon =
    let first =
      first-run x next ttl_secs req k s bytes json up keyed empty free good fits written in
    let second =
      again-run x next ttl_secs req k s bytes json up keyed empty free good fits written again k'
        secs keyed' same_name soon parsed in
    rw first (refl, second ∙ rw (same_hash, eq_str_refl k.request_hash, valid, real) refl)

-- Behind a first run as in `repeated_replays`, with the same conditions: a request with the same key and
-- another hash, while the cached entry lives, is answered with a conflict, without a run of the handler.
pub reused_key_conflicts :
    (x : Crates) (next : ℕ → Request → Response) (ttl_secs : ℕ) (req : Request) (k : Keyed)
    (s : Store) (bytes : Bytes) (json : String)
    → ((n : ℕ) → s.down n ≡ false)
    → enter x next ttl_secs req ≡ looking k
    → read (cache_key k.name) s ≡ none
    → read (lock_key k.name) s ≡ none
    → is_success (next s.runs k.request).status ≡ true
    → to_bytes max_response_body (next s.runs k.request).body ≡ some bytes
    → x.to_vec (cached_entry x next ttl_secs k (next s.runs k.request) bytes) ≡ some json
    → x.from_slice json ≡ some (cached_entry x next ttl_secs k (next s.runs k.request) bytes)
    → (again : Request) (k' : Keyed) (secs : ℕ) → enter x next ttl_secs again ≡ looking k'
    → k'.name ≡ k.name
    → eq_str k.request_hash k'.request_hash ≡ false
    → secs < ttl_secs
    → middleware x next ttl_secs again (wait secs (middleware x next ttl_secs req s).1)
      ≡ (answered conflict_response, count_call (wait secs (middleware x next ttl_secs req s).1))
reused_key_conflicts x next ttl_secs req k s bytes json up keyed empty free good fits written parsed
      again k' secs keyed' same_name other_hash soon =
    rw (first-run x next ttl_secs req k s bytes json up keyed empty free good fits written) (
      again-run x next ttl_secs req k s bytes json up keyed empty free good fits written again k'
        secs keyed' same_name soon parsed
      ∙ rw other_hash refl)
