-- ===== src/Idempotency/Cache.antt =====
-- The cached responses and the locks in redis: cache.rs of server/src/api/idempotency.
-- An entry is there until its time; a call may fail, in any pattern, and then have had its effect or not.
use Prim.Native.String.{String, ◌++◌}
use ethpayserver.Base.{
  ℕ, ◌+◌, Bool, true, false, Option, none, some, is_some, List, ltb, if◌then◌else◌,
}
use ethpayserver.Base.Text.{eq_str}
use ethpayserver.Base.Assoc.{lookup, insert, remove}
use ethpayserver.Idempotency.Http.{
  Response, CachedResponse, Crates, lock_ttl_secs, build_replay_response,
}

pub record Store : Type 0 where
  pub entries : List (String × (String × ℕ))
  pub now : ℕ
  pub calls : ℕ
  pub down : ℕ → Bool
  pub lost : ℕ → Bool
  -- How often the handler ran.
  pub runs : ℕ

-- The part of both keys behind their prefix is `{scope}:{key}`.
abbrev pub cache_key : String → String
cache_key name = "idem:" ++ name

abbrev pub lock_key : String → String
lock_key name = "idem_lock:" ++ name

abbrev pub live : ℕ → Option (String × ℕ) → Option String
live now none = none
live now (some (value, expires)) = if ltb now expires then some value else none

-- `GET`, `SET EX` and `DEL`.
abbrev pub read : String → Store → Option String
read key s = live s.now (lookup eq_str key s.entries)

abbrev pub set_ex : String → ℕ → String → Store → Store
set_ex key ttl value s = record s { entries = insert eq_str key (value, s.now + ttl) s.entries }

abbrev pub delete : String → Store → Store
delete key s = record s { entries = remove eq_str key s.entries }

abbrev pub count_call : Store → Store
count_call s = record s { calls = s.calls + 1 }

-- Whether the call is answered, and the state behind it.
abbrev pub is_answered : Store → Bool
is_answered s = if s.down s.calls then false else true

abbrev pub call : (Store → Store) → Store → Store
call f s =
    if s.down s.calls
    then (if s.lost s.calls then f (count_call s) else count_call s)
    else f (count_call s)

pub data CacheLookup : Type 0 where
  replay : Response → CacheLookup
  conflict miss error : CacheLookup

module _ (x : Crates) where
  abbrev pub classify : String → Option CachedResponse → CacheLookup
  classify request_hash none = miss
  classify request_hash (some entry) =
      if eq_str entry.request_hash request_hash
      then replay (build_replay_response x entry)
      else conflict

  abbrev pub parse_entry : String → Option String → CacheLookup
  parse_entry request_hash none = miss
  parse_entry request_hash (some bytes) = classify request_hash (x.from_slice bytes)

  unfoldable pub cache_lookup : String → String → Store → CacheLookup × Store
  cache_lookup name request_hash s = (
    (if is_answered s then parse_entry request_hash (read (cache_key name) s) else error),
    count_call s,
  )

-- `SET NX EX`: whether the lock was taken, or the call failed.
abbrev pub set_nx : String → Store → Store
set_nx key s = if is_some (read key s) then s else set_ex key lock_ttl_secs "1" s

unfoldable pub acquire_lock : String → Store → Bool × Store
acquire_lock name s = (
  (if is_answered s then (if is_some (read (lock_key name) s) then false else true) else true),
  call (set_nx (lock_key name)) s,
)

unfoldable pub release_lock : String → Store → Store
release_lock name s = call (delete (lock_key name)) s
