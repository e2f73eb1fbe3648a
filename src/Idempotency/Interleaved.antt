-- ===== src/Idempotency/Interleaved.antt =====
-- Any number of requests at once, one await of one of them after the other.
use Prim.Native.String.{String}
use ethpayserver.Base.{ℕ, ◌+◌, ◌≡◌, Bool, true, false, ◌==◌, Option, none, some, if◌then◌else◌}
use ethpayserver.Idempotency.Http.{Request, Response, Crates}
use ethpayserver.Idempotency.Cache.{Store, lock_key, is_answered}
use ethpayserver.Idempotency.Keys.{IsLive}
use ethpayserver.Idempotency.Middleware.{
  Phase, looking, locking, handling, bypassing, caching, releasing, answered, enter, proceed,
}

-- The name whose lock the request has.
abbrev pub holder : Phase → Option String
holder (looking k) = none
holder (locking k) = none
holder (handling k) = some k.name
holder (bypassing req) = none
holder (caching k json response) = some k.name
holder (releasing k response) = some k.name
holder (answered response) = none

-- The next await is a call whose failure lets the request run without a lock.
abbrev pub guards : Phase → Bool
guards (looking k) = true
guards (locking k) = true
guards (handling k) = false
guards (bypassing req) = false
guards (caching k json response) = false
guards (releasing k response) = false
guards (answered response) = false

pub record System : Type 0 where
  pub store : Store
  pub phase : ℕ → Phase

abbrev pub update : (ℕ → Phase) → ℕ → Phase → ℕ → Phase
update phase i p j = if i == j then p else phase j

abbrev pub wait : ℕ → Store → Store
wait secs s = record s { now = s.now + secs }

module _ (x : Crates) (next : ℕ → Request → Response) (ttl_secs : ℕ) where
  abbrev pub moved : ℕ → System → System
  moved i t = record {
    store = (proceed x next ttl_secs (t.phase i) t.store).1;
    phase = update t.phase i (proceed x next ttl_secs (t.phase i) t.store).0;
  }

  -- The calls that guard the handler are answered, and no lock expires under its holder. A client that
  -- goes away drops its request, which then keeps its lock.
  pub data Step (t : System) : System → Type 0 where
    move : (i : ℕ) → (guards (t.phase i) ≡ true → is_answered t.store ≡ true) → Step t (moved i t)
    drop_request :
        (i : ℕ) (unsent : Response)
        → Step t (record t { phase = update t.phase i (answered unsent) })
    pass :
        (secs : ℕ)
        → ((i : ℕ) (name : String)
            → holder (t.phase i) ≡ some name
            → IsLive (lock_key name) (wait secs t.store))
        → Step t (record t { store = wait secs t.store })

  -- From requests that have made no call yet, on any store.
  pub data Reach (store : Store) (requests : ℕ → Request) : System → Type 0 where
    start :
        Reach store requests
          (record { store = store; phase = λ i. enter x next ttl_secs (requests i) })
    later : {t u : System} → Reach store requests t → Step t u → Reach store requests u
