-- ===== src/Idempotency/Fair.antt =====
-- What an await does to the locks: cache.rs and middleware.rs of server/src/api/idempotency.
use Prim.Native.String.{String}
use ethpayserver.Base.{
  ℕ, ◌≡◌, refl, sym, ◌∙◌, ◌≢◌, ◌⊎◌, true, false, inl, inr, Bool-cases, Option, none, some, is_some,
  if◌then◌else◌, arith,
}
use ethpayserver.Base.Text.{eq_str}
use ethpayserver.Idempotency.Http.{
  Bytes, in_flight_response, Request, Response, Crates, lock_ttl_secs,
}
use ethpayserver.Idempotency.Cache.{
  Store, cache_key, lock_key, read, set_ex, delete, count_call, is_answered, cache_lookup,
  CacheLookup, acquire_lock, release_lock, replay, conflict, miss, error,
}
use ethpayserver.Idempotency.Keys.{
  IsLive, lock-cache, lock-other, eq_str_refl, read-set_ex, read-set_ex_other, read-delete,
  call-cases,
}
use ethpayserver.Idempotency.Middleware.{
  Keyed, Phase, looking, locking, handling, bypassing, caching, releasing, answered, looked_up,
  handled, proceed, serialized, read_body, is_success,
}
use ethpayserver.Idempotency.Interleaved.{holder, guards}

-- `p` may go to `q` between the stores: a lock that `p` does not hold stays, and one that
-- `q` holds is there, which `p` held or nobody did.
pub record IsFair (p q : Phase) (s s' : Store) : Type 0 where
  pub others :
      (name : String) → holder p ≢ some name → IsLive (lock_key name) s → IsLive (lock_key name) s'
  pub own :
      (name : String)
      → holder q ≡ some name
      → ((holder p ≡ some name) × (IsLive (lock_key name) s → IsLive (lock_key name) s'))
        ⊎ ((is_some (read (lock_key name) s) ≡ false) × IsLive (lock_key name) s')

some-injective : {a b : String} → some a ≡ some b → a ≡ b
some-injective e = cc e

answered-up : (s : Store) → is_answered s ≡ true → s.down s.calls ≡ false
answered-up s h = ground (arith, h)

module _ (x : Crates) (next : ℕ → Request → Response) (ttl_secs : ℕ) where
  looked_up-unheld : (k : Keyed) (l : CacheLookup) → holder (looked_up x next ttl_secs k l) ≡ none
  looked_up-unheld k (replay resp) = refl
  looked_up-unheld k conflict = refl
  looked_up-unheld k miss = refl
  looked_up-unheld k error = refl

  serialized-holder :
      (k : Keyed) (response : Response) (json : Option String)
      → holder (serialized x next ttl_secs k response json) ≡ some k.name
  serialized-holder k response none = refl
  serialized-holder k response (some json) = refl

  read_body-holder :
      (k : Keyed) (response : Response) (bytes : Option Bytes)
      → holder (read_body x next ttl_secs k response bytes) ≡ some k.name
  read_body-holder k response none = refl
  read_body-holder k response (some bytes) = serialized-holder k _ _

  handled-holder :
      (k : Keyed) (response : Response) → holder (handled x next ttl_secs k response) ≡ some k.name
  unfolding handled
  handled-holder k response = elim (Bool-cases (is_success response.status)) [
    | inl good ↦ rw good (read_body-holder k response _)
    | inr bad ↦ rw bad refl
  ]

  -- Nothing is taken, and the locks are as before.
  pub idle-IsFair :
      (p q : Phase) (s s' : Store)
      → holder q ≡ none
      → ((name : String)
          → holder p ≢ some name
          → IsLive (lock_key name) s
          → IsLive (lock_key name) s')
      → IsFair p q s s'
  idle-IsFair p q s s' unheld others = record {
    others = others;
    own = λ name held. cc (unheld, held);
  }

  -- The lock is kept.
  keep-IsFair :
      (p q : Phase) (s s' : Store)
      → holder q ≡ holder p
      → ((name : String) → IsLive (lock_key name) s → IsLive (lock_key name) s')
      → IsFair p q s s'
  keep-IsFair p q s s' same kept = record {
    others = λ name unheld there. kept name there;
    own = λ name held. inl (sym same ∙ held, kept name);
  }

  locking-IsFair :
      (k : Keyed) (s : Store)
      → s.down s.calls ≡ false
      → IsFair
          (locking k)
          (if (acquire_lock k.name s).0 then handling k else answered in_flight_response)
          s
          (acquire_lock k.name s).1
  unfolding acquire_lock
  locking-IsFair k s up = elim (Bool-cases (is_some (read (lock_key k.name) s))) [
    | inl taken ↦
        rw (up, taken)
          (idle-IsFair (locking k) (answered in_flight_response) s (count_call s) refl
            (λ name unheld there. there))
    | inr free ↦
        let set = set_ex (lock_key k.name) lock_ttl_secs "1" (count_call s) in
        let kept : (name : String) → IsLive (lock_key name) s → IsLive (lock_key name) set =
          λ name there.
            rw
              (read-set_ex (lock_key name) (lock_key k.name) lock_ttl_secs "1" (count_call s)
                (omega arith))
              (elim (Bool-cases (eq_str (lock_key name) (lock_key k.name))) [
                | inl same ↦ rw same refl
                | inr other ↦ rw other there
              ]) in
        rw (up, free)
          (record {
            others = λ name unheld there. kept name there;
            own = λ name held. inr (
              rw (sym (some-injective held)) free,
              rw
                  (read-set_ex (lock_key name) (lock_key k.name) lock_ttl_secs "1" (count_call s)
                    (omega arith))
                  (rw (some-injective held, eq_str_refl (lock_key name)) refl),
            );
          })
  ]

  pub proceed-IsFair :
      (p : Phase) (s : Store)
      → (guards p ≡ true → is_answered s ≡ true)
      → IsFair p (proceed x next ttl_secs p s).0 s (proceed x next ttl_secs p s).1
  unfolding proceed cache_lookup release_lock
  proceed-IsFair (looking k) s up =
      idle-IsFair (looking k) _ s (count_call s) (looked_up-unheld k _) (λ name unheld there. there)
  proceed-IsFair (locking k) s up = locking-IsFair k s (answered-up s (up refl))
  proceed-IsFair (handling k) s up =
      keep-IsFair (handling k) _ s _ (handled-holder k (next s.runs k.request))
        (λ name there. there)
  proceed-IsFair (bypassing req) s up =
      idle-IsFair (bypassing req) _ s _ refl (λ name unheld there. there)
  proceed-IsFair (caching k json response) s up =
      call-cases (λ s'. IsFair (caching k json response) (releasing k response) s s')
        (set_ex (cache_key k.name) ttl_secs json) s
        (keep-IsFair (caching k json response) (releasing k response) s (count_call s) refl
          (λ name there. there))
        (keep-IsFair (caching k json response) (releasing k response) s _ refl (λ name there.
          rw
            (read-set_ex_other (lock_key name) (cache_key k.name) ttl_secs json (count_call s)
              (lock-cache name k.name))
            there))
  proceed-IsFair (releasing k response) s up =
      call-cases (λ s'. IsFair (releasing k response) (answered response) s s')
        (delete (lock_key k.name)) s
        (idle-IsFair (releasing k response) (answered response) s (count_call s) refl
          (λ name unheld there. there))
        (idle-IsFair (releasing k response) (answered response) s _ refl (λ name unheld there.
          rw
            (
              read-delete (lock_key name) (lock_key k.name) (count_call s),
              lock-other name k.name (λ same. unheld (rw same refl)),
            )
            there))
  proceed-IsFair (answered response) s up =
      idle-IsFair (answered response) _ s s refl (λ name unheld there. there)
