-- ===== src/Idempotency/Exclusive.antt =====
-- The lock excludes: cache.rs and middleware.rs of server/src/api/idempotency.
use Prim.Native.String.{String}
use ethpayserver.Base.{
  ℕ, ◌≡◌, refl, sym, ◌∙◌, false, inl, inr, Bool-cases, ◌==◌, ==_iff, Option, none, some, arith,
}
use ethpayserver.Base.Text.{eq_str}
use ethpayserver.Idempotency.Http.{Bytes, Request, Response, Crates}
use ethpayserver.Idempotency.Cache.{Store, lock_key}
use ethpayserver.Idempotency.Keys.{IsLive}
use ethpayserver.Idempotency.Middleware.{
  Phase, answered, with_body, with_scope, with_key, with_header, enter, proceed,
}
use ethpayserver.Idempotency.Interleaved.{
  holder, System, update, Step, move, drop_request, pass, Reach, start, later,
}
use ethpayserver.Idempotency.Fair.{IsFair, idle-IsFair, proceed-IsFair}

==-false : (i j : ℕ) → (i == j) ≡ false → i ≡ j → ⊥
==-false i j apart same = ground (arith, apart, same)

module _ (x : Crates) (next : ℕ → Request → Response) (ttl_secs : ℕ) where
  with_body-unheld :
      (req : Request) (scope key_str : String) (bytes : Option Bytes)
      → holder (with_body x next ttl_secs req scope key_str bytes) ≡ none
  with_body-unheld req scope key_str none = refl
  with_body-unheld req scope key_str (some bytes) = refl

  with_scope-unheld :
      (req : Request) (key_str : String) (scope : Option String)
      → holder (with_scope x next ttl_secs req key_str scope) ≡ none
  with_scope-unheld req key_str none = refl
  with_scope-unheld req key_str (some scope) = with_body-unheld req scope key_str _

  with_key-unheld :
      (req : Request) (key : Option String) → holder (with_key x next ttl_secs req key) ≡ none
  with_key-unheld req none = refl
  with_key-unheld req (some key_str) = with_scope-unheld req key_str _

  with_header-unheld :
      (req : Request) (header : Option Bytes)
      → holder (with_header x next ttl_secs req header) ≡ none
  with_header-unheld req none = refl
  with_header-unheld req (some key_header) = with_key-unheld req _

  enter-unheld : (req : Request) → holder (enter x next ttl_secs req) ≡ none
  unfolding enter
  enter-unheld req = elim (Bool-cases (eq_str req.method "POST")) [
    | inl post ↦ rw post (with_header-unheld req _)
    | inr other ↦ rw other refl
  ]

  -- Who has a lock has it alone, and it is there.
  record Inv (t : System) : Type 0 where
    locked :
        (i : ℕ) (name : String) → holder (t.phase i) ≡ some name → IsLive (lock_key name) t.store
    alone :
        (i j : ℕ) (name : String)
        → holder (t.phase i) ≡ some name
        → holder (t.phase j) ≡ some name
        → i ≡ j

  start-Inv :
      (store : Store) (requests : ℕ → Request)
      → ((i : ℕ) → holder (enter x next ttl_secs (requests i)) ≡ none)
      → Inv (record { store = store; phase = λ i. enter x next ttl_secs (requests i) })
  start-Inv store requests free = record {
    locked = λ i name held. cc (free i, held);
    alone = λ i j name held also. cc (free i, held);
  }

  module _ (t : System) (inv : Inv t) (i : ℕ) (p : Phase) (s : Store)
      (fair : IsFair (t.phase i) p t.store s) where
    abbrev after : System
    after = record { store = s; phase = update t.phase i p }

    other-locked :
        (j : ℕ) (name : String)
        → (i == j) ≡ false
        → holder (t.phase j) ≡ some name
        → IsLive (lock_key name) s
    other-locked j name apart held =
        fair.others name (λ mine. absurd (==-false i j apart (inv.alone i j name mine held)))
          (inv.locked j name held)

    own-locked : (name : String) → holder p ≡ some name → IsLive (lock_key name) s
    own-locked name held = elim (fair.own name held) [
      | inl (mine, kept) ↦ kept (inv.locked i name mine)
      | inr (free, there) ↦ there
    ]

    -- Another that has the same lock cannot be.
    not-both :
        (j : ℕ) (name : String)
        → (i == j) ≡ false
        → holder p ≡ some name
        → holder (t.phase j) ≡ some name
        → ⊥
    not-both j name apart held also = elim (fair.own name held) [
      | inl (mine, kept) ↦ ==-false i j apart (inv.alone i j name mine also)
      | inr (free, there) ↦ cc (free, inv.locked j name also)
    ]

    after-locked :
        (j : ℕ) (name : String)
        → holder (update t.phase i p j) ≡ some name
        → IsLive (lock_key name) s
    after-locked j name = elim (Bool-cases (i == j)) [
      | inl same ↦ rw same (own-locked name)
      | inr apart ↦ rw apart (other-locked j name apart)
    ]

    after-alone :
        (j k : ℕ) (name : String)
        → holder (update t.phase i p j) ≡ some name
        → holder (update t.phase i p k) ≡ some name
        → j ≡ k
    after-alone j k name = elim (Bool-cases (i == j)) [
      | inl same ↦ elim (Bool-cases (i == k)) [
        | inl also ↦ λ h g. sym ((==_iff i j).0 same) ∙ (==_iff i k).0 also
        | inr apart ↦ rw (same, apart) (λ h g. absurd (not-both k name apart h g))
      ]
      | inr apart ↦ elim (Bool-cases (i == k)) [
        | inl also ↦ rw (apart, also) (λ h g. absurd (not-both j name apart g h))
        | inr too ↦ rw (apart, too) (λ h g. inv.alone j k name h g)
      ]
    ]

    after-Inv : Inv after
    after-Inv = record { locked = after-locked; alone = after-alone }

  Step-Inv : {t u : System} → Step x next ttl_secs t u → Inv t → Inv u
  Step-Inv {t} (move i up) inv =
      after-Inv t inv i (proceed x next ttl_secs (t.phase i) t.store).0
        (proceed x next ttl_secs (t.phase i) t.store).1
        (proceed-IsFair x next ttl_secs (t.phase i) t.store up)
  Step-Inv {t} (drop_request i unsent) inv = after-Inv t inv i (answered unsent) t.store (
      idle-IsFair x next ttl_secs (t.phase i) (answered unsent) t.store t.store refl
        (λ name unheld there. there))
  Step-Inv (pass secs kept) inv = record { locked = kept; alone = inv.alone }

  Reach-Inv :
      {store : Store} {requests : ℕ → Request} {t : System}
      → Reach x next ttl_secs store requests t
      → Inv t
  Reach-Inv {store} {requests} start = start-Inv store requests (λ i. enter-unheld (requests i))
  Reach-Inv (later r st) = Step-Inv st (Reach-Inv r)

-- Any number of requests, in any interleaving of their awaits, with clients that go away: while redis
-- answers the reads and the locking, and no lock expires before its holder is done, at most one request
-- of a key is between its locking and its release, handler included.
pub exclusive :
    (x : Crates) (next : ℕ → Request → Response) (ttl_secs : ℕ) (store : Store)
    (requests : ℕ → Request) (t : System)
    → Reach x next ttl_secs store requests t
    → (i j : ℕ) (name : String) → holder (t.phase i) ≡ some name
    → holder (t.phase j) ≡ some name
    → i ≡ j
exclusive x next ttl_secs store requests t reached = (Reach-Inv x next ttl_secs reached).alone
