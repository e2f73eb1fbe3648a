-- ===== src/Monitor/Succeeds.antt =====
-- Actions of the monitor that return a result, and what a node that is up answers.
use ethpayserver.Base.{
  ℕ, ◌+◌, ◌≡◌, refl, Bool, true, false, Option, none, some, List, if◌then◌else◌,
}
use ethpayserver.Monitor.State.{
  EvmError, EvmResult, ok, err, NativeTransfer, Log, LogFilter, BlockSource, ChainMonitor, M, pure,
  ◌>>=◌, or_throw, lift, ask,
}

-- Every call is answered, and every block that is asked for has a hash.
pub record IsUp (source : BlockSource) : Type 0 where
  pub native :
      (n number : ℕ) (addresses : List ℕ)
      → (ts : List NativeTransfer) × (source.find_native_transfers_to n number addresses ≡ ok ts)
  pub token :
      (n : ℕ) (filter : LogFilter) → (logs : List Log) × (source.get_logs n filter ≡ ok logs)
  pub block_hash : (n number : ℕ) → (hash : ℕ) × (source.get_block_hash n number ≡ ok (some hash))

pub record Succeeds {A : Type 0} (m : M A) : Type 0 where
  pub result : (s : ChainMonitor) → (a : A) × ((m s).0 ≡ ok a)

pub succeed_pure : {A : Type 0} (a : A) → Succeeds (pure a)
succeed_pure a = record { result = λ s. (a, refl) }

pub succeed_ask :
    {A : Type 0} {query : ℕ → EvmResult A}
    → ((n : ℕ) → (a : A) × (query n ≡ ok a))
    → Succeeds (ask query)
unfolding ask
succeed_ask answers = record { result = λ s. answers s.asked }

after : {A B : Type 0} → (A → M B) → EvmResult A × ChainMonitor → EvmResult B × ChainMonitor
after f (r, s) = elim r [ ok a ↦ f a s | err e ↦ (err e, s) ]

after-ok :
    {A B : Type 0} (f : A → M B) (r : EvmResult A × ChainMonitor) (a : A)
    → r.0 ≡ ok a
    → ((a : A) → Succeeds (f a))
    → (b : B) × ((after f r).0 ≡ ok b)
unfolding after
after-ok f (ok a, s) b e next = (next a).result s
after-ok f (err x, s) b e next = cc e

ok_same : {A : Type 0} {a b : A} → ok a ≡ ok b → a ≡ b
ok_same e = cc e

after-found :
    {A B : Type 0} (f : A → M B) (r : EvmResult A × ChainMonitor) (a : A)
    → r.0 ≡ ok a
    → Succeeds (f a)
    → (b : B) × ((after f r).0 ≡ ok b)
unfolding after
after-found f (ok a, s) b e next = rw (ok_same e) (next.result s)
after-found f (err x, s) b e next = cc e

pub succeed_bind :
    {A B : Type 0} {m : M A} {f : A → M B}
    → Succeeds m
    → ((a : A) → Succeeds (f a))
    → Succeeds (m >>= f)
unfolding after
succeed_bind {A} {B} {m} {f} first next = record {
  result = λ s. let (a, e) = first.result s in after-ok f (m s) a e next;
}

pub succeed_if :
    {A : Type 0} (b : Bool) {m k : M A} → Succeeds m → Succeeds k → Succeeds (if b then m else k)
succeed_if true sm sk = sm
succeed_if false sm sk = sk

pub ok-injective : {A : Type 0} {a b : A} → ok a ≡ ok b → a ≡ b
ok-injective e = cc e

pub succeed_state :
    {A : Type 0} (g : ChainMonitor → M A)
    → ((t : ChainMonitor) → Succeeds (g t))
    → Succeeds (λ s. g s s)
succeed_state g sg = record { result = λ s. (sg s).result s }

pub succeed_lift : {A : Type 0} {r : EvmResult A} → (a : A) × (r ≡ ok a) → Succeeds (lift r)
succeed_lift found = record { result = λ s. found }

pub succeed_found :
    {A : Type 0} (o : Option A) (e : EvmError) {a : A} → o ≡ some a → Succeeds (or_throw o e)
succeed_found none e found = cc found
succeed_found (some a) e found = succeed_pure a

-- A call whose answer is known to be one of the node's.
pub succeed_ask_bind :
    {A B : Type 0} {query : ℕ → EvmResult A} {f : A → M B}
    → ((n : ℕ) → (a : A) × (query n ≡ ok a))
    → ((n : ℕ) (a : A) → query n ≡ ok a → Succeeds (f a))
    → Succeeds (ask query >>= f)
unfolding ask after
succeed_ask_bind {A} {B} {query} {f} answers next = record {
  result = λ s.
      let (a, e) = answers s.asked in
      after-found f (query s.asked, record s { asked = s.asked + 1 }) a e (next s.asked a e);
}
