-- ===== src/Monitor/Reads.antt =====
-- Actions of the monitor that only ask: what they leave alone, and what they answer.
use ethpayserver.Base.{
  ◌≡◌, refl, sym, ap, ◌∙◌, ℕ, Bool, Option, none, some, true, false, List, [], ◌∷◌, ◌++◌,
  if◌then◌else◌,
}
use mathlib.Core.List.{append-nil}
use ethpayserver.Event.{
  PaymentDetected, MonitorEvent, payment_detected, payment_confirmed, reorg_detected,
  monitor_started, monitor_stopped, monitor_error, address_watched, address_unwatched,
  status_report,
}
use ethpayserver.Monitor.State.{
  EvmError, EvmResult, ok, err, ChainMonitor, M, pure, throw, ◌>>=◌, or_throw, lift, ask, send,
}

-- The payments among what was sent.
unfoldable pub detected : List MonitorEvent → List PaymentDetected
detected [] = []
detected (payment_detected e ∷ events) = e ∷ detected events
detected (payment_confirmed _ ∷ events) = detected events
detected (reorg_detected _ ∷ events) = detected events
detected (monitor_started _ ∷ events) = detected events
detected (monitor_stopped _ ∷ events) = detected events
detected (monitor_error _ _ ∷ events) = detected events
detected (address_watched _ ∷ events) = detected events
detected (address_unwatched _ ∷ events) = detected events
detected (status_report _ ∷ events) = detected events

pub detected-append : (xs ys : List MonitorEvent) → detected (xs ++ ys) ≡ detected xs ++ detected ys
unfolding detected
detected-append [] ys = refl
detected-append (payment_detected e ∷ xs) ys = ap (◌∷◌ e) (detected-append xs ys)
detected-append (payment_confirmed _ ∷ xs) ys = detected-append xs ys
detected-append (reorg_detected _ ∷ xs) ys = detected-append xs ys
detected-append (monitor_started _ ∷ xs) ys = detected-append xs ys
detected-append (monitor_stopped _ ∷ xs) ys = detected-append xs ys
detected-append (monitor_error _ _ ∷ xs) ys = detected-append xs ys
detected-append (address_watched _ ∷ xs) ys = detected-append xs ys
detected-append (address_unwatched _ ∷ xs) ys = detected-append xs ys
detected-append (status_report _ ∷ xs) ys = detected-append xs ys

-- The watches, the cursor, the pending and the detected payments are as they were.
pub record IsSame (s s' : ChainMonitor) : Type 0 where
  pub watched : s'.watched ≡ s.watched
  pub last_block : s'.last_block ≡ s.last_block
  pub pending : s'.pending ≡ s.pending
  pub found : detected s'.sent ≡ detected s.sent

pub IsSame-refl : (s : ChainMonitor) → IsSame s s
IsSame-refl s = record { watched = refl; last_block = refl; pending = refl; found = refl }

pub IsSame-trans : {s t u : ChainMonitor} → IsSame s t → IsSame t u → IsSame s u
IsSame-trans p q = record {
  watched = q.watched ∙ p.watched;
  last_block = q.last_block ∙ p.last_block;
  pending = q.pending ∙ p.pending;
  found = q.found ∙ p.found;
}

pub record Reads {A : Type 0} (Q : A → Type 0) (m : M A) : Type 0 where
  pub silent : (s : ChainMonitor) → IsSame s (m s).1
  pub answer : (s : ChainMonitor) (a : A) → (m s).0 ≡ ok a → Q a

pub ok-injective : {A : Type 0} {a b : A} → ok a ≡ ok b → a ≡ b
ok-injective h = cc h

pub read_pure : {A : Type 0} {Q : A → Type 0} (a : A) → Q a → Reads Q (pure a)
read_pure {A} {Q} a q = record {
  silent = IsSame-refl;
  answer = λ s b e. rw (ok-injective (sym e)) q;
}

pub read_throw : {A : Type 0} {Q : A → Type 0} (e : EvmError) → Reads Q (throw e)
read_throw e = record { silent = IsSame-refl; answer = λ s b h. cc h }

pub read_lift :
    {A : Type 0} {Q : A → Type 0} (r : EvmResult A) → ((a : A) → r ≡ ok a → Q a) → Reads Q (lift r)
read_lift r q = record { silent = IsSame-refl; answer = λ s a e. q a e }

pub read_ask :
    {A : Type 0} {Q : A → Type 0} {query : ℕ → EvmResult A}
    → ((n : ℕ) (a : A) → query n ≡ ok a → Q a)
    → Reads Q (ask query)
unfolding ask
read_ask q = record {
  silent = λ s. record { watched = refl; last_block = refl; pending = refl; found = refl };
  answer = λ s a e. q s.asked a e;
}

-- What is sent is no detected payment.
pub read_send :
    (event : MonitorEvent) → detected (event ∷ []) ≡ [] → Reads (λ _. Unit {0}) (send event)
unfolding send
read_send event quiet = record {
  silent = λ s. record {
    watched = refl;
    last_block = refl;
    pending = refl;
    found = detected-append s.sent (event ∷ []) ∙ ap (◌++◌ (detected s.sent)) quiet ∙ append-nil _;
  };
  answer = λ s a e. tt;
}

after : {A B : Type 0} → (A → M B) → EvmResult A × ChainMonitor → EvmResult B × ChainMonitor
after f (r, s) = elim r [ ok a ↦ f a s | err e ↦ (err e, s) ]

after-elim :
    {A B : Type 0} (R : EvmResult B × ChainMonitor → Type 0) (f : A → M B)
    (r : EvmResult A × ChainMonitor)
    → ((e : EvmError) → R (err e, r.1))
    → ((a : A) → r.0 ≡ ok a → R (f a r.1))
    → R (after f r)
unfolding after
after-elim R f (ok a, s) failed done = done a refl
after-elim R f (err e, s) failed done = failed e

-- What follows an action that only asks starts in a state that is the same.
pub after_read :
    {A B : Type 0} {Q : A → Type 0} {m : M A} (R : EvmResult B × ChainMonitor → Type 0)
    (f : A → M B) (s : ChainMonitor)
    → Reads Q m
    → ((e : EvmError) (s' : ChainMonitor) → IsSame s s' → R (err e, s'))
    → ((a : A) (s' : ChainMonitor) → Q a → IsSame s s' → R (f a s'))
    → R ((m >>= f) s)
unfolding after
after_read {A} {B} {Q} {m} R f s reads failed done =
    after-elim R f (m s) (λ e. failed e _ (reads.silent s))
      (λ a e. done a _ (reads.answer s a e) (reads.silent s))

pub read_bind :
    {A B : Type 0} {P : A → Type 0} {Q : B → Type 0} {m : M A} {f : A → M B}
    → Reads P m
    → ((a : A) → P a → Reads Q (f a))
    → Reads Q (m >>= f)
read_bind {A} {B} {P} {Q} {m} {f} rm rf = record {
  silent = λ s.
      after_read (λ r. IsSame s r.1) f s rm (λ e s' same. same)
        (λ a s' p same. IsSame-trans same ((rf a p).silent s'));
  answer = λ s.
      after_read (λ r. (b : B) → r.0 ≡ ok b → Q b) f s rm (λ e s' same b h. cc h)
        (λ a s' p same b h. (rf a p).answer s' b h);
}

pub read_if :
    {A : Type 0} {Q : A → Type 0} (b : Bool) {m k : M A}
    → (b ≡ true → Reads Q m)
    → (b ≡ false → Reads Q k)
    → Reads Q (if b then m else k)
read_if true rm rk = rm refl
read_if false rm rk = rk refl

pub read_or_throw :
    {A : Type 0} {Q : A → Type 0} (o : Option A) (e : EvmError)
    → ((a : A) → Q a)
    → Reads Q (or_throw o e)
read_or_throw none e q = read_throw e
read_or_throw (some a) e q = read_pure a (q a)

pub read_weaken :
    {A : Type 0} {P Q : A → Type 0} {m : M A} → ((a : A) → P a → Q a) → Reads P m → Reads Q m
read_weaken sub r = record { silent = r.silent; answer = λ s a e. sub a (r.answer s a e) }

-- The state is read.
pub read_state :
    {A : Type 0} {Q : A → Type 0} (g : ChainMonitor → M A)
    → ((t : ChainMonitor) → Reads Q (g t))
    → Reads Q (λ s. g s s)
read_state g r = record { silent = λ s. (r s).silent s; answer = λ s. (r s).answer s }

-- An action goes on from the result of the one before.
pub bind-run :
    {A B : Type 0} (m : M A) (f : A → M B) (s : ChainMonitor) {a : A} {t : ChainMonitor}
    → m s ≡ (ok a, t)
    → (m >>= f) s ≡ f a t
unfolding after
bind-run m f s e = ap (after f) e

-- Backwards along an equation.
pub back : {A : Type 0} {a b : A} (P : A → Type 0) → a ≡ b → P b → P a
back P e h = rw e h

-- What an action ends in, from the states of which `P` holds.
pub record Leads {A : Type 0} (P : ChainMonitor → Type 0) (m : M A)
    (R : EvmResult A × ChainMonitor → Type 0) : Type 0 where
  pub run : (s : ChainMonitor) → P s → R (m s)

-- Asking first changes nothing that `P` speaks of.
pub lead_read :
    {A B : Type 0} {Q : A → Type 0} {m : M A} {f : A → M B} {P : ChainMonitor → Type 0}
    {R : EvmResult B × ChainMonitor → Type 0}
    → ((s t : ChainMonitor) → IsSame s t → P s → P t)
    → ((e : EvmError) (s : ChainMonitor) → P s → R (err e, s))
    → Reads Q m
    → ((a : A) → Q a → Leads P (f a) R)
    → Leads P (m >>= f) R
lead_read {A} {B} {Q} {m} {f} {P} {R} keep failed reads next = record {
  run = λ s p.
      after_read R f s reads (λ e t same. failed e t (keep s t same p))
        (λ a t q same. (next a q).run t (keep s t same p));
}

pub lead_if :
    {A : Type 0} {P : ChainMonitor → Type 0} {R : EvmResult A × ChainMonitor → Type 0} (b : Bool)
    {m k : M A}
    → (b ≡ true → Leads P m R)
    → (b ≡ false → Leads P k R)
    → Leads P (if b then m else k) R
lead_if true lm lk = lm refl
lead_if false lm lk = lk refl

follow :
    {A B : Type 0} (S : EvmResult A × ChainMonitor → Type 0)
    (R : EvmResult B × ChainMonitor → Type 0) (f : A → M B) (r : EvmResult A × ChainMonitor)
    → ((e : EvmError) (t : ChainMonitor) → S (err e, t) → R (err e, t))
    → ((a : A) (t : ChainMonitor) → S (ok a, t) → R (f a t))
    → S r
    → R (after f r)
unfolding after
follow S R f (ok a, t) failed done h = done a t h
follow S R f (err e, t) failed done h = failed e t h

pub lead_bind :
    {A B : Type 0} {P : ChainMonitor → Type 0} {S : EvmResult A × ChainMonitor → Type 0}
    {R : EvmResult B × ChainMonitor → Type 0} {m : M A} {f : A → M B}
    → Leads P m S
    → ((e : EvmError) (t : ChainMonitor) → S (err e, t) → R (err e, t))
    → ((a : A) → Leads (λ t. S (ok a, t)) (f a) R)
    → Leads P (m >>= f) R
unfolding after
lead_bind {A} {B} {P} {S} {R} {m} {f} first failed done = record {
  run = λ s p. follow S R f (m s) failed (λ a t h. (done a).run t h) (first.run s p);
}
