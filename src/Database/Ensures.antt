-- ===== src/Database/Ensures.antt =====
-- What holds of the state when an action succeeds.
use ethpayserver.Base.{◌≡◌, refl, ap, Option, none, some, inl, inr}
use ethpayserver.Database.Rows.{World}
use ethpayserver.Database.Monad.{
  Error, Result, ok, err, M, pure, ◌>>=◌, call, call-cases, tick, or_throw,
}
use ethpayserver.Database.Keeps.{Keeps, IsQuiet}

pub record Ensures {A : Type 0} (P : World → Type 0) (m : M A) (Q : A → World → Type 0)
    : Type 0 where
  pub ensure : (w : World) (a : A) → P w → (m w).0 ≡ ok a → Q a (m w).1

after : {A B : Type 0} → (A → M B) → Result A × World → Result B × World
after f (r, w) = elim r [ ok a ↦ f a w | err e ↦ (err e, w) ]

pub ok-injective : {A : Type 0} {a b : A} → ok a ≡ ok b → a ≡ b
ok-injective h = cc h

ensure_after :
    {A B : Type 0} (f : A → M B) {Q : A → World → Type 0} {R : B → World → Type 0}
    (r : Result A × World) (b : B)
    → ((a : A) → r.0 ≡ ok a → Q a r.1)
    → ((a : A) → Ensures (Q a) (f a) R)
    → (after f r).0 ≡ ok b
    → R b (after f r).1
unfolding after
ensure_after f (ok a, w) b q k e = (k a).ensure w b (q a refl) e
ensure_after f (err e, w) b q k h = cc h

module _ {P : World → Type 0} where
  pub ensure_pure : {A : Type 0} (a : A) → Ensures P (pure a) (λ b w. (a ≡ b) × P w)
  ensure_pure a = record { ensure = λ w b h e. (ok-injective e, h) }

  pub ensure_or_throw :
      {A : Type 0} (o : Option A) (e : Error) → Ensures P (or_throw o e) (λ a w. (o ≡ some a) × P w)
  ensure_or_throw none e = record { ensure = λ w b h e. cc e }
  ensure_or_throw (some a) e = record { ensure = λ w b h e. (ap some (ok-injective e), h) }

  pub ensure_bind :
      {A B : Type 0} {m : M A} {f : A → M B} {Q : A → World → Type 0} {R : B → World → Type 0}
      → Ensures P m Q
      → ((a : A) → Ensures (Q a) (f a) R)
      → Ensures P (m >>= f) R
  unfolding after
  ensure_bind {A} {B} {m} {f} {Q} {R} km kf = record {
    ensure =
        λ w b h e. ensure_after f {Q = Q} {R = R} (m w) b (λ a done. km.ensure w a h done) kf e;
  }

  -- A predicate that is kept holds after a success, too.
  pub ensure_kept : {A : Type 0} {m : M A} → Keeps P m → Ensures P m (λ _. P)
  ensure_kept k = record { ensure = λ w a h e. k.keep w h }

  pub ensure_weaken :
      {A : Type 0} {m : M A} {Q R : A → World → Type 0}
      → Ensures P m Q
      → ((a : A) (w : World) → Q a w → R a w)
      → Ensures P m R
  ensure_weaken k sub = record { ensure = λ w a h e. sub a _ (k.ensure w a h e) }

pub ensure_from :
    {A : Type 0} {P P' : World → Type 0} {m : M A} {Q : A → World → Type 0}
    → ((w : World) → P w → P' w)
    → Ensures P' m Q
    → Ensures P m Q
ensure_from sub k = record { ensure = λ w a h e. k.ensure w a (sub w h) e }

module _ {P : World → Type 0} (quiet : IsQuiet P) where
  -- A call that succeeds ran on the state as it was, but for the number of calls.
  pub ensure_call :
      {A : Type 0} {f : M A} {Q : A → World → Type 0} → Ensures P f Q → Ensures P (call f) Q
  ensure_call {A} {f} {Q} k = record {
    ensure = λ w a h e. elim (call-cases f w) [
      | inl down ↦ cc (ap (λ r. r.0) down, e)
      | inr (inl lost) ↦ cc (ap (λ r. r.0) lost, e)
      | inr (inr up) ↦ rw up (k.ensure (tick w) a (quiet.calls w _ h) (rw up at e))
    ];
  }

  pub ensure_read :
      {A : Type 0} (f : World → A) → Ensures P (call λ w. (ok (f w), w)) (λ a w. (f w ≡ a) × P w)
  ensure_read f = ensure_call (record { ensure = λ w a h e. (ok-injective e, h) })
