-- ===== src/Database/Keeps.antt =====
-- Invariants of calls: a predicate on the state that an action keeps, however it ends.
use ethpayserver.Base.{ℕ, Bool, true, false, Option, none, some, inl, inr, if◌then◌else◌}
use ethpayserver.Database.Rows.{World, Notice}
use ethpayserver.Database.Monad.{
  Error, Result, ok, err, M, pure, throw, ◌>>=◌, ◌>>◌, call, call-cases, tick, or_throw, attempt,
  notify,
}

pub record Keeps {A : Type 0} (P : World → Type 0) (m : M A) : Type 0 where
  pub keep : (w : World) → P w → P (m w).1

-- What every action may change: the number of calls, the identifiers drawn and the notices sent.
pub record IsQuiet (P : World → Type 0) : Type 0 where
  pub calls : (w : World) (n : ℕ) → P w → P (record w { calls = n })
  pub fresh : (w : World) (n : ℕ) → P w → P (record w { fresh = n })
  pub sent : (w : World) (n : Notice) → P w → P (notify n w).1

after : {A B : Type 0} → (A → M B) → Result A × World → Result B × World
after f (r, w) = elim r [ ok a ↦ f a w | err e ↦ (err e, w) ]

module _ {P : World → Type 0} where
  pub keep_pure : {A : Type 0} (a : A) → Keeps P (pure a)
  keep_pure a = record { keep = λ w h. h }

  pub keep_throw : {A : Type 0} (e : Error) → Keeps P (throw {A = A} e)
  keep_throw e = record { keep = λ w h. h }

  pub keep_or_throw : {A : Type 0} (o : Option A) (e : Error) → Keeps P (or_throw o e)
  keep_or_throw none e = record { keep = λ w h. h }
  keep_or_throw (some a) e = record { keep = λ w h. h }

  keep_after :
      {A B : Type 0} (f : A → M B) (r : Result A × World)
      → ((a : A) → Keeps P (f a))
      → P r.1
      → P (after f r).1
  unfolding after
  keep_after f (ok a, w) k h = (k a).keep w h
  keep_after f (err e, w) k h = h

  pub keep_bind :
      {A B : Type 0} {m : M A} {f : A → M B}
      → Keeps P m
      → ((a : A) → Keeps P (f a))
      → Keeps P (m >>= f)
  unfolding after
  keep_bind {A} {B} {m} {f} km kf = record { keep = λ w h. keep_after f (m w) kf (km.keep w h) }

  pub keep_then : {A B : Type 0} {m : M A} {k : M B} → Keeps P m → Keeps P k → Keeps P (m >> k)
  keep_then km kk = keep_bind km (λ _. kk)

  pub keep_attempt : {A : Type 0} {m : M A} → Keeps P m → Keeps P (attempt m)
  keep_attempt km = record { keep = λ w h. km.keep w h }

  pub keep_if :
      {A : Type 0} (b : Bool) {m k : M A} → Keeps P m → Keeps P k → Keeps P (if b then m else k)
  keep_if true km kk = km
  keep_if false km kk = kk

-- The rules that need the predicate to be quiet.
module _ {P : World → Type 0} (quiet : IsQuiet P) where
  pub keep_call : {A : Type 0} {f : M A} → Keeps P f → Keeps P (call f)
  keep_call {A} {f} kf = record {
    keep = λ w h. elim (call-cases f w) [
      | inl down ↦ rw down (quiet.calls w _ h)
      | inr (inl lost) ↦ rw lost (kf.keep (tick w) (quiet.calls w _ h))
      | inr (inr up) ↦ rw up (kf.keep (tick w) (quiet.calls w _ h))
    ];
  }

  -- A call that only reads.
  pub keep_read : {A : Type 0} (f : World → A) → Keeps P (call λ w. (ok (f w), w))
  keep_read f = keep_call (record { keep = λ w h. h })

  pub keep_notify : (n : Notice) → Keeps P (notify n)
  keep_notify n = record { keep = λ w h. quiet.sent w n h }
