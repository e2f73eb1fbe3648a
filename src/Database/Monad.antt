-- ===== src/Database/Monad.antt =====
-- Calls of the database: state, errors, and failures that come from outside.
use ethpayserver.Base.{
  ◌+◌, ◌≡◌, refl, ap, ◌⊎◌, inl, inr, Bool, true, false, Option, none, some, [], ◌∷◌, ◌++◌,
}
use ethpayserver.Database.Rows.{World, Notice}

-- `RepositoryError` and `EventConsumerError`.
pub data Error : Type 0 where
  unavailable not_found constraint invalid_data : Error

pub data Result {ℓ} (A : Type ℓ) : Type ℓ where
  ok : A → Result A
  err : Error → Result A

abbrev pub M {ℓ} : Type ℓ → Type ℓ
M A = World → Result A × World

abbrev pub pure {ℓ} : {A : Type ℓ} → A → M A
pure a w = (ok a, w)

abbrev pub throw {ℓ} : {A : Type ℓ} → Error → M A
throw e w = (err e, w)

infixl 5 ◌>>=◌ ◌>>◌
abbrev pub ◌>>=◌ {ℓ κ} : {A : Type ℓ} {B : Type κ} → M A → (A → M B) → M B
◌>>=◌ m f w = let (r, w') = m w in elim r [ ok a ↦ f a w' | err e ↦ (err e, w') ]

abbrev pub ◌>>◌ {ℓ κ} : {A : Type ℓ} {B : Type κ} → M A → M B → M B
m >> k = m >>= λ _. k

-- One call of the database, which fails where the n-th call does, with its effect if only the
-- answer is lost.
abbrev pub tick : World → World
tick w = record w { calls = w.calls + 1 }

run_call {ℓ} : {A : Type ℓ} → Bool → Bool → M A → M A
run_call true true f w = (err unavailable, (f (tick w)).1)
run_call true false f w = (err unavailable, tick w)
run_call false lost f w = f (tick w)

unfoldable pub call {ℓ} : {A : Type ℓ} → M A → M A
unfolding run_call
call f w = run_call (w.down w.calls) (w.lost w.calls) f w

-- `.ok_or_else(..)?`.
abbrev pub or_throw {ℓ} : {A : Type ℓ} → Option A → Error → M A
or_throw none e = throw e
or_throw (some a) e = pure a

-- A failure that is only logged.
abbrev pub attempt {ℓ} : {A : Type ℓ} → M A → M (Result A)
attempt m w = let (r, w') = m w in (ok r, w')

unfoldable pub notify : Notice → M (Unit {0})
notify n w = (ok tt, record w { sent = w.sent ++ n ∷ [] })

run_call-cases {ℓ} :
    {A : Type ℓ} (b lost : Bool) (f : M A) (w : World)
    → (run_call b lost f w ≡ (err unavailable, tick w))
      ⊎ (run_call b lost f w ≡ (err unavailable, (f (tick w)).1))
      ⊎ (run_call b lost f w ≡ f (tick w))
unfolding run_call
run_call-cases true false f w = inl refl
run_call-cases true true f w = inr (inl refl)
run_call-cases false lost f w = inr (inr refl)

-- A call fails from outside, before or after its effect, or runs.
pub call-cases {ℓ} :
    {A : Type ℓ} (f : M A) (w : World)
    → (call f w ≡ (err unavailable, tick w))
      ⊎ (call f w ≡ (err unavailable, (f (tick w)).1))
      ⊎ (call f w ≡ f (tick w))
unfolding call
call-cases f w = run_call-cases (w.down w.calls) (w.lost w.calls) f w

-- While the database is up every call runs.
pub call-up {ℓ} :
    {A : Type ℓ} (f : M A) (w : World) → w.down w.calls ≡ false → call f w ≡ f (tick w)
unfolding call
call-up f w up = rw up

after : {A B : Type 0} → (A → M B) → Result A × World → Result B × World
after f (r, w) = elim r [ ok a ↦ f a w | err e ↦ (err e, w) ]

-- A sequence goes on from a result.
pub bind-ok :
    {A B : Type 0} (m : M A) (f : A → M B) (w : World) {a : A} {w' : World}
    → m w ≡ (ok a, w')
    → (m >>= f) w ≡ f a w'
unfolding after
bind-ok m f w h = ap (after f) h

-- A sequence ends at an error.
pub bind-err :
    {A B : Type 0} (m : M A) (f : A → M B) (w : World) {e : Error} {w' : World}
    → m w ≡ (err e, w')
    → (m >>= f) w ≡ (err e, w')
unfolding after
bind-err m f w h = ap (after f) h
