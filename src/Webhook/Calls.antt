-- ===== src/Webhook/Calls.antt =====
-- Calls of redis that may fail, and Boolean tests by their parts.
use ethpayserver.Base.{◌≡◌, refl, Bool, true, false, ◌&&◌, ◌||◌, inl, inr, Bool-cases}
use ethpayserver.Webhook.Queue.{Queue, count_call, call}

pub or-right : (a b : Bool) → b ≡ true → (a || b) ≡ true
or-right true b h = refl
or-right false b h = h

pub or-left : (a b : Bool) → a ≡ true → (a || b) ≡ true
or-left a b h = rw h

pub or_assoc : (a b c : Bool) → (a || (b || c)) ≡ ((a || b) || c)
or_assoc true b c = refl
or_assoc false b c = refl

pub and-both : {a b : Bool} → a ≡ true → b ≡ true → (a && b) ≡ true
and-both h k = rw (h, k)

pub or_mono : (a b c : Bool) → (b ≡ true → c ≡ true) → (a || b) ≡ true → (a || c) ≡ true
or_mono true b c f h = refl
or_mono false b c f h = f h

pub or_mono_left : (a b c : Bool) → (a ≡ true → b ≡ true) → (a || c) ≡ true → (b || c) ≡ true
or_mono_left true b c f h = or-left b c (f refl)
or_mono_left false b c f h = or-right b c h

pub and-left : (a b : Bool) → (a && b) ≡ true → a ≡ true
and-left true b h = refl
and-left false b h = h

pub and-right : (a b : Bool) → (a && b) ≡ true → b ≡ true
and-right true b h = h
and-right false b h = cc h

-- A call has failed without an effect, or its answer was lost, or it was answered.
pub call-cases :
    (R : Bool × Queue → Type 0) (f : Queue → Queue) (q : Queue)
    → R (false, count_call q)
    → R (false, f (count_call q))
    → R (true, f (count_call q))
    → R (call f q)
unfolding call
call-cases R f q still lost answered = elim (Bool-cases (q.down q.calls)) [
  | inr up ↦ rw (up, call) answered
  | inl down ↦ elim (Bool-cases (q.lost q.calls)) [
    | inl made ↦ rw (down, made, call) lost
    | inr unmade ↦ rw (down, unmade, call) still
  ]
]

pub call-state :
    (P : Queue → Type 0) (f : Queue → Queue) (q : Queue)
    → P (count_call q)
    → P (f (count_call q))
    → P (call f q).1
call-state P f q still after = call-cases (λ r. P r.1) f q still after after
