-- ===== src/Idempotency/Keys.antt =====
-- The entries of redis by key, and which keys differ.
use Prim.Native.Char.{code}
use Prim.Native.String.{String, ◌++◌, char_at}
use text.Mathlib.TextLemmas.{append_assoc, append_cancel_left, cons-append, head-eq_of_cons-eq}
use ethpayserver.Base.{
  ℕ, ◌+◌, ◌<◌, ◌≡◌, refl, sym, ap, ◌∙◌, ◌≢◌, true, false, inl, inr, Bool-cases, none, some, is_some,
  List, [], ◌∷◌, ltb, if◌then◌else◌, arith,
}
use ethpayserver.Base.Text.{eq_str, eq_str_iff}
use ethpayserver.Base.Assoc.{lookup, insert, remove}
use ethpayserver.Idempotency.Cache.{
  Store, cache_key, lock_key, read, set_ex, delete, count_call, call,
}

module _ {ℓ} {V : Type ℓ} where
  pub lookup-insert :
      (j k : String) (v : V) (m : List (String × V))
      → lookup eq_str j (insert eq_str k v m) ≡ (if eq_str j k then some v else lookup eq_str j m)
  lookup-insert j k v [] = refl
  lookup-insert j k v ((i, w) ∷ m) =
      ground (arith, eq_str_iff k i, eq_str_iff j k, eq_str_iff j i, lookup-insert j k v m)

  pub lookup-remove :
      (j k : String) (m : List (String × V))
      → lookup eq_str j (remove eq_str k m) ≡ (if eq_str j k then none else lookup eq_str j m)
  lookup-remove j k [] = ground arith
  lookup-remove j k ((i, w) ∷ m) =
      ground (arith, eq_str_iff k i, eq_str_iff j k, eq_str_iff j i, lookup-remove j k m)

pub eq_str_refl : (s : String) → eq_str s s ≡ true
eq_str_refl s = (eq_str_iff s s).1 refl

-- The prefixes differ behind `idem`.
prefixes-differ : (a b : String) → lock_key a ≡ cache_key b → ⊥
prefixes-differ a b same =
    let tails : "_lock:" ++ a ≡ ":" ++ b =
      append_cancel_left "idem" ("_lock:" ++ a) (":" ++ b)
        (sym (append_assoc "idem" "_lock:" a) ∙ same ∙ append_assoc "idem" ":" b) in
    let heads : char_at "_" 0 ≡ char_at ":" 0 =
      head-eq_of_cons-eq
        (sym (cons-append (char_at "_" 0) "lock:" a) ∙ tails ∙ cons-append (char_at ":" 0) "" b) in
    omega (arith, ap code heads)

pub lock-cache : (a b : String) → eq_str (lock_key a) (cache_key b) ≡ false
lock-cache a b = elim (Bool-cases (eq_str (lock_key a) (cache_key b))) [
  | inr apart ↦ apart
  | inl same ↦ absurd (prefixes-differ a b ((eq_str_iff (lock_key a) (cache_key b)).0 same))
]

pub lock-other : (a b : String) → a ≢ b → eq_str (lock_key a) (lock_key b) ≡ false
lock-other a b differ = elim (Bool-cases (eq_str (lock_key a) (lock_key b))) [
  | inr apart ↦ apart
  | inl same ↦
      absurd (
        differ
          (append_cancel_left "idem_lock:" a b ((eq_str_iff (lock_key a) (lock_key b)).0 same)))
]

pub later-lt : (now ttl : ℕ) → 0 < ttl → ltb now (now + ttl) ≡ true
later-lt now ttl h = ground (arith, h)

abbrev pub IsLive : String → Store → Type 0
IsLive key s = is_some (read key s) ≡ true

pub read-set_ex :
    (key k : String) (ttl : ℕ) (value : String) (s : Store)
    → 0 < ttl
    → read key (set_ex k ttl value s) ≡ (if eq_str key k then some value else read key s)
read-set_ex key k ttl value s positive =
    rw (lookup-insert key k (value, s.now + ttl) s.entries) (elim (Bool-cases (eq_str key k)) [
      | inl same ↦ rw same (rw (later-lt s.now ttl positive) refl)
      | inr other ↦ rw other refl
    ])

pub read-set_ex_other :
    (key k : String) (ttl : ℕ) (value : String) (s : Store)
    → eq_str key k ≡ false
    → read key (set_ex k ttl value s) ≡ read key s
read-set_ex_other key k ttl value s other =
    rw (lookup-insert key k (value, s.now + ttl) s.entries, other) refl

pub read-delete :
    (key k : String) (s : Store)
    → read key (delete k s) ≡ (if eq_str key k then none else read key s)
read-delete key k s =
    rw (lookup-remove key k s.entries)
      (elim (Bool-cases (eq_str key k)) [ inl same ↦ rw same refl | inr other ↦ rw other refl ])

-- A call has its effect or not; either way it is counted.
pub call-cases :
    (P : Store → Type 0) (f : Store → Store) (s : Store)
    → P (count_call s)
    → P (f (count_call s))
    → P (call f s)
call-cases P f s lost done = elim (Bool-cases (s.down s.calls)) [
  | inr up ↦ rw up done
  | inl down ↦ elim (Bool-cases (s.lost s.calls)) [
    | inl reached ↦ rw (down, reached) done
    | inr unreached ↦ rw (down, unreached) lost
  ]
]
