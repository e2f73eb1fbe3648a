-- ===== src/Monitor/Pending.antt =====
-- The pending payments under their keys, and what counting confirmations does to them:
-- evm/src/monitor/chain/confirmations.rs.
pub mod Loop
use ethpayserver.Base.{
  ℕ, ◌≡◌, refl, sym, ap, ◌∙◌, ◌↔◌, Bool, true, false, not, ◌&&◌, ◌==◌, ==_iff, inl, inr, Bool-cases,
  List, [], ◌∷◌, ◌++◌, All, map, filter, if◌then◌else◌, arith,
}
use ethpayserver.Base.Int.{ℤ, pos, negsuc, eq_ℤ, eq_ℤ_iff}
use mathlib.Core.List.{append_assoc, append-nil}
use ethpayserver.Event.{PaymentDetected, PaymentConfirmed, MonitorEvent, payment_confirmed}
use ethpayserver.Monitor.State.{
  EvmResult, ok, ChainMonitor, PendingKey, Pending, M, pure, ◌>>=◌, ◌>>◌, send, eq_pending, insert,
  remove,
}
use ethpayserver.Monitor.Reads.{bind-run}
use ethpayserver.Monitor.Confirmations.{
  confirmations_at, update_one, reaches_depth, confirmed_event, entry_key, confirm_each,
  remove_each, set_pending, confirm_pending,
}

eq_ℤ_sym : (i j : ℤ) → eq_ℤ i j ≡ eq_ℤ j i
eq_ℤ_sym (pos a) (pos b) = ground arith
eq_ℤ_sym (negsuc a) (negsuc b) = ground arith
eq_ℤ_sym (pos a) (negsuc b) = refl
eq_ℤ_sym (negsuc a) (pos b) = refl

==-sym : (a b : ℕ) → (a == b) ≡ (b == a)
==-sym a b = ground arith

eq_pending_sym : (a b : PendingKey) → eq_pending a b ≡ eq_pending b a
eq_pending_sym (h, i) (k, j) = cc (==-sym h k, eq_ℤ_sym i j)

eq_pending_refl : (a : PendingKey) → eq_pending a a ≡ true
eq_pending_refl (h, i) = rw ((==_iff h h).1 refl, (eq_ℤ_iff i i).1 refl)

both : (a b : Bool) → (a && b) ≡ true → (a ≡ true) × (b ≡ true)
both true b e = (refl, e)
both false b e = cc e

eq_pending_equal : (a b : PendingKey) → eq_pending a b ≡ true → a ≡ b
eq_pending_equal (h, i) (k, j) e =
    let (same_hash, same_index) = both (h == k) (eq_ℤ i j) e in
    cc ((==_iff h k).0 same_hash, (eq_ℤ_iff i j).0 same_index)

-- No entry has the key.
abbrev pub IsFree : PendingKey → Pending → Type 0
IsFree key [] = Unit {0}
IsFree key ((k, event) ∷ pending) = (eq_pending key k ≡ false) × IsFree key pending

-- Every key has one entry.
abbrev pub AreDistinct : Pending → Type 0
AreDistinct [] = Unit {0}
AreDistinct ((k, event) ∷ pending) = IsFree k pending × AreDistinct pending

IsFree-insert :
    (j k : PendingKey) (e : PaymentDetected) (pending : Pending)
    → eq_pending j k ≡ false
    → IsFree j pending
    → IsFree j (insert eq_pending k e pending)
IsFree-insert j k e [] other free = (other, tt)
IsFree-insert j k e ((i, d) ∷ pending) other (here, free) = elim (Bool-cases (eq_pending k i)) [
  | inl same ↦ rw same (other, free)
  | inr differs ↦ rw differs (here, IsFree-insert j k e pending other free)
]

-- Tracking a payment leaves one entry for each key.
pub insert-AreDistinct :
    (k : PendingKey) (e : PaymentDetected) (pending : Pending)
    → AreDistinct pending
    → AreDistinct (insert eq_pending k e pending)
insert-AreDistinct k e [] distinct = (tt, tt)
insert-AreDistinct k e ((i, d) ∷ pending) (free, distinct) = elim (Bool-cases (eq_pending k i)) [
  | inl same ↦ rw (same, eq_pending_equal k i same) (free, distinct)
  | inr differs ↦ rw differs (
    IsFree-insert i k e pending (eq_pending_sym i k ∙ differs) free,
    insert-AreDistinct k e pending distinct,
  )
]

IsFree-remove :
    (j k : PendingKey) (pending : Pending)
    → IsFree j pending
    → IsFree j (remove eq_pending k pending)
IsFree-remove j k [] free = tt
IsFree-remove j k ((i, d) ∷ pending) (here, free) = elim (Bool-cases (eq_pending k i)) [
  | inl same ↦ rw same (IsFree-remove j k pending free)
  | inr differs ↦ rw differs (here, IsFree-remove j k pending free)
]

remove-AreDistinct :
    (k : PendingKey) (pending : Pending)
    → AreDistinct pending
    → AreDistinct (remove eq_pending k pending)
remove-AreDistinct k [] distinct = tt
remove-AreDistinct k ((i, d) ∷ pending) (free, distinct) = elim (Bool-cases (eq_pending k i)) [
  | inl same ↦ rw same (remove-AreDistinct k pending distinct)
  | inr differs ↦ rw differs (IsFree-remove i k pending free, remove-AreDistinct k pending distinct)
]

pub remove_each-AreDistinct :
    (keys : List PendingKey) (pending : Pending)
    → AreDistinct pending
    → AreDistinct (remove_each keys pending)
unfolding remove_each
remove_each-AreDistinct [] pending distinct = distinct
remove_each-AreDistinct (k ∷ keys) pending distinct =
    remove_each-AreDistinct keys (remove eq_pending k pending)
      (remove-AreDistinct k pending distinct)

update-IsFree :
    (current : ℕ) (k : PendingKey) (pending : Pending)
    → IsFree k pending
    → IsFree k (map (update_one current) pending)
unfolding update_one
update-IsFree current k [] free = tt
update-IsFree current k ((i, d) ∷ pending) (here, free) =
    (here, update-IsFree current k pending free)

pub update-AreDistinct :
    (current : ℕ) (pending : Pending)
    → AreDistinct pending
    → AreDistinct (map (update_one current) pending)
unfolding update_one
update-AreDistinct current [] distinct = tt
update-AreDistinct current ((i, d) ∷ pending) (free, distinct) =
    (update-IsFree current i pending free, update-AreDistinct current pending distinct)

remove-free :
    (k : PendingKey) (pending : Pending) → IsFree k pending → remove eq_pending k pending ≡ pending
remove-free k [] free = refl
remove-free k ((i, d) ∷ pending) (here, free) = rw (here, remove-free k pending free)

-- The keys of the payments that are deep enough, and those that are not.
abbrev pub deep_keys : ℕ → Pending → List PendingKey
deep_keys current pending = map entry_key (filter (reaches_depth current) pending)

abbrev pub is_shallow : ℕ → PendingKey × PaymentDetected → Bool
is_shallow current entry = not (reaches_depth current entry)

-- A head that none of the keys names stays.
remove_each-cons :
    (current : ℕ) (k : PendingKey) (e : PaymentDetected) (pending rest : Pending)
    → IsFree k pending
    → remove_each (deep_keys current pending) ((k, e) ∷ rest)
      ≡ (k, e) ∷ remove_each (deep_keys current pending) rest
unfolding remove_each
remove_each-cons current k e [] rest free = refl
remove_each-cons current k e ((i, d) ∷ pending) rest (here, free) =
    elim (Bool-cases (reaches_depth current (i, d))) [
      | inl deep ↦
          rw (deep, remove_each, eq_pending_sym i k, here)
            (remove_each-cons current k e pending (remove eq_pending i rest) free)
      | inr shallow ↦ rw shallow (remove_each-cons current k e pending rest free)
    ]

pub remove_each-deep :
    (current : ℕ) (pending : Pending)
    → AreDistinct pending
    → remove_each (deep_keys current pending) (map (update_one current) pending)
      ≡ map (update_one current) (filter (is_shallow current) pending)
unfolding remove_each update_one confirmations_at
remove_each-deep current [] distinct = refl
remove_each-deep current ((k, e) ∷ pending) (free, distinct) =
    let rest = map (update_one current) pending in
    let head = record e { confirmations = confirmations_at current e } in
    elim (Bool-cases (reaches_depth current (k, e))) [
      | inl deep ↦
          rw
            (
              deep,
              remove_each,
              eq_pending_refl k,
              remove-free k rest (update-IsFree current k pending free),
            )
            (remove_each-deep current pending distinct)
      | inr shallow ↦
          rw (shallow, remove_each, update_one)
            (remove_each-cons current k head pending rest free
              ∙ ap (◌∷◌ (k, head)) (remove_each-deep current pending distinct))
    ]

abbrev pub confirmation : ℕ → ℕ → PendingKey × PaymentDetected → MonitorEvent
confirmation now current entry = payment_confirmed (confirmed_event now current entry)

confirm_each-run :
    (current : ℕ) (pending : Pending) (s : ChainMonitor)
    → confirm_each current pending s ≡ (
      ok (deep_keys current pending),
      record s {
        sent = s.sent ++ map (confirmation s.now current) (filter (reaches_depth current) pending);
      },
    )
unfolding confirm_each send
confirm_each-run current [] s =
    ap (λ sent. (ok [], record s { sent = sent })) (sym (append-nil s.sent))
confirm_each-run current (entry ∷ pending) s = elim (Bool-cases (reaches_depth current entry)) [
  | inl deep ↦
      let t = record s { sent = s.sent ++ confirmation s.now current entry ∷ [] } in
      rw deep (
        bind-run (confirm_each current pending) (λ keys. pure (entry_key entry ∷ keys)) t
          (confirm_each-run current pending t)
        ∙ ap (λ sent. (ok (entry_key entry ∷ deep_keys current pending), record s { sent = sent }))
            (append_assoc s.sent (confirmation s.now current entry ∷ [])
              (map (confirmation s.now current) (filter (reaches_depth current) pending))))
  | inr shallow ↦ rw shallow (confirm_each-run current pending s)
]

-- The state after the confirmations at block `current` are counted.
abbrev pub counted : ℕ → ChainMonitor → ChainMonitor
counted current s = record s {
  pending = map (update_one current) (filter (is_shallow current) s.pending);
  sent = s.sent ++ map (confirmation s.now current) (filter (reaches_depth current) s.pending);
}

pub confirm_pending-run :
    (current : ℕ) (s : ChainMonitor)
    → AreDistinct s.pending
    → confirm_pending current s ≡ (ok tt, counted current s)
unfolding confirm_pending
confirm_pending-run current s distinct =
    bind-run (confirm_each current s.pending)
      (λ keys. set_pending (remove_each keys (map (update_one current) s.pending))) s
      (confirm_each-run current s.pending s)
    ∙ ap
        (λ pending. (
          ok tt,
          record s {
            pending = pending;
            sent =
                s.sent
                ++ map (confirmation s.now current) (filter (reaches_depth current) s.pending);
          },
        ))
        (remove_each-deep current s.pending distinct)
