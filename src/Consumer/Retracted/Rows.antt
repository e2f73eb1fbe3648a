-- ===== src/Consumer/Retracted/Rows.antt =====
-- Rows and groups of payments under the retractions of
-- server/src/services/event_consumer/reorg_handler.rs.
use ethpayserver.Base.{
  ℕ, ◌≡◌, refl, sym, inl, inr, Bool, false, none, List, [], ◌∷◌, ◌++◌, find, Option-cases,
  Bool-cases, Any, arith, ◌==◌,
}
use ethpayserver.Base.Dict.{get}
use ethpayserver.External.{Crates}
use ethpayserver.Database.Rows.{InvoiceStatus, PaymentData, PaymentRow, World}
use ethpayserver.Database.Payments.{has_id, is_unretracted, retract, retract_row, update_first}
use ethpayserver.Database.Payments.Received.{trigger-payments}
use ethpayserver.Database.Invoices.{write_status, set_status}
use ethpayserver.Consumer.Reorg.{push, group_from}

-- No row of the payment `k` counts any more.
abbrev pub IsGone : ℕ → World → Type 0
IsGone k w = find (is_unretracted k) w.payments ≡ none

-- One row at most has the identifier `k`.
abbrev pub IsSingle : ℕ → List PaymentRow → Type 0
IsSingle k [] = Unit
IsSingle k (r ∷ rs) = (r.payment.id ≡ k → find (has_id k) rs ≡ none) × IsSingle k rs

abbrev pub Hits : ℕ → List PaymentData → Type 0
Hits k = Any (λ p. p.id ≡ k)

abbrev pub HitsAny : ℕ → List (ℕ × List PaymentData) → Type 0
HitsAny k = Any (λ g. Hits k g.1)

pub Hits-append-new :
    (k : ℕ) (ps : List PaymentData) (p : PaymentData) → p.id ≡ k → Hits k (ps ++ p ∷ [])
Hits-append-new k [] p h = inl h
Hits-append-new k (q ∷ ps) p h = inr (Hits-append-new k ps p h)

pub Hits-append-old :
    (k : ℕ) (ps : List PaymentData) (p : PaymentData) → Hits k ps → Hits k (ps ++ p ∷ [])
Hits-append-old k [] p (u, none_there) = absurd none_there
Hits-append-old k (q ∷ ps) p (inl h) = inl h
Hits-append-old k (q ∷ ps) p (inr h) = inr (Hits-append-old k ps p h)

pub push-HitsAny-new :
    (k : ℕ) (p : PaymentData) (gs : List (ℕ × List PaymentData)) → p.id ≡ k → HitsAny k (push p gs)
unfolding push
push-HitsAny-new k p [] h = inl (inl h)
push-HitsAny-new k p ((i, ps) ∷ gs) h = elim (Bool-cases (i == p.invoice_id)) [
  | inl this ↦ rw this (inl (Hits-append-new k ps p h))
  | inr other ↦ rw other (inr (push-HitsAny-new k p gs h))
]

pub push-HitsAny-old :
    (k : ℕ) (p : PaymentData) (gs : List (ℕ × List PaymentData))
    → HitsAny k gs
    → HitsAny k (push p gs)
unfolding push
push-HitsAny-old k p [] (u, none_there) = absurd none_there
push-HitsAny-old k p ((i, ps) ∷ gs) h = elim (Bool-cases (i == p.invoice_id)) [
  | inl this ↦ rw this (elim h [ inl a ↦ inl (Hits-append-old k ps p a) | inr b ↦ inr b ])
  | inr other ↦ rw other (elim h [ inl a ↦ inl a | inr b ↦ inr (push-HitsAny-old k p gs b) ])
]

pub group_from-HitsAny-old :
    (k : ℕ) (gs : List (ℕ × List PaymentData)) (ps : List PaymentData)
    → HitsAny k gs
    → HitsAny k (group_from gs ps)
unfolding group_from
group_from-HitsAny-old k gs [] h = h
group_from-HitsAny-old k gs (p ∷ ps) h =
    group_from-HitsAny-old k (push p gs) ps (push-HitsAny-old k p gs h)

pub group_from-HitsAny :
    (k : ℕ) (gs : List (ℕ × List PaymentData)) (ps : List PaymentData)
    → Hits k ps
    → HitsAny k (group_from gs ps)
unfolding group_from
group_from-HitsAny k gs [] (u, none_there) = absurd none_there
group_from-HitsAny k gs (p ∷ ps) (inl h) =
    group_from-HitsAny-old k (push p gs) ps (push-HitsAny-new k p gs h)
group_from-HitsAny k gs (p ∷ ps) (inr h) = group_from-HitsAny k (push p gs) ps h

pub update_first-gone :
    (k id : ℕ) (rs : List PaymentRow)
    → find (is_unretracted k) rs ≡ none
    → find (is_unretracted k) (update_first (is_unretracted id) retract rs) ≡ none
unfolding update_first is_unretracted has_id retract
update_first-gone k id [] h = refl
update_first-gone k id (r ∷ rs) h = ground (arith, update_first-gone k id rs)

pub update_first-has_id :
    (k id : ℕ) (rs : List PaymentRow)
    → find (has_id k) rs ≡ none
    → find (has_id k) (update_first (is_unretracted id) retract rs) ≡ none
unfolding update_first is_unretracted has_id retract
update_first-has_id k id [] h = refl
update_first-has_id k id (r ∷ rs) h = ground (arith, update_first-has_id k id rs)

pub has_id-gone :
    (k : ℕ) (rs : List PaymentRow) → find (has_id k) rs ≡ none → find (is_unretracted k) rs ≡ none
unfolding is_unretracted has_id
has_id-gone k [] h = refl
has_id-gone k (r ∷ rs) h = ground (arith, has_id-gone k rs)

pub update_first-IsSingle :
    (k id : ℕ) (rs : List PaymentRow)
    → IsSingle k rs
    → IsSingle k (update_first (is_unretracted id) retract rs)
unfolding update_first retract
update_first-IsSingle k id [] h = tt
update_first-IsSingle k id (r ∷ rs) h = elim (Bool-cases (is_unretracted id r)) [
  | inl this ↦ rw this h
  | inr other ↦
      rw other ((λ same. update_first-has_id k id rs (h.0 same)), update_first-IsSingle k id rs h.1)
]

pub update_first-retracts :
    (k : ℕ) (rs : List PaymentRow)
    → IsSingle k rs
    → find (is_unretracted k) (update_first (is_unretracted k) retract rs) ≡ none
unfolding update_first is_unretracted has_id retract
update_first-retracts k [] h = refl
update_first-retracts k (r ∷ rs) h = elim (Bool-cases (is_unretracted k r)) [
  | inl this ↦
      let same : r.payment.id ≡ k = ground (arith, this) in
      let now : is_unretracted k (retract r) ≡ false = ground arith in
      rw (this, now) (has_id-gone k rs (h.0 same))
  | inr other ↦ rw (other, other) (update_first-retracts k rs h.1)
]

pub find-none-update :
    (p : PaymentRow → Bool) (f : PaymentRow → PaymentRow) (rs : List PaymentRow)
    → find p rs ≡ none
    → update_first p f rs ≡ rs
unfolding update_first
find-none-update p f [] h = refl
find-none-update p f (r ∷ rs) h = ground (arith, find-none-update p f rs)

-- The payments after `mark_payment_reorged`, whether it found a row or not.
pub retract_row-payments :
    (x : Crates) (id : ℕ) (w : World)
    → (retract_row x id w).1.payments ≡ update_first (is_unretracted id) retract w.payments
unfolding retract_row
retract_row-payments x id w = elim (Option-cases (find (is_unretracted id) w.payments)) [
  | inl none_there ↦
      rw (retract_row, none_there)
        (sym (find-none-update (is_unretracted id) retract w.payments none_there))
  | inr (old, found) ↦
      rw (retract_row, found)
        (trigger-payments x (retract old)
          (record w { payments = update_first (is_unretracted id) retract w.payments }))
]

pub write_status-payments :
    (id : ℕ) (st : InvoiceStatus) (w : World) → (write_status id st w).1.payments ≡ w.payments
unfolding write_status set_status
write_status-payments id st w = elim (Option-cases (get id w.invoices)) [
  | inl missing ↦ rw (write_status, missing) refl
  | inr (inv, found) ↦ rw (write_status, found) refl
]
