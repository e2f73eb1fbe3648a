-- ===== src/Database/Payments/Received.antt =====
-- The running total of an invoice, `amount_received`, against its payments: the trigger of
-- data-service/migrations/postgres and the writes of data-service/src/postgres/payment.rs.
use ethpayserver.Base.{
  ◌&&◌, ℕ, ◌≡◌, refl, ◌∙◌, sym, ap, inl, inr, ◌≢◌, none, some, Bool, false, List, [], ◌∷◌, ◌++◌,
  Option-cases, Bool-cases, arith, is_some, find, ◌==◌, ==_iff, leb, unwrap_or,
}
use mathlib.Core.Option
use ethpayserver.Base.Int.{ℤ}
use ethpayserver.Base.Dict.{get, get-insert}
use ethpayserver.External.{Crates}
use ethpayserver.Database.Rows.{InvoiceData, PaymentData, PaymentRow, World}
use ethpayserver.Database.Monad.{Error, not_found}
use ethpayserver.Database.Payments.{
  write_payment, insert_payment, merge_payment, trigger, update_one, is_awaiting, confirm,
  retract_row, is_numeric, same_transfer, is_unretracted, credited_sum, update_first,
  triggered_status, counts_for, merge, retract, new_row,
}

-- Every invoice's running total is the text of the sum over its payments that count.
abbrev pub IsReceived : Crates → World → Type 0
IsReceived x w =
    (i : ℕ) (inv : InvoiceData)
    → get i w.invoices ≡ some inv
    → inv.amount_received ≡ x.to_string (credited_sum x i w.payments)

-- The same of every invoice but one.
abbrev IsReceivedBut : Crates → ℕ → World → Type 0
IsReceivedBut x k w =
    (i : ℕ) (inv : InvoiceData)
    → i ≢ k
    → get i w.invoices ≡ some inv
    → inv.amount_received ≡ x.to_string (credited_sum x i w.payments)

counts_for-other : (i : ℕ) (r : PaymentRow) → i ≢ r.payment.invoice_id → counts_for i r ≡ false
unfolding counts_for
counts_for-other i r other = ground arith

module _ (x : Crates) where
  credited_sum-append-other :
      (i : ℕ) (r : PaymentRow) (rs : List PaymentRow)
      → i ≢ r.payment.invoice_id
      → credited_sum x i (rs ++ r ∷ []) ≡ credited_sum x i rs
  unfolding credited_sum
  credited_sum-append-other i r [] other = rw (counts_for-other i r other) refl
  credited_sum-append-other i r (q ∷ rs) other = rw (credited_sum-append-other i r rs other) refl

  credited_sum-update_first-other :
      (i : ℕ) (p : PaymentRow → Bool) (f : PaymentRow → PaymentRow) (old : PaymentRow)
      (rs : List PaymentRow)
      → find p rs ≡ some old
      → i ≢ old.payment.invoice_id
      → i ≢ (f old).payment.invoice_id
      → credited_sum x i (update_first p f rs) ≡ credited_sum x i rs
  unfolding credited_sum update_first
  credited_sum-update_first-other i p f old [] found was is_now = refl
  credited_sum-update_first-other i p f old (q ∷ rs) found was is_now = elim (Bool-cases (p q)) [
    | inl this ↦
        let same : q ≡ old = cc (found, this) in
        rw (this, same, counts_for-other i old was, counts_for-other i (f old) is_now) refl
    | inr not_this ↦
        let later : find p rs ≡ some old = rw not_this at found in
        rw (not_this, credited_sum-update_first-other i p f old rs later was is_now) refl
  ]

  pub trigger-payments : (r : PaymentRow) (w : World) → (trigger x r w).payments ≡ w.payments
  unfolding trigger
  trigger-payments r w = elim (Option-cases (get r.payment.invoice_id w.invoices)) [
    | inl missing ↦ rw (trigger, missing) refl
    | inr (inv, found) ↦ rw (trigger, found) refl
  ]

  trigger-other :
      (r : PaymentRow) (w : World) (i : ℕ)
      → i ≢ r.payment.invoice_id
      → get i (trigger x r w).invoices ≡ get i w.invoices
  unfolding trigger
  trigger-other r w i other = elim (Option-cases (get r.payment.invoice_id w.invoices)) [
    | inl missing ↦ rw (trigger, missing) refl
    | inr (inv, found) ↦
        rw (trigger, found, get-insert i r.payment.invoice_id _ w.invoices) (ground arith)
  ]

  trigger-same :
      (r : PaymentRow) (w : World) (inv : InvoiceData)
      → get r.payment.invoice_id (trigger x r w).invoices ≡ some inv
      → inv.amount_received ≡ x.to_string (credited_sum x r.payment.invoice_id w.payments)
  unfolding trigger
  trigger-same r w inv after = elim (Option-cases (get r.payment.invoice_id w.invoices)) [
    | inl missing ↦
        let same : get r.payment.invoice_id (trigger x r w).invoices ≡ none =
          rw (trigger, missing) missing in
        cc (same, after)
    | inr (old, found) ↦
        let same : get r.payment.invoice_id (trigger x r w).invoices
            ≡ some (record old {
              amount_received = x.to_string (credited_sum x r.payment.invoice_id w.payments);
              status = triggered_status r.payment.reorged (leb w.now old.expires_at) old.status;
            }) =
          rw (trigger, found, get-insert r.payment.invoice_id r.payment.invoice_id _ w.invoices)
            (ground arith) in
        ap (λ o. unwrap_or (Option.map (λ (v : InvoiceData). v.amount_received) o) "")
          (sym after ∙ same)
  ]

  trigger-IsReceived :
      (r : PaymentRow) (w : World)
      → IsReceivedBut x r.payment.invoice_id w
      → IsReceived x (trigger x r w)
  trigger-IsReceived r w others i inv known =
      rw (trigger-payments r w) (elim (Bool-cases (i == r.payment.invoice_id)) [
        | inl this ↦
            let here : i ≡ r.payment.invoice_id = (==_iff i r.payment.invoice_id).0 this in
            rw here (trigger-same r w inv (rw here at known))
        | inr other ↦
            let there : i ≢ r.payment.invoice_id = ground arith in
            others i inv there (rw (trigger-other r w i there) at known)
      ])

  -- A row written over another row of the same invoice.
  update-IsReceived :
      (p : PaymentRow → Bool) (f : PaymentRow → PaymentRow) (old : PaymentRow) (w : World)
      → find p w.payments ≡ some old
      → old.payment.invoice_id ≡ (f old).payment.invoice_id
      → IsReceived x w
      → IsReceived x (trigger x (f old) (record w { payments = update_first p f w.payments }))
  update-IsReceived p f old w found same h = trigger-IsReceived (f old) _ (λ i inv other known.
      h i inv known
      ∙ ap x.to_string
          (sym (credited_sum-update_first-other i p f old w.payments found (rw same other) other)))

  insert-IsReceived :
      (r : PaymentRow) (w : World)
      → IsReceived x w
      → IsReceived x (trigger x r (record w { payments = w.payments ++ r ∷ [] }))
  insert-IsReceived r w h = trigger-IsReceived r _ (λ i inv other known.
      h i inv known ∙ ap x.to_string (sym (credited_sum-append-other i r w.payments other)))

  pub update_one-IsReceived :
      (p : PaymentRow → Bool) (f : PaymentRow → PaymentRow) (e : Error) (w : World)
      → ((r : PaymentRow) → r.payment.invoice_id ≡ (f r).payment.invoice_id)
      → IsReceived x w
      → IsReceived x (update_one x p f e w).1
  unfolding update_one
  update_one-IsReceived p f e w same h = elim (Option-cases (find p w.payments)) [
    | inl none_there ↦ rw (update_one, none_there) h
    | inr (old, found) ↦ rw (update_one, found) (update-IsReceived p f old w found (same old) h)
  ]

  pub confirm-IsReceived :
      (id at : ℕ) (w : World)
      → IsReceived x w
      → IsReceived x (update_one x (is_awaiting id) (confirm at) not_found w).1
  unfolding confirm
  confirm-IsReceived id at w = update_one-IsReceived _ (confirm at) not_found w (λ r. refl)

  pub retract_row-IsReceived :
      (id : ℕ) (w : World) → IsReceived x w → IsReceived x (retract_row x id w).1
  unfolding retract_row retract
  retract_row-IsReceived id w h = elim (Option-cases (find (is_unretracted id) w.payments)) [
    | inl none_there ↦ rw (retract_row, none_there) h
    | inr (old, found) ↦
        rw (retract_row, found) (update-IsReceived (is_unretracted id) retract old w found refl h)
  ]

  insert_payment-IsReceived :
      (p : PaymentData) (i : ℤ) (w : World)
      → IsReceived x w
      → IsReceived x (insert_payment x p i w).1
  unfolding insert_payment
  insert_payment-IsReceived p i w h = elim (Bool-cases (is_some (get p.invoice_id w.invoices))) [
    | inl known ↦ rw known (insert-IsReceived (new_row p i) w h)
    | inr unknown ↦ rw unknown h
  ]

  pub write_payment-IsReceived :
      (p : PaymentData) (i : ℤ) (w : World)
      → IsReceived x w
      → IsReceived x (write_payment x p i w).1
  unfolding write_payment merge_payment merge
  write_payment-IsReceived p i w h =
      elim (Bool-cases (is_numeric x p.credited_amount && is_numeric x p.rate_used)) [
        | inr bad ↦ rw bad h
        | inl good ↦ elim (Option-cases (find (same_transfer p.chain_id p.tx_hash i) w.payments)) [
          | inl new ↦ rw (good, new) (insert_payment-IsReceived p i w h)
          | inr (old, found) ↦
              rw (good, found)
                (update-IsReceived (same_transfer p.chain_id p.tx_hash i) (merge p) old w found refl
                  h)
        ]
      ]
