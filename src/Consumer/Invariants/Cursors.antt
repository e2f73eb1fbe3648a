-- ===== src/Consumer/Invariants/Cursors.antt =====
-- The stored resume cursors and the handlers of server/src/services/event_consumer.
use ethpayserver.Base.{
  ◌&&◌, ℕ, String, ◌≡◌, refl, ◌∙◌, inl, inr, Option, none, some, Bool, Option-cases, Bool-cases,
  arith, is_some, find,
}
use ethpayserver.Base.Int.{ℤ}
use ethpayserver.Base.Dict.{Dict, get}
use ethpayserver.External.{Crates}
use ethpayserver.Event.{MonitorEvent}
use ethpayserver.Database.Rows.{
  InvoiceStatus, InvoiceData, PaymentData, PaymentRow, World, ChainCursor,
}
use ethpayserver.Database.Monad.{Error, notify, not_found}
use ethpayserver.Database.Keeps.{IsQuiet}
use ethpayserver.Database.Payments.{
  write_payment, insert_payment, merge_payment, trigger, update_one, is_awaiting, confirm,
  retract_row, add_obligation, is_numeric, same_transfer, is_unretracted,
}
use ethpayserver.Database.Invoices.{write_status, expire_row, expire_if, is_open, set_status}
use ethpayserver.Database.Settings.{write_allowance}
use ethpayserver.Consumer.Services.{Services}
use ethpayserver.Consumer.Resume.{handle_event}
use ethpayserver.Consumer.Keeps.{handle_event-Keeps}
use ethpayserver.Consumer.Writes.{IsKeptByRows, IsKeptByRows-IsWritten}

abbrev CursorsAre : Dict ChainCursor → World → Type 0
CursorsAre c w = w.cursors ≡ c

CursorsAre-IsQuiet : (c : Dict ChainCursor) → IsQuiet (CursorsAre c)
unfolding notify
CursorsAre-IsQuiet c = record { calls = λ w n h. h; fresh = λ w n h. h; sent = λ w n h. h }

module _ (x : Crates) where
  trigger-cursors : (r : PaymentRow) (w : World) → (trigger x r w).cursors ≡ w.cursors
  unfolding trigger
  trigger-cursors r w = elim (Option-cases (get r.payment.invoice_id w.invoices)) [
    | inl missing ↦ rw (trigger, missing) refl
    | inr (inv, found) ↦ rw (trigger, found) refl
  ]

  insert_payment-cursors :
      (p : PaymentData) (i : ℤ) (w : World) → (insert_payment x p i w).1.cursors ≡ w.cursors
  unfolding insert_payment
  insert_payment-cursors p i w = elim (Bool-cases (is_some (get p.invoice_id w.invoices))) [
    | inl known ↦ rw known (trigger-cursors _ _)
    | inr unknown ↦ rw unknown refl
  ]

  merge_payment-cursors :
      (p : PaymentData) (i : ℤ) (old : PaymentRow) (w : World)
      → (merge_payment x p i old w).1.cursors ≡ w.cursors
  unfolding merge_payment
  merge_payment-cursors p i old w = trigger-cursors _ _

  write_payment-cursors :
      (p : PaymentData) (i : ℤ) (w : World) → (write_payment x p i w).1.cursors ≡ w.cursors
  unfolding write_payment
  write_payment-cursors p i w =
      elim (Bool-cases (is_numeric x p.credited_amount && is_numeric x p.rate_used)) [
        | inr bad ↦ rw bad refl
        | inl good ↦ elim (Option-cases (find (same_transfer p.chain_id p.tx_hash i) w.payments)) [
          | inl new ↦ rw (good, new) (insert_payment-cursors p i w)
          | inr (old, found) ↦ rw (good, found) (merge_payment-cursors p i old w)
        ]
      ]

  update_one-cursors :
      (p : PaymentRow → Bool) (f : PaymentRow → PaymentRow) (e : Error) (w : World)
      → (update_one x p f e w).1.cursors ≡ w.cursors
  unfolding update_one
  update_one-cursors p f e w = elim (Option-cases (find p w.payments)) [
    | inl none_there ↦ rw (update_one, none_there) refl
    | inr (old, found) ↦ rw (update_one, found) (trigger-cursors _ _)
  ]

  retract_row-cursors : (id : ℕ) (w : World) → (retract_row x id w).1.cursors ≡ w.cursors
  unfolding retract_row
  retract_row-cursors id w = elim (Option-cases (find (is_unretracted id) w.payments)) [
    | inl none_there ↦ rw (retract_row, none_there) refl
    | inr (old, found) ↦ rw (retract_row, found) (trigger-cursors _ _)
  ]

  add_obligation-cursors :
      (id invoice : ℕ) (t : String) (w : World)
      → (add_obligation x id invoice t w).1.cursors ≡ w.cursors
  unfolding add_obligation
  add_obligation-cursors id invoice t w = ground arith

  write_allowance-cursors :
      (id : ℕ) (a b c : String) (w : World) → (write_allowance x id a b c w).1.cursors ≡ w.cursors
  unfolding write_allowance
  write_allowance-cursors id a b c w = ground arith

write_status-cursors :
    (id : ℕ) (st : InvoiceStatus) (w : World) → (write_status id st w).1.cursors ≡ w.cursors
unfolding write_status set_status
write_status-cursors id st w = elim (Option-cases (get id w.invoices)) [
  | inl missing ↦ rw (write_status, missing) refl
  | inr (inv, found) ↦ rw (write_status, found) refl
]

expire_if-cursors :
    (id : ℕ) (inv : Option InvoiceData) (w : World) → (expire_if id inv w).1.cursors ≡ w.cursors
unfolding expire_if set_status
expire_if-cursors id none w = refl
expire_if-cursors id (some inv) w = elim (Bool-cases (is_open inv.status)) [
  | inl now ↦ rw now refl
  | inr later ↦ rw later refl
]

expire_row-cursors : (id : ℕ) (w : World) → (expire_row id w).1.cursors ≡ w.cursors
unfolding expire_row
expire_row-cursors id w = expire_if-cursors id (get id w.invoices) w

CursorsAre-IsKeptByRows : (x : Crates) (c : Dict ChainCursor) → IsKeptByRows x (CursorsAre c)
CursorsAre-IsKeptByRows x c = record {
  quiet = CursorsAre-IsQuiet c;
  payment = λ p i. record { keep = λ w h. write_payment-cursors x p i w ∙ h };
  obligation = λ id i t. record { keep = λ w h. add_obligation-cursors x id i t w ∙ h };
  confirm = λ id at. record {
    keep = λ w h. update_one-cursors x (is_awaiting id) (confirm at) not_found w ∙ h;
  };
  retract = λ id. record { keep = λ w h. retract_row-cursors x id w ∙ h };
  allowance = λ id a b d. record { keep = λ w h. write_allowance-cursors x id a b d w ∙ h };
  status = λ id st. record { keep = λ w h. write_status-cursors id st w ∙ h };
  expiry = λ id. record { keep = λ w h. expire_row-cursors id w ∙ h };
}

-- No event's handler touches the stored resume cursors, whatever fails: only the loop moves them.
pub handle_event-cursors :
    (x : Crates) (s : Services) (cleanup : Option Services) (e : MonitorEvent) (w : World)
    → (handle_event x s cleanup e w).1.cursors ≡ w.cursors
handle_event-cursors x s cleanup e w =
    (handle_event-Keeps (IsKeptByRows-IsWritten (CursorsAre-IsKeptByRows x w.cursors)) s cleanup
        e).keep
      w refl
