-- ===== src/Consumer/Invariants/Unique.antt =====
-- The keys of the payments and the handlers of server/src/services/event_consumer.
use ethpayserver.Base.{ℕ, String, inl, inr, Option, none, some, Option-cases, Bool-cases, arith}
use ethpayserver.Base.Dict.{get}
use ethpayserver.External.{Crates}
use ethpayserver.Event.{MonitorEvent}
use ethpayserver.Database.Rows.{InvoiceStatus, InvoiceData, World}
use ethpayserver.Database.Monad.{notify}
use ethpayserver.Database.Keeps.{IsQuiet}
use ethpayserver.Database.Payments.{add_obligation}
use ethpayserver.Database.Payments.Unique.{
  IsUnique, write_payment-IsUnique, confirm-IsUnique, retract_row-IsUnique,
}
use ethpayserver.Database.Invoices.{write_status, expire_row, expire_if, is_open, set_status}
use ethpayserver.Database.Settings.{write_allowance}
use ethpayserver.Consumer.Services.{Services}
use ethpayserver.Consumer.Resume.{handle_event}
use ethpayserver.Consumer.Keeps.{handle_event-Keeps}
use ethpayserver.Consumer.Writes.{IsKeptByRows, IsKeptByRows-IsWritten}

quiet : IsQuiet IsUnique
unfolding notify
quiet = record { calls = λ w n h. h; fresh = λ w n h. h; sent = λ w n h. h }

write_status-IsUnique :
    (id : ℕ) (st : InvoiceStatus) (w : World) → IsUnique w → IsUnique (write_status id st w).1
unfolding write_status set_status
write_status-IsUnique id st w h = elim (Option-cases (get id w.invoices)) [
  | inl missing ↦ rw (write_status, missing) h
  | inr (old, known) ↦ rw (write_status, known) h
]

expire_if-IsUnique :
    (id : ℕ) (o : Option InvoiceData) (w : World) → IsUnique w → IsUnique (expire_if id o w).1
unfolding expire_if set_status
expire_if-IsUnique id none w h = h
expire_if-IsUnique id (some old) w h = elim (Bool-cases (is_open old.status)) [
  | inl now ↦ rw now h
  | inr later ↦ rw later h
]

expire_row-IsUnique : (id : ℕ) (w : World) → IsUnique w → IsUnique (expire_row id w).1
unfolding expire_row
expire_row-IsUnique id w h = expire_if-IsUnique id (get id w.invoices) w h

module _ (x : Crates) where
  add_obligation-IsUnique :
      (id invoice : ℕ) (t : String) (w : World)
      → IsUnique w
      → IsUnique (add_obligation x id invoice t w).1
  unfolding add_obligation
  add_obligation-IsUnique id invoice t w h = ground (arith, h)

  write_allowance-IsUnique :
      (id : ℕ) (a b c : String) (w : World) → IsUnique w → IsUnique (write_allowance x id a b c w).1
  unfolding write_allowance
  write_allowance-IsUnique id a b c w h = ground (arith, h)

  IsUnique-IsKeptByRows : IsKeptByRows x IsUnique
  IsUnique-IsKeptByRows = record {
    quiet = quiet;
    payment = λ p i. record { keep = write_payment-IsUnique x p i };
    obligation = λ id i t. record { keep = add_obligation-IsUnique id i t };
    confirm = λ id at. record { keep = confirm-IsUnique x id at };
    retract = λ id. record { keep = retract_row-IsUnique x id };
    allowance = λ id a b d. record { keep = write_allowance-IsUnique id a b d };
    status = λ id st. record { keep = write_status-IsUnique id st };
    expiry = λ id. record { keep = expire_row-IsUnique id };
  }

  -- Every event's handler, wherever it ends, leaves at most one payment for each transfer, which
  -- is a chain, a transaction and an index in it, if there was at most one before: a transfer that
  -- is detected again adds no second row.
  pub handle_event-IsUnique :
      (s : Services) (cleanup : Option Services) (e : MonitorEvent) (w : World)
      → IsUnique w
      → IsUnique (handle_event x s cleanup e w).1
  handle_event-IsUnique s cleanup e w h =
      (handle_event-Keeps (IsKeptByRows-IsWritten IsUnique-IsKeptByRows) s cleanup e).keep w h
