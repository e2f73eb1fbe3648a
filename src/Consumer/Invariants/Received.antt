-- ===== src/Consumer/Invariants/Received.antt =====
-- The running totals of the invoices and the handlers of server/src/services/event_consumer.
use ethpayserver.Base.{
  ℕ, String, ◌≡◌, refl, ◌∙◌, sym, inl, inr, Option, none, some, Option-cases, Bool-cases, arith,
  ◌==◌, ==_iff,
}
use ethpayserver.Base.Dict.{get, get-insert}
use ethpayserver.External.{Crates}
use ethpayserver.Event.{MonitorEvent}
use ethpayserver.Database.Rows.{InvoiceStatus, expired, InvoiceData, World}
use ethpayserver.Database.Monad.{notify}
use ethpayserver.Database.Keeps.{IsQuiet}
use ethpayserver.Database.Payments.{add_obligation}
use ethpayserver.Database.Payments.Received.{
  IsReceived, write_payment-IsReceived, confirm-IsReceived, retract_row-IsReceived,
}
use ethpayserver.Database.Invoices.{write_status, expire_row, expire_if, is_open, set_status}
use ethpayserver.Database.Settings.{write_allowance}
use ethpayserver.Consumer.Services.{Services}
use ethpayserver.Consumer.Resume.{handle_event}
use ethpayserver.Consumer.Keeps.{handle_event-Keeps}
use ethpayserver.Consumer.Writes.{IsKeptByRows, IsKeptByRows-IsWritten}

module _ (x : Crates) where
  quiet : IsQuiet (IsReceived x)
  unfolding notify
  quiet = record { calls = λ w n h. h; fresh = λ w n h. h; sent = λ w n h. h }

  set_status-IsReceived :
      (id : ℕ) (st : InvoiceStatus) (old : InvoiceData) (w : World)
      → get id w.invoices ≡ some old
      → IsReceived x w
      → IsReceived x (set_status id st old w)
  unfolding set_status
  set_status-IsReceived id st old w known h i inv found = elim (Bool-cases (i == id)) [
    | inl this ↦
        let here : i ≡ id = (==_iff i id).0 this in
        let changed : some (record old { status = st }) ≡ some inv =
          ground (arith, found, get-insert i id (record old { status = st }) w.invoices) in
        let text : old.amount_received ≡ inv.amount_received = cc changed in
        sym text ∙ h i old (rw here known)
    | inr other ↦
        h i inv (ground (arith, found, get-insert i id (record old { status = st }) w.invoices))
  ]

  write_status-IsReceived :
      (id : ℕ) (st : InvoiceStatus) (w : World)
      → IsReceived x w
      → IsReceived x (write_status id st w).1
  unfolding write_status
  write_status-IsReceived id st w h = elim (Option-cases (get id w.invoices)) [
    | inl missing ↦ rw (write_status, missing) h
    | inr (old, known) ↦ rw (write_status, known) (set_status-IsReceived id st old w known h)
  ]

  expire_if-IsReceived :
      (id : ℕ) (o : Option InvoiceData) (w : World)
      → get id w.invoices ≡ o
      → IsReceived x w
      → IsReceived x (expire_if id o w).1
  unfolding expire_if
  expire_if-IsReceived id none w known h = h
  expire_if-IsReceived id (some old) w known h = elim (Bool-cases (is_open old.status)) [
    | inl now ↦ rw now (set_status-IsReceived id expired old w known h)
    | inr later ↦ rw later h
  ]

  expire_row-IsReceived : (id : ℕ) (w : World) → IsReceived x w → IsReceived x (expire_row id w).1
  unfolding expire_row
  expire_row-IsReceived id w h = expire_if-IsReceived id (get id w.invoices) w refl h

  add_obligation-IsReceived :
      (id invoice : ℕ) (t : String) (w : World)
      → IsReceived x w
      → IsReceived x (add_obligation x id invoice t w).1
  unfolding add_obligation
  add_obligation-IsReceived id invoice t w h = ground (arith, h)

  write_allowance-IsReceived :
      (id : ℕ) (a b c : String) (w : World)
      → IsReceived x w
      → IsReceived x (write_allowance x id a b c w).1
  unfolding write_allowance
  write_allowance-IsReceived id a b c w h = ground (arith, h)

  IsReceived-IsKeptByRows : IsKeptByRows x (IsReceived x)
  IsReceived-IsKeptByRows = record {
    quiet = quiet;
    payment = λ p i. record { keep = write_payment-IsReceived x p i };
    obligation = λ id i t. record { keep = add_obligation-IsReceived id i t };
    confirm = λ id at. record { keep = confirm-IsReceived x id at };
    retract = λ id. record { keep = retract_row-IsReceived x id };
    allowance = λ id a b d. record { keep = write_allowance-IsReceived id a b d };
    status = λ id st. record { keep = write_status-IsReceived id st };
    expiry = λ id. record { keep = expire_row-IsReceived id };
  }

  -- Every event's handler, ended or broken off by an error at any call of the database, leaves the
  -- running total `amount_received` of every invoice equal to the text of the sum of the credited
  -- amounts of its payments that are not reorged, if it was so before.
  pub handle_event-IsReceived :
      (s : Services) (cleanup : Option Services) (e : MonitorEvent) (w : World)
      → IsReceived x w
      → IsReceived x (handle_event x s cleanup e w).1
  handle_event-IsReceived s cleanup e w h =
      (handle_event-Keeps (IsKeptByRows-IsWritten IsReceived-IsKeptByRows) s cleanup e).keep w h
