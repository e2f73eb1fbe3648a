-- ===== src/Consumer/Settled.antt =====
-- What a confirmation that succeeds leaves of its invoice,
-- server/src/services/event_consumer/confirmation_handler.rs.
pub mod Decision
use ethpayserver.Base.{
  ℕ, String, find, ◌≡◌, refl, sym, ◌∙◌, ap, Bool, true, false, Option, none, some, inl, inr,
  Bool-cases, Option-cases, arith, if◌then◌else◌, ◌==◌,
}
use ethpayserver.Base.Dict.{get, insert, get-insert}
use ethpayserver.External.{Crates}
use ethpayserver.Event.{PaymentConfirmed}
use ethpayserver.Settlement.{Source, Parsed, parsed, refused, effective_tolerance, is_fully_paid}
use ethpayserver.Database.Rows.{
  InvoiceStatus, pending, processing, partially_paid, late_paid, paid, expired, cancelled, refunded,
  InvoiceData, PaymentData, PaymentRow, World,
}
use ethpayserver.Database.Monad.{
  invalid_data, not_found, Result, ok, err, M, pure, ◌>>=◌, ◌>>◌, notify, or_throw, attempt,
}
use ethpayserver.Database.Keeps.{
  Keeps, IsQuiet, keep_pure, keep_bind, keep_then, keep_attempt, keep_read, keep_if, keep_call,
}
use ethpayserver.Database.Ensures.{
  Ensures, ok-injective, ensure_from, ensure_pure, ensure_or_throw, ensure_bind, ensure_kept,
  ensure_weaken, ensure_call, ensure_read,
}
use ethpayserver.Database.Invoices.{write_status, update_status, set_status}
use ethpayserver.Database.Invoices
use ethpayserver.Database.Payments.{mark_confirmed, get_by_tx_index, is_transfer_of, payment_found}
use ethpayserver.Database.Settings.{
  get_settlement_tolerance, record_settlement_allowance, write_allowance,
}
use ethpayserver.Consumer.Services.{Services}
use ethpayserver.Consumer.Confirmed.{
  settle_paid, settle_late, settle, or_invalid, check_settlement, record_allowance_if_short,
  confirm_payment, handle_payment_confirmed,
}
use ethpayserver.Consumer.Keeps.Reads.{
  get-Keeps, notify_if-Keeps, announce-Keeps, send_customer_receipt-Keeps,
  notify_own_store_settled-Keeps,
}
use ethpayserver.Consumer.Settled.Decision.{
  IsSettled, Known, Always, Always-IsQuiet, ensure-Always, settle-IsSettled,
}

module _ (x : Crates) (s : Services) (e : PaymentConfirmed) where
  open x use {D, from_str}

  ensure_or_invalid :
      {P : World → Type 0} (o : Parsed (D × Source))
      → Ensures P (or_invalid x o) (λ t w. (o ≡ parsed t) × P w)
  unfolding or_invalid
  ensure_or_invalid (parsed t) = record {
    ensure = λ w a h same. (ap parsed (ok-injective same), h);
  }
  ensure_or_invalid (refused r) = record { ensure = λ w a h same. cc same }

  abbrev Got : InvoiceData → D → World → Type 0
  Got inv received w =
      (from_str inv.amount_received ≡ some received) × (get e.invoice_id w.invoices ≡ some inv)

  abbrev Read : InvoiceData → D → D → World → Type 0
  Read inv received expected w = (from_str inv.amount ≡ some expected) × Got inv received w

  Read-IsQuiet : (inv : InvoiceData) (received expected : D) → IsQuiet (Read inv received expected)
  unfolding notify
  Read-IsQuiet inv received expected = record {
    calls = λ w n h. h;
    fresh = λ w n h. h;
    sent = λ w n h. h;
  }

  abbrev HasSetting : InvoiceData → D → D → Option String → World → Type 0
  HasSetting inv received expected setting w =
      (get inv.store_id w.tolerances ≡ setting) × Read inv received expected w

  decide-IsSettled :
      (p : PaymentData) (inv : InvoiceData) (received expected : D) (setting : Option String)
      (t : D × Source)
      → Ensures
          (λ w.
            (effective_tolerance x setting ≡ parsed t) × HasSetting inv received expected setting w)
          (settle x s e p inv
            (is_fully_paid x received expected t.0)
            (record_allowance_if_short x e.invoice_id received expected t.0 t.1)
            inv.status)
          (λ _. IsSettled x s e)
  decide-IsSettled p inv received expected setting t =
      ensure_from {P' = Known x s e inv received expected t.0 t.1}
        (λ w h. record {
          row = h.1.1.1.1;
          got = h.1.1.1.0;
          asked = h.1.1.0;
          setting = rw h.1.0 h.0;
        })
        (settle-IsSettled x s e p inv received expected t.0 t.1 _ _ inv.status refl refl)

  check_settlement-IsSettled :
      (p : PaymentData) (inv : InvoiceData)
      → Ensures
          (λ w. get e.invoice_id w.invoices ≡ some inv)
          (check_settlement x s e p inv)
          (λ _. IsSettled x s e)
  unfolding check_settlement get_settlement_tolerance
  check_settlement-IsSettled p inv =
      ensure_bind {Q = Got inv} (ensure_or_throw (from_str inv.amount_received) invalid_data)
        λ received.
          ensure_bind {Q = Read inv received} (ensure_or_throw (from_str inv.amount) invalid_data)
            λ expected.
              ensure_bind {Q = HasSetting inv received expected}
                (ensure_read (Read-IsQuiet inv received expected)
                  (λ w. get inv.store_id w.tolerances))
                λ setting.
                  ensure_bind
                    {f = λ t.
                      settle x s e p inv (is_fully_paid x received expected t.0)
                        (record_allowance_if_short x e.invoice_id received expected t.0 t.1)
                        inv.status}
                    {Q = λ t w.
                      (effective_tolerance x setting ≡ parsed t)
                      × HasSetting inv received expected setting w}
                    (ensure_or_invalid {P = HasSetting inv received expected setting}
                      (effective_tolerance x setting))
                    (decide-IsSettled p inv received expected setting)

  confirm_payment-IsSettled :
      (p : PaymentData) → Ensures Always (confirm_payment x s e (some p)) (λ _. IsSettled x s e)
  unfolding confirm_payment Invoices.get
  confirm_payment-IsSettled p =
      ensure_bind {Q = λ _. Always} (ensure-Always (mark_confirmed x p.id e.confirmed_at)) λ _.
        ensure_bind {Q = λ found w. (get e.invoice_id w.invoices ≡ found) × Always w}
          (ensure_read Always-IsQuiet (λ w. get e.invoice_id w.invoices))
          λ found.
            ensure_bind {f = λ inv. check_settlement x s e p inv}
              (ensure_or_throw found invalid_data)
              λ inv. ensure_from (λ w h. h.1.0 ∙ h.0) (check_settlement-IsSettled p inv)

  -- The transfer that the event names has a row.
  abbrev pub IsKnown : World → Type 0
  IsKnown w =
      (r : PaymentRow) × (find (is_transfer_of e.invoice_id (x.format_hash e.tx_hash) e.tx_index)
          w.payments
        ≡ some r)

  IsKnown-IsQuiet : IsQuiet IsKnown
  unfolding notify
  IsKnown-IsQuiet = record { calls = λ w n h. h; fresh = λ w n h. h; sent = λ w n h. h }

  found-IsSettled :
      (found : Option PaymentData)
      → Ensures
          (λ w.
            (payment_found
                (find (is_transfer_of e.invoice_id (x.format_hash e.tx_hash) e.tx_index) w.payments)
              ≡ found)
            × IsKnown w)
          (confirm_payment x s e found)
          (λ _. IsSettled x s e)
  unfolding payment_found
  found-IsSettled (some p) = ensure_from (λ w h. tt) (confirm_payment-IsSettled p)
  found-IsSettled none = record { ensure = λ w a h _. cc (h.0, ap payment_found h.1.1) }

  -- A `PaymentConfirmed` whose handler succeeds, for a payment that is there, leaves no invoice
  -- waiting that has enough: if the event's invoice is then still processing, partially paid or
  -- expired, what it received falls short of its amount by more than its store's tolerance.
  pub handle_payment_confirmed-IsSettled :
      (r : PaymentRow) (w : World)
      → find (is_transfer_of e.invoice_id (x.format_hash e.tx_hash) e.tx_index) w.payments ≡ some r
      → (handle_payment_confirmed x s e w).0 ≡ ok tt
      → IsSettled x s e (handle_payment_confirmed x s e w).1
  unfolding handle_payment_confirmed get_by_tx_index
  handle_payment_confirmed-IsSettled r w row done =
      (ensure_bind
          (ensure_read IsKnown-IsQuiet (λ v.
            payment_found
              (find (is_transfer_of e.invoice_id (x.format_hash e.tx_hash) e.tx_index) v.payments)))
          found-IsSettled).ensure
        w tt (r, row) done
