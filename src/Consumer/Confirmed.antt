-- ===== src/Consumer/Confirmed.antt =====
-- The handler of `PaymentConfirmed`, server/src/services/event_consumer/confirmation_handler.rs.
use text.Mathlib.Text.{◌==◌ as str_eq}
use ethpayserver.Base.{
  ℕ, String, Bool, true, false, not, Option, none, some, List, [], ◌∷◌, ◌==◌, unwrap_or,
  if◌then◌else◌,
}
use ethpayserver.Base.Dict
use ethpayserver.External.{Crates}
use ethpayserver.Event.{PaymentConfirmed}
use ethpayserver.Settlement.{
  Source, store, default, Parsed, parsed, refused, effective_tolerance, is_fully_paid,
}
use ethpayserver.Database.Rows.{
  InvoiceStatus, processing, partially_paid, late_paid, paid, expired, Json, string, InvoiceData,
  PaymentData, ws_invoice, receipt, own_store,
}
use ethpayserver.Database.Monad.{
  invalid_data, Result, ok, err, M, pure, throw, ◌>>=◌, ◌>>◌, call, or_throw, attempt, notify,
}
use ethpayserver.Database.Payments.{mark_confirmed, get_by_tx_index}
use ethpayserver.Database.Invoices
use ethpayserver.Database.Settings.{get_settlement_tolerance, record_settlement_allowance}
use ethpayserver.Consumer.Services.{Services, notify_if, queue_webhook}

unfoldable pub source_name : Source → String
source_name store = "store"
source_name default = "default"

unfoldable pub json_get : String → List (String × Json) → Option Json
json_get key [] = none
json_get key ((k, v) ∷ m) = if str_eq k key then some v else json_get key m

unfoldable pub json_text : Option Json → Option String
json_text (some (string t)) = some t
json_text _ = none

unfoldable pub or_else {ℓ} : {A : Type ℓ} → Option A → Option A → Option A
or_else none b = b
or_else (some a) b = some a

unfoldable pub metadata_email : Option (List (String × Json)) → Option String
unfolding json_get json_text or_else
metadata_email none = none
metadata_email (some m) =
    json_text (or_else (json_get "customer_email" m) (json_get "buyer_email" m))

unfoldable pub extract_customer_email : InvoiceData → Option String
unfolding metadata_email or_else
extract_customer_email inv = or_else inv.customer_email (metadata_email inv.metadata)

-- The store's `customer_receipts_enabled` is false; a failed read counts as enabled.
unfoldable pub receipts_disabled_for_store : ℕ → M (Result Bool)
receipts_disabled_for_store store_id =
    attempt (call λ w. (ok (unwrap_or (Dict.get store_id w.receipts_disabled) false), w))

-- The read of the store, whose row only names the merchant in the receipt.
unfoldable pub get_store : M (Result (Unit {0}))
get_store = attempt (call (pure tt))

unfoldable pub send_receipt : String → InvoiceData → PaymentData → M (Unit {0})
unfolding get_store
send_receipt email inv payment = get_store >> notify (receipt email inv.id payment.id)

unfoldable pub send_unless_disabled :
    String → InvoiceData → PaymentData → Result Bool → M (Unit {0})
unfolding send_receipt
send_unless_disabled email inv payment (ok true) = pure tt
send_unless_disabled email inv payment (ok false) = send_receipt email inv payment
send_unless_disabled email inv payment (err e) = send_receipt email inv payment

unfoldable pub receipt_to : InvoiceData → PaymentData → Option String → M (Unit {0})
unfolding receipts_disabled_for_store send_unless_disabled
receipt_to inv payment none = pure tt
receipt_to inv payment (some email) =
    receipts_disabled_for_store inv.store_id >>= send_unless_disabled email inv payment

unfoldable pub send_customer_receipt : InvoiceData → PaymentData → M (Unit {0})
unfolding receipt_to extract_customer_email
send_customer_receipt inv payment = receipt_to inv payment (extract_customer_email inv)

unfoldable pub is_own_store : Option ℕ → ℕ → Bool
is_own_store none id = false
is_own_store (some own) id = own == id

unfoldable pub observe : Services → ℕ → Result (Option InvoiceData) → M (Unit {0})
unfolding notify_if is_own_store
observe s at (ok (some settled)) =
    notify_if (is_own_store s.own_store_id settled.store_id) (own_store settled at)
observe s at (ok none) = pure tt
observe s at (err e) = pure tt

unfoldable pub notify_own_store_settled : Services → ℕ → ℕ → M (Unit {0})
unfolding observe
notify_own_store_settled s invoice_id at =
    if not s.payment_observers
    then pure tt
    else (attempt (Invoices.get invoice_id) >>= observe s at)

-- `if let Ok(Some(updated_invoice))`.
unfoldable pub announce :
    Services → String → PaymentData → Result (Option InvoiceData) → M (Unit {0})
unfolding queue_webhook
announce s event_type payment (ok (some updated)) =
    queue_webhook s event_type updated (payment ∷ [])
announce s event_type payment (ok none) = pure tt
announce s event_type payment (err e) = pure tt

module _ (x : Crates) where
  open x use {D, sub, le_bool, from_str, to_string}

  unfoldable pub record_allowance_if_short : ℕ → D → D → D → Source → M (Unit {0})
  unfolding source_name
  record_allowance_if_short invoice_id received expected tolerance source =
      if le_bool expected received
      then pure tt
      else record_settlement_allowance x invoice_id (to_string (sub expected received))
          (to_string tolerance) (source_name source)

  -- The arm of an open invoice.
  unfoldable pub settle_paid :
      Services → PaymentConfirmed → PaymentData → InvoiceData → M (Unit {0})
  unfolding announce notify_if
  settle_paid s e payment inv = do
    Invoices.update_status e.invoice_id paid
    notify_if s.ws_broadcast (ws_invoice e.invoice_id paid)
    updated ← attempt (Invoices.get e.invoice_id)
    announce s "payment_confirmed" payment updated
    send_customer_receipt inv payment
    notify_own_store_settled s e.invoice_id e.confirmed_at

  -- The arm of an expired one.
  unfoldable pub settle_late : Services → PaymentConfirmed → PaymentData → M (Unit {0})
  unfolding announce notify_if
  settle_late s e payment = do
    Invoices.update_status e.invoice_id late_paid
    notify_if s.ws_broadcast (ws_invoice e.invoice_id late_paid)
    updated ← attempt (Invoices.get e.invoice_id)
    announce s "late_paid" payment updated
    notify_own_store_settled s e.invoice_id e.confirmed_at

  -- What the invoice's status and the amounts ask for.
  unfoldable pub settle :
      Services
      → PaymentConfirmed
      → PaymentData
      → InvoiceData
      → Bool
      → M (Unit {0})
      → InvoiceStatus
      → M (Unit {0})
  unfolding settle_paid settle_late
  settle s e payment inv fully record_allowance processing =
      if fully then record_allowance >> settle_paid s e payment inv else pure tt
  settle s e payment inv fully record_allowance partially_paid =
      if fully then record_allowance >> settle_paid s e payment inv else pure tt
  settle s e payment inv fully record_allowance expired =
      if fully then record_allowance >> settle_late s e payment else pure tt
  settle s e payment inv fully record_allowance _ = pure tt

  unfoldable pub or_invalid : Parsed (D × Source) → M (D × Source)
  or_invalid (parsed t) = pure t
  or_invalid (refused e) = throw invalid_data

  unfoldable pub check_settlement :
      Services → PaymentConfirmed → PaymentData → InvoiceData → M (Unit {0})
  unfolding or_invalid record_allowance_if_short settle
  check_settlement s e payment inv = do
    received ← or_throw (from_str inv.amount_received) invalid_data
    expected ← or_throw (from_str inv.amount) invalid_data
    setting ← get_settlement_tolerance inv.store_id
    tolerance ← or_invalid (effective_tolerance x setting)
    settle s e payment inv (is_fully_paid x received expected tolerance.0)
        (record_allowance_if_short e.invoice_id received expected tolerance.0 tolerance.1)
        inv.status

  unfoldable pub confirm_payment : Services → PaymentConfirmed → Option PaymentData → M (Unit {0})
  unfolding check_settlement
  confirm_payment s e none = pure tt
  confirm_payment s e (some payment) = do
    mark_confirmed x payment.id e.confirmed_at
    found ← Invoices.get e.invoice_id
    inv ← or_throw found invalid_data
    check_settlement s e payment inv

  unfoldable pub handle_payment_confirmed : Services → PaymentConfirmed → M (Unit {0})
  unfolding confirm_payment
  handle_payment_confirmed s e =
      get_by_tx_index e.invoice_id (x.format_hash e.tx_hash) e.tx_index >>= confirm_payment s e
