-- ===== src/Consumer/Keeps.antt =====
-- What every write of the database keeps, every handler of server/src/services/event_consumer
-- keeps.
pub mod Reads
use ethpayserver.Base.{ℕ, String, Bool, true, false, not, Option, none, some, List, [], ◌∷◌}
use ethpayserver.Base.Int.{ℤ}
use ethpayserver.External.{Crates}
use ethpayserver.Event.{
  MonitorEvent, payment_detected, payment_confirmed, reorg_detected, monitor_started,
  monitor_stopped, monitor_error, address_watched, address_unwatched, status_report,
  PaymentDetected, PaymentConfirmed, ReorgDetected, tx_index,
}
use ethpayserver.Settlement.{Source, Parsed, parsed, refused, effective_tolerance, is_fully_paid}
use ethpayserver.Database.Rows.{
  InvoiceStatus, processing, partially_paid, expired, Notice, ws_payment, InvoiceData, PaymentData,
  PaymentOptionData, World,
}
use ethpayserver.Database.Monad.{invalid_data, Result, ok, err, M}
use ethpayserver.Database.Keeps.{
  Keeps, IsQuiet, keep_pure, keep_throw, keep_or_throw, keep_bind, keep_then, keep_attempt, keep_if,
  keep_read, keep_notify,
}
use ethpayserver.Database.Payments.{
  mark_confirmed, mark_payment_reorged, upsert_with_tx_index_and_obligation, get_by_tx_index,
  reorg_candidates, has_valid_payments,
}
use ethpayserver.Database.Invoices.{update_status, expire, stream_expired_pending}
use ethpayserver.Database.Invoices
use ethpayserver.Database.Settings.{
  get_settlement_tolerance, record_settlement_allowance, get_payment_option,
  get_options_for_invoice, get_payment_option_id, get_token_by_address,
}
use ethpayserver.Cleanup.{
  expiration_webhook, queue_expiration_webhook, after_expire, expire_each, expire_stream,
  check_expired,
}
use ethpayserver.Consumer.Services.{Services, notify_if, queue_webhook}
use ethpayserver.Consumer.Detected.{
  new_id, current_time, token_asset, asset_of, late_option, find_option, credit_with, credit_by,
  credit_of, payment_data, handle_payment_detected,
}
use ethpayserver.Consumer.Confirmed.{
  receipts_disabled_for_store, get_store, send_receipt, send_unless_disabled, receipt_to,
  send_customer_receipt, observe, notify_own_store_settled, announce, record_allowance_if_short,
  settle_paid, settle_late, settle, or_invalid, check_settlement, confirm_payment,
  handle_payment_confirmed,
}
use ethpayserver.Consumer.Reorg.{
  webhook_for, notify_reorg, move_back, apply_reorg_status, retract_all, retract_invoice,
  retract_groups, handle_reorg_detected,
}
use ethpayserver.Consumer.Resume.{trigger_expiration_check, handle_event}
use ethpayserver.Consumer.Keeps.Reads.{
  notify_if-Keeps, queue_webhook-Keeps, get-Keeps, asset_of-Keeps, late_option-Keeps,
  find_option-Keeps, credit_with-Keeps, credit_by-Keeps, credit_of-Keeps, new_id-Keeps,
  send_receipt-Keeps, send_unless_disabled-Keeps, receipt_to-Keeps, send_customer_receipt-Keeps,
  observe-Keeps, notify_own_store_settled-Keeps, announce-Keeps, webhook_for-Keeps,
  notify_reorg-Keeps,
}

-- The writes that the handlers make.
pub record IsWritten (x : Crates) (P : World → Type 0) : Type 1 where
  pub quiet : IsQuiet P
  pub upsert :
      (p : PaymentData) (i : ℤ) (t : String) → Keeps P (upsert_with_tx_index_and_obligation x p i t)
  pub confirm : (id at : ℕ) → Keeps P (mark_confirmed x id at)
  pub retract : (id : ℕ) → Keeps P (mark_payment_reorged x id)
  pub allowance :
      (id : ℕ) (short tolerance source : String)
      → Keeps P (record_settlement_allowance x id short tolerance source)
  pub status : (id : ℕ) (s : InvoiceStatus) → Keeps P (update_status id s)
  pub expiry : (id : ℕ) → Keeps P (expire id)

module _ {x : Crates} {P : World → Type 0} (writes : IsWritten x P) where
  detected-Keeps : (s : Services) (e : PaymentDetected) → Keeps P (handle_payment_detected x s e)
  unfolding handle_payment_detected
  detected-Keeps s e = keep_bind (asset_of-Keeps writes.quiet s x e) λ asset.
      keep_bind (find_option-Keeps writes.quiet s x e asset.token_address) λ o.
        keep_bind (credit_of-Keeps writes.quiet s x e.amount o) λ credit.
          keep_bind (new_id-Keeps writes.quiet s) λ id.
            keep_bind (keep_or_throw (tx_index e) invalid_data) λ index.
              keep_then
                (writes.upsert (payment_data x e id asset o credit) index "payment_detected")
                (notify_if-Keeps writes.quiet s s.ws_broadcast
                  (ws_payment id e.invoice_id credit.amount))

  settle_paid-Keeps :
      (s : Services) (e : PaymentConfirmed) (p : PaymentData) (inv : InvoiceData)
      → Keeps P (settle_paid x s e p inv)
  unfolding settle_paid
  settle_paid-Keeps s e p inv = keep_then (writes.status _ _) (
      keep_then (notify_if-Keeps writes.quiet s _ _) (
        keep_bind (keep_attempt (get-Keeps writes.quiet s _)) λ updated.
          keep_then (announce-Keeps writes.quiet s "payment_confirmed" p updated) (
            keep_then (send_customer_receipt-Keeps writes.quiet s inv p)
              (notify_own_store_settled-Keeps writes.quiet s e.invoice_id e.confirmed_at))))

  settle_late-Keeps :
      (s : Services) (e : PaymentConfirmed) (p : PaymentData) → Keeps P (settle_late x s e p)
  unfolding settle_late
  settle_late-Keeps s e p = keep_then (writes.status _ _) (
      keep_then (notify_if-Keeps writes.quiet s _ _) (
        keep_bind (keep_attempt (get-Keeps writes.quiet s _)) λ updated.
          keep_then (announce-Keeps writes.quiet s "late_paid" p updated)
            (notify_own_store_settled-Keeps writes.quiet s e.invoice_id e.confirmed_at)))

  settle-Keeps :
      (s : Services) (e : PaymentConfirmed) (p : PaymentData) (inv : InvoiceData) (b : Bool)
      (m : M (Unit {0})) (status : InvoiceStatus)
      → Keeps P m
      → Keeps P (settle x s e p inv b m status)
  unfolding settle
  settle-Keeps s e p inv b m processing k =
      keep_if b (keep_then k (settle_paid-Keeps s e p inv)) (keep_pure tt)
  settle-Keeps s e p inv b m partially_paid k =
      keep_if b (keep_then k (settle_paid-Keeps s e p inv)) (keep_pure tt)
  settle-Keeps s e p inv b m expired k =
      keep_if b (keep_then k (settle_late-Keeps s e p)) (keep_pure tt)
  settle-Keeps s e p inv b m _ k = keep_pure tt

  or_invalid-Keeps : (t : Parsed (x.D × Source)) → Keeps P (or_invalid x t)
  unfolding or_invalid
  or_invalid-Keeps (parsed t) = keep_pure t
  or_invalid-Keeps (refused e) = keep_throw _

  allowance-Keeps :
      (id : ℕ) (received expected tolerance : x.D) (source : Source)
      → Keeps P (record_allowance_if_short x id received expected tolerance source)
  unfolding record_allowance_if_short
  allowance-Keeps id received expected tolerance source =
      keep_if (x.le_bool expected received) (keep_pure tt) (writes.allowance _ _ _ _)

  tolerance-Keeps : (id : ℕ) → Keeps P (get_settlement_tolerance id)
  unfolding get_settlement_tolerance
  tolerance-Keeps id = keep_read writes.quiet _

  check_settlement-Keeps :
      (s : Services) (e : PaymentConfirmed) (p : PaymentData) (inv : InvoiceData)
      → Keeps P (check_settlement x s e p inv)
  unfolding check_settlement
  check_settlement-Keeps s e p inv =
      keep_bind (keep_or_throw (x.from_str inv.amount_received) invalid_data) λ received.
        keep_bind (keep_or_throw (x.from_str inv.amount) invalid_data) λ expected.
          keep_bind (tolerance-Keeps inv.store_id) λ setting.
            keep_bind (or_invalid-Keeps (effective_tolerance x setting)) λ tolerance.
              settle-Keeps s e p inv (is_fully_paid x received expected tolerance.0) _ inv.status
                (allowance-Keeps e.invoice_id received expected tolerance.0 tolerance.1)

  confirm_payment-Keeps :
      (s : Services) (e : PaymentConfirmed) (found : Option PaymentData)
      → Keeps P (confirm_payment x s e found)
  unfolding confirm_payment
  confirm_payment-Keeps s e none = keep_pure tt
  confirm_payment-Keeps s e (some p) = keep_then (writes.confirm _ _) (
      keep_bind (get-Keeps writes.quiet s _) λ found.
        keep_bind (keep_or_throw found invalid_data) λ inv. check_settlement-Keeps s e p inv)

  confirmed-Keeps : (s : Services) (e : PaymentConfirmed) → Keeps P (handle_payment_confirmed x s e)
  unfolding handle_payment_confirmed get_by_tx_index
  confirmed-Keeps s e = keep_bind (keep_read writes.quiet _) (confirm_payment-Keeps s e)

  retract_all-Keeps : (ps : List PaymentData) → Keeps P (retract_all x ps)
  unfolding retract_all
  retract_all-Keeps [] = keep_pure tt
  retract_all-Keeps (p ∷ ps) = keep_then (writes.retract _) (retract_all-Keeps ps)

  apply_reorg_status-Keeps :
      (s : Services) (id : ℕ) (st : InvoiceStatus) → Keeps P (apply_reorg_status id st)
  unfolding apply_reorg_status move_back
  apply_reorg_status-Keeps s id st = keep_bind (get-Keeps writes.quiet s id) λ found.
      keep_bind (keep_or_throw found invalid_data)
        λ current. keep_if _ (keep_pure _) (keep_then (writes.status _ _) (keep_pure _))

  retract_invoice-Keeps :
      (s : Services) (id : ℕ) (ps : List PaymentData) → Keeps P (retract_invoice x s id ps)
  unfolding retract_invoice has_valid_payments
  retract_invoice-Keeps s id ps = keep_then (retract_all-Keeps ps) (
      keep_bind (keep_read writes.quiet _) λ valid.
        keep_bind (apply_reorg_status-Keeps s id _) λ status.
          keep_then (notify_if-Keeps writes.quiet s _ _) (notify_reorg-Keeps writes.quiet s id _))

  retract_groups-Keeps :
      (s : Services) (groups : List (ℕ × List PaymentData)) → Keeps P (retract_groups x s groups)
  unfolding retract_groups
  retract_groups-Keeps s [] = keep_pure tt
  retract_groups-Keeps s ((id, ps) ∷ groups) =
      keep_then (retract_invoice-Keeps s id ps) (retract_groups-Keeps s groups)

  reorg-Keeps : (s : Services) (e : ReorgDetected) → Keeps P (handle_reorg_detected x s e)
  unfolding handle_reorg_detected reorg_candidates
  reorg-Keeps s e =
      keep_if (not e.survivors_verifiable) (keep_pure tt)
        (keep_bind (keep_read writes.quiet _) λ candidates. retract_groups-Keeps s _)

  expiration_webhook-Keeps :
      (s : Services) (r : Result (Option InvoiceData)) → Keeps P (expiration_webhook s r)
  unfolding expiration_webhook
  expiration_webhook-Keeps s (ok (some inv)) = queue_webhook-Keeps writes.quiet s _ inv _
  expiration_webhook-Keeps s (ok none) = keep_pure tt
  expiration_webhook-Keeps s (err e) = keep_pure tt

  after_expire-Keeps : (s : Services) (id n : ℕ) (r : Result Bool) → Keeps P (after_expire s id n r)
  unfolding after_expire queue_expiration_webhook
  after_expire-Keeps s id n (ok true) = keep_then (notify_if-Keeps writes.quiet s _ _) (
      keep_then
        (keep_bind (keep_attempt (get-Keeps writes.quiet s id)) (expiration_webhook-Keeps s))
        (keep_pure _))
  after_expire-Keeps s id n (ok false) = keep_pure n
  after_expire-Keeps s id n (err e) = keep_pure n

  expire_each-Keeps : (s : Services) (n : ℕ) (ids : List ℕ) → Keeps P (expire_each s n ids)
  unfolding expire_each
  expire_each-Keeps s n [] = keep_pure n
  expire_each-Keeps s n (id ∷ ids) =
      keep_bind (keep_bind (keep_attempt (writes.expiry id)) (after_expire-Keeps s id n))
        λ m. expire_each-Keeps s m ids

  expire_stream-Keeps : (s : Services) (r : Result (List ℕ)) → Keeps P (expire_stream s r)
  unfolding expire_stream
  expire_stream-Keeps s (ok ids) = expire_each-Keeps s 0 ids
  expire_stream-Keeps s (err e) = keep_pure 0

  check_expired-Keeps : (s : Services) → Keeps P (check_expired s)
  unfolding check_expired stream_expired_pending
  check_expired-Keeps s =
      keep_bind (keep_attempt (keep_read writes.quiet _)) (expire_stream-Keeps s)

  trigger-Keeps : (cleanup : Option Services) → Keeps P (trigger_expiration_check cleanup)
  unfolding trigger_expiration_check
  trigger-Keeps none = keep_pure tt
  trigger-Keeps (some s) = keep_then (check_expired-Keeps s) (keep_pure tt)

  pub handle_event-Keeps :
      (s : Services) (cleanup : Option Services) (e : MonitorEvent)
      → Keeps P (handle_event x s cleanup e)
  unfolding handle_event
  handle_event-Keeps s c (payment_detected e) = detected-Keeps s e
  handle_event-Keeps s c (payment_confirmed e) = confirmed-Keeps s e
  handle_event-Keeps s c (reorg_detected e) = reorg-Keeps s e
  handle_event-Keeps s c (monitor_started _) = keep_pure tt
  handle_event-Keeps s c (monitor_stopped _) = keep_pure tt
  handle_event-Keeps s c (monitor_error _ _) = keep_pure tt
  handle_event-Keeps s c (address_watched _) = keep_pure tt
  handle_event-Keeps s c (address_unwatched _) = keep_pure tt
  handle_event-Keeps s c (status_report _) = trigger-Keeps c
