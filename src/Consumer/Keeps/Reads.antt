-- ===== src/Consumer/Keeps/Reads.antt =====
-- What every call, read and notice of the database keeps, the parts of the handlers of
-- server/src/services/event_consumer that write no row keep.
use ethpayserver.Base.{ℕ, String, Bool, true, false, not, Option, none, some, List, [], ◌∷◌}
use ethpayserver.External.{Crates}
use ethpayserver.Event.{PaymentDetected}
use ethpayserver.Database.Rows.{Notice, InvoiceData, PaymentData, PaymentOptionData, World}
use ethpayserver.Database.Monad.{Result, ok, err}
use ethpayserver.Database.Keeps.{
  keep_call, Keeps, IsQuiet, keep_pure, keep_or_throw, keep_bind, keep_then, keep_attempt, keep_if,
  keep_read, keep_notify,
}
use ethpayserver.Database.Invoices.{update_status, expire, stream_expired_pending}
use ethpayserver.Database.Invoices
use ethpayserver.Database.Settings.{
  get_payment_option, get_options_for_invoice, get_payment_option_id, get_token_by_address,
}
use ethpayserver.Consumer.Services.{Services, notify_if, queue_webhook}
use ethpayserver.Consumer.Detected.{
  new_id, current_time, token_asset, asset_of, late_option, find_option, credit_with, credit_by,
  credit_of,
}
use ethpayserver.Consumer.Confirmed.{
  receipts_disabled_for_store, get_store, send_receipt, send_unless_disabled, receipt_to,
  send_customer_receipt, observe, notify_own_store_settled, announce,
}
use ethpayserver.Consumer.Reorg.{webhook_for, notify_reorg}

module _ {P : World → Type 0} (quiet : IsQuiet P) (s : Services) where
  pub notify_if-Keeps : (b : Bool) (n : Notice) → Keeps P (notify_if b n)
  unfolding notify_if
  notify_if-Keeps true n = keep_notify quiet n
  notify_if-Keeps false n = keep_pure tt

  pub queue_webhook-Keeps :
      (t : String) (inv : InvoiceData) (ps : List PaymentData) → Keeps P (queue_webhook s t inv ps)
  unfolding queue_webhook
  queue_webhook-Keeps t inv ps = notify_if-Keeps s.webhook_service _

  pub get-Keeps : (id : ℕ) → Keeps P (Invoices.get id)
  unfolding Invoices.get
  get-Keeps id = keep_read quiet _

  pub asset_of-Keeps : (x : Crates) (e : PaymentDetected) → Keeps P (asset_of x e)
  unfolding asset_of token_asset get_token_by_address
  asset_of-Keeps x e = keep_if e.is_native (keep_pure _) (
      keep_bind (keep_or_throw e.token_address _)
        (λ token. keep_bind (keep_read quiet _) (λ found. keep_pure _)))

  pub late_option-Keeps :
      (x : Crates) (e : PaymentDetected) (a : String) (t : Option String) (o : Option ℕ)
      → Keeps P (late_option x e a t o)
  unfolding late_option get_options_for_invoice
  late_option-Keeps x e a t (some id) = keep_pure _
  late_option-Keeps x e a t none = keep_bind (keep_read quiet _) (λ os. keep_pure _)

  pub find_option-Keeps :
      (x : Crates) (e : PaymentDetected) (t : Option String) → Keeps P (find_option x e t)
  unfolding find_option get_payment_option_id
  find_option-Keeps x e t = keep_bind (keep_read quiet _) (λ o. late_option-Keeps x e _ t o)

  pub credit_with-Keeps :
      (x : Crates) (raw : ℕ) (po : PaymentOptionData) (rate : Option String)
      → Keeps P (credit_with x raw po rate)
  unfolding credit_with current_time
  credit_with-Keeps x raw po none = keep_pure _
  credit_with-Keeps x raw po (some rate) = record { keep = λ w h. h }

  pub credit_by-Keeps :
      (x : Crates) (raw : ℕ) (po : Option PaymentOptionData) → Keeps P (credit_by x raw po)
  unfolding credit_by
  credit_by-Keeps x raw none = keep_pure _
  credit_by-Keeps x raw (some po) = credit_with-Keeps x raw po po.rate

  pub credit_of-Keeps : (x : Crates) (raw : ℕ) (o : Option ℕ) → Keeps P (credit_of x raw o)
  unfolding credit_of get_payment_option
  credit_of-Keeps x raw none = keep_pure _
  credit_of-Keeps x raw (some id) = keep_bind (keep_read quiet _) (credit_by-Keeps x raw)

  pub new_id-Keeps : Keeps P new_id
  unfolding new_id
  new_id-Keeps = record { keep = λ w h. quiet.fresh w _ h }

  pub send_receipt-Keeps :
      (email : String) (inv : InvoiceData) (p : PaymentData) → Keeps P (send_receipt email inv p)
  unfolding send_receipt get_store
  send_receipt-Keeps email inv p =
      keep_then (keep_attempt (keep_call quiet (keep_pure tt))) (keep_notify quiet _)

  pub send_unless_disabled-Keeps :
      (email : String) (inv : InvoiceData) (p : PaymentData) (r : Result Bool)
      → Keeps P (send_unless_disabled email inv p r)
  unfolding send_unless_disabled
  send_unless_disabled-Keeps email inv p (ok true) = keep_pure tt
  send_unless_disabled-Keeps email inv p (ok false) = send_receipt-Keeps email inv p
  send_unless_disabled-Keeps email inv p (err e) = send_receipt-Keeps email inv p

  pub receipt_to-Keeps :
      (inv : InvoiceData) (p : PaymentData) (email : Option String)
      → Keeps P (receipt_to inv p email)
  unfolding receipt_to receipts_disabled_for_store
  receipt_to-Keeps inv p none = keep_pure tt
  receipt_to-Keeps inv p (some email) =
      keep_bind (keep_attempt (keep_read quiet _)) (send_unless_disabled-Keeps email inv p)

  pub send_customer_receipt-Keeps :
      (inv : InvoiceData) (p : PaymentData) → Keeps P (send_customer_receipt inv p)
  unfolding send_customer_receipt
  send_customer_receipt-Keeps inv p = receipt_to-Keeps inv p _

  pub observe-Keeps : (at : ℕ) (r : Result (Option InvoiceData)) → Keeps P (observe s at r)
  unfolding observe
  observe-Keeps at (ok (some inv)) = notify_if-Keeps _ _
  observe-Keeps at (ok none) = keep_pure tt
  observe-Keeps at (err e) = keep_pure tt

  pub notify_own_store_settled-Keeps : (id at : ℕ) → Keeps P (notify_own_store_settled s id at)
  unfolding notify_own_store_settled
  notify_own_store_settled-Keeps id at =
      keep_if (not s.payment_observers) (keep_pure tt)
        (keep_bind (keep_attempt (get-Keeps id)) (observe-Keeps at))

  pub announce-Keeps :
      (t : String) (p : PaymentData) (r : Result (Option InvoiceData)) → Keeps P (announce s t p r)
  unfolding announce
  announce-Keeps t p (ok (some inv)) = queue_webhook-Keeps t inv _
  announce-Keeps t p (ok none) = keep_pure tt
  announce-Keeps t p (err e) = keep_pure tt

  pub webhook_for-Keeps :
      (ps : List PaymentData) (r : Result (Option InvoiceData)) → Keeps P (webhook_for s ps r)
  unfolding webhook_for
  webhook_for-Keeps ps (ok (some inv)) = queue_webhook-Keeps _ inv ps
  webhook_for-Keeps ps (ok none) = keep_pure tt
  webhook_for-Keeps ps (err e) = keep_pure tt

  pub notify_reorg-Keeps : (id : ℕ) (ps : List PaymentData) → Keeps P (notify_reorg s id ps)
  unfolding notify_reorg
  notify_reorg-Keeps id [] = keep_pure tt
  notify_reorg-Keeps id (p ∷ ps) =
      keep_if (not s.webhook_service) (keep_pure tt)
        (keep_bind (keep_attempt (get-Keeps id)) (webhook_for-Keeps (p ∷ ps)))
