-- ===== src/Consumer/Reorg.antt =====
-- The handler of `ReorgDetected`, server/src/services/event_consumer/reorg_handler.rs.
-- The invoices of a reorg are visited in the order in which the candidates name them first; the
-- source takes the order of a `HashMap`.
use ethpayserver.Base.{
  ℕ, String, Bool, true, false, not, Option, none, some, List, [], ◌∷◌, ◌++◌, ◌==◌, any, filter,
  map, if◌then◌else◌,
}
use ethpayserver.External.{Crates}
use ethpayserver.Event.{ReorgDetected}
use ethpayserver.Database.Rows.{
  InvoiceStatus, pending, processing, late_paid, expired, cancelled, refunded, InvoiceData,
  PaymentData, ws_invoice,
}
use ethpayserver.Database.Monad.{
  invalid_data, Result, ok, err, M, pure, ◌>>=◌, ◌>>◌, or_throw, attempt,
}
use ethpayserver.Database.Payments.{mark_payment_reorged, reorg_candidates, has_valid_payments}
use ethpayserver.Database.Invoices
use ethpayserver.Consumer.Services.{Services, notify_if, queue_webhook}

-- `entry(invoice_id).or_default().push(payment)`.
unfoldable pub push : PaymentData → List (ℕ × List PaymentData) → List (ℕ × List PaymentData)
push p [] = (p.invoice_id, p ∷ []) ∷ []
push p ((i, ps) ∷ groups) =
    if i == p.invoice_id then (i, ps ++ p ∷ []) ∷ groups else (i, ps) ∷ push p groups

unfoldable pub group_from :
    List (ℕ × List PaymentData) → List PaymentData → List (ℕ × List PaymentData)
unfolding push
group_from groups [] = groups
group_from groups (p ∷ ps) = group_from (push p groups) ps

unfoldable pub is_closed : InvoiceStatus → Bool
is_closed refunded = true
is_closed cancelled = true
is_closed expired = true
is_closed late_paid = true
is_closed _ = false

-- The copy that the webhook reports.
unfoldable pub as_retracted : PaymentData → PaymentData
as_retracted p = record p { reorged = true; confirmed_at = none }

unfoldable pub same_hash : Option ℕ → ℕ → Bool
same_hash none hash = false
same_hash (some stored) hash = stored == hash

unfoldable pub webhook_for :
    Services → List PaymentData → Result (Option InvoiceData) → M (Unit {0})
unfolding queue_webhook
webhook_for s retracted (ok (some inv)) = queue_webhook s "payment_reorged" inv retracted
webhook_for s retracted (ok none) = pure tt
webhook_for s retracted (err e) = pure tt

unfoldable pub notify_reorg : Services → ℕ → List PaymentData → M (Unit {0})
unfolding webhook_for
notify_reorg s invoice_id [] = pure tt
notify_reorg s invoice_id (p ∷ ps) =
    if not s.webhook_service
    then pure tt
    else (attempt (Invoices.get invoice_id) >>= webhook_for s (p ∷ ps))

unfoldable pub status_after : Bool → InvoiceStatus
status_after true = processing
status_after false = pending

unfoldable pub move_back : ℕ → InvoiceStatus → InvoiceData → M InvoiceStatus
unfolding is_closed
move_back invoice_id computed current =
    if is_closed current.status
    then pure current.status
    else (Invoices.update_status invoice_id computed >> pure computed)

unfoldable pub apply_reorg_status : ℕ → InvoiceStatus → M InvoiceStatus
unfolding move_back
apply_reorg_status invoice_id computed = do
  found ← Invoices.get invoice_id
  current ← or_throw found invalid_data
  move_back invoice_id computed current

module _ (x : Crates) where
  unfoldable pub tx_hash_eq : ℕ → String → Bool
  unfolding same_hash
  tx_hash_eq hash stored = same_hash (x.parse_hash stored) hash

  unfoldable pub survived : List ℕ → PaymentData → Bool
  unfolding tx_hash_eq
  survived hashes p = any (λ hash. tx_hash_eq hash p.tx_hash) hashes

  unfoldable pub dropped : List ℕ → List PaymentData → List PaymentData
  unfolding survived
  dropped hashes = filter (λ p. not (survived hashes p))

  unfoldable pub retract_all : List PaymentData → M (Unit {0})
  retract_all [] = pure tt
  retract_all (p ∷ ps) = mark_payment_reorged x p.id >> retract_all ps

  unfoldable pub retract_invoice : Services → ℕ → List PaymentData → M (Unit {0})
  unfolding retract_all status_after apply_reorg_status notify_reorg notify_if as_retracted
  retract_invoice s invoice_id payments = do
    retract_all payments
    has_valid ← has_valid_payments invoice_id
    status ← apply_reorg_status invoice_id (status_after has_valid)
    notify_if s.ws_broadcast (ws_invoice invoice_id status)
    notify_reorg s invoice_id (map as_retracted payments)

  unfoldable pub retract_groups : Services → List (ℕ × List PaymentData) → M (Unit {0})
  unfolding retract_invoice
  retract_groups s [] = pure tt
  retract_groups s ((invoice_id, payments) ∷ groups) =
      retract_invoice s invoice_id payments >> retract_groups s groups

  unfoldable pub handle_reorg_detected : Services → ReorgDetected → M (Unit {0})
  unfolding retract_groups group_from dropped
  handle_reorg_detected s e =
      if not e.survivors_verifiable
      then pure tt
      else (reorg_candidates e.chain_id e.fork_block >>= λ candidates.
          retract_groups s (group_from [] (dropped e.survived_tx_hashes candidates)))
