-- ===== src/Consumer/Services.antt =====
-- What an event consumer is configured with, and the best-effort notices of
-- server/src/services/event_consumer/webhook_dispatch.rs.
use ethpayserver.Base.{ℕ, String, Bool, true, false, Option, List}
use ethpayserver.Database.Rows.{Notice, webhook, InvoiceData, PaymentData}
use ethpayserver.Database.Monad.{M, pure, notify}

-- Whether the optional services are installed, and the instance's own store.
pub record Services : Type 0 where
  pub ws_broadcast : Bool
  pub webhook_service : Bool
  pub payment_observers : Bool
  pub own_store_id : Option ℕ

unfoldable pub notify_if : Bool → Notice → M (Unit {0})
notify_if true n = notify n
notify_if false n = pure tt

-- `queue_payload`: without a sink the webhook is skipped.
unfoldable pub queue_webhook : Services → String → InvoiceData → List PaymentData → M (Unit {0})
unfolding notify_if
queue_webhook s event_type invoice payments =
    notify_if s.webhook_service (webhook event_type invoice payments)
