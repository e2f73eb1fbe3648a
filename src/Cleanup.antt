-- ===== src/Cleanup.antt =====
-- The expiry of invoices, server/src/services/invoice_cleanup.rs.
pub mod Watched
pub mod Addresses
pub mod Selected
pub mod Overdue
pub mod Due
pub mod Ends
pub mod Complete
pub mod Free
pub mod Cleared
pub mod Steps
pub mod Kept
use ethpayserver.Base.{ℕ, ◌+◌, Bool, true, false, Option, none, some, List, [], ◌∷◌}
use ethpayserver.Database.Rows.{InvoiceData, expired, ws_invoice}
use ethpayserver.Database.Monad.{Result, ok, err, M, pure, ◌>>=◌, ◌>>◌, attempt}
use ethpayserver.Database.Invoices
use ethpayserver.Consumer.Services.{Services, notify_if, queue_webhook}

unfoldable pub expiration_webhook : Services → Result (Option InvoiceData) → M (Unit {0})
unfolding queue_webhook
expiration_webhook s (ok (some inv)) = queue_webhook s "invoice_expired" inv []
expiration_webhook s (ok none) = pure tt
expiration_webhook s (err e) = pure tt

unfoldable pub queue_expiration_webhook : Services → ℕ → M (Unit {0})
unfolding expiration_webhook
queue_expiration_webhook s id = attempt (Invoices.get id) >>= expiration_webhook s

-- What follows one `expire`: only a row that was updated is counted and told of.
unfoldable pub after_expire : Services → ℕ → ℕ → Result Bool → M ℕ
unfolding queue_expiration_webhook notify_if
after_expire s id count (ok true) = do
  notify_if s.ws_broadcast (ws_invoice id expired)
  queue_expiration_webhook s id
  pure (count + 1)
after_expire s id count (ok false) = pure count
after_expire s id count (err e) = pure count

unfoldable pub expire_each : Services → ℕ → List ℕ → M ℕ
unfolding after_expire
expire_each s count [] = pure count
expire_each s count (id ∷ ids) =
    (attempt (Invoices.expire id) >>= after_expire s id count) >>= λ n. expire_each s n ids

-- An error of the stream is logged, and ends it.
unfoldable pub expire_stream : Services → Result (List ℕ) → M ℕ
unfolding expire_each
expire_stream s (ok ids) = expire_each s 0 ids
expire_stream s (err e) = pure 0

unfoldable pub check_expired : Services → M ℕ
unfolding expire_stream
check_expired s = attempt Invoices.stream_expired_pending >>= expire_stream s
