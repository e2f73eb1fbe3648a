-- ===== src/Webhook/Job.antt =====
-- A queued webhook and its retries: server/src/services/webhook/job.rs and error.rs.
use ethpayserver.Base.{ℕ, zero, suc, ◌-◌, Bool, leb}

pub data WebhookError : Type 0 where
  redis http unreachable serialization database : WebhookError

-- The payload is one number; times are seconds.
pub record WebhookJob : Type 0 where
  pub id : ℕ
  pub store_webhook_id : ℕ
  pub webhook_url : ℕ
  pub webhook_secret : ℕ
  pub payload : ℕ
  pub attempts : ℕ
  pub max_attempts : ℕ
  pub created_at : ℕ
  pub scheduled_at : ℕ

unfoldable pub new_job : ℕ → ℕ → ℕ → ℕ → ℕ → ℕ → WebhookJob
new_job id now store_webhook_id webhook_url webhook_secret payload = record {
  id = id;
  store_webhook_id = store_webhook_id;
  webhook_url = webhook_url;
  webhook_secret = webhook_secret;
  payload = payload;
  attempts = 0;
  max_attempts = 7;
  created_at = now;
  scheduled_at = now;
}

-- `RETRY_DELAYS_SECS[idx.min(RETRY_DELAYS_SECS.len() - 1)]`.
unfoldable pub delay_at : ℕ → ℕ
delay_at zero = 60
delay_at (suc zero) = 300
delay_at (suc (suc zero)) = 1800
delay_at (suc (suc (suc zero))) = 7200
delay_at (suc (suc (suc (suc zero)))) = 43200
delay_at (suc (suc (suc (suc (suc n))))) = 86400

unfoldable pub retry_delay : WebhookJob → ℕ
unfolding delay_at
retry_delay job = delay_at (job.attempts - 1)

unfoldable pub is_exhausted : WebhookJob → Bool
is_exhausted job = leb job.max_attempts job.attempts
