-- ===== src/Tests/Webhook.antt =====
-- A webhook whose merchant does not answer, and a redis that fails.
use ethpayserver.Base.{
  ◌+◌, ◌≤◌, ◌≡◌, refl, true, Option, none, some, List, [], ◌∷◌, length, ◌==◌, arith,
}
use ethpayserver.Webhook.Job.{unreachable, WebhookError, WebhookJob}
use ethpayserver.Base.Assoc.{lookup}
use ethpayserver.Webhook.Queue.{Json, eq_json, Outside, Queue, queue_webhook, process_next_job}
use ethpayserver.Webhook.Kept.{is_kept, names_job, delivery_of}
use ethpayserver.Webhook.Kept.Turn.{process_next_job-Kept, queue_webhook-waits}
use ethpayserver.Webhook.Paging.{Window, log_all}
use ethpayserver.Webhook.Capped.{log_all_capped}

abbrev job : WebhookJob
job = record {
  id = 9;
  store_webhook_id = 1;
  webhook_url = 2;
  webhook_secret = 3;
  payload = 4;
  attempts = 0;
  max_attempts = 7;
  created_at = 100;
  scheduled_at = 100;
}

abbrev later : WebhookJob
later = record job { attempts = 3 }

abbrev from_fields : Json → Option WebhookJob
from_fields (a ∷ b ∷ c ∷ d ∷ e ∷ f ∷ g ∷ h ∷ i ∷ []) = some (record {
  id = a;
  store_webhook_id = b;
  webhook_url = c;
  webhook_secret = d;
  payload = e;
  attempts = f;
  max_attempts = g;
  created_at = h;
  scheduled_at = i;
})
from_fields _ = none

abbrev to_fields : WebhookJob → Json
to_fields j =
    j.id ∷ j.store_webhook_id ∷ j.webhook_url ∷ j.webhook_secret ∷ j.payload ∷ j.attempts
    ∷ j.max_attempts ∷ j.created_at ∷ j.scheduled_at ∷ []

abbrev pub silent : Outside
silent = record {
  to_json = to_fields;
  from_json = from_fields;
  respond = λ n j. some unreachable;
  visibility_timeout = 60;
}

-- The answer of the ninth call is lost.
abbrev waiting : Queue
waiting = record {
  ready = (to_fields job, 100) ∷ [];
  processing = [];
  posts = [];
  deliveries = [];
  now = 120;
  calls = 0;
  fresh = 0;
  down = λ n. n == 8;
  lost = λ n. true;
}

abbrev pub empty : Queue
empty = record waiting { ready = [] }

process_next_job-Kept_example :
    is_kept silent (delivery_of job) (process_next_job silent waiting).1 ≡ true
unfolding names_job
process_next_job-Kept_example =
    process_next_job-Kept silent (delivery_of job) waiting (λ j. refl) refl

queue_webhook-waits_example :
    lookup eq_json (silent.to_json job) (queue_webhook silent job empty).1.ready
    ≡ some job.scheduled_at
unfolding queue_webhook
queue_webhook-waits_example = queue_webhook-waits silent job empty refl

abbrev failures : List (WebhookJob × WebhookError)
failures = (job, unreachable) ∷ (job, unreachable) ∷ (job, unreachable) ∷ []

abbrev window : Window
window = record { recent_unreachable = 1 ∷ 1 ∷ []; demotion_streak = 2 }

log_all_capped_example : (2 + length failures) ≤ 5
unfolding log_all
log_all_capped_example = log_all_capped failures window (omega arith) refl
