-- ===== src/Webhook/Paging.antt =====
-- Whether a failed webhook pages: server/src/services/webhook/service.rs.
use ethpayserver.Base.{
  ℕ, ◌+◌, Bool, true, false, ◌&&◌, ◌==◌, Option, none, some, List, [], ◌∷◌, ◌++◌, length, ltb,
  if◌then◌else◌,
}
use ethpayserver.Webhook.Job.{
  WebhookError, redis, http, unreachable, serialization, database, WebhookJob,
}

unfoldable pub permanent_failure_is_merchant_unreachable : WebhookError → Bool
permanent_failure_is_merchant_unreachable unreachable = true
permanent_failure_is_merchant_unreachable redis = false
permanent_failure_is_merchant_unreachable http = false
permanent_failure_is_merchant_unreachable serialization = false
permanent_failure_is_merchant_unreachable database = false

abbrev pub recent_unreachable_capacity : ℕ
recent_unreachable_capacity = 8

abbrev pub max_consecutive_demotions : ℕ
max_consecutive_demotions = 5

unfoldable pub back : List ℕ → Option ℕ
back [] = none
back (id ∷ []) = some id
back (id ∷ next ∷ ids) = back (next ∷ ids)

abbrev pub every_is : ℕ → List ℕ → Bool
every_is last [] = true
every_is last (id ∷ ids) = id == last && every_is last ids

abbrev pub all_are : Option ℕ → List ℕ → Bool
all_are none recent = true
all_are (some last) recent = every_is last recent

unfoldable pub recent_unreachable_are_one_merchant : List ℕ → Bool
unfolding back
recent_unreachable_are_one_merchant recent = all_are (back recent) recent

-- `pop_front` while there are too many.
unfoldable pub evict : List ℕ → List ℕ
evict [] = []
evict (id ∷ ids) =
    let rest = evict ids in
    if ltb recent_unreachable_capacity (length (id ∷ ids)) then rest else id ∷ ids

pub record Window : Type 0 where
  pub recent_unreachable : List ℕ
  pub demotion_streak : ℕ

unfoldable pub record_unreachable_and_check_isolated : ℕ → Window → Bool × Window
unfolding recent_unreachable_are_one_merchant evict
record_unreachable_and_check_isolated store_webhook_id w =
    let recent = evict (w.recent_unreachable ++ store_webhook_id ∷ []) in
    if recent_unreachable_are_one_merchant recent && ltb w.demotion_streak max_consecutive_demotions
    then (true, record { recent_unreachable = recent; demotion_streak = w.demotion_streak + 1 })
    else (false, record { recent_unreachable = recent; demotion_streak = 0 })

-- Whether the log line is demoted, which does not page.
unfoldable pub log_permanent_failure : WebhookJob → WebhookError → Window → Bool × Window
unfolding permanent_failure_is_merchant_unreachable record_unreachable_and_check_isolated
log_permanent_failure job error w =
    if permanent_failure_is_merchant_unreachable error
    then record_unreachable_and_check_isolated job.store_webhook_id w
    else (false, w)

-- One turn per failure: the log lines of some failures, and the window behind them.
unfoldable pub log_all : List (WebhookJob × WebhookError) → Window → List Bool × Window
unfolding log_permanent_failure
log_all [] w = ([], w)
log_all ((job, error) ∷ failures) w =
    let logged = log_permanent_failure job error w in
    let rest = log_all failures logged.1 in (logged.0 ∷ rest.0, rest.1)
