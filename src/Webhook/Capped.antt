-- ===== src/Webhook/Capped.antt =====
-- Failures page again: `record_unreachable_and_check_isolated` of server/src/services/webhook/service.rs.
use ethpayserver.Base.{
  ℕ, ◌+◌, ◌≤◌, ◌≡◌, refl, Bool, true, false, ◌&&◌, inl, inr, Bool-cases, List, [], ◌∷◌, ◌++◌,
  length, ltb, arith,
}
use ethpayserver.Webhook.Job.{WebhookError, WebhookJob}
use ethpayserver.Webhook.Paging.{
  permanent_failure_is_merchant_unreachable, max_consecutive_demotions,
  recent_unreachable_are_one_merchant, evict, Window, record_unreachable_and_check_isolated,
  log_permanent_failure, log_all,
}

-- No log line pages.
abbrev pub is_silent : List Bool → Bool
is_silent [] = true
is_silent (demoted ∷ lines) = demoted && is_silent lines

below-top : (n : ℕ) → ltb n max_consecutive_demotions ≡ true → (n + 1) ≤ 5
below-top n h = ground (arith, h)

-- A demotion lengthens the streak, which stays at most five.
check-demoted :
    (id : ℕ) (w : Window)
    → (record_unreachable_and_check_isolated id w).0 ≡ true
    → ((record_unreachable_and_check_isolated id w).1.demotion_streak ≡ w.demotion_streak + 1)
      × ((w.demotion_streak + 1) ≤ 5)
unfolding record_unreachable_and_check_isolated
check-demoted id w =
    let isolated = recent_unreachable_are_one_merchant (evict (w.recent_unreachable ++ id ∷ [])) in
    elim (Bool-cases isolated) [
      | inr shared ↦ rw shared (λ e. cc e)
      | inl alone ↦ elim (Bool-cases (ltb w.demotion_streak max_consecutive_demotions)) [
        | inr top ↦ rw (alone, top) (λ e. cc e)
        | inl below ↦ rw (alone, below) (λ e. (refl, below-top w.demotion_streak below))
      ]
    ]

log-demoted :
    (job : WebhookJob) (error : WebhookError) (w : Window)
    → (log_permanent_failure job error w).0 ≡ true
    → ((log_permanent_failure job error w).1.demotion_streak ≡ w.demotion_streak + 1)
      × ((w.demotion_streak + 1) ≤ 5)
unfolding log_permanent_failure
log-demoted job error w = elim (Bool-cases (permanent_failure_is_merchant_unreachable error)) [
  | inl far ↦ rw far (check-demoted job.store_webhook_id w)
  | inr ours ↦ rw ours (λ e. cc e)
]

and-parts : (a b : Bool) → (a && b) ≡ true → (a ≡ true) × (b ≡ true)
and-parts true b h = (refl, h)
and-parts false b h = cc h

-- From a streak of at most five on: if none of some permanent failures in a row pages, they
-- and the streak before them are at most five together, so of any six in a row one pages.
pub log_all_capped :
    (failures : List (WebhookJob × WebhookError)) (w : Window)
    → w.demotion_streak ≤ 5
    → is_silent (log_all failures w).0 ≡ true
    → (w.demotion_streak + length failures) ≤ 5
unfolding log_all
log_all_capped [] w small silent = omega (arith, small)
log_all_capped ((job, error) ∷ failures) w small silent =
    let logged = log_permanent_failure job error w in
    let parts = and-parts logged.0 (is_silent (log_all failures logged.1).0) silent in
    let step = log-demoted job error w parts.0 in
    let next = log_all_capped failures logged.1 (omega (arith, step.0, step.1)) parts.1 in
    omega (arith, next, step.0)
