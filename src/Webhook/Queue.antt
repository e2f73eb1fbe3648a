-- ===== src/Webhook/Queue.antt =====
-- The queue's operations on redis: server/src/services/webhook/service.rs.
-- A sorted set is the list of its members with their scores; a call of redis or of the database
-- may fail, in any pattern, and then have had its effect (its answer is lost) or not. Serializing a
-- job succeeds, and a turn without an error is `none`, whether or not it found a job.
use ethpayserver.Base.{
  ℕ, ◌+◌, Bool, true, false, not, ◌&&◌, ◌||◌, ◌==◌, Option, none, some, List, [], ◌∷◌, ◌++◌, leb,
  ltb, filter, is_some, if◌then◌else◌,
}
use ethpayserver.Base.Dict.{Dict}
use ethpayserver.Base.Dict as Rows
use ethpayserver.Base.Assoc.{lookup, insert, remove}
use ethpayserver.Webhook.Job.{
  WebhookError, redis, serialization, WebhookJob, retry_delay, is_exhausted,
}

-- A text, by its characters.
abbrev pub Json : Type 0
Json = List ℕ

abbrev pub eq_json : Json → Json → Bool
eq_json [] [] = true
eq_json (a ∷ s) (b ∷ t) = a == b && eq_json s t
eq_json [] (b ∷ t) = false
eq_json (a ∷ s) [] = false

-- A sorted set of texts, each with its score.
abbrev pub Ready : Type 0
Ready = List (Json × ℕ)

-- `serde_json` on jobs, the merchant, and the settings.
pub record Outside : Type 0 where
  pub to_json : WebhookJob → Json
  pub from_json : Json → Option WebhookJob
  -- The merchant's answer to the n-th call.
  pub respond : ℕ → WebhookJob → Option WebhookError
  pub visibility_timeout : ℕ

pub data WebhookDeliveryStatus : Type 0 where
  pending delivered retrying failed : WebhookDeliveryStatus

-- `"{claim_id}:{json}"`.
abbrev pub Member : Type 0
Member = ℕ × Json

pub record Queue : Type 0 where
  pub ready : Ready
  pub processing : List (Member × ℕ)
  -- The attempts made, with whether the merchant accepted.
  pub posts : List (WebhookJob × Bool)
  pub deliveries : Dict (WebhookDeliveryStatus × ℕ)
  pub now : ℕ
  pub calls : ℕ
  pub fresh : ℕ
  pub down : ℕ → Bool
  pub lost : ℕ → Bool

abbrev pub count_call : Queue → Queue
count_call q = record q { calls = q.calls + 1 }

-- Whether the call was answered, and the state.
unfoldable pub call : (Queue → Queue) → Queue → Bool × Queue
call f q =
    if q.down q.calls
    then (false, if q.lost q.calls then f (count_call q) else count_call q)
    else (true, f (count_call q))

abbrev pub eq_member : Member → Member → Bool
eq_member (c, j) (d, k) = c == d && eq_json j k

abbrev pub remove_member : Member → List (Member × ℕ) → List (Member × ℕ)
remove_member m [] = []
remove_member m ((n, score) ∷ ms) =
    let rest = remove_member m ms in if eq_member m n then rest else (n, score) ∷ rest

-- `ZADD` and `ZREM`.
abbrev pub zadd_ready : ℕ → Json → Queue → Queue
zadd_ready score json q = record q { ready = insert eq_json json score q.ready }

abbrev pub zrem_processing : Member → Queue → Queue
zrem_processing member q = record q { processing = remove_member member q.processing }

unfoldable pub clear_processing : Member → Queue → Queue
unfolding call
clear_processing member q = (call (zrem_processing member) q).1

-- The state behind an answered `ZADD`.
unfoldable pub after_requeue : Member → Bool × Queue → Queue
unfolding clear_processing
after_requeue member (true, q) = clear_processing member q
after_requeue member (false, q) = q

unfoldable pub reclaim_one_expired_job : ℕ → Member → Queue → Queue
unfolding after_requeue call
reclaim_one_expired_job now (claim_id, json) q =
    after_requeue (claim_id, json) (call (zadd_ready now json) q)

unfoldable pub reclaim_each : ℕ → List (Member × ℕ) → Queue → Queue
unfolding reclaim_one_expired_job
reclaim_each now [] q = q
reclaim_each now ((member, deadline) ∷ members) q =
    reclaim_each now members (reclaim_one_expired_job now member q)

abbrev pub is_expired : ℕ → Member × ℕ → Bool
is_expired now (member, deadline) = leb deadline now

unfoldable pub reclaim_answered : Bool × Queue → Queue
unfolding reclaim_each
reclaim_answered (true, q) = reclaim_each q.now (filter (is_expired q.now) q.processing) q
reclaim_answered (false, q) = q

unfoldable pub reclaim_expired_jobs : Queue → Queue
unfolding reclaim_answered call
reclaim_expired_jobs q = reclaim_answered (call (λ r. r) q)

-- Members of one score are in the order of their texts.
unfoldable pub leb_json : Json → Json → Bool
leb_json [] t = true
leb_json (a ∷ s) [] = false
leb_json (a ∷ s) (b ∷ t) = let rest = leb_json s t in ltb a b || a == b && rest

-- The first ready member, of those with a score up to `now`.
unfoldable pub earliest : ℕ → Ready → Option (Json × ℕ)
unfolding leb_json
earliest now [] = none
earliest now ((json, score) ∷ ready) =
    let rest = earliest now ready in
    if leb score now
    then (elim rest [
      | none ↦ some (json, score)
      | some (json', score') ↦
          if ltb score score' || score == score' && leb_json json json'
          then some (json, score)
          else some (json', score')
    ])
    else rest

-- CLAIM_JOB_SCRIPT.
unfoldable pub claim_script : Json → Member → ℕ → Queue → Queue
claim_script json member deadline q =
    if is_some (lookup eq_json json q.ready)
    then record q {
      ready = remove eq_json json q.ready;
      processing = q.processing ++ (member, deadline) ∷ [];
    }
    else q

-- `upsert_delivery`, whose failure is only logged.
unfoldable pub write_delivery_record : WebhookJob → WebhookDeliveryStatus → ℕ → Queue → Queue
unfolding call
write_delivery_record job status attempts q =
    (call (λ r. record r { deliveries = Rows.insert job.id (status, attempts) r.deliveries }) q).1

-- `create_event`, whose failure is only logged; the events are left out.
unfoldable pub record_delivery_event : Queue → Queue
unfolding call
record_delivery_event q = (call (λ r. r) q).1

module _ (x : Outside) where
  -- `queue_webhook`; the connection is a call of its own.
  unfoldable pub queued : WebhookJob → Bool × Queue → Option WebhookError × Queue
  unfolding write_delivery_record
  queued job (false, q) = (some redis, q)
  queued job (true, q) = (none, write_delivery_record job pending 0 q)

  unfoldable pub queue_connected : WebhookJob → Bool × Queue → Option WebhookError × Queue
  unfolding queued call
  queue_connected job (false, q) = (some redis, q)
  queue_connected job (true, q) = queued job (call (zadd_ready job.scheduled_at (x.to_json job)) q)

  unfoldable pub queue_webhook : WebhookJob → Queue → Option WebhookError × Queue
  unfolding queue_connected call
  queue_webhook job q = queue_connected job (call (λ r. r) q)

  unfoldable pub retried : Member → Bool × Queue → Option WebhookError × Queue
  unfolding clear_processing
  retried member (true, q) = (none, clear_processing member q)
  retried member (false, q) = (some redis, q)

  unfoldable pub retry : WebhookJob → Member → Queue → Option WebhookError × Queue
  unfolding retried call write_delivery_record record_delivery_event retry_delay
  retry job member q =
      let r = record_delivery_event (write_delivery_record job retrying job.attempts q) in
      let next = record job { scheduled_at = r.now + retry_delay job } in
      retried member (call (zadd_ready next.scheduled_at (x.to_json next)) r)

  -- The merchant's answer to an attempt.
  unfoldable pub after_delivery :
      WebhookJob → Member → Option WebhookError → Queue → Option WebhookError × Queue
  unfolding retry write_delivery_record record_delivery_event clear_processing is_exhausted
  after_delivery job member none q = (
    none,
    clear_processing member
        (write_delivery_record job delivered job.attempts (record_delivery_event q)),
  )
  after_delivery job member (some e) q =
      if is_exhausted job
      then (
        none,
        clear_processing member
            (record_delivery_event (write_delivery_record job failed job.attempts q)),
      )
      else retry job member q

  -- `deliver_webhook`: the request and its answer.
  unfoldable pub deliver : WebhookJob → Member → Queue → Option WebhookError × Queue
  unfolding after_delivery
  deliver job member q =
      let answer = x.respond q.calls job in
      after_delivery job member answer
        (record q { calls = q.calls + 1; posts = q.posts ++ (job, not (is_some answer)) ∷ [] })

  unfoldable pub parse_and_deliver :
      Option WebhookJob → Member → Queue → Option WebhookError × Queue
  unfolding deliver
  parse_and_deliver none member q = (some serialization, q)
  parse_and_deliver (some job) member q =
      deliver (record job { attempts = job.attempts + 1 }) member q

  -- A claim that was answered: whether it found the member.
  unfoldable pub claimed : Bool → Json → Member → Bool × Queue → Option WebhookError × Queue
  unfolding parse_and_deliver
  claimed found json member (false, q) = (some redis, q)
  claimed found json member (true, q) =
      if found then parse_and_deliver (x.from_json json) member q else (none, q)

  unfoldable pub claim_job : Json → Queue → Option WebhookError × Queue
  unfolding claimed claim_script call
  claim_job json q =
      let member : Member = (q.fresh, json) in
      claimed (is_some (lookup eq_json json q.ready)) json member (
        call (claim_script json member (q.now + x.visibility_timeout))
          (record q { fresh = q.fresh + 1 }))

  unfoldable pub claim_found : Option (Json × ℕ) → Queue → Option WebhookError × Queue
  unfolding claim_job
  claim_found none q = (none, q)
  claim_found (some (json, _)) q = claim_job json q

  unfoldable pub fetched : Bool × Queue → Option WebhookError × Queue
  unfolding claim_found earliest
  fetched (false, q) = (some redis, q)
  fetched (true, q) = claim_found (earliest q.now q.ready) q

  unfoldable pub connected_process : Bool × Queue → Option WebhookError × Queue
  unfolding fetched reclaim_expired_jobs call
  connected_process (false, q) = (some redis, q)
  connected_process (true, q) = fetched (call (λ r. r) (reclaim_expired_jobs q))

  unfoldable pub process_next_job : Queue → Option WebhookError × Queue
  unfolding connected_process call
  process_next_job q = connected_process (call (λ r. r) q)
