-- ===== src/Webhook/Kept/Turn.antt =====
-- A turn of the queue: server/src/services/webhook/service.rs.
use ethpayserver.Base.{
  ℕ, ◌+◌, ◌≡◌, refl, sym, ap, ◌∙◌, Bool, true, false, not, ◌||◌, ==_iff, inl, inr, Bool-cases,
  Option, none, some, is_some, [], ◌∷◌, ◌++◌, any, if◌then◌else◌,
}
use ethpayserver.Base.Assoc.{insert, lookup, remove}
use ethpayserver.Webhook.Job.{WebhookError, WebhookJob, retry_delay, is_exhausted}
use ethpayserver.Webhook.Queue.{
  Ready, Json, eq_json, Outside, pending, delivered, retrying, failed, Queue, count_call,
  zadd_ready, reclaim_expired_jobs, earliest, claim_script, write_delivery_record,
  record_delivery_event, queued, queue_connected, queue_webhook, retried, retry, after_delivery,
  deliver, parse_and_deliver, claimed, claim_job, claim_found, fetched, connected_process,
  process_next_job,
}
use ethpayserver.Webhook.Calls.{or-right, or-left, or_mono, call-cases}
use ethpayserver.Webhook.Kept.{
  Delivery, delivery_of, is_delivery, is_kept, Kept, held, names, names_entry, names_claim, is_done,
  IsSafe, requeue-held, requeue-Kept, clear-Kept, reclaim_expired_jobs-Kept, write-Kept, event-Kept,
  post-Kept, post-held, remove-other, claims-append, names_job,
}

module _ (x : Outside) (i : Delivery)
    (round : (job : WebhookJob) → x.from_json (x.to_json job) ≡ some job) where
  retry-Kept :
      (job : WebhookJob) (c : ℕ) (json : Json) (q : Queue)
      → (names x i json ≡ true → is_delivery i job ≡ true)
      → Kept x i q
      → Kept x i (retry x job (c, json) q).1
  unfolding retry retried names_job
  retry-Kept job c json q same kept =
      let r = record_delivery_event (write_delivery_record job retrying job.attempts q) in
      let next = record job { scheduled_at = r.now + retry_delay job } in
      let r_kept : (Kept x i) r =
        event-Kept x i (Kept x i) (write_delivery_record job retrying job.attempts q)
          (λ t rows calls h. h)
          (write-Kept x i (Kept x i) job retrying job.attempts q (λ t rows calls h. h) kept) in
      call-cases (λ o. (Kept x i) (retried x (c, json) o).1)
        (zadd_ready next.scheduled_at (x.to_json next)) r r_kept
        (requeue-Kept x i (x.to_json next) next.scheduled_at (count_call r) r_kept)
        (clear-Kept x i c json (zadd_ready next.scheduled_at (x.to_json next) (count_call r))
          (λ ours.
            requeue-held x i (x.to_json next) next.scheduled_at (count_call r)
              (ap (names_job x i) (round next) ∙ same ours))
          (requeue-Kept x i (x.to_json next) next.scheduled_at (count_call r) r_kept))

  after_delivery-Kept :
      (job : WebhookJob) (c : ℕ) (json : Json) (answer : Option WebhookError) (q : Queue)
      (calls : ℕ)
      → (names x i json ≡ true → is_delivery i job ≡ true)
      → Kept x i q
      → (Kept x i)
          (after_delivery x job
            (c, json)
            answer
            (record q { calls = calls; posts = q.posts ++ (job, not (is_some answer)) ∷ [] })).1
  unfolding after_delivery
  after_delivery-Kept job c json none q calls same kept =
      let r = record q { calls = calls; posts = q.posts ++ (job, true) ∷ [] } in
      let safe : (IsSafe x i) json r = (
        λ ours. (post-held x i) q job true calls (same ours) refl,
        post-Kept x i q (job, true) calls kept,
      ) in
      let written : (IsSafe x i) json
          (write_delivery_record job delivered job.attempts (record_delivery_event r)) =
        write-Kept x i (IsSafe x i json) job delivered job.attempts (record_delivery_event r)
          (λ t rows n h. h) (event-Kept x i (IsSafe x i json) r (λ t rows n h. h) safe) in
      clear-Kept x i c json
        (write_delivery_record job delivered job.attempts (record_delivery_event r)) written.0
        written.1
  after_delivery-Kept job c json (some e) q calls same kept =
      let r = record q { calls = calls; posts = q.posts ++ (job, false) ∷ [] } in
      elim (Bool-cases (is_exhausted job)) [
        | inr left ↦
            rw (left, after_delivery)
              (retry-Kept job c json r same (post-Kept x i q (job, false) calls kept))
        | inl over ↦
            let safe : (IsSafe x i) json r = (
              λ ours. (post-held x i) q job false calls (same ours) over,
              post-Kept x i q (job, false) calls kept,
            ) in
            let written : (IsSafe x i) json
                (record_delivery_event (write_delivery_record job failed job.attempts r)) =
              event-Kept x i (IsSafe x i json) (write_delivery_record job failed job.attempts r)
                (λ t rows n h. h)
                (write-Kept x i (IsSafe x i json) job failed job.attempts r (λ t rows n h. h)
                  safe) in
            rw (over, after_delivery)
              (clear-Kept x i c json
                (record_delivery_event (write_delivery_record job failed job.attempts r)) written.0
                written.1)
      ]

  parse_and_deliver-Kept :
      (c : ℕ) (json : Json) (found : Option WebhookJob) (q : Queue)
      → x.from_json json ≡ found
      → Kept x i q
      → Kept x i (parse_and_deliver x found (c, json) q).1
  unfolding parse_and_deliver deliver names_job
  parse_and_deliver-Kept c json none q e kept = kept
  parse_and_deliver-Kept c json (some job) q e kept =
      let next = record job { attempts = job.attempts + 1 } in
      after_delivery-Kept next c json (x.respond q.calls next) q (q.calls + 1)
        (λ ours. ap (names_job x i) (sym e) ∙ ours) kept

  if-Kept :
      (found : Bool) (json : Json) (c : ℕ) (q : Queue)
      → Kept x i q
      → Kept x i (if found then parse_and_deliver x (x.from_json json) (c, json) q else (none, q)).1
  if-Kept true json c q kept = parse_and_deliver-Kept c json (x.from_json json) q refl kept
  if-Kept false json c q kept = kept

  -- The claim moves the text from one set to the other.
  moved-Kept :
      (json : Json) (c deadline : ℕ) (q : Queue)
      → Kept x i q
      → Kept x i (record q {
        ready = remove eq_json json q.ready;
        processing = q.processing ++ ((c, json), deadline) ∷ [];
      })
  moved-Kept json c deadline q kept =
      let ready' = any (names_entry x i) (remove eq_json json q.ready) in
      let done = any (is_done x i) q.posts in
      elim (Bool-cases (names x i json)) [
        | inl ours ↦ or-right (ready' || done) _ (
            claims-append x i q.processing ((c, json), deadline)
            ∙ or-right (any (names_claim x i) q.processing) _ (or-left _ false ours))
        | inr other ↦ rw (remove-other x i json q.ready other) (
            or_mono (held x i q) _ _
              (λ h. (claims-append x i) q.processing ((c, json), deadline) ∙ or-left _ _ h) kept)
      ]

  claim-Kept :
      (json : Json) (c : ℕ) (deadline : ℕ) (q : Queue)
      → Kept x i q
      → Kept x i (claim_script json (c, json) deadline q)
  unfolding claim_script
  claim-Kept json c deadline q kept = elim (Bool-cases (is_some (lookup eq_json json q.ready))) [
    | inr missing ↦ rw (missing, claim_script) kept
    | inl found ↦ rw (found, claim_script) (moved-Kept json c deadline q kept)
  ]

  claim_job-Kept : (json : Json) (q : Queue) → Kept x i q → Kept x i (claim_job x json q).1
  unfolding claim_job claimed
  claim_job-Kept json q kept =
      let r = record q { fresh = q.fresh + 1 } in
      let moved = claim-Kept json q.fresh (q.now + x.visibility_timeout) (count_call r) kept in
      call-cases
        (λ o.
          (Kept x i) (claimed x (is_some (lookup eq_json json q.ready)) json (q.fresh, json) o).1)
        (claim_script json (q.fresh, json) (q.now + x.visibility_timeout)) r kept moved
        (if-Kept (is_some (lookup eq_json json q.ready)) json q.fresh
          (claim_script json (q.fresh, json) (q.now + x.visibility_timeout) (count_call r)) moved)

  claim_found-Kept :
      (found : Option (Json × ℕ)) (q : Queue) → Kept x i q → Kept x i (claim_found x found q).1
  unfolding claim_found
  claim_found-Kept none q kept = kept
  claim_found-Kept (some (json, score)) q kept = claim_job-Kept json q kept

  pub turn-Kept : (q : Queue) → Kept x i q → Kept x i (process_next_job x q).1
  unfolding process_next_job connected_process fetched
  turn-Kept q kept =
      let r = reclaim_expired_jobs (count_call q) in
      let reclaimed = reclaim_expired_jobs-Kept x i (count_call q) kept in
      call-cases (λ o. (Kept x i) (connected_process x o).1) (λ r. r) q kept kept
        (call-cases (λ o. (Kept x i) (fetched x o).1) (λ r. r) r reclaimed reclaimed
          (claim_found-Kept (earliest r.now r.ready) (count_call r) reclaimed))

-- Whatever calls of redis and the database fail on the way, before or after their effect, and whatever
-- the merchant answers: a job, by its identifier and its payload, that waits, is claimed, was accepted
-- or was tried as often as it may be, is still one of these after a turn of the queue.
pub process_next_job-Kept :
    (x : Outside) (i : Delivery) (q : Queue)
    → ((job : WebhookJob) → x.from_json (x.to_json job) ≡ some job)
    → is_kept x i q ≡ true
    → is_kept x i (process_next_job x q).1 ≡ true
process_next_job-Kept x i q round kept = turn-Kept x i round q kept

eq_json_refl : (s : Json) → eq_json s s ≡ true
eq_json_refl [] = refl
eq_json_refl (a ∷ s) = rw ((==_iff a a).1 refl, eq_json_refl s) refl

insert-found :
    (json : Json) (score : ℕ) (d : Ready)
    → lookup eq_json json (insert eq_json json score d) ≡ some score
insert-found json score [] = rw (eq_json_refl json) refl
insert-found json score ((k, s) ∷ d) = elim (Bool-cases (eq_json json k)) [
  | inl same ↦ simp (same, eq_json_refl json)
  | inr differs ↦ simp (differs, insert-found json score d)
]

-- A job whose queueing reports no error waits among the ready ones, for the time it is scheduled
-- at, whatever else fails.
pub queue_webhook-waits :
    (x : Outside) (job : WebhookJob) (q : Queue)
    → (queue_webhook x job q).0 ≡ none
    → lookup eq_json (x.to_json job) (queue_webhook x job q).1.ready ≡ some job.scheduled_at
unfolding queue_webhook queue_connected queued
queue_webhook-waits x job q =
    let waiting = zadd_ready job.scheduled_at (x.to_json job) (count_call (count_call q)) in
    let Waits : Queue → Type 0 =
      λ r. lookup eq_json (x.to_json job) r.ready ≡ some job.scheduled_at in
    call-cases (λ o. (queue_connected x job o).0 ≡ none → Waits (queue_connected x job o).1)
      (λ r. r) q (λ e. cc e) (λ e. cc e)
      (call-cases (λ o. (queued x job o).0 ≡ none → Waits (queued x job o).1)
        (zadd_ready job.scheduled_at (x.to_json job)) (count_call q) (λ e. cc e) (λ e. cc e)
        (λ _.
          write-Kept x (delivery_of job) Waits job pending 0 waiting (λ t rows n h. h)
            (insert-found (x.to_json job) job.scheduled_at q.ready)))

-- It is kept.
pub queue_webhook-Kept :
    (x : Outside) (job : WebhookJob) (q : Queue)
    → ((job : WebhookJob) → x.from_json (x.to_json job) ≡ some job)
    → (queue_webhook x job q).0 ≡ none
    → is_kept x (delivery_of job) (queue_webhook x job q).1 ≡ true
unfolding queue_webhook queue_connected queued names_job
queue_webhook-Kept x job q round =
    let waiting = zadd_ready job.scheduled_at (x.to_json job) (count_call (count_call q)) in
    let named : names x (delivery_of job) (x.to_json job) ≡ true =
      ap (names_job x (delivery_of job)) (round job)
      ∙ rw ((==_iff job.id job.id).1 refl, (==_iff job.payload job.payload).1 refl) refl in
    let there : is_kept x (delivery_of job) waiting ≡ true = or-left _ _ (
      requeue-held x (delivery_of job) (x.to_json job) job.scheduled_at (count_call (count_call q))
        named) in
    call-cases
      (λ o.
        (queue_connected x job o).0 ≡ none
        → is_kept x (delivery_of job) (queue_connected x job o).1 ≡ true)
      (λ r. r) q (λ e. cc e) (λ e. cc e)
      (call-cases
        (λ o. (queued x job o).0 ≡ none → is_kept x (delivery_of job) (queued x job o).1 ≡ true)
        (zadd_ready job.scheduled_at (x.to_json job)) (count_call q) (λ e. cc e) (λ e. cc e)
        (λ _.
          write-Kept x (delivery_of job) (λ r. is_kept x (delivery_of job) r ≡ true) job pending 0
            waiting (λ t rows n h. h) there))

-- Queueing a job loses no other.
pub queue_webhook-keeps :
    (x : Outside) (i : Delivery) (job : WebhookJob) (q : Queue)
    → is_kept x i q ≡ true
    → is_kept x i (queue_webhook x job q).1 ≡ true
unfolding queue_webhook queue_connected queued
queue_webhook-keeps x i job q kept =
    let waiting =
      requeue-Kept x i (x.to_json job) job.scheduled_at (count_call (count_call q)) kept in
    call-cases (λ o. is_kept x i (queue_connected x job o).1 ≡ true) (λ r. r) q kept kept
      (call-cases (λ o. is_kept x i (queued x job o).1 ≡ true)
        (zadd_ready job.scheduled_at (x.to_json job)) (count_call q) kept waiting
        (write-Kept x i (λ r. is_kept x i r ≡ true) job pending 0
          (zadd_ready job.scheduled_at (x.to_json job) (count_call (count_call q)))
          (λ t rows n h. h) waiting))
