-- ===== src/Webhook/Kept.antt =====
-- No webhook is lost: server/src/services/webhook/service.rs.
pub mod Turn
use ethpayserver.Base.{
  ℕ, ◌+◌, ◌≡◌, refl, sym, ap, ◌∙◌, Bool, true, false, not, ◌&&◌, ◌||◌, ◌==◌, ==_iff, inl, inr,
  Bool-cases, Option, none, some, is_some, List, [], ◌∷◌, ◌++◌, any, filter, if◌then◌else◌,
}
use ethpayserver.Base.Dict.{Dict}
use ethpayserver.Base.Dict as Rows
use ethpayserver.Base.Assoc.{lookup, insert, remove}
use ethpayserver.Webhook.Job.{WebhookError, WebhookJob, retry_delay, is_exhausted}
use ethpayserver.Webhook.Queue.{
  Json, eq_json, Ready, Outside, WebhookDeliveryStatus, pending, delivered, retrying, failed,
  Member, Queue, count_call, eq_member, remove_member, zadd_ready, zrem_processing,
  clear_processing, after_requeue, reclaim_one_expired_job, reclaim_each, is_expired,
  reclaim_answered, reclaim_expired_jobs, earliest, claim_script, write_delivery_record,
  record_delivery_event, queued, queue_connected, queue_webhook, retried, retry, after_delivery,
  deliver, parse_and_deliver, claimed, claim_job, claim_found, fetched, connected_process,
  process_next_job,
}
use ethpayserver.Webhook.Calls.{
  and-left, or-right, or-left, or_assoc, and-both, or_mono, or_mono_left, and-left, and-right,
  call-cases, call-state,
}

eq_json-equal : (s t : Json) → eq_json s t ≡ true → s ≡ t
eq_json-equal [] [] e = refl
eq_json-equal (a ∷ s) (b ∷ t) e =
    let same = (==_iff a b).0 (and-left (a == b) (eq_json s t) e) in
    let rest = eq_json-equal s t (and-right (a == b) (eq_json s t) e) in cc (same, rest)
eq_json-equal [] (b ∷ t) e = cc e
eq_json-equal (a ∷ s) [] e = cc e

-- What a job delivers: its identifier and its payload, which no attempt changes.
pub record Delivery : Type 0 where
  pub id : ℕ
  pub payload : ℕ

abbrev pub delivery_of : WebhookJob → Delivery
delivery_of job = record { id = job.id; payload = job.payload }

abbrev pub is_delivery : Delivery → WebhookJob → Bool
is_delivery i job = job.id == i.id && job.payload == i.payload

module _ (x : Outside) (i : Delivery) where
  unfoldable pub names_job : Option WebhookJob → Bool
  names_job none = false
  names_job (some job) = is_delivery i job

  -- The text is of a job that delivers `i`.
  abbrev pub names : Json → Bool
  names json = names_job (x.from_json json)

  abbrev pub names_entry : Json × ℕ → Bool
  names_entry (json, score) = names json

  abbrev pub names_claim : Member × ℕ → Bool
  names_claim ((claim_id, json), deadline) = names json

  abbrev pub is_done : WebhookJob × Bool → Bool
  is_done (job, accepted) = is_delivery i job && (accepted || is_exhausted job)

  -- The job waits, was accepted by the merchant, or was tried as often as it may be.
  abbrev pub held : Queue → Bool
  held q = any names_entry q.ready || any is_done q.posts

  -- Or it is claimed.
  abbrev pub is_kept : Queue → Bool
  is_kept q = held q || any names_claim q.processing

  abbrev pub Kept : Queue → Type 0
  Kept q = is_kept q ≡ true

  insert-names :
      (json : Json) (score : ℕ) (d : Ready)
      → names json ≡ true
      → any names_entry (insert eq_json json score d) ≡ true
  insert-names json score [] named = rw named
  insert-names json score ((k, s) ∷ d) named = elim (Bool-cases (eq_json json k)) [
    | inl same ↦ rw (same, named) refl
    | inr differs ↦ rw differs (or-right (names k) _ (insert-names json score d named))
  ]

  insert-still :
      (json : Json) (score : ℕ) (d : Ready)
      → any names_entry d ≡ true
      → any names_entry (insert eq_json json score d) ≡ true
  insert-still json score [] h = cc h
  insert-still json score ((k, s) ∷ d) h = elim (Bool-cases (eq_json json k)) [
    | inl same ↦ rw same (ap (λ n. names n || any names_entry d) (eq_json-equal json k same) ∙ h)
    | inr differs ↦ rw differs (or_mono (names k) _ _ (insert-still json score d) h)
  ]

  pub remove-other :
      (json : Json) (d : Ready)
      → names json ≡ false
      → any names_entry (remove eq_json json d) ≡ any names_entry d
  remove-other json [] other = refl
  remove-other json ((k, s) ∷ d) other = elim (Bool-cases (eq_json json k)) [
    | inl same ↦ rw same (
        remove-other json d other
        ∙ ap (λ b. b || any names_entry d)
            (sym (ap names (sym (eq_json-equal json k same)) ∙ other)))
    | inr differs ↦ rw differs (ap (λ b. names k || b) (remove-other json d other))
  ]

  remove_member-other :
      (c : ℕ) (json : Json) (ms : List (Member × ℕ))
      → names json ≡ false
      → any names_claim (remove_member (c, json) ms) ≡ any names_claim ms
  remove_member-other c json [] other = refl
  remove_member-other c json (((d, k), s) ∷ ms) other =
      elim (Bool-cases (eq_member (c, json) (d, k))) [
        | inl same ↦ rw same (
            remove_member-other c json ms other
            ∙ ap (λ b. b || any names_claim ms)
                (sym (
                  ap names (sym (eq_json-equal json k (and-right (c == d) (eq_json json k) same)))
                  ∙ other)))
        | inr differs ↦ rw differs (ap (λ b. names k || b) (remove_member-other c json ms other))
      ]

  -- What is put back waits, whatever the answer.
  pub requeue-held :
      (json : Json) (score : ℕ) (q : Queue)
      → names json ≡ true
      → held (zadd_ready score json q) ≡ true
  requeue-held json score q named = or-left _ _ (insert-names json score q.ready named)

  pub requeue-Kept : (json : Json) (score : ℕ) (q : Queue) → Kept q → Kept (zadd_ready score json q)
  requeue-Kept json score q kept =
      or_mono_left _ _ _ (or_mono_left _ _ _ (insert-still json score q.ready)) kept

  -- A claim may be cleared of another job, or of one that is held without it.
  pub clear-Kept :
      (c : ℕ) (json : Json) (q : Queue)
      → ((names json ≡ true) → held q ≡ true)
      → Kept q
      → Kept (clear_processing (c, json) q)
  unfolding clear_processing
  clear-Kept c json q safe kept =
      call-state Kept (zrem_processing (c, json)) q kept (elim (Bool-cases (names json)) [
        | inl ours ↦ or-left _ _ (safe ours)
        | inr other ↦ ap (λ b. held q || b) (remove_member-other c json q.processing other) ∙ kept
      ])

  reclaim_one-Kept :
      (now : ℕ) (member : Member) (q : Queue) → Kept q → Kept (reclaim_one_expired_job now member q)
  unfolding reclaim_one_expired_job after_requeue
  reclaim_one-Kept now (c, json) q kept =
      call-cases (λ r. Kept (after_requeue (c, json) r)) (zadd_ready now json) q kept
        (requeue-Kept json now (count_call q) kept)
        (clear-Kept c json (zadd_ready now json (count_call q))
          (requeue-held json now (count_call q)) (requeue-Kept json now (count_call q) kept))

  reclaim_each-Kept :
      (now : ℕ) (members : List (Member × ℕ)) (q : Queue)
      → Kept q
      → Kept (reclaim_each now members q)
  unfolding reclaim_each
  reclaim_each-Kept now [] q kept = kept
  reclaim_each-Kept now ((member, deadline) ∷ members) q kept =
      reclaim_each-Kept now members (reclaim_one_expired_job now member q)
        (reclaim_one-Kept now member q kept)

  pub reclaim_expired_jobs-Kept : (q : Queue) → Kept q → Kept (reclaim_expired_jobs q)
  unfolding reclaim_expired_jobs reclaim_answered
  reclaim_expired_jobs-Kept q kept =
      call-cases (λ r. Kept (reclaim_answered r)) (λ r. r) q kept kept
        (reclaim_each-Kept q.now (filter (is_expired q.now) q.processing) (count_call q) kept)

  -- The rows of the deliveries do not count.
  pub write-Kept :
      (P : Queue → Type 0) (job : WebhookJob) (status : WebhookDeliveryStatus) (n : ℕ) (q : Queue)
      → ((r : Queue) (rows : Dict (WebhookDeliveryStatus × ℕ)) (calls : ℕ)
          → P r
          → P (record r { deliveries = rows; calls = calls }))
      → P q
      → P (write_delivery_record job status n q)
  unfolding write_delivery_record
  write-Kept P job status n q apart h =
      call-state P (λ r. record r { deliveries = Rows.insert job.id (status, n) r.deliveries }) q
        (apart q q.deliveries (q.calls + 1) h)
        (apart q (Rows.insert job.id (status, n) q.deliveries) (q.calls + 1) h)

  pub event-Kept :
      (P : Queue → Type 0) (q : Queue)
      → ((r : Queue) (rows : Dict (WebhookDeliveryStatus × ℕ)) (calls : ℕ)
          → P r
          → P (record r { deliveries = rows; calls = calls }))
      → P q
      → P (record_delivery_event q)
  unfolding record_delivery_event
  event-Kept P q apart h =
      call-state P (λ r. r) q (apart q q.deliveries (q.calls + 1) h)
        (apart q q.deliveries (q.calls + 1) h)

  pub done-append :
      (posts : List (WebhookJob × Bool)) (post : WebhookJob × Bool)
      → any is_done (posts ++ post ∷ []) ≡ (any is_done posts || any is_done (post ∷ []))
  done-append [] post = refl
  done-append (p ∷ posts) post =
      rw (done-append posts post)
        (or_assoc (is_done p) (any is_done posts) (any is_done (post ∷ [])))

  pub claims-append :
      (claims : List (Member × ℕ)) (claim : Member × ℕ)
      → any names_claim (claims ++ claim ∷ [])
        ≡ (any names_claim claims || any names_claim (claim ∷ []))
  claims-append [] claim = refl
  claims-append (d ∷ claims) claim =
      rw (claims-append claims claim)
        (or_assoc (names_claim d) (any names_claim claims) (any names_claim (claim ∷ [])))

  -- The record of an attempt only adds.
  pub post-Kept :
      (q : Queue) (post : WebhookJob × Bool) (calls : ℕ)
      → Kept q
      → Kept (record q { calls = calls; posts = q.posts ++ post ∷ [] })
  post-Kept q post calls kept =
      or_mono_left (held q) _ _
        (or_mono (any names_entry q.ready) (any is_done q.posts) _
          (λ h. done-append q.posts post ∙ or-left _ (any is_done (post ∷ [])) h))
        kept

  pub post-held :
      (q : Queue) (job : WebhookJob) (accepted : Bool) (calls : ℕ)
      → is_delivery i job ≡ true
      → (accepted || is_exhausted job) ≡ true
      → held (record q { calls = calls; posts = q.posts ++ (job, accepted) ∷ [] }) ≡ true
  post-held q job accepted calls same over = or-right (any names_entry q.ready) _ (
      done-append q.posts (job, accepted)
      ∙ or-right (any is_done q.posts) _ (or-left _ false (and-both same over)))

  -- Kept, and held if the text is of the job.
  abbrev pub IsSafe : Json → Queue → Type 0
  IsSafe json q = (names json ≡ true → held q ≡ true) × Kept q
