-- ===== src/Drain/Answered.antt =====
-- What the calls of an obligation's turn answer while their services are up:
-- server/src/services/webhook_outbox_drain.rs and server/src/services/webhook/dispatch.rs.
use Prim.Native.String.{String}
use ethpayserver.Base.{
  ℕ, ◌+◌, ◌≡◌, refl, Bool, true, false, Bool-cases, Option-cases, inl, inr, ◌==◌, none, is_some,
  List, [], ◌∷◌, All, if◌then◌else◌,
}
use ethpayserver.Base.Dict.{get}
use ethpayserver.Database.Rows.{InvoiceData, PaymentData}
use ethpayserver.Webhook.Job.{WebhookJob}
use ethpayserver.Webhook.Queue as Redis
use ethpayserver.Webhook.Queue.{
  Outside, Queue, zadd_ready, write_delivery_record, queue_webhook, queue_connected,
}
use ethpayserver.Drain.Outbox.{WebhookObligation, Row, has_key, set_dispatched, mark_rows}
use ethpayserver.Drain.Dispatch.{
  StoreWebhook, State, Lookup, found, give_up, retry, QueueOutcome, skipped, failed, write,
  mark_dispatched, load_invoice, load_payment, with_payment, load_obligation_subject, prefs_off,
  suppressed_by_prefs, if_enabled, get_enabled_webhook, sink_queue, job_for, with_webhook,
  queue_for_store,
}

abbrev pub IsUp : State → Type 0
IsUp s = ((n : ℕ) → s.down n ≡ false) × ((n : ℕ) → s.queue.down n ≡ false)

call-up :
    (f : Queue → Queue) (q : Queue)
    → q.down q.calls ≡ false
    → Redis.call f q ≡ (true, f (Redis.count_call q))
unfolding Redis.call
call-up f q up = rw up refl

recorded-down :
    (job : WebhookJob) (status : Redis.WebhookDeliveryStatus) (attempts : ℕ) (q : Queue)
    → ((n : ℕ) → q.down n ≡ false)
    → (n : ℕ) → (write_delivery_record job status attempts q).down n ≡ false
unfolding write_delivery_record
recorded-down job status attempts q up n = simp (write_delivery_record, up q.calls) (up n)

-- A job that redis takes is queued.
queue_webhook-up :
    (x : Outside) (job : WebhookJob) (q : Queue)
    → ((n : ℕ) → q.down n ≡ false)
    → ((queue_webhook x job q).0 ≡ none) × ((n : ℕ) → (queue_webhook x job q).1.down n ≡ false)
unfolding queue_webhook queue_connected Redis.queued
queue_webhook-up x job q up =
    let waiting =
      zadd_ready job.scheduled_at (x.to_json job) (Redis.count_call (Redis.count_call q)) in
    rw
      (
        call-up (λ r. r) q (up q.calls),
        call-up (zadd_ready job.scheduled_at (x.to_json job)) (Redis.count_call q)
            (up (q.calls + 1)),
      )
      (refl, recorded-down job _ 0 waiting up)

-- The rows of the obligation are marked.
abbrev pub IsDone : ℕ → State → Type 0
IsDone id s = All (λ r. has_key id r ≡ true → is_some r.dispatched_at ≡ true) s.webhook_outbox

mark-done :
    (id now : ℕ) (rows : List Row)
    → All (λ r. has_key id r ≡ true → is_some r.dispatched_at ≡ true) (mark_rows id now rows)
unfolding mark_rows set_dispatched
mark-done id now [] = tt
mark-done id now (r ∷ rows) = elim (Bool-cases (r.obligation.id == id)) [
  | inl same ↦ simp same ((λ h. refl), mark-done id now rows)
  | inr other ↦ simp other ((λ h. cc (other, h)), mark-done id now rows)
]

mark-keeps :
    (id now other : ℕ) (rows : List Row)
    → All (λ r. has_key other r ≡ true → is_some r.dispatched_at ≡ true) rows
    → All (λ r. has_key other r ≡ true → is_some r.dispatched_at ≡ true) (mark_rows id now rows)
unfolding mark_rows set_dispatched
mark-keeps id now other [] h = tt
mark-keeps id now other (r ∷ rows) h = elim (Bool-cases (r.obligation.id == id)) [
  | inl same ↦ simp same ((λ g. refl), mark-keeps id now other rows h.1)
  | inr apart ↦ simp apart (h.0, mark-keeps id now other rows h.1)
]

-- The services stay up, and what was marked stays marked.
pub record IsOn (s t : State) : Type 0 where
  pub up : IsUp t
  pub keeps : (id : ℕ) → IsDone id s → IsDone id t

pub mark-IsOn :
    (id : ℕ) (s : State) → IsUp s → IsOn s (mark_dispatched id s) × IsDone id (mark_dispatched id s)
unfolding mark_dispatched write
mark-IsOn id s up = rw (up.0 s.calls) (
  record { up = up; keeps = λ other h. mark-keeps id s.now other s.webhook_outbox h },
  mark-done id s.now s.webhook_outbox,
)

pub IsOn-trans : {s t u : State} → IsOn s t → IsOn t u → IsOn s u
IsOn-trans first second = record {
  up = second.up;
  keeps = λ id h. second.keeps id (first.keeps id h);
}

-- An answer, as calls are counted only.
abbrev pub IsLoaded : State → Lookup (InvoiceData × PaymentData) × State → Type 0
IsLoaded s r = (r.0 ≡ retry → ⊥) × ((n : ℕ) × (r.1 ≡ record s { calls = n }))

module _ (o : WebhookObligation) where
  unless-answered :
      (invoice : InvoiceData) (payment : PaymentData) (gone : Bool)
      → Path
          (Lookup (InvoiceData × PaymentData))
          (if gone then give_up else found (invoice, payment))
          retry
      → ⊥
  unless-answered invoice payment true e = cc e
  unless-answered invoice payment false e = cc e

  payment-answered :
      (s : State) (invoice : InvoiceData) (n : ℕ)
      → IsUp s
      → IsLoaded s (with_payment o (found invoice, record s { calls = n }))
  unfolding load_payment
  payment-answered s invoice n up = elim (Option-cases (get o.payment_id s.tables.payments)) [
    | inl missing ↦ rw (up.0 n, missing) ((λ e. cc e), (n + 1, refl))
    | inr (payment, row) ↦
        rw (up.0 n, row) (unless-answered invoice payment payment.reorged, (n + 1, refl))
  ]

  pub subject-answered : (s : State) → IsUp s → IsLoaded s (load_obligation_subject o s)
  unfolding load_obligation_subject load_invoice
  subject-answered s up = elim (Option-cases (get o.invoice_id s.tables.invoices)) [
    | inl missing ↦ rw (up.0 s.calls, missing) ((λ e. cc e), (s.calls + 1, refl))
    | inr (invoice, row) ↦ rw (up.0 s.calls, row) (payment-answered s invoice (s.calls + 1) up)
  ]

-- The store is told, or needs not be.
pub record IsTold (s : State) (r : QueueOutcome × State) : Type 0 where
  pub told : r.0 ≡ failed → ⊥
  pub on : IsOn s r.1

module _ (x : Outside) (store_id : ℕ) (event_key : String) (payload : ℕ) (s : State)
    (up : IsUp s) where
  skip-IsTold : (n : ℕ) → IsTold s (skipped, record s { calls = n })
  skip-IsTold n = record { told = λ e. cc e; on = record { up = up; keeps = λ id h. h } }

  sink-IsTold :
      (webhook : StoreWebhook) (n : ℕ)
      → IsTold s (
          sink_queue x
            (job_for x webhook payload (record s { calls = n }))
            (record s { calls = n }))
  sink-IsTold webhook n =
      let job = job_for x webhook payload (record s { calls = n }) in
      let sent = queue_webhook-up x job s.queue up.1 in
      record {
        told = rw sent.0 (λ e. cc e);
        on = record { up = (up.0, sent.1); keeps = λ id h. h };
      }

  webhook-IsTold :
      (n : ℕ)
      → IsTold s (with_webhook x payload (get_enabled_webhook store_id (record s { calls = n })))
  unfolding get_enabled_webhook
  webhook-IsTold n = elim (Option-cases (if_enabled (get store_id s.tables.store_webhooks))) [
    | inl missing ↦ rw (up.0 n, missing) (skip-IsTold (n + 1))
    | inr (webhook, row) ↦ rw (up.0 n, row) (sink-IsTold webhook (n + 1))
  ]

  pub store-IsTold : IsTold s (queue_for_store x store_id event_key payload s)
  unfolding queue_for_store suppressed_by_prefs
  store-IsTold =
      elim (Bool-cases (prefs_off event_key (get store_id s.tables.notification_prefs))) [
        | inl off ↦ rw (up.0 s.calls, off) (skip-IsTold (s.calls + 1))
        | inr on ↦ rw (up.0 s.calls, on) (webhook-IsTold (s.calls + 1))
      ]
