-- ===== src/Drain/Settled.antt =====
-- Why an obligation may be marked dispatched.
use Prim.Native.String.{String}
use ethpayserver.Base.{
  ℕ, ◌+◌, ◌≡◌, refl, ◌⊎◌, inl, inr, Bool, true, false, Bool-cases, Option-cases, none, some,
  if◌then◌else◌,
}
use ethpayserver.Base.Dict.{get}
use ethpayserver.Database.Rows.{InvoiceData, PaymentData}
use ethpayserver.Webhook.Job.{WebhookJob, new_job}
use ethpayserver.Webhook.Queue.{Outside, Queue, queue_webhook}
use ethpayserver.Webhook.Kept.{Delivery, delivery_of, is_kept}
use ethpayserver.Webhook.Kept.Turn.{queue_webhook-Kept, queue_webhook-keeps}
use ethpayserver.Drain.Outbox.{WebhookObligation}
use ethpayserver.Drain.Dispatch.{
  StoreWebhook, Tables, Events, State, Lookup, found, give_up, retry, QueueOutcome, queued, skipped,
  failed, load_invoice, load_payment, with_payment, load_obligation_subject, prefs_off,
  suppressed_by_prefs, if_enabled, get_enabled_webhook, sink_queue, job_for, with_webhook,
  queue_for_store,
}

-- There is nothing to deliver, or a job with the payload is kept in the queue.
pub data IsSettled (x : Outside) (events : Events) (t : Tables) (q : Queue) (o : WebhookObligation)
    : Type 0 where
  unrecognized : events.parse_event_type o.event_type ≡ none → IsSettled x events t q o
  no_invoice : get o.invoice_id t.invoices ≡ none → IsSettled x events t q o
  no_payment : get o.payment_id t.payments ≡ none → IsSettled x events t q o
  retracted :
      (payment : PaymentData)
      → get o.payment_id t.payments ≡ some payment
      → payment.reorged ≡ true
      → IsSettled x events t q o
  switched_off :
      (event_type : ℕ) (invoice : InvoiceData)
      → events.parse_event_type o.event_type ≡ some event_type
      → get o.invoice_id t.invoices ≡ some invoice
      → prefs_off (events.event_key event_type) (get invoice.store_id t.notification_prefs) ≡ true
      → IsSettled x events t q o
  no_webhook :
      (invoice : InvoiceData)
      → get o.invoice_id t.invoices ≡ some invoice
      → if_enabled (get invoice.store_id t.store_webhooks) ≡ none
      → IsSettled x events t q o
  handed_over :
      (event_type : ℕ) (invoice : InvoiceData) (payment : PaymentData) (i : Delivery)
      → events.parse_event_type o.event_type ≡ some event_type
      → get o.invoice_id t.invoices ≡ some invoice
      → get o.payment_id t.payments ≡ some payment
      → i.payload ≡ events.payment_event event_type invoice payment
      → is_kept x i q ≡ true
      → IsSettled x events t q o

abbrev pub Grows : Outside → Queue → Queue → Type 0
Grows x q r = (i : Delivery) → is_kept x i q ≡ true → is_kept x i r ≡ true

pub IsSettled-Grows :
    (x : Outside) (events : Events) (t : Tables) (q r : Queue) (o : WebhookObligation)
    → Grows x q r
    → IsSettled x events t q o
    → IsSettled x events t r o
IsSettled-Grows x events t q r o grows (unrecognized e) = unrecognized e
IsSettled-Grows x events t q r o grows (no_invoice e) = no_invoice e
IsSettled-Grows x events t q r o grows (no_payment e) = no_payment e
IsSettled-Grows x events t q r o grows (retracted p e f) = retracted p e f
IsSettled-Grows x events t q r o grows (switched_off n i e f g) = switched_off n i e f g
IsSettled-Grows x events t q r o grows (no_webhook i e f) = no_webhook i e f
IsSettled-Grows x events t q r o grows (handed_over n i p d e f g h kept) =
    handed_over n i p d e f g h (grows d kept)

-- A read only counts.
module _ (o : WebhookObligation) (s : State) where
  abbrev pub SubjectOk : Lookup (InvoiceData × PaymentData) → Type 0
  SubjectOk (found (invoice, payment)) =
      (get o.invoice_id s.tables.invoices ≡ some invoice)
      × (get o.payment_id s.tables.payments ≡ some payment)
  SubjectOk give_up =
      (get o.invoice_id s.tables.invoices ≡ none)
      ⊎ ((get o.payment_id s.tables.payments ≡ none)
          ⊎ ((p : PaymentData) × (get o.payment_id s.tables.payments ≡ some p)
              × (p.reorged ≡ true)))
  SubjectOk retry = Unit

  abbrev pub Loaded : Lookup (InvoiceData × PaymentData) × State → Type 0
  Loaded r = SubjectOk r.0 × ((n : ℕ) × (r.1 ≡ record s { calls = n }))

  unless-SubjectOk :
      (invoice : InvoiceData) (payment : PaymentData)
      → get o.invoice_id s.tables.invoices ≡ some invoice
      → get o.payment_id s.tables.payments ≡ some payment
      → (gone : Bool) → payment.reorged ≡ gone
      → SubjectOk (if gone then give_up else found (invoice, payment))
  unless-SubjectOk invoice payment there row true e = inr (inr (payment, row, e))
  unless-SubjectOk invoice payment there row false e = (there, row)

  payment-Loaded :
      (invoice : InvoiceData) (n : ℕ)
      → get o.invoice_id s.tables.invoices ≡ some invoice
      → Loaded (with_payment o (found invoice, record s { calls = n }))
  unfolding load_payment
  payment-Loaded invoice n there = elim (Bool-cases (s.down n)) [
    | inl down ↦ rw down (tt, (n + 1, refl))
    | inr up ↦ elim (Option-cases (get o.payment_id s.tables.payments)) [
      | inl missing ↦ rw (up, missing) (inr (inl missing), (n + 1, refl))
      | inr (payment, row) ↦
          rw (up, row)
            (unless-SubjectOk invoice payment there row payment.reorged refl, (n + 1, refl))
    ]
  ]

  pub load_obligation_subject-Loaded : Loaded (load_obligation_subject o s)
  unfolding load_obligation_subject load_invoice
  load_obligation_subject-Loaded = elim (Bool-cases (s.down s.calls)) [
    | inl down ↦ rw down (tt, (s.calls + 1, refl))
    | inr up ↦ elim (Option-cases (get o.invoice_id s.tables.invoices)) [
      | inl missing ↦ rw (up, missing) (inl missing, (s.calls + 1, refl))
      | inr (invoice, row) ↦ rw (up, row) (payment-Loaded invoice (s.calls + 1) row)
    ]
  ]

module _ (x : Outside) (round : (job : WebhookJob) → x.from_json (x.to_json job) ≡ some job)
    (store_id : ℕ) (event_key : String) (payload : ℕ) (s : State) where
  -- What an outcome says of the store, and of the queue behind it.
  abbrev pub OutcomeOk : QueueOutcome → Queue → Type 0
  OutcomeOk queued q = (i : Delivery) × (i.payload ≡ payload) × (is_kept x i q ≡ true)
  OutcomeOk skipped q =
      (prefs_off event_key (get store_id s.tables.notification_prefs) ≡ true)
      ⊎ (if_enabled (get store_id s.tables.store_webhooks) ≡ none)
  OutcomeOk failed q = Unit

  pub record IsQueued (r : QueueOutcome × State) : Type 0 where
    pub ok : OutcomeOk r.0 r.1.queue
    pub tables : r.1.tables ≡ s.tables
    pub webhook_outbox : r.1.webhook_outbox ≡ s.webhook_outbox
    pub grows : Grows x s.queue r.1.queue

  read-IsQueued :
      (outcome : QueueOutcome) (n : ℕ)
      → OutcomeOk outcome s.queue
      → IsQueued (outcome, record s { calls = n })
  read-IsQueued outcome n ok = record {
    ok = ok;
    tables = refl;
    webhook_outbox = refl;
    grows = λ i h. h;
  }

  sink_queue-IsQueued :
      (webhook : StoreWebhook) (n : ℕ)
      → IsQueued (
          sink_queue x
            (job_for x webhook payload (record s { calls = n }))
            (record s { calls = n }))
  unfolding new_job
  sink_queue-IsQueued webhook n =
      let job = job_for x webhook payload (record s { calls = n }) in
      elim (Option-cases (queue_webhook x job s.queue).0) [
        | inl done ↦ record {
          ok = rw done (delivery_of job, refl, queue_webhook-Kept x job s.queue round done);
          tables = refl;
          webhook_outbox = refl;
          grows = λ i h. queue_webhook-keeps x i job s.queue h;
        }
        | inr (e, broken) ↦ record {
          ok = rw broken tt;
          tables = refl;
          webhook_outbox = refl;
          grows = λ i h. queue_webhook-keeps x i job s.queue h;
        }
      ]

  webhook-IsQueued :
      (n : ℕ)
      → IsQueued (with_webhook x payload (get_enabled_webhook store_id (record s { calls = n })))
  unfolding get_enabled_webhook
  webhook-IsQueued n = elim (Bool-cases (s.down n)) [
    | inl down ↦ rw down (read-IsQueued failed (n + 1) tt)
    | inr up ↦ elim (Option-cases (if_enabled (get store_id s.tables.store_webhooks))) [
      | inl missing ↦ rw (up, missing) (read-IsQueued skipped (n + 1) (inr missing))
      | inr (webhook, row) ↦ rw (up, row) (sink_queue-IsQueued webhook (n + 1))
    ]
  ]

  pub queue_for_store-IsQueued : IsQueued (queue_for_store x store_id event_key payload s)
  unfolding queue_for_store suppressed_by_prefs
  queue_for_store-IsQueued = elim (Bool-cases (s.down s.calls)) [
    | inl down ↦ rw down (webhook-IsQueued (s.calls + 1))
    | inr up ↦ elim (Bool-cases (prefs_off event_key (get store_id s.tables.notification_prefs))) [
      | inl off ↦ rw (up, off) (read-IsQueued skipped (s.calls + 1) (inl off))
      | inr on ↦ rw (up, on) (webhook-IsQueued (s.calls + 1))
    ]
  ]
