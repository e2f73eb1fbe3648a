-- ===== src/Drain/Dispatch.antt =====
-- The drain of the outbox with the store's webhook: server/src/services/webhook_outbox_drain.rs and
-- server/src/services/webhook/dispatch.rs. A call of the database fails where the n-th call does,
-- before or after its effect, and redis by itself.
use Prim.Native.String.{String}
use ethpayserver.Base.{ℕ, ◌+◌, Bool, true, false, Option, none, some, List, [], ◌∷◌, if◌then◌else◌}
use ethpayserver.Base.Dict.{Dict, get}
use ethpayserver.Base.Text.{eq_str}
use ethpayserver.Base.Assoc.{lookup}
use ethpayserver.Database.Rows.{Json, boolean, InvoiceData, PaymentData}
use ethpayserver.Webhook.Job.{WebhookError, WebhookJob, new_job}
use ethpayserver.Webhook.Queue.{Outside, Queue, queue_webhook}
use ethpayserver.Drain.Outbox.{WebhookObligation, Row, claim_rows, mark_rows}

-- A row of `store_webhooks`, keyed by its store.
pub record StoreWebhook : Type 0 where
  pub id : ℕ
  pub webhook_url : ℕ
  pub webhook_secret : ℕ
  pub enabled : Bool

-- By event, then by channel.
abbrev pub Prefs : Type 0
Prefs = List (String × List (String × Json))

-- What the drain only reads.
pub record Tables : Type 0 where
  pub invoices : Dict InvoiceData
  pub payments : Dict PaymentData
  pub store_webhooks : Dict StoreWebhook
  pub notification_prefs : Dict Prefs

-- The operations of the crate api_types: an event type by its name, its name, and a payload.
pub record Events : Type 0 where
  pub parse_event_type : String → Option ℕ
  pub event_key : ℕ → String
  pub payment_event : ℕ → InvoiceData → PaymentData → ℕ

pub record State : Type 0 where
  pub tables : Tables
  pub webhook_outbox : List Row
  pub now : ℕ
  pub calls : ℕ
  pub down : ℕ → Bool
  pub lost : ℕ → Bool
  pub fresh : ℕ
  pub queue : Queue

pub record Config : Type 0 where
  pub batch_size : ℕ
  pub claim_visibility : ℕ

pub data Lookup (A : Type 0) : Type 0 where
  found : A → Lookup A
  give_up retry : Lookup A

pub data QueueOutcome : Type 0 where
  queued skipped failed : QueueOutcome

abbrev pub count_call : State → State
count_call s = record s { calls = s.calls + 1 }

-- A call that reads.
abbrev pub read {ℓ} : {A : Type ℓ} → A → State → Option A × State
read a s = ((if s.down s.calls then none else some a), count_call s)

-- A call that writes, and whether it was answered.
unfoldable pub write : (State → State) → State → State
write f s =
    if s.down s.calls
    then (if s.lost s.calls then f (count_call s) else count_call s)
    else f (count_call s)

abbrev pub mark_now : ℕ → State → State
mark_now id s = record s { webhook_outbox = mark_rows id s.now s.webhook_outbox }

unfoldable pub mark_dispatched : ℕ → State → State
unfolding write
mark_dispatched id s = write (mark_now id) s

-- A row that may be missing, behind a call that may fail.
abbrev pub lookup_of : {A : Type 0} → Option (Option A) → Lookup A
lookup_of none = retry
lookup_of (some none) = give_up
lookup_of (some (some a)) = found a

unfoldable pub load_invoice : WebhookObligation → State → Lookup InvoiceData × State
load_invoice o s = let r = read (get o.invoice_id s.tables.invoices) s in (lookup_of r.0, r.1)

unfoldable pub load_payment : WebhookObligation → State → Lookup PaymentData × State
load_payment o s = let r = read (get o.payment_id s.tables.payments) s in (lookup_of r.0, r.1)

abbrev pub unless_reorged : InvoiceData → Lookup PaymentData → Lookup (InvoiceData × PaymentData)
unless_reorged invoice (found payment) =
    if payment.reorged then give_up else found (invoice, payment)
unless_reorged invoice give_up = give_up
unless_reorged invoice retry = retry

abbrev pub with_payment :
    WebhookObligation → Lookup InvoiceData × State → Lookup (InvoiceData × PaymentData) × State
with_payment o (found invoice, s) = let r = load_payment o s in (unless_reorged invoice r.0, r.1)
with_payment o (give_up, s) = (give_up, s)
with_payment o (retry, s) = (retry, s)

unfoldable pub load_obligation_subject :
    WebhookObligation → State → Lookup (InvoiceData × PaymentData) × State
unfolding load_invoice load_payment
load_obligation_subject o s = with_payment o (load_invoice o s)

-- `and_then(|prefs| prefs.get("webhook")) == Some(&Bool(false))`.
abbrev pub is_false : Option Json → Bool
is_false (some (boolean false)) = true
is_false _ = false

abbrev pub channel_off : Option (List (String × Json)) → Bool
channel_off none = false
channel_off (some prefs) = is_false (lookup eq_str "webhook" prefs)

abbrev pub prefs_off : String → Option Prefs → Bool
prefs_off event_key none = false
prefs_off event_key (some prefs) = channel_off (lookup eq_str event_key prefs)

abbrev pub read_or_off : String → Option (Option Prefs) → Bool
read_or_off event_key none = false
read_or_off event_key (some prefs) = prefs_off event_key prefs

unfoldable pub suppressed_by_prefs : ℕ → String → State → Bool × State
suppressed_by_prefs store_id event_key s =
    let r = read (get store_id s.tables.notification_prefs) s in (read_or_off event_key r.0, r.1)

abbrev pub if_enabled : Option StoreWebhook → Option StoreWebhook
if_enabled none = none
if_enabled (some w) = if w.enabled then some w else none

unfoldable pub get_enabled_webhook : ℕ → State → Option (Option StoreWebhook) × State
get_enabled_webhook store_id s = read (if_enabled (get store_id s.tables.store_webhooks)) s

abbrev pub outcome_of : Option WebhookError → QueueOutcome
outcome_of none = queued
outcome_of (some e) = failed

module _ (x : Outside) where
  abbrev pub sink_queue : WebhookJob → State → QueueOutcome × State
  sink_queue job s =
      let r = queue_webhook x job s.queue in
      (outcome_of r.0, record s { queue = r.1; fresh = s.fresh + 1 })

  abbrev pub job_for : StoreWebhook → ℕ → State → WebhookJob
  job_for webhook payload s =
      new_job s.fresh s.now webhook.id webhook.webhook_url webhook.webhook_secret payload

  abbrev pub with_webhook : ℕ → Option (Option StoreWebhook) × State → QueueOutcome × State
  with_webhook payload (none, s) = (failed, s)
  with_webhook payload (some none, s) = (skipped, s)
  with_webhook payload (some (some webhook), s) = sink_queue (job_for webhook payload s) s

  abbrev pub unless_suppressed : ℕ → ℕ → Bool × State → QueueOutcome × State
  unless_suppressed store_id payload (true, s) = (skipped, s)
  unless_suppressed store_id payload (false, s) =
      with_webhook payload (get_enabled_webhook store_id s)

  unfoldable pub queue_for_store : ℕ → String → ℕ → State → QueueOutcome × State
  unfolding suppressed_by_prefs get_enabled_webhook
  queue_for_store store_id event_key payload s =
      unless_suppressed store_id payload (suppressed_by_prefs store_id event_key s)

  module _ (events : Events) where
    abbrev pub after_queue : ℕ → QueueOutcome × State → State
    after_queue id (queued, s) = mark_dispatched id s
    after_queue id (skipped, s) = mark_dispatched id s
    after_queue id (failed, s) = s

    abbrev pub dispatch_subject :
        WebhookObligation → ℕ → Lookup (InvoiceData × PaymentData) × State → State
    dispatch_subject o event_type (found (invoice, payment), s) = after_queue o.id (
        queue_for_store invoice.store_id (events.event_key event_type)
          (events.payment_event event_type invoice payment) s)
    dispatch_subject o event_type (give_up, s) = mark_dispatched o.id s
    dispatch_subject o event_type (retry, s) = s

    abbrev pub dispatch_parsed : WebhookObligation → Option ℕ → State → State
    dispatch_parsed o none s = mark_dispatched o.id s
    dispatch_parsed o (some event_type) s =
        dispatch_subject o event_type (load_obligation_subject o s)

    unfoldable pub dispatch_obligation : WebhookObligation → State → State
    unfolding load_obligation_subject queue_for_store mark_dispatched
    dispatch_obligation o s = dispatch_parsed o (events.parse_event_type o.event_type) s

    unfoldable pub dispatch_each : List WebhookObligation → State → State
    unfolding dispatch_obligation
    dispatch_each [] s = s
    dispatch_each (o ∷ obligations) s = dispatch_each obligations (dispatch_obligation o s)

    unfoldable pub claim_undispatched_obligations :
        Config → State → Option (List WebhookObligation) × State
    unfolding claim_rows
    claim_undispatched_obligations config s =
        let r = claim_rows config.batch_size config.claim_visibility s.now s.webhook_outbox in
        let taken = record (count_call s) { webhook_outbox = r.1 } in
        if s.down s.calls
        then (none, if s.lost s.calls then taken else count_call s)
        else (some r.0, taken)

    abbrev pub dispatch_claimed : Option (List WebhookObligation) × State → State
    dispatch_claimed (none, s) = s
    dispatch_claimed (some obligations, s) = dispatch_each obligations s

    unfoldable pub drain_once : Config → State → State
    unfolding claim_undispatched_obligations dispatch_each
    drain_once config s = dispatch_claimed (claim_undispatched_obligations config s)
