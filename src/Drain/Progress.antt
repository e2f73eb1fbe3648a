-- ===== src/Drain/Progress.antt =====
-- A pass that reaches the database and redis: server/src/services/webhook_outbox_drain.rs.
use ethpayserver.Base.{ℕ, ◌+◌, ◌≡◌, refl, false, Option, none, some, List, [], ◌∷◌, map, All}
use ethpayserver.Database.Rows.{InvoiceData, PaymentData}
use ethpayserver.Webhook.Queue.{Outside}
use ethpayserver.Drain.Outbox.{WebhookObligation, claim_rows, claimable, obligation_of, stamp}
use ethpayserver.Drain.Dispatch.{
  Events, State, Config, Lookup, found, give_up, retry, QueueOutcome, queued, skipped, failed,
  count_call, load_obligation_subject, queue_for_store, after_queue, dispatch_subject,
  dispatch_parsed, dispatch_obligation, dispatch_each, claim_undispatched_obligations, drain_once,
}
use ethpayserver.Drain.Answered.{
  IsUp, IsDone, IsOn, mark-IsOn, IsOn-trans, IsLoaded, subject-answered, IsTold, store-IsTold,
}

module _ (x : Outside) (events : Events) where
  abbrev IsMarked : WebhookObligation → State → State → Type 0
  IsMarked o s t = IsOn s t × IsDone o.id t

  told-IsMarked :
      (o : WebhookObligation) (s : State) (outcome : QueueOutcome) (t : State)
      → IsTold s (outcome, t)
      → IsMarked o s (after_queue x events o.id (outcome, t))
  told-IsMarked o s queued t done =
      let marked = mark-IsOn o.id t done.on.up in (IsOn-trans done.on marked.0, marked.1)
  told-IsMarked o s skipped t done =
      let marked = mark-IsOn o.id t done.on.up in (IsOn-trans done.on marked.0, marked.1)
  told-IsMarked o s failed t done = absurd (done.told refl)

  subject-IsMarked :
      (o : WebhookObligation) (event_type : ℕ) (s : State) (l : Lookup (InvoiceData × PaymentData))
      (n : ℕ)
      → IsUp s
      → (l ≡ retry → ⊥)
      → IsMarked o s (dispatch_subject x events o event_type (l, record s { calls = n }))
  subject-IsMarked o event_type s retry n up answered = absurd (answered refl)
  subject-IsMarked o event_type s give_up n up answered =
      let marked = mark-IsOn o.id (record s { calls = n }) up in
      (record { up = marked.0.up; keeps = marked.0.keeps }, marked.1)
  subject-IsMarked o event_type s (found (invoice, payment)) n up answered =
      let r =
        queue_for_store x invoice.store_id (events.event_key event_type)
          (events.payment_event event_type invoice payment) (record s { calls = n }) in
      let marked =
        told-IsMarked o (record s { calls = n }) r.0 r.1
          (store-IsTold x invoice.store_id (events.event_key event_type)
            (events.payment_event event_type invoice payment) (record s { calls = n }) up) in
      (record { up = marked.0.up; keeps = marked.0.keeps }, marked.1)

  dispatch_subject-IsMarked :
      (o : WebhookObligation) (event_type : ℕ) (s : State)
      (r : Lookup (InvoiceData × PaymentData) × State)
      → IsUp s
      → IsLoaded s r
      → IsMarked o s (dispatch_subject x events o event_type r)
  dispatch_subject-IsMarked o event_type s (l, t) up (answered, (n, counted)) =
      rw counted (subject-IsMarked o event_type s l n up answered)

  parsed-IsMarked :
      (o : WebhookObligation) (s : State) (event_type : Option ℕ)
      → IsUp s
      → IsMarked o s (dispatch_parsed x events o event_type s)
  parsed-IsMarked o s none up = mark-IsOn o.id s up
  parsed-IsMarked o s (some event_type) up =
      dispatch_subject-IsMarked o event_type s (load_obligation_subject o s) up
        (subject-answered o s up)

  each-IsOn :
      (claimed : List WebhookObligation) (s : State)
      → IsUp s
      → IsOn s (dispatch_each x events claimed s)
  unfolding dispatch_each dispatch_obligation
  each-IsOn [] s up = record { up = up; keeps = λ id h. h }
  each-IsOn (o ∷ claimed) s up =
      let marked = parsed-IsMarked o s (events.parse_event_type o.event_type) up in
      IsOn-trans marked.0 (each-IsOn claimed (dispatch_obligation x events o s) marked.0.up)

  each-IsDone :
      (claimed : List WebhookObligation) (s : State)
      → IsUp s
      → All (λ o. IsDone o.id (dispatch_each x events claimed s)) claimed
  unfolding dispatch_each dispatch_obligation
  each-IsDone [] s up = tt
  each-IsDone (o ∷ claimed) s up =
      let marked = parsed-IsMarked o s (events.parse_event_type o.event_type) up in
      (
        (each-IsOn claimed (dispatch_obligation x events o s) marked.0.up).keeps o.id marked.1,
        each-IsDone claimed (dispatch_obligation x events o s) marked.0.up,
      )

-- While the database and redis answer, a pass of the drain marks every obligation that its claim takes as
-- dispatched.
pub drain_once-dispatches :
    (x : Outside) (events : Events) (config : Config) (s : State)
    → ((n : ℕ) → s.down n ≡ false)
    → ((n : ℕ) → s.queue.down n ≡ false)
    → All
        (λ o. IsDone o.id (drain_once x events config s))
        (claim_rows config.batch_size config.claim_visibility s.now s.webhook_outbox).0
unfolding drain_once claim_undispatched_obligations claim_rows
drain_once-dispatches x events config s up queue_up =
    let picked = claimable config.batch_size s.now s.webhook_outbox in
    let taken = record (count_call s) {
      webhook_outbox = map (stamp (s.now + config.claim_visibility) picked) s.webhook_outbox;
    } in
    rw (up s.calls) (each-IsDone x events (map obligation_of picked) taken (up, queue_up))
