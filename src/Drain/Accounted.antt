-- ===== src/Drain/Accounted.antt =====
-- No obligation is lost: server/src/services/webhook_outbox_drain.rs.
use ethpayserver.Base.{
  ℕ, ◌+◌, ◌≡◌, refl, sym, ap, ◌∙◌, inl, inr, Bool-cases, Option, none, some, is_some, List, [], ◌∷◌,
  map, All,
}
use ethpayserver.Base.Dict.{get}
use ethpayserver.Database.Rows.{InvoiceData, PaymentData}
use ethpayserver.Webhook.Job.{WebhookJob}
use ethpayserver.Webhook.Queue.{Outside, Queue}
use ethpayserver.Drain.Outbox.{WebhookObligation, Row, claimable, stamp, obligation_of, claim_rows}
use ethpayserver.Drain.Dispatch.{
  Tables, Events, State, Config, Lookup, found, give_up, retry, QueueOutcome, queued, skipped,
  failed, count_call, load_obligation_subject, queue_for_store, after_queue, dispatch_subject,
  dispatch_parsed, dispatch_obligation, dispatch_each, claim_undispatched_obligations, drain_once,
}
use ethpayserver.Drain.Claimed.{
  claimable-All, All-rows, All-obligations, stamp-same, stamped-obligations,
}
use ethpayserver.Drain.Settled.{
  IsSettled, unrecognized, no_invoice, no_payment, retracted, switched_off, no_webhook, handed_over,
  SubjectOk, Loaded, load_obligation_subject-Loaded, IsQueued, queue_for_store-IsQueued,
}
use ethpayserver.Drain.Marked.{
  IsOwn, obligations, IsKeyed, AccountedRow, IsAccounted, IsFine, frame-Accounted, mark-IsFine,
}

module _ (x : Outside) (events : Events) where
  module _ (round : (job : WebhookJob) → x.from_json (x.to_json job) ≡ some job)
      (o : WebhookObligation) (event_type : ℕ)
      (parsed : events.parse_event_type o.event_type ≡ some event_type) where
    queued-IsFine :
        (invoice : InvoiceData) (payment : PaymentData) (s : State) (outcome : QueueOutcome)
        (t : State)
        → get o.invoice_id s.tables.invoices ≡ some invoice
        → get o.payment_id s.tables.payments ≡ some payment
        → IsQueued x round invoice.store_id
            (events.event_key event_type)
            (events.payment_event event_type invoice payment)
            s
            (outcome, t)
        → All (IsOwn o) (obligations s)
        → IsAccounted x events s
        → IsFine x events s (after_queue x events o.id (outcome, t))
    queued-IsFine invoice payment s queued t there paid done own h =
        let fine =
          mark-IsFine x events o t
            (rw done.tables (
              handed_over event_type invoice payment done.ok.0 parsed there paid done.ok.1
                done.ok.2))
            (rw done.webhook_outbox own)
            (frame-Accounted x events s t done.tables done.webhook_outbox done.grows h) in
        record {
          accounted = fine.accounted;
          keys = fine.keys ∙ ap (map obligation_of) done.webhook_outbox;
        }
    queued-IsFine invoice payment s skipped t there paid done own h =
        let reason : IsSettled x events s.tables t.queue o = elim done.ok [
          | inl off ↦ switched_off event_type invoice parsed there off
          | inr missing ↦ no_webhook invoice there missing
        ] in
        let fine =
          mark-IsFine x events o t (rw done.tables reason) (rw done.webhook_outbox own)
            (frame-Accounted x events s t done.tables done.webhook_outbox done.grows h) in
        record {
          accounted = fine.accounted;
          keys = fine.keys ∙ ap (map obligation_of) done.webhook_outbox;
        }
    queued-IsFine invoice payment s failed t there paid done own h = record {
      accounted = frame-Accounted x events s t done.tables done.webhook_outbox done.grows h;
      keys = ap (map obligation_of) done.webhook_outbox;
    }

  module _ (round : (job : WebhookJob) → x.from_json (x.to_json job) ≡ some job) where
    subject-IsFine :
        (o : WebhookObligation) (event_type : ℕ)
        → events.parse_event_type o.event_type ≡ some event_type
        → (s : State) (l : Lookup (InvoiceData × PaymentData)) (n : ℕ) → SubjectOk o s l
        → All (IsOwn o) (obligations s)
        → IsAccounted x events s
        → IsFine x events s (dispatch_subject x events o event_type (l, record s { calls = n }))
    subject-IsFine o event_type parsed s (found (invoice, payment)) n ok own h =
        let r =
          queue_for_store x invoice.store_id (events.event_key event_type)
            (events.payment_event event_type invoice payment) (record s { calls = n }) in
        let fine =
          queued-IsFine round o event_type parsed invoice payment (record s { calls = n }) r.0 r.1
            ok.0 ok.1
            (queue_for_store-IsQueued x round invoice.store_id (events.event_key event_type)
              (events.payment_event event_type invoice payment) (record s { calls = n }))
            own h in
        record { accounted = fine.accounted; keys = fine.keys }
    subject-IsFine o event_type parsed s give_up n ok own h =
        let reason : IsSettled x events s.tables s.queue o = elim ok [
          | inl missing ↦ no_invoice missing
          | inr (inl missing) ↦ no_payment missing
          | inr (inr (payment, row, gone)) ↦ retracted payment row gone
        ] in
        let fine = mark-IsFine x events o (record s { calls = n }) reason own h in
        record { accounted = fine.accounted; keys = fine.keys }
    subject-IsFine o event_type parsed s retry n ok own h = record { accounted = h; keys = refl }

    dispatch_subject-IsFine :
        (o : WebhookObligation) (event_type : ℕ) (s : State)
        (r : Lookup (InvoiceData × PaymentData) × State)
        → events.parse_event_type o.event_type ≡ some event_type
        → Loaded o s r
        → All (IsOwn o) (obligations s)
        → IsAccounted x events s
        → IsFine x events s (dispatch_subject x events o event_type r)
    dispatch_subject-IsFine o event_type s (l, t) parsed (ok, (n, counted)) own h =
        rw counted (subject-IsFine o event_type parsed s l n ok own h)

    parsed-IsFine :
        (o : WebhookObligation) (s : State) (event_type : Option ℕ)
        → events.parse_event_type o.event_type ≡ event_type
        → All (IsOwn o) (obligations s)
        → IsAccounted x events s
        → IsFine x events s (dispatch_parsed x events o event_type s)
    parsed-IsFine o s none parsed own h = mark-IsFine x events o s (unrecognized parsed) own h
    parsed-IsFine o s (some event_type) parsed own h =
        dispatch_subject-IsFine o event_type s (load_obligation_subject o s) parsed
          (load_obligation_subject-Loaded o s) own h

    dispatch_obligation-IsFine :
        (o : WebhookObligation) (s : State)
        → All (IsOwn o) (obligations s)
        → IsAccounted x events s
        → IsFine x events s (dispatch_obligation x events o s)
    unfolding dispatch_obligation
    dispatch_obligation-IsFine o s own h =
        parsed-IsFine o s (events.parse_event_type o.event_type) refl own h

    dispatch_each-IsAccounted :
        (claimed : List WebhookObligation) (s : State)
        → All (λ o. All (IsOwn o) (obligations s)) claimed
        → IsAccounted x events s
        → IsAccounted x events (dispatch_each x events claimed s)
    unfolding dispatch_each
    dispatch_each-IsAccounted [] s own h = h
    dispatch_each-IsAccounted (o ∷ claimed) s own h =
        let fine = dispatch_obligation-IsFine o s own.0 h in
        dispatch_each-IsAccounted claimed (dispatch_obligation x events o s) (rw fine.keys own.1)
          fine.accounted

  stamped-All :
      (t : Tables) (q : Queue) (until : ℕ) (picked rows : List Row)
      → All (AccountedRow x events t q) rows
      → All (AccountedRow x events t q) (map (stamp until picked) rows)
  stamped-All t q until picked [] h = tt
  stamped-All t q until picked (r ∷ rows) h =
      let same = stamp-same until picked r in
      (
        (λ done. rw same.0 (h.0 (sym (ap is_some same.1) ∙ done))),
        stamped-All t q until picked rows h.1,
      )

-- Take a table where every obligation marked as dispatched either has nothing to deliver (its event is unknown,
-- its invoice or payment is gone or retracted, the store has switched the event off or has no enabled
-- webhook) or has a job with its payload kept in the queue. A pass of the drain leaves the table so,
-- whatever calls of the database and redis fail, with or without their effect.
pub drain_once-IsAccounted :
    (x : Outside) (events : Events) (config : Config) (s : State)
    → ((job : WebhookJob) → x.from_json (x.to_json job) ≡ some job)
    → IsKeyed s
    → IsAccounted x events s
    → IsAccounted x events (drain_once x events config s)
unfolding drain_once claim_undispatched_obligations claim_rows
drain_once-IsAccounted x events config s round keyed h =
    let picked = claimable config.batch_size s.now s.webhook_outbox in
    let until = s.now + config.claim_visibility in
    let taken = record (count_call s) {
      webhook_outbox = map (stamp until picked) s.webhook_outbox;
    } in
    let still = stamped-All x events s.tables s.queue until picked s.webhook_outbox h in
    let own : All (λ o. All (IsOwn o) (obligations s)) (map obligation_of picked) =
      All-obligations (λ o. All (IsOwn o) (obligations s)) picked
        (claimable-All (λ r. All (IsOwn r.obligation) (obligations s)) config.batch_size s.now
          s.webhook_outbox
          (All-rows (λ o. All (IsOwn o) (obligations s)) s.webhook_outbox keyed)) in
    elim (Bool-cases (s.down s.calls)) [
      | inl down ↦ elim (Bool-cases (s.lost s.calls)) [
        | inl reached ↦ rw (down, reached) still
        | inr unreached ↦ rw (down, unreached) h
      ]
      | inr up ↦ rw up (
          dispatch_each-IsAccounted x events round (map obligation_of picked) taken
            (rw (stamped-obligations until picked s.webhook_outbox) own) still)
    ]
