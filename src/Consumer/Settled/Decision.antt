-- ===== src/Consumer/Settled/Decision.antt =====
-- What the decision of server/src/services/event_consumer/confirmation_handler.rs leaves of an
-- invoice, from what the handler has read.
use ethpayserver.Base.{
  ℕ, ◌≡◌, refl, sym, ap, Bool, true, false, some, inl, inr, Option-cases, arith,
}
use ethpayserver.Base.Dict.{get, get-insert}
use ethpayserver.External.{Crates}
use ethpayserver.Event.{PaymentConfirmed}
use ethpayserver.Settlement.{Source, parsed, effective_tolerance, is_fully_paid}
use ethpayserver.Database.Rows.{
  InvoiceStatus, pending, processing, partially_paid, late_paid, paid, expired, cancelled, refunded,
  InvoiceData, PaymentData, World,
}
use ethpayserver.Database.Monad.{not_found, err, M, pure, ◌>>◌, notify}
use ethpayserver.Database.Keeps.{IsQuiet, keep_bind, keep_then, keep_attempt}
use ethpayserver.Database.Ensures.{Ensures, ensure_bind, ensure_kept, ensure_weaken, ensure_call}
use ethpayserver.Database.Invoices.{write_status, update_status, set_status}
use ethpayserver.Consumer.Services.{Services}
use ethpayserver.Consumer.Confirmed.{settle_paid, settle_late, settle}
use ethpayserver.Consumer.Keeps.Reads.{
  get-Keeps, notify_if-Keeps, announce-Keeps, send_customer_receipt-Keeps,
  notify_own_store_settled-Keeps,
}

-- The statuses of an invoice that still waits for its amount.
abbrev pub is_waiting : InvoiceStatus → Bool
is_waiting processing = true
is_waiting partially_paid = true
is_waiting expired = true
is_waiting _ = false

abbrev HasStatus : ℕ → InvoiceStatus → World → Type 0
HasStatus id st w = (inv : InvoiceData) → get id w.invoices ≡ some inv → inv.status ≡ st

HasStatus-IsQuiet : (id : ℕ) (st : InvoiceStatus) → IsQuiet (HasStatus id st)
unfolding notify
HasStatus-IsQuiet id st = record { calls = λ w n h. h; fresh = λ w n h. h; sent = λ w n h. h }

abbrev pub Always : World → Type 0
Always w = Unit

pub Always-IsQuiet : IsQuiet Always
unfolding notify
Always-IsQuiet = record { calls = λ w n h. h; fresh = λ w n h. h; sent = λ w n h. h }

set_status-HasStatus :
    (id : ℕ) (st : InvoiceStatus) (old : InvoiceData) (w : World)
    → HasStatus id st (set_status id st old w)
unfolding set_status
set_status-HasStatus id st old w inv found =
    let new : some (record old { status = st }) ≡ some inv =
      ground (arith, found, get-insert id id (record old { status = st }) w.invoices) in
    cc new

write_status-HasStatus :
    {P : World → Type 0} (id : ℕ) (st : InvoiceStatus)
    → Ensures P (write_status id st) (λ _. HasStatus id st)
unfolding write_status
write_status-HasStatus id st = record {
  ensure = λ w a h e. elim (Option-cases (get id w.invoices)) [
    | inl missing ↦
        let failed : write_status id st w ≡ (err not_found, w) = rw (write_status, missing) refl in
        cc (ap (λ r. r.0) failed, e)
    | inr (old, found) ↦ rw (write_status, found) (set_status-HasStatus id st old w)
  ];
}

pub ensure-Always : {A : Type 0} {P : World → Type 0} (m : M A) → Ensures P m (λ _. Always)
ensure-Always m = record { ensure = λ w a h e. tt }

module _ (x : Crates) (s : Services) (e : PaymentConfirmed) where
  open x use {D, from_str}

  -- The invoice does not wait for its amount while what it received is enough.
  abbrev pub IsSettled : World → Type 0
  IsSettled w =
      (inv : InvoiceData) (received expected tolerance : D) (source : Source)
      → get e.invoice_id w.invoices ≡ some inv
      → is_waiting inv.status ≡ true
      → from_str inv.amount_received ≡ some received
      → from_str inv.amount ≡ some expected
      → effective_tolerance x (get inv.store_id w.tolerances) ≡ parsed (tolerance, source)
      → is_fully_paid x received expected tolerance ≡ false

  closed-IsSettled :
      (st : InvoiceStatus) (w : World)
      → is_waiting st ≡ false
      → HasStatus e.invoice_id st w
      → IsSettled w
  closed-IsSettled st w closed h inv received expected tolerance source found waits _ _ _ =
      let same : inv.status ≡ st = h inv found in
      let not_waiting : is_waiting inv.status ≡ false = rw same closed in cc (not_waiting, waits)

  settle_paid-HasStatus :
      {P : World → Type 0} (p : PaymentData) (inv : InvoiceData)
      → IsQuiet P
      → Ensures P (settle_paid x s e p inv) (λ _. HasStatus e.invoice_id paid)
  unfolding settle_paid update_status
  settle_paid-HasStatus p inv q =
      let quiet = HasStatus-IsQuiet e.invoice_id paid in
      ensure_bind {Q = λ _. HasStatus e.invoice_id paid}
        (ensure_call q (write_status-HasStatus e.invoice_id paid))
        (λ _. ensure_kept (
          keep_then (notify_if-Keeps quiet s _ _) (
            keep_bind (keep_attempt (get-Keeps quiet s e.invoice_id)) λ updated.
              keep_then (announce-Keeps quiet s "payment_confirmed" p updated) (
                keep_then (send_customer_receipt-Keeps quiet s inv p)
                  (notify_own_store_settled-Keeps quiet s e.invoice_id e.confirmed_at)))))

  settle_late-HasStatus :
      {P : World → Type 0} (p : PaymentData)
      → IsQuiet P
      → Ensures P (settle_late x s e p) (λ _. HasStatus e.invoice_id late_paid)
  unfolding settle_late update_status
  settle_late-HasStatus p q =
      let quiet = HasStatus-IsQuiet e.invoice_id late_paid in
      ensure_bind {Q = λ _. HasStatus e.invoice_id late_paid}
        (ensure_call q (write_status-HasStatus e.invoice_id late_paid))
        (λ _. ensure_kept (
          keep_then (notify_if-Keeps quiet s _ _) (
            keep_bind (keep_attempt (get-Keeps quiet s e.invoice_id)) λ updated.
              keep_then (announce-Keeps quiet s "late_paid" p updated)
                (notify_own_store_settled-Keeps quiet s e.invoice_id e.confirmed_at))))

  -- What the handler has read when it decides.
  pub record Known (inv : InvoiceData) (received expected tolerance : D) (source : Source)
      (w : World) : Type 0 where
    pub row : get e.invoice_id w.invoices ≡ some inv
    pub got : from_str inv.amount_received ≡ some received
    pub asked : from_str inv.amount ≡ some expected
    pub setting : effective_tolerance x (get inv.store_id w.tolerances) ≡ parsed (tolerance, source)

  Known-IsQuiet :
      (inv : InvoiceData) (received expected tolerance : D) (source : Source)
      → IsQuiet (Known inv received expected tolerance source)
  unfolding notify
  Known-IsQuiet inv received expected tolerance source = record {
    calls = λ w n h. record { row = h.row; got = h.got; asked = h.asked; setting = h.setting };
    fresh = λ w n h. record { row = h.row; got = h.got; asked = h.asked; setting = h.setting };
    sent = λ w n h. record { row = h.row; got = h.got; asked = h.asked; setting = h.setting };
  }

  short-IsSettled :
      (inv : InvoiceData) (received expected tolerance : D) (source : Source) (w : World)
      → is_fully_paid x received expected tolerance ≡ false
      → Known inv received expected tolerance source w
      → IsSettled w
  short-IsSettled inv received expected tolerance source w short h inv' r e' t src found waits got
        asked setting =
      let same : inv ≡ inv' = cc (h.row, found) in
      let same_received : received ≡ r = cc (h.got, got, same) in
      let same_expected : expected ≡ e' = cc (h.asked, asked, same) in
      let same_tolerance : tolerance ≡ t = cc (h.setting, setting, same) in
      rw (sym same_received, sym same_expected, sym same_tolerance) short

  open-IsSettled :
      (inv : InvoiceData) (received expected tolerance : D) (source : Source) (w : World)
      → is_waiting inv.status ≡ false
      → Known inv received expected tolerance source w
      → IsSettled w
  open-IsSettled inv received expected tolerance source w closed h =
      closed-IsSettled inv.status w closed (λ inv' found. cc (h.row, found))

  IsSettled-if-closed :
      {P : World → Type 0} {m : M (Unit {0})} (st : InvoiceStatus)
      → is_waiting st ≡ false
      → Ensures P m (λ _. HasStatus e.invoice_id st)
      → Ensures P m (λ _. IsSettled)
  IsSettled-if-closed st closed k = ensure_weaken k (λ a w h. closed-IsSettled st w closed h)

  pay-IsSettled :
      {P : World → Type 0} (p : PaymentData) (inv : InvoiceData) (allowance : M (Unit {0}))
      → Ensures P (allowance >> settle_paid x s e p inv) (λ _. IsSettled)
  pay-IsSettled p inv allowance =
      ensure_bind {Q = λ _. Always} (ensure-Always allowance)
        (λ _. IsSettled-if-closed paid refl (settle_paid-HasStatus p inv Always-IsQuiet))

  late-IsSettled :
      {P : World → Type 0} (p : PaymentData) (allowance : M (Unit {0}))
      → Ensures P (allowance >> settle_late x s e p) (λ _. IsSettled)
  late-IsSettled p allowance =
      ensure_bind {Q = λ _. Always} (ensure-Always allowance)
        (λ _. IsSettled-if-closed late_paid refl (settle_late-HasStatus p Always-IsQuiet))

  module _ (p : PaymentData) (inv : InvoiceData) (received expected tolerance : D) (source : Source)
      (allowance : M (Unit {0})) where
    rest-IsSettled :
        is_waiting inv.status ≡ false
        → Ensures (Known inv received expected tolerance source) (pure tt) (λ _. IsSettled)
    rest-IsSettled closed = record {
      ensure = λ w a h _. open-IsSettled inv received expected tolerance source w closed h;
    }

    short-rest :
        is_fully_paid x received expected tolerance ≡ false
        → Ensures (Known inv received expected tolerance source) (pure tt) (λ _. IsSettled)
    short-rest short = record {
      ensure = λ w a h _. short-IsSettled inv received expected tolerance source w short h;
    }

    pub settle-IsSettled :
        (fully : Bool) (st : InvoiceStatus)
        → is_fully_paid x received expected tolerance ≡ fully
        → inv.status ≡ st
        → Ensures
            (Known inv received expected tolerance source)
            (settle x s e p inv fully allowance st)
            (λ _. IsSettled)
    unfolding settle
    settle-IsSettled true processing enough same = pay-IsSettled p inv allowance
    settle-IsSettled true partially_paid enough same = pay-IsSettled p inv allowance
    settle-IsSettled true expired enough same = late-IsSettled p allowance
    settle-IsSettled false processing short same = short-rest short
    settle-IsSettled false partially_paid short same = short-rest short
    settle-IsSettled false expired short same = short-rest short
    settle-IsSettled fully pending enough same = rest-IsSettled (rw same refl)
    settle-IsSettled fully late_paid enough same = rest-IsSettled (rw same refl)
    settle-IsSettled fully paid enough same = rest-IsSettled (rw same refl)
    settle-IsSettled fully cancelled enough same = rest-IsSettled (rw same refl)
    settle-IsSettled fully refunded enough same = rest-IsSettled (rw same refl)
