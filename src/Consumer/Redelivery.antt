-- ===== src/Consumer/Redelivery.antt =====
-- A `PaymentConfirmed` that is delivered again, server/src/services/event_consumer.
use ethpayserver.Base.{ℕ, ◌+◌, ◌≡◌, refl, ◌∙◌, ap, false, Option, none, some, List, [], ◌∷◌, find}
use ethpayserver.External.{Crates}
use ethpayserver.Event.{PaymentConfirmed, payment_confirmed}
use ethpayserver.Outbox.{EventEnvelope}
use ethpayserver.Database.Rows.{PaymentData, PaymentRow, World}
use ethpayserver.Database.Monad.{
  not_found, ok, err, tick, call-up, ◌>>=◌, or_throw, invalid_data, bind-ok, bind-err,
}
use ethpayserver.Database.Payments.{
  is_transfer_of, payment_found, get_by_tx_index, is_awaiting, mark_confirmed, update_one,
}
use ethpayserver.Database.Invoices
use ethpayserver.Database.Cursors.{commit_chain_cursor}
use ethpayserver.Consumer.Services.{Services}
use ethpayserver.Consumer.Confirmed.{check_settlement, confirm_payment, handle_payment_confirmed}
use ethpayserver.Consumer.Resume.{
  Operator, Cursors, is_skipped, handle_event, consume, apply_envelope, apply_or_skip, committed,
  after_commit,
}

module _ (x : Crates) where
  -- The row that the event names is there and is not awaiting its confirmation.
  pub record IsConfirmed (e : PaymentConfirmed) (r : PaymentRow) (w : World) : Type 0 where
    pub named :
        find (is_transfer_of e.invoice_id (x.format_hash e.tx_hash) e.tx_index) w.payments ≡ some r
    pub not_awaiting : find (is_awaiting r.payment.id) w.payments ≡ none

  read-payment :
      (e : PaymentConfirmed) (r : PaymentRow) (w : World)
      → w.down w.calls ≡ false
      → IsConfirmed e r w
      → get_by_tx_index e.invoice_id (x.format_hash e.tx_hash) e.tx_index w
        ≡ (ok (some r.payment), tick w)
  unfolding get_by_tx_index payment_found
  read-payment e r w up h = call-up _ w up ∙ ap (λ o. (ok (payment_found o), tick w)) h.named

  mark-again :
      (id at : ℕ) (w : World)
      → w.down w.calls ≡ false
      → find (is_awaiting id) w.payments ≡ none
      → mark_confirmed x id at w ≡ (err not_found, tick w)
  unfolding mark_confirmed update_one
  mark-again id at w up h = call-up _ w up ∙ rw (update_one, h) refl

  confirm-again :
      (s : Services) (e : PaymentConfirmed) (p : PaymentData) (w : World)
      → w.down w.calls ≡ false
      → find (is_awaiting p.id) w.payments ≡ none
      → confirm_payment x s e (some p) w ≡ (err not_found, tick w)
  unfolding confirm_payment
  confirm-again s e p w up h =
      bind-err (mark_confirmed x p.id e.confirmed_at)
        (λ _. Invoices.get e.invoice_id >>= λ found.
          or_throw found invalid_data >>= λ inv. check_settlement x s e p inv)
        w (mark-again p.id e.confirmed_at w up h)

  handle-again :
      (s : Services) (e : PaymentConfirmed) (r : PaymentRow) (w : World)
      → ((n : ℕ) → w.down n ≡ false)
      → IsConfirmed e r w
      → handle_payment_confirmed x s e w ≡ (err not_found, tick (tick w))
  unfolding handle_payment_confirmed
  handle-again s e r w up h =
      bind-ok (get_by_tx_index e.invoice_id (x.format_hash e.tx_hash) e.tx_index)
        (confirm_payment x s e) w (read-payment e r w (up w.calls) h)
      ∙ confirm-again s e r.payment (tick w) (up (w.calls + 1)) h.not_awaiting

  apply-again :
      (s : Services) (cleanup : Option Services) (op : Operator) (epoch : ℕ) (v : EventEnvelope)
      (e : PaymentConfirmed) (r : PaymentRow) (cursors : Cursors) (w : World)
      → v.event ≡ payment_confirmed e
      → is_skipped op v ≡ false
      → ((n : ℕ) → w.down n ≡ false)
      → IsConfirmed e r w
      → apply_envelope (handle_event x s cleanup) op epoch v cursors w
        ≡ (false, cursors, tick (tick w))
  unfolding apply_envelope apply_or_skip after_commit handle_event
  apply-again s cleanup op epoch v e r cursors w event use_it up h =
      let handled : apply_or_skip (handle_event x s cleanup) op epoch v w
          ≡ (err not_found, tick (tick w)) =
        rw (use_it, event) (handle-again s e r w up h) in
      ap (after_commit (handle_event x s cleanup) op epoch v cursors) (
        bind-err (apply_or_skip (handle_event x s cleanup) op epoch v)
          (λ _. commit_chain_cursor v.chain_id (committed epoch v)) w handled)

  -- A `PaymentConfirmed` whose payment is confirmed already fails, on a database that answers
  -- every call: the loop stops at it without applying it, whatever follows, and leaves the
  -- database and the cursors as they were, but for the number of calls made.
  pub redelivery_halts :
      (s : Services) (cleanup : Option Services) (op : Operator) (epoch : ℕ) (v : EventEnvelope)
      (vs : List EventEnvelope) (e : PaymentConfirmed) (r : PaymentRow) (cursors : Cursors)
      (w : World)
      → v.event ≡ payment_confirmed e
      → is_skipped op v ≡ false
      → ((n : ℕ) → w.down n ≡ false)
      → IsConfirmed e r w
      → consume (handle_event x s cleanup) op epoch (v ∷ vs) cursors w
        ≡ record { applied = []; halted = some v; cursors = cursors; world = tick (tick w) }
  unfolding consume
  redelivery_halts s cleanup op epoch v vs e r cursors w event use_it up h =
      rw (apply-again s cleanup op epoch v e r cursors w event use_it up h) refl
