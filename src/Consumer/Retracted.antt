-- ===== src/Consumer/Retracted.antt =====
-- Which payments a reorganization retracts, server/src/services/event_consumer/reorg_handler.rs.
pub mod Rows
use ethpayserver.Base.{
  ℕ, ◌≡◌, ◌≢◌, refl, sym, ◌∙◌, ap, ◌⊎◌, inl, inr, Bool, true, false, not, ◌&&◌, Option, none, some,
  List, [], ◌∷◌, ◌++◌, find, filter, map, Option-cases, Bool-cases, All, Any, arith, ◌==◌,
  if◌then◌else◌,
}
use ethpayserver.Base.Dict.{get}
use ethpayserver.External.{Crates}
use ethpayserver.Event.{ReorgDetected}
use ethpayserver.Database.Rows.{InvoiceStatus, InvoiceData, PaymentData, PaymentRow, World}
use ethpayserver.Database.Monad.{Result, ok, err, M, notify, invalid_data, pure}
use ethpayserver.Database.Keeps.{
  Keeps, IsQuiet, keep_pure, keep_or_throw, keep_bind, keep_then, keep_attempt, keep_if, keep_call,
  keep_read,
}
use ethpayserver.Database.Ensures.{
  Ensures, ensure_bind, ensure_kept, ensure_call, ensure_read, ensure_from,
}
use ethpayserver.Database.Payments.{
  has_id, is_unretracted, retract, retract_row, update_first, mark_payment_reorged, is_candidate,
  reorg_candidates, has_valid_payments, payment_of,
}
use ethpayserver.Database.Payments.Received.{trigger-payments}
use ethpayserver.Database.Invoices.{write_status, update_status, set_status}
use ethpayserver.Consumer.Services.{Services}
use ethpayserver.Consumer.Reorg.{
  push, group_from, survived, dropped, move_back, apply_reorg_status, retract_all, retract_invoice,
  retract_groups, handle_reorg_detected,
}
use ethpayserver.Consumer.Keeps.Reads.{get-Keeps, notify_if-Keeps, notify_reorg-Keeps}
use ethpayserver.Consumer.Retracted.Rows.{
  IsGone, IsSingle, Hits, HitsAny, Hits-append-new, Hits-append-old, push-HitsAny-new,
  push-HitsAny-old, group_from-HitsAny-old, group_from-HitsAny, update_first-gone,
  update_first-has_id, has_id-gone, update_first-IsSingle, update_first-retracts, find-none-update,
  retract_row-payments, write_status-payments,
}

-- A predicate on the payments that every retraction keeps.
record IsKept (x : Crates) (P : List PaymentRow → Type 0) : Type 0 where
  retraction :
      (id : ℕ) (rs : List PaymentRow) → P rs → P (update_first (is_unretracted id) retract rs)

module _ (x : Crates) (s : Services) {P : List PaymentRow → Type 0} (kept : IsKept x P) where
  abbrev Holding : World → Type 0
  Holding w = P w.payments

  quiet : IsQuiet Holding
  unfolding notify
  quiet = record { calls = λ w n h. h; fresh = λ w n h. h; sent = λ w n h. h }

  retract_all-Keeps : (ps : List PaymentData) → Keeps Holding (retract_all x ps)
  unfolding retract_all mark_payment_reorged
  retract_all-Keeps [] = keep_pure tt
  retract_all-Keeps (p ∷ ps) =
      keep_then
        (keep_call quiet (record {
          keep = λ w h. rw (retract_row-payments x p.id w) (kept.retraction p.id w.payments h);
        }))
        (retract_all-Keeps ps)

  apply_reorg_status-Keeps :
      (id : ℕ) (st : InvoiceStatus) → Keeps Holding (apply_reorg_status id st)
  unfolding apply_reorg_status move_back update_status
  apply_reorg_status-Keeps id st = keep_bind (get-Keeps quiet s id) λ found.
      keep_bind (keep_or_throw found invalid_data) λ current. keep_if _ (keep_pure _) (
        keep_then (keep_call quiet (record { keep = λ w h. rw (write_status-payments _ _ w) h }))
          (keep_pure _))

  retract_invoice-Keeps :
      (id : ℕ) (ps : List PaymentData) → Keeps Holding (retract_invoice x s id ps)
  unfolding retract_invoice has_valid_payments
  retract_invoice-Keeps id ps = keep_then (retract_all-Keeps ps) (
      keep_bind (keep_read quiet _) λ valid.
        keep_bind (apply_reorg_status-Keeps id _)
          λ status. keep_then (notify_if-Keeps quiet s _ _) (notify_reorg-Keeps quiet s id _))

  retract_groups-Keeps : (gs : List (ℕ × List PaymentData)) → Keeps Holding (retract_groups x s gs)
  unfolding retract_groups
  retract_groups-Keeps [] = keep_pure tt
  retract_groups-Keeps ((id, ps) ∷ gs) =
      keep_then (retract_invoice-Keeps id ps) (retract_groups-Keeps gs)

module _ (x : Crates) (s : Services) (k : ℕ) where
  abbrev SingleRow : World → Type 0
  SingleRow w = IsSingle k w.payments

  single : IsKept x (IsSingle k)
  single = record { retraction = update_first-IsSingle k }

  gone : IsKept x (λ rs. find (is_unretracted k) rs ≡ none)
  gone = record { retraction = update_first-gone k }

  retract_one-IsGone :
      (id : ℕ) → id ≡ k → Ensures SingleRow (mark_payment_reorged x id) (λ _. IsGone k)
  unfolding mark_payment_reorged
  retract_one-IsGone id same = ensure_call (quiet x s single) (record {
    ensure =
        λ w a h _. rw (retract_row-payments x id w, same) (update_first-retracts k w.payments h);
  })

  mark-Keeps : (id : ℕ) → Keeps SingleRow (mark_payment_reorged x id)
  unfolding mark_payment_reorged
  mark-Keeps id = keep_call (quiet x s single) (record {
    keep = λ w h. rw (retract_row-payments x id w) (update_first-IsSingle k id w.payments h);
  })

  retract_all-IsGone :
      (ps : List PaymentData) → Hits k ps → Ensures SingleRow (retract_all x ps) (λ _. IsGone k)
  unfolding retract_all
  retract_all-IsGone [] (u, none_there) = absurd none_there
  retract_all-IsGone (p ∷ ps) (inl here) =
      ensure_bind {Q = λ _. IsGone k} (retract_one-IsGone p.id here)
        (λ _. ensure_kept (retract_all-Keeps x s gone ps))
  retract_all-IsGone (p ∷ ps) (inr later) =
      ensure_bind {Q = λ _. SingleRow} (ensure_kept (mark-Keeps p.id))
        (λ _. retract_all-IsGone ps later)

  retract_invoice-IsGone :
      (id : ℕ) (ps : List PaymentData)
      → Hits k ps
      → Ensures SingleRow (retract_invoice x s id ps) (λ _. IsGone k)
  unfolding retract_invoice has_valid_payments
  retract_invoice-IsGone id ps hits =
      let q = quiet x s gone in
      ensure_bind {Q = λ _. IsGone k} (retract_all-IsGone ps hits) (λ _. ensure_kept (
        keep_bind (keep_read q _) λ valid.
          keep_bind (apply_reorg_status-Keeps x s gone id _)
            λ status. keep_then (notify_if-Keeps q s _ _) (notify_reorg-Keeps q s id _)))

  retract_groups-IsGone :
      (gs : List (ℕ × List PaymentData))
      → HitsAny k gs
      → Ensures SingleRow (retract_groups x s gs) (λ _. IsGone k)
  unfolding retract_groups
  retract_groups-IsGone [] (u, none_there) = absurd none_there
  retract_groups-IsGone ((id, ps) ∷ gs) (inl here) =
      ensure_bind {Q = λ _. IsGone k} (retract_invoice-IsGone id ps here)
        (λ _. ensure_kept (retract_groups-Keeps x s gone gs))
  retract_groups-IsGone ((id, ps) ∷ gs) (inr later) =
      ensure_bind {Q = λ _. SingleRow} (ensure_kept (retract_invoice-Keeps x s single id ps))
        (λ _. retract_groups-IsGone gs later)

  dropped-Hits :
      (chain fork : ℕ) (hashes : List ℕ) (rs : List PaymentRow) (r : PaymentRow)
      → find (has_id k) rs ≡ some r
      → is_candidate chain fork r ≡ true
      → survived x hashes r.payment ≡ false
      → Hits k (dropped x hashes (map payment_of (filter (is_candidate chain fork) rs)))
  unfolding dropped has_id
  dropped-Hits chain fork hashes [] r found candidate lost = cc found
  dropped-Hits chain fork hashes (q ∷ rs) r found candidate lost = elim (Bool-cases (has_id k q)) [
    | inl this ↦
        let same : q ≡ r = cc (found, this) in
        let named : q.payment.id ≡ k = ground (arith, this) in
        rw (same, candidate, lost) (inl (rw same at named))
    | inr other ↦
        let rest = dropped-Hits chain fork hashes rs r (rw other at found) candidate lost in
        elim (Bool-cases (is_candidate chain fork q)) [
          | inr left_out ↦ rw left_out rest
          | inl taken ↦ elim (Bool-cases (survived x hashes q.payment)) [
            | inl there ↦ rw (taken, there) rest
            | inr no_more ↦ rw (taken, no_more) (inr rest)
          ]
        ]
  ]

  -- The payment is among those that the reorganization drops.
  abbrev IsDropped : ReorgDetected → World → Type 0
  IsDropped e w =
      SingleRow w
      × Hits k (
          dropped x e.survived_tx_hashes
            (map payment_of (filter (is_candidate e.chain_id e.fork_block) w.payments)))

  IsDropped-IsQuiet : (e : ReorgDetected) → IsQuiet (IsDropped e)
  unfolding notify
  IsDropped-IsQuiet e = record { calls = λ w n h. h; fresh = λ w n h. h; sent = λ w n h. h }

  groups-IsGone :
      (e : ReorgDetected) (ps : List PaymentData)
      → Ensures
          (λ w.
            (map payment_of (filter (is_candidate e.chain_id e.fork_block) w.payments) ≡ ps)
            × IsDropped e w)
          (retract_groups x s (group_from [] (dropped x e.survived_tx_hashes ps)))
          (λ _. IsGone k)
  groups-IsGone e ps = record {
    ensure = λ w a h done.
        (retract_groups-IsGone (group_from [] (dropped x e.survived_tx_hashes ps))
            (group_from-HitsAny k [] _ (rw h.0 at h.1.1))).ensure
          w a h.1.0 done;
  }

  verified-IsGone :
      (e : ReorgDetected)
      → e.survivors_verifiable ≡ true
      → Ensures (IsDropped e) (handle_reorg_detected x s e) (λ _. IsGone k)
  unfolding handle_reorg_detected reorg_candidates
  verified-IsGone e verified = rw verified (
      ensure_bind
        (ensure_read (IsDropped-IsQuiet e)
          (λ w. map payment_of (filter (is_candidate e.chain_id e.fork_block) w.payments)))
        (groups-IsGone e))

  -- When a verified reorganization is handled to its end without an error, every payment of its
  -- chain at or above the fork, not retracted before, whose transaction is not among the survivors
  -- is retracted: no row with its identifier counts any more. The identifier names one row.
  pub dropped_retracted :
      (e : ReorgDetected) (w : World) (r : PaymentRow)
      → e.survivors_verifiable ≡ true
      → IsSingle k w.payments
      → find (has_id k) w.payments ≡ some r
      → is_candidate e.chain_id e.fork_block r ≡ true
      → survived x e.survived_tx_hashes r.payment ≡ false
      → (handle_reorg_detected x s e w).0 ≡ ok tt
      → find (is_unretracted k) (handle_reorg_detected x s e w).1.payments ≡ none
  dropped_retracted e w r verified one row candidate lost done =
      (verified-IsGone e verified).ensure w tt
        (
          one,
          dropped-Hits e.chain_id e.fork_block e.survived_tx_hashes w.payments r row candidate lost,
        )
        done
