-- ===== src/Consumer/Reorganized.antt =====
-- Which payments a reorganization leaves alone,
-- server/src/services/event_consumer/reorg_handler.rs.
use ethpayserver.Base.{
  ℕ, ◌≡◌, ◌≢◌, refl, ◌∙◌, ap, inl, inr, true, false, not, ◌&&◌, some, List, [], ◌∷◌, ◌++◌, find,
  filter, map, Option-cases, Bool-cases, All, arith,
}
use ethpayserver.Base.Dict.{get}
use ethpayserver.External.{Crates}
use ethpayserver.Event.{ReorgDetected}
use ethpayserver.Database.Rows.{InvoiceStatus, PaymentData, PaymentRow, World}
use ethpayserver.Database.Monad.{Result, ok, err, M, call-cases, notify, invalid_data}
use ethpayserver.Database.Keeps.{
  Keeps, IsQuiet, keep_pure, keep_or_throw, keep_bind, keep_then, keep_if, keep_call, keep_read,
}
use ethpayserver.Database.Payments.{
  has_id, is_unretracted, retract, retract_row, update_first, mark_payment_reorged, is_candidate,
  reorg_candidates, has_valid_payments, payment_of,
}
use ethpayserver.Database.Payments.Received.{trigger-payments}
use ethpayserver.Database.Invoices.{write_status, update_status, set_status}
use ethpayserver.Consumer.Services.{Services}
use ethpayserver.Consumer.Reorg.{
  push, group_from, survived, dropped, move_back, apply_reorg_status, retract_all, retract_invoice,
  retract_groups, handle_reorg_detected,
}
use ethpayserver.Consumer.Keeps.Reads.{get-Keeps, notify_if-Keeps, notify_reorg-Keeps}

-- The payment `k` is the row `r`.
abbrev IsRow : ℕ → PaymentRow → World → Type 0
IsRow k r w = find (has_id k) w.payments ≡ some r

abbrev Spares : ℕ → List PaymentData → Type 0
Spares k = All (λ p. p.id ≢ k)

abbrev SparesAll : ℕ → List (ℕ × List PaymentData) → Type 0
SparesAll k = All (λ g. Spares k g.1)

Spares-append :
    (k : ℕ) (ps : List PaymentData) (p : PaymentData)
    → Spares k ps
    → p.id ≢ k
    → Spares k (ps ++ p ∷ [])
Spares-append k [] p h n = (n, tt)
Spares-append k (q ∷ ps) p h n = (h.0, Spares-append k ps p h.1 n)

push-SparesAll :
    (k : ℕ) (p : PaymentData) (gs : List (ℕ × List PaymentData))
    → p.id ≢ k
    → SparesAll k gs
    → SparesAll k (push p gs)
unfolding push
push-SparesAll k p [] n h = ((n, tt), tt)
push-SparesAll k p ((i, ps) ∷ gs) n h =
    ground (arith, Spares-append k ps p h.0 n, push-SparesAll k p gs n h.1)

group_from-SparesAll :
    (k : ℕ) (gs : List (ℕ × List PaymentData)) (ps : List PaymentData)
    → SparesAll k gs
    → Spares k ps
    → SparesAll k (group_from gs ps)
unfolding group_from
group_from-SparesAll k gs [] h n = h
group_from-SparesAll k gs (p ∷ ps) h n =
    group_from-SparesAll k (push p gs) ps (push-SparesAll k p gs n.0 h) n.1

update_first-other :
    (k id : ℕ) (rs : List PaymentRow)
    → id ≢ k
    → find (has_id k) (update_first (is_unretracted id) retract rs) ≡ find (has_id k) rs
unfolding update_first is_unretracted has_id retract
update_first-other k id [] other = refl
update_first-other k id (r ∷ rs) other = ground (arith, update_first-other k id rs other)

after_candidates :
    Crates
    → Services
    → ReorgDetected
    → Result (List PaymentData) × World
    → Result (Unit {0}) × World
after_candidates x s e (r, w) = elim r [
  | ok ps ↦ retract_groups x s (group_from [] (dropped x e.survived_tx_hashes ps)) w
  | err f ↦ (err f, w)
]

module _ (x : Crates) (s : Services) (k : ℕ) (r : PaymentRow) where
  quiet : IsQuiet (IsRow k r)
  unfolding notify
  quiet = record { calls = λ w n h. h; fresh = λ w n h. h; sent = λ w n h. h }

  retract_row-other : (id : ℕ) → id ≢ k → Keeps (IsRow k r) (retract_row x id)
  unfolding retract_row
  retract_row-other id other = record {
    keep = λ w h. elim (Option-cases (find (is_unretracted id) w.payments)) [
      | inl none_there ↦ rw (retract_row, none_there) h
      | inr (old, found) ↦
          rw
            (
              retract_row,
              found,
              trigger-payments x (retract old)
                  (record w { payments = update_first (is_unretracted id) retract w.payments }),
            )
            (update_first-other k id w.payments other ∙ h)
    ];
  }

  write_status-other : (id : ℕ) (st : InvoiceStatus) → Keeps (IsRow k r) (write_status id st)
  unfolding write_status set_status
  write_status-other id st = record {
    keep = λ w h. elim (Option-cases (get id w.invoices)) [
      | inl missing ↦ rw (write_status, missing) h
      | inr (inv, found) ↦ rw (write_status, found) h
    ];
  }

  retract_all-other : (ps : List PaymentData) → Spares k ps → Keeps (IsRow k r) (retract_all x ps)
  unfolding retract_all mark_payment_reorged
  retract_all-other [] n = keep_pure tt
  retract_all-other (p ∷ ps) n =
      keep_then (keep_call quiet (retract_row-other p.id n.0)) (retract_all-other ps n.1)

  apply_reorg_status-other :
      (id : ℕ) (st : InvoiceStatus) → Keeps (IsRow k r) (apply_reorg_status id st)
  unfolding apply_reorg_status move_back update_status
  apply_reorg_status-other id st = keep_bind (get-Keeps quiet s id) λ found.
      keep_bind (keep_or_throw found invalid_data) λ current.
        keep_if _ (keep_pure _) (keep_then (keep_call quiet (write_status-other _ _)) (keep_pure _))

  retract_invoice-other :
      (id : ℕ) (ps : List PaymentData) → Spares k ps → Keeps (IsRow k r) (retract_invoice x s id ps)
  unfolding retract_invoice has_valid_payments
  retract_invoice-other id ps n = keep_then (retract_all-other ps n) (
      keep_bind (keep_read quiet _) λ valid.
        keep_bind (apply_reorg_status-other id _)
          λ status. keep_then (notify_if-Keeps quiet s _ _) (notify_reorg-Keeps quiet s id _))

  retract_groups-other :
      (gs : List (ℕ × List PaymentData))
      → SparesAll k gs
      → Keeps (IsRow k r) (retract_groups x s gs)
  unfolding retract_groups
  retract_groups-other [] n = keep_pure tt
  retract_groups-other ((id, ps) ∷ gs) n =
      keep_then (retract_invoice-other id ps n.0) (retract_groups-other gs n.1)

  -- No other row has the payment's id.
  abbrev pub IsOnly : List PaymentRow → Type 0
  IsOnly = All (λ q. q.payment.id ≡ k → q ≡ r)

  Spares-dropped :
      (chain fork : ℕ) (hashes : List ℕ) (rs : List PaymentRow)
      → IsOnly rs
      → (is_candidate chain fork r && not (survived x hashes r.payment)) ≡ false
      → Spares k (dropped x hashes (map payment_of (filter (is_candidate chain fork) rs)))
  unfolding dropped
  Spares-dropped chain fork hashes [] only kept = tt
  Spares-dropped chain fork hashes (q ∷ rs) only kept =
      let rest = Spares-dropped chain fork hashes rs only.1 kept in
      elim (Bool-cases (is_candidate chain fork q)) [
        | inr other ↦ rw other rest
        | inl candidate ↦ elim (Bool-cases (survived x hashes q.payment)) [
          | inl there ↦ rw (candidate, there) rest
          | inr gone ↦
              let no : q.payment.id ≢ k = λ same.
                let this : q ≡ r = only.0 same in
                let drop_it : (is_candidate chain fork q && not (survived x hashes q.payment))
                    ≡ true =
                  rw (candidate, gone) refl in
                cc (this, drop_it, kept) in
              rw (candidate, gone) (no, rest)
        ]
      ]

  groups-other :
      (e : ReorgDetected) (w : World) (out : Result (List PaymentData) × World)
      → IsRow k r out.1
      → ((ps : List PaymentData) → out.0 ≡ ok ps → Spares k (dropped x e.survived_tx_hashes ps))
      → IsRow k r (after_candidates x s e out).1
  unfolding after_candidates
  groups-other e w (err _, w') h n = h
  groups-other e w (ok ps, w') h n =
      (retract_groups-other (group_from [] (dropped x e.survived_tx_hashes ps))
          (group_from-SparesAll k [] _ tt (n ps refl))).keep
        w' h

  read_reorg-Keeps :
      (e : ReorgDetected) → Keeps (IsRow k r) (reorg_candidates e.chain_id e.fork_block)
  unfolding reorg_candidates
  read_reorg-Keeps e = keep_read quiet _

  candidates : ReorgDetected → M (List PaymentData)
  candidates e w =
      (ok (map payment_of (filter (is_candidate e.chain_id e.fork_block) w.payments)), w)

  read-candidates :
      (e : ReorgDetected) (w : World) (ps : List PaymentData)
      → (reorg_candidates e.chain_id e.fork_block w).0 ≡ ok ps
      → ps ≡ map payment_of (filter (is_candidate e.chain_id e.fork_block) w.payments)
  unfolding reorg_candidates candidates
  read-candidates e w ps answer = elim (call-cases (candidates e) w) [
    | inl down ↦ cc (ap (λ o. o.0) down, answer)
    | inr (inl lost) ↦ cc (ap (λ o. o.0) lost, answer)
    | inr (inr up) ↦ cc (ap (λ o. o.0) up, answer)
  ]

  -- Whatever fails on the way, a reorganization leaves a payment's row as it is unless its
  -- survivors were verified and the payment is one of its chain, at or above the fork, not
  -- retracted before, whose transaction is not among the survivors.
  pub survivor_untouched :
      (e : ReorgDetected) (w : World)
      → find (has_id k) w.payments ≡ some r
      → IsOnly w.payments
      → (e.survivors_verifiable
          && is_candidate e.chain_id e.fork_block r
          && not (survived x e.survived_tx_hashes r.payment))
        ≡ false
      → find (has_id k) (handle_reorg_detected x s e w).1.payments ≡ some r
  unfolding handle_reorg_detected after_candidates
  survivor_untouched e w row only kept = elim (Bool-cases e.survivors_verifiable) [
    | inr blind ↦ rw blind row
    | inl verified ↦
        let spared = rw verified at kept in
        rw verified (
          groups-other e w (reorg_candidates e.chain_id e.fork_block w)
            ((read_reorg-Keeps e).keep w row)
            (λ ps answer.
              rw (read-candidates e w ps answer) (
                Spares-dropped e.chain_id e.fork_block e.survived_tx_hashes w.payments only
                  spared)))
  ]
