-- ===== src/Monitor/Survivors/Relocated.antt =====
-- From the monitor's re-scan (evm/src/monitor/chain/confirmations.rs) to the server's handler of a
-- reorganization (server/src/services/event_consumer/reorg_handler.rs).
use ethpayserver.Base.{
  ℕ, zero, suc, ◌+◌, ◌-◌, ◌^◌, ◌≤◌, ◌<◌, ◌≡◌, refl, sym, ap, ◌∙◌, Bool, true, false, not, ◌&&◌,
  ◌||◌, ◌==◌, ==_iff, inl, inr, Bool-cases, Option, none, some, List, [], ◌∷◌, ◌++◌, any, filter,
  find, map, is_empty, arith,
}
use ethpayserver.External.{Crates}
use ethpayserver.Event.{ReorgDetected, MonitorEvent, reorg_detected}
use ethpayserver.Database.Rows.{PaymentData, World, PaymentRow}
use ethpayserver.Database.Payments.{has_id, is_candidate}
use ethpayserver.Consumer.Services.{Services}
use ethpayserver.Consumer.Reorg.{same_hash, tx_hash_eq, survived, handle_reorg_detected}
use ethpayserver.Consumer.Reorganized.{IsOnly, survivor_untouched}
use ethpayserver.Monitor.State.{
  ok, NativeTransfer, BlockNotification, BlockSource, ChainMonitorConfig, ChainMonitor, send,
}
use ethpayserver.Monitor.Scan.{native_addresses}
use ethpayserver.Monitor.Reorganization.{
  hash_of_transfer, find_survived_tx_hashes, handle_reorg, affected_invoices,
}
use ethpayserver.Monitor.Reads.{bind-run}
use ethpayserver.Monitor.Coverage.{Ledger, is_to, IsTruthful}
use ethpayserver.Monitor.Survivors.{transfer_hashes_in, find_survived_tx_hashes_complete}

any-append :
    {A : Type 0} (q : A → Bool) (xs ys : List A) → any q (xs ++ ys) ≡ (any q xs || any q ys)
any-append q [] ys = refl
any-append q (x ∷ xs) ys = ground (arith, any-append q xs ys)

any-left : {A : Type 0} (q : A → Bool) (xs ys : List A) → any q xs ≡ true → any q (xs ++ ys) ≡ true
any-left q xs ys h = rw (any-append q xs ys, h)

any-right : {A : Type 0} (q : A → Bool) (xs ys : List A) → any q ys ≡ true → any q (xs ++ ys) ≡ true
any-right q xs ys h = let e = any-append q xs ys in ground (arith, e, h)

-- The block has a transfer with the hash to one of the addresses.
abbrev pub holds : Ledger → List ℕ → ℕ → ℕ → Bool
holds ledger addresses hash number =
    any (λ t. t.tx_hash == hash && is_to addresses t) (ledger.transfers number)

rest-holds : (a b c : Bool) → b ≡ false → ((a && b) || c) ≡ true → c ≡ true
rest-holds true b c e h = rw e at h
rest-holds false b c e h = h

skipped-holds : (a b c : Bool) → a ≡ false → ((a && b) || c) ≡ true → c ≡ true
skipped-holds true b c e h = cc e
skipped-holds false b c e h = h

later-holds : (a b : Bool) → b ≡ true → (a || b) ≡ true
later-holds true b h = refl
later-holds false b h = h

first-holds : (q : ℕ → Bool) (n : ℕ) (rest : List ℕ) → q n ≡ true → any q (n ∷ rest) ≡ true
first-holds q n rest h = rw h

after-first : (from number : ℕ) → from ≤ number → (from == number) ≡ false → from + 1 ≤ number
after-first from number low differs = ground (arith, low, differs)

any-transfers :
    (q : ℕ → Bool) (addresses : List ℕ) (hash : ℕ) (ts : List NativeTransfer)
    → any (λ t. t.tx_hash == hash && is_to addresses t) ts ≡ true
    → q hash ≡ true
    → any q (map hash_of_transfer (filter (is_to addresses) ts)) ≡ true
any-transfers q addresses hash [] h yes_hash = cc h
any-transfers q addresses hash (t ∷ ts) h yes_hash = elim (Bool-cases (is_to addresses t)) [
  | inr other ↦ rw other (any-transfers q addresses hash ts (rest-holds _ _ _ other h) yes_hash)
  | inl ours ↦ elim (Bool-cases (t.tx_hash == hash)) [
    | inl same ↦ rw ours (first-holds q _ _ (ap q ((==_iff t.tx_hash hash).0 same) ∙ yes_hash))
    | inr differs ↦ rw ours (
        later-holds (q t.tx_hash) _
          (any-transfers q addresses hash ts (skipped-holds _ _ _ differs h) yes_hash))
  ]
]

-- Over a range: the block that holds the transfer is one of it.
any-transfers-in :
    (q : ℕ → Bool) (ledger : Ledger) (addresses : List ℕ) (hash number from count : ℕ)
    → from ≤ number
    → number < from + count
    → holds ledger addresses hash number ≡ true
    → q hash ≡ true
    → any q (transfer_hashes_in ledger addresses from count) ≡ true
any-transfers-in q ledger addresses hash number from zero low high h yes_hash =
    absurd (omega (arith, low, high))
any-transfers-in q ledger addresses hash number from (suc count) low high h yes_hash =
    let here = map hash_of_transfer (filter (is_to addresses) (ledger.transfers from)) in
    let there = transfer_hashes_in ledger addresses (from + 1) count in
    elim (Bool-cases (from == number)) [
      | inl same ↦ any-left q here there (
          any-transfers q addresses hash (ledger.transfers from)
            (ap (λ n. holds ledger addresses hash n) ((==_iff from number).0 same) ∙ h) yes_hash)
      | inr differs ↦ any-right q here there (
          any-transfers-in q ledger addresses hash number (from + 1) count
            (after-first from number low differs) (omega (arith, high)) h yes_hash)
    ]

-- The event sent last.
abbrev pub last_sent : List MonitorEvent → Option MonitorEvent
last_sent [] = none
last_sent (x ∷ []) = some x
last_sent (x ∷ y ∷ ys) = last_sent (y ∷ ys)

last_sent-append : (xs : List MonitorEvent) (a : MonitorEvent) → last_sent (xs ++ a ∷ []) ≡ some a
last_sent-append [] a = refl
last_sent-append (x ∷ []) a = refl
last_sent-append (x ∷ y ∷ ys) a = last_sent-append (y ∷ ys) a

tx_hash_eq-format : (x : Crates) (hash : ℕ) → tx_hash_eq x hash (x.format_hash hash) ≡ true
unfolding tx_hash_eq same_hash
tx_hash_eq-format x hash = rw (x.parse_hash-format_hash hash, same_hash) ((==_iff hash hash).1 refl)

reorg-injective : {a b : ReorgDetected} → some (reorg_detected a) ≡ some (reorg_detected b) → a ≡ b
reorg-injective e = cc e

module _ (source : BlockSource) (config : ChainMonitorConfig) (chain_id : ℕ) where
  report_of : ℕ → ℕ → BlockNotification → ChainMonitor → List ℕ × Bool → ReorgDetected
  report_of fork old_hash block s (hashes, verifiable) = record {
    chain_id = chain_id;
    fork_block = fork;
    old_hash = old_hash;
    new_hash = block.hash;
    depth = block.number - fork + 1;
    affected_invoices = affected_invoices fork s.pending;
    survived_tx_hashes = hashes;
    survivors_verifiable = verifiable;
    detected_at = s.now;
  }

  handle_reorg-found :
      (fork old_hash : ℕ) (block : BlockNotification) (s : ChainMonitor) (answer : List ℕ × Bool)
      (e : ReorgDetected)
      → (find_survived_tx_hashes source config chain_id fork block.number s).0 ≡ ok answer
      → last_sent (handle_reorg source config chain_id fork old_hash block s).1.sent
        ≡ some (reorg_detected e)
      → e.survived_tx_hashes ≡ answer.0
  unfolding handle_reorg send report_of
  handle_reorg-found fork old_hash block s answer e found sent =
      let m = find_survived_tx_hashes source config chain_id fork block.number in
      let t = (m s).1 in
      let ran =
        bind-run m (λ a. send (reorg_detected (report_of fork old_hash block s a))) s
          (ap (λ r. (r, t)) found) in
      let last =
        sym (
          ap (λ r. last_sent r.1.sent) ran
          ∙ last_sent-append t.sent (reorg_detected (report_of fork old_hash block s answer)))
        ∙ sent in
      sym (ap (λ r. r.survived_tx_hashes) (reorg-injective last))

kept : (a b c : Bool) → c ≡ true → (a && b && not c) ≡ false
kept true true c h = rw h
kept true false c h = refl
kept false b c h = refl

survived-transfer :
    (x : Crates) (hash : ℕ) (ledger : Ledger) (natives : List ℕ) (rest : List ℕ)
    (number from count : ℕ) (p : PaymentData)
    → p.tx_hash ≡ x.format_hash hash
    → from ≤ number
    → number < from + count
    → holds ledger natives hash number ≡ true
    → survived x (transfer_hashes_in ledger natives from count ++ rest) p ≡ true
unfolding survived
survived-transfer x hash ledger natives rest number from count p named low high h = rw named (
    any-left (λ hash'. tx_hash_eq x hash' (x.format_hash hash))
      (transfer_hashes_in ledger natives from count) rest
      (any-transfers-in (λ hash'. tx_hash_eq x hash' (x.format_hash hash)) ledger natives hash
        number from count low high h (tx_hash_eq-format x hash)))

-- A native payment that a reorganization has moved to another block of the range the monitor re-scans,
-- to an address that is still watched, keeps its row when the server handles the event that the
-- monitor then sends, whatever calls of the database fail; the node's answers are those of the new chain.
pub relocated_untouched :
    (source : BlockSource) (config : ChainMonitorConfig) (chain_id : ℕ) (ledger : Ledger)
    (fork old_hash number hash : ℕ) (block : BlockNotification) (m : ChainMonitor)
    (e : ReorgDetected) (answer : List ℕ × Bool) (x : Crates) (services : Services) (k : ℕ)
    (r : PaymentRow) (w : World)
    → IsTruthful source ledger
    → block.number < 2 ^ 64
    → (find_survived_tx_hashes source config chain_id fork block.number m).0 ≡ ok answer
    → last_sent (handle_reorg source config chain_id fork old_hash block m).1.sent
      ≡ some (reorg_detected e)
    → fork ≤ number
    → number ≤ block.number
    → is_empty m.watched ≡ false
    → holds ledger (native_addresses m.watched) hash number ≡ true
    → r.payment.tx_hash ≡ x.format_hash hash
    → find (has_id k) w.payments ≡ some r
    → IsOnly x services k r w.payments
    → find (has_id k) (handle_reorg_detected x services e w).1.payments ≡ some r
relocated_untouched source config chain_id ledger fork old_hash number hash block m e answer x
      services k r w truthful small found sent low high somebody there named row only =
    let complete =
      find_survived_tx_hashes_complete source config chain_id ledger fork block.number m answer
        truthful small found in
    let hashes = ap (λ a. a.0) (rw somebody at complete) in
    survivor_untouched x services k r e w row only (
      kept e.survivors_verifiable (is_candidate e.chain_id e.fork_block r)
        (survived x e.survived_tx_hashes r.payment)
        (ap (λ hs. survived x hs r.payment)
            (handle_reorg-found source config chain_id fork old_hash block m answer e found sent
              ∙ hashes)
          ∙ survived-transfer x hash ledger (native_addresses m.watched) _ number fork
              (block.number + 1 - fork) r.payment named low (omega (arith, low, high)) there))
