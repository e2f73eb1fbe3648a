-- ===== src/Monitor/Survivors.antt =====
-- What the re-scan for a reorganization finds: `find_survived_tx_hashes` of
-- evm/src/monitor/chain/confirmations.rs.
pub mod Returns
pub mod Relocated
use ethpayserver.Base.{
  ℕ, zero, suc, ◌+◌, ◌-◌, ◌^◌, ◌≤◌, ◌<◌, ◌≡◌, refl, sym, ap, ◌∙◌, Bool, true, false, List, [], ◌∷◌,
  ◌++◌, inl, inr, Option-cases, leb, ◌==◌, is_empty, map, filter, if◌then◌else◌, arith,
}
use ethpayserver.Monitor.State.{
  ok, NativeTransfer, Log, BlockSource, ChainMonitorConfig, Watched, ChainMonitor,
}
use ethpayserver.Monitor.Scan.{
  native_addresses, erc20_addresses, erc20_transfers_to, with_block_range,
}
use ethpayserver.Monitor.Reorganization.{
  hash_of_transfer, log_hashes, chunk_end, chunk_size, rescan_native, rescan_logs, rescan,
  find_survived_tx_hashes,
}
use ethpayserver.Monitor.Reads.{Reads, read_pure, read_ask, read_bind, read_if, read_weaken}
use ethpayserver.Monitor.Succeeds.{
  IsUp, Succeeds, succeed_pure, succeed_ask, succeed_bind, succeed_if,
}
use ethpayserver.Monitor.Coverage.{Ledger, is_to, logs_in, logs_in-add, IsTruthful}

log_hashes-append : (xs ys : List Log) → log_hashes (xs ++ ys) ≡ log_hashes xs ++ log_hashes ys
unfolding log_hashes
log_hashes-append [] ys = refl
log_hashes-append (log ∷ xs) ys = elim (Option-cases log.transaction_hash) [
  | inl missing ↦ rw (missing, log_hashes) (log_hashes-append xs ys)
  | inr (hash, found) ↦ rw (found, log_hashes) (ap (◌∷◌ hash) (log_hashes-append xs ys))
]

-- The hashes of the transfers to `addresses` in `count` blocks from `from` on.
abbrev pub transfer_hashes_in : Ledger → List ℕ → ℕ → ℕ → List ℕ
transfer_hashes_in ledger addresses from zero = []
transfer_hashes_in ledger addresses from (suc count) =
    map hash_of_transfer (filter (is_to addresses) (ledger.transfers from))
    ++ transfer_hashes_in ledger addresses (from + 1) count

count_zero : (start to : ℕ) → to + 1 ≤ start → to + 1 - start ≡ 0
count_zero start to h = omega (arith, h)

nothing-left :
    (ledger : Ledger) (start to : ℕ)
    → to + 1 ≤ start
    → [] ≡ log_hashes (logs_in ledger start (to + 1 - start))
unfolding log_hashes
nothing-left ledger start to h =
    ap (λ n. log_hashes (logs_in ledger start n)) (sym (count_zero start to h))

count_split :
    (start end to : ℕ)
    → start ≤ end
    → end ≤ to
    → to + 1 - start ≡ (end + 1 - start) + (to + 1 - (end + 1))
count_split start end to h k = omega (arith, h, k)

start_split : (start end : ℕ) → start ≤ end → start + (end + 1 - start) ≡ end + 1
start_split start end h = omega (arith, h)

range-split :
    (ledger : Ledger) (start end to : ℕ)
    → start ≤ end
    → end ≤ to
    → logs_in ledger start (to + 1 - start)
      ≡ logs_in ledger start (end + 1 - start) ++ logs_in ledger (end + 1) (to + 1 - (end + 1))
range-split ledger start end to h k =
    ap (logs_in ledger start) (count_split start end to h k)
    ∙ logs_in-add ledger start (end + 1 - start) (to + 1 - (end + 1))
    ∙ ap (λ n. logs_in ledger start (end + 1 - start) ++ logs_in ledger n (to + 1 - (end + 1)))
        (start_split start end h)

-- A chunk starts at `start` and ends there or behind, up to `to`.
chunk_end-bounds :
    (chunk start to : ℕ)
    → 1 ≤ chunk
    → start ≤ to
    → to < 2 ^ 64
    → (start ≤ chunk_end chunk start to) × (chunk_end chunk start to ≤ to)
unfolding chunk_end
chunk_end-bounds chunk start to h k small = (omega (arith, h, k, small), omega arith)

leb-le : (a b : ℕ) → leb a b ≡ true → a ≤ b
leb-le a b h = ground (arith, h)

equal-next : (end to : ℕ) → (end == to) ≡ true → to + 1 ≤ end + 1
equal-next end to h = ground (arith, h)

fuel-left :
    (start end to fuel : ℕ) → start ≤ end → to + 1 - start ≤ suc fuel → to + 1 - (end + 1) ≤ fuel
fuel-left start end to fuel h enough = omega (arith, h, enough)

filter-none : (ts : List NativeTransfer) → filter (is_to []) ts ≡ []
filter-none [] = refl
filter-none (t ∷ ts) = filter-none ts

transfer_hashes_in-nobody :
    (ledger : Ledger) (addresses : List ℕ) (from count : ℕ)
    → is_empty addresses ≡ true
    → [] ≡ transfer_hashes_in ledger addresses from count
transfer_hashes_in-nobody ledger (_ ∷ _) from count e = cc e
transfer_hashes_in-nobody ledger [] from zero e = refl
transfer_hashes_in-nobody ledger [] from (suc count) e =
    transfer_hashes_in-nobody ledger [] (from + 1) count e
    ∙ ap (λ ts. map hash_of_transfer ts ++ transfer_hashes_in ledger [] (from + 1) count)
        (sym (filter-none (ledger.transfers from)))

-- One chunk and what is behind it are the whole range.
chunk-split :
    (ledger : Ledger) (start end to : ℕ)
    → start ≤ end
    → end ≤ to
    → log_hashes (logs_in ledger start (end + 1 - start))
        ++ log_hashes (logs_in ledger (end + 1) (to + 1 - (end + 1)))
      ≡ log_hashes (logs_in ledger start (to + 1 - start))
chunk-split ledger start end to h k =
    sym (
      log_hashes-append (logs_in ledger start (end + 1 - start))
        (logs_in ledger (end + 1) (to + 1 - (end + 1))))
    ∙ ap log_hashes (sym (range-split ledger start end to h k))

module _ (source : BlockSource) (config : ChainMonitorConfig) (chain_id : ℕ) (ledger : Ledger)
    (truthful : IsTruthful source ledger) where
  rescan_native-Reads :
      (addresses : List ℕ) (from count : ℕ)
      → Reads
          (λ hashes. hashes ≡ transfer_hashes_in ledger addresses from count)
          (rescan_native source config chain_id addresses from count)
  unfolding rescan_native
  rescan_native-Reads addresses from zero = read_pure [] refl
  rescan_native-Reads addresses from (suc count) =
      read_bind
        (read_ask {Q = λ ts. ts ≡ filter (is_to addresses) (ledger.transfers from)}
          (λ n ts e. truthful.native n from addresses ts e))
        (λ ts here.
          read_bind (rescan_native-Reads addresses (from + 1) count)
            (λ rest there. read_pure (map hash_of_transfer ts ++ rest) (cc (here, there))))

  positive : 1 ≤ chunk_size source config chain_id
  unfolding chunk_size
  positive = omega arith

  -- With as much fuel as blocks are left the loop ends by itself, and its chunks are all of them.
  rescan_logs-Reads :
      (addresses : List ℕ) (fuel start to : ℕ)
      → to < 2 ^ 64
      → to + 1 - start ≤ fuel
      → Reads
          (λ hashes. hashes ≡ log_hashes (logs_in ledger start (to + 1 - start)))
          (rescan_logs source config chain_id addresses fuel start to)
  unfolding rescan_logs chunk_end chunk_size
  rescan_logs-Reads addresses zero start to small enough =
      read_pure [] (nothing-left ledger start to (omega (arith, enough)))
  rescan_logs-Reads addresses (suc fuel) start to small enough =
      let end = chunk_end (chunk_size source config chain_id) start to in
      read_if (leb start to)
        (λ inside.
          let (below, above) =
            chunk_end-bounds (chunk_size source config chain_id) start to positive
              (leb-le start to inside) small in
          read_bind
            (read_ask {Q = λ logs. logs ≡ logs_in ledger start (end + 1 - start)}
              (λ n logs e. truthful.token n start end addresses logs e))
            (λ logs here.
              read_bind
                {P = λ rest. rest ≡ log_hashes (logs_in ledger (end + 1) (to + 1 - (end + 1)))}
                (read_if (end == to)
                  (λ last. read_pure [] (nothing-left ledger (end + 1) to (equal-next end to last)))
                  (λ more.
                    rescan_logs-Reads addresses fuel (end + 1) to small
                      (fuel-left start end to fuel below enough)))
                (λ rest there.
                  read_pure (log_hashes logs ++ rest) (
                    cc (ap log_hashes here, there) ∙ chunk-split ledger start end to below above))))
        (λ outside. read_pure [] (nothing-left ledger start to (ground (arith, outside))))

  -- What is reported to be on the chain between two blocks, by the watches.
  abbrev pub survivors : Watched → ℕ → ℕ → List ℕ
  survivors watched from count =
      transfer_hashes_in ledger (native_addresses watched) from count
      ++ (if is_empty (erc20_addresses watched) then [] else log_hashes (logs_in ledger from count))

  rescan-Reads :
      (watched : Watched) (from to : ℕ)
      → to < 2 ^ 64
      → Reads
          (λ answer. answer ≡ (
            if is_empty watched
            then ([], false)
            else (survivors watched from (to + 1 - from), true)))
          (rescan source config chain_id watched from to)
  unfolding rescan
  rescan-Reads watched from to small =
      let natives = native_addresses watched in
      let tokens = erc20_addresses watched in
      let count = to + 1 - from in
      read_if (is_empty watched) (λ nobody. read_pure ([], false) (rw nobody))
        (λ somebody.
          read_bind {P = λ hashes. hashes ≡ transfer_hashes_in ledger natives from count}
            (read_if (is_empty natives)
              (λ none_watched.
                read_pure [] (transfer_hashes_in-nobody ledger natives from count none_watched))
              (λ _. rescan_native-Reads natives from count))
            (λ native_hashes here.
              read_bind
                {P = λ hashes.
                  hashes ≡ (if is_empty tokens then [] else log_hashes (logs_in ledger from count))}
                (read_if (is_empty tokens) (λ none_watched. read_pure [] (rw none_watched))
                  (λ some_watched.
                    read_weaken (λ hashes found. rw some_watched found)
                      (rescan_logs-Reads tokens count from to small (omega arith))))
                (λ token_hashes there.
                  read_pure (native_hashes ++ token_hashes, true) (rw (somebody, here, there)))))

-- When the node's answers are those of the ledger, the loop over chunks ends by itself within its
-- fuel, and what is reported as surviving a reorganization are the transactions of the whole range,
-- whatever the size of a chunk: those of the transfers to watched native addresses and, where a token
-- is watched, those of all transfer logs. Where nothing is watched, nothing counts as verified.
pub find_survived_tx_hashes_complete :
    (source : BlockSource) (config : ChainMonitorConfig) (chain_id : ℕ) (ledger : Ledger)
    (from to : ℕ) (s : ChainMonitor) (answer : List ℕ × Bool)
    → IsTruthful source ledger
    → to < 2 ^ 64
    → (find_survived_tx_hashes source config chain_id from to s).0 ≡ ok answer
    → answer ≡ (
        if is_empty s.watched then ([], false) else (
          transfer_hashes_in ledger (native_addresses s.watched) from (to + 1 - from)
              ++ (if is_empty (erc20_addresses s.watched)
                  then []
                  else log_hashes (logs_in ledger from (to + 1 - from))),
          true,
        ))
unfolding find_survived_tx_hashes
find_survived_tx_hashes_complete source config chain_id ledger from to s answer truthful small e =
    (rescan-Reads source config chain_id ledger truthful s.watched from to small).answer s answer e
