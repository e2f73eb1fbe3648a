-- ===== src/Monitor/Survivors/Returns.antt =====
-- The re-scan for a reorganization returns while the node is up: `find_survived_tx_hashes` of
-- evm/src/monitor/chain/confirmations.rs.
use ethpayserver.Base.{
  ℕ, zero, suc, ◌+◌, ◌-◌, ◌^◌, ◌<◌, ◌≡◌, ap, ◌∙◌, true, false, List, [], ◌++◌, leb, ◌==◌, is_empty,
  map, if◌then◌else◌,
}
use ethpayserver.Monitor.State.{ok, BlockSource, ChainMonitorConfig, Watched, ChainMonitor}
use ethpayserver.Monitor.Scan.{
  native_addresses, erc20_addresses, erc20_transfers_to, with_block_range,
}
use ethpayserver.Monitor.Reorganization.{
  hash_of_transfer, log_hashes, chunk_end, chunk_size, rescan_native, rescan_logs, rescan,
  find_survived_tx_hashes,
}
use ethpayserver.Monitor.Succeeds.{
  IsUp, Succeeds, succeed_pure, succeed_ask, succeed_bind, succeed_if,
}
use ethpayserver.Monitor.Coverage.{Ledger, logs_in, IsTruthful}
use ethpayserver.Monitor.Survivors.{transfer_hashes_in, find_survived_tx_hashes_complete}

module _ (source : BlockSource) (config : ChainMonitorConfig) (chain_id : ℕ)
    (up : IsUp source) where
  rescan_native-Succeeds :
      (addresses : List ℕ) (from count : ℕ)
      → Succeeds (rescan_native source config chain_id addresses from count)
  unfolding rescan_native
  rescan_native-Succeeds addresses from zero = succeed_pure []
  rescan_native-Succeeds addresses from (suc count) =
      succeed_bind (succeed_ask (λ n. up.native n from addresses)) (λ ts.
        succeed_bind (rescan_native-Succeeds addresses (from + 1) count)
          (λ rest. succeed_pure (map hash_of_transfer ts ++ rest)))

  rescan_logs-Succeeds :
      (addresses : List ℕ) (fuel start to : ℕ)
      → Succeeds (rescan_logs source config chain_id addresses fuel start to)
  unfolding rescan_logs
  rescan_logs-Succeeds addresses zero start to = succeed_pure []
  rescan_logs-Succeeds addresses (suc fuel) start to =
      let end = chunk_end (chunk_size source config chain_id) start to in
      succeed_if (leb start to)
        (succeed_bind
          (succeed_ask
            (λ n. up.token n (with_block_range start end (erc20_transfers_to addresses))))
          (λ logs.
            succeed_bind
              (succeed_if (end == to) (succeed_pure [])
                (rescan_logs-Succeeds addresses fuel (end + 1) to))
              (λ rest. succeed_pure (log_hashes logs ++ rest))))
        (succeed_pure [])

  rescan-Succeeds :
      (watched : Watched) (from to : ℕ) → Succeeds (rescan source config chain_id watched from to)
  unfolding rescan
  rescan-Succeeds watched from to =
      let natives = native_addresses watched in
      let tokens = erc20_addresses watched in
      succeed_if (is_empty watched) (succeed_pure ([], false)) (
        succeed_bind
          (succeed_if (is_empty natives) (succeed_pure [])
            (rescan_native-Succeeds natives from (to + 1 - from)))
          (λ native_hashes.
            succeed_bind
              (succeed_if (is_empty tokens) (succeed_pure [])
                (rescan_logs-Succeeds tokens (to + 1 - from) from to))
              (λ token_hashes. succeed_pure (native_hashes ++ token_hashes, true))))

  pub find_survived_tx_hashes-Succeeds :
      (from to : ℕ) → Succeeds (find_survived_tx_hashes source config chain_id from to)
  unfolding find_survived_tx_hashes
  find_survived_tx_hashes-Succeeds from to = record {
    result = λ s. (rescan-Succeeds s.watched from to).result s;
  }

-- A node that is up and answers from the ledger: the re-scan returns, and it has found the whole range.
pub find_survived_tx_hashes_returns :
    (source : BlockSource) (config : ChainMonitorConfig) (chain_id : ℕ) (ledger : Ledger)
    (from to : ℕ) (s : ChainMonitor)
    → IsUp source
    → IsTruthful source ledger
    → to < 2 ^ 64
    → is_empty s.watched ≡ false
    → (find_survived_tx_hashes source config chain_id from to s).0
      ≡ ok (
        transfer_hashes_in ledger (native_addresses s.watched) from (to + 1 - from)
            ++ (if is_empty (erc20_addresses s.watched)
                then []
                else log_hashes (logs_in ledger from (to + 1 - from))),
        true,
      )
unfolding find_survived_tx_hashes
find_survived_tx_hashes_returns source config chain_id ledger from to s up truthful small somebody =
    let (answer, returned) =
      (rescan-Succeeds source config chain_id up s.watched from to).result s in
    returned
    ∙ ap ok (
        find_survived_tx_hashes_complete source config chain_id ledger from to s answer truthful
          small returned
        ∙ rw somebody)
