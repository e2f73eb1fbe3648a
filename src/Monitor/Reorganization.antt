-- ===== src/Monitor/Reorganization.antt =====
-- A reorganization as the monitor reports it: evm/src/monitor/chain/confirmations.rs.
use ethpayserver.Base.{
  ℕ, zero, suc, ◌+◌, ◌-◌, ◌^◌, min, max, Bool, true, false, none, some, List, [], ◌∷◌, ◌++◌, leb,
  ◌==◌, is_empty, map, if◌then◌else◌,
}
use ethpayserver.Event.{reorg_detected}
use ethpayserver.Monitor.State.{
  NativeTransfer, BlockNotification, Log, BlockSource, ChainMonitorConfig, Pending, Watched, M,
  pure, ◌>>=◌, ask, send,
}
use ethpayserver.Monitor.Scan.{
  native_addresses, erc20_addresses, erc20_transfers_to, with_block_range,
}

-- The invoices of the pending payments at or above the fork.
unfoldable pub affected_invoices : ℕ → Pending → List ℕ
affected_invoices fork [] = []
affected_invoices fork ((key, event) ∷ pending) =
    let rest = affected_invoices fork pending in
    if leb fork event.block_number then event.invoice_id ∷ rest else rest

abbrev pub hash_of_transfer : NativeTransfer → ℕ
hash_of_transfer t = t.tx_hash

-- `logs.into_iter().filter_map(|l| l.transaction_hash)`.
unfoldable pub log_hashes : List Log → List ℕ
log_hashes [] = []
log_hashes (log ∷ logs) =
    let rest = log_hashes logs in
    elim log.transaction_hash [ none ↦ rest | some hash ↦ hash ∷ rest ]

-- `start.saturating_add(chunk - 1).min(to)` on u64.
unfoldable pub chunk_end : ℕ → ℕ → ℕ → ℕ
chunk_end chunk start to = min (min (start + (chunk - 1)) (2 ^ 64 - 1)) to

module _ (source : BlockSource) (config : ChainMonitorConfig) (chain_id : ℕ) where
  -- `for block_number in from..=to`, by the number of blocks left.
  unfoldable pub rescan_native : List ℕ → ℕ → ℕ → M (List ℕ)
  rescan_native addresses from zero = pure []
  rescan_native addresses from (suc count) = do
    transfers ← ask λ n. source.find_native_transfers_to n from addresses
    rest ← rescan_native addresses (from + 1) count
    pure (map hash_of_transfer transfers ++ rest)

  unfoldable pub chunk_size : ℕ
  chunk_size = max config.max_blocks_per_scan 1

  -- The `while start <= to` loop, on fuel.
  unfoldable pub rescan_logs : List ℕ → ℕ → ℕ → ℕ → M (List ℕ)
  unfolding chunk_size chunk_end log_hashes erc20_transfers_to with_block_range
  rescan_logs addresses zero start to = pure []
  rescan_logs addresses (suc fuel) start to =
      let end = chunk_end chunk_size start to in
      let next = rescan_logs addresses fuel (end + 1) to in
      if leb start to
      then (do
        logs ←
            ask λ n. source.get_logs n (with_block_range start end (erc20_transfers_to addresses))
        rest ← if end == to then pure [] else next
        pure (log_hashes logs ++ rest))
      else pure []

  unfoldable pub rescan : Watched → ℕ → ℕ → M (List ℕ × Bool)
  unfolding rescan_native rescan_logs native_addresses erc20_addresses
  rescan watched from to =
      let natives = native_addresses watched in
      let tokens = erc20_addresses watched in
      if is_empty watched then pure ([], false) else do
        native_hashes ←
            if is_empty natives then pure [] else rescan_native natives from (to + 1 - from)
        token_hashes ←
            if is_empty tokens then pure [] else rescan_logs tokens (to + 1 - from) from to
        pure (native_hashes ++ token_hashes, true)

  -- The hashes found in `from..=to`, and whether the scan could verify anything.
  unfoldable pub find_survived_tx_hashes : ℕ → ℕ → M (List ℕ × Bool)
  unfolding rescan
  find_survived_tx_hashes from to s = rescan s.watched from to s

  unfoldable pub handle_reorg : ℕ → ℕ → BlockNotification → M (Unit {0})
  unfolding find_survived_tx_hashes affected_invoices
  handle_reorg fork_block old_hash new_block s =
      (do
        (survived, verifiable) ← find_survived_tx_hashes fork_block new_block.number
        send (
            reorg_detected (record {
              chain_id = chain_id;
              fork_block = fork_block;
              old_hash = old_hash;
              new_hash = new_block.hash;
              depth = new_block.number - fork_block + 1;
              affected_invoices = affected_invoices fork_block s.pending;
              survived_tx_hashes = survived;
              survivors_verifiable = verifiable;
              detected_at = s.now;
            })))
        s
