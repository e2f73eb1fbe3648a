-- ===== src/Monitor/Coverage/Quiet.antt =====
-- The scans leave the monitor's state, whatever the node answers.
use ethpayserver.Base.{ℕ, zero, suc, ◌+◌, ◌-◌, [], ◌++◌, is_empty}
use ethpayserver.Monitor.State.{rpc, BlockSource, ChainMonitorConfig, Watched}
use ethpayserver.Monitor.Scan.{
  invoice_map, native_addresses, erc20_addresses, native_events, check_native_payments, decode_logs,
  check_erc20_payments, block_hash_or_err, scan_native, backfill_missed_blocks, erc20_transfers_to,
  with_block_range,
}
use ethpayserver.Monitor.Reads.{read_lift, read_or_throw, read_state}
use ethpayserver.Monitor.Coverage.Silent.{
  IsSilent, ask-IsSilent, bind-IsSilent, if-IsSilent, pure-IsSilent,
}

module _ (source : BlockSource) (config : ChainMonitorConfig) (chain_id : ℕ)
    (watched : Watched) where
  pub check_native_payments-IsSilent :
      (number hash : ℕ)
      → IsSilent (check_native_payments source config chain_id watched number hash)
  unfolding check_native_payments
  check_native_payments-IsSilent number hash = read_state _ λ s.
      if-IsSilent (is_empty (invoice_map watched)) (pure-IsSilent []) (
        bind-IsSilent
          (ask-IsSilent λ n. source.find_native_transfers_to n number (native_addresses watched))
          (λ ts. pure-IsSilent (native_events source config chain_id watched s.now number hash ts)))

  pub check_erc20_payments-IsSilent :
      (from to : ℕ) → IsSilent (check_erc20_payments source config chain_id watched from to)
  unfolding check_erc20_payments
  check_erc20_payments-IsSilent from to = read_state _ λ s.
      if-IsSilent (is_empty (erc20_addresses watched)) (pure-IsSilent []) (
        bind-IsSilent
          (ask-IsSilent λ n.
            source.get_logs n
              (with_block_range from to (erc20_transfers_to (erc20_addresses watched))))
          (λ logs. read_lift (decode_logs source config chain_id watched s.now logs) (λ a e. tt)))

  block_hash_or_err-IsSilent :
      (number : ℕ) → IsSilent (block_hash_or_err source config chain_id number)
  unfolding block_hash_or_err
  block_hash_or_err-IsSilent number =
      bind-IsSilent (ask-IsSilent λ n. source.get_block_hash n number)
        (λ found. read_or_throw found rpc (λ _. tt))

  scan_native-IsSilent :
      (from count : ℕ) → IsSilent (scan_native source config chain_id watched from count)
  unfolding scan_native
  scan_native-IsSilent from zero = pure-IsSilent []
  scan_native-IsSilent from (suc count) = bind-IsSilent (block_hash_or_err-IsSilent from) (λ hash.
      bind-IsSilent (check_native_payments-IsSilent from hash) (λ here.
        bind-IsSilent (scan_native-IsSilent (from + 1) count)
          (λ rest. pure-IsSilent (here ++ rest))))

  pub backfill_missed_blocks-IsSilent :
      (from to : ℕ) → IsSilent (backfill_missed_blocks source config chain_id watched from to)
  unfolding backfill_missed_blocks
  backfill_missed_blocks-IsSilent from to =
      bind-IsSilent
        (if-IsSilent config.monitor_native (scan_native-IsSilent from (to + 1 - from))
          (pure-IsSilent []))
        (λ natives.
          bind-IsSilent
            (if-IsSilent config.monitor_erc20 (check_erc20_payments-IsSilent from to)
              (pure-IsSilent []))
            (λ tokens.
              bind-IsSilent (block_hash_or_err-IsSilent to)
                (λ hash. pure-IsSilent (natives ++ tokens, hash))))
