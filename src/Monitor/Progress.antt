-- ===== src/Monitor/Progress.antt =====
-- How far one arrival brings the cursor while the node is up: `process_block` of
-- evm/src/monitor/chain/processing.rs.
pub mod Forks
pub mod Arrival
use ethpayserver.Base.{
  ℕ, zero, suc, ◌+◌, ◌-◌, ◌≤◌, ◌<◌, min, ◌≡◌, refl, sym, ap, ◌∙◌, Bool, true, false, not, Option,
  none, some, inl, inr, Bool-cases, List, [], ◌∷◌, ◌++◌, All, is_some, is_empty, ltb, leb, ◌==◌,
  if◌then◌else◌, arith,
}
use ethpayserver.Event.{PaymentDetected}
use ethpayserver.Monitor.State.{
  EvmError, rpc, EvmResult, ok, err, Log, LogFilter, BlockNotification, BlockSource,
  ChainMonitorConfig, WatchedAddress, Watched, ChainMonitor, M, pure, ◌>>=◌, ◌>>◌, lift, ask, send,
  eq_watch, lookup, or_throw,
}
use ethpayserver.Monitor.Scan.{
  invoice_map, native_addresses, native_events, check_native_payments, erc20_event_at,
  erc20_event_for, decode_log, append_ok, decode_logs, erc20_addresses, erc20_transfers_to,
  with_block_range, check_erc20_payments, block_hash_or_err, scan_native, address_from_topic,
  backfill_missed_blocks, backfill_max_blocks, backfill_chunk, record_all, move_cursor,
}
use ethpayserver.Monitor.Reorganization.{find_survived_tx_hashes, handle_reorg}
use ethpayserver.Monitor.Blocks.{
  find_fork, report_fork, check_reorg, missed_blocks, fill_gap, scan_block, scan_watched,
  scan_arrival, process_block,
}
use ethpayserver.Monitor.Reads.{IsSame, Leads, lead_read, lead_bind, lead_if, bind-run, back}
use ethpayserver.Monitor.Succeeds.{
  IsUp, Succeeds, succeed_pure, succeed_ask, succeed_bind, succeed_if, succeed_state,
  succeed_ask_bind, succeed_lift, succeed_found, ok-injective,
}
use ethpayserver.Monitor.Survivors.Returns.{find_survived_tx_hashes-Succeeds}
use ethpayserver.Monitor.Coverage.Cursor.{record_all-run}
use ethpayserver.Monitor.Coverage.Silent.{
  IsSilent, check_reorg-IsSilent, if-IsSilent, pure-IsSilent,
}
use ethpayserver.Monitor.Coverage.Quiet.{
  check_native_payments-IsSilent, check_erc20_payments-IsSilent, backfill_missed_blocks-IsSilent,
}

-- The node names the block of every log that it answers with.
abbrev pub NamesBlocks : BlockSource → Type 0
NamesBlocks source =
    (n : ℕ) (f : LogFilter) (logs : List Log)
    → source.get_logs n f ≡ ok logs
    → All (λ log. (number : ℕ) × (log.block_number ≡ some number)) logs

module _ (source : BlockSource) (config : ChainMonitorConfig) (chain_id : ℕ) where
  erc20_event_for-ok :
      (now to from : ℕ) (log : Log) (watch : Option WatchedAddress) {number : ℕ}
      → log.block_number ≡ some number
      → (es : List PaymentDetected) × (erc20_event_for source config chain_id now to from log watch
          ≡ ok es)
  unfolding erc20_event_for erc20_event_at
  erc20_event_for-ok now to from log none named = ([], refl)
  erc20_event_for-ok now to from log (some watch) named = rw (named, erc20_event_at) (_, refl)

  decode_log-ok :
      (watched : Watched) (now : ℕ) (log : Log) (topics : List ℕ) {number : ℕ}
      → log.block_number ≡ some number
      → (es : List PaymentDetected) × (decode_log source config chain_id watched now log topics
          ≡ ok es)
  unfolding decode_log
  decode_log-ok watched now log [] named = ([], refl)
  decode_log-ok watched now log (_ ∷ []) named = ([], refl)
  decode_log-ok watched now log (_ ∷ _ ∷ []) named = ([], refl)
  decode_log-ok watched now log (_ ∷ topic1 ∷ topic2 ∷ _) named =
      erc20_event_for-ok now (address_from_topic topic2) (address_from_topic topic1) log
        (lookup eq_watch (address_from_topic topic2, some log.address) watched) named

  decode_logs-ok :
      (watched : Watched) (now : ℕ) (logs : List Log)
      → All (λ log. (number : ℕ) × (log.block_number ≡ some number)) logs
      → (es : List PaymentDetected) × (decode_logs source config chain_id watched now logs ≡ ok es)
  unfolding decode_logs append_ok
  decode_logs-ok watched now [] named = ([], refl)
  decode_logs-ok watched now (log ∷ logs) ((number, here), there) =
      let (xs, first) = decode_log-ok watched now log log.topics here in
      let (ys, rest) = decode_logs-ok watched now logs there in
      (xs ++ ys, rw (first, rest, append_ok) refl)

  module _ (up : IsUp source) (named : NamesBlocks source) (watched : Watched) where
    check_native_payments-Succeeds :
        (number hash : ℕ)
        → Succeeds (check_native_payments source config chain_id watched number hash)
    unfolding check_native_payments
    check_native_payments-Succeeds number hash = succeed_state _ λ s.
        succeed_if (is_empty (invoice_map watched)) (succeed_pure []) (
          succeed_bind (succeed_ask (λ n. up.native n number (native_addresses watched))) (λ ts.
            succeed_pure (native_events source config chain_id watched s.now number hash ts)))

    check_erc20_payments-Succeeds :
        (from to : ℕ) → Succeeds (check_erc20_payments source config chain_id watched from to)
    unfolding check_erc20_payments
    check_erc20_payments-Succeeds from to = succeed_state _ λ s.
        succeed_if (is_empty (erc20_addresses watched)) (succeed_pure []) (
          succeed_ask_bind
            (λ n.
              up.token n (with_block_range from to (erc20_transfers_to (erc20_addresses watched))))
            (λ n logs e. succeed_lift (decode_logs-ok watched s.now logs (named n _ logs e))))

    block_hash_or_err-Succeeds :
        (number : ℕ) → Succeeds (block_hash_or_err source config chain_id number)
    unfolding block_hash_or_err
    block_hash_or_err-Succeeds number =
        succeed_ask_bind {query = λ n. source.get_block_hash n number}
          (λ n. let (hash, e) = up.block_hash n number in (some hash, e))
          (λ n found e.
            let (hash, e') = up.block_hash n number in
            succeed_found found rpc (ok-injective (sym e ∙ e')))

    scan_native-Succeeds :
        (from count : ℕ) → Succeeds (scan_native source config chain_id watched from count)
    unfolding scan_native
    scan_native-Succeeds from zero = succeed_pure []
    scan_native-Succeeds from (suc count) = succeed_bind (block_hash_or_err-Succeeds from) (λ hash.
        succeed_bind (check_native_payments-Succeeds from hash) (λ here.
          succeed_bind (scan_native-Succeeds (from + 1) count)
            (λ rest. succeed_pure (here ++ rest))))

    backfill_missed_blocks-Succeeds :
        (from to : ℕ) → Succeeds (backfill_missed_blocks source config chain_id watched from to)
    unfolding backfill_missed_blocks
    backfill_missed_blocks-Succeeds from to =
        succeed_bind
          (succeed_if config.monitor_native (scan_native-Succeeds from (to + 1 - from))
            (succeed_pure []))
          (λ natives.
            succeed_bind
              (succeed_if config.monitor_erc20 (check_erc20_payments-Succeeds from to)
                (succeed_pure []))
              (λ tokens.
                succeed_bind (block_hash_or_err-Succeeds to)
                  (λ hash. succeed_pure (natives ++ tokens, hash))))
