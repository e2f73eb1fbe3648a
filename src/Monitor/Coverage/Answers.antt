-- ===== src/Monitor/Coverage/Answers.antt =====
-- What the scans of one block and of a range answer: all that the ledger holds there.
use ethpayserver.Base.{
  ℕ, zero, suc, ◌+◌, ◌-◌, ◌≡◌, refl, sym, ap, ◌∙◌, Bool, true, false, List, [], ◌++◌, map, is_empty,
  filter, if◌then◌else◌,
}
use ethpayserver.Event.{PaymentDetected}
use ethpayserver.Monitor.State.{rpc, BlockSource, ChainMonitorConfig, Watched, M, pure}
use ethpayserver.Monitor.Scan.{
  invoice_map, native_addresses, erc20_addresses, native_events, check_native_payments,
  check_erc20_payments, block_hash_or_err, scan_native, backfill_missed_blocks,
}
use ethpayserver.Monitor.Reads.{
  Reads, read_pure, read_lift, read_ask, read_bind, read_if, read_or_throw, read_state,
}
use ethpayserver.Monitor.Coverage.{
  Ledger, is_to, logs_in, IsTruthful, erase, native_payments, token_payments, natives_all,
  natives_in, tokens_in,
}
use ethpayserver.Monitor.Coverage.Scans.{
  native_events-filter, native_payments-empty, decode_logs-payments, token_payments-nobody,
  map-append,
}

abbrev pub IsFound : List PaymentDetected → List PaymentDetected → Type 0
IsFound expected events = map erase events ≡ expected

-- Half of a scan that the configuration switches on.
pub read_when :
    (b : Bool) (expected : List PaymentDetected) {m : M (List PaymentDetected)}
    → Reads (IsFound expected) m
    → Reads (IsFound (if b then expected else [])) (if b then m else pure [])
read_when true expected r = r
read_when false expected r = read_pure [] refl

module _ (source : BlockSource) (config : ChainMonitorConfig) (chain_id : ℕ) (ledger : Ledger)
    (truthful : IsTruthful source ledger) (watched : Watched) where
  pub check_native_payments-Reads :
      (number hash : ℕ)
      → Reads
          (IsFound
            (native_payments source config chain_id watched number (ledger.transfers number)))
          (check_native_payments source config chain_id watched number hash)
  unfolding check_native_payments
  check_native_payments-Reads number hash = read_state _ λ s.
      read_if (is_empty (invoice_map watched))
        (λ nobody. read_pure [] (
          sym (
            native_payments-empty source config chain_id watched number (ledger.transfers number)
              nobody)))
        (λ _.
          read_bind
            (read_ask
              {Q = λ ts. ts ≡ filter (is_to (native_addresses watched)) (ledger.transfers number)}
              (λ n ts e. truthful.native n number (native_addresses watched) ts e))
            (λ ts here. read_pure _ (
              ap
                (λ ts.
                  map erase (native_events source config chain_id watched s.now number hash ts))
                here
              ∙ native_events-filter source config chain_id watched s.now number hash
                  (ledger.transfers number))))

  pub check_erc20_payments-Reads :
      (from to : ℕ)
      → Reads
          (IsFound
            (token_payments source config chain_id watched (logs_in ledger from (to + 1 - from))))
          (check_erc20_payments source config chain_id watched from to)
  unfolding check_erc20_payments
  check_erc20_payments-Reads from to =
      let there = logs_in ledger from (to + 1 - from) in
      read_state _ λ s.
        read_if (is_empty (erc20_addresses watched))
          (λ nobody.
            read_pure [] (sym (token_payments-nobody source config chain_id watched there nobody)))
          (λ _.
            read_bind
              (read_ask {Q = λ logs. logs ≡ there}
                (λ n logs e. truthful.token n from to (erc20_addresses watched) logs e))
              (λ logs same. read_lift _ (λ es e.
                decode_logs-payments source config chain_id watched s.now logs es e
                ∙ ap (token_payments source config chain_id watched) same)))

  pub block_hash_or_err-Reads :
      (number : ℕ) → Reads (λ _. Unit {0}) (block_hash_or_err source config chain_id number)
  unfolding block_hash_or_err
  block_hash_or_err-Reads number =
      read_bind (read_ask {Q = λ _. Unit {0}} (λ n a e. tt))
        (λ found _. read_or_throw found rpc (λ _. tt))

  scan_native-Reads :
      (from count : ℕ)
      → Reads
          (IsFound (natives_all source config chain_id ledger watched from count))
          (scan_native source config chain_id watched from count)
  unfolding scan_native
  scan_native-Reads from zero = read_pure [] refl
  scan_native-Reads from (suc count) = read_bind (block_hash_or_err-Reads from) (λ hash _.
      read_bind (check_native_payments-Reads from hash) (λ here found.
        read_bind (scan_native-Reads (from + 1) count)
          (λ rest after. read_pure _ (map-append erase here rest ∙ cc (found, after)))))

  pub backfill_missed_blocks-Reads :
      (from to : ℕ)
      → Reads
          (λ answer.
            IsFound
              (natives_in source config chain_id ledger watched from (to + 1 - from)
                ++ tokens_in source config chain_id ledger watched from (to + 1 - from))
              answer.0)
          (backfill_missed_blocks source config chain_id watched from to)
  unfolding backfill_missed_blocks
  backfill_missed_blocks-Reads from to =
      read_bind
        {P = IsFound (natives_in source config chain_id ledger watched from (to + 1 - from))}
        (read_when config.monitor_native _ (scan_native-Reads from (to + 1 - from)))
        (λ natives found_natives.
          read_bind
            {P = IsFound (tokens_in source config chain_id ledger watched from (to + 1 - from))}
            (read_when config.monitor_erc20 _ (check_erc20_payments-Reads from to))
            (λ tokens found_tokens. read_bind (block_hash_or_err-Reads to) (λ hash _.
              read_pure (natives ++ tokens, hash)
                (map-append erase natives tokens ∙ cc (found_natives, found_tokens)))))
