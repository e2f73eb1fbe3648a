-- ===== src/Monitor/Scan.antt =====
-- The payments in blocks: evm/src/monitor/chain/processing.rs.
-- What is detected is returned, and appended to by the callers in the source's order.
use ethpayserver.Base.{
  ℕ, zero, suc, ◌+◌, ◌-◌, ◌%◌, ◌^◌, min, Bool, true, false, not, Option, none, some, List, [], ◌∷◌,
  ◌++◌, ltb, unwrap_or, is_some, is_empty, filter, map, if◌then◌else◌,
}
use ethpayserver.Base.Dict.{Dict, get}
use ethpayserver.Base.Int.{ℤ}
use ethpayserver.Event.{PaymentDetected, payment_detected, tx_index}
use ethpayserver.Monitor.State.{
  rpc, EvmResult, ok, err, NativeTransfer, Log, LogFilter, BlockSource, ChainMonitorConfig,
  WatchedAddress, WatchKey, Watched, Pending, M, pure, ◌>>=◌, ◌>>◌, or_throw, lift, ask, send,
  eq_watch, eq_pending, lookup, insert,
}

abbrev is_native_watch : WatchKey × WatchedAddress → Bool
is_native_watch ((address, token), watch) = not (is_some token)

abbrev pub is_token_watch : WatchKey × WatchedAddress → Bool
is_token_watch ((address, token), watch) = is_some token

abbrev address_invoice : WatchKey × WatchedAddress → ℕ × ℕ
address_invoice ((address, token), watch) = (address, watch.invoice_id)

abbrev pub address_of : WatchKey × WatchedAddress → ℕ
address_of ((address, token), watch) = address

abbrev key_of : ℕ × ℕ → ℕ
key_of (k, _) = k

unfoldable pub invoice_map : Watched → Dict ℕ
invoice_map watched = map address_invoice (filter is_native_watch watched)

-- The addresses of the native watches, and those of the token watches.
unfoldable pub native_addresses : Watched → List ℕ
native_addresses watched = map address_of (filter is_native_watch watched)

unfoldable pub erc20_addresses : Watched → List ℕ
erc20_addresses watched = map address_of (filter is_token_watch watched)

-- keccak256("Transfer(address,address,uint256)").
abbrev pub transfer_topic : ℕ
transfer_topic = 0xddf252ad1be2c89b69c2b068fc378daa952ba7f163c4a11628f55a4df523b3ef

unfoldable pub erc20_transfers_to : List ℕ → LogFilter
erc20_transfers_to addresses = record {
  addresses = [];
  topics = some transfer_topic ∷ none ∷ [];
  from_block = none;
  to_block = none;
}

unfoldable pub with_block_range : ℕ → ℕ → LogFilter → LogFilter
with_block_range from to f = record f { from_block = some from; to_block = some to }

-- `Address::from_slice(&topic[12..])`.
unfoldable pub address_from_topic : ℕ → ℕ
address_from_topic topic = topic % 2 ^ 160

abbrev pub backfill_max_blocks : ℕ
backfill_max_blocks = 200

unfoldable pub append_ok :
    EvmResult (List PaymentDetected)
    → EvmResult (List PaymentDetected)
    → EvmResult (List PaymentDetected)
append_ok (ok xs) (ok ys) = ok (xs ++ ys)
append_ok (ok xs) (err e) = err e
append_ok (err e) r = err e

-- The transfer is tracked for its confirmations, but for a token's without a log index.
unfoldable pub track_at : PaymentDetected → Option ℤ → Pending → Pending
track_at event none pending = pending
track_at event (some index) pending = insert eq_pending (event.tx_hash, index) event pending

unfoldable pub track : PaymentDetected → Pending → Pending
unfolding track_at
track event pending = track_at event (tx_index event) pending

unfoldable pub record_detected : PaymentDetected → M (Unit {0})
unfolding track
record_detected event s =
    send (payment_detected event) (record s { pending = track event s.pending })

-- `for event in detected { self.record_detected(event).await; }`.
unfoldable pub record_all : List PaymentDetected → M (Unit {0})
unfolding record_detected
record_all [] = pure tt
record_all (event ∷ events) = record_detected event >> record_all events

unfoldable pub move_cursor : ℕ → ℕ → M (Unit {0})
move_cursor number hash s =
    (ok tt, record s { last_block = some number; last_block_hash = some hash })

module _ (source : BlockSource) (config : ChainMonitorConfig) (chain_id : ℕ) where
  unfoldable pub native_event : ℕ → ℕ → ℕ → ℕ → NativeTransfer → PaymentDetected
  native_event now number hash invoice_id t = record {
    chain_id = chain_id;
    invoice_id = invoice_id;
    payment_address = t.to;
    amount = t.value;
    tx_hash = t.tx_hash;
    block_number = number;
    block_hash = hash;
    log_index = none;
    is_native = true;
    token_address = none;
    from_address = t.from;
    confirmations = 1;
    required_confirmations = config.required_confirmations;
    detected_at = now;
  }

  -- The `for transfer in transfers` loop.
  unfoldable pub native_events : Watched → ℕ → ℕ → ℕ → List NativeTransfer → List PaymentDetected
  unfolding native_event invoice_map
  native_events watched now number hash [] = []
  native_events watched now number hash (t ∷ ts) =
      let rest = native_events watched now number hash ts in
      elim (get t.to (invoice_map watched)) [
        | none ↦ rest
        | some invoice_id ↦ native_event now number hash invoice_id t ∷ rest
      ]

  unfoldable pub check_native_payments : Watched → ℕ → ℕ → M (List PaymentDetected)
  unfolding native_events invoice_map native_addresses
  check_native_payments watched number hash s =
      (if is_empty (invoice_map watched) then pure [] else do
        transfers ← ask λ n. source.find_native_transfers_to n number (native_addresses watched)
        pure (native_events watched s.now number hash transfers))
        s

  unfoldable pub erc20_event : ℕ → ℕ → ℕ → ℕ → ℕ → Log → PaymentDetected
  erc20_event now invoice_id to_address from_address number log = record {
    chain_id = chain_id;
    invoice_id = invoice_id;
    payment_address = to_address;
    amount = source.from_be_slice log.payload;
    tx_hash = unwrap_or log.transaction_hash 0;
    block_number = number;
    block_hash = unwrap_or log.block_hash 0;
    log_index = elim log.log_index [ none ↦ none | some i ↦ some (i % 2 ^ 32) ];
    is_native = false;
    token_address = some log.address;
    from_address = from_address;
    confirmations = 1;
    required_confirmations = config.required_confirmations;
    detected_at = now;
  }

  -- A watched transfer whose log has no block number.
  unfoldable pub erc20_event_at : ℕ → ℕ → ℕ → ℕ → Log → Option ℕ → EvmResult (List PaymentDetected)
  unfolding erc20_event
  erc20_event_at now invoice_id to from log none = err rpc
  erc20_event_at now invoice_id to from log (some number) =
      ok (erc20_event now invoice_id to from number log ∷ [])

  unfoldable pub erc20_event_for :
      ℕ → ℕ → ℕ → Log → Option WatchedAddress → EvmResult (List PaymentDetected)
  unfolding erc20_event_at
  erc20_event_for now to from log none = ok []
  erc20_event_for now to from log (some watch) =
      erc20_event_at now watch.invoice_id to from log log.block_number

  -- topic1 is the sender and topic2 the receiver; a log with fewer topics is skipped.
  unfoldable pub decode_log : Watched → ℕ → Log → List ℕ → EvmResult (List PaymentDetected)
  unfolding erc20_event_for address_from_topic
  decode_log watched now log (_ ∷ topic1 ∷ topic2 ∷ _) =
      let to = address_from_topic topic2 in
      erc20_event_for now to (address_from_topic topic1) log
        (lookup eq_watch (to, some log.address) watched)
  decode_log watched now log (_ ∷ _ ∷ []) = ok []
  decode_log watched now log (_ ∷ []) = ok []
  decode_log watched now log [] = ok []

  -- The `for log in logs` loop.
  unfoldable pub decode_logs : Watched → ℕ → List Log → EvmResult (List PaymentDetected)
  unfolding decode_log append_ok
  decode_logs watched now [] = ok []
  decode_logs watched now (log ∷ logs) =
      append_ok (decode_log watched now log log.topics) (decode_logs watched now logs)

  unfoldable pub check_erc20_payments : Watched → ℕ → ℕ → M (List PaymentDetected)
  unfolding decode_logs erc20_addresses erc20_transfers_to with_block_range
  check_erc20_payments watched from to s =
      (if is_empty (erc20_addresses watched) then pure [] else do
        logs ← ask λ n.
            source.get_logs n
              (with_block_range from to (erc20_transfers_to (erc20_addresses watched)))
        lift (decode_logs watched s.now logs))
        s

  unfoldable pub block_hash_or_err : ℕ → M ℕ
  block_hash_or_err number = do found ← ask λ n. source.get_block_hash n number; or_throw found rpc

  -- `for number in from..=to`, by the number of blocks left.
  unfoldable pub scan_native : Watched → ℕ → ℕ → M (List PaymentDetected)
  unfolding block_hash_or_err check_native_payments
  scan_native watched from zero = pure []
  scan_native watched from (suc count) = do
    hash ← block_hash_or_err from
    here ← check_native_payments watched from hash
    rest ← scan_native watched (from + 1) count
    pure (here ++ rest)

  unfoldable pub backfill_missed_blocks : Watched → ℕ → ℕ → M (List PaymentDetected × ℕ)
  unfolding scan_native check_erc20_payments block_hash_or_err
  backfill_missed_blocks watched from to = do
    natives ← if config.monitor_native then scan_native watched from (to + 1 - from) else pure []
    tokens ← if config.monitor_erc20 then check_erc20_payments watched from to else pure []
    hash ← block_hash_or_err to
    pure (natives ++ tokens, hash)

  -- Whether the chunk reached `to`.
  unfoldable pub backfill_chunk : Watched → ℕ → ℕ → M Bool
  unfolding backfill_missed_blocks record_all move_cursor
  backfill_chunk watched from to =
      let chunk_to = min to (from + backfill_max_blocks - 1) in
      do
        (detected, hash) ← backfill_missed_blocks watched from chunk_to
        record_all detected
        move_cursor chunk_to hash
        pure (not (ltb chunk_to to))
