-- ===== src/Monitor/Blocks.antt =====
-- One block as it arrives: `process_block` of evm/src/monitor/chain/processing.rs.
use ethpayserver.Base.{
  ℕ, ◌+◌, ◌-◌, min, Bool, true, Option, none, some, [], ◌++◌, ltb, ◌==◌, is_empty, if◌then◌else◌,
}
use ethpayserver.Monitor.State.{
  BlockNotification, BlockSource, ChainMonitorConfig, Watched, M, pure, ◌>>=◌, ◌>>◌, ask,
}
use ethpayserver.Monitor.Scan.{
  check_native_payments, check_erc20_payments, record_all, move_cursor, backfill_chunk,
}
use ethpayserver.Monitor.Reorganization.{handle_reorg}

-- `Ok(Some(hash)) if hash != last_hash => Some(last_num.min(block.number)), Ok(_) => None`.
unfoldable pub fork_if_changed : ℕ → ℕ → ℕ → Option ℕ → Option ℕ
fork_if_changed last_hash last_num number none = none
fork_if_changed last_hash last_num number (some hash) =
    if hash == last_hash then none else some (min last_num number)

-- The gap before a block, when there is one.
unfoldable pub missed_blocks : Option ℕ → ℕ → Option (ℕ × ℕ)
missed_blocks none number = none
missed_blocks (some last_num) number =
    if ltb (last_num + 1) number then some (last_num + 1, number - 1) else none

module _ (source : BlockSource) (config : ChainMonitorConfig) (chain_id : ℕ) where
  unfoldable pub find_fork : ℕ → ℕ → BlockNotification → M (Option ℕ)
  unfolding fork_if_changed
  find_fork last_hash last_num block =
      if block.number == last_num + 1
      then pure (if block.parent_hash == last_hash then none else some last_num)
      else do
        found ← ask λ n. source.get_block_hash n last_num
        pure (fork_if_changed last_hash last_num block.number found)

  unfoldable pub report_fork : ℕ → BlockNotification → Option ℕ → M (Unit {0})
  unfolding handle_reorg
  report_fork last_hash block none = pure tt
  report_fork last_hash block (some fork_block) =
      handle_reorg source config chain_id fork_block last_hash block

  unfoldable pub check_reorg : BlockNotification → Option ℕ → Option ℕ → M (Unit {0})
  unfolding find_fork report_fork
  check_reorg block (some last_hash) (some last_num) = do
    fork ← find_fork last_hash last_num block
    report_fork last_hash block fork
  check_reorg block (some last_hash) none = pure tt
  check_reorg block none last_num = pure tt

  unfoldable pub fill_gap : Watched → Option (ℕ × ℕ) → M Bool
  unfolding backfill_chunk
  fill_gap watched none = pure true
  fill_gap watched (some (from, to)) = backfill_chunk source config chain_id watched from to

  unfoldable pub scan_block : Watched → BlockNotification → M (Unit {0})
  unfolding check_native_payments check_erc20_payments record_all move_cursor
  scan_block watched block = do
    natives ←
        if config.monitor_native
        then check_native_payments source config chain_id watched block.number block.hash
        else pure []
    tokens ←
        if config.monitor_erc20
        then check_erc20_payments source config chain_id watched block.number block.number
        else pure []
    record_all (natives ++ tokens)
    move_cursor block.number block.hash

  -- The part of `process_block` behind the check for a reorganization.
  unfoldable pub scan_watched : Watched → Option (ℕ × ℕ) → BlockNotification → M (Unit {0})
  unfolding fill_gap scan_block move_cursor
  scan_watched watched missed block =
      if is_empty watched
      then move_cursor block.number block.hash
      else do filled ← fill_gap watched missed; if filled then scan_block watched block else pure tt

  unfoldable pub scan_arrival : BlockNotification → M (Unit {0})
  unfolding missed_blocks scan_watched
  scan_arrival block s = scan_watched s.watched (missed_blocks s.last_block block.number) block s

  unfoldable pub process_block : BlockNotification → M (Unit {0})
  unfolding check_reorg scan_arrival
  process_block block s =
      (do check_reorg block s.last_block_hash s.last_block; scan_arrival block) s
