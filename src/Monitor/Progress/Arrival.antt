-- ===== src/Monitor/Progress/Arrival.antt =====
-- Where the cursor stands after an arrival, while the node is up.
use ethpayserver.Base.{
  ℕ, ◌+◌, ◌-◌, ◌<◌, min, ◌≡◌, refl, sym, Bool, true, false, not, Option, none, some, [], ◌++◌,
  is_empty, ltb, leb, if◌then◌else◌, arith,
}
use ethpayserver.Monitor.State.{
  ok, BlockNotification, BlockSource, ChainMonitorConfig, Watched, ChainMonitor, pure, ◌>>=◌, ◌>>◌,
}
use ethpayserver.Monitor.Scan.{backfill_max_blocks, backfill_chunk, move_cursor}
use ethpayserver.Monitor.Blocks.{
  missed_blocks, fill_gap, scan_block, scan_watched, scan_arrival, process_block,
}
use ethpayserver.Monitor.Reads.{Leads, lead_if, lead_bind, back}
use ethpayserver.Monitor.Succeeds.{IsUp, succeed_pure, succeed_if, ok-injective}
use ethpayserver.Monitor.Coverage.Blocks.{missed_blocks-some}
use ethpayserver.Monitor.Coverage.Silent.{check_reorg-IsSilent, if-IsSilent, pure-IsSilent}
use ethpayserver.Monitor.Coverage.Quiet.{
  check_native_payments-IsSilent, check_erc20_payments-IsSilent, backfill_missed_blocks-IsSilent,
}
use ethpayserver.Monitor.Progress.{
  NamesBlocks, check_native_payments-Succeeds, check_erc20_payments-Succeeds,
  backfill_missed_blocks-Succeeds,
}
use ethpayserver.Monitor.Progress.Forks.{
  missed_blocks-none, IsOn, lead_success, Reaches, lead_record, check_reorg-Succeeds,
}

module _ (source : BlockSource) (config : ChainMonitorConfig) (chain_id : ℕ)
    (up : IsUp source) where
  module _ (named : NamesBlocks source) (watched : Watched) where
    -- The end of the chunk behind `last`.
    abbrev pub chunk_to : ℕ → ℕ → ℕ
    chunk_to last number = min (number - 1) (last + 1 + backfill_max_blocks - 1)

    backfill_chunk-Reaches :
        (last number : ℕ)
        → Leads
            (IsOn watched last)
            (backfill_chunk source config chain_id watched (last + 1) (number - 1))
            (Reaches watched (not (ltb (chunk_to last number) (number - 1))) (chunk_to last number))
    unfolding backfill_chunk move_cursor
    backfill_chunk-Reaches last number =
        let next = chunk_to last number in
        lead_success
          (backfill_missed_blocks-IsSilent source config chain_id watched (last + 1) next)
          (backfill_missed_blocks-Succeeds source config chain_id up named watched (last + 1) next)
          (λ (es, hash).
            lead_record (move_cursor next hash >> pure (not (ltb next (number - 1)))) es
              (record { run = λ s (cursor, watches). (refl, (refl, watches)) }))

    scan_block-Reaches :
        (last : ℕ) (block : BlockNotification)
        → Leads
            (IsOn watched last)
            (scan_block source config chain_id watched block)
            (Reaches watched tt block.number)
    unfolding scan_block move_cursor
    scan_block-Reaches last block =
        lead_success
          (if-IsSilent config.monitor_native
            (check_native_payments-IsSilent source config chain_id watched block.number block.hash)
            (pure-IsSilent []))
          (succeed_if config.monitor_native
            (check_native_payments-Succeeds source config chain_id up named watched block.number
              block.hash)
            (succeed_pure []))
          (λ ns.
            lead_success
              (if-IsSilent config.monitor_erc20
                (check_erc20_payments-IsSilent source config chain_id watched block.number
                  block.number)
                (pure-IsSilent []))
              (succeed_if config.monitor_erc20
                (check_erc20_payments-Succeeds source config chain_id up named watched block.number
                  block.number)
                (succeed_pure []))
              (λ ts.
                lead_record (move_cursor block.number block.hash) (ns ++ ts)
                  (record { run = λ s (cursor, watches). (refl, (refl, watches)) })))

    -- The blocks up to the arrival, or one full chunk of the gap.
    abbrev pub reach : ℕ → ℕ → ℕ
    reach last number =
        if leb number (last + backfill_max_blocks + 1) then number else last + backfill_max_blocks

    scan_filled-Reaches :
        (last : ℕ) (filled : Bool) (block : BlockNotification)
        → Leads
            (IsOn watched last)
            (if filled then scan_block source config chain_id watched block else pure tt)
            (Reaches watched tt (if filled then block.number else last))
    scan_filled-Reaches last true block = scan_block-Reaches last block
    scan_filled-Reaches last false block = record { run = λ s on. (refl, on) }

    reach_next :
        (last number : ℕ)
        → last < number
        → (ltb (last + 1) number) ≡ false
        → number ≡ reach last number
    reach_next last number ahead next = ground (arith, ahead, next)

    reach_chunk :
        (last number : ℕ) (filled : Bool)
        → last + 1 < number
        → filled ≡ not (ltb (chunk_to last number) (number - 1))
        → (if filled then number else chunk_to last number) ≡ reach last number
    reach_chunk last number filled behind e = rw e (ground (arith, behind))

    -- The gap, if there is one, and the arrival behind it.
    fill-Reaches :
        (last : ℕ) (block : BlockNotification) (missed : Option (ℕ × ℕ))
        → missed_blocks (some last) block.number ≡ missed
        → last < block.number
        → Leads
            (IsOn watched last)
            (fill_gap source config chain_id watched missed >>= λ filled.
              if filled then scan_block source config chain_id watched block else pure tt)
            (Reaches watched tt (reach last block.number))
    unfolding fill_gap
    fill-Reaches last block none e ahead = record {
      run = λ s on.
          back (λ n. Reaches watched tt n (scan_block source config chain_id watched block s))
            (sym (reach_next last block.number ahead (missed_blocks-none last block.number e)))
            ((scan_block-Reaches last block).run s on);
    }
    fill-Reaches last block (some (from, to)) e ahead =
        let (behind, from_next, to_before) = missed_blocks-some last block.number from to e in
        lead_bind
          {S = Reaches watched (not (ltb (chunk_to last block.number) (block.number - 1)))
            (chunk_to last block.number)}
          {f = λ filled.
            if filled then scan_block source config chain_id watched block else pure tt}
          (rw (from_next, to_before) (backfill_chunk-Reaches last block.number))
          (λ failure t (never, on). cc never)
          (λ filled. record {
            run = λ t (done, on).
                back
                  (λ n. Reaches watched tt n (
                    (if filled then scan_block source config chain_id watched block else pure tt)
                      t))
                  (sym (reach_chunk last block.number filled behind (ok-injective done)))
                  ((scan_filled-Reaches (chunk_to last block.number) filled block).run t on);
          })

    scan_watched-Reaches :
        (last : ℕ) (block : BlockNotification)
        → last < block.number
        → is_empty watched ≡ false
        → Leads
            (IsOn watched last)
            (scan_watched source config chain_id watched
              (missed_blocks (some last) block.number)
              block)
            (Reaches watched tt (reach last block.number))
    unfolding scan_watched fill_gap missed_blocks
    scan_watched-Reaches last block ahead somebody =
        lead_if (is_empty watched) (λ nobody. cc (nobody, somebody))
          (λ _. fill-Reaches last block (missed_blocks (some last) block.number) refl ahead)

    scan_arrival-Reaches :
        (last : ℕ) (block : BlockNotification)
        → last < block.number
        → is_empty watched ≡ false
        → Leads
            (IsOn watched last)
            (scan_arrival source config chain_id block)
            (Reaches watched tt (reach last block.number))
    unfolding scan_arrival
    scan_arrival-Reaches last block ahead somebody = record {
      run = λ s (cursor, watches).
          back
            (λ w. Reaches watched tt (reach last block.number) (
              scan_watched source config chain_id w (missed_blocks s.last_block block.number) block
                s))
            watches
            (back
              (λ o. Reaches watched tt (reach last block.number) (
                scan_watched source config chain_id watched (missed_blocks o block.number) block s))
              cursor ((scan_watched-Reaches last block ahead somebody).run s (cursor, watches)));
    }

-- While the node is up and names the block of every log: an arrival above the cursor, with
-- something watched, is processed without an error, and the cursor is then at the arrival or, when
-- the gap before it is longer than one chunk, a whole chunk further.
pub process_block_advances :
    (source : BlockSource) (config : ChainMonitorConfig) (chain_id : ℕ) (block : BlockNotification)
    (s : ChainMonitor) (last : ℕ)
    → IsUp source
    → NamesBlocks source
    → s.last_block ≡ some last
    → last < block.number
    → is_empty s.watched ≡ false
    → ((process_block source config chain_id block s).0 ≡ ok tt)
      × ((process_block source config chain_id block s).1.last_block
          ≡ some (
              if leb block.number (last + backfill_max_blocks + 1)
              then block.number
              else last + backfill_max_blocks))
unfolding process_block
process_block_advances source config chain_id block s last up named cursor ahead somebody =
    let (done, (reached, _)) =
      (lead_success
          {R = Reaches s.watched tt (
            if leb block.number (last + backfill_max_blocks + 1)
            then block.number
            else last + backfill_max_blocks)}
          (check_reorg-IsSilent source config chain_id block s.last_block_hash s.last_block)
          (check_reorg-Succeeds source config chain_id up block s.last_block_hash s.last_block)
          (λ _.
            scan_arrival-Reaches source config chain_id up named s.watched last block ahead
              somebody)).run
        s (cursor, refl) in
    (done, reached)
