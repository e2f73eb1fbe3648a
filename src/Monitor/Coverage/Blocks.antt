-- ===== src/Monitor/Coverage/Blocks.antt =====
-- One arrival moves the cursor over blocks whose payments it has all reported, once each.
use ethpayserver.Base.{
  ℕ, ◌+◌, ◌-◌, ◌≤◌, ◌<◌, min, ◌≡◌, refl, sym, ap, ◌∙◌, Bool, true, false, not, Option, none, some,
  List, [], ◌++◌, map, is_empty, ltb, inl, inr, Bool-cases, if◌then◌else◌, arith,
}
use mathlib.Core.List.{append-nil}
use ethpayserver.Event.{PaymentDetected}
use ethpayserver.Monitor.State.{
  EvmError, EvmResult, ok, BlockNotification, BlockSource, ChainMonitorConfig, Watched,
  ChainMonitor, M, pure, ◌>>◌,
}
use ethpayserver.Monitor.Scan.{record_all, move_cursor, backfill_max_blocks, backfill_chunk}
use ethpayserver.Monitor.Blocks.{
  missed_blocks, fill_gap, scan_block, scan_watched, scan_arrival, process_block,
}
use ethpayserver.Monitor.Reads.{
  IsSame, bind-run, back, Leads, lead_read, lead_if, lead_bind, ok-injective,
}
use ethpayserver.Monitor.Coverage.{
  Ledger, logs_in, IsTruthful, erase, native_payments, token_payments, natives_in, tokens_in,
}
use ethpayserver.Monitor.Coverage.Scans.{map-append}
use ethpayserver.Monitor.Coverage.Answers.{
  read_when, check_native_payments-Reads, check_erc20_payments-Reads, backfill_missed_blocks-Reads,
}
use ethpayserver.Monitor.Coverage.Cursor.{record_all-run, IsAt, IsSame-IsAt, advance}
use ethpayserver.Monitor.Coverage.Nobody.{between-nobody}
use ethpayserver.Monitor.Coverage.Silent.{check_reorg-IsSilent}

reached :
    (next limit number : ℕ)
    → next ≤ limit
    → limit + 1 ≡ number
    → ok (not (ltb next limit)) ≡ ok true
    → next + 1 ≡ number
reached next limit number le e done =
    let here : not (ltb next limit) ≡ true = ok-injective done in ground (arith, here, le, e)

gap-bound : (last number : ℕ) → ltb (last + 1) number ≡ true → last + 1 < number
gap-bound last number behind = ground (arith, behind)

pub missed_blocks-some :
    (last number from to : ℕ)
    → missed_blocks (some last) number ≡ some (from, to)
    → (last + 1 < number) × (from ≡ last + 1) × (to ≡ number - 1)
unfolding missed_blocks
missed_blocks-some last number from to e = elim (Bool-cases (ltb (last + 1) number)) [
  | inl behind ↦
      let gap : some (last + 1, number - 1) ≡ some (from, to) =
        sym (rw (behind, missed_blocks) refl) ∙ e in
      (gap-bound last number behind, cc gap, cc gap)
  | inr next ↦ cc (e, next)
]

module _ (source : BlockSource) (config : ChainMonitorConfig) (chain_id : ℕ) (ledger : Ledger)
    (watched : Watched) (first : ℕ) (natives tokens : List PaymentDetected) where
  abbrev At : ℕ → ChainMonitor → Type 0
  At block s = IsAt source config chain_id ledger watched first natives tokens block s

  -- The cursor is at a block up to `top`.
  abbrev pub IsUpTo : ℕ → ChainMonitor → Type 0
  IsUpTo top s = (block : ℕ) × (block ≤ top) × At block s

  abbrev between : ℕ → ℕ → List PaymentDetected
  between from count =
      natives_in source config chain_id ledger watched from count
      ++ tokens_in source config chain_id ledger watched from count

  abbrev cursor_at : ℕ → ℕ → ChainMonitor → ChainMonitor
  cursor_at next hash s = record s { last_block = some next; last_block_hash = some hash }

  -- After the payments up to `next` are reported, the cursor may move there.
  report :
      {B : Type 0} (k : M B) {R : EvmResult B × ChainMonitor → Type 0} {block : ℕ}
      (es : List PaymentDetected) (next hash : ℕ)
      → block ≤ next
      → map erase es ≡ between (block + 1) (next - block)
      → ((s : ChainMonitor) → At next (cursor_at next hash s) → R (k s))
      → Leads (At block) (record_all es >> k) R
  report {B} k {R} {block} es next hash ahead found go = record {
    run = λ s at. back R (bind-run (record_all es) (λ _. k) s (record_all-run es s)) (
        go _ (
          advance source config chain_id ledger watched first natives tokens es next hash at ahead
            found));
  }

  one_block : (number : ℕ) → number + 1 - number ≡ 1
  one_block number = omega arith

  natives_in-one :
      (number : ℕ)
      → natives_in source config chain_id ledger watched number 1 ≡ (
          if config.monitor_native
          then native_payments source config chain_id watched number (ledger.transfers number)
          else [])
  natives_in-one number =
      ap (λ xs. if config.monitor_native then xs else [])
        (append-nil
          (native_payments source config chain_id watched number (ledger.transfers number)))

  -- A gap is filled when the cursor is at the block before `number`.
  abbrev IsFilled : ℕ → EvmResult Bool × ChainMonitor → Type 0
  IsFilled number (r, s) =
      (block : ℕ) × (block < number) × At block s × (r ≡ ok true → block + 1 ≡ number)

  count_one : (last number : ℕ) → last + 1 ≡ number → number - last ≡ 1
  count_one last number next = omega (arith, next)

  -- What is found in one block is all between the one before it and it.
  here-between :
      (last number : ℕ)
      → last + 1 ≡ number
      → (if config.monitor_native
            then native_payments source config chain_id watched number (ledger.transfers number)
            else [])
          ++ (if config.monitor_erc20
              then token_payments source config chain_id watched
                  (logs_in ledger number (number + 1 - number))
              else [])
        ≡ between (last + 1) (number - last)
  here-between last number next =
      rw (next, count_one last number next, one_block number, natives_in-one number)

  keep : {block : ℕ} (s t : ChainMonitor) → IsSame s t → At block s → At block t
  keep s t same at = IsSame-IsAt source config chain_id ledger watched first natives tokens same at

  module _ (truthful : IsTruthful source ledger) where
    scan_block-IsUpTo :
        (block : BlockNotification) (last : ℕ)
        → last + 1 ≡ block.number
        → Leads
            (At last)
            (scan_block source config chain_id watched block)
            (λ r. IsUpTo block.number r.1)
    unfolding scan_block move_cursor
    scan_block-IsUpTo block last next =
        let failed : (e : EvmError) (s : ChainMonitor) → At last s → IsUpTo block.number s =
          λ e s at. (last, omega (arith, next), at) in
        lead_read keep failed
          (read_when config.monitor_native _ (
            check_native_payments-Reads source config chain_id ledger truthful watched block.number
              block.hash))
          (λ ns found.
            lead_read keep failed
              (read_when config.monitor_erc20 _ (
                check_erc20_payments-Reads source config chain_id ledger truthful watched
                  block.number block.number))
              (λ ts found'.
                report (move_cursor block.number block.hash) (ns ++ ts) block.number block.hash
                  (omega (arith, next))
                  (map-append erase ns ts
                    ∙ cc (found, found')
                    ∙ here-between last block.number next)
                  (λ s at. (block.number, omega arith, at))))

    -- A chunk is of at most `backfill_max_blocks` blocks from `last` on.
    backfill_chunk-IsFilled :
        (last number : ℕ)
        → last + 1 < number
        → Leads
            (At last)
            (backfill_chunk source config chain_id watched (last + 1) (number - 1))
            (IsFilled number)
    unfolding backfill_chunk move_cursor
    backfill_chunk-IsFilled last number behind =
        let next = min (number - 1) (last + 1 + backfill_max_blocks - 1) in
        lead_read keep (λ e s at. (last, omega (arith, behind), at, λ done. cc done))
          (backfill_missed_blocks-Reads source config chain_id ledger truthful watched (last + 1)
            next)
          (λ (es, hash) found.
            report (move_cursor next hash >> pure (not (ltb next (number - 1)))) es next hash
              (omega arith) (found ∙ ap (between (last + 1)) (omega arith))
              (λ s at. (
                next,
                omega (arith, behind),
                at,
                reached next (number - 1) number (omega arith) (omega (arith, behind)),
              )))

    fill_gap-IsFilled :
        (last number : ℕ) (missed : Option (ℕ × ℕ))
        → missed_blocks (some last) number ≡ missed
        → last < number
        → Leads (At last) (fill_gap source config chain_id watched missed) (IsFilled number)
    unfolding fill_gap missed_blocks
    fill_gap-IsFilled last number none e ahead = record {
      run = λ s at. (last, ahead, at, λ _. ground (arith, e, ahead));
    }
    fill_gap-IsFilled last number (some (from, to)) e ahead =
        let (behind, from_next, to_before) = missed_blocks-some last number from to e in
        rw (from_next, to_before) (backfill_chunk-IsFilled last number behind)

    scan_if-IsUpTo :
        (block : BlockNotification) (filled : Bool)
        → Leads
            (λ t. IsFilled block.number (ok filled, t))
            (if filled then scan_block source config chain_id watched block else pure tt)
            (λ r. IsUpTo block.number r.1)
    scan_if-IsUpTo block true = record {
      run = λ t (last, ahead, at, done). (scan_block-IsUpTo block last (done refl)).run t at;
    }
    scan_if-IsUpTo block false = record {
      run = λ t (last, ahead, at, done). (last, omega (arith, ahead), at);
    }

    scan_watched-IsUpTo :
        (block : BlockNotification) (last : ℕ)
        → last < block.number
        → Leads
            (At last)
            (scan_watched source config chain_id watched
              (missed_blocks (some last) block.number)
              block)
            (λ r. IsUpTo block.number r.1)
    unfolding scan_watched move_cursor record_all
    scan_watched-IsUpTo block last ahead =
        lead_if (is_empty watched)
          (λ nobody.
            report (move_cursor block.number block.hash) [] block.number block.hash
              (omega (arith, ahead))
              (sym (
                between-nobody source config chain_id ledger watched (last + 1)
                  (block.number - last) nobody))
              (λ s at. (block.number, omega arith, at)))
          (λ somebody.
            lead_bind
              (fill_gap-IsFilled last block.number (missed_blocks (some last) block.number) refl
                ahead)
              (λ e t (reached, ahead', at, done). (reached, omega (arith, ahead'), at))
              (scan_if-IsUpTo block))

    scan_arrival-IsUpTo :
        (block : BlockNotification) (last : ℕ)
        → last < block.number
        → Leads (At last) (scan_arrival source config chain_id block) (λ r. IsUpTo block.number r.1)
    unfolding scan_arrival
    scan_arrival-IsUpTo block last ahead = record {
      run = λ s at.
          back
            (λ w.
              IsUpTo block.number
                (scan_watched source config chain_id w (missed_blocks s.last_block block.number)
                  block s).1)
            at.same
            (back
              (λ o.
                IsUpTo block.number
                  (scan_watched source config chain_id watched (missed_blocks o block.number) block
                    s).1)
              at.cursor ((scan_watched-IsUpTo block last ahead).run s at));
    }

    pub process_block-IsUpTo :
        (block : BlockNotification) (last : ℕ)
        → last < block.number
        → Leads
            (At last)
            (process_block source config chain_id block)
            (λ r. IsUpTo block.number r.1)
    unfolding process_block
    process_block-IsUpTo block last ahead = record {
      run = λ s at.
          (lead_read {R = λ r. IsUpTo block.number r.1} keep
              (λ e t at'. (last, omega (arith, ahead), at'))
              (check_reorg-IsSilent source config chain_id block s.last_block_hash s.last_block)
              (λ _ _. scan_arrival-IsUpTo block last ahead)).run
            s at;
    }
