-- ===== src/Monitor/Pending/Loop.antt =====
-- The pending payments over the whole event loop, and each count of their confirmations.
use ethpayserver.Base.{
  ℕ, ◌+◌, ◌-◌, min, ltb, not, ◌≡◌, refl, true, Option, none, some, List, [], ◌∷◌, ◌++◌, map,
  is_empty,
}
use ethpayserver.Base.Int.{ℤ}
use ethpayserver.Event.{PaymentDetected, tx_index, monitor_error, monitor_stopped}
use ethpayserver.Monitor.State.{
  EvmError, EvmResult, ok, err, BlockNotification, BlockSource, ChainMonitorConfig, Watched,
  Pending, ChainMonitor, M, ◌>>=◌, lift, ask, send,
}
use ethpayserver.Monitor.Scan.{
  track_at, track, record_detected, record_all, move_cursor, backfill_max_blocks, backfill_chunk,
}
use ethpayserver.Monitor.Blocks.{
  fill_gap, missed_blocks, scan_block, scan_watched, scan_arrival, process_block,
}
use ethpayserver.Monitor.Confirmations.{update_one, confirm_pending, check_confirmations}
use ethpayserver.Monitor.Lifecycle.{Input, block_arrived, stream_failed, tick, begin, step, run}
use ethpayserver.Monitor.Reads.{detected, IsSame, read_send, Leads, lead_bind, lead_if}
use ethpayserver.Monitor.Coverage.Silent.{
  IsSilent, if-IsSilent, pure-IsSilent, mark_block-IsSilent, check_confirmations-Leads,
  resubscribe_if_stalled-IsSilent, check_reorg-IsSilent,
}
use ethpayserver.Monitor.Coverage.Quiet.{
  check_native_payments-IsSilent, check_erc20_payments-IsSilent, backfill_missed_blocks-IsSilent,
}
use ethpayserver.Monitor.Coverage.Loop.{lead_on_error}
use ethpayserver.Monitor.Pending.{
  AreDistinct, insert-AreDistinct, remove_each-AreDistinct, update-AreDistinct, counted,
  confirm_pending-run,
}

abbrev IsKeyed : ChainMonitor → Type 0
IsKeyed s = AreDistinct s.pending

-- The action leaves one entry for each key.
abbrev Keeps : {A : Type 0} → M A → Type 0
Keeps {A} m = Leads {A = A} IsKeyed m (λ r. IsKeyed r.1)

same-IsKeyed : (s t : ChainMonitor) → IsSame s t → IsKeyed s → IsKeyed t
same-IsKeyed s t same keyed = rw same.pending keyed

silent-Keeps : {A : Type 0} {m : M A} → IsSilent m → Keeps m
silent-Keeps {A} {m} quiet = record { run = λ s keyed. same-IsKeyed s _ (quiet.silent s) keyed }

keep_bind :
    {A B : Type 0} {m : M A} {f : A → M B} → Keeps m → ((a : A) → Keeps (f a)) → Keeps (m >>= f)
keep_bind km kf = lead_bind km (λ e t keyed. keyed) kf

track_at-AreDistinct :
    (e : PaymentDetected) (index : Option ℤ) (pending : Pending)
    → AreDistinct pending
    → AreDistinct (track_at e index pending)
unfolding track_at
track_at-AreDistinct e none pending distinct = distinct
track_at-AreDistinct e (some index) pending distinct =
    insert-AreDistinct (e.tx_hash, index) e pending distinct

track-AreDistinct :
    (e : PaymentDetected) (pending : Pending) → AreDistinct pending → AreDistinct (track e pending)
unfolding track
track-AreDistinct e pending distinct = track_at-AreDistinct e (tx_index e) pending distinct

record_detected-Keeps : (e : PaymentDetected) → Keeps (record_detected e)
unfolding record_detected send
record_detected-Keeps e = record { run = λ s keyed. track-AreDistinct e s.pending keyed }

record_all-Keeps : (es : List PaymentDetected) → Keeps (record_all es)
unfolding record_all
record_all-Keeps [] = silent-Keeps (pure-IsSilent tt)
record_all-Keeps (e ∷ es) = keep_bind (record_detected-Keeps e) (λ _. record_all-Keeps es)

move_cursor-Keeps : (number hash : ℕ) → Keeps (move_cursor number hash)
unfolding move_cursor
move_cursor-Keeps number hash = record { run = λ s keyed. keyed }

check_confirmations-Keeps : (source : BlockSource) → Keeps (check_confirmations source)
check_confirmations-Keeps source =
    check_confirmations-Leads source same-IsKeyed (λ s current keys keyed.
      remove_each-AreDistinct keys (map (update_one current) s.pending)
        (update-AreDistinct current s.pending keyed))

module _ (source : BlockSource) (config : ChainMonitorConfig) (chain_id : ℕ) where
  fill_gap-Keeps :
      (watched : Watched) (missed : Option (ℕ × ℕ))
      → Keeps (fill_gap source config chain_id watched missed)
  unfolding fill_gap backfill_chunk
  fill_gap-Keeps watched none = silent-Keeps (pure-IsSilent true)
  fill_gap-Keeps watched (some (from, to)) =
      let next = min to (from + backfill_max_blocks - 1) in
      keep_bind
        (silent-Keeps (backfill_missed_blocks-IsSilent source config chain_id watched from next))
        (λ (es, hash). keep_bind (record_all-Keeps es) (λ _.
          keep_bind (move_cursor-Keeps next hash)
            (λ _. silent-Keeps (pure-IsSilent (not (ltb next to))))))

  scan_block-Keeps :
      (watched : Watched) (block : BlockNotification)
      → Keeps (scan_block source config chain_id watched block)
  unfolding scan_block
  scan_block-Keeps watched block =
      keep_bind
        (silent-Keeps (
          if-IsSilent config.monitor_native
            (check_native_payments-IsSilent source config chain_id watched block.number block.hash)
            (pure-IsSilent [])))
        (λ ns.
          keep_bind
            (silent-Keeps (
              if-IsSilent config.monitor_erc20
                (check_erc20_payments-IsSilent source config chain_id watched block.number
                  block.number)
                (pure-IsSilent [])))
            (λ ts.
              keep_bind (record_all-Keeps (ns ++ ts))
                (λ _. move_cursor-Keeps block.number block.hash)))

  scan_watched-Keeps :
      (watched : Watched) (missed : Option (ℕ × ℕ)) (block : BlockNotification)
      → Keeps (scan_watched source config chain_id watched missed block)
  unfolding scan_watched
  scan_watched-Keeps watched missed block =
      lead_if (is_empty watched) (λ _. move_cursor-Keeps block.number block.hash)
        (λ _. keep_bind (fill_gap-Keeps watched missed) (λ filled.
          lead_if filled (λ _. scan_block-Keeps watched block)
            (λ _. silent-Keeps (pure-IsSilent tt))))

  scan_arrival-Keeps :
      (block : BlockNotification) → Keeps (scan_arrival source config chain_id block)
  unfolding scan_arrival
  scan_arrival-Keeps block = record {
    run = λ t keyed.
        (scan_watched-Keeps t.watched (missed_blocks t.last_block block.number) block).run t keyed;
  }

  process_block-Keeps :
      (block : BlockNotification) → Keeps (process_block source config chain_id block)
  unfolding process_block
  process_block-Keeps block = record {
    run = λ s keyed.
        (keep_bind
            (silent-Keeps
              (check_reorg-IsSilent source config chain_id block s.last_block_hash s.last_block))
            (λ _. scan_arrival-Keeps block)).run
          s keyed;
  }

  step-Keeps :
      (show : EvmError → List ℕ) (input : Input) → Keeps (step source config chain_id show input)
  unfolding step detected
  step-Keeps show (block_arrived block) = keep_bind (silent-Keeps mark_block-IsSilent) (λ _.
      lead_on_error (λ e. silent-Keeps (read_send (monitor_error chain_id (show e)) refl))
        (process_block-Keeps block))
  step-Keeps show (stream_failed e) = silent-Keeps (pure-IsSilent tt)
  step-Keeps show tick =
      keep_bind
        (lead_on_error (λ e. silent-Keeps (pure-IsSilent tt)) (check_confirmations-Keeps source))
        (λ _.
          lead_on_error (λ e. silent-Keeps (pure-IsSilent tt))
            (silent-Keeps (resubscribe_if_stalled-IsSilent source config chain_id)))

  begin-Keeps : (time : ℕ) → Keeps (begin time)
  begin-Keeps time = record { run = λ s keyed. keyed }

  run-Keeps :
      (show : EvmError → List ℕ) (inputs : List (ℕ × Input))
      → Keeps (run source config chain_id show inputs)
  unfolding run detected
  run-Keeps show [] = silent-Keeps (read_send (monitor_stopped chain_id) refl)
  run-Keeps show ((time, input) ∷ inputs) =
      keep_bind (keep_bind (begin-Keeps time) (λ _. step-Keeps show input))
        (λ _. run-Keeps show inputs)

-- Over any inputs and whatever the node answers: no two pending payments share their transaction and index.
pub run-AreDistinct :
    (source : BlockSource) (config : ChainMonitorConfig) (chain_id : ℕ) (show : EvmError → List ℕ)
    (inputs : List (ℕ × Input)) (s : ChainMonitor)
    → AreDistinct s.pending
    → AreDistinct (run source config chain_id show inputs s).1.pending
run-AreDistinct source config chain_id show inputs s distinct =
    (run-Keeps source config chain_id show inputs).run s distinct

-- What a count of confirmations comes to, by the node's answer.
abbrev pub count_at : EvmResult ℕ → ChainMonitor → EvmResult (Unit {0}) × ChainMonitor
count_at (ok current) s = (ok tt, counted current s)
count_at (err e) s = (err e, s)

count_at-run :
    (answer : EvmResult ℕ) (s : ChainMonitor)
    → AreDistinct s.pending
    → (lift answer >>= confirm_pending) s ≡ count_at answer s
count_at-run (ok current) s distinct = confirm_pending-run current s distinct
count_at-run (err e) s distinct = refl

-- The pending payments that have reached their depth at the node's block are confirmed, each once and with
-- the count of its confirmations, and leave; the others stay with their new count. Where the node
-- does not answer, nothing but the count of calls changes.
pub check_confirmations-exact :
    (source : BlockSource) (s : ChainMonitor)
    → AreDistinct s.pending
    → check_confirmations source s
      ≡ count_at (source.get_block_number s.asked) (record s { asked = s.asked + 1 })
unfolding check_confirmations ask
check_confirmations-exact source s distinct =
    count_at-run (source.get_block_number s.asked) (record s { asked = s.asked + 1 }) distinct
