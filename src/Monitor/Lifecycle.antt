-- ===== src/Monitor/Lifecycle.antt =====
-- Watching, health and the event loop: evm/src/monitor/chain/lifecycle.rs and mod.rs.
-- The loop takes what `select!` delivers to it as a list of inputs, each with the clock at its time.
use ethpayserver.Base.{
  ℕ, ◌+◌, ◌-◌, Bool, true, false, not, Option, none, some, List, [], ◌∷◌, leb, length, ◌&&◌, ◌||◌,
  if◌then◌else◌,
}
use ethpayserver.Event.{monitor_started, monitor_stopped, monitor_error}
use ethpayserver.Monitor.State.{
  EvmError, monitor, EvmResult, ok, err, BlockNotification, SourceStatus, connected, connecting,
  disconnected, failed, BlockSource, ChainMonitorConfig, WatchedAddress, ChainMonitor, M, pure,
  throw, ◌>>=◌, ◌>>◌, ask, send, eq_watch, lookup, insert, remove,
}
use ethpayserver.Monitor.Confirmations.{check_confirmations}
use ethpayserver.Monitor.Blocks.{process_block}

unfoldable pub watch : WatchedAddress → M (Unit {0})
watch watched s = (
  ok tt,
  record s {
    watched = insert eq_watch (watched.address, watched.token_contract) watched s.watched;
  },
)

unfoldable pub unwatch : ℕ → Option ℕ → M (Option WatchedAddress)
unwatch address token_contract s = (
  ok (lookup eq_watch (address, token_contract) s.watched),
  record s { watched = remove eq_watch (address, token_contract) s.watched },
)

pub record ChainHealth : Type 0 where
  pub status : SourceStatus
  pub current_block : Option ℕ
  pub last_processed_block : Option ℕ
  pub watched_addresses : ℕ
  pub is_healthy : Bool

abbrev pub is_connected : SourceStatus → Bool
is_connected connected = true
is_connected connecting = false
is_connected disconnected = false
is_connected failed = false

-- At most 10 blocks behind; a monitor that has not processed a block counts as keeping up.
unfoldable pub keeps_up : Option ℕ → Option ℕ → Bool
keeps_up (some current) (some last) = leb (current - last) 10
keeps_up (some current) none = true
keeps_up none last = false

abbrev pub ok_or_none {ℓ} : {A : Type ℓ} → EvmResult A → Option A
ok_or_none (ok a) = some a
ok_or_none (err e) = none

unfoldable pub get_health : BlockSource → M ChainHealth
unfolding keeps_up
get_health source s =
    let status = source.status s.asked in
    let current_block = ok_or_none (source.get_block_number s.asked) in
    (
      ok (record {
        status = status;
        current_block = current_block;
        last_processed_block = s.last_block;
        watched_addresses = length s.watched;
        is_healthy = is_connected status && keeps_up current_block s.last_block;
      }),
      record s { asked = s.asked + 1 },
    )

abbrev pub mark_block : M (Unit {0})
mark_block s = (ok tt, record s { last_block_at = s.now })

-- The head of an iteration: the time is now `time`.
abbrev pub begin : ℕ → M (Unit {0})
begin time s = (ok tt, record s { now = time; loop_alive_at = time })

-- A failed block stream carries its error.
pub data Input : Type 0 where
  block_arrived : BlockNotification → Input
  stream_failed : EvmError → Input
  tick : Input

unfoldable pub on_error : (EvmError → M (Unit {0})) → M (Unit {0}) → M (Unit {0})
on_error handler m s = let (r, s') = m s in elim r [ ok _ ↦ (ok tt, s') | err e ↦ handler e s' ]

module _ (source : BlockSource) (config : ChainMonitorConfig) (chain_id : ℕ) where
  -- `disconnected || stalled`.
  unfoldable pub is_stalled : ChainHealth → ChainMonitor → Bool
  is_stalled health s =
      not (is_connected health.status) || leb config.stall_timeout_secs (s.now - s.last_block_at)

  -- `subscribe_blocks` replaces the stream; the new stream is what later inputs come from.
  unfoldable pub resubscribe_if_stalled : M (Unit {0})
  unfolding get_health is_stalled
  resubscribe_if_stalled s =
      (do
        health ← get_health source
        if is_stalled health s then ask source.subscribe_blocks >> mark_block else pure tt)
        s

  -- One iteration of the loop in `start`; `show` is the error's `to_string`.
  unfoldable pub step : (EvmError → List ℕ) → Input → M (Unit {0})
  unfolding on_error process_block check_confirmations resubscribe_if_stalled
  step show (block_arrived block) =
      mark_block
      >> on_error (λ e. send (monitor_error chain_id (show e)))
          (process_block source config chain_id block)
  step show (stream_failed e) = pure tt
  step show tick =
      on_error (λ e. pure tt) (check_confirmations source)
      >> on_error (λ e. pure tt) resubscribe_if_stalled

  unfoldable pub run : (EvmError → List ℕ) → List (ℕ × Input) → M (Unit {0})
  unfolding step
  run show [] = send (monitor_stopped chain_id)
  run show ((time, input) ∷ inputs) = begin time >> step show input >> run show inputs

  -- The inputs end at the shutdown signal. `first` says whether its receiver was still there.
  unfoldable pub start : (EvmError → List ℕ) → Bool → List (ℕ × Input) → M (Unit {0})
  unfolding run
  start show false inputs = throw monitor
  start show true inputs =
      ask source.subscribe_blocks
      >> mark_block
      >> send (monitor_started chain_id)
      >> run show inputs
