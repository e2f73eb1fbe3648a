-- ===== src/Consumer/Resume.antt =====
-- The loop of the event consumer and its resume cursors,
-- server/src/services/event_consumer/mod.rs. The loop is stated for any handler of an event;
-- `handle_event` is the program's. What the source reports by `fatal` or `halt` ends the run.
pub mod Exact
pub mod Applied
pub mod Restart
use ethpayserver.Base.{
  ℕ, ◌+◌, Bool, true, false, not, Option, none, some, List, [], ◌∷◌, ◌&&◌, ◌||◌, ◌==◌, any, filter,
  map, is_empty, max, if◌then◌else◌,
}
use ethpayserver.Base.Dict.{Dict, insert, remove}
use ethpayserver.External.{Crates}
use ethpayserver.Event.{
  MonitorEvent, payment_detected, payment_confirmed, reorg_detected, monitor_started,
  monitor_stopped, monitor_error, address_watched, address_unwatched, status_report,
}
use ethpayserver.Outbox.{
  EventCursor, EventEnvelope, Outbox, Subscription, Subscribed, out_of_range, subscribed,
  subscribe_from,
}
use ethpayserver.Database.Rows.{ChainCursor, World}
use ethpayserver.Database.Monad.{Result, ok, err, M, pure, ◌>>=◌, ◌>>◌}
use ethpayserver.Database.Cursors.{
  chain_cursors, commit_chain_cursor, delete_chain_cursor, reset_chain_watch_notifications,
}
use ethpayserver.Cleanup.{check_expired}
use ethpayserver.Consumer.Services.{Services}
use ethpayserver.Consumer.Detected.{handle_payment_detected}
use ethpayserver.Consumer.Confirmed.{handle_payment_confirmed}
use ethpayserver.Consumer.Reorg.{handle_reorg_detected}

unfoldable pub trigger_expiration_check : Option Services → M (Unit {0})
trigger_expiration_check none = pure tt
trigger_expiration_check (some cleanup) = check_expired cleanup >> pure tt

-- The services of the consumer, and those of its cleanup service where it has one.
unfoldable pub handle_event : Crates → Services → Option Services → MonitorEvent → M (Unit {0})
unfolding trigger_expiration_check
handle_event x s cleanup (payment_detected e) = handle_payment_detected x s e
handle_event x s cleanup (payment_confirmed e) = handle_payment_confirmed x s e
handle_event x s cleanup (reorg_detected e) = handle_reorg_detected x s e
handle_event x s cleanup (monitor_started _) = pure tt
handle_event x s cleanup (monitor_stopped _) = pure tt
handle_event x s cleanup (monitor_error _ _) = pure tt
handle_event x s cleanup (address_watched _) = pure tt
handle_event x s cleanup (address_unwatched _) = pure tt
handle_event x s cleanup (status_report _) = trigger_expiration_check cleanup

-- The operator's settings: `accept_lineage_break` and `skip_events`.
pub record Operator : Type 0 where
  pub accept_lineage_break : Bool
  pub skip_events : List (ℕ × ℕ × ℕ)

abbrev pub Cursors : Type 0
Cursors = Dict ChainCursor

abbrev pub is_stale : ℕ → ℕ × ChainCursor → Bool
is_stale epoch (_, c) = not (c.epoch == epoch)

abbrev pub chain_of : ℕ × ChainCursor → ℕ
chain_of (k, _) = k

unfoldable pub mismatched : ℕ → Cursors → List ℕ
mismatched epoch cursors = map chain_of (filter (is_stale epoch) cursors)

-- `cursors.values().map(|c| c.seq).max()`.
unfoldable pub max_seq : Cursors → Option ℕ
max_seq [] = none
max_seq ((_, c) ∷ rest) =
    let above = max_seq rest in elim above [ none ↦ some c.seq | some m ↦ some (max c.seq m) ]

-- Whether every chain was re-armed and forgotten, with the cursors that are left.
unfoldable pub forget : ℕ → Cursors → Result (Unit {0}) × World → Bool × Cursors × World
forget chain cursors (ok _, w) = (true, remove chain cursors, w)
forget chain cursors (err _, w) = (false, cursors, w)

unfoldable pub rearm : ℕ → Cursors → World → Bool × Cursors × World
unfolding forget
rearm chain cursors w =
    forget chain cursors ((reset_chain_watch_notifications chain >> delete_chain_cursor chain) w)

unfoldable pub break_lineage : List ℕ → Cursors → World → Bool × Cursors × World
unfolding rearm
break_lineage [] cursors w = (true, cursors, w)
break_lineage (chain ∷ chains) cursors w =
    let (rearmed, kept, w') = rearm chain cursors w in
    let (all_rearmed, left, w'') = break_lineage chains kept w' in
    (rearmed && all_rearmed, left, w'')

-- `Err(())`, or where to resume.
pub data Reconciled : Type 0 where
  stopped : Reconciled
  resume_from : Option EventCursor → Reconciled

unfoldable pub resume_cursor : ℕ → Option ℕ → Option EventCursor
resume_cursor epoch none = none
resume_cursor epoch (some seq) = some (record { epoch = epoch; seq = seq; block_height = 0 })

unfoldable pub reconcile_cursors : Operator → ℕ → Cursors → World → Reconciled × Cursors × World
unfolding mismatched break_lineage resume_cursor
reconcile_cursors op epoch cursors w =
    if is_empty cursors
    then (resume_from none, cursors, w)
    else (let stale = mismatched epoch cursors in
        if not (is_empty stale) && not op.accept_lineage_break
        then (stopped, cursors, w)
        else (let (rearmed, left, w') = break_lineage stale cursors w in
            if rearmed
            then (resume_from (resume_cursor epoch (max_seq left)), left, w')
            else (stopped, left, w')))

abbrev is_listed : ℕ → ℕ → ℕ → ℕ × ℕ × ℕ → Bool
is_listed chain epoch seq (c, e, s) = c == chain && e == epoch && s == seq

unfoldable pub is_skipped : Operator → EventEnvelope → Bool
is_skipped op v = any (is_listed v.chain_id v.cursor.epoch v.cursor.seq) op.skip_events

unfoldable pub committed : ℕ → EventEnvelope → ChainCursor
committed epoch v = record {
  epoch = epoch;
  seq = v.cursor.seq;
  block_height = v.cursor.block_height;
}

-- The consumer stopped at an envelope, with those applied before it, or ran to the end.
pub record Run : Type 0 where
  pub applied : List EventEnvelope
  pub halted : Option EventEnvelope
  pub cursors : Cursors
  pub world : World

module _ (handle : MonitorEvent → M (Unit {0})) (op : Operator) (epoch : ℕ) where
  unfoldable pub apply_or_skip : EventEnvelope → M (Unit {0})
  apply_or_skip v = if is_skipped op v then pure tt else handle v.event

  unfoldable pub after_commit :
      EventEnvelope → Cursors → Result (Unit {0}) × World → Bool × Cursors × World
  unfolding committed
  after_commit v cursors (ok _, w) = (true, insert v.chain_id (committed epoch v) cursors, w)
  after_commit v cursors (err _, w) = (false, cursors, w)

  unfoldable pub apply_envelope : EventEnvelope → Cursors → World → Bool × Cursors × World
  unfolding apply_or_skip after_commit
  apply_envelope v cursors w =
      after_commit v cursors
        ((apply_or_skip v >> commit_chain_cursor v.chain_id (committed epoch v)) w)

  unfoldable pub add_applied : EventEnvelope → Run → Run
  add_applied v r = record r { applied = v ∷ r.applied }

  -- The `while let` of `run`.
  unfoldable pub consume : List EventEnvelope → Cursors → World → Run
  unfolding add_applied
  consume [] cursors w = record { applied = []; halted = none; cursors = cursors; world = w }
  consume (v ∷ vs) cursors w =
      let (applied, cursors', w') = apply_envelope v cursors w in
      let rest = add_applied v (consume vs cursors' w') in
      if applied
      then rest
      else record { applied = []; halted = some v; cursors = cursors'; world = w' }

-- The part of `run` before the loop: the stored cursors, reconciled with the outbox, decide where
-- the stream starts.
pub data Started : Type 0 where
  fatal : World → Started
  started : Subscription → Cursors → World → Started

unfoldable pub open_stream : Subscribed → Cursors → World → Started
open_stream out_of_range cursors w = fatal w
open_stream (subscribed reader) cursors w = started reader cursors w

unfoldable pub start_at : Outbox → Reconciled × Cursors × World → Started
unfolding open_stream
start_at o (stopped, cursors, w) = fatal w
start_at o (resume_from cursor, cursors, w) = open_stream (subscribe_from cursor o) cursors w

unfoldable pub start_with : Operator → Outbox → Result Cursors × World → Started
unfolding start_at reconcile_cursors
start_with op o (err _, w) = fatal w
start_with op o (ok cursors, w) = start_at o (reconcile_cursors op o.epoch cursors w)

unfoldable pub start : Operator → Outbox → World → Started
unfolding start_with
start op o w = start_with op o (chain_cursors w)
