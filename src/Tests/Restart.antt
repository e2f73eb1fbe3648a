-- ===== src/Tests/Restart.antt =====
-- A consumer that is started again.
use ethpayserver.Base.{
  ◌==◌, some, true, ◌+◌, ◌≡◌, ◌≢◌, ◌≤◌, arith, refl, false, none, [], ◌∷◌, length,
}
use ethpayserver.Event.{MonitorEvent, monitor_started}
use ethpayserver.Outbox.{EventEnvelope, Outbox, new_inner, publish, oldest_retained, trim_to}
use ethpayserver.Database.Rows.{World}
use ethpayserver.Database.Monad.{M, call}
use ethpayserver.Database.Cursors.{commit_chain_cursor, commit_row, moves}
use ethpayserver.Consumer.Resume.{
  handle_event, consume, apply_envelope, apply_or_skip, after_commit, add_applied, is_skipped, Run,
}
use ethpayserver.Consumer.Resume.Applied.{AreApplied, IsEnd, consume-AreApplied}
use ethpayserver.Consumer.Resume.Restart.{IsPickedUp, restart-resumes}
use ethpayserver.Consumer.Invariants.Cursors.{handle_event-cursors}
use ethpayserver.Tests.Fixed.{fixed}
use ethpayserver.Tests.Shop.{services, operator, shop}

abbrev handle : MonitorEvent → M (Unit {0})
handle = handle_event fixed services none

abbrev begun : EventEnvelope
begun = record {
  chain_id = 8453;
  cursor = record { epoch = 7; seq = 0; block_height = 0 };
  event = monitor_started 8453;
}

abbrev run : Run
run = consume handle operator 7 (begun ∷ []) [] shop

-- The outbox went on while the consumer was down.
abbrev outbox : Outbox
outbox = publish (monitor_started 1) (publish (monitor_started 8453) (new_inner 7 none))

run-applied : run.applied ≡ begun ∷ []
unfolding consume add_applied apply_envelope apply_or_skip after_commit handle_event is_skipped
    commit_chain_cursor commit_row moves call
run-applied = refl

run-calls : run.world.down run.world.calls ≡ false
unfolding consume add_applied apply_envelope apply_or_skip after_commit handle_event is_skipped
    commit_chain_cursor commit_row moves call
run-calls = refl

some_applied : run.applied ≢ []
some_applied none_there = cc (run-applied, none_there)

run-kept : oldest_retained outbox ≤ 0 + length run.applied
unfolding oldest_retained publish new_inner trim_to
run-kept = rw run-applied (omega arith)

run-known : 1 ≤ outbox.next_seq
unfolding publish new_inner
run-known = omega arith

same_epoch : outbox.epoch ≡ 7
unfolding publish new_inner
same_epoch = refl

restart-resumes_example :
    IsPickedUp handle operator 7
      (handle_event-cursors fixed services none)
      outbox
      (0 + length run.applied)
      run
restart-resumes_example =
    restart-resumes handle operator 7 (handle_event-cursors fixed services none) 0 1 (begun ∷ []) []
      shop outbox (refl, refl) refl tt some_applied same_epoch run-kept run-known run-calls

consume-AreApplied_example :
    (last : World) × AreApplied handle operator 7 run.applied shop last
    × IsEnd handle operator 7 run.halted last run.world
consume-AreApplied_example = consume-AreApplied handle operator 7 (begun ∷ []) [] shop

-- The answer to the first call is lost: it is the commit of the first event.
abbrev lost_answer : World
lost_answer = record shop { down = λ n. n == 0; lost = λ n. true }

-- The consumer stops at the event, whose position is stored.
lost_answer-halted : (consume handle operator 7 (begun ∷ []) [] lost_answer).halted ≡ some begun
unfolding consume add_applied apply_envelope apply_or_skip after_commit handle_event is_skipped
    commit_chain_cursor commit_row moves call
lost_answer-halted = refl

lost_answer-stored :
    (consume handle operator 7 (begun ∷ []) [] lost_answer).world.cursors
    ≡ (8453, record { epoch = 7; seq = 0; block_height = 0 }) ∷ []
unfolding consume add_applied apply_envelope apply_or_skip after_commit handle_event is_skipped
    commit_chain_cursor commit_row moves call
lost_answer-stored = refl
