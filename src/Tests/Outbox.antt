-- ===== src/Tests/Outbox.antt =====
-- Runs of the outbox and its reader.
use ethpayserver.Base.{All, List, ℕ, ◌≤◌, ◌<◌, ◌≡◌, refl, ◌⊎◌, some, List, [], ◌++◌}
use ethpayserver.Event.{MonitorEvent, monitor_started, status_report}
use ethpayserver.Outbox.{
  Subscription, EventEnvelope, EventCursor, EventEnvelope, Outbox, new_inner, publish,
  oldest_retained, Subscription, subscribe_from, out_of_range, subscribed, gap, yielded, poll, trim,
  trim_to, missed, advance,
}
use ethpayserver.Outbox.Resume.{
  Runs, IsValid, new_inner-IsValid, publish-IsValid, subscribe_from_held, at,
}
use ethpayserver.Outbox.Trace.{Session, publishing, reading, Reach, here, next, resume_complete}

abbrev report : MonitorEvent
report = status_report (record {
  chain_id = 8453;
  watched_count = 2;
  current_block = 100;
  addresses = [];
  reported_at = 1700000000;
})

-- Three events, two of them retained.
abbrev pub three : Outbox
three =
    publish report
      (publish (monitor_started 8453) (publish (monitor_started 1) (new_inner 7 (some 2))))

pub three-IsValid : IsValid three
three-IsValid = publish-IsValid report _ (
    publish-IsValid (monitor_started 8453) _
      (publish-IsValid (monitor_started 1) _ (new_inner-IsValid 7 (some 2))))

abbrev applied : EventCursor
applied = record { epoch = 7; seq = 0; block_height = 0 }

abbrev resumed : Subscription
resumed = record { next_seq = 1; expected_seq = some 1 }

resumed_at : subscribe_from (some applied) three ≡ subscribed resumed
unfolding subscribe_from publish new_inner trim trim_to oldest_retained
resumed_at = refl

abbrev session : Session
session = record { outbox = three; reader = resumed; delivered = [] }

read_two :
    poll three resumed ≡ yielded three.entries (record { next_seq = 3; expected_seq = some 3 })
unfolding poll publish new_inner trim trim_to oldest_retained missed advance
read_two = refl

abbrev later : Session
later = record {
  outbox = publish report three;
  reader = record { next_seq = 3; expected_seq = some 3 };
  delivered = [] ++ three.entries;
}

session-later : Reach session later
session-later = next (next here (reading session _ _ read_two)) (publishing report _)

resume_complete_example :
    (p : ℕ) × Runs 1 later.delivered p
    × (((p < oldest_retained later.outbox) × (poll later.outbox later.reader ≡ gap))
        ⊎ ((batch : List EventEnvelope) × (poll later.outbox later.reader
              ≡ yielded batch (at later.outbox.next_seq))
            × Runs p batch later.outbox.next_seq))
resume_complete_example =
    resume_complete applied three resumed later three-IsValid resumed_at session-later

publish-IsValid_example : IsValid (publish report three)
publish-IsValid_example = publish-IsValid report three three-IsValid

subscribe_from_held_example :
    ((subscribe_from (some applied) three ≡ out_of_range)
      × (((1 < three.next_seq) × All (λ e. 1 < e.cursor.seq) three.entries)
          ⊎ (three.next_seq ≤ applied.seq)))
    ⊎ ((s : Subscription) × (batch : List EventEnvelope) × (subscribe_from (some applied) three
          ≡ subscribed s)
        × (poll three s ≡ yielded batch (at three.next_seq))
        × Runs 1 batch three.next_seq)
subscribe_from_held_example = subscribe_from_held applied three three-IsValid
