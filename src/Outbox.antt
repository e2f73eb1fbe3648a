-- ===== src/Outbox.antt =====
-- The event bridge: the durable outbox between the monitor and the server, with its in-memory
-- implementation, evm/src/monitor/bridge/mod.rs and evm/src/monitor/bridge/memory.rs.
-- `seq` and `block_height` count up from 0, so they are natural numbers; a test `seq < oldest - 1`
-- is written `seq + 1 < oldest`.
pub mod Resume
pub mod Trace
use ethpayserver.Base.{
  ℕ, ◌+◌, ◌-◌, Bool, Option, none, some, List, [], ◌∷◌, ◌++◌, ◌||◌, ltb, leb, length, drop,
  is_empty, if◌then◌else◌,
}
use ethpayserver.Event.{MonitorEvent, event_chain_id, event_block_height}

pub record EventCursor : Type 0 where
  pub epoch : ℕ
  pub seq : ℕ
  pub block_height : ℕ

pub record EventEnvelope : Type 0 where
  pub chain_id : ℕ
  pub cursor : EventCursor
  pub event : MonitorEvent

pub record Outbox : Type 0 where
  pub epoch : ℕ
  pub entries : List EventEnvelope
  pub next_seq : ℕ
  pub max_retained : Option ℕ

-- `MemoryBridge::new_inner`; the epoch is drawn at random.
unfoldable pub new_inner : ℕ → Option ℕ → Outbox
new_inner epoch max_retained = record {
  epoch = epoch;
  entries = [];
  next_seq = 0;
  max_retained = max_retained;
}

-- `while entries.len() > max { entries.pop_front() }`.
unfoldable pub trim : ℕ → List EventEnvelope → List EventEnvelope
trim max [] = []
trim max (e ∷ es) = if leb (length (e ∷ es)) max then e ∷ es else trim max es

unfoldable pub trim_to : Option ℕ → List EventEnvelope → List EventEnvelope
trim_to none es = es
trim_to (some max) es = trim max es

unfoldable pub publish : MonitorEvent → Outbox → Outbox
publish event o =
    let cursor : EventCursor = record {
      epoch = o.epoch;
      seq = o.next_seq;
      block_height = event_block_height event;
    } in
    let envelope : EventEnvelope = record {
      chain_id = event_chain_id event;
      cursor = cursor;
      event = event;
    } in
    record o {
      next_seq = o.next_seq + 1;
      entries = trim_to o.max_retained (o.entries ++ envelope ∷ []);
    }

-- `next_seq - entries.len()`.
unfoldable pub oldest_retained : Outbox → ℕ
oldest_retained o = o.next_seq - length o.entries

-- What the stream of `subscribe_from` keeps between two reads.
pub record Subscription : Type 0 where
  pub next_seq : ℕ
  pub expected_seq : Option ℕ

pub data Subscribed : Type 0 where
  out_of_range : Subscribed
  subscribed : Subscription → Subscribed

unfoldable pub subscribe_from : Option EventCursor → Outbox → Subscribed
unfolding oldest_retained
subscribe_from none o = subscribed (record { next_seq = 0; expected_seq = none })
subscribe_from (some c) o =
    if ltb (c.seq + 1) (oldest_retained o) || leb o.next_seq c.seq
    then out_of_range
    else subscribed (record { next_seq = c.seq + 1; expected_seq = some (c.seq + 1) })

-- The result of one turn of the stream's loop: the stream ends at a gap, `range(start..)` panics
-- where `start` passes the end, and otherwise the entries found are yielded.
pub data Poll : Type 0 where
  gap : Poll
  panicked : Poll
  yielded : List EventEnvelope → Subscription → Poll

-- The `for envelope in batch` loop: both positions follow the last entry yielded.
unfoldable pub advance : List EventEnvelope → Subscription → Subscription
advance [] s = s
advance (e ∷ es) s =
    advance es (record { next_seq = e.cursor.seq + 1; expected_seq = some (e.cursor.seq + 1) })

unfoldable pub missed : Option ℕ → ℕ → Bool
missed none oldest = Bool.false
missed (some expected) oldest = ltb expected oldest

unfoldable pub poll : Outbox → Subscription → Poll
unfolding missed advance oldest_retained
poll o s =
    let start = s.next_seq - oldest_retained o in
    if missed s.expected_seq (oldest_retained o)
    then gap
    else if ltb (length o.entries) start
    then panicked
    else let batch = drop start o.entries in yielded batch (advance batch s)

unfoldable pub bump_epoch : Outbox → Outbox
bump_epoch o = record o { epoch = o.epoch + 1 }
