-- ===== src/Outbox/Trace.antt =====
-- A subscribed reader under every interleaving of publishing, epoch changes and reads of
-- evm/src/monitor/bridge/memory.rs.
use ethpayserver.Base.{
  ℕ, suc, ◌+◌, ◌≤◌, ◌<◌, ◌≡◌, refl, sym, ◌∙◌, ◌⊎◌, inl, inr, some, List, [], ◌++◌, arith,
}
use ethpayserver.Event.{MonitorEvent}
use ethpayserver.Outbox.{
  EventCursor, EventEnvelope, Outbox, publish, oldest_retained, Subscription, subscribe_from,
  subscribed, out_of_range, gap, yielded, poll, bump_epoch,
}
use ethpayserver.Outbox.Resume.{
  Runs, Runs-append, IsValid, publish-IsValid, at, poll-at, subscribe_from_range,
}

pub record Session : Type 0 where
  pub outbox : Outbox
  pub reader : Subscription
  pub delivered : List EventEnvelope

pub data Step : Session → Session → Type 0 where
  publishing :
      (event : MonitorEvent) (t : Session) → Step t (record t { outbox = publish event t.outbox })
  bumping : (t : Session) → Step t (record t { outbox = bump_epoch t.outbox })
  reading :
      (t : Session) (batch : List EventEnvelope) (reader : Subscription)
      → poll t.outbox t.reader ≡ yielded batch reader
      → Step t (record t { reader = reader; delivered = t.delivered ++ batch })

pub data Reach (s : Session) : Session → Type 0 where
  here : Reach s s
  next : {t u : Session} → Reach s t → Step t u → Reach s u

-- What was delivered from `start` on leaves the reader in step with the stream at `next`.
pub record IsInStep (start : ℕ) (t : Session) (position : ℕ) : Type 0 where
  pub valid : IsValid t.outbox
  pub reader_at : t.reader ≡ at position
  pub behind : position ≤ t.outbox.next_seq
  pub complete : Runs start t.delivered position

publish-next_seq : (event : MonitorEvent) (o : Outbox) → (publish event o).next_seq ≡ o.next_seq + 1
unfolding publish
publish-next_seq event o = refl

bump_epoch-IsValid : (o : Outbox) → IsValid o → IsValid (bump_epoch o)
unfolding bump_epoch
bump_epoch-IsValid o v = record { runs = v.runs; capped = v.capped }

bump_epoch-next_seq : (o : Outbox) → (bump_epoch o).next_seq ≡ o.next_seq
unfolding bump_epoch
bump_epoch-next_seq o = refl

yielded-injective :
    {xs ys : List EventEnvelope} {r s : Subscription}
    → yielded xs r ≡ yielded ys s
    → (xs ≡ ys) × (r ≡ s)
yielded-injective e = (cc, cc)

reading-IsInStep :
    (start position : ℕ) (t : Session) (batch : List EventEnvelope) (reader : Subscription)
    → poll t.outbox t.reader ≡ yielded batch reader
    → IsInStep start t position
    → (p : ℕ) × IsInStep start (record t { reader = reader; delivered = t.delivered ++ batch }) p
reading-IsInStep start position t batch reader read v =
    let read_at : poll t.outbox (at position) ≡ yielded batch reader = rw v.reader_at at read in
    elim (poll-at t.outbox position v.valid v.behind) [
      | inl lost ↦ cc (lost.1, read_at)
      | inr found ↦
          let same = yielded-injective (sym read_at ∙ found.1) in
          (
            t.outbox.next_seq,
            record {
              valid = v.valid;
              reader_at = same.1;
              behind = omega arith;
              complete =
                  Runs-append start position t.outbox.next_seq t.delivered batch v.complete
                    (rw same.0 found.2);
            },
          )
    ]

Step-IsInStep :
    (start : ℕ) {t u : Session} (position : ℕ)
    → Step t u
    → IsInStep start t position
    → (p : ℕ) × IsInStep start u p
Step-IsInStep start position (publishing event t) v = (
  position,
  record {
    valid = publish-IsValid event t.outbox v.valid;
    reader_at = v.reader_at;
    behind = omega (arith, publish-next_seq event t.outbox, v.behind);
    complete = v.complete;
  },
)
Step-IsInStep start position (bumping t) v = (
  position,
  record {
    valid = bump_epoch-IsValid t.outbox v.valid;
    reader_at = v.reader_at;
    behind = omega (arith, bump_epoch-next_seq t.outbox, v.behind);
    complete = v.complete;
  },
)
Step-IsInStep start position (reading t batch reader read) v =
    reading-IsInStep start position t batch reader read v

Reach-IsInStep :
    (start : ℕ) {s t : Session} (position : ℕ)
    → IsInStep start s position
    → Reach s t
    → (p : ℕ) × IsInStep start t p
Reach-IsInStep start position v here = (position, v)
Reach-IsInStep start position v (next r st) =
    let (p, w) = Reach-IsInStep start position v r in Step-IsInStep start p st w

subscribed-injective : {r s : Subscription} → subscribed r ≡ subscribed s → r ≡ s
subscribed-injective e = cc

subscribed≢out_of_range : {r : Subscription} → subscribed r ≡ out_of_range → ⊥
subscribed≢out_of_range e = cc

-- After a resume at a cursor, under any interleaving of publishing, trimming, epoch changes and
-- reads, the entries delivered are exactly the positions that follow the cursor up to some
-- position, in order and none twice; and the next read either reports a gap, when the entry at
-- that position was trimmed away, or yields every entry from there to the end of the outbox.
pub resume_complete :
    (c : EventCursor) (o : Outbox) (reader : Subscription) (t : Session)
    → IsValid o
    → subscribe_from (some c) o ≡ subscribed reader
    → Reach (record { outbox = o; reader = reader; delivered = [] }) t
    → (p : ℕ) × Runs (suc c.seq) t.delivered p
      × (((p < oldest_retained t.outbox) × (poll t.outbox t.reader ≡ gap))
          ⊎ ((batch : List EventEnvelope) × (poll t.outbox t.reader
                ≡ yielded batch (at t.outbox.next_seq))
              × Runs p batch t.outbox.next_seq))
resume_complete c o reader t valid accepted r = elim (subscribe_from_range c o) [
  | inl refused ↦ absurd (subscribed≢out_of_range (sym accepted ∙ refused.0))
  | inr (same, _, inside) ↦
      let (p, w) =
        Reach-IsInStep (suc c.seq) (suc c.seq)
          (record {
            valid = valid;
            reader_at = subscribed-injective (sym accepted ∙ same);
            behind = inside;
            complete = refl;
          })
          r in
      (
        p,
        w.complete,
        rw w.reader_at (elim (poll-at t.outbox p w.valid w.behind) [
          | inl lost ↦ inl lost
          | inr found ↦ inr (_, found.1, found.2)
        ]),
      )
]
