-- ===== src/Consumer/Resume/Restart.antt =====
-- A restart of the event consumer, server/src/services/event_consumer/mod.rs.
use ethpayserver.Base.{
  ℕ, suc, ◌+◌, ◌-◌, ◌≤◌, ◌<◌, ◌≡◌, ◌≢◌, refl, sym, ◌∙◌, ap, inl, inr, false, Option, none, some,
  List, [], ◌∷◌, arith, max, length, is_empty, ◌⊎◌, ◌++◌,
}
use native.Mathlib.Nat.{add-zero}
use ethpayserver.Base.Dict.{insert}
use ethpayserver.Event.{MonitorEvent}
use ethpayserver.Outbox.{EventEnvelope, Outbox, oldest_retained, subscribe_from, subscribed}
use ethpayserver.Outbox.Resume.{Runs, at, subscribe_from_range}
use ethpayserver.Database.Rows.{World}
use ethpayserver.Database.Monad.{M, ok, tick, call-up}
use ethpayserver.Database.Cursors.{chain_cursors}
use ethpayserver.Consumer.Resume.{
  Operator, Cursors, mismatched, max_seq, resume_cursor, reconcile_cursors, break_lineage, consume,
  started, start, start_with, start_at, open_stream, resume_from, Run, committed,
}
use ethpayserver.Consumer.Resume.Exact.{
  Before, Holds, IsExact, consume-IsExact, IsHandled, Before-insert, Holds-insert,
}

mismatched-none : (epoch p : ℕ) (d : Cursors) → Before epoch p d → mismatched epoch d ≡ []
unfolding mismatched
mismatched-none epoch p [] h = refl
mismatched-none epoch p (e ∷ d) h = ground (arith, mismatched-none epoch p d h.1)

abbrev IsBelow : ℕ → Option ℕ → Type 0
IsBelow p none = Unit
IsBelow p (some m) = m < p

over : ℕ → Option ℕ → Option ℕ
over s none = some s
over s (some m) = some (max s m)

over-IsBelow : (p s : ℕ) (o : Option ℕ) → s < p → IsBelow p o → IsBelow p (over s o)
unfolding over
over-IsBelow p s none h k = h
over-IsBelow p s (some m) h k = ground arith

max_seq-IsBelow : (epoch p : ℕ) (d : Cursors) → Before epoch p d → IsBelow p (max_seq d)
unfolding max_seq over
max_seq-IsBelow epoch p [] h = tt
max_seq-IsBelow epoch p (e ∷ d) h =
    over-IsBelow p e.1.seq (max_seq d) h.0.1 (max_seq-IsBelow epoch p d h.1)

over-top : (p s : ℕ) (o : Option ℕ) → s ≡ p → IsBelow (suc p) o → over s o ≡ some p
unfolding over
over-top p s none h k = ap some h
over-top p s (some m) h k = ap some (ground arith)

over-kept : (p s : ℕ) (o : Option ℕ) → s < suc p → o ≡ some p → over s o ≡ some p
unfolding over
over-kept p s o h k = rw k (ap some (ground arith))

max_seq-Holds :
    (epoch p : ℕ) (d : Cursors) → Before epoch (suc p) d → Holds p d → max_seq d ≡ some p
unfolding max_seq over
max_seq-Holds epoch p [] h (_, none_there) = absurd none_there
max_seq-Holds epoch p (e ∷ d) h (inl here) =
    over-top p e.1.seq (max_seq d) here (max_seq-IsBelow epoch (suc p) d h.1)
max_seq-Holds epoch p (e ∷ d) h (inr later) =
    over-kept p e.1.seq (max_seq d) h.0.1 (max_seq-Holds epoch p d h.1 later)

Holds-is_empty : (p : ℕ) (d : Cursors) → Holds p d → is_empty d ≡ false
Holds-is_empty p [] (_, none_there) = absurd none_there
Holds-is_empty p (e ∷ d) h = refl

reconcile-resumes :
    (op : Operator) (epoch p : ℕ) (d : Cursors) (w : World)
    → Before epoch (suc p) d
    → Holds p d
    → reconcile_cursors op epoch d w
      ≡ (resume_from (some (record { epoch = epoch; seq = p; block_height = 0 })), d, w)
unfolding reconcile_cursors resume_cursor break_lineage
reconcile-resumes op epoch p d w before holds =
    rw
      (
        Holds-is_empty p d holds,
        mismatched-none epoch (suc p) d before,
        max_seq-Holds epoch p d before holds,
      )
      refl

subscribe-inside :
    (o : Outbox) (p : ℕ)
    → oldest_retained o ≤ suc p
    → suc p ≤ o.next_seq
    → subscribe_from (some (record { epoch = o.epoch; seq = p; block_height = 0 })) o
      ≡ subscribed (at (suc p))
subscribe-inside o p kept known =
    elim (subscribe_from_range (record { epoch = o.epoch; seq = p; block_height = 0 }) o) [
      | inl (_, inl lost) ↦ absurd (omega arith)
      | inl (_, inr ahead) ↦ absurd (omega arith)
      | inr (inside, _, _) ↦ inside
    ]

read-cursors :
    (d : Cursors) (w : World)
    → w.down w.calls ≡ false
    → w.cursors ≡ d
    → chain_cursors w ≡ (ok d, tick w)
unfolding chain_cursors
read-cursors d w up same = call-up (λ v. (ok v.cursors, v)) w up ∙ ap (λ c. (ok c, tick w)) same

start-resumes :
    (op : Operator) (o : Outbox) (p : ℕ) (d : Cursors) (w : World)
    → w.down w.calls ≡ false
    → w.cursors ≡ d
    → Before o.epoch (suc p) d
    → Holds p d
    → oldest_retained o ≤ suc p
    → suc p ≤ o.next_seq
    → start op o w ≡ started (at (suc p)) d (tick w)
unfolding start start_with start_at open_stream
start-resumes op o p d w up same before holds kept known =
    ap (start_with op o) (read-cursors d w up same)
    ∙ ap (start_at o) (reconcile-resumes op o.epoch p d (tick w) before holds)
    ∙ ap (λ s. open_stream s d (tick w)) (subscribe-inside o p kept known)

length-nonempty : (es : List EventEnvelope) → es ≢ [] → (n : ℕ) × (length es ≡ suc n)
length-nonempty [] some_there = absurd (some_there refl)
length-nonempty (e ∷ es) some_there = (length es, refl)

Runs-behind :
    (a b : ℕ) (xs ys : List EventEnvelope) → Runs a (xs ++ ys) b → Runs (a + length xs) ys b
Runs-behind a b [] ys runs = rw add-zero runs
Runs-behind a b (x ∷ xs) ys runs =
    let shift : suc a + length xs ≡ a + suc (length xs) = omega arith in
    rw (sym shift) (Runs-behind (suc a) b xs ys runs.1)

Runs-le : (a b : ℕ) (xs : List EventEnvelope) → Runs a xs b → a ≤ b
Runs-le a b [] runs = omega (arith, runs)
Runs-le a b (x ∷ xs) runs = omega (arith, Runs-le (suc a) b xs runs.1)

-- The envelope that a run halted at is the first one left.
halted-Runs :
    (p b : ℕ) (r : Run) (rest : List EventEnvelope) (v : EventEnvelope)
    → Runs p rest b
    → r.halted ≡ some v
    → ((r.halted ≡ none) × (rest ≡ []))
      ⊎ ((u : EventEnvelope) × (later : List EventEnvelope) × (r.halted ≡ some u)
          × (rest ≡ u ∷ later))
    → (v.cursor.seq ≡ p) × (suc p ≤ b)
halted-Runs p b r rest v runs stop (inl (none_there, _)) = cc (none_there, stop)
halted-Runs p b r rest v runs stop (inr (u, later, there, first)) =
    let runs' : Runs p (u ∷ later) b = rw first at runs in
    let same : u ≡ v = cc (there, stop) in
    (ap (λ e. e.cursor.seq) (sym same) ∙ runs'.0, Runs-le (suc p) b later runs'.1)

module _ (handle : MonitorEvent → M (Unit {0})) (op : Operator) (epoch : ℕ)
    (keeps_cursors : (e : MonitorEvent) (w : World) → (handle e w).1.cursors ≡ w.cursors) where
  -- Where a run leaves off: at `p`, or behind the envelope at `p` whose commit reached the
  -- database.
  abbrev pub IsPickedUp : Outbox → ℕ → Run → Type 0
  IsPickedUp o p r =
      (start op o r.world ≡ started (at p) r.cursors (tick r.world))
      ⊎ ((v : EventEnvelope) × (r.halted ≡ some v)
          × (v.cursor.seq ≡ p)
          × IsHandled handle op epoch keeps_cursors v r.world
          × (start op o r.world
              ≡ started (at (suc p)) (insert v.chain_id (committed epoch v) r.cursors)
                  (tick r.world)))

  exact-IsPickedUp :
      (a b : ℕ) (vs : List EventEnvelope) (cursors : Cursors) (o : Outbox) (r : Run)
      → Runs a vs b
      → IsExact handle op epoch keeps_cursors a cursors vs r
      → r.applied ≢ []
      → o.epoch ≡ epoch
      → oldest_retained o ≤ a + length r.applied
      → b ≤ o.next_seq
      → r.world.down r.world.calls ≡ false
      → IsPickedUp o (a + length r.applied) r
  unfolding committed
  exact-IsPickedUp a b vs cursors o r runs x some_applied same kept known up =
      let left : Runs (a + length r.applied) x.rest b =
        Runs-behind a b r.applied x.rest (rw x.split at runs) in
      elim x.stored [
        | inl stored ↦
            let (n, long) = length-nonempty r.applied some_applied in
            let next : suc (a + n) ≡ a + length r.applied = omega (arith, long) in
            let top : a + length r.applied - 1 ≡ a + n = omega (arith, long) in
            let before : Before o.epoch (suc (a + n)) r.cursors = rw (same, next) x.before in
            let holds : Holds (a + n) r.cursors = elim x.last [
              | inl (nothing, _) ↦ absurd (some_applied nothing)
              | inr at_top ↦ rw top at at_top
            ] in
            let end : a + length r.applied ≤ b = Runs-le (a + length r.applied) b x.rest left in
            inl (
              rw (sym next) (
                start-resumes op o (a + n) r.cursors r.world up stored before holds
                  (omega (arith, next, kept)) (omega (arith, next, known, end))))
        | inr (v, stop, handled, moved) ↦
            let (here, end) = halted-Runs (a + length r.applied) b r x.rest v left stop x.stop in
            inr (
              v,
              stop,
              here,
              handled,
              (start-resumes op o (a + length r.applied)
                  (insert v.chain_id (committed epoch v) r.cursors) r.world up moved
                  (rw same (
                    Before-insert epoch (a + length r.applied) v.chain_id (committed epoch v)
                      r.cursors refl here x.before))
                  (Holds-insert (a + length r.applied) v.chain_id (committed epoch v) r.cursors
                    here)
                  (omega (arith, kept)) (omega (arith, known, end))),
            )
      ]

  -- A consumer that is started again after a run that applied at least one envelope, on an outbox
  -- of the same epoch that has the run's envelopes and still holds what follows the applied ones,
  -- and whose first call of the database succeeds, subscribes exactly behind the last envelope
  -- that was applied; or, where the run stopped at an envelope that was handled without an error,
  -- or skipped, with the answer to its commit lost, exactly behind that one. So none of those is
  -- read again and none after them is passed over, wherever and for whatever reason the run
  -- stopped. The run is one as in `consume-IsExact`: over consecutive positions from `a`, with
  -- cursors of the outbox's epoch before `a`, equal to the stored ones, and a handler that leaves
  -- those alone.
  pub restart-resumes :
      (a b : ℕ) (vs : List EventEnvelope) (cursors : Cursors) (w : World) (o : Outbox)
      → Runs a vs b
      → w.cursors ≡ cursors
      → Before epoch a cursors
      → (consume handle op epoch vs cursors w).applied ≢ []
      → o.epoch ≡ epoch
      → oldest_retained o ≤ a + length (consume handle op epoch vs cursors w).applied
      → b ≤ o.next_seq
      → (consume handle op epoch vs cursors w).world.down
          (consume handle op epoch vs cursors w).world.calls
        ≡ false
      → IsPickedUp o
          (a + length (consume handle op epoch vs cursors w).applied)
          (consume handle op epoch vs cursors w)
  restart-resumes a b vs cursors w o runs stored before some_applied same kept known up =
      exact-IsPickedUp a b vs cursors o (consume handle op epoch vs cursors w) runs
        (consume-IsExact handle op epoch keeps_cursors a b vs cursors w runs stored before)
        some_applied same kept known up
