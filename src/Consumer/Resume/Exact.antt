-- ===== src/Consumer/Resume/Exact.antt =====
-- The resume cursors name exactly the envelopes that were applied,
-- server/src/services/event_consumer/mod.rs.
use ethpayserver.Base.{
  ℕ, suc, ◌+◌, ◌-◌, ◌<◌, ◌≡◌, refl, sym, ◌∙◌, ap, ◌⊎◌, inl, inr, Bool, true, false, none, some,
  List, [], ◌∷◌, ◌++◌, arith, All, Any, Bool-cases, length, if◌then◌else◌,
}
use ethpayserver.Base.Dict.{get, insert}
use native.Mathlib.Nat.{add-zero}
use ethpayserver.Event.{MonitorEvent}
use ethpayserver.Outbox.{EventEnvelope}
use ethpayserver.Outbox.Resume.{Runs}
use ethpayserver.Database.Rows.{ChainCursor, World}
use ethpayserver.Database.Monad.{Error, Result, ok, err, M, call-cases}
use ethpayserver.Database.Cursors.{commit_chain_cursor, commit_row, moves}
use ethpayserver.Consumer.Resume.{
  Operator, Cursors, is_skipped, committed, Run, apply_or_skip, after_commit, apply_envelope,
  add_applied, consume,
}

-- Every cursor belongs to the outbox's epoch and stands before position `p`.
abbrev pub Before : ℕ → ℕ → Cursors → Type 0
Before epoch p = All (λ e. (e.1.epoch ≡ epoch) × (e.1.seq < p))

-- Some cursor stands at position `p`.
abbrev pub Holds : ℕ → Cursors → Type 0
Holds p = Any (λ e. e.1.seq ≡ p)

pub Before-weaken : (epoch p : ℕ) (d : Cursors) → Before epoch p d → Before epoch (suc p) d
Before-weaken epoch p [] h = tt
Before-weaken epoch p (e ∷ d) h = ((h.0.0, omega arith), Before-weaken epoch p d h.1)

pub Before-insert :
    (epoch p k : ℕ) (c : ChainCursor) (d : Cursors)
    → c.epoch ≡ epoch
    → c.seq ≡ p
    → Before epoch p d
    → Before epoch (suc p) (insert k c d)
Before-insert epoch p k c [] e s h = ((e, omega arith), tt)
Before-insert epoch p k c (x ∷ d) e s h =
    ground (arith, Before-insert epoch p k c d e s h.1, Before-weaken epoch p d h.1)

pub Holds-insert : (p k : ℕ) (c : ChainCursor) (d : Cursors) → c.seq ≡ p → Holds p (insert k c d)
Holds-insert p k c [] s = inl s
Holds-insert p k c (x ∷ d) s = ground (arith, Holds-insert p k c d s)

moves-Before :
    (epoch p k : ℕ) (c : ChainCursor) (d : Cursors)
    → c.seq ≡ p
    → Before epoch p d
    → moves c (get k d) ≡ true
unfolding moves
moves-Before epoch p k c [] s h = refl
moves-Before epoch p k c (x ∷ d) s h = ground (arith, moves-Before epoch p k c d s h.1)

module _ (handle : MonitorEvent → M (Unit {0})) (op : Operator) (epoch : ℕ)
    (keeps_cursors : (e : MonitorEvent) (w : World) → (handle e w).1.cursors ≡ w.cursors) where
  apply_or_skip-cursors :
      (v : EventEnvelope) (w : World) → (apply_or_skip handle op epoch v w).1.cursors ≡ w.cursors
  unfolding apply_or_skip
  apply_or_skip-cursors v w = elim (Bool-cases (is_skipped op v)) [
    | inl skip ↦ rw skip
    | inr use_it ↦ rw use_it (keeps_cursors v.event w)
  ]

  commit-cases :
      (v : EventEnvelope) (p : ℕ) (cursors : Cursors) (w : World)
      → w.cursors ≡ cursors
      → Before epoch p cursors
      → v.cursor.seq ≡ p
      → ((e : Error) × ((commit_chain_cursor v.chain_id (committed epoch v) w).0 ≡ err e)
          × ((commit_chain_cursor v.chain_id (committed epoch v) w).1.cursors ≡ cursors))
        ⊎ ((e : Error) × ((commit_chain_cursor v.chain_id (committed epoch v) w).0 ≡ err e)
            × ((commit_chain_cursor v.chain_id (committed epoch v) w).1.cursors
                ≡ insert v.chain_id (committed epoch v) cursors))
        ⊎ (((commit_chain_cursor v.chain_id (committed epoch v) w).0 ≡ ok tt)
            × ((commit_chain_cursor v.chain_id (committed epoch v) w).1.cursors
                ≡ insert v.chain_id (committed epoch v) cursors))
  unfolding commit_chain_cursor committed commit_row
  commit-cases v p cursors w same before at =
      let moved : moves (committed epoch v) (get v.chain_id w.cursors) ≡ true =
        rw same (moves-Before epoch p v.chain_id (committed epoch v) cursors at before) in
      elim (call-cases (commit_row v.chain_id (committed epoch v)) w) [
        | inl down ↦ inl (_, ap (λ r. r.0) down, ap (λ r. r.1.cursors) down ∙ same)
        | inr (inl lost) ↦
            inr (inl (_, ap (λ r. r.0) lost, rw (lost, moved) (ap (insert _ _) same)))
        | inr (inr up) ↦ inr (inr (rw (up, moved), rw (up, moved) (ap (insert _ _) same)))
      ]

  -- The envelope was handled, or skipped, and its commit reached the database.
  abbrev pub IsHandled : EventEnvelope → World → Type 0
  IsHandled v w' =
      (u : World) × ((apply_or_skip handle op epoch v u).0 ≡ ok tt)
      × (w'
          ≡ (commit_chain_cursor v.chain_id (committed epoch v)
              (apply_or_skip handle op epoch v u).1).1)

  -- A step that halts leaves the cursors in memory as they were, and so the stored ones, unless
  -- the envelope was handled and only the answer to its commit was lost; one that goes on moves
  -- both to the envelope.
  abbrev Outcome : EventEnvelope → Cursors → Bool × Cursors × World → Type 0
  Outcome v cursors (done, cursors', w') =
      ((done ≡ false) × (cursors' ≡ cursors) × (w'.cursors ≡ cursors))
      ⊎ ((done ≡ false)
          × (cursors' ≡ cursors)
          × (w'.cursors ≡ insert v.chain_id (committed epoch v) cursors)
          × IsHandled v w')
      ⊎ ((done ≡ true)
          × (cursors' ≡ insert v.chain_id (committed epoch v) cursors)
          × (w'.cursors ≡ insert v.chain_id (committed epoch v) cursors))

  after_commit-cases :
      (v : EventEnvelope) (cursors : Cursors) (r : Result (Unit {0}) × World)
      → ((e : Error) × (r.0 ≡ err e) × (r.1.cursors ≡ cursors))
        ⊎ ((e : Error) × (r.0 ≡ err e)
            × (r.1.cursors ≡ insert v.chain_id (committed epoch v) cursors)
            × IsHandled v r.1)
        ⊎ ((r.0 ≡ ok tt) × (r.1.cursors ≡ insert v.chain_id (committed epoch v) cursors))
      → Outcome v cursors (after_commit handle op epoch v cursors r)
  unfolding after_commit
  after_commit-cases v cursors (ok _, w) (inl (e, bad, same)) = cc bad
  after_commit-cases v cursors (err _, w) (inl (e, bad, same)) = inl (refl, refl, same)
  after_commit-cases v cursors (ok _, w) (inr (inl (e, bad, moved, handled))) = cc bad
  after_commit-cases v cursors (err _, w) (inr (inl (e, bad, moved, handled))) =
      inr (inl (refl, refl, moved, handled))
  after_commit-cases v cursors (ok _, w) (inr (inr (fine, moved))) = inr (inr (refl, refl, moved))
  after_commit-cases v cursors (err _, w) (inr (inr (fine, moved))) = cc fine

  commit_after : EventEnvelope → Result (Unit {0}) × World → Result (Unit {0}) × World
  commit_after v (r, w) = elim r [
    | ok _ ↦ commit_chain_cursor v.chain_id (committed epoch v) w
    | err e ↦ (err e, w)
  ]

  commit_after-cases :
      (v : EventEnvelope) (p : ℕ) (cursors : Cursors) (u : World) (r : Result (Unit {0}) × World)
      → apply_or_skip handle op epoch v u ≡ r
      → r.1.cursors ≡ cursors
      → Before epoch p cursors
      → v.cursor.seq ≡ p
      → Outcome v cursors (after_commit handle op epoch v cursors (commit_after v r))
  unfolding commit_after
  commit_after-cases v p cursors u (ok _, w) run same before at =
      after_commit-cases v cursors _ (elim (commit-cases v p cursors w same before at) [
        | inl failed ↦ inl failed
        | inr (inl (e, bad, moved)) ↦ inr (
            inl (
              e,
              bad,
              moved,
              (
                u,
                ap (λ r. r.0) run,
                ap (λ r. (commit_chain_cursor v.chain_id (committed epoch v) r.1).1) (sym run),
              ),
            ))
        | inr (inr fine) ↦ inr (inr fine)
      ])
  commit_after-cases v p cursors u (err e, w) run same before at =
      after_commit-cases v cursors _ (inl (e, refl, same))

  apply_envelope-cases :
      (v : EventEnvelope) (p : ℕ) (cursors : Cursors) (w : World)
      → w.cursors ≡ cursors
      → Before epoch p cursors
      → v.cursor.seq ≡ p
      → Outcome v cursors (apply_envelope handle op epoch v cursors w)
  unfolding apply_envelope commit_after
  apply_envelope-cases v p cursors w same before at =
      commit_after-cases v p cursors w (apply_or_skip handle op epoch v w) refl
        (apply_or_skip-cursors v w ∙ same) before at

  -- What a run over the positions from `a` leaves: the envelopes applied are the first ones, the
  -- one that halted it is the next, and every cursor in memory stands before that one, the last
  -- applied position among them. The stored cursors are those, or, where the run halted at an
  -- envelope that was handled, those with its position.
  pub record IsExact (a : ℕ) (initial : Cursors) (vs : List EventEnvelope) (r : Run) : Type 0 where
    pub rest : List EventEnvelope
    pub split : vs ≡ r.applied ++ rest
    pub stop :
        ((r.halted ≡ none) × (rest ≡ []))
        ⊎ ((v : EventEnvelope) × (later : List EventEnvelope) × (r.halted ≡ some v)
            × (rest ≡ v ∷ later))
    pub stored :
        (r.world.cursors ≡ r.cursors)
        ⊎ ((v : EventEnvelope) × (r.halted ≡ some v)
            × IsHandled v r.world
            × (r.world.cursors ≡ insert v.chain_id (committed epoch v) r.cursors))
    pub before : Before epoch (a + length r.applied) r.cursors
    pub last :
        ((r.applied ≡ []) × (r.cursors ≡ initial)) ⊎ Holds (a + length r.applied - 1) r.cursors

  branch : EventEnvelope → List EventEnvelope → Bool × Cursors × World → Run
  branch v vs (done, cursors, w) =
      let rest = add_applied handle op epoch v (consume handle op epoch vs cursors w) in
      if done then rest else record { applied = []; halted = some v; cursors = cursors; world = w }

  halted-IsExact :
      (a : ℕ) (v : EventEnvelope) (vs : List EventEnvelope) (cursors cursors' : Cursors) (w : World)
      → Before epoch a cursors
      → cursors' ≡ cursors
      → (w.cursors ≡ cursors)
        ⊎ ((w.cursors ≡ insert v.chain_id (committed epoch v) cursors) × IsHandled v w)
      → IsExact a cursors
          (v ∷ vs)
          (record { applied = []; halted = some v; cursors = cursors'; world = w })
  halted-IsExact a v vs cursors cursors' w before same stored = record {
    rest = v ∷ vs;
    split = refl;
    stop = inr (v, vs, refl, refl);
    stored = elim stored [
      | inl kept ↦ inl (kept ∙ sym same)
      | inr (moved, handled) ↦
          inr (v, refl, handled, moved ∙ ap (insert v.chain_id (committed epoch v)) (sym same))
    ];
    before = rw (same, add-zero) before;
    last = inl (refl, same);
  }

  applied-IsExact :
      (a : ℕ) (v : EventEnvelope) (vs : List EventEnvelope) (cursors next : Cursors) (r : Run)
      → Holds a next
      → IsExact (suc a) next vs r
      → IsExact a cursors (v ∷ vs) (add_applied handle op epoch v r)
  unfolding add_applied
  applied-IsExact a v vs cursors next r holds x =
      let shift : a + suc (length r.applied) ≡ suc a + length r.applied = omega arith in
      record {
        rest = x.rest;
        split = ap (λ l. v ∷ l) x.split;
        stop = x.stop;
        stored = x.stored;
        before = rw shift x.before;
        last = inr (elim x.last [
          | inl (none_yet, same) ↦
              let here : a + suc (length r.applied) - 1 ≡ a =
                omega (arith, ap (length {A = EventEnvelope}) none_yet) in
              rw (here, same) holds
          | inr later ↦
              let there : a + suc (length r.applied) - 1 ≡ suc a + length r.applied - 1 =
                omega arith in
              rw there later
        ]);
      }

  branch-IsExact :
      (a : ℕ) (v : EventEnvelope) (vs : List EventEnvelope) (cursors : Cursors)
      (out : Bool × Cursors × World)
      → v.cursor.seq ≡ a
      → Before epoch a cursors
      → Outcome v cursors out
      → ((next : Cursors) (w : World)
          → w.cursors ≡ next
          → Before epoch (suc a) next
          → IsExact (suc a) next vs (consume handle op epoch vs next w))
      → IsExact a cursors (v ∷ vs) (branch v vs out)
  unfolding branch committed
  branch-IsExact a v vs cursors (true, next, w) at before (inl (stop, _, _)) ih = cc stop
  branch-IsExact a v vs cursors (false, next, w) at before (inl (_, same, stored)) ih =
      halted-IsExact a v vs cursors next w before same (inl stored)
  branch-IsExact a v vs cursors (true, next, w) at before (inr (inl (stop, _, _, _))) ih = cc stop
  branch-IsExact a v vs cursors (false, next, w) at before (inr (inl (_, same, moved, handled)))
        ih =
      halted-IsExact a v vs cursors next w before same (inr (moved, handled))
  branch-IsExact a v vs cursors (false, next, w) at before (inr (inr (go_on, _, _))) ih = cc go_on
  branch-IsExact a v vs cursors (true, next, w) at before (inr (inr (_, moved, stored))) ih =
      applied-IsExact a v vs cursors next _
        (rw moved (Holds-insert a v.chain_id (committed epoch v) cursors at))
        (ih next w (stored ∙ sym moved)
          (rw moved (Before-insert epoch a v.chain_id (committed epoch v) cursors refl at before)))

  -- Take cursors that all belong to the outbox's epoch and stand before position `a`, equal to the
  -- stored ones, and a handler that leaves the stored cursors alone. Then a run over envelopes at
  -- the consecutive positions from `a` applies a first part of them and stops at the next one or
  -- at the end, whatever fails and wherever, with or without its effect. The cursors in memory
  -- all stand before the envelope it stopped at, and if any was applied, the last one's position
  -- is among them. The stored cursors are the same, or have the position of the envelope it
  -- stopped at besides: then that one was handled without an error, or skipped, and its commit
  -- reached the database.
  pub consume-IsExact :
      (a b : ℕ) (vs : List EventEnvelope) (cursors : Cursors) (w : World)
      → Runs a vs b
      → w.cursors ≡ cursors
      → Before epoch a cursors
      → IsExact a cursors vs (consume handle op epoch vs cursors w)
  unfolding consume branch
  consume-IsExact a b [] cursors w runs same before = record {
    rest = [];
    split = refl;
    stop = inl (refl, refl);
    stored = inl same;
    before = rw add-zero before;
    last = inl (refl, refl);
  }
  consume-IsExact a b (v ∷ vs) cursors w runs same before =
      branch-IsExact a v vs cursors (apply_envelope handle op epoch v cursors w) runs.0 before
        (apply_envelope-cases v a cursors w same before runs.0)
        (λ next w' same' before'. consume-IsExact (suc a) b vs next w' runs.1 same' before')
