-- ===== src/Consumer/Resume/Applied.antt =====
-- What the applied envelopes of a run did to the database,
-- server/src/services/event_consumer/mod.rs.
use ethpayserver.Base.{
  ℕ, ◌≡◌, refl, ◌⊎◌, inl, inr, Bool, true, false, Option, none, some, List, [], ◌∷◌, if◌then◌else◌,
}
use ethpayserver.Event.{MonitorEvent}
use ethpayserver.Outbox.{EventEnvelope}
use ethpayserver.Database.Rows.{World}
use ethpayserver.Database.Monad.{Error, Result, ok, err, M, pure}
use ethpayserver.Database.Cursors.{commit_chain_cursor}
use ethpayserver.Consumer.Resume.{
  Operator, Cursors, is_skipped, committed, Run, apply_or_skip, after_commit, apply_envelope,
  add_applied, consume,
}

module _ (handle : MonitorEvent → M (Unit {0})) (op : Operator) (epoch : ℕ) where
  -- The envelope's event, unless the operator skips it, ran to its end from the one state to the
  -- other.
  abbrev pub IsHandled : EventEnvelope → World → World → Type 0
  IsHandled v w w' =
      ((is_skipped op v ≡ true) × (w' ≡ w))
      ⊎ ((is_skipped op v ≡ false) × (handle v.event w ≡ (ok tt, w')))

  -- Handled, and then committed.
  abbrev pub IsApplied : EventEnvelope → World → World → Type 0
  IsApplied v w w' =
      (between : World) × IsHandled v w between
      × (commit_chain_cursor v.chain_id (committed epoch v) between ≡ (ok tt, w'))

  -- The handler failed, or the commit after it.
  abbrev pub IsFailed : EventEnvelope → World → World → Type 0
  IsFailed v w w' =
      ((e : Error) × (is_skipped op v ≡ false) × (handle v.event w ≡ (err e, w')))
      ⊎ ((between : World) × (e : Error) × IsHandled v w between
          × (commit_chain_cursor v.chain_id (committed epoch v) between ≡ (err e, w')))

  abbrev pub AreApplied : List EventEnvelope → World → World → Type 0
  AreApplied [] w w' = w ≡ w'
  AreApplied (v ∷ vs) w w' = (between : World) × IsApplied v w between × AreApplied vs between w'

  -- How a run ends after the last applied envelope.
  abbrev pub IsEnd : Option EventEnvelope → World → World → Type 0
  IsEnd none w w' = w ≡ w'
  IsEnd (some v) w w' = IsFailed v w w'

  abbrev Outcome : EventEnvelope → World → Bool × Cursors × World → Type 0
  Outcome v w (done, cursors, w') =
      ((done ≡ true) × IsApplied v w w') ⊎ ((done ≡ false) × IsFailed v w w')

  commit_after : EventEnvelope → Result (Unit {0}) × World → Result (Unit {0}) × World
  commit_after v (r, w) = elim r [
    | ok _ ↦ commit_chain_cursor v.chain_id (committed epoch v) w
    | err e ↦ (err e, w)
  ]

  committed-Outcome :
      (v : EventEnvelope) (cursors : Cursors) (w between : World) (r : Result (Unit {0}) × World)
      → IsHandled v w between
      → commit_chain_cursor v.chain_id (committed epoch v) between ≡ r
      → Outcome v w (after_commit handle op epoch v cursors r)
  unfolding after_commit
  committed-Outcome v cursors w between (ok _, w') handled commit =
      inl (refl, (between, handled, commit))
  committed-Outcome v cursors w between (err e, w') handled commit =
      inr (refl, inr (between, e, handled, commit))

  handled-Outcome :
      (v : EventEnvelope) (cursors : Cursors) (w : World) (r : Result (Unit {0}) × World)
      → is_skipped op v ≡ false
      → handle v.event w ≡ r
      → Outcome v w (after_commit handle op epoch v cursors (commit_after v r))
  unfolding after_commit commit_after
  handled-Outcome v cursors w (ok _, between) use_it handled =
      committed-Outcome v cursors w between _ (inr (use_it, handled)) refl
  handled-Outcome v cursors w (err e, w') use_it handled = inr (refl, inl (e, use_it, handled))

  skip_or_handle : Bool → EventEnvelope → M (Unit {0})
  skip_or_handle skip v = if skip then pure tt else handle v.event

  skip_or_handle-Outcome :
      (skip : Bool) (v : EventEnvelope) (cursors : Cursors) (w : World)
      → is_skipped op v ≡ skip
      → Outcome v w
          (after_commit handle op epoch v cursors (commit_after v (skip_or_handle skip v w)))
  unfolding skip_or_handle commit_after
  skip_or_handle-Outcome true v cursors w skip =
      committed-Outcome v cursors w w _ (inl (skip, refl)) refl
  skip_or_handle-Outcome false v cursors w use_it =
      handled-Outcome v cursors w (handle v.event w) use_it refl

  apply_envelope-Outcome :
      (v : EventEnvelope) (cursors : Cursors) (w : World)
      → Outcome v w (apply_envelope handle op epoch v cursors w)
  unfolding apply_envelope apply_or_skip skip_or_handle commit_after
  apply_envelope-Outcome v cursors w = skip_or_handle-Outcome (is_skipped op v) v cursors w refl

  branch : EventEnvelope → List EventEnvelope → Bool × Cursors × World → Run
  branch v vs (done, cursors, w) =
      let rest = add_applied handle op epoch v (consume handle op epoch vs cursors w) in
      if done then rest else record { applied = []; halted = some v; cursors = cursors; world = w }

  abbrev IsAccounted : World → Run → Type 0
  IsAccounted w r = (last : World) × AreApplied r.applied w last × IsEnd r.halted last r.world

  branch-IsAccounted :
      (v : EventEnvelope) (vs : List EventEnvelope) (w : World) (out : Bool × Cursors × World)
      → Outcome v w out
      → ((cursors : Cursors) (w' : World) → IsAccounted w' (consume handle op epoch vs cursors w'))
      → IsAccounted w (branch v vs out)
  unfolding branch add_applied
  branch-IsAccounted v vs w (true, cursors, w') (inl (_, applied)) ih =
      let (last, rest, end) = ih cursors w' in (last, (w', applied, rest), end)
  branch-IsAccounted v vs w (true, cursors, w') (inr (stop, _)) ih = cc stop
  branch-IsAccounted v vs w (false, cursors, w') (inl (go_on, _)) ih = cc go_on
  branch-IsAccounted v vs w (false, cursors, w') (inr (_, failed)) ih = (w, refl, failed)

  -- A run of the loop is the handlers of the applied envelopes, in order and each followed by its
  -- commit, all of which succeeded; an envelope that the operator listed skips its handler but is
  -- committed. The run then ended at the end of the stream, or at an envelope whose handler or
  -- whose commit failed, with the database as that failure left it. Nothing else touched it.
  pub consume-AreApplied :
      (vs : List EventEnvelope) (cursors : Cursors) (w : World)
      → (last : World) × AreApplied (consume handle op epoch vs cursors w).applied w last
        × IsEnd
            (consume handle op epoch vs cursors w).halted
            last
            (consume handle op epoch vs cursors w).world
  unfolding consume branch
  consume-AreApplied [] cursors w = (w, refl, refl)
  consume-AreApplied (v ∷ vs) cursors w =
      branch-IsAccounted v vs w (apply_envelope handle op epoch v cursors w)
        (apply_envelope-Outcome v cursors w) (consume-AreApplied vs)
