-- ===== src/Cleanup/Kept.antt =====
-- The clean-up ends only watches that are due: server/src/services/invoice_cleanup.rs.
use ethpayserver.Base.{ℕ, refl, Bool, inl, inr, List, [], ◌∷◌, All}
use ethpayserver.Database.Rows.{InvoiceData, WatchRow, World, Notice}
use ethpayserver.Database.Monad.{M, ◌>>=◌, call, call-cases, tick, bind-ok, bind-err}
use ethpayserver.Database.Keeps.{Keeps, keep_pure, keep_bind}
use ethpayserver.Cleanup.Watched.{
  CleanupAddressInfo, is_past_grace, has_paid, was_cancelled, rows_for_cleanup, expiry_of,
  creation_of, get_expired_for_cleanup, get_paid_for_cleanup, get_cancelled_for_cleanup, selected,
}
use ethpayserver.Cleanup.Addresses.{
  Reading, CleanupConfig, clean_each, clean_paid_each, cleanup_expired_addresses,
  cleanup_paid_addresses, cleanup_cancelled_addresses, cleanup_addresses,
}
use ethpayserver.Cleanup.Selected.{
  is_past_grace-over, was_cancelled-status, IsSelected, rows_for_cleanup-All,
}
use ethpayserver.Cleanup.Due.{IsDue, past_grace, called_off, Pairs, IsClean, own-before}
use ethpayserver.Cleanup.Steps.{tick-Clean, clean_each-Clean, clean_paid_each-Clean}

module _ (config : CleanupConfig) (x : Reading) (w0 : World) where
  abbrev Clean : World → Type 0
  Clean = IsClean config x w0

  -- A query, and what follows on its rows.
  query-Clean :
      (f : World → List CleanupAddressInfo) (k : List CleanupAddressInfo → M ℕ)
      (Q : CleanupAddressInfo → Type 0)
      → ((w : World) → Clean w → All Q (f w))
      → ((infos : List CleanupAddressInfo) → All Q infos → Keeps Clean (k infos))
      → Keeps Clean (call (selected f) >>= k)
  query-Clean f k Q found rest = record {
    keep = λ w h. elim (call-cases (selected f) w) [
      | inl down ↦ rw (bind-err (call (selected f)) k w down) (tick-Clean config x w0 w h)
      | inr (inl lost) ↦ rw (bind-err (call (selected f)) k w lost) (tick-Clean config x w0 w h)
      | inr (inr up) ↦ rw (bind-ok (call (selected f)) k w up) (
          (rest (f (tick w)) (found (tick w) (tick-Clean config x w0 w h))).keep (tick w)
            (tick-Clean config x w0 w h))
    ];
  }

  past_own :
      (w : World) (info : CleanupAddressInfo)
      → Clean w
      → IsSelected (is_past_grace config.unwatch_grace_period_secs w.now) w info
      → IsDue config x w0 info
  past_own w info h (inv, own, past) =
      let (status, over) = is_past_grace-over config.unwatch_grace_period_secs w.now inv past in
      past_grace inv (own-before config x w0 w info inv h own) status (rw⁻¹ h.now over)

  past-due :
      (w : World) (infos : List CleanupAddressInfo)
      → Clean w
      → All (IsSelected (is_past_grace config.unwatch_grace_period_secs w.now) w) infos
      → All (IsDue config x w0) infos
  past-due w [] h found = tt
  past-due w (info ∷ infos) h found = (past_own w info h found.0, past-due w infos h found.1)

  cancelled-due :
      (infos : List CleanupAddressInfo)
      → All (IsSelected was_cancelled w0) infos
      → All (IsDue config x w0) infos
  cancelled-due [] h = tt
  cancelled-due (info ∷ infos) h =
      (called_off h.0.0 h.0.1 (was_cancelled-status h.0.0 h.0.2), cancelled-due infos h.1)

  -- What a later state selects, the first one's tables select.
  IsSelected-before :
      (p : InvoiceData → Bool) (w : World) (infos : List CleanupAddressInfo)
      → Clean w
      → All (IsSelected p w) infos
      → All (IsSelected p w0) infos
  IsSelected-before p w [] h found = tt
  IsSelected-before p w (info ∷ infos) h found = (
    (found.0.0, own-before config x w0 w info found.0.0 h found.0.1, found.0.2),
    IsSelected-before p w infos h found.1,
  )

  expired-Clean : Keeps Clean (cleanup_expired_addresses config x)
  unfolding cleanup_expired_addresses get_expired_for_cleanup
  expired-Clean =
      query-Clean
        (λ w. rows_for_cleanup (is_past_grace config.unwatch_grace_period_secs w.now) expiry_of w)
        (clean_each config x 0) (IsDue config x w0)
        (λ w h.
          past-due w _ h (
            rows_for_cleanup-All (is_past_grace config.unwatch_grace_period_secs w.now) w
              expiry_of))
        (λ infos due. clean_each-Clean config x w0 0 infos due)

  paid-Clean : Keeps Clean (cleanup_paid_addresses config x)
  unfolding cleanup_paid_addresses get_paid_for_cleanup
  paid-Clean =
      query-Clean (rows_for_cleanup has_paid creation_of) (clean_paid_each config x 0)
        (IsSelected has_paid w0)
        (λ w h. IsSelected-before has_paid w _ h (rows_for_cleanup-All has_paid w creation_of))
        (λ infos paid. clean_paid_each-Clean config x w0 0 infos paid)

  cancelled-Clean : Keeps Clean (cleanup_cancelled_addresses config x)
  unfolding cleanup_cancelled_addresses get_cancelled_for_cleanup
  cancelled-Clean =
      query-Clean (rows_for_cleanup was_cancelled creation_of) (clean_each config x 0)
        (IsDue config x w0)
        (λ w h. cancelled-due _ (
          IsSelected-before was_cancelled w _ h (rows_for_cleanup-All was_cancelled w creation_of)))
        (λ infos due. clean_each-Clean config x w0 0 infos due)

  all-Clean : Keeps Clean (cleanup_addresses config x)
  unfolding cleanup_addresses
  all-Clean =
      keep_bind expired-Clean
        (λ a. keep_bind paid-Clean (λ b. keep_bind cancelled-Clean (λ c. keep_pure _)))

  same-Pairs : (sent : List Notice) (rows : List WatchRow) → Pairs config x w0 sent rows rows
  same-Pairs sent [] = tt
  same-Pairs sent (r ∷ rows) = (inl refl, same-Pairs sent rows)

-- A clean-up, whatever calls of the database and the monitor fail, before or after their effect, leaves
-- invoices, payments and payment options alone and each watch as it was, or ends it. Then its address
-- is that of an active watch whose payment option is of an invoice that has been expired for longer than the
-- grace period, that is paid with no payment confirmed within the configured period or its chain's,
-- or that is cancelled, and the monitor was told of the address and the chain's number before.
pub cleanup_addresses-IsClean :
    (config : CleanupConfig) (x : Reading) (w : World)
    → IsClean config x w (cleanup_addresses config x w).1
cleanup_addresses-IsClean config x w = (all-Clean config x w).keep w (record {
  invoices = refl;
  payments = refl;
  now = refl;
  options = refl;
  watches = same-Pairs config x w w.sent w.watches;
})
