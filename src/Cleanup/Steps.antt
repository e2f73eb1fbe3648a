-- ===== src/Cleanup/Steps.antt =====
-- One address's turn ends its watch only if that is due: server/src/services/invoice_cleanup.rs.
use ethpayserver.Base.{
  ℕ, ◌+◌, ◌≡◌, refl, sym, ap, ◌∙◌, ◌⊎◌, Bool, true, false, inl, inr, Option-cases, some, List, [],
  ◌∷◌, ◌++◌, any, filter, All,
}
use ethpayserver.Database.Rows.{World, unwatch}
use ethpayserver.Database.Monad.{
  unavailable, Result, ok, err, M, ◌>>=◌, call, call-cases, attempt, notify, tick, bind-ok,
  bind-err,
}
use ethpayserver.Database.Keeps.{Keeps, keep_pure, keep_throw, keep_bind, keep_attempt}
use ethpayserver.Cleanup.Watched.{
  CleanupAddressInfo, has_paid, selected, deactivate_rows, deactivate, is_payment_of,
  get_for_invoice,
}
use ethpayserver.Cleanup.Addresses.{
  Reading, CleanupConfig, is_recent, within_paid_grace_period, parse_token, unwatch_parsed,
  unwatch_and_deactivate, count_unwatched, clean_one, clean_each, unless_recent, clean_paid_each,
}
use ethpayserver.Cleanup.Selected.{has_paid-status, IsSelected}
use ethpayserver.Cleanup.Overdue.{rows-IsOverdue}
use ethpayserver.Cleanup.Due.{
  IsDue, settled, IsTold, IsClean, grow-Pairs, end-Pairs, any-last, command-own,
}

module _ (config : CleanupConfig) (x : Reading) (w0 : World) where
  abbrev Clean : World → Type 0
  Clean = IsClean config x w0

  pub tick-Clean : (w : World) → Clean w → Clean (tick w)
  tick-Clean w h = record {
    invoices = h.invoices;
    payments = h.payments;
    now = h.now;
    options = h.options;
    watches = h.watches;
  }

  -- Behind the command the watches of its address may end.
  deactivate-Clean :
      (info : CleanupAddressInfo) (w : World)
      → IsDue config x w0 info
      → IsTold config x w0 w.sent info
      → Clean w
      → Clean (deactivate info.address info.chain_id info.token_address w).1
  unfolding deactivate
  deactivate-Clean info w due told h =
      let done : Clean (deactivate_rows info.address info.chain_id info.token_address (tick w)).1 =
        record {
          invoices = h.invoices;
          payments = h.payments;
          now = h.now;
          options = h.options;
          watches = end-Pairs config x w0 info due w.sent told w0.watches w.watches h.watches;
        } in
      elim (call-cases (deactivate_rows info.address info.chain_id info.token_address) w) [
        | inl down ↦ rw down (tick-Clean w h)
        | inr (inl lost) ↦ rw lost done
        | inr (inr up) ↦ rw up done
      ]

  told-Clean :
      (info : CleanupAddressInfo) (addr eip155 : ℕ) (w : World)
      → x.parse_address info.address ≡ some addr
      → x.evm_chain_id info.chain_id ≡ some eip155
      → IsDue config x w0 info
      → Clean w
      → Clean (unwatch_parsed config x info (some addr) (some eip155) w).1
  unfolding notify
  told-Clean info addr eip155 w parsed evm due h =
      let command = unwatch eip155 addr (parse_token config x info.token_address) in
      let told = record (tick w) { sent = w.sent ++ command ∷ [] } in
      let sent : Clean told = record {
        invoices = h.invoices;
        payments = h.payments;
        now = h.now;
        options = h.options;
        watches = grow-Pairs config x w0 w.sent command w0.watches w.watches h.watches;
      } in
      elim (call-cases (notify command) w) [
        | inl down ↦
            rw
              (bind-err (call (notify command))
                (λ u. deactivate info.address info.chain_id info.token_address) w down)
              (tick-Clean w h)
        | inr (inl lost) ↦
            rw
              (bind-err (call (notify command))
                (λ u. deactivate info.address info.chain_id info.token_address) w lost)
              sent
        | inr (inr up) ↦
            rw
              (bind-ok (call (notify command))
                (λ u. deactivate info.address info.chain_id info.token_address) w up)
              (deactivate-Clean info told due
                (
                  addr,
                  eip155,
                  parsed,
                  evm,
                  any-last config x w0 _ w.sent command
                      (command-own eip155 addr (parse_token config x info.token_address)),
                )
                sent)
      ]

  unwatch-Clean :
      (info : CleanupAddressInfo)
      → IsDue config x w0 info
      → Keeps Clean (unwatch_and_deactivate config x info)
  unfolding unwatch_and_deactivate
  unwatch-Clean info due = elim (Option-cases (x.parse_address info.address)) [
    | inl broken ↦ rw broken (keep_throw _)
    | inr (addr, parsed) ↦ elim (Option-cases (x.evm_chain_id info.chain_id)) [
      | inl other ↦ rw (parsed, other) (keep_throw _)
      | inr (eip155, evm) ↦
          rw (parsed, evm) (record { keep = λ w h. told-Clean info addr eip155 w parsed evm due h })
    ]
  ]

  count_unwatched-Clean :
      (count : ℕ) (r : Result Bool) → Keeps Clean (count_unwatched config x count r)
  count_unwatched-Clean count (ok updated) = keep_pure (count + 1)
  count_unwatched-Clean count (err e) = keep_pure count

  clean_one-Clean :
      (info : CleanupAddressInfo) (count : ℕ)
      → IsDue config x w0 info
      → Keeps Clean (clean_one config x info count)
  clean_one-Clean info count due =
      keep_bind (keep_attempt (unwatch-Clean info due)) (count_unwatched-Clean count)

  pub clean_each-Clean :
      (count : ℕ) (infos : List CleanupAddressInfo)
      → All (IsDue config x w0) infos
      → Keeps Clean (clean_each config x count infos)
  unfolding clean_each
  clean_each-Clean count [] due = keep_pure count
  clean_each-Clean count (info ∷ infos) due =
      keep_bind (clean_one-Clean info count due.0) (λ n. clean_each-Clean n infos due.1)

  attempt-bind :
      {A B : Type 0} (m : M A) (f : Result A → M B) (w : World) {r : Result A} {w' : World}
      → m w ≡ (r, w')
      → (attempt m >>= f) w ≡ f r w'
  attempt-bind m f w h = bind-ok (attempt m) f w (ap (λ p. (ok p.0, p.1)) h)

  within-cases :
      (id : ℕ) (w : World)
      → (within_paid_grace_period config x id w ≡ (err unavailable, tick w))
        ⊎ (within_paid_grace_period config x id w
            ≡ (ok (any (is_recent config x w.now) (filter (is_payment_of id) w.payments)), tick w))
  unfolding within_paid_grace_period get_for_invoice
  within-cases id w = elim (call-cases (selected λ v. filter (is_payment_of id) v.payments) w) [
    | inl down ↦ inl (
        bind-err (call (selected λ v. filter (is_payment_of id) v.payments))
          (λ payments v. (ok (any (is_recent config x v.now) payments), v)) w down)
    | inr (inl lost) ↦ inl (
        bind-err (call (selected λ v. filter (is_payment_of id) v.payments))
          (λ payments v. (ok (any (is_recent config x v.now) payments), v)) w lost)
    | inr (inr up) ↦ inr (
        bind-ok (call (selected λ v. filter (is_payment_of id) v.payments))
          (λ payments v. (ok (any (is_recent config x v.now) payments), v)) w up)
  ]

  unless-Clean :
      (info : CleanupAddressInfo) (count : ℕ) (recent : Bool) (w : World)
      → (recent ≡ false → IsDue config x w0 info)
      → Clean w
      → Clean (unless_recent config x info count (ok recent) w).1
  unless-Clean info count true w due h = h
  unless-Clean info count false w due h = (clean_one-Clean info count (due refl)).keep w h

  -- A paid invoice's turn, by the answer about its payments.
  recent-Clean :
      (info : CleanupAddressInfo) (count : ℕ) (w : World)
      → IsSelected has_paid w0 info
      → Clean w
      → Clean
          ((attempt (within_paid_grace_period config x info.invoice_id)
              >>= unless_recent config x info count)
            w).1
  recent-Clean info count w paid h = elim (within-cases info.invoice_id w) [
    | inl down ↦
        rw
          (attempt-bind (within_paid_grace_period config x info.invoice_id)
            (unless_recent config x info count) w down)
          (tick-Clean w h)
    | inr up ↦
        rw
          (attempt-bind (within_paid_grace_period config x info.invoice_id)
            (unless_recent config x info count) w up)
          (unless-Clean info count _ (tick w)
            (λ over. settled paid.0 paid.1 (has_paid-status paid.0 paid.2) (
              rows-IsOverdue config x w0.now info.invoice_id w0.payments (
                ap
                  (λ n.
                    any (is_recent config x n) (filter (is_payment_of info.invoice_id) w0.payments))
                  (sym h.now)
                ∙ ap
                    (λ ps.
                      any (is_recent config x w.now) (filter (is_payment_of info.invoice_id) ps))
                    (sym h.payments)
                ∙ over)))
            (tick-Clean w h))
  ]

  pub clean_paid_each-Clean :
      (count : ℕ) (infos : List CleanupAddressInfo)
      → All (IsSelected has_paid w0) infos
      → Keeps Clean (clean_paid_each config x count infos)
  unfolding clean_paid_each
  clean_paid_each-Clean count [] paid = keep_pure count
  clean_paid_each-Clean count (info ∷ infos) paid =
      keep_bind (record { keep = λ w h. recent-Clean info count w paid.0 h })
        (λ n. clean_paid_each-Clean n infos paid.1)
