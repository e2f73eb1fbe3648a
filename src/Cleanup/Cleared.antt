-- ===== src/Cleanup/Cleared.antt =====
-- A pass whose services answer: server/src/services/invoice_cleanup.rs.
use ethpayserver.Base.{
  ◌<◌, ◌⊎◌, none, ltb, arith, All, true, ℕ, ◌+◌, ◌≡◌, refl, ap, ◌∙◌, Bool, false, inl, inr,
  Option-cases, Option, some, List, [], ◌∷◌, ◌++◌,
}
use ethpayserver.Database.Rows.{InvoiceData, WatchRow, World, Notice, unwatch, expired, cancelled}
use ethpayserver.Database.Monad.{
  Result, ok, err, invalid_data, ◌>>=◌, call, call-up, notify, tick, bind-ok,
}
use ethpayserver.Cleanup.Watched.{
  CleanupAddressInfo, joined, rows_for_cleanup, expiry_of, creation_of, is_past_grace,
  was_cancelled, selected, get_expired_for_cleanup, get_cancelled_for_cleanup, deactivate_rows,
  deactivate,
}
use ethpayserver.Cleanup.Addresses.{
  Reading, CleanupConfig, parse_token, unwatch_parsed, count_unwatched, unwatch_and_deactivate,
  clean_one, clean_each, cleanup_expired_addresses, cleanup_cancelled_addresses,
}
use ethpayserver.Cleanup.Ends.{told_at, told_at-none, told_at-some, end_if, end_each}
use ethpayserver.Cleanup.Free.{IsFree, select_rows-IsFree}
use ethpayserver.Cleanup.Complete.{Few, left, select_rows-same}

abbrev pub IsPast : CleanupConfig → ℕ → InvoiceData → Type 0
IsPast config now inv =
    (inv.status ≡ expired) × (inv.expires_at + config.unwatch_grace_period_secs < now)

-- Every watch may stay.
abbrev pub IsClear : Reading → (InvoiceData → Type 0) → World → Type 0
IsClear x IsOpen w = All (IsFree x IsOpen w) w.watches

is_past_grace-closed :
    (grace now : ℕ) (inv : InvoiceData)
    → is_past_grace grace now inv ≡ false
    → (inv.status ≡ expired) × (inv.expires_at + grace < now)
    → ⊥
is_past_grace-closed grace now inv short (old, over) =
    let after : ltb (inv.expires_at + grace) now ≡ false = rw old at short in
    absurd (ground (arith, after, over))

was_cancelled-closed : (inv : InvoiceData) → was_cancelled inv ≡ false → inv.status ≡ cancelled → ⊥
was_cancelled-closed inv other off = let never : true ≡ false = rw off at other in cc never

module _ (config : CleanupConfig) (x : Reading) where
  -- Some count, and a state that differs in its watches, notices and calls.
  abbrev Ends : World → List WatchRow → Result ℕ × World → Type 0
  Ends w rows r =
      (n : ℕ) × (sent : List Notice) × (calls : ℕ) × (r
        ≡ (ok n, record w { watches = rows; sent = sent; calls = calls }))

  told :
      (info : CleanupAddressInfo) (addr eip155 : ℕ) (w : World)
      → ((n : ℕ) → w.down n ≡ false)
      → unwatch_parsed config x info (some addr) (some eip155) w
        ≡ deactivate_rows info.address info.chain_id info.token_address (
            tick (record (tick w) {
              sent = w.sent ++ unwatch eip155 addr (parse_token config x info.token_address) ∷ [];
            }))
  unfolding notify deactivate
  told info addr eip155 w up =
      let command = unwatch eip155 addr (parse_token config x info.token_address) in
      let v = record (tick w) { sent = w.sent ++ command ∷ [] } in
      bind-ok (call (notify command))
        (λ u. deactivate info.address info.chain_id info.token_address) w
        (call-up (notify command) w (up w.calls))
      ∙ call-up (deactivate_rows info.address info.chain_id info.token_address) v (up v.calls)

  -- An address that cannot be read, or is of another chain, is left as it is.
  unread :
      (info : CleanupAddressInfo) (addr eip155 : Option ℕ) (w : World)
      → (addr ≡ none) ⊎ (eip155 ≡ none)
      → unwatch_parsed config x info addr eip155 w ≡ (err invalid_data, w)
  unread info none eip155 w h = refl
  unread info (some addr) none w h = refl
  unread info (some addr) (some eip155) w (inl h) = cc h
  unread info (some addr) (some eip155) w (inr h) = cc h

  clean_one-Ends :
      (info : CleanupAddressInfo) (count : ℕ) (w : World)
      → ((n : ℕ) → w.down n ≡ false)
      → Ends w (end_if x info (told_at x info) w.watches) (clean_one config x info count w)
  unfolding unwatch_and_deactivate
  clean_one-Ends info count w up = elim (Option-cases (told_at x info)) [
    | inl broken ↦ simp broken (
      count,
      w.sent,
      w.calls,
      ap (λ r. count_unwatched config x count r.0 r.1)
          (unread info (x.parse_address info.address) (x.evm_chain_id info.chain_id) w
            (told_at-none x info broken)),
    )
    | inr (addr, read) ↦
        let (parsed, (eip155, evm)) = told_at-some x info addr read in
        simp (read, parsed, evm)
          (
            count + 1,
            w.sent ++ unwatch eip155 addr (parse_token config x info.token_address) ∷ [],
            w.calls + 1 + 1,
            ap (λ r. count_unwatched config x count r.0 r.1) (told info addr eip155 w up),
          )
  ]

  clean_each-Ends :
      (count : ℕ) (infos : List CleanupAddressInfo) (w : World)
      → ((n : ℕ) → w.down n ≡ false)
      → Ends w (end_each x infos w.watches) (clean_each config x count infos w)
  unfolding clean_each
  clean_each-Ends count [] w up = (count, w.sent, w.calls, refl)
  clean_each-Ends count (info ∷ infos) w up =
      let (n, sent, calls, one) = clean_one-Ends info count w up in
      let v = record w {
        watches = end_if x info (told_at x info) w.watches;
        sent = sent;
        calls = calls;
      } in
      let (m, sent', calls', rest) = clean_each-Ends n infos v up in
      (
        m,
        sent',
        calls',
        bind-ok (clean_one config x info count) (λ k. clean_each config x k infos) w one ∙ rest,
      )

  -- A query of the rows of one kind, and their turns.
  phase-IsClear :
      (p : InvoiceData → Bool) (IsOpen : InvoiceData → Type 0)
      (closed : (inv : InvoiceData) → p inv ≡ false → IsOpen inv → ⊥) (key : InvoiceData → ℕ)
      (f : World → List CleanupAddressInfo) (w : World)
      → ((n : ℕ) → w.down n ≡ false)
      → Few p w
      → f (tick w) ≡ rows_for_cleanup p key w
      → IsClear x IsOpen ((call (selected f) >>= clean_each config x 0) w).1
  unfolding joined
  phase-IsClear p IsOpen closed key f w up few same =
      let (n, sent, calls, done) = clean_each-Ends 0 (f (tick w)) (tick w) up in
      let final = end_each x (f (tick w)) w.watches in
      let v = record w { watches = final; sent = sent; calls = calls } in
      rw
        (bind-ok (call (selected f)) (clean_each config x 0) w (call-up (selected f) w (up w.calls))
          ∙ done)
        (select_rows-IsFree x IsOpen v p closed final
          (rw (select_rows-same p w v (λ r. refl) final) (rw same (left x p key w few))))

  rows-tick :
      (p : InvoiceData → Bool) (key : InvoiceData → ℕ) (w : World)
      → rows_for_cleanup p key (tick w) ≡ rows_for_cleanup p key w
  unfolding rows_for_cleanup joined
  rows-tick p key w = rw (select_rows-same p w (tick w) (λ r. refl) w.watches) refl

-- While the database and the monitor answer and at most 100 rows are selected: behind the pass over
-- the addresses of expired invoices, every watch has ended, has an address that cannot be read or
-- a chain that is none of the EVM, or has no invoice that has been expired for longer than the
-- grace period; and behind the pass over those of cancelled invoices likewise, with no cancelled
-- invoice.
pub cleanup_clears :
    (config : CleanupConfig) (x : Reading) (w : World)
    → ((n : ℕ) → w.down n ≡ false)
    → Few (is_past_grace config.unwatch_grace_period_secs w.now) w
    → Few was_cancelled w
    → IsClear x (IsPast config w.now) (cleanup_expired_addresses config x w).1
      × IsClear x (λ inv. inv.status ≡ cancelled) (cleanup_cancelled_addresses config x w).1
unfolding cleanup_expired_addresses get_expired_for_cleanup cleanup_cancelled_addresses
    get_cancelled_for_cleanup
cleanup_clears config x w up few_expired few_cancelled =
    let past = is_past_grace config.unwatch_grace_period_secs in
    (
      phase-IsClear config x (past w.now) (IsPast config w.now)
          (is_past_grace-closed config.unwatch_grace_period_secs w.now) expiry_of
          (λ v. rows_for_cleanup (past v.now) expiry_of v) w up few_expired
          (rows-tick config x (past w.now) expiry_of w),
      phase-IsClear config x was_cancelled (λ inv. inv.status ≡ cancelled) was_cancelled-closed
          creation_of (rows_for_cleanup was_cancelled creation_of) w up few_cancelled
          (rows-tick config x was_cancelled creation_of w),
    )
