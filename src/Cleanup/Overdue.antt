-- ===== src/Cleanup/Overdue.antt =====
-- What the grace period of a paid invoice asks of its payments:
-- server/src/services/invoice_cleanup.rs.
use ethpayserver.Base.{
  ℕ, ◌+◌, ◌≤◌, ◌≡◌, ◌≢◌, ◌⊎◌, refl, Bool, true, false, ◌==◌, ==_iff, Bool-cases, inl, inr,
  Option-cases, none, some, List, [], ◌∷◌, ◌||◌, All, any, filter, ltb, max, arith,
}
use ethpayserver.Network.{ChainConfig, get_any_chain_config, min_paid_unwatch_grace_period_secs}
use ethpayserver.Database.Rows.{PaymentRow}
use ethpayserver.Cleanup.Watched.{is_payment_of}
use ethpayserver.Cleanup.Addresses.{
  CleanupConfig, Reading, floor_of, effective_paid_unwatch_grace_period_secs, is_recent,
}

or-false : (a b : Bool) → (a || b) ≡ false → (a ≡ false) × (b ≡ false)
or-false true b h = cc h
or-false false b h = (refl, h)

module _ (config : CleanupConfig) (x : Reading) (now : ℕ) where
  -- The chain asks for no more than has passed, where it is a known one of the EVM.
  abbrev pub IsPastFloor : ℕ → ℕ → Type 0
  IsPastFloor chain_id at =
      (x.evm_chain_id chain_id ≡ none)
      ⊎ ((n : ℕ) × (x.evm_chain_id chain_id ≡ some n) × (get_any_chain_config n ≡ none))
      ⊎ ((n : ℕ) × (c : ChainConfig) × (x.evm_chain_id chain_id ≡ some n)
          × (get_any_chain_config n ≡ some c)
          × (at + min_paid_unwatch_grace_period_secs c ≤ now))

  -- The payment is another invoice's, is not confirmed, or was confirmed before both the
  -- configured period and that of its chain.
  abbrev pub IsOverdue : ℕ → PaymentRow → Type 0
  IsOverdue id r =
      (r.payment.invoice_id ≢ id)
      ⊎ (r.payment.confirmed_at ≡ none)
      ⊎ ((at : ℕ) × (r.payment.confirmed_at ≡ some at)
          × (at + config.paid_unwatch_grace_period_secs ≤ now)
          × IsPastFloor r.payment.chain_id at)

  past-both : (at a b : ℕ) → ltb now (at + max a b) ≡ false → (at + a ≤ now) × (at + b ≤ now)
  past-both at a b h = (ground (arith, h), ground (arith, h))

  floor-IsPastFloor :
      (chain_id at : ℕ)
      → at
          + floor_of config x (elim (x.evm_chain_id chain_id) [
            | none ↦ none
            | some eip155 ↦ get_any_chain_config eip155
          ])
        ≤ now
      → IsPastFloor chain_id at
  floor-IsPastFloor chain_id at h = elim (Option-cases (x.evm_chain_id chain_id)) [
    | inl other ↦ inl other
    | inr (n, evm) ↦ elim (Option-cases (get_any_chain_config n)) [
      | inl unknown ↦ inr (inl (n, evm, unknown))
      | inr (c, known) ↦ inr (inr (n, c, evm, known, rw (evm, known) at h))
    ]
  ]

  row-IsOverdue : (id : ℕ) (r : PaymentRow) → is_recent config x now r ≡ false → IsOverdue id r
  unfolding is_recent effective_paid_unwatch_grace_period_secs
  row-IsOverdue id r h = elim (Option-cases r.payment.confirmed_at) [
    | inl waiting ↦ inr (inl waiting)
    | inr (at, confirmed) ↦
        let both = past-both at config.paid_unwatch_grace_period_secs _ (rw confirmed at h) in
        inr (inr (at, confirmed, both.0, floor-IsPastFloor r.payment.chain_id at both.1))
  ]

  pub rows-IsOverdue :
      (id : ℕ) (rows : List PaymentRow)
      → any (is_recent config x now) (filter (is_payment_of id) rows) ≡ false
      → All (IsOverdue id) rows
  rows-IsOverdue id [] = λ h. tt
  rows-IsOverdue id (r ∷ rows) = elim (Bool-cases (r.payment.invoice_id == id)) [
    | inl own ↦ rw own (λ h.
        let both = or-false (is_recent config x now r) _ h in
        (row-IsOverdue id r both.0, rows-IsOverdue id rows both.1))
    | inr other ↦ rw other (λ h. (
      inl (λ same. cc (other, (==_iff r.payment.invoice_id id).1 same)),
      rows-IsOverdue id rows h,
    ))
  ]
