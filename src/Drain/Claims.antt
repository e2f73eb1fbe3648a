-- ===== src/Drain/Claims.antt =====
-- Two instances of the drain: data-service/src/postgres/webhook_outbox.rs.
use ethpayserver.Base.{
  ℕ, ◌+◌, ◌≤◌, ◌≡◌, refl, ◌∙◌, Bool, true, false, ◌&&◌, Bool-cases, inl, inr, ◌==◌, List, [], ◌∷◌,
  map, any, All, filter, ltb, if◌then◌else◌, arith,
}
use ethpayserver.Drain.Outbox.{
  WebhookObligation, Row, is_claimable, order_rows, claimable, has_key, stamp, obligation_of,
  claim_rows,
}
use ethpayserver.Drain.Claimed.{order_rows-All, take-All, All-obligations, stamp-same}

-- One of the obligations has the key.
abbrev pub names : ℕ → List WebhookObligation → Bool
names id [] = false
names id (o ∷ claimed) = if o.id == id then true else names id claimed

names-picked :
    (id : ℕ) (picked : List Row) → names id (map obligation_of picked) ≡ any (has_key id) picked
names-picked id [] = refl
names-picked id (r ∷ picked) = elim (Bool-cases (r.obligation.id == id)) [
  | inl same ↦ rw same refl
  | inr other ↦ rw other (names-picked id picked)
]

filter-holds :
    (P : Row → Type 0) (p : Row → Bool) (rows : List Row)
    → All (λ r. p r ≡ true → P r) rows
    → All P (filter p rows)
filter-holds P p [] h = tt
filter-holds P p (r ∷ rows) h = elim (Bool-cases (p r)) [
  | inl kept ↦ rw kept (h.0 kept, filter-holds P p rows h.1)
  | inr skipped ↦ rw skipped (filter-holds P p rows h.1)
]

not-over : (until later : ℕ) → later ≤ until → ltb until later ≡ false
not-over until later h = ground (arith, h)

and-false : (a : Bool) → (a && false) ≡ true → ⊥
and-false true h = cc h
and-false false h = cc h

-- A row that is stamped is not claimable while the stamp lasts.
stamp-claimable :
    (until later : ℕ) (picked : List Row) (r : Row)
    → later ≤ until
    → is_claimable later (stamp until picked r) ≡ true
    → any (has_key r.obligation.id) picked ≡ false
unfolding stamp is_claimable
stamp-claimable until later picked r soon =
    elim (Bool-cases (any (has_key r.obligation.id) picked)) [
      | inr free ↦ λ h. free
      | inl taken ↦ simp (taken, not-over until later soon) (λ h. absurd (and-false _ h))
    ]

-- Not among the rows claimed before.
abbrev Free : List Row → Row → Type 0
Free picked r = names r.obligation.id (map obligation_of picked) ≡ false

stamped-Free :
    (until later : ℕ) (picked rows : List Row)
    → later ≤ until
    → All (λ r. is_claimable later r ≡ true → Free picked r) (map (stamp until picked) rows)
stamped-Free until later picked [] soon = tt
stamped-Free until later picked (r ∷ rows) soon = (
  (λ h.
      rw (stamp-same until picked r).0
        (names-picked r.obligation.id picked ∙ stamp-claimable until later picked r soon h)),
  stamped-Free until later picked rows soon,
)

-- As long as a claim's visibility lasts, no later claim, of any size, takes an obligation of it.
pub claims_disjoint :
    (limit visibility_secs now limit' visibility_secs' later : ℕ) (rows : List Row)
    → later ≤ now + visibility_secs
    → All
        (λ o. names o.id (claim_rows limit visibility_secs now rows).0 ≡ false)
        (claim_rows limit' visibility_secs' later (claim_rows limit visibility_secs now rows).1).0
unfolding claim_rows claimable
claims_disjoint limit visibility_secs now limit' visibility_secs' later rows soon =
    let picked = claimable limit now rows in
    let until = now + visibility_secs in
    All-obligations (λ o. names o.id (map obligation_of picked) ≡ false)
      (claimable limit' later (map (stamp until picked) rows))
      (take-All (Free picked) limit'
        (order_rows (filter (is_claimable later) (map (stamp until picked) rows)))
        (order_rows-All (Free picked) (filter (is_claimable later) (map (stamp until picked) rows))
          (filter-holds (Free picked) (is_claimable later) (map (stamp until picked) rows)
            (stamped-Free until later picked rows soon))))
