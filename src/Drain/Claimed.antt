-- ===== src/Drain/Claimed.antt =====
-- What a claim takes from the table, and what it leaves: data-service/src/postgres/webhook_outbox.rs.
use ethpayserver.Base.{
  ℕ, zero, suc, ◌≡◌, refl, Bool, Bool-cases, inl, inr, List, [], ◌∷◌, map, any, All, filter, leb,
}
use ethpayserver.Drain.Outbox.{
  WebhookObligation, Row, is_claimable, insert_row, order_rows, take, claimable, has_key, stamp,
  obligation_of,
}

-- What holds of every row holds of the rows claimed.
module _ (P : Row → Type 0) where
  filter-All : (p : Row → Bool) (rows : List Row) → All P rows → All P (filter p rows)
  filter-All p [] h = tt
  filter-All p (r ∷ rows) h = elim (Bool-cases (p r)) [
    | inl yes_it_is ↦ rw yes_it_is (h.0, filter-All p rows h.1)
    | inr skip ↦ rw skip (filter-All p rows h.1)
  ]

  pub insert_row-All : (r : Row) (rows : List Row) → P r → All P rows → All P (insert_row r rows)
  unfolding insert_row
  insert_row-All r [] one h = (one, tt)
  insert_row-All r (s ∷ rows) one h =
      elim (Bool-cases (leb r.obligation.created_at s.obligation.created_at)) [
        | inl first ↦ rw first (one, h)
        | inr behind ↦ rw behind (h.0, insert_row-All r rows one h.1)
      ]

  pub order_rows-All : (rows : List Row) → All P rows → All P (order_rows rows)
  unfolding order_rows
  order_rows-All [] h = tt
  order_rows-All (r ∷ rows) h = insert_row-All r (order_rows rows) h.0 (order_rows-All rows h.1)

  pub take-All : (n : ℕ) (rows : List Row) → All P rows → All P (take n rows)
  take-All zero rows h = tt
  take-All (suc n) [] h = tt
  take-All (suc n) (r ∷ rows) h = (h.0, take-All n rows h.1)

  pub claimable-All :
      (limit now : ℕ) (rows : List Row) → All P rows → All P (claimable limit now rows)
  unfolding claimable
  claimable-All limit now rows h =
      take-All limit (order_rows (filter (is_claimable now) rows))
        (order_rows-All (filter (is_claimable now) rows) (filter-All (is_claimable now) rows h))

module _ (Q : WebhookObligation → Type 0) where
  pub All-rows : (rows : List Row) → All Q (map obligation_of rows) → All (λ r. Q r.obligation) rows
  All-rows [] h = tt
  All-rows (r ∷ rows) h = (h.0, All-rows rows h.1)

  pub All-obligations :
      (rows : List Row) → All (λ r. Q r.obligation) rows → All Q (map obligation_of rows)
  All-obligations [] h = tt
  All-obligations (r ∷ rows) h = (h.0, All-obligations rows h.1)

-- A stamp changes the claim only.
pub stamp-same :
    (until : ℕ) (picked : List Row) (r : Row)
    → ((stamp until picked r).obligation ≡ r.obligation)
      × ((stamp until picked r).dispatched_at ≡ r.dispatched_at)
unfolding stamp
stamp-same until picked r = elim (Bool-cases (any (has_key r.obligation.id) picked)) [
  | inl taken ↦ simp taken (refl, refl)
  | inr left ↦ simp left (refl, refl)
]

pub stamped-obligations :
    (until : ℕ) (picked rows : List Row)
    → map obligation_of (map (stamp until picked) rows) ≡ map obligation_of rows
stamped-obligations until picked [] = refl
stamped-obligations until picked (r ∷ rows) =
    rw ((stamp-same until picked r).0, stamped-obligations until picked rows) refl
