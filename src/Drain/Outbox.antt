-- ===== src/Drain/Outbox.antt =====
-- The table of obligations: data-service/src/webhook_outbox.rs and postgres/webhook_outbox.rs.
use Prim.Native.String.{String}
use ethpayserver.Base.{
  ℕ, zero, suc, ◌+◌, Bool, true, not, ◌&&◌, ◌==◌, Option, none, some, is_some, List, [], ◌∷◌, any,
  filter, map, leb, ltb, if◌then◌else◌,
}

-- What `WebhookObligation` has.
pub record WebhookObligation : Type 0 where
  pub id : ℕ
  pub payment_id : ℕ
  pub invoice_id : ℕ
  pub event_type : String
  pub created_at : ℕ

pub record Row : Type 0 where
  pub obligation : WebhookObligation
  pub dispatched_at : Option ℕ
  pub claimed_until : Option ℕ

abbrev pub is_over : ℕ → Option ℕ → Bool
is_over now none = true
is_over now (some until) = ltb until now

unfoldable pub is_claimable : ℕ → Row → Bool
is_claimable now r = not (is_some r.dispatched_at) && is_over now r.claimed_until

-- `ORDER BY created_at ASC`.
unfoldable pub insert_row : Row → List Row → List Row
insert_row r [] = r ∷ []
insert_row r (s ∷ rows) =
    let rest = insert_row r rows in
    if leb r.obligation.created_at s.obligation.created_at then r ∷ s ∷ rows else s ∷ rest

unfoldable pub order_rows : List Row → List Row
unfolding insert_row
order_rows [] = []
order_rows (r ∷ rows) = insert_row r (order_rows rows)

abbrev pub take : ℕ → List Row → List Row
take zero rows = []
take (suc n) [] = []
take (suc n) (r ∷ rows) = r ∷ take n rows

unfoldable pub claimable : ℕ → ℕ → List Row → List Row
unfolding order_rows is_claimable
claimable limit now rows = take limit (order_rows (filter (is_claimable now) rows))

abbrev pub has_key : ℕ → Row → Bool
has_key id r = r.obligation.id == id

unfoldable pub stamp : ℕ → List Row → Row → Row
stamp until picked r =
    if any (has_key r.obligation.id) picked then record r { claimed_until = some until } else r

unfoldable pub set_dispatched : ℕ → ℕ → Row → Row
set_dispatched id now r = if has_key id r then record r { dispatched_at = some now } else r

abbrev pub obligation_of : Row → WebhookObligation
obligation_of r = r.obligation

-- The statements of the two calls: the rows claimed, and the table behind it.
unfoldable pub claim_rows : ℕ → ℕ → ℕ → List Row → List WebhookObligation × List Row
unfolding claimable stamp
claim_rows limit visibility_secs now rows =
    let picked = claimable limit now rows in
    (map obligation_of picked, map (stamp (now + visibility_secs) picked) rows)

unfoldable pub mark_rows : ℕ → ℕ → List Row → List Row
unfolding set_dispatched
mark_rows id now rows = map (set_dispatched id now) rows
