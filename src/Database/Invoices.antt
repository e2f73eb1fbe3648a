-- ===== src/Database/Invoices.antt =====
-- The `invoices` table: data-service/src/postgres/invoice.rs.
use ethpayserver.Base.{
  ℕ, Bool, true, false, Option, none, some, List, ◌&&◌, ltb, map, filter, if◌then◌else◌,
}
use ethpayserver.Base.Dict.{insert}
use ethpayserver.Base.Dict
use ethpayserver.Database.Rows.{
  InvoiceStatus, pending, processing, partially_paid, expired, InvoiceData, World,
}
use ethpayserver.Database.Monad.{not_found, ok, err, M, call}

unfoldable pub get : ℕ → M (Option InvoiceData)
get id = call λ w. (ok (Dict.get id w.invoices), w)

unfoldable pub set_status : ℕ → InvoiceStatus → InvoiceData → World → World
set_status id status inv w = record w {
  invoices = insert id (record inv { status = status }) w.invoices;
}

unfoldable pub write_status : ℕ → InvoiceStatus → M (Unit {0})
unfolding set_status
write_status id status w = elim (Dict.get id w.invoices) [
  | none ↦ (err not_found, w)
  | some inv ↦ (ok tt, set_status id status inv w)
]

unfoldable pub update_status : ℕ → InvoiceStatus → M (Unit {0})
unfolding write_status
update_status id status = call (write_status id status)

-- `status IN ('pending', 'processing', 'partially_paid')`.
abbrev pub is_open : InvoiceStatus → Bool
is_open pending = true
is_open processing = true
is_open partially_paid = true
is_open _ = false

-- `get_expired` and `stream_expired_pending`: the open invoices past their time.
abbrev pub is_overdue : ℕ → ℕ × InvoiceData → Bool
is_overdue now (_, inv) = is_open inv.status && ltb inv.expires_at now

abbrev pub key_of : ℕ × InvoiceData → ℕ
key_of (k, _) = k

unfoldable pub stream_expired_pending : M (List ℕ)
stream_expired_pending = call λ w. (ok (map key_of (filter (is_overdue w.now) w.invoices)), w)

-- Whether a row was updated.
unfoldable pub expire_if : ℕ → Option InvoiceData → M Bool
unfolding set_status
expire_if id none w = (ok false, w)
expire_if id (some inv) w =
    if is_open inv.status then (ok true, set_status id expired inv w) else (ok false, w)

unfoldable pub expire_row : ℕ → M Bool
unfolding expire_if
expire_row id w = expire_if id (Dict.get id w.invoices) w

unfoldable pub expire : ℕ → M Bool
unfolding expire_row
expire id = call (expire_row id)
