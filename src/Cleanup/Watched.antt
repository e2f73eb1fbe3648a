-- ===== src/Cleanup/Watched.antt =====
-- The watched addresses that a clean-up reads and ends: data-service/src/postgres/watched_address.rs,
-- with the payments of an invoice from data-service/src/postgres/payment.rs.
use ethpayserver.Base.{
  ℕ, zero, suc, ◌+◌, String, Bool, true, false, ◌&&◌, ◌==◌, Option, none, some, List, [], ◌∷◌, map,
  any, leb, ltb, filter, if◌then◌else◌,
}
use ethpayserver.Base.Dict.{get}
use ethpayserver.Database.Rows.{
  InvoiceStatus, expired, paid, cancelled, InvoiceData, PaymentRow, PaymentOptionData, WatchRow,
  World,
}
use ethpayserver.Database.Monad.{ok, M, call}
use ethpayserver.Database.Settings.{is_watch_of}

pub record CleanupAddressInfo : Type 0 where
  pub address : String
  pub payment_option_id : ℕ
  pub invoice_id : ℕ
  pub chain_id : ℕ
  pub token_address : Option String

abbrev pub has_expired : InvoiceStatus → Bool
has_expired expired = true
has_expired _ = false

abbrev pub is_paid : InvoiceStatus → Bool
is_paid paid = true
is_paid _ = false

abbrev pub is_cancelled : InvoiceStatus → Bool
is_cancelled cancelled = true
is_cancelled _ = false

abbrev pub info_for : WatchRow → ℕ → CleanupAddressInfo
info_for r invoice_id = record {
  address = r.address;
  payment_option_id = r.payment_option_id;
  invoice_id = invoice_id;
  chain_id = r.chain_id;
  token_address = r.token_address;
}

-- The joins with `payment_options` and `invoices`.
abbrev pub with_invoice :
    WatchRow → ℕ → Option InvoiceData → Option (CleanupAddressInfo × InvoiceData)
with_invoice r invoice_id none = none
with_invoice r invoice_id (some inv) = some (info_for r invoice_id, inv)

abbrev pub with_option :
    World → WatchRow → Option PaymentOptionData → Option (CleanupAddressInfo × InvoiceData)
with_option w r none = none
with_option w r (some po) = with_invoice r po.invoice_id (get po.invoice_id w.invoices)

unfoldable pub joined : World → WatchRow → Option (CleanupAddressInfo × InvoiceData)
joined w r = with_option w r (get r.payment_option_id w.options)

abbrev pub row_if :
    (InvoiceData → Bool)
    → Bool
    → Option (CleanupAddressInfo × InvoiceData)
    → List (CleanupAddressInfo × InvoiceData)
    → List (CleanupAddressInfo × InvoiceData)
row_if p active none rest = rest
row_if p active (some (info, inv)) rest = if active && p inv then (info, inv) ∷ rest else rest

unfoldable pub select_rows :
    (InvoiceData → Bool) → World → List WatchRow → List (CleanupAddressInfo × InvoiceData)
unfolding joined
select_rows p w [] = []
select_rows p w (r ∷ rows) = row_if p r.is_active (joined w r) (select_rows p w rows)

-- `ORDER BY .. ASC`.
unfoldable pub insert_by :
    (InvoiceData → ℕ)
    → CleanupAddressInfo × InvoiceData
    → List (CleanupAddressInfo × InvoiceData)
    → List (CleanupAddressInfo × InvoiceData)
insert_by key (info, inv) [] = (info, inv) ∷ []
insert_by key (info, inv) ((info', inv') ∷ rows) =
    let rest = insert_by key (info, inv) rows in
    if leb (key inv) (key inv') then (info, inv) ∷ (info', inv') ∷ rows else (info', inv') ∷ rest

unfoldable pub sort_by :
    (InvoiceData → ℕ)
    → List (CleanupAddressInfo × InvoiceData)
    → List (CleanupAddressInfo × InvoiceData)
unfolding insert_by
sort_by key [] = []
sort_by key (row ∷ rows) = insert_by key row (sort_by key rows)

abbrev pub first_infos : ℕ → List (CleanupAddressInfo × InvoiceData) → List CleanupAddressInfo
first_infos zero rows = []
first_infos (suc n) [] = []
first_infos (suc n) ((info, inv) ∷ rows) = info ∷ first_infos n rows

unfoldable pub rows_for_cleanup :
    (InvoiceData → Bool) → (InvoiceData → ℕ) → World → List CleanupAddressInfo
unfolding select_rows sort_by
rows_for_cleanup p key w = first_infos 100 (sort_by key (select_rows p w w.watches))

abbrev pub expiry_of : InvoiceData → ℕ
expiry_of inv = inv.expires_at

abbrev pub creation_of : InvoiceData → ℕ
creation_of inv = inv.created_at

-- `i.status = 'expired' AND i.expires_at < NOW() - make_interval(secs => $1)`.
abbrev pub is_past_grace : ℕ → ℕ → InvoiceData → Bool
is_past_grace grace now inv = has_expired inv.status && ltb (inv.expires_at + grace) now

abbrev pub has_paid : InvoiceData → Bool
has_paid inv = is_paid inv.status

abbrev pub was_cancelled : InvoiceData → Bool
was_cancelled inv = is_cancelled inv.status

-- A `SELECT`.
abbrev pub selected : {A : Type 0} → (World → A) → M A
selected f w = (ok (f w), w)

unfoldable pub get_expired_for_cleanup : ℕ → M (List CleanupAddressInfo)
unfolding rows_for_cleanup
get_expired_for_cleanup grace =
    call (selected λ w. rows_for_cleanup (is_past_grace grace w.now) expiry_of w)

unfoldable pub get_paid_for_cleanup : M (List CleanupAddressInfo)
unfolding rows_for_cleanup
get_paid_for_cleanup = call (selected (rows_for_cleanup has_paid creation_of))

unfoldable pub get_cancelled_for_cleanup : M (List CleanupAddressInfo)
unfolding rows_for_cleanup
get_cancelled_for_cleanup = call (selected (rows_for_cleanup was_cancelled creation_of))

unfoldable pub deactivate_row : String → ℕ → Option String → WatchRow → WatchRow
deactivate_row address chain_id token_address r =
    if is_watch_of address chain_id token_address r then record r { is_active = false } else r

-- `UPDATE watched_addresses SET is_active = FALSE`, and whether a row was updated.
abbrev pub deactivate_rows : String → ℕ → Option String → M Bool
deactivate_rows address chain_id token_address w = (
  ok (any (is_watch_of address chain_id token_address) w.watches),
  record w { watches = map (deactivate_row address chain_id token_address) w.watches },
)

unfoldable pub deactivate : String → ℕ → Option String → M Bool
unfolding deactivate_row
deactivate address chain_id token_address = call (deactivate_rows address chain_id token_address)

abbrev pub is_payment_of : ℕ → PaymentRow → Bool
is_payment_of invoice_id r = r.payment.invoice_id == invoice_id

-- Its reader asks for any payment, so the order of the rows is left out.
unfoldable pub get_for_invoice : ℕ → M (List PaymentRow)
get_for_invoice invoice_id = call (selected λ w. filter (is_payment_of invoice_id) w.payments)
