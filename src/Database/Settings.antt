-- ===== src/Database/Settings.antt =====
-- Settings of stores, payment options, watched addresses and tokens: the readers and writers of
-- data-service/src/postgres/settlement_tolerance.rs, payment_option.rs, watched_address.rs and
-- token.rs that the event consumer calls.
use ethpayserver.Base.{
  ℕ, String, Bool, true, false, Option, none, some, List, ◌&&◌, ◌==◌, is_some, filter, find, map,
  if◌then◌else◌,
}
use ethpayserver.Base.Dict.{get, insert}
use ethpayserver.Base.Text.{eq_ignore_case}
use ethpayserver.External.{Crates}
use ethpayserver.Database.Rows.{PaymentOptionData, WatchRow, TokenRow}
use ethpayserver.Database.Monad.{constraint, ok, err, M, call}

unfoldable pub get_settlement_tolerance : ℕ → M (Option String)
get_settlement_tolerance store_id = call λ w. (ok (get store_id w.tolerances), w)

-- `shortfall`, `tolerance_percent` and `source` of the new row replace the old one's.
unfoldable pub write_allowance : Crates → ℕ → String → String → String → M (Unit {0})
write_allowance x invoice_id shortfall tolerance_percent source w =
    if is_some (x.from_str shortfall) && is_some (x.from_str tolerance_percent)
    then (
      ok tt,
      record w {
        allowances =
            insert invoice_id
              (record {
                shortfall = shortfall;
                tolerance_percent = tolerance_percent;
                source = source;
                recorded_at = w.now;
              })
              w.allowances;
      },
    )
    else (err constraint, w)

unfoldable pub record_settlement_allowance : Crates → ℕ → String → String → String → M (Unit {0})
unfolding write_allowance
record_settlement_allowance x invoice_id shortfall tolerance_percent source =
    call (write_allowance x invoice_id shortfall tolerance_percent source)

unfoldable pub get_payment_option : ℕ → M (Option PaymentOptionData)
get_payment_option id = call λ w. (ok (get id w.options), w)

abbrev pub option_of : ℕ × PaymentOptionData → PaymentOptionData
option_of (_, po) = po

abbrev pub is_for : ℕ → ℕ × PaymentOptionData → Bool
is_for invoice_id (_, po) = po.invoice_id == invoice_id

unfoldable pub get_options_for_invoice : ℕ → M (List PaymentOptionData)
get_options_for_invoice invoice_id =
    call λ w. (ok (map option_of (filter (is_for invoice_id) w.options)), w)

-- `LOWER(a) = LOWER(b)` for two tokens, `IS NULL` for none.
abbrev pub same_token : Option String → Option String → Bool
same_token none none = true
same_token (some a) (some b) = eq_ignore_case a b
same_token none (some _) = false
same_token (some _) none = false

unfoldable pub is_watch_of : String → ℕ → Option String → WatchRow → Bool
is_watch_of address chain_id token_address r =
    eq_ignore_case r.address address
    && r.chain_id == chain_id
    && same_token r.token_address token_address
    && r.is_active

abbrev pub watch_option : Option WatchRow → Option ℕ
watch_option none = none
watch_option (some r) = some r.payment_option_id

unfoldable pub get_payment_option_id : String → ℕ → Option String → M (Option ℕ)
unfolding is_watch_of
get_payment_option_id address chain_id token_address =
    call λ w. (ok (watch_option (find (is_watch_of address chain_id token_address) w.watches)), w)

unfoldable pub is_token_at : ℕ → String → TokenRow → Bool
is_token_at chain_id address t = t.chain_id == chain_id && eq_ignore_case t.address address

unfoldable pub get_token_by_address : ℕ → String → M (Option TokenRow)
unfolding is_token_at
get_token_by_address chain_id address =
    call λ w. (ok (find (is_token_at chain_id address) w.tokens), w)

-- `UPDATE watched_addresses SET monitor_notified = FALSE` for the chain's active watches.
unfoldable pub reset_watches : ℕ → List WatchRow → List WatchRow
reset_watches chain_id =
    map λ r.
      if r.chain_id == chain_id && r.is_active then record r { monitor_notified = false } else r
