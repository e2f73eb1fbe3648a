-- ===== src/Consumer/Detected.antt =====
-- The handler of `PaymentDetected`, server/src/services/event_consumer/payment_handler.rs.
use ethpayserver.Base.{
  ℕ, ◌+◌, String, Bool, false, not, Option, none, some, ◌&&◌, ◌==◌, find, if◌then◌else◌,
}
use ethpayserver.Base.Text.{trim, is_empty_str, eq_ignore_case}
use ethpayserver.External.{Crates}
use ethpayserver.Network.{ChainConfig, get_any_chain_config}
use ethpayserver.Event.{PaymentDetected, tx_index}
use ethpayserver.Database.Rows.{
  AssetType, native, erc20, PaymentData, PaymentOptionData, TokenRow, ws_payment,
}
use ethpayserver.Database.Monad.{invalid_data, ok, M, pure, ◌>>=◌, ◌>>◌, or_throw}
use ethpayserver.Database.Payments.{upsert_with_tx_index_and_obligation}
use ethpayserver.Database.Settings.{
  get_payment_option, get_options_for_invoice, same_token, get_payment_option_id,
  get_token_by_address,
}
use ethpayserver.Consumer.Services.{Services, notify_if}
use ethpayserver.Consumer.Convert.{convert_payment_to_invoice_currency, convert_smallest_to_human}

unfoldable pub asset_symbol_for : Option String → String
asset_symbol_for none = "ERC20"
asset_symbol_for (some symbol) = if not (is_empty_str (trim symbol)) then symbol else "ERC20"

unfoldable pub symbol_of_token : Option TokenRow → Option String
symbol_of_token none = none
symbol_of_token (some t) = t.symbol

unfoldable pub native_symbol : Option ChainConfig → String
native_symbol none = "ETH"
native_symbol (some c) = c.native_symbol

pub record Asset : Type 0 where
  pub asset_type : AssetType
  pub symbol : String
  pub token_address : Option String

-- The credited amount, the rate used and when it was applied.
pub record Credit : Type 0 where
  pub amount : Option String
  pub rate_used : Option String
  pub applied_at : Option ℕ

unfoldable pub no_credit : Credit
no_credit = record { amount = none; rate_used = none; applied_at = none }

-- `Uuid::new_v4()`: an identifier that was not drawn before.
unfoldable pub new_id : M ℕ
new_id w = (ok w.fresh, record w { fresh = w.fresh + 1 })

unfoldable pub current_time : M ℕ
current_time w = (ok w.now, w)

abbrev pub option_id : Option PaymentOptionData → Option ℕ
option_id none = none
option_id (some po) = some po.id

unfoldable pub pays_to : String → ℕ → Option String → PaymentOptionData → Bool
pays_to address chain_id token_address po =
    eq_ignore_case po.payment_address address
    && po.chain_id == chain_id
    && same_token po.token_address token_address

module _ (x : Crates) where
  unfoldable pub token_asset : ℕ → ℕ → M Asset
  unfolding asset_symbol_for symbol_of_token
  token_asset chain_id token = do
    let address = x.format_address token
    found ← get_token_by_address chain_id address
    pure (record {
      asset_type = erc20;
      symbol = asset_symbol_for (symbol_of_token found);
      token_address = some address;
    })

  unfoldable pub asset_of : PaymentDetected → M Asset
  unfolding token_asset native_symbol
  asset_of e =
      if e.is_native
      then pure (record {
        asset_type = native;
        symbol = native_symbol (get_any_chain_config e.chain_id);
        token_address = none;
      })
      else (or_throw e.token_address invalid_data >>= token_asset e.chain_id)

  -- The watch names the option; without one, the invoice's options are searched.
  unfoldable pub late_option : PaymentDetected → String → Option String → Option ℕ → M (Option ℕ)
  unfolding pays_to
  late_option e address token_address (some id) = pure (some id)
  late_option e address token_address none = do
    options ← get_options_for_invoice e.invoice_id
    pure (option_id (find (pays_to address e.chain_id token_address) options))

  unfoldable pub find_option : PaymentDetected → Option String → M (Option ℕ)
  unfolding late_option
  find_option e token_address = do
    let address = x.format_address e.payment_address
    watched ← get_payment_option_id address e.chain_id token_address
    late_option e address token_address watched

  unfoldable pub converted : Option String → Option String → Option ℕ → Credit
  unfolding no_credit
  converted none rate at = no_credit
  converted (some amount) rate at = record {
    amount = some amount;
    rate_used = rate;
    applied_at = at;
  }

  unfoldable pub credit_with : ℕ → PaymentOptionData → Option String → M Credit
  unfolding converted current_time
  credit_with raw po (some rate) = do
    at ← current_time
    pure (
        converted (convert_payment_to_invoice_currency x raw rate po.decimals) (some rate)
          (some at))
  credit_with raw po none = pure (converted (convert_smallest_to_human x raw po.decimals) none none)

  unfoldable pub credit_by : ℕ → Option PaymentOptionData → M Credit
  unfolding credit_with no_credit
  credit_by raw none = pure no_credit
  credit_by raw (some po) = credit_with raw po po.rate

  unfoldable pub credit_of : ℕ → Option ℕ → M Credit
  unfolding credit_by no_credit
  credit_of raw none = pure no_credit
  credit_of raw (some id) = get_payment_option id >>= credit_by raw

  unfoldable pub payment_data : PaymentDetected → ℕ → Asset → Option ℕ → Credit → PaymentData
  payment_data e id asset payment_option_id credit = record {
    id = id;
    invoice_id = e.invoice_id;
    payment_option_id = payment_option_id;
    chain_id = e.chain_id;
    asset_type = asset.asset_type;
    amount = e.amount;
    asset_symbol = asset.symbol;
    token_address = asset.token_address;
    tx_hash = x.format_hash e.tx_hash;
    block_number = some e.block_number;
    detected_at = e.detected_at;
    confirmed_at = none;
    from_address = some (x.format_address e.from_address);
    reorged = false;
    extra = none;
    credited_amount = credit.amount;
    rate_used = credit.rate_used;
    rate_applied_at = credit.applied_at;
  }

  unfoldable pub handle_payment_detected : Services → PaymentDetected → M (Unit {0})
  unfolding asset_of find_option credit_of payment_data new_id
  handle_payment_detected s e = do
    asset ← asset_of e
    payment_option_id ← find_option e asset.token_address
    credit ← credit_of e.amount payment_option_id
    id ← new_id
    let payment = payment_data e id asset payment_option_id credit
    index ← or_throw (tx_index e) invalid_data
    upsert_with_tx_index_and_obligation x payment index "payment_detected"
    notify_if s.ws_broadcast (ws_payment id e.invoice_id credit.amount)
