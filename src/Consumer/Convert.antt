-- ===== src/Consumer/Convert.antt =====
-- Conversion of raw token amounts, server/src/services/event_consumer/mod.rs.
use ethpayserver.Base.{ℕ, String, Bool, Option, none, some, ◌&&◌, if◌then◌else◌}
use ethpayserver.External.{Crates}

module _ (x : Crates) where
  open x use {D, zero, div, powi, from_nat, le_bool, from_str, round_18, to_plain_string}

  unfoldable pub is_zero : D → Bool
  is_zero d = le_bool d zero && le_bool zero d

  unfoldable pub compute_decimal_divisor : ℕ → D
  compute_decimal_divisor decimals = powi (from_nat 10) decimals

  unfoldable pub format_amount : D → String
  format_amount value = to_plain_string (round_18 value)

  -- The raw amount is the text of a natural number, which parses.
  unfoldable pub convert_at_rate : ℕ → Option D → ℕ → Option String
  unfolding is_zero compute_decimal_divisor format_amount
  convert_at_rate raw none decimals = none
  convert_at_rate raw (some rate) decimals =
      if is_zero rate
      then none
      else some (format_amount (div (div (from_nat raw) (compute_decimal_divisor decimals)) rate))

  unfoldable pub convert_payment_to_invoice_currency : ℕ → String → ℕ → Option String
  unfolding convert_at_rate
  convert_payment_to_invoice_currency raw rate_str decimals =
      convert_at_rate raw (from_str rate_str) decimals

  unfoldable pub convert_smallest_to_human : ℕ → ℕ → Option String
  unfolding compute_decimal_divisor format_amount
  convert_smallest_to_human raw decimals =
      some (format_amount (div (from_nat raw) (compute_decimal_divisor decimals)))
