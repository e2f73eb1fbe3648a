-- ===== src/Settlement.antt =====
-- Settlement tolerance: how far short of the invoice amount a payment may fall and still settle
-- it, server/src/services/settlement.rs and data-service/src/settlement_tolerance.rs.
pub mod Laws
use ethpayserver.Base.{ℕ, String, Bool, Option, none, some, not, if◌then◌else◌}
use ethpayserver.Base.Text.{trim}
use ethpayserver.External.{Crates}

abbrev pub default_tolerance_percent : String
default_tolerance_percent = "0.0001"

abbrev pub max_tolerance_percent : String
max_tolerance_percent = "0.1"

pub data ToleranceError : Type 0 where
  not_a_number negative invalid_ceiling exceeds_maximum : ToleranceError

pub data Parsed {ℓ} (A : Type ℓ) : Type ℓ where
  parsed : A → Parsed A
  refused : ToleranceError → Parsed A

-- Whether the tolerance is the store's own, or the server's default.
pub data Source : Type 0 where
  store default : Source

module _ (x : Crates) where
  open x use {D, zero, add, mul, div, from_nat, le_bool, from_str}

  unfoldable pub below_ceiling : D → Option D → Parsed D
  below_ceiling value none = refused invalid_ceiling
  below_ceiling value (some ceiling) =
      if not (le_bool value ceiling) then refused exceeds_maximum else parsed value

  unfoldable pub check_tolerance : Option D → Parsed D
  unfolding below_ceiling
  check_tolerance none = refused not_a_number
  check_tolerance (some value) =
      if not (le_bool zero value)
      then refused negative
      else below_ceiling value (from_str max_tolerance_percent)

  unfoldable pub parse_tolerance_percent : String → Parsed D
  unfolding check_tolerance
  parse_tolerance_percent raw = check_tolerance (from_str (trim raw))

  unfoldable pub tag_store : Parsed D → Parsed (D × Source)
  tag_store (parsed v) = parsed (v, store)
  tag_store (refused e) = refused e

  unfoldable pub tag_default : Option D → Parsed (D × Source)
  tag_default none = refused not_a_number
  tag_default (some v) = parsed (v, default)

  unfoldable pub effective_tolerance : Option String → Parsed (D × Source)
  unfolding tag_store tag_default
  effective_tolerance (some raw) = tag_store (parse_tolerance_percent raw)
  effective_tolerance none = tag_default (from_str default_tolerance_percent)

  unfoldable pub is_fully_paid : D → D → D → Bool
  is_fully_paid received expected tolerance_percent =
      let allowance = div (mul expected tolerance_percent) (from_nat 100) in
      le_bool expected (add received allowance)
