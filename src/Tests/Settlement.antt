-- ===== src/Tests/Settlement.antt =====
-- Runs of the settlement rules.
use ethpayserver.Base.{◌≡◌, some, refl, ◌⊎◌, true, false}
use ethpayserver.Settlement.{
  parsed, refused, not_a_number, store, effective_tolerance, parse_tolerance_percent, is_fully_paid,
}
use ethpayserver.Settlement.Laws.{
  is_fully_paid_mono, is_fully_paid_zero, is_fully_paid_full, effective_tolerance_bounded,
}
use ethpayserver.Tests.Fixed.{fixed}

three : effective_tolerance fixed (some " III") ≡ parsed (3, store)
unfolding effective_tolerance parse_tolerance_percent
three = refl

-- 100 with a tolerance of 0.1 percent: 99.95 is enough.
almost : is_fully_paid fixed 999500 1000000 1000 ≡ true
unfolding is_fully_paid
almost = refl

is_fully_paid_mono_example : is_fully_paid fixed 999600 1000000 1200 ≡ true
is_fully_paid_mono_example =
    is_fully_paid_mono fixed 999500 999600 1000000 1000 1200 refl refl refl almost

is_fully_paid_zero_example : is_fully_paid fixed 999500 1000000 0 ≡ false
is_fully_paid_zero_example = is_fully_paid_zero fixed 999500 1000000

is_fully_paid_full_example : is_fully_paid fixed 1000000 1000000 1000 ≡ true
is_fully_paid_full_example = is_fully_paid_full fixed 1000000 1000000 1000 refl refl refl

five : parse_tolerance_percent fixed " IIIII" ≡ parsed 5
unfolding parse_tolerance_percent
five = refl

no_number : parse_tolerance_percent fixed "many" ≡ refused not_a_number
unfolding parse_tolerance_percent
no_number = refl

effective_tolerance_bounded_example :
    ((is_fully_paid fixed 999800 1000000 3 ≡ true)
      × (is_fully_paid fixed 999800 1000000 1000 ≡ true))
    ⊎ ((is_fully_paid fixed 999800 1000000 3 ≡ false) × (false ≡ false))
effective_tolerance_bounded_example =
    effective_tolerance_bounded fixed (some " III") 1000 1 3 999800 1000000 store refl refl refl
      refl refl three
