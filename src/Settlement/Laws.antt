-- ===== src/Settlement/Laws.antt =====
-- When a payment settles an invoice, and which tolerances are accepted.
use ethpayserver.Base.{
  Option-cases, Option, none, false, String, ◌≡◌, ◌∙◌, ◌⊎◌, inl, inr, true, false, some, Bool-cases,
  ap, refl,
}
use ethpayserver.Base.Text.{trim}
use ethpayserver.External.{Crates}
use ethpayserver.Settlement.{
  max_tolerance_percent, default_tolerance_percent, Parsed, Source, effective_tolerance, parsed,
  refused, tag_store, parse_tolerance_percent, is_fully_paid,
}

module _ (x : Crates) where
  open x use {
    D, zero, add, mul, div, from_nat, le_bool, from_str, le_bool_refl, le_bool_trans, le_bool_total,
    add-zero, add_mono, mul-zero, mul_mono, zero-div, div_mono,
  }

  -- An invoice that is settled stays settled when more has been received or when the store accepts
  -- a larger tolerance; only the expected amount, which is not negative, is kept.
  pub is_fully_paid_mono :
      (received received' expected tolerance tolerance' : D)
      → le_bool zero expected ≡ true
      → le_bool received received' ≡ true
      → le_bool tolerance tolerance' ≡ true
      → is_fully_paid x received expected tolerance ≡ true
      → is_fully_paid x received' expected tolerance' ≡ true
  unfolding is_fully_paid
  is_fully_paid_mono r r' e t t' nonneg more wider paid =
      le_bool_trans _ _ _ paid
        (add_mono r r' _ _ more (div_mono _ _ 100 (mul_mono e t t' nonneg wider)))

  -- Without a tolerance an invoice is settled exactly when the received amount reaches the
  -- expected one.
  pub is_fully_paid_zero :
      (received expected : D) → is_fully_paid x received expected zero ≡ le_bool expected received
  unfolding is_fully_paid
  is_fully_paid_zero received expected = ap (le_bool expected) (
      ap (add received) (ap (λ v. div v (from_nat 100)) (mul-zero expected) ∙ zero-div 100)
      ∙ add-zero received)

  -- The full amount always settles, under every tolerance that is not negative.
  pub is_fully_paid_full :
      (received expected tolerance : D)
      → le_bool zero expected ≡ true
      → le_bool zero tolerance ≡ true
      → le_bool expected received ≡ true
      → is_fully_paid x received expected tolerance ≡ true
  is_fully_paid_full received expected tolerance nonneg t paid =
      is_fully_paid_mono received received expected zero tolerance nonneg (le_bool_refl received) t
        (is_fully_paid_zero received expected ∙ paid)

  parsed-injective : {a b : D} → Path (Parsed D) (parsed a) (parsed b) → a ≡ b
  parsed-injective e = cc e

  parse_tolerance_percent-within :
      (raw : String) (ceiling value : D)
      → from_str max_tolerance_percent ≡ some ceiling
      → parse_tolerance_percent x raw ≡ parsed value
      → (le_bool zero value ≡ true) × (le_bool value ceiling ≡ true)
  unfolding parse_tolerance_percent
  parse_tolerance_percent-within raw ceiling value top e =
      elim (Option-cases (from_str (trim raw))) [
        | inl broken ↦ let never = rw broken at e in cc never
        | inr (read, there) ↦ elim (Bool-cases (le_bool zero read)) [
          | inr low ↦ let never = rw (there, low) at e in cc never
          | inl nonneg ↦ elim (Bool-cases (le_bool read ceiling)) [
            | inr over ↦ let never = rw (there, nonneg, top, over) at e in cc never
            | inl fits ↦
                let same = parsed-injective (rw (there, nonneg, top, fits) at e) in
                (rw⁻¹ same nonneg, rw⁻¹ same fits)
          ]
        ]
      ]

  accepted-injective :
      {a b : D} {s t : Source} → Path (Parsed (D × Source)) (parsed (a, s)) (parsed (b, t)) → a ≡ b
  accepted-injective e = cc e

  effective_tolerance-within :
      (stored : Option String) (ceiling usual value : D) (source : Source)
      → from_str max_tolerance_percent ≡ some ceiling
      → from_str default_tolerance_percent ≡ some usual
      → le_bool zero usual ≡ true
      → le_bool usual ceiling ≡ true
      → effective_tolerance x stored ≡ parsed (value, source)
      → (le_bool zero value ≡ true) × (le_bool value ceiling ≡ true)
  unfolding effective_tolerance tag_store
  effective_tolerance-within none ceiling usual value source top read low high e =
      let same : usual ≡ value = accepted-injective (rw read at e) in
      (rw⁻¹ same low, rw⁻¹ same high)
  effective_tolerance-within (some raw) ceiling usual value source top read low high e =
      tagged (parse_tolerance_percent x raw) refl e
    where
      tagged :
          (r : Parsed D)
          → parse_tolerance_percent x raw ≡ r
          → tag_store x r ≡ parsed (value, source)
          → (le_bool zero value ≡ true) × (le_bool value ceiling ≡ true)
      tagged (parsed v) parse tag =
          parse_tolerance_percent-within raw ceiling value top
            (parse ∙ ap parsed (accepted-injective tag))
      tagged (refused reason) parse tag = cc tag

  -- The tolerance of a store, or the default one, whichever applies: an invoice that is settled
  -- under it is settled under the ceiling as well, and one that is not has received less than
  -- its amount. The ceiling and the default are the numbers that their texts are, with the default
  -- between zero and the ceiling, and the amount is not negative.
  pub effective_tolerance_bounded :
      (stored : Option String) (ceiling usual value received expected : D) (source : Source)
      → from_str max_tolerance_percent ≡ some ceiling
      → from_str default_tolerance_percent ≡ some usual
      → le_bool zero usual ≡ true
      → le_bool usual ceiling ≡ true
      → le_bool zero expected ≡ true
      → effective_tolerance x stored ≡ parsed (value, source)
      → ((is_fully_paid x received expected value ≡ true)
          × (is_fully_paid x received expected ceiling ≡ true))
        ⊎ ((is_fully_paid x received expected value ≡ false) × (le_bool expected received ≡ false))
  effective_tolerance_bounded stored ceiling usual value received expected source top read low high
        nonneg e =
      let (above, below) =
        effective_tolerance-within stored ceiling usual value source top read low high e in
      elim (Bool-cases (is_fully_paid x received expected value)) [
        | inl paid ↦ inl (
          paid,
          is_fully_paid_mono received received expected value ceiling nonneg (le_bool_refl received)
              below paid,
        )
        | inr short ↦ elim (Bool-cases (le_bool expected received)) [
          | inr less ↦ inr (short, less)
          | inl enough ↦
              let paid = is_fully_paid_full received expected value nonneg above enough in
              cc (paid, short)
        ]
      ]
