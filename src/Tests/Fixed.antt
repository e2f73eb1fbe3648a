-- ===== src/Tests/Fixed.antt =====
-- A concrete `Crates`: decimals in units of 0.0001, a text of n letters `I` for n units, and the
-- two constants of data-service/src/settlement_tolerance.rs.
use Prim.Native.Char.{code}
use native.Mathlib.Nat.{
  zero-div, le-div_iff_mul-le, div-mul-le_self, mul-le-mul_left, mul-zero, div-zero,
}
use text.Mathlib.Text.{◌==◌ as str_eq}
use ethpayserver.Base.{
  ℕ, zero, suc, ◌+◌, ◌-◌, ◌*◌, ◌/◌, ◌^◌, ◌≤◌, ◌≡◌, refl, ◌∙◌, ap, ◌⊎◌, String, true, Option, none,
  some, arith, leb, leb→le, ◌==◌, if◌then◌else◌,
}
use ethpayserver.External.{Crates}

abbrev pub units : ℕ → String
units zero = String.[]
units (suc n) = String.◌∷◌ "I" (units n)

abbrev next : Option ℕ → Option ℕ
next none = none
next (some n) = some (suc n)

abbrev pub count : String → Option ℕ
count String.[] = some 0
count (String.◌∷◌ c s) = let rest = count s in if code c == b'I' then next rest else none

abbrev pub read : String → Option ℕ
read String.[] = some 0
read (String.◌∷◌ c s) =
    if code c == b'I'
    then next (count s)
    else if str_eq s ".1"
    then some 1000
    else if str_eq s ".0001"
    then some 1
    else none

count-units : (n : ℕ) → count (units n) ≡ some n
count-units zero = refl
count-units (suc n) = ap next (count-units n)

pub read-units : (n : ℕ) → read (units n) ≡ some n
read-units zero = refl
read-units (suc n) = ap next (count-units n)

pub le→leb : (a b : ℕ) → a ≤ b → leb a b ≡ true
le→leb a b h = ground arith

pub le-div : (a b n : ℕ) → a ≤ b → a / n ≤ b / n
le-div a b zero h = rw (div-zero a) (omega arith)
le-div a b (suc n) h =
    let under : a / suc n * suc n ≤ a = div-mul-le_self a (suc n) in
    (le-div_iff_mul-le {k = suc n} (omega arith)).1 (omega (arith, under, h))

pub leb_trans : (a b c : ℕ) → leb a b ≡ true → leb b c ≡ true → leb a c ≡ true
leb_trans a b c p q = ground arith

pub leb_total : (a b : ℕ) → (leb a b ≡ true) ⊎ (leb b a ≡ true)
leb_total a b = ground arith

pub leb_add : (a b c d : ℕ) → leb a b ≡ true → leb c d ≡ true → leb (a + c) (b + d) ≡ true
leb_add a b c d p q = ground arith

abbrev pub fixed : Crates
fixed = record {
  D = ℕ;
  zero = 0;
  add = ◌+◌;
  sub = ◌-◌;
  mul = λ a b. a * b / 10000;
  div = λ a b. a * 10000 / b;
  powi = λ a n. a ^ n;
  from_nat = λ n. n * 10000;
  le_bool = leb;
  from_str = read;
  to_string = units;
  round_18 = λ a. a;
  to_plain_string = units;
  format_hash = units;
  parse_hash = read;
  format_address = units;
  le_bool_refl = λ a. le→leb a a (omega arith);
  le_bool_trans = leb_trans;
  le_bool_total = leb_total;
  add-zero = λ a. omega arith;
  add_mono = leb_add;
  mul-zero = λ a. ap (λ n. n / 10000) (mul-zero a) ∙ zero-div 10000;
  mul_mono = λ a b c p q. le→leb _ _ (le-div _ _ 10000 (mul-le-mul_left a (leb→le b c q)));
  zero-div = λ n. zero-div (n * 10000);
  div_mono = λ a b n p. le→leb _ _ (le-div _ _ (n * 10000) (omega (arith, leb→le a b p)));
  from_str-to_string = read-units;
  parse_hash-format_hash = read-units;
}
