-- ===== src/External.antt =====
-- What the program takes from crates that it does not contain: the arbitrary precision decimals of
-- `bigdecimal` (and the NUMERIC columns that hold them), and the text forms of hashes and addresses
-- of `alloy`. The laws are the ones that the theorems rely on.
use ethpayserver.Base.{ℕ, String, ◌≡◌, ◌⊎◌, Bool, true, Option, some}

pub record Crates : Type 1 where
  pub D : Type 0
  pub zero : D
  pub add : D → D → D
  pub sub : D → D → D
  pub mul : D → D → D
  pub div : D → D → D
  pub powi : D → ℕ → D
  pub from_nat : ℕ → D
  pub le_bool : D → D → Bool
  pub from_str : String → Option D
  pub to_string : D → String
  -- `with_scale_round(18, HalfUp).normalized()`.
  pub round_18 : D → D
  pub to_plain_string : D → String
  -- `{:#x}` of a `B256` and of an `Address`, and `parse::<B256>()`.
  pub format_hash : ℕ → String
  pub parse_hash : String → Option ℕ
  pub format_address : ℕ → String
  pub le_bool_refl : (a : D) → le_bool a a ≡ true
  pub le_bool_trans : (a b c : D) → le_bool a b ≡ true → le_bool b c ≡ true → le_bool a c ≡ true
  pub le_bool_total : (a b : D) → (le_bool a b ≡ true) ⊎ (le_bool b a ≡ true)
  pub add-zero : (a : D) → add a zero ≡ a
  pub add_mono :
      (a b c d : D) → le_bool a b ≡ true → le_bool c d ≡ true → le_bool (add a c) (add b d) ≡ true
  pub mul-zero : (a : D) → mul a zero ≡ zero
  pub mul_mono :
      (a b c : D) → le_bool zero a ≡ true → le_bool b c ≡ true → le_bool (mul a b) (mul a c) ≡ true
  pub zero-div : (n : ℕ) → div zero (from_nat n) ≡ zero
  pub div_mono :
      (a b : D) (n : ℕ)
      → le_bool a b ≡ true
      → le_bool (div a (from_nat n)) (div b (from_nat n)) ≡ true
  pub from_str-to_string : (a : D) → from_str (to_string a) ≡ some a
  pub parse_hash-format_hash : (h : ℕ) → parse_hash (format_hash h) ≡ some h
