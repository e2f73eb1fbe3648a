-- ===== src/Database/Payments/Unique.antt =====
-- The key of a transfer names one payment: data-service/src/postgres/payment.rs.
use ethpayserver.Base.{
  ℕ, String, ◌≡◌, refl, ◌∙◌, sym, inl, inr, Bool, true, false, ◌&&◌, none, List, [], ◌∷◌, ◌++◌,
  Option-cases, Bool-cases, arith, is_some, find, ◌==◌, ==_iff,
}
use ethpayserver.Base.Int.{ℤ, eq_ℤ, eq_ℤ_iff}
use ethpayserver.Base.Dict.{get}
use text.Mathlib.Text.{◌==◌ as str_eq}
use text.Mathlib.TextEquality.{eq_iff}
use ethpayserver.External.{Crates}
use ethpayserver.Database.Rows.{PaymentData, PaymentRow, World}
use ethpayserver.Database.Monad.{Error, not_found}
use ethpayserver.Database.Payments.{
  write_payment, insert_payment, merge_payment, update_one, is_awaiting, confirm, retract_row,
  is_numeric, same_transfer, is_unretracted, update_first, merge, retract, new_row,
}
use ethpayserver.Database.Payments.Received.{trigger-payments}

-- At most one row has the key.
abbrev pub IsOne : ℕ → String → ℤ → List PaymentRow → Type 0
IsOne c h i [] = Unit
IsOne c h i (r ∷ rs) =
    (same_transfer c h i r ≡ true → find (same_transfer c h i) rs ≡ none) × IsOne c h i rs

-- No two rows of the table are the same transfer.
abbrev pub IsUnique : World → Type 0
IsUnique w = (c : ℕ) (h : String) (i : ℤ) → IsOne c h i w.payments

-- The change keeps the key.
abbrev pub KeepsKey : (PaymentRow → PaymentRow) → Type 0
KeepsKey f =
    (c : ℕ) (h : String) (i : ℤ) (r : PaymentRow)
    → same_transfer c h i (f r) ≡ same_transfer c h i r

update_first-none :
    (c : ℕ) (h : String) (i : ℤ) (p : PaymentRow → Bool) (f : PaymentRow → PaymentRow)
    (rs : List PaymentRow)
    → KeepsKey f
    → find (same_transfer c h i) rs ≡ none
    → find (same_transfer c h i) (update_first p f rs) ≡ none
unfolding update_first
update_first-none c h i p f [] key e = refl
update_first-none c h i p f (r ∷ rs) key e =
    ground (arith, e, key c h i r, update_first-none c h i p f rs key)

update_first-IsOne :
    (c : ℕ) (h : String) (i : ℤ) (p : PaymentRow → Bool) (f : PaymentRow → PaymentRow)
    (rs : List PaymentRow)
    → KeepsKey f
    → IsOne c h i rs
    → IsOne c h i (update_first p f rs)
unfolding update_first
update_first-IsOne c h i p f [] key one = tt
update_first-IsOne c h i p f (r ∷ rs) key one = elim (Bool-cases (p r)) [
  | inl this ↦ rw this ((λ same. one.0 (sym (key c h i r) ∙ same)), one.1)
  | inr other ↦ rw other (
    (λ same. update_first-none c h i p f rs key (one.0 same)),
    update_first-IsOne c h i p f rs key one.1,
  )
]

append-none :
    (c : ℕ) (h : String) (i : ℤ) (rs : List PaymentRow) (r : PaymentRow)
    → find (same_transfer c h i) rs ≡ none
    → same_transfer c h i r ≡ false
    → find (same_transfer c h i) (rs ++ r ∷ []) ≡ none
append-none c h i [] r e other = rw other refl
append-none c h i (q ∷ rs) r e other = ground (arith, e, append-none c h i rs r)

append-other :
    (c : ℕ) (h : String) (i : ℤ) (rs : List PaymentRow) (r : PaymentRow)
    → same_transfer c h i r ≡ false
    → IsOne c h i rs
    → IsOne c h i (rs ++ r ∷ [])
append-other c h i [] r other one = ((λ same. refl), tt)
append-other c h i (q ∷ rs) r other one =
    ((λ same. append-none c h i rs r (one.0 same) other), append-other c h i rs r other one.1)

append-new :
    (c : ℕ) (h : String) (i : ℤ) (rs : List PaymentRow) (r : PaymentRow)
    → find (same_transfer c h i) rs ≡ none
    → IsOne c h i (rs ++ r ∷ [])
append-new c h i [] r e = ((λ same. refl), tt)
append-new c h i (q ∷ rs) r e = elim (Bool-cases (same_transfer c h i q)) [
  | inl this ↦ cc (this, e)
  | inr other ↦ ((λ same. cc (same, other)), append-new c h i rs r (rw other at e))
]

all_three : (a b c : Bool) → (a && b && c) ≡ true → (a ≡ true) × (b ≡ true) × (c ≡ true)
all_three true true true e = (refl, refl, refl)
all_three false b c e = cc e
all_three true false c e = cc e
all_three true true false e = cc e

pub same_transfer-parts :
    (c : ℕ) (h : String) (i : ℤ) (r : PaymentRow)
    → same_transfer c h i r ≡ true
    → (r.payment.chain_id ≡ c) × (r.payment.tx_hash ≡ h) × (r.tx_index ≡ i)
unfolding same_transfer
same_transfer-parts c h i r e =
    let (a, b, d) =
      all_three (r.payment.chain_id == c) (str_eq r.payment.tx_hash h) (eq_ℤ r.tx_index i) e in
    (
      (==_iff r.payment.chain_id c).0 a,
      (eq_iff r.payment.tx_hash h).0 b,
      (eq_ℤ_iff r.tx_index i).0 d,
    )

append-IsOne :
    (c : ℕ) (h : String) (i : ℤ) (rs : List PaymentRow) (r : PaymentRow)
    → find (same_transfer r.payment.chain_id r.payment.tx_hash r.tx_index) rs ≡ none
    → IsOne c h i rs
    → IsOne c h i (rs ++ r ∷ [])
append-IsOne c h i rs r fresh one = elim (Bool-cases (same_transfer c h i r)) [
  | inr other ↦ append-other c h i rs r other one
  | inl this ↦
      let (a, b, d) = same_transfer-parts c h i r this in
      append-new c h i rs r (rw (a, b, d) at fresh)
]

module _ (x : Crates) where
  update_one-IsUnique :
      (p : PaymentRow → Bool) (f : PaymentRow → PaymentRow) (e : Error) (w : World)
      → KeepsKey f
      → IsUnique w
      → IsUnique (update_one x p f e w).1
  unfolding update_one
  update_one-IsUnique p f e w key one = elim (Option-cases (find p w.payments)) [
    | inl none_there ↦ rw (update_one, none_there) one
    | inr (old, found) ↦
        rw
          (
            update_one,
            found,
            trigger-payments x (f old) (record w { payments = update_first p f w.payments }),
          )
          (λ c h i. update_first-IsOne c h i p f w.payments key (one c h i))
  ]

  pub confirm-IsUnique :
      (id at : ℕ) (w : World)
      → IsUnique w
      → IsUnique (update_one x (is_awaiting id) (confirm at) not_found w).1
  unfolding confirm same_transfer
  confirm-IsUnique id at w = update_one-IsUnique _ (confirm at) not_found w (λ c h i r. refl)

  pub retract_row-IsUnique : (id : ℕ) (w : World) → IsUnique w → IsUnique (retract_row x id w).1
  unfolding retract_row retract same_transfer
  retract_row-IsUnique id w one = elim (Option-cases (find (is_unretracted id) w.payments)) [
    | inl none_there ↦ rw (retract_row, none_there) one
    | inr (old, found) ↦
        rw
          (
            retract_row,
            found,
            trigger-payments x (retract old)
                (record w { payments = update_first (is_unretracted id) retract w.payments }),
          )
          (λ c h i.
            update_first-IsOne c h i (is_unretracted id) retract w.payments (λ c h i r. refl)
              (one c h i))
  ]

  insert_payment-IsUnique :
      (p : PaymentData) (i : ℤ) (w : World)
      → find (same_transfer p.chain_id p.tx_hash i) w.payments ≡ none
      → IsUnique w
      → IsUnique (insert_payment x p i w).1
  unfolding insert_payment new_row
  insert_payment-IsUnique p i w fresh one =
      elim (Bool-cases (is_some (get p.invoice_id w.invoices))) [
        | inr unknown ↦ rw unknown one
        | inl known ↦
            rw
              (
                known,
                trigger-payments x (new_row p i)
                    (record w { payments = w.payments ++ new_row p i ∷ [] }),
              )
              (λ c h j. append-IsOne c h j w.payments (new_row p i) fresh (one c h j))
      ]

  pub write_payment-IsUnique :
      (p : PaymentData) (i : ℤ) (w : World) → IsUnique w → IsUnique (write_payment x p i w).1
  unfolding write_payment merge_payment merge same_transfer
  write_payment-IsUnique p i w one =
      elim (Bool-cases (is_numeric x p.credited_amount && is_numeric x p.rate_used)) [
        | inr bad ↦ rw bad one
        | inl good ↦ elim (Option-cases (find (same_transfer p.chain_id p.tx_hash i) w.payments)) [
          | inl new ↦ rw (good, new) (insert_payment-IsUnique p i w new one)
          | inr (old, found) ↦
              rw
                (
                  good,
                  found,
                  trigger-payments x (merge p old) (record w {
                    payments =
                        update_first (same_transfer p.chain_id p.tx_hash i) (merge p) w.payments;
                  }),
                )
                (λ c h j.
                  update_first-IsOne c h j (same_transfer p.chain_id p.tx_hash i) (merge p)
                    w.payments (λ c h j r. refl) (one c h j))
        ]
      ]
