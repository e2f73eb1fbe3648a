-- ===== src/Cleanup/Complete.antt =====
-- The clean-up of expired and of cancelled invoices ends every watch that it may:
-- server/src/services/invoice_cleanup.rs.
use ethpayserver.Base.{
  ℕ, ◌≤◌, ◌≡◌, refl, String, Bool, true, false, ◌&&◌, ◌==◌, ==_iff, inl, inr, Option, none, some,
  List, [], ◌∷◌, length, All, if◌then◌else◌,
}
use ethpayserver.Base.Dict.{get}
use ethpayserver.Base.Text.{eq_ignore_case, eq_ignore_case_refl}
use ethpayserver.Database.Rows.{InvoiceData, PaymentOptionData, WatchRow, World}
use ethpayserver.Database.Settings.{same_token, is_watch_of}
use ethpayserver.Cleanup.Watched.{
  CleanupAddressInfo, with_invoice, with_option, joined, row_if, select_rows, sort_by,
  rows_for_cleanup,
}
use ethpayserver.Cleanup.Addresses.{Reading}
use ethpayserver.Cleanup.Ends.{
  watch_at, told_at, No, Turns, Turns-refl, end_each, IsOver, each-Turns, end_each-IsOver, OfRow,
  first_infos-back, sort_by-back, sort_by-length,
}

same_token_refl : (token : Option String) → same_token token token ≡ true
same_token_refl none = refl
same_token_refl (some t) = eq_ignore_case_refl t

-- A row is joined with its own address.
abbrev OwnAddress : WatchRow → Option (CleanupAddressInfo × InvoiceData) → Type 0
OwnAddress r none = Unit
OwnAddress r (some (info, inv)) = watch_at info r ≡ r.is_active

own_address :
    (r : WatchRow)
    → (eq_ignore_case r.address r.address
        && r.chain_id == r.chain_id
        && same_token r.token_address r.token_address
        && r.is_active)
      ≡ r.is_active
own_address r =
    rw
      (
        eq_ignore_case_refl r.address,
        (==_iff r.chain_id r.chain_id).1 refl,
        same_token_refl r.token_address,
      )
      refl

joined-OwnAddress : (w : World) (r : WatchRow) → OwnAddress r (joined w r)
unfolding joined is_watch_of
joined-OwnAddress w r = with_po (get r.payment_option_id w.options)
  where
    with_inv : (id : ℕ) (inv : Option InvoiceData) → OwnAddress r (with_invoice r id inv)
    with_inv id none = tt
    with_inv id (some inv) = own_address r

    with_po : (po : Option PaymentOptionData) → OwnAddress r (with_option w r po)
    with_po none = tt
    with_po (some po) = with_inv po.invoice_id (get po.invoice_id w.invoices)

pub select_rows-same :
    (p : InvoiceData → Bool) (w v : World)
    → ((r : WatchRow) → joined v r ≡ joined w r)
    → (rows : List WatchRow) → select_rows p v rows ≡ select_rows p w rows
unfolding select_rows
select_rows-same p w v same [] = refl
select_rows-same p w v same (r ∷ rows) = rw (same r, select_rows-same p w v same rows) refl

-- At most as many rows as a query answers.
abbrev pub Few : (InvoiceData → Bool) → World → Type 0
Few p w = length (select_rows p w w.watches) ≤ 100

module _ (x : Reading) where
  -- The address or its chain cannot be read, so the monitor cannot be told.
  abbrev pub Unreadable : CleanupAddressInfo × InvoiceData → Type 0
  Unreadable (info, inv) = told_at x info ≡ none

  module _ (p : InvoiceData → Bool) (w : World) (final : List WatchRow) where
    -- What no watch of the final list is, this one is not.
    abbrev IsOne : WatchRow → Type 0
    IsOne r = (info : CleanupAddressInfo) → All (No info) final → No info r

    ones :
        (rows : List WatchRow)
        → ((info : CleanupAddressInfo) → All (No info) final → All (No info) rows)
        → All IsOne rows
    ones [] h = tt
    ones (r ∷ rows) h = ((λ info no. (h info no).0), ones rows (λ info no. (h info no).1))

    abbrev Over : CleanupAddressInfo × InvoiceData → Type 0
    Over = OfRow (IsOver x final)

    over-unreadable :
        (r : WatchRow) (info : CleanupAddressInfo)
        → r.is_active ≡ true
        → watch_at info r ≡ r.is_active
        → IsOne r
        → IsOver x final info
        → told_at x info ≡ none
    over-unreadable r info active own one (inl broken) = broken
    over-unreadable r info active own one (inr over) = cc (one info over, own, active)

    and-first : (a b : Bool) → (a && b) ≡ true → a ≡ true
    and-first true b h = refl
    and-first false b h = h

    chosen-left :
        (b : Bool) (row : CleanupAddressInfo × InvoiceData)
        (rest rest' : List (CleanupAddressInfo × InvoiceData))
        → (b ≡ true → Over row → Unreadable row)
        → (All Over rest → All Unreadable rest')
        → All Over (if b then row ∷ rest else rest)
        → All Unreadable (if b then row ∷ rest' else rest')
    chosen-left true row rest rest' one next h = (one refl h.0, next h.1)
    chosen-left false row rest rest' one next h = next h

    row_if-left :
        (r : WatchRow) (row : Option (CleanupAddressInfo × InvoiceData))
        (rest rest' : List (CleanupAddressInfo × InvoiceData))
        → OwnAddress r row
        → IsOne r
        → (All Over rest → All Unreadable rest')
        → All Over (row_if p r.is_active row rest)
        → All Unreadable (row_if p r.is_active row rest')
    row_if-left r none rest rest' own one next h = next h
    row_if-left r (some (info, inv)) rest rest' own one next h =
        chosen-left (r.is_active && p inv) (info, inv) rest rest'
          (λ kept over. over-unreadable r info (and-first r.is_active (p inv) kept) own one over)
          next h

    chosen-rest :
        (b : Bool) (row : CleanupAddressInfo × InvoiceData)
        (rest : List (CleanupAddressInfo × InvoiceData))
        → All Over (if b then row ∷ rest else rest)
        → All Over rest
    chosen-rest true row rest h = h.1
    chosen-rest false row rest h = h

    row_if-rest :
        (active : Bool) (row : Option (CleanupAddressInfo × InvoiceData))
        (rest : List (CleanupAddressInfo × InvoiceData))
        → All Over (row_if p active row rest)
        → All Over rest
    row_if-rest active none rest h = h
    row_if-rest active (some (info, inv)) rest h = chosen-rest (active && p inv) (info, inv) rest h

    row_if-off :
        (row : Option (CleanupAddressInfo × InvoiceData))
        (rest : List (CleanupAddressInfo × InvoiceData))
        → row_if p false row rest ≡ rest
    row_if-off none rest = refl
    row_if-off (some (info, inv)) rest = refl

    -- A row that is unchanged was selected before; one that has ended is not selected.
    select-left :
        (rows rows' : List WatchRow)
        → Turns rows rows'
        → All IsOne rows'
        → All Over (select_rows p w rows)
        → All Unreadable (select_rows p w rows')
    unfolding select_rows
    select-left [] [] turns one h = tt
    select-left (r ∷ rows) (r' ∷ rows') (inl same, turns) one h = rw same (
        row_if-left r (joined w r) (select_rows p w rows) (select_rows p w rows')
          (joined-OwnAddress w r) (rw⁻¹ same one.0) (select-left rows rows' turns one.1) h)
    select-left (r ∷ rows) (r' ∷ rows') (inr off, turns) one h =
        simp (off, row_if-off)
          (select-left rows rows' turns one.1
            (row_if-rest r.is_active (joined w r) (select_rows p w rows) h))
    select-left [] (r' ∷ rows') turns one h = absurd turns
    select-left (r ∷ rows) [] turns one h = absurd turns

  pub left :
      (p : InvoiceData → Bool) (key : InvoiceData → ℕ) (w : World)
      → Few p w
      → All Unreadable (select_rows p w (end_each x (rows_for_cleanup p key w) w.watches))
  unfolding rows_for_cleanup
  left p key w few =
      let infos = rows_for_cleanup p key w in
      let final = end_each x infos w.watches in
      select-left p w final w.watches final
        (each-Turns x infos w.watches w.watches (Turns-refl w.watches))
        (ones p w final final (λ info no. no))
        (sort_by-back (IsOver x final) key (select_rows p w w.watches) (
          first_infos-back (IsOver x final) 100 (sort_by key (select_rows p w w.watches))
            (rw (sort_by-length key (select_rows p w w.watches)) few)
            (end_each-IsOver x infos w.watches)))
