-- ===== src/Cleanup/Selected.antt =====
-- What the queries of the clean-up select: data-service/src/postgres/watched_address.rs.
use ethpayserver.Base.{
  ℕ, zero, suc, ◌≡◌, Bool, true, false, ◌&&◌, Bool-cases, inl, inr, Option-cases, Option, none,
  some, List, [], ◌∷◌, All, Any, refl, leb, ltb, arith, ◌+◌, ◌<◌,
}
use ethpayserver.Base.Dict.{get}
use ethpayserver.Database.Rows.{
  InvoiceData, PaymentOptionData, WatchRow, World, InvoiceStatus, pending, processing,
  partially_paid, late_paid, paid, expired, cancelled, refunded,
}
use ethpayserver.Cleanup.Watched.{
  CleanupAddressInfo, with_option, joined, row_if, select_rows, insert_by, sort_by, first_infos,
  rows_for_cleanup, has_expired, is_paid, is_cancelled, has_paid, was_cancelled, is_past_grace,
}

has_expired-status : (s : InvoiceStatus) → has_expired s ≡ true → s ≡ expired
has_expired-status pending h = cc h
has_expired-status processing h = cc h
has_expired-status partially_paid h = cc h
has_expired-status late_paid h = cc h
has_expired-status paid h = cc h
has_expired-status expired h = refl
has_expired-status cancelled h = cc h
has_expired-status refunded h = cc h

is_paid-status : (s : InvoiceStatus) → is_paid s ≡ true → s ≡ paid
is_paid-status pending h = cc h
is_paid-status processing h = cc h
is_paid-status partially_paid h = cc h
is_paid-status late_paid h = cc h
is_paid-status paid h = refl
is_paid-status expired h = cc h
is_paid-status cancelled h = cc h
is_paid-status refunded h = cc h

is_cancelled-status : (s : InvoiceStatus) → is_cancelled s ≡ true → s ≡ cancelled
is_cancelled-status pending h = cc h
is_cancelled-status processing h = cc h
is_cancelled-status partially_paid h = cc h
is_cancelled-status late_paid h = cc h
is_cancelled-status paid h = cc h
is_cancelled-status expired h = cc h
is_cancelled-status cancelled h = refl
is_cancelled-status refunded h = cc h

pub has_paid-status : (inv : InvoiceData) → has_paid inv ≡ true → inv.status ≡ paid
has_paid-status inv h = is_paid-status inv.status h

pub was_cancelled-status : (inv : InvoiceData) → was_cancelled inv ≡ true → inv.status ≡ cancelled
was_cancelled-status inv h = is_cancelled-status inv.status h

and-true : (a b : Bool) → (a && b) ≡ true → (a ≡ true) × (b ≡ true)
and-true true b h = (refl, h)
and-true false b h = cc h

pub is_past_grace-over :
    (grace now : ℕ) (inv : InvoiceData)
    → is_past_grace grace now inv ≡ true
    → (inv.status ≡ expired) × (inv.expires_at + grace < now)
is_past_grace-over grace now inv h =
    let (old, over) = and-true (has_expired inv.status) (ltb (inv.expires_at + grace) now) h in
    (has_expired-status inv.status old, ground (arith, over))

-- The address, chain and token are of an active watch, whose option is of the invoice.
pub record IsOwned (w : World) (info : CleanupAddressInfo) (inv : InvoiceData) : Type 0 where
  pub watch : WatchRow
  pub there : Any (λ v. v ≡ watch) w.watches
  pub active : watch.is_active ≡ true
  pub address : watch.address ≡ info.address
  pub chain_id : watch.chain_id ≡ info.chain_id
  pub token_address : watch.token_address ≡ info.token_address
  pub option : PaymentOptionData
  pub found : get watch.payment_option_id w.options ≡ some option
  pub invoice_id : option.invoice_id ≡ info.invoice_id
  pub invoice : get option.invoice_id w.invoices ≡ some inv

module _ (p : InvoiceData → Bool) (w : World) where
  -- The invoice is the one of an active watch of the address, and passes the test.
  abbrev pub IsSelected : CleanupAddressInfo → Type 0
  IsSelected info = (inv : InvoiceData) × IsOwned w info inv × (p inv ≡ true)

  abbrev IsJoined : CleanupAddressInfo × InvoiceData → Type 0
  IsJoined (info, inv) = IsOwned w info inv × (p inv ≡ true)

  abbrev Joins : Bool → Option (CleanupAddressInfo × InvoiceData) → Type 0
  Joins active none = Unit
  Joins active (some (info, inv)) = active ≡ true → IsOwned w info inv

  with_option-Joins :
      (r : WatchRow) (po : Option PaymentOptionData)
      → Any (λ v. v ≡ r) w.watches
      → get r.payment_option_id w.options ≡ po
      → Joins r.is_active (with_option w r po)
  with_option-Joins r none there found = tt
  with_option-Joins r (some po) there found = elim (Option-cases (get po.invoice_id w.invoices)) [
    | inl missing ↦ rw missing tt
    | inr (inv, row) ↦ rw row (λ active. record {
      watch = r;
      there = there;
      active = active;
      address = refl;
      chain_id = refl;
      token_address = refl;
      option = po;
      found = found;
      invoice_id = refl;
      invoice = row;
    })
  ]

  and-first : (a b : Bool) → (a && b) ≡ true → a ≡ true
  and-first true b h = refl
  and-first false b h = h

  and-second : (a b : Bool) → (a && b) ≡ true → b ≡ true
  and-second true b h = h
  and-second false b h = cc h

  row_if-All :
      (active : Bool) (row : Option (CleanupAddressInfo × InvoiceData))
      (rest : List (CleanupAddressInfo × InvoiceData))
      → Joins active row
      → All IsJoined rest
      → All IsJoined (row_if p active row rest)
  row_if-All active none rest joins h = h
  row_if-All active (some (info, inv)) rest joins h = elim (Bool-cases (active && p inv)) [
    | inl kept ↦
        rw kept ((joins (and-first active (p inv) kept), and-second active (p inv) kept), h)
    | inr left ↦ rw left h
  ]

  select_rows-All :
      (rows : List WatchRow)
      → ((r : WatchRow) → Any (λ v. v ≡ r) rows → Any (λ v. v ≡ r) w.watches)
      → All IsJoined (select_rows p w rows)
  unfolding select_rows joined
  select_rows-All [] part = tt
  select_rows-All (r ∷ rows) part =
      row_if-All r.is_active (joined w r) (select_rows p w rows)
        (with_option-Joins r (get r.payment_option_id w.options) (part r (inl refl)) refl)
        (select_rows-All rows (λ v there. part v (inr there)))

  insert_by-All :
      (key : InvoiceData → ℕ) (row : CleanupAddressInfo × InvoiceData)
      (rows : List (CleanupAddressInfo × InvoiceData))
      → IsJoined row
      → All IsJoined rows
      → All IsJoined (insert_by key row rows)
  unfolding insert_by
  insert_by-All key (info, inv) [] one h = (one, tt)
  insert_by-All key (info, inv) ((info', inv') ∷ rows) one h =
      elim (Bool-cases (leb (key inv) (key inv'))) [
        | inl first ↦ rw first (one, h)
        | inr behind ↦ rw behind (h.0, insert_by-All key (info, inv) rows one h.1)
      ]

  sort_by-All :
      (key : InvoiceData → ℕ) (rows : List (CleanupAddressInfo × InvoiceData))
      → All IsJoined rows
      → All IsJoined (sort_by key rows)
  unfolding sort_by
  sort_by-All key [] h = tt
  sort_by-All key (row ∷ rows) h =
      insert_by-All key row (sort_by key rows) h.0 (sort_by-All key rows h.1)

  first_infos-All :
      (n : ℕ) (rows : List (CleanupAddressInfo × InvoiceData))
      → All IsJoined rows
      → All IsSelected (first_infos n rows)
  first_infos-All zero rows h = tt
  first_infos-All (suc n) [] h = tt
  first_infos-All (suc n) ((info, inv) ∷ rows) h = ((inv, h.0.0, h.0.1), first_infos-All n rows h.1)

  pub rows_for_cleanup-All : (key : InvoiceData → ℕ) → All IsSelected (rows_for_cleanup p key w)
  unfolding rows_for_cleanup
  rows_for_cleanup-All key =
      first_infos-All 100 (sort_by key (select_rows p w w.watches))
        (sort_by-All key (select_rows p w w.watches) (select_rows-All w.watches (λ r there. there)))
