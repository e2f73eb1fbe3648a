-- ===== src/Cleanup/Ends.antt =====
-- The watches that a list of addresses ends: server/src/services/invoice_cleanup.rs.
use ethpayserver.Base.{
  ℕ, zero, suc, ◌≤◌, ◌≡◌, refl, ◌⊎◌, Bool, false, Bool-cases, inl, inr, Option, none, some, List,
  [], ◌∷◌, map, length, leb, All, arith,
}
use ethpayserver.Database.Rows.{InvoiceData, WatchRow}
use ethpayserver.Database.Settings.{is_watch_of}
use ethpayserver.Cleanup.Watched.{
  CleanupAddressInfo, insert_by, sort_by, first_infos, deactivate_row,
}
use ethpayserver.Cleanup.Addresses.{Reading}
use ethpayserver.Cleanup.Due.{ended-no-watch}

abbrev pub watch_at : CleanupAddressInfo → WatchRow → Bool
watch_at info r = is_watch_of info.address info.chain_id info.token_address r

abbrev pub No : CleanupAddressInfo → WatchRow → Type 0
No info r = watch_at info r ≡ false

abbrev pub end_row : CleanupAddressInfo → WatchRow → WatchRow
end_row info r = deactivate_row info.address info.chain_id info.token_address r

end-own : (info : CleanupAddressInfo) (r : WatchRow) → No info (end_row info r)
unfolding deactivate_row
end-own info r = elim (Bool-cases (watch_at info r)) [
  | inl match ↦ simp match (ended-no-watch info r)
  | inr other ↦ simp other refl
]

end-No : (info i : CleanupAddressInfo) (r : WatchRow) → No i r → No i (end_row info r)
unfolding deactivate_row
end-No info i r h = elim (Bool-cases (watch_at info r)) [
  | inl match ↦ simp match (ended-no-watch i r)
  | inr other ↦ simp other h
]

end_rows-own :
    (info : CleanupAddressInfo) (rows : List WatchRow) → All (No info) (map (end_row info) rows)
end_rows-own info [] = tt
end_rows-own info (r ∷ rows) = (end-own info r, end_rows-own info rows)

end_rows-No :
    (info i : CleanupAddressInfo) (rows : List WatchRow)
    → All (No i) rows
    → All (No i) (map (end_row info) rows)
end_rows-No info i [] h = tt
end_rows-No info i (r ∷ rows) h = (end-No info i r h.0, end_rows-No info i rows h.1)

-- A watch as it was, or ended.
abbrev pub Turns : List WatchRow → List WatchRow → Type 0
Turns [] [] = Unit
Turns (r ∷ rows) (r' ∷ rows') = ((r' ≡ r) ⊎ (r'.is_active ≡ false)) × Turns rows rows'
Turns [] (r' ∷ rows') = ⊥
Turns (r ∷ rows) [] = ⊥

pub Turns-refl : (rows : List WatchRow) → Turns rows rows
Turns-refl [] = tt
Turns-refl (r ∷ rows) = (inl refl, Turns-refl rows)

end-turn :
    (info : CleanupAddressInfo) (r r' : WatchRow)
    → (r' ≡ r) ⊎ (r'.is_active ≡ false)
    → (end_row info r' ≡ r) ⊎ ((end_row info r').is_active ≡ false)
unfolding deactivate_row
end-turn info r r' h = elim (Bool-cases (watch_at info r')) [
  | inl match ↦ simp match (inr refl)
  | inr other ↦ simp other h
]

end-Turns :
    (info : CleanupAddressInfo) (rows rows' : List WatchRow)
    → Turns rows rows'
    → Turns rows (map (end_row info) rows')
end-Turns info [] [] h = tt
end-Turns info (r ∷ rows) (r' ∷ rows') h = (end-turn info r r' h.0, end-Turns info rows rows' h.1)
end-Turns info [] (r' ∷ rows') h = h
end-Turns info (r ∷ rows) [] h = h

-- The address to unwatch, when both it and its chain can be read.
unfoldable both : Option ℕ → Option ℕ → Option ℕ
both none eip155 = none
both (some addr) none = none
both (some addr) (some eip155) = some addr

both-none : (addr eip155 : Option ℕ) → both addr eip155 ≡ none → (addr ≡ none) ⊎ (eip155 ≡ none)
unfolding both
both-none none eip155 h = inl refl
both-none (some addr) none h = inr refl
both-none (some addr) (some eip155) h = cc h

both-some :
    (addr eip155 : Option ℕ) (a : ℕ)
    → both addr eip155 ≡ some a
    → (addr ≡ some a) × ((n : ℕ) × (eip155 ≡ some n))
unfolding both
both-some none eip155 a h = cc h
both-some (some addr) none a h = cc h
both-some (some addr) (some eip155) a h = (h, (eip155, refl))

module _ (x : Reading) where
  unfoldable pub told_at : CleanupAddressInfo → Option ℕ
  unfolding both
  told_at info = both (x.parse_address info.address) (x.evm_chain_id info.chain_id)

  pub told_at-none :
      (info : CleanupAddressInfo)
      → told_at info ≡ none
      → (x.parse_address info.address ≡ none) ⊎ (x.evm_chain_id info.chain_id ≡ none)
  unfolding told_at
  told_at-none info h = both-none (x.parse_address info.address) (x.evm_chain_id info.chain_id) h

  pub told_at-some :
      (info : CleanupAddressInfo) (a : ℕ)
      → told_at info ≡ some a
      → (x.parse_address info.address ≡ some a)
        × ((n : ℕ) × (x.evm_chain_id info.chain_id ≡ some n))
  unfolding told_at
  told_at-some info a h =
      both-some (x.parse_address info.address) (x.evm_chain_id info.chain_id) a h

  abbrev pub end_if : CleanupAddressInfo → Option ℕ → List WatchRow → List WatchRow
  end_if info none rows = rows
  end_if info (some addr) rows = map (end_row info) rows

  abbrev pub end_each : List CleanupAddressInfo → List WatchRow → List WatchRow
  end_each [] rows = rows
  end_each (info ∷ infos) rows = end_each infos (end_if info (told_at info) rows)

  -- No watch of the address is active, or the monitor cannot be told of it.
  abbrev pub IsOver : List WatchRow → CleanupAddressInfo → Type 0
  IsOver rows info = (told_at info ≡ none) ⊎ All (No info) rows

  if-Turns :
      (info : CleanupAddressInfo) (addr : Option ℕ) (rows rows' : List WatchRow)
      → Turns rows rows'
      → Turns rows (end_if info addr rows')
  if-Turns info none rows rows' h = h
  if-Turns info (some addr) rows rows' h = end-Turns info rows rows' h

  pub each-Turns :
      (infos : List CleanupAddressInfo) (rows rows' : List WatchRow)
      → Turns rows rows'
      → Turns rows (end_each infos rows')
  each-Turns [] rows rows' h = h
  each-Turns (info ∷ infos) rows rows' h =
      each-Turns infos rows (end_if info (told_at info) rows')
        (if-Turns info (told_at info) rows rows' h)

  if-IsOver :
      (info i : CleanupAddressInfo) (addr : Option ℕ) (rows : List WatchRow)
      → IsOver rows i
      → IsOver (end_if info addr rows) i
  if-IsOver info i none rows h = h
  if-IsOver info i (some addr) rows (inl broken) = inl broken
  if-IsOver info i (some addr) rows (inr over) = inr (end_rows-No info i rows over)

  each-IsOver :
      (infos : List CleanupAddressInfo) (i : CleanupAddressInfo) (rows : List WatchRow)
      → IsOver rows i
      → IsOver (end_each infos rows) i
  each-IsOver [] i rows h = h
  each-IsOver (info ∷ infos) i rows h =
      each-IsOver infos i (end_if info (told_at info) rows) (if-IsOver info i (told_at info) rows h)

  own-IsOver :
      (info : CleanupAddressInfo) (addr : Option ℕ) (rows : List WatchRow)
      → told_at info ≡ addr
      → IsOver (end_if info addr rows) info
  own-IsOver info none rows broken = inl broken
  own-IsOver info (some addr) rows parsed = inr (end_rows-own info rows)

  pub end_each-IsOver :
      (infos : List CleanupAddressInfo) (rows : List WatchRow)
      → All (IsOver (end_each infos rows)) infos
  end_each-IsOver [] rows = tt
  end_each-IsOver (info ∷ infos) rows =
      let next = end_if info (told_at info) rows in
      (
        each-IsOver infos info next (own-IsOver info (told_at info) rows refl),
        end_each-IsOver infos next,
      )

-- What holds of the first rows in an order holds of them all, when they are few.
module _ (Q : CleanupAddressInfo → Type 0) where
  abbrev pub OfRow : CleanupAddressInfo × InvoiceData → Type 0
  OfRow (info, inv) = Q info

  pub first_infos-back :
      (n : ℕ) (rows : List (CleanupAddressInfo × InvoiceData))
      → length rows ≤ n
      → All Q (first_infos n rows)
      → All OfRow rows
  first_infos-back n [] few h = tt
  first_infos-back (suc n) ((info, inv) ∷ rows) few h =
      (h.0, first_infos-back n rows (omega (arith, few)) h.1)
  first_infos-back zero (row ∷ rows) few h = absurd (omega (arith, few))

  insert_by-back :
      (key : InvoiceData → ℕ) (row : CleanupAddressInfo × InvoiceData)
      (rows : List (CleanupAddressInfo × InvoiceData))
      → All OfRow (insert_by key row rows)
      → OfRow row × All OfRow rows
  unfolding insert_by
  insert_by-back key (info, inv) [] = λ h. h
  insert_by-back key (info, inv) ((info', inv') ∷ rows) =
      elim (Bool-cases (leb (key inv) (key inv'))) [
        | inl first ↦ rw first (λ h. h)
        | inr behind ↦
            rw behind
              (λ h. let back = insert_by-back key (info, inv) rows h.1 in (back.0, (h.0, back.1)))
      ]

  pub sort_by-back :
      (key : InvoiceData → ℕ) (rows : List (CleanupAddressInfo × InvoiceData))
      → All OfRow (sort_by key rows)
      → All OfRow rows
  unfolding sort_by
  sort_by-back key [] h = tt
  sort_by-back key (row ∷ rows) h =
      let back = insert_by-back key row (sort_by key rows) h in
      (back.0, sort_by-back key rows back.1)

insert_by-length :
    (key : InvoiceData → ℕ) (row : CleanupAddressInfo × InvoiceData)
    (rows : List (CleanupAddressInfo × InvoiceData))
    → length (insert_by key row rows) ≡ suc (length rows)
unfolding insert_by
insert_by-length key (info, inv) [] = refl
insert_by-length key (info, inv) ((info', inv') ∷ rows) =
    elim (Bool-cases (leb (key inv) (key inv'))) [
      | inl first ↦ rw first refl
      | inr behind ↦ rw (behind, insert_by-length key (info, inv) rows) refl
    ]

pub sort_by-length :
    (key : InvoiceData → ℕ) (rows : List (CleanupAddressInfo × InvoiceData))
    → length (sort_by key rows) ≡ length rows
unfolding sort_by
sort_by-length key [] = refl
sort_by-length key (row ∷ rows) =
    rw (insert_by-length key row (sort_by key rows), sort_by-length key rows) refl
