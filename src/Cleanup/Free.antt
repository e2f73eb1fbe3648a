-- ===== src/Cleanup/Free.antt =====
-- Which watches may stay: server/src/services/invoice_cleanup.rs.
use ethpayserver.Base.{
  ◌≡◌, ◌⊎◌, refl, Bool, true, false, ◌&&◌, inl, inr, Option-cases, none, some, List, [], ◌∷◌, All,
  if◌then◌else◌,
}
use ethpayserver.Base.Dict.{get}
use ethpayserver.Database.Rows.{InvoiceData, PaymentOptionData, WatchRow, World}
use ethpayserver.Cleanup.Watched.{CleanupAddressInfo, info_for, joined, row_if, select_rows}
use ethpayserver.Cleanup.Addresses.{Reading}
use ethpayserver.Cleanup.Ends.{told_at-none}
use ethpayserver.Cleanup.Complete.{Unreadable}

module _ (x : Reading) (IsOpen : InvoiceData → Type 0) (w : World) where
  -- The watch has ended, its address or chain cannot be read, or it has no invoice of the kind.
  abbrev pub IsFree : WatchRow → Type 0
  IsFree r =
      (r.is_active ≡ false)
      ⊎ ((x.parse_address r.address ≡ none) ⊎ (x.evm_chain_id r.chain_id ≡ none))
      ⊎ (get r.payment_option_id w.options ≡ none)
      ⊎ ((po : PaymentOptionData) × (get r.payment_option_id w.options ≡ some po)
          × (get po.invoice_id w.invoices ≡ none))
      ⊎ ((po : PaymentOptionData) × (inv : InvoiceData) × (get r.payment_option_id w.options
            ≡ some po)
          × (get po.invoice_id w.invoices ≡ some inv)
          × (IsOpen inv → ⊥))

  module _ (p : InvoiceData → Bool)
      (closed : (inv : InvoiceData) → p inv ≡ false → IsOpen inv → ⊥) where
    picked-IsFree :
        (r : WatchRow) (po : PaymentOptionData) (inv : InvoiceData) (active due : Bool)
        (rest : List (CleanupAddressInfo × InvoiceData))
        → get r.payment_option_id w.options ≡ some po
        → get po.invoice_id w.invoices ≡ some inv
        → r.is_active ≡ active
        → p inv ≡ due
        → All
            (Unreadable x)
            (if active && due then (info_for r po.invoice_id, inv) ∷ rest else rest)
        → IsFree r × All (Unreadable x) rest
    picked-IsFree r po inv true true rest option invoice active due h =
        (inr (inl (told_at-none x (info_for r po.invoice_id) h.0)), h.1)
    picked-IsFree r po inv true false rest option invoice active due h =
        (inr (inr (inr (inr (po, inv, option, invoice, closed inv due)))), h)
    picked-IsFree r po inv false due rest option invoice active e h = (inl active, h)

    row-IsFree :
        (r : WatchRow) (rest : List (CleanupAddressInfo × InvoiceData))
        → All (Unreadable x) (row_if p r.is_active (joined w r) rest)
        → IsFree r × All (Unreadable x) rest
    unfolding joined
    row-IsFree r rest h = elim (Option-cases (get r.payment_option_id w.options)) [
      | inl missing ↦ (inr (inr (inl missing)), rw missing at h)
      | inr (po, option) ↦ elim (Option-cases (get po.invoice_id w.invoices)) [
        | inl missing ↦ (inr (inr (inr (inl (po, option, missing)))), rw (option, missing) at h)
        | inr (inv, invoice) ↦
            picked-IsFree r po inv r.is_active (p inv) rest option invoice refl refl
              (rw (option, invoice) at h)
      ]
    ]

    pub select_rows-IsFree :
        (rows : List WatchRow) → All (Unreadable x) (select_rows p w rows) → All IsFree rows
    unfolding select_rows
    select_rows-IsFree [] h = tt
    select_rows-IsFree (r ∷ rows) h =
        let both = row-IsFree r (select_rows p w rows) h in (both.0, select_rows-IsFree rows both.1)
