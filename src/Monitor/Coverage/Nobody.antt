-- ===== src/Monitor/Coverage/Nobody.antt =====
-- Where nothing is watched the ledger holds no payment of ours.
use ethpayserver.Base.{
  ℕ, zero, suc, ◌+◌, ◌≡◌, refl, ap, ◌∙◌, Bool, true, false, List, [], ◌∷◌, ◌++◌, is_empty,
  if◌then◌else◌,
}
use mathlib.Core.List.{append-nil}
use ethpayserver.Event.{PaymentDetected}
use ethpayserver.Monitor.State.{BlockSource, ChainMonitorConfig, Watched}
use ethpayserver.Monitor.Scan.{invoice_map, erc20_addresses}
use ethpayserver.Monitor.Coverage.{Ledger, logs_in, natives_all, natives_in, tokens_in}
use ethpayserver.Monitor.Coverage.Scans.{native_payments-empty, token_payments-nobody}

nobody-map : (watched : Watched) → is_empty watched ≡ true → is_empty (invoice_map watched) ≡ true
unfolding invoice_map
nobody-map [] e = refl
nobody-map (_ ∷ _) e = cc e

nobody-erc20_addresses :
    (watched : Watched) → is_empty watched ≡ true → is_empty (erc20_addresses watched) ≡ true
unfolding erc20_addresses
nobody-erc20_addresses [] e = refl
nobody-erc20_addresses (_ ∷ _) e = cc e

pub if-nothing : {A : Type 0} (b : Bool) (xs : List A) → xs ≡ [] → (if b then xs else []) ≡ []
if-nothing true xs e = e
if-nothing false xs e = refl

module _ (source : BlockSource) (config : ChainMonitorConfig) (chain_id : ℕ) (ledger : Ledger)
    (watched : Watched) where
  abbrev between : ℕ → ℕ → List PaymentDetected
  between from count =
      natives_in source config chain_id ledger watched from count
      ++ tokens_in source config chain_id ledger watched from count

  natives_all-nobody :
      (from count : ℕ)
      → is_empty watched ≡ true
      → natives_all source config chain_id ledger watched from count ≡ []
  natives_all-nobody from zero e = refl
  natives_all-nobody from (suc count) e = rw (
    native_payments-empty source config chain_id watched from (ledger.transfers from)
        (nobody-map watched e),
    natives_all-nobody (from + 1) count e,
  )

  pub between-nobody : (from count : ℕ) → is_empty watched ≡ true → between from count ≡ []
  between-nobody from count e =
      let no_natives = if-nothing config.monitor_native _ (natives_all-nobody from count e) in
      let no_tokens = if-nothing config.monitor_erc20 _ (
        token_payments-nobody source config chain_id watched (logs_in ledger from count)
          (nobody-erc20_addresses watched e)) in
      ap (◌++◌ (natives_in source config chain_id ledger watched from count)) no_tokens
      ∙ append-nil _
      ∙ no_natives
