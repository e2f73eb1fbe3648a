-- ===== src/Cleanup/Addresses.antt =====
-- The clean-up of watched addresses: server/src/services/invoice_cleanup.rs.
use ethpayserver.Base.{
  ℕ, ◌+◌, String, Bool, true, false, Option, none, some, List, [], ◌∷◌, any, ltb, max,
}
use ethpayserver.Network.{ChainConfig, get_any_chain_config, min_paid_unwatch_grace_period_secs}
use ethpayserver.Database.Rows.{PaymentRow, unwatch}
use ethpayserver.Database.Monad.{
  invalid_data, Result, ok, err, M, pure, throw, ◌>>=◌, ◌>>◌, call, attempt, notify,
}
use ethpayserver.Cleanup.Watched.{
  CleanupAddressInfo, get_expired_for_cleanup, get_paid_for_cleanup, get_cancelled_for_cleanup,
  deactivate, get_for_invoice,
}

pub record CleanupConfig : Type 0 where
  pub unwatch_grace_period_secs : ℕ
  pub paid_unwatch_grace_period_secs : ℕ

-- The address that a text is, and the EIP-155 number of a chain, which only chains of the EVM have:
-- operations of the crates alloy and types.
pub record Reading : Type 0 where
  pub parse_address : String → Option ℕ
  pub evm_chain_id : ℕ → Option ℕ

pub record CleanupStats : Type 0 where
  pub expired_count : ℕ
  pub paid_count : ℕ
  pub cancelled_count : ℕ

module _ (config : CleanupConfig) (x : Reading) where
  abbrev pub floor_of : Option ChainConfig → ℕ
  floor_of none = 0
  floor_of (some c) = min_paid_unwatch_grace_period_secs c

  unfoldable pub effective_paid_unwatch_grace_period_secs : ℕ → ℕ
  effective_paid_unwatch_grace_period_secs chain_id = max config.paid_unwatch_grace_period_secs (
      floor_of (elim (x.evm_chain_id chain_id) [
        | none ↦ none
        | some eip155 ↦ get_any_chain_config eip155
      ]))

  abbrev pub confirmed_within : ℕ → ℕ → Option ℕ → Bool
  confirmed_within now grace none = false
  confirmed_within now grace (some at) = ltb now (at + grace)

  unfoldable pub is_recent : ℕ → PaymentRow → Bool
  unfolding effective_paid_unwatch_grace_period_secs
  is_recent now r =
      confirmed_within now (effective_paid_unwatch_grace_period_secs r.payment.chain_id)
        r.payment.confirmed_at

  unfoldable pub within_paid_grace_period : ℕ → M Bool
  unfolding is_recent
  within_paid_grace_period invoice_id =
      get_for_invoice invoice_id >>= λ payments w. (ok (any (is_recent w.now) payments), w)

  abbrev pub parse_token : Option String → Option ℕ
  parse_token none = none
  parse_token (some t) = x.parse_address t

  -- `InvalidAddress`, then `NotAnEvmChain`.
  abbrev pub unwatch_parsed : CleanupAddressInfo → Option ℕ → Option ℕ → M Bool
  unwatch_parsed info none eip155 = throw invalid_data
  unwatch_parsed info (some addr) none = throw invalid_data
  unwatch_parsed info (some addr) (some eip155) =
      call (notify (unwatch eip155 addr (parse_token info.token_address)))
      >> deactivate info.address info.chain_id info.token_address

  unfoldable pub unwatch_and_deactivate : CleanupAddressInfo → M Bool
  unfolding deactivate
  unwatch_and_deactivate info =
      unwatch_parsed info (x.parse_address info.address) (x.evm_chain_id info.chain_id)

  abbrev pub count_unwatched : ℕ → Result Bool → M ℕ
  count_unwatched count (ok updated) = pure (count + 1)
  count_unwatched count (err e) = pure count

  abbrev pub clean_one : CleanupAddressInfo → ℕ → M ℕ
  clean_one info count = attempt (unwatch_and_deactivate info) >>= count_unwatched count

  unfoldable pub clean_each : ℕ → List CleanupAddressInfo → M ℕ
  unfolding unwatch_and_deactivate
  clean_each count [] = pure count
  clean_each count (info ∷ infos) = clean_one info count >>= λ n. clean_each n infos

  abbrev pub unless_recent : CleanupAddressInfo → ℕ → Result Bool → M ℕ
  unless_recent info count (ok true) = pure count
  unless_recent info count (ok false) = clean_one info count
  unless_recent info count (err e) = pure count

  unfoldable pub clean_paid_each : ℕ → List CleanupAddressInfo → M ℕ
  unfolding unwatch_and_deactivate within_paid_grace_period
  clean_paid_each count [] = pure count
  clean_paid_each count (info ∷ infos) =
      (attempt (within_paid_grace_period info.invoice_id) >>= unless_recent info count) >>= λ n.
      clean_paid_each n infos

  unfoldable pub cleanup_expired_addresses : M ℕ
  unfolding get_expired_for_cleanup clean_each
  cleanup_expired_addresses =
      get_expired_for_cleanup config.unwatch_grace_period_secs >>= clean_each 0

  unfoldable pub cleanup_paid_addresses : M ℕ
  unfolding get_paid_for_cleanup clean_paid_each
  cleanup_paid_addresses = get_paid_for_cleanup >>= clean_paid_each 0

  unfoldable pub cleanup_cancelled_addresses : M ℕ
  unfolding get_cancelled_for_cleanup clean_each
  cleanup_cancelled_addresses = get_cancelled_for_cleanup >>= clean_each 0

  unfoldable pub cleanup_addresses : M CleanupStats
  unfolding cleanup_expired_addresses cleanup_paid_addresses cleanup_cancelled_addresses
  cleanup_addresses = do
    expired_count ← cleanup_expired_addresses
    paid_count ← cleanup_paid_addresses
    cancelled_count ← cleanup_cancelled_addresses
    pure (record {
      expired_count = expired_count;
      paid_count = paid_count;
      cancelled_count = cancelled_count;
    })
