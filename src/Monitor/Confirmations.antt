-- ===== src/Monitor/Confirmations.antt =====
-- Confirmations of the pending payments: evm/src/monitor/chain/confirmations.rs.
-- The map of the pending payments is walked in its list's order.
use ethpayserver.Base.{ℕ, ◌+◌, ◌-◌, Bool, List, [], ◌∷◌, leb, map, if◌then◌else◌}
use ethpayserver.Event.{PaymentDetected, PaymentConfirmed, payment_confirmed}
use ethpayserver.Monitor.State.{
  ok, BlockSource, PendingKey, Pending, M, pure, ◌>>=◌, ◌>>◌, ask, send, eq_pending, remove,
}

-- `current_block.saturating_sub(block_number) + 1`.
unfoldable pub confirmations_at : ℕ → PaymentDetected → ℕ
confirmations_at current event = current - event.block_number + 1

unfoldable pub update_one : ℕ → PendingKey × PaymentDetected → PendingKey × PaymentDetected
unfolding confirmations_at
update_one current (key, event) =
    (key, record event { confirmations = confirmations_at current event })

unfoldable pub reaches_depth : ℕ → PendingKey × PaymentDetected → Bool
unfolding confirmations_at
reaches_depth current (key, event) =
    leb event.required_confirmations (confirmations_at current event)

unfoldable pub confirmed_event : ℕ → ℕ → PendingKey × PaymentDetected → PaymentConfirmed
unfolding confirmations_at
confirmed_event now current ((tx_hash, tx_index), event) = record {
  tx_index = tx_index;
  chain_id = event.chain_id;
  invoice_id = event.invoice_id;
  payment_address = event.payment_address;
  amount = event.amount;
  tx_hash = event.tx_hash;
  block_number = event.block_number;
  confirmations = confirmations_at current event;
  confirmed_at = now;
}

abbrev pub entry_key : PendingKey × PaymentDetected → PendingKey
entry_key (key, _) = key

-- The loop over the pending payments: the keys to remove, the events in order.
unfoldable pub confirm_each : ℕ → Pending → M (List PendingKey)
unfolding confirmed_event reaches_depth
confirm_each current [] s = (ok [], s)
confirm_each current (entry ∷ pending) s =
    (if reaches_depth current entry
        then (do
          send (payment_confirmed (confirmed_event s.now current entry))
          keys ← confirm_each current pending
          pure (entry_key entry ∷ keys))
        else confirm_each current pending)
      s

-- `for key in &confirmed { pending.remove(key); }`.
unfoldable pub remove_each : List PendingKey → Pending → Pending
remove_each [] pending = pending
remove_each (key ∷ keys) pending = remove_each keys (remove eq_pending key pending)

abbrev pub set_pending : Pending → M (Unit {0})
set_pending pending s = (ok tt, record s { pending = pending })

unfoldable pub confirm_pending : ℕ → M (Unit {0})
unfolding confirm_each remove_each update_one
confirm_pending current s =
    (do
      keys ← confirm_each current s.pending
      set_pending (remove_each keys (map (update_one current) s.pending)))
      s

unfoldable pub check_confirmations : BlockSource → M (Unit {0})
unfolding confirm_pending
check_confirmations source = do current ← ask source.get_block_number; confirm_pending current
