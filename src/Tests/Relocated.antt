-- ===== src/Tests/Relocated.antt =====
-- A reorganization that moves a payment, from the monitor's node to the server's tables.
use ethpayserver.Base.{◌≡◌, refl, some, [], ◌∷◌, true, find, arith}
use ethpayserver.Event.{ReorgDetected, reorg_detected}
use ethpayserver.Database.Payments.{has_id}
use ethpayserver.Consumer.Reorg.{handle_reorg_detected}
use ethpayserver.Monitor.State.{ok, ask, send}
use ethpayserver.Monitor.Scan.{
  native_addresses, erc20_addresses, with_block_range, erc20_transfers_to,
}
use ethpayserver.Monitor.Reorganization.{
  log_hashes, chunk_end, chunk_size, rescan_native, rescan_logs, rescan, find_survived_tx_hashes,
  affected_invoices, handle_reorg,
}
use ethpayserver.Monitor.Survivors.Relocated.{last_sent, relocated_untouched}
use ethpayserver.Tests.Fixed.{fixed}
use ethpayserver.Tests.Shop.{services}
use ethpayserver.Tests.Payments.{row, two_rows, first, only}
use ethpayserver.Tests.Monitor.{ledger, steady, steady-IsTruthful, config, shop, block}

abbrev moved : ReorgDetected
moved = record {
  chain_id = 8453;
  fork_block = 101;
  old_hash = 1100;
  new_hash = 1104;
  depth = 4;
  affected_invoices = [];
  survived_tx_hashes = 6 ∷ 501 ∷ [];
  survivors_verifiable = true;
  detected_at = 0;
}

found : (find_survived_tx_hashes steady config 8453 101 104 shop).0 ≡ ok (6 ∷ 501 ∷ [], true)
unfolding find_survived_tx_hashes rescan rescan_native rescan_logs log_hashes chunk_end chunk_size
    native_addresses erc20_addresses with_block_range erc20_transfers_to ask
found = refl

told :
    last_sent (handle_reorg steady config 8453 101 1100 (block 104) shop).1.sent
    ≡ some (reorg_detected moved)
unfolding handle_reorg send find_survived_tx_hashes rescan rescan_native rescan_logs log_hashes
    chunk_end chunk_size native_addresses erc20_addresses with_block_range erc20_transfers_to ask
    affected_invoices
told = refl

relocated_untouched_example :
    find (has_id 21) (handle_reorg_detected fixed services moved two_rows).1.payments
    ≡ some (row 21 6)
unfolding native_addresses
relocated_untouched_example =
    relocated_untouched steady config 8453 ledger 101 1100 102 6 (block 104) shop moved
      (6 ∷ 501 ∷ [], true) fixed services 21 (row 21 6) two_rows steady-IsTruthful (omega arith)
      found told (omega arith) (omega arith) refl refl refl first only
