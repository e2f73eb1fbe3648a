-- ===== src/Tests/Payments.antt =====
-- Payments that are there already: a confirmation that comes again, and a reorganization.
use ethpayserver.Base.{sym, ℕ, ◌≡◌, refl, true, false, none, some, [], ◌∷◌, find, arith}
use ethpayserver.Base.Int.{negsuc}
use ethpayserver.Event.{ReorgDetected, payment_confirmed}
use ethpayserver.Outbox.{EventEnvelope}
use ethpayserver.Database.Rows.{native, processing, PaymentRow, World}
use ethpayserver.Database.Monad.{tick, ok, call, notify}
use ethpayserver.Database.Invoices
use ethpayserver.Database.Invoices.{update_status, write_status, set_status}
use ethpayserver.Database.Settings.{get_settlement_tolerance}
use ethpayserver.Settlement.{effective_tolerance, tag_default, is_fully_paid}
use ethpayserver.Consumer.Confirmed.{
  handle_payment_confirmed, confirm_payment, check_settlement, or_invalid, settle, settle_paid,
  record_allowance_if_short, announce, send_customer_receipt, receipt_to, extract_customer_email,
  or_else, metadata_email, notify_own_store_settled,
}
use ethpayserver.Consumer.Services.{notify_if, queue_webhook}
use ethpayserver.Consumer.Settled.{handle_payment_confirmed-IsSettled}
use ethpayserver.Consumer.Settled.Decision.{IsSettled}
use ethpayserver.Database.Payments.{
  is_candidate, at_or_above, reorg_candidates, mark_payment_reorged, retract_row, is_unretracted,
  retract, has_valid_payments, has_id, is_transfer_of, is_awaiting, get_by_tx_index, payment_found,
  mark_confirmed, update_one, update_first, confirm, trigger, credited_sum, credit, counts_for,
  triggered_status,
}
use ethpayserver.Consumer.Reorg.{
  handle_reorg_detected, survived, tx_hash_eq, same_hash, dropped, group_from, push, retract_groups,
  retract_invoice, retract_all, status_after, apply_reorg_status, move_back, is_closed,
  notify_reorg, webhook_for, as_retracted,
}
use ethpayserver.Consumer.Retracted.{dropped_retracted}
use ethpayserver.Database.Payments.{same_transfer}
use ethpayserver.Database.Payments.Unique.{IsUnique, same_transfer-parts}
use ethpayserver.Consumer.Invariants.Unique.{handle_event-IsUnique}
use ethpayserver.Consumer.Retracted.Rows.{IsSingle}
use ethpayserver.Consumer.Resume.{handle_event, consume, is_skipped}
use ethpayserver.Consumer.Redelivery.{IsConfirmed, redelivery_halts}
use ethpayserver.Consumer.Reorganized.{survivor_untouched, IsOnly}
use ethpayserver.Tests.Fixed.{fixed, units}
use ethpayserver.Tests.Shop.{detected, services, operator, shop, coffee, settled, fork}

abbrev pub row : ℕ → ℕ → PaymentRow
row id hash = record {
  payment = record {
    id = id;
    invoice_id = 1;
    payment_option_id = some 11;
    chain_id = 8453;
    asset_type = native;
    amount = 3;
    asset_symbol = "ETH";
    token_address = none;
    tx_hash = units hash;
    block_number = some 90;
    detected_at = 150;
    confirmed_at = some 160;
    from_address = none;
    reorged = false;
    extra = none;
    credited_amount = some "III";
    rate_used = none;
    rate_applied_at = none;
  };
  tx_index = negsuc 0;
}

abbrev pub two_rows : World
two_rows = record shop { payments = row 21 6 ∷ row 22 5 ∷ [] }

abbrev again : EventEnvelope
again = record {
  chain_id = 8453;
  cursor = record { epoch = 7; seq = 9; block_height = 90 };
  event = payment_confirmed settled;
}

two_rows-IsConfirmed : IsConfirmed fixed settled (row 21 6) two_rows
unfolding is_transfer_of is_awaiting has_id
two_rows-IsConfirmed = record { named = refl; not_awaiting = refl }

used : is_skipped operator again ≡ false
unfolding is_skipped
used = refl

redelivery_halts_example :
    consume (handle_event fixed services none) operator 7 (again ∷ again ∷ []) [] two_rows
    ≡ record { applied = []; halted = some again; cursors = []; world = tick (tick two_rows) }
redelivery_halts_example =
    redelivery_halts fixed services none operator 7 again (again ∷ []) settled (row 21 6) []
      two_rows refl used (λ n. refl) two_rows-IsConfirmed

-- The transaction with the hash 6 was found again, that with the hash 5 was not.
abbrev reorganized : ReorgDetected
reorganized = record fork { survived_tx_hashes = 6 ∷ [] }

pub first : find (has_id 21) two_rows.payments ≡ some (row 21 6)
unfolding has_id
first = refl

pub only : IsOnly fixed services 21 (row 21 6) two_rows.payments
only = (λ same. refl, (λ same. absurd (omega (arith, same)), tt))

survives : survived fixed (6 ∷ []) (row 21 6).payment ≡ true
unfolding survived tx_hash_eq same_hash
survives = refl

survivor_untouched_example :
    find (has_id 21) (handle_reorg_detected fixed services reorganized two_rows).1.payments
    ≡ some (row 21 6)
survivor_untouched_example =
    survivor_untouched fixed services 21 (row 21 6) reorganized two_rows first only
      (rw survives (ground arith))

-- The invoice is being processed and its payment waits for its confirmation.
abbrev waiting_row : PaymentRow
waiting_row =
    let r = row 21 6 in let p = r.payment in record r { payment = record p { confirmed_at = none } }

abbrev waiting : World
waiting = record shop {
  payments = waiting_row ∷ [];
  invoices = (1, record coffee { status = processing; amount_received = "III" }) ∷ [];
}

waiting_there :
    find (is_transfer_of settled.invoice_id (units 6) settled.tx_index) waiting.payments
    ≡ some waiting_row
unfolding is_transfer_of
waiting_there = refl

confirmed_ok : (handle_payment_confirmed fixed services settled waiting).0 ≡ ok tt
unfolding handle_payment_confirmed get_by_tx_index is_transfer_of payment_found confirm_payment
    check_settlement mark_confirmed update_one update_first is_awaiting has_id confirm trigger
    credited_sum credit counts_for triggered_status Invoices.get get_settlement_tolerance
    effective_tolerance tag_default or_invalid is_fully_paid settle settle_paid
    record_allowance_if_short update_status write_status set_status notify_if notify announce
    queue_webhook send_customer_receipt receipt_to extract_customer_email or_else metadata_email
    notify_own_store_settled call
confirmed_ok = refl

handle_payment_confirmed-IsSettled_example :
    IsSettled fixed services settled (handle_payment_confirmed fixed services settled waiting).1
handle_payment_confirmed-IsSettled_example =
    handle_payment_confirmed-IsSettled fixed services settled waiting_row waiting waiting_there
      confirmed_ok

-- The other payment is dropped.
second : find (has_id 22) two_rows.payments ≡ some (row 22 5)
unfolding has_id
second = refl

second-IsSingle : IsSingle 22 two_rows.payments
unfolding has_id
second-IsSingle = ((λ same. absurd (omega (arith, same))), ((λ same. refl), tt))

fell_out : is_candidate reorganized.chain_id reorganized.fork_block (row 22 5) ≡ true
unfolding is_candidate at_or_above
fell_out = refl

lost : survived fixed (6 ∷ []) (row 22 5).payment ≡ false
unfolding survived tx_hash_eq same_hash
lost = refl

reorganized_ok : (handle_reorg_detected fixed services reorganized two_rows).0 ≡ ok tt
unfolding handle_reorg_detected reorg_candidates is_candidate at_or_above dropped survived
    tx_hash_eq same_hash group_from push retract_groups retract_invoice retract_all
    mark_payment_reorged retract_row is_unretracted has_id retract update_first trigger credited_sum
    credit counts_for triggered_status has_valid_payments status_after apply_reorg_status
    Invoices.get move_back is_closed update_status write_status set_status notify_if notify
    notify_reorg webhook_for queue_webhook as_retracted call
reorganized_ok = refl

dropped_retracted_example :
    find (is_unretracted 22) (handle_reorg_detected fixed services reorganized two_rows).1.payments
    ≡ none
dropped_retracted_example =
    dropped_retracted fixed services 22 reorganized two_rows (row 22 5) refl second-IsSingle second
      fell_out lost reorganized_ok

two_rows-IsUnique : IsUnique two_rows
unfolding same_transfer
two_rows-IsUnique c h i = (
  (λ same. let (a, b, _) = same_transfer-parts c h i (row 21 6) same in rw (sym a, sym b) refl),
  ((λ same. refl), tt),
)

-- The transfer of the first row is detected again.
handle_event-IsUnique_example : IsUnique (handle_event fixed services none detected two_rows).1
handle_event-IsUnique_example =
    handle_event-IsUnique fixed services none detected two_rows two_rows-IsUnique
