-- ===== src/Tests/Shop.antt =====
-- A store with one invoice that waits for 3 units of the chain's own coin, and its events.
use ethpayserver.Base.{
  ◌≡◌, sym, ap, inl, inr, true, false, none, some, [], ◌∷◌, ◌==◌, arith, Bool-cases, unwrap_or,
}
use ethpayserver.Base.Int.{negsuc}
use ethpayserver.Event.{
  PaymentDetected, PaymentConfirmed, ReorgDetected, MonitorEvent, payment_detected,
  payment_confirmed, reorg_detected,
}
use ethpayserver.Database.Rows.{pending, InvoiceData, PaymentOptionData, WatchRow, World}
use ethpayserver.Database.Payments.{credited_sum}
use ethpayserver.Database.Payments.Received.{IsReceived}
use ethpayserver.Consumer.Services.{Services}
use ethpayserver.Consumer.Resume.{Operator}
use ethpayserver.Tests.Fixed.{fixed, units}

abbrev pub services : Services
services = record {
  ws_broadcast = true;
  webhook_service = true;
  payment_observers = false;
  own_store_id = none;
}

abbrev pub operator : Operator
operator = record { accept_lineage_break = false; skip_events = [] }

abbrev pub coffee : InvoiceData
coffee = record {
  id = 1;
  store_id = 5;
  currency = "EUR";
  status = pending;
  amount = "III";
  amount_received = "";
  created_at = 100;
  expires_at = 1000;
  metadata = none;
  customer_email = none;
}

abbrev pub option : PaymentOptionData
option = record {
  id = 11;
  invoice_id = 1;
  chain_id = 8453;
  token_address = none;
  payment_address = units 4;
  decimals = 0;
  rate = none;
}

abbrev pub watch : WatchRow
watch = record {
  address = units 4;
  chain_id = 8453;
  token_address = none;
  payment_option_id = 11;
  is_active = true;
  monitor_notified = true;
}

abbrev pub shop : World
shop = record {
  payments = [];
  invoices = (1, coffee) ∷ [];
  webhook_outbox = [];
  allowances = [];
  tolerances = [];
  receipts_disabled = [];
  options = (11, option) ∷ [];
  watches = watch ∷ [];
  tokens = [];
  cursors = [];
  now = 200;
  fresh = 50;
  calls = 0;
  down = λ n. false;
  lost = λ n. false;
  sent = [];
}

-- The database fails at its fourth call.
abbrev pub failing : World
failing = record shop { down = λ n. n == 3 }

abbrev pub transfer : PaymentDetected
transfer = record {
  chain_id = 8453;
  invoice_id = 1;
  payment_address = 4;
  amount = 3;
  tx_hash = 6;
  block_number = 90;
  block_hash = 7;
  log_index = none;
  is_native = true;
  token_address = none;
  from_address = 8;
  confirmations = 0;
  required_confirmations = 5;
  detected_at = 150;
}

abbrev pub settled : PaymentConfirmed
settled = record {
  tx_index = negsuc 0;
  chain_id = 8453;
  invoice_id = 1;
  payment_address = 4;
  amount = 3;
  tx_hash = 6;
  block_number = 90;
  confirmations = 5;
  confirmed_at = 210;
}

abbrev pub fork : ReorgDetected
fork = record {
  chain_id = 8453;
  fork_block = 88;
  old_hash = 1;
  new_hash = 2;
  depth = 3;
  affected_invoices = 1 ∷ [];
  survived_tx_hashes = [];
  survivors_verifiable = true;
  detected_at = 220;
}

abbrev pub detected : MonitorEvent
detected = payment_detected transfer

abbrev pub confirmed : MonitorEvent
confirmed = payment_confirmed settled

abbrev pub forked : MonitorEvent
forked = reorg_detected fork

pub failing-IsReceived : IsReceived fixed failing
unfolding credited_sum
failing-IsReceived i inv known = elim (Bool-cases (i == 1)) [
  | inl this ↦
      let same : some coffee ≡ some inv = rw this at known in
      sym (ap (λ o. (unwrap_or o coffee).amount_received) same)
  | inr other ↦ ground (arith, known)
]
