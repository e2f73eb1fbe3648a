-- ===== src/Tests/Drain.antt =====
-- An obligation for a payment of the shop's invoice.
use ethpayserver.Base.{◌≡◌, refl, true, false, none, some, List, [], ◌∷◌, ◌==◌, All, arith}
use ethpayserver.Database.Rows.{native, PaymentData}
use ethpayserver.Drain.Outbox.{WebhookObligation, Row, claim_rows}
use ethpayserver.Drain.Dispatch.{Tables, Events, State, Config, drain_once}
use ethpayserver.Drain.Marked.{IsAccounted}
use ethpayserver.Drain.Accounted.{drain_once-IsAccounted}
use ethpayserver.Drain.Claims.{names, claims_disjoint}
use ethpayserver.Drain.Answered.{IsDone}
use ethpayserver.Drain.Progress.{drain_once-dispatches}
use ethpayserver.Tests.Shop.{coffee}
use ethpayserver.Tests.Webhook.{silent, empty}

abbrev payment : PaymentData
payment = record {
  id = 21;
  invoice_id = 1;
  payment_option_id = none;
  chain_id = 8453;
  asset_type = native;
  amount = 3;
  asset_symbol = "ETH";
  token_address = none;
  tx_hash = "0x1";
  block_number = none;
  detected_at = 110;
  confirmed_at = none;
  from_address = none;
  reorged = false;
  extra = none;
  credited_amount = none;
  rate_used = none;
  rate_applied_at = none;
}

abbrev obligation : WebhookObligation
obligation = record {
  id = 31;
  payment_id = 21;
  invoice_id = 1;
  event_type = "payment_detected";
  created_at = 110;
}

abbrev rows : List Row
rows = record { obligation = obligation; dispatched_at = none; claimed_until = none } ∷ []

abbrev tables : Tables
tables = record {
  invoices = (1, coffee) ∷ [];
  payments = (21, payment) ∷ [];
  store_webhooks = (5, record { id = 1; webhook_url = 2; webhook_secret = 3; enabled = true }) ∷ [];
  notification_prefs = [];
}

abbrev events : Events
events = record {
  parse_event_type = λ name. some 1;
  event_key = λ event_type. "payment_detected";
  payment_event = λ event_type invoice payment. payment.id;
}

abbrev config : Config
config = record { batch_size = 100; claim_visibility = 30 }

-- The answer of the fifth call is lost: the mark of the obligation.
abbrev recorded : State
recorded = record {
  tables = tables;
  webhook_outbox = rows;
  now = 120;
  calls = 0;
  down = λ n. n == 5;
  lost = λ n. true;
  fresh = 50;
  queue = empty;
}

abbrev steady : State
steady = record recorded { down = λ n. false; queue = record empty { down = λ n. false } }

drain_once-IsAccounted_example :
    IsAccounted silent events (drain_once silent events config recorded)
drain_once-IsAccounted_example =
    drain_once-IsAccounted silent events config recorded (λ j. refl) (((λ e. refl), tt), tt)
      ((λ e. cc e), tt)

claims_disjoint_example :
    All
      (λ o. names o.id (claim_rows 100 30 120 rows).0 ≡ false)
      (claim_rows 100 30 140 (claim_rows 100 30 120 rows).1).0
claims_disjoint_example = claims_disjoint 100 30 120 100 30 140 rows (omega arith)

drain_once-dispatches_example :
    All (λ o. IsDone o.id (drain_once silent events config steady)) (claim_rows 100 30 120 rows).0
drain_once-dispatches_example =
    drain_once-dispatches silent events config steady (λ n. refl) (λ n. refl)
