-- ===== src/Tests/Monitor.antt =====
-- A chain of a few blocks, a node that answers from it, and runs of the monitor over it.
use ethpayserver.Base.{
  All, zero, suc, ℕ, ◌+◌, ◌-◌, ◌≤◌, ◌≡◌, refl, sym, Bool, true, false, Option, none, some, List, [],
  ◌∷◌, ◌++◌, filter, ◌==◌, if◌then◌else◌, arith,
}
use ethpayserver.Base.Int.{pos, negsuc}
use ethpayserver.Event.{PaymentDetected}
use ethpayserver.Monitor.State.{
  EvmError, rpc, ok, NativeTransfer, BlockNotification, Log, connected, BlockSource,
  ChainMonitorConfig, ChainMonitor,
}
use ethpayserver.Monitor.Lifecycle.{Input, block_arrived, stream_failed, tick, run}
use ethpayserver.Monitor.Scan.{transfer_topic, with_block_range, native_addresses, erc20_addresses}
use ethpayserver.Monitor.Reorganization.{log_hashes, find_survived_tx_hashes}
use ethpayserver.Monitor.Confirmations.{check_confirmations}
use ethpayserver.Monitor.Reads.{detected}
use ethpayserver.Monitor.Succeeds.{IsUp}
use ethpayserver.Monitor.Coverage.{Ledger, is_to, logs_in, IsTruthful, natives_in, tokens_in}
use ethpayserver.Monitor.Coverage.Cursor.{natives_found, tokens_found}
use ethpayserver.Monitor.Coverage.Loop.{run_complete}
use ethpayserver.Monitor.Survivors.{transfer_hashes_in, find_survived_tx_hashes_complete}
use ethpayserver.Monitor.Survivors.Returns.{find_survived_tx_hashes_returns}
use ethpayserver.Monitor.Blocks.{process_block}
use ethpayserver.Monitor.Progress.{NamesBlocks}
use ethpayserver.Monitor.Progress.Arrival.{process_block_advances}
use ethpayserver.Monitor.Pending.Loop.{count_at, check_confirmations-exact}

abbrev transfer : NativeTransfer
transfer = record { tx_hash = 6; from = 9; to = 21; value = 7000 }

abbrev token_log : Log
token_log = record {
  address = 77;
  topics = transfer_topic ∷ 9 ∷ 22 ∷ [];
  payload = 5 ∷ [];
  block_number = some 103;
  block_hash = some 1103;
  transaction_hash = some 501;
  log_index = some 2;
}

-- Block 102 pays the native address, and the logs of block 103 pay the token's.
abbrev pub ledger : Ledger
ledger = record {
  transfers = λ number. if number == 102 then transfer ∷ [] else [];
  logs = λ number. if number == 103 then token_log ∷ [] else [];
}

abbrev logs_between : Option ℕ → Option ℕ → List Log
logs_between none to = []
logs_between (some from) none = []
logs_between (some from) (some to) = logs_in ledger from (to + 1 - from)

-- The call with number 1 finds no block; no other fails.
abbrev node : BlockSource
node = record {
  get_block_number = λ n. ok 110;
  get_block_hash = λ n number. if n == 1 then ok none else ok (some (1000 + number));
  find_native_transfers_to =
      λ n number addresses. ok (filter (is_to addresses) (ledger.transfers number));
  get_logs = λ n f. ok (logs_between f.from_block f.to_block);
  subscribe_blocks = λ n. ok tt;
  status = λ n. connected;
  from_be_slice = λ bytes. elim bytes [ [] ↦ 0 | b ∷ rest ↦ b ];
}

-- The same node without a failure.
abbrev pub steady : BlockSource
steady = record node { get_block_hash = λ n number. ok (some (1000 + number)) }

ok-injective : {A : Type 0} {a b : A} → ok a ≡ ok b → a ≡ b
ok-injective e = cc e

node-IsTruthful : IsTruthful node ledger
unfolding with_block_range
node-IsTruthful = record {
  native = λ n number addresses ts e. sym (ok-injective e);
  token = λ n from to addresses logs e. sym (ok-injective e);
}

pub steady-IsTruthful : IsTruthful steady ledger
unfolding with_block_range
steady-IsTruthful = record {
  native = λ n number addresses ts e. sym (ok-injective e);
  token = λ n from to addresses logs e. sym (ok-injective e);
}

pub steady-IsUp : IsUp steady
steady-IsUp = record {
  native = λ n number addresses. (_, refl);
  token = λ n f. (_, refl);
  block_hash = λ n number. (_, refl);
}

abbrev pub config : ChainMonitorConfig
config = record {
  required_confirmations = 3;
  max_blocks_per_scan = 2;
  stall_timeout_secs = 60;
  monitor_native = true;
  monitor_erc20 = true;
}

abbrev pub shop : ChainMonitor
shop = record {
  watched =
      ((21, none), record { address = 21; invoice_id = 1; token_contract = none })
      ∷ ((22, some 77), record { address = 22; invoice_id = 2; token_contract = some 77 })
      ∷ [];
  pending = [];
  last_block = some 100;
  last_block_hash = some 1100;
  last_block_at = 0;
  loop_alive_at = 0;
  sent = [];
  asked = 0;
  now = 0;
}

abbrev pub block : ℕ → BlockNotification
block number = record { number = number; hash = 1000 + number; parent_hash = 999 + number }

-- The first arrival leaves a gap, whose scan fails; the second one makes up for it.
abbrev inputs : List (ℕ × Input)
inputs =
    (10, block_arrived (block 103))
    ∷ (11, stream_failed rpc)
    ∷ (12, block_arrived (block 104))
    ∷ (13, tick)
    ∷ []

abbrev no_text : EvmError → List ℕ
no_text e = []

run_complete_example :
    (last : ℕ) × (100 ≤ last)
    × (last ≤ 104)
    × ((run node config 8453 no_text inputs shop).1.last_block ≡ some last)
    × (natives_found (run node config 8453 no_text inputs shop).1
        ≡ [] ++ natives_in node config 8453 ledger shop.watched 101 (last - 100))
    × (tokens_found (run node config 8453 no_text inputs shop).1
        ≡ [] ++ tokens_in node config 8453 ledger shop.watched 101 (last - 100))
unfolding detected
run_complete_example =
    run_complete node config 8453 ledger no_text shop 100 inputs node-IsTruthful refl
      (omega arith, (omega arith, tt))

abbrev expected : List ℕ × Bool
expected = (transfer_hashes_in ledger (21 ∷ []) 101 4 ++ log_hashes (logs_in ledger 101 4), true)

abbrev answer : List ℕ × Bool
answer = (6 ∷ 501 ∷ [], true)

find_survived_tx_hashes_complete_example : answer ≡ expected
unfolding native_addresses erc20_addresses log_hashes
find_survived_tx_hashes_complete_example =
    find_survived_tx_hashes_complete steady config 8453 ledger 101 104 shop answer steady-IsTruthful
      (omega arith)
      (find_survived_tx_hashes_returns steady config 8453 ledger 101 104 shop steady-IsUp
        steady-IsTruthful (omega arith) refl)

find_survived_tx_hashes_returns_example :
    (find_survived_tx_hashes steady config 8453 101 104 shop).0 ≡ ok expected
unfolding native_addresses erc20_addresses
find_survived_tx_hashes_returns_example =
    find_survived_tx_hashes_returns steady config 8453 ledger 101 104 shop steady-IsUp
      steady-IsTruthful (omega arith) refl

abbrev seen : PaymentDetected
seen = record {
  chain_id = 8453;
  invoice_id = 1;
  payment_address = 21;
  amount = 7000;
  tx_hash = 6;
  block_number = 102;
  block_hash = 1102;
  log_index = none;
  is_native = true;
  token_address = none;
  from_address = 9;
  confirmations = 1;
  required_confirmations = 3;
  detected_at = 10;
}

-- One payment that is deep enough at block 110, and one that is not.
abbrev waiting : ChainMonitor
waiting = record shop {
  pending =
      ((6, negsuc 0), seen)
      ∷ (
        (501, pos 2),
        record seen { tx_hash = 501; block_number = 109; log_index = some 2; is_native = false },
      )
      ∷ [];
}

check_confirmations-exact_example :
    check_confirmations node waiting ≡ count_at (ok 110) (record waiting { asked = 1 })
check_confirmations-exact_example = check_confirmations-exact node waiting ((refl, tt), (tt, tt))

IsNamed : Log → Type 0
IsNamed log = (number : ℕ) × (log.block_number ≡ some number)

All-append : (xs ys : List Log) → All IsNamed xs → All IsNamed ys → All IsNamed (xs ++ ys)
All-append [] ys named rest = rest
All-append (x ∷ xs) ys (here, named) rest = (here, All-append xs ys named rest)

ledger-IsNamed : (here : Bool) → All IsNamed (if here then token_log ∷ [] else [])
unfolding IsNamed
ledger-IsNamed true = ((103, refl), tt)
ledger-IsNamed false = tt

logs_in-IsNamed : (from count : ℕ) → All IsNamed (logs_in ledger from count)
logs_in-IsNamed from zero = tt
logs_in-IsNamed from (suc count) =
    All-append (ledger.logs from) (logs_in ledger (from + 1) count) (ledger-IsNamed (from == 103))
      (logs_in-IsNamed (from + 1) count)

between-IsNamed : (from to : Option ℕ) → All IsNamed (logs_between from to)
between-IsNamed none to = tt
between-IsNamed (some from) none = tt
between-IsNamed (some from) (some to) = logs_in-IsNamed from (to + 1 - from)

steady-NamesBlocks : NamesBlocks steady
unfolding IsNamed
steady-NamesBlocks n f logs e = rw (sym (ok-injective e)) (between-IsNamed f.from_block f.to_block)

process_block_advances_example :
    ((process_block steady config 8453 (block 103) shop).0 ≡ ok tt)
    × ((process_block steady config 8453 (block 103) shop).1.last_block ≡ some 103)
process_block_advances_example =
    process_block_advances steady config 8453 (block 103) shop 100 steady-IsUp steady-NamesBlocks
      refl (omega arith) refl
