-- ===== src/Monitor/Coverage.antt =====
-- What the blocks hold for the watched addresses, apart from when and through which call it was
-- found: the payments that evm/src/monitor/chain/processing.rs is to report.
pub mod Scans
pub mod Kinds
pub mod Answers
pub mod Cursor
pub mod Nobody
pub mod Silent
pub mod Quiet
pub mod Blocks
pub mod Loop
use ethpayserver.Base.{
  ℕ, zero, suc, ◌+◌, ◌-◌, ◌≡◌, refl, sym, ap, ◌∙◌, Bool, true, false, Option, none, some, List, [],
  ◌∷◌, ◌++◌, ◌==◌, ◌||◌, any, filter, map, if◌then◌else◌, arith,
}
use mathlib.Core.List.{append_assoc, append-nil}
use ethpayserver.Base.Dict.{get}
use ethpayserver.Event.{PaymentDetected}
use ethpayserver.Monitor.State.{
  EvmResult, ok, err, NativeTransfer, Log, BlockSource, ChainMonitorConfig, WatchedAddress, Watched,
  eq_watch, lookup,
}
use ethpayserver.Monitor.Scan.{
  invoice_map, native_event, erc20_event, address_from_topic, erc20_transfers_to, with_block_range,
}

-- The chain itself: the transfers of each block, and its Transfer logs.
pub record Ledger : Type 0 where
  pub transfers : ℕ → List NativeTransfer
  pub logs : ℕ → List Log

abbrev pub is_to : List ℕ → NativeTransfer → Bool
is_to addresses t = any (λ a. a == t.to) addresses

-- The logs of `count` blocks from `from` on.
abbrev pub logs_in : Ledger → ℕ → ℕ → List Log
logs_in ledger from zero = []
logs_in ledger from (suc count) = ledger.logs from ++ logs_in ledger (from + 1) count

-- A node that answers, answers from the ledger.
pub record IsTruthful (source : BlockSource) (ledger : Ledger) : Type 0 where
  pub native :
      (n number : ℕ) (addresses : List ℕ) (ts : List NativeTransfer)
      → source.find_native_transfers_to n number addresses ≡ ok ts
      → ts ≡ filter (is_to addresses) (ledger.transfers number)
  pub token :
      (n from to : ℕ) (addresses : List ℕ) (logs : List Log)
      → source.get_logs n (with_block_range from to (erc20_transfers_to addresses)) ≡ ok logs
      → logs ≡ logs_in ledger from (to + 1 - from)

-- A payment without the time of its detection and the hash of its block.
abbrev pub erase : PaymentDetected → PaymentDetected
erase e = record e { detected_at = 0; block_hash = 0 }

module _ (source : BlockSource) (config : ChainMonitorConfig) (chain_id : ℕ) where
  -- A transfer is a payment of the invoice whose native address it goes to.
  unfoldable pub native_payment : Watched → ℕ → NativeTransfer → List PaymentDetected
  unfolding native_event invoice_map
  native_payment watched number t = elim (get t.to (invoice_map watched)) [
    | none ↦ []
    | some invoice_id ↦ native_event source config chain_id 0 number 0 invoice_id t ∷ []
  ]

  abbrev pub native_payments : Watched → ℕ → List NativeTransfer → List PaymentDetected
  native_payments watched number [] = []
  native_payments watched number (t ∷ ts) =
      native_payment watched number t ++ native_payments watched number ts

  unfoldable pub token_payment_to :
      Log → ℕ → ℕ → Option WatchedAddress → Option ℕ → List PaymentDetected
  unfolding erc20_event
  token_payment_to log from to none number = []
  token_payment_to log from to (some watch) none = []
  token_payment_to log from to (some watch) (some number) =
      erase (erc20_event source config chain_id 0 watch.invoice_id to from number log) ∷ []

  -- A log is a payment of the invoice that watches its token at its receiver.
  unfoldable pub token_payment : Watched → Log → List ℕ → List PaymentDetected
  unfolding token_payment_to address_from_topic
  token_payment watched log (_ ∷ topic1 ∷ topic2 ∷ _) =
      token_payment_to log (address_from_topic topic1) (address_from_topic topic2)
        (lookup eq_watch (address_from_topic topic2, some log.address) watched) log.block_number
  token_payment watched log (_ ∷ _ ∷ []) = []
  token_payment watched log (_ ∷ []) = []
  token_payment watched log [] = []

  abbrev pub token_payments : Watched → List Log → List PaymentDetected
  token_payments watched [] = []
  token_payments watched (log ∷ logs) =
      token_payment watched log log.topics ++ token_payments watched logs

  -- The native payments of `count` blocks from `from` on, where they are monitored.
  abbrev pub natives_all : Ledger → Watched → ℕ → ℕ → List PaymentDetected
  natives_all ledger watched from zero = []
  natives_all ledger watched from (suc count) =
      native_payments watched from (ledger.transfers from)
      ++ natives_all ledger watched (from + 1) count

  abbrev pub natives_in : Ledger → Watched → ℕ → ℕ → List PaymentDetected
  natives_in ledger watched from count =
      if config.monitor_native then natives_all ledger watched from count else []

  abbrev pub tokens_in : Ledger → Watched → ℕ → ℕ → List PaymentDetected
  tokens_in ledger watched from count =
      if config.monitor_erc20 then token_payments watched (logs_in ledger from count) else []

if-append :
    {A : Type 0} (b : Bool) (x y z : List A)
    → x ≡ y ++ z
    → (if b then x else []) ≡ (if b then y else []) ++ (if b then z else [])
if-append true x y z e = e
if-append false x y z e = refl

zero_add : (n : ℕ) → 0 + n ≡ n
zero_add n = omega arith

add_zero : (n : ℕ) → n + 0 ≡ n
add_zero n = omega arith

suc_add : (a b : ℕ) → suc a + b ≡ suc (a + b)
suc_add a b = omega arith

add_suc : (a b : ℕ) → a + suc b ≡ a + 1 + b
add_suc a b = omega arith

pub logs_in-add :
    (ledger : Ledger) (from m n : ℕ)
    → logs_in ledger from (m + n) ≡ logs_in ledger from m ++ logs_in ledger (from + m) n
logs_in-add ledger from zero n = rw (zero_add n, add_zero from)
logs_in-add ledger from (suc m) n = rw (
  suc_add m n,
  add_suc from m,
  logs_in-add ledger (from + 1) m n,
  append_assoc (ledger.logs from) (logs_in ledger (from + 1) m) (logs_in ledger (from + 1 + m) n),
)

module _ (source : BlockSource) (config : ChainMonitorConfig) (chain_id : ℕ) (ledger : Ledger)
    (watched : Watched) where
  natives_all-add :
      (from m n : ℕ)
      → natives_all source config chain_id ledger watched from (m + n)
        ≡ natives_all source config chain_id ledger watched from m
          ++ natives_all source config chain_id ledger watched (from + m) n
  natives_all-add from zero n = rw (zero_add n, add_zero from)
  natives_all-add from (suc m) n =
      let here = native_payments source config chain_id watched from (ledger.transfers from) in
      let middle = natives_all source config chain_id ledger watched (from + 1) m in
      let rest = natives_all source config chain_id ledger watched (from + 1 + m) n in
      rw
        (suc_add m n, add_suc from m, natives_all-add (from + 1) m n, append_assoc here middle rest)

  pub natives_in-add :
      (from m n : ℕ)
      → natives_in source config chain_id ledger watched from (m + n)
        ≡ natives_in source config chain_id ledger watched from m
          ++ natives_in source config chain_id ledger watched (from + m) n
  natives_in-add from m n = if-append config.monitor_native _ _ _ (natives_all-add from m n)

  pub token_payments-append :
      (xs ys : List Log)
      → token_payments source config chain_id watched (xs ++ ys)
        ≡ token_payments source config chain_id watched xs
          ++ token_payments source config chain_id watched ys
  token_payments-append [] ys = refl
  token_payments-append (log ∷ xs) ys =
      let here = token_payment source config chain_id watched log log.topics in
      let first = token_payments source config chain_id watched xs in
      let rest = token_payments source config chain_id watched ys in
      rw (token_payments-append xs ys, append_assoc here first rest)

  pub tokens_in-add :
      (from m n : ℕ)
      → tokens_in source config chain_id ledger watched from (m + n)
        ≡ tokens_in source config chain_id ledger watched from m
          ++ tokens_in source config chain_id ledger watched (from + m) n
  tokens_in-add from m n = if-append config.monitor_erc20 _ _ _ (
      ap (token_payments source config chain_id watched) (logs_in-add ledger from m n)
      ∙ token_payments-append (logs_in ledger from m) (logs_in ledger (from + m) n))
