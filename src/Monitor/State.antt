-- ===== src/Monitor/State.antt =====
-- The state of a chain monitor, what it asks its block source, and its errors:
-- evm/src/monitor/chain/mod.rs, evm/src/monitor/chain/config.rs and evm/src/monitor/source/mod.rs.
-- A map is a list of its entries; the addresses that are asked for come in its order.
pub use ethpayserver.Base.Assoc.{lookup, insert, remove}
use ethpayserver.Base.{
  ℕ, ◌+◌, Bool, true, false, Option, none, some, List, [], ◌∷◌, ◌++◌, ◌&&◌, ◌==◌,
}
use ethpayserver.Base.Int.{ℤ, eq_ℤ}
use ethpayserver.Event.{MonitorEvent, PaymentDetected}

pub data EvmError : Type 0 where
  rpc monitor : EvmError

pub data EvmResult {ℓ} (A : Type ℓ) : Type ℓ where
  ok : A → EvmResult A
  err : EvmError → EvmResult A

pub record NativeTransfer : Type 0 where
  pub tx_hash : ℕ
  pub from : ℕ
  pub to : ℕ
  pub value : ℕ

pub record BlockNotification : Type 0 where
  pub number : ℕ
  pub hash : ℕ
  pub parent_hash : ℕ

-- A log of the node: its topics are 32-byte words, its payload is bytes.
pub record Log : Type 0 where
  pub address : ℕ
  pub topics : List ℕ
  pub payload : List ℕ
  pub block_number : Option ℕ
  pub block_hash : Option ℕ
  pub transaction_hash : Option ℕ
  pub log_index : Option ℕ

pub record LogFilter : Type 0 where
  pub addresses : List ℕ
  pub topics : List (Option ℕ)
  pub from_block : Option ℕ
  pub to_block : Option ℕ

pub data SourceStatus : Type 0 where
  connected connecting disconnected failed : SourceStatus

-- The trait `BlockSource`. An answer may depend on how many calls came before it; what a node
-- answers is not the program's.
pub record BlockSource : Type 0 where
  pub get_block_number : ℕ → EvmResult ℕ
  pub get_block_hash : ℕ → ℕ → EvmResult (Option ℕ)
  pub find_native_transfers_to : ℕ → ℕ → List ℕ → EvmResult (List NativeTransfer)
  pub get_logs : ℕ → LogFilter → EvmResult (List Log)
  pub subscribe_blocks : ℕ → EvmResult (Unit {0})
  pub status : ℕ → SourceStatus
  -- `U256::from_be_slice` of alloy.
  pub from_be_slice : List ℕ → ℕ

pub record ChainMonitorConfig : Type 0 where
  pub required_confirmations : ℕ
  pub max_blocks_per_scan : ℕ
  pub stall_timeout_secs : ℕ
  pub monitor_native : Bool
  pub monitor_erc20 : Bool

pub record WatchedAddress : Type 0 where
  pub address : ℕ
  pub invoice_id : ℕ
  pub token_contract : Option ℕ

abbrev pub WatchKey : Type 0
WatchKey = ℕ × Option ℕ

abbrev pub Watched : Type 0
Watched = List (WatchKey × WatchedAddress)

-- `(tx_hash, tx_index)`.
abbrev pub PendingKey : Type 0
PendingKey = ℕ × ℤ

abbrev pub Pending : Type 0
Pending = List (PendingKey × PaymentDetected)

pub record ChainMonitor : Type 0 where
  pub watched : Watched
  pub pending : Pending
  pub last_block : Option ℕ
  pub last_block_hash : Option ℕ
  pub last_block_at : ℕ
  pub loop_alive_at : ℕ
  pub sent : List MonitorEvent
  pub asked : ℕ
  pub now : ℕ

abbrev pub M {ℓ} : Type ℓ → Type ℓ
M A = ChainMonitor → EvmResult A × ChainMonitor

abbrev pub pure {ℓ} : {A : Type ℓ} → A → M A
pure a s = (ok a, s)

abbrev pub throw {ℓ} : {A : Type ℓ} → EvmError → M A
throw e s = (err e, s)

infixl 5 ◌>>=◌ ◌>>◌
abbrev pub ◌>>=◌ {ℓ κ} : {A : Type ℓ} {B : Type κ} → M A → (A → M B) → M B
◌>>=◌ m f s = let (r, s') = m s in elim r [ ok a ↦ f a s' | err e ↦ (err e, s') ]

abbrev pub ◌>>◌ {ℓ κ} : {A : Type ℓ} {B : Type κ} → M A → M B → M B
m >> k = m >>= λ _. k

abbrev pub or_throw {ℓ} : {A : Type ℓ} → Option A → EvmError → M A
or_throw none e = throw e
or_throw (some a) e = pure a

abbrev pub lift {ℓ} : {A : Type ℓ} → EvmResult A → M A
lift r s = (r, s)

-- One call of the source.
unfoldable pub ask {ℓ} : {A : Type ℓ} → (ℕ → EvmResult A) → M A
ask query s = (query s.asked, record s { asked = s.asked + 1 })

-- `event_tx.send`.
unfoldable pub send : MonitorEvent → M (Unit {0})
send event s = (ok tt, record s { sent = s.sent ++ event ∷ [] })

abbrev pub eq_option : Option ℕ → Option ℕ → Bool
eq_option none none = true
eq_option (some a) (some b) = a == b
eq_option none (some b) = false
eq_option (some a) none = false

abbrev pub eq_watch : WatchKey → WatchKey → Bool
eq_watch (a, t) (b, u) = a == b && eq_option t u

abbrev pub eq_pending : PendingKey → PendingKey → Bool
eq_pending (h, i) (k, j) = h == k && eq_ℤ i j
