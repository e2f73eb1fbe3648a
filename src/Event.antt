-- ===== src/Event.antt =====
-- The events that the chain monitor reports to the server, evm/src/monitor/events.rs.
-- Identifiers, addresses, hashes and U256 amounts are natural numbers, a time is a number of
-- seconds.
use ethpayserver.Base.{ℕ, Bool, Option, none, some, List, if◌then◌else◌}
use ethpayserver.Base.Int.{ℤ, negsuc, as_i32}

pub record PaymentDetected : Type 0 where
  pub chain_id : ℕ
  pub invoice_id : ℕ
  pub payment_address : ℕ
  pub amount : ℕ
  pub tx_hash : ℕ
  pub block_number : ℕ
  pub block_hash : ℕ
  pub log_index : Option ℕ  -- u32
  pub is_native : Bool
  pub token_address : Option ℕ
  pub from_address : ℕ
  pub confirmations : ℕ
  pub required_confirmations : ℕ
  pub detected_at : ℕ

pub record PaymentConfirmed : Type 0 where
  pub tx_index : ℤ
  pub chain_id : ℕ
  pub invoice_id : ℕ
  pub payment_address : ℕ
  pub amount : ℕ
  pub tx_hash : ℕ
  pub block_number : ℕ
  pub confirmations : ℕ
  pub confirmed_at : ℕ

pub record ReorgDetected : Type 0 where
  pub chain_id : ℕ
  pub fork_block : ℕ
  pub old_hash : ℕ
  pub new_hash : ℕ
  pub depth : ℕ
  pub affected_invoices : List ℕ
  pub survived_tx_hashes : List ℕ
  pub survivors_verifiable : Bool
  pub detected_at : ℕ

pub record AddressWatched : Type 0 where
  pub chain_id : ℕ
  pub address : ℕ
  pub invoice_id : ℕ
  pub watched_at : ℕ

pub record AddressUnwatched : Type 0 where
  pub chain_id : ℕ
  pub address : ℕ
  pub invoice_id : Option ℕ

pub record WatchedAddressInfo : Type 0 where
  pub address : ℕ
  pub invoice_id : ℕ
  pub token_contract : Option ℕ

pub record StatusReport : Type 0 where
  pub chain_id : ℕ
  pub watched_count : ℕ
  pub current_block : ℕ
  pub addresses : List WatchedAddressInfo
  pub reported_at : ℕ

pub data MonitorEvent : Type 0 where
  payment_detected : PaymentDetected → MonitorEvent
  payment_confirmed : PaymentConfirmed → MonitorEvent
  reorg_detected : ReorgDetected → MonitorEvent
  monitor_started monitor_stopped : ℕ → MonitorEvent
  -- The chain and the error text.
  monitor_error : ℕ → List ℕ → MonitorEvent
  address_watched : AddressWatched → MonitorEvent
  address_unwatched : AddressUnwatched → MonitorEvent
  status_report : StatusReport → MonitorEvent

-- `MonitorEvent::chain_id`.
unfoldable pub event_chain_id : MonitorEvent → ℕ
event_chain_id (payment_detected e) = e.chain_id
event_chain_id (payment_confirmed e) = e.chain_id
event_chain_id (reorg_detected e) = e.chain_id
event_chain_id (monitor_started chain) = chain
event_chain_id (monitor_stopped chain) = chain
event_chain_id (monitor_error chain _) = chain
event_chain_id (address_watched e) = e.chain_id
event_chain_id (address_unwatched e) = e.chain_id
event_chain_id (status_report e) = e.chain_id

-- `MonitorEvent::block_height`.
unfoldable pub event_block_height : MonitorEvent → ℕ
event_block_height (payment_detected e) = e.block_number
event_block_height (payment_confirmed e) = e.block_number
event_block_height (reorg_detected e) = e.fork_block
event_block_height (status_report e) = e.current_block
event_block_height (monitor_started _) = 0
event_block_height (monitor_stopped _) = 0
event_block_height (monitor_error _ _) = 0
event_block_height (address_watched _) = 0
event_block_height (address_unwatched _) = 0

-- `PaymentDetected::tx_index`: -1 for a native transfer, the log index for a token's.
unfoldable pub tx_index : PaymentDetected → Option ℤ
tx_index e =
    if e.is_native
    then some (negsuc 0)
    else (elim e.log_index [ none ↦ none | some i ↦ some (as_i32 i) ])
