-- ===== src/Database/Rows.antt =====
-- The rows of the tables that the event consumer works on, and the state of the server.
-- `InvoiceStatus` and the data records mirror what data-service/src/postgres/conversions.rs and the
-- row readers of data-service/src/postgres name.
use ethpayserver.Base.{ℕ, String, Bool, Option, List}
use ethpayserver.Base.Dict.{Dict}
use ethpayserver.Base.Int.{ℤ}

pub data InvoiceStatus : Type 0 where
  pending processing partially_paid late_paid paid expired cancelled refunded : InvoiceStatus

pub data AssetType : Type 0 where
  native erc20 : AssetType

-- The values of a JSON object that the code looks at.
pub data Json : Type 0 where
  string : String → Json
  boolean : Bool → Json
  other : Json

pub record InvoiceData : Type 0 where
  pub id : ℕ
  pub store_id : ℕ
  pub currency : String
  pub status : InvoiceStatus
  pub amount : String
  pub amount_received : String
  pub created_at : ℕ
  pub expires_at : ℕ
  pub metadata : Option (List (String × Json))
  pub customer_email : Option String

pub record PaymentData : Type 0 where
  pub id : ℕ
  pub invoice_id : ℕ
  pub payment_option_id : Option ℕ
  pub chain_id : ℕ
  pub asset_type : AssetType
  pub amount : ℕ
  pub asset_symbol : String
  pub token_address : Option String
  pub tx_hash : String
  pub block_number : Option ℕ
  pub detected_at : ℕ
  pub confirmed_at : Option ℕ
  pub from_address : Option String
  pub reorged : Bool
  pub extra : Option String
  pub credited_amount : Option String
  pub rate_used : Option String
  pub rate_applied_at : Option ℕ

-- A row of `payments`: `tx_index` is no field of `PaymentData`.
pub record PaymentRow : Type 0 where
  pub payment : PaymentData
  pub tx_index : ℤ

-- A row of `webhook_outbox`.
pub record Obligation : Type 0 where
  pub id : ℕ
  pub payment_id : ℕ
  pub invoice_id : ℕ
  pub event_type : String

-- A row of `invoice_settlement_allowances`, keyed by its invoice.
pub record Allowance : Type 0 where
  pub shortfall : String
  pub tolerance_percent : String
  pub source : String
  pub recorded_at : ℕ

pub record PaymentOptionData : Type 0 where
  pub id : ℕ
  pub invoice_id : ℕ
  pub chain_id : ℕ
  pub token_address : Option String
  pub payment_address : String
  pub decimals : ℕ
  pub rate : Option String

-- A row of `watched_addresses`.
pub record WatchRow : Type 0 where
  pub address : String
  pub chain_id : ℕ
  pub token_address : Option String
  pub payment_option_id : ℕ
  pub is_active : Bool
  pub monitor_notified : Bool

-- A row of `tokens`.
pub record TokenRow : Type 0 where
  pub chain_id : ℕ
  pub address : String
  pub symbol : Option String

-- A row of `chain_cursors` of this adapter, keyed by its chain.
pub record ChainCursor : Type 0 where
  pub epoch : ℕ
  pub seq : ℕ
  pub block_height : ℕ

-- What the handlers tell others, best effort: the dashboard's sockets, the queue of webhooks, the
-- customer, the observers of the instance's own store, and the monitor.
pub data Notice : Type 0 where
  ws_payment : ℕ → ℕ → Option String → Notice
  ws_invoice : ℕ → InvoiceStatus → Notice
  webhook : String → InvoiceData → List PaymentData → Notice
  receipt : String → ℕ → ℕ → Notice
  own_store : InvoiceData → ℕ → Notice
  -- A command to the monitor.
  unwatch : ℕ → ℕ → Option ℕ → Notice

pub record World : Type 0 where
  pub payments : List PaymentRow
  pub invoices : Dict InvoiceData
  pub webhook_outbox : List Obligation
  pub allowances : Dict Allowance
  pub tolerances : Dict String
  pub receipts_disabled : Dict Bool
  pub options : Dict PaymentOptionData
  pub watches : List WatchRow
  pub tokens : List TokenRow
  pub cursors : Dict ChainCursor
  pub now : ℕ
  pub fresh : ℕ
  pub calls : ℕ
  pub down : ℕ → Bool
  pub lost : ℕ → Bool
  pub sent : List Notice
