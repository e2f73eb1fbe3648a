-- ===== src/Monitor/Coverage/Kinds.antt =====
-- The native payments and the token payments of a range, told apart by `is_native`.
use ethpayserver.Base.{
  ℕ, zero, suc, ◌+◌, ◌≡◌, refl, Bool, true, false, not, Option, none, some, List, [], ◌∷◌, ◌++◌,
  filter, inl, inr, Option-cases, if◌then◌else◌, arith,
}
use ethpayserver.Base.Dict.{get}
use ethpayserver.Event.{PaymentDetected}
use ethpayserver.Monitor.State.{
  NativeTransfer, Log, BlockSource, ChainMonitorConfig, WatchedAddress, Watched, eq_watch, lookup,
}
use ethpayserver.Monitor.Scan.{invoice_map, native_event, erc20_event, address_from_topic}
use ethpayserver.Monitor.Coverage.{
  Ledger, logs_in, native_payment, native_payments, token_payment_to, token_payment, token_payments,
  natives_all, natives_in, tokens_in,
}

abbrev pub is_native_payment : PaymentDetected → Bool
is_native_payment e = e.is_native

abbrev pub is_token_payment : PaymentDetected → Bool
is_token_payment e = not e.is_native

pub filter-append :
    {A : Type 0} (p : A → Bool) (xs ys : List A) → filter p (xs ++ ys) ≡ filter p xs ++ filter p ys
filter-append p [] ys = refl
filter-append p (x ∷ xs) ys = ground (arith, filter-append p xs ys)

-- Whatever the test, it is a natives' list when the one test takes all of it and the other none.
abbrev pub AreNative : List PaymentDetected → Type 0
AreNative es = (filter is_native_payment es ≡ es) × (filter is_token_payment es ≡ [])

abbrev pub AreToken : List PaymentDetected → Type 0
AreToken es = (filter is_native_payment es ≡ []) × (filter is_token_payment es ≡ es)

append-AreNative :
    (xs ys : List PaymentDetected) → AreNative xs → AreNative ys → AreNative (xs ++ ys)
append-AreNative xs ys (a, b) (c, d) = (
  rw (filter-append is_native_payment xs ys, a, c),
  rw (filter-append is_token_payment xs ys, b, d),
)

append-AreToken : (xs ys : List PaymentDetected) → AreToken xs → AreToken ys → AreToken (xs ++ ys)
append-AreToken xs ys (a, b) (c, d) = (
  rw (filter-append is_native_payment xs ys, a, c),
  rw (filter-append is_token_payment xs ys, b, d),
)

if-AreNative :
    (b : Bool) (es : List PaymentDetected) → AreNative es → AreNative (if b then es else [])
if-AreNative true es h = h
if-AreNative false es h = (refl, refl)

if-AreToken : (b : Bool) (es : List PaymentDetected) → AreToken es → AreToken (if b then es else [])
if-AreToken true es h = h
if-AreToken false es h = (refl, refl)

module _ (source : BlockSource) (config : ChainMonitorConfig) (chain_id : ℕ)
    (watched : Watched) where
  native_payment-AreNative :
      (number : ℕ) (t : NativeTransfer)
      → AreNative (native_payment source config chain_id watched number t)
  unfolding native_payment native_event
  native_payment-AreNative number t = elim (Option-cases (get t.to (invoice_map watched))) [
    | inl missing ↦ rw (missing, native_payment) (refl, refl)
    | inr (i, found) ↦ rw (found, native_payment) (refl, refl)
  ]

  native_payments-AreNative :
      (number : ℕ) (ts : List NativeTransfer)
      → AreNative (native_payments source config chain_id watched number ts)
  native_payments-AreNative number [] = (refl, refl)
  native_payments-AreNative number (t ∷ ts) =
      append-AreNative _ _ (native_payment-AreNative number t) (native_payments-AreNative number ts)

  natives_all-AreNative :
      (ledger : Ledger) (from count : ℕ)
      → AreNative (natives_all source config chain_id ledger watched from count)
  natives_all-AreNative ledger from zero = (refl, refl)
  natives_all-AreNative ledger from (suc count) =
      append-AreNative _ _ (native_payments-AreNative from (ledger.transfers from))
        (natives_all-AreNative ledger (from + 1) count)

  pub natives_in-AreNative :
      (ledger : Ledger) (from count : ℕ)
      → AreNative (natives_in source config chain_id ledger watched from count)
  natives_in-AreNative ledger from count =
      if-AreNative config.monitor_native _ (natives_all-AreNative ledger from count)

  token_payment_to-AreToken :
      (log : Log) (from to : ℕ) (watch : Option WatchedAddress) (number : Option ℕ)
      → AreToken (token_payment_to source config chain_id log from to watch number)
  unfolding token_payment_to erc20_event
  token_payment_to-AreToken log from to none number = (refl, refl)
  token_payment_to-AreToken log from to (some watch) none = (refl, refl)
  token_payment_to-AreToken log from to (some watch) (some number) = (refl, refl)

  token_payment-AreToken :
      (log : Log) (topics : List ℕ)
      → AreToken (token_payment source config chain_id watched log topics)
  unfolding token_payment
  token_payment-AreToken log [] = (refl, refl)
  token_payment-AreToken log (_ ∷ []) = (refl, refl)
  token_payment-AreToken log (_ ∷ _ ∷ []) = (refl, refl)
  token_payment-AreToken log (_ ∷ topic1 ∷ topic2 ∷ _) =
      token_payment_to-AreToken log (address_from_topic topic1) (address_from_topic topic2)
        (lookup eq_watch (address_from_topic topic2, some log.address) watched) log.block_number

  token_payments-AreToken :
      (logs : List Log) → AreToken (token_payments source config chain_id watched logs)
  token_payments-AreToken [] = (refl, refl)
  token_payments-AreToken (log ∷ logs) =
      append-AreToken _ _ (token_payment-AreToken log log.topics) (token_payments-AreToken logs)

  pub tokens_in-AreToken :
      (ledger : Ledger) (from count : ℕ)
      → AreToken (tokens_in source config chain_id ledger watched from count)
  tokens_in-AreToken ledger from count =
      if-AreToken config.monitor_erc20 _ (token_payments-AreToken (logs_in ledger from count))
