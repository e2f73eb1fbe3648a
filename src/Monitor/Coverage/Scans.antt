-- ===== src/Monitor/Coverage/Scans.antt =====
-- What the scans of a block range answer, when the node answers truly.
use ethpayserver.Base.{
  ℕ, ◌≡◌, refl, sym, ap, ◌∙◌, true, false, Option, none, some, List, [], ◌∷◌, ◌++◌, ◌==◌, any,
  filter, map, is_empty, arith, inl, inr, Bool-cases, Option-cases,
}
use ethpayserver.Base.Dict.{get}
use ethpayserver.Event.{PaymentDetected}
use ethpayserver.Monitor.State.{
  EvmResult, ok, err, NativeTransfer, Log, BlockSource, ChainMonitorConfig, WatchedAddress, Watched,
  eq_watch, lookup,
}
use ethpayserver.Monitor.Scan.{
  invoice_map, native_addresses, erc20_addresses, native_event, native_events, erc20_event,
  erc20_event_at, erc20_event_for, decode_log, append_ok, decode_logs, address_from_topic,
}
use ethpayserver.Monitor.Reads.{ok-injective}
use ethpayserver.Monitor.Coverage.{
  is_to, erase, native_payment, native_payments, token_payment_to, token_payment, token_payments,
}

-- Who has an invoice is among the addresses that are asked for.
get-is_to :
    (watched : Watched) (k i : ℕ)
    → get k (invoice_map watched) ≡ some i
    → any (λ a. a == k) (native_addresses watched) ≡ true
unfolding invoice_map native_addresses
get-is_to [] k i e = cc e
get-is_to (((address, none), watch) ∷ watched) k i e = ground (arith, get-is_to watched k i)
get-is_to (((address, some token), watch) ∷ watched) k i e = get-is_to watched k i e

get-empty :
    (watched : Watched) (k : ℕ)
    → is_empty (invoice_map watched) ≡ true
    → get k (invoice_map watched) ≡ none
unfolding invoice_map
get-empty [] k e = refl
get-empty (((address, none), watch) ∷ watched) k e = cc e
get-empty (((address, some token), watch) ∷ watched) k e = get-empty watched k e

lookup-empty :
    (watched : Watched) (k c : ℕ)
    → is_empty (erc20_addresses watched) ≡ true
    → lookup eq_watch (k, some c) watched ≡ none
unfolding erc20_addresses
lookup-empty [] k c e = refl
lookup-empty (((address, none), watch) ∷ watched) k c e = ground (arith, lookup-empty watched k c e)
lookup-empty (((address, some token), watch) ∷ watched) k c e = cc e

append_ok-parts :
    (r t : EvmResult (List PaymentDetected)) (es : List PaymentDetected)
    → append_ok r t ≡ ok es
    → (xs ys : List PaymentDetected) × (r ≡ ok xs) × (t ≡ ok ys) × (es ≡ xs ++ ys)
unfolding append_ok
append_ok-parts (ok xs) (ok ys) es e = (xs, ys, refl, refl, sym (ok-injective e))
append_ok-parts (ok xs) (err f) es e = cc e
append_ok-parts (err f) t es e = cc e

pub map-append :
    {A B : Type 0} (f : A → B) (xs ys : List A) → map f (xs ++ ys) ≡ map f xs ++ map f ys
map-append f [] ys = refl
map-append f (x ∷ xs) ys = ap (◌∷◌ (f x)) (map-append f xs ys)

module _ (source : BlockSource) (config : ChainMonitorConfig) (chain_id : ℕ)
    (watched : Watched) where
  native_events-cons :
      (now number hash : ℕ) (t : NativeTransfer) (ts : List NativeTransfer)
      → map erase (native_events source config chain_id watched now number hash (t ∷ ts))
        ≡ native_payment source config chain_id watched number t
          ++ map erase (native_events source config chain_id watched now number hash ts)
  unfolding native_events native_event native_payment invoice_map
  native_events-cons now number hash t ts = elim (Option-cases (get t.to (invoice_map watched))) [
    | inl missing ↦ rw (missing, native_events, native_payment) refl
    | inr (i, found) ↦ rw (found, native_events, native_payment) refl
  ]

  native_payment-nobody :
      (number : ℕ) (t : NativeTransfer)
      → get t.to (invoice_map watched) ≡ none
      → native_payment source config chain_id watched number t ≡ []
  unfolding native_payment
  native_payment-nobody number t missing = rw (missing, native_payment) refl

  native_payment-other :
      (number : ℕ) (t : NativeTransfer)
      → is_to (native_addresses watched) t ≡ false
      → native_payment source config chain_id watched number t ≡ []
  unfolding native_payment
  native_payment-other number t e = elim (Option-cases (get t.to (invoice_map watched))) [
    | inl missing ↦ native_payment-nobody number t missing
    | inr (i, found) ↦ cc (e, get-is_to watched t.to i found)
  ]

  pub native_events-filter :
      (now number hash : ℕ) (ts : List NativeTransfer)
      → map erase (
          native_events source config chain_id watched now number hash
            (filter (is_to (native_addresses watched)) ts))
        ≡ native_payments source config chain_id watched number ts
  unfolding native_events
  native_events-filter now number hash [] = refl
  native_events-filter now number hash (t ∷ ts) =
      let rest = filter (is_to (native_addresses watched)) ts in
      elim (Bool-cases (is_to (native_addresses watched) t)) [
        | inl yes_to ↦ rw (
          yes_to,
          native_events-cons now number hash t rest,
          native_events-filter now number hash ts,
        )
        | inr not_to ↦
            rw (
              not_to,
              native_payment-other number t not_to,
              native_events-filter now number hash ts,
            )
      ]

  pub native_payments-empty :
      (number : ℕ) (ts : List NativeTransfer)
      → is_empty (invoice_map watched) ≡ true
      → native_payments source config chain_id watched number ts ≡ []
  native_payments-empty number [] e = refl
  native_payments-empty number (t ∷ ts) e =
      rw (
        native_payment-nobody number t (get-empty watched t.to e),
        native_payments-empty number ts e,
      )

  erc20_event_at-payment :
      (now invoice_id to from : ℕ) (log : Log) (number : Option ℕ) (es : List PaymentDetected)
      (watch : WatchedAddress)
      → watch.invoice_id ≡ invoice_id
      → erc20_event_at source config chain_id now invoice_id to from log number ≡ ok es
      → map erase es ≡ token_payment_to source config chain_id log from to (some watch) number
  unfolding erc20_event_at token_payment_to erc20_event
  erc20_event_at-payment now i to from log none es watch w e = cc e
  erc20_event_at-payment now i to from log (some number) es watch w e =
      rw (sym (ok-injective e), sym w) refl

  erc20_event_for-payment :
      (now to from : ℕ) (log : Log) (watch : Option WatchedAddress) (es : List PaymentDetected)
      → erc20_event_for source config chain_id now to from log watch ≡ ok es
      → map erase es ≡ token_payment_to source config chain_id log from to watch log.block_number
  unfolding erc20_event_for token_payment_to
  erc20_event_for-payment now to from log none es e = ap (map erase) (sym (ok-injective e))
  erc20_event_for-payment now to from log (some watch) es e =
      erc20_event_at-payment now watch.invoice_id to from log log.block_number es watch refl e

  decode_log-payment :
      (now : ℕ) (log : Log) (topics : List ℕ) (es : List PaymentDetected)
      → decode_log source config chain_id watched now log topics ≡ ok es
      → map erase es ≡ token_payment source config chain_id watched log topics
  unfolding decode_log token_payment
  decode_log-payment now log [] es e = ap (map erase) (sym (ok-injective e))
  decode_log-payment now log (_ ∷ []) es e = ap (map erase) (sym (ok-injective e))
  decode_log-payment now log (_ ∷ _ ∷ []) es e = ap (map erase) (sym (ok-injective e))
  decode_log-payment now log (_ ∷ topic1 ∷ topic2 ∷ _) es e =
      erc20_event_for-payment now (address_from_topic topic2) (address_from_topic topic1) log
        (lookup eq_watch (address_from_topic topic2, some log.address) watched) es e

  pub decode_logs-payments :
      (now : ℕ) (logs : List Log) (es : List PaymentDetected)
      → decode_logs source config chain_id watched now logs ≡ ok es
      → map erase es ≡ token_payments source config chain_id watched logs
  unfolding decode_logs
  decode_logs-payments now [] es e = ap (map erase) (sym (ok-injective e))
  decode_logs-payments now (log ∷ logs) es e =
      let (xs, ys, here, there, all) =
        append_ok-parts (decode_log source config chain_id watched now log log.topics)
          (decode_logs source config chain_id watched now logs) es e in
      ap (map erase) all
      ∙ map-append erase xs ys
      ∙ cc (decode_log-payment now log log.topics xs here, decode_logs-payments now logs ys there)

  token_payment-nobody :
      (log : Log) (topics : List ℕ)
      → is_empty (erc20_addresses watched) ≡ true
      → token_payment source config chain_id watched log topics ≡ []
  unfolding token_payment token_payment_to
  token_payment-nobody log [] e = refl
  token_payment-nobody log (_ ∷ []) e = refl
  token_payment-nobody log (_ ∷ _ ∷ []) e = refl
  token_payment-nobody log (_ ∷ topic1 ∷ topic2 ∷ _) e =
      rw (lookup-empty watched (address_from_topic topic2) log.address e, token_payment_to) refl

  pub token_payments-nobody :
      (logs : List Log)
      → is_empty (erc20_addresses watched) ≡ true
      → token_payments source config chain_id watched logs ≡ []
  token_payments-nobody [] e = refl
  token_payments-nobody (log ∷ logs) e =
      rw (token_payment-nobody log log.topics e, token_payments-nobody logs e)
