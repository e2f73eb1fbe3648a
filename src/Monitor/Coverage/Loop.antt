-- ===== src/Monitor/Coverage/Loop.antt =====
-- The payments reported by the event loop of evm/src/monitor/chain/lifecycle.rs over any sequence of
-- arrivals, stream errors and ticks.
use ethpayserver.Base.{
  ℕ, ◌+◌, ◌-◌, ◌≤◌, ◌<◌, ◌≡◌, refl, sym, ap, ◌∙◌, some, List, [], ◌∷◌, ◌++◌, map, arith,
}
use mathlib.Core.List.{append-nil}
use ethpayserver.Event.{PaymentDetected, monitor_error, monitor_stopped}
use ethpayserver.Monitor.State.{
  EvmError, EvmResult, ok, err, BlockNotification, BlockSource, ChainMonitorConfig, Watched,
  PendingKey, ChainMonitor, M,
}
use ethpayserver.Monitor.Blocks.{process_block}
use ethpayserver.Monitor.Confirmations.{update_one, remove_each}
use ethpayserver.Monitor.Lifecycle.{
  Input, block_arrived, stream_failed, tick, begin, on_error, step, run,
}
use ethpayserver.Monitor.Reads.{detected, IsSame, read_pure, read_send, back, Leads, lead_bind}
use ethpayserver.Monitor.Coverage.{Ledger, IsTruthful, natives_in, tokens_in}
use ethpayserver.Monitor.Coverage.Cursor.{natives_found, tokens_found, IsAt, IsSame-IsAt}
use ethpayserver.Monitor.Coverage.Nobody.{if-nothing}
use ethpayserver.Monitor.Coverage.Blocks.{IsUpTo, process_block-IsUpTo}
use ethpayserver.Monitor.Coverage.Silent.{
  IsSilent, mark_block-IsSilent, check_confirmations-Leads, resubscribe_if_stalled-IsSilent,
}

-- Every block arrives above the ones before it, the first one above `top`.
abbrev pub AreAscending : ℕ → List (ℕ × Input) → Type 0
AreAscending top [] = Unit {0}
AreAscending top ((time, block_arrived block) ∷ inputs) =
    (top < block.number) × AreAscending block.number inputs
AreAscending top ((time, stream_failed e) ∷ inputs) = AreAscending top inputs
AreAscending top ((time, tick) ∷ inputs) = AreAscending top inputs

-- The number of the last block among the inputs.
abbrev pub head_after : ℕ → List (ℕ × Input) → ℕ
head_after top [] = top
head_after top ((time, block_arrived block) ∷ inputs) = head_after block.number inputs
head_after top ((time, stream_failed e) ∷ inputs) = head_after top inputs
head_after top ((time, tick) ∷ inputs) = head_after top inputs

head_after-above :
    (top : ℕ) (inputs : List (ℕ × Input)) → AreAscending top inputs → top ≤ head_after top inputs
head_after-above top [] rest = omega arith
head_after-above top ((time, block_arrived block) ∷ inputs) (ahead, rest) =
    omega (arith, ahead, head_after-above block.number inputs rest)
head_after-above top ((time, stream_failed e) ∷ inputs) rest = head_after-above top inputs rest
head_after-above top ((time, tick) ∷ inputs) rest = head_after-above top inputs rest

catch :
    (EvmError → M (Unit {0}))
    → EvmResult (Unit {0}) × ChainMonitor
    → EvmResult (Unit {0}) × ChainMonitor
catch handler (r, s) = elim r [ ok _ ↦ (ok tt, s) | err e ↦ handler e s ]

caught :
    (P : ChainMonitor → Type 0) (handler : EvmError → M (Unit {0}))
    (r : EvmResult (Unit {0}) × ChainMonitor)
    → ((e : EvmError) → Leads P (handler e) (λ r. P r.1))
    → P r.1
    → P (catch handler r).1
unfolding catch
caught P handler (ok _, t) handled h = h
caught P handler (err e, t) handled h = (handled e).run t h

pub lead_on_error :
    {P Q : ChainMonitor → Type 0} {handler : EvmError → M (Unit {0})} {m : M (Unit {0})}
    → ((e : EvmError) → Leads Q (handler e) (λ r. Q r.1))
    → Leads P m (λ r. Q r.1)
    → Leads P (on_error handler m) (λ r. Q r.1)
unfolding on_error catch
lead_on_error {P} {Q} {handler} {m} handled first = record {
  run = λ s p. caught Q handler (m s) handled (first.run s p);
}

module _ (source : BlockSource) (config : ChainMonitorConfig) (chain_id : ℕ) (ledger : Ledger)
    (truthful : IsTruthful source ledger) (watched : Watched) (first : ℕ)
    (natives tokens : List PaymentDetected) where
  abbrev Up : ℕ → ChainMonitor → Type 0
  Up top s = IsUpTo source config chain_id ledger watched first natives tokens top s

  keep : {top : ℕ} (s t : ChainMonitor) → IsSame s t → Up top s → Up top t
  keep s t same (block, le, at) =
      (block, le, IsSame-IsAt source config chain_id ledger watched first natives tokens same at)

  set :
      {top : ℕ} (s : ChainMonitor) (current : ℕ) (keys : List PendingKey)
      → Up top s
      → Up top (record s { pending = remove_each keys (map (update_one current) s.pending) })
  set s current keys (block, le, at) = (
    block,
    le,
    record {
      low = at.low;
      cursor = at.cursor;
      same = at.same;
      native = at.native;
      token = at.token;
    },
  )

  silent-Up : {A : Type 0} {m : M A} {top : ℕ} → IsSilent m → Leads (Up top) m (λ r. Up top r.1)
  silent-Up {A} {m} {top} quiet = record { run = λ s up. keep s _ (quiet.silent s) up }

  process_block-Up :
      (block : BlockNotification) (top : ℕ)
      → top < block.number
      → Leads (Up top) (process_block source config chain_id block) (λ r. Up block.number r.1)
  process_block-Up block top ahead = record {
    run = λ s (last, le, at).
        (process_block-IsUpTo source config chain_id ledger watched first natives tokens truthful
            block last (omega (arith, ahead, le))).run
          s at;
  }

  raise : {top next : ℕ} {s : ChainMonitor} → top ≤ next → Up top s → Up next s
  raise h (block, le, at) = (block, omega (arith, le, h), at)

  begin-Up : (time top : ℕ) → Leads (Up top) (begin time) (λ r. Up top r.1)
  begin-Up time top = record {
    run = λ s up.
        keep s _ (record { watched = refl; last_block = refl; pending = refl; found = refl }) up;
  }

  step-Up :
      (show : EvmError → List ℕ) (time : ℕ) (input : Input) (inputs : List (ℕ × Input)) (top : ℕ)
      → AreAscending top ((time, input) ∷ inputs)
      → (next : ℕ) × Leads (Up top) (step source config chain_id show input) (λ r. Up next r.1)
        × AreAscending next inputs
        × (top ≤ next)
        × (head_after top ((time, input) ∷ inputs) ≡ head_after next inputs)
  unfolding step detected
  step-Up show time (block_arrived block) inputs top (ahead, rest) = (
    block.number,
    lead_bind (silent-Up mark_block-IsSilent) (λ e t up. raise (omega (arith, ahead)) up)
        (λ _.
          lead_on_error (λ e. silent-Up (read_send (monitor_error chain_id (show e)) refl))
            (process_block-Up block top ahead)),
    rest,
    omega (arith, ahead),
    refl,
  )
  step-Up show time (stream_failed e) inputs top rest =
      (top, record { run = λ s up. up }, rest, omega arith, refl)
  step-Up show time tick inputs top rest = (
    top,
    lead_bind
        (lead_on_error (λ e. silent-Up (read_pure tt tt))
          (check_confirmations-Leads source keep set))
        (λ e t up. up)
        (λ _.
          lead_on_error (λ e. silent-Up (read_pure tt tt))
            (silent-Up (resubscribe_if_stalled-IsSilent source config chain_id))),
    rest,
    omega arith,
    refl,
  )

  run-Up :
      (show : EvmError → List ℕ) (inputs : List (ℕ × Input)) (top : ℕ)
      → AreAscending top inputs
      → Leads
          (Up top)
          (run source config chain_id show inputs)
          (λ r. Up (head_after top inputs) r.1)
  unfolding run detected
  run-Up show [] top rest = silent-Up (read_send (monitor_stopped chain_id) refl)
  run-Up show ((time, input) ∷ inputs) top rest =
      let (next, stepped, rest', higher, same) = step-Up show time input inputs top rest in
      back
        (λ last.
          Leads (Up top) (run source config chain_id show ((time, input) ∷ inputs))
            (λ r. Up last r.1))
        same
        (lead_bind (lead_bind (begin-Up time top) (λ e t up. raise higher up) (λ _. stepped))
          (λ e t up. raise (head_after-above next inputs rest') up)
          (λ _. run-Up show inputs next rest'))

count_none : (n : ℕ) → n - n ≡ 0
count_none n = omega arith

start-IsAt :
    (source : BlockSource) (config : ChainMonitorConfig) (chain_id : ℕ) (ledger : Ledger)
    (s : ChainMonitor) (first : ℕ)
    → s.last_block ≡ some first
    → IsAt source config chain_id ledger s.watched first (natives_found s) (tokens_found s) first s
start-IsAt source config chain_id ledger s first cursor = record {
  low = omega arith;
  cursor = cursor;
  same = refl;
  native =
      sym (append-nil (natives_found s))
      ∙ ap (◌++◌ (natives_found s)) (
          sym (
            ap (natives_in source config chain_id ledger s.watched (first + 1)) (count_none first)
            ∙ if-nothing config.monitor_native _ refl));
  token =
      sym (append-nil (tokens_found s))
      ∙ ap (◌++◌ (tokens_found s)) (
          sym (
            ap (tokens_in source config chain_id ledger s.watched (first + 1)) (count_none first)
            ∙ if-nothing config.monitor_erc20 _ refl));
}

-- Whatever calls of the node fail, and whatever reorganizations, stream errors and ticks come between, when
-- the node's answers are those of the ledger and the blocks arrive in ascending order above the
-- cursor: the loop leaves the cursor at a block up to the last arrival, and the native and the
-- token payments it has reported in the meantime are those of the blocks it has moved over, each
-- once and in the order of the blocks (the time of detection and the block's hash aside).
pub run_complete :
    (source : BlockSource) (config : ChainMonitorConfig) (chain_id : ℕ) (ledger : Ledger)
    (show : EvmError → List ℕ) (s : ChainMonitor) (first : ℕ) (inputs : List (ℕ × Input))
    → IsTruthful source ledger
    → s.last_block ≡ some first
    → AreAscending first inputs
    → let t = (run source config chain_id show inputs s).1 in
      (block : ℕ) × (first ≤ block)
      × (block ≤ head_after first inputs)
      × (t.last_block ≡ some block)
      × (natives_found t
          ≡ natives_found s
            ++ natives_in source config chain_id ledger s.watched (first + 1) (block - first))
      × (tokens_found t
          ≡ tokens_found s
            ++ tokens_in source config chain_id ledger s.watched (first + 1) (block - first))
run_complete source config chain_id ledger show s first inputs truthful cursor ascending =
    let (block, le, at) =
      (run-Up source config chain_id ledger truthful s.watched first (natives_found s)
          (tokens_found s) show inputs first ascending).run
        s (first, omega arith, start-IsAt source config chain_id ledger s first cursor) in
    (block, at.low, le, at.cursor, at.native, at.token)
