-- ===== src/Monitor/Coverage/Silent.antt =====
-- Looking for a reorganization, counting confirmations and resubscribing find no payment and
-- leave the watches and the cursor.
use ethpayserver.Base.{
  ℕ, zero, suc, ◌+◌, ◌-◌, refl, sym, Bool, true, false, Option, none, some, List, [], ◌∷◌, ◌++◌,
  leb, ◌==◌, is_empty, map, if◌then◌else◌,
}
use ethpayserver.Monitor.State.{
  EvmResult, BlockNotification, BlockSource, ChainMonitorConfig, PendingKey, Pending, Watched,
  ChainMonitor, M, pure, ◌>>=◌, ask,
}
use ethpayserver.Monitor.Confirmations.{
  update_one, reaches_depth, confirm_each, remove_each, set_pending, confirm_pending,
  check_confirmations,
}
use ethpayserver.Monitor.Reorganization.{
  chunk_end, chunk_size, rescan_native, rescan_logs, rescan, find_survived_tx_hashes, handle_reorg,
}
use ethpayserver.Monitor.Scan.{native_addresses, erc20_addresses}
use ethpayserver.Monitor.Blocks.{find_fork, report_fork, check_reorg}
use ethpayserver.Monitor.Lifecycle.{get_health, is_stalled, mark_block, resubscribe_if_stalled}
use ethpayserver.Monitor.Reads.{
  detected, Reads, read_pure, read_ask, read_send, read_bind, read_if, read_state, IsSame, Leads,
  lead_read, after_read, back,
}

abbrev pub IsSilent : {A : Type 0} → M A → Type 0
IsSilent {A} m = Reads {A = A} (λ _. Unit {0}) m

pub ask-IsSilent : {A : Type 0} (query : ℕ → EvmResult A) → IsSilent (ask query)
ask-IsSilent query = read_ask (λ n a e. tt)

pub bind-IsSilent :
    {A B : Type 0} {m : M A} {f : A → M B}
    → IsSilent m
    → ((a : A) → IsSilent (f a))
    → IsSilent (m >>= f)
bind-IsSilent rm rf = read_bind rm (λ a _. rf a)

pub if-IsSilent :
    {A : Type 0} (b : Bool) {m k : M A} → IsSilent m → IsSilent k → IsSilent (if b then m else k)
if-IsSilent b rm rk = read_if b (λ _. rm) (λ _. rk)

pub pure-IsSilent : {A : Type 0} (a : A) → IsSilent (pure a)
pure-IsSilent a = read_pure a tt

pub mark_block-IsSilent : IsSilent mark_block
mark_block-IsSilent = record {
  silent = λ s. record { watched = refl; last_block = refl; pending = refl; found = refl };
  answer = λ s a e. tt;
}

get_health-IsSilent : (source : BlockSource) → IsSilent (get_health source)
unfolding get_health
get_health-IsSilent source = record {
  silent = λ s. record { watched = refl; last_block = refl; pending = refl; found = refl };
  answer = λ s a e. tt;
}

pub confirm_each-IsSilent :
    (current : ℕ) (pending : Pending) → IsSilent (confirm_each current pending)
unfolding confirm_each detected
confirm_each-IsSilent current [] = pure-IsSilent []
confirm_each-IsSilent current (entry ∷ pending) = read_state _ λ s.
    if-IsSilent (reaches_depth current entry)
      (bind-IsSilent (read_send _ refl)
        (λ _. bind-IsSilent (confirm_each-IsSilent current pending) (λ keys. pure-IsSilent _)))
      (confirm_each-IsSilent current pending)

confirm_pending-Leads :
    (current : ℕ) {P : ChainMonitor → Type 0}
    → ((s t : ChainMonitor) → IsSame s t → P s → P t)
    → ((s : ChainMonitor) (current : ℕ) (keys : List PendingKey)
        → P s
        → P (record s { pending = remove_each keys (map (update_one current) s.pending) }))
    → Leads P (confirm_pending current) (λ r. P r.1)
unfolding confirm_pending
confirm_pending-Leads current {P} keep set = record {
  run = λ s p.
      after_read (λ r. P r.1)
        (λ keys. set_pending (remove_each keys (map (update_one current) s.pending))) s
        (confirm_each-IsSilent current s.pending) (λ e t same. keep s t same p)
        (λ keys t _ same.
          back
            (λ pending.
              P (record t { pending = remove_each keys (map (update_one current) pending) }))
            (sym same.pending) (set t current keys (keep s t same p)));
}

-- Beside `pending`, counting confirmations changes nothing either.
pub check_confirmations-Leads :
    (source : BlockSource) {P : ChainMonitor → Type 0}
    → ((s t : ChainMonitor) → IsSame s t → P s → P t)
    → ((s : ChainMonitor) (current : ℕ) (keys : List PendingKey)
        → P s
        → P (record s { pending = remove_each keys (map (update_one current) s.pending) }))
    → Leads P (check_confirmations source) (λ r. P r.1)
unfolding check_confirmations
check_confirmations-Leads source {P} keep set =
    lead_read keep (λ e s p. p) (ask-IsSilent _)
      (λ current _. confirm_pending-Leads current keep set)

module _ (source : BlockSource) (config : ChainMonitorConfig) (chain_id : ℕ) where
  rescan_native-IsSilent :
      (addresses : List ℕ) (from count : ℕ)
      → IsSilent (rescan_native source config chain_id addresses from count)
  unfolding rescan_native
  rescan_native-IsSilent addresses from zero = pure-IsSilent []
  rescan_native-IsSilent addresses from (suc count) = bind-IsSilent (ask-IsSilent _) (λ transfers.
      bind-IsSilent (rescan_native-IsSilent addresses (from + 1) count) (λ rest. pure-IsSilent _))

  rescan_logs-IsSilent :
      (addresses : List ℕ) (fuel start to : ℕ)
      → IsSilent (rescan_logs source config chain_id addresses fuel start to)
  unfolding rescan_logs
  rescan_logs-IsSilent addresses zero start to = pure-IsSilent []
  rescan_logs-IsSilent addresses (suc fuel) start to =
      let end = chunk_end (chunk_size source config chain_id) start to in
      if-IsSilent (leb start to)
        (bind-IsSilent (ask-IsSilent _) (λ logs.
          bind-IsSilent
            (if-IsSilent (end == to) (pure-IsSilent [])
              (rescan_logs-IsSilent addresses fuel (end + 1) to))
            (λ rest. pure-IsSilent _)))
        (pure-IsSilent [])

  rescan-IsSilent :
      (watched : Watched) (from to : ℕ) → IsSilent (rescan source config chain_id watched from to)
  unfolding rescan
  rescan-IsSilent watched from to =
      let natives = native_addresses watched in
      let tokens = erc20_addresses watched in
      if-IsSilent (is_empty watched) (pure-IsSilent ([], false)) (
        bind-IsSilent
          (if-IsSilent (is_empty natives) (pure-IsSilent [])
            (rescan_native-IsSilent natives from (to + 1 - from)))
          (λ native_hashes.
            bind-IsSilent
              (if-IsSilent (is_empty tokens) (pure-IsSilent [])
                (rescan_logs-IsSilent tokens (to + 1 - from) from to))
              (λ token_hashes. pure-IsSilent (native_hashes ++ token_hashes, true))))

  find_survived_tx_hashes-IsSilent :
      (from to : ℕ) → IsSilent (find_survived_tx_hashes source config chain_id from to)
  unfolding find_survived_tx_hashes
  find_survived_tx_hashes-IsSilent from to = read_state _ λ s. rescan-IsSilent s.watched from to

  handle_reorg-IsSilent :
      (fork_block old_hash : ℕ) (block : BlockNotification)
      → IsSilent (handle_reorg source config chain_id fork_block old_hash block)
  unfolding handle_reorg detected
  handle_reorg-IsSilent fork_block old_hash block = read_state _ λ s.
      bind-IsSilent (find_survived_tx_hashes-IsSilent fork_block block.number)
        (λ found. read_send _ refl)

  find_fork-IsSilent :
      (last_hash last_num : ℕ) (block : BlockNotification)
      → IsSilent (find_fork source config chain_id last_hash last_num block)
  unfolding find_fork
  find_fork-IsSilent last_hash last_num block =
      if-IsSilent _ (pure-IsSilent _) (bind-IsSilent (ask-IsSilent _) (λ found. pure-IsSilent _))

  report_fork-IsSilent :
      (last_hash : ℕ) (block : BlockNotification) (fork : Option ℕ)
      → IsSilent (report_fork source config chain_id last_hash block fork)
  unfolding report_fork
  report_fork-IsSilent last_hash block none = pure-IsSilent tt
  report_fork-IsSilent last_hash block (some fork_block) =
      handle_reorg-IsSilent fork_block last_hash block

  pub check_reorg-IsSilent :
      (block : BlockNotification) (last_hash last_num : Option ℕ)
      → IsSilent (check_reorg source config chain_id block last_hash last_num)
  unfolding check_reorg
  check_reorg-IsSilent block (some last_hash) (some last_num) =
      bind-IsSilent (find_fork-IsSilent last_hash last_num block)
        (report_fork-IsSilent last_hash block)
  check_reorg-IsSilent block (some last_hash) none = pure-IsSilent tt
  check_reorg-IsSilent block none last_num = pure-IsSilent tt

  pub resubscribe_if_stalled-IsSilent : IsSilent (resubscribe_if_stalled source config chain_id)
  unfolding resubscribe_if_stalled
  resubscribe_if_stalled-IsSilent = read_state _ λ s.
      bind-IsSilent (get_health-IsSilent source) (λ health.
        if-IsSilent (is_stalled source config chain_id health s)
          (bind-IsSilent (ask-IsSilent source.subscribe_blocks) (λ _. mark_block-IsSilent))
          (pure-IsSilent tt))
