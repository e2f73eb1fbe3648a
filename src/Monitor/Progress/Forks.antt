-- ===== src/Monitor/Progress/Forks.antt =====
-- The check for a fork before an arrival, and the cursor behind a call, while the node is up:
-- evm/src/monitor/chain/processing.rs and confirmations.rs.
use ethpayserver.Base.{
  ℕ, ◌+◌, ◌≡◌, refl, ap, ◌∙◌, false, Option, none, some, inl, inr, Bool-cases, List, ltb, ◌==◌,
  if◌then◌else◌,
}
use ethpayserver.Event.{PaymentDetected, MonitorEvent}
use ethpayserver.Monitor.State.{
  EvmResult, ok, BlockNotification, BlockSource, ChainMonitorConfig, Watched, ChainMonitor, M,
  ◌>>=◌, ◌>>◌, send,
}
use ethpayserver.Monitor.Scan.{record_all}
use ethpayserver.Monitor.Reorganization.{handle_reorg}
use ethpayserver.Monitor.Blocks.{
  fork_if_changed, find_fork, report_fork, check_reorg, missed_blocks,
}
use ethpayserver.Monitor.Reads.{IsSame, Leads, bind-run, back}
use ethpayserver.Monitor.Succeeds.{
  IsUp, Succeeds, succeed_pure, succeed_ask, succeed_bind, succeed_if, succeed_state,
}
use ethpayserver.Monitor.Survivors.Returns.{find_survived_tx_hashes-Succeeds}
use ethpayserver.Monitor.Coverage.Cursor.{record_all-run}
use ethpayserver.Monitor.Coverage.Silent.{IsSilent}

pub missed_blocks-none :
    (last number : ℕ) → missed_blocks (some last) number ≡ none → ltb (last + 1) number ≡ false
unfolding missed_blocks
missed_blocks-none last number e = elim (Bool-cases (ltb (last + 1) number)) [
  | inl behind ↦ cc (e, behind)
  | inr next ↦ next
]

-- The cursor and the watches.
abbrev pub IsOn : Watched → ℕ → ChainMonitor → Type 0
IsOn watched last s = (s.last_block ≡ some last) × (s.watched ≡ watched)

same-IsOn :
    {watched : Watched} {last : ℕ} (s t : ChainMonitor)
    → IsSame s t
    → IsOn watched last s
    → IsOn watched last t
same-IsOn s t same (cursor, watches) = (same.last_block ∙ cursor, same.watched ∙ watches)

-- Asking that succeeds goes on in a state that is the same.
pub lead_success :
    {A B : Type 0} {m : M A} {f : A → M B} {watched : Watched} {last : ℕ}
    {R : EvmResult B × ChainMonitor → Type 0}
    → IsSilent m
    → Succeeds m
    → ((a : A) → Leads (IsOn watched last) (f a) R)
    → Leads (IsOn watched last) (m >>= f) R
lead_success {A} {B} {m} {f} {watched} {last} {R} quiet success next = record {
  run = λ s on.
      let (a, e) = success.result s in
      back R (bind-run m f s (ap (λ r. (r, (m s).1)) e))
        ((next a).run (m s).1 (same-IsOn s (m s).1 (quiet.silent s) on));
}

send-Succeeds : (event : MonitorEvent) → Succeeds (send event)
unfolding send
send-Succeeds event = record { result = λ s. (tt, refl) }

-- The action ends well, with the cursor at `next`.
abbrev pub Reaches : {A : Type 0} → Watched → A → ℕ → EvmResult A × ChainMonitor → Type 0
Reaches watched a next (r, s) = (r ≡ ok a) × IsOn watched next s

pub lead_record :
    {B : Type 0} (k : M B) (es : List PaymentDetected) {watched : Watched} {last : ℕ}
    {R : EvmResult B × ChainMonitor → Type 0}
    → Leads (IsOn watched last) k R
    → Leads (IsOn watched last) (record_all es >> k) R
lead_record k es {watched} {last} {R} next = record {
  run = λ s on. back R (bind-run (record_all es) (λ _. k) s (record_all-run es s)) (next.run _ on);
}

module _ (source : BlockSource) (config : ChainMonitorConfig) (chain_id : ℕ)
    (up : IsUp source) where
  find_fork-Succeeds :
      (last_hash last_num : ℕ) (block : BlockNotification)
      → Succeeds (find_fork source config chain_id last_hash last_num block)
  unfolding find_fork
  find_fork-Succeeds last_hash last_num block =
      succeed_if (block.number == last_num + 1)
        (succeed_pure (if block.parent_hash == last_hash then none else some last_num))
        (succeed_bind
          (succeed_ask {query = λ n. source.get_block_hash n last_num}
            (λ n. let (hash, e) = up.block_hash n last_num in (some hash, e)))
          (λ found. succeed_pure (fork_if_changed last_hash last_num block.number found)))

  report_fork-Succeeds :
      (last_hash : ℕ) (block : BlockNotification) (fork : Option ℕ)
      → Succeeds (report_fork source config chain_id last_hash block fork)
  unfolding report_fork handle_reorg
  report_fork-Succeeds last_hash block none = succeed_pure tt
  report_fork-Succeeds last_hash block (some fork_block) = succeed_state _ λ s.
      succeed_bind
        (find_survived_tx_hashes-Succeeds source config chain_id up fork_block block.number)
        (λ found. send-Succeeds _)

  pub check_reorg-Succeeds :
      (block : BlockNotification) (last_hash last_num : Option ℕ)
      → Succeeds (check_reorg source config chain_id block last_hash last_num)
  unfolding check_reorg
  check_reorg-Succeeds block (some last_hash) (some last_num) =
      succeed_bind (find_fork-Succeeds last_hash last_num block)
        (report_fork-Succeeds last_hash block)
  check_reorg-Succeeds block (some last_hash) none = succeed_pure tt
  check_reorg-Succeeds block none last_num = succeed_pure tt
