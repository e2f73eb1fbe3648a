-- ===== src/Monitor/Coverage/Cursor.antt =====
-- The cursor and what was found up to it: `record_all` and `move_cursor` of the scans.
use ethpayserver.Base.{
  ℕ, ◌+◌, ◌-◌, ◌≤◌, ◌≡◌, refl, sym, ap, ◌∙◌, Bool, some, List, [], ◌∷◌, ◌++◌, map, filter, arith,
}
use mathlib.Core.List.{append-nil, append_assoc}
use ethpayserver.Event.{PaymentDetected, payment_detected, MonitorEvent}
use ethpayserver.Monitor.State.{
  ok, BlockSource, ChainMonitorConfig, Watched, Pending, ChainMonitor, send,
}
use ethpayserver.Monitor.Scan.{track, record_detected, record_all}
use ethpayserver.Monitor.Reads.{detected, detected-append, IsSame}
use ethpayserver.Monitor.Coverage.{
  Ledger, erase, natives_in, tokens_in, natives_in-add, tokens_in-add,
}
use ethpayserver.Monitor.Coverage.Scans.{map-append}
use ethpayserver.Monitor.Coverage.Kinds.{
  is_native_payment, is_token_payment, filter-append, natives_in-AreNative, tokens_in-AreToken,
}

-- What was detected so far, native or not, without times and block hashes.
abbrev pub natives_found : ChainMonitor → List PaymentDetected
natives_found s = filter is_native_payment (map erase (detected s.sent))

abbrev pub tokens_found : ChainMonitor → List PaymentDetected
tokens_found s = filter is_token_payment (map erase (detected s.sent))

unfoldable pub track_all : List PaymentDetected → Pending → Pending
track_all [] pending = pending
track_all (e ∷ es) pending = track_all es (track e pending)

pub record_all-run :
    (es : List PaymentDetected) (s : ChainMonitor)
    → record_all es s ≡ (
      ok tt,
      record s { pending = track_all es s.pending; sent = s.sent ++ map payment_detected es },
    )
unfolding record_all record_detected send track_all
record_all-run [] s = ap (λ sent. (ok tt, record s { sent = sent })) (sym (append-nil s.sent))
record_all-run (e ∷ es) s = rw (
  record_all-run es
      (record s { pending = track e s.pending; sent = s.sent ++ payment_detected e ∷ [] }),
  append_assoc s.sent (payment_detected e ∷ []) (map payment_detected es),
)

detected-map : (es : List PaymentDetected) → detected (map payment_detected es) ≡ es
unfolding detected
detected-map [] = refl
detected-map (e ∷ es) = ap (◌∷◌ e) (detected-map es)

found-append :
    (sent : List MonitorEvent) (es : List PaymentDetected)
    → map erase (detected (sent ++ map payment_detected es))
      ≡ map erase (detected sent) ++ map erase es
found-append sent es = rw (
  detected-append sent (map payment_detected es),
  detected-map es,
  map-append erase (detected sent) es,
)

filter-found :
    (p : PaymentDetected → Bool) (sent : List MonitorEvent) (es : List PaymentDetected)
    → filter p (map erase (detected (sent ++ map payment_detected es)))
      ≡ filter p (map erase (detected sent)) ++ filter p (map erase es)
filter-found p sent es =
    ap (filter p) (found-append sent es)
    ∙ filter-append p (map erase (detected sent)) (map erase es)

count_split :
    (first block next : ℕ)
    → first ≤ block
    → block ≤ next
    → next - first ≡ (block - first) + (next - block)
count_split first block next h k = omega arith

start_split : (first block : ℕ) → first ≤ block → first + 1 + (block - first) ≡ block + 1
start_split first block h = omega arith

-- What was found grows as the range does.
grow :
    (p : PaymentDetected → Bool) (sent : List MonitorEvent)
    (es old before here all : List PaymentDetected)
    → filter p (map erase (detected sent)) ≡ old ++ before
    → filter p (map erase es) ≡ here
    → all ≡ before ++ here
    → filter p (map erase (detected (sent ++ map payment_detected es))) ≡ old ++ all
grow p sent es old before here all past now whole =
    filter-found p sent es
    ∙ cc (past, now)
    ∙ append_assoc old before here
    ∙ ap (◌++◌ old) (sym whole)

filter-parts :
    (p : PaymentDetected → Bool) (ns ts es ns' ts' : List PaymentDetected)
    → es ≡ ns ++ ts
    → filter p ns ≡ ns'
    → filter p ts ≡ ts'
    → filter p es ≡ ns' ++ ts'
filter-parts p ns ts es ns' ts' e a b = ap (filter p) e ∙ filter-append p ns ts ∙ cc (a, b)

module _ (source : BlockSource) (config : ChainMonitorConfig) (chain_id : ℕ) (ledger : Ledger)
    (watched : Watched) (first : ℕ) (natives tokens : List PaymentDetected) where
  -- The cursor is at `block`, at `first` or beyond; after what was found before, there is found
  -- what the ledger holds behind `first`, up to that block.
  pub record IsAt (block : ℕ) (s : ChainMonitor) : Type 0 where
    pub low : first ≤ block
    pub cursor : s.last_block ≡ some block
    pub same : s.watched ≡ watched
    pub native :
        natives_found s
        ≡ natives ++ natives_in source config chain_id ledger watched (first + 1) (block - first)
    pub token :
        tokens_found s
        ≡ tokens ++ tokens_in source config chain_id ledger watched (first + 1) (block - first)

  pub IsSame-IsAt : {block : ℕ} {s s' : ChainMonitor} → IsSame s s' → IsAt block s → IsAt block s'
  IsSame-IsAt same up = record {
    low = up.low;
    cursor = same.last_block ∙ up.cursor;
    same = same.watched ∙ up.same;
    native = rw same.found up.native;
    token = rw same.found up.token;
  }

  split_natives :
      (block next : ℕ)
      → first ≤ block
      → block ≤ next
      → natives_in source config chain_id ledger watched (first + 1) (next - first)
        ≡ natives_in source config chain_id ledger watched (first + 1) (block - first)
          ++ natives_in source config chain_id ledger watched (block + 1) (next - block)
  split_natives block next h k =
      ap (natives_in source config chain_id ledger watched (first + 1))
        (count_split first block next h k)
      ∙ natives_in-add source config chain_id ledger watched (first + 1) (block - first)
          (next - block)
      ∙ ap
          (λ n.
            natives_in source config chain_id ledger watched (first + 1) (block - first)
            ++ natives_in source config chain_id ledger watched n (next - block))
          (start_split first block h)

  split_tokens :
      (block next : ℕ)
      → first ≤ block
      → block ≤ next
      → tokens_in source config chain_id ledger watched (first + 1) (next - first)
        ≡ tokens_in source config chain_id ledger watched (first + 1) (block - first)
          ++ tokens_in source config chain_id ledger watched (block + 1) (next - block)
  split_tokens block next h k =
      ap (tokens_in source config chain_id ledger watched (first + 1))
        (count_split first block next h k)
      ∙ tokens_in-add source config chain_id ledger watched (first + 1) (block - first)
          (next - block)
      ∙ ap
          (λ n.
            tokens_in source config chain_id ledger watched (first + 1) (block - first)
            ++ tokens_in source config chain_id ledger watched n (next - block))
          (start_split first block h)

  -- Reporting the payments of the blocks behind the cursor, and moving it over them.
  pub advance :
      {block : ℕ} {s : ChainMonitor} (es : List PaymentDetected) (next hash : ℕ) (up : IsAt block s)
      → block ≤ next
      → map erase es
        ≡ natives_in source config chain_id ledger watched (block + 1) (next - block)
          ++ tokens_in source config chain_id ledger watched (block + 1) (next - block)
      → IsAt next (record s {
        pending = track_all es s.pending;
        sent = s.sent ++ map payment_detected es;
        last_block = some next;
        last_block_hash = some hash;
      })
  advance {block} {s} es next hash up ahead found =
      let ns = natives_in source config chain_id ledger watched (block + 1) (next - block) in
      let ts = tokens_in source config chain_id ledger watched (block + 1) (next - block) in
      let (ns_native, ns_token) =
        natives_in-AreNative source config chain_id watched ledger (block + 1) (next - block) in
      let (ts_native, ts_token) =
        tokens_in-AreToken source config chain_id watched ledger (block + 1) (next - block) in
      record {
        low = omega (arith, up.low, ahead);
        cursor = refl;
        same = up.same;
        native =
            grow is_native_payment s.sent es natives _ ns _ up.native
              (filter-parts is_native_payment ns ts _ ns [] found ns_native ts_native
                ∙ append-nil ns)
              (split_natives block next up.low ahead);
        token =
            grow is_token_payment s.sent es tokens _ ts _ up.token
              (filter-parts is_token_payment ns ts _ [] ts found ns_token ts_token)
              (split_tokens block next up.low ahead);
      }
