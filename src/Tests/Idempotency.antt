-- ===== src/Tests/Idempotency.antt =====
-- A repeated request to create an invoice, and two that race.
use Prim.Native.String.{String}
use ethpayserver.Base.{
  ℕ, ◌≡◌, refl, true, false, Option, some, [], ◌∷◌, length, ◌==◌, if◌then◌else◌, arith,
}
use ethpayserver.Idempotency.Http.{
  Bytes, Request, Response, CachedResponse, Crates, conflict_response, collect_cacheable_headers,
}
use ethpayserver.Idempotency.Cache.{Store, count_call}
use ethpayserver.Idempotency.Middleware.{Keyed, answered, enter, handled, proceed, middleware}
use ethpayserver.Idempotency.Interleaved.{System, wait, moved, move, Reach, start, later}
use ethpayserver.Idempotency.Exclusive.{exclusive}
use ethpayserver.Idempotency.Replay.{repeated_replays, reused_key_conflicts}

abbrev to_text : Bytes → Option String
to_text [] = some "order-1"
to_text (_ ∷ _) = some "Bearer 0123456789abcdef0123456789abcdef"

abbrev entry : CachedResponse
entry = record { request_hash = "full"; status = 201; body = 7 ∷ []; headers = [] }

abbrev crates : Crates
crates = record {
  to_str = to_text;
  as_bytes = λ s. [];
  is_valid_header = λ h. true;
  is_status = λ n. true;
  sha256_hex = λ bytes. if length bytes == 2 then "empty" else "full";
  to_vec = λ e. some "json";
  from_slice = λ s. some entry;
}

abbrev post : Bytes → Request
post body = record {
  method = "POST";
  path = "/invoices";
  headers = ("idempotency-key", []) ∷ ("authorization", 2 ∷ []) ∷ [];
  body = some body;
}

abbrev created : ℕ → Request → Response
created n req = record { status = 201; headers = ("date", 1 ∷ []) ∷ []; body = some (7 ∷ []) }

abbrev keyed : Bytes → String → Keyed
keyed body request_hash = record {
  request = post body;
  name = "0123456789abcdef0123456789abcdef:order-1";
  request_hash = request_hash;
}

abbrev fresh_store : Store
fresh_store = record {
  entries = [];
  now = 0;
  calls = 0;
  down = λ n. false;
  lost = λ n. false;
  runs = 0;
}

repeated_replays_example :
    ((middleware crates created 60 (post (5 ∷ [])) fresh_store).0
      ≡ answered (created 0 (post (5 ∷ []))))
    × (middleware crates created 60
          (post (5 ∷ []))
          (wait 9 (middleware crates created 60 (post (5 ∷ [])) fresh_store).1)
        ≡ (
          answered (record {
            status = 201;
            headers = ("idempotency-replayed", []) ∷ [];
            body = some (7 ∷ []);
          }),
          count_call (wait 9 (middleware crates created 60 (post (5 ∷ [])) fresh_store).1),
        ))
unfolding enter handled collect_cacheable_headers
repeated_replays_example =
    repeated_replays crates created 60 (post (5 ∷ [])) (keyed (5 ∷ []) "full") fresh_store (7 ∷ [])
      "json" (λ n. refl) refl refl refl refl refl refl refl refl refl (post (5 ∷ []))
      (keyed (5 ∷ []) "full") 9 refl refl refl (omega arith)

reused_key_conflicts_example :
    middleware crates created 60
      (post [])
      (wait 9 (middleware crates created 60 (post (5 ∷ [])) fresh_store).1)
    ≡ (
      answered conflict_response,
      count_call (wait 9 (middleware crates created 60 (post (5 ∷ [])) fresh_store).1),
    )
unfolding enter handled collect_cacheable_headers
reused_key_conflicts_example =
    reused_key_conflicts crates created 60 (post (5 ∷ [])) (keyed (5 ∷ []) "full") fresh_store
      (7 ∷ []) "json" (λ n. refl) refl refl refl refl refl refl refl (post []) (keyed [] "empty") 9
      refl refl refl (omega arith)

-- Requests of one key, the first of them in the handler.
abbrev begun : System
begun = record { store = fresh_store; phase = λ i. enter crates created 60 (post []) }

abbrev one_running : System
one_running = moved crates created 60 0 (moved crates created 60 0 begun)

one_running-Reach : Reach crates created 60 fresh_store (λ i. post []) one_running
unfolding enter proceed
one_running-Reach = later (later start (move 0 (λ g. refl))) (move 0 (λ g. refl))

exclusive_example : ◌≡◌ {A = ℕ} 0 0
unfolding enter proceed
exclusive_example =
    exclusive crates created 60 fresh_store (λ i. post []) one_running one_running-Reach 0 0
      "0123456789abcdef0123456789abcdef:order-1" refl refl

-- The second looks up before the first is done and locks after it: the handler runs twice.
abbrev raced : System
raced = let m = moved crates created 60 in m 1 (m 1 (m 1 (m 0 (m 0 (m 0 (m 0 (m 1 (m 0 begun))))))))

raced-runs : raced.store.runs ≡ 2
unfolding enter proceed
raced-runs = refl
