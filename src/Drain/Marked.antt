-- ===== src/Drain/Marked.antt =====
-- What a row marked as dispatched stands for: server/src/services/webhook_outbox_drain.rs.
use ethpayserver.Base.{
  ℕ, ◌≡◌, refl, inl, inr, true, Bool-cases, ◌==◌, ==_iff, is_some, List, [], ◌∷◌, map, All,
}
use ethpayserver.Webhook.Queue.{Outside, Queue}
use ethpayserver.Drain.Outbox.{WebhookObligation, Row, set_dispatched, obligation_of, mark_rows}
use ethpayserver.Drain.Dispatch.{
  Tables, Events, State, count_call, write, mark_now, mark_dispatched,
}
use ethpayserver.Drain.Settled.{IsSettled, Grows, IsSettled-Grows}

-- The obligations with the key of one are that one: `id` is the primary key.
abbrev pub IsOwn : WebhookObligation → WebhookObligation → Type 0
IsOwn o p = p.id ≡ o.id → p ≡ o

abbrev pub obligations : State → List WebhookObligation
obligations s = map obligation_of s.webhook_outbox

abbrev pub IsKeyed : State → Type 0
IsKeyed s = All (λ o. All (IsOwn o) (obligations s)) (obligations s)

write-cases :
    (P : State → Type 0) (f : State → State) (s : State)
    → P (count_call s)
    → P (f (count_call s))
    → P (write f s)
unfolding write
write-cases P f s lost done = elim (Bool-cases (s.down s.calls)) [
  | inr up ↦ rw up done
  | inl down ↦ elim (Bool-cases (s.lost s.calls)) [
    | inl reached ↦ rw (down, reached) done
    | inr unreached ↦ rw (down, unreached) lost
  ]
]

set_dispatched-obligation :
    (id now : ℕ) (r : Row) → (set_dispatched id now r).obligation ≡ r.obligation
unfolding set_dispatched
set_dispatched-obligation id now r = elim (Bool-cases (r.obligation.id == id)) [
  | inl same ↦ simp same
  | inr other ↦ simp other
]

mark_rows-obligations :
    (id now : ℕ) (rows : List Row)
    → map obligation_of (mark_rows id now rows) ≡ map obligation_of rows
unfolding mark_rows
mark_rows-obligations id now [] = refl
mark_rows-obligations id now (r ∷ rows) =
    rw (set_dispatched-obligation id now r, mark_rows-obligations id now rows) refl

mark_dispatched-obligations :
    (id : ℕ) (s : State) → obligations (mark_dispatched id s) ≡ obligations s
unfolding mark_dispatched
mark_dispatched-obligations id s =
    write-cases (λ t. obligations t ≡ obligations s) (mark_now id) s refl
      (mark_rows-obligations id s.now s.webhook_outbox)

module _ (x : Outside) (events : Events) where
  abbrev pub AccountedRow : Tables → Queue → Row → Type 0
  AccountedRow t q r = is_some r.dispatched_at ≡ true → IsSettled x events t q r.obligation

  abbrev pub IsAccounted : State → Type 0
  IsAccounted s = All (AccountedRow s.tables s.queue) s.webhook_outbox

  grow-All :
      (t : Tables) (q r : Queue) (rows : List Row)
      → Grows x q r
      → All (AccountedRow t q) rows
      → All (AccountedRow t r) rows
  grow-All t q r [] grows h = tt
  grow-All t q r (row ∷ rows) grows h = (
    (λ done. IsSettled-Grows x events t q r row.obligation grows (h.0 done)),
    grow-All t q r rows grows h.1,
  )

  mark-row :
      (t : Tables) (q : Queue) (o : WebhookObligation) (now : ℕ) (r : Row)
      → IsSettled x events t q o
      → IsOwn o r.obligation
      → AccountedRow t q r
      → AccountedRow t q (set_dispatched o.id now r)
  unfolding set_dispatched
  mark-row t q o now r settled own h = elim (Bool-cases (r.obligation.id == o.id)) [
    | inl same ↦ simp same (λ done. rw (own ((==_iff r.obligation.id o.id).0 same)) settled)
    | inr other ↦ simp other h
  ]

  mark-All :
      (t : Tables) (q : Queue) (o : WebhookObligation) (now : ℕ) (rows : List Row)
      → IsSettled x events t q o
      → All (IsOwn o) (map obligation_of rows)
      → All (AccountedRow t q) rows
      → All (AccountedRow t q) (mark_rows o.id now rows)
  unfolding mark_rows
  mark-All t q o now [] settled own h = tt
  mark-All t q o now (r ∷ rows) settled own h =
      (mark-row t q o now r settled own.0 h.0, mark-All t q o now rows settled own.1 h.1)

  -- An obligation's turn leaves its table accounted for, and the keys as they are.
  pub record IsFine (s t : State) : Type 0 where
    pub accounted : IsAccounted t
    pub keys : obligations t ≡ obligations s

  pub frame-Accounted :
      (s t : State)
      → t.tables ≡ s.tables
      → t.webhook_outbox ≡ s.webhook_outbox
      → Grows x s.queue t.queue
      → IsAccounted s
      → IsAccounted t
  frame-Accounted s t tables rows grows h =
      rw (tables, rows) (grow-All s.tables s.queue t.queue s.webhook_outbox grows h)

  pub mark-IsFine :
      (o : WebhookObligation) (s : State)
      → IsSettled x events s.tables s.queue o
      → All (IsOwn o) (obligations s)
      → IsAccounted s
      → IsFine s (mark_dispatched o.id s)
  unfolding mark_dispatched
  mark-IsFine o s settled own h = record {
    accounted =
        write-cases IsAccounted (mark_now o.id) s h
          (mark-All s.tables s.queue o s.now s.webhook_outbox settled own h);
    keys = mark_dispatched-obligations o.id s;
  }
