-- ===== src/Outbox/Resume.antt =====
-- What the outbox retains, and what a subscription reads from it.
use ethpayserver.Base.{
  All, ℕ, zero, suc, ◌+◌, ◌-◌, ◌≤◌, ◌<◌, ◌≡◌, refl, ◌⊎◌, inl, inr, false, Option, none, some, List,
  [], ◌∷◌, ◌++◌, arith, ltb, leb, length, drop, Bool-cases, ap, ltb→lt,
}
use native.Mathlib.Nat.{add-zero}
use native.Mathlib.Numerals.{add-one}
use ethpayserver.Event.{MonitorEvent}
use ethpayserver.Outbox.{
  EventCursor, EventEnvelope, Outbox, new_inner, trim, trim_to, publish, oldest_retained,
  Subscription, out_of_range, subscribed, subscribe_from, gap, yielded, advance, poll,
}

-- The entries carry the consecutive positions from `a` up to, not including, `b`.
abbrev pub Runs : ℕ → List EventEnvelope → ℕ → Type 0
Runs a [] b = a ≡ b
Runs a (e ∷ es) b = (e.cursor.seq ≡ a) × Runs (suc a) es b

pub Runs-length : (a b : ℕ) (es : List EventEnvelope) → Runs a es b → b ≡ a + length es
Runs-length a b [] h = omega arith
Runs-length a b (e ∷ es) h = omega (arith, Runs-length (suc a) b es h.1)

pub Runs-append :
    (a b c : ℕ) (xs ys : List EventEnvelope) → Runs a xs b → Runs b ys c → Runs a (xs ++ ys) c
Runs-append a b c [] ys h k = rw h k
Runs-append a b c (x ∷ xs) ys h k = (h.0, Runs-append (suc a) b c xs ys h.1 k)

pub Runs-drop :
    (a b n : ℕ) (es : List EventEnvelope) → n ≤ length es → Runs a es b → Runs (a + n) (drop n es) b
Runs-drop a b zero es l h = rw add-zero h
Runs-drop a b (suc n) [] l h = absurd (omega arith)
Runs-drop a b (suc n) (e ∷ es) l h =
    let shift : a + suc n ≡ suc a + n = omega arith in
    rw shift (Runs-drop (suc a) b n es (omega arith) h.1)

-- The first position is what the length leaves of the end.
Runs-start : (a b : ℕ) (es : List EventEnvelope) → Runs a es b → Runs (b - length es) es b
Runs-start a b es h =
    let start : b - length es ≡ a = omega (arith, Runs-length a b es h) in rw start h

pub record IsValid (o : Outbox) : Type 0 where
  pub runs : Runs (o.next_seq - length o.entries) o.entries o.next_seq
  pub capped : (n : ℕ) → o.max_retained ≡ some n → length o.entries ≤ n

trim-Runs :
    (a b max : ℕ) (es : List EventEnvelope)
    → Runs a es b
    → Runs (b - length (trim max es)) (trim max es) b
unfolding trim
trim-Runs a b max [] h = omega (arith, h)
trim-Runs a b max (e ∷ es) h = elim (Bool-cases (leb (suc (length es)) max)) [
  | inl fits ↦ rw fits (Runs-start a b (e ∷ es) h)
  | inr over ↦ rw over (trim-Runs (suc a) b max es h.1)
]

length-trim : (max : ℕ) (es : List EventEnvelope) → length (trim max es) ≤ max
unfolding trim
length-trim max [] = omega arith
length-trim max (e ∷ es) = ground (arith, length-trim max es)

trim_to-Runs :
    (a b : ℕ) (max : Option ℕ) (es : List EventEnvelope)
    → Runs a es b
    → Runs (b - length (trim_to max es)) (trim_to max es) b
unfolding trim_to
trim_to-Runs a b none es h = Runs-start a b es h
trim_to-Runs a b (some max) es h = trim-Runs a b max es h

length-trim_to :
    (max : Option ℕ) (es : List EventEnvelope) (n : ℕ) → max ≡ some n → length (trim_to max es) ≤ n
unfolding trim_to
length-trim_to none es n h = cc
length-trim_to (some max) es n h = ground (arith, length-trim max es)

pub new_inner-IsValid : (epoch : ℕ) (max : Option ℕ) → IsValid (new_inner epoch max)
unfolding new_inner
new_inner-IsValid epoch max = record { runs = refl; capped = λ n h. omega arith }

-- Publishing keeps the retained positions consecutive and within the cap, whatever was trimmed.
pub publish-IsValid : (event : MonitorEvent) (o : Outbox) → IsValid o → IsValid (publish event o)
unfolding publish
publish-IsValid event o v = record {
  runs =
      trim_to-Runs (o.next_seq - length o.entries) (o.next_seq + 1) o.max_retained _
        (Runs-append _ o.next_seq _ o.entries _ v.runs (refl, omega arith));
  capped = length-trim_to o.max_retained _;
}

-- A reader in step with the stream: it expects the position after the last one it was given.
abbrev pub at : ℕ → Subscription
at n = record { next_seq = n; expected_seq = some n }

advance-Runs : (a b : ℕ) (es : List EventEnvelope) → Runs a es b → advance es (at a) ≡ at b
unfolding advance
advance-Runs a b [] h = ap at h
advance-Runs a b (e ∷ es) h =
    let step : e.cursor.seq + 1 ≡ suc a = omega (arith, h.0) in
    rw step (advance-Runs (suc a) b es h.1)

-- A reader at position `n` is told of a gap exactly when its next entry was trimmed away, and is
-- otherwise given, without a panic, every entry from `n` on, in order.
pub poll-at :
    (o : Outbox) (n : ℕ)
    → IsValid o
    → n ≤ o.next_seq
    → ((n < oldest_retained o) × (poll o (at n) ≡ gap))
      ⊎ ((oldest_retained o ≤ n)
          × (poll o (at n) ≡ yielded (drop (n - oldest_retained o) o.entries) (at o.next_seq))
          × Runs n (drop (n - oldest_retained o) o.entries) o.next_seq)
unfolding poll oldest_retained
poll-at o n v h = elim (Bool-cases (ltb n (oldest_retained o))) [
  | inl early ↦ inl (ltb→lt _ _ early, rw early)
  | inr kept ↦
      let first = o.next_seq - length o.entries in
      let from_first : first ≤ n = ground arith in
      let inside : n - first ≤ length o.entries =
        omega (arith, Runs-length first o.next_seq o.entries v.runs) in
      let back : first + (n - first) ≡ n = omega arith in
      let fits : ltb (length o.entries) (n - first) ≡ false = ground arith in
      let rest : Runs n (drop (n - first) o.entries) o.next_seq =
        rw back at (Runs-drop first o.next_seq (n - first) o.entries inside v.runs) in
      inr (from_first, rw (kept, fits, advance-Runs n o.next_seq _ rest), rest)
]

-- A cursor's place among the positions that are held.
pub subscribe_from_range :
    (c : EventCursor) (o : Outbox)
    → ((subscribe_from (some c) o ≡ out_of_range)
        × ((suc c.seq < oldest_retained o) ⊎ (o.next_seq ≤ c.seq)))
      ⊎ ((subscribe_from (some c) o ≡ subscribed (at (suc c.seq)))
          × (oldest_retained o ≤ suc c.seq)
          × (suc c.seq ≤ o.next_seq))
unfolding subscribe_from
subscribe_from_range c o = rw add-one (ground arith)

Runs-above :
    (a b p : ℕ) (es : List EventEnvelope) → Runs a es b → p < a → All (λ e. p < e.cursor.seq) es
Runs-above a b p [] h low = tt
Runs-above a b p (e ∷ es) h low =
    (omega (arith, low, h.0), Runs-above (suc a) b p es h.1 (omega (arith, low)))

below-end : (o : Outbox) (p : ℕ) → IsValid o → p < oldest_retained o → p < o.next_seq
unfolding oldest_retained
below-end o p v low = omega (arith, low)

above-entries :
    (o : Outbox) (p : ℕ) → IsValid o → p < oldest_retained o → All (λ e. p < e.cursor.seq) o.entries
unfolding oldest_retained
above-entries o p v low =
    Runs-above (o.next_seq - length o.entries) o.next_seq p o.entries v.runs low

-- Resuming at a cursor, on an outbox whose retained positions are consecutive up to its end: the
-- cursor is refused, and then an event behind it was published while every one that is held is
-- behind that event, or the cursor is past the end; or the first read gives exactly the events of
-- all positions behind the cursor up to the end, in order.
pub subscribe_from_held :
    (c : EventCursor) (o : Outbox)
    → IsValid o
    → ((subscribe_from (some c) o ≡ out_of_range)
        × (((suc c.seq < o.next_seq) × All (λ e. suc c.seq < e.cursor.seq) o.entries)
            ⊎ (o.next_seq ≤ c.seq)))
      ⊎ ((s : Subscription) × (batch : List EventEnvelope) × (subscribe_from (some c) o
            ≡ subscribed s)
          × (poll o s ≡ yielded batch (at o.next_seq))
          × Runs (suc c.seq) batch o.next_seq)
subscribe_from_held c o v = elim (subscribe_from_range c o) [
  | inl (no_stream, inr ahead) ↦ inl (no_stream, inr ahead)
  | inl (no_stream, inl lost) ↦
      inl (no_stream, inl (below-end o (suc c.seq) v lost, above-entries o (suc c.seq) v lost))
  | inr (stream, kept, known) ↦ elim (poll-at o (suc c.seq) v known) [
    | inl (early, _) ↦ absurd (omega (arith, kept, early))
    | inr (_, read, rest) ↦ inr (at (suc c.seq), _, stream, read, rest)
  ]
]
