-- ===== src/Database/Payments.antt =====
-- The `payments` table: data-service/src/postgres/payment.rs, and the trigger on it of
-- data-service/migrations/postgres/20260413000002_fix_invoice_expiration.sql.
pub mod Received
pub mod Unique
use Prim.Native.String.{String}
use text.Mathlib.Text.{◌==◌ as str_eq}
use ethpayserver.Base.{
  ℕ, ◌+◌, Bool, true, false, not, ◌&&◌, Option, none, some, List, [], ◌∷◌, ◌++◌, leb, ◌==◌, filter,
  find, any, map, is_some, unwrap_or, if◌then◌else◌,
}
use ethpayserver.Base.Dict.{Dict, get, insert}
use ethpayserver.Base.Int.{ℤ, eq_ℤ}
use ethpayserver.External.{Crates}
use ethpayserver.Database.Rows.{
  InvoiceStatus, pending, processing, InvoiceData, PaymentData, PaymentRow, Obligation, World,
}
use ethpayserver.Database.Monad.{
  Result, Error, not_found, constraint, ok, err, M, pure, throw, ◌>>=◌, ◌>>◌, call,
}

abbrev pub coalesce {ℓ} : {A : Type ℓ} → Option A → Option A → Option A
coalesce none b = b
coalesce (some a) _ = some a

-- `(chain_id, tx_hash, tx_index)`, the key `unique_payment_tx`.
unfoldable pub same_transfer : ℕ → String → ℤ → PaymentRow → Bool
same_transfer chain_id tx_hash tx_index r =
    r.payment.chain_id == chain_id && str_eq r.payment.tx_hash tx_hash && eq_ℤ r.tx_index tx_index

-- An `UPDATE` by a key: the constraints on the table let a key name one row at most.
unfoldable pub update_first :
    (PaymentRow → Bool) → (PaymentRow → PaymentRow) → List PaymentRow → List PaymentRow
update_first p f [] = []
update_first p f (r ∷ rs) = if p r then f r ∷ rs else r ∷ update_first p f rs

unfoldable pub has_id : ℕ → PaymentRow → Bool
has_id id r = r.payment.id == id

-- `block_number >= n` is not true of a NULL.
unfoldable pub at_or_above : ℕ → Option ℕ → Bool
at_or_above fork none = false
at_or_above fork (some b) = leb fork b

-- `ON CONFLICT DO UPDATE SET`: the id, the invoice and the mark `reorged` stay.
unfoldable pub merge : PaymentData → PaymentRow → PaymentRow
merge p r =
    let old = r.payment in
    record r {
      payment = record old {
        block_number = coalesce p.block_number old.block_number;
        confirmed_at = coalesce p.confirmed_at old.confirmed_at;
        extra = coalesce p.extra old.extra;
        credited_amount = coalesce p.credited_amount old.credited_amount;
        rate_used = coalesce p.rate_used old.rate_used;
        rate_applied_at = coalesce p.rate_applied_at old.rate_applied_at;
      };
    }

-- The row of an `INSERT`, which names no `reorged`: the default is FALSE.
unfoldable pub new_row : PaymentData → ℤ → PaymentRow
new_row p tx_index = record { payment = record p { reorged = false }; tx_index = tx_index }

unfoldable pub retract : PaymentRow → PaymentRow
retract r =
    let p = r.payment in record r { payment = record p { reorged = true; confirmed_at = none } }

unfoldable pub confirm : ℕ → PaymentRow → PaymentRow
confirm at r = let p = r.payment in record r { payment = record p { confirmed_at = some at } }

-- `pending` turns `processing` on a valid payment before the invoice expires.
unfoldable pub triggered_status : Bool → Bool → InvoiceStatus → InvoiceStatus
triggered_status reorged in_time pending = if not reorged && in_time then processing else pending
triggered_status reorged in_time status = status

unfoldable pub counts_for : ℕ → PaymentRow → Bool
counts_for invoice r = r.payment.invoice_id == invoice && not r.payment.reorged

unfoldable pub is_awaiting : ℕ → PaymentRow → Bool
unfolding has_id
is_awaiting id r = has_id id r && not (is_some r.payment.confirmed_at)

unfoldable pub is_unretracted : ℕ → PaymentRow → Bool
unfolding has_id
is_unretracted id r = has_id id r && not r.payment.reorged

unfoldable pub begin : M (Unit {0})
begin = call (pure tt)

-- `commit` puts the tables that the statements left in place of those before, as one call.
unfoldable pub commit : World → M (Unit {0})
commit w' = call λ w. (ok tt, record w' { calls = w.calls })

-- An error on the way leaves the tables as they were.
unfoldable pub end_transaction : World → Result (Unit {0}) × World → Result (Unit {0}) × World
unfolding commit
end_transaction w (ok _, w') = commit w' (record w { calls = w'.calls })
end_transaction w (err e, w') = (err e, record w { calls = w'.calls })

-- `begin` .. `commit`.
unfoldable pub transaction : M (Unit {0}) → M (Unit {0})
unfolding end_transaction
transaction m w = end_transaction w (m w)

module _ (x : Crates) where
  open x use {D, zero, add, from_str, to_string}

  -- What a row adds to the sum: NULL is left out, and a stored text is a number.
  unfoldable pub credit : PaymentRow → D
  credit r = elim r.payment.credited_amount [ none ↦ zero | some t ↦ unwrap_or (from_str t) zero ]

  -- `COALESCE(SUM(credited_amount), 0)` over the invoice's payments that are not reorged.
  unfoldable pub credited_sum : ℕ → List PaymentRow → D
  unfolding counts_for credit
  credited_sum invoice [] = zero
  credited_sum invoice (r ∷ rs) =
      let rest = credited_sum invoice rs in
      if counts_for invoice r then add (credit r) rest else rest

  -- `update_invoice_on_payment()`, after an INSERT or UPDATE of the row.
  unfoldable pub trigger : PaymentRow → World → World
  unfolding triggered_status
  trigger r w = elim (get r.payment.invoice_id w.invoices) [
    | none ↦ w
    | some inv ↦ record w {
      invoices =
          insert r.payment.invoice_id
            (record inv {
              amount_received = to_string (credited_sum r.payment.invoice_id w.payments);
              status = triggered_status r.payment.reorged (leb w.now inv.expires_at) inv.status;
            })
            w.invoices;
    }
  ]

  -- `$16::numeric` and `$17::numeric` refuse a text that is no number.
  unfoldable pub is_numeric : Option String → Bool
  is_numeric none = true
  is_numeric (some t) = is_some (from_str t)

  -- The `INSERT` branch: the invoice is a foreign key.
  unfoldable pub insert_payment : PaymentData → ℤ → M ℕ
  unfolding new_row
  insert_payment p tx_index w =
      if is_some (get p.invoice_id w.invoices)
      then (
        ok p.id,
        trigger (new_row p tx_index)
            (record w { payments = w.payments ++ new_row p tx_index ∷ [] }),
      )
      else (err constraint, w)

  unfoldable pub merge_payment : PaymentData → ℤ → PaymentRow → M ℕ
  unfolding merge same_transfer update_first
  merge_payment p tx_index old w = (
    ok old.payment.id,
    trigger (merge p old) (record w {
      payments = update_first (same_transfer p.chain_id p.tx_hash tx_index) (merge p) w.payments;
    }),
  )

  unfoldable pub write_payment : PaymentData → ℤ → M ℕ
  unfolding insert_payment merge_payment is_numeric same_transfer
  write_payment p tx_index w =
      if is_numeric p.credited_amount && is_numeric p.rate_used
      then (elim (find (same_transfer p.chain_id p.tx_hash tx_index) w.payments) [
        | none ↦ insert_payment p tx_index w
        | some old ↦ merge_payment p tx_index old w
      ])
      else (err constraint, w)

  unfoldable pub upsert_payment_row : PaymentData → ℤ → M ℕ
  unfolding write_payment
  upsert_payment_row p tx_index = call (write_payment p tx_index)

  unfoldable pub update_one : (PaymentRow → Bool) → (PaymentRow → PaymentRow) → Error → M (Unit {0})
  unfolding update_first
  update_one p f missing w = elim (find p w.payments) [
    | none ↦ (err missing, w)
    | some old ↦ (ok tt, trigger (f old) (record w { payments = update_first p f w.payments }))
  ]

  unfoldable pub mark_confirmed : ℕ → ℕ → M (Unit {0})
  unfolding update_one is_awaiting confirm
  mark_confirmed id confirmed_at =
      call (update_one (is_awaiting id) (confirm confirmed_at) not_found)

  -- No row to update is no error here.
  unfoldable pub retract_row : ℕ → M (Unit {0})
  unfolding update_first is_unretracted retract
  retract_row id w = elim (find (is_unretracted id) w.payments) [
    | none ↦ (ok tt, w)
    | some old ↦ (
      ok tt,
      trigger (retract old)
          (record w { payments = update_first (is_unretracted id) retract w.payments }),
    )
  ]

  unfoldable pub mark_payment_reorged : ℕ → M (Unit {0})
  unfolding retract_row
  mark_payment_reorged id = call (retract_row id)

  unfoldable pub same_obligation : ℕ → String → Obligation → Bool
  same_obligation payment_id event_type o =
      o.payment_id == payment_id && str_eq o.event_type event_type

  -- `INSERT INTO webhook_outbox ... ON CONFLICT (payment_id, event_type) DO NOTHING`.
  unfoldable pub add_obligation : ℕ → ℕ → String → M (Unit {0})
  unfolding same_obligation
  add_obligation payment_id invoice_id event_type w =
      if any (same_obligation payment_id event_type) w.webhook_outbox then (ok tt, w) else (
        ok tt,
        record w {
          fresh = w.fresh + 1;
          webhook_outbox =
              w.webhook_outbox
              ++ record {
                id = w.fresh;
                payment_id = payment_id;
                invoice_id = invoice_id;
                event_type = event_type;
              }
                ∷ [];
        },
      )

  unfoldable pub upsert_with_tx_index_and_obligation : PaymentData → ℤ → String → M (Unit {0})
  unfolding upsert_payment_row add_obligation transaction begin
  upsert_with_tx_index_and_obligation p tx_index event_type = transaction (do
    begin
    payment_id ← upsert_payment_row p tx_index
    call (add_obligation payment_id p.invoice_id event_type))

abbrev pub payment_of : PaymentRow → PaymentData
payment_of r = r.payment

unfoldable pub is_transfer_of : ℕ → String → ℤ → PaymentRow → Bool
is_transfer_of invoice_id tx_hash tx_index r =
    r.payment.invoice_id == invoice_id
    && str_eq r.payment.tx_hash tx_hash
    && eq_ℤ r.tx_index tx_index
    && not r.payment.reorged

unfoldable pub payment_found : Option PaymentRow → Option PaymentData
payment_found none = none
payment_found (some r) = some r.payment

unfoldable pub get_by_tx_index : ℕ → String → ℤ → M (Option PaymentData)
unfolding is_transfer_of payment_found
get_by_tx_index invoice_id tx_hash tx_index =
    call λ w. (ok (payment_found (find (is_transfer_of invoice_id tx_hash tx_index) w.payments)), w)

unfoldable pub is_candidate : ℕ → ℕ → PaymentRow → Bool
unfolding at_or_above
is_candidate chain_id fork_block r =
    r.payment.chain_id == chain_id
    && at_or_above fork_block r.payment.block_number
    && not r.payment.reorged

unfoldable pub reorg_candidates : ℕ → ℕ → M (List PaymentData)
unfolding is_candidate
reorg_candidates chain_id fork_block =
    call λ w. (ok (map payment_of (filter (is_candidate chain_id fork_block) w.payments)), w)

unfoldable pub has_valid_payments : ℕ → M Bool
unfolding counts_for
has_valid_payments invoice = call λ w. (ok (any (counts_for invoice) w.payments), w)
