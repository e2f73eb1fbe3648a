-- ===== src/Consumer/Writes.antt =====
-- From the rows that a write changes to the calls of the handlers: what each write on rows keeps,
-- the database calls of data-service/src/postgres keep.
use ethpayserver.Base.{ℕ, String}
use ethpayserver.Base.Int.{ℤ}
use ethpayserver.External.{Crates}
use ethpayserver.Database.Rows.{InvoiceStatus, PaymentData, World}
use ethpayserver.Database.Monad.{Result, ok, err, M}
use ethpayserver.Database.Keeps.{Keeps, IsQuiet, keep_pure, keep_bind, keep_then, keep_call}
use ethpayserver.Database.Payments.{
  write_payment, upsert_payment_row, mark_confirmed, mark_payment_reorged, retract_row,
  add_obligation, transaction, end_transaction, begin, commit, upsert_with_tx_index_and_obligation,
  update_one, is_awaiting, confirm,
}
use ethpayserver.Database.Monad.{not_found}
use ethpayserver.Database.Invoices.{update_status, write_status, expire, expire_row}
use ethpayserver.Database.Settings.{record_settlement_allowance, write_allowance}
use ethpayserver.Consumer.Keeps.{IsWritten}

pub record IsKeptByRows (x : Crates) (P : World → Type 0) : Type 1 where
  pub quiet : IsQuiet P
  pub payment : (p : PaymentData) (i : ℤ) → Keeps P (write_payment x p i)
  pub obligation : (id invoice : ℕ) (t : String) → Keeps P (add_obligation x id invoice t)
  pub confirm : (id at : ℕ) → Keeps P (update_one x (is_awaiting id) (confirm at) not_found)
  pub retract : (id : ℕ) → Keeps P (retract_row x id)
  pub allowance : (id : ℕ) (a b c : String) → Keeps P (write_allowance x id a b c)
  pub status : (id : ℕ) (s : InvoiceStatus) → Keeps P (write_status id s)
  pub expiry : (id : ℕ) → Keeps P (expire_row id)

module _ {P : World → Type 0} (quiet : IsQuiet P) where
  end_transaction-Keeps :
      (w : World) (r : Result (Unit {0}) × World) → P w → P r.1 → P (end_transaction w r).1
  unfolding end_transaction commit
  end_transaction-Keeps w (ok _, w') before h =
      (keep_call quiet {f = λ v. (ok tt, record w' { calls = v.calls })}
          (record { keep = λ v _. quiet.calls w' v.calls h })).keep
        (record w { calls = w'.calls }) (quiet.calls w w'.calls before)
  end_transaction-Keeps w (err e, w') before h = quiet.calls w w'.calls before

  keep_transaction : {m : M (Unit {0})} → Keeps P m → Keeps P (transaction m)
  unfolding transaction
  keep_transaction {m} k = record { keep = λ w h. end_transaction-Keeps w (m w) h (k.keep w h) }

pub IsKeptByRows-IsWritten : {x : Crates} {P : World → Type 0} → IsKeptByRows x P → IsWritten x P
unfolding upsert_with_tx_index_and_obligation upsert_payment_row begin mark_confirmed
    mark_payment_reorged record_settlement_allowance update_status expire
IsKeptByRows-IsWritten k = record {
  quiet = k.quiet;
  upsert = λ p i t. keep_transaction k.quiet (
      keep_then (keep_call k.quiet (keep_pure tt)) (
        keep_bind (keep_call k.quiet (k.payment p i))
          λ id. keep_call k.quiet (k.obligation id p.invoice_id t)));
  confirm = λ id at. keep_call k.quiet (k.confirm id at);
  retract = λ id. keep_call k.quiet (k.retract id);
  allowance = λ id a b c. keep_call k.quiet (k.allowance id a b c);
  status = λ id s. keep_call k.quiet (k.status id s);
  expiry = λ id. keep_call k.quiet (k.expiry id);
}
