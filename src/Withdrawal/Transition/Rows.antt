-- ===== src/Withdrawal/Transition/Rows.antt =====
-- What the operator's store holds, as tables, and what its operations do to them.
use mathlib.Core.Path.{fun_ext}
use psy_doge_solana_cli.Common.{
  ℕ, suc, ◌+◌, ◌≤◌, ◌<◌, ◌≡◌, refl, ap, List, Bool, true, false, ◌&&◌, eqb, ltb, leb, if◌then◌else◌,
  Option, none, some, Result, ok, err, Bool-cases, inl, inr, arith,
}
use psy_doge_solana_cli.Withdrawal.Store.{
  OperatorStatus, CustodyReservationStatus, CustodyReservation, SnapshotBatch, DogecoinTransaction,
  ProcessWithdrawal, WithdrawalRequest,
}
use psy_doge_solana_cli.Withdrawal.Graph.{OperatorStore}

-- The transactions are listed by the signature of their batch.
pub record Rows : Type 0 where
  pub reservation : List ℕ → Option CustodyReservation
  pub transaction : List ℕ → Option DogecoinTransaction
  pub process : List ℕ → Option ProcessWithdrawal
  pub request : ℕ → Option WithdrawalRequest
  pub batch : List ℕ → Option SnapshotBatch

abbrev pub change : {R : Type 0} → Bool → (R → R) → Option R → Option R
change true f (some row) = some (f row)
change _ f row = row

-- A change of every row, of the row under a key, and of the rows under the numbers of a range.
abbrev pub everywhere : {R : Type 0} → (R → R) → (List ℕ → Option R) → List ℕ → Option R
everywhere f table k = change true f (table k)

abbrev pub at_key : {R : Type 0} → List ℕ → (R → R) → (List ℕ → Option R) → List ℕ → Option R
at_key key f table k = change (eqb k key) f (table k)

abbrev pub in_range : {R : Type 0} → ℕ → ℕ → (R → R) → (ℕ → Option R) → ℕ → Option R
in_range from count f table k = change (leb from k && ltb k (from + count)) f (table k)

abbrev pub with_hash : List ℕ → OperatorStatus → DogecoinTransaction → DogecoinTransaction
with_hash raw_hash status row =
    if eqb row.raw_hash raw_hash then record row { status = status } else row

-- An operation that fails leaves the rows as they were.
abbrev pub written : {E A : Type 0} → Result E A → Rows → Rows → Rows
written (ok value) changed rows = changed
written (err e) changed rows = rows

-- What the code relies on of the store: `view` is what it holds, and `marked txid` is what a
-- reservation becomes when its spending transaction is broadcast.
pub record Works {S : Type 0} (store : OperatorStore S) (view : S → Rows)
    (marked : List ℕ → CustodyReservation → CustodyReservation) : Type 0 where
  pub marked_status :
      (txid : List ℕ) (row : CustodyReservation)
      → (marked txid row).status ≡ CustodyReservationStatus.broadcast
  pub loads :
      (s : S) (id : List ℕ) (row : CustodyReservation)
      → store.load_reservation s id ≡ ok (some row)
      → ((view s).reservation id ≡ some row) × (row.reservation_id ≡ id)
  pub finds :
      (s : S) (signature : List ℕ) (row : DogecoinTransaction)
      → store.dogecoin_transaction_by_process_signature s signature ≡ ok (some row)
      → (view s).transaction signature ≡ some row
  pub marks :
      (s : S) (id txid : List ℕ)
      → let run = store.mark_reservation_broadcast s id txid in
        view run.0
        ≡ written run.1
            (record (view s) { reservation = at_key id (marked txid) (view s).reservation })
            (view s)
  pub sets_transaction :
      (s : S) (raw_hash : List ℕ) (status : OperatorStatus)
      → let run = store.set_dogecoin_transaction_status_by_raw_hash s raw_hash status in
        view run.0
        ≡ written run.1
            (record (view s) {
              transaction = everywhere (with_hash raw_hash status) (view s).transaction;
            })
            (view s)
  pub sets_process :
      (s : S) (signature : List ℕ) (status : OperatorStatus)
      → let run = store.set_process_withdrawal_status s signature status in
        view run.0
        ≡ written run.1
            (record (view s) {
              process = at_key signature (λ row. record row { status = status }) (view s).process;
            })
            (view s)
  pub sets_request :
      (s : S) (index : ℕ) (status : OperatorStatus)
      → let run = store.set_withdrawal_request_status s index status in
        view run.0
        ≡ written run.1
            (record (view s) {
              request = in_range index 1 (λ row. record row { status = status }) (view s).request;
            })
            (view s)
  pub sets_batch :
      (s : S) (signature : List ℕ) (status : OperatorStatus)
      → let run = store.set_snapshot_batch_status s signature status in
        view run.0
        ≡ written run.1
            (record (view s) {
              batch = at_key signature (λ row. record row { status = status }) (view s).batch;
            })
            (view s)

-- A change that is made twice.
change_twice :
    {R : Type 0} (b : Bool) (f : R → R) (row : Option R)
    → ((r : R) → f (f r) ≡ f r)
    → change b f (change b f row) ≡ change b f row
change_twice true f none h = refl
change_twice true f (some r) h = ap some (h r)
change_twice false f none h = refl
change_twice false f (some r) h = refl

pub everywhere_twice :
    {R : Type 0} (f : R → R) (table : List ℕ → Option R)
    → ((r : R) → f (f r) ≡ f r)
    → everywhere f (everywhere f table) ≡ everywhere f table
everywhere_twice f table h = fun_ext λ k. change_twice true f (table k) h

pub at_key_twice :
    {R : Type 0} (key : List ℕ) (f : R → R) (table : List ℕ → Option R)
    → ((r : R) → f (f r) ≡ f r)
    → at_key key f (at_key key f table) ≡ at_key key f table
at_key_twice key f table h = fun_ext λ k. change_twice (eqb k key) f (table k) h

pub with_hash_twice :
    (raw_hash : List ℕ) (status : OperatorStatus) (row : DogecoinTransaction)
    → with_hash raw_hash status (with_hash raw_hash status row) ≡ with_hash raw_hash status row
with_hash_twice raw_hash status row = elim (Bool-cases (eqb row.raw_hash raw_hash)) [
  | inl same ↦ rw (same, same) refl
  | inr other ↦ rw (other, other) refl
]

-- Ranges that are empty, that meet, and that hold a number.
module _ {R : Type 0} (f : R → R) where
  empty_at : (from k : ℕ) (row : Option R) → change (leb from k && ltb k (from + 0)) f row ≡ row
  empty_at from k none = ground arith
  empty_at from k (some r) = ground arith

  pub in_range_empty : (from : ℕ) (table : ℕ → Option R) → in_range from 0 f table ≡ table
  in_range_empty from table = fun_ext λ k. empty_at from k (table k)

  suc_at :
      (from count k : ℕ) (row : Option R)
      → change
          (leb (from + 1) k && ltb k (from + 1 + count))
          f
          (change (leb from k && ltb k (from + 1)) f row)
        ≡ change (leb from k && ltb k (from + suc count)) f row
  suc_at from count k none = ground arith
  suc_at from count k (some r) = ground arith

  pub in_range-suc :
      (from count : ℕ) (table : ℕ → Option R)
      → in_range (from + 1) count f (in_range from 1 f table) ≡ in_range from (suc count) f table
  in_range-suc from count table = fun_ext λ k. suc_at from count k (table k)

  module _ (idem : (r : R) → f (f r) ≡ f r) (from count index : ℕ) (lo : from ≤ index)
      (hi : index < from + count) where
    again_at :
        (k : ℕ) (row : Option R)
        → change
            (leb from k && ltb k (from + count))
            f
            (change (leb index k && ltb k (index + 1)) f row)
          ≡ change (leb from k && ltb k (from + count)) f row
    again_at k none = ground arith
    again_at k (some r) = ground (arith, idem r)

    pub in_range_again :
        (table : ℕ → Option R)
        → in_range from count f (in_range index 1 f table) ≡ in_range from count f table
    in_range_again table = fun_ext λ k. again_at k (table k)
