-- ===== src/Examples/Memory.antt =====
-- An operator's store in memory, whose operations fail where a script says so.
use psy_doge_solana_cli.Common.{
  ℕ, ◌≡◌, refl, sym, ap, ◌∙◌, List, [], ◌∷◌, map, Bool, true, false, eqb, eqb→eq, if◌then◌else◌,
  Option, none, some, Result, ok, err, leb, ◌&&◌, Bool-cases, inl, inr,
}
use psy_doge_solana_cli.Withdrawal.Store.{
  CustodyReservationStatus, CustodyUtxoStatus, CustodyUtxo, CustodyReservation, DogecoinTransaction,
  Mapping,
}
use psy_doge_solana_cli.Withdrawal.Graph.{OperatorStore}
use psy_doge_solana_cli.Withdrawal.Transition.Rows.{
  Rows, Works, everywhere, at_key, in_range, with_hash, written,
}

-- The next write fails if the first of `fails` says so.
pub record Memory : Type 0 where
  pub rows : Rows
  pub mappings : List Mapping
  pub fails : List Bool

abbrev pub write : (Rows → Rows) → Memory → List Bool → Memory × Result (List ℕ) (Unit {0})
write f m [] = (record m { rows = f m.rows }, ok tt)
write f m (false ∷ rest) = (record m { rows = f m.rows; fails = rest }, ok tt)
write f m (true ∷ rest) = (record m { fails = rest }, err [])

abbrev pub marked : List ℕ → CustodyReservation → CustodyReservation
marked txid row = record row {
  status = CustodyReservationStatus.broadcast;
  spend_txid = some txid;
  utxos =
      map {A = CustodyUtxo}
        (λ utxo. record utxo { status = CustodyUtxoStatus.broadcast; spend_txid = some txid })
        row.utxos;
}

abbrev named : List ℕ → Option CustodyReservation → Option CustodyReservation
named id none = none
named id (some row) = if eqb row.reservation_id id then some row else none

abbrev pub memory : OperatorStore Memory
memory = record {
  load_reservation = λ m id. ok (named id (m.rows.reservation id));
  process_withdrawal_by_signature = λ m signature. ok (m.rows.process signature);
  dogecoin_transaction_by_process_signature = λ m signature. ok (m.rows.transaction signature);
  mappings_by_process_signature = λ m signature. ok m.mappings;
  withdrawal_request_by_index = λ m index. ok (m.rows.request index);
  mark_reservation_broadcast = λ m id txid.
      write (λ rows. record rows { reservation = at_key id (marked txid) rows.reservation }) m
        m.fails;
  release_reservation = λ m id.
      write
        (λ rows. record rows {
          reservation =
              at_key id (λ row. record row { status = CustodyReservationStatus.released })
                rows.reservation;
        })
        m m.fails;
  set_dogecoin_transaction_status_by_raw_hash = λ m raw_hash status.
      write
        (λ rows. record rows {
          transaction = everywhere (with_hash raw_hash status) rows.transaction;
        })
        m m.fails;
  set_process_withdrawal_status = λ m signature status.
      write
        (λ rows. record rows {
          process = at_key signature (λ row. record row { status = status }) rows.process;
        })
        m m.fails;
  set_withdrawal_request_status = λ m index status.
      write
        (λ rows. record rows {
          request = in_range index 1 (λ row. record row { status = status }) rows.request;
        })
        m m.fails;
  set_snapshot_batch_status = λ m signature status.
      write
        (λ rows. record rows {
          batch = at_key signature (λ row. record row { status = status }) rows.batch;
        })
        m m.fails;
  snapshot_batch_by_signature = λ m signature. ok (m.rows.batch signature);
  persist_signed_snapshot = λ m signature id transaction process.
      write
        (λ rows. record rows {
          transaction = λ key. if eqb key signature then some transaction else rows.transaction key;
          process = λ key. if eqb key signature then some process else rows.process key;
        })
        m m.fails;
  finalize_confirmed_snapshot = λ m signature transaction change.
      write
        (λ rows. record rows {
          transaction = λ key. if eqb key signature then some transaction else rows.transaction key;
        })
        m m.fails;
  upsert_withdrawal_request = λ m row.
      write
        (λ rows. record rows {
          request = λ k.
              if (leb k row.request_index && leb row.request_index k)
              then some row
              else rows.request k;
        })
        m m.fails;
}

write_lem :
    (f : Rows → Rows) (m : Memory) (fails : List Bool)
    → (write f m fails).0.rows ≡ written (write f m fails).1 (f m.rows) m.rows
write_lem f m [] = refl
write_lem f m (false ∷ rest) = refl
write_lem f m (true ∷ rest) = refl

pub named_lem :
    (id : List ℕ) (found : Option CustodyReservation) (row : CustodyReservation)
    → ◌≡◌ {A = Result (List ℕ) (Option CustodyReservation)} (ok (named id found)) (ok (some row))
    → (found ≡ some row) × (row.reservation_id ≡ id)
named_lem id none row e = cc
named_lem id (some own) row e = elim (Bool-cases (eqb own.reservation_id id)) [
  | inl same ↦
      let kept : own ≡ row = value own row (rw same at e) in
      (ap some kept, ap (λ r. r.reservation_id) (sym kept) ∙ eqb→eq own.reservation_id id same)
  | inr other ↦ absurd (nothing row (rw other at e))
]
  where
    value :
        (a b : CustodyReservation)
        → ◌≡◌ {A = Result (List ℕ) (Option CustodyReservation)} (ok (some a)) (ok (some b))
        → a ≡ b
    value a b h = cc

    nothing :
        (b : CustodyReservation)
        → ◌≡◌ {A = Result (List ℕ) (Option CustodyReservation)} (ok none) (ok (some b))
        → ⊥
    nothing b h = cc

pub memory-Works : Works memory (λ m. m.rows) marked
memory-Works = record {
  marked_status = λ txid row. refl;
  loads = λ m id row e. named_lem id (m.rows.reservation id) row e;
  finds = λ m signature row e. ok-value (m.rows.transaction signature) (some row) e;
  marks = λ m id txid.
      write_lem (λ rows. record rows { reservation = at_key id (marked txid) rows.reservation }) m
        m.fails;
  sets_transaction = λ m raw_hash status.
      write_lem
        (λ rows. record rows {
          transaction = everywhere (with_hash raw_hash status) rows.transaction;
        })
        m m.fails;
  sets_process = λ m signature status.
      write_lem
        (λ rows. record rows {
          process = at_key signature (λ row. record row { status = status }) rows.process;
        })
        m m.fails;
  sets_request = λ m index status.
      write_lem
        (λ rows. record rows {
          request = in_range index 1 (λ row. record row { status = status }) rows.request;
        })
        m m.fails;
  sets_batch = λ m signature status.
      write_lem
        (λ rows. record rows {
          batch = at_key signature (λ row. record row { status = status }) rows.batch;
        })
        m m.fails;
}
  where
    ok-value :
        (a b : Option DogecoinTransaction)
        → ◌≡◌ {A = Result (List ℕ) (Option DogecoinTransaction)} (ok a) (ok b)
        → a ≡ b
    ok-value a b e = cc
