-- ===== src/Withdrawal/Graph/Linked.antt =====
-- The records that are loaded together belong together.
use psy_doge_solana_cli.Common.{
  ℕ, ◌+◌, ◌≤◌, ◌≡◌, sym, ap, ◌∙◌, subst, List, true, false, not, ◌||◌, ◌==◌, eqb, eqb→eq, length,
  All, some, ok, ok_or, map_err, map_err-ok, checked_sub, bail_if, >>=-ok, bail_if-ok,
  bail_if-not-ok, ok-same, ok_or-ok, arith,
}
use psy_doge_solana_cli.Withdrawal.Errors.{
  store_error, no_reservation, missing_reservation, no_process, no_transaction, no_txid,
  range_underflow, mappings_drifted,
}
use psy_doge_solana_cli.Withdrawal.Store.{
  CustodyReservation, SnapshotBatch, DogecoinTransaction, ProcessWithdrawal, Mapping,
}
use psy_doge_solana_cli.Withdrawal.Graph.{
  OperatorStore, PersistedWithdrawalGraph, same_batch, any_mapping_drifted, reservation_drifted,
  find_reservation, find_process, find_transaction, check_mappings, load_persisted_withdrawal_graph,
}
use psy_doge_solana_cli.Withdrawal.Graph.Tested.{IsHeld, AreMapped, mapped, same_facts, links}

module _ {S : Type 0} (store : OperatorStore S) (s : S) (batch : SnapshotBatch) where
  -- One mapping for each request, in order, to the transaction.
  abbrev pub OneEach : List ℕ → List Mapping → Type 0
  OneEach txid mappings =
      (store.mappings_by_process_signature s batch.solana_signature ≡ ok mappings)
      × (batch.request_start_index + length mappings ≡ batch.request_end_index)
      × AreMapped batch txid 0 mappings

  pub record IsLinked (graph : PersistedWithdrawalGraph) : Type 0 where
    pub id : List ℕ
    pub own : batch.reservation_id ≡ some id
    pub reservation : store.load_reservation s id ≡ ok (some graph.reservation)
    pub process :
        store.process_withdrawal_by_signature s batch.solana_signature ≡ ok (some graph.process)
    pub transaction :
        store.dogecoin_transaction_by_process_signature s batch.solana_signature
        ≡ ok (some graph.transaction)
    pub raw_hash : graph.transaction.raw_hash ≡ graph.process.dogecoin_raw_hash
    pub txid : List ℕ
    pub has_txid : graph.transaction.txid ≡ some txid
    pub same :
        (graph.process.solana_signature ≡ batch.solana_signature)
        × (graph.process.request_start_index ≡ batch.request_start_index)
        × (graph.process.request_end_index ≡ batch.request_end_index)
        × (graph.process.snapshot_root ≡ batch.snapshot_root)
    pub mappings : List Mapping
    pub one_each : OneEach txid mappings
    pub request : graph.reservation.request_index ≡ some batch.request_start_index
    pub signature : graph.reservation.process_solana_signature ≡ some batch.solana_signature
    pub some_utxo : 1 ≤ length graph.reservation.utxos
    pub held_all : All (IsHeld batch id) graph.reservation.utxos

  reservation_found :
      (id : List ℕ) (row : CustodyReservation)
      → find_reservation store s batch ≡ ok (id, row)
      → (batch.reservation_id ≡ some id) × (store.load_reservation s id ≡ ok (some row))
  unfolding find_reservation
  reservation_found id row e =
      let (id', own, e1) = >>=-ok (ok_or batch.reservation_id no_reservation) _ e in
      let (r, load, e2) = >>=-ok (map_err store_error (store.load_reservation s id')) _ e1 in
      let (row', is_row, e3) = >>=-ok (ok_or r missing_reservation) _ e2 in
      let same = ok-same e3 in
      (
        ok_or-ok batch.reservation_id no_reservation own ∙ ap (λ p. some p.0) same,
        ap (λ p. store.load_reservation s p.0) (sym same)
            ∙ map_err-ok store_error (store.load_reservation s id') load
            ∙ ap ok (ok_or-ok r missing_reservation is_row)
            ∙ ap (λ p. ok (some p.1)) same,
      )

  process_found :
      (row : ProcessWithdrawal)
      → find_process store s batch ≡ ok row
      → (store.process_withdrawal_by_signature s batch.solana_signature ≡ ok (some row))
        × (same_batch row batch ≡ true)
  unfolding find_process
  process_found row e =
      let (p, find, e1) =
        >>=-ok
          (map_err store_error (store.process_withdrawal_by_signature s batch.solana_signature)) _
          e in
      let (row', is_row, e2) = >>=-ok (ok_or p no_process) _ e1 in
      let (same, e3) = bail_if-not-ok (same_batch row' batch) _ _ e2 in
      (
        map_err-ok store_error (store.process_withdrawal_by_signature s batch.solana_signature) find
            ∙ ap ok (ok_or-ok p no_process is_row)
            ∙ ap (λ q. ok (some q)) (ok-same e3),
        subst (λ q. same_batch q batch ≡ true) (ok-same e3) same,
      )

  transaction_found :
      (process : ProcessWithdrawal) (row : DogecoinTransaction) (txid : List ℕ)
      → find_transaction store s batch process ≡ ok (row, txid)
      → (store.dogecoin_transaction_by_process_signature s batch.solana_signature ≡ ok (some row))
        × (row.raw_hash ≡ process.dogecoin_raw_hash)
        × (row.txid ≡ some txid)
  unfolding find_transaction
  transaction_found process row txid e =
      let (t, look, e1) =
        >>=-ok
          (map_err store_error
            (store.dogecoin_transaction_by_process_signature s batch.solana_signature))
          _ e in
      let (row', is_row, e2) = >>=-ok (ok_or t no_transaction) _ e1 in
      let (hash, e3) = bail_if-not-ok (eqb row'.raw_hash process.dogecoin_raw_hash) _ _ e2 in
      let (txid', has, e4) = >>=-ok (ok_or row'.txid no_txid) _ e3 in
      let same = ok-same e4 in
      (
        map_err-ok store_error
              (store.dogecoin_transaction_by_process_signature s batch.solana_signature) look
            ∙ ap ok (ok_or-ok t no_transaction is_row)
            ∙ ap (λ p. ok (some p.0)) same,
        ap (λ p. p.0.raw_hash) (sym same) ∙ eqb→eq row'.raw_hash process.dogecoin_raw_hash hash,
        ap (λ p. p.0.txid) (sym same) ∙ ok_or-ok row'.txid no_txid has ∙ ap (λ p. some p.1) same,
      )

  mappings_found :
      (txid : List ℕ)
      → check_mappings store s batch txid ≡ ok tt
      → (mappings : List Mapping) × OneEach txid mappings
  unfolding check_mappings
  mappings_found txid e =
      let (ms, found, e1) =
        >>=-ok (map_err store_error (store.mappings_by_process_signature s batch.solana_signature))
          _ e in
      let (count, counted, e2) =
        >>=-ok
          (ok_or (checked_sub batch.request_end_index batch.request_start_index) range_underflow) _
          e1 in
      let (aligned, all) = both ms count e2 in
      (
        ms,
        (
          map_err-ok store_error (store.mappings_by_process_signature s batch.solana_signature)
              found,
          sum count (length ms)
              (ok_or-ok (checked_sub batch.request_end_index batch.request_start_index)
                range_underflow counted)
              aligned,
          mapped batch txid 0 ms all,
        ),
      )
    where
      both :
          (ms : List Mapping) (count : ℕ)
          → bail_if
              (not (length ms == count) || any_mapping_drifted batch txid 0 ms)
              mappings_drifted
            ≡ ok tt
          → (length ms ≡ count) × (any_mapping_drifted batch txid 0 ms ≡ false)
      both ms count h = ground (arith, h)

      sum :
          (count l : ℕ)
          → checked_sub batch.request_end_index batch.request_start_index ≡ some count
          → l ≡ count
          → batch.request_start_index + l ≡ batch.request_end_index
      sum count l e same = ground (arith, e)

  -- A graph that is loaded is made of the rows that the store has for the batch: its reservation,
  -- its withdrawal, which has the batch's signature, range and root, and its transaction, which has
  -- the withdrawal's hash and an id; the store has one mapping for each request of the range, in
  -- order, to this transaction, and there is at least one reserved output, each held for the batch.
  pub load_persisted_withdrawal_graph-IsLinked :
      (graph : PersistedWithdrawalGraph)
      → load_persisted_withdrawal_graph store s batch ≡ ok graph
      → IsLinked graph
  unfolding load_persisted_withdrawal_graph
  load_persisted_withdrawal_graph-IsLinked graph e =
      let ((id, reservation), e_r, e1) = >>=-ok (find_reservation store s batch) _ e in
      let (process, e_p, e2) = >>=-ok (find_process store s batch) _ e1 in
      let ((transaction, txid), e_t, e3) = >>=-ok (find_transaction store s batch process) _ e2 in
      let (_, e_m, e4) = >>=-ok (check_mappings store s batch txid) _ e3 in
      let (e_l, e5) = bail_if-ok (reservation_drifted batch id reservation) _ _ e4 in
      let (own, load) = reservation_found id reservation e_r in
      let (find, same) = process_found process e_p in
      let (look, raw_hash, has_txid) = transaction_found process transaction txid e_t in
      let (mappings, one_each) = mappings_found txid e_m in
      let (request, signature, some_utxo, held_all) = links batch id reservation e_l in
      subst IsLinked (ok-same e5) (record {
        id = id;
        own = own;
        reservation = load;
        process = find;
        transaction = look;
        raw_hash = raw_hash;
        txid = txid;
        has_txid = has_txid;
        same = same_facts batch process same;
        mappings = mappings;
        one_each = one_each;
        request = request;
        signature = signature;
        some_utxo = some_utxo;
        held_all = held_all;
      })
