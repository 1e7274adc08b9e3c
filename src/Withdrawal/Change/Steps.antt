-- ===== src/Withdrawal/Change/Steps.antt =====
-- The change of a confirmed withdrawal, as facts.
use psy_doge_solana_cli.Common.{
  >>=-elim, ℕ, ◌+◌, ◌≡◌, refl, subst, List, map, slice, length, Bool, true, false, Bool-cases, inl,
  inr, not, ◌||◌, ◌==◌, ==→eq, eqb, eqb→eq, Option, none, some, Result, ok, bail_if, ok_or, map_err,
  map_err-ok, ok_or-ok, ◌>>◌, >>=-ok, bail_if-not-ok, ok-same, arith,
}
use psy_doge_solana_cli.Network.{DogeNetwork, encode_address}
use psy_doge_solana_cli.Wormhole.Utx0.{p2sh}
use psy_doge_solana_cli.Wormhole.Tx.{
  TransactionOutput, UnsignedTransaction, p2sh_script_pubkey, script_pub_key_for,
}
use psy_doge_solana_cli.Wormhole.Tx.Persisted.{from_persisted_bytes, parse_standard_output}
use psy_doge_solana_cli.Wormhole.Tx.Persisted.Outputs.{script_pub_key_for-parse_standard_output}
use psy_doge_solana_cli.Wormhole.Manager.Local.{type_eqb}
use psy_doge_solana_cli.Withdrawal.Errors.{
  Error, network_error, transaction_error, no_change_output, bad_change_script, no_unsigned,
  no_txid, unexpected_outputs, change_differs,
}
use psy_doge_solana_cli.Withdrawal.Confirmed.{ElectrsWithdrawalOutput, ConfirmedWithdrawal}
use psy_doge_solana_cli.Withdrawal.Store.{CustodyUtxo, SnapshotBatch}
use psy_doge_solana_cli.Withdrawal.Graph.{PersistedWithdrawalGraph}
use psy_doge_solana_cli.Withdrawal.Prepared.{Packages, no_recipient}
use psy_doge_solana_cli.Withdrawal.Change.{
  fits_word, last, is_p2sh_script, placeholder_input, check_prepared_change, shared_key_reference,
  confirmed_change, derive_confirmed_change,
}

read_p2sh :
    (script : List ℕ)
    → is_p2sh_script script ≡ true
    → parse_standard_output script ≡ ok (p2sh, slice 2 22 script)
unfolding is_p2sh_script parse_standard_output
read_p2sh script e = ground (arith, e)

-- A script that passes the test is the one that pays to the hash in it.
pub p2sh_script :
    (script : List ℕ)
    → is_p2sh_script script ≡ true
    → p2sh_script_pubkey (slice 2 22 script) ≡ script
unfolding script_pub_key_for
p2sh_script script e =
    (script_pub_key_for-parse_standard_output script p2sh (slice 2 22 script)
      (read_p2sh script e)).0

-- The output that the prepared transaction ends with, when it is the one that is confirmed.
pub check_prepared_change-ok :
    (batch : SnapshotBatch) (utxos : List CustodyUtxo) (output : ElectrsWithdrawalOutput)
    (script_hash : List ℕ)
    → check_prepared_change batch utxos output script_hash ≡ ok tt
    → (bytes : List ℕ) × (recovered : UnsignedTransaction) × (change : TransactionOutput)
      × (batch.unsigned_transaction ≡ some bytes)
      × (from_persisted_bytes bytes (map placeholder_input utxos) ≡ ok recovered)
      × (last recovered.logical_outputs ≡ some change)
      × (change.amount ≡ output.value)
      × (change.address ≡ script_hash)
unfolding check_prepared_change
check_prepared_change-ok batch utxos output script_hash e =
    let (bytes, has, e1) = >>=-ok (ok_or batch.unsigned_transaction no_unsigned) _ e in
    let (recovered, read, e2) =
      >>=-ok (map_err transaction_error (from_persisted_bytes bytes (map placeholder_input utxos)))
        _ e1 in
    let (change, ends, e3) =
      >>=-ok (ok_or (last recovered.logical_outputs) no_change_output) _ e2 in
    (
      bytes,
      recovered,
      change,
      ok_or-ok batch.unsigned_transaction no_unsigned has,
      map_err-ok transaction_error _ read,
      ok_or-ok (last recovered.logical_outputs) no_change_output ends,
      (same change e3).0,
      (same change e3).1,
    )
  where
    same :
        (change : TransactionOutput)
        → bail_if
            (not (change.amount == output.value)
              || (not (type_eqb change.address_type p2sh) || not (eqb change.address script_hash)))
            change_differs
          ≡ ok tt
        → (change.amount ≡ output.value) × (change.address ≡ script_hash)
    same change h = ground (arith, h, eqb→eq change.address script_hash)

module _ (packages : Packages) (decode_hex : List ℕ → Option (List ℕ))
    (compute_combined_index : ℕ → ℕ → ℕ → ℕ) (network : DogeNetwork) (batch : SnapshotBatch)
    (graph : PersistedWithdrawalGraph) (count : ℕ) (confirmed : ConfirmedWithdrawal) where
  -- What is known of the change.
  pub record IsChange (utxo : CustodyUtxo) : Type 0 where
    pub not_zero : (graph.process.return_output_amount_sats == 0) ≡ false
    pub output : ElectrsWithdrawalOutput
    pub amount : utxo.amount_sats ≡ output.value
    pub value : output.value ≡ graph.process.return_output_amount_sats
    pub script : List ℕ
    pub is_p2sh : is_p2sh_script script ≡ true
    pub hex : utxo.script_pubkey_hex ≡ packages.encode_hex script
    pub address :
        encode_address packages.base58_check network 1 (slice 2 22 script) ≡ ok utxo.custody_address
    pub checked :
        check_prepared_change batch graph.reservation.utxos output (slice 2 22 script) ≡ ok tt
    pub recipient : utxo.original_recipient_address ≡ no_recipient

  confirmed_change-IsChange :
      (utxo : CustodyUtxo)
      → (graph.process.return_output_amount_sats == 0) ≡ false
      → confirmed_change packages decode_hex compute_combined_index network batch graph count
          confirmed
        ≡ ok utxo
      → IsChange utxo
  unfolding confirmed_change
  confirmed_change-IsChange utxo not_zero e =
      let (expected_vout, _, e1) = >>=-ok (fits_word 32 count) _ e in
      let (_, e2) = bail_if-not-ok (graph.process.return_output_index == expected_vout) _ _ e1 in
      let (_, e3) = bail_if-not-ok (length confirmed.transaction.vout == count + 1) _ _ e2 in
      let (output, _, e4) =
        >>=-ok (ok_or (last confirmed.transaction.vout) no_change_output) _ e3 in
      let (value, e5) =
        bail_if-not-ok (output.value == graph.process.return_output_amount_sats) _ _ e4 in
      let (script, _, e6) =
        >>=-ok (ok_or (decode_hex output.scriptpubkey) bad_change_script) _ e5 in
      let (is_p2sh, e7) = bail_if-not-ok (is_p2sh_script script) _ _ e6 in
      let (_, checked, e8) =
        >>=-ok (check_prepared_change batch graph.reservation.utxos output (slice 2 22 script)) _
          e7 in
      let (_, _, e9) = >>=-ok (shared_key_reference graph.reservation.utxos) _ e8 in
      let (_, _, e10) = >>=-ok (fits_word 16 expected_vout) _ e9 in
      let (_, _, e11) = >>=-ok (ok_or graph.transaction.txid no_txid) _ e10 in
      let (address, encoded, e12) =
        >>=-ok
          (map_err network_error
            (encode_address packages.base58_check network 1 (slice 2 22 script)))
          _ e11 in
      subst IsChange (ok-same e12) (record {
        not_zero = not_zero;
        output = output;
        amount = refl;
        value = ==→eq output.value graph.process.return_output_amount_sats value;
        script = script;
        is_p2sh = is_p2sh;
        hex = refl;
        address = map_err-ok network_error _ encoded;
        checked = checked;
        recipient = refl;
      })

  pub derive_confirmed_change-IsChange :
      (utxo : CustodyUtxo)
      → derive_confirmed_change packages decode_hex compute_combined_index network batch graph count
          confirmed
        ≡ ok (some utxo)
      → IsChange utxo
  unfolding derive_confirmed_change confirmed_change
  derive_confirmed_change-IsChange utxo e =
      elim (Bool-cases (graph.process.return_output_amount_sats == 0)) [
        | inl zero ↦
            absurd (no_change (length confirmed.transaction.vout == count) utxo (rw zero at e))
        | inr not_zero ↦
            let (change, made, same) =
              >>=-ok
                (confirmed_change packages decode_hex compute_combined_index network batch graph
                  count confirmed)
                _ (rw not_zero at e) in
            subst IsChange (some-same (ok-same same))
              (confirmed_change-IsChange change not_zero made)
      ]
    where
      some-same : {a b : CustodyUtxo} → ◌≡◌ {A = Option CustodyUtxo} (some a) (some b) → a ≡ b
      some-same p = cc

      no_change :
          (test : Bool) (utxo : CustodyUtxo)
          → ◌≡◌ {A = Result Error (Option CustodyUtxo)}
              (bail_if (not test) unexpected_outputs >> ok none)
              (ok (some utxo))
          → ⊥
      no_change true utxo h = cc
      no_change false utxo h = cc

  pub derive_confirmed_change-none :
      derive_confirmed_change packages decode_hex compute_combined_index network batch graph count
          confirmed
        ≡ ok none
      → (graph.process.return_output_amount_sats ≡ 0) × (length confirmed.transaction.vout ≡ count)
  unfolding derive_confirmed_change
  derive_confirmed_change-none e =
      elim (Bool-cases (graph.process.return_output_amount_sats == 0)) [
        | inl zero ↦
            let (same, _) =
              bail_if-not-ok (length confirmed.transaction.vout == count) _ _ (rw zero at e) in
            (
              ==→eq graph.process.return_output_amount_sats 0 zero,
              ==→eq (length confirmed.transaction.vout) count same,
            )
        | inr not_zero ↦
            >>=-elim
              (confirmed_change packages decode_hex compute_combined_index network batch graph count
                confirmed)
              _ (rw not_zero at e) λ change made same. absurd (no_none change same)
      ]
    where
      no_none :
          (utxo : CustodyUtxo)
          → ◌≡◌ {A = Result Error (Option CustodyUtxo)} (ok (some utxo)) (ok none)
          → ⊥
      no_none utxo h = cc
