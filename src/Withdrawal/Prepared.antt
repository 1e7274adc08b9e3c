-- ===== src/Withdrawal/Prepared.antt =====
-- `prepared_from_reservation` of doge/src/commands/process_withdrawal.rs: the transaction of a
-- payload and a reservation, built anew or recovered from its bytes.
--
-- SHA-256, RIPEMD-160, Base58 with its checksum and the hexadecimal text are parameters.
pub mod Steps
pub mod Conserves
pub mod Again
use psy_doge_solana_cli.Common.{
  ℕ, zero, suc, List, [], ◌∷◌, ◌++◌, map, reverse, Bool, true, false, not, ◌&&◌, ◌||◌, ◌==◌, eqb,
  if◌then◌else◌, Option, none, some, Result, ok, err, bail_if, ok_or, map_err, collect, checked_add,
  ◌>>=◌, ◌>>◌,
}
use psy_doge_solana_cli.Custody.{zero_bytes}
use psy_doge_solana_cli.Network.{DogeNetwork, encode_address}
use psy_doge_solana_cli.Wormhole.Utx0.{p2sh, Utx0Output, Utx0UnlockPayload}
use psy_doge_solana_cli.Wormhole.Redeem.{build_redeem_script}
use psy_doge_solana_cli.Wormhole.Tx as Transaction
use psy_doge_solana_cli.Wormhole.Tx.{
  SelectedUtxo, TransactionOutput, UnsignedTransaction, is_empty, p2sh_script_pubkey,
}
use psy_doge_solana_cli.Wormhole.Tx.Persisted.{from_persisted_bytes}
use psy_doge_solana_cli.Wormhole.Manager.Set.{ManagerSet}
use psy_doge_solana_cli.Wormhole.Manager.Local.{type_eqb}
use psy_doge_solana_cli.Withdrawal.Errors.{
  Error, transaction_error, redeem_error, network_error, amount_overflow, required_overflow,
  wrong_required, foreign_address, foreign_script, unequal_outputs, drifted_bytes,
}
use psy_doge_solana_cli.Withdrawal.Approval.{solana_emitter_chain}
use psy_doge_solana_cli.Withdrawal.Plan.{CustodyTransactionPlan, plan_custody_transaction}
use psy_doge_solana_cli.Common.{eq_ignore_ascii_case}
use psy_doge_solana_cli.Withdrawal.Store.{CustodyUtxo, CustodyReservation}

-- The functions of other packages that the preparation calls.
pub record Packages : Type 0 where
  pub sha256 : List ℕ → List ℕ
  pub ripemd160 : List ℕ → List ℕ
  pub base58_check : List ℕ → List ℕ
  pub encode_hex : List ℕ → List ℕ

-- The arguments that it reads.
pub record Args : Type 0 where
  pub doge_network : DogeNetwork
  pub fee_sats : ℕ
  pub dust_threshold_sats : ℕ

pub record PreparedTransaction : Type 0 where
  pub transaction : UnsignedTransaction
  pub unsigned_bytes : List ℕ
  pub selected_utxos : List CustodyUtxo
  pub selected_sats : ℕ
  pub plan : CustodyTransactionPlan
  pub change_script_hash : Option (List ℕ)
  pub reservation_id : List ℕ

unfoldable pub hash160 : Packages → List ℕ → List ℕ
hash160 packages bytes = packages.ripemd160 (packages.sha256 bytes)

-- `try_fold` over the outputs, from `sum` on.
unfoldable pub total_from : ℕ → List Utx0Output → Result Error ℕ
total_from sum [] = ok sum
total_from sum (output ∷ outputs) = do
  sum ← ok_or (checked_add 64 sum output.amount) amount_overflow
  total_from sum outputs

-- The closure over the reserved outputs.
unfoldable pub reserved_input :
    Packages → DogeNetwork → List ℕ → ManagerSet → CustodyUtxo → Result Error SelectedUtxo
unfolding hash160
reserved_input packages network emitter manager_set utxo = do
  redeem_script ← map_err redeem_error (
      build_redeem_script solana_emitter_chain emitter utxo.original_recipient_address manager_set.m
        manager_set.pubkeys)
  let script_hash = hash160 packages redeem_script
  expected_address ←
      map_err network_error (encode_address packages.base58_check network 1 script_hash)
  bail_if (not (eqb expected_address utxo.custody_address)) (foreign_address utxo.vout)
  bail_if
      (not (is_empty utxo.script_pubkey_hex)
        && not (
            eq_ignore_ascii_case utxo.script_pubkey_hex
              (packages.encode_hex (p2sh_script_pubkey script_hash))))
      (foreign_script utxo.vout)
  ok (record {
    transaction_id = reverse utxo.txid;
    vout = utxo.vout;
    redeem_script = redeem_script;
  })

unfoldable pub payload_output : Utx0Output → TransactionOutput
payload_output output = record {
  amount = output.amount;
  address_type = output.address_type;
  address = output.address;
}

-- `[0; 32]`
abbrev pub no_recipient : List ℕ
unfolding zero_bytes
no_recipient = zero_bytes 32

-- The script hash that the change is paid to, for a change that is not 0.
unfoldable pub change_hash : Packages → List ℕ → ManagerSet → ℕ → Result Error (Option (List ℕ))
unfolding hash160
change_hash packages emitter manager_set change_sats = if change_sats == 0 then ok none else do
  redeem_script ← map_err redeem_error (
      build_redeem_script solana_emitter_chain emitter no_recipient manager_set.m
        manager_set.pubkeys)
  ok (some (hash160 packages redeem_script))

unfoldable pub change_output : ℕ → Option (List ℕ) → List TransactionOutput
change_output change_sats none = []
change_output change_sats (some script_hash) =
    record { amount = change_sats; address_type = p2sh; address = script_hash } ∷ []

-- The derived `==` of `TransactionOutput`.
unfoldable pub transaction_outputs_eqb : List TransactionOutput → List TransactionOutput → Bool
unfolding type_eqb
transaction_outputs_eqb [] [] = true
transaction_outputs_eqb (a ∷ os) (b ∷ ps) =
    (a.amount == b.amount && (type_eqb a.address_type b.address_type && eqb a.address b.address))
    && transaction_outputs_eqb os ps
transaction_outputs_eqb _ _ = false

unfoldable pub build_or_recover :
    Option (List ℕ) → List SelectedUtxo → List TransactionOutput → Result Error UnsignedTransaction
build_or_recover none selected_inputs transaction_outputs =
    map_err transaction_error (Transaction.new selected_inputs transaction_outputs)
build_or_recover (some bytes) selected_inputs transaction_outputs = do
  recovered ← map_err transaction_error (from_persisted_bytes bytes selected_inputs)
  bail_if (not (transaction_outputs_eqb recovered.logical_outputs transaction_outputs))
      unequal_outputs
  ok recovered

-- `persisted.is_some_and(|bytes| bytes != unsigned_bytes)`
unfoldable pub differs : Option (List ℕ) → List ℕ → Bool
differs none unsigned_bytes = false
differs (some bytes) unsigned_bytes = not (eqb bytes unsigned_bytes)

unfoldable pub prepared_from_reservation :
    Packages
    → Args
    → List ℕ
    → Utx0UnlockPayload
    → ManagerSet
    → CustodyReservation
    → Option (List ℕ)
    → Result Error PreparedTransaction
prepared_from_reservation packages args emitter payload manager_set reservation persisted_unsigned =
    do
      withdrawal_sats ← total_from 0 payload.outputs
      required_sats ← ok_or (checked_add 64 withdrawal_sats args.fee_sats) required_overflow
      bail_if (not (reservation.required_amount_sats == required_sats))
          (wrong_required reservation.required_amount_sats required_sats)
      let selected_sats = reservation.selected_amount_sats
      plan ←
          plan_custody_transaction selected_sats withdrawal_sats args.fee_sats
            args.dust_threshold_sats
      selected_inputs ←
          collect (reserved_input packages args.doge_network emitter manager_set) reservation.utxos
      change_script_hash ← change_hash packages emitter manager_set plan.change_sats
      let transaction_outputs =
          map payload_output payload.outputs ++ change_output plan.change_sats change_script_hash
      transaction ← build_or_recover persisted_unsigned selected_inputs transaction_outputs
      let unsigned_bytes = Transaction.serialize transaction
      bail_if (differs persisted_unsigned unsigned_bytes) drifted_bytes
      ok (record {
        transaction = transaction;
        unsigned_bytes = unsigned_bytes;
        selected_utxos = reservation.utxos;
        selected_sats = selected_sats;
        plan = plan;
        change_script_hash = change_script_hash;
        reservation_id = reservation.reservation_id;
      })
