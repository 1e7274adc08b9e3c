-- ===== src/Withdrawal/Change/Recovered.antt =====
-- The prepared bytes hold the prepared outputs, whatever scripts their inputs are read with.
use psy_doge_solana_cli.Common.{
  ℕ, ◌^◌, ◌<◌, ◌≤◌, ◌≡◌, refl, sym, ap, ◌∙◌, subst, List, [], ◌∷◌, ◌++◌, map, reverse-reverse, suc,
  length-collect, length, length-reverse, length-append, All, All-append, Option, ok, collect,
  collect-step, ok-same, arith,
}
use psy_doge_solana_cli.Wormhole.Utx0.{Utx0UnlockPayload}
use psy_doge_solana_cli.Wormhole.Tx.{
  SelectedUtxo, TransactionOutput, UnsignedTransaction, unsigned_input, wire_output, new, serialize,
}
use psy_doge_solana_cli.Wormhole.Tx.Wire.{serialize_transaction}
use psy_doge_solana_cli.Wormhole.Tx.Persisted.{from_persisted_bytes}
use psy_doge_solana_cli.Wormhole.Tx.Persisted.RoundTrip.{
  IsTypedInput, IsTypedOutput, from_persisted_bytes-serialize,
}
use psy_doge_solana_cli.Wormhole.Manager.Set.{ManagerSet}
use psy_doge_solana_cli.Withdrawal.Store.{CustodyUtxo, CustodyReservation}
use psy_doge_solana_cli.Withdrawal.Prepared.{
  Packages, Args, PreparedTransaction, reserved_input, payload_output, change_output,
}
use psy_doge_solana_cli.Withdrawal.Prepared.Conserves.{reserved_input-Spends}
use psy_doge_solana_cli.Withdrawal.Change.{placeholder_input}
use psy_doge_solana_cli.Withdrawal.Prepared.Steps.{Steps}
use psy_doge_solana_cli.Withdrawal.Prepared.Conserves.{new-outputs, build_or_recover-new}
use psy_doge_solana_cli.Withdrawal.Prepared.Again.{
  IsTypedUtxo, IsTypedPayment, payments_typed, change_typed, length-payments, new-filled,
}
use psy_doge_solana_cli.Withdrawal.Plan.Conserves.{change_sats_fit}

-- The bytes of a new transaction do not depend on the redeem scripts.
new-serialize :
    (inputs : List SelectedUtxo) (outputs : List TransactionOutput) (tx : UnsignedTransaction)
    → new inputs outputs ≡ ok tx
    → serialize tx ≡ serialize_transaction 1 (map unsigned_input inputs) (map wire_output outputs) 0
unfolding new serialize
new-serialize [] outputs tx e = cc
new-serialize (i ∷ is) [] tx e = cc
new-serialize (i ∷ is) (o ∷ os) tx e =
    ap (λ t. serialize_transaction t.version t.inputs t.outputs t.locktime) (sym (ok-same e))

-- The inputs of a prepared transaction, on the wire, are those of the reserved outputs.
module _ (packages : Packages) (args : Args) (emitter : List ℕ) (manager_set : ManagerSet) where
  same_inputs :
      (utxos : List CustodyUtxo) (inputs : List SelectedUtxo)
      → collect (reserved_input packages args.doge_network emitter manager_set) utxos ≡ ok inputs
      → map unsigned_input (map placeholder_input utxos) ≡ map unsigned_input inputs
  unfolding collect placeholder_input
  same_inputs [] inputs e = ap (map unsigned_input) (ok-same e)
  same_inputs (u ∷ us) inputs e =
      let (input, rest, first, others, shape) =
        collect-step (reserved_input packages args.doge_network emitter manager_set) u us inputs
          e in
      let spends = reserved_input-Spends packages args emitter manager_set u input first in
      let txid = reverse-reverse u.txid ∙ sym spends.same_txid in
      let later = same_inputs us rest others in
      (λ i.
        record {
          prev_txid_le = txid i;
          vout = sym spends.same_vout i;
          script_sig = [];
          sequence = 0xffff_ffff;
        }
        ∷ later i)
      ∙ ap (map unsigned_input) shape

placeholders_typed :
    (utxos : List CustodyUtxo)
    → All IsTypedUtxo utxos
    → All IsTypedInput (map placeholder_input utxos)
unfolding placeholder_input
placeholders_typed [] h = tt
placeholders_typed (u ∷ us) h = (
  record { id_length = length-reverse u.txid ∙ h.0.0; vout_fits = h.0.1 },
  placeholders_typed us h.1,
)

length-placeholders :
    (utxos : List CustodyUtxo) → length (map placeholder_input utxos) ≡ length utxos
length-placeholders [] = refl
length-placeholders (u ∷ us) = ap suc (length-placeholders us)

module _ (packages : Packages) (args : Args) (emitter : List ℕ) (payload : Utx0UnlockPayload)
    (manager_set : ManagerSet) (reservation : CustodyReservation)
    (sized : (bytes : List ℕ) → length (packages.ripemd160 bytes) ≡ 20)
    (typed_utxos : All IsTypedUtxo reservation.utxos)
    (typed_payments : All IsTypedPayment payload.outputs)
    (selected_fits : reservation.selected_amount_sats < 2 ^ 64)
    (few_utxos : length reservation.utxos ≤ 1_000) (few_payments : length payload.outputs < 320)
    (persisted : Option (List ℕ)) (p : PreparedTransaction)
    (s : Steps packages args emitter payload manager_set reservation persisted p) where
  abbrev pub all_outputs : List TransactionOutput
  all_outputs =
      map payload_output payload.outputs ++ change_output p.plan.change_sats p.change_script_hash

  -- The prepared bytes hold the same outputs, whatever scripts the inputs are read with.
  pub recovered-outputs :
      (recovered : UnsignedTransaction)
      → from_persisted_bytes p.unsigned_bytes (map placeholder_input reservation.utxos)
        ≡ ok recovered
      → recovered.logical_outputs ≡ all_outputs
  recovered-outputs recovered e =
      let inputs = map placeholder_input reservation.utxos in
      let (made, _) = build_or_recover-new persisted s.inputs all_outputs p.transaction s.made in
      let (filled_in, filled_out) = new-filled s.inputs all_outputs p.transaction made in
      let (change_fits, one) =
        change_typed packages args emitter manager_set sized p.plan.change_sats p.change_script_hash
          (change_sats_fit reservation.selected_amount_sats s.total args.fee_sats
            args.dust_threshold_sats p.plan s.planned selected_fits)
          s.hashed in
      let (tx, built, back) =
        from_persisted_bytes-serialize inputs all_outputs
          (placeholders_typed reservation.utxos typed_utxos)
          (All-append IsTypedOutput (map payload_output payload.outputs)
            (change_output p.plan.change_sats p.change_script_hash)
            (payments_typed payload.outputs typed_payments) change_fits)
          (omega (
            arith,
            filled_in,
            length-placeholders reservation.utxos,
            length-collect (reserved_input packages args.doge_network emitter manager_set)
                reservation.utxos s.inputs s.collected,
          ))
          filled_out (omega (arith, few_utxos, length-placeholders reservation.utxos))
          (omega (
            arith,
            length-append (map payload_output payload.outputs)
                (change_output p.plan.change_sats p.change_script_hash),
            length-payments payload.outputs,
            one,
            few_payments,
          )) in
      let same_bytes : serialize tx ≡ p.unsigned_bytes =
        new-serialize inputs all_outputs tx built
        ∙ ap (λ l. serialize_transaction 1 l (map wire_output all_outputs) 0)
            (same_inputs packages args emitter manager_set reservation.utxos s.inputs s.collected)
        ∙ sym (new-serialize s.inputs all_outputs p.transaction made)
        ∙ s.bytes in
      let same : recovered ≡ tx =
        ok-same (sym e ∙ subst (λ b. from_persisted_bytes b inputs ≡ ok tx) same_bytes back) in
      ap (λ t. t.logical_outputs) same ∙ new-outputs inputs all_outputs tx built
