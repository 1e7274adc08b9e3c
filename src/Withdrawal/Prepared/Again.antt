-- ===== src/Withdrawal/Prepared/Again.antt =====
-- Preparing again from the persisted bytes.
use psy_doge_solana_cli.Common.{
  ℕ, ◌^◌, ◌<◌, ◌≤◌, ◌≡◌, refl, sym, ap, ◌∙◌, subst, List, [], ◌∷◌, ◌++◌, map, true, Bool-cases, inl,
  inr, ok->>=, false-bail_if, not, ◌==◌, eqb, eqb_refl, length, length-append, length-reverse,
  length-collect, All, All-append, Option, none, some, Result, ok, map_err, map_err-ok, collect,
  collect-step, >>=-ok, ok-same, arith,
}
use psy_doge_solana_cli.Wormhole.Utx0.{UtxoAddressType, p2pkh, p2sh, Utx0Output, Utx0UnlockPayload}
use psy_doge_solana_cli.Wormhole.Tx.{
  SelectedUtxo, TransactionOutput, UnsignedTransaction, new, serialize,
}
use psy_doge_solana_cli.Wormhole.Tx.Persisted.{from_persisted_bytes}
use psy_doge_solana_cli.Wormhole.Tx.Persisted.RoundTrip.{
  IsTypedInput, IsTypedOutput, from_persisted_bytes-serialize,
}
use psy_doge_solana_cli.Wormhole.Manager.Set.{ManagerSet}
use psy_doge_solana_cli.Wormhole.Manager.Local.{type_eqb}
use psy_doge_solana_cli.Withdrawal.Errors.{Error, redeem_error, transaction_error}
use psy_doge_solana_cli.Wormhole.Redeem.{build_redeem_script}
use psy_doge_solana_cli.Withdrawal.Plan.Conserves.{change_sats_fit}
use psy_doge_solana_cli.Withdrawal.Store.{CustodyUtxo, CustodyReservation}
use psy_doge_solana_cli.Withdrawal.Prepared.Steps.{
  prepared_from_reservation-Steps, Steps-prepared_from_reservation,
}
use psy_doge_solana_cli.Withdrawal.Prepared.{
  Packages, Args, PreparedTransaction, hash160, no_recipient, reserved_input, payload_output,
  change_hash, change_output, transaction_outputs_eqb, build_or_recover, differs,
  prepared_from_reservation,
}
use psy_doge_solana_cli.Withdrawal.Prepared.Conserves.{reserved_input-Spends, build_or_recover-new}

-- The sizes of the source's types.
abbrev pub IsTypedUtxo : CustodyUtxo → Type 0
IsTypedUtxo utxo = (length utxo.txid ≡ 32) × (utxo.vout < 2 ^ 32)

abbrev pub IsTypedPayment : Utx0Output → Type 0
IsTypedPayment output = (output.amount < 2 ^ 64) × (length output.address ≡ 20)

type_eqb_refl : (t : UtxoAddressType) → type_eqb t t ≡ true
unfolding type_eqb
type_eqb_refl p2pkh = refl
type_eqb_refl p2sh = refl

outputs_eqb_refl : (os : List TransactionOutput) → transaction_outputs_eqb os os ≡ true
unfolding transaction_outputs_eqb
outputs_eqb_refl [] = refl
outputs_eqb_refl (o ∷ os) =
    ground (arith, type_eqb_refl o.address_type, eqb_refl o.address, outputs_eqb_refl os)

pub length-payments : (os : List Utx0Output) → length (map payload_output os) ≡ length os
length-payments [] = refl
length-payments (o ∷ os) = omega (arith, length-payments os)

pub payments_typed :
    (os : List Utx0Output) → All IsTypedPayment os → All IsTypedOutput (map payload_output os)
unfolding payload_output
payments_typed [] h = tt
payments_typed (o ∷ os) h =
    (record { amount_fits = h.0.0; address_length = h.0.1 }, payments_typed os h.1)

pub new-filled :
    (inputs : List SelectedUtxo) (outputs : List TransactionOutput) (tx : UnsignedTransaction)
    → new inputs outputs ≡ ok tx
    → (1 ≤ length inputs) × (1 ≤ length outputs)
unfolding new
new-filled [] outputs tx e = cc
new-filled (i ∷ is) [] tx e = cc
new-filled (i ∷ is) (o ∷ os) tx e = omega arith

recovered :
    (inputs : List SelectedUtxo) (outputs : List TransactionOutput) (tx : UnsignedTransaction)
    → All IsTypedInput inputs
    → All IsTypedOutput outputs
    → length inputs ≤ 1_000
    → length outputs ≤ 320
    → build_or_recover none inputs outputs ≡ ok tx
    → build_or_recover (some (serialize tx)) inputs outputs ≡ ok tx
unfolding build_or_recover
recovered inputs outputs tx hi ho fi fo e =
    let made = map_err-ok transaction_error (new inputs outputs) e in
    let (filled_in, filled_out) = new-filled inputs outputs tx made in
    let (again, built, back) =
      from_persisted_bytes-serialize inputs outputs hi ho filled_in filled_out fi fo in
    let (_, outputs_same) = build_or_recover-new none inputs outputs tx e in
    let same : again ≡ tx = ok-same (sym built ∙ made) in
    ok->>= (map_err transaction_error (from_persisted_bytes (serialize tx) inputs)) _
      (ap (map_err transaction_error)
        (subst (λ t. from_persisted_bytes (serialize t) inputs ≡ ok t) same back))
      (false-bail_if (not (transaction_outputs_eqb tx.logical_outputs outputs)) _ _
        (ap not (
          subst (λ os. transaction_outputs_eqb tx.logical_outputs os ≡ true) outputs_same
            (outputs_eqb_refl tx.logical_outputs)))
        refl)

module _ (packages : Packages) (args : Args) (emitter : List ℕ) (manager_set : ManagerSet) where
  input_typed :
      (utxo : CustodyUtxo) (input : SelectedUtxo)
      → IsTypedUtxo utxo
      → reserved_input packages args.doge_network emitter manager_set utxo ≡ ok input
      → IsTypedInput input
  input_typed utxo input t e =
      let spends = reserved_input-Spends packages args emitter manager_set utxo input e in
      record {
        id_length = sym (length-reverse input.transaction_id) ∙ ap length spends.same_txid ∙ t.0;
        vout_fits = subst (λ v. v < 2 ^ 32) (sym spends.same_vout) t.1;
      }

  inputs_typed :
      (utxos : List CustodyUtxo) (inputs : List SelectedUtxo)
      → All IsTypedUtxo utxos
      → collect (reserved_input packages args.doge_network emitter manager_set) utxos ≡ ok inputs
      → All IsTypedInput inputs
  unfolding collect
  inputs_typed [] inputs t e = subst (All IsTypedInput) (ok-same e) tt
  inputs_typed (u ∷ us) inputs t e =
      let (input, rest, first, others, shape) =
        collect-step (reserved_input packages args.doge_network emitter manager_set) u us inputs
          e in
      subst (All IsTypedInput) shape
        (input_typed u input t.0 first, inputs_typed us rest t.1 others)

  pub change_typed :
      ((bytes : List ℕ) → length (packages.ripemd160 bytes) ≡ 20)
      → (change : ℕ) (h : Option (List ℕ)) → change < 2 ^ 64
      → change_hash packages emitter manager_set change ≡ ok h
      → All IsTypedOutput (change_output change h) × (length (change_output change h) ≤ 1)
  unfolding change_hash change_output hash160
  change_typed sized change none fits e = (tt, omega arith)
  change_typed sized change (some h) fits e = elim (Bool-cases (change == 0)) [
    | inl zero ↦ none_some (rw zero at e)
    | inr more ↦
        let (script, made, last) =
          >>=-ok
            (map_err redeem_error
              (build_redeem_script 1 emitter no_recipient manager_set.m manager_set.pubkeys))
            _ (rw more at e) in
        let size : length h ≡ 20 =
          subst (λ k. length k ≡ 20) (some-same (ok-same last)) (sized (packages.sha256 script)) in
        ((record { amount_fits = fits; address_length = size }, tt), omega arith)
  ]
    where
      none_some :
          {A : Type 0} → ◌≡◌ {A = Result Error (Option (List ℕ))} (ok none) (ok (some h)) → A
      none_some p = cc

      some-same : {a b : List ℕ} → ◌≡◌ {A = Option (List ℕ)} (some a) (some b) → a ≡ b
      some-same p = cc

module _ (packages : Packages) (args : Args) (emitter : List ℕ) (payload : Utx0UnlockPayload)
    (manager_set : ManagerSet) (reservation : CustodyReservation)
    (sized : (bytes : List ℕ) → length (packages.ripemd160 bytes) ≡ 20)
    (typed_utxos : All IsTypedUtxo reservation.utxos)
    (typed_payments : All IsTypedPayment payload.outputs)
    (selected_fits : reservation.selected_amount_sats < 2 ^ 64)
    (few_utxos : length reservation.utxos ≤ 1_000)
    (few_payments : length payload.outputs < 320) where
  -- When a transaction is built, preparing again from its bytes succeeds with the same, for at most
  -- 1000 reserved outputs and fewer than 320 payments whose fields fit, a selected amount below
  -- 2^64, and a RIPEMD-160 of 20 bytes.
  pub prepared_from_reservation_again :
      (p : PreparedTransaction)
      → prepared_from_reservation packages args emitter payload manager_set reservation none ≡ ok p
      → prepared_from_reservation packages args emitter payload manager_set reservation
          (some p.unsigned_bytes)
        ≡ ok p
  unfolding differs
  prepared_from_reservation_again p e =
      let s =
        prepared_from_reservation-Steps packages args emitter payload manager_set reservation none p
          e in
      let (change_typed_all, one) =
        change_typed packages args emitter manager_set sized p.plan.change_sats p.change_script_hash
          (change_sats_fit reservation.selected_amount_sats s.total args.fee_sats
            args.dust_threshold_sats p.plan s.planned selected_fits)
          s.hashed in
      let payments = map payload_output payload.outputs in
      let change = change_output p.plan.change_sats p.change_script_hash in
      let again =
        recovered s.inputs (payments ++ change) p.transaction
          (inputs_typed packages args emitter manager_set reservation.utxos s.inputs typed_utxos
            s.collected)
          (All-append IsTypedOutput payments change (payments_typed payload.outputs typed_payments)
            change_typed_all)
          (few_inputs s.inputs s.collected)
          (omega (arith, length-append payments change, length-payments payload.outputs, one))
          s.made in
      Steps-prepared_from_reservation packages args emitter payload manager_set reservation
        (some p.unsigned_bytes) p
        (record {
          total = s.total;
          summed = s.summed;
          required = s.required;
          added = s.added;
          asked = s.asked;
          planned = s.planned;
          inputs = s.inputs;
          collected = s.collected;
          hashed = s.hashed;
          bytes = s.bytes;
          utxos = s.utxos;
          sats = s.sats;
          id = s.id;
          made =
              subst
                (λ b. build_or_recover (some b) s.inputs (payments ++ change) ≡ ok p.transaction)
                s.bytes again;
          kept = ap not (
              subst (λ b. eqb b (serialize p.transaction) ≡ true) s.bytes
                (eqb_refl (serialize p.transaction)));
        })
    where
      few_inputs :
          (inputs : List SelectedUtxo)
          → collect
              (reserved_input packages args.doge_network emitter manager_set)
              reservation.utxos
            ≡ ok inputs
          → length inputs ≤ 1_000
      few_inputs inputs collected = omega (
        arith,
        length-collect (reserved_input packages args.doge_network emitter manager_set)
            reservation.utxos inputs collected,
      )
