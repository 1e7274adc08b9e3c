-- ===== src/Withdrawal/Prepared/Conserves.antt =====
-- What a prepared transaction spends and pays.
use psy_doge_solana_cli.Common.{
  ℕ, ◌+◌, ◌≡◌, refl, sym, ap, ◌∙◌, List, [], ◌∷◌, ◌++◌, map, true, not, ◌&&◌, eqb, eqb→eq, Option,
  none, some, ok, map_err, collect-at, get_elem?, length, ◌⊎◌, ◌≤◌, >>=-ok, ok-same, map_err-ok,
  bail_if-ok, bail_if-not-ok, length-collect, reverse-reverse, arith, reverse,
}
use psy_doge_solana_cli.Wormhole.Utx0.{Utx0Output, Utx0UnlockPayload}
use psy_doge_solana_cli.Common.{eq_ignore_ascii_case}
use psy_doge_solana_cli.Wormhole.Tx.{
  is_empty, p2sh_script_pubkey, SelectedUtxo, TransactionOutput, UnsignedTransaction, new,
  serialize,
}
use psy_doge_solana_cli.Wormhole.Tx.Persisted.{from_persisted_bytes}
use psy_doge_solana_cli.Wormhole.Tx.Persisted.Recovered.{from_persisted_bytes-ok}
use psy_doge_solana_cli.Wormhole.Manager.Set.{ManagerSet}
use psy_doge_solana_cli.Wormhole.Manager.Local.Built.{type_eqb→eq}
use psy_doge_solana_cli.Wormhole.Redeem.{build_redeem_script}
use psy_doge_solana_cli.Network.{DogeNetwork, encode_address, address_version}
use psy_doge_solana_cli.Withdrawal.Errors.{redeem_error, network_error, transaction_error}
use psy_doge_solana_cli.Withdrawal.Plan.Conserves.{plan_custody_transaction-ok}
use psy_doge_solana_cli.Withdrawal.Store.{CustodyUtxo, CustodyReservation}
use psy_doge_solana_cli.Withdrawal.Prepared.Steps.{prepared_from_reservation-Steps}
use psy_doge_solana_cli.Withdrawal.Prepared.{
  Packages, Args, hash160, PreparedTransaction, total_from, reserved_input, payload_output,
  change_hash, change_output, transaction_outputs_eqb, build_or_recover, prepared_from_reservation,
}

-- The sum of what outputs pay.
abbrev pub paid : List TransactionOutput → ℕ
paid [] = 0
paid (output ∷ outputs) = output.amount + paid outputs

paid-append : (os ps : List TransactionOutput) → paid (os ++ ps) ≡ paid os + paid ps
paid-append [] ps = omega arith
paid-append (o ∷ os) ps = omega (arith, paid-append os ps)

total_from-ok :
    (sum total : ℕ) (outputs : List Utx0Output)
    → total_from sum outputs ≡ ok total
    → total ≡ sum + paid (map payload_output outputs)
unfolding total_from payload_output
total_from-ok sum total [] e = ground (arith, e)
total_from-ok sum total (o ∷ os) e = ground (arith, total_from-ok (sum + o.amount) total os)

pub outputs_eqb→eq :
    (os ps : List TransactionOutput) → transaction_outputs_eqb os ps ≡ true → os ≡ ps
unfolding transaction_outputs_eqb
outputs_eqb→eq [] [] e = refl
outputs_eqb→eq [] (p ∷ ps) e = ground arith
outputs_eqb→eq (o ∷ os) [] e = ground arith
outputs_eqb→eq (o ∷ os) (p ∷ ps) e = ground (
  arith,
  type_eqb→eq o.address_type p.address_type,
  eqb→eq o.address p.address,
  outputs_eqb→eq os ps,
)

change_paid :
    (packages : Packages) (emitter : List ℕ) (manager_set : ManagerSet) (change_sats : ℕ)
    (h : Option (List ℕ))
    → change_hash packages emitter manager_set change_sats ≡ ok h
    → paid (change_output change_sats h) ≡ change_sats
unfolding change_hash change_output
change_paid packages emitter manager_set change_sats none e = ground (arith, e)
change_paid packages emitter manager_set change_sats (some h) e = omega arith

pub new-outputs :
    (inputs : List SelectedUtxo) (outputs : List TransactionOutput) (tx : UnsignedTransaction)
    → new inputs outputs ≡ ok tx
    → tx.logical_outputs ≡ outputs
unfolding new
new-outputs inputs outputs tx e = ground (arith, e)

pub build_or_recover-new :
    (persisted : Option (List ℕ)) (inputs : List SelectedUtxo) (outputs : List TransactionOutput)
    (tx : UnsignedTransaction)
    → build_or_recover persisted inputs outputs ≡ ok tx
    → (new inputs outputs ≡ ok tx) × (tx.logical_outputs ≡ outputs)
unfolding build_or_recover
build_or_recover-new none inputs outputs tx e =
    let made = map_err-ok transaction_error (new inputs outputs) e in
    (made, new-outputs inputs outputs tx made)
build_or_recover-new (some bytes) inputs outputs tx e =
    let (recovered, read, checked) =
      >>=-ok (map_err transaction_error (from_persisted_bytes bytes inputs)) _ e in
    let (same, last) =
      bail_if-not-ok (transaction_outputs_eqb recovered.logical_outputs outputs) _ _ checked in
    let outputs_same = outputs_eqb→eq recovered.logical_outputs outputs same in
    let (_, again) =
      from_persisted_bytes-ok bytes inputs recovered (map_err-ok transaction_error _ read) in
    (
      ap (new inputs) (sym outputs_same) ∙ again ∙ ap ok (ok-same last),
      ap (λ t. t.logical_outputs) (sym (ok-same last)) ∙ outputs_same,
    )

-- A reserved output, and the input and the redeem script that spend it.
pub record Spends (packages : Packages) (args : Args) (emitter : List ℕ) (manager_set : ManagerSet)
    (utxo : CustodyUtxo) (input : SelectedUtxo) : Type 0 where
  pub same_txid : reverse input.transaction_id ≡ utxo.txid
  pub same_vout : input.vout ≡ utxo.vout
  pub script :
      build_redeem_script 1 emitter utxo.original_recipient_address manager_set.m
        manager_set.pubkeys
      ≡ ok input.redeem_script
  pub address :
      packages.base58_check (0xc4 ∷ packages.ripemd160 (packages.sha256 input.redeem_script))
      ≡ utxo.custody_address

encoded_p2sh :
    (f : List ℕ → List ℕ) (network : DogeNetwork) (hash address : List ℕ)
    → encode_address f network 1 hash ≡ ok address
    → f (0xc4 ∷ hash) ≡ address
unfolding encode_address address_version
encoded_p2sh f network hash address e = ok-same e

module _ (packages : Packages) (args : Args) (emitter : List ℕ) (manager_set : ManagerSet) where
  pub reserved_input-Spends :
      (utxo : CustodyUtxo) (input : SelectedUtxo)
      → reserved_input packages args.doge_network emitter manager_set utxo ≡ ok input
      → Spends packages args emitter manager_set utxo input
  unfolding reserved_input hash160
  reserved_input-Spends utxo input e =
      let (script, made, rest) =
        >>=-ok
          (map_err redeem_error (
            build_redeem_script 1 emitter utxo.original_recipient_address manager_set.m
              manager_set.pubkeys))
          _ e in
      let hash = packages.ripemd160 (packages.sha256 script) in
      let (expected, encoded, more) =
        >>=-ok
          (map_err network_error (encode_address packages.base58_check args.doge_network 1 hash)) _
          rest in
      let (equal, after) = bail_if-not-ok (eqb expected utxo.custody_address) _ _ more in
      let (_, last) =
        bail_if-ok
          (not (is_empty utxo.script_pubkey_hex)
            && not (
                eq_ignore_ascii_case utxo.script_pubkey_hex
                  (packages.encode_hex (p2sh_script_pubkey hash))))
          _ _ after in
      let same = ok-same last in
      record {
        same_txid = ap (λ s. reverse s.transaction_id) (sym same) ∙ reverse-reverse utxo.txid;
        same_vout = ap (λ s. s.vout) (sym same);
        script = map_err-ok redeem_error _ made ∙ ap ok (ap (λ s. s.redeem_script) same);
        address =
            ap
              (λ t.
                packages.base58_check (0xc4 ∷ packages.ripemd160 (packages.sha256 t.redeem_script)))
              (sym same)
            ∙ encoded_p2sh packages.base58_check args.doge_network hash expected
                (map_err-ok network_error _ encoded)
            ∙ eqb→eq expected utxo.custody_address equal;
      }

module _ (packages : Packages) (args : Args) (emitter : List ℕ) (payload : Utx0UnlockPayload)
    (manager_set : ManagerSet) (reservation : CustodyReservation) where
  -- What is known of a prepared transaction.
  pub record IsPrepared (p : PreparedTransaction) : Type 0 where
    pub inputs : List SelectedUtxo
    pub built : new inputs p.transaction.logical_outputs ≡ ok p.transaction
    pub spends :
        (i : ℕ) (utxo : CustodyUtxo)
        → get_elem? reservation.utxos i ≡ some utxo
        → (input : SelectedUtxo) × (get_elem? inputs i ≡ some input)
          × Spends packages args emitter manager_set utxo input
    pub only : length inputs ≡ length reservation.utxos
    pub bytes : p.unsigned_bytes ≡ serialize p.transaction
    pub outputs :
        p.transaction.logical_outputs
        ≡ map payload_output payload.outputs
          ++ change_output p.plan.change_sats p.change_script_hash
    pub change :
        change_hash packages emitter manager_set p.plan.change_sats ≡ ok p.change_script_hash
    pub conserved :
        paid p.transaction.logical_outputs + args.fee_sats ≡ reservation.selected_amount_sats
    pub no_dust : (p.plan.change_sats ≡ 0) ⊎ (args.dust_threshold_sats ≤ p.plan.change_sats)

  -- When a transaction is prepared, built or recovered, it is the one that `new` makes of one input
  -- for each reserved output, in order, each under the redeem script of that output's recipient and
  -- the managers' keys, whose address is the output's, and of the payload's outputs with the change
  -- behind them; what it pays and the fee add up to what is selected, the change is nothing or no
  -- dust, and the bytes are the transaction's.
  pub prepared_from_reservation-IsPrepared :
      (persisted : Option (List ℕ)) (p : PreparedTransaction)
      → prepared_from_reservation packages args emitter payload manager_set reservation persisted
        ≡ ok p
      → IsPrepared p
  prepared_from_reservation-IsPrepared persisted p e =
      let s =
        prepared_from_reservation-Steps packages args emitter payload manager_set reservation
          persisted p e in
      let (made, same) =
        build_or_recover-new persisted s.inputs
          (map payload_output payload.outputs
            ++ change_output p.plan.change_sats p.change_script_hash)
          p.transaction s.made in
      let (_, paid_out, fee_kept, kept, small) =
        plan_custody_transaction-ok reservation.selected_amount_sats s.total args.fee_sats
          args.dust_threshold_sats p.plan s.planned in
      record {
        inputs = s.inputs;
        built = ap (new s.inputs) same ∙ made;
        spends = λ i utxo found. collected_spends s.inputs i utxo (
            collect-at (reserved_input packages args.doge_network emitter manager_set)
              reservation.utxos s.inputs i utxo s.collected found);
        only =
            length-collect (reserved_input packages args.doge_network emitter manager_set)
              reservation.utxos s.inputs s.collected;
        bytes = sym s.bytes;
        outputs = same;
        change = s.hashed;
        conserved =
            ap (λ os. paid os + args.fee_sats) same
            ∙ omega (
              arith,
              paid-append (map payload_output payload.outputs)
                  (change_output p.plan.change_sats p.change_script_hash),
              total_from-ok 0 s.total payload.outputs s.summed,
              change_paid packages emitter manager_set p.plan.change_sats p.change_script_hash
                  s.hashed,
            );
        no_dust = small;
      }
    where
      collected_spends :
          (ys : List SelectedUtxo) (i : ℕ) (utxo : CustodyUtxo)
          → (input : SelectedUtxo) × (get_elem? ys i ≡ some input)
            × (reserved_input packages args.doge_network emitter manager_set utxo ≡ ok input)
          → (input : SelectedUtxo) × (get_elem? ys i ≡ some input)
            × Spends packages args emitter manager_set utxo input
      collected_spends ys i utxo (input, place, made) =
          (input, place, reserved_input-Spends packages args emitter manager_set utxo input made)
