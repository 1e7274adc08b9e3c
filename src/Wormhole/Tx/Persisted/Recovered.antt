-- ===== src/Wormhole/Tx/Persisted/Recovered.antt =====
-- A recovered transaction is the one that `new` builds, and its bytes are the durable ones.
use psy_doge_solana_cli.Common.{
  ℕ, zero, suc, ◌+◌, ◌≡◌, refl, sym, ap, ◌∙◌, List, [], ◌∷◌, map, reverse, false, not, ◌||◌, ltb,
  ◌==◌, ◌≤◌, eqb, eqb→eq, length, Result, ok, err, map_err, arith,
}
use psy_doge_solana_cli.Wormhole.Utx0.{UtxoAddressType}
use psy_doge_solana_cli.Wormhole.Tx.{
  SelectedUtxo, TransactionOutput, UnsignedTransaction, tx_version, sequence_final, serialize,
  script_pub_key_for, is_empty, unsigned_input, wire_output, new,
}
use psy_doge_solana_cli.Wormhole.Tx.Errors
use psy_doge_solana_cli.Wormhole.Tx.Errors.{
  Error, input_count_field, too_many_inputs, input_count_mismatch, unsupported_version,
  nonzero_locktime, no_selected_inputs, not_canonical, input_transaction_id, input_vout,
  input_script_length, input_sequence, contains_script_sig, non_final_sequence,
  differs_from_reservation, output_value, output_script_length, output_script_pubkey,
  output_script_too_long, decode_output, output_count_field, too_many_outputs, persisted_no_outputs,
}
use psy_doge_solana_cli.Wormhole.Tx.Wire.{TxIn, TxOut}
use psy_doge_solana_cli.Wormhole.Tx.Reader.{
  Reader, read_exact, read_le, read_count, lift, pure, finish,
}
use psy_doge_solana_cli.Wormhole.Tx.Reader.Yields.{
  Yields, Yields-skip, Yields-weaken, Yields-pure, Yields-bind, Yields-guard, Yields-lift,
}
use psy_doge_solana_cli.Wormhole.Tx.Persisted.{
  parse_standard_output, read_input, read_inputs, read_output, read_outputs, read_version,
  read_all_inputs, read_all_outputs, read_locktime, read_fields, read_transaction,
  from_persisted_bytes,
}
use psy_doge_solana_cli.Wormhole.Tx.Persisted.Outputs.{script_pub_key_for-parse_standard_output}

Yields-read_input :
    (index : ℕ) (s : SelectedUtxo) → Yields (read_input index s) (λ i. i ≡ unsigned_input s)
unfolding read_input
Yields-read_input index s = Yields-skip (read_exact 32 input_transaction_id) _ _ λ id.
    Yields-skip (read_le 4 input_vout) _ _ λ vout.
      Yields-skip (read_count input_script_length) _ _ λ script_len.
        Yields-guard (not (script_len == 0)) (contains_script_sig index) _ _ λ no_script.
          Yields-skip (read_le 4 input_sequence) _ _ λ sequence.
            Yields-guard (not (sequence == sequence_final)) (non_final_sequence index) _ _ λ final.
              Yields-guard (not (eqb id (reverse s.transaction_id)) || not (vout == s.vout))
                (differs_from_reservation index) _ _
                λ same. Yields-pure _ (ground (arith, eqb→eq id (reverse s.transaction_id)))

Yields-read_inputs :
    (ss : List SelectedUtxo) (index : ℕ)
    → Yields (read_inputs index ss) (λ is. is ≡ map unsigned_input ss)
unfolding read_inputs
Yields-read_inputs [] index = Yields-pure [] refl
Yields-read_inputs (s ∷ ss) index =
    Yields-bind (read_input index s) _ _ _ (Yields-read_input index s) λ i first.
      Yields-bind (read_inputs (index + 1) ss) _ _ _ (Yields-read_inputs ss (index + 1))
        λ is others. Yields-pure (i ∷ is) (cc)

abbrev Agree : TxOut × TransactionOutput → Type 0
Agree p = p.0 ≡ wire_output p.1

map_err-ok :
    (script : List ℕ) (index : ℕ) (d : UtxoAddressType × List ℕ)
    → map_err (decode_output index) (parse_standard_output script) ≡ ok d
    → parse_standard_output script ≡ ok (d.0, d.1)
map_err-ok script index d e = ground arith

Yields-read_output : (index : ℕ) → Yields (read_output index) Agree
unfolding read_output
Yields-read_output index = Yields-skip (read_le 8 output_value) _ _ λ value.
    Yields-skip (read_count output_script_length) _ _ λ script_len.
      Yields-guard (ltb 25 script_len) (output_script_too_long index) _ _ λ short.
        Yields-skip (read_exact script_len output_script_pubkey) _ _ λ script.
          Yields-bind (lift (map_err (decode_output index) (parse_standard_output script)))
            (λ d. pure (
              record { value = value; script_pubkey = script },
              record { amount = value; address_type = d.0; address = d.1 },
            ))
            (λ d. map_err (decode_output index) (parse_standard_output script) ≡ ok d) Agree
            (Yields-lift (map_err (decode_output index) (parse_standard_output script)))
            λ d e. Yields-pure _ (
              agree value script d.0 d.1
                (script_pub_key_for-parse_standard_output script d.0 d.1
                  (map_err-ok script index d e)).0)
  where
    agree :
        (v : ℕ) (script : List ℕ) (t : UtxoAddressType) (a : List ℕ)
        → script_pub_key_for t a ≡ script
        → ◌≡◌ {A = TxOut}
            (record { value = v; script_pubkey = script })
            (record { value = v; script_pubkey = script_pub_key_for t a })
    agree v script t a e = ap (λ l. record { value = v; script_pubkey = l }) (sym e)

abbrev AllAgree : ℕ → List (TxOut × TransactionOutput) → Type 0
AllAgree count ps = (map (λ p. p.0) ps ≡ map wire_output (map (λ p. p.1) ps)) × (length ps ≡ count)

Yields-read_outputs : (count index : ℕ) → Yields (read_outputs index count) (AllAgree count)
unfolding read_outputs
Yields-read_outputs zero index = Yields-pure [] (refl, refl)
Yields-read_outputs (suc count) index =
    Yields-bind (read_output index) _ _ _ (Yields-read_output index) λ o first.
      Yields-bind (read_outputs (index + 1) count) _ _ _ (Yields-read_outputs count (index + 1))
        λ os others. Yields-pure (o ∷ os) (
          ap (◌∷◌ o.0) others.0 ∙ ap (λ w. w ∷ map wire_output (map (λ p. p.1) os)) first,
          ap suc others.1,
        )

abbrev SomeAgree : List (TxOut × TransactionOutput) → Type 0
SomeAgree ps = (map (λ p. p.0) ps ≡ map wire_output (map (λ p. p.1) ps)) × (1 ≤ length ps)

Yields-read_all_outputs : Yields read_all_outputs SomeAgree
unfolding read_all_outputs
Yields-read_all_outputs = Yields-skip (read_count output_count_field) _ _ λ count.
    Yields-guard (ltb 320 count) (too_many_outputs count) _ _ λ few.
      Yields-guard (count == 0) persisted_no_outputs _ _ λ more.
        Yields-weaken (read_outputs 0 count) (AllAgree count) SomeAgree
          (Yields-read_outputs count 0) (λ ps h. (h.0, positive count (length ps) more h.1))
  where
    positive : (n l : ℕ) → (n == 0) ≡ false → l ≡ n → 1 ≤ l
    positive n l e h = ground arith

Yields-read_all_inputs :
    (ss : List SelectedUtxo) → Yields (read_all_inputs ss) (λ is. is ≡ map unsigned_input ss)
unfolding read_all_inputs
Yields-read_all_inputs ss = Yields-skip (read_count input_count_field) _ _ λ count.
    Yields-guard (ltb 1_000 count) (too_many_inputs count) _ _ λ few.
      Yields-guard (not (count == length ss)) (input_count_mismatch count (length ss)) _ _
        λ same. Yields-read_inputs ss 0

Yields-read_version : Yields read_version (λ v. v ≡ 1)
unfolding read_version
Yields-read_version = Yields-skip (read_le 4 Errors.version) _ _ λ v.
    Yields-guard (not (v == tx_version)) (unsupported_version v) _ _
      λ one. Yields-pure v (ground arith)

Yields-read_locktime : Yields read_locktime (λ v. v ≡ 0)
unfolding read_locktime
Yields-read_locktime =
    Yields-skip (read_le 4 Errors.locktime) _ _
      λ v. Yields-guard (not (v == 0)) nonzero_locktime _ _ λ none_set. Yields-pure v (ground arith)

abbrev IsNew : List SelectedUtxo → UnsignedTransaction → Type 0
IsNew inputs tx = new inputs tx.logical_outputs ≡ ok tx

recovered :
    (inputs : List SelectedUtxo) (outputs : List (TxOut × TransactionOutput)) (v locktime : ℕ)
    (tx_inputs : List TxIn)
    → is_empty inputs ≡ false
    → SomeAgree outputs
    → v ≡ 1
    → tx_inputs ≡ map unsigned_input inputs
    → locktime ≡ 0
    → IsNew inputs (record {
      version = v;
      inputs = tx_inputs;
      outputs = map (λ o. o.0) outputs;
      logical_outputs = map (λ o. o.1) outputs;
      locktime = locktime;
      redeem_scripts = map (λ input. input.redeem_script) inputs;
    })
unfolding new is_empty
recovered [] outputs v locktime tx_inputs h agree one same zeroed = absurd (ground arith)
recovered (i ∷ is) [] v locktime tx_inputs h agree one same zeroed =
    absurd (ground (arith, agree.1))
recovered (i ∷ is) (o ∷ os) v locktime tx_inputs h agree one same zeroed = cc agree.0

Yields-read_fields : (inputs : List SelectedUtxo) → Yields (read_fields inputs) (IsNew inputs)
unfolding read_fields
Yields-read_fields inputs = Yields-guard (is_empty inputs) no_selected_inputs _ _ λ nonempty.
    Yields-bind read_version _ _ _ Yields-read_version λ version one.
      Yields-bind (read_all_inputs inputs) _ _ _ (Yields-read_all_inputs inputs) λ tx_inputs same.
        Yields-bind read_all_outputs _ _ _ Yields-read_all_outputs λ outputs agree.
          Yields-bind read_locktime _ _ _ Yields-read_locktime λ locktime zeroed.
            Yields-pure _
              (recovered inputs outputs version locktime tx_inputs nonempty agree one same zeroed)

abbrev IsRecovered : List ℕ → List SelectedUtxo → UnsignedTransaction → Type 0
IsRecovered bytes inputs tx = (serialize tx ≡ bytes) × IsNew inputs tx

Yields-read_transaction :
    (bytes : List ℕ) (inputs : List SelectedUtxo)
    → Yields (read_transaction bytes inputs) (IsRecovered bytes inputs)
unfolding read_transaction
Yields-read_transaction bytes inputs =
    Yields-bind (read_fields inputs) _ _ _ (Yields-read_fields inputs) λ tx is_new.
      Yields-skip finish _ _ λ done.
        Yields-guard (not (eqb (serialize tx) bytes)) not_canonical _ _
          λ same. Yields-pure tx (eqb→eq (serialize tx) bytes (ground arith), is_new)

transaction_of : Result Error (UnsignedTransaction × Reader) → Result Error UnsignedTransaction
transaction_of x = elim x [ ok (transaction, reader) ↦ ok transaction | err e ↦ err e ]

transaction_of-ok :
    (x : Result Error (UnsignedTransaction × Reader)) (tx : UnsignedTransaction)
    → transaction_of x ≡ ok tx
    → (s : Reader) × (x ≡ ok (tx, s))
unfolding transaction_of
transaction_of-ok (ok (t, r)) tx e = (r, cc)
transaction_of-ok (err x) tx e = absurd (ground arith)

-- Bytes that are recovered with the inputs of a reservation are the bytes that the recovered
-- transaction serializes to, and that transaction is the one that `new` makes of these inputs and
-- the outputs that it says it has.
pub from_persisted_bytes-ok :
    (bytes : List ℕ) (inputs : List SelectedUtxo) (tx : UnsignedTransaction)
    → from_persisted_bytes bytes inputs ≡ ok tx
    → (serialize tx ≡ bytes) × (new inputs tx.logical_outputs ≡ ok tx)
unfolding from_persisted_bytes transaction_of
from_persisted_bytes-ok bytes inputs tx e =
    let start : Reader = record { bytes = bytes; offset = 0 } in
    let (s, returned) = transaction_of-ok (read_transaction bytes inputs start) tx e in
    (Yields-read_transaction bytes inputs).at start s tx returned
