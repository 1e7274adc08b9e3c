-- ===== src/Wormhole/Tx/Persisted/RoundTrip.antt =====
-- An unsigned transaction is recovered from the bytes that it serializes to.
use psy_doge_solana_cli.Common.{
  ℕ, suc, ◌+◌, ◌*◌, ◌<◌, ◌≤◌, ◌^◌, ◌≡◌, refl, sym, ap, ◌∙◌, subst, List, [], ◌∷◌, ◌++◌, map,
  reverse, false, length, Result, ok, All, eqb_refl, length-append, length-le_bytes, map_err,
  le→ltb, le_bytes, arith, length-reverse, ==-refl,
}
use psy_doge_solana_cli.Wormhole.Utx0.{UtxoAddressType}
use psy_doge_solana_cli.Wormhole.Tx.{
  SelectedUtxo, TransactionOutput, UnsignedTransaction, tx_version, sequence_final, serialize,
  script_pub_key_for, is_empty, unsigned_input, wire_output, new,
}
use psy_doge_solana_cli.Wormhole.Tx.Wire.{
  TxOut, write_input, write_inputs, write_varint, write_output, write_outputs,
  serialize_transaction,
}
use psy_doge_solana_cli.Wormhole.Tx.Errors
use psy_doge_solana_cli.Wormhole.Tx.Errors.{
  Error, input_count_field, input_transaction_id, input_vout, input_script_length, input_sequence,
  output_count_field, output_value, output_script_length, output_script_pubkey, no_selected_inputs,
  unsupported_version, too_many_inputs, input_count_mismatch, too_many_outputs,
  persisted_no_outputs, nonzero_locktime, not_canonical, output_script_too_long, decode_output,
  contains_script_sig, non_final_sequence,
}
use mathlib.Core.List.{append_assoc, append-nil}
use psy_doge_solana_cli.Wormhole.Tx.Reader.{Reader, ◌>>=◌, pure, lift}
use psy_doge_solana_cli.Wormhole.Tx.Reader.Laws.{
  Takes, Takes-lift, Takes-pure, Takes-bind, Takes-guard, Takes-end, Takes-read_exact,
  Takes-read_le, Takes-read_count, finish_at_end, length-write_varint,
}
use psy_doge_solana_cli.Wormhole.Tx.Persisted.{
  parse_standard_output, read_input, read_inputs, read_output, read_outputs, read_version,
  read_all_inputs, read_all_outputs, read_locktime, read_fields, read_transaction,
  from_persisted_bytes,
}
use psy_doge_solana_cli.Wormhole.Tx.Persisted.Outputs.{
  parse_standard_output-script_pub_key_for, length-script_pub_key_for,
}

-- The types of the fields: `[u8; 32]` and u32.
pub record IsTypedInput (s : SelectedUtxo) : Type 0 where
  pub id_length : length s.transaction_id ≡ 32
  pub vout_fits : s.vout < 2 ^ 32

-- u64 and `[u8; 20]`.
pub record IsTypedOutput (o : TransactionOutput) : Type 0 where
  pub amount_fits : o.amount < 2 ^ 64
  pub address_length : length o.address ≡ 20

Takes-read_input :
    (index : ℕ) (s : SelectedUtxo)
    → IsTypedInput s
    → Takes (read_input index s) (write_input (unsigned_input s)) (unsigned_input s)
unfolding read_input write_input write_varint
Takes-read_input index s t =
    Takes-bind _ _
      (Takes-read_exact 32 input_transaction_id (reverse s.transaction_id)
        (length-reverse s.transaction_id ∙ t.id_length))
      (Takes-bind _ _ (Takes-read_le 4 input_vout s.vout t.vout_fits) (
        Takes-bind _ _ (Takes-read_count input_script_length 0 (omega arith)) (
          Takes-guard _ (contains_script_sig index) _ refl (
            Takes-end _ _ (Takes-read_le 4 input_sequence sequence_final (omega arith)) (
              Takes-guard _ (non_final_sequence index) _ refl (
                Takes-guard _ _ _ (rw (eqb_refl (reverse s.transaction_id), ==-refl s.vout))
                  (Takes-pure (unsigned_input s))))))))

Takes-read_inputs :
    (ss : List SelectedUtxo) (index : ℕ)
    → All IsTypedInput ss
    → Takes (read_inputs index ss) (write_inputs (map unsigned_input ss)) (map unsigned_input ss)
unfolding read_inputs write_inputs
Takes-read_inputs [] index h = Takes-pure []
Takes-read_inputs (s ∷ ss) index h = Takes-bind _ _ (Takes-read_input index s h.0) (
    Takes-end _ _ (Takes-read_inputs ss (index + 1) h.1)
      (Takes-pure (unsigned_input s ∷ map unsigned_input ss)))

abbrev decode : ℕ → List ℕ → Result Error (UtxoAddressType × List ℕ)
decode index script = map_err (decode_output index) (parse_standard_output script)

Takes-read_output :
    (index : ℕ) (o : TransactionOutput)
    → IsTypedOutput o
    → Takes (read_output index) (write_output (wire_output o)) (wire_output o, o)
unfolding read_output write_output
Takes-read_output index o t =
    let script = script_pub_key_for o.address_type o.address in
    let short : length script ≤ 25 =
      length-script_pub_key_for o.address_type o.address t.address_length in
    Takes-bind _ _ (Takes-read_le 8 output_value o.amount t.amount_fits) (
      Takes-bind _ _ (Takes-read_count output_script_length (length script) (omega arith)) (
        Takes-guard _ (output_script_too_long index) _ (le→ltb 25 (length script) short) (
          Takes-end _ _ (Takes-read_exact (length script) output_script_pubkey script refl) (
            Takes-end {A = UtxoAddressType × List ℕ} (lift (decode index script))
              (λ d. pure (
                record { value = o.amount; script_pubkey = script },
                record { amount = o.amount; address_type = d.0; address = d.1 },
              ))
              (Takes-lift (decode index script) (o.address_type, o.address)
                (rw (
                  parse_standard_output-script_pub_key_for o.address_type o.address
                    t.address_length)))
              (Takes-pure (wire_output o, o))))))

abbrev both : TransactionOutput → TxOut × TransactionOutput
both o = (wire_output o, o)

Takes-read_outputs :
    (os : List TransactionOutput) (index : ℕ)
    → All IsTypedOutput os
    → Takes (read_outputs index (length os)) (write_outputs (map wire_output os)) (map both os)
unfolding read_outputs write_outputs
Takes-read_outputs [] index h = Takes-pure []
Takes-read_outputs (o ∷ os) index h =
    Takes-bind _ _ (Takes-read_output index o h.0)
      (Takes-end _ _ (Takes-read_outputs os (index + 1) h.1) (Takes-pure (both o ∷ map both os)))

map-both :
    (os : List TransactionOutput)
    → (map (λ o. o.0) (map both os) ≡ map wire_output os) × (map (λ o. o.1) (map both os) ≡ os)
map-both [] = (refl, refl)
map-both (o ∷ os) = let (a, b) = map-both os in (ap (◌∷◌ (wire_output o)) a, ap (◌∷◌ o) b)

length-map : {A B : Type 0} (f : A → B) (xs : List A) → length (map f xs) ≡ length xs
length-map f [] = refl
length-map f (x ∷ xs) = ap suc (length-map f xs)

-- What `new` builds.
abbrev pub built : List SelectedUtxo → List TransactionOutput → UnsignedTransaction
built inputs outputs = record {
  version = tx_version;
  inputs = map unsigned_input inputs;
  outputs = map wire_output outputs;
  logical_outputs = outputs;
  locktime = 0;
  redeem_scripts = map (λ input. input.redeem_script) inputs;
}

new-built :
    (inputs : List SelectedUtxo) (outputs : List TransactionOutput)
    → 1 ≤ length inputs
    → 1 ≤ length outputs
    → new inputs outputs ≡ ok (built inputs outputs)
unfolding new
new-built [] outputs h k = absurd (omega arith)
new-built (i ∷ is) [] h k = absurd (omega arith)
new-built (i ∷ is) (o ∷ os) h k = refl

nonempty : {A : Type 0} (l : List A) → 1 ≤ length l → is_empty l ≡ false
unfolding is_empty
nonempty [] h = absurd (omega arith)
nonempty (x ∷ xs) h = refl

length-write_inputs :
    (ss : List SelectedUtxo)
    → All IsTypedInput ss
    → length (write_inputs (map unsigned_input ss)) ≤ 49 * length ss
unfolding write_inputs write_input
length-write_inputs [] h = omega arith
length-write_inputs (s ∷ ss) h =
    simp (length-append, length-le_bytes, length-reverse)
      (omega (arith, length-write_varint 0, h.0.id_length, length-write_inputs ss h.1))

length-write_outputs :
    (os : List TransactionOutput)
    → All IsTypedOutput os
    → length (write_outputs (map wire_output os)) ≤ 42 * length os
unfolding write_outputs write_output
length-write_outputs [] h = omega arith
length-write_outputs (o ∷ os) h =
    simp (length-append, length-le_bytes)
      (omega (
        arith,
        length-write_varint (length (script_pub_key_for o.address_type o.address)),
        length-script_pub_key_for o.address_type o.address h.0.address_length,
        length-write_outputs os h.1,
      ))

module _ (inputs : List SelectedUtxo) (outputs : List TransactionOutput)
    (hi : All IsTypedInput inputs) (ho : All IsTypedOutput outputs) (some_input : 1 ≤ length inputs)
    (some_output : 1 ≤ length outputs) (few_inputs : length inputs ≤ 1_000)
    (few_outputs : length outputs ≤ 320) where
  Takes-read_all_inputs :
      Takes
        (read_all_inputs inputs)
        (write_varint (length inputs) ++ write_inputs (map unsigned_input inputs))
        (map unsigned_input inputs)
  unfolding read_all_inputs
  Takes-read_all_inputs =
      Takes-bind _ _ (Takes-read_count input_count_field (length inputs) (omega arith)) (
        Takes-guard _ (too_many_inputs (length inputs)) _ (le→ltb 1_000 (length inputs) few_inputs)
          (Takes-guard _ (input_count_mismatch (length inputs) (length inputs)) _
            (rw (==-refl (length inputs))) (Takes-read_inputs inputs 0 hi)))

  Takes-read_all_outputs :
      Takes read_all_outputs
        (write_varint (length outputs) ++ write_outputs (map wire_output outputs))
        (map both outputs)
  unfolding read_all_outputs
  Takes-read_all_outputs =
      Takes-bind _ _ (Takes-read_count output_count_field (length outputs) (omega arith)) (
        Takes-guard _ (too_many_outputs (length outputs)) _
          (le→ltb 320 (length outputs) few_outputs)
          (Takes-guard _ persisted_no_outputs _ (ground arith) (Takes-read_outputs outputs 0 ho)))

  Takes-read_version : Takes read_version (le_bytes 4 1) 1
  unfolding read_version
  Takes-read_version = Takes-end _ _ (Takes-read_le 4 Errors.version 1 (omega arith)) (Takes-pure 1)

  Takes-read_locktime : Takes read_locktime (le_bytes 4 0) 0
  unfolding read_locktime
  Takes-read_locktime =
      Takes-end _ _ (Takes-read_le 4 Errors.locktime 0 (omega arith)) (Takes-pure 0)

  layout :
      le_bytes 4 1
        ++ ((write_varint (length inputs) ++ write_inputs (map unsigned_input inputs))
            ++ ((write_varint (length outputs) ++ write_outputs (map wire_output outputs))
                ++ le_bytes 4 0))
      ≡ serialize (built inputs outputs)
  unfolding serialize serialize_transaction
  layout = rw (length-map unsigned_input inputs, length-map wire_output outputs) (simp append_assoc)

  Takes-read_fields :
      Takes (read_fields inputs) (serialize (built inputs outputs)) (built inputs outputs)
  unfolding read_fields
  Takes-read_fields =
      subst (λ front. Takes (read_fields inputs) front (built inputs outputs)) layout
        (Takes-guard (is_empty inputs) no_selected_inputs _ (nonempty inputs some_input) (
          Takes-bind _ _ Takes-read_version (
            Takes-bind _ _ Takes-read_all_inputs (
              Takes-bind _ _ Takes-read_all_outputs (
                Takes-end _ _ Takes-read_locktime (
                  rw ((map-both outputs).0, (map-both outputs).1)
                    (Takes-pure (built inputs outputs))))))))

  length-serialize : length (serialize (built inputs outputs)) < 2 ^ 64
  length-serialize = rw (← layout) (
      simp (length-append, length-le_bytes)
        (omega (
          arith,
          length-write_varint (length inputs),
          length-write_varint (length outputs),
          length-write_inputs inputs hi,
          length-write_outputs outputs ho,
        )))

  -- Between 1 and 1000 inputs and between 1 and 320 outputs of the source's types make a
  -- transaction, and the bytes that it serializes to are recovered, with the same inputs, as it.
  pub from_persisted_bytes-serialize :
      (tx : UnsignedTransaction) × (new inputs outputs ≡ ok tx)
      × (from_persisted_bytes (serialize tx) inputs ≡ ok tx)
  unfolding from_persisted_bytes read_transaction
  from_persisted_bytes-serialize =
      let tx = built inputs outputs in
      let bytes = serialize tx in
      let start : Reader = record { bytes = bytes; offset = 0 } in
      let (r, e, fits, end) =
        Takes-read_fields.at start [] (record { inside = omega arith; size = length-serialize })
          (sym (append-nil bytes)) in
      (
        tx,
        new-built inputs outputs some_input some_output,
        rw (
          e,
          finish_at_end r fits end,
          eqb_refl (serialize tx),
          from_persisted_bytes,
          read_transaction,
          ◌>>=◌,
        ),
      )
