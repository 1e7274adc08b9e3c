-- ===== src/Withdrawal/Change/Spendable.antt =====
-- The change of a confirmed withdrawal can be spent by a later one.
use psy_doge_solana_cli.Common.{
  ℕ, ◌^◌, ◌<◌, ◌≤◌, ◌≡◌, refl, sym, ap, ◌∙◌, List, [], ◌∷◌, ◌++◌, map, slice, length, All, false,
  not, ◌&&◌, ◌==◌, eqb, eqb_refl, Option, some, ok, map_err, map_err-ok, >>=-ok, ok->>=,
  false-bail_if, ok-same, eq_ignore_ascii_case, to_ascii_lowercase, arith,
}
use psy_doge_solana_cli.Network.{DogeNetwork, encode_address}
use psy_doge_solana_cli.Wormhole.Utx0.{p2sh, Utx0UnlockPayload}
use psy_doge_solana_cli.Wormhole.Redeem.{build_redeem_script}
use psy_doge_solana_cli.Wormhole.Tx.{SelectedUtxo, TransactionOutput, p2sh_script_pubkey, is_empty}
use psy_doge_solana_cli.Wormhole.Tx.Persisted.{from_persisted_bytes}
use psy_doge_solana_cli.Wormhole.Manager.Set.{ManagerSet}
use psy_doge_solana_cli.Withdrawal.Errors.{redeem_error, network_error}
use psy_doge_solana_cli.Withdrawal.Confirmed.{ConfirmedWithdrawal}
use psy_doge_solana_cli.Withdrawal.Store.{CustodyUtxo, CustodyReservation, SnapshotBatch}
use psy_doge_solana_cli.Withdrawal.Graph.{PersistedWithdrawalGraph}
use psy_doge_solana_cli.Withdrawal.Prepared.{
  Packages, Args, PreparedTransaction, hash160, no_recipient, reserved_input, payload_output,
  change_hash, change_output, prepared_from_reservation,
}
use psy_doge_solana_cli.Withdrawal.Change.{last, placeholder_input, derive_confirmed_change}
use psy_doge_solana_cli.Withdrawal.Change.Recovered.{all_outputs, recovered-outputs}
use psy_doge_solana_cli.Withdrawal.Change.Steps.{
  IsChange, check_prepared_change-ok, derive_confirmed_change-IsChange, p2sh_script,
}
use psy_doge_solana_cli.Withdrawal.Prepared.Steps.{Steps, prepared_from_reservation-Steps}
use psy_doge_solana_cli.Withdrawal.Prepared.Again.{IsTypedUtxo, IsTypedPayment}

last-append : {A : Type 0} (xs : List A) (x : A) → last (xs ++ (x ∷ [])) ≡ some x
unfolding last
last-append [] x = refl
last-append (y ∷ []) x = refl
last-append (y ∷ (z ∷ zs)) x = last-append (z ∷ zs) x

-- Where there is change, it is paid to the script without a recipient.
change_hash-some :
    (packages : Packages) (emitter : List ℕ) (manager_set : ManagerSet) (change_sats : ℕ)
    (h : Option (List ℕ))
    → (change_sats == 0) ≡ false
    → change_hash packages emitter manager_set change_sats ≡ ok h
    → (script : List ℕ) × (build_redeem_script 1 emitter no_recipient manager_set.m
          manager_set.pubkeys
        ≡ ok script)
      × (h ≡ some (hash160 packages script))
unfolding change_hash
change_hash-some packages emitter manager_set change_sats h more e =
    let (script, made, last) =
      >>=-ok
        (map_err redeem_error
          (build_redeem_script 1 emitter no_recipient manager_set.m manager_set.pubkeys))
        _ (rw more at e) in
    (script, map_err-ok redeem_error _ made, sym (ok-same last))

change_output-some :
    (change_sats : ℕ) (h : List ℕ)
    → change_output change_sats (some h)
      ≡ record { amount = change_sats; address_type = p2sh; address = h } ∷ []
unfolding change_output
change_output-some change_sats h = refl

-- An output that has the address and the script of its redeem script can be spent.
reserved_input-made :
    (packages : Packages) (network : DogeNetwork) (emitter : List ℕ) (manager_set : ManagerSet)
    (utxo : CustodyUtxo) (script : List ℕ)
    → build_redeem_script 1 emitter utxo.original_recipient_address manager_set.m
        manager_set.pubkeys
      ≡ ok script
    → encode_address packages.base58_check network 1 (hash160 packages script)
      ≡ ok utxo.custody_address
    → utxo.script_pubkey_hex ≡ packages.encode_hex (p2sh_script_pubkey (hash160 packages script))
    → (input : SelectedUtxo) × (reserved_input packages network emitter manager_set utxo ≡ ok input)
unfolding reserved_input eq_ignore_ascii_case
reserved_input-made packages network emitter manager_set utxo script made address hex = (
  _,
  ok->>=
      (map_err redeem_error (
        build_redeem_script 1 emitter utxo.original_recipient_address manager_set.m
          manager_set.pubkeys))
      _ (ap (map_err redeem_error) made)
      (ok->>=
        (map_err network_error
          (encode_address packages.base58_check network 1 (hash160 packages script)))
        _ (ap (map_err network_error) address)
        (false-bail_if (not (eqb utxo.custody_address utxo.custody_address)) _ _
          (ap not (eqb_refl utxo.custody_address)) (false-bail_if _ _ _ same_script refl))),
)
  where
    same_script :
        (not (is_empty utxo.script_pubkey_hex)
          && not (
              eqb (to_ascii_lowercase utxo.script_pubkey_hex) (
                to_ascii_lowercase
                  (packages.encode_hex (p2sh_script_pubkey (hash160 packages script))))))
        ≡ false
    same_script = ground (
      arith,
      ap (λ t. eqb (to_ascii_lowercase utxo.script_pubkey_hex) (to_ascii_lowercase t)) (sym hex)
          ∙ eqb_refl (to_ascii_lowercase utxo.script_pubkey_hex),
    )

-- An output that a later withdrawal accepts, of the amount that was kept as change.
abbrev pub IsSpendable :
    Packages → Args → List ℕ → ManagerSet → PreparedTransaction → CustodyUtxo → Type 0
IsSpendable packages args emitter manager_set p utxo =
    (input : SelectedUtxo) × (reserved_input packages args.doge_network emitter manager_set utxo
      ≡ ok input)
    × (utxo.amount_sats ≡ p.plan.change_sats)

module _ (packages : Packages) (args : Args) (emitter : List ℕ) (payload : Utx0UnlockPayload)
    (manager_set : ManagerSet) (reservation : CustodyReservation)
    (sized : (bytes : List ℕ) → length (packages.ripemd160 bytes) ≡ 20)
    (typed_utxos : All IsTypedUtxo reservation.utxos)
    (typed_payments : All IsTypedPayment payload.outputs)
    (selected_fits : reservation.selected_amount_sats < 2 ^ 64)
    (few_utxos : length reservation.utxos ≤ 1_000) (few_payments : length payload.outputs < 320)
    (persisted : Option (List ℕ)) (p : PreparedTransaction)
    (s : Steps packages args emitter payload manager_set reservation persisted p) where
  module _ (decode_hex : List ℕ → Option (List ℕ)) (compute_combined_index : ℕ → ℕ → ℕ → ℕ)
      (batch : SnapshotBatch) (graph : PersistedWithdrawalGraph) (count : ℕ)
      (confirmed : ConfirmedWithdrawal)
      (kept_bytes : batch.unsigned_transaction ≡ some p.unsigned_bytes)
      (kept_change : graph.process.return_output_amount_sats ≡ p.plan.change_sats)
      (kept_utxos : graph.reservation.utxos ≡ reservation.utxos) where
    spends_change :
        (utxo : CustodyUtxo)
        → IsChange packages decode_hex compute_combined_index args.doge_network batch graph count
            confirmed utxo
        → IsSpendable packages args emitter manager_set p utxo
    spends_change utxo c =
        let (script, made, h) =
          change_hash-some packages emitter manager_set p.plan.change_sats p.change_script_hash
            (ap (λ n. n == 0) (sym kept_change) ∙ c.not_zero) s.hashed in
        let (bytes, recovered, change, has, read, ends, amount, address) =
          check_prepared_change-ok batch graph.reservation.utxos c.output (slice 2 22 c.script)
            c.checked in
        let same_bytes : bytes ≡ p.unsigned_bytes = some-same (sym has ∙ kept_bytes) in
        let outputs =
          recovered-outputs packages args emitter payload manager_set reservation sized typed_utxos
            typed_payments selected_fits few_utxos few_payments persisted p s recovered
            (ap (λ b. from_persisted_bytes b (map placeholder_input reservation.utxos))
                (sym same_bytes)
              ∙ ap (λ us. from_persisted_bytes bytes (map placeholder_input us)) (sym kept_utxos)
              ∙ read) in
        let paid : TransactionOutput = record {
          amount = p.plan.change_sats;
          address_type = p2sh;
          address = hash160 packages script;
        } in
        let shape : all_outputs packages args emitter payload manager_set reservation sized
              typed_utxos typed_payments selected_fits few_utxos few_payments persisted p s
            ≡ map payload_output payload.outputs ++ (paid ∷ []) =
          ap (λ o. map payload_output payload.outputs ++ o)
            (ap (change_output p.plan.change_sats) h
              ∙ change_output-some p.plan.change_sats (hash160 packages script)) in
        let same : change ≡ paid = some-same (
          sym ends
          ∙ ap last (outputs ∙ shape)
          ∙ last-append (map payload_output payload.outputs) paid) in
        let hash : slice 2 22 c.script ≡ hash160 packages script =
          sym address ∙ ap (λ o. o.address) same in
        let (input, spent) =
          reserved_input-made packages args.doge_network emitter manager_set utxo script
            (ap (λ r. build_redeem_script 1 emitter r manager_set.m manager_set.pubkeys) c.recipient
              ∙ made)
            (ap (encode_address packages.base58_check args.doge_network 1) (sym hash) ∙ c.address)
            (c.hex
              ∙ ap packages.encode_hex
                  (sym (p2sh_script c.script c.is_p2sh) ∙ ap p2sh_script_pubkey hash)) in
        (input, spent, c.amount ∙ sym amount ∙ ap (λ o. o.amount) same)
      where
        some-same : {A : Type 0} {a b : A} → ◌≡◌ {A = Option A} (some a) (some b) → a ≡ b
        some-same e = cc

module _ (packages : Packages) (args : Args) (emitter : List ℕ) (payload : Utx0UnlockPayload)
    (manager_set : ManagerSet) (reservation : CustodyReservation)
    (sized : (bytes : List ℕ) → length (packages.ripemd160 bytes) ≡ 20)
    (typed_utxos : All IsTypedUtxo reservation.utxos)
    (typed_payments : All IsTypedPayment payload.outputs)
    (selected_fits : reservation.selected_amount_sats < 2 ^ 64)
    (few_utxos : length reservation.utxos ≤ 1_000) (few_payments : length payload.outputs < 320)
    (decode_hex : List ℕ → Option (List ℕ)) (compute_combined_index : ℕ → ℕ → ℕ → ℕ)
    (batch : SnapshotBatch) (graph : PersistedWithdrawalGraph) (count : ℕ)
    (confirmed : ConfirmedWithdrawal) where
  -- When a withdrawal was prepared, and the batch and the graph have its bytes, its change and its
  -- reserved outputs, the output that derive_confirmed_change returns has the amount of the change,
  -- and is accepted by reserved_input as the input of a later withdrawal of the same managers; for
  -- at most 1000 reserved outputs and fewer than 320 payments whose fields fit, a selected amount
  -- below 2^64, and a RIPEMD-160 of 20 bytes.
  pub derive_confirmed_change-IsSpendable :
      (persisted : Option (List ℕ)) (p : PreparedTransaction) (utxo : CustodyUtxo)
      → prepared_from_reservation packages args emitter payload manager_set reservation persisted
        ≡ ok p
      → batch.unsigned_transaction ≡ some p.unsigned_bytes
      → graph.process.return_output_amount_sats ≡ p.plan.change_sats
      → graph.reservation.utxos ≡ reservation.utxos
      → derive_confirmed_change packages decode_hex compute_combined_index args.doge_network batch
          graph count confirmed
        ≡ ok (some utxo)
      → IsSpendable packages args emitter manager_set p utxo
  derive_confirmed_change-IsSpendable persisted p utxo prepared kept_bytes kept_change kept_utxos
        derived =
      spends_change packages args emitter payload manager_set reservation sized typed_utxos
        typed_payments selected_fits few_utxos few_payments persisted p
        (prepared_from_reservation-Steps packages args emitter payload manager_set reservation
          persisted p prepared)
        decode_hex compute_combined_index batch graph count confirmed kept_bytes kept_change
        kept_utxos utxo
        (derive_confirmed_change-IsChange packages decode_hex compute_combined_index
          args.doge_network batch graph count confirmed utxo derived)
