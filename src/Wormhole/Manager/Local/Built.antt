-- ===== src/Wormhole/Manager/Local/Built.antt =====
-- What a registration is checked for, and what is built of it.
use psy_doge_solana_cli.Common.{
  ℕ, suc, zero, ◌+◌, ◌≡◌, refl, sym, ap, ◌∙◌, List, [], ◌∷◌, ◌++◌, map, true, eqb→eq, length,
  get_elem?, drop, All, ◌≤◌, ok, >>=-ok, Result-cases, inl, inr, arith, collect,
}
use psy_doge_solana_cli.Wormhole.Utx0
use psy_doge_solana_cli.Wormhole.Utx0.{UtxoAddressType, p2pkh, p2sh, Utx0Output, Utx0UnlockPayload}
use psy_doge_solana_cli.Wormhole.Tx as Transaction
use psy_doge_solana_cli.Wormhole.Tx.{TransactionOutput, UnsignedTransaction, SelectedUtxo}
use psy_doge_solana_cli.Wormhole.Manager.Set.{local_regtest_manager_set}
use psy_doge_solana_cli.Wormhole.Manager.Vaa.{
  VaaKey, LocalWithdrawalRegistration, synthesize_local_vaa,
}
use psy_doge_solana_cli.Wormhole.Manager.Signatures.{Secp256k1}
use psy_doge_solana_cli.Wormhole.Manager.Local.{
  LocalSignedWithdrawal, type_eqb, check_outputs, check_change, selected_input, check_registration,
  build_local_signed_withdrawal,
}

-- What an authorized output asks for.
abbrev pub payment : Utx0Output → TransactionOutput
payment o = record { amount = o.amount; address_type = o.address_type; address = o.address }

pub type_eqb→eq : (a b : UtxoAddressType) → type_eqb a b ≡ true → a ≡ b
unfolding type_eqb
type_eqb→eq p2pkh p2pkh h = refl
type_eqb→eq p2sh p2sh h = refl
type_eqb→eq p2pkh p2sh h = absurd (ground arith)
type_eqb→eq p2sh p2pkh h = absurd (ground arith)

check_step :
    (index : ℕ) (a : Utx0Output) (os : List Utx0Output) (t : TransactionOutput)
    (ts : List TransactionOutput)
    → check_outputs index (a ∷ os) (t ∷ ts) ≡ ok tt
    → (t ≡ payment a) × (check_outputs (index + 1) os ts ≡ ok tt)
unfolding check_outputs
check_step index a os t ts e =
    ground (arith, type_eqb→eq t.address_type a.address_type, eqb→eq t.address a.address)

check_outputs-ok :
    (index : ℕ) (os : List Utx0Output) (ts : List TransactionOutput)
    → check_outputs index os ts ≡ ok tt
    → length os ≤ length ts
    → ts ≡ map payment os ++ drop (length os) ts
check_outputs-ok index [] ts e l = refl
check_outputs-ok index (a ∷ os) [] e l = absurd (omega arith)
check_outputs-ok index (a ∷ os) (t ∷ ts) e l =
    let (first, others) = check_step index a os t ts e in
    ap (λ x. x ∷ ts) first
    ∙ ap (◌∷◌ (payment a)) (check_outputs-ok (index + 1) os ts others (omega arith))

abbrev IsP2sh : TransactionOutput → Type 0
IsP2sh o = o.address_type ≡ p2sh

check_change-ok :
    (n : ℕ) (ts : List TransactionOutput)
    → length ts ≤ n + 1
    → check_change (get_elem? ts n) ≡ ok tt
    → (length (drop n ts) ≤ 1) × All IsP2sh (drop n ts)
unfolding check_change
check_change-ok zero [] l e = (omega arith, tt)
check_change-ok zero (t ∷ []) l e =
    (omega arith, (ground (arith, type_eqb→eq t.address_type p2sh), tt))
check_change-ok zero (t ∷ (u ∷ us)) l e = absurd (omega arith)
check_change-ok (suc n) [] l e = (omega arith, tt)
check_change-ok (suc n) (t ∷ ts) l e = check_change-ok n ts (omega arith) e

-- What `check_registration` has found out, check by check.
check_facts :
    (r : LocalWithdrawalRegistration) (payload : Utx0UnlockPayload) (tx : UnsignedTransaction)
    → check_registration r ≡ ok (payload, tx)
    → (payload.delegated_manager_set_index ≡ 0)
      × (payload.destination_chain ≡ 65)
      × (length payload.outputs ≤ length r.outputs)
      × (length r.outputs ≤ length payload.outputs + 1)
      × (check_outputs 0 payload.outputs r.outputs ≡ ok tt)
      × (check_change (get_elem? r.outputs (length payload.outputs)) ≡ ok tt)
      × (Transaction.serialize tx ≡ r.unsigned_transaction)
unfolding check_registration
check_facts r payload tx e =
    ground (arith, eqb→eq (Transaction.serialize tx) r.unsigned_transaction)

check_values :
    (r : LocalWithdrawalRegistration) (payload : Utx0UnlockPayload) (tx : UnsignedTransaction)
    → check_registration r ≡ ok (payload, tx)
    → (Utx0.parse r.payload ≡ ok payload)
      × (selected : List SelectedUtxo) × (collect
            (selected_input r.key local_regtest_manager_set)
            r.inputs
          ≡ ok selected)
      × (Transaction.new selected r.outputs ≡ ok tx)
unfolding check_registration
check_values r payload tx e =
    elim (Result-cases (collect (selected_input r.key local_regtest_manager_set) r.inputs)) [
      | inl (selected, found) ↦ (parsed, selected, found, made selected found)
      | inr (x, failed) ↦ absurd (ground (arith, failed))
    ]
  where
    parsed : Utx0.parse r.payload ≡ ok payload
    parsed = ground arith

    made :
        (selected : List SelectedUtxo)
        → collect (selected_input r.key local_regtest_manager_set) r.inputs ≡ ok selected
        → Transaction.new selected r.outputs ≡ ok tx
    made selected found = ground (arith, found)

-- A registration that passes the checks has a payload for manager set 0 and Dogecoin, and its bytes
-- are those of a transaction that spends its inputs, under the redeem scripts of the local set, and
-- pays exactly the payload's outputs, in order, and after them at most one more, to a script hash.
pub check_registration-ok :
    (r : LocalWithdrawalRegistration) (payload : Utx0UnlockPayload) (tx : UnsignedTransaction)
    → check_registration r ≡ ok (payload, tx)
    → (Utx0.parse r.payload ≡ ok payload)
      × (payload.delegated_manager_set_index ≡ 0)
      × (payload.destination_chain ≡ 65)
      × (Transaction.serialize tx ≡ r.unsigned_transaction)
      × (selected : List SelectedUtxo) × (change : List TransactionOutput) × (collect
            (selected_input r.key local_regtest_manager_set)
            r.inputs
          ≡ ok selected)
      × (Transaction.new selected (map payment payload.outputs ++ change) ≡ ok tx)
      × (length change ≤ 1)
      × All IsP2sh change
check_registration-ok r payload tx e =
    let (index, chain, few, many, outs, chg, written) = check_facts r payload tx e in
    let (parsed, selected, found, made) = check_values r payload tx e in
    let (one, p2sh_change) = check_change-ok (length payload.outputs) r.outputs many chg in
    let shape = check_outputs-ok 0 payload.outputs r.outputs outs few in
    (
      parsed,
      index,
      chain,
      written,
      selected,
      drop (length payload.outputs) r.outputs,
      found,
      ap (Transaction.new selected) (sym shape) ∙ made,
      one,
      p2sh_change,
    )

module _ (sha256 keccak256 : List ℕ → List ℕ) (secp : Secp256k1) (vaa_id : VaaKey → List ℕ)
    (r : LocalWithdrawalRegistration) (signed : LocalSignedWithdrawal)
    (e : build_local_signed_withdrawal sha256 keccak256 secp vaa_id r ≡ ok signed) where
  pub build-unsigned_transaction :
      (signed.unsigned_transaction ≡ r.unsigned_transaction)
      × (signed.signed_vaa ≡ synthesize_local_vaa r)
  unfolding build_local_signed_withdrawal
  build-unsigned_transaction = ground arith

  pub build-check_registration :
      (checked : Utx0UnlockPayload × UnsignedTransaction) × (check_registration r ≡ ok checked)
  unfolding build_local_signed_withdrawal
  build-check_registration =
      let (checked, e1, rest) = >>=-ok (check_registration r) _ e in (checked, e1)
