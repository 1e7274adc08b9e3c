-- ===== src/Withdrawal/Confirmed.antt =====
-- `plan_confirmed_withdrawal` of doge/src/commands/process_withdrawal.rs.
--
-- A text is the list of its bytes. `BlockHash::from_str` of the bitcoin package is a parameter.
pub mod Located
use psy_doge_solana_cli.Common.{
  ℕ, zero, suc, ◌+◌, ◌-◌, ◌^◌, List, [], ◌∷◌, map, Bool, true, false, not, ◌&&◌, ltb, leb, eqb,
  if◌then◌else◌, Option, none, some, Result, ok, err, bail_if, ensure, ok_or, checked_sub,
  checked_add, ◌>>=◌, ◌>>◌, eq_ignore_ascii_case,
}
use psy_doge_solana_cli.Withdrawal.Errors.{
  Error, wrong_txid, missing_height, missing_hash, bad_block_hash, absent_from_block,
  index_too_large, tip_precedes,
}

pub record ElectrsWithdrawalOutput : Type 0 where
  pub scriptpubkey : List ℕ
  pub value : ℕ

pub record ElectrsWithdrawalStatus : Type 0 where
  pub confirmed : Bool
  pub block_height : Option ℕ
  pub block_hash : Option (List ℕ)

pub record ElectrsWithdrawalTransaction : Type 0 where
  pub txid : List ℕ
  pub vout : List ElectrsWithdrawalOutput
  pub status : ElectrsWithdrawalStatus

pub record ConfirmedWithdrawal : Type 0 where
  pub transaction : ElectrsWithdrawalTransaction
  pub block_height : ℕ
  pub block_hash : List ℕ
  pub confirmations : ℕ
  pub tx_index : ℕ

-- `position`, counted from `index`.
unfoldable pub position : List ℕ → ℕ → List (List ℕ) → Option ℕ
position display_txid index [] = none
position display_txid index (txid ∷ txids) =
    let later = position display_txid (index + 1) txids in
    if eq_ignore_ascii_case txid display_txid then some index else later

unfoldable pub confirmation_count : ℕ → ℕ → Option ℕ
confirmation_count tip_height block_height = elim (checked_sub tip_height block_height) [
  | none ↦ none
  | some depth ↦ checked_add 32 depth 1
]

unfoldable pub locate :
    (List ℕ → Option (List ℕ))
    → ElectrsWithdrawalTransaction
    → List ℕ
    → List (List ℕ)
    → ℕ
    → Result Error ConfirmedWithdrawal
locate parse_block_hash transaction display_txid block_txids tip_height = do
  block_height ← ok_or transaction.status.block_height missing_height
  block_hash_text ← ok_or transaction.status.block_hash missing_hash
  block_hash ← ok_or (parse_block_hash block_hash_text) bad_block_hash
  tx_index ← ok_or (position display_txid 0 block_txids) absent_from_block
  bail_if (not (ltb tx_index (2 ^ 16))) (index_too_large tx_index)
  confirmations ←
      ok_or (confirmation_count tip_height block_height) (tip_precedes tip_height block_height)
  ok (record {
    transaction = transaction;
    block_height = block_height;
    block_hash = block_hash;
    confirmations = confirmations;
    tx_index = tx_index;
  })

unfoldable pub plan_confirmed_withdrawal :
    (List ℕ → Option (List ℕ))
    → ElectrsWithdrawalTransaction
    → List ℕ
    → List (List ℕ)
    → ℕ
    → Result Error (Option ConfirmedWithdrawal)
plan_confirmed_withdrawal parse_block_hash transaction display_txid block_txids tip_height = do
  bail_if (not (eq_ignore_ascii_case transaction.txid display_txid)) wrong_txid
  if not transaction.status.confirmed then ok none else do
    withdrawal ← locate parse_block_hash transaction display_txid block_txids tip_height
    ok (some withdrawal)
