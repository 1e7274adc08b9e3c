-- ===== src/Withdrawal/Confirmed/Located.antt =====
-- Where a confirmed withdrawal stands, and how deep.
use psy_doge_solana_cli.Common.{
  eq_ignore_ascii_case, ℕ, suc, ◌+◌, ◌-◌, ◌^◌, ◌<◌, ◌≤◌, ◌≡◌, ap, ◌∙◌, List, [], ◌∷◌, true,
  Bool-cases, inl, inr, get_elem?, Option, some, ok, arith,
}
use psy_doge_solana_cli.Withdrawal.Confirmed.{
  ElectrsWithdrawalTransaction, ConfirmedWithdrawal, position, confirmation_count, locate,
  plan_confirmed_withdrawal,
}

position-at :
    (display_txid : List ℕ) (from found : ℕ) (txids : List (List ℕ))
    → position display_txid from txids ≡ some found
    → (from ≤ found)
      × (txid : List ℕ) × (get_elem? txids (found - from) ≡ some txid)
      × (eq_ignore_ascii_case txid display_txid ≡ true)
position-at display_txid from found [] e = unfold position in absurd (ground arith)
position-at display_txid from found (t ∷ ts) e =
    elim (Bool-cases (eq_ignore_ascii_case t display_txid)) [
      | inl here ↦
          let same : found ≡ from = unfold position in ground (arith, here) in
          (omega arith, t, first t ts found from same, here)
      | inr behind ↦
          let (later, txid, place, matches) =
            position-at display_txid (from + 1) found ts
              (unfold position in ground (arith, behind)) in
          (omega arith, txid, next t ts found from later ∙ place, matches)
    ]
  where
    first :
        (x : List ℕ) (xs : List (List ℕ)) (a b : ℕ) → a ≡ b → get_elem? (x ∷ xs) (a - b) ≡ some x
    first x xs a b e = ap (get_elem? (x ∷ xs)) (nothing e)
      where
        nothing : a ≡ b → a - b ≡ 0
        nothing h = omega arith

    next :
        (x : List ℕ) (xs : List (List ℕ)) (a b : ℕ)
        → b + 1 ≤ a
        → get_elem? (x ∷ xs) (a - b) ≡ get_elem? xs (a - (b + 1))
    next x xs a b h = ap (get_elem? (x ∷ xs)) one_less
      where
        one_less : a - b ≡ suc (a - (b + 1))
        one_less = omega arith

locate-facts :
    (parse_block_hash : List ℕ → Option (List ℕ)) (transaction : ElectrsWithdrawalTransaction)
    (display_txid : List ℕ) (block_txids : List (List ℕ)) (tip_height : ℕ) (w : ConfirmedWithdrawal)
    → locate parse_block_hash transaction display_txid block_txids tip_height ≡ ok w
    → (transaction.status.block_height ≡ some w.block_height)
      × (position display_txid 0 block_txids ≡ some w.tx_index)
      × (w.tx_index < 2 ^ 16)
      × (w.block_height + w.confirmations ≡ tip_height + 1)
unfolding locate confirmation_count
locate-facts parse_block_hash transaction display_txid block_txids tip_height w e = ground arith

-- A withdrawal that is planned as confirmed is the transaction that was asked for, is confirmed at
-- its block's height, and stands in the block at its index, which fits 16 bits, under its id up to
-- the case of letters; height and confirmations add up to one more than the tip.
pub plan_confirmed_withdrawal-ok :
    (parse_block_hash : List ℕ → Option (List ℕ)) (transaction : ElectrsWithdrawalTransaction)
    (display_txid : List ℕ) (block_txids : List (List ℕ)) (tip_height : ℕ) (w : ConfirmedWithdrawal)
    → plan_confirmed_withdrawal parse_block_hash transaction display_txid block_txids tip_height
      ≡ ok (some w)
    → (eq_ignore_ascii_case transaction.txid display_txid ≡ true)
      × (transaction.status.confirmed ≡ true)
      × (transaction.status.block_height ≡ some w.block_height)
      × (w.block_height + w.confirmations ≡ tip_height + 1)
      × (w.tx_index < 2 ^ 16)
      × (txid : List ℕ) × (get_elem? block_txids w.tx_index ≡ some txid)
      × (eq_ignore_ascii_case txid display_txid ≡ true)
unfolding plan_confirmed_withdrawal
plan_confirmed_withdrawal-ok parse_block_hash transaction display_txid block_txids tip_height w e =
    let (matches, confirmed, located) = checked in
    let (height, found, fits, depth) =
      locate-facts parse_block_hash transaction display_txid block_txids tip_height w located in
    let (_, txid, place, same) = position-at display_txid 0 w.tx_index block_txids found in
    (
      matches,
      confirmed,
      height,
      depth,
      fits,
      txid,
      ap (get_elem? block_txids) (whole w.tx_index) ∙ place,
      same,
    )
  where
    checked :
        (eq_ignore_ascii_case transaction.txid display_txid ≡ true)
        × (transaction.status.confirmed ≡ true)
        × (locate parse_block_hash transaction display_txid block_txids tip_height ≡ ok w)
    checked = ground arith

    whole : (k : ℕ) → k ≡ k - 0
    whole k = omega arith
