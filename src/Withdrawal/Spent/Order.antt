-- ===== src/Withdrawal/Spent/Order.antt =====
-- The order of the keys that the spent outpoints are sorted by.
use psy_doge_solana_cli.Common.{ℕ, ◌≡◌, refl, List, [], ◌∷◌, true, false, eqb→eq, eqb_refl, arith}
use psy_doge_solana_cli.Withdrawal.Spent.{TrackedSpentOutpoint, bytes_lt, key_le}

bytes_lt_irrefl : (xs : List ℕ) → bytes_lt xs xs ≡ false
unfolding bytes_lt
bytes_lt_irrefl [] = refl
bytes_lt_irrefl (x ∷ xs) = ground (arith, bytes_lt_irrefl xs)

bytes_lt_trans :
    (xs ys zs : List ℕ) → bytes_lt xs ys ≡ true → bytes_lt ys zs ≡ true → bytes_lt xs zs ≡ true
unfolding bytes_lt
bytes_lt_trans xs ys [] h k = ground arith
bytes_lt_trans xs [] (z ∷ zs) h k = ground arith
bytes_lt_trans [] (y ∷ ys) (z ∷ zs) h k = refl
bytes_lt_trans (x ∷ xs) (y ∷ ys) (z ∷ zs) h k = ground (arith, bytes_lt_trans xs ys zs)

bytes_lt_total : (xs ys : List ℕ) → bytes_lt xs ys ≡ false → bytes_lt ys xs ≡ false → xs ≡ ys
unfolding bytes_lt
bytes_lt_total [] [] h k = refl
bytes_lt_total [] (y ∷ ys) h k = ground arith
bytes_lt_total (x ∷ xs) [] h k = ground arith
bytes_lt_total (x ∷ xs) (y ∷ ys) h k = ground (arith, bytes_lt_total xs ys)

pub key_le_trans :
    (a b c : TrackedSpentOutpoint) → key_le a b ≡ true → key_le b c ≡ true → key_le a c ≡ true
unfolding key_le
key_le_trans a b c h k = grind (
  arith,
  bytes_lt_trans a.txid b.txid c.txid,
  eqb→eq a.txid b.txid,
  eqb→eq b.txid c.txid,
  eqb_refl,
)

pub key_le_total : (a b : TrackedSpentOutpoint) → key_le a b ≡ false → key_le b a ≡ true
unfolding key_le
key_le_total a b h = grind (arith, bytes_lt_total a.txid b.txid, eqb_refl)

key_same :
    (a b : TrackedSpentOutpoint)
    → key_le a b ≡ true
    → key_le b a ≡ true
    → (a.leaf_index ≡ b.leaf_index) × (a.txid ≡ b.txid) × (a.vout ≡ b.vout)
unfolding key_le
key_same a b h k = ground (
  arith,
  bytes_lt_trans a.txid b.txid a.txid,
  bytes_lt_irrefl a.txid,
  bytes_lt_trans b.txid a.txid b.txid,
  bytes_lt_irrefl b.txid,
  eqb→eq a.txid b.txid,
  eqb→eq b.txid a.txid,
)

pub key_le_antisym : (a b : TrackedSpentOutpoint) → key_le a b ≡ true → key_le b a ≡ true → a ≡ b
key_le_antisym a b h k =
    let (leaf, txid, vout) = key_same a b h k in
    λ i. record { txid = txid i; vout = vout i; leaf_index = leaf i }
