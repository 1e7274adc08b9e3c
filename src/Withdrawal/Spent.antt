-- ===== src/Withdrawal/Spent.antt =====
-- `tracked_utxo_spent_commitment` of doge/src/lib.rs.
--
-- SHA-256 is a parameter. Leaf indices are u64, output indices u32, and a txid has 32 bytes.
pub mod Order
pub mod Distinct
pub mod Committed
pub mod Sorting
use psy_doge_solana_cli.Common.{
  ℕ, List, [], ◌∷◌, ◌++◌, Bool, true, false, ◌&&◌, ◌||◌, ltb, leb, ◌==◌, eqb, if◌then◌else◌, length,
  le_bytes, Result, ok, err, bail_if, ◌>>=◌, ◌>>◌,
}

pub record TrackedSpentOutpoint : Type 0 where
  pub txid : List ℕ
  pub vout : ℕ
  pub leaf_index : ℕ

pub data Error : Type 0 where
  no_outpoints : Error
  duplicate_leaf : ℕ → Error

-- `<` on byte strings.
unfoldable pub bytes_lt : List ℕ → List ℕ → Bool
bytes_lt _ [] = false
bytes_lt [] (y ∷ ys) = true
bytes_lt (x ∷ xs) (y ∷ ys) = ltb x y || (x == y && bytes_lt xs ys)

-- `<=` on the keys `(leaf_index, txid, vout)`.
unfoldable pub key_le : TrackedSpentOutpoint → TrackedSpentOutpoint → Bool
key_le a b =
    ltb a.leaf_index b.leaf_index
    || (a.leaf_index == b.leaf_index
        && (bytes_lt a.txid b.txid || (eqb a.txid b.txid && leb a.vout b.vout)))

-- `sort_unstable_by_key`: outpoints with the same key are the same.
unfoldable pub insert_by_key :
    TrackedSpentOutpoint → List TrackedSpentOutpoint → List TrackedSpentOutpoint
insert_by_key o [] = o ∷ []
insert_by_key o (p ∷ ps) = if key_le o p then o ∷ (p ∷ ps) else p ∷ insert_by_key o ps

unfoldable pub sort_by_key : List TrackedSpentOutpoint → List TrackedSpentOutpoint
sort_by_key [] = []
sort_by_key (o ∷ os) = insert_by_key o (sort_by_key os)

-- The loop over `windows(2)`.
unfoldable pub check_windows : List TrackedSpentOutpoint → Result Error (Unit {0})
check_windows (a ∷ (b ∷ rest)) = do
  bail_if (a.leaf_index == b.leaf_index) (duplicate_leaf a.leaf_index)
  check_windows (b ∷ rest)
check_windows _ = ok tt

-- b"psy-doge-local-tracked-spent-v1"
abbrev pub domain : List ℕ
domain =
    112 ∷ 115 ∷ 121 ∷ 45 ∷ 100 ∷ 111 ∷ 103 ∷ 101 ∷ 45 ∷ 108 ∷ 111 ∷ 99 ∷ 97 ∷ 108 ∷ 45 ∷ 116 ∷ 114
    ∷ 97 ∷ 99 ∷ 107 ∷ 101 ∷ 100 ∷ 45 ∷ 115 ∷ 112 ∷ 101 ∷ 110 ∷ 116 ∷ 45 ∷ 118 ∷ 49 ∷ []

-- The loop that extends the preimage.
unfoldable pub outpoint_bytes : List TrackedSpentOutpoint → List ℕ
outpoint_bytes [] = []
outpoint_bytes (o ∷ os) =
    le_bytes 8 o.leaf_index ++ (o.txid ++ (le_bytes 4 o.vout ++ outpoint_bytes os))

unfoldable pub preimage : List ℕ → List TrackedSpentOutpoint → List ℕ
preimage old_root ordered =
    domain ++ (old_root ++ (le_bytes 8 (length ordered) ++ outpoint_bytes ordered))

unfoldable pub tracked_utxo_spent_commitment :
    (List ℕ → List ℕ) → List ℕ → List TrackedSpentOutpoint → Result Error (List ℕ)
tracked_utxo_spent_commitment sha256 old_root outpoints = do
  bail_if (length outpoints == 0) no_outpoints
  let ordered = sort_by_key outpoints
  done ← check_windows ordered
  ok (sha256 (preimage old_root ordered))
