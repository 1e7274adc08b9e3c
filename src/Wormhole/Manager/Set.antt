-- ===== src/Wormhole/Manager/Set.antt =====
-- `ManagerSet` of doge/src/wormhole/manager.rs, and the local set of seven keys.
pub mod Codec
use psy_doge_solana_cli.Common.{
  ℕ, zero, suc, ◌+◌, ◌*◌, List, [], ◌∷◌, ◌++◌, Bool, true, false, ltb, length, slice, Result, ok,
  err, bail_if, ◌>>=◌, ◌>>◌, ◌==◌, if◌then◌else◌,
}
use psy_doge_solana_cli.Wormhole.Tx.Persisted.{byte_at}
use psy_doge_solana_cli.Wormhole.Manager.Errors.{
  Error, set_too_short, set_truncated, unknown_set_index,
}

pub record ManagerSet : Type 0 where
  pub m : ℕ
  pub n : ℕ
  pub pubkeys : List (List ℕ)

-- The loop over the keys: `count` of them, from number `i` on.
unfoldable pub read_pubkeys : List ℕ → ℕ → ℕ → List (List ℕ)
read_pubkeys bytes i zero = []
read_pubkeys bytes i (suc count) =
    slice (3 + i * 33) (3 + (i + 1) * 33) bytes ∷ read_pubkeys bytes (i + 1) count

unfoldable pub parse : List ℕ → Result Error ManagerSet
parse bytes = do
  bail_if (ltb (length bytes) 3) (set_too_short (length bytes))
  let m = byte_at bytes 1
  let n = byte_at bytes 2
  bail_if (ltb (length bytes) (3 + n * 33)) (set_truncated (3 + n * 33) n (length bytes))
  ok (record { m = m; n = n; pubkeys = read_pubkeys bytes 0 n })

unfoldable pub concat_keys : List (List ℕ) → List ℕ
concat_keys [] = []
concat_keys (pk ∷ pks) = pk ++ concat_keys pks

unfoldable pub serialize : ManagerSet → List ℕ
serialize set = 0 ∷ (set.m ∷ (set.n ∷ concat_keys set.pubkeys))

abbrev pub local_regtest_manager_set_m : ℕ
local_regtest_manager_set_m = 5

abbrev pub local_regtest_manager_set_n : ℕ
local_regtest_manager_set_n = 7

-- A private key of 31 zero bytes and a last byte.
abbrev scalar : ℕ → List ℕ
scalar k =
    0 ∷ 0 ∷ 0 ∷ 0 ∷ 0 ∷ 0 ∷ 0 ∷ 0 ∷ 0 ∷ 0 ∷ 0 ∷ 0 ∷ 0 ∷ 0 ∷ 0 ∷ 0 ∷ 0 ∷ 0 ∷ 0 ∷ 0 ∷ 0 ∷ 0 ∷ 0 ∷ 0
    ∷ 0 ∷ 0 ∷ 0 ∷ 0 ∷ 0 ∷ 0 ∷ 0 ∷ k ∷ []

abbrev pub local_regtest_manager_set_pubkeys : List (List ℕ)
local_regtest_manager_set_pubkeys =
    (0x02 ∷ 0x79 ∷ 0xbe ∷ 0x66 ∷ 0x7e ∷ 0xf9 ∷ 0xdc ∷ 0xbb ∷ 0xac ∷ 0x55 ∷ 0xa0 ∷ 0x62 ∷ 0x95 ∷ 0xce
      ∷ 0x87 ∷ 0x0b ∷ 0x07 ∷ 0x02 ∷ 0x9b ∷ 0xfc ∷ 0xdb ∷ 0x2d ∷ 0xce ∷ 0x28 ∷ 0xd9 ∷ 0x59 ∷ 0xf2
      ∷ 0x81 ∷ 0x5b ∷ 0x16 ∷ 0xf8 ∷ 0x17 ∷ 0x98 ∷ [])
    ∷ (0x02 ∷ 0xc6 ∷ 0x04 ∷ 0x7f ∷ 0x94 ∷ 0x41 ∷ 0xed ∷ 0x7d ∷ 0x6d ∷ 0x30 ∷ 0x45 ∷ 0x40 ∷ 0x6e
        ∷ 0x95 ∷ 0xc0 ∷ 0x7c ∷ 0xd8 ∷ 0x5c ∷ 0x77 ∷ 0x8e ∷ 0x4b ∷ 0x8c ∷ 0xef ∷ 0x3c ∷ 0xa7 ∷ 0xab
        ∷ 0xac ∷ 0x09 ∷ 0xb9 ∷ 0x5c ∷ 0x70 ∷ 0x9e ∷ 0xe5 ∷ [])
    ∷ (0x02 ∷ 0xf9 ∷ 0x30 ∷ 0x8a ∷ 0x01 ∷ 0x92 ∷ 0x58 ∷ 0xc3 ∷ 0x10 ∷ 0x49 ∷ 0x34 ∷ 0x4f ∷ 0x85
        ∷ 0xf8 ∷ 0x9d ∷ 0x52 ∷ 0x29 ∷ 0xb5 ∷ 0x31 ∷ 0xc8 ∷ 0x45 ∷ 0x83 ∷ 0x6f ∷ 0x99 ∷ 0xb0 ∷ 0x86
        ∷ 0x01 ∷ 0xf1 ∷ 0x13 ∷ 0xbc ∷ 0xe0 ∷ 0x36 ∷ 0xf9 ∷ [])
    ∷ (0x02 ∷ 0xe4 ∷ 0x93 ∷ 0xdb ∷ 0xf1 ∷ 0xc1 ∷ 0x0d ∷ 0x80 ∷ 0xf3 ∷ 0x58 ∷ 0x1e ∷ 0x49 ∷ 0x04
        ∷ 0x93 ∷ 0x0b ∷ 0x14 ∷ 0x04 ∷ 0xcc ∷ 0x6c ∷ 0x13 ∷ 0x90 ∷ 0x0e ∷ 0xe0 ∷ 0x75 ∷ 0x84 ∷ 0x74
        ∷ 0xfa ∷ 0x94 ∷ 0xab ∷ 0xe8 ∷ 0xc4 ∷ 0xcd ∷ 0x13 ∷ [])
    ∷ (0x02 ∷ 0x2f ∷ 0x8b ∷ 0xde ∷ 0x4d ∷ 0x1a ∷ 0x07 ∷ 0x20 ∷ 0x93 ∷ 0x55 ∷ 0xb4 ∷ 0xa7 ∷ 0x25
        ∷ 0x0a ∷ 0x5c ∷ 0x51 ∷ 0x28 ∷ 0xe8 ∷ 0x8b ∷ 0x84 ∷ 0xbd ∷ 0xdc ∷ 0x61 ∷ 0x9a ∷ 0xb7 ∷ 0xcb
        ∷ 0xa8 ∷ 0xd5 ∷ 0x69 ∷ 0xb2 ∷ 0x40 ∷ 0xef ∷ 0xe4 ∷ [])
    ∷ (0x03 ∷ 0xff ∷ 0xf9 ∷ 0x7b ∷ 0xd5 ∷ 0x75 ∷ 0x5e ∷ 0xee ∷ 0xa4 ∷ 0x20 ∷ 0x45 ∷ 0x3a ∷ 0x14
        ∷ 0x35 ∷ 0x52 ∷ 0x35 ∷ 0xd3 ∷ 0x82 ∷ 0xf6 ∷ 0x47 ∷ 0x2f ∷ 0x85 ∷ 0x68 ∷ 0xa1 ∷ 0x8b ∷ 0x2f
        ∷ 0x05 ∷ 0x7a ∷ 0x14 ∷ 0x60 ∷ 0x29 ∷ 0x75 ∷ 0x56 ∷ [])
    ∷ (0x02 ∷ 0x5c ∷ 0xbd ∷ 0xf0 ∷ 0x64 ∷ 0x6e ∷ 0x5d ∷ 0xb4 ∷ 0xea ∷ 0xa3 ∷ 0x98 ∷ 0xf3 ∷ 0x65
        ∷ 0xf2 ∷ 0xea ∷ 0x7a ∷ 0x0e ∷ 0x3d ∷ 0x41 ∷ 0x9b ∷ 0x7e ∷ 0x03 ∷ 0x30 ∷ 0xe3 ∷ 0x9c ∷ 0xe9
        ∷ 0x2b ∷ 0xdd ∷ 0xed ∷ 0xca ∷ 0xc4 ∷ 0xf9 ∷ 0xbc ∷ [])
    ∷ []

abbrev pub local_regtest_manager_private_keys : List (List ℕ)
local_regtest_manager_private_keys =
    scalar 1 ∷ scalar 2 ∷ scalar 3 ∷ scalar 4 ∷ scalar 5 ∷ scalar 6 ∷ scalar 7 ∷ []

unfoldable pub local_regtest_manager_set : ManagerSet
local_regtest_manager_set = record {
  m = local_regtest_manager_set_m;
  n = local_regtest_manager_set_n;
  pubkeys = local_regtest_manager_set_pubkeys;
}

-- The official testnet set, which is hexadecimal text, is a parameter.
unfoldable pub manager_set_for_index : Result Error ManagerSet → ℕ → Result Error ManagerSet
manager_set_for_index official_testnet_manager_set_1 index =
    if index == 0
    then ok local_regtest_manager_set
    else if index == 1
    then official_testnet_manager_set_1
    else err (unknown_set_index index)
