-- ===== src/Wormhole/Redeem.antt =====
-- doge/src/wormhole/redeem.rs: the P2SH redeem script that guards a deposit.
--
-- `usize` has 64 bits. Overflow of `-v` wraps, as in a release build.
pub mod Script
pub mod Build
pub mod Injective
use psy_doge_solana_cli.Common.{
  ℕ, zero, suc, ◌+◌, ◌-◌, ◌/◌, ◌%◌, ◌^◌, ◌<◌, List, [], ◌∷◌, ◌++◌, Bool, true, false, not, ◌||◌,
  ltb, leb, ◌==◌, if◌then◌else◌, length, split_last, Option, none, some, Result, ok, err, bail_if,
  ◌>>=◌, ◌>>◌, le_bytes, be_bytes, bit_and, bit_or,
}
use psy_doge_solana_cli.Common.Int.{ℤ, pos, negsuc}

pub data Error : Type 0 where
  too_many_pubkeys : ℕ → Error
  invalid_m_of_n : ℕ → ℕ → Error
  invalid_pubkey_length : ℕ → ℕ → Error

abbrev pub op_pushdata1 : ℕ
op_pushdata1 = 0x4c

abbrev pub op_pushdata2 : ℕ
op_pushdata2 = 0x4d

abbrev pub op_pushdata4 : ℕ
op_pushdata4 = 0x4e

abbrev pub op_0 : ℕ
op_0 = 0x00

abbrev pub op_1negate : ℕ
op_1negate = 0x4f

abbrev pub op_1 : ℕ
op_1 = 0x51

abbrev pub op_2drop : ℕ
op_2drop = 0x6d

abbrev pub op_drop : ℕ
op_drop = 0x75

abbrev pub op_checkmultisig : ℕ
op_checkmultisig = 0xae

abbrev pub max_pubkeys : ℕ
max_pubkeys = 13

abbrev pub compressed_pubkey_len : ℕ
compressed_pubkey_len = 33

-- The bytes in front of the data; `len as u8` and the like keep the low bits.
unfoldable pub push_prefix : ℕ → List ℕ
push_prefix len =
    if leb len 0x4b
    then len % 256 ∷ []
    else if leb len 0xff
    then op_pushdata1 ∷ len % 256 ∷ []
    else if leb len 0xffff
    then op_pushdata2 ∷ le_bytes 2 len
    else op_pushdata4 ∷ le_bytes 4 len

unfoldable pub push_data : List ℕ → List ℕ → List ℕ
push_data buf bytes = buf ++ (push_prefix (length bytes) ++ bytes)

-- `-v` on an i64: the least one stays as it is.
unfoldable pub wrapping_neg : ℤ → ℤ
wrapping_neg (pos zero) = pos zero
wrapping_neg (pos (suc n)) = negsuc n
wrapping_neg (negsuc n) = if n == 2 ^ 63 - 1 then negsuc n else pos (suc n)

-- `v as u128`
unfoldable pub as_u128 : ℤ → ℕ
as_u128 (pos n) = n
as_u128 (negsuc n) = 2 ^ 128 - 1 - n

unfoldable pub is_negative : ℤ → Bool
is_negative (pos n) = false
is_negative (negsuc n) = true

-- `while tmp != 0 { bytes.push(tmp & 0xff); tmp >>= 8; }`; a u128 takes 16 rounds at most.
unfoldable pub magnitude_loop : ℕ → List ℕ → ℕ → List ℕ
magnitude_loop zero bytes tmp = bytes
magnitude_loop (suc fuel) bytes tmp =
    let rest = magnitude_loop fuel (bytes ++ (bit_and tmp 0xff ∷ [])) (tmp / 2 ^ 8) in
    if tmp == 0 then bytes else rest

-- `while bytes.len() > 1 && *bytes.last() == 0x00 { bytes.pop(); }`, a round for each byte.
unfoldable pub strip_loop : ℕ → List ℕ → List ℕ
strip_loop zero bytes = bytes
strip_loop (suc fuel) bytes = elim (split_last bytes) [
  | none ↦ bytes
  | some (front, last) ↦
      let rest = strip_loop fuel front in
      if ltb 1 (length bytes) then (if last == 0 then rest else bytes) else bytes
]

-- The sign goes into the top bit of the last byte, or into a byte of its own if that is taken.
unfoldable pub with_sign : Bool → List ℕ → List ℕ
with_sign neg bytes = elim (split_last bytes) [
  | none ↦ bytes
  | some (front, last) ↦
      if bit_and last 0x80 == 0
      then (if neg then front ++ (bit_or last 0x80 ∷ []) else bytes)
      else bytes ++ ((if neg then 0x80 else 0x00) ∷ [])
]

unfoldable pub or_zero_byte : List ℕ → List ℕ
or_zero_byte [] = 0 ∷ []
or_zero_byte (b ∷ bs) = b ∷ bs

-- The bytes pushed for a number that has no opcode.
unfoldable pub number_bytes : ℤ → List ℕ
unfolding wrapping_neg as_u128 is_negative magnitude_loop strip_loop with_sign or_zero_byte
number_bytes val =
    let neg = is_negative val in
    let v = if neg then wrapping_neg val else val in
    let bytes = or_zero_byte (magnitude_loop 16 [] (as_u128 v)) in
    with_sign neg (strip_loop (length bytes) bytes)

unfoldable pub push_int : List ℕ → ℤ → List ℕ
push_int buf (negsuc zero) = buf ++ (op_1negate ∷ [])
push_int buf (negsuc (suc n)) = push_data buf (number_bytes (negsuc (suc n)))
push_int buf (pos n) =
    if n == 0
    then buf ++ (op_0 ∷ [])
    else if leb n 16
    then buf ++ ((op_1 + n - 1) ∷ [])
    else push_data buf (number_bytes (pos n))

unfoldable pub check_pubkeys : ℕ → List (List ℕ) → Result Error (Unit {0})
check_pubkeys i [] = ok tt
check_pubkeys i (pk ∷ pks) = do
  bail_if (not (length pk == compressed_pubkey_len)) (invalid_pubkey_length i (length pk))
  check_pubkeys (i + 1) pks

unfoldable pub push_pubkeys : List ℕ → List (List ℕ) → List ℕ
push_pubkeys buf [] = buf
push_pubkeys buf (pk ∷ pks) = push_pubkeys (push_data buf pk) pks

unfoldable pub build_redeem_script :
    (emitter_chain : ℕ) (emitter_contract recipient : List ℕ) (m : ℕ) (pubkeys : List (List ℕ))
    → Result Error (List ℕ)
build_redeem_script emitter_chain emitter_contract recipient m pubkeys = do
  bail_if (ltb max_pubkeys (length pubkeys)) (too_many_pubkeys (length pubkeys))
  let n = length pubkeys % 256
  bail_if (ltb m 1 || ltb n m) (invalid_m_of_n m n)
  check_pubkeys 0 pubkeys
  let buf = push_data [] (be_bytes 2 emitter_chain)
  let buf = push_data buf emitter_contract ++ (op_2drop ∷ [])
  let buf = push_data buf recipient ++ (op_drop ∷ [])
  let buf = push_pubkeys (push_int buf (pos m)) pubkeys
  ok (push_int buf (pos n) ++ (op_checkmultisig ∷ []))
