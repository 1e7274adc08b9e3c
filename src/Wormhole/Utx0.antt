-- ===== src/Wormhole/Utx0.antt =====
-- doge/src/wormhole/utx0.rs: the outputs-only `UTX0` unlock payload.
--
-- A `[u8; 20]` is a list of numbers whose length `IsValid` fixes. `usize` has 64 bits.
pub mod Codec
pub mod Canonical
use psy_doge_solana_cli.Common.{
  ℕ, zero, suc, ◌+◌, ◌-◌, ◌*◌, ◌/◌, ◌^◌, ◌<◌, ◌≡◌, List, [], ◌∷◌, ◌++◌, Bool, true, false, not, ltb,
  ◌==◌, eqb, if◌then◌else◌, length, take, drop, slice, All, Result, ok, err, ensure, bail_if,
  map_err, ◌>>=◌, ◌>>◌, be_bytes, from_be, checked_add, checked_mul, ok_or,
}

pub data Error : Type 0 where
  unknown_address_type : ℕ → Error
  output_too_short : ℕ → Error
  too_many_outputs : ℕ → Error
  payload_size_overflow output_count_overflow invalid_prefix : Error
  payload_too_short : ℕ → Error
  length_mismatch : ℕ → ℕ → Error
  output_failed : ℕ → Error → Error

pub data UtxoAddressType : Type 0 where
  p2pkh p2sh : UtxoAddressType

unfoldable pub from_u32 : ℕ → Result Error UtxoAddressType
from_u32 value =
    if value == 0
    then ok p2pkh
    else if value == 1
    then ok p2sh
    else err (unknown_address_type value)

-- `address_type as u32`
abbrev pub to_u32 : UtxoAddressType → ℕ
to_u32 p2pkh = 0
to_u32 p2sh = 1

pub record Utx0Output : Type 0 where
  pub amount : ℕ
  pub address_type : UtxoAddressType
  pub address : List ℕ

-- `Utx0Output::SIZE` and `Utx0UnlockPayload::HEADER_SIZE`
abbrev pub output_size : ℕ
output_size = 32

abbrev pub header_size : ℕ
header_size = 14

-- b"UTX0"
abbrev pub utx0_prefix : List ℕ
utx0_prefix = b'U' ∷ b'T' ∷ b'X' ∷ b'0' ∷ []

unfoldable pub serialize_output : Utx0Output → List ℕ
serialize_output o = be_bytes 8 o.amount ++ (be_bytes 4 (to_u32 o.address_type) ++ o.address)

unfoldable pub parse_output : List ℕ → Result Error Utx0Output
parse_output bytes = do
  bail_if (ltb (length bytes) output_size) (output_too_short (length bytes))
  let amount = from_be (slice 0 8 bytes)
  address_type ← from_u32 (from_be (slice 8 12 bytes))
  ok (record { amount = amount; address_type = address_type; address = slice 12 32 bytes })

pub record Utx0UnlockPayload : Type 0 where
  pub destination_chain : ℕ
  pub delegated_manager_set_index : ℕ
  pub outputs : List Utx0Output

unfoldable pub serialize_outputs : List Utx0Output → List ℕ
serialize_outputs [] = []
serialize_outputs (o ∷ os) = serialize_output o ++ serialize_outputs os

unfoldable pub serialize : Utx0UnlockPayload → Result Error (List ℕ)
serialize p = do
  let count = length p.outputs
  bail_if (not (ltb count (2 ^ 32))) (too_many_outputs count)
  size ← ok_or (checked_mul 64 count output_size) payload_size_overflow
  capacity ← ok_or (checked_add 64 header_size size) payload_size_overflow
  ok (
      utx0_prefix
      ++ (be_bytes 2 p.destination_chain
          ++ (be_bytes 4 p.delegated_manager_set_index
              ++ (be_bytes 4 count ++ serialize_outputs p.outputs))))

-- `chunks_exact(k)`: the `n` whole chunks of `k` bytes; a shorter rest is left out.
unfoldable pub chunks : ℕ → ℕ → List ℕ → List (List ℕ)
chunks k zero bytes = []
chunks k (suc n) bytes = take k bytes ∷ chunks k n (drop k bytes)

unfoldable pub chunks_exact : ℕ → List ℕ → List (List ℕ)
unfolding chunks
chunks_exact k bytes = chunks k (length bytes / k) bytes

-- The chunks from number `index` on; the first failure ends it and is given its number.
unfoldable pub parse_outputs : ℕ → List (List ℕ) → Result Error (List Utx0Output)
parse_outputs index [] = ok []
parse_outputs index (chunk ∷ rest) = do
  o ← map_err (output_failed index) (parse_output chunk)
  os ← parse_outputs (index + 1) rest
  ok (o ∷ os)

unfoldable pub parse : List ℕ → Result Error Utx0UnlockPayload
unfolding chunks_exact
parse bytes = do
  bail_if (ltb (length bytes) header_size) (payload_too_short (length bytes))
  ensure (eqb (slice 0 4 bytes) utx0_prefix) invalid_prefix
  let output_count = from_be (slice 10 14 bytes)
  size ← ok_or (checked_mul 64 output_count output_size) output_count_overflow
  expected_size ← ok_or (checked_add 64 header_size size) payload_size_overflow
  ensure (length bytes == expected_size) (length_mismatch expected_size (length bytes))
  outputs ← parse_outputs 0 (chunks_exact output_size (drop header_size bytes))
  ok (record {
    destination_chain = from_be (slice 4 6 bytes);
    delegated_manager_set_index = from_be (slice 6 10 bytes);
    outputs = outputs;
  })
