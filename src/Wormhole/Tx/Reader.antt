-- ===== src/Wormhole/Tx/Reader.antt =====
-- `TransactionReader` of doge/src/wormhole/tx.rs: a cursor over durable bytes.
pub mod Laws
pub mod Yields
use psy_doge_solana_cli.Common.{
  ℕ, zero, suc, ◌+◌, ◌^◌, List, [], ◌∷◌, Bool, true, false, not, ltb, leb, ◌==◌, if◌then◌else◌,
  length, slice, take, drop, Option, none, some, Result, ok, err, checked_add, ok_or, from_le,
}
use psy_doge_solana_cli.Common
use psy_doge_solana_cli.Wormhole.Tx.Errors.{
  Error, Field, length_overflow, truncated, non_canonical_varint, exceeds_platform, trailing_bytes,
}

pub record Reader : Type 0 where
  pub bytes : List ℕ
  pub offset : ℕ

-- A method that may fail; `&mut self` goes in and comes out.
abbrev pub Read : Type 0 → Type 0
Read A = Reader → Result Error (A × Reader)

infixl 5 ◌>>=◌ ◌>>◌
abbrev pub ◌>>=◌ : {A B : Type 0} → Read A → (A → Read B) → Read B
◌>>=◌ m f r = elim (m r) [ ok (a, r') ↦ f a r' | err e ↦ err e ]

abbrev pub ◌>>◌ : {B : Type 0} → Read (Unit {0}) → Read B → Read B
m >> k = m >>= λ _. k

abbrev pub pure : {A : Type 0} → A → Read A
pure a r = ok (a, r)

abbrev pub lift : {A : Type 0} → Result Error A → Read A
lift m r = elim m [ ok a ↦ ok (a, r) | err e ↦ err e ]

-- `if test { bail!(e) }`
abbrev pub reject_if : Bool → Error → Read (Unit {0})
reject_if b e = lift (Common.bail_if b e)

unfoldable pub read_exact : ℕ → Field → Read (List ℕ)
read_exact len field r = elim (checked_add 64 r.offset len) [
  | none ↦ err (length_overflow field)
  | some end ↦
      if leb end (length r.bytes)
      then ok (slice r.offset end r.bytes, record r { offset = end })
      else err (truncated field)
]

-- `read_u32` and `read_u64` are the widths 4 and 8.
unfoldable pub read_le : ℕ → Field → Read ℕ
read_le width field = do bytes ← read_exact width field; pure (from_le bytes)

unfoldable pub first_byte : List ℕ → ℕ
first_byte [] = 0
first_byte (b ∷ bs) = b

-- A number of `width` bytes that is more than `least`.
unfoldable pub read_wide : ℕ → ℕ → Field → Read ℕ
read_wide width least field = do
  value ← read_le width field
  reject_if (leb value least) (non_canonical_varint field)
  pure value

-- The `match first { … }` of `read_count`.
unfoldable pub read_value : ℕ → Field → Read ℕ
read_value first field =
    if leb first 0xfc
    then pure first
    else if first == 0xfd
    then read_wide 2 0xfc field
    else if first == 0xfe
    then read_wide 4 0xffff field
    else read_wide 8 0xffff_ffff field

unfoldable pub read_count : Field → Read ℕ
unfolding first_byte
read_count field = do
  head ← read_exact 1 field
  value ← read_value (first_byte head) field
  reject_if (not (ltb value (2 ^ 64))) (exceeds_platform field)
  pure value

unfoldable pub finish : Read (Unit {0})
finish r = if r.offset == length r.bytes then ok (tt, r) else err trailing_bytes
