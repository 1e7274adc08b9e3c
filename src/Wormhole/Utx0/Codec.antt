-- ===== src/Wormhole/Utx0/Codec.antt =====
-- The two directions of the payload codec.
use psy_doge_solana_cli.Common.{
  ℕ, ◌+◌, ◌*◌, ◌/◌, ◌^◌, ◌<◌, ◌≡◌, refl, ◌∙◌, List, [], ◌∷◌, ◌++◌, eqb, length, All, ok, arith,
  le→ltb, lt→ltb, ◌>>=◌, be_bytes, from_be, AreBytes, from_be-be_bytes, take_all, slice_front,
  drop_skip, length-be_bytes, slice_skip, length-append,
}
use psy_doge_solana_cli.Wormhole.Utx0.{
  UtxoAddressType, p2pkh, p2sh, from_u32, to_u32, Utx0Output, Utx0UnlockPayload, utx0_prefix,
  serialize_output, parse_output, serialize_outputs, serialize, chunks, parse_outputs, parse,
}

pub record IsValidOutput (o : Utx0Output) : Type 0 where
  pub amount_fits : o.amount < 2 ^ 64
  pub address_length : length o.address ≡ 20
  pub address_bytes : AreBytes o.address

pub record IsValid (p : Utx0UnlockPayload) : Type 0 where
  pub chain_fits : p.destination_chain < 2 ^ 16
  pub index_fits : p.delegated_manager_set_index < 2 ^ 32
  pub count_fits : length p.outputs < 2 ^ 32
  pub outputs_valid : All IsValidOutput p.outputs

from_u32-to_u32 : (t : UtxoAddressType) → from_u32 (from_be (be_bytes 4 (to_u32 t))) ≡ ok t
unfolding from_u32 from_be be_bytes
from_u32-to_u32 p2pkh = refl
from_u32-to_u32 p2sh = refl

parse_output_parts :
    (a t r : List ℕ) (ty : UtxoAddressType)
    → length a ≡ 8
    → length t ≡ 4
    → length r ≡ 20
    → from_u32 (from_be t) ≡ ok ty
    → parse_output (a ++ (t ++ r))
      ≡ ok (record { amount = from_be a; address_type = ty; address = r })
unfolding parse_output
parse_output_parts a t r ty ha ht hr e = rw (
  le→ltb (length (a ++ (t ++ r))) 32 (omega (arith, length-append a (t ++ r), length-append t r)),
  slice_front a (t ++ r) 8 ha,
  slice_skip a (t ++ r) 8 8 12 ha (omega arith),
  slice_skip a (t ++ r) 8 12 32 ha (omega arith),
  slice_front t r 4 ht,
  slice_skip t r 4 4 24 ht (omega arith),
  e,
  take_all r 20 (omega arith),
)

length-serialize_output : (o : Utx0Output) → IsValidOutput o → length (serialize_output o) ≡ 32
unfolding serialize_output
length-serialize_output o v = omega (
  arith,
  length-append (be_bytes 8 o.amount) (be_bytes 4 (to_u32 o.address_type) ++ o.address),
  length-append (be_bytes 4 (to_u32 o.address_type)) o.address,
  length-be_bytes 8 o.amount,
  length-be_bytes 4 (to_u32 o.address_type),
)

-- An output that fits its fields is read back from the 32 bytes that it is written as.
parse_output-serialize_output :
    (o : Utx0Output) → IsValidOutput o → parse_output (serialize_output o) ≡ ok o
unfolding serialize_output
parse_output-serialize_output o v =
    parse_output_parts (be_bytes 8 o.amount) (be_bytes 4 (to_u32 o.address_type)) o.address
      o.address_type (length-be_bytes 8 o.amount) (length-be_bytes 4 (to_u32 o.address_type))
      v.address_length (from_u32-to_u32 o.address_type)
    ∙ rw (from_be-be_bytes 8 o.amount v.amount_fits)

length-serialize_outputs :
    (os : List Utx0Output) → All IsValidOutput os → length (serialize_outputs os) ≡ length os * 32
unfolding serialize_outputs
length-serialize_outputs [] v = refl
length-serialize_outputs (o ∷ os) v = omega (
  arith,
  length-append (serialize_output o) (serialize_outputs os),
  length-serialize_output o v.0,
  length-serialize_outputs os v.1,
)

parse_outputs-serialize_outputs :
    (os : List Utx0Output) (index : ℕ)
    → All IsValidOutput os
    → parse_outputs index (chunks 32 (length os) (serialize_outputs os)) ≡ ok os
unfolding parse_outputs chunks serialize_outputs
parse_outputs-serialize_outputs [] index v = refl
parse_outputs-serialize_outputs (o ∷ os) index v = rw (
  slice_front (serialize_output o) (serialize_outputs os) 32 (length-serialize_output o v.0),
  drop_skip (serialize_output o) (serialize_outputs os) 32 32 (length-serialize_output o v.0)
      (omega arith),
  parse_output-serialize_output o v.0,
  parse_outputs-serialize_outputs os (index + 1) v.1,
)

-- Whatever the fields, `serialize` writes this for a number of outputs below 2 ^ 32.
abbrev encoding : List ℕ → List ℕ → List ℕ → List ℕ → List ℕ
encoding chain index count body = utx0_prefix ++ (chain ++ (index ++ (count ++ body)))

pub serialize_lem :
    (p : Utx0UnlockPayload)
    → length p.outputs < 2 ^ 32
    → serialize p
      ≡ ok (
          encoding
            (be_bytes 2 p.destination_chain)
            (be_bytes 4 p.delegated_manager_set_index)
            (be_bytes 4 (length p.outputs))
            (serialize_outputs p.outputs))
unfolding serialize
serialize_lem p h = rw (
  lt→ltb (length p.outputs) (2 ^ 32) h,
  lt→ltb (length p.outputs * 32) (2 ^ 64) (omega arith),
  lt→ltb (14 + length p.outputs * 32) (2 ^ 64) (omega arith),
)

parse_parts :
    (chain index count body : List ℕ) (n : ℕ) (os : List Utx0Output)
    → length chain ≡ 2
    → length index ≡ 4
    → length count ≡ 4
    → from_be count ≡ n
    → n < 2 ^ 32
    → length body ≡ n * 32
    → parse_outputs 0 (chunks 32 n body) ≡ ok os
    → parse (encoding chain index count body)
      ≡ ok (record {
        destination_chain = from_be chain;
        delegated_manager_set_index = from_be index;
        outputs = os;
      })
unfolding parse eqb
parse_parts chain index count body n os hc hi hn en fits hb e =
    rw
      (
        slice_front chain (index ++ (count ++ body)) 2 hc,
        slice_skip chain (index ++ (count ++ body)) 2 2 6 hc (omega arith),
        slice_skip chain (index ++ (count ++ body)) 2 6 10 hc (omega arith),
        drop_skip chain (index ++ (count ++ body)) 2 10 hc (omega arith),
        slice_front index (count ++ body) 4 hi,
        slice_skip index (count ++ body) 4 4 8 hi (omega arith),
        drop_skip index (count ++ body) 4 8 hi (omega arith),
        slice_front count body 4 hn,
        drop_skip count body 4 4 hn (omega arith),
        total,
        chunk_count,
        en,
      )
      (ground (arith, e))
  where
    total : length (chain ++ (index ++ (count ++ body))) ≡ 10 + n * 32
    total = omega (
      arith,
      length-append chain (index ++ (count ++ body)),
      length-append index (count ++ body),
      length-append count body,
    )

    chunk_count : length body / 32 ≡ n
    chunk_count = omega arith

-- A payload whose fields fit is written, and is read back from the bytes that it is written as.
pub parse-serialize : (p : Utx0UnlockPayload) → IsValid p → (serialize p >>= parse) ≡ ok p
parse-serialize p v = rw (serialize_lem p v.count_fits) (
    parse_parts (be_bytes 2 p.destination_chain) (be_bytes 4 p.delegated_manager_set_index)
      (be_bytes 4 (length p.outputs)) (serialize_outputs p.outputs) (length p.outputs) p.outputs
      (length-be_bytes 2 _) (length-be_bytes 4 _) (length-be_bytes 4 _)
      (from_be-be_bytes 4 _ v.count_fits) v.count_fits
      (length-serialize_outputs p.outputs v.outputs_valid)
      (parse_outputs-serialize_outputs p.outputs 0 v.outputs_valid)
    ∙ rw (from_be-be_bytes 2 _ v.chain_fits, from_be-be_bytes 4 _ v.index_fits))
