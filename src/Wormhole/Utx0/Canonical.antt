-- ===== src/Wormhole/Utx0/Canonical.antt =====
-- Every byte string that is read as a payload is the one that the payload is written as.
use psy_doge_solana_cli.Common.{
  ℕ, zero, suc, ◌+◌, ◌-◌, ◌*◌, ◌/◌, ◌^◌, ◌<◌, ◌≤◌, ◌≡◌, refl, sym, ap, ◌∙◌, List, [], ◌∷◌, ◌++◌,
  eqb→eq, length, take, drop, slice, All, ok, arith, be_bytes, from_be, from_be-lt, AreBytes,
  IsByte, be_bytes-from_be, take_all, take-append_drop, slice-append_drop, length-slice,
  length-drop, length-take, All-slice, All-drop, All-take,
}
use psy_doge_solana_cli.Wormhole.Utx0.{
  UtxoAddressType, p2pkh, p2sh, from_u32, to_u32, Utx0Output, Utx0UnlockPayload, utx0_prefix,
  serialize_output, parse_output, serialize_outputs, serialize, chunks, chunks_exact, parse_outputs,
  parse,
}
use psy_doge_solana_cli.Wormhole.Utx0.Codec.{IsValidOutput, IsValid, serialize_lem}

to_u32-from_u32 : (v : ℕ) (t : UtxoAddressType) → from_u32 v ≡ ok t → to_u32 t ≡ v
unfolding from_u32
to_u32-from_u32 v p2pkh h = ground arith
to_u32-from_u32 v p2sh h = ground arith

be_bytes-slice :
    (a b k : ℕ) (xs : List ℕ)
    → AreBytes xs
    → b ≤ length xs
    → b - a ≡ k
    → be_bytes k (from_be (slice a b xs)) ≡ slice a b xs
be_bytes-slice a b k xs h le e =
    ap (λ n. be_bytes n (from_be (slice a b xs))) (sym (length-slice a b xs le ∙ e))
    ∙ be_bytes-from_be (slice a b xs) (All-slice IsByte a b xs h)

from_be-slice-lt :
    (a b k : ℕ) (xs : List ℕ)
    → AreBytes xs
    → b ≤ length xs
    → b - a ≡ k
    → from_be (slice a b xs) < 256 ^ k
from_be-slice-lt a b k xs h le e =
    rw (← (length-slice a b xs le ∙ e)) (from_be-lt (slice a b xs) (All-slice IsByte a b xs h))

abbrev Reads : List ℕ → Utx0Output → Type 0
Reads chunk o = (serialize_output o ≡ chunk) × IsValidOutput o

parse_output_fields :
    (chunk : List ℕ) (o : Utx0Output)
    → parse_output chunk ≡ ok o
    → (o.amount ≡ from_be (slice 0 8 chunk))
      × (from_u32 (from_be (slice 8 12 chunk)) ≡ ok o.address_type)
      × (o.address ≡ slice 12 32 chunk)
unfolding parse_output
parse_output_fields chunk o e = ground arith

whole_chunk :
    (chunk : List ℕ)
    → length chunk ≡ 32
    → slice 0 8 chunk ++ (slice 8 12 chunk ++ slice 12 32 chunk) ≡ chunk
whole_chunk chunk l =
    rw
      (
        take_all (drop 12 chunk) 20 (omega (arith, length-drop 12 chunk)),
        slice-append_drop 8 12 chunk (omega arith),
      )
      (slice-append_drop 0 8 chunk (omega arith))

parse_output-Reads :
    (chunk : List ℕ) (o : Utx0Output)
    → AreBytes chunk
    → length chunk ≡ 32
    → parse_output chunk ≡ ok o
    → Reads chunk o
unfolding serialize_output
parse_output-Reads chunk o h l e =
    let (ea, et, er) = parse_output_fields chunk o e in
    (
      rw
          (
            ea,
            er,
            to_u32-from_u32 _ o.address_type et,
            be_bytes-slice 0 8 8 chunk h (omega arith) refl,
            be_bytes-slice 8 12 4 chunk h (omega arith) refl,
          )
          (whole_chunk chunk l),
      record {
        amount_fits = rw ea (from_be-slice-lt 0 8 8 chunk h (omega arith) refl);
        address_length = rw er (length-slice 12 32 chunk (omega arith));
        address_bytes = rw er (All-slice IsByte 12 32 chunk h);
      },
    )

parse_outputs_step :
    (index : ℕ) (c : List ℕ) (cs : List (List ℕ)) (os : List Utx0Output)
    → parse_outputs index (c ∷ cs) ≡ ok os
    → (o : Utx0Output) × (rest : List Utx0Output) × (os ≡ o ∷ rest)
      × (parse_output c ≡ ok o)
      × (parse_outputs (index + 1) cs ≡ ok rest)
unfolding parse_outputs
parse_outputs_step index c cs os e = ground arith

parse_outputs-Reads :
    (n index : ℕ) (body : List ℕ) (os : List Utx0Output)
    → AreBytes body
    → length body ≡ n * 32
    → parse_outputs index (chunks 32 n body) ≡ ok os
    → (serialize_outputs os ≡ body) × (length os ≡ n) × All IsValidOutput os
unfolding serialize_outputs chunks
parse_outputs-Reads zero index [] [] h l e = (refl, refl, tt)
parse_outputs-Reads zero index [] (o ∷ os) h l e = unfold parse_outputs in ground arith
parse_outputs-Reads zero index (b ∷ body) os h l e = absurd (omega arith)
parse_outputs-Reads (suc n) index body os h l e =
    let (o, rest, shape, first, others) = parse_outputs_step index (take 32 body) _ os e in
    let (read, valid) =
      parse_output-Reads (take 32 body) o (All-take IsByte 32 body h)
        (length-take 32 body (omega arith)) first in
    let (written, count, all_valid) =
      parse_outputs-Reads n (index + 1) (drop 32 body) rest (All-drop IsByte 32 body h)
        (omega (arith, length-drop 32 body)) others in
    rw shape (rw (read, written) (take-append_drop 32 body), ap suc count, (valid, all_valid))

parse_fields :
    (bytes : List ℕ) (p : Utx0UnlockPayload)
    → parse bytes ≡ ok p
    → (length bytes ≡ 14 + from_be (slice 10 14 bytes) * 32)
      × (slice 0 4 bytes ≡ utx0_prefix)
      × (p.destination_chain ≡ from_be (slice 4 6 bytes))
      × (p.delegated_manager_set_index ≡ from_be (slice 6 10 bytes))
      × (parse_outputs 0 (chunks_exact 32 (drop 14 bytes)) ≡ ok p.outputs)
unfolding parse
parse_fields bytes p e = ground (arith, eqb→eq (slice 0 4 bytes) utx0_prefix)

whole_payload :
    (bytes front : List ℕ)
    → 14 ≤ length bytes
    → slice 0 4 bytes ≡ front
    → front ++ (slice 4 6 bytes ++ (slice 6 10 bytes ++ (slice 10 14 bytes ++ drop 14 bytes)))
      ≡ bytes
whole_payload bytes front l e =
    rw
      (
        ← e,
        slice-append_drop 10 14 bytes (omega arith),
        slice-append_drop 6 10 bytes (omega arith),
        slice-append_drop 4 6 bytes (omega arith),
      )
      (slice-append_drop 0 4 bytes (omega arith))

-- A byte string that is read as a payload is exactly what that payload is written as, and the
-- payload's fields fit: no two byte strings are read as the same payload.
pub serialize-parse :
    (bytes : List ℕ) (p : Utx0UnlockPayload)
    → AreBytes bytes
    → parse bytes ≡ ok p
    → (serialize p ≡ ok bytes) × IsValid p
unfolding chunks_exact
serialize-parse bytes p h e =
    let (total, front, chain, index, outs) = parse_fields bytes p e in
    let n = from_be (slice 10 14 bytes) in
    let body = drop 14 bytes in
    let len : length body ≡ n * 32 = omega (arith, length-drop 14 bytes) in
    let (written, count, valid) =
      parse_outputs-Reads n 0 body p.outputs (All-drop IsByte 14 bytes h) len
        (rw (quotient (length body) n len) at outs) in
    let fits : n < 2 ^ 32 = from_be-slice-lt 10 14 4 bytes h (omega arith) refl in
    (
      serialize_lem p (omega arith)
          ∙ rw
              (
                chain,
                index,
                count,
                written,
                be_bytes-slice 4 6 2 bytes h (omega arith) refl,
                be_bytes-slice 6 10 4 bytes h (omega arith) refl,
                be_bytes-slice 10 14 4 bytes h (omega arith) refl,
              )
              (ap ok (whole_payload bytes utx0_prefix (omega arith) front)),
      record {
        chain_fits = rw chain (from_be-slice-lt 4 6 2 bytes h (omega arith) refl);
        index_fits = rw index (from_be-slice-lt 6 10 4 bytes h (omega arith) refl);
        count_fits = omega arith;
        outputs_valid = valid;
      },
    )
  where
    quotient : (l m : ℕ) → l ≡ m * 32 → l / 32 ≡ m
    quotient l m k = omega arith
