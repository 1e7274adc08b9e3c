-- ===== src/Wormhole/Redeem/Script.antt =====
-- Scripts as a node reads them, independent of how redeem.rs writes them.
use psy_doge_solana_cli.Common.{
  ℕ, ◌<◌, ◌^◌, ◌≡◌, List, [], ◌∷◌, ◌++◌, leb, le→leb, ◌==◌, if◌then◌else◌, length, take, drop,
  Option, none, some, from_le, le_bytes, from_le-le_bytes, arith, tests, Bool-cases, inl, inr,
  length-le_bytes, take_front, drop_front, take-append, drop-append, length-append,
}
use psy_doge_solana_cli.Wormhole.Redeem.{push_prefix}

-- An instruction: data that is pushed, or an opcode.
pub data Instruction : Type 0 where
  push : List ℕ → Instruction
  opcode : ℕ → Instruction

-- The next `n` bytes as data, if they are there.
unfoldable pub read_push : ℕ → List ℕ → Option (Instruction × List ℕ)
read_push n bytes = if leb n (length bytes) then some (push (take n bytes), drop n bytes) else none

-- The data behind a length of `k` bytes, lowest first.
unfoldable pub read_sized : ℕ → List ℕ → Option (Instruction × List ℕ)
read_sized k bytes =
    if leb k (length bytes) then read_push (from_le (take k bytes)) (drop k bytes) else none

unfoldable pub next_instruction : List ℕ → Option (Instruction × List ℕ)
next_instruction [] = none
next_instruction (b ∷ bytes) =
    if leb b 0x4b
    then read_push b bytes
    else if b == 0x4c
    then read_sized 1 bytes
    else if b == 0x4d
    then read_sized 2 bytes
    else if b == 0x4e
    then read_sized 4 bytes
    else some (opcode b, bytes)

-- `bytes` is read as these instructions and nothing else.
pub data Reads : List ℕ → List Instruction → Type 0 where
  done : Reads [] []
  step :
      {bytes rest : List ℕ} {i : Instruction} {is : List Instruction}
      → next_instruction bytes ≡ some (i, rest)
      → Reads rest is
      → Reads bytes (i ∷ is)

read_push-append :
    (bytes rest : List ℕ) → read_push (length bytes) (bytes ++ rest) ≡ some (push bytes, rest)
unfolding read_push
read_push-append bytes rest = rw (
  le→leb (length bytes) (length (bytes ++ rest)) (omega (arith, length-append bytes rest)),
  take-append bytes rest,
  drop-append bytes rest,
)

read_sized-append :
    (k : ℕ) (bytes rest : List ℕ)
    → length bytes < 256 ^ k
    → read_sized k (le_bytes k (length bytes) ++ (bytes ++ rest)) ≡ some (push bytes, rest)
unfolding read_sized
read_sized-append k bytes rest h =
    let size = le_bytes k (length bytes) in
    rw
      (
        take_front size (bytes ++ rest) k (length-le_bytes k (length bytes)),
        drop_front size (bytes ++ rest) k (length-le_bytes k (length bytes)),
        from_le-le_bytes k (length bytes) h,
        le→leb k (length (size ++ (bytes ++ rest)))
            (omega (arith, length-append size (bytes ++ rest), length-le_bytes k (length bytes))),
      )
      (read_push-append bytes rest)

-- What `push_data` appends is read back as one push of the same data, and what follows is left.
pub next_instruction-push :
    (bytes rest : List ℕ)
    → length bytes < 2 ^ 32
    → next_instruction (push_prefix (length bytes) ++ (bytes ++ rest)) ≡ some (push bytes, rest)
unfolding next_instruction push_prefix le_bytes
next_instruction-push bytes rest h = elim (Bool-cases (leb (length bytes) 0x4b)) [
  | inl tiny ↦ rw tiny (ground (arith, read_push-append bytes rest))
  | inr past_tiny ↦ elim (Bool-cases (leb (length bytes) 0xff)) [
    | inl small ↦ rw (past_tiny, small) (read_sized-append 1 bytes rest (omega tests))
    | inr past_small ↦ elim (Bool-cases (leb (length bytes) 0xffff)) [
      | inl medium ↦
          rw (past_tiny, past_small, medium) (read_sized-append 2 bytes rest (omega tests))
      | inr large ↦ rw (past_tiny, past_small, large) (read_sized-append 4 bytes rest h)
    ]
  ]
]
