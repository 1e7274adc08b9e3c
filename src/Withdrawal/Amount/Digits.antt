-- ===== src/Withdrawal/Amount/Digits.antt =====
-- Digits and the numbers that they stand for.
use psy_doge_solana_cli.Common.{
  ℕ, suc, ◌+◌, ◌-◌, ◌*◌, ◌^◌, ◌≤◌, ◌≡◌, refl, sym, ap, ◌∙◌, List, [], ◌∷◌, ◌++◌, reverse,
  reverse-reverse, length, true, false, All, All-reverse, none, some, ok, arith,
}
use mathlib.Core.List.{append_assoc, append-nil}
use native.Mathlib.Nat.{pow-suc, add-mul, mul_assoc, mul_comm, zero-add}
use psy_doge_solana_cli.Common.Int.{pos}
use psy_doge_solana_cli.Withdrawal.Amount.{
  is_whitespace, trim_start, trim, is_digit, all_digits, number_from, read_mantissa, shift_bits,
  find_exponent, split_point,
}

-- A byte that stands in an amount: a digit, the point or the exponent's letter.
abbrev pub IsAmountByte : ℕ → Type 0
IsAmountByte byte = (46 ≤ byte) × (byte ≤ 101)

abbrev pub AreDigits : List ℕ → Type 0
AreDigits digits = All (λ byte. (48 ≤ byte) × (byte ≤ 57)) digits

pub AreDigits-all_digits : (digits : List ℕ) → AreDigits digits → all_digits digits ≡ true
unfolding all_digits is_digit
AreDigits-all_digits [] h = refl
AreDigits-all_digits (d ∷ ds) h = ground (arith, h.0.0, h.0.1, AreDigits-all_digits ds h.1)

pub trim_start_same : (text : List ℕ) → All IsAmountByte text → trim_start text ≡ text
unfolding trim_start is_whitespace
trim_start_same [] h = refl
trim_start_same (b ∷ bs) h = ground (arith, h.0.0, h.0.1)

pub trim_same : (text : List ℕ) → All IsAmountByte text → trim text ≡ text
unfolding trim
trim_same text h =
    ap (λ t. reverse (trim_start (reverse t))) (trim_start_same text h)
    ∙ ap reverse (trim_start_same (reverse text) (All-reverse IsAmountByte text h))
    ∙ reverse-reverse text

-- No letter of an exponent, and the first one.
pub find_exponent-digits :
    (index : ℕ) (text : List ℕ) → All (λ byte. byte ≤ 57) text → find_exponent index text ≡ none
unfolding find_exponent
find_exponent-digits index [] h = refl
find_exponent-digits index (b ∷ bs) h = ground (arith, h.0, find_exponent-digits (index + 1) bs h.1)

pub find_exponent-append :
    (index : ℕ) (text rest : List ℕ)
    → All (λ byte. byte ≤ 57) text
    → find_exponent index (text ++ (101 ∷ rest)) ≡ some (index + length text)
unfolding find_exponent
find_exponent-append index [] rest h = ap some (omega arith)
find_exponent-append index (b ∷ bs) rest h =
    ground (arith, h.0, find_exponent-append (index + 1) bs rest h.1)

split_point-digits : (digits : List ℕ) → AreDigits digits → split_point digits ≡ (digits, [])
unfolding split_point
split_point-digits [] h = refl
split_point-digits (d ∷ ds) h = ground (arith, h.0.0, h.0.1, split_point-digits ds h.1)

pub split_point-append :
    (whole fraction : List ℕ)
    → AreDigits whole
    → AreDigits fraction
    → split_point (whole ++ (46 ∷ fraction)) ≡ (whole, fraction ∷ [])
unfolding split_point
split_point-append [] fraction h k = ap (λ p. ([], p.0 ∷ p.1)) (split_point-digits fraction k)
split_point-append (d ∷ ds) fraction h k =
    ground (arith, h.0.0, h.0.1, split_point-append ds fraction h.1 k)

pub number_from-append :
    (number : ℕ) (xs ys : List ℕ)
    → number_from number (xs ++ ys) ≡ number_from (number_from number xs) ys
unfolding number_from
number_from-append number [] ys = refl
number_from-append number (x ∷ xs) ys = number_from-append (number * 10 + (x - 48)) xs ys

regroup :
    (n k p q rest tail : ℕ)
    → q ≡ p * 10
    → tail ≡ (0 + k) * p + rest
    → (n * 10 + k) * p + rest ≡ n * q + tail
regroup n k p q rest tail eq et = omega (
  arith,
  et,
  add-mul (n * 10) k p,
  mul_assoc n 10 p,
  ap (λ x. n * x) (eq ∙ mul_comm p 10),
  ap (λ x. x * p) (zero-add k),
)

pub number_from_lem :
    (number : ℕ) (digits : List ℕ)
    → number_from number digits ≡ number * 10 ^ length digits + number_from 0 digits
unfolding number_from
number_from_lem number [] = omega arith
number_from_lem number (d ∷ ds) =
    number_from_lem (number * 10 + (d - 48)) ds
    ∙ regroup number (d - 48) (10 ^ length ds) (10 ^ suc (length ds)) (number_from 0 ds)
        (number_from (0 + (d - 48)) ds) (pow-suc 10 (length ds)) (number_from_lem (0 + (d - 48)) ds)

pub shift_bits-fraction :
    (fractional_digits : ℕ)
    → fractional_digits ≤ 8
    → shift_bits (pos 0) fractional_digits ≡ 8 - fractional_digits
unfolding shift_bits
shift_bits-fraction f h = omega (arith, h)

read_mantissa-fraction :
    (digits fraction : List ℕ) (count : ℕ)
    → AreDigits fraction
    → read_mantissa digits count true fraction ≡ ok (digits ++ fraction, count + length fraction)
unfolding read_mantissa is_digit
read_mantissa-fraction digits [] count h = λ i. ok (sym (append-nil digits) i, suc_zero count i)
  where
    suc_zero : (c : ℕ) → c ≡ c + 0
    suc_zero c = omega arith
read_mantissa-fraction digits (d ∷ ds) count h = ground (
  arith,
  h.0.0,
  h.0.1,
  read_mantissa-fraction (digits ++ (d ∷ [])) ds (count + 1) h.1 ∙ λ i.
      ok (append_assoc digits (d ∷ []) ds i, moved count (length ds) i),
)
  where
    moved : (c l : ℕ) → c + 1 + l ≡ c + suc l
    moved c l = omega arith

-- The mantissa of a decimal.
pub read_mantissa-whole :
    (digits whole fraction : List ℕ)
    → AreDigits whole
    → AreDigits fraction
    → read_mantissa digits 0 false (whole ++ (46 ∷ fraction))
      ≡ ok (digits ++ (whole ++ fraction), length fraction)
unfolding read_mantissa is_digit
read_mantissa-whole digits [] fraction hw hf = read_mantissa-fraction digits fraction 0 hf ∙ λ i.
    ok (digits ++ fraction, zero_add (length fraction) i)
  where
    zero_add : (c : ℕ) → 0 + c ≡ c
    zero_add c = omega arith
read_mantissa-whole digits (d ∷ ds) fraction hw hf = ground (
  arith,
  hw.0.0,
  hw.0.1,
  read_mantissa-whole (digits ++ (d ∷ [])) ds fraction hw.1 hf ∙ λ i.
      ok (append_assoc digits (d ∷ []) (ds ++ fraction) i, length fraction),
)
