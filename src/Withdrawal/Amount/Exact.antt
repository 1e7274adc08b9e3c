-- ===== src/Withdrawal/Amount/Exact.antt =====
-- An amount is read exactly, in either notation.
use psy_doge_solana_cli.Common.{
  ℕ, zero, suc, ◌+◌, ◌-◌, ◌*◌, ◌^◌, ◌≤◌, ◌<◌, ◌≡◌, refl, sym, ap, ◌∙◌, List, [], ◌∷◌, ◌++◌, take,
  drop, take-append, drop-append, drop-drop, length, false, ◌||◌, not, leb, ltb, All, All-append,
  All-map, some, ok, ok_or, checked_mul, checked_add, starts_with, ok->>=, false-bail_if, arith,
}
use native.Mathlib.Nat.{one-le-pow, le-mul_of_pos_right, add-mul, mul_assoc}
use psy_doge_solana_cli.Common.Int.{pos}
use psy_doge_solana_cli.Wormhole.Tx.{is_empty}
use psy_doge_solana_cli.Withdrawal.Amount.{
  Error, invalid_amount, too_large, bad_exponent, sats_per_doge, all_digits, number_from, parse_u64,
  parse_i32, parse_magnitude, read_mantissa, shift_bits, checked_power, fraction_value, plain_parts,
  plain_decimal, parse_scientific_doge_decimal, parse_normalized, parse_doge_decimal,
}
use psy_doge_solana_cli.Withdrawal.Amount.Digits.{
  AreDigits, IsAmountByte, AreDigits-all_digits, trim_same, find_exponent-digits,
  find_exponent-append, split_point-append, number_from-append, number_from_lem,
  shift_bits-fraction, read_mantissa-whole,
}

-- What stands for a number of digits, behind the point `fraction`, in satoshis.
abbrev pub satoshis : List ℕ → List ℕ → ℕ
satoshis whole fraction =
    number_from 0 whole * 10 ^ 8 + number_from 0 fraction * 10 ^ (8 - length fraction)

parse_u64-fits :
    (digits : List ℕ)
    → 1 ≤ length digits
    → number_from 0 digits < 2 ^ 64
    → parse_u64 digits ≡ some (number_from 0 digits)
unfolding parse_u64 is_empty
parse_u64-fits [] h k = absurd (omega arith)
parse_u64-fits (d ∷ ds) h k = ground (arith, k)

-- A part is at most the whole.
part_fits : (f k v : ℕ) → v < 2 ^ 64 → f * 10 ^ k ≤ v → f < 2 ^ 64
part_fits f k v h le = omega (arith, le, h, le-mul_of_pos_right f (one-le-pow k 10 (omega arith)))

checked_mul-fits :
    (a b : ℕ) (error : Error) → a * b < 2 ^ 64 → ok_or (checked_mul 64 a b) error ≡ ok (a * b)
checked_mul-fits a b error h = ground (arith, h)

checked_add-fits :
    (a b : ℕ) (error : Error) → a + b < 2 ^ 64 → ok_or (checked_add 64 a b) error ≡ ok (a + b)
checked_add-fits a b error h = ground (arith, h)

-- The value of a fraction, which may be empty.
fraction_value-fits :
    (fraction : List ℕ)
    → number_from 0 fraction * 10 ^ (8 - length fraction) < 2 ^ 64
    → fraction_value fraction ≡ ok (number_from 0 fraction * 10 ^ (8 - length fraction))
unfolding fraction_value number_from
fraction_value-fits [] h = refl
fraction_value-fits (b ∷ bs) h =
    ok->>= (ok_or (parse_u64 (b ∷ bs)) invalid_amount) _
      (ap (λ o. ok_or o invalid_amount)
        (parse_u64-fits (b ∷ bs) (omega arith)
          (part_fits (number_from 0 (b ∷ bs)) (8 - length (b ∷ bs)) _ h (omega arith))))
      (checked_mul-fits (number_from 0 (b ∷ bs)) (10 ^ (8 - length (b ∷ bs))) too_large h)

plain_parts-satoshis :
    (d : ℕ) (ds fraction : List ℕ)
    → AreDigits (d ∷ ds)
    → AreDigits fraction
    → length fraction ≤ 8
    → satoshis (d ∷ ds) fraction < 2 ^ 64
    → plain_parts (d ∷ ds) fraction ≡ ok (satoshis (d ∷ ds) fraction)
unfolding plain_parts
plain_parts-satoshis d ds fraction hw hf few fits =
    false-bail_if (not (all_digits (d ∷ ds)) || not (all_digits fraction)) _ _
      (ground (arith, AreDigits-all_digits (d ∷ ds) hw, AreDigits-all_digits fraction hf))
      (false-bail_if (ltb 8 (length fraction)) _ _ (ground (arith, few)) (
        ok->>= (ok_or (parse_u64 (d ∷ ds)) invalid_amount) _
          (ap (λ o. ok_or o invalid_amount)
            (parse_u64-fits (d ∷ ds) (omega arith) (omega (arith, fits))))
          (ok->>= (ok_or (checked_mul 64 (number_from 0 (d ∷ ds)) sats_per_doge) too_large) _
            (checked_mul-fits (number_from 0 (d ∷ ds)) sats_per_doge too_large
              (omega (arith, fits)))
            (ok->>= (fraction_value fraction) _ (fraction_value-fits fraction (omega (arith, fits)))
              (checked_add-fits (number_from 0 (d ∷ ds) * sats_per_doge)
                (number_from 0 fraction * 10 ^ (8 - length fraction)) too_large fits)))))

powers : (k : ℕ) → k ≤ 8 → 10 ^ k * 10 ^ (8 - k) ≡ 10 ^ 8
powers zero h = refl
powers (suc zero) h = refl
powers (suc (suc zero)) h = refl
powers (suc (suc (suc zero))) h = refl
powers (suc (suc (suc (suc zero)))) h = refl
powers (suc (suc (suc (suc (suc zero))))) h = refl
powers (suc (suc (suc (suc (suc (suc zero)))))) h = refl
powers (suc (suc (suc (suc (suc (suc (suc zero))))))) h = refl
powers (suc (suc (suc (suc (suc (suc (suc (suc zero)))))))) h = refl
powers (suc (suc (suc (suc (suc (suc (suc (suc (suc k))))))))) h = absurd (omega arith)

-- The digits of the whole and of the fraction as one number.
joined :
    (whole fraction : List ℕ)
    → length fraction ≤ 8
    → number_from 0 (whole ++ fraction) * 10 ^ (8 - length fraction) ≡ satoshis whole fraction
joined whole fraction few =
    ap (λ n. n * 10 ^ (8 - length fraction))
      (number_from-append 0 whole fraction ∙ number_from_lem (number_from 0 whole) fraction)
    ∙ regrouped (number_from 0 whole) (10 ^ length fraction) (10 ^ (8 - length fraction))
        (number_from 0 fraction) (powers (length fraction) few)
  where
    regrouped : (w a b f : ℕ) → a * b ≡ 10 ^ 8 → (w * a + f) * b ≡ w * 10 ^ 8 + f * b
    regrouped w a b f e = omega (arith, add-mul (w * a) f b, mul_assoc w a b, ap (λ x. w * x) e)

power_of : (k : ℕ) → checked_power (8 - k) ≡ some (10 ^ (8 - k))
unfolding checked_power
power_of k = ground arith

zero_exponent : parse_i32 (48 ∷ []) ≡ some (pos 0)
unfolding parse_i32 parse_magnitude number_from all_digits is_empty
zero_exponent = refl

-- The bytes of a decimal.
digits_are_bytes : (digits : List ℕ) → AreDigits digits → All IsAmountByte digits
digits_are_bytes digits h = All-map digits (λ byte k. (omega (arith, k.0), omega (arith, k.1))) h

digits_below : (digits : List ℕ) → AreDigits digits → All (λ byte. byte ≤ 57) digits
digits_below digits h = All-map digits (λ byte k. k.1) h

module _ (d : ℕ) (ds fraction : List ℕ) (hw : AreDigits (d ∷ ds)) (hf : AreDigits fraction)
    (few : length fraction ≤ 8) (fits : satoshis (d ∷ ds) fraction < 2 ^ 64) where
  abbrev decimal : List ℕ
  decimal = (d ∷ ds) ++ (46 ∷ fraction)

  decimal_bytes : All IsAmountByte decimal
  decimal_bytes =
      All-append IsAmountByte (d ∷ ds) (46 ∷ fraction) (digits_are_bytes (d ∷ ds) hw)
        ((omega arith, omega arith), digits_are_bytes fraction hf)

  decimal_below : All (λ byte. byte ≤ 57) decimal
  decimal_below =
      All-append (λ byte. byte ≤ 57) (d ∷ ds) (46 ∷ fraction) (digits_below (d ∷ ds) hw)
        (omega arith, digits_below fraction hf)

  unsigned_at : (sign : ℕ) (rest : List ℕ) → sign ≤ 46 → starts_with (d ∷ rest) (sign ∷ []) ≡ false
  unfolding starts_with
  unsigned_at sign rest h = ground (arith, h, hw.0.0)

  plain-satoshis : parse_doge_decimal decimal ≡ ok (satoshis (d ∷ ds) fraction)
  unfolding parse_doge_decimal parse_normalized plain_decimal is_empty
  plain-satoshis =
      ap parse_normalized (trim_same decimal decimal_bytes)
      ∙ rw
          (
            unsigned_at 45 (ds ++ (46 ∷ fraction)) (omega arith),
            find_exponent-digits 0 decimal decimal_below,
            unsigned_at 43 (ds ++ (46 ∷ fraction)) (omega arith),
            split_point-append (d ∷ ds) fraction hw hf,
          )
          (plain_parts-satoshis d ds fraction hw hf few fits)

  scientific :
      parse_scientific_doge_decimal (decimal ++ (101 ∷ 48 ∷ [])) (length decimal)
      ≡ ok (satoshis (d ∷ ds) fraction)
  unfolding parse_scientific_doge_decimal is_empty
  scientific =
      let text = decimal ++ (101 ∷ 48 ∷ []) in
      let digits = (d ∷ ds) ++ fraction in
      let shift = shift_bits-fraction (length fraction) few in
      let whole = joined (d ∷ ds) fraction few in
      ok->>= (ok_or (parse_i32 (drop (length decimal + 1) text)) bad_exponent) _
        (ap (λ t. ok_or (parse_i32 t) bad_exponent)
            (sym (drop-drop (length decimal) 1 text)
              ∙ ap (drop 1) (drop-append decimal (101 ∷ 48 ∷ [])))
          ∙ ap (λ o. ok_or o bad_exponent) zero_exponent)
        (ok->>= (read_mantissa [] 0 false (take (length decimal) text)) _
          (ap (read_mantissa [] 0 false) (take-append decimal (101 ∷ 48 ∷ []))
            ∙ read_mantissa-whole [] (d ∷ ds) fraction hw hf)
          (false-bail_if (leb (2 ^ 31) (shift_bits (pos 0) (length fraction))) _ _
            (ap (leb (2 ^ 31)) shift ∙ small (length fraction))
            (ok->>= (ok_or (parse_u64 digits) invalid_amount) _
              (ap (λ o. ok_or o invalid_amount)
                (parse_u64-fits digits (omega arith) (
                  part_fits (number_from 0 digits) (8 - length fraction) _ fits
                    (omega (arith, whole)))))
              (ok->>= (ok_or (checked_power (shift_bits (pos 0) (length fraction))) too_large) _
                (ap (λ k. ok_or (checked_power k) too_large) shift
                  ∙ ap (λ o. ok_or o too_large) (power_of (length fraction)))
                (checked_mul-fits (number_from 0 digits) (10 ^ (8 - length fraction)) too_large
                    (omega (arith, whole, fits))
                  ∙ ap ok whole)))))
    where
      small : (k : ℕ) → leb (2 ^ 31) (8 - k) ≡ false
      small k = ground arith

  scientific-satoshis :
      parse_doge_decimal (decimal ++ (101 ∷ 48 ∷ [])) ≡ ok (satoshis (d ∷ ds) fraction)
  unfolding parse_doge_decimal parse_normalized is_empty
  scientific-satoshis =
      ap parse_normalized (
        trim_same (decimal ++ (101 ∷ 48 ∷ [])) (
          All-append IsAmountByte decimal (101 ∷ 48 ∷ []) decimal_bytes
            ((omega arith, omega arith), ((omega arith, omega arith), tt))))
      ∙ rw
          (
            unsigned_at 45 ((ds ++ (46 ∷ fraction)) ++ (101 ∷ 48 ∷ [])) (omega arith),
            find_exponent-append 0 decimal (48 ∷ []) decimal_below,
          )
          (ap (parse_scientific_doge_decimal (decimal ++ (101 ∷ 48 ∷ [])))
              (plus_zero (length decimal))
            ∙ scientific)
    where
      plus_zero : (c : ℕ) → 0 + c ≡ c
      plus_zero c = omega arith

  -- An amount with at least one digit, a point and at most eight digits behind it, whose value in
  -- satoshis is below 2^64, is read as exactly this value; so it is with the exponent e0 behind it.
  pub parse_doge_decimal-satoshis :
      (parse_doge_decimal decimal ≡ ok (satoshis (d ∷ ds) fraction))
      × (parse_doge_decimal (decimal ++ (101 ∷ 48 ∷ [])) ≡ ok (satoshis (d ∷ ds) fraction))
  parse_doge_decimal-satoshis = (plain-satoshis, scientific-satoshis)
