-- ===== src/Common/Lists.antt =====
-- Lists with lengths and positions in the native numbers.
use Prim.Native.Nat.{ℕ, zero, suc, ◌+◌, ◌-◌, ◌≤◌}
use mathlib.Core.Path.{◌≡◌, refl, sym, ap, ◌∙◌, subst}
use mathlib.Core.Option.{Option, none, some}
use mathlib.Core.List.{List, [], ◌∷◌, ◌++◌, reverse, reverse-append}
use native.Mathlib.Nat.{zero-add, add-zero, suc-add}
use native.Mathlib.Omega.{arith}

module _ {ℓ} {A : Type ℓ} where
  abbrev pub length : List A → ℕ
  length [] = 0
  length (x ∷ xs) = suc (length xs)

  abbrev pub take : ℕ → List A → List A
  take zero xs = []
  take (suc n) [] = []
  take (suc n) (x ∷ xs) = x ∷ take n xs

  abbrev pub drop : ℕ → List A → List A
  drop zero xs = xs
  drop (suc n) [] = []
  drop (suc n) (x ∷ xs) = drop n xs

  abbrev pub get_elem? : List A → ℕ → Option A
  get_elem? [] i = none
  get_elem? (x ∷ xs) zero = some x
  get_elem? (x ∷ xs) (suc i) = get_elem? xs i

  -- A write out of bounds changes nothing.
  abbrev pub set : List A → ℕ → A → List A
  set [] i v = []
  set (x ∷ xs) zero v = v ∷ xs
  set (x ∷ xs) (suc i) v = x ∷ set xs i v

  -- `bytes[from..to]`, for `from <= to <= bytes.len()`.
  abbrev pub slice : ℕ → ℕ → List A → List A
  slice from to xs = take (to - from) (drop from xs)

  abbrev pub All {κ} : (A → Type κ) → List A → Type κ
  All P [] = Unit {κ}
  All P (x ∷ xs) = P x × All P xs

  pub All-map {κ μ} :
      {P : A → Type κ} {Q : A → Type μ} (xs : List A) → ((x : A) → P x → Q x) → All P xs → All Q xs
  All-map [] f h = tt
  All-map (x ∷ xs) f h = (f x h.0, All-map xs f h.1)

  -- `split_last`: what stands before the last element, and the last element.
  abbrev pub split_last : List A → Option (List A × A)
  split_last [] = none
  split_last (x ∷ []) = some ([], x)
  split_last (x ∷ (y ∷ ys)) = elim (split_last (y ∷ ys)) [
    | none ↦ none
    | some (front, last) ↦ some (x ∷ front, last)
  ]

  pub length-append : (xs ys : List A) → length (xs ++ ys) ≡ length xs + length ys
  length-append [] ys = omega arith
  length-append (x ∷ xs) ys = omega (arith, length-append xs ys)

  pub length-reverse : (xs : List A) → length (reverse xs) ≡ length xs
  length-reverse [] = refl
  length-reverse (x ∷ xs) =
      ap length (reverse-append (x ∷ []) xs)
      ∙ omega (arith, length-append (reverse xs) (x ∷ []), length-reverse xs)

  pub length-take : (n : ℕ) (xs : List A) → n ≤ length xs → length (take n xs) ≡ n
  length-take zero xs h = refl
  length-take (suc n) [] h = absurd (omega arith)
  length-take (suc n) (x ∷ xs) h = omega (arith, length-take n xs (omega arith))

  pub length-drop : (n : ℕ) (xs : List A) → length (drop n xs) ≡ length xs - n
  length-drop zero xs = omega arith
  length-drop (suc n) [] = omega arith
  length-drop (suc n) (x ∷ xs) = omega (arith, length-drop n xs)

  pub take-append : (xs ys : List A) → take (length xs) (xs ++ ys) ≡ xs
  take-append [] ys = refl
  take-append (x ∷ xs) ys = ap (◌∷◌ x) (take-append xs ys)

  pub drop-append : (xs ys : List A) → drop (length xs) (xs ++ ys) ≡ ys
  drop-append [] ys = refl
  drop-append (x ∷ xs) ys = drop-append xs ys

  pub take-append_drop : (n : ℕ) (xs : List A) → take n xs ++ drop n xs ≡ xs
  take-append_drop zero xs = refl
  take-append_drop (suc n) [] = refl
  take-append_drop (suc n) (x ∷ xs) = ap (◌∷◌ x) (take-append_drop n xs)

  pub drop-drop : (m n : ℕ) (xs : List A) → drop n (drop m xs) ≡ drop (m + n) xs
  drop-drop zero n xs = rw zero-add
  drop-drop (suc m) zero xs = rw add-zero
  drop-drop (suc m) (suc n) [] = rw suc-add
  drop-drop (suc m) (suc n) (x ∷ xs) = rw suc-add (drop-drop m (suc n) xs)

  pub take_front : (xs ys : List A) (n : ℕ) → length xs ≡ n → take n (xs ++ ys) ≡ xs
  take_front xs ys n e = ap (λ k. take k (xs ++ ys)) (sym e) ∙ take-append xs ys

  pub drop_front : (xs ys : List A) (n : ℕ) → length xs ≡ n → drop n (xs ++ ys) ≡ ys
  drop_front xs ys n e = ap (λ k. drop k (xs ++ ys)) (sym e) ∙ drop-append xs ys

  drop_past : (xs ys : List A) (a : ℕ) → length xs ≤ a → drop a (xs ++ ys) ≡ drop (a - length xs) ys
  drop_past [] ys a h = ap (λ k. drop k ys) (the_rest a)
    where
      the_rest : (m : ℕ) → m ≡ m - 0
      the_rest m = omega arith
  drop_past (x ∷ xs) ys zero h = absurd (omega arith)
  drop_past (x ∷ xs) ys (suc a) h =
      drop_past xs ys a (omega arith) ∙ ap (λ k. drop k ys) (the_rest a (length xs))
    where
      the_rest : (m l : ℕ) → m - l ≡ suc m - suc l
      the_rest m l = omega arith

  -- What lies behind a part of known length.
  pub drop_skip :
      (xs ys : List A) (n a : ℕ) → length xs ≡ n → n ≤ a → drop a (xs ++ ys) ≡ drop (a - n) ys
  drop_skip xs ys n a e h = drop_past xs ys a (omega arith) ∙ ap (λ l. drop (a - l) ys) e

  pub slice_skip :
      (xs ys : List A) (n a b : ℕ)
      → length xs ≡ n
      → n ≤ a
      → slice a b (xs ++ ys) ≡ slice (a - n) (b - n) ys
  slice_skip xs ys n a b e h =
      ap (take (b - a)) (drop_skip xs ys n a e h)
      ∙ ap (λ k. take k (drop (a - n) ys)) (width a b n h)
    where
      width : (c d m : ℕ) → m ≤ c → d - c ≡ d - m - (c - m)
      width c d m k = omega arith

  pub slice_front : (xs ys : List A) (n : ℕ) → length xs ≡ n → slice 0 n (xs ++ ys) ≡ xs
  slice_front xs ys n e = ap (λ k. take k (xs ++ ys)) (width n e) ∙ take-append xs ys
    where
      width : (m : ℕ) → length xs ≡ m → m - 0 ≡ length xs
      width m p = omega arith

  pub slice_middle :
      (front xs rest : List A) (a b : ℕ)
      → length front ≡ a
      → length xs ≡ b - a
      → slice a b (front ++ (xs ++ rest)) ≡ xs
  slice_middle front xs rest a b l m =
      ap (take (b - a)) (drop_front front (xs ++ rest) a l) ∙ take_front xs rest (b - a) m

  -- A part and what follows it.
  pub slice-append_drop : (a b : ℕ) (xs : List A) → a ≤ b → slice a b xs ++ drop b xs ≡ drop a xs
  slice-append_drop a b xs h =
      ap (λ k. slice a b xs ++ drop k xs) (position a b h)
      ∙ ap (◌++◌ (slice a b xs)) (sym (drop-drop a (b - a) xs))
      ∙ take-append_drop (b - a) (drop a xs)
    where
      position : (c d : ℕ) → c ≤ d → d ≡ c + (d - c)
      position c d k = omega arith

  pub length-slice : (a b : ℕ) (xs : List A) → b ≤ length xs → length (slice a b xs) ≡ b - a
  length-slice a b xs h = length-take (b - a) (drop a xs) (omega (arith, length-drop a xs))

  pub take_all : (xs : List A) (n : ℕ) → length xs ≤ n → take n xs ≡ xs
  take_all [] zero h = refl
  take_all [] (suc n) h = refl
  take_all (x ∷ xs) zero h = absurd (omega arith)
  take_all (x ∷ xs) (suc n) h = ap (◌∷◌ x) (take_all xs n (omega arith))

  module _ {κ} (P : A → Type κ) where
    pub All-take : (n : ℕ) (xs : List A) → All P xs → All P (take n xs)
    All-take zero xs h = tt
    All-take (suc n) [] h = h
    All-take (suc n) (x ∷ xs) h = (h.0, All-take n xs h.1)

    pub All-drop : (n : ℕ) (xs : List A) → All P xs → All P (drop n xs)
    All-drop zero xs h = h
    All-drop (suc n) [] h = h
    All-drop (suc n) (x ∷ xs) h = All-drop n xs h.1

    pub All-slice : (a b : ℕ) (xs : List A) → All P xs → All P (slice a b xs)
    All-slice a b xs h = All-take (b - a) (drop a xs) (All-drop a xs h)

    pub All-append : (xs ys : List A) → All P xs → All P ys → All P (xs ++ ys)
    All-append [] ys h k = k
    All-append (x ∷ xs) ys h k = (h.0, All-append xs ys h.1 k)

    pub All-reverse : (xs : List A) → All P xs → All P (reverse xs)
    All-reverse [] h = h
    All-reverse (x ∷ xs) h =
        subst (All P) (sym (reverse-append (x ∷ []) xs))
          (All-append (reverse xs) (x ∷ []) (All-reverse xs h.1) (h.0, tt))
