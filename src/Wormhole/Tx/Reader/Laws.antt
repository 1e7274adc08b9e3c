-- ===== src/Wormhole/Tx/Reader/Laws.antt =====
-- What a reader takes from the front of what remains.
use psy_doge_solana_cli.Common.{
  ℕ, ◌+◌, ◌-◌, ◌≤◌, ◌<◌, ◌^◌, ◌%◌, ◌≡◌, refl, sym, ap, ◌∙◌, subst, List, [], ◌∷◌, ◌++◌, Bool, false,
  not, ltb, leb, le→leb, lt→leb, lt→ltb, length, drop, from_le, le_bytes, from_le-le_bytes, arith,
  tests, length-le_bytes, take_front, drop_front, drop-drop, length-drop, length-append, Result, ok,
  Bool-cases, inl, inr,
}
use mathlib.Core.List.{append_assoc, append-nil}
use psy_doge_solana_cli.Wormhole.Tx.Errors.{Error, Field, non_canonical_varint, exceeds_platform}
use psy_doge_solana_cli.Wormhole.Tx.Wire.{write_varint}
use psy_doge_solana_cli.Wormhole.Tx.Reader.{
  Reader, Read, ◌>>=◌, pure, lift, reject_if, read_value, read_exact, read_le, first_byte,
  read_wide, read_count, finish,
}

-- The cursor lies inside the bytes, and their number is a usize.
pub record Fits (r : Reader) : Type 0 where
  pub inside : r.offset ≤ length r.bytes
  pub size : length r.bytes < 2 ^ 64

abbrev pub remaining : Reader → List ℕ
remaining r = drop r.offset r.bytes

-- On bytes that go on with `front`, `m` returns `a` and stops behind `front`.
pub record Takes {A : Type 0} (m : Read A) (front : List ℕ) (a : A) : Type 0 where
  pub at :
      (r : Reader) (rest : List ℕ)
      → Fits r
      → remaining r ≡ front ++ rest
      → (r' : Reader) × (m r ≡ ok (a, r')) × Fits r' × (remaining r' ≡ rest)

pub Takes-pure : {A : Type 0} (a : A) → Takes (pure a) [] a
Takes-pure a = record { at = λ r rest fits e. (r, refl, fits, e) }

pub Takes-bind :
    {A B : Type 0} (m : Read A) (f : A → Read B) {front back : List ℕ} {a : A} {b : B}
    → Takes m front a
    → Takes (f a) back b
    → Takes (m >>= f) (front ++ back) b
Takes-bind m f {front} {back} tm tf = record {
  at = λ r rest fits e.
      let (r', em, fits', e') = tm.at r (back ++ rest) fits (e ∙ append_assoc front back rest) in
      let (r'', ef, fits'', e'') = tf.at r' rest fits' e' in (r'', rw (em, ◌>>=◌) ef, fits'', e'');
}

module _ (n : ℕ) (field : Field) (front : List ℕ) (h : length front ≡ n) (r : Reader)
    (rest : List ℕ) (fits : Fits r) (e : remaining r ≡ front ++ rest) where
  room : r.offset + n ≤ length r.bytes
  room =
      omega
        (arith, ap length e, length-drop r.offset r.bytes, length-append front rest, fits.inside)

  read_exact_front : read_exact n field r ≡ ok (front, record r { offset = r.offset + n })
  unfolding read_exact
  read_exact_front = rw (
    lt→ltb (r.offset + n) (2 ^ 64) (omega (arith, room, fits.size)),
    le→leb (r.offset + n) (length r.bytes) room,
    width r.offset,
    e,
    take_front front rest n h,
    read_exact,
  )
    where
      width : (o : ℕ) → o + n - o ≡ n
      width o = omega arith

pub Takes-read_exact :
    (n : ℕ) (field : Field) (front : List ℕ)
    → length front ≡ n
    → Takes (read_exact n field) front front
Takes-read_exact n field front h = record {
  at = λ r rest fits e. (
    record r { offset = r.offset + n },
    read_exact_front n field front h r rest fits e,
    record { inside = room n field front h r rest fits e; size = fits.size },
    sym (drop-drop r.offset n r.bytes) ∙ ap (drop n) e ∙ drop_front front rest n h,
  );
}

-- `f a` takes nothing more.
pub Takes-end :
    {A B : Type 0} (m : Read A) (f : A → Read B) {front : List ℕ} {a : A} {b : B}
    → Takes m front a
    → Takes (f a) [] b
    → Takes (m >>= f) front b
Takes-end m f {front} {b = b} tm tf =
    subst (λ l. Takes (m >>= f) l b) (append-nil front) (Takes-bind m f tm tf)

Takes-reject : (b : Bool) (e : Error) → b ≡ false → Takes (reject_if b e) [] tt
Takes-reject b e h = record { at = λ r rest fits k. (r, rw h, fits, k) }

pub Takes-lift : {A : Type 0} (m : Result Error A) (a : A) → m ≡ ok a → Takes (lift m) [] a
Takes-lift m a h = record { at = λ r rest fits e. (r, rw (h, lift), fits, e) }

-- A check that passes takes nothing.
pub Takes-guard :
    {B : Type 0} (b : Bool) (e : Error) (k : Read B) {front : List ℕ} {a : B}
    → b ≡ false
    → Takes k front a
    → Takes (reject_if b e >>= λ _. k) front a
Takes-guard b e k h t = Takes-bind (reject_if b e) (λ _. k) (Takes-reject b e h) t

pub Takes-read_le :
    (k : ℕ) (field : Field) (v : ℕ) → v < 256 ^ k → Takes (read_le k field) (le_bytes k v) v
unfolding read_le
Takes-read_le k field v h =
    Takes-end (read_exact k field) (λ bytes. pure (from_le bytes))
      (Takes-read_exact k field (le_bytes k v) (length-le_bytes k v))
      (rw (from_le-le_bytes k v h) (Takes-pure v))

Takes-read_wide :
    (k least : ℕ) (field : Field) (v : ℕ)
    → v < 256 ^ k
    → least < v
    → Takes (read_wide k least field) (le_bytes k v) v
unfolding read_wide
Takes-read_wide k least field v h more =
    Takes-end (read_le k field)
      (λ value. reject_if (leb value least) (non_canonical_varint field) >>= λ _. pure value)
      (Takes-read_le k field v h)
      (Takes-end (reject_if (leb v least) (non_canonical_varint field)) (λ _. pure v)
        (Takes-reject (leb v least) (non_canonical_varint field) (lt→leb v least more))
        (Takes-pure v))

count_of :
    (field : Field) (first v : ℕ) (tail : List ℕ)
    → v < 2 ^ 64
    → Takes (read_value first field) tail v
    → Takes (read_count field) (first ∷ tail) v
unfolding read_count
count_of field first v tail h t =
    let check = λ (value : ℕ).
      reject_if (not (ltb value (2 ^ 64))) (exceeds_platform field) >>= λ _. pure value in
    Takes-bind (read_exact 1 field) (λ head. read_value (first_byte head) field >>= check)
      (Takes-read_exact 1 field (first ∷ []) refl)
      (subst (λ l. Takes (read_value first field >>= check) l v) (append-nil tail)
        (Takes-bind (read_value first field) check t (
          Takes-end (reject_if (not (ltb v (2 ^ 64))) (exceeds_platform field)) (λ _. pure v)
            (Takes-reject _ (exceeds_platform field) (rw (lt→ltb v (2 ^ 64) h))) (Takes-pure v))))

value_tiny : (field : Field) (v : ℕ) → v < 0xfd → Takes (read_value (v % 256) field) [] v
unfolding read_value
value_tiny field v h = rw (low v (omega arith), le→leb v 0xfc (omega arith)) (Takes-pure v)
  where
    low : (n : ℕ) → n < 256 → n % 256 ≡ n
    low n k = omega arith

-- A u64 is read back from the varint that it is written as.
pub Takes-read_count :
    (field : Field) (v : ℕ) → v < 2 ^ 64 → Takes (read_count field) (write_varint v) v
unfolding write_varint read_value
Takes-read_count field v h = elim (Bool-cases (ltb v 0xfd)) [
  | inl tiny ↦ rw tiny (count_of field (v % 256) v [] h (value_tiny field v (omega tests)))
  | inr past_tiny ↦ elim (Bool-cases (leb v 0xffff)) [
    | inl small ↦
        rw (past_tiny, small)
          (count_of field 0xfd v _ h (Takes-read_wide 2 0xfc field v (omega tests) (omega tests)))
    | inr past_small ↦ elim (Bool-cases (leb v 0xffff_ffff)) [
      | inl medium ↦
          rw (past_tiny, past_small, medium)
            (count_of field 0xfe v _ h
              (Takes-read_wide 4 0xffff field v (omega tests) (omega tests)))
      | inr large ↦
          rw (past_tiny, past_small, large)
            (count_of field 0xff v _ h
              (Takes-read_wide 8 0xffff_ffff field v (omega tests) (omega tests)))
    ]
  ]
]

pub finish_at_end : (r : Reader) → Fits r → remaining r ≡ [] → finish r ≡ ok (tt, r)
unfolding finish
finish_at_end r fits e = ground (arith, fits.inside, length-drop r.offset r.bytes, ap length e)

pub length-write_varint : (v : ℕ) → length (write_varint v) ≤ 9
unfolding write_varint le_bytes
length-write_varint v = ground arith
