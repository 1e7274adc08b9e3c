-- ===== src/Wormhole/Manager/Set/Codec.antt =====
-- The two directions of the manager-set layout.
use psy_doge_solana_cli.Common.{
  ℕ, zero, suc, ◌+◌, ◌-◌, ◌*◌, ◌≡◌, ◌≤◌, refl, sym, ap, ◌∙◌, List, [], ◌∷◌, ◌++◌, length, slice,
  drop, All, ok, arith, le→ltb, length-append, slice_middle, slice-append_drop, length-slice,
}
use native.Mathlib.Nat.{zero-add, add-zero}
use mathlib.Core.List.{append_assoc}
use psy_doge_solana_cli.Wormhole.Tx.Persisted.{byte_at}
use psy_doge_solana_cli.Wormhole.Manager.Set.{
  ManagerSet, read_pubkeys, parse, concat_keys, serialize,
}

abbrev IsKey : List ℕ → Type 0
IsKey pk = length pk ≡ 33

length-concat_keys :
    (pks : List (List ℕ)) → All IsKey pks → length (concat_keys pks) ≡ length pks * 33
unfolding concat_keys
length-concat_keys [] h = refl
length-concat_keys (pk ∷ pks) h =
    omega (arith, length-append pk (concat_keys pks), h.0, length-concat_keys pks h.1)

-- The keys that stand behind `front` are read back one by one.
read_pubkeys-concat_keys :
    (front : List ℕ) (pks : List (List ℕ)) (i : ℕ)
    → length front ≡ 3 + i * 33
    → All IsKey pks
    → read_pubkeys (front ++ concat_keys pks) i (length pks) ≡ pks
unfolding read_pubkeys concat_keys
read_pubkeys-concat_keys front [] i l h = refl
read_pubkeys-concat_keys front (pk ∷ pks) i l h =
    rw
      (slice_middle front pk (concat_keys pks) (3 + i * 33) (3 + (i + 1) * 33) l
        (omega (arith, h.0)))
      (ap (◌∷◌ pk) (
        ap (λ bytes. read_pubkeys bytes (i + 1) (length pks))
          (sym (append_assoc front pk (concat_keys pks)))
        ∙ read_pubkeys-concat_keys (front ++ pk) pks (i + 1)
            (omega (arith, length-append front pk, h.0)) h.1))

-- A set whose number of keys is its `n`, with keys of 33 bytes, is read back from its bytes.
pub set_parse-serialize :
    (set : ManagerSet)
    → length set.pubkeys ≡ set.n
    → All IsKey set.pubkeys
    → parse (serialize set) ≡ ok set
unfolding parse serialize byte_at
set_parse-serialize set count h =
    let size = length-concat_keys set.pubkeys h in
    rw
      (
        le→ltb (suc (suc (suc (length (concat_keys set.pubkeys))))) 3 (omega arith),
        le→ltb (suc (suc (suc (length (concat_keys set.pubkeys))))) (3 + set.n * 33) (omega arith),
      )
      (ap (λ pks. ok (record set { pubkeys = pks }))
        (ap (read_pubkeys (serialize set) 0) (sym count)
          ∙ read_pubkeys-concat_keys (0 ∷ (set.m ∷ (set.n ∷ []))) set.pubkeys 0 refl h))

join_keys :
    (i count : ℕ) (bytes : List ℕ)
    → concat_keys (read_pubkeys bytes i count) ++ drop (3 + (i + count) * 33) bytes
      ≡ drop (3 + i * 33) bytes
unfolding concat_keys read_pubkeys
join_keys i zero bytes = ap (λ k. drop (3 + k * 33) bytes) (add-zero i)
join_keys i (suc count) bytes =
    append_assoc (slice (3 + i * 33) (3 + (i + 1) * 33) bytes)
      (concat_keys (read_pubkeys bytes (i + 1) count)) (drop (3 + (i + suc count) * 33) bytes)
    ∙ ap (◌++◌ (slice (3 + i * 33) (3 + (i + 1) * 33) bytes)) (
        ap (λ k. concat_keys (read_pubkeys bytes (i + 1) count) ++ drop k bytes) (position i count)
        ∙ join_keys (i + 1) count bytes)
    ∙ slice-append_drop (3 + i * 33) (3 + (i + 1) * 33) bytes (omega arith)
  where
    position : (a b : ℕ) → 3 + (a + suc b) * 33 ≡ 3 + (a + 1 + b) * 33
    position a b = omega arith

length-read_pubkeys : (i count : ℕ) (bytes : List ℕ) → length (read_pubkeys bytes i count) ≡ count
unfolding read_pubkeys
length-read_pubkeys i zero bytes = refl
length-read_pubkeys i (suc count) bytes = ap suc (length-read_pubkeys (i + 1) count bytes)

read_pubkeys-AreKeys :
    (i count : ℕ) (bytes : List ℕ)
    → 3 + (i + count) * 33 ≤ length bytes
    → All IsKey (read_pubkeys bytes i count)
unfolding read_pubkeys
read_pubkeys-AreKeys i zero bytes l = tt
read_pubkeys-AreKeys i (suc count) bytes l = (
  length-slice (3 + i * 33) (3 + (i + 1) * 33) bytes (omega arith) ∙ width i,
  read_pubkeys-AreKeys (i + 1) count bytes (omega arith),
)
  where
    width : (a : ℕ) → 3 + (a + 1) * 33 - (3 + a * 33) ≡ 33
    width a = omega arith

set_fields :
    (a b c : ℕ) (bytes : List ℕ) (set : ManagerSet)
    → parse (a ∷ (b ∷ (c ∷ bytes))) ≡ ok set
    → (3 + c * 33 ≤ 3 + length bytes)
      × (set.m ≡ b)
      × (set.n ≡ c)
      × (set.pubkeys ≡ read_pubkeys (a ∷ (b ∷ (c ∷ bytes))) 0 c)
unfolding parse byte_at
set_fields a b c bytes set e = ground arith

-- A byte string that is read as a set starts with a type byte, which is ignored, and then with the
-- bytes that the set is written as behind its own type byte; what follows is ignored too. The set
-- has `n` keys of 33 bytes.
set_serialize-parse :
    (bytes : List ℕ) (set : ManagerSet)
    → parse bytes ≡ ok set
    → (kind : ℕ) × (rest : List ℕ) × (bytes ≡ kind ∷ (drop 1 (serialize set) ++ rest))
      × (length set.pubkeys ≡ set.n)
      × All IsKey set.pubkeys
unfolding parse serialize byte_at
set_serialize-parse [] set e = absurd (ground arith)
set_serialize-parse (a ∷ []) set e = absurd (ground arith)
set_serialize-parse (a ∷ (b ∷ [])) set e = absurd (ground arith)
set_serialize-parse (a ∷ (b ∷ (c ∷ bytes))) set e =
    let (fits, em, en, ek) = set_fields a b c bytes set e in
    let all = a ∷ (b ∷ (c ∷ bytes)) in
    let joined : concat_keys (read_pubkeys all 0 c) ++ drop (3 + c * 33) all ≡ bytes =
      ap (λ k. concat_keys (read_pubkeys all 0 c) ++ drop (3 + k * 33) all) (sym (zero-add c))
      ∙ join_keys 0 c all in
    (
      a,
      drop (3 + c * 33) all,
      rw (em, en, ek, joined) refl,
      rw (ek, en) (length-read_pubkeys 0 c all),
      rw ek (read_pubkeys-AreKeys 0 c all (omega arith)),
    )
