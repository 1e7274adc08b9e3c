-- ===== src/Withdrawal/Spent/Sorting.antt =====
-- Sorting the spent outpoints forgets the order in which they are given, and nothing else.
use psy_doge_solana_cli.Common.{
  ◌≡◌, refl, sym, ap, ◌∙◌, List, [], ◌∷◌, true, inl, inr, arith, Bool-cases, suc, length, All,
}
use mathlib.Core.Logic.{∥∥₁_elim}
use mathlib.Core.List.{Perm, Permᴰ}
use mathlib.Core.List.Perm
use psy_doge_solana_cli.Withdrawal.Spent.{TrackedSpentOutpoint, key_le, insert_by_key, sort_by_key}
use psy_doge_solana_cli.Withdrawal.Spent.Order.{key_le_trans, key_le_total, key_le_antisym}

insert_pair :
    (a b : TrackedSpentOutpoint) (l : List TrackedSpentOutpoint)
    → key_le a b ≡ true
    → key_le b a ≡ true
    → ◌≡◌ {A = List TrackedSpentOutpoint} (a ∷ b ∷ l) (b ∷ a ∷ l)
insert_pair a b l h k = let e = key_le_antisym a b h k in λ i. e i ∷ sym e i ∷ l

-- Two outpoints may be inserted in either order.
insert_by_key_comm :
    (a b : TrackedSpentOutpoint) (l : List TrackedSpentOutpoint)
    → insert_by_key a (insert_by_key b l) ≡ insert_by_key b (insert_by_key a l)
unfolding insert_by_key
insert_by_key_comm a b [] = ground (arith, insert_pair a b [], key_le_total a b)
insert_by_key_comm a b (c ∷ cs) = ground (
  arith,
  insert_pair a b (c ∷ cs),
  key_le_total a b,
  key_le_total b a,
  key_le_total a c,
  key_le_total b c,
  key_le_trans a b c,
  key_le_trans b a c,
  insert_by_key_comm a b cs,
)

TrackedSpentOutpoint_set : IsSet (List TrackedSpentOutpoint)
TrackedSpentOutpoint_set = hlevel

insert_by_key-perm :
    (o : TrackedSpentOutpoint) (l : List TrackedSpentOutpoint) → Perm (insert_by_key o l) (o ∷ l)
unfolding insert_by_key
insert_by_key-perm o [] = Perm.rfl
insert_by_key-perm o (p ∷ ps) = elim (Bool-cases (key_le o p)) [
  | inl first ↦ rw first Perm.rfl
  | inr later ↦ rw later (Perm.trans (Perm.cons p (insert_by_key-perm o ps)) (Perm.swap o p ps))
]

pub sort_by_key-perm : (l : List TrackedSpentOutpoint) → Perm (sort_by_key l) l
unfolding sort_by_key
sort_by_key-perm [] = Perm.rfl
sort_by_key-perm (o ∷ os) =
    Perm.trans (insert_by_key-perm o (sort_by_key os)) (Perm.cons o (sort_by_key-perm os))

sort_by_key-same :
    (xs ys : List TrackedSpentOutpoint) → Permᴰ xs ys → sort_by_key xs ≡ sort_by_key ys
unfolding sort_by_key
sort_by_key-same _ _ Permᴰ.nil = refl
sort_by_key-same _ _ (Permᴰ.cons {l₁} {l₂} e p) =
    λ i. insert_by_key (e i) (sort_by_key-same l₁ l₂ p i)
sort_by_key-same _ _ (Permᴰ.swap {a} {b} {a'} {b'} {l} e f) =
    insert_by_key_comm a b (sort_by_key l) ∙ λ i.
    insert_by_key (f i) (insert_by_key (e i) (sort_by_key l))
sort_by_key-same xs zs (Permᴰ.trans {l₂} p q) = sort_by_key-same xs l₂ p ∙ sort_by_key-same l₂ zs q

pub sort_by_key-Perm :
    (xs ys : List TrackedSpentOutpoint) → Perm xs ys → sort_by_key xs ≡ sort_by_key ys
sort_by_key-Perm xs ys p =
    ∥∥₁_elim p (TrackedSpentOutpoint_set (sort_by_key xs) (sort_by_key ys)) (sort_by_key-same xs ys)

length-insert_by_key :
    (o : TrackedSpentOutpoint) (l : List TrackedSpentOutpoint)
    → length (insert_by_key o l) ≡ suc (length l)
unfolding insert_by_key
length-insert_by_key o [] = refl
length-insert_by_key o (p ∷ ps) = elim (Bool-cases (key_le o p)) [
  | inl first ↦ rw first refl
  | inr later ↦ rw later (ap suc (length-insert_by_key o ps))
]

pub length-sort_by_key : (l : List TrackedSpentOutpoint) → length (sort_by_key l) ≡ length l
unfolding sort_by_key
length-sort_by_key [] = refl
length-sort_by_key (o ∷ os) =
    length-insert_by_key o (sort_by_key os) ∙ ap suc (length-sort_by_key os)

pub insert_by_key-All :
    (P : TrackedSpentOutpoint → Type 0) (o : TrackedSpentOutpoint) (l : List TrackedSpentOutpoint)
    → P o
    → All P l
    → All P (insert_by_key o l)
unfolding insert_by_key
insert_by_key-All P o [] h k = (h, tt)
insert_by_key-All P o (p ∷ ps) h k = elim (Bool-cases (key_le o p)) [
  | inl first ↦ rw first (h, k)
  | inr later ↦ rw later (k.0, insert_by_key-All P o ps h k.1)
]

pub sort_by_key-All :
    (P : TrackedSpentOutpoint → Type 0) (l : List TrackedSpentOutpoint)
    → All P l
    → All P (sort_by_key l)
unfolding sort_by_key
sort_by_key-All P [] h = tt
sort_by_key-All P (o ∷ os) h = insert_by_key-All P o (sort_by_key os) h.0 (sort_by_key-All P os h.1)
