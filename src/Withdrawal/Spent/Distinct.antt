-- ===== src/Withdrawal/Spent/Distinct.antt =====
-- The check of the sorted outpoints finds every duplicate.
use psy_doge_solana_cli.Common.{
  ℕ, ◌<◌, ◌≤◌, ◌==◌, ◌≡◌, ◌≢◌, ◌↔◌, refl, sym, List, [], ◌∷◌, true, false, inl, inr, arith,
  Bool-cases, length, All, All-map, Result, ok, err, bail_if, >>=-ok,
}
use psy_doge_solana_cli.Withdrawal.Spent.{
  TrackedSpentOutpoint, Error, no_outpoints, key_le, insert_by_key, sort_by_key, check_windows,
  preimage, tracked_utxo_spent_commitment,
}
use psy_doge_solana_cli.Withdrawal.Spent.Sorting.{insert_by_key-All, sort_by_key-All}
use psy_doge_solana_cli.Withdrawal.Spent.Order.{key_le_total}

-- No leaf index occurs twice.
abbrev pub Distinct : List TrackedSpentOutpoint → Type 0
Distinct [] = Unit
Distinct (o ∷ os) = All (λ p. o.leaf_index ≢ p.leaf_index) os × Distinct os

abbrev Sorted : List TrackedSpentOutpoint → Type 0
Sorted [] = Unit
Sorted (o ∷ os) = All (λ p. o.leaf_index ≤ p.leaf_index) os × Sorted os

key_le-le : (a b : TrackedSpentOutpoint) → key_le a b ≡ true → a.leaf_index ≤ b.leaf_index
unfolding key_le
key_le-le a b h = ground arith

insert_by_key-Sorted :
    (o : TrackedSpentOutpoint) (l : List TrackedSpentOutpoint)
    → Sorted l
    → Sorted (insert_by_key o l)
unfolding insert_by_key
insert_by_key-Sorted o [] h = (tt, tt)
insert_by_key-Sorted o (p ∷ ps) h = elim (Bool-cases (key_le o p)) [
  | inl first ↦
      let below = key_le-le o p first in
      rw first ((below, All-map ps (λ q le. omega (arith, below, le)) h.0), h)
  | inr later ↦ rw later (
    insert_by_key-All (λ q. p.leaf_index ≤ q.leaf_index) o ps
        (key_le-le p o (key_le_total o p later)) h.0,
    insert_by_key-Sorted o ps h.1,
  )
]

sort_by_key-Sorted : (l : List TrackedSpentOutpoint) → Sorted (sort_by_key l)
unfolding sort_by_key
sort_by_key-Sorted [] = tt
sort_by_key-Sorted (o ∷ os) = insert_by_key-Sorted o (sort_by_key os) (sort_by_key-Sorted os)

insert_by_key-All_back :
    (P : TrackedSpentOutpoint → Type 0) (o : TrackedSpentOutpoint) (l : List TrackedSpentOutpoint)
    → All P (insert_by_key o l)
    → P o × All P l
unfolding insert_by_key
insert_by_key-All_back P o [] h = h
insert_by_key-All_back P o (p ∷ ps) h = elim (Bool-cases (key_le o p)) [
  | inl first ↦ rw first at h
  | inr later ↦
      let split = rw later at h in
      let (own, rest) = insert_by_key-All_back P o ps split.1 in (own, (split.0, rest))
]

insert_by_key-Distinct :
    (o : TrackedSpentOutpoint) (l : List TrackedSpentOutpoint)
    → Distinct (insert_by_key o l) ↔ Distinct (o ∷ l)
unfolding insert_by_key
insert_by_key-Distinct o [] = (λ h. h, λ h. h)
insert_by_key-Distinct o (p ∷ ps) = elim (Bool-cases (key_le o p)) [
  | inl first ↦ rw first (λ h. h, λ h. h)
  | inr later ↦ rw later (
    (λ h.
        let (apart, others) = insert_by_key-All_back (λ q. p.leaf_index ≢ q.leaf_index) o ps h.0 in
        let (own, rest) = (insert_by_key-Distinct o ps).0 h.1 in
        (((λ e. apart (sym e)), own), (others, rest))),
    (λ h. (
      insert_by_key-All (λ q. p.leaf_index ≢ q.leaf_index) o ps (λ e. h.0.0 (sym e)) h.1.0,
      (insert_by_key-Distinct o ps).1 (h.0.1, h.1.1),
    )),
  )
]

sort_by_key-All_back :
    (P : TrackedSpentOutpoint → Type 0) (l : List TrackedSpentOutpoint)
    → All P (sort_by_key l)
    → All P l
unfolding sort_by_key
sort_by_key-All_back P [] h = tt
sort_by_key-All_back P (o ∷ os) h =
    let (own, rest) = insert_by_key-All_back P o (sort_by_key os) h in
    (own, sort_by_key-All_back P os rest)

sort_by_key-Distinct : (l : List TrackedSpentOutpoint) → Distinct (sort_by_key l) ↔ Distinct l
unfolding sort_by_key
sort_by_key-Distinct [] = (λ h. h, λ h. h)
sort_by_key-Distinct (o ∷ os) = (
  λ h.
      let (own, rest) = (insert_by_key-Distinct o (sort_by_key os)).0 h in
      (
        sort_by_key-All_back (λ p. o.leaf_index ≢ p.leaf_index) os own,
        (sort_by_key-Distinct os).0 rest,
      ),
  λ h.
      (insert_by_key-Distinct o (sort_by_key os)).1 (
        sort_by_key-All (λ p. o.leaf_index ≢ p.leaf_index) os h.0,
        (sort_by_key-Distinct os).1 h.1,
      ),
)

check_windows-Distinct :
    (l : List TrackedSpentOutpoint) → Sorted l → check_windows l ≡ ok tt → Distinct l
unfolding check_windows
check_windows-Distinct [] h e = tt
check_windows-Distinct (a ∷ []) h e = (tt, tt)
check_windows-Distinct (a ∷ (b ∷ rest)) h e = elim (Bool-cases (a.leaf_index == b.leaf_index)) [
  | inl same ↦ clash (rw same at e)
  | inr differ ↦
      let more = check_windows-Distinct (b ∷ rest) h.1 (rw differ at e) in
      let apart = strict a.leaf_index b.leaf_index h.0.0 differ in
      ((omega (arith, apart), All-map rest (λ q le. omega (arith, apart, le)) h.1.0), more)
]
  where
    clash : {A : Type 0} {d : Error} → ◌≡◌ {A = Result Error (Unit {0})} (err d) (ok tt) → A
    clash p = cc

    strict : (m n : ℕ) → m ≤ n → (m == n) ≡ false → m < n
    strict m n le ne = ground arith

Distinct-check_windows : (l : List TrackedSpentOutpoint) → Distinct l → check_windows l ≡ ok tt
unfolding check_windows
Distinct-check_windows [] h = refl
Distinct-check_windows (a ∷ []) h = refl
Distinct-check_windows (a ∷ (b ∷ rest)) h =
    rw (differ a.leaf_index b.leaf_index h.0.0) (Distinct-check_windows (b ∷ rest) h.1)
  where
    differ : (m n : ℕ) → m ≢ n → (m == n) ≡ false
    differ m n ne = ground arith

-- There is a commitment exactly for one outpoint or more, no two of which have the same leaf index.
pub tracked_utxo_spent_commitment-ok_iff :
    (sha256 : List ℕ → List ℕ) (old_root : List ℕ) (outpoints : List TrackedSpentOutpoint)
    → ((h : List ℕ) × (tracked_utxo_spent_commitment sha256 old_root outpoints ≡ ok h))
      ↔ ((1 ≤ length outpoints) × Distinct outpoints)
unfolding tracked_utxo_spent_commitment
tracked_utxo_spent_commitment-ok_iff sha256 old_root outpoints = (
  λ (h, e).
      let (_, filled, checked) = >>=-ok (bail_if (length outpoints == 0) no_outpoints) _ e in
      let (done, passed, _) = >>=-ok (check_windows (sort_by_key outpoints)) _ checked in
      (
        some_outpoint (length outpoints) filled,
        (sort_by_key-Distinct outpoints).0
            (check_windows-Distinct (sort_by_key outpoints) (sort_by_key-Sorted outpoints) passed),
      ),
  λ (filled, distinct).
      let passed =
        Distinct-check_windows (sort_by_key outpoints)
          ((sort_by_key-Distinct outpoints).1 distinct) in
      (
        sha256 (preimage old_root (sort_by_key outpoints)),
        rw (not_empty (length outpoints) filled, passed) refl,
      ),
)
  where
    not_empty : (n : ℕ) → 1 ≤ n → (n == 0) ≡ false
    not_empty n le = ground arith

    some_outpoint :
        (n : ℕ) → ◌≡◌ {A = Result Error (Unit {0})} (bail_if (n == 0) no_outpoints) (ok tt) → 1 ≤ n
    some_outpoint n p = ground arith
