-- ===== src/Withdrawal/Batch/Payload.antt =====
-- The payload of a range of requests.
use psy_doge_solana_cli.Common.{
  some-same, ℕ, zero, suc, ◌-◌, ◌<◌, ◌≤◌, ◌≡◌, refl, sym, ap, ◌∙◌, List, [], ◌∷◌, length,
  length-slice, take, drop, slice, get_elem?, some, ok, collect, collect-step, arith,
}
use psy_doge_solana_cli.Wormhole.Utx0.{Utx0Output, Utx0UnlockPayload, from_u32}
use psy_doge_solana_cli.Wormhole.Tx.{is_empty}
use psy_doge_solana_cli.Withdrawal.Batch.{
  IndexedRequest, history_range, request_output, payload_for_requests,
}

-- The output pays what the request asks for.
abbrev Pays : IndexedRequest → Utx0Output → Type 0
Pays request o =
    (o.amount ≡ request.net_amount_sats)
    × (from_u32 request.address_type ≡ ok o.address_type)
    × (o.address ≡ request.recipient_address)

request_output-Pays :
    (request : IndexedRequest) (o : Utx0Output) → request_output request ≡ ok o → Pays request o
unfolding request_output
request_output-Pays request o e = ground arith

get_elem?-take :
    {A : Type 0} (xs : List A) (n i : ℕ) → i < n → get_elem? (take n xs) i ≡ get_elem? xs i
get_elem?-take xs zero i h = absurd (omega arith)
get_elem?-take [] (suc n) i h = refl
get_elem?-take (x ∷ xs) (suc n) zero h = refl
get_elem?-take (x ∷ xs) (suc n) (suc i) h = get_elem?-take xs n i (omega arith)

get_elem?-drop :
    {A : Type 0} (xs : List A) (n i : ℕ) → n ≤ i → get_elem? (drop n xs) (i - n) ≡ get_elem? xs i
get_elem?-drop xs zero i h = ap (get_elem? xs) (same i)
  where
    same : (k : ℕ) → k - 0 ≡ k
    same k = omega arith
get_elem?-drop [] (suc n) i h = refl
get_elem?-drop (x ∷ xs) (suc n) zero h = absurd (omega arith)
get_elem?-drop (x ∷ xs) (suc n) (suc i) h =
    ap (get_elem? (drop n xs)) (same i n) ∙ get_elem?-drop xs n i (omega arith)
  where
    same : (k m : ℕ) → suc k - suc m ≡ k - m
    same k m = omega arith

collect-Pays :
    (rs : List IndexedRequest) (os : List Utx0Output)
    → collect request_output rs ≡ ok os
    → (length os ≡ length rs)
      × ((i : ℕ) (r : IndexedRequest)
          → get_elem? rs i ≡ some r
          → (o : Utx0Output) × (get_elem? os i ≡ some o) × Pays r o)
unfolding collect
collect-Pays [] [] e = (refl, λ i r h. absurd (ground arith))
collect-Pays [] (o ∷ os) e = absurd (ground arith)
collect-Pays (r ∷ rs) os e =
    let (o, rest, first, others, shape) = collect-step request_output r rs os e in
    let (count, each) = collect-Pays rs rest others in
    (ap length (sym shape) ∙ ap suc count, λ i request h. at o rest first each shape i request h)
  where
    at :
        (o : Utx0Output) (rest : List Utx0Output)
        → request_output r ≡ ok o
        → ((i : ℕ) (q : IndexedRequest)
            → get_elem? rs i ≡ some q
            → (p : Utx0Output) × (get_elem? rest i ≡ some p) × Pays q p)
        → o ∷ rest ≡ os
        → (i : ℕ) (q : IndexedRequest) → get_elem? (r ∷ rs) i ≡ some q
        → (p : Utx0Output) × (get_elem? os i ≡ some p) × Pays q p
    at o rest first each shape zero q h = (
      o,
      ap (λ l. get_elem? l 0) (sym shape),
      request_output-Pays q o (ap request_output (some-same (sym h)) ∙ first),
    )
    at o rest first each shape (suc i) q h =
        let (p, found, pays) = each i q h in
        (p, ap (λ l. get_elem? l (suc i)) (sym shape) ∙ found, pays)

in_range :
    (history : List IndexedRequest) (from to : ℕ) (rs : List IndexedRequest)
    → history_range history from to ≡ ok rs
    → (from ≤ to) × (to ≤ length history) × (rs ≡ slice from to history)
unfolding history_range
in_range history from to rs e = ground arith

of_requests :
    (rs : List IndexedRequest) (index : ℕ) (payload : Utx0UnlockPayload)
    → payload_for_requests rs index ≡ ok payload
    → (1 ≤ length rs)
      × (collect request_output rs ≡ ok payload.outputs)
      × (payload.destination_chain ≡ 65)
      × (payload.delegated_manager_set_index ≡ index)
unfolding payload_for_requests is_empty
of_requests [] index payload e = absurd (ground arith)
of_requests (r ∷ rs) index payload e = (omega arith, ground arith, ground arith, ground arith)

-- The payload of the requests from `from` up to `to` of the history has one output for each of
-- them, in order, that pays its net amount to its recipient.
pub payload_for_requests-history_range :
    (history rs : List IndexedRequest) (from to index : ℕ) (payload : Utx0UnlockPayload)
    → history_range history from to ≡ ok rs
    → payload_for_requests rs index ≡ ok payload
    → (i : ℕ) (request : IndexedRequest) → from ≤ i
    → i < to
    → get_elem? history i ≡ some request
    → (length payload.outputs ≡ to - from)
      × (o : Utx0Output) × (get_elem? payload.outputs (i - from) ≡ some o)
      × (o.amount ≡ request.net_amount_sats)
      × (from_u32 request.address_type ≡ ok o.address_type)
      × (o.address ≡ request.recipient_address)
payload_for_requests-history_range history rs from to index payload e f i request lower upper
      found =
    let (ordered, covered, shape) = in_range history from to rs e in
    let (_, collected, _, _) = of_requests rs index payload f in
    let (count, each) = collect-Pays rs payload.outputs collected in
    let place : get_elem? rs (i - from) ≡ some request =
      ap (λ l. get_elem? l (i - from)) shape
      ∙ get_elem?-take (drop from history) (to - from) (i - from) (omega arith)
      ∙ get_elem?-drop history from i lower
      ∙ found in
    let (o, at, (amount, kind, address)) = each (i - from) request place in
    (count ∙ ap length shape ∙ length-slice from to history covered, o, at, amount, kind, address)
