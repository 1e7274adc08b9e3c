-- ===== src/Withdrawal/Relay/Twice.antt =====
-- A transaction that has been given to Electrs can be given again.
use psy_doge_solana_cli.Common.{
  ℕ, ◌≡◌, refl, ap, ◌∙◌, List, [], ◌∷◌, ◌++◌, Bool, true, false, not, ◌==◌, eqb_refl,
  to_ascii_lowercase, if◌then◌else◌, subst, Option, none, some, Result, ok, err, bail_if, ok_or,
  eq_ignore_ascii_case,
}
use psy_doge_solana_cli.Common.Effects.{then_run, then_run-ok, pure, lift, ◌>>=◌, ◌>>◌}
use psy_doge_solana_cli.Withdrawal.Errors.{Error, bad_answer, wrong_txid, electrs_get, electrs_post}
use psy_doge_solana_cli.Withdrawal.Amount.{trim}
use psy_doge_solana_cli.Withdrawal.Relay.{
  Response, HttpClient, is_success, tx_url, broadcast_electrs, posted_txid, trim_matches,
  found_transaction, electrs_has_transaction, refused, settle, send_once,
  broadcast_electrs_idempotent,
}

-- What Electrs does, with the transactions that it knows: a GET changes nothing, and is answered
-- with success and the id if, and in this spelling only if, the transaction is known; what is
-- posted with success is known.
pub record Serves {N : Type 0} (client : HttpClient N) (electrs_url raw display_txid : List ℕ)
    (Known : N → Type 0) : Type 0 where
  pub gets :
      (n m : N) (response : Response)
      → client.get (tx_url electrs_url ++ (47 ∷ []) ++ display_txid) n ≡ (m, ok response)
      → is_success response.status ≡ true
      → Known m
  pub shows :
      (n : N)
      → Known n
      → (body : List ℕ) × (client.get (tx_url electrs_url ++ (47 ∷ []) ++ display_txid) n
          ≡ (n, ok (record { status = 200; text = ok body })))
        × (client.decode_txid body ≡ some display_txid)
  pub posts :
      (n m : N) (response : Response)
      → client.post (tx_url electrs_url) (client.encode_hex raw) n ≡ (m, ok response)
      → is_success response.status ≡ true
      → Known m

module _ {N : Type 0} (client : HttpClient N) (electrs_url raw display_txid : List ℕ)
    (Known : N → Type 0) (serves : Serves client electrs_url raw display_txid Known) where
  found_body :
      (n m : N) (success : Bool) (error : Error) (decoded : Option (List ℕ))
      → (do
        lift (bail_if (not success) error)
        txid ← lift (ok_or decoded bad_answer)
        lift (bail_if (not (eq_ignore_ascii_case txid display_txid)) wrong_txid)
        pure true)
          n
        ≡ (m, ok true)
      → (n ≡ m) × (success ≡ true)
  found_body n m false error decoded h = cc
  found_body n m true error none h = cc
  found_body n m true error (some txid) h = (named (eq_ignore_ascii_case txid display_txid) h, refl)
    where
      named :
          (test : Bool)
          → (lift (bail_if (not test) wrong_txid) >> pure true) n ≡ (m, ok true)
          → n ≡ m
      named true h = ap (λ p. p.0) h
      named false h = cc

  found :
      (n m : N) (response : Response)
      → found_transaction client electrs_url display_txid response n ≡ (m, ok true)
      → (n ≡ m) × (is_success response.status ≡ true)
  unfolding found_transaction
  found n m response h = read_text response.text h
    where
      read_text :
          (text : Result Error (List ℕ))
          → (do
            body ← lift text
            lift (bail_if (not (is_success response.status)) (electrs_get response.status body))
            txid ← lift (ok_or (client.decode_txid body) bad_answer)
            lift (bail_if (not (eq_ignore_ascii_case txid display_txid)) wrong_txid)
            pure true)
              n
            ≡ (m, ok true)
          → (n ≡ m) × (is_success response.status ≡ true)
      read_text (ok body) h =
          found_body n m (is_success response.status) (electrs_get response.status body)
            (client.decode_txid body) h
      read_text (err e) h = cc

  -- What is posted is known if it is answered with an id.
  posted :
      (n m : N) (response : Response) (returned : List ℕ)
      → posted_txid client electrs_url response n ≡ (m, ok returned)
      → (n ≡ m) × (is_success response.status ≡ true)
  unfolding posted_txid
  posted n m response returned h = read_text response.text (is_success response.status) h
    where
      read_text :
          (text : Result Error (List ℕ)) (success : Bool)
          → (do
            body ← lift text
            lift (bail_if (not success) (electrs_post response.status body))
            pure (trim_matches 34 (trim body)))
              n
            ≡ (m, ok returned)
          → (n ≡ m) × (success ≡ true)
      read_text (ok body) true h = (ap (λ p. p.0) h, refl)
      read_text (ok body) false h = cc
      read_text (err e) success h = cc

  has-Known :
      (n m : N) → electrs_has_transaction client electrs_url display_txid n ≡ (m, ok true) → Known m
  unfolding electrs_has_transaction
  has-Known n m h =
      let (n1, response, e1, h1) =
        then_run-ok
          (λ response.
            if response.status == 404
            then pure false
            else found_transaction client electrs_url display_txid response)
          (client.get (tx_url electrs_url ++ (47 ∷ []) ++ display_txid) n) m true h in
      let (same, success) = answered (response.status == 404) n1 m response h1 in
      subst Known same (serves.gets n n1 response e1 success)
    where
      answered :
          (absent : Bool) (k m : N) (response : Response)
          → (if absent
                then pure false
                else found_transaction client electrs_url display_txid response)
              k
            ≡ (m, ok true)
          → (k ≡ m) × (is_success response.status ≡ true)
      answered true k m response h = cc
      answered false k m response h = found k m response h

  Known-has :
      (n : N) → Known n → electrs_has_transaction client electrs_url display_txid n ≡ (n, ok true)
  unfolding electrs_has_transaction found_transaction is_success eq_ignore_ascii_case
  Known-has n known =
      let (body, answer, decoded) = serves.shows n known in
      rw answer (rw decoded (rw (eqb_refl (to_ascii_lowercase display_txid)) refl))

  settle-Known :
      (run : N × Result Error (List ℕ)) (n m : N)
      → broadcast_electrs client electrs_url raw n ≡ run
      → settle client electrs_url display_txid run ≡ (m, ok tt)
      → Known m
  unfolding settle broadcast_electrs refused
  settle-Known (k, ok returned) n m e h =
      let (n1, response, e1, h1) =
        then_run-ok (posted_txid client electrs_url)
          (client.post (tx_url electrs_url) (client.encode_hex raw) n) k returned e in
      let (same, success) = posted n1 k response returned h1 in
      subst Known (same ∙ ap (λ p. p.0) h) (serves.posts n n1 response e1 success)
  settle-Known (k, err error) n m e h =
      let (n1, known, e1, h1) =
        then_run-ok (λ known. lift (refused client electrs_url error known))
          (electrs_has_transaction client electrs_url display_txid k) m tt h in
      has-Known k m (was known n1 e1 h1)
    where
      was :
          (known : Bool) (n1 : N)
          → electrs_has_transaction client electrs_url display_txid k ≡ (n1, ok known)
          → ◌≡◌ {A = N × Result Error (Unit {0})}
              (n1, refused client electrs_url error known)
              (m, ok tt)
          → electrs_has_transaction client electrs_url display_txid k ≡ (m, ok true)
      was true n1 e1 h1 = e1 ∙ ap (λ p. (p.0, ok true)) h1
      was false n1 e1 h1 = cc

  -- Where Electrs serves the transaction as its interface says, a broadcast that succeeds leaves
  -- the transaction known, and the same broadcast again succeeds and changes nothing.
  pub broadcast_electrs_idempotent-again :
      (n m : N)
      → broadcast_electrs_idempotent client electrs_url raw display_txid n ≡ (m, ok tt)
      → Known m × (broadcast_electrs_idempotent client electrs_url raw display_txid m ≡ (m, ok tt))
  unfolding broadcast_electrs_idempotent send_once
  broadcast_electrs_idempotent-again n m h =
      let (n1, known, e1, h1) =
        then_run-ok (send_once client electrs_url raw display_txid)
          (electrs_has_transaction client electrs_url display_txid n) m tt h in
      let now = sent known n1 e1 h1 in
      (now, ap (then_run (send_once client electrs_url raw display_txid)) (Known-has m now))
    where
      sent :
          (known : Bool) (n1 : N)
          → electrs_has_transaction client electrs_url display_txid n ≡ (n1, ok known)
          → send_once client electrs_url raw display_txid known n1 ≡ (m, ok tt)
          → Known m
      sent true n1 e1 h1 = subst Known (ap (λ p. p.0) h1) (has-Known n n1 e1)
      sent false n1 e1 h1 = settle-Known (broadcast_electrs client electrs_url raw n1) n1 m refl h1
