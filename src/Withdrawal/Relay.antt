-- ===== src/Withdrawal/Relay.antt =====
-- `broadcast_electrs`, `electrs_has_transaction` and `broadcast_electrs_idempotent` of
-- doge/src/commands/process_withdrawal.rs: a signed transaction is given to Electrs.
--
-- The HTTP client, what Electrs makes of a request and the decoding of JSON are parameters.
pub mod Twice
use psy_doge_solana_cli.Common.{
  ℕ, List, [], ◌∷◌, ◌++◌, reverse, Bool, true, false, not, ◌&&◌, ◌==◌, leb, ltb, if◌then◌else◌,
  Option, Result, ok, err, bail_if, ok_or, eq_ignore_ascii_case,
}
use psy_doge_solana_cli.Common.Effects.{Effect, then_run, ◌>>=◌, ◌>>◌, lift, pure}
use psy_doge_solana_cli.Withdrawal.Amount.{trim}
use psy_doge_solana_cli.Withdrawal.Errors.{
  Error, bad_answer, electrs_get, electrs_post, returned_txid, wrong_txid,
}

pub record Response : Type 0 where
  pub status : ℕ
  pub text : Result Error (List ℕ)

-- The client with what is behind it, the field `txid` of a JSON text, and `hex::encode`.
pub record HttpClient (N : Type 0) : Type 0 where
  pub get : List ℕ → Effect Error N Response
  pub post : List ℕ → List ℕ → Effect Error N Response
  pub decode_txid : List ℕ → Option (List ℕ)
  pub encode_hex : List ℕ → List ℕ

unfoldable pub is_success : ℕ → Bool
is_success status = leb 200 status && ltb status 300

-- `trim_start_matches` and `trim_end_matches` of one ASCII character, and `trim_matches`.
unfoldable pub trim_start_matches : ℕ → List ℕ → List ℕ
trim_start_matches c [] = []
trim_start_matches c (b ∷ bs) =
    let rest = trim_start_matches c bs in if b == c then rest else b ∷ bs

unfoldable pub trim_end_matches : ℕ → List ℕ → List ℕ
unfolding trim_start_matches
trim_end_matches c text = reverse (trim_start_matches c (reverse text))

unfoldable pub trim_matches : ℕ → List ℕ → List ℕ
unfolding trim_start_matches trim_end_matches
trim_matches c text = trim_end_matches c (trim_start_matches c text)

-- The url's path of the transactions: "/tx".
unfoldable pub tx_url : List ℕ → List ℕ
unfolding trim_end_matches
tx_url electrs_url = trim_end_matches 47 electrs_url ++ (47 ∷ 116 ∷ 120 ∷ [])

module _ {N : Type 0} (client : HttpClient N) (electrs_url : List ℕ) where
  -- The id that is answered to a transaction.
  unfoldable pub posted_txid : Response → Effect Error N (List ℕ)
  unfolding is_success trim_matches
  posted_txid response = do
    body ← lift response.text
    lift (bail_if (not (is_success response.status)) (electrs_post response.status body))
    pure (trim_matches 34 (trim body))

  unfoldable pub broadcast_electrs : List ℕ → Effect Error N (List ℕ)
  unfolding posted_txid tx_url
  broadcast_electrs raw = client.post (tx_url electrs_url) (client.encode_hex raw) >>= posted_txid

  -- An answer other than "not found".
  unfoldable pub found_transaction : List ℕ → Response → Effect Error N Bool
  unfolding is_success
  found_transaction display_txid response = do
    body ← lift response.text
    lift (bail_if (not (is_success response.status)) (electrs_get response.status body))
    txid ← lift (ok_or (client.decode_txid body) bad_answer)
    lift (bail_if (not (eq_ignore_ascii_case txid display_txid)) wrong_txid)
    pure true

  unfoldable pub electrs_has_transaction : List ℕ → Effect Error N Bool
  unfolding found_transaction tx_url
  electrs_has_transaction display_txid = do
    response ← client.get (tx_url electrs_url ++ (47 ∷ []) ++ display_txid)
    if response.status == 404 then pure false else found_transaction display_txid response

  -- A transaction that was refused may be there already.
  unfoldable pub refused : Error → Bool → Result Error (Unit {0})
  refused error true = ok tt
  refused error false = err error

  unfoldable pub settle : List ℕ → N × Result Error (List ℕ) → N × Result Error (Unit {0})
  unfolding electrs_has_transaction refused
  settle display_txid (n, ok returned) =
      (n, bail_if (not (eq_ignore_ascii_case returned display_txid)) (returned_txid returned))
  settle display_txid (n, err error) =
      then_run (λ known. lift (refused error known)) (electrs_has_transaction display_txid n)

  unfoldable pub send_once : List ℕ → List ℕ → Bool → Effect Error N (Unit {0})
  unfolding broadcast_electrs settle
  send_once raw display_txid true n = (n, ok tt)
  send_once raw display_txid false n = settle display_txid (broadcast_electrs raw n)

  unfoldable pub broadcast_electrs_idempotent : List ℕ → List ℕ → Effect Error N (Unit {0})
  unfolding electrs_has_transaction send_once
  broadcast_electrs_idempotent raw display_txid =
      electrs_has_transaction display_txid >>= send_once raw display_txid
