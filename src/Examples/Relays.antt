-- ===== src/Examples/Relays.antt =====
-- An Electrs that serves one transaction, and refuses it when it is posted again.
use psy_doge_solana_cli.Common.{
  ℕ, ◌≡◌, refl, sym, ap, ◌∙◌, List, [], ◌∷◌, Bool, true, false, eqb, some, Result, ok, ok-same,
  eq_ignore_ascii_case,
}
use psy_doge_solana_cli.Withdrawal.Errors.{Error}
use psy_doge_solana_cli.Withdrawal.Amount.{trim}
use psy_doge_solana_cli.Withdrawal.Relay.{
  Response, HttpClient, is_success, broadcast_electrs, posted_txid, electrs_has_transaction, settle,
  send_once, found_transaction, broadcast_electrs_idempotent,
}
use psy_doge_solana_cli.Withdrawal.Relay.Twice.{Serves, broadcast_electrs_idempotent-again}

abbrev raw : List ℕ
raw = 7 ∷ 8 ∷ []

abbrev display_txid : List ℕ
display_txid = 97 ∷ 98 ∷ []

-- "e/"
abbrev electrs_url : List ℕ
electrs_url = 101 ∷ 47 ∷ []

abbrev shown : Bool → Response
shown true = record { status = 200; text = ok display_txid }
shown false = record { status = 404; text = ok [] }

-- Whether the transaction is taken.
abbrev taken : Bool → Bool → Response
taken false true = record { status = 200; text = ok display_txid }
taken _ _ = record { status = 400; text = ok [] }

abbrev here : Bool → Bool → Bool
here true _ = true
here false own = own

abbrev client : HttpClient Bool
client = record {
  get = λ url known. (known, ok (shown known));
  post = λ url body known. (here known (eqb body raw), ok (taken known (eqb body raw)));
  decode_txid = λ body. some body;
  encode_hex = λ bytes. bytes;
}

gets :
    (n m : Bool) (response : Response)
    → ◌≡◌ {A = Bool × Result Error Response} (n, ok (shown n)) (m, ok response)
    → is_success response.status ≡ true
    → m ≡ true
unfolding is_success
gets true m response e success = sym (ap (λ p. p.0) e)
gets false m response e success =
    let same = ap (λ r. is_success r.status) (ok-same (ap (λ p. p.1) e)) in cc

posts :
    (n m : Bool) (response : Response)
    → ◌≡◌ {A = Bool × Result Error Response} (here n true, ok (taken n true)) (m, ok response)
    → m ≡ true
posts true m response e = sym (ap (λ p. p.0) e)
posts false m response e = sym (ap (λ p. p.0) e)

client-Serves : Serves client electrs_url raw display_txid (λ known. known ≡ true)
unfolding eqb
client-Serves = record {
  gets = gets;
  shows = λ n known. (
    display_txid,
    ap (λ k. (k, ok (shown k))) known ∙ ap (λ k. (k, ok (shown true))) (sym known),
    refl,
  );
  posts = λ n m response e success. posts n m response e;
}

is_sent : broadcast_electrs_idempotent client electrs_url raw display_txid false ≡ (true, ok tt)
unfolding broadcast_electrs_idempotent send_once settle broadcast_electrs posted_txid
    electrs_has_transaction found_transaction eqb eq_ignore_ascii_case trim
is_sent = refl

broadcast_electrs_idempotent-again_example :
    (true ≡ true)
    × (broadcast_electrs_idempotent client electrs_url raw display_txid true ≡ (true, ok tt))
broadcast_electrs_idempotent-again_example =
    broadcast_electrs_idempotent-again client electrs_url raw display_txid (λ known. known ≡ true)
      client-Serves false true is_sent
