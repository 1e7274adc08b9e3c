-- ===== src/Examples/Resumed.antt =====
-- A batch that is broadcast, and whose transaction Electrs shows as confirmed.
use psy_doge_solana_cli.Common.{ℕ, List, [], ◌∷◌, none, some, ok, if◌then◌else◌, leb, ◌&&◌}
use psy_doge_solana_cli.Withdrawal.Store.{OperatorStatus}
use psy_doge_solana_cli.Withdrawal.Environment.{Environment}
use psy_doge_solana_cli.Withdrawal.Resume.Confirms.{Confirms}
use psy_doge_solana_cli.Examples.Memory.{Memory, marked}
use psy_doge_solana_cli.Examples.Stores.{batch, graph, request}
use psy_doge_solana_cli.Examples.Prepared.{addressed}
use psy_doge_solana_cli.Examples.Changes.{confirmed}
use psy_doge_solana_cli.Examples.Signings.{environment}
use psy_doge_solana_cli.Common.{eqb}

-- An Electrs that has the transaction in the second place of a block.
abbrev confirming : Environment
confirming = record environment {
  electrs = record {
    transaction = λ txid. ok (record confirmed.transaction { txid = txid });
    block_txids = λ hash. ok ([] ∷ (4 ∷ 3 ∷ 2 ∷ 1 ∷ []) ∷ []);
    tip_height = ok 43;
  };
}

-- The bytes of the transaction, which are their own hash here.
abbrev bytes : List ℕ
bytes = 1 ∷ 2 ∷ 3 ∷ 4 ∷ []

abbrev broadcast_store : Memory
broadcast_store = record {
  rows = record {
    reservation = λ id. if eqb id (7 ∷ []) then some (marked bytes addressed) else none;
    transaction = λ key. some (record graph.transaction {
      raw_hash = bytes;
      txid = some bytes;
      raw_transaction = some bytes;
      status = OperatorStatus.broadcast;
    });
    process = λ key.
        some
          (record graph.process { dogecoin_raw_hash = bytes; status = OperatorStatus.broadcast });
    request = λ index.
        if (leb index 4 && leb 4 index)
        then some (record request { status = OperatorStatus.broadcast })
        else none;
    batch = λ key. some batch;
  };
  mappings =
      record {
        request_index = 4;
        process_solana_signature = batch.solana_signature;
        dogecoin_txid = bytes;
      }
      ∷ [];
  fails = [];
}
