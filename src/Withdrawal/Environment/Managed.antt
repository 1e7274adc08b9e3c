-- ===== src/Withdrawal/Environment/Managed.antt =====
-- Behind which checks the managers' signatures are applied.
use psy_doge_solana_cli.Common.{
  ℕ, ◌≡◌, ap, ◌∙◌, List, if◌then◌else◌, some, ok, ok_or, ok_or-ok, ok-same, map_err, map_err-ok,
  >>=-elim, ◌>>=◌, ◌>>◌, Result, subst,
}
use psy_doge_solana_cli.Wormhole.Utx0.{Utx0UnlockPayload}
use psy_doge_solana_cli.Wormhole.Tx.{UnsignedTransaction}
use psy_doge_solana_cli.Wormhole.Manager.Set.{ManagerSet, manager_set_for_index}
use psy_doge_solana_cli.Wormhole.Manager.Signatures.{ManagerSignatures}
use psy_doge_solana_cli.Withdrawal.Errors.{
  Error, store_error, manager_error, no_reservation, missing_reservation, no_unsigned,
}
use psy_doge_solana_cli.Withdrawal.Approval.{assert_vaa_and_manager}
use psy_doge_solana_cli.Withdrawal.Signing.{apply_manager_signatures}
use psy_doge_solana_cli.Withdrawal.Store.{CustodyReservation, SnapshotBatch}
use psy_doge_solana_cli.Withdrawal.Graph.{OperatorStore}
use psy_doge_solana_cli.Withdrawal.Prepared.{PreparedTransaction, prepared_from_reservation}
use psy_doge_solana_cli.Withdrawal.Environment.{Environment, signed_by_managers}

module _ (environment : Environment) {S : Type 0} (store : OperatorStore S) (s : S)
    (emitter : List ℕ) (batch : SnapshotBatch) (payload : Utx0UnlockPayload) where
  -- The steps that have succeeded.
  pub record Managed (prepared : PreparedTransaction) (transaction : UnsignedTransaction)
      : Type 0 where
    pub manager_set : ManagerSet
    pub of_index :
        manager_set_for_index environment.official_testnet_manager_set_1
          payload.delegated_manager_set_index
        ≡ ok manager_set
    pub id : List ℕ
    pub own : batch.reservation_id ≡ some id
    pub reservation : CustodyReservation
    pub held : store.load_reservation s id ≡ ok (some reservation)
    pub unsigned : List ℕ
    pub kept : batch.unsigned_transaction ≡ some unsigned
    pub is_prepared :
        prepared_from_reservation environment.packages environment.args emitter payload manager_set
          reservation
          (some unsigned)
        ≡ ok prepared
    pub signatures : ManagerSignatures
    pub vaa : List ℕ
    pub accepted :
        assert_vaa_and_manager environment.keccak256 vaa signatures emitter batch.wormhole_sequence
          payload manager_set
        ≡ ok tt
    pub signed :
        apply_manager_signatures environment.packages.sha256 environment.secp prepared.transaction
          signatures manager_set
        ≡ ok transaction

  -- What is done with the reservation.
  abbrev of_reservation :
      ManagerSet
      → CustodyReservation
      → List ℕ
      → Result Error (PreparedTransaction × UnsignedTransaction)
  of_reservation set reservation unsigned = do
    prepared ←
        prepared_from_reservation environment.packages environment.args emitter payload set
          reservation (some unsigned)
    if environment.manager_signing_enabled
        then environment.register_unsigned_transaction prepared
        else ok tt
    signatures ← environment.manager_signatures
    signed_vaa ← environment.signed_vaa
    assert_vaa_and_manager environment.keccak256 signed_vaa signatures emitter
        batch.wormhole_sequence payload set
    transaction ←
        apply_manager_signatures environment.packages.sha256 environment.secp prepared.transaction
          signatures set
    ok (prepared, transaction)

  above_reservation :
      (set : ManagerSet) (id : List ℕ) (reservation : CustodyReservation) (unsigned : List ℕ)
      → manager_set_for_index environment.official_testnet_manager_set_1
          payload.delegated_manager_set_index
        ≡ ok set
      → batch.reservation_id ≡ some id
      → store.load_reservation s id ≡ ok (some reservation)
      → batch.unsigned_transaction ≡ some unsigned
      → (prepared : PreparedTransaction) (transaction : UnsignedTransaction)
      → of_reservation set reservation unsigned ≡ ok (prepared, transaction)
      → Managed prepared transaction
  above_reservation set id reservation unsigned of_index own held kept prepared transaction e =
      >>=-elim
        (prepared_from_reservation environment.packages environment.args emitter payload set
          reservation (some unsigned))
        _ e
        λ made is_prepared e6.
          >>=-elim
            (if environment.manager_signing_enabled
              then environment.register_unsigned_transaction made
              else ok tt)
            _ e6
            λ done registered e7.
              >>=-elim environment.manager_signatures _ e7 λ signatures answered e8.
                >>=-elim environment.signed_vaa _ e8 λ vaa sent e9.
                  >>=-elim
                    (assert_vaa_and_manager environment.keccak256 vaa signatures emitter
                      batch.wormhole_sequence payload set)
                    _ e9
                    λ done' accepted e10.
                      >>=-elim
                        (apply_manager_signatures environment.packages.sha256 environment.secp
                          made.transaction signatures set)
                        _ e10
                        λ final signed e11.
                          subst (λ p. Managed p.0 p.1) (ok-same e11)
                            (record {
                              manager_set = set;
                              of_index = of_index;
                              id = id;
                              own = own;
                              reservation = reservation;
                              held = held;
                              unsigned = unsigned;
                              kept = kept;
                              is_prepared = is_prepared;
                              signatures = signatures;
                              vaa = vaa;
                              accepted = accepted;
                              signed = signed;
                            })

  pub signed_by_managers-Managed :
      (prepared : PreparedTransaction) (transaction : UnsignedTransaction)
      → signed_by_managers environment store s emitter batch payload ≡ ok (prepared, transaction)
      → Managed prepared transaction
  unfolding signed_by_managers
  signed_by_managers-Managed prepared transaction e =
      >>=-elim
        (map_err manager_error (
          manager_set_for_index environment.official_testnet_manager_set_1
            payload.delegated_manager_set_index))
        _ e
        λ set of_index e1. >>=-elim (ok_or batch.reservation_id no_reservation) _ e1 λ id own e2.
          >>=-elim (map_err store_error (store.load_reservation s id)) _ e2 λ found load e3.
            >>=-elim (ok_or found missing_reservation) _ e3 λ reservation is_row e4.
              >>=-elim (ok_or batch.unsigned_transaction no_unsigned) _ e4 λ unsigned kept e5.
                above_reservation set id reservation unsigned (map_err-ok manager_error _ of_index)
                  (ok_or-ok batch.reservation_id no_reservation own)
                  (map_err-ok store_error (store.load_reservation s id) load
                    ∙ ap ok (ok_or-ok found missing_reservation is_row))
                  (ok_or-ok batch.unsigned_transaction no_unsigned kept) prepared transaction e5
