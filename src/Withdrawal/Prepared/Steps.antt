-- ===== src/Withdrawal/Prepared/Steps.antt =====
-- The steps of `prepared_from_reservation`, as facts.
use psy_doge_solana_cli.Common.{
  ℕ, ◌≡◌, refl, ap, subst, List, ◌++◌, map, true, false, not, ◌==◌, Option, ok, ok_or, collect,
  checked_add, >>=-ok, ok->>=, false-bail_if, bail_if-ok, bail_if-not-ok, ok-same,
}
use psy_doge_solana_cli.Wormhole.Utx0.{Utx0UnlockPayload}
use psy_doge_solana_cli.Wormhole.Tx.{SelectedUtxo, serialize}
use psy_doge_solana_cli.Wormhole.Manager.Set.{ManagerSet}
use psy_doge_solana_cli.Withdrawal.Errors.{required_overflow}
use psy_doge_solana_cli.Withdrawal.Plan.{plan_custody_transaction}
use psy_doge_solana_cli.Withdrawal.Store.{CustodyReservation}
use psy_doge_solana_cli.Withdrawal.Prepared.{
  Packages, Args, PreparedTransaction, total_from, reserved_input, payload_output, change_hash,
  change_output, build_or_recover, differs, prepared_from_reservation,
}

module _ (packages : Packages) (args : Args) (emitter : List ℕ) (payload : Utx0UnlockPayload)
    (manager_set : ManagerSet) (reservation : CustodyReservation) where
  pub record Steps (persisted : Option (List ℕ)) (p : PreparedTransaction) : Type 0 where
    pub total : ℕ
    pub summed : total_from 0 payload.outputs ≡ ok total
    pub required : ℕ
    pub added : ok_or (checked_add 64 total args.fee_sats) required_overflow ≡ ok required
    pub asked : (reservation.required_amount_sats == required) ≡ true
    pub planned :
        plan_custody_transaction reservation.selected_amount_sats total args.fee_sats
          args.dust_threshold_sats
        ≡ ok p.plan
    pub inputs : List SelectedUtxo
    pub collected :
        collect (reserved_input packages args.doge_network emitter manager_set) reservation.utxos
        ≡ ok inputs
    pub hashed :
        change_hash packages emitter manager_set p.plan.change_sats ≡ ok p.change_script_hash
    pub made :
        build_or_recover persisted inputs (
          map payload_output payload.outputs
          ++ change_output p.plan.change_sats p.change_script_hash)
        ≡ ok p.transaction
    pub kept : differs persisted (serialize p.transaction) ≡ false
    pub bytes : serialize p.transaction ≡ p.unsigned_bytes
    pub utxos : reservation.utxos ≡ p.selected_utxos
    pub sats : reservation.selected_amount_sats ≡ p.selected_sats
    pub id : reservation.reservation_id ≡ p.reservation_id

  pub prepared_from_reservation-Steps :
      (persisted : Option (List ℕ)) (p : PreparedTransaction)
      → prepared_from_reservation packages args emitter payload manager_set reservation persisted
        ≡ ok p
      → Steps persisted p
  unfolding prepared_from_reservation
  prepared_from_reservation-Steps persisted p e =
      let (total, summed, e1) = >>=-ok (total_from 0 payload.outputs) _ e in
      let (required, added, e2) =
        >>=-ok (ok_or (checked_add 64 total args.fee_sats) required_overflow) _ e1 in
      let (asked, e3) = bail_if-not-ok (reservation.required_amount_sats == required) _ _ e2 in
      let (plan, planned, e4) =
        >>=-ok
          (plan_custody_transaction reservation.selected_amount_sats total args.fee_sats
            args.dust_threshold_sats)
          _ e3 in
      let (inputs, collected, e5) =
        >>=-ok
          (collect (reserved_input packages args.doge_network emitter manager_set)
            reservation.utxos)
          _ e4 in
      let (hash, hashed, e6) =
        >>=-ok (change_hash packages emitter manager_set plan.change_sats) _ e5 in
      let outputs = map payload_output payload.outputs ++ change_output plan.change_sats hash in
      let (transaction, made, e7) = >>=-ok (build_or_recover persisted inputs outputs) _ e6 in
      let (kept, e8) = bail_if-ok (differs persisted (serialize transaction)) _ _ e7 in
      subst (Steps persisted) (ok-same e8) (record {
        total = total;
        summed = summed;
        required = required;
        added = added;
        asked = asked;
        planned = planned;
        inputs = inputs;
        collected = collected;
        hashed = hashed;
        made = made;
        kept = kept;
        bytes = refl;
        utxos = refl;
        sats = refl;
        id = refl;
      })

  pub Steps-prepared_from_reservation :
      (persisted : Option (List ℕ)) (p : PreparedTransaction)
      → Steps persisted p
      → prepared_from_reservation packages args emitter payload manager_set reservation persisted
        ≡ ok p
  unfolding prepared_from_reservation
  Steps-prepared_from_reservation persisted p s = ok->>= (total_from 0 payload.outputs) _ s.summed (
      ok->>= (ok_or (checked_add 64 s.total args.fee_sats) required_overflow) _ s.added (
        false-bail_if (not (reservation.required_amount_sats == s.required)) _ _ (ap not s.asked) (
          ok->>=
            (plan_custody_transaction reservation.selected_amount_sats s.total args.fee_sats
              args.dust_threshold_sats)
            _ s.planned
            (ok->>=
              (collect (reserved_input packages args.doge_network emitter manager_set)
                reservation.utxos)
              _ s.collected
              (ok->>= (change_hash packages emitter manager_set p.plan.change_sats) _ s.hashed (
                ok->>=
                  (build_or_recover persisted s.inputs (
                    map payload_output payload.outputs
                    ++ change_output p.plan.change_sats p.change_script_hash))
                  _ s.made
                  (false-bail_if (differs persisted (serialize p.transaction)) _ _ s.kept (
                    ap ok (λ i. record {
                      transaction = p.transaction;
                      unsigned_bytes = s.bytes i;
                      selected_utxos = s.utxos i;
                      selected_sats = s.sats i;
                      plan = p.plan;
                      change_script_hash = p.change_script_hash;
                      reservation_id = s.id i;
                    })))))))))
