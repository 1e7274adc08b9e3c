-- ===== src/Wormhole/Manager/Local/Service.antt =====
-- The service keeps what it has registered.
use psy_doge_solana_cli.Common.{
  ◌⊎◌, ℕ, ◌≡◌, refl, sym, ap, subst, ◌∙◌, List, [], ◌∷◌, true, eqb→eq, eqb_refl, ==-refl,
  Bool-cases, inl, inr, Option, none, some, ok, >>=-ok, Option-cases, arith,
}
use psy_doge_solana_cli.Wormhole.Utx0.{Utx0UnlockPayload}
use psy_doge_solana_cli.Wormhole.Tx.{UnsignedTransaction}
use psy_doge_solana_cli.Wormhole.Manager.Vaa.{
  VaaKey, key_eqb, LocalWithdrawalRegistration, synthesize_local_vaa,
}
use psy_doge_solana_cli.Wormhole.Manager.Signatures.{Secp256k1}
use psy_doge_solana_cli.Wormhole.Manager.Local.{
  LocalSignedWithdrawal, check_registration, build_local_signed_withdrawal, find,
  RegistrationOutcome, inserted, already_registered, LocalManagerService, register, get,
}
use psy_doge_solana_cli.Wormhole.Manager.Local.Built.{
  build-unsigned_transaction, build-check_registration,
}

key_eqb→eq : (a b : VaaKey) → key_eqb a b ≡ true → a ≡ b
unfolding key_eqb
key_eqb→eq a b h = ground (arith, eqb→eq a.emitter_address b.emitter_address)

key_eqb_refl : (a : VaaKey) → key_eqb a a ≡ true
unfolding key_eqb
key_eqb_refl a = rw (==-refl a.emitter_chain, eqb_refl a.emitter_address, ==-refl a.sequence) refl

abbrev Entries : Type 0
Entries = List (VaaKey × (List ℕ × LocalSignedWithdrawal))

clash :
    {old : List ℕ × LocalSignedWithdrawal}
    → ◌≡◌ {A = Option (List ℕ × LocalSignedWithdrawal)} none (some old)
    → ⊥
clash e = cc

find_front :
    (k : VaaKey) (e : List ℕ × LocalSignedWithdrawal) (rest : Entries)
    → find ((k, e) ∷ rest) k ≡ some e
unfolding find
find_front k e rest = rw (key_eqb_refl k) refl

-- A new entry hides no old one.
find_behind :
    (k : VaaKey) (e : List ℕ × LocalSignedWithdrawal) (rest : Entries) (key : VaaKey)
    (old : List ℕ × LocalSignedWithdrawal)
    → find rest k ≡ none
    → find rest key ≡ some old
    → find ((k, e) ∷ rest) key ≡ some old
unfolding find
find_behind k e rest key old absent present = elim (Bool-cases (key_eqb k key)) [
  | inl same ↦ absurd (clash (sym absent ∙ ap (find rest) (key_eqb→eq k key same) ∙ present))
  | inr other ↦ rw other present
]

find_split :
    (k : VaaKey) (e : List ℕ × LocalSignedWithdrawal) (rest : Entries) (key : VaaKey)
    (entry : List ℕ × LocalSignedWithdrawal)
    → find ((k, e) ∷ rest) key ≡ some entry
    → ((k ≡ key) × (entry ≡ e)) ⊎ (find rest key ≡ some entry)
unfolding find
find_split k e rest key entry found = elim (Bool-cases (key_eqb k key)) [
  | inl same ↦ inl (key_eqb→eq k key same, ground (arith, same))
  | inr other ↦ inr (ground (arith, other))
]

get-ok :
    (service : LocalManagerService) (key : VaaKey) (signed : LocalSignedWithdrawal)
    → get service key ≡ some signed
    → (payload : List ℕ) × (find service.withdrawals key ≡ some (payload, signed))
unfolding get
get-ok service key signed e = entry (find service.withdrawals key) e
  where
    entry :
        (o : Option (List ℕ × LocalSignedWithdrawal))
        → ◌≡◌ {A = Option LocalSignedWithdrawal}
            (elim o [ none ↦ none | some (payload, w) ↦ some w ])
            (some signed)
        → (payload : List ℕ) × (o ≡ some (payload, signed))
    entry none h = absurd (ground arith)
    entry (some (payload, w)) h = (payload, cc)

module _ (sha256 keccak256 : List ℕ → List ℕ) (secp : Secp256k1) (vaa_id : VaaKey → List ℕ) where
  abbrev Build : LocalWithdrawalRegistration → LocalSignedWithdrawal → Type 0
  Build registration signed =
      build_local_signed_withdrawal sha256 keccak256 secp vaa_id registration ≡ ok signed

  abbrev Registers :
      LocalManagerService
      → LocalWithdrawalRegistration
      → LocalManagerService
      → RegistrationOutcome
      → Type 0
  Registers service registration next outcome =
      register sha256 keccak256 secp vaa_id service registration ≡ ok (next, outcome)

  -- The two ways in which a registration succeeds.
  registered_before :
      (service next : LocalManagerService) (r : LocalWithdrawalRegistration)
      (outcome : RegistrationOutcome) (payload : List ℕ) (signed : LocalSignedWithdrawal)
      → find service.withdrawals r.key ≡ some (payload, signed)
      → Registers service r next outcome
      → (next ≡ service)
        × (outcome ≡ already_registered)
        × (payload ≡ r.payload)
        × (signed.unsigned_transaction ≡ r.unsigned_transaction)
  unfolding register
  registered_before service next r outcome payload signed found e =
      ground
        (arith, eqb→eq payload r.payload, eqb→eq signed.unsigned_transaction r.unsigned_transaction)

  registered_now :
      (service next : LocalManagerService) (r : LocalWithdrawalRegistration)
      (outcome : RegistrationOutcome)
      → find service.withdrawals r.key ≡ none
      → Registers service r next outcome
      → (signed : LocalSignedWithdrawal) × Build r signed
        × (outcome ≡ inserted)
        × (next ≡ record { withdrawals = (r.key, (r.payload, signed)) ∷ service.withdrawals })
  unfolding register
  registered_now service next r outcome absent e =
      let (signed, built, last) =
        >>=-ok (build_local_signed_withdrawal sha256 keccak256 secp vaa_id r) _
          (rw (absent, register) at e) in
      (signed, built, cc, cc)

  -- What the service has afterwards under the key of a registration.
  stored :
      (service next : LocalManagerService) (r : LocalWithdrawalRegistration)
      (outcome : RegistrationOutcome)
      → Registers service r next outcome
      → (signed : LocalSignedWithdrawal) × (find next.withdrawals r.key ≡ some (r.payload, signed))
        × (signed.unsigned_transaction ≡ r.unsigned_transaction)
  stored service next r outcome e = elim (Option-cases (find service.withdrawals r.key)) [
    | inl absent ↦
        let (signed, built, _, grown) = registered_now service next r outcome absent e in
        (
          signed,
          ap (λ s. find s.withdrawals r.key) grown
              ∙ find_front r.key (r.payload, signed) service.withdrawals,
          (build-unsigned_transaction sha256 keccak256 secp vaa_id r signed built).0,
        )
    | inr ((payload, signed), found) ↦
        let (same, _, p, u) = registered_before service next r outcome payload signed found e in
        (signed, ap (λ s. find s.withdrawals r.key) same ∙ found ∙ ap (λ l. some (l, signed)) p, u)
  ]

  keeps :
      (service next : LocalManagerService) (r : LocalWithdrawalRegistration)
      (outcome : RegistrationOutcome) (key : VaaKey) (old : List ℕ × LocalSignedWithdrawal)
      → Registers service r next outcome
      → find service.withdrawals key ≡ some old
      → find next.withdrawals key ≡ some old
  keeps service next r outcome key old e present =
      elim (Option-cases (find service.withdrawals r.key)) [
        | inl absent ↦
            let (signed, built, _, grown) = registered_now service next r outcome absent e in
            ap (λ s. find s.withdrawals key) grown
            ∙ find_behind r.key (r.payload, signed) service.withdrawals key old absent present
        | inr ((payload, signed), found) ↦
            ap (λ s. find s.withdrawals key)
              (registered_before service next r outcome payload signed found e).0
            ∙ present
      ]

  -- What a registration adds under a key that had nothing.
  pub record IsNew (service next : LocalManagerService) (r : LocalWithdrawalRegistration)
      (outcome : RegistrationOutcome) (key : VaaKey) : Type 0 where
    pub own : r.key ≡ key
    pub nothing_before : get service key ≡ none
    pub is_inserted : outcome ≡ inserted
    pub signed : LocalSignedWithdrawal
    pub is_there : get next key ≡ some signed
    pub transaction : signed.unsigned_transaction ≡ r.unsigned_transaction
    pub vaa : signed.signed_vaa ≡ synthesize_local_vaa r

  -- A registration that succeeds leaves what the service returns for a key as it was, except where
  -- the key is the registration's and the service had nothing for it: there the registration is
  -- inserted, and the service has its transaction and its VAA.
  pub get-register :
      (service next : LocalManagerService) (r : LocalWithdrawalRegistration)
      (outcome : RegistrationOutcome) (key : VaaKey)
      → Registers service r next outcome
      → (get next key ≡ get service key) ⊎ IsNew service next r outcome key
  unfolding get
  get-register service next r outcome key e = elim (Option-cases (find service.withdrawals key)) [
    | inr (old, present) ↦
        inl (ap value (keeps service next r outcome key old e present ∙ sym present))
    | inl absent ↦ elim (Option-cases (find next.withdrawals key)) [
      | inl still ↦ inl (ap value (still ∙ sym absent))
      | inr (entry, found) ↦ inr (added absent entry found)
    ]
  ]
    where
      value : Option (List ℕ × LocalSignedWithdrawal) → Option LocalSignedWithdrawal
      value o = elim o [ none ↦ none | some (payload, w) ↦ some w ]

      added :
          find service.withdrawals key ≡ none
          → (entry : List ℕ × LocalSignedWithdrawal) → find next.withdrawals key ≡ some entry
          → IsNew service next r outcome key
      added absent entry found = elim (Option-cases (find service.withdrawals r.key)) [
        | inl fresh ↦
            let (signed, built, is_inserted, grown) =
              registered_now service next r outcome fresh e in
            elim (find_split r.key (r.payload, signed) service.withdrawals key entry
              (ap (λ s. find s.withdrawals key) (sym grown) ∙ found)) [
                | inl (own, is_new) ↦
                    let (u, v) =
                      build-unsigned_transaction sha256 keccak256 secp vaa_id r signed built in
                    record {
                      own = own;
                      nothing_before = ap value absent;
                      is_inserted = is_inserted;
                      signed = signed;
                      is_there = ap value (found ∙ ap some is_new);
                      transaction = u;
                      vaa = v;
                    }
                | inr old ↦ absurd (clash (sym absent ∙ old))
              ]
        | inr ((payload, signed), present) ↦
            let same = (registered_before service next r outcome payload signed present e).0 in
            absurd (clash (sym absent ∙ ap (λ s. find s.withdrawals key) (sym same) ∙ found))
      ]

  -- After a registration that succeeds, the same one succeeds again, and changes nothing.
  pub register-register :
      (service next : LocalManagerService) (r : LocalWithdrawalRegistration)
      (outcome : RegistrationOutcome)
      → Registers service r next outcome
      → Registers next r next already_registered
  unfolding register
  register-register service next r outcome e =
      let (signed, found, unsigned) = stored service next r outcome e in
      rw (found, unsigned, eqb_refl r.payload, eqb_refl r.unsigned_transaction, register) refl

  -- The services that registrations lead to.
  pub data Reachable : LocalManagerService → Type 0 where
    empty : Reachable (record { withdrawals = [] })
    after :
        (service next : LocalManagerService) (r : LocalWithdrawalRegistration)
        (outcome : RegistrationOutcome)
        → Reachable service
        → Registers service r next outcome
        → Reachable next

  abbrev Genuine : LocalManagerService → Type 0
  Genuine service =
      (key : VaaKey) (entry : List ℕ × LocalSignedWithdrawal)
      → find service.withdrawals key ≡ some entry
      → (r : LocalWithdrawalRegistration) × (r.key ≡ key) × (r.payload ≡ entry.0) × Build r entry.1

  register-Genuine :
      (service next : LocalManagerService) (r : LocalWithdrawalRegistration)
      (outcome : RegistrationOutcome)
      → Genuine service
      → Registers service r next outcome
      → Genuine next
  register-Genuine service next r outcome genuine e key entry found =
      elim (Option-cases (find service.withdrawals r.key)) [
        | inl absent ↦
            let (signed, built, _, grown) = registered_now service next r outcome absent e in
            elim (find_split r.key (r.payload, signed) service.withdrawals key entry
              (ap (λ s. find s.withdrawals key) (sym grown) ∙ found)) [
                | inl (same, is_new) ↦ (
                  r,
                  same,
                  ap (λ x. x.0) (sym is_new),
                  subst (λ x. Build r x.1) (sym is_new) built,
                )
                | inr old ↦ genuine key entry old
              ]
        | inr ((payload, signed), present) ↦
            let same = (registered_before service next r outcome payload signed present e).0 in
            genuine key entry (ap (λ s. find s.withdrawals key) (sym same) ∙ found)
      ]

  Reachable-Genuine : (service : LocalManagerService) → Reachable service → Genuine service
  unfolding find
  Reachable-Genuine _ empty = λ key entry found. absurd (clash found)
  Reachable-Genuine _ (after service next r outcome reached e) =
      register-Genuine service next r outcome (Reachable-Genuine service reached) e

  -- Whatever registrations have been made, what the service returns for a key was built from a
  -- registration with this key that passed every check.
  pub get-Reachable :
      (service : LocalManagerService) (key : VaaKey) (signed : LocalSignedWithdrawal)
      → Reachable service
      → get service key ≡ some signed
      → (r : LocalWithdrawalRegistration) × (checked : Utx0UnlockPayload × UnsignedTransaction)
        × (r.key ≡ key)
        × (check_registration r ≡ ok checked)
        × (signed.unsigned_transaction ≡ r.unsigned_transaction)
        × (signed.signed_vaa ≡ synthesize_local_vaa r)
  get-Reachable service key signed reached found =
      let (payload, present) = get-ok service key signed found in
      let (r, same, _, built) = Reachable-Genuine service reached key (payload, signed) present in
      let (checked, passed) =
        build-check_registration sha256 keccak256 secp vaa_id r signed built in
      let (u, v) = build-unsigned_transaction sha256 keccak256 secp vaa_id r signed built in
      (r, checked, same, passed, u, v)
