-- ===== src/Wormhole/Manager/Vaa/Body.antt =====
-- What a VAA's body determines.
use psy_doge_solana_cli.Common.{
  ℕ, ◌+◌, ◌-◌, ◌*◌, ◌^◌, ◌<◌, ◌≤◌, ◌≡◌, refl, sym, ap, ◌∙◌, List, [], ◌∷◌, ◌++◌, length, drop,
  slice, take, Result, ok, arith, le→ltb, drop_skip, drop-drop, be_bytes, from_be, from_be-be_bytes,
  length-be_bytes, length-append, length-drop, take_front,
}
use psy_doge_solana_cli.Wormhole.Tx.Persisted.{byte_at}
use psy_doge_solana_cli.Wormhole.Manager.Errors.{Error}
use psy_doge_solana_cli.Wormhole.Manager.Vaa.{
  VaaHeader, parse_vaa, vaa_body, VaaKey, LocalWithdrawalRegistration, synthesize_local_vaa,
}

-- The types of the fields of a key: u16, `[u8; 32]` and u64.
pub record IsTypedKey (k : VaaKey) : Type 0 where
  pub chain_fits : k.emitter_chain < 2 ^ 16
  pub address_length : length k.emitter_address ≡ 32
  pub sequence_fits : k.sequence < 2 ^ 64

-- The fourteen bytes that do not depend on the registration.
abbrev local_header : List ℕ
local_header = 1 ∷ (0 ∷ (0 ∷ (0 ∷ (0 ∷ (0 ∷ (0 ∷ (0 ∷ (0 ∷ (0 ∷ (0 ∷ (0 ∷ (0 ∷ (0 ∷ [])))))))))))))

local_parts :
    (c a s p : List ℕ)
    → length c ≡ 2
    → length a ≡ 32
    → length s ≡ 8
    → parse_vaa (local_header ++ (c ++ (a ++ (s ++ (0 ∷ p)))))
      ≡ ok (record {
        version = 1;
        guardian_set_index = 0;
        emitter_chain = from_be c;
        emitter_address = a;
        sequence = from_be s;
        payload = p;
      })
unfolding parse_vaa byte_at from_be
local_parts c a s p hc ha hs = rw (
  le→ltb (length (local_header ++ (c ++ (a ++ (s ++ (0 ∷ p)))))) 6 (omega arith),
  le→ltb (length (local_header ++ (c ++ (a ++ (s ++ (0 ∷ p)))))) 57 (
      omega (
        arith,
        length-append c (a ++ (s ++ (0 ∷ p))),
        length-append a (s ++ (0 ∷ p)),
        length-append s (0 ∷ p),
      )),
  take_front c (a ++ (s ++ (0 ∷ p))) 2 hc,
  drop_skip c (a ++ (s ++ (0 ∷ p))) 2 2 hc (omega arith),
  drop_skip c (a ++ (s ++ (0 ∷ p))) 2 34 hc (omega arith),
  drop_skip c (a ++ (s ++ (0 ∷ p))) 2 43 hc (omega arith),
  take_front a (s ++ (0 ∷ p)) 32 ha,
  drop_skip a (s ++ (0 ∷ p)) 32 32 ha (omega arith),
  drop_skip a (s ++ (0 ∷ p)) 32 41 ha (omega arith),
  take_front s (0 ∷ p) 8 hs,
  drop_skip s (0 ∷ p) 8 9 hs (omega arith),
)

local_body : (rest : List ℕ) → vaa_body (local_header ++ rest) ≡ ok (drop 6 (local_header ++ rest))
unfolding vaa_body byte_at
local_body rest = rw (le→ltb (length (local_header ++ rest)) 6 (omega arith))

-- The local VAA of a registration is read back as version 1 with the key and the payload of the
-- registration, and without a guardian signature in front of its body.
pub parse_vaa-synthesize_local_vaa :
    (registration : LocalWithdrawalRegistration)
    → IsTypedKey registration.key
    → (parse_vaa (synthesize_local_vaa registration)
        ≡ ok (record {
          version = 1;
          guardian_set_index = 0;
          emitter_chain = registration.key.emitter_chain;
          emitter_address = registration.key.emitter_address;
          sequence = registration.key.sequence;
          payload = registration.payload;
        }))
      × (vaa_body (synthesize_local_vaa registration)
          ≡ ok (drop 6 (synthesize_local_vaa registration)))
unfolding parse_vaa vaa_body synthesize_local_vaa byte_at be_bytes
parse_vaa-synthesize_local_vaa registration t =
    let key = registration.key in
    let rest =
      be_bytes 2 key.emitter_chain
      ++ (key.emitter_address ++ (be_bytes 8 key.sequence ++ (0 ∷ registration.payload))) in
    (
      local_parts (be_bytes 2 key.emitter_chain) key.emitter_address (be_bytes 8 key.sequence)
            registration.payload (length-be_bytes 2 key.emitter_chain) t.address_length
            (length-be_bytes 8 key.sequence)
          ∙ rw
              (
                from_be-be_bytes 2 key.emitter_chain t.chain_fits,
                from_be-be_bytes 8 key.sequence t.sequence_fits,
              )
              refl,
      local_body rest,
    )

-- The fields that stand in a body.
abbrev HasBody : List ℕ → VaaHeader → Type 0
HasBody body h =
    (51 ≤ length body)
    × (h.emitter_chain ≡ from_be (slice 8 10 body))
    × (h.emitter_address ≡ slice 10 42 body)
    × (h.sequence ≡ from_be (slice 42 50 body))
    × (h.payload ≡ drop 51 body)

slice_behind :
    (bytes : List ℕ) (off a b from to : ℕ)
    → from ≡ off + a
    → to ≡ off + b
    → slice from to bytes ≡ slice a b (drop off bytes)
slice_behind bytes off a b from to e f =
    ap (λ k. take k (drop from bytes)) (width off a b from to e f)
    ∙ ap (λ k. take (b - a) (drop k bytes)) e
    ∙ ap (take (b - a)) (sym (drop-drop off a bytes))
  where
    width : (o c d u v : ℕ) → u ≡ o + c → v ≡ o + d → v - u ≡ d - c
    width o c d u v p q = omega arith

drop_behind :
    (bytes : List ℕ) (off a from : ℕ) → from ≡ off + a → drop from bytes ≡ drop a (drop off bytes)
drop_behind bytes off a from e = ap (λ k. drop k bytes) e ∙ sym (drop-drop off a bytes)

body_offset : List ℕ → ℕ
body_offset bytes = 6 + byte_at bytes 5 * 66

vaa_fields :
    (bytes : List ℕ) (h : VaaHeader)
    → parse_vaa bytes ≡ ok h
    → (6 ≤ length bytes)
      × (body_offset bytes + 51 ≤ length bytes)
      × (h.emitter_chain
          ≡ from_be (slice (body_offset bytes + 4 + 4) (body_offset bytes + 4 + 4 + 2) bytes))
      × (h.emitter_address
          ≡ slice (body_offset bytes + 4 + 4 + 2) (body_offset bytes + 4 + 4 + 2 + 32) bytes)
      × (h.sequence
          ≡ from_be (
              slice
                (body_offset bytes + 4 + 4 + 2 + 32)
                (body_offset bytes + 4 + 4 + 2 + 32 + 8)
                bytes))
      × (h.payload ≡ drop (body_offset bytes + 4 + 4 + 2 + 32 + 8 + 1) bytes)
unfolding parse_vaa body_offset
vaa_fields bytes h e = ground arith

parse_vaa-HasBody :
    (bytes : List ℕ) (h : VaaHeader)
    → parse_vaa bytes ≡ ok h
    → (vaa_body bytes ≡ ok (drop (body_offset bytes) bytes))
      × HasBody (drop (body_offset bytes) bytes) h
unfolding vaa_body
parse_vaa-HasBody bytes h e =
    let (l6, l51, ec, ea, es, ep) = vaa_fields bytes h e in
    let off = body_offset bytes in
    (
      body_ok bytes l6 (omega arith),
      (
        omega (arith, length-drop off bytes),
        ec ∙ ap from_be (slice_behind bytes off 8 10 _ _ (omega arith) (omega arith)),
        ea ∙ slice_behind bytes off 10 42 _ _ (omega arith) (omega arith),
        es ∙ ap from_be (slice_behind bytes off 42 50 _ _ (omega arith) (omega arith)),
        ep ∙ drop_behind bytes off 51 _ (omega arith),
      ),
    )
  where
    body_ok :
        (bs : List ℕ)
        → 6 ≤ length bs
        → body_offset bs ≤ length bs
        → vaa_body bs ≡ ok (drop (body_offset bs) bs)
    body_ok bs l m =
        unfold body_offset in
        rw (le→ltb (length bs) 6 l, le→ltb (length bs) (6 + byte_at bs 5 * 66) m)

same_body : {a b : List ℕ} → ◌≡◌ {A = Result Error (List ℕ)} (ok a) (ok b) → a ≡ b
same_body e = cc

-- Two VAAs that are read and have one body carry the same emitter, sequence and payload, whatever
-- their guardian set and signatures: the signing digest, a hash of the body, covers all that the
-- relay uses.
pub parse_vaa_same_body :
    (left right : List ℕ) (hl hr : VaaHeader)
    → parse_vaa left ≡ ok hl
    → parse_vaa right ≡ ok hr
    → vaa_body left ≡ vaa_body right
    → (hl.emitter_chain ≡ hr.emitter_chain)
      × (hl.emitter_address ≡ hr.emitter_address)
      × (hl.sequence ≡ hr.sequence)
      × (hl.payload ≡ hr.payload)
parse_vaa_same_body left right hl hr el er same =
    let (bl, (_, cl, al, sl, pl)) = parse_vaa-HasBody left hl el in
    let (br, (_, cr, ar, sr, pr)) = parse_vaa-HasBody right hr er in
    let one = same_body (sym bl ∙ same ∙ br) in
    (
      cl ∙ ap (λ b. from_be (slice 8 10 b)) one ∙ sym cr,
      al ∙ ap (slice 10 42) one ∙ sym ar,
      sl ∙ ap (λ b. from_be (slice 42 50 b)) one ∙ sym sr,
      pl ∙ ap (drop 51) one ∙ sym pr,
    )
