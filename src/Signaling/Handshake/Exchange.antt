-- ===== src/Signaling/Handshake/Exchange.antt =====
-- What the three messages prove, and that they go through between honest peers.
use ensemble.Common.{
  ◌≡◌, refl, ap, subst, ◌∙◌, true, none, some, [], length, ◌==◌, ==_iff, Bool-cases, Option-cases,
  inl, inr, arith, Result,
}
use ensemble.Common.Maps.{bytes_beq}
use ensemble.Crypto.{Bytes, Sha256, Ripemd160, Base58, Ed25519}
use ensemble.Identity.Address.{derive_address, matches_public_key}
use ensemble.Identity.Address.Checksum.{matches_public_key_iff}
use ensemble.Identity.Keypair.{Keypair, from_seed, sign, verify, from_public_key}
use ensemble.Signaling.Handshake.{
  nonce_size, ConnResponse, ConnConfirm, create_conn_response, create_conn_confirm, proves_address,
  validate_conn_response, validate_conn_confirm,
}
use ensemble.Protocol.{Codec}

module _ (h : Sha256) (rip : Ripemd160) (b58 : Base58) (ed : Ed25519) where
  -- The key is the one of the address, of Ed25519's size, and it signed the nonce.
  pub record Proved (addr pub_key nonce signature : Bytes) : Type 0 where
    pub own : addr ≡ derive_address h rip b58 pub_key
    pub size : length pub_key ≡ 32
    pub signed : ed.verify pub_key nonce signature ≡ true

  proves_address-Proved :
      (addr pub_key nonce signature : Bytes)
      → proves_address h rip b58 ed addr pub_key nonce signature ≡ none
      → Proved addr pub_key nonce signature
  unfolding proves_address from_public_key verify
  proves_address-Proved addr pub_key nonce signature e =
      elim (Bool-cases (matches_public_key h rip b58 addr pub_key)) [
        | inr other ↦ absurd (ground arith)
        | inl own ↦ elim (Bool-cases (length pub_key == 32)) [
          | inr odd ↦ absurd (ground arith)
          | inl sized ↦ elim (Bool-cases (ed.verify pub_key nonce signature)) [
            | inr bad ↦ absurd (ground arith)
            | inl signed ↦ record {
              own = (matches_public_key_iff h rip b58 addr pub_key).0 own;
              size = ground arith;
              signed = signed;
            }
          ]
        ]
      ]

  Proved-proves_address :
      (addr pub_key nonce signature : Bytes)
      → Proved addr pub_key nonce signature
      → proves_address h rip b58 ed addr pub_key nonce signature ≡ none
  unfolding proves_address from_public_key verify
  Proved-proves_address addr pub_key nonce signature v =
      let own = (matches_public_key_iff h rip b58 addr pub_key).1 v.own in
      let sized : (length pub_key == 32) ≡ true = (==_iff (length pub_key) 32).1 v.size in
      rw (own, sized, v.signed, proves_address)

  -- A response that `ValidateConnResponse` takes as an acceptance holds the public key of the
  -- address asked for, that key signed the request's nonce, and it holds a nonce of 32 bytes.
  pub validate_conn_response-Proved :
      (codec : Codec ConnResponse) (bytes request_nonce target : Bytes) (msg : ConnResponse)
      → validate_conn_response h rip b58 ed codec bytes request_nonce target ≡ Result.ok msg
      → msg.accepted ≡ true
      → Proved target msg.pub_key request_nonce msg.signature × (length msg.nonce ≡ nonce_size)
  unfolding validate_conn_response
  validate_conn_response-Proved codec bytes request_nonce target msg e a =
      elim (Option-cases (codec.unmarshal bytes)) [
        | inl r ↦ absurd (ground arith)
        | inr (m, r) ↦ elim (Bool-cases m.accepted) [
          | inr rejects ↦ absurd (ground arith)
          | inl accepts ↦
              elim (Option-cases
                (proves_address h rip b58 ed target m.pub_key request_nonce m.signature)) [
                  | inr (bad, x) ↦ absurd (ground arith)
                  | inl x ↦ elim (Bool-cases (length m.nonce == nonce_size)) [
                    | inr odd ↦ absurd (ground arith)
                    | inl sized ↦
                        let same : m ≡ msg = ground arith in
                        subst
                          (λ (y : ConnResponse).
                            Proved target y.pub_key request_nonce y.signature
                            × (length y.nonce ≡ nonce_size))
                          same
                          (
                            proves_address-Proved target m.pub_key request_nonce m.signature x,
                            ground arith,
                          )
                  ]
                ]
        ]
      ]

  -- A confirmation that `ValidateConnConfirm` accepts holds the public key of the address that the
  -- request named as its sender, and that key signed the responder's nonce.
  pub validate_conn_confirm-Proved :
      (codec : Codec ConnConfirm) (bytes responder_nonce from : Bytes) (msg : ConnConfirm)
      → validate_conn_confirm h rip b58 ed codec bytes responder_nonce from ≡ Result.ok msg
      → Proved from msg.pub_key responder_nonce msg.signature
  unfolding validate_conn_confirm
  validate_conn_confirm-Proved codec bytes responder_nonce from msg e =
      elim (Option-cases (codec.unmarshal bytes)) [
        | inl r ↦ absurd (ground arith)
        | inr (m, r) ↦
            elim (Option-cases
              (proves_address h rip b58 ed from m.pub_key responder_nonce m.signature)) [
                | inr (bad, x) ↦ absurd (ground arith)
                | inl x ↦
                    let same : m ≡ msg = ground arith in
                    subst (λ (y : ConnConfirm). Proved from y.pub_key responder_nonce y.signature)
                      same (proves_address-Proved from m.pub_key responder_nonce m.signature x)
              ]
      ]

  -- The key of a seed proves its own address by a signature.
  from_seed-Proved :
      (seed nonce : Bytes) (kp : Keypair)
      → from_seed ed seed ≡ Result.ok kp
      → Proved (derive_address h rip b58 kp.pub_key) kp.pub_key nonce (sign ed kp nonce)
  unfolding from_seed sign
  from_seed-Proved seed nonce kp e = elim (Bool-cases (length seed == 32)) [
    | inr odd ↦ absurd (ground arith)
    | inl sized ↦
        let key = ed.new_key_from_seed seed in
        let whole : length seed ≡ 32 = ground arith in
        let same : record { pub_key = ed.public key; priv_key = key } ≡ kp = ground arith in
        subst
          (λ (k : Keypair).
            Proved (derive_address h rip b58 k.pub_key) k.pub_key nonce (sign ed k nonce))
          same
          (record {
            own = refl;
            size = ed.public_size key (ed.key_size seed whole);
            signed = ed.verify-sign seed nonce whole;
          })
  ]

  -- What a responder with a key of a seed creates to accept, the initiator's validation accepts
  -- under the responder's address, with the responder's nonce, when that has 32 bytes.
  pub create-validate_conn_response :
      (codec : Codec ConnResponse) (seed request_nonce reason drawn bytes nonce : Bytes)
      (kp : Keypair)
      → from_seed ed seed ≡ Result.ok kp
      → length drawn ≡ nonce_size
      → create_conn_response ed codec true kp request_nonce reason (some drawn)
        ≡ Result.ok (bytes, nonce)
      → (msg : ConnResponse) × (validate_conn_response h rip b58 ed codec bytes request_nonce
            (derive_address h rip b58 kp.pub_key)
          ≡ Result.ok msg)
        × (msg.accepted ≡ true)
        × (msg.nonce ≡ nonce)
  unfolding create_conn_response validate_conn_response
  create-validate_conn_response codec seed request_nonce reason drawn bytes nonce kp k n e =
      let msg : ConnResponse = record {
        accepted = true;
        pub_key = kp.pub_key;
        signature = sign ed kp request_nonce;
        nonce = drawn;
        reason = [];
      } in
      elim (Option-cases (codec.marshal msg)) [
        | inl r ↦ absurd (ground arith)
        | inr (out, r) ↦
            let same : out ≡ bytes = ground arith in
            let drew : drawn ≡ nonce = ground arith in
            let back : codec.unmarshal bytes ≡ some msg =
              codec.unmarshal-marshal msg bytes (r ∙ ap (λ b. some b) same) in
            let proved =
              Proved-proves_address (derive_address h rip b58 kp.pub_key) kp.pub_key request_nonce
                (sign ed kp request_nonce) (from_seed-Proved seed request_nonce kp k) in
            let sized : (length drawn == nonce_size) ≡ true =
              (==_iff (length drawn) nonce_size).1 n in
            (msg, rw (back, proved, sized, validate_conn_response), refl, drew)
      ]

  -- The same of the confirmation: what an initiator with a key of a seed creates for a nonce, the
  -- responder's validation accepts under that nonce and the initiator's address.
  pub create-validate_conn_confirm :
      (codec : Codec ConnConfirm) (seed nonce bytes : Bytes) (kp : Keypair)
      → from_seed ed seed ≡ Result.ok kp
      → create_conn_confirm ed codec kp nonce ≡ Result.ok bytes
      → (msg : ConnConfirm) × (validate_conn_confirm h rip b58 ed codec bytes nonce
            (derive_address h rip b58 kp.pub_key)
          ≡ Result.ok msg)
  unfolding create_conn_confirm validate_conn_confirm
  create-validate_conn_confirm codec seed nonce bytes kp k e =
      let msg : ConnConfirm = record { pub_key = kp.pub_key; signature = sign ed kp nonce } in
      elim (Option-cases (codec.marshal msg)) [
        | inl r ↦ absurd (ground arith)
        | inr (out, r) ↦
            let same : out ≡ bytes = ground arith in
            let back : codec.unmarshal bytes ≡ some msg =
              codec.unmarshal-marshal msg bytes (r ∙ ap (λ b. some b) same) in
            let proved =
              Proved-proves_address (derive_address h rip b58 kp.pub_key) kp.pub_key nonce
                (sign ed kp nonce) (from_seed-Proved seed nonce kp k) in
            (msg, rw (back, proved, validate_conn_confirm))
      ]
