-- ===== src/Signaling/Responder/Agreement.antt =====
-- With whom the responder completes a handshake.
use ensemble.Common.{
  ◌≡◌, ◌⊎◌, subst, true, Option, none, some, [], bytes_eq, bytes_eq_sound, Bool-cases, Option-cases,
  Result-cases, Result, inl, inr, arith,
}
use ensemble.Crypto.{Bytes, Sha256, Ripemd160, Base58, Ed25519}
use ensemble.Identity.Keypair.{sign}
use ensemble.Protocol.{Codec}
use ensemble.Signaling.Handshake.{
  NonceCache, ConnRequest, ConnResponse, ConnConfirm, validate_conn_request, create_conn_response,
  accept_request, validate_conn_confirm,
}
use ensemble.Signaling.Handshake.Exchange.{Proved, validate_conn_confirm-Proved}
use ensemble.Signaling.Responder.{
  ConnectionDecision, Service, Session, Reply, read_error, other_message, conn_confirm, confirmed,
  known, ask_user, decide, take_confirm, respond, handle_request,
}

create_conn_response-drawn :
    (ed : Ed25519) (responses : Codec ConnResponse) (svc : Service)
    (request_nonce bytes nonce : Bytes) (drawn : Option Bytes)
    → create_conn_response ed responses true svc.keypair request_nonce [] drawn
      ≡ Result.ok (bytes, nonce)
    → drawn ≡ some nonce
unfolding create_conn_response accept_request
create_conn_response-drawn ed responses svc request_nonce bytes nonce none e = absurd (cc)
create_conn_response-drawn ed responses svc request_nonce bytes nonce (some n) e =
    let message = responses.marshal (record {
      accepted = true;
      pub_key = svc.keypair.pub_key;
      signature = sign ed svc.keypair request_nonce;
      nonce = n;
      reason = [];
    }) in
    elim (Option-cases message) [ inl r ↦ absurd (ground arith) | inr (out, r) ↦ ground arith ]

module _ (h : Sha256) (rip : Ripemd160) (b58 : Base58) (ed : Ed25519) (requests : Codec ConnRequest)
    (responses : Codec ConnResponse) (confirms : Codec ConnConfirm) where
  -- The peer proved to own the address that its request named, by a signature of the nonce drawn
  -- for the response, and is a contact or was accepted by the user.
  pub record Agreed (svc : Service) (env : Session) (req : ConnRequest) (msg : ConnConfirm)
      : Type 0 where
    pub nonce : Bytes
    pub drew : env.drawn ≡ some nonce
    pub for_us : req.target_address ≡ svc.address
    pub proved : Proved h rip b58 ed req.from_address msg.pub_key nonce msg.signature
    pub wanted :
        (known svc req.from_address ≡ true)
        ⊎ ((svc.has_callback ≡ true)
            × (decision : ConnectionDecision) × (env.decided ≡ some decision)
            × (decision.accepted ≡ true))

  decide-accepted :
      (svc : Service) (env : Session) (addr : Bytes)
      → (decide svc env addr).accepted ≡ true
      → (known svc addr ≡ true)
        ⊎ ((svc.has_callback ≡ true)
            × (decision : ConnectionDecision) × (env.decided ≡ some decision)
            × (decision.accepted ≡ true))
  unfolding decide ask_user
  decide-accepted svc env addr e = elim (Bool-cases (known svc addr)) [
    | inl contact ↦ inl contact
    | inr stranger ↦ elim (Bool-cases svc.has_callback) [
      | inr silent ↦ absurd (ground arith)
      | inl asks ↦ elim (Option-cases env.decided) [
        | inl late ↦ absurd (ground arith)
        | inr (decision, said) ↦ inr (asks, decision, said, ground arith)
      ]
    ]
  ]

  pub take_confirm-Proved :
      (req : ConnRequest) (nonce : Bytes) (reply : Reply) (req' : ConnRequest) (msg : ConnConfirm)
      → take_confirm h rip b58 ed requests responses confirms req nonce reply ≡ confirmed req' msg
      → (req ≡ req') × Proved h rip b58 ed req.from_address msg.pub_key nonce msg.signature
  unfolding take_confirm
  take_confirm-Proved req nonce read_error req' msg e = absurd (cc)
  take_confirm-Proved req nonce other_message req' msg e = absurd (cc)
  take_confirm-Proved req nonce (conn_confirm payload) req' msg e =
      elim (Result-cases
        (validate_conn_confirm h rip b58 ed confirms payload nonce req.from_address)) [
          | inr (bad, x) ↦ absurd (ground arith)
          | inl (m, x) ↦
              let same : m ≡ msg = ground arith in
              (
                ground arith,
                subst
                    (λ (y : ConnConfirm).
                      Proved h rip b58 ed req.from_address y.pub_key nonce y.signature)
                    same
                    (validate_conn_confirm-Proved h rip b58 ed confirms payload nonce
                      req.from_address m x),
              )
        ]

  respond-Agreed :
      (svc : Service) (env : Session) (req req' : ConnRequest) (msg : ConnConfirm)
      → req.target_address ≡ svc.address
      → respond h rip b58 ed requests responses confirms svc env req ≡ confirmed req' msg
      → Agreed svc env req' msg
  unfolding respond
  respond-Agreed svc env req req' msg ours e =
      elim (Bool-cases (decide svc env req.from_address).accepted) [
        | inr turned ↦ absurd (ground arith)
        | inl accepts ↦
            elim (Result-cases
              (create_conn_response ed responses true svc.keypair req.nonce [] env.drawn)) [
                | inr (bad, x) ↦ absurd (ground arith)
                | inl ((bytes, nonce), x) ↦ elim (Bool-cases env.write_ok) [
                  | inr lost ↦ absurd (ground arith)
                  | inl sent ↦
                      let (same, proved) =
                        take_confirm-Proved req nonce env.reply req' msg (ground arith) in
                      subst (λ (q : ConnRequest). Agreed svc env q msg) same
                        (record {
                          nonce = nonce;
                          drew =
                              create_conn_response-drawn ed responses svc req.nonce bytes nonce
                                env.drawn x;
                          for_us = ours;
                          proved = proved;
                          wanted = decide-accepted svc env req.from_address accepts;
                        })
                ]
              ]
      ]

  -- A handshake that the responder completes is with a peer that owns the address its request
  -- named: it sent the public key of this address and, by that key, a signature of the nonce drawn
  -- for the response. The request asked for the service's own address, and the peer is a contact
  -- of the service or the user was asked and accepted it.
  pub handle_request-Agreed :
      (svc : Service) (env : Session) (nc : NonceCache) (req : ConnRequest) (msg : ConnConfirm)
      → (handle_request h rip b58 ed requests responses confirms svc env nc).1 ≡ confirmed req msg
      → Agreed svc env req msg
  unfolding handle_request
  handle_request-Agreed svc env nc req msg e = elim (Bool-cases env.is_request) [
    | inr other ↦ absurd (ground arith)
    | inl asks ↦ elim (Result-cases (validate_conn_request requests env.payload env.clock nc).1) [
      | inr (bad, x) ↦ absurd (ground arith)
      | inl (r, x) ↦ elim (Bool-cases (bytes_eq r.target_address svc.address)) [
        | inr apart ↦ absurd (ground arith)
        | inl ours ↦
            respond-Agreed svc env r req msg (bytes_eq_sound r.target_address svc.address ours)
              (ground arith)
      ]
    ]
  ]
