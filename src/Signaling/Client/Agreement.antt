-- ===== src/Signaling/Client/Agreement.antt =====
-- Whom the initiator is connected to.
use ensemble.Common.{
  ℕ, zero, suc, ◌+◌, ◌/◌, ◌<◌, ◌≡◌, refl, subst, Option, none, some, List, [], ◌∷◌, Bool-cases,
  Option-cases, Result-cases, Result, inl, inr, arith,
}
use ensemble.Crypto.{Bytes, Sha256, Ripemd160, Base58, Ed25519}
use ensemble.Signaling.Handshake.{create_conn_request, create_conn_confirm, validate_conn_response}
use ensemble.Signaling.Handshake.Exchange.{Proved, validate_conn_response-Proved}
use ensemble.Signaling.Client.{
  max_attempts, HandshakeResult, ClientError, Answer, Attempt, Codecs, Client, Outcome, connected,
  no_answer, other_message, conn_response, rejected, dialing, sending_request, reading_response,
  unexpected_message, sending_confirm, creating_request, validating_response, creating_confirm,
  confirm_response, take_response, attempt_handshake, after_failure, attempts_from,
  request_connection,
}

create_conn_request-drawn :
    (codecs : Codecs) (from target : Bytes) (drawn : Option Bytes) (now : ℕ) (bytes nonce : Bytes)
    → create_conn_request codecs.request from target drawn now ≡ Result.ok (bytes, nonce)
    → drawn ≡ some nonce
unfolding create_conn_request
create_conn_request-drawn codecs from target none now bytes nonce e = absurd (cc)
create_conn_request-drawn codecs from target (some n) now bytes nonce e =
    let request = codecs.request.marshal (record {
      from_address = from;
      target_address = target;
      nonce = n;
      timestamp = now / 1000000;
    }) in
    elim (Option-cases request) [ inl r ↦ absurd (ground arith) | inr (out, r) ↦ ground arith ]

module _ (h : Sha256) (rip : Ripemd160) (b58 : Base58) (ed : Ed25519) (codecs : Codecs) where
  -- The peer proved to own the address in the attempt, by a signature of the nonce drawn for it.
  pub record Agreed (target : Bytes) (env : Attempt) (r : HandshakeResult) : Type 0 where
    pub nonce : Bytes
    pub signature : Bytes
    pub drew : env.drawn ≡ some nonce
    pub asked : r.peer_addr ≡ target
    pub proved : Proved h rip b58 ed target r.peer_pub_key nonce signature

  take_response-Agreed :
      (c : Client) (target : Bytes) (env : Attempt) (wire : List Bytes) (nonce : Bytes)
      (answer : Answer) (r : HandshakeResult)
      → env.drawn ≡ some nonce
      → (take_response h rip b58 ed codecs c target env wire nonce answer).1 ≡ Result.ok r
      → Agreed target env r
  unfolding take_response confirm_response
  take_response-Agreed c target env wire nonce no_answer r d e = absurd (cc)
  take_response-Agreed c target env wire nonce other_message r d e = absurd (cc)
  take_response-Agreed c target env wire nonce (conn_response payload) r d e =
      elim (Result-cases
        (validate_conn_response h rip b58 ed codecs.response payload nonce target)) [
          | inr (bad, x) ↦ absurd (ground arith)
          | inl (msg, x) ↦ elim (Bool-cases msg.accepted) [
            | inr no_one ↦ absurd (ground arith)
            | inl accepts ↦
                elim (Result-cases (create_conn_confirm ed codecs.confirm c.keypair msg.nonce)) [
                  | inr (bad, y) ↦ absurd (ground arith)
                  | inl (bytes, y) ↦ elim (Bool-cases env.confirm_ok) [
                    | inr lost ↦ absurd (ground arith)
                    | inl sent ↦
                        let (proved, _) =
                          validate_conn_response-Proved h rip b58 ed codecs.response payload nonce
                            target msg x accepts in
                        let same : record { peer_pub_key = msg.pub_key; peer_addr = target } ≡ r =
                          ground arith in
                        subst (Agreed target env) same (record {
                          nonce = nonce;
                          signature = msg.signature;
                          drew = d;
                          asked = refl;
                          proved = proved;
                        })
                  ]
                ]
          ]
        ]

  pub attempt_handshake-Agreed :
      (c : Client) (target : Bytes) (env : Attempt) (r : HandshakeResult)
      → (attempt_handshake h rip b58 ed codecs c target env).1 ≡ Result.ok r
      → Agreed target env r
  unfolding attempt_handshake
  attempt_handshake-Agreed c target env r e = elim (Bool-cases env.dial_ok) [
    | inr closed ↦ absurd (ground arith)
    | inl dialled ↦
        elim (Result-cases
          (create_conn_request codecs.request c.address target env.drawn env.now)) [
            | inr (bad, x) ↦ absurd (ground arith)
            | inl ((bytes, nonce), x) ↦ elim (Bool-cases env.request_ok) [
              | inr lost ↦ absurd (ground arith)
              | inl sent ↦
                  take_response-Agreed c target env (bytes ∷ []) nonce env.answer r
                    (create_conn_request-drawn codecs c.address target env.drawn env.now bytes nonce
                      x)
                    (ground arith)
            ]
          ]
  ]

  after_failure-connected :
      (env : Attempt) (attempt : ℕ) (e : ClientError) (rest : Outcome) (r : HandshakeResult)
      → after_failure h rip b58 ed codecs env attempt e rest ≡ connected r
      → rest ≡ connected r
  unfolding after_failure
  after_failure-connected env attempt (rejected reason) rest r x = absurd (cc)
  after_failure-connected env attempt dialing rest r x = ground arith
  after_failure-connected env attempt sending_request rest r x = ground arith
  after_failure-connected env attempt reading_response rest r x = ground arith
  after_failure-connected env attempt unexpected_message rest r x = ground arith
  after_failure-connected env attempt sending_confirm rest r x = ground arith
  after_failure-connected env attempt (creating_request e) rest r x = ground arith
  after_failure-connected env attempt (validating_response e) rest r x = ground arith
  after_failure-connected env attempt (creating_confirm e) rest r x = ground arith

  attempts_from-Agreed :
      (c : Client) (target : Bytes) (env : ℕ → Attempt) (rounds attempt : ℕ)
      (last : Option ClientError) (r : HandshakeResult)
      → attempts_from h rip b58 ed codecs c target env rounds attempt last ≡ connected r
      → (i : ℕ) × (i < attempt + rounds) × Agreed target (env i) r
  unfolding attempts_from
  attempts_from-Agreed c target env zero attempt last r e = absurd (cc)
  attempts_from-Agreed c target env (suc rounds) attempt last r e =
      elim (Result-cases (attempt_handshake h rip b58 ed codecs c target (env attempt)).1) [
        | inl (got, x) ↦
            let same : got ≡ r = ground arith in
            (
              attempt,
              omega arith,
              subst (Agreed target (env attempt)) same
                  (attempt_handshake-Agreed c target (env attempt) got x),
            )
        | inr (bad, x) ↦
            let failed : after_failure h rip b58 ed codecs (env attempt) attempt bad
                  (attempts_from h rip b58 ed codecs c target env rounds (suc attempt) (some bad))
                ≡ connected r =
              ground arith in
            let (i, low, agreed) =
              attempts_from-Agreed c target env rounds (suc attempt) (some bad) r
                (after_failure-connected (env attempt) attempt bad _ r failed) in
            (i, omega arith, agreed)
      ]

  -- If `RequestConnection` ends with a connection, then in one of its at most three attempts the
  -- peer sent the public key of the address that was asked for and, by that key, a signature of
  -- the nonce that was drawn for the attempt; the result holds this key and this address.
  pub request_connection-Agreed :
      (c : Client) (target : Bytes) (env : ℕ → Attempt) (r : HandshakeResult)
      → request_connection h rip b58 ed codecs c target env ≡ connected r
      → (i : ℕ) × (i < max_attempts) × Agreed target (env i) r
  unfolding request_connection
  request_connection-Agreed c target env r e =
      attempts_from-Agreed c target env max_attempts 0 none r e
