-- ===== src/Signaling/Responder.antt =====
-- internal/signaling/server.go, the handshake that the server runs for a CONN_REQUEST of a service
-- (`handleEnvelopeForService` and `askUser`). What the connection, the clock, the random source
-- and the user do is an argument. The exchange of IP addresses that may follow is not modelled.
pub mod Agreement
use ensemble.Common.{
  Bool, true, false, not, Option, none, some, List, [], ◌∷◌, bytes_eq, if◌then◌else◌, Result,
}
use ensemble.Crypto.{Bytes, Sha256, Ripemd160, Base58, Ed25519}
use ensemble.Identity.Keypair.{Keypair}
use ensemble.Protocol.{Codec}
use ensemble.Signaling.Handshake.{
  NonceCache, ConnRequest, ConnResponse, ConnConfirm, Readings, HandshakeError,
  validate_conn_request, create_conn_response, validate_conn_confirm,
}

pub record ConnectionDecision : Type 0 where
  pub accepted : Bool
  pub reason : Bytes

-- The service's configuration as the handshake uses it: the addresses in its contact store, if it
-- has one, and whether a callback for unknown peers is set.
pub record Service : Type 0 where
  pub keypair : Keypair
  pub address : Bytes
  pub contacts : Option (List Bytes)
  pub has_callback : Bool

-- "no handler" and "timeout"
abbrev pub no_handler : Bytes
no_handler = 110 ∷ 111 ∷ 32 ∷ 104 ∷ 97 ∷ 110 ∷ 100 ∷ 108 ∷ 101 ∷ 114 ∷ []

abbrev pub timeout : Bytes
timeout = 116 ∷ 105 ∷ 109 ∷ 101 ∷ 111 ∷ 117 ∷ 116 ∷ []

-- What `ReadMsg` gives after the response.
pub data Reply : Type 0 where
  read_error other_message : Reply
  conn_confirm : Bytes → Reply

-- What happens in one handshake. `decided` is what the user answers, `none` if the context is
-- done before.
pub record Session : Type 0 where
  pub is_request : Bool
  pub payload : Bytes
  pub clock : Readings
  pub decided : Option ConnectionDecision
  pub drawn : Option Bytes
  pub write_ok : Bool
  pub reply : Reply

pub data Served : Type 0 where
  ignored not_for_us no_response write_failed no_confirm : Served
  invalid bad_confirm : HandshakeError → Served
  turned_down : Bytes → Served
  confirmed : ConnRequest → ConnConfirm → Served

unfoldable pub is_contact : Bytes → List Bytes → Bool
is_contact addr [] = false
is_contact addr (c ∷ contacts) =
    let rest = is_contact addr contacts in if bytes_eq c addr then true else rest

unfoldable pub known : Service → Bytes → Bool
unfolding is_contact
known svc addr = elim svc.contacts [ none ↦ false | some contacts ↦ is_contact addr contacts ]

unfoldable pub ask_user : Service → Session → ConnectionDecision
ask_user svc env =
    if not svc.has_callback
    then record { accepted = false; reason = no_handler }
    else elim env.decided [
      | none ↦ record { accepted = false; reason = timeout }
      | some decision ↦ decision
    ]

-- Contacts are accepted without asking.
unfoldable pub decide : Service → Session → Bytes → ConnectionDecision
unfolding known ask_user
decide svc env addr =
    if known svc addr then record { accepted = true; reason = [] } else ask_user svc env

module _ (h : Sha256) (rip : Ripemd160) (b58 : Base58) (ed : Ed25519) (requests : Codec ConnRequest)
    (responses : Codec ConnResponse) (confirms : Codec ConnConfirm) where
  -- Step 3, with the nonce of the response.
  unfoldable pub take_confirm : ConnRequest → Bytes → Reply → Served
  take_confirm req nonce read_error = no_confirm
  take_confirm req nonce other_message = no_confirm
  take_confirm req nonce (conn_confirm payload) =
      elim (validate_conn_confirm h rip b58 ed confirms payload nonce req.from_address) [
        | Result.err e ↦ bad_confirm e
        | Result.ok msg ↦ confirmed req msg
      ]

  -- Step 2: a rejection ends the handshake, whether it can be written or not.
  unfoldable pub respond : Service → Session → ConnRequest → Served
  unfolding decide take_confirm
  respond svc env req =
      let decision = decide svc env req.from_address in
      if decision.accepted
      then elim (create_conn_response ed responses true svc.keypair req.nonce [] env.drawn) [
        | Result.err e ↦ no_response
        | Result.ok (bytes, nonce) ↦
            if not env.write_ok then write_failed else take_confirm req nonce env.reply
      ]
      else turned_down decision.reason

  unfoldable pub handle_request : Service → Session → NonceCache → NonceCache × Served
  unfolding respond
  handle_request svc env nc =
      let (nc', result) = validate_conn_request requests env.payload env.clock nc in
      if not env.is_request then (nc, ignored) else elim result [
        | Result.err e ↦ (nc', invalid e)
        | Result.ok req ↦
            if not (bytes_eq req.target_address svc.address)
            then (nc', not_for_us)
            else (nc', respond svc env req)
      ]
