-- ===== src/Signaling/Client.antt =====
-- internal/signaling/client.go: the initiator's side of the handshake and its retries. What the
-- dialer, the connection, the clock and the random source do in an attempt is an argument; a
-- timeout shows as an operation that fails.
pub mod Agreement
use ensemble.Common.{
  ℕ, zero, suc, ◌+◌, Bool, true, false, not, Option, none, some, List, [], ◌∷◌, ◌++◌, if◌then◌else◌,
  Result,
}
use ensemble.Crypto.{Bytes, Sha256, Ripemd160, Base58, Ed25519}
use ensemble.Identity.Keypair.{Keypair}
use ensemble.Protocol.{Codec}
use ensemble.Signaling.Handshake.{
  ConnRequest, ConnResponse, ConnConfirm, HandshakeError, create_conn_request, create_conn_confirm,
  validate_conn_response,
}

abbrev pub max_attempts : ℕ
max_attempts = 3

pub record HandshakeResult : Type 0 where
  pub peer_pub_key : Bytes
  pub peer_addr : Bytes

pub data ClientError : Type 0 where
  dialing sending_request reading_response unexpected_message sending_confirm : ClientError
  creating_request validating_response creating_confirm : HandshakeError → ClientError
  rejected : Bytes → ClientError

-- What `ReadMsg` gives for the response.
pub data Answer : Type 0 where
  no_answer other_message : Answer
  conn_response : Bytes → Answer

-- What happens in one attempt; the last two say whether the caller's context is done after it,
-- and whether it is done before the wait for the next one is over.
pub record Attempt : Type 0 where
  pub dial_ok : Bool
  pub drawn : Option Bytes
  pub now : ℕ
  pub request_ok : Bool
  pub answer : Answer
  pub confirm_ok : Bool
  pub done_after : Bool
  pub done_waiting : Bool

pub record Codecs : Type 0 where
  pub request : Codec ConnRequest
  pub response : Codec ConnResponse
  pub confirm : Codec ConnConfirm

pub record Client : Type 0 where
  pub keypair : Keypair
  pub address : Bytes

-- An empty reason is told as "rejected".
unfoldable pub reason_of : Bytes → Bytes
reason_of [] = 114 ∷ 101 ∷ 106 ∷ 101 ∷ 99 ∷ 116 ∷ 101 ∷ 100 ∷ []
reason_of (b ∷ bytes) = b ∷ bytes

pub data Outcome : Type 0 where
  connected : HandshakeResult → Outcome
  refused : Bytes → Outcome
  gave_up : ℕ → ClientError → Outcome
  all_failed : Option ClientError → Outcome

module _ (h : Sha256) (rip : Ripemd160) (b58 : Base58) (ed : Ed25519) (codecs : Codecs) where
  -- Step 3: the payloads written, and the result.
  unfoldable pub confirm_response :
      Client
      → Bytes
      → Attempt
      → List Bytes
      → ConnResponse
      → List Bytes × Result ClientError HandshakeResult
  confirm_response c target env wire msg =
      elim (create_conn_confirm ed codecs.confirm c.keypair msg.nonce) [
        | Result.err e ↦ (wire, Result.err (creating_confirm e))
        | Result.ok bytes ↦ if not env.confirm_ok then (wire, Result.err sending_confirm) else (
          wire ++ bytes ∷ [],
          Result.ok (record { peer_pub_key = msg.pub_key; peer_addr = target }),
        )
      ]

  -- Step 2.
  unfoldable pub take_response :
      Client
      → Bytes
      → Attempt
      → List Bytes
      → Bytes
      → Answer
      → List Bytes × Result ClientError HandshakeResult
  unfolding confirm_response reason_of
  take_response c target env wire nonce no_answer = (wire, Result.err reading_response)
  take_response c target env wire nonce other_message = (wire, Result.err unexpected_message)
  take_response c target env wire nonce (conn_response payload) =
      elim (validate_conn_response h rip b58 ed codecs.response payload nonce target) [
        | Result.err e ↦ (wire, Result.err (validating_response e))
        | Result.ok msg ↦
            if not msg.accepted
            then (wire, Result.err (rejected (reason_of msg.reason)))
            else confirm_response c target env wire msg
      ]

  unfoldable pub attempt_handshake :
      Client → Bytes → Attempt → List Bytes × Result ClientError HandshakeResult
  unfolding take_response
  attempt_handshake c target env =
      if not env.dial_ok
      then ([], Result.err dialing)
      else elim (create_conn_request codecs.request c.address target env.drawn env.now) [
        | Result.err e ↦ ([], Result.err (creating_request e))
        | Result.ok (bytes, nonce) ↦
            if not env.request_ok
            then ([], Result.err sending_request)
            else take_response c target env (bytes ∷ []) nonce env.answer
      ]

  -- What the loop does with the error of an attempt: `rest` is what the later attempts give.
  unfoldable pub after_failure : Attempt → ℕ → ClientError → Outcome → Outcome
  after_failure env attempt (rejected reason) rest = refused reason
  after_failure env attempt e rest =
      if env.done_after
      then gave_up (attempt + 1) e
      else if env.done_waiting
      then gave_up (attempt + 1) e
      else rest

  -- The loop with `rounds` attempts left, before the one of number `attempt`.
  unfoldable pub attempts_from :
      Client → Bytes → (ℕ → Attempt) → ℕ → ℕ → Option ClientError → Outcome
  unfolding attempt_handshake after_failure
  attempts_from c target env zero attempt last = all_failed last
  attempts_from c target env (suc rounds) attempt last =
      elim (attempt_handshake c target (env attempt)).1 [
        | Result.ok result ↦ connected result
        | Result.err e ↦
            after_failure (env attempt) attempt e
              (attempts_from c target env rounds (suc attempt) (some e))
      ]

  unfoldable pub request_connection : Client → Bytes → (ℕ → Attempt) → Outcome
  unfolding attempts_from
  request_connection c target env = attempts_from c target env max_attempts 0 none
