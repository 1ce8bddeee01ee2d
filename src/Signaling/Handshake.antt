-- ===== src/Signaling/Handshake.antt =====
-- internal/signaling/handshake.go: the nonces seen and the three messages of the handshake.
-- Times are nanoseconds and timestamps milliseconds, both counted from 2^63 milliseconds before
-- the Unix epoch. Each reading of the clock and each draw of random bytes is an argument.
pub mod Replay
pub mod Exchange
use ensemble.Common.{
  ℕ, ◌+◌, ◌-◌, ◌*◌, ◌/◌, ◌≡◌, Bool, true, false, not, Option, none, some, List, [], ◌∷◌, length,
  ltb, ◌==◌, if◌then◌else◌, Result,
}
use ensemble.Common.Maps.{lookup, insert, bytes_beq}
use ensemble.Protocol.{Codec}
use ensemble.Crypto.{Bytes, Sha256, Ripemd160, Base58, Ed25519}
use ensemble.Identity.Address.{matches_public_key}
use ensemble.Identity.Keypair.{Keypair, sign, verify, from_public_key}

abbrev pub nonce_size : ℕ
nonce_size = 32

-- Five minutes.
abbrev pub timestamp_freshness : ℕ
timestamp_freshness = 300000000000

-- Ten minutes.
abbrev pub nonce_cache_ttl : ℕ
nonce_cache_ttl = 600000000000

abbrev pub NonceCache : Type 0
NonceCache = List (Bytes × ℕ)

-- The entries that the loop of `Check` leaves.
unfoldable pub prune : ℕ → NonceCache → NonceCache
prune now [] = []
prune now ((k, t) ∷ entries) =
    let rest = prune now entries in if ltb nonce_cache_ttl (now - t) then rest else (k, t) ∷ rest

unfoldable pub check : NonceCache → Bytes → ℕ → NonceCache × Bool
unfolding prune
check nc nonce now =
    let live = prune now nc in
    if not (length nonce == nonce_size)
    then (nc, false)
    else elim (lookup nonce live) [ some _ ↦ (live, false) | none ↦ (insert nonce now live, true) ]

pub data HandshakeError : Type 0 where
  generating_nonce marshalling unmarshalling too_old in_the_future invalid_nonce_length :
      HandshakeError
  replayed_nonce address_mismatch invalid_public_key invalid_signature : HandshakeError
  invalid_responder_nonce_length : HandshakeError

-- pb.ConnRequest, pb.ConnResponse and pb.ConnConfirm
pub record ConnRequest : Type 0 where
  pub from_address : Bytes
  pub target_address : Bytes
  pub nonce : Bytes
  pub timestamp : ℕ

pub record ConnResponse : Type 0 where
  pub accepted : Bool
  pub pub_key : Bytes
  pub signature : Bytes
  pub nonce : Bytes
  pub reason : Bytes

pub record ConnConfirm : Type 0 where
  pub pub_key : Bytes
  pub signature : Bytes

-- time.UnixMilli
abbrev pub unix_milli : ℕ → ℕ
unix_milli timestamp = timestamp * 1000000

-- The readings of the clock in `ValidateConnRequest`: for the age, for the future, in `Check`.
pub record Readings : Type 0 where
  pub aged : ℕ
  pub ahead : ℕ
  pub checked : ℕ

abbrev pub marshalled {ℓ} : {A : Type ℓ} → Option Bytes → (Bytes → A) → Result HandshakeError A
marshalled none f = Result.err marshalling
marshalled (some bytes) f = Result.ok (f bytes)

-- The nonce is what `GenerateNonce` drew, if it could.
unfoldable pub create_conn_request :
    Codec ConnRequest → Bytes → Bytes → Option Bytes → ℕ → Result HandshakeError (Bytes × Bytes)
create_conn_request codec from target none now = Result.err generating_nonce
create_conn_request codec from target (some nonce) now =
    marshalled
      (codec.marshal (record {
        from_address = from;
        target_address = target;
        nonce = nonce;
        timestamp = now / 1000000;
      }))
      (λ bytes. (bytes, nonce))

-- The checks on a decoded request.
unfoldable pub admit_request :
    ConnRequest → Readings → NonceCache → NonceCache × Result HandshakeError ConnRequest
unfolding check
admit_request msg clock nc =
    let ts = unix_milli msg.timestamp in
    let (nc', fresh) = check nc msg.nonce clock.checked in
    if ltb timestamp_freshness (clock.aged - ts)
    then (nc, Result.err too_old)
    else if ltb (clock.ahead + timestamp_freshness) ts
    then (nc, Result.err in_the_future)
    else if not (length msg.nonce == nonce_size)
    then (nc, Result.err invalid_nonce_length)
    else if not fresh
    then (nc', Result.err replayed_nonce)
    else (nc', Result.ok msg)

unfoldable pub validate_conn_request :
    Codec ConnRequest
    → Bytes
    → Readings
    → NonceCache
    → NonceCache × Result HandshakeError ConnRequest
unfolding admit_request
validate_conn_request codec bytes clock nc = elim (codec.unmarshal bytes) [
  | none ↦ (nc, Result.err unmarshalling)
  | some msg ↦ admit_request msg clock nc
]

module _ (ed : Ed25519) where
  -- The answer that accepts, with the nonce drawn for it, and the one that rejects.
  unfoldable pub accept_request :
      Codec ConnResponse → Keypair → Bytes → Option Bytes → Result HandshakeError (Bytes × Bytes)
  accept_request codec kp request_nonce none = Result.err generating_nonce
  accept_request codec kp request_nonce (some nonce) =
      marshalled
        (codec.marshal (record {
          accepted = true;
          pub_key = kp.pub_key;
          signature = sign ed kp request_nonce;
          nonce = nonce;
          reason = [];
        }))
        (λ bytes. (bytes, nonce))

  unfoldable pub create_conn_response :
      Codec ConnResponse
      → Bool
      → Keypair
      → Bytes
      → Bytes
      → Option Bytes
      → Result HandshakeError (Bytes × Bytes)
  unfolding accept_request
  create_conn_response codec true kp request_nonce reason drawn =
      accept_request codec kp request_nonce drawn
  create_conn_response codec false kp request_nonce reason drawn =
      marshalled
        (codec.marshal
          (record { accepted = false; pub_key = []; signature = []; nonce = []; reason = reason }))
        (λ bytes. (bytes, []))

  unfoldable pub create_conn_confirm :
      Codec ConnConfirm → Keypair → Bytes → Result HandshakeError Bytes
  create_conn_confirm codec kp responder_nonce =
      marshalled
        (codec.marshal (record { pub_key = kp.pub_key; signature = sign ed kp responder_nonce }))
        (λ bytes. bytes)

module _ (h : Sha256) (rip : Ripemd160) (b58 : Base58) (ed : Ed25519) where
  -- What both validations check of a peer's key: it is the address's, and it signed the nonce.
  unfoldable pub proves_address : Bytes → Bytes → Bytes → Bytes → Option HandshakeError
  proves_address addr pub_key nonce signature =
      if not (matches_public_key h rip b58 addr pub_key)
      then some address_mismatch
      else elim (from_public_key pub_key) [
        | Result.err _ ↦ some invalid_public_key
        | Result.ok verifier ↦
            if not (verify ed verifier nonce signature) then some invalid_signature else none
      ]

  unfoldable pub validate_conn_response :
      Codec ConnResponse → Bytes → Bytes → Bytes → Result HandshakeError ConnResponse
  unfolding proves_address
  validate_conn_response codec bytes request_nonce target_addr = elim (codec.unmarshal bytes) [
    | none ↦ Result.err unmarshalling
    | some msg ↦
        if not msg.accepted
        then Result.ok msg
        else elim (proves_address target_addr msg.pub_key request_nonce msg.signature) [
          | some e ↦ Result.err e
          | none ↦
              if not (length msg.nonce == nonce_size)
              then Result.err invalid_responder_nonce_length
              else Result.ok msg
        ]
  ]

  unfoldable pub validate_conn_confirm :
      Codec ConnConfirm → Bytes → Bytes → Bytes → Result HandshakeError ConnConfirm
  unfolding proves_address
  validate_conn_confirm codec bytes responder_nonce from_addr = elim (codec.unmarshal bytes) [
    | none ↦ Result.err unmarshalling
    | some msg ↦ elim (proves_address from_addr msg.pub_key responder_nonce msg.signature) [
      | some e ↦ Result.err e
      | none ↦ Result.ok msg
    ]
  ]
