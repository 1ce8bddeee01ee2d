-- ===== src/Protocol/Envelope.antt =====
-- internal/protocol/codec.go: the length prefix and the signature of an envelope. A message type
-- and a timestamp are the unsigned numbers that Go converts them to. A stream that is read is the
-- list of the bytes that come before it ends.
pub mod Framing
pub mod Signing
use ensemble.Common.{
  ℕ, zero, suc, ◌*◌, ◌+◌, ◌/◌, ◌%◌, Bool, true, false, not, Option, none, some, List, [], ◌∷◌, ◌++◌,
  length, take, drop, ltb, leb, if◌then◌else◌, Result,
}
use ensemble.Crypto.{Bytes, Ed25519}
use ensemble.Identity.Keypair.{Keypair, sign, verify, from_public_key}
use ensemble.Protocol.{Codec}

abbrev pub max_message_size : ℕ
max_message_size = 16777216

-- pb.Envelope
pub record Envelope : Type 0 where
  pub kind : ℕ  -- the field Type
  pub payload : Bytes
  pub timestamp : ℕ
  pub pub_key : Bytes
  pub signature : Bytes

pub data CodecError : Type 0 where
  marshalling too_large writing_length writing_payload : CodecError
  reading_length reading_payload unmarshalling : CodecError

-- The last `k` bytes of a number, the highest first.
unfoldable pub big_endian : ℕ → ℕ → Bytes
big_endian zero n = []
big_endian (suc k) n = big_endian k (n / 256) ++ n % 256 ∷ []

unfoldable pub from_big_endian : ℕ → Bytes → ℕ
from_big_endian acc [] = acc
from_big_endian acc (b ∷ bytes) = from_big_endian (acc * 256 + b) bytes

-- The two flags say whether the two writes succeed.
unfoldable pub write_msg : Codec Envelope → Envelope → Bool → Bool → Result CodecError Bytes
unfolding big_endian
write_msg codec env length_ok payload_ok = elim (codec.marshal env) [
  | none ↦ Result.err marshalling
  | some bytes ↦
      if ltb max_message_size (length bytes)
      then Result.err too_large
      else if not length_ok
      then Result.err writing_length
      else if not payload_ok
      then Result.err writing_payload
      else Result.ok (big_endian 4 (length bytes) ++ bytes)
]

-- `io.ReadFull` for `n` bytes: what was read and what is left.
unfoldable pub read_exactly : ℕ → Bytes → Option (Bytes × Bytes)
read_exactly n stream = if leb n (length stream) then some (take n stream, drop n stream) else none

unfoldable pub read_msg : Codec Envelope → Bytes → Result CodecError (Envelope × Bytes)
unfolding read_exactly from_big_endian
read_msg codec stream = elim (read_exactly 4 stream) [
  | none ↦ Result.err reading_length
  | some (prefix, after) ↦
      if ltb max_message_size (from_big_endian 0 prefix)
      then Result.err too_large
      else elim (read_exactly (from_big_endian 0 prefix) after) [
        | none ↦ Result.err reading_payload
        | some (bytes, rest) ↦ elim (codec.unmarshal bytes) [
          | none ↦ Result.err unmarshalling
          | some env ↦ Result.ok (env, rest)
        ]
      ]
]

unfoldable pub signing_payload : ℕ → Bytes → ℕ → Bytes
unfolding big_endian
signing_payload kind payload timestamp = big_endian 4 kind ++ (payload ++ big_endian 8 timestamp)

module _ (ed : Ed25519) where
  unfoldable pub wrap_message : ℕ → Bytes → Keypair → ℕ → Envelope
  unfolding signing_payload
  wrap_message kind payload kp now = record {
    kind = kind;
    payload = payload;
    timestamp = now;
    pub_key = kp.pub_key;
    signature = sign ed kp (signing_payload kind payload now);
  }

  unfoldable pub verify_envelope : Envelope → Bool
  unfolding signing_payload
  verify_envelope env = elim (from_public_key env.pub_key) [
    | Result.err _ ↦ false
    | Result.ok kp ↦ verify ed kp (signing_payload env.kind env.payload env.timestamp) env.signature
  ]
