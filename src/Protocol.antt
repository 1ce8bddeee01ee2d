-- ===== src/Protocol.antt =====
-- internal/protocol: envelopes on the wire. proto.Marshal and proto.Unmarshal at one type of
-- messages are a codec.
pub mod Envelope
use ensemble.Common.{◌≡◌, Option, some}
use ensemble.Crypto.{Bytes}

pub record Codec (A : Type 0) : Type 0 where
  pub marshal : A → Option Bytes
  pub unmarshal : Bytes → Option A
  pub unmarshal-marshal :
      (a : A) (bytes : Bytes) → marshal a ≡ some bytes → unmarshal bytes ≡ some a
