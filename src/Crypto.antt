-- ===== src/Crypto.antt =====
-- What the program takes from Go's crypto/sha256 and crypto/ed25519 and from the packages
-- ripemd160 and base58, as interfaces of operations and laws: digests have a fixed number of
-- bytes, base58 decodes what it encodes, and a signature of a key verifies under its public key.
use ensemble.Common.{ℕ, Bool, true, Option, some, List, length, ◌≡◌, ◌≢◌}

abbrev pub Bytes : Type 0
Bytes = List ℕ

pub record Sha256 : Type 0 where
  pub digest : Bytes → Bytes
  pub digest_size : (m : Bytes) → length (digest m) ≡ 32

-- Two byte strings, each of its own kind, that break the hash.
pub record Collision (h : Sha256) (Left Right : Bytes → Type 0) : Type 0 where
  pub left : Bytes
  pub right : Bytes
  pub from_left : Left left
  pub from_right : Right right
  pub distinct : left ≢ right
  pub clash : h.digest left ≡ h.digest right

pub record Ripemd160 : Type 0 where
  pub digest : Bytes → Bytes
  pub digest_size : (m : Bytes) → length (digest m) ≡ 20

pub record Base58 : Type 0 where
  pub encode : Bytes → Bytes
  pub decode : Bytes → Option Bytes
  pub decode-encode : (m : Bytes) → decode (encode m) ≡ some m

pub record Ed25519 : Type 0 where
  pub new_key_from_seed : Bytes → Bytes
  pub public : Bytes → Bytes
  pub sign : Bytes → Bytes → Bytes
  pub verify : Bytes → Bytes → Bytes → Bool
  pub key_size : (seed : Bytes) → length seed ≡ 32 → length (new_key_from_seed seed) ≡ 64
  pub public_size : (key : Bytes) → length key ≡ 64 → length (public key) ≡ 32
  pub verify-sign :
      (seed m : Bytes)
      → length seed ≡ 32
      → verify (public (new_key_from_seed seed)) m (sign (new_key_from_seed seed) m) ≡ true
