-- ===== src/Identity/Address.antt =====
-- internal/identity/address.go: addresses in Base58Check, from an Ed25519 public key. Strings are
-- the lists of their bytes.
pub mod Checksum
use ensemble.Common.{
  ℕ, ◌-◌, Bool, true, false, ◌&&◌, not, Option, none, some, List, [], ◌∷◌, ◌++◌, length, get_or,
  take, drop, ltb, ◌==◌, if◌then◌else◌, bytes_eq,
}
use ensemble.Crypto.{Bytes, Sha256, Ripemd160, Base58}

-- 0x21: the addresses start with "E".
abbrev pub version_byte : ℕ
version_byte = 33

-- The comparison of the first four bytes.
unfoldable pub same_checksum : Bytes → Bytes → Bool
same_checksum second checksum =
    (get_or second 0 0 == get_or checksum 0 0)
    && (get_or second 1 0 == get_or checksum 1 0)
    && (get_or second 2 0 == get_or checksum 2 0)
    && (get_or second 3 0 == get_or checksum 3 0)

module _ (h : Sha256) (rip : Ripemd160) (b58 : Base58) where
  unfoldable pub derive_address : Bytes → Bytes
  derive_address pub_key =
      let hash160 = rip.digest (h.digest pub_key) in
      let versioned = version_byte ∷ hash160 in
      let checksum = take 4 (h.digest (h.digest versioned)) in b58.encode (versioned ++ checksum)

  -- `Validate` on the decoded data.
  unfoldable pub validate_bytes : Bytes → Bool
  unfolding same_checksum
  validate_bytes bytes =
      let payload = take (length bytes - 4) bytes in
      let checksum = drop (length bytes - 4) bytes in
      if ltb (length bytes) 25
      then false
      else if not (get_or bytes 0 0 == version_byte)
      then false
      else same_checksum (h.digest (h.digest payload)) checksum

  unfoldable pub validate : Bytes → Bool
  unfolding validate_bytes
  validate addr = elim (b58.decode addr) [ none ↦ false | some bytes ↦ validate_bytes bytes ]

  unfoldable pub matches_public_key : Bytes → Bytes → Bool
  unfolding validate derive_address
  matches_public_key addr pub_key = validate addr && bytes_eq addr (derive_address pub_key)
