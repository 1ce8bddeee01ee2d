-- ===== src/Discovery/NodeId/Derivation.antt =====
-- internal/discovery/routing.go, NodeIDFromPublicKey and NodeIDFromAddress.
use ensemble.Common.{
  ◌≡◌, sym, ap, subst, ◌∙◌, true, false, none, some, [], ◌∷◌, ◌++◌, length, length-append,
  length-take, take, drop, take-append_exact, append-nil, ltb, if◌then◌else◌, arith, Result,
}
use ensemble.Crypto.{Bytes, Sha256, Ripemd160, Base58}
use ensemble.Identity.Address.{version_byte, derive_address, matches_public_key}
use ensemble.Identity.Address.Checksum.{matches_public_key_iff}
use ensemble.Discovery.NodeId.{NodeId, id_length}

pub data AddressError : Type 0 where
  decoding_address address_too_short : AddressError

-- A digest of RIPEMD-160 fills the identifier.
unfoldable pub node_id_from_public_key : Sha256 → Ripemd160 → Bytes → NodeId
node_id_from_public_key h rip pub_key = take id_length (rip.digest (h.digest pub_key))

unfoldable pub node_id_from_address : Base58 → Bytes → Result AddressError NodeId
node_id_from_address b58 addr = elim (b58.decode addr) [
  | none ↦ Result.err decoding_address
  | some bytes ↦
      if ltb (length bytes) 25
      then Result.err address_too_short
      else Result.ok (take 20 (drop 1 bytes))
]

-- An address that matches a public key gives the node identifier of the key.
pub matches_public_key-node_id_from_address :
    (h : Sha256) (rip : Ripemd160) (b58 : Base58) (addr pub_key : Bytes)
    → matches_public_key h rip b58 addr pub_key ≡ true
    → node_id_from_address b58 addr ≡ Result.ok (node_id_from_public_key h rip pub_key)
unfolding node_id_from_address node_id_from_public_key derive_address
matches_public_key-node_id_from_address h rip b58 addr pub_key e =
    let own : addr ≡ derive_address h rip b58 pub_key =
      (matches_public_key_iff h rip b58 addr pub_key).0 e in
    let hash160 = rip.digest (h.digest pub_key) in
    let size : length hash160 ≡ 20 = rip.digest_size (h.digest pub_key) in
    let sum = take 4 (h.digest (h.digest (version_byte ∷ hash160))) in
    let sum_size : length sum ≡ 4 = omega (
      arith,
      length-take 4 (h.digest (h.digest (version_byte ∷ hash160))),
      h.digest_size (h.digest (version_byte ∷ hash160)),
    ) in
    let decoded : b58.decode addr ≡ some (version_byte ∷ (hash160 ++ sum)) =
      ap b58.decode own ∙ b58.decode-encode (version_byte ∷ (hash160 ++ sum)) in
    let long : ltb (length (version_byte ∷ (hash160 ++ sum))) 25 ≡ false =
      ground (arith, length-append hash160 sum) in
    let first : take 20 (hash160 ++ sum) ≡ hash160 =
      subst (λ n. take n (hash160 ++ sum) ≡ hash160) size (take-append_exact hash160 sum) in
    let whole : take 20 hash160 ≡ hash160 =
      ap (λ l. take 20 l) (sym (append-nil hash160))
      ∙ subst (λ n. take n (hash160 ++ []) ≡ hash160) size (take-append_exact hash160 []) in
    rw (decoded, long, first, whole, node_id_from_address)
