-- ===== src/Protocol/Envelope/Signing.antt =====
-- What the signature of an envelope covers.
use ensemble.Common.{
  ℕ, ◌^◌, ◌<◌, ◌≡◌, sym, subst, ◌∙◌, true, ◌++◌, length, ◌==◌, ==_iff, Bool-cases, Result,
  append-injective, append-injective_right, inl, inr, arith,
}
use ensemble.Crypto.{Bytes, Ed25519}
use ensemble.Identity.Keypair.{Keypair, from_seed, sign, verify, from_public_key}
use ensemble.Protocol.Envelope.{big_endian, signing_payload, wrap_message, verify_envelope}
use ensemble.Protocol.Envelope.Framing.{length-big_endian, big_endian-injective}

-- Envelopes that differ in the type, the payload or the timestamp have different bytes to sign.
pub signing_payload-injective :
    (kind kind' timestamp timestamp' : ℕ) (payload payload' : Bytes)
    → kind < 256 ^ 4
    → kind' < 256 ^ 4
    → timestamp < 256 ^ 8
    → timestamp' < 256 ^ 8
    → signing_payload kind payload timestamp ≡ signing_payload kind' payload' timestamp'
    → (kind ≡ kind') × (payload ≡ payload') × (timestamp ≡ timestamp')
unfolding signing_payload
signing_payload-injective kind kind' timestamp timestamp' payload payload' k k' t t' e =
    let (head, tail) =
      append-injective (big_endian 4 kind) (payload ++ big_endian 8 timestamp) (big_endian 4 kind')
        (payload' ++ big_endian 8 timestamp')
        (length-big_endian 4 kind ∙ sym (length-big_endian 4 kind')) e in
    let (same, last) =
      append-injective_right payload (big_endian 8 timestamp) payload' (big_endian 8 timestamp')
        (length-big_endian 8 timestamp ∙ sym (length-big_endian 8 timestamp')) tail in
    (
      big_endian-injective 4 kind kind' k k' head,
      same,
      big_endian-injective 8 timestamp timestamp' t t' last,
    )

-- An envelope that was wrapped with the key pair of a seed passes the check of its signature.
pub wrap_message-verify_envelope :
    (ed : Ed25519) (seed payload : Bytes) (kind now : ℕ) (kp : Keypair)
    → from_seed ed seed ≡ Result.ok kp
    → verify_envelope ed (wrap_message ed kind payload kp now) ≡ true
unfolding from_seed wrap_message verify_envelope sign verify from_public_key
wrap_message-verify_envelope ed seed payload kind now kp e = elim (Bool-cases (length seed == 32)) [
  | inr odd ↦ absurd (ground arith)
  | inl sized ↦
      let key = ed.new_key_from_seed seed in
      let whole : length seed ≡ 32 = ground arith in
      let same : record { pub_key = ed.public key; priv_key = key } ≡ kp = ground arith in
      let accepted : (length (ed.public key) == 32) ≡ true =
        (==_iff (length (ed.public key)) 32).1 (ed.public_size key (ed.key_size seed whole)) in
      subst (λ (k : Keypair). verify_envelope ed (wrap_message ed kind payload k now) ≡ true) same
        (rw (accepted, verify_envelope, from_public_key)
          (ed.verify-sign seed (signing_payload kind payload now) whole))
]
