-- ===== src/Protocol/Envelope/Framing.antt =====
-- What is written is read back.
use native.Mathlib.Nat.{pow-suc}
use ensemble.Common.{
  ℕ, zero, suc, ◌+◌, ◌*◌, ◌/◌, ◌%◌, ◌^◌, ◌<◌, ◌≡◌, refl, sym, ap, subst, ◌∙◌, Bool, true, some, [],
  ◌∷◌, ◌++◌, append_assoc, length, length-append, take-append_exact, drop-append_exact, ltb, leb,
  Bool-cases, Option-cases, Result, inl, inr, arith,
}
use ensemble.Crypto.{Bytes}
use ensemble.Protocol.{Codec}
use ensemble.Protocol.Envelope.{
  Envelope, max_message_size, big_endian, from_big_endian, write_msg, read_exactly, read_msg,
}

pub length-big_endian : (k n : ℕ) → length (big_endian k n) ≡ k
unfolding big_endian
length-big_endian zero n = refl
length-big_endian (suc k) n =
    omega
      (arith, length-append (big_endian k (n / 256)) (n % 256 ∷ []), length-big_endian k (n / 256))

from_big_endian-append :
    (acc : ℕ) (bytes : Bytes) (b : ℕ)
    → from_big_endian acc (bytes ++ b ∷ []) ≡ from_big_endian acc bytes * 256 + b
unfolding from_big_endian
from_big_endian-append acc [] b = refl
from_big_endian-append acc (x ∷ bytes) b = from_big_endian-append (acc * 256 + x) bytes b

from_big_endian-big_endian : (k n : ℕ) → n < 256 ^ k → from_big_endian 0 (big_endian k n) ≡ n
unfolding from_big_endian big_endian
from_big_endian-big_endian zero n low = omega arith
from_big_endian-big_endian (suc k) n low =
    let high = from_big_endian-big_endian k (n / 256) (omega (arith, pow-suc 256 k)) in
    omega (arith, from_big_endian-append 0 (big_endian k (n / 256)) (n % 256))

pub big_endian-injective :
    (k m n : ℕ) → m < 256 ^ k → n < 256 ^ k → big_endian k m ≡ big_endian k n → m ≡ n
big_endian-injective k m n low low' e =
    sym (from_big_endian-big_endian k m low)
    ∙ ap (from_big_endian 0) e
    ∙ from_big_endian-big_endian k n low'

read_exactly-append :
    (n : ℕ) (bytes rest : Bytes)
    → length bytes ≡ n
    → read_exactly n (bytes ++ rest) ≡ some (bytes, rest)
unfolding read_exactly
read_exactly-append n bytes rest e =
    subst (λ k. read_exactly k (bytes ++ rest) ≡ some (bytes, rest)) e
      (let enough : leb (length bytes) (length (bytes ++ rest)) ≡ true =
          ground (arith, length-append bytes rest) in
        rw (enough, take-append_exact bytes rest, drop-append_exact bytes rest, read_exactly))

-- What `WriteMsg` writes for an envelope, `ReadMsg` reads as that envelope, whatever follows it on
-- the stream, and leaves what follows.
pub write_msg-read_msg :
    (codec : Codec Envelope) (env : Envelope) (wire rest : Bytes) (length_ok payload_ok : Bool)
    → write_msg codec env length_ok payload_ok ≡ Result.ok wire
    → read_msg codec (wire ++ rest) ≡ Result.ok (env, rest)
unfolding write_msg read_msg
write_msg-read_msg codec env wire rest length_ok payload_ok e =
    elim (Option-cases (codec.marshal env)) [
      | inl r ↦ absurd (ground arith)
      | inr (bytes, r) ↦ elim (Bool-cases (ltb max_message_size (length bytes))) [
        | inl large ↦ absurd (ground arith)
        | inr fits ↦
            let same : big_endian 4 (length bytes) ++ bytes ≡ wire = ground arith in
            let size = from_big_endian-big_endian 4 (length bytes) (ground arith) in
            let header =
              read_exactly-append 4 (big_endian 4 (length bytes)) (bytes ++ rest)
                (length-big_endian 4 (length bytes)) in
            let body = read_exactly-append (length bytes) bytes rest refl in
            let back = codec.unmarshal-marshal env bytes r in
            subst (λ w. read_msg codec (w ++ rest) ≡ Result.ok (env, rest)) same
              (subst (λ w. read_msg codec w ≡ Result.ok (env, rest))
                (sym (append_assoc (big_endian 4 (length bytes)) bytes rest))
                (rw (header, size, fits, body, back, read_msg)))
      ]
    ]
