-- ===== src/Tests/Auths.antt =====
-- A request that the admin signed.
use ensemble.Common.{
  zero, suc, ◌≡◌, ◌↔◌, refl, subst, Option, none, some, [], ◌∷◌, ◌++◌, replicate, Result, ltb, leb,
  ltb→lt, leb→le, if◌then◌else◌, Bool-cases, inl, inr, arith,
}
use ensemble.Common.Maps.{lookup}
use ensemble.Crypto.{Bytes}
use ensemble.Api.Auth.{
  Hex, Seconds, since_epoch, before_epoch, IsInt64, Decimal, Metadata, md_get, header_pub_key,
  header_timestamp, header_signature, verify_auth,
}
use ensemble.Api.Auth.Freshness.{IsAuthorised, verify_auth_iff}
use ensemble.Tests.Fixtures.{toy_ed25519}
use ensemble.Common.{bytes_eq}

abbrev toy_hex : Hex
toy_hex = record { encode = λ m. m; decode = λ m. some m; decode-encode = λ m. refl }

abbrev written : Seconds → Bytes
written (since_epoch s) = 0 ∷ s ∷ []
written (before_epoch s) = 1 ∷ s ∷ []

abbrev read : Bytes → Option Seconds
read (zero ∷ s ∷ []) = if ltb s 9223372036854775808 then some (since_epoch s) else none
read (suc _ ∷ s ∷ []) = if leb s 9223372036854775808 then some (before_epoch s) else none
read _ = none

read-written : (s : Seconds) → IsInt64 s → read (written s) ≡ some s
read-written (since_epoch s) low = ground arith
read-written (before_epoch s) low = ground arith

read-IsInt64 : (text : Bytes) (s : Seconds) → read text ≡ some s → IsInt64 s
read-IsInt64 [] s e = absurd (cc)
read-IsInt64 (zero ∷ []) s e = absurd (cc)
read-IsInt64 (suc _ ∷ []) s e = absurd (cc)
read-IsInt64 (zero ∷ t ∷ []) s e = elim (Bool-cases (ltb t 9223372036854775808)) [
  | inl low ↦
      let same : since_epoch t ≡ s = ground arith in
      subst IsInt64 same (ltb→lt t 9223372036854775808 low)
  | inr high ↦ absurd (ground arith)
]
read-IsInt64 (suc _ ∷ t ∷ []) s e = elim (Bool-cases (leb t 9223372036854775808)) [
  | inl low ↦
      let same : before_epoch t ≡ s = ground arith in
      subst IsInt64 same (leb→le t 9223372036854775808 low)
  | inr high ↦ absurd (ground arith)
]
read-IsInt64 (zero ∷ _ ∷ _ ∷ _) s e = absurd (cc)
read-IsInt64 (suc _ ∷ _ ∷ _ ∷ _) s e = absurd (cc)

abbrev toy_decimal : Decimal
toy_decimal = record {
  format_int = written;
  parse_int = read;
  parse_int-format_int = read-written;
  parse_int-IsInt64 = read-IsInt64;
}

abbrev admin : Bytes
admin = replicate 32 7

abbrev stamp : Bytes
stamp = written (since_epoch 1000)

abbrev request : Metadata
request =
    (header_pub_key, admin ∷ [])
    ∷ (header_timestamp, stamp ∷ [])
    ∷ (header_signature, (admin ++ stamp) ∷ [])
    ∷ []

verify_auth_iff_example :
    (verify_auth toy_ed25519 toy_hex toy_decimal admin (some request) 1100000000000 ≡ Result.ok tt)
    ↔ IsAuthorised toy_ed25519 toy_hex toy_decimal admin
        (md_get request header_pub_key)
        (md_get request header_timestamp)
        (md_get request header_signature)
        1100000000000
verify_auth_iff_example =
    verify_auth_iff toy_ed25519 toy_hex toy_decimal admin request 1100000000000

-- Such a request passes a hundred seconds later,
passes :
    verify_auth toy_ed25519 toy_hex toy_decimal admin (some request) 1100000000000 ≡ Result.ok tt
unfolding verify_auth lookup bytes_eq
passes = refl
