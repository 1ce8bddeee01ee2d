-- ===== src/Api/Auth/Freshness.antt =====
-- Which requests pass the authentication.
use ensemble.Common.{
  ℕ, ◌+◌, ◌*◌, ◌≤◌, ◌<◌, ◌≡◌, ◌⊎◌, ◌↔◌, refl, ap, subst, ◌∙◌, true, false, ◌||◌, some, length, ◌==◌,
  ==_iff, bytes_eq, bytes_eq_iff, bytes_eq_refl, Bool-cases, Option-cases, inl, inr, arith, Result,
}
use ensemble.Crypto.{Bytes, Ed25519}
use ensemble.Api.Auth.{
  Hex, Seconds, since_epoch, before_epoch, Decimal, max_duration, second, auth_freshness,
  unix_to_internal, wraps, time_since, absolute, is_too_old, Metadata, md_get, header_pub_key,
  header_timestamp, header_signature, is_empty, verify_headers, verify_auth,
}

-- At most five minutes from now, or ahead by more than the greatest Duration, and in no case with
-- a sum in time.Unix that is too great for 64 bits.
abbrev pub IsTimely : ℕ → Seconds → Type 0
IsTimely now (since_epoch s) =
    (s + unix_to_internal < 9223372036854775808)
    × (((now ≤ s * second + auth_freshness) × (s * second ≤ now + auth_freshness))
        ⊎ (now + max_duration < s * second))
IsTimely now (before_epoch s) = now + s * second ≤ auth_freshness

is_too_old-IsTimely :
    (now : ℕ) (ts : Seconds) → (is_too_old (absolute (time_since now ts)) ≡ false) ↔ IsTimely now ts
unfolding is_too_old absolute time_since wraps
is_too_old-IsTimely now (since_epoch s) = ground arith
is_too_old-IsTimely now (before_epoch s) = ground arith

module _ (ed : Ed25519) (hex : Hex) (decimal : Decimal) where
  -- The three headers are there; the first is the admin's key, and the third a signature of the
  -- second with it, which is a time that is timely.
  pub record IsAuthorised (admin : Bytes) (pub_hex ts_str sig_hex : Bytes) (now : ℕ) : Type 0 where
    pub given : (is_empty pub_hex || is_empty ts_str || is_empty sig_hex) ≡ false
    pub own : hex.decode pub_hex ≡ some admin
    pub sized : length admin ≡ 32
    pub ts : Seconds
    pub parsed : decimal.parse_int ts_str ≡ some ts
    pub timely : IsTimely now ts
    pub sig : Bytes
    pub decoded : hex.decode sig_hex ≡ some sig
    pub signed : ed.verify admin ts_str sig ≡ true

  verify_headers-IsAuthorised :
      (admin pub_hex ts_str sig_hex : Bytes) (now : ℕ)
      → verify_headers ed hex decimal admin pub_hex ts_str sig_hex now ≡ Result.ok tt
      → IsAuthorised admin pub_hex ts_str sig_hex now
  unfolding verify_headers
  verify_headers-IsAuthorised admin pub_hex ts_str sig_hex now e =
      elim (Bool-cases (is_empty pub_hex || is_empty ts_str || is_empty sig_hex)) [
        | inl empty ↦ absurd (ground arith)
        | inr given ↦ elim (Option-cases (hex.decode pub_hex)) [
          | inl p ↦ absurd (ground arith)
          | inr (pub_bytes, p) ↦ elim (Bool-cases (length pub_bytes == 32)) [
            | inr odd ↦ absurd (ground arith)
            | inl sized ↦ elim (Bool-cases (bytes_eq pub_bytes admin)) [
              | inr other ↦ absurd (ground arith)
              | inl own ↦ elim (Option-cases (decimal.parse_int ts_str)) [
                | inl t ↦ absurd (ground arith)
                | inr (ts, t) ↦ elim (Bool-cases (is_too_old (absolute (time_since now ts)))) [
                  | inl old ↦ absurd (ground arith)
                  | inr fresh ↦ elim (Option-cases (hex.decode sig_hex)) [
                    | inl s ↦ absurd (ground arith)
                    | inr (sig, s) ↦
                        let same : pub_bytes ≡ admin = (bytes_eq_iff pub_bytes admin).0 own in
                        record {
                          given = given;
                          own = p ∙ ap some same;
                          sized =
                              subst (λ k. length k ≡ 32) same
                                ((==_iff (length pub_bytes) 32).0 sized);
                          ts = ts;
                          parsed = t;
                          timely = (is_too_old-IsTimely now ts).0 fresh;
                          sig = sig;
                          decoded = s;
                          signed = ground arith;
                        }
                  ]
                ]
              ]
            ]
          ]
        ]
      ]

  IsAuthorised-verify_headers :
      (admin pub_hex ts_str sig_hex : Bytes) (now : ℕ)
      → IsAuthorised admin pub_hex ts_str sig_hex now
      → verify_headers ed hex decimal admin pub_hex ts_str sig_hex now ≡ Result.ok tt
  unfolding verify_headers
  IsAuthorised-verify_headers admin pub_hex ts_str sig_hex now v =
      let fresh = (is_too_old-IsTimely now v.ts).1 v.timely in
      let sized = (==_iff (length admin) 32).1 v.sized in
      rw (v.given, v.own, sized, bytes_eq_refl admin, v.parsed, fresh, v.decoded, v.signed) refl

  -- A request passes exactly if its three headers are there, the first is the admin's public key
  -- in hex, the third is in hex a signature with it of the second, and the second is a time of at
  -- most five minutes from now on either side, or one ahead by more than 2^63 - 1 nanoseconds, in
  -- both cases less than 2^63 - 62135596800 seconds after 1970, from where on time.Unix wraps.
  pub verify_auth_iff :
      (admin : Bytes) (md : Metadata) (now : ℕ)
      → (verify_auth ed hex decimal admin (some md) now ≡ Result.ok tt)
        ↔ IsAuthorised admin
            (md_get md header_pub_key)
            (md_get md header_timestamp)
            (md_get md header_signature)
            now
  unfolding verify_auth
  verify_auth_iff admin md now = (
    verify_headers-IsAuthorised admin (md_get md header_pub_key) (md_get md header_timestamp)
        (md_get md header_signature) now,
    IsAuthorised-verify_headers admin (md_get md header_pub_key) (md_get md header_timestamp)
        (md_get md header_signature) now,
  )
