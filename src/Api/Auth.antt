-- ===== src/Api/Auth.antt =====
-- internal/api/auth.go. encoding/hex and strconv are interfaces. The clock is in nanoseconds from
-- 1970 on; the seconds of a header are a 64-bit integer.
pub mod Freshness
use ensemble.Common.{
  ℕ, ◌+◌, ◌-◌, ◌*◌, ◌/◌, ◌≤◌, ◌<◌, ◌≡◌, min, Bool, true, false, not, ◌||◌, Option, none, some, List,
  [], ◌∷◌, length, ltb, leb, ◌==◌, bytes_eq, if◌then◌else◌, Result, require, relabel, ◌>>=◌, ◌>>◌,
  guard,
}
use ensemble.Common.Maps.{lookup, insert, bytes_beq}
use ensemble.Crypto.{Bytes, Ed25519}

pub record Hex : Type 0 where
  pub encode : Bytes → Bytes
  pub decode : Bytes → Option Bytes
  pub decode-encode : (m : Bytes) → decode (encode m) ≡ some m

-- Whole seconds from 1970 on, or before it.
pub data Seconds : Type 0 where
  since_epoch before_epoch : ℕ → Seconds

abbrev pub IsInt64 : Seconds → Type 0
IsInt64 (since_epoch s) = s < 9223372036854775808
IsInt64 (before_epoch s) = s ≤ 9223372036854775808

-- A number out of the range is an error of ParseInt.
pub record Decimal : Type 0 where
  pub format_int : Seconds → Bytes
  pub parse_int : Bytes → Option Seconds
  pub parse_int-format_int : (s : Seconds) → IsInt64 s → parse_int (format_int s) ≡ some s
  pub parse_int-IsInt64 : (text : Bytes) (s : Seconds) → parse_int text ≡ some s → IsInt64 s

-- A time.Duration, 64 bits with a sign: not negative, or negative of an absolute value.
pub data Duration : Type 0 where
  elapsed ahead : ℕ → Duration

abbrev pub max_duration : ℕ
max_duration = 9223372036854775807

abbrev pub second : ℕ
second = 1000000000

abbrev pub auth_freshness : ℕ
auth_freshness = 300000000000

-- The seconds from the year 1 to 1970, which time.Unix adds.
abbrev pub unix_to_internal : ℕ
unix_to_internal = 62135596800

-- Whether the sum of time.Unix is too great for its 64 bits: it wraps to a time in the far past.
unfoldable pub wraps : ℕ → Bool
wraps s = leb 9223372036854775808 (s + unix_to_internal)

-- `time.Since(time.Unix(ts, 0))`, which stops at the bounds of a Duration.
unfoldable pub time_since : ℕ → Seconds → Duration
unfolding wraps
time_since now (since_epoch s) =
    if wraps s
    then elapsed max_duration
    else if leb (s * second) now
    then elapsed (min (now - s * second) max_duration)
    else ahead (min (s * second - now) (max_duration + 1))
time_since now (before_epoch s) = elapsed (min (now + s * second) max_duration)

-- `if age < 0 { age = -age }`: the least Duration is its own negative.
unfoldable pub absolute : Duration → Duration
absolute (elapsed d) = elapsed d
absolute (ahead d) = if ltb max_duration d then ahead d else elapsed d

-- `age > authFreshness`
unfoldable pub is_too_old : Duration → Bool
is_too_old (elapsed d) = ltb auth_freshness d
is_too_old (ahead d) = false

abbrev pub Metadata : Type 0
Metadata = List (Bytes × List Bytes)

unfoldable pub md_get : Metadata → Bytes → Bytes
md_get md key = elim (lookup key md) [
  | none ↦ []
  | some values ↦ elim values [ [] ↦ [] | value ∷ _ ↦ value ]
]

abbrev pub ascii_x_auth : Bytes → Bytes
ascii_x_auth name = 120 ∷ 45 ∷ 97 ∷ 117 ∷ 116 ∷ 104 ∷ 45 ∷ name

-- x-auth-pubkey, x-auth-timestamp and x-auth-signature
abbrev pub header_pub_key : Bytes
header_pub_key = ascii_x_auth (112 ∷ 117 ∷ 98 ∷ 107 ∷ 101 ∷ 121 ∷ [])

abbrev pub header_timestamp : Bytes
header_timestamp = ascii_x_auth (116 ∷ 105 ∷ 109 ∷ 101 ∷ 115 ∷ 116 ∷ 97 ∷ 109 ∷ 112 ∷ [])

abbrev pub header_signature : Bytes
header_signature = ascii_x_auth (115 ∷ 105 ∷ 103 ∷ 110 ∷ 97 ∷ 116 ∷ 117 ∷ 114 ∷ 101 ∷ [])

pub data AuthError : Type 0 where
  missing_metadata missing_headers invalid_public_key unauthorized_public_key : AuthError
  invalid_timestamp timestamp_too_old invalid_signature_encoding invalid_signature : AuthError

unfoldable pub is_empty : Bytes → Bool
is_empty [] = true
is_empty (_ ∷ _) = false

module _ (ed : Ed25519) (hex : Hex) (decimal : Decimal) where
  -- The checks of the three headers, in their order.
  unfoldable pub verify_headers : Bytes → Bytes → Bytes → Bytes → ℕ → Result AuthError (Unit {0})
  unfolding is_empty time_since absolute is_too_old
  verify_headers admin pub_hex ts_str sig_hex now = do
    guard (not (is_empty pub_hex || is_empty ts_str || is_empty sig_hex)) missing_headers
    let pub_bytes = (← require invalid_public_key (hex.decode pub_hex))
    guard (length pub_bytes == 32) invalid_public_key
    guard (bytes_eq pub_bytes admin) unauthorized_public_key
    let ts = (← require invalid_timestamp (decimal.parse_int ts_str))
    guard (not (is_too_old (absolute (time_since now ts)))) timestamp_too_old
    let sig = (← require invalid_signature_encoding (hex.decode sig_hex))
    guard (ed.verify admin ts_str sig) invalid_signature

  unfoldable pub verify_auth : Bytes → Option Metadata → ℕ → Result AuthError (Unit {0})
  unfolding verify_headers md_get
  verify_auth admin none now = Result.err missing_metadata
  verify_auth admin (some md) now =
      verify_headers admin (md_get md header_pub_key) (md_get md header_timestamp)
        (md_get md header_signature) now

  -- The interceptors: the handler runs after the check only.
  unfoldable pub intercept {ℓ} :
      {A : Type ℓ} → Bytes → Option Metadata → ℕ → Result AuthError A → Result AuthError A
  unfolding verify_auth
  intercept admin md now handler = verify_auth admin md now >>= λ _. handler

  unfoldable pub get_request_metadata : Bytes → ℕ → List (Bytes × Bytes)
  get_request_metadata priv_key now =
      let ts = decimal.format_int (since_epoch (now / second)) in
      (header_pub_key, hex.encode (ed.public priv_key))
      ∷ (header_timestamp, ts)
      ∷ (header_signature, hex.encode (ed.sign priv_key ts))
      ∷ []
