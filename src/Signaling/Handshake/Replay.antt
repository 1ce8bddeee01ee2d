-- ===== src/Signaling/Handshake/Replay.antt =====
-- A request that was accepted is refused when it comes again.
use ensemble.Common.{
  ℕ, ◌+◌, ◌-◌, ◌≤◌, ◌≡◌, subst, ◌∙◌, true, false, some, List, [], ◌∷◌, length, ltb, ◌==◌,
  Bool-cases, Option-cases, Result-cases, inl, inr, arith, Result,
}
use ensemble.Common.Maps.{lookup, bytes_beq, lookup-insert_self, lookup-insert_ne}
use ensemble.Crypto.{Bytes}
use ensemble.Signaling.Handshake.{
  NonceCache, nonce_size, timestamp_freshness, nonce_cache_ttl, unix_milli, prune, check,
  ConnRequest, Readings, HandshakeError, admit_request, validate_conn_request,
}
use ensemble.Protocol.{Codec}

-- An entry that is not expired stays.
prune-keeps :
    (now : ℕ) (n : Bytes) (t : ℕ) (nc : NonceCache)
    → lookup n nc ≡ some t
    → now ≤ t + nonce_cache_ttl
    → lookup n (prune now nc) ≡ some t
unfolding prune lookup
prune-keeps now n t [] e p = absurd (ground arith)
prune-keeps now n t ((k, u) ∷ nc) e p = ground (arith, prune-keeps now n t nc)

-- The cache that `nonce` was put into at `t` refuses it.
check-seen :
    (now : ℕ) (n : Bytes) (t : ℕ) (nc : NonceCache)
    → lookup n nc ≡ some t
    → now ≤ t + nonce_cache_ttl
    → (check nc n now).1 ≡ false
unfolding check
check-seen now n t nc e p =
    let kept = prune-keeps now n t nc e p in
    elim (Bool-cases (length n == nonce_size)) [
      | inl r ↦ rw (r, kept, check)
      | inr r ↦ rw (r, check)
    ]

check-keeps :
    (now : ℕ) (n m : Bytes) (t : ℕ) (nc : NonceCache)
    → lookup n nc ≡ some t
    → now ≤ t + nonce_cache_ttl
    → lookup n (check nc m now).0 ≡ some t
unfolding check
check-keeps now n m t nc e p =
    let kept = prune-keeps now n t nc e p in
    elim (Bool-cases (length m == nonce_size)) [
      | inr r ↦ rw (r, check) e
      | inl r ↦ elim (Option-cases (lookup m (prune now nc))) [
        | inr (u, seen) ↦ rw (r, seen, check) kept
        | inl new ↦
            rw (r, new, check)
              (lookup-insert_ne m n now (prune now nc) (λ same. ground arith) ∙ kept)
      ]
    ]

check-recorded :
    (now : ℕ) (n : Bytes) (nc : NonceCache)
    → (check nc n now).1 ≡ true
    → lookup n (check nc n now).0 ≡ some now
unfolding check
check-recorded now n nc e = elim (Bool-cases (length n == nonce_size)) [
  | inr r ↦ absurd (ground arith)
  | inl r ↦ elim (Option-cases (lookup n (prune now nc))) [
    | inr (u, seen) ↦ absurd (ground arith)
    | inl new ↦ rw (r, new, check) (lookup-insert_self n now (prune now nc))
  ]
]

-- One call of `ValidateConnRequest`, in the order in which the calls hold the cache's lock.
pub record Call : Type 0 where
  pub bytes : Bytes
  pub clock : Readings

-- The cache after the calls.
unfoldable pub after_calls : Codec ConnRequest → NonceCache → List Call → NonceCache
after_calls codec nc [] = nc
after_calls codec nc (c ∷ cs) =
    after_calls codec (validate_conn_request codec c.bytes c.clock nc).0 cs

-- No call looks into the cache after `limit`.
abbrev pub CheckedBy : ℕ → List Call → Type 0
CheckedBy limit [] = Unit
CheckedBy limit (c ∷ cs) = (c.clock.checked ≤ limit) × CheckedBy limit cs

admit_request-keeps :
    (msg : ConnRequest) (clock : Readings) (n : Bytes) (t : ℕ) (nc : NonceCache)
    → lookup n nc ≡ some t
    → clock.checked ≤ t + nonce_cache_ttl
    → lookup n (admit_request msg clock nc).0 ≡ some t
unfolding admit_request
admit_request-keeps msg clock n t nc e p =
    ground (arith, check-keeps clock.checked n msg.nonce t nc e p)

validate_conn_request-keeps :
    (codec : Codec ConnRequest) (c : Call) (n : Bytes) (t : ℕ) (nc : NonceCache)
    → lookup n nc ≡ some t
    → c.clock.checked ≤ t + nonce_cache_ttl
    → lookup n (validate_conn_request codec c.bytes c.clock nc).0 ≡ some t
unfolding validate_conn_request
validate_conn_request-keeps codec c n t nc e p = elim (Option-cases (codec.unmarshal c.bytes)) [
  | inl r ↦ rw (r, validate_conn_request) e
  | inr (msg, r) ↦ rw (r, validate_conn_request) (admit_request-keeps msg c.clock n t nc e p)
]

after_calls-keeps :
    (codec : Codec ConnRequest) (cs : List Call) (n : Bytes) (t limit : ℕ) (nc : NonceCache)
    → lookup n nc ≡ some t
    → CheckedBy limit cs
    → limit ≤ t + nonce_cache_ttl
    → lookup n (after_calls codec nc cs) ≡ some t
unfolding after_calls
after_calls-keeps codec [] n t limit nc e b p = e
after_calls-keeps codec (c ∷ cs) n t limit nc e b p =
    after_calls-keeps codec cs n t limit (validate_conn_request codec c.bytes c.clock nc).0
      (validate_conn_request-keeps codec c n t nc e (omega (arith, b.0))) b.1 p

-- What an admitted request has passed.
pub record Admitted (msg : ConnRequest) (clock : Readings) (nc : NonceCache) : Type 0 where
  pub recent : clock.aged ≤ unix_milli msg.timestamp + timestamp_freshness
  pub not_ahead : unix_milli msg.timestamp ≤ clock.ahead + timestamp_freshness
  pub sized : length msg.nonce ≡ nonce_size
  pub fresh : (check nc msg.nonce clock.checked).1 ≡ true

admit_request-Admitted :
    (msg out : ConnRequest) (clock : Readings) (nc : NonceCache)
    → (admit_request msg clock nc).1 ≡ Result.ok out
    → (msg ≡ out)
      × Admitted msg clock nc
      × ((admit_request msg clock nc).0 ≡ (check nc msg.nonce clock.checked).0)
unfolding admit_request
admit_request-Admitted msg out clock nc e =
    let ts = unix_milli msg.timestamp in
    elim (Bool-cases (ltb timestamp_freshness (clock.aged - ts))) [
      | inl old ↦ absurd (ground arith)
      | inr recent ↦ elim (Bool-cases (ltb (clock.ahead + timestamp_freshness) ts)) [
        | inl ahead ↦ absurd (ground arith)
        | inr here ↦ elim (Bool-cases (length msg.nonce == nonce_size)) [
          | inr wrong ↦ absurd (ground arith)
          | inl sized ↦ elim (Bool-cases (check nc msg.nonce clock.checked).1) [
            | inr seen ↦ absurd (ground arith)
            | inl fresh ↦ (
              ground arith,
              record {
                recent = ground arith;
                not_ahead = ground arith;
                sized = ground arith;
                fresh = fresh;
              },
              rw (recent, here, fresh, admit_request) (rw (sized, admit_request)),
            )
          ]
        ]
      ]
    ]

-- A nonce that was recorded at `t` is refused while requests with it can be recent.
validate_conn_request-recorded :
    (codec : Codec ConnRequest) (again : Call) (between : List Call) (nc : NonceCache)
    (msg : ConnRequest) (t lag : ℕ)
    → lookup msg.nonce nc ≡ some t
    → codec.unmarshal again.bytes ≡ some msg
    → again.clock.checked ≤ again.clock.aged + lag
    → unix_milli msg.timestamp + timestamp_freshness + lag ≤ t + nonce_cache_ttl
    → CheckedBy again.clock.checked between
    → (e : HandshakeError) × ((validate_conn_request codec again.bytes again.clock
          (after_calls codec nc between)).1
        ≡ Result.err e)
unfolding validate_conn_request
validate_conn_request-recorded codec again between nc msg t lag seen d q w b =
    let nc' = after_calls codec nc between in
    elim (Result-cases (validate_conn_request codec again.bytes again.clock nc').1) [
      | inr (e, r) ↦ (e, r)
      | inl (out, r) ↦
          let got : (admit_request msg again.clock nc').1 ≡ Result.ok out =
            rw (d, validate_conn_request) at r in
          let (_, passed, _) = admit_request-Admitted msg out again.clock nc' got in
          let recent = passed.recent in
          let early : again.clock.checked ≤ t + nonce_cache_ttl = omega arith in
          let kept =
            after_calls-keeps codec between msg.nonce t again.clock.checked nc seen b early in
          let refused = check-seen again.clock.checked msg.nonce t nc' kept early in
          absurd (ground (arith, passed.fresh))
    ]

-- A request that `ValidateConnRequest` accepted is refused when it comes again, in any encoding
-- that keeps the nonce and has no later timestamp, however long after and whatever calls lie
-- between. The calls are in the order of their looks into the cache, none of them after the last;
-- `lag` bounds the time from the last call's first reading of the clock to its look into the
-- cache, and the first request was ahead of the clock by at most five minutes less `lag`.
pub validate_conn_request-replayed :
    (codec : Codec ConnRequest) (first again : Call) (between : List Call) (nc : NonceCache)
    (msg msg' : ConnRequest) (lag : ℕ)
    → (validate_conn_request codec first.bytes first.clock nc).1 ≡ Result.ok msg
    → codec.unmarshal again.bytes ≡ some msg'
    → msg'.nonce ≡ msg.nonce
    → msg'.timestamp ≤ msg.timestamp
    → first.clock.ahead ≤ first.clock.checked
    → again.clock.checked ≤ again.clock.aged + lag
    → unix_milli msg.timestamp + lag ≤ first.clock.ahead + timestamp_freshness
    → CheckedBy again.clock.checked between
    → (e : HandshakeError) × ((validate_conn_request codec again.bytes again.clock
          (after_calls codec nc (first ∷ between))).1
        ≡ Result.err e)
unfolding validate_conn_request after_calls
validate_conn_request-replayed codec first again between nc msg msg' lag accepted d same older p q l
      b =
    elim (Option-cases (codec.unmarshal first.bytes)) [
      | inl r ↦ absurd (ground arith)
      | inr (m, r) ↦
          let got : (admit_request m first.clock nc).1 ≡ Result.ok msg =
            rw (r, validate_conn_request) at accepted in
          let (is_msg, passed, stored) = admit_request-Admitted m msg first.clock nc got in
          let recorded = check-recorded first.clock.checked m.nonce nc passed.fresh in
          let entry : lookup msg'.nonce (validate_conn_request codec first.bytes first.clock nc).0
              ≡ some first.clock.checked =
            rw (r, validate_conn_request, stored, same)
              (subst
                (λ (x : ConnRequest).
                  lookup x.nonce (check nc m.nonce first.clock.checked).0
                  ≡ some first.clock.checked)
                is_msg recorded) in
          validate_conn_request-recorded codec again between
            (validate_conn_request codec first.bytes first.clock nc).0 msg' first.clock.checked lag
            entry d q (omega arith) b
    ]
