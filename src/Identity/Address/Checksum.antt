-- ===== src/Identity/Address/Checksum.antt =====
-- The addresses that are derived pass the check of `Validate`.
use ensemble.Common.{
  ℕ, zero, suc, ◌-◌, ◌<◌, ◌≤◌, ◌≡◌, ◌↔◌, refl, true, false, [], ◌∷◌, ◌++◌, length, length-append,
  length-take, take-append_exact, drop-append_exact, take, ltb, ◌==◌, ==_iff, get_or, bytes_eq_iff,
  arith,
}
use ensemble.Crypto.{Bytes, Sha256, Ripemd160, Base58}
use ensemble.Identity.Address.{
  version_byte, same_checksum, derive_address, validate_bytes, validate, matches_public_key,
}

get_or-take : (n i : ℕ) (xs : Bytes) → i < n → get_or (take n xs) i 0 ≡ get_or xs i 0
get_or-take zero i xs p = absurd (omega arith)
get_or-take (suc n) i [] p = refl
get_or-take (suc n) zero (x ∷ xs) p = refl
get_or-take (suc n) (suc i) (x ∷ xs) p = get_or-take n i xs (omega arith)

==_refl : (n : ℕ) → (n == n) ≡ true
==_refl n = (==_iff n n).1 refl

same_checksum-take : (second : Bytes) → same_checksum second (take 4 second) ≡ true
unfolding same_checksum
same_checksum-take s =
    rw
      (
        get_or-take 4 0 s (omega arith),
        get_or-take 4 1 s (omega arith),
        get_or-take 4 2 s (omega arith),
        get_or-take 4 3 s (omega arith),
      )
      (ground (
        arith,
        ==_refl (get_or s 0 0),
        ==_refl (get_or s 1 0),
        ==_refl (get_or s 2 0),
        ==_refl (get_or s 3 0),
      ))

module _ (h : Sha256) (rip : Ripemd160) (b58 : Base58) where
  -- A payload of the version and 20 bytes or more, with its checksum.
  validate_bytes-checksum :
      (rest : Bytes)
      → 20 ≤ length rest
      → let payload = version_byte ∷ rest in
        validate_bytes h rip b58 (payload ++ take 4 (h.digest (h.digest payload))) ≡ true
  unfolding validate_bytes
  validate_bytes-checksum rest long =
      let payload = version_byte ∷ rest in
      let sum = take 4 (h.digest (h.digest payload)) in
      let sum_size : length sum ≡ 4 =
        omega
          (arith, length-take 4 (h.digest (h.digest payload)), h.digest_size (h.digest payload)) in
      let size : length (payload ++ sum) - 4 ≡ length payload =
        omega (arith, length-append payload sum) in
      let enough : ltb (length (payload ++ sum)) 25 ≡ false =
        ground (arith, length-append payload sum) in
      rw (enough, size, take-append_exact payload sum, drop-append_exact payload sum)
        (same_checksum-take (h.digest (h.digest payload)))

  derive_address-validate :
      (pub_key : Bytes) → validate h rip b58 (derive_address h rip b58 pub_key) ≡ true
  unfolding validate derive_address
  derive_address-validate pub_key =
      let hash160 = rip.digest (h.digest pub_key) in
      let versioned = version_byte ∷ hash160 in
      rw (b58.decode-encode (versioned ++ take 4 (h.digest (h.digest versioned))), validate)
        (validate_bytes-checksum hash160 (omega (arith, rip.digest_size (h.digest pub_key))))

  -- An address matches a public key if and only if it is the one derived from the key: every
  -- derived address passes the check of the version and the checksum.
  pub matches_public_key_iff :
      (addr pub_key : Bytes)
      → (matches_public_key h rip b58 addr pub_key ≡ true)
        ↔ (addr ≡ derive_address h rip b58 pub_key)
  unfolding matches_public_key
  matches_public_key_iff addr pub_key =
      let own = derive_address h rip b58 pub_key in
      let test = bytes_eq_iff addr own in
      (
        λ e. ground arith,
        λ e. rw e (ground (arith, derive_address-validate pub_key, bytes_eq_iff own own)),
      )
