-- ===== src/Discovery/NodeId/Prefix.antt =====
-- The common prefix length of two identifiers tells how close they are.
use Prim.Native.Nat.{Ordering}
use ensemble.Common.{
  ℕ, zero, suc, ◌+◌, ◌-◌, ◌*◌, ◌^◌, ◌≤◌, ◌<◌, ◌≡◌, ◌≢◌, ◌⊎◌, refl, sym, subst, ◌∙◌, bit_xor, Bool,
  true, false, ◌&&◌, none, some, [], ◌∷◌, length, ltb, leb, ◌==◌, ==_iff, if◌then◌else◌, Bool-cases,
  Option-cases, inl, inr, arith,
}
use native.Mathlib.Nat.{pow-suc, one-le-pow, pow-le-pow_right}
use ensemble.Common.Bits.{eq_of_bit_xor, bit_xor_self, bit_xor-lt}
use ensemble.Discovery.NodeId.{
  NodeId, id_length, num_buckets, AllBytes, IsNodeId, distance, top_bit, prefix_from,
  common_prefix_len, compare_dist,
}

-- The test at `rounds` numbers in a row from `from` on.
passes_from : (ℕ → Bool) → ℕ → ℕ → Bool
passes_from test from zero = true
passes_from test from (suc rounds) = test from && passes_from test (suc from) rounds

passes_from-covers :
    (test : ℕ → Bool) (from rounds at : ℕ)
    → from ≤ at
    → at < from + rounds
    → passes_from test from rounds ≡ true
    → test at ≡ true
unfolding passes_from
passes_from-covers test from zero at above below e = absurd (omega arith)
passes_from-covers test from (suc rounds) at above below e = elim (Bool-cases (ltb from at)) [
  | inl later ↦
      passes_from-covers test (suc from) rounds at (ground arith) (omega arith) (ground arith)
  | inr first ↦
      let same : from ≡ at = ground arith in subst (λ k. test k ≡ true) same (ground arith)
]

-- The top bit of a byte that is not zero, as a test over all bytes.
top_bit_test : ℕ → Bool
top_bit_test x = if x == 0 then true else elim (top_bit 8 x) [
  | none ↦ false
  | some k ↦ leb (2 ^ k) x && ltb x (2 ^ k * 2) && ltb k 8
]

top_bit_table : passes_from top_bit_test 0 256 ≡ true
unfolding passes_from top_bit_test top_bit
top_bit_table = refl

pub top_bit_bounds :
    (x : ℕ)
    → x < 256
    → x ≢ 0
    → (k : ℕ) × (top_bit 8 x ≡ some k) × (2 ^ k ≤ x) × (x < 2 ^ k * 2) × (k < 8)
unfolding top_bit_test
top_bit_bounds x low h =
    let test = passes_from-covers top_bit_test 0 256 x (omega arith) (omega arith) top_bit_table in
    elim (Option-cases (top_bit 8 x)) [
      | inl e ↦ absurd (ground arith)
      | inr (k, e) ↦ (k, e, ground arith, ground arith, ground arith)
    ]

bit_xor_byte : (x y : ℕ) → x < 256 → y < 256 → bit_xor x y < 256
bit_xor_byte x y p q = bit_xor-lt 8 x y p q

-- One byte of `CommonPrefixLen`: equal bytes go on, others end the loop within the byte.
prefix_from-head :
    (i x y : ℕ) (a b : NodeId)
    → x < 256
    → y < 256
    → ((x ≡ y) × (bit_xor x y ≡ 0) × (prefix_from i (x ∷ a) (y ∷ b) ≡ prefix_from (suc i) a b))
      ⊎ ((k : ℕ) × (x ≢ y)
          × (k < 8)
          × (2 ^ k ≤ bit_xor x y)
          × (bit_xor x y < 2 ^ k * 2)
          × (prefix_from i (x ∷ a) (y ∷ b) ≡ i * 8 + (7 - k)))
unfolding prefix_from
prefix_from-head i x y a b p q = elim (Bool-cases (bit_xor x y == 0)) [
  | inl zeros ↦
      let z : bit_xor x y ≡ 0 = (==_iff _ _).0 zeros in inl (eq_of_bit_xor x y z, z, rw zeros refl)
  | inr ones ↦
      let (k, top, low, high, small) =
        top_bit_bounds (bit_xor x y) (bit_xor_byte x y p q) (λ z. ground arith) in
      inr
        (k, λ e. ground (arith, bit_xor_self y), small, low, high, rw (ones, top, prefix_from) refl)
]

prefix_from_lem :
    (i : ℕ) (a b : NodeId)
    → length a ≡ length b
    → i + length a ≡ id_length
    → AllBytes a
    → AllBytes b
    → (i * 8 ≤ prefix_from i a b)
      × (((a ≡ b) × (prefix_from i a b ≡ num_buckets))
          ⊎ ((a ≢ b) × (prefix_from i a b < num_buckets)))
prefix_from_lem i [] [] n e p q = unfold prefix_from in (omega arith, inl (refl, refl))
prefix_from_lem i [] (y ∷ b) n e p q = absurd (omega arith)
prefix_from_lem i (x ∷ a) [] n e p q = absurd (omega arith)
prefix_from_lem i (x ∷ a) (y ∷ b) n e p q = elim (prefix_from-head i x y a b p.0 q.0) [
  | inl (same, z, step) ↦
      let (low, tail) = prefix_from_lem (suc i) a b (omega arith) (omega arith) p.1 q.1 in
      (
        omega (arith, step),
        elim tail [
          | inl (e', all) ↦ inl (cc, step ∙ all)
          | inr (ne, less) ↦ inr (λ f. ground arith, omega (arith, step))
        ],
      )
  | inr (k, ne, small, lo, hi, step) ↦
      (omega (arith, step), inr (λ f. ground arith, omega (arith, step)))
]

-- The common prefix of two identifiers has 160 bits if they are equal, and fewer if not, so that
-- the bucket of another node's identifier is in range.
pub common_prefix_len_lem :
    (a b : NodeId)
    → IsNodeId a
    → IsNodeId b
    → ((a ≡ b) × (common_prefix_len a b ≡ num_buckets))
      ⊎ ((a ≢ b) × (common_prefix_len a b < num_buckets))
unfolding common_prefix_len
common_prefix_len_lem a b p q =
    let (_, cases) =
      prefix_from_lem 0 a b (p.size ∙ sym q.size) (omega (arith, p.size)) p.bytes q.bytes in
    elim cases [ inl (same, all) ↦ inl (same, all) | inr (ne, less) ↦ inr (ne, less) ]

closer_from :
    (i : ℕ) (a b c : NodeId)
    → length a ≡ length b
    → length a ≡ length c
    → i + length a ≡ id_length
    → AllBytes a
    → AllBytes b
    → AllBytes c
    → prefix_from i a b < prefix_from i a c
    → compare_dist (distance a c) (distance a b) ≡ Ordering.lt
unfolding compare_dist distance
closer_from i [] [] [] n m e p q r less = unfold prefix_from in absurd (omega arith)
closer_from i [] (y ∷ b) c n m e p q r less = absurd (omega arith)
closer_from i [] [] (z ∷ c) n m e p q r less = absurd (omega arith)
closer_from i (x ∷ a) [] c n m e p q r less = absurd (omega arith)
closer_from i (x ∷ a) (y ∷ b) [] n m e p q r less = absurd (omega arith)
closer_from i (x ∷ a) (y ∷ b) (z ∷ c) n m e p q r less = elim (prefix_from-head i x y a b p.0 q.0) [
  | inl (same, d, step) ↦
      let low = (prefix_from_lem (suc i) a b (omega arith) (omega arith) p.1 q.1).0 in
      elim (prefix_from-head i x z a c p.0 r.0) [
        | inl (same', d', step') ↦
            let rest =
              closer_from (suc i) a b c (omega arith) (omega arith) (omega arith) p.1 q.1 r.1
                (omega (arith, step, step')) in
            ground arith
        | inr (k, ne, small, lo, hi, step') ↦ absurd (omega (arith, step, step'))
      ]
  | inr (k, ne, small, lo, hi, step) ↦ elim (prefix_from-head i x z a c p.0 r.0) [
    | inl (same', d', step') ↦
        let some_bit : 0 < bit_xor x y = omega (arith, one-le-pow k 2) in ground arith
    | inr (k', ne', small', lo', hi', step') ↦
        let higher : suc k' ≤ k = omega (arith, step, step') in
        let grows = pow-le-pow_right {n = 2} (omega arith) higher in
        let nearer : bit_xor x z < bit_xor x y = omega (arith, pow-suc 2 k') in ground arith
  ]
]

-- Of two identifiers, the one that shares the longer prefix with a third is nearer to it in the
-- XOR distance: the buckets are ordered by distance.
pub common_prefix_len-compare_dist :
    (a b c : NodeId)
    → IsNodeId a
    → IsNodeId b
    → IsNodeId c
    → common_prefix_len a b < common_prefix_len a c
    → compare_dist (distance a c) (distance a b) ≡ Ordering.lt
unfolding common_prefix_len
common_prefix_len-compare_dist a b c p q r less =
    closer_from 0 a b c (p.size ∙ sym q.size) (p.size ∙ sym r.size) (omega (arith, p.size)) p.bytes
      q.bytes r.bytes less
