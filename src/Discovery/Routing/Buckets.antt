-- ===== src/Discovery/Routing/Buckets.antt =====
-- The invariant of one K-bucket, and what the loops over a bucket do to it.
use ensemble.Common.{
  ℕ, ◌≤◌, ◌<◌, ◌≡◌, refl, sym, ap, subst, Bool, false, none, some, List, [], ◌∷◌, ◌++◌, length,
  length-append, bytes_eq, bytes_eq_iff, Bool-cases, Option-cases, inl, inr, arith,
}
use ensemble.Crypto.{Bytes}
use ensemble.Discovery.NodeId.{NodeId, common_prefix_len}
use ensemble.Discovery.Routing.{PeerInfo, bucket_size, refresh, remove_from, partition, count_in}

abbrev pub All {ℓ κ} : {A : Type ℓ} → (A → Type κ) → List A → Type κ
All P [] = Unit
All P (x ∷ xs) = P x × All P xs

pub All-append {ℓ κ} :
    {A : Type ℓ} (P : A → Type κ) (xs ys : List A) → All P xs → All P ys → All P (xs ++ ys)
All-append P [] ys p q = q
All-append P (x ∷ xs) ys p q = (p.0, All-append P xs ys p.1 q)

-- No peer of the bucket has the identifier.
abbrev pub Absent : NodeId → List PeerInfo → Type 0
Absent id = All (λ p. bytes_eq p.id id ≡ false)

abbrev pub DistinctIds : List PeerInfo → Type 0
DistinctIds [] = Unit
DistinctIds (p ∷ ps) = Absent p.id ps × DistinctIds ps

-- Bucket `i` of the table of `local_id`: at most K peers, each with a common prefix of `i` bits,
-- and no identifier twice.
pub record IsBucket (local_id : NodeId) (i : ℕ) (b : List PeerInfo) : Type 0 where
  pub bounded : length b ≤ bucket_size
  pub placed : All (λ p. common_prefix_len local_id p.id ≡ i) b
  pub distinct : DistinctIds b

DistinctIds-append_last :
    (ps : List PeerInfo) (q : PeerInfo)
    → DistinctIds ps
    → Absent q.id ps
    → DistinctIds (ps ++ q ∷ [])
DistinctIds-append_last [] q d a = (tt, tt)
DistinctIds-append_last (p ∷ ps) q d a = (
  All-append _ ps (q ∷ []) d.0 (ground (arith, bytes_eq_iff p.id q.id, bytes_eq_iff q.id p.id), tt),
  DistinctIds-append_last ps q d.1 a.1,
)

-- A new peer at the tail of a bucket that has room.
pub append-IsBucket :
    (l : NodeId) (i : ℕ) (b : List PeerInfo) (peer : PeerInfo)
    → IsBucket l i b
    → length b < bucket_size
    → common_prefix_len l peer.id ≡ i
    → Absent peer.id b
    → IsBucket l i (b ++ peer ∷ [])
append-IsBucket l i b peer v room here absent = record {
  bounded = omega (arith, length-append b (peer ∷ []));
  placed = All-append _ b (peer ∷ []) v.placed (here, tt);
  distinct = DistinctIds-append_last b peer v.distinct absent;
}

pub refresh-none : (peer : PeerInfo) (b : List PeerInfo) → refresh peer b ≡ none → Absent peer.id b
unfolding refresh
refresh-none peer [] e = tt
refresh-none peer (p ∷ ps) e = elim (Bool-cases (bytes_eq p.id peer.id)) [
  | inl hit ↦ absurd (ground arith)
  | inr miss ↦ elim (Option-cases (refresh peer ps)) [
    | inl r ↦ (miss, refresh-none peer ps r)
    | inr (qs, r) ↦ absurd (ground arith)
  ]
]

-- What `refresh` keeps of a predicate on identifiers.
refresh-All {κ} :
    (P : NodeId → Type κ) (peer : PeerInfo) (b b' : List PeerInfo)
    → refresh peer b ≡ some b'
    → All (λ p. P p.id) b
    → All (λ p. P p.id) b'
unfolding refresh
refresh-All P peer [] b' e all = absurd (cc)
refresh-All P peer (p ∷ ps) b' e all = elim (Bool-cases (bytes_eq p.id peer.id)) [
  | inl hit ↦
      let moved : PeerInfo = record p {
        last_seen = peer.last_seen;
        onion_addr = peer.onion_addr;
      } in
      let same : ps ++ moved ∷ [] ≡ b' = ground arith in
      rw same at (All-append (λ (q : PeerInfo). P q.id) ps (moved ∷ []) all.1 (all.0, tt))
  | inr miss ↦ elim (Option-cases (refresh peer ps)) [
    | inl r ↦ absurd (ground arith)
    | inr (qs, r) ↦
        let same : p ∷ qs ≡ b' = ground arith in
        let rest : All (λ q. P q.id) (p ∷ qs) = (all.0, refresh-All P peer ps qs r all.1) in
        subst (All (λ (q : PeerInfo). P q.id)) same rest
  ]
]

refresh-DistinctIds :
    (peer : PeerInfo) (b b' : List PeerInfo)
    → refresh peer b ≡ some b'
    → DistinctIds b
    → (length b' ≡ length b) × DistinctIds b'
unfolding refresh
refresh-DistinctIds peer [] b' e d = absurd (cc)
refresh-DistinctIds peer (p ∷ ps) b' e d = elim (Bool-cases (bytes_eq p.id peer.id)) [
  | inl hit ↦
      let moved : PeerInfo = record p {
        last_seen = peer.last_seen;
        onion_addr = peer.onion_addr;
      } in
      let same : ps ++ moved ∷ [] ≡ b' = ground arith in
      (
        omega (arith, ap (λ (l : List PeerInfo). length l) same, length-append ps (moved ∷ [])),
        rw same at (DistinctIds-append_last ps moved d.1 d.0),
      )
  | inr miss ↦ elim (Option-cases (refresh peer ps)) [
    | inl r ↦ absurd (ground arith)
    | inr (qs, r) ↦
        let same : p ∷ qs ≡ b' = ground arith in
        let (n, d') = refresh-DistinctIds peer ps qs r d.1 in
        let rest : DistinctIds (p ∷ qs) =
          (refresh-All (λ (id : NodeId). bytes_eq id p.id ≡ false) peer ps qs r d.0, d') in
        (omega (arith, ap (λ (l : List PeerInfo). length l) same), subst DistinctIds same rest)
  ]
]

pub refresh-IsBucket :
    (l : NodeId) (i : ℕ) (peer : PeerInfo) (b b' : List PeerInfo)
    → refresh peer b ≡ some b'
    → IsBucket l i b
    → IsBucket l i b'
refresh-IsBucket l i peer b b' e v =
    let (n, d) = refresh-DistinctIds peer b b' e v.distinct in
    record {
      bounded = omega (arith, v.bounded);
      placed = refresh-All (λ (id : NodeId). common_prefix_len l id ≡ i) peer b b' e v.placed;
      distinct = d;
    }

-- The second bucket is the first with peers left out, and other fields than the identifier changed.
pub data Thinned : List PeerInfo → List PeerInfo → Type 0 where
  empty : Thinned [] []
  keep :
      {p q : PeerInfo} {ps qs : List PeerInfo}
      → q.id ≡ p.id
      → Thinned ps qs
      → Thinned (p ∷ ps) (q ∷ qs)
  skip : {p : PeerInfo} {ps qs : List PeerInfo} → Thinned ps qs → Thinned (p ∷ ps) qs

pub Thinned-refl : (b : List PeerInfo) → Thinned b b
Thinned-refl [] = empty
Thinned-refl (p ∷ ps) = keep refl (Thinned-refl ps)

length-Thinned : {b b' : List PeerInfo} → Thinned b b' → length b' ≤ length b
length-Thinned empty = omega arith
length-Thinned (keep e t) = omega (arith, length-Thinned t)
length-Thinned (skip t) = omega (arith, length-Thinned t)

Thinned-All {κ} :
    (P : NodeId → Type κ) {b b' : List PeerInfo}
    → Thinned b b'
    → All (λ p. P p.id) b
    → All (λ p. P p.id) b'
Thinned-All P empty all = tt
Thinned-All P (keep e t) all = (subst P (sym e) all.0, Thinned-All P t all.1)
Thinned-All P (skip t) all = Thinned-All P t all.1

Thinned-DistinctIds : {b b' : List PeerInfo} → Thinned b b' → DistinctIds b → DistinctIds b'
Thinned-DistinctIds empty d = tt
Thinned-DistinctIds (keep {qs = rest} e t) d = (
  subst (λ id. Absent id rest) (sym e) (Thinned-All (λ (x : NodeId). bytes_eq x _ ≡ false) t d.0),
  Thinned-DistinctIds t d.1,
)
Thinned-DistinctIds (skip t) d = Thinned-DistinctIds t d.1

pub Thinned-IsBucket :
    (l : NodeId) (i : ℕ) {b b' : List PeerInfo} → Thinned b b' → IsBucket l i b → IsBucket l i b'
Thinned-IsBucket l i t v = record {
  bounded = omega (arith, v.bounded, length-Thinned t);
  placed = Thinned-All (λ (id : NodeId). common_prefix_len l id ≡ i) t v.placed;
  distinct = Thinned-DistinctIds t v.distinct;
}

pub remove_from-Thinned :
    (addr : Bytes) (b : List PeerInfo) {b' : List PeerInfo}
    → remove_from addr b ≡ some b'
    → Thinned b b'
unfolding remove_from
remove_from-Thinned addr [] e = absurd (cc)
remove_from-Thinned addr (p ∷ ps) e = elim (Bool-cases (bytes_eq p.address addr)) [
  | inl hit ↦ subst (λ b. Thinned (p ∷ ps) b) (ground arith) (skip (Thinned-refl ps))
  | inr miss ↦ elim (Option-cases (remove_from addr ps)) [
    | inl r ↦ absurd (ground arith)
    | inr (qs, r) ↦
        subst (λ b. Thinned (p ∷ ps) b) (ground arith)
          (keep {q = p} refl (remove_from-Thinned addr ps r))
  ]
]

pub partition-Thinned :
    (drop : PeerInfo → Bool) (b : List PeerInfo) → Thinned b (partition drop b).0
unfolding partition
partition-Thinned drop [] = empty
partition-Thinned drop (p ∷ ps) = elim (Bool-cases (drop p)) [
  | inl out ↦ rw out (skip (partition-Thinned drop ps))
  | inr stays ↦ rw stays (keep refl (partition-Thinned drop ps))
]

pub count_in-Thinned :
    (f : ℕ → ℕ) (onion : Bytes) (b : List PeerInfo) {b' : List PeerInfo} {n : ℕ}
    → count_in f onion b ≡ some (b', n)
    → Thinned b b'
unfolding count_in
count_in-Thinned f onion [] e = absurd (cc)
count_in-Thinned f onion (p ∷ ps) e = elim (Bool-cases (bytes_eq p.onion_addr onion)) [
  | inl hit ↦
      subst (λ b. Thinned (p ∷ ps) b) (ground arith)
        (keep {q = record p { failures = f p.failures }} refl (Thinned-refl ps))
  | inr miss ↦ elim (Option-cases (count_in f onion ps)) [
    | inl r ↦ absurd (ground arith)
    | inr ((qs, m), r) ↦
        subst (λ b. Thinned (p ∷ ps) b) (ground arith)
          (keep {q = p} refl (count_in-Thinned f onion ps r))
  ]
]
