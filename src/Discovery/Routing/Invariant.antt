-- ===== src/Discovery/Routing/Invariant.antt =====
-- Every operation on the routing table keeps its invariant.
use ensemble.Common.{
  ℕ, zero, suc, ◌+◌, ◌<◌, ◌≡◌, refl, sym, ap, subst, ◌∙◌, Bool, Option, none, some, List, [], ◌∷◌,
  ◌++◌, length, length-set, get_or, set, replicate, ltb, ltb→lt, leb, ◌==◌, bytes_eq, Bool-cases,
  Option-cases, inl, inr, arith,
}
use ensemble.Crypto.{Bytes}
use ensemble.Discovery.NodeId.{NodeId, num_buckets, common_prefix_len}
use ensemble.Discovery.Routing.{
  PeerInfo, RoutingTable, bucket_size, new_routing_table, bucket_of, check_rate_limit,
  record_insertion, refresh, add_new, add_peer, remove_from, first_bucket, remove_peer, is_stale,
  partition_all, evict, evict_by_failures, count_in, record_failure, record_success,
}
use ensemble.Discovery.Routing.Buckets.{
  IsBucket, append-IsBucket, refresh-none, refresh-IsBucket, Thinned, Thinned-IsBucket,
  remove_from-Thinned, partition-Thinned, count_in-Thinned,
}

abbrev pub AreBuckets : NodeId → ℕ → List (List PeerInfo) → Type 0
AreBuckets l i [] = Unit
AreBuckets l i (b ∷ bs) = IsBucket l i b × AreBuckets l (suc i) bs

-- 160 buckets, each with at most K peers, all at the right distance, no identifier twice.
pub record IsTable (rt : RoutingTable) : Type 0 where
  pub counted : length rt.buckets ≡ num_buckets
  pub buckets : AreBuckets rt.local_id 0 rt.buckets

AreBuckets-get :
    (l : NodeId) (i j : ℕ) (bs : List (List PeerInfo))
    → AreBuckets l i bs
    → j < length bs
    → IsBucket l (i + j) (get_or bs j [])
AreBuckets-get l i j [] v p = elim p [ ]
AreBuckets-get l i zero (b ∷ bs) v p = subst (λ k. IsBucket l k b) (omega arith) v.0
AreBuckets-get l i (suc j) (b ∷ bs) v p =
    subst (λ k. IsBucket l k (get_or bs j [])) (omega arith)
      (AreBuckets-get l (suc i) j bs v.1 (omega arith))

AreBuckets-set :
    (l : NodeId) (i j : ℕ) (bs : List (List PeerInfo)) (b : List PeerInfo)
    → AreBuckets l i bs
    → IsBucket l (i + j) b
    → AreBuckets l i (set bs j b)
AreBuckets-set l i j [] b v w = tt
AreBuckets-set l i zero (b' ∷ bs) b v w = (subst (λ k. IsBucket l k b) (omega arith) w, v.1)
AreBuckets-set l i (suc j) (b' ∷ bs) b v w =
    (v.0, AreBuckets-set l (suc i) j bs b v.1 (subst (λ k. IsBucket l k b) (omega arith) w))

AreBuckets-empty : (l : NodeId) (i n : ℕ) → AreBuckets l i (replicate n [])
AreBuckets-empty l i zero = tt
AreBuckets-empty l i (suc n) =
    (record { bounded = omega arith; placed = tt; distinct = tt }, AreBuckets-empty l (suc i) n)

-- A new table is empty and valid.
pub new_routing_table-IsTable : (l : NodeId) → IsTable (new_routing_table l)
unfolding new_routing_table
new_routing_table-IsTable l = record { counted = refl; buckets = AreBuckets-empty l 0 num_buckets }

pub bucket_of-IsBucket :
    (rt : RoutingTable) (i : ℕ)
    → IsTable rt
    → i < num_buckets
    → IsBucket rt.local_id i (bucket_of rt i)
bucket_of-IsBucket rt i v p =
    let at : 0 + i ≡ i = omega arith in
    subst (λ k. IsBucket rt.local_id k (bucket_of rt i)) at
      (AreBuckets-get rt.local_id 0 i rt.buckets v.buckets (omega (arith, v.counted)))

pub set_bucket-IsTable :
    (rt : RoutingTable) (i : ℕ) (b : List PeerInfo)
    → IsTable rt
    → IsBucket rt.local_id i b
    → IsTable (record rt { buckets = set rt.buckets i b })
set_bucket-IsTable rt i b v w = record {
  counted = length-set rt.buckets i b ∙ v.counted;
  buckets =
      let at : i ≡ 0 + i = omega arith in
      AreBuckets-set rt.local_id 0 i rt.buckets b v.buckets
        (subst (λ k. IsBucket rt.local_id k b) at w);
}

record_insertion-IsTable :
    (rt : RoutingTable) (now : ℕ) (source : NodeId)
    → IsTable rt
    → IsTable (record_insertion rt now source)
unfolding record_insertion
record_insertion-IsTable rt now source v = record { counted = v.counted; buckets = v.buckets }

-- `AddPeer` keeps the table valid, whatever the peer, its source and the clock.
pub add_peer-IsTable :
    (rt : RoutingTable) (peer : PeerInfo) (source : NodeId) (checked recorded : ℕ)
    → IsTable rt
    → IsTable (add_peer rt peer source checked recorded).0
unfolding add_peer add_new
add_peer-IsTable rt peer source checked recorded v =
    elim (Bool-cases (bytes_eq peer.id rt.local_id)) [
      | inl own ↦ rw own v
      | inr foreign ↦ elim (Bool-cases (leb num_buckets cpl)) [
        | inl far ↦ rw (foreign, far) v
        | inr near ↦
            let low : cpl < num_buckets = ground arith in
            let bucket = bucket_of-IsBucket rt cpl v low in
            elim (Option-cases (refresh peer (bucket_of rt cpl))) [
              | inr (b, r) ↦
                  rw (foreign, near, r, add_peer)
                    (set_bucket-IsTable rt cpl b v
                      (refresh-IsBucket rt.local_id cpl peer (bucket_of rt cpl) b r bucket))
              | inl r ↦ rw (foreign, near, r, add_peer) (fresh low bucket r)
            ]
      ]
    ]
  where
    cpl : ℕ
    cpl = common_prefix_len rt.local_id peer.id

    fresh :
        cpl < num_buckets
        → IsBucket rt.local_id cpl (bucket_of rt cpl)
        → refresh peer (bucket_of rt cpl) ≡ none
        → IsTable (add_new rt peer source cpl checked recorded).0
    fresh low bucket r = elim (Bool-cases (check_rate_limit rt checked source)) [
      | inr limited ↦ rw limited v
      | inl allowed ↦ elim (Bool-cases (ltb (length (bucket_of rt cpl)) bucket_size)) [
        | inr full ↦ rw (allowed, full) v
        | inl room ↦
            rw (allowed, room)
              (record_insertion-IsTable _ recorded source (
                set_bucket-IsTable rt cpl (bucket_of rt cpl ++ peer ∷ []) v (
                  append-IsBucket rt.local_id cpl (bucket_of rt cpl) peer bucket (ltb→lt _ _ room)
                    refl (refresh-none peer (bucket_of rt cpl) r))))
      ]
    ]

first_bucket-AreBuckets {ℓ} :
    {A : Type ℓ} (f : List PeerInfo → Option (List PeerInfo × A)) (l : NodeId) (i : ℕ)
    (bs bs' : List (List PeerInfo)) (a : A)
    → ((b b' : List PeerInfo) (a' : A) → f b ≡ some (b', a') → Thinned b b')
    → first_bucket f bs ≡ some (bs', a)
    → AreBuckets l i bs
    → (length bs' ≡ length bs) × AreBuckets l i bs'
unfolding first_bucket
first_bucket-AreBuckets f l i [] bs' a thin e v = absurd (cc)
first_bucket-AreBuckets f l i (b ∷ bs) bs' a thin e v = elim (Option-cases (f b)) [
  | inr ((b', a'), r) ↦
      let same : b' ∷ bs ≡ bs' = ground arith in
      (
        ap (λ (x : List (List PeerInfo)). length x) (sym same),
        subst (AreBuckets l i) same (Thinned-IsBucket l i (thin b b' a' r) v.0, v.1),
      )
  | inl r ↦ elim (Option-cases (first_bucket f bs)) [
    | inl r' ↦ absurd (ground arith)
    | inr ((cs, a'), r') ↦
        let same : b ∷ cs ≡ bs' = ground arith in
        let (n, w) = first_bucket-AreBuckets f l (suc i) bs cs a' thin r' v.1 in
        (
          ap (λ (x : List (List PeerInfo)). length x) (sym same) ∙ ap suc n,
          subst (AreBuckets l i) same (v.0, w),
        )
  ]
]

-- `RemovePeer` keeps the table valid.
pub remove_peer-IsTable :
    (rt : RoutingTable) (addr : Bytes) → IsTable rt → IsTable (remove_peer rt addr).0
unfolding remove_peer
remove_peer-IsTable rt addr v = elim (Option-cases (first_bucket drop_in rt.buckets)) [
  | inl e ↦ rw (e, remove_peer) v
  | inr ((bs, u), e) ↦
      let (n, w) = first_bucket-AreBuckets drop_in rt.local_id 0 rt.buckets bs u thin e v.buckets in
      rw (e, remove_peer) (record { counted = n ∙ v.counted; buckets = w })
]
  where
    drop_in : List PeerInfo → Option (List PeerInfo × Unit {0})
    drop_in b = elim (remove_from addr b) [ none ↦ none | some b' ↦ some (b', tt) ]

    thin : (b b' : List PeerInfo) (u : Unit {0}) → drop_in b ≡ some (b', u) → Thinned b b'
    thin b b' u e = elim (Option-cases (remove_from addr b)) [
      | inl r ↦ absurd (ground arith)
      | inr (c, r) ↦ remove_from-Thinned addr b (r ∙ ground arith)
    ]

partition_all-AreBuckets :
    (drop : PeerInfo → Bool) (l : NodeId) (i : ℕ) (bs : List (List PeerInfo))
    → AreBuckets l i bs
    → (length (partition_all drop bs).0 ≡ length bs) × AreBuckets l i (partition_all drop bs).0
unfolding partition_all
partition_all-AreBuckets drop l i [] v = (refl, tt)
partition_all-AreBuckets drop l i (b ∷ bs) v =
    let (n, w) = partition_all-AreBuckets drop l (suc i) bs v.1 in
    (ap suc n, (Thinned-IsBucket l i (partition-Thinned drop b) v.0, w))

-- So do `Evict` and `EvictByFailures`,
pub evict-IsTable :
    (rt : RoutingTable) (now max_age : ℕ) → IsTable rt → IsTable (evict rt now max_age).0
unfolding evict
evict-IsTable rt now max_age v =
    let (n, w) =
      partition_all-AreBuckets (is_stale now max_age) rt.local_id 0 rt.buckets v.buckets in
    record { counted = n ∙ v.counted; buckets = w }

pub evict_by_failures-IsTable :
    (rt : RoutingTable) (threshold : ℕ) → IsTable rt → IsTable (evict_by_failures rt threshold).0
unfolding evict_by_failures
evict_by_failures-IsTable rt threshold v =
    let (n, w) =
      partition_all-AreBuckets (λ p. leb threshold p.failures) rt.local_id 0 rt.buckets v.buckets in
    elim (Bool-cases (threshold == 0)) [
      | inl off ↦ rw off v
      | inr on ↦ rw on (record { counted = n ∙ v.counted; buckets = w })
    ]

-- and the two that count failures.
pub record_failure-IsTable :
    (rt : RoutingTable) (onion : Bytes) → IsTable rt → IsTable (record_failure rt onion).0
unfolding record_failure
record_failure-IsTable rt onion v =
    elim (Option-cases (first_bucket (count_in suc onion) rt.buckets)) [
      | inl e ↦ rw (e, record_failure) v
      | inr ((bs, m), e) ↦
          let (n, w) =
            first_bucket-AreBuckets (count_in suc onion) rt.local_id 0 rt.buckets bs m
              (λ b b' k. count_in-Thinned suc onion b) e v.buckets in
          rw (e, record_failure) (record { counted = n ∙ v.counted; buckets = w })
    ]

pub record_success-IsTable :
    (rt : RoutingTable) (onion : Bytes) → IsTable rt → IsTable (record_success rt onion)
unfolding record_success
record_success-IsTable rt onion v =
    elim (Option-cases (first_bucket (count_in (λ _. 0) onion) rt.buckets)) [
      | inl e ↦ rw (e, record_success) v
      | inr ((bs, m), e) ↦
          let (n, w) =
            first_bucket-AreBuckets (count_in (λ _. 0) onion) rt.local_id 0 rt.buckets bs m
              (λ b b' k. count_in-Thinned (λ _. 0) onion b) e v.buckets in
          rw (e, record_success) (record { counted = n ∙ v.counted; buckets = w })
    ]

-- The calls that change a routing table.
pub data Call : Type 0 where
  add : PeerInfo → NodeId → ℕ → ℕ → Call
  remove : Bytes → Call
  evicts : ℕ → ℕ → Call
  evicts_failed : ℕ → Call
  fails succeeds : Bytes → Call

unfoldable pub after_call : RoutingTable → Call → RoutingTable
after_call rt (add peer source checked recorded) = (add_peer rt peer source checked recorded).0
after_call rt (remove addr) = (remove_peer rt addr).0
after_call rt (evicts now max_age) = (evict rt now max_age).0
after_call rt (evicts_failed threshold) = (evict_by_failures rt threshold).0
after_call rt (fails onion) = (record_failure rt onion).0
after_call rt (succeeds onion) = record_success rt onion

unfoldable pub after_calls : RoutingTable → List Call → RoutingTable
unfolding after_call
after_calls rt [] = rt
after_calls rt (c ∷ cs) = after_calls (after_call rt c) cs

after_call-IsTable : (rt : RoutingTable) (c : Call) → IsTable rt → IsTable (after_call rt c)
unfolding after_call
after_call-IsTable rt (add peer source checked recorded) v =
    add_peer-IsTable rt peer source checked recorded v
after_call-IsTable rt (remove addr) v = remove_peer-IsTable rt addr v
after_call-IsTable rt (evicts now max_age) v = evict-IsTable rt now max_age v
after_call-IsTable rt (evicts_failed threshold) v = evict_by_failures-IsTable rt threshold v
after_call-IsTable rt (fails onion) v = record_failure-IsTable rt onion v
after_call-IsTable rt (succeeds onion) v = record_success-IsTable rt onion v

pub after_calls-IsTable :
    (rt : RoutingTable) (cs : List Call) → IsTable rt → IsTable (after_calls rt cs)
unfolding after_calls
after_calls-IsTable rt [] v = v
after_calls-IsTable rt (c ∷ cs) v =
    after_calls-IsTable (after_call rt c) cs (after_call-IsTable rt c v)

-- After any sequence of AddPeer, RemovePeer, Evict, EvictByFailures, RecordFailure and
-- RecordSuccess on a new table there are 160 buckets, each with at most K peers, each peer stands
-- in the bucket of its common prefix with the local identifier, and no bucket has an identifier
-- twice.
pub new_routing_table-after_calls :
    (l : NodeId) (cs : List Call) → IsTable (after_calls (new_routing_table l) cs)
new_routing_table-after_calls l cs =
    after_calls-IsTable (new_routing_table l) cs (new_routing_table-IsTable l)
