-- ===== src/Discovery/Routing/Loading.antt =====
-- A routing table that is loaded from a file, and used.
use ensemble.Common.{
  ℕ, zero, suc, ◌≡◌, refl, Bool, false, List, [], ◌∷◌, ◌++◌, length, get_or, set, replicate, ltb,
  ltb→lt, leb, bytes_eq, bytes_eq_iff, Bool-cases, inl, inr, arith,
}
use ensemble.Discovery.NodeId.{NodeId, num_buckets, common_prefix_len}
use ensemble.Discovery.Routing.{
  PeerInfo, RoutingTable, bucket_size, new_routing_table, bucket_of, insert_by, sort_by, seen_later,
  load_peer, load_all, load,
}
use ensemble.Discovery.Routing.Buckets.{All, All-append, Absent, DistinctIds, append-IsBucket}
use ensemble.Discovery.Routing.Closest.{insert_by-All, sort_by-All}
use ensemble.Discovery.Routing.Invariant.{
  IsTable, new_routing_table-IsTable, bucket_of-IsBucket, set_bucket-IsTable, Call, after_calls,
  after_calls-IsTable,
}

-- No bucket has the identifier.
abbrev AbsentAll : NodeId → List (List PeerInfo) → Type 0
AbsentAll id = All (Absent id)

AbsentAll-get :
    (id : NodeId) (bs : List (List PeerInfo)) (i : ℕ) → AbsentAll id bs → Absent id (get_or bs i [])
AbsentAll-get id [] i a = tt
AbsentAll-get id (b ∷ bs) zero a = a.0
AbsentAll-get id (b ∷ bs) (suc i) a = AbsentAll-get id bs i a.1

AbsentAll-set :
    (id : NodeId) (bs : List (List PeerInfo)) (i : ℕ) (b : List PeerInfo)
    → AbsentAll id bs
    → Absent id b
    → AbsentAll id (set bs i b)
AbsentAll-set id [] i b a new = tt
AbsentAll-set id (b' ∷ bs) zero b a new = (new, a.1)
AbsentAll-set id (b' ∷ bs) (suc i) b a new = (a.0, AbsentAll-set id bs i b a.1 new)

AbsentAll-empty : (id : NodeId) (n : ℕ) → AbsentAll id (replicate n [])
AbsentAll-empty id zero = tt
AbsentAll-empty id (suc n) = (tt, AbsentAll-empty id n)

-- A peer whose identifier is new keeps the table valid, and adds no other identifier.
record Loaded (p : PeerInfo) (rt rt' : RoutingTable) : Type 0 where
  valid : IsTable rt'
  others :
      (id : NodeId) → bytes_eq p.id id ≡ false → AbsentAll id rt.buckets → AbsentAll id rt'.buckets

load_peer-Loaded :
    (rt : RoutingTable) (p : PeerInfo)
    → IsTable rt
    → AbsentAll p.id rt.buckets
    → Loaded p rt (load_peer rt p)
unfolding load_peer
load_peer-Loaded rt p v absent = elim (Bool-cases (bytes_eq p.id rt.local_id)) [
  | inl own ↦ rw (own, load_peer) same
  | inr foreign ↦ elim (Bool-cases (leb num_buckets cpl)) [
    | inl far ↦ rw (foreign, far, load_peer) same
    | inr near ↦ elim (Bool-cases (ltb (length (bucket_of rt cpl)) bucket_size)) [
      | inr full ↦ rw (foreign, near, full, load_peer) same
      | inl room ↦
          rw (foreign, near, room, load_peer)
            (record {
              valid = set_bucket-IsTable rt cpl (bucket_of rt cpl ++ p ∷ []) v (
                  append-IsBucket rt.local_id cpl (bucket_of rt cpl) p
                    (bucket_of-IsBucket rt cpl v (ground arith)) (ltb→lt _ _ room) refl
                    (AbsentAll-get p.id rt.buckets cpl absent));
              others = λ id apart a.
                  AbsentAll-set id rt.buckets cpl (bucket_of rt cpl ++ p ∷ []) a (
                    All-append _ (bucket_of rt cpl) (p ∷ []) (AbsentAll-get id rt.buckets cpl a)
                      (apart, tt));
            })
    ]
  ]
]
  where
    cpl : ℕ
    cpl = common_prefix_len rt.local_id p.id

    same : Loaded p rt rt
    same = record { valid = v; others = λ id apart a. a }

load_all-IsTable :
    (rt : RoutingTable) (ps : List PeerInfo)
    → IsTable rt
    → DistinctIds ps
    → All (λ p. AbsentAll p.id rt.buckets) ps
    → IsTable (load_all rt ps)
unfolding load_all
load_all-IsTable rt [] v d a = v
load_all-IsTable rt (p ∷ ps) v d a =
    let l = load_peer-Loaded rt p v a.0 in
    load_all-IsTable (load_peer rt p) ps l.valid d.1 (still l ps d.0 a.1)
  where
    still :
        Loaded p rt (load_peer rt p)
        → (qs : List PeerInfo) → Absent p.id qs
        → All (λ q. AbsentAll q.id rt.buckets) qs
        → All (λ q. AbsentAll q.id (load_peer rt p).buckets) qs
    still l [] apart b = tt
    still l (q ∷ qs) apart b = (
      l.others q.id (ground (arith, bytes_eq_iff q.id p.id, bytes_eq_iff p.id q.id)) b.0,
      still l qs apart.1 b.1,
    )

insert_by-DistinctIds :
    (less : PeerInfo → PeerInfo → Bool) (p : PeerInfo) (qs : List PeerInfo)
    → Absent p.id qs
    → DistinctIds qs
    → DistinctIds (insert_by less p qs)
unfolding insert_by
insert_by-DistinctIds less p [] a d = (tt, tt)
insert_by-DistinctIds less p (q ∷ qs) a d = elim (Bool-cases (less q p)) [
  | inl later ↦
      let apart : bytes_eq p.id q.id ≡ false =
        ground (arith, bytes_eq_iff q.id p.id, bytes_eq_iff p.id q.id) in
      rw (later, insert_by)
        (
          insert_by-All (λ x. bytes_eq x.id q.id ≡ false) less p qs apart d.0,
          insert_by-DistinctIds less p qs a.1 d.1,
        )
  | inr first ↦ rw (first, insert_by) (a, d)
]

sort_by-DistinctIds :
    (less : PeerInfo → PeerInfo → Bool) (ps : List PeerInfo)
    → DistinctIds ps
    → DistinctIds (sort_by less ps)
unfolding sort_by
sort_by-DistinctIds less [] d = tt
sort_by-DistinctIds less (p ∷ ps) d =
    insert_by-DistinctIds less p (sort_by less ps)
      (sort_by-All (λ x. bytes_eq x.id p.id ≡ false) less ps d.0) (sort_by-DistinctIds less ps d.1)

AbsentAll-of_new :
    (l : NodeId) (ps : List PeerInfo) → All (λ p. AbsentAll p.id (new_routing_table l).buckets) ps
unfolding new_routing_table
AbsentAll-of_new l [] = tt
AbsentAll-of_new l (p ∷ ps) = (AbsentAll-empty p.id num_buckets, AbsentAll-of_new l ps)

-- A new table into which Load has put the peers of a file, in which no identifier stands twice, and
-- on which then any sequence of AddPeer, RemovePeer, Evict, EvictByFailures, RecordFailure and
-- RecordSuccess has run: there are 160 buckets, each with at most K peers, each peer stands in the
-- bucket of its common prefix with the local identifier, and no bucket has an identifier twice.
-- Without a file the list is empty.
pub load-after_calls :
    (l : NodeId) (saved : List PeerInfo) (cs : List Call)
    → DistinctIds saved
    → IsTable (after_calls (load (new_routing_table l) saved) cs)
unfolding load
load-after_calls l saved cs d = after_calls-IsTable (load (new_routing_table l) saved) cs (
    load_all-IsTable (new_routing_table l) (sort_by seen_later saved) (new_routing_table-IsTable l)
      (sort_by-DistinctIds seen_later saved d) (AbsentAll-of_new l (sort_by seen_later saved)))
