-- ===== src/Discovery/Routing/Limits.antt =====
-- The limits on insertions by one source.
use ensemble.Common.{
  ℕ, suc, ◌+◌, ◌≤◌, ◌<◌, ◌≡◌, refl, sym, ap, subst, true, Option, none, some, List, [], ◌∷◌, ◌++◌,
  length, set, ltb, leb, ◌==◌, bytes_eq, Bool-cases, Option-cases, inl, inr, arith,
}
use ensemble.Common.Maps.{lookup, bytes_beq, Each, lookup-insert}
use ensemble.Crypto.{Bytes}
use ensemble.Discovery.NodeId.{NodeId, num_buckets, common_prefix_len}
use ensemble.Discovery.Routing.{
  PeerInfo, SourceTracker, RoutingTable, bucket_size, new_routing_table, bucket_of, recent_times,
  check_rate_limit, tracker_of, record_insertion, refresh, add_new, add_peer, remove_from,
  remove_peer, evict, evict_by_failures, partition_all, record_failure, record_success,
  first_bucket, count_in,
}
use ensemble.Discovery.Routing.Invariant.{
  Call, add, remove, evicts, evicts_failed, fails, succeeds, after_call, after_calls,
}

-- No source is over its limits.
pub record IsLimited (rt : RoutingTable) : Type 0 where
  pub some_room : (0 < rt.max_per_source) × (0 < rt.rate_limit)
  pub totals : Each (λ source tracker. tracker.count ≤ rt.max_per_source) rt.sources
  pub rates : Each (λ source tracker. length tracker.insert_times ≤ rt.rate_limit) rt.sources

-- As the clock goes on, fewer times are recent.
recent_times_mono :
    (now now' window : ℕ) (ts : List ℕ)
    → now ≤ now'
    → length (recent_times now' window ts) ≤ length (recent_times now window ts)
unfolding recent_times
recent_times_mono now now' window [] h = omega arith
recent_times_mono now now' window (t ∷ ts) h =
    ground (arith, recent_times_mono now now' window ts h)

recent_times-append :
    (now window : ℕ) (ts : List ℕ) (t : ℕ)
    → length (recent_times now window (ts ++ t ∷ [])) ≤ length (recent_times now window ts) + 1
unfolding recent_times
recent_times-append now window [] t = ground arith
recent_times-append now window (u ∷ ts) t = ground (arith, recent_times-append now window ts t)

-- An insertion that passed the check keeps the limits, if the clock does not run back between the
-- check and the record.
record_insertion-IsLimited :
    (rt : RoutingTable) (source : NodeId) (checked recorded : ℕ)
    → IsLimited rt
    → checked ≤ recorded
    → check_rate_limit rt checked source ≡ true
    → IsLimited (record_insertion rt recorded source)
unfolding record_insertion check_rate_limit tracker_of
record_insertion-IsLimited rt source checked recorded v mono passed = record {
  some_room = v.some_room;
  totals = λ k tr found. elim (Bool-cases (bytes_eq source k)) [
    | inl here ↦ elim (Option-cases (lookup source rt.sources)) [
      | inl r ↦ ground (arith, lookup-insert source k next rt.sources)
      | inr (old, r) ↦ ground (arith, lookup-insert source k next rt.sources)
    ]
    | inr apart ↦ v.totals k tr (ground (arith, lookup-insert source k next rt.sources))
  ];
  rates = λ k tr found. elim (Bool-cases (bytes_eq source k)) [
    | inl here ↦
        let same : next ≡ tr = ground (arith, lookup-insert source k next rt.sources) in
        let times = ap (λ (t : SourceTracker). length t.insert_times) same in
        omega (
          arith,
          times,
          kept,
          recent_times-append recorded rt.rate_window old_times recorded,
          recent_times_mono checked recorded rt.rate_window old_times mono,
        )
    | inr apart ↦ v.rates k tr (ground (arith, lookup-insert source k next rt.sources))
  ];
}
  where
    old_times : List ℕ
    old_times = (tracker_of rt source).insert_times

    next : SourceTracker
    next = record {
      count = (tracker_of rt source).count + 1;
      insert_times = recent_times recorded rt.rate_window (old_times ++ recorded ∷ []);
    }

    kept : length (recent_times checked rt.rate_window old_times) < rt.rate_limit
    kept = elim (Option-cases (lookup source rt.sources)) [
      | inl r ↦ unfold recent_times in ground arith
      | inr (old, r) ↦ ground arith
    ]

-- The clock does not run back within a call of `AddPeer`.
abbrev pub IsForward : Call → Type 0
IsForward (add peer source checked recorded) = checked ≤ recorded
IsForward _ = Unit {0}

abbrev pub Forward : List Call → Type 0
Forward [] = Unit {0}
Forward (c ∷ cs) = IsForward c × Forward cs

add_peer-IsLimited :
    (rt : RoutingTable) (peer : PeerInfo) (source : NodeId) (checked recorded : ℕ)
    → IsLimited rt
    → checked ≤ recorded
    → IsLimited (add_peer rt peer source checked recorded).0
unfolding add_peer add_new
add_peer-IsLimited rt peer source checked recorded v mono =
    elim (Bool-cases (bytes_eq peer.id rt.local_id)) [
      | inl own ↦ rw own v
      | inr foreign ↦ elim (Bool-cases (leb num_buckets cpl)) [
        | inl far ↦ rw (foreign, far) v
        | inr near ↦ elim (Option-cases (refresh peer (bucket_of rt cpl))) [
          | inr (b, r) ↦
              rw (foreign, near, r, add_peer)
                (record { some_room = v.some_room; totals = v.totals; rates = v.rates })
          | inl r ↦
              rw (foreign, near, r, add_peer)
                (elim (Bool-cases (check_rate_limit rt checked source)) [
                  | inr limited ↦ rw limited v
                  | inl allowed ↦ elim (Bool-cases (ltb (length (bucket_of rt cpl)) bucket_size)) [
                    | inr full ↦ rw (allowed, full) v
                    | inl room ↦ rw (allowed, room) (inserted allowed)
                  ]
                ])
        ]
      ]
    ]
  where
    cpl : ℕ
    cpl = common_prefix_len rt.local_id peer.id

    inserted :
        check_rate_limit rt checked source ≡ true
        → IsLimited (
            record_insertion
              (record rt { buckets = set rt.buckets cpl (bucket_of rt cpl ++ peer ∷ []) })
              recorded
              source)
    inserted allowed =
        record_insertion-IsLimited
          (record rt { buckets = set rt.buckets cpl (bucket_of rt cpl ++ peer ∷ []) }) source
          checked recorded (record { some_room = v.some_room; totals = v.totals; rates = v.rates })
          mono (unfold check_rate_limit in allowed)

-- The other calls leave the sources and the limits as they are.
SameSources : RoutingTable → RoutingTable → Type 0
SameSources rt rt' = (bs : List (List PeerInfo)) × (rt' ≡ record rt { buckets = bs })

SameSources-IsLimited : (rt rt' : RoutingTable) → SameSources rt rt' → IsLimited rt → IsLimited rt'
unfolding SameSources
SameSources-IsLimited rt rt' (bs, e) v =
    subst IsLimited (sym e) (record { some_room = v.some_room; totals = v.totals; rates = v.rates })

remove_peer-SameSources :
    (rt : RoutingTable) (addr : Bytes) → SameSources rt (remove_peer rt addr).0
unfolding SameSources remove_peer
remove_peer-SameSources rt addr = elim (Option-cases (first_bucket drop_in rt.buckets)) [
  | inl e ↦ (rt.buckets, rw (e, remove_peer))
  | inr ((bs, u), e) ↦ (bs, rw (e, remove_peer))
]
  where
    drop_in : List PeerInfo → Option (List PeerInfo × Unit {0})
    drop_in b = elim (remove_from addr b) [ none ↦ none | some b' ↦ some (b', tt) ]

evict_by_failures-SameSources :
    (rt : RoutingTable) (threshold : ℕ) → SameSources rt (evict_by_failures rt threshold).0
unfolding SameSources evict_by_failures
evict_by_failures-SameSources rt threshold = elim (Bool-cases (threshold == 0)) [
  | inl off ↦ (rt.buckets, rw off)
  | inr on ↦ ((partition_all (λ p. leb threshold p.failures) rt.buckets).0, rw on refl)
]

record_failure-SameSources :
    (rt : RoutingTable) (onion : Bytes) → SameSources rt (record_failure rt onion).0
unfolding SameSources record_failure
record_failure-SameSources rt onion =
    elim (Option-cases (first_bucket (count_in suc onion) rt.buckets)) [
      | inl e ↦ (rt.buckets, rw (e, record_failure))
      | inr ((bs, n), e) ↦ (bs, rw (e, record_failure))
    ]

record_success-SameSources :
    (rt : RoutingTable) (onion : Bytes) → SameSources rt (record_success rt onion)
unfolding SameSources record_success
record_success-SameSources rt onion =
    elim (Option-cases (first_bucket (count_in (λ _. 0) onion) rt.buckets)) [
      | inl e ↦ (rt.buckets, rw (e, record_success))
      | inr ((bs, n), e) ↦ (bs, rw (e, record_success))
    ]

after_call-IsLimited :
    (rt : RoutingTable) (c : Call) → IsForward c → IsLimited rt → IsLimited (after_call rt c)
unfolding after_call
after_call-IsLimited rt (add peer source checked recorded) f v =
    add_peer-IsLimited rt peer source checked recorded v f
after_call-IsLimited rt (remove addr) f v =
    SameSources-IsLimited rt _ (remove_peer-SameSources rt addr) v
after_call-IsLimited rt (evicts now max_age) f v =
    unfold evict in record { some_room = v.some_room; totals = v.totals; rates = v.rates }
after_call-IsLimited rt (evicts_failed threshold) f v =
    SameSources-IsLimited rt _ (evict_by_failures-SameSources rt threshold) v
after_call-IsLimited rt (fails onion) f v =
    SameSources-IsLimited rt _ (record_failure-SameSources rt onion) v
after_call-IsLimited rt (succeeds onion) f v =
    SameSources-IsLimited rt _ (record_success-SameSources rt onion) v

pub after_calls-IsLimited :
    (rt : RoutingTable) (cs : List Call) → Forward cs → IsLimited rt → IsLimited (after_calls rt cs)
unfolding after_calls
after_calls-IsLimited rt [] f v = v
after_calls-IsLimited rt (c ∷ cs) f v =
    after_calls-IsLimited (after_call rt c) cs f.1 (after_call-IsLimited rt c f.0 v)

-- After any sequence of calls on a new table, if the clock does not run back within a call, no
-- source has been counted more than `MaxPerSource` insertions, and no source's list of recent
-- insertion times is longer than `RateLimit`.
pub new_routing_table-limits :
    (l : NodeId) (cs : List Call) → Forward cs → IsLimited (after_calls (new_routing_table l) cs)
unfolding new_routing_table lookup
new_routing_table-limits l cs f =
    after_calls-IsLimited (new_routing_table l) cs f
      (record { some_room = omega arith; totals = λ k tr e. cc; rates = λ k tr e. cc })
