-- ===== src/Discovery/Routing.antt =====
-- internal/discovery/routing.go, the table: K-buckets, the limits on insertions by one source,
-- eviction, failure counts and the search for the closest peers. `LastSeen` is `none` for Go's zero
-- time. Times are counted in nanoseconds from an origin before all of them, and each reading of
-- the clock is an argument. The table holds what the callers' `*PeerInfo` point to: every caller
-- hands over a record of its own. A duration or count that Go takes as switched off at zero or
-- below is a natural number that is 0.
pub mod Invariant
pub mod Loading
pub mod Buckets
pub mod Adding
pub mod Limits
pub mod Eviction
pub mod Closest
use Prim.Native.Nat.{Ordering}
use ensemble.Common.{
  ℕ, zero, suc, ◌+◌, ◌-◌, ◌<◌, Bool, true, false, ◌&&◌, not, Option, none, some, List, [], ◌∷◌,
  ◌++◌, length, get_or, set, take, replicate, ltb, leb, ◌==◌, if◌then◌else◌, bytes_eq,
}
use ensemble.Common.Maps.{lookup, insert, bytes_beq}
use ensemble.Crypto.{Bytes}
use ensemble.Discovery.NodeId.{NodeId, num_buckets, distance, common_prefix_len, compare_dist}

-- The maximum number of peers in a bucket.
abbrev pub bucket_size : ℕ
bucket_size = 20

pub record PeerInfo : Type 0 where
  pub id : NodeId
  pub address : Bytes
  pub onion_addr : Bytes
  pub last_seen : Option ℕ
  pub failures : ℕ

pub record SourceTracker : Type 0 where
  pub count : ℕ
  pub insert_times : List ℕ

pub record RoutingTable : Type 0 where
  pub local_id : NodeId
  pub buckets : List (List PeerInfo)
  pub max_per_source : ℕ
  pub rate_limit : ℕ
  pub rate_window : ℕ
  pub sources : List (NodeId × SourceTracker)

unfoldable pub new_routing_table : NodeId → RoutingTable
new_routing_table local_id = record {
  local_id = local_id;
  buckets = replicate num_buckets [];
  max_per_source = 50;
  rate_limit = 10;
  rate_window = 60000000000;
  sources = [];
}

-- `t.After(now.Add(-window))`, with no subtraction.
unfoldable pub within_window : ℕ → ℕ → ℕ → Bool
within_window now window t = ltb now (t + window)

unfoldable pub recent_times : ℕ → ℕ → List ℕ → List ℕ
unfolding within_window
recent_times now window [] = []
recent_times now window (t ∷ ts) =
    let rest = recent_times now window ts in if within_window now window t then t ∷ rest else rest

unfoldable pub check_rate_limit : RoutingTable → ℕ → NodeId → Bool
unfolding recent_times
check_rate_limit rt now source = elim (lookup source rt.sources) [
  | none ↦ true
  | some tracker ↦
      if leb rt.max_per_source tracker.count
      then false
      else ltb (length (recent_times now rt.rate_window tracker.insert_times)) rt.rate_limit
]

unfoldable pub tracker_of : RoutingTable → NodeId → SourceTracker
tracker_of rt source = elim (lookup source rt.sources) [
  | none ↦ record { count = 0; insert_times = [] }
  | some tracker ↦ tracker
]

unfoldable pub record_insertion : RoutingTable → ℕ → NodeId → RoutingTable
unfolding tracker_of recent_times
record_insertion rt now source =
    let old = tracker_of rt source in
    let tracker : SourceTracker = record {
      count = old.count + 1;
      insert_times = recent_times now rt.rate_window (old.insert_times ++ now ∷ []);
    } in
    record rt { sources = insert source tracker rt.sources }

-- The loop of `AddPeer` over a bucket: a peer that is there is updated and moved to the tail;
-- `none` if it is not there.
unfoldable pub refresh : PeerInfo → List PeerInfo → Option (List PeerInfo)
refresh peer [] = none
refresh peer (p ∷ ps) =
    let rest = refresh peer ps in
    if bytes_eq p.id peer.id
    then some (ps ++ record p { last_seen = peer.last_seen; onion_addr = peer.onion_addr } ∷ [])
    else elim rest [ none ↦ none | some qs ↦ some (p ∷ qs) ]

abbrev pub bucket_of : RoutingTable → ℕ → List PeerInfo
bucket_of rt i = get_or rt.buckets i []

-- The insertion of a peer that is new in its bucket, after the limits: `checked` and `recorded`
-- are the two readings of the clock.
unfoldable pub add_new : RoutingTable → PeerInfo → NodeId → ℕ → ℕ → ℕ → RoutingTable × Bool
unfolding check_rate_limit record_insertion
add_new rt peer source cpl checked recorded =
    let bucket = bucket_of rt cpl in
    if not (check_rate_limit rt checked source)
    then (rt, false)
    else if ltb (length bucket) bucket_size
    then (
      record_insertion (record rt { buckets = set rt.buckets cpl (bucket ++ peer ∷ []) }) recorded
          source,
      true,
    )
    else (rt, false)

unfoldable pub add_peer : RoutingTable → PeerInfo → NodeId → ℕ → ℕ → RoutingTable × Bool
unfolding refresh add_new
add_peer rt peer source checked recorded =
    let cpl = common_prefix_len rt.local_id peer.id in
    if bytes_eq peer.id rt.local_id
    then (rt, false)
    else if leb num_buckets cpl
    then (rt, false)
    else elim (refresh peer (bucket_of rt cpl)) [
      | some bucket ↦ (record rt { buckets = set rt.buckets cpl bucket }, true)
      | none ↦ add_new rt peer source cpl checked recorded
    ]

-- The first peer of a bucket with the address goes; `none` if there is none.
unfoldable pub remove_from : Bytes → List PeerInfo → Option (List PeerInfo)
remove_from addr [] = none
remove_from addr (p ∷ ps) =
    let rest = remove_from addr ps in
    if bytes_eq p.address addr then some ps else elim rest [ none ↦ none | some qs ↦ some (p ∷ qs) ]

-- A loop over the buckets that stops at the first one in which `f` finds something.
unfoldable pub first_bucket {ℓ} :
    {A : Type ℓ}
    → (List PeerInfo → Option (List PeerInfo × A))
    → List (List PeerInfo)
    → Option (List (List PeerInfo) × A)
first_bucket f [] = none
first_bucket f (b ∷ bs) =
    let rest = first_bucket f bs in
    elim (f b) [
      | some (b', a) ↦ some (b' ∷ bs, a)
      | none ↦ elim rest [ none ↦ none | some (bs', a) ↦ some (b ∷ bs', a) ]
    ]

unfoldable pub remove_peer : RoutingTable → Bytes → RoutingTable × Bool
unfolding remove_from first_bucket
remove_peer rt addr =
    let drop_in : List PeerInfo → Option (List PeerInfo × Unit {0}) =
      λ b. elim (remove_from addr b) [ none ↦ none | some b' ↦ some (b', tt) ] in
    elim (first_bucket drop_in rt.buckets) [
      | none ↦ (rt, false)
      | some (bs, _) ↦ (record rt { buckets = bs }, true)
    ]

-- `now.Sub(p.LastSeen) > maxAge`, and a zero `LastSeen` is ancient.
unfoldable pub is_stale : ℕ → ℕ → PeerInfo → Bool
is_stale now max_age p = elim p.last_seen [
  | none ↦ true
  | some t ↦ ltb 0 max_age && ltb max_age (now - t)
]

-- One bucket of `Evict` and of `EvictByFailures`: the kept peers and the dropped ones.
unfoldable pub partition : (PeerInfo → Bool) → List PeerInfo → List PeerInfo × List PeerInfo
partition drop [] = ([], [])
partition drop (p ∷ ps) =
    let rest = partition drop ps in if drop p then (rest.0, p ∷ rest.1) else (p ∷ rest.0, rest.1)

unfoldable pub partition_all :
    (PeerInfo → Bool) → List (List PeerInfo) → List (List PeerInfo) × List PeerInfo
unfolding partition
partition_all drop [] = ([], [])
partition_all drop (b ∷ bs) =
    let (kept, dropped) = partition drop b in
    let rest = partition_all drop bs in (kept ∷ rest.0, dropped ++ rest.1)

unfoldable pub evict : RoutingTable → ℕ → ℕ → RoutingTable × ℕ
unfolding is_stale partition_all
evict rt now max_age =
    let split = partition_all (is_stale now max_age) rt.buckets in
    (record rt { buckets = split.0 }, length split.1)

-- `none` is the pass switched off: the slice is nil and the table untouched.
unfoldable pub evict_by_failures : RoutingTable → ℕ → RoutingTable × List PeerInfo
unfolding partition_all
evict_by_failures rt threshold =
    let split = partition_all (λ p. leb threshold p.failures) rt.buckets in
    if threshold == 0 then (rt, []) else (record rt { buckets = split.0 }, split.1)

-- The first peer of a bucket with the onion address gets a new failure count.
unfoldable pub count_in : (ℕ → ℕ) → Bytes → List PeerInfo → Option (List PeerInfo × ℕ)
count_in f onion [] = none
count_in f onion (p ∷ ps) =
    let rest = count_in f onion ps in
    if bytes_eq p.onion_addr onion
    then some (record p { failures = f p.failures } ∷ ps, f p.failures)
    else elim rest [ none ↦ none | some (qs, n) ↦ some (p ∷ qs, n) ]

unfoldable pub record_failure : RoutingTable → Bytes → RoutingTable × ℕ
unfolding count_in first_bucket
record_failure rt onion = elim (first_bucket (count_in suc onion) rt.buckets) [
  | none ↦ (rt, 0)
  | some (bs, n) ↦ (record rt { buckets = bs }, n)
]

unfoldable pub record_success : RoutingTable → Bytes → RoutingTable
unfolding count_in first_bucket
record_success rt onion = elim (first_bucket (count_in (λ _. 0) onion) rt.buckets) [
  | none ↦ rt
  | some (bs, n) ↦ record rt { buckets = bs }
]

unfoldable pub all_peers_of : List (List PeerInfo) → List PeerInfo
all_peers_of [] = []
all_peers_of (b ∷ bs) = b ++ all_peers_of bs

unfoldable pub all_peers : RoutingTable → List PeerInfo
unfolding all_peers_of
all_peers rt = all_peers_of rt.buckets

unfoldable pub size_of : List (List PeerInfo) → ℕ
size_of [] = 0
size_of (b ∷ bs) = length b + size_of bs

unfoldable pub size : RoutingTable → ℕ
unfolding size_of
size rt = size_of rt.buckets

-- The `less` function of `FindClosest`.
unfoldable pub nearer : NodeId → PeerInfo → PeerInfo → Bool
nearer target p q = elim (compare_dist (distance p.id target) (distance q.id target)) [
  | Ordering.lt ↦ true
  | _ ↦ false
]

-- `sort.Slice` by a `less` function, as an insertion sort.
unfoldable pub insert_by : (PeerInfo → PeerInfo → Bool) → PeerInfo → List PeerInfo → List PeerInfo
insert_by less p [] = p ∷ []
insert_by less p (q ∷ qs) =
    let rest = insert_by less p qs in if less q p then q ∷ rest else p ∷ q ∷ qs

unfoldable pub sort_by : (PeerInfo → PeerInfo → Bool) → List PeerInfo → List PeerInfo
unfolding insert_by
sort_by less [] = []
sort_by less (p ∷ ps) = insert_by less p (sort_by less ps)

unfoldable pub find_closest : RoutingTable → NodeId → ℕ → List PeerInfo
unfolding all_peers nearer sort_by
find_closest rt target count = take count (sort_by (nearer target) (all_peers rt))

-- The `less` function of `Load`: `peers[i].LastSeen.After(peers[j].LastSeen)`.
unfoldable pub seen_later : PeerInfo → PeerInfo → Bool
seen_later p q = elim p.last_seen [
  | none ↦ false
  | some t ↦ elim q.last_seen [ none ↦ true | some u ↦ ltb u t ]
]

unfoldable pub load_peer : RoutingTable → PeerInfo → RoutingTable
load_peer rt p =
    let cpl = common_prefix_len rt.local_id p.id in
    let bucket = bucket_of rt cpl in
    if bytes_eq p.id rt.local_id
    then rt
    else if leb num_buckets cpl
    then rt
    else if ltb (length bucket) bucket_size
    then record rt { buckets = set rt.buckets cpl (bucket ++ p ∷ []) }
    else rt

unfoldable pub load_all : RoutingTable → List PeerInfo → RoutingTable
unfolding load_peer
load_all rt [] = rt
load_all rt (p ∷ ps) = load_all (load_peer rt p) ps

-- `Load` once the file is read and decoded into a list of peers.
unfoldable pub load : RoutingTable → List PeerInfo → RoutingTable
unfolding load_all seen_later sort_by
load rt peers = load_all rt (sort_by seen_later peers)
