-- ===== src/Tests/Peers.antt =====
-- A small table of peers around the identifier of zeros.
use Prim.Native.Nat.{Ordering, min}
use mathlib.Core.List.{Perm}
use ensemble.Common.{
  ℕ, ◌<◌, ◌≡◌, ◌⊎◌, refl, true, false, some, List, [], ◌∷◌, ◌++◌, length, replicate, arith,
}
use ensemble.Discovery.NodeId.{NodeId, IsNodeId, distance, common_prefix_len, compare_dist}
use ensemble.Discovery.NodeId.Prefix.{common_prefix_len-compare_dist}
use ensemble.Discovery.Routing.{
  PeerInfo, RoutingTable, new_routing_table, add_peer, evict, all_peers, find_closest,
}
use ensemble.Discovery.Routing.Invariant.{IsTable, new_routing_table-IsTable, Call, after_calls}
use ensemble.Discovery.Routing.Limits.{IsLimited, new_routing_table-limits}
use ensemble.Discovery.Routing.Adding.{Stored, add_peer_lem}
use ensemble.Discovery.Routing.{load}
use ensemble.Discovery.Routing.Loading.{load-after_calls}
use ensemble.Common.{bytes_eq}
use ensemble.Discovery.Routing.Eviction.{Evicted, evict_lem}
use ensemble.Discovery.Routing.Closest.{IsSorted, AllNearer, find_closest_lem}

-- The identifier whose first byte is given and whose others are 0.
abbrev id_of : ℕ → NodeId
id_of b = b ∷ replicate 19 0

id_of-IsNodeId : (b : ℕ) → b < 256 → IsNodeId (id_of b)
id_of-IsNodeId b p = record {
  size = refl;
  bytes = (
    p,
    (
      z,
      (z, (z, (z, (z, (z, (z, (z, (z, (z, (z, (z, (z, (z, (z, (z, (z, (z, (z, tt)))))))))))))))))),
    ),
  );
}
  where
    z : 0 < 256
    z = omega arith

abbrev peer_of : ℕ → ℕ → PeerInfo
peer_of b seen = record {
  id = id_of b;
  address = b ∷ [];
  onion_addr = b ∷ [];
  last_seen = some seen;
  failures = b;
}

abbrev calls : List Call
calls =
    Call.add (peer_of 1 5) (id_of 9) 5 5
    ∷ Call.add (peer_of 200 7) (id_of 9) 6 7
    ∷ Call.add (peer_of 1 8) (id_of 9) 8 9
    ∷ Call.fails (1 ∷ [])
    ∷ []

abbrev table : RoutingTable
unfolding new_routing_table
table = record (new_routing_table (id_of 0)) {
  buckets = (peer_of 200 7 ∷ []) ∷ (peer_of 64 5 ∷ peer_of 65 3 ∷ []) ∷ replicate 158 [];
}

load-after_calls_example :
    IsTable
      (after_calls (load (new_routing_table (id_of 0)) (peer_of 64 5 ∷ peer_of 65 3 ∷ [])) calls)
unfolding bytes_eq
load-after_calls_example =
    load-after_calls (id_of 0) (peer_of 64 5 ∷ peer_of 65 3 ∷ []) calls ((refl, tt), (tt, tt))

new_routing_table-limits_example : IsLimited (after_calls (new_routing_table (id_of 0)) calls)
new_routing_table-limits_example =
    new_routing_table-limits (id_of 0) calls (omega arith, (omega arith, (omega arith, (tt, tt))))

add_peer_lem_example :
    (add_peer (new_routing_table (id_of 0)) (peer_of 1 5) (id_of 9) 5 5
      ≡ (new_routing_table (id_of 0), false))
    ⊎ (((add_peer (new_routing_table (id_of 0)) (peer_of 1 5) (id_of 9) 5 5).1 ≡ true)
        × Stored
            (peer_of 1 5)
            (all_peers (new_routing_table (id_of 0)))
            (all_peers (add_peer (new_routing_table (id_of 0)) (peer_of 1 5) (id_of 9) 5 5).0))
add_peer_lem_example =
    add_peer_lem (new_routing_table (id_of 0)) (peer_of 1 5) (id_of 9) 5 5
      (new_routing_table-IsTable (id_of 0))

evict_lem_example :
    (dropped : List PeerInfo) × Evicted 100 95
      (all_peers table)
      (all_peers (evict table 100 95).0)
      dropped
    × ((evict table 100 95).1 ≡ length dropped)
evict_lem_example = evict_lem table 100 95

common_prefix_len-compare_dist_example :
    compare_dist (distance (id_of 0) (id_of 1)) (distance (id_of 0) (id_of 200)) ≡ Ordering.lt
unfolding common_prefix_len
common_prefix_len-compare_dist_example =
    common_prefix_len-compare_dist (id_of 0) (id_of 200) (id_of 1) (id_of-IsNodeId 0 (omega arith))
      (id_of-IsNodeId 200 (omega arith)) (id_of-IsNodeId 1 (omega arith)) (omega arith)

find_closest_lem_example :
    (rest : List PeerInfo) × Perm (find_closest table (id_of 3) 1 ++ rest) (all_peers table)
    × (length (find_closest table (id_of 3) 1) ≡ min 1 (length (all_peers table)))
    × IsSorted (id_of 3) (find_closest table (id_of 3) 1)
    × AllNearer (id_of 3) (find_closest table (id_of 3) 1) rest
unfolding all_peers table
find_closest_lem_example = find_closest_lem table (id_of 3) 1 (refl, (refl, (refl, tt)))
