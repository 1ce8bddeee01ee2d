-- ===== src/Discovery/Routing/Eviction.antt =====
-- What `Evict` and `EvictByFailures` drop.
use mathlib.Core.List.{Perm, perm_middle, perm_append_comm}
use mathlib.Core.List.Perm
use ensemble.Common.{
  ℕ, ◌+◌, ◌≤◌, ◌<◌, ◌≡◌, refl, sym, subst, Bool, true, false, none, some, Option-cases, List, [],
  ◌∷◌, ◌++◌, append_assoc, length, leb, ◌==◌, Bool-cases, inl, inr, arith,
}
use ensemble.Discovery.Routing.{
  PeerInfo, RoutingTable, is_stale, partition, partition_all, evict, evict_by_failures, all_peers,
  all_peers_of,
}
use ensemble.Discovery.Routing.Buckets.{All, All-append}

-- `kept` and `dropped` are together the peers of `ps`, the kept in their old order, and `drop` is
-- false on the kept and true on the dropped.
pub record Split (drop : PeerInfo → Bool) (ps kept dropped : List PeerInfo) : Type 0 where
  pub whole : Perm ps (kept ++ dropped)
  pub kept_false : All (λ p. drop p ≡ false) kept
  pub dropped_true : All (λ p. drop p ≡ true) dropped

partition-Split :
    (drop : PeerInfo → Bool) (ps : List PeerInfo)
    → Split drop ps (partition drop ps).0 (partition drop ps).1
unfolding partition
partition-Split drop [] = record { whole = Perm.nil; kept_false = tt; dropped_true = tt }
partition-Split drop (p ∷ ps) =
    let ih = partition-Split drop ps in
    let (kept, dropped) = partition drop ps in
    elim (Bool-cases (drop p)) [
      | inl e ↦
          rw (e, partition)
            (record {
              whole = Perm.trans (Perm.cons p ih.whole) (Perm.symm (perm_middle kept dropped));
              kept_false = ih.kept_false;
              dropped_true = (e, ih.dropped_true);
            })
      | inr e ↦
          rw (e, partition)
            (record {
              whole = Perm.cons p ih.whole;
              kept_false = (e, ih.kept_false);
              dropped_true = ih.dropped_true;
            })
    ]

Perm-interchange : (a b c d : List PeerInfo) → Perm ((a ++ b) ++ (c ++ d)) ((a ++ c) ++ (b ++ d))
Perm-interchange a b c d =
    let inner : Perm (b ++ (c ++ d)) (c ++ (b ++ d)) =
      subst (λ x. Perm x (c ++ (b ++ d))) (append_assoc b c d)
        (subst (Perm ((b ++ c) ++ d)) (append_assoc c b d)
          (Perm.append_right d (perm_append_comm b c))) in
    subst (λ x. Perm x ((a ++ c) ++ (b ++ d))) (sym (append_assoc a b (c ++ d)))
      (subst (Perm (a ++ (b ++ (c ++ d)))) (sym (append_assoc a c (b ++ d)))
        (Perm.append_left a inner))

partition_all-Split :
    (drop : PeerInfo → Bool) (bs : List (List PeerInfo))
    → Split drop
        (all_peers_of bs)
        (all_peers_of (partition_all drop bs).0)
        (partition_all drop bs).1
unfolding partition_all all_peers_of
partition_all-Split drop [] = record { whole = Perm.nil; kept_false = tt; dropped_true = tt }
partition_all-Split drop (b ∷ bs) =
    let ih = partition_all-Split drop bs in
    let here = partition-Split drop b in
    let (kept, dropped) = partition drop b in
    let (all_kept, all_dropped) = partition_all drop bs in
    record {
      whole =
          Perm.trans (Perm.append here.whole ih.whole)
            (Perm-interchange kept dropped (all_peers_of all_kept) all_dropped);
      kept_false = All-append _ kept (all_peers_of all_kept) here.kept_false ih.kept_false;
      dropped_true = All-append _ dropped all_dropped here.dropped_true ih.dropped_true;
    }

-- Without a time, or last seen longer ago than a maximal age that is not 0.
pub data IsAncient (now max_age : ℕ) (p : PeerInfo) : Type 0 where
  undated : p.last_seen ≡ none → IsAncient now max_age p
  outdated :
      (t : ℕ) → p.last_seen ≡ some t → 0 < max_age → t + max_age < now → IsAncient now max_age p

-- Last seen at most the maximal age ago, or at some time if that is 0.
pub data IsRecent (now max_age : ℕ) (p : PeerInfo) : Type 0 where
  unlimited : (t : ℕ) → p.last_seen ≡ some t → max_age ≡ 0 → IsRecent now max_age p
  within : (t : ℕ) → p.last_seen ≡ some t → now ≤ t + max_age → IsRecent now max_age p

is_stale-IsAncient :
    (now max_age : ℕ) (p : PeerInfo) → is_stale now max_age p ≡ true → IsAncient now max_age p
unfolding is_stale
is_stale-IsAncient now max_age p e = elim (Option-cases p.last_seen) [
  | inl never ↦ undated never
  | inr (t, seen) ↦ outdated t seen (ground arith) (ground arith)
]

is_stale-IsRecent :
    (now max_age : ℕ) (p : PeerInfo) → is_stale now max_age p ≡ false → IsRecent now max_age p
unfolding is_stale
is_stale-IsRecent now max_age p e = elim (Option-cases p.last_seen) [
  | inl never ↦ absurd (ground arith)
  | inr (t, seen) ↦ elim (Bool-cases (max_age == 0)) [
    | inl off ↦ unlimited t seen (ground arith)
    | inr on ↦ within t seen (ground arith)
  ]
]

All-map :
    {P Q : PeerInfo → Type 0} (ps : List PeerInfo)
    → ((p : PeerInfo) → P p → Q p)
    → All P ps
    → All Q ps
All-map [] f v = tt
All-map (p ∷ ps) f v = (f p v.0, All-map ps f v.1)

-- The peers are the kept ones, all recent, and the dropped ones, all ancient.
pub record Evicted (now max_age : ℕ) (ps kept dropped : List PeerInfo) : Type 0 where
  pub whole : Perm ps (kept ++ dropped)
  pub recent : All (IsRecent now max_age) kept
  pub ancient : All (IsAncient now max_age) dropped

-- `Evict` at a reading `now` of the clock: the peers of the table are those of the new one, each
-- last seen at most the maximal age before `now`, or at any time if this age is 0, and others, each
-- without a time or last seen longer before; it returns the number of these.
pub evict_lem :
    (rt : RoutingTable) (now max_age : ℕ)
    → (dropped : List PeerInfo) × Evicted now max_age
        (all_peers rt)
        (all_peers (evict rt now max_age).0)
        dropped
      × ((evict rt now max_age).1 ≡ length dropped)
unfolding evict all_peers
evict_lem rt now max_age =
    let split = partition_all-Split (is_stale now max_age) rt.buckets in
    let (buckets, dropped) = partition_all (is_stale now max_age) rt.buckets in
    (
      dropped,
      record {
        whole = split.whole;
        recent = All-map (all_peers_of buckets) (is_stale-IsRecent now max_age) split.kept_false;
        ancient = All-map dropped (is_stale-IsAncient now max_age) split.dropped_true;
      },
      refl,
    )

-- With a threshold above 0, `EvictByFailures` keeps the peers whose failures are below it and
-- returns all the others.
pub evict_by_failures_lem :
    (rt : RoutingTable) (threshold : ℕ)
    → 0 < threshold
    → Split
        (λ p. leb threshold p.failures)
        (all_peers rt)
        (all_peers (evict_by_failures rt threshold).0)
        (evict_by_failures rt threshold).1
unfolding evict_by_failures all_peers
evict_by_failures_lem rt threshold pos =
    let drop : PeerInfo → Bool = λ p. leb threshold p.failures in
    elim (Bool-cases (threshold == 0)) [
      | inl off ↦ absurd (ground arith)
      | inr on ↦ rw (on, evict_by_failures) (partition_all-Split drop rt.buckets)
    ]
