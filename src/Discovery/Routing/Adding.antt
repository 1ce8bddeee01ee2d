-- ===== src/Discovery/Routing/Adding.antt =====
-- What `AddPeer` does to the peers of the table.
use mathlib.Core.List.{Perm, perm_append_comm}
use mathlib.Core.List.Perm
use ensemble.Common.{
  ℕ, zero, suc, ◌≤◌, ◌<◌, ◌≡◌, ◌⊎◌, refl, sym, subst, true, false, some, List, [], ◌∷◌, ◌++◌,
  append_assoc, length, get_or, set, ltb, leb, bytes_eq, bytes_eq_iff, Bool-cases, Option-cases,
  inl, inr, arith,
}
use ensemble.Discovery.NodeId.{NodeId, num_buckets, common_prefix_len}
use ensemble.Discovery.Routing.{
  PeerInfo, RoutingTable, bucket_size, bucket_of, check_rate_limit, refresh, add_new, add_peer,
  all_peers, all_peers_of, record_insertion,
}
use ensemble.Discovery.Routing.Buckets.{All}
use ensemble.Discovery.Routing.Invariant.{IsTable}

-- `after` holds the peers of `before`, but for at most one of the identifier of `peer`, and one
-- more, which has that identifier and what `peer` says of the onion address and the last sight.
pub record Stored (peer : PeerInfo) (before after : List PeerInfo) : Type 0 where
  pub old : List PeerInfo
  pub stored : PeerInfo
  pub kept : List PeerInfo
  pub was : Perm before (old ++ kept)
  pub now : Perm after (stored ∷ kept)
  pub old_single : length old ≤ 1
  pub old_id : All (λ p. p.id ≡ peer.id) old
  pub stored_id : stored.id ≡ peer.id
  pub stored_onion : stored.onion_addr ≡ peer.onion_addr
  pub stored_seen : stored.last_seen ≡ peer.last_seen

Perm_last : (p : PeerInfo) (ps : List PeerInfo) → Perm (ps ++ p ∷ []) (p ∷ ps)
Perm_last p ps = perm_append_comm ps (p ∷ [])

Stored-within :
    (peer : PeerInfo) (others : List PeerInfo) {b b' ps ps' : List PeerInfo}
    → Stored peer b b'
    → Perm ps (b ++ others)
    → Perm ps' (b' ++ others)
    → Stored peer ps ps'
Stored-within peer others {b} {b'} {ps} s p p' = record {
  old = s.old;
  stored = s.stored;
  kept = s.kept ++ others;
  was =
      subst (Perm ps) (append_assoc s.old s.kept others)
        (Perm.trans p (Perm.append_right others s.was));
  now = Perm.trans p' (Perm.append_right others s.now);
  old_single = s.old_single;
  old_id = s.old_id;
  stored_id = s.stored_id;
  stored_onion = s.stored_onion;
  stored_seen = s.stored_seen;
}

refresh-Stored :
    (peer : PeerInfo) (b b' : List PeerInfo) → refresh peer b ≡ some b' → Stored peer b b'
unfolding refresh
refresh-Stored peer [] b' e = absurd (cc)
refresh-Stored peer (p ∷ ps) b' e = elim (Bool-cases (bytes_eq p.id peer.id)) [
  | inl hit ↦
      let new : PeerInfo = record p { last_seen = peer.last_seen; onion_addr = peer.onion_addr } in
      let same : ps ++ new ∷ [] ≡ b' = ground arith in
      let ids : p.id ≡ peer.id = (bytes_eq_iff p.id peer.id).0 hit in
      record {
        old = p ∷ [];
        stored = new;
        kept = ps;
        was = Perm.refl (p ∷ ps);
        now = subst (λ x. Perm x (new ∷ ps)) same (Perm_last new ps);
        old_single = omega arith;
        old_id = (ids, tt);
        stored_id = ids;
        stored_onion = refl;
        stored_seen = refl;
      }
  | inr miss ↦ elim (Option-cases (refresh peer ps)) [
    | inl r ↦ absurd (ground arith)
    | inr (qs, r) ↦
        let same : p ∷ qs ≡ b' = ground arith in
        let ih = refresh-Stored peer ps qs r in
        Stored-within peer (p ∷ []) ih (Perm.symm (Perm_last p ps))
          (subst (λ x. Perm x (qs ++ p ∷ [])) same (Perm.symm (Perm_last p qs)))
  ]
]

append-Stored : (peer : PeerInfo) (b : List PeerInfo) → Stored peer b (b ++ peer ∷ [])
append-Stored peer b = record {
  old = [];
  stored = peer;
  kept = b;
  was = Perm.refl b;
  now = Perm_last peer b;
  old_single = omega arith;
  old_id = tt;
  stored_id = refl;
  stored_onion = refl;
  stored_seen = refl;
}

-- The peers outside bucket `i`.
others_of : ℕ → List (List PeerInfo) → List PeerInfo
others_of i [] = []
others_of zero (b ∷ bs) = all_peers_of bs
others_of (suc i) (b ∷ bs) = b ++ others_of i bs

Perm_front : (a b c d : List PeerInfo) → Perm d (b ++ c) → Perm (a ++ d) (b ++ (a ++ c))
Perm_front a b c d p = subst (Perm (a ++ d)) (append_assoc b a c) (
    Perm.trans (subst (Perm (a ++ d)) (sym (append_assoc a b c)) (Perm.append_left a p))
      (Perm.append_right c (perm_append_comm a b)))

all_peers_of-others_of :
    (i : ℕ) (bs : List (List PeerInfo)) → Perm (all_peers_of bs) (get_or bs i [] ++ others_of i bs)
unfolding all_peers_of others_of
all_peers_of-others_of i [] = Perm.nil
all_peers_of-others_of zero (b ∷ bs) = Perm.refl (b ++ all_peers_of bs)
all_peers_of-others_of (suc i) (b ∷ bs) =
    Perm_front b (get_or bs i []) (others_of i bs) (all_peers_of bs) (all_peers_of-others_of i bs)

all_peers_of-set :
    (i : ℕ) (bs : List (List PeerInfo)) (b' : List PeerInfo)
    → i < length bs
    → Perm (all_peers_of (set bs i b')) (b' ++ others_of i bs)
unfolding all_peers_of others_of
all_peers_of-set i [] b' p = elim p [ ]
all_peers_of-set zero (b ∷ bs) b' p = Perm.refl (b' ++ all_peers_of bs)
all_peers_of-set (suc i) (b ∷ bs) b' p =
    Perm_front b b' (others_of i bs) (all_peers_of (set bs i b'))
      (all_peers_of-set i bs b' (omega arith))

set-Stored :
    (peer : PeerInfo) (i : ℕ) (bs : List (List PeerInfo)) (b' : List PeerInfo)
    → i < length bs
    → Stored peer (get_or bs i []) b'
    → Stored peer (all_peers_of bs) (all_peers_of (set bs i b'))
set-Stored peer i bs b' p s =
    Stored-within peer (others_of i bs) s (all_peers_of-others_of i bs) (all_peers_of-set i bs b' p)

add_new-Stored :
    (rt : RoutingTable) (peer : PeerInfo) (source : NodeId) (i checked recorded : ℕ)
    → i < length rt.buckets
    → (add_new rt peer source i checked recorded ≡ (rt, false))
      ⊎ (((add_new rt peer source i checked recorded).1 ≡ true)
          × Stored peer (all_peers rt) (all_peers (add_new rt peer source i checked recorded).0))
unfolding add_new all_peers record_insertion
add_new-Stored rt peer source i checked recorded p =
    let bucket = bucket_of rt i in
    elim (Bool-cases (check_rate_limit rt checked source)) [
      | inr over ↦ inl (rw (over, add_new))
      | inl allowed ↦ elim (Bool-cases (ltb (length bucket) bucket_size)) [
        | inr full ↦ inl (rw (allowed, full, add_new))
        | inl room ↦ inr (
            rw (allowed, room, add_new)
              (
                refl,
                set-Stored peer i rt.buckets (bucket ++ peer ∷ []) p (append-Stored peer bucket),
              ))
      ]
    ]

-- `AddPeer` on a well-formed table either refuses the peer and leaves the table as it was, or
-- stores it: the table then holds one peer with its identifier, onion address and last sight, no
-- longer the one it may have held under this identifier, and of the others exactly those it held.
pub add_peer_lem :
    (rt : RoutingTable) (peer : PeerInfo) (source : NodeId) (checked recorded : ℕ)
    → IsTable rt
    → (add_peer rt peer source checked recorded ≡ (rt, false))
      ⊎ (((add_peer rt peer source checked recorded).1 ≡ true)
          × Stored peer (all_peers rt) (all_peers (add_peer rt peer source checked recorded).0))
unfolding add_peer all_peers
add_peer_lem rt peer source checked recorded v =
    let cpl = common_prefix_len rt.local_id peer.id in
    elim (Bool-cases (bytes_eq peer.id rt.local_id)) [
      | inl own ↦ inl (rw (own, add_peer))
      | inr foreign ↦ elim (Bool-cases (leb num_buckets cpl)) [
        | inl out ↦ inl (rw (foreign, out, add_peer))
        | inr within ↦
            let within_buckets : cpl < length rt.buckets = ground (arith, v.counted) in
            elim (Option-cases (refresh peer (bucket_of rt cpl))) [
              | inr (b', r) ↦ inr (
                  rw (foreign, within, r, add_peer)
                    (
                      refl,
                      set-Stored peer cpl rt.buckets b' within_buckets
                          (refresh-Stored peer (bucket_of rt cpl) b' r),
                    ))
              | inl r ↦
                  rw (foreign, within, r, add_peer)
                    (add_new-Stored rt peer source cpl checked recorded within_buckets)
            ]
      ]
    ]
