-- ===== src/Discovery/Routing/Closest.antt =====
-- What `FindClosest` returns.
use Prim.Native.Nat.{Ordering, min}
use mathlib.Core.List.{Perm}
use mathlib.Core.List.Perm
use ensemble.Common.{
  ℕ, zero, suc, ◌≡◌, ◌≢◌, refl, sym, ap, subst, ◌∙◌, Bool, true, false, List, [], ◌∷◌, ◌++◌, length,
  length-take, take, drop, take-append-drop, Bool-cases, inl, inr, arith,
}
use ensemble.Discovery.NodeId.{NodeId, distance, compare_dist}
use ensemble.Discovery.NodeId.Order.{compare_dist_trans, compare_dist_total, length-distance}
use ensemble.Discovery.Routing.{
  PeerInfo, RoutingTable, all_peers, nearer, insert_by, sort_by, find_closest,
}
use ensemble.Discovery.Routing.Buckets.{All}

-- `p` is at least as near to the target as `q`.
abbrev pub Near : NodeId → PeerInfo → PeerInfo → Type 0
Near target p q = compare_dist (distance p.id target) (distance q.id target) ≢ Ordering.gt

-- Nearest first.
abbrev pub IsSorted : NodeId → List PeerInfo → Type 0
IsSorted target [] = Unit
IsSorted target (p ∷ ps) = All (Near target p) ps × IsSorted target ps

-- The identifiers have the target's length.
abbrev pub Comparable : NodeId → List PeerInfo → Type 0
Comparable target = All (λ p. length p.id ≡ length target)

insert_by-perm :
    (less : PeerInfo → PeerInfo → Bool) (p : PeerInfo) (qs : List PeerInfo)
    → Perm (insert_by less p qs) (p ∷ qs)
unfolding insert_by
insert_by-perm less p [] = Perm.refl (p ∷ [])
insert_by-perm less p (q ∷ qs) = elim (Bool-cases (less q p)) [
  | inl e ↦
      rw (e, insert_by) (Perm.trans (Perm.cons q (insert_by-perm less p qs)) (Perm.swap p q qs))
  | inr e ↦ rw (e, insert_by) (Perm.refl (p ∷ q ∷ qs))
]

length-insert_by :
    (less : PeerInfo → PeerInfo → Bool) (p : PeerInfo) (qs : List PeerInfo)
    → length (insert_by less p qs) ≡ suc (length qs)
unfolding insert_by
length-insert_by less p [] = refl
length-insert_by less p (q ∷ qs) = elim (Bool-cases (less q p)) [
  | inl e ↦ rw (e, insert_by) (ap suc (length-insert_by less p qs))
  | inr e ↦ rw (e, insert_by)
]

length-sort_by :
    (less : PeerInfo → PeerInfo → Bool) (ps : List PeerInfo) → length (sort_by less ps) ≡ length ps
unfolding sort_by
length-sort_by less [] = refl
length-sort_by less (p ∷ ps) =
    length-insert_by less p (sort_by less ps) ∙ ap suc (length-sort_by less ps)

sort_by-perm : (less : PeerInfo → PeerInfo → Bool) (ps : List PeerInfo) → Perm (sort_by less ps) ps
unfolding sort_by
sort_by-perm less [] = Perm.nil
sort_by-perm less (p ∷ ps) =
    Perm.trans (insert_by-perm less p (sort_by less ps)) (Perm.cons p (sort_by-perm less ps))

pub insert_by-All {κ} :
    (P : PeerInfo → Type κ) (less : PeerInfo → PeerInfo → Bool) (p : PeerInfo) (qs : List PeerInfo)
    → P p
    → All P qs
    → All P (insert_by less p qs)
unfolding insert_by
insert_by-All P less p [] h t = (h, t)
insert_by-All P less p (q ∷ qs) h t = elim (Bool-cases (less q p)) [
  | inl e ↦ rw (e, insert_by) (t.0, insert_by-All P less p qs h t.1)
  | inr e ↦ rw (e, insert_by) (h, t)
]

pub sort_by-All {κ} :
    (P : PeerInfo → Type κ) (less : PeerInfo → PeerInfo → Bool) (ps : List PeerInfo)
    → All P ps
    → All P (sort_by less ps)
unfolding sort_by
sort_by-All P less [] a = tt
sort_by-All P less (p ∷ ps) a =
    insert_by-All P less p (sort_by less ps) a.0 (sort_by-All P less ps a.1)

Near-trans :
    (target : NodeId) (p q r : PeerInfo)
    → length p.id ≡ length target
    → length q.id ≡ length target
    → length r.id ≡ length target
    → Near target p q
    → Near target q r
    → Near target p r
Near-trans target p q r n m k a b =
    compare_dist_trans (distance p.id target) (distance q.id target) (distance r.id target)
      (omega (arith, length-distance p.id target n, length-distance q.id target m))
      (omega (arith, length-distance q.id target m, length-distance r.id target k)) a b

Near-All :
    (target : NodeId) (p q : PeerInfo) (ps : List PeerInfo)
    → length p.id ≡ length target
    → length q.id ≡ length target
    → Comparable target ps
    → Near target p q
    → All (Near target q) ps
    → All (Near target p) ps
Near-All target p q [] n m k a b = tt
Near-All target p q (r ∷ ps) n m k a b =
    (Near-trans target p q r n m k.0 a b.0, Near-All target p q ps n m k.1 a b.1)

nearer-Near : (target : NodeId) (p q : PeerInfo) → nearer target p q ≡ true → Near target p q
unfolding nearer
nearer-Near target p q e = λ g. ground arith

not_nearer-Near :
    (target : NodeId) (p q : PeerInfo)
    → length p.id ≡ length target
    → length q.id ≡ length target
    → nearer target q p ≡ false
    → Near target p q
unfolding nearer
not_nearer-Near target p q n m e = λ g.
    let total =
      compare_dist_total (distance p.id target) (distance q.id target)
        (omega (arith, length-distance p.id target n, length-distance q.id target m)) g in
    ground arith

insert_by-IsSorted :
    (target : NodeId) (p : PeerInfo) (qs : List PeerInfo)
    → length p.id ≡ length target
    → Comparable target qs
    → IsSorted target qs
    → IsSorted target (insert_by (nearer target) p qs)
unfolding insert_by
insert_by-IsSorted target p [] n c s = (tt, tt)
insert_by-IsSorted target p (q ∷ qs) n c s = elim (Bool-cases (nearer target q p)) [
  | inl e ↦
      rw (e, insert_by)
        (
          insert_by-All (Near target q) (nearer target) p qs (nearer-Near target q p e) s.0,
          insert_by-IsSorted target p qs n c.1 s.1,
        )
  | inr e ↦
      let near = not_nearer-Near target p q n c.0 e in
      rw (e, insert_by) ((near, Near-All target p q qs n c.0 c.1 near s.0), s)
]

sort_by-IsSorted :
    (target : NodeId) (ps : List PeerInfo)
    → Comparable target ps
    → IsSorted target (sort_by (nearer target) ps)
unfolding sort_by
sort_by-IsSorted target [] c = tt
sort_by-IsSorted target (p ∷ ps) c =
    insert_by-IsSorted target p (sort_by (nearer target) ps) c.0
      (sort_by-All (λ q. length q.id ≡ length target) (nearer target) ps c.1)
      (sort_by-IsSorted target ps c.1)

-- Every element of the first list is at least as near as every one of the second.
abbrev pub AllNearer : NodeId → List PeerInfo → List PeerInfo → Type 0
AllNearer target ps rest = All (λ p. All (Near target p) rest) ps

All-split {κ} : (P : PeerInfo → Type κ) (n : ℕ) (ps : List PeerInfo) → All P ps → All P (drop n ps)
All-split P zero ps a = a
All-split P (suc n) [] a = tt
All-split P (suc n) (p ∷ ps) a = All-split P n ps a.1

All-take {κ} : (P : PeerInfo → Type κ) (n : ℕ) (ps : List PeerInfo) → All P ps → All P (take n ps)
All-take P zero ps a = tt
All-take P (suc n) [] a = tt
All-take P (suc n) (p ∷ ps) a = (a.0, All-take P n ps a.1)

take-IsSorted :
    (target : NodeId) (n : ℕ) (ps : List PeerInfo)
    → IsSorted target ps
    → IsSorted target (take n ps) × AllNearer target (take n ps) (drop n ps)
take-IsSorted target zero ps s = (tt, tt)
take-IsSorted target (suc n) [] s = (tt, tt)
take-IsSorted target (suc n) (p ∷ ps) s =
    let (sorted, near) = take-IsSorted target n ps s.1 in
    ((All-take (Near target p) n ps s.0, sorted), (All-split (Near target p) n ps s.0, near))

-- The peers of the table whose identifiers have the target's length are, up to order, those that
-- `FindClosest` returns and a rest: the returned are the smaller of `count` and all the peers in
-- number, nearest first, and none of the rest is nearer than one of them.
pub find_closest_lem :
    (rt : RoutingTable) (target : NodeId) (count : ℕ)
    → Comparable target (all_peers rt)
    → (rest : List PeerInfo) × Perm (find_closest rt target count ++ rest) (all_peers rt)
      × (length (find_closest rt target count) ≡ min count (length (all_peers rt)))
      × IsSorted target (find_closest rt target count)
      × AllNearer target (find_closest rt target count) rest
unfolding find_closest
find_closest_lem rt target count c =
    let sorted = sort_by (nearer target) (all_peers rt) in
    let (s, near) = take-IsSorted target count sorted (sort_by-IsSorted target (all_peers rt) c) in
    (
      drop count sorted,
      subst (λ xs. Perm xs (all_peers rt)) (sym (take-append-drop count sorted))
          (sort_by-perm (nearer target) (all_peers rt)),
      rw (length-take count sorted)
          (ap (λ n. min count n) (length-sort_by (nearer target) (all_peers rt))),
      s,
      near,
    )
