-- ===== src/Discovery/NodeId/Order.antt =====
-- `compareDist` is a total order on identifiers of one length.
use Prim.Native.Nat.{Ordering}
use ensemble.Common.{suc, ◌≡◌, ◌≢◌, refl, ap, [], ◌∷◌, length, arith}
use ensemble.Discovery.NodeId.{NodeId, compare_dist, distance}

pub compare_dist_trans :
    (a b c : NodeId)
    → length a ≡ length b
    → length b ≡ length c
    → compare_dist a b ≢ Ordering.gt
    → compare_dist b c ≢ Ordering.gt
    → compare_dist a c ≢ Ordering.gt
unfolding compare_dist
compare_dist_trans [] b c n m p q = λ e. cc
compare_dist_trans (x ∷ a) [] c n m p q = absurd (omega arith)
compare_dist_trans (x ∷ a) (y ∷ b) [] n m p q = absurd (omega arith)
compare_dist_trans (x ∷ a) (y ∷ b) (z ∷ c) n m p q = ground (arith, compare_dist_trans a b c)

pub compare_dist_total :
    (a b : NodeId)
    → length a ≡ length b
    → compare_dist a b ≡ Ordering.gt
    → compare_dist b a ≡ Ordering.lt
unfolding compare_dist
compare_dist_total [] b n e = absurd (cc)
compare_dist_total (x ∷ a) [] n e = absurd (omega arith)
compare_dist_total (x ∷ a) (y ∷ b) n e = ground (arith, compare_dist_total a b)

pub eq_of_compare_dist :
    (a b : NodeId) → length a ≡ length b → compare_dist a b ≡ Ordering.eq → a ≡ b
unfolding compare_dist
eq_of_compare_dist [] [] n e = refl
eq_of_compare_dist [] (y ∷ b) n e = absurd (omega arith)
eq_of_compare_dist (x ∷ a) [] n e = absurd (omega arith)
eq_of_compare_dist (x ∷ a) (y ∷ b) n e = ground (arith, eq_of_compare_dist a b)

pub length-distance : (a b : NodeId) → length a ≡ length b → length (distance a b) ≡ length a
unfolding distance
length-distance [] [] n = refl
length-distance [] (y ∷ b) n = absurd (omega arith)
length-distance (x ∷ a) [] n = absurd (omega arith)
length-distance (x ∷ a) (y ∷ b) n = ap suc (length-distance a b (omega arith))
