-- ===== src/Discovery/NodeId.antt =====
-- internal/discovery/routing.go, the identifiers: XOR distance, common prefix and order. A NodeID
-- is the list of its 20 bytes.
pub mod Derivation
pub mod Prefix
pub mod Order
use Prim.Native.Nat.{Ordering}
use ensemble.Common.{
  ℕ, zero, suc, ◌+◌, ◌-◌, ◌*◌, ◌^◌, ◌<◌, ◌≡◌, bit_xor, bit_and, Bool, true, false, Option, none,
  some, List, [], ◌∷◌, length, ltb, ◌==◌, if◌then◌else◌,
}

abbrev pub NodeId : Type 0
NodeId = List ℕ

abbrev pub id_length : ℕ
id_length = 20

abbrev pub num_buckets : ℕ
num_buckets = 160

abbrev pub AllBytes : List ℕ → Type 0
AllBytes [] = Unit
AllBytes (b ∷ bs) = (b < 256) × AllBytes bs

-- A value of Go's type [20]byte.
pub record IsNodeId (id : NodeId) : Type 0 where
  pub size : length id ≡ id_length
  pub bytes : AllBytes id

unfoldable pub distance : NodeId → NodeId → NodeId
distance (x ∷ a) (y ∷ b) = bit_xor x y ∷ distance a b
distance _ _ = []

-- `for bit := 7; bit >= 0; bit--` over the bits still to try: the highest bit that is set.
unfoldable pub top_bit : ℕ → ℕ → Option ℕ
top_bit zero x = none
top_bit (suc bit) x =
    let lower = top_bit bit x in if bit_and x (2 ^ bit) == 0 then lower else some bit

-- The loop of `CommonPrefixLen` from byte `i` on.
unfoldable pub prefix_from : ℕ → NodeId → NodeId → ℕ
unfolding top_bit
prefix_from i [] b = num_buckets
prefix_from i (x ∷ a) [] = num_buckets
prefix_from i (x ∷ a) (y ∷ b) =
    let rest = prefix_from (suc i) a b in
    if bit_xor x y == 0
    then rest
    else elim (top_bit 8 (bit_xor x y)) [ none ↦ rest | some bit ↦ i * 8 + (7 - bit) ]

unfoldable pub common_prefix_len : NodeId → NodeId → ℕ
unfolding prefix_from
common_prefix_len a b = prefix_from 0 a b

-- `compareDist`: -1, 0 and 1 are `lt`, `eq` and `gt`.
unfoldable pub compare_dist : NodeId → NodeId → Ordering
compare_dist [] b = Ordering.eq
compare_dist (x ∷ a) [] = Ordering.eq
compare_dist (x ∷ a) (y ∷ b) =
    let rest = compare_dist a b in
    if ltb x y then Ordering.lt else if ltb y x then Ordering.gt else rest
