-- ===== src/Transport/Nat.antt =====
-- internal/transport/nat.go: the cascade of strategies for a direct connection. What libp2p does
-- for each dial is an argument; a multiaddress is its text.
pub mod Cascade
use ensemble.Common.{
  ℕ, zero, suc, Bool, true, false, not, ◌||◌, ◌==◌, leb, Option, none, some, List, [], ◌∷◌, ◌++◌,
  map, if◌then◌else◌,
}
use ensemble.Crypto.{Bytes}
use ensemble.Transport.Connector.{NatStrategy, direct, hole_punch, relay, tor_only, NatResult}

-- "/p2p-circuit" and "/p2p/"
abbrev pub circuit : Bytes
circuit = 47 ∷ 112 ∷ 50 ∷ 112 ∷ 45 ∷ 99 ∷ 105 ∷ 114 ∷ 99 ∷ 117 ∷ 105 ∷ 116 ∷ []

abbrev pub p2p : Bytes
p2p = 47 ∷ 112 ∷ 50 ∷ 112 ∷ 47 ∷ []

unfoldable pub starts_with : Bytes → Bytes → Bool
starts_with [] s = true
starts_with (b ∷ bs) [] = false
starts_with (b ∷ bs) (c ∷ s) = let rest = starts_with bs s in if b == c then rest else false

-- `strings.Contains` for a text that is not empty.
unfoldable pub contains : Bytes → Bytes → Bool
unfolding starts_with
contains text [] = false
contains text (c ∷ s) = starts_with text (c ∷ s) || contains text s

unfoldable pub is_relayed : Bytes → Bool
unfolding contains
is_relayed addr = contains circuit addr

unfoldable pub filter_non_relay : List Bytes → List Bytes
unfolding is_relayed
filter_non_relay [] = []
filter_non_relay (a ∷ addrs) =
    let rest = filter_non_relay addrs in if is_relayed a then rest else a ∷ rest

unfoldable pub filter_relay : List Bytes → List Bytes
unfolding is_relayed
filter_relay [] = []
filter_relay (a ∷ addrs) = let rest = filter_relay addrs in if is_relayed a then a ∷ rest else rest

-- The peer's identifier as text; for the direct and for the relayed dial the time it took and the
-- remote addresses of the connections to the peer after it, or none if it fails; for hole punching
-- whether the dial over the relay succeeds, and the same at each tick before the deadline.
pub record Net : Type 0 where
  pub id_text : Bytes
  pub direct_dial : List Bytes → Option (ℕ × List Bytes)
  pub punch_dial : List Bytes → Bool
  pub ticks : List (ℕ × List Bytes)
  pub relay_dial : List Bytes → Option (ℕ × List Bytes)

unfoldable pub has_direct_conn : List Bytes → Bool
unfolding is_relayed
has_direct_conn [] = false
has_direct_conn (a ∷ remotes) = not (is_relayed a) || has_direct_conn remotes

unfoldable pub conn_addrs : Bytes → List Bytes → List Bytes
conn_addrs id_text remotes = map (λ a. a ++ p2p ++ id_text) remotes

-- A dial of the addresses that are left after the filter.
unfoldable pub try_dial :
    NatStrategy → Bytes → (List Bytes → Option (ℕ × List Bytes)) → List Bytes → Option NatResult
unfolding conn_addrs
try_dial s id_text dial [] = none
try_dial s id_text dial (a ∷ addrs) = elim (dial (a ∷ addrs)) [
  | none ↦ none
  | some (took, remotes) ↦
      some (record { nat_strategy = s; nat_latency = took; nat_addrs = conn_addrs id_text remotes })
]

unfoldable pub try_direct : Net → List Bytes → Option NatResult
unfolding try_dial filter_non_relay
try_direct net addrs = try_dial direct net.id_text net.direct_dial (filter_non_relay addrs)

unfoldable pub await_upgrade : Bytes → List (ℕ × List Bytes) → Option NatResult
unfolding has_direct_conn conn_addrs
await_upgrade id_text [] = none
await_upgrade id_text ((took, remotes) ∷ ticks) =
    let rest = await_upgrade id_text ticks in
    if has_direct_conn remotes
    then some (record {
      nat_strategy = hole_punch;
      nat_latency = took;
      nat_addrs = conn_addrs id_text remotes;
    })
    else rest

unfoldable pub punch_through : Net → List Bytes → Option NatResult
unfolding await_upgrade
punch_through net [] = none
punch_through net (a ∷ addrs) =
    if net.punch_dial (a ∷ addrs) then await_upgrade net.id_text net.ticks else none

unfoldable pub try_hole_punch : Net → List Bytes → Option NatResult
unfolding punch_through filter_relay
try_hole_punch net addrs = punch_through net (filter_relay addrs)

unfoldable pub try_relay : Net → List Bytes → Option NatResult
unfolding try_dial filter_relay
try_relay net addrs = try_dial relay net.id_text net.relay_dial (filter_relay addrs)

abbrev pub only_tor : NatResult
only_tor = record { nat_strategy = tor_only; nat_latency = 0; nat_addrs = [] }

unfoldable pub or_else : Option NatResult → NatResult → NatResult
or_else none next = next
or_else (some r) next = r

-- The strategies in the order of their constants.
unfoldable pub rank : NatStrategy → ℕ
rank direct = 0
rank hole_punch = 1
rank relay = 2
rank tor_only = 3

unfoldable pub nat_traverse_from : Net → List Bytes → NatStrategy → NatResult
unfolding rank or_else
nat_traverse_from net addrs from =
    let relayed = if leb (rank from) 2 then or_else (try_relay net addrs) only_tor else only_tor in
    let punched =
      if leb (rank from) 1 then or_else (try_hole_punch net addrs) relayed else relayed in
    if leb (rank from) 0 then or_else (try_direct net addrs) punched else punched

unfoldable pub nat_traverse : Net → List Bytes → NatResult
unfolding or_else
nat_traverse net addrs =
    or_else (try_direct net addrs)
      (or_else (try_hole_punch net addrs) (or_else (try_relay net addrs) only_tor))
