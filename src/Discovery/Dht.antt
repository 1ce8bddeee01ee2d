-- ===== src/Discovery/Dht.antt =====
-- internal/discovery/dht.go: the state of a DHT node, its records and the identities it hosts. A
-- moment before 1970 is `none`, Go's zero time among them: the clock is past 1970 by more than
-- the life of a record. A node that runs has a local peer, so the checks for nil are left out.
pub mod Queries
pub mod Search
pub mod Tables
pub mod Lookups
pub mod Exchange
pub mod Requests
pub mod Hosting
use ensemble.Common.{
  ℕ, ◌+◌, ◌-◌, ◌*◌, ◌/◌, Bool, true, false, Option, none, some, List, [], ◌∷◌, length, take, ltb,
  bytes_eq, if◌then◌else◌, map, Result,
}
use ensemble.Crypto.{Bytes, Base58}
use ensemble.Protocol.{Codec}
use ensemble.Protocol.Envelope.{Envelope, CodecError}
use ensemble.Discovery.NodeId.{NodeId, id_length}
use ensemble.Discovery.NodeId.Derivation.{AddressError, node_id_from_address}
use ensemble.Discovery.Routing.{PeerInfo, RoutingTable}

-- 24 hours in nanoseconds.
abbrev pub record_ttl_default : ℕ
record_ttl_default = 86400000000000

abbrev pub lookup_max_iterations : ℕ
lookup_max_iterations = 20

abbrev pub announce_failure_threshold : ℕ
announce_failure_threshold = 3

pub record Dht : Type 0 where
  pub rt : RoutingTable
  pub local_peer : PeerInfo
  pub record_ttl : ℕ
  pub local_identities : List PeerInfo
  pub failure_threshold : ℕ

unfoldable pub new_dht : RoutingTable → PeerInfo → Dht
new_dht rt local_peer = record {
  rt = rt;
  local_peer = local_peer;
  record_ttl = record_ttl_default;
  local_identities = [];
  failure_threshold = announce_failure_threshold;
}

unfoldable pub set_failure_threshold : Dht → ℕ → Dht
set_failure_threshold d n = record d { failure_threshold = n }

-- pb.PeerRecord, its timestamp in milliseconds.
pub record PeerRecord : Type 0 where
  pub node_id : Bytes
  pub record_address : Bytes
  pub onion_address : Bytes
  pub timestamp : Option ℕ

pub record DhtFindNode : Type 0 where
  pub target : Bytes

pub record DhtPutRecord : Type 0 where
  pub announced : Option PeerRecord

pub record DhtNodeResponse : Type 0 where
  pub peers : List PeerRecord

pub record DhtCodecs : Type 0 where
  pub envelope : Codec Envelope
  pub find_node : Codec DhtFindNode
  pub put_record : Codec DhtPutRecord
  pub node_response : Codec DhtNodeResponse

unfoldable pub is_expired : ℕ → ℕ → PeerInfo → Bool
is_expired now ttl p = elim p.last_seen [ none ↦ true | some t ↦ ltb ttl (now - t) ]

-- `UnixMilli` of a time, and the time of a number of milliseconds.
unfoldable pub unix_milli : Option ℕ → Option ℕ
unix_milli none = none
unix_milli (some t) = some (t / 1000000)

unfoldable pub from_milli : Option ℕ → Option ℕ
from_milli none = none
from_milli (some ms) = some (ms * 1000000)

unfoldable pub peer_info_to_record : PeerInfo → PeerRecord
unfolding unix_milli
peer_info_to_record p = record {
  node_id = p.id;
  record_address = p.address;
  onion_address = p.onion_addr;
  timestamp = unix_milli p.last_seen;
}

unfoldable pub record_to_peer_info : Option PeerRecord → Option PeerInfo
unfolding from_milli
record_to_peer_info none = none
record_to_peer_info (some r) =
    if ltb (length r.node_id) id_length
    then none
    else some (record {
      id = take id_length r.node_id;
      address = r.record_address;
      onion_addr = r.onion_address;
      last_seen = from_milli r.timestamp;
      failures = 0;
    })

unfoldable pub peers_to_response : List PeerInfo → DhtNodeResponse
unfolding peer_info_to_record
peers_to_response peers = record { peers = map peer_info_to_record peers }

-- The loop of `AddLocalIdentity`: the first identity with the address is replaced.
unfoldable pub replace_identity : PeerInfo → List PeerInfo → List PeerInfo
replace_identity p [] = p ∷ []
replace_identity p (q ∷ qs) =
    let rest = replace_identity p qs in if bytes_eq q.address p.address then p ∷ qs else q ∷ rest

unfoldable pub add_local_identity :
    Base58 → Dht → Bytes → Bytes → ℕ → Dht × Result AddressError (Unit {0})
unfolding replace_identity
add_local_identity b58 d addr onion now = elim (node_id_from_address b58 addr) [
  | Result.err e ↦ (d, Result.err e)
  | Result.ok id ↦ if bytes_eq d.local_peer.address addr then (d, Result.ok tt) else (
    let p : PeerInfo = record {
      id = id;
      address = addr;
      onion_addr = onion;
      last_seen = some now;
      failures = 0;
    } in
        record d { local_identities = replace_identity p d.local_identities },
    Result.ok tt,
  )
]

unfoldable pub without_identity : Bytes → List PeerInfo → Option (List PeerInfo)
without_identity addr [] = none
without_identity addr (q ∷ qs) =
    let rest = without_identity addr qs in
    if bytes_eq q.address addr then some qs else elim rest [ none ↦ none | some l ↦ some (q ∷ l) ]

unfoldable pub remove_local_identity : Dht → Bytes → Dht × Bool
unfolding without_identity
remove_local_identity d addr = elim (without_identity addr d.local_identities) [
  | none ↦ (d, false)
  | some qs ↦ (record d { local_identities = qs }, true)
]

unfoldable pub seen_at : ℕ → PeerInfo → PeerInfo
seen_at now p = record p { last_seen = some now }

unfoldable pub local_identities_snapshot : Dht → ℕ → List PeerInfo
unfolding seen_at
local_identities_snapshot d now = map (seen_at now) d.local_identities
