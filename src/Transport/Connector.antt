-- ===== src/Transport/Connector.antt =====
-- internal/transport/connector.go: the connections to peers, from the lookup to the direct or
-- Tor-only connection. What the finder, the dialer, the peer, the exchange of IP addresses, the
-- traversal of NATs and the clock do in a flow is an argument. That a libp2p connection is closed
-- is an effect on the host, which is left out. `Connect` and the others are taken one at a time.
pub mod Peers
pub mod Flows
pub mod Keeping
pub mod Trust
pub mod Limits
use ensemble.Common.{
  ℕ, zero, suc, ◌+◌, ◌-◌, Bool, true, false, not, ◌||◌, Option, none, some, List, [], ◌∷◌, ◌++◌,
  length, ltb, leb, ◌==◌, if◌then◌else◌, Result,
}
use ensemble.Common.Maps.{lookup, insert, delete, bytes_beq}
use ensemble.Crypto.{Bytes, Sha256, Ripemd160, Base58, Ed25519}
use ensemble.Identity.Keypair.{Keypair}
use ensemble.Signaling.Client.{
  HandshakeResult, ClientError, Attempt, Codecs, Client, attempt_handshake,
}

pub data ConnState : Type 0 where
  discovering signaling exchanging_ips nat_traversal connected connected_tor : ConnState
  disconnected failed reconnecting : ConnState

pub data NatStrategy : Type 0 where
  direct hole_punch relay tor_only : NatStrategy

pub record NatResult : Type 0 where
  pub nat_strategy : NatStrategy
  pub nat_latency : ℕ
  pub nat_addrs : List Bytes

pub record PeerConnection : Type 0 where
  pub address : Bytes
  pub state : ConnState
  pub strategy : NatStrategy
  pub latency : ℕ
  pub peer_id : Option Bytes
  pub addrs : List Bytes
  pub last_activity : ℕ

pub record PeerLookupResult : Type 0 where
  pub found_address : Bytes
  pub found_onion : Bytes

pub record CachedLookup : Type 0 where
  pub result : PeerLookupResult
  pub cached_at : ℕ

-- The count of active transfers is the difference of the acquired and the released slots.
pub record Connector : Type 0 where
  pub client : Client
  pub max_peers : ℕ
  pub max_xfers : ℕ
  pub peers : List (Bytes × PeerConnection)
  pub lookup_cache : List (Bytes × CachedLookup)
  pub acquired : ℕ
  pub released : ℕ

abbrev pub reconnect_max_retries : ℕ
reconnect_max_retries = 3

-- An hour.
abbrev pub cached_lookup_max_age : ℕ
cached_lookup_max_age = 3600000000000

-- Limits of 0 stand for the default ones.
unfoldable pub new_connector : Client → ℕ → ℕ → Connector
new_connector client max_peers max_xfers = record {
  client = client;
  max_peers = if max_peers == 0 then 50 else max_peers;
  max_xfers = if max_xfers == 0 then 5 else max_xfers;
  peers = [];
  lookup_cache = [];
  acquired = 0;
  released = 0;
}

unfoldable pub is_active : ConnState → Bool
is_active connected = true
is_active connected_tor = true
is_active _ = false

-- What happens in a flow; the exchange of addresses gives none if it fails.
pub record FlowEnv : Type 0 where
  pub lookup_now : ℕ
  pub cache_now : ℕ
  pub finder : Option PeerLookupResult
  pub session : Attempt
  pub peer_addrs : Option (List Bytes)
  pub derive_peer_id : Bytes → Option Bytes
  pub is_multiaddr : Bytes → Bool
  pub traverse : NatStrategy → NatResult
  pub done_now : ℕ

pub data FlowError : Type 0 where
  discovering_peer exchanging deriving_peer_id parsing_multiaddrs : FlowError
  handshake : ClientError → FlowError

-- The connection after a flow, the states that were reported, and the error.
pub record Flow : Type 0 where
  pub pc : PeerConnection
  pub events : List ConnState
  pub error : Option FlowError

unfoldable pub cached_or_fresh_lookup :
    List (Bytes × CachedLookup)
    → Bytes
    → FlowEnv
    → List (Bytes × CachedLookup) × Option PeerLookupResult
cached_or_fresh_lookup cache addr env =
    let fresh : List (Bytes × CachedLookup) × Option PeerLookupResult = elim env.finder [
      | none ↦ (cache, none)
      | some r ↦ (insert addr (record { result = r; cached_at = env.cache_now }) cache, some r)
    ] in
    elim (lookup addr cache) [
      | none ↦ fresh
      | some entry ↦
          if ltb (env.lookup_now - entry.cached_at) cached_lookup_max_age
          then (cache, some entry.result)
          else elim env.finder [ none ↦ (cache, some entry.result) | some _ ↦ fresh ]
    ]

-- A new connection, before its first state is reported.
unfoldable pub new_peer_connection : Bytes → ℕ → PeerConnection
new_peer_connection addr now = record {
  address = addr;
  state = discovering;
  strategy = direct;
  latency = 0;
  peer_id = none;
  addrs = [];
  last_activity = now;
}

unfoldable pub any_multiaddr : (Bytes → Bool) → List Bytes → Bool
any_multiaddr parses [] = false
any_multiaddr parses (a ∷ addrs) = parses a || any_multiaddr parses addrs

unfoldable pub is_tor_only : NatStrategy → Bool
is_tor_only tor_only = true
is_tor_only _ = false

unfoldable pub fall_back_to_tor : PeerConnection → ℕ → List ConnState → Flow
fall_back_to_tor pc now events = record {
  pc = record pc { strategy = tor_only; last_activity = now; state = connected_tor };
  events = events ++ connected_tor ∷ [];
  error = none;
}

-- The end of a flow, with the peer's addresses.
unfoldable pub finish_flow :
    PeerConnection → List Bytes → FlowEnv → NatStrategy → List ConnState → Flow
unfolding any_multiaddr is_tor_only fall_back_to_tor
finish_flow pc [] env from events = fall_back_to_tor pc env.done_now events
finish_flow pc (a ∷ addrs) env from events =
    let seen = events ++ nat_traversal ∷ [] in
    let nat = env.traverse from in
    let tried = record pc {
      strategy = nat.nat_strategy;
      latency = nat.nat_latency;
      addrs = nat.nat_addrs;
    } in
    if not (any_multiaddr env.is_multiaddr (a ∷ addrs))
    then record {
      pc = record pc { state = nat_traversal };
      events = seen;
      error = some parsing_multiaddrs;
    }
    else if is_tor_only nat.nat_strategy
    then fall_back_to_tor tried env.done_now seen
    else record {
      pc = record tried { last_activity = env.done_now; state = connected };
      events = seen ++ connected ∷ [];
      error = none;
    }

abbrev pub through_exchange : List ConnState
through_exchange = discovering ∷ signaling ∷ exchanging_ips ∷ []

-- With the identifier that the peer's key gives.
unfoldable pub identify_and_finish :
    PeerConnection → List Bytes → FlowEnv → NatStrategy → Option Bytes → Flow
unfolding finish_flow
identify_and_finish pc addrs env from none = record {
  pc = pc;
  events = through_exchange;
  error = some deriving_peer_id;
}
identify_and_finish pc addrs env from (some id) =
    finish_flow (record pc { peer_id = some id }) addrs env from through_exchange

-- With what the exchange of addresses gives.
unfoldable pub exchange_and_finish :
    PeerConnection → HandshakeResult → FlowEnv → NatStrategy → Option (List Bytes) → Flow
unfolding identify_and_finish
exchange_and_finish pc hs env from none = record {
  pc = record pc { state = exchanging_ips };
  events = through_exchange;
  error = some exchanging;
}
exchange_and_finish pc hs env from (some addrs) =
    identify_and_finish (record pc { state = exchanging_ips }) addrs env from
      (env.derive_peer_id hs.peer_pub_key)

module _ (h : Sha256) (rip : Ripemd160) (b58 : Base58) (ed : Ed25519) (codecs : Codecs) where
  -- After the lookup: performClientHandshake takes the steps of the signaling client's attempt.
  unfoldable pub signal_and_finish : Client → PeerConnection → FlowEnv → NatStrategy → Flow
  unfolding exchange_and_finish
  signal_and_finish client pc env from =
      elim (attempt_handshake h rip b58 ed codecs client pc.address env.session).1 [
        | Result.err e ↦ record {
          pc = record pc { state = signaling };
          events = discovering ∷ signaling ∷ [];
          error = some (handshake e);
        }
        | Result.ok hs ↦ exchange_and_finish pc hs env from env.peer_addrs
      ]

  -- `connectFlow` is the flow from the first strategy on.
  unfoldable pub connect_flow_from_strategy :
      Connector → PeerConnection → FlowEnv → NatStrategy → Connector × Flow
  unfolding cached_or_fresh_lookup signal_and_finish
  connect_flow_from_strategy c pc env from =
      let looked = cached_or_fresh_lookup c.lookup_cache pc.address env in
      let c' = record c { lookup_cache = looked.0 } in
      elim looked.1 [
        | none ↦ (
          c',
          record {
            pc = record pc { state = discovering };
            events = discovering ∷ [];
            error = some discovering_peer;
          },
        )
        | some _ ↦ (c', signal_and_finish c.client pc env from)
      ]
