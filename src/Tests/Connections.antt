-- ===== src/Tests/Connections.antt =====
-- A connector that connects to a peer directly.
use ensemble.Common.{◌≤◌, ◌≡◌, refl, true, some, List, [], ◌∷◌, length, ◌==◌, if◌then◌else◌}
use ensemble.Crypto.{Bytes}
use ensemble.Identity.Address.{derive_address}
use ensemble.Transport.Connector.{
  ConnState, connected, direct, PeerConnection, Connector, new_connector, is_active, FlowEnv,
  new_peer_connection, connect_flow_from_strategy,
}
use ensemble.Transport.Connector.Peers.{get_peer, active_peers}
use ensemble.Transport.Connector.Flows.{IsFlow, connect_flow_from_strategy-IsFlow}
use ensemble.Transport.Connector.Trust.{
  ConnectorCall, Origin, connects, after_connector_calls, new_connector-after_connector_calls,
}
use ensemble.Transport.Connector.Limits.{
  connects_to, disconnects_from, after_turns, new_connector-after_turns,
}
use ensemble.Transport.Connector.{hole_punch}
use ensemble.Transport.Nat.{
  circuit, is_relayed, filter_relay, filter_non_relay, contains, starts_with, Net, has_direct_conn,
  conn_addrs, try_direct, try_hole_punch, punch_through, await_upgrade, try_dial, nat_traverse_from,
  nat_traverse,
}
use ensemble.Transport.Nat.Cascade.{IsFirst, nat_traverse_from-IsFirst}
use ensemble.Tests.Clients.{keys, codecs, client, attempt_with}
use ensemble.Tests.Fixtures.{toy_sha, toy_ripemd, toy_base58, toy_ed25519}
use ensemble.Common.Maps.{lookup, insert}
use ensemble.Transport.Connector.Peers.{connect}
use ensemble.Signaling.Client.{attempt_handshake}
use ensemble.Signaling.Handshake.{create_conn_request, validate_conn_response, create_conn_confirm}
use ensemble.Identity.Address.{matches_public_key}
use ensemble.Common.{bytes_eq}
use ensemble.Identity.Keypair.{from_public_key, verify}

abbrev remote_addr : Bytes
unfolding derive_address
remote_addr = derive_address toy_sha toy_ripemd toy_base58 keys.pub_key

abbrev flow_env : FlowEnv
flow_env = record {
  lookup_now = 5;
  cache_now = 6;
  finder = some (record { found_address = []; found_onion = 9 ∷ [] });
  session = attempt_with true;
  peer_addrs = some ((8 ∷ []) ∷ []);
  derive_peer_id = λ key. some key;
  is_multiaddr = λ addr. true;
  traverse = λ from. record { nat_strategy = direct; nat_latency = 3; nat_addrs = (8 ∷ []) ∷ [] };
  done_now = 7;
}

abbrev idle_connector : Connector
idle_connector = new_connector client 0 0

abbrev peer : PeerConnection
peer = record {
  address = remote_addr;
  state = connected;
  strategy = direct;
  latency = 3;
  peer_id = some keys.pub_key;
  addrs = (8 ∷ []) ∷ [];
  last_activity = 8;
}

abbrev calls : List ConnectorCall
calls = connects remote_addr flow_env 4 8 ∷ []

connected_to :
    get_peer
      (after_connector_calls toy_sha toy_ripemd toy_base58 toy_ed25519 codecs idle_connector calls)
      remote_addr
    ≡ some peer
unfolding get_peer lookup after_connector_calls connect new_connector connect_flow_from_strategy
    attempt_handshake create_conn_request validate_conn_response matches_public_key
    new_peer_connection bytes_eq from_public_key verify create_conn_confirm insert
connected_to = refl

new_connector-after_connector_calls_example :
    Origin toy_sha toy_ripemd toy_base58 toy_ed25519 codecs
      (new_connector client 0 0)
      calls
      remote_addr
      peer
unfolding is_active
new_connector-after_connector_calls_example =
    new_connector-after_connector_calls toy_sha toy_ripemd toy_base58 toy_ed25519 codecs client 0 0
      calls remote_addr peer connected_to refl

new_connector-after_turns_example :
    length (
      active_peers (
        after_turns toy_sha toy_ripemd toy_base58 toy_ed25519 codecs (new_connector client 1 0) (
          connects_to 4 [] flow_env 4 8
          ∷ connects_to 5 [] flow_env 9 10
          ∷ disconnects_from (4 ∷ [])
          ∷ [])))
    ≤ (if 1 == 0 then 50 else 1)
new_connector-after_turns_example =
    new_connector-after_turns toy_sha toy_ripemd toy_base58 toy_ed25519 codecs client 1 0 (
      connects_to 4 [] flow_env 4 8
      ∷ connects_to 5 [] flow_env 9 10
      ∷ disconnects_from (4 ∷ [])
      ∷ [])

connect_flow_from_strategy-IsFlow_example :
    IsFlow toy_sha toy_ripemd toy_base58 toy_ed25519 codecs remote_addr flow_env
      (connect_flow_from_strategy toy_sha toy_ripemd toy_base58 toy_ed25519 codecs idle_connector
        (record peer { state = ConnState.discovering })
        flow_env
        direct).1
connect_flow_from_strategy-IsFlow_example =
    connect_flow_from_strategy-IsFlow toy_sha toy_ripemd toy_base58 toy_ed25519 codecs
      idle_connector (record peer { state = ConnState.discovering }) flow_env direct

abbrev net : Net
net = record {
  id_text = 7 ∷ [];
  direct_dial = λ addrs. some (1, addrs);
  punch_dial = λ addrs. true;
  ticks = (200, circuit ∷ []) ∷ (400, circuit ∷ (8 ∷ []) ∷ []) ∷ [];
  relay_dial = λ addrs. some (1, addrs);
}

-- The peer has an address at a relay only, and is reached directly at the second tick.
nat_traverse_from-IsFirst_example :
    IsFirst net (circuit ∷ []) direct (record {
      nat_strategy = hole_punch;
      nat_latency = 400;
      nat_addrs = conn_addrs (7 ∷ []) (circuit ∷ (8 ∷ []) ∷ []);
    })
    × (nat_traverse net (circuit ∷ []) ≡ nat_traverse_from net (circuit ∷ []) direct)
unfolding nat_traverse_from try_direct try_hole_punch punch_through await_upgrade try_dial
    has_direct_conn is_relayed filter_relay filter_non_relay contains starts_with
nat_traverse_from-IsFirst_example = nat_traverse_from-IsFirst net (circuit ∷ []) direct
