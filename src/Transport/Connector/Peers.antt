-- ===== src/Transport/Connector/Peers.antt =====
-- internal/transport/connector.go: the table of peers, Connect, Reconnect, ReconnectWithFallback and
-- Disconnect, and the slots of transfers. Each returns the states that it reports.
use ensemble.Common.{
  ℕ, zero, suc, ◌+◌, Bool, true, false, not, Option, none, some, List, [], ◌∷◌, ◌++◌, length, ltb,
  leb, if◌then◌else◌, Result,
}
use ensemble.Common.Maps.{lookup, insert, delete, bytes_beq}
use ensemble.Crypto.{Bytes, Sha256, Ripemd160, Base58, Ed25519}
use ensemble.Signaling.Client.{Codecs}
use ensemble.Transport.Connector.{
  ConnState, disconnected, failed, reconnecting, NatStrategy, direct, hole_punch, relay, tor_only,
  PeerConnection, Connector, reconnect_max_retries, is_active, FlowEnv, FlowError, Flow,
  new_peer_connection, connect_flow_from_strategy,
}

-- The active peer whose activity is the longest ago.
unfoldable pub oldest_active : List (Bytes × PeerConnection) → Option (Bytes × PeerConnection)
unfolding is_active
oldest_active [] = none
oldest_active ((addr, pc) ∷ m) =
    let rest = oldest_active m in
    if not (is_active pc.state) then rest else elim rest [
      | none ↦ some (addr, pc)
      | some (other, q) ↦
          if ltb q.last_activity pc.last_activity then some (other, q) else some (addr, pc)
    ]

-- An empty address is taken for none.
unfoldable pub evict_if_needed : Connector → Connector
unfolding oldest_active
evict_if_needed c = if ltb (length c.peers) c.max_peers then c else elim (oldest_active c.peers) [
  | none ↦ c
  | some ([], _) ↦ c
  | some (b ∷ addr, _) ↦ record c { peers = delete (b ∷ addr) c.peers }
]

pub data ConnectError : Type 0 where
  flow_failed : FlowError → ConnectError
  context_done all_strategies_exhausted : ConnectError
  retries_failed : FlowError → ConnectError

unfoldable pub get_peer : Connector → Bytes → Option PeerConnection
get_peer c addr = lookup addr c.peers

unfoldable pub active_in : List (Bytes × PeerConnection) → List PeerConnection
active_in [] = []
active_in ((_, pc) ∷ m) = let rest = active_in m in if is_active pc.state then pc ∷ rest else rest

unfoldable pub active_peers : Connector → List PeerConnection
unfolding active_in
active_peers c = active_in c.peers

-- The connection that is there and active.
unfoldable pub active_peer : Connector → Bytes → Option PeerConnection
active_peer c addr = elim (lookup addr c.peers) [
  | none ↦ none
  | some pc ↦ if is_active pc.state then some pc else none
]

abbrev pub with_peer : Connector → PeerConnection → Connector
with_peer c pc = record c { peers = insert pc.address pc c.peers }

unfoldable pub failed_peer : PeerConnection → PeerConnection
failed_peer pc = record pc { state = failed }

abbrev pub Connected : Type 0
Connected = Connector × List ConnState × Result ConnectError PeerConnection

-- What follows NAT strategy in the order of the constants.
unfoldable pub strategies_after : NatStrategy → List NatStrategy
strategies_after direct = hole_punch ∷ relay ∷ tor_only ∷ []
strategies_after hole_punch = relay ∷ tor_only ∷ []
strategies_after relay = tor_only ∷ []
strategies_after tor_only = []

module _ (h : Sha256) (rip : Ripemd160) (b58 : Base58) (ed : Ed25519) (codecs : Codecs) where
  unfoldable pub settle : Connector → Flow → ℕ → Connected
  unfolding failed_peer
  settle c flow now = elim flow.error [
    | some e ↦
        (with_peer c (failed_peer flow.pc), flow.events ++ failed ∷ [], Result.err (flow_failed e))
    | none ↦
        let pc = record flow.pc { last_activity = now } in
        (with_peer c pc, flow.events, Result.ok pc)
  ]

  -- `now` is the clock before the flow, `later` after it.
  unfoldable pub connect : Connector → Bytes → FlowEnv → ℕ → ℕ → Connected
  unfolding active_peer evict_if_needed settle
  connect c addr env now later = elim (active_peer c addr) [
    | some pc ↦ (c, [], Result.ok pc)
    | none ↦
        let pc = new_peer_connection addr now in
        let flow =
          connect_flow_from_strategy h rip b58 ed codecs (with_peer (evict_if_needed c) pc) pc env
            direct in
        settle flow.0 flow.1 later
  ]

  -- The rounds that are left: the flow of each, and whether the context is done in the wait that
  -- follows it.
  unfoldable pub retry :
      Connector
      → PeerConnection
      → (ℕ → FlowEnv)
      → (ℕ → Bool)
      → ℕ
      → ℕ
      → ℕ
      → List ConnState
      → Connected
  unfolding failed_peer
  retry c pc env is_done zero attempt later events = (c, events, Result.err context_done)
  retry c pc env is_done (suc rounds) attempt later events =
      let flow = connect_flow_from_strategy h rip b58 ed codecs c pc (env attempt) direct in
      let seen = events ++ flow.1.events in
      elim flow.1.error [
        | none ↦
            let pc' = record flow.1.pc { last_activity = later } in
            (with_peer flow.0 pc', seen, Result.ok pc')
        | some e ↦ elim rounds [
          | zero ↦ (
            with_peer flow.0 (failed_peer flow.1.pc),
            seen ++ failed ∷ [],
            Result.err (retries_failed e),
          )
          | suc _ ↦ elim (is_done attempt) [
            | true ↦ (
              with_peer flow.0 (failed_peer flow.1.pc),
              seen ++ failed ∷ [],
              Result.err context_done,
            )
            | false ↦ retry flow.0 flow.1.pc env is_done rounds (suc attempt) later seen
          ]
        ]
      ]

  unfoldable pub reconnect : Connector → Bytes → (ℕ → FlowEnv) → (ℕ → Bool) → ℕ → ℕ → Connected
  unfolding active_peer retry
  reconnect c addr env is_done now later = elim (active_peer c addr) [
    | some pc ↦ (c, [], Result.ok pc)
    | none ↦
        let pc = record (new_peer_connection addr now) { state = reconnecting } in
        retry (with_peer c pc) pc env is_done reconnect_max_retries 0 later (reconnecting ∷ [])
  ]

  -- One strategy after the other, each with the flow for it.
  unfoldable pub try_strategies :
      Connector
      → PeerConnection
      → (NatStrategy → FlowEnv)
      → List NatStrategy
      → List ConnState
      → Connected
  unfolding failed_peer
  try_strategies c pc env [] events =
      (with_peer c (failed_peer pc), events ++ failed ∷ [], Result.err all_strategies_exhausted)
  try_strategies c pc env (s ∷ ss) events =
      let flow = connect_flow_from_strategy h rip b58 ed codecs c pc (env s) s in
      let seen = events ++ flow.1.events in
      elim flow.1.error [
        | none ↦ (with_peer flow.0 flow.1.pc, seen, Result.ok flow.1.pc)
        | some _ ↦ try_strategies flow.0 flow.1.pc env ss seen
      ]

  unfoldable pub reconnect_with_fallback :
      Connector → Bytes → (NatStrategy → FlowEnv) → ℕ → Connected
  unfolding try_strategies strategies_after
  reconnect_with_fallback c addr env now =
      let first : NatStrategy = elim (lookup addr c.peers) [
        | none ↦ direct
        | some prev ↦ prev.strategy
      ] in
      let pc = record (new_peer_connection addr now) { state = reconnecting } in
      try_strategies (with_peer c pc) pc env (first ∷ strategies_after first) (reconnecting ∷ [])

unfoldable pub disconnect : Connector → Bytes → Connector × List ConnState
disconnect c addr = elim (lookup addr c.peers) [
  | none ↦ (c, [])
  | some _ ↦ (record c { peers = delete addr c.peers }, disconnected ∷ [])
]

unfoldable pub acquire_transfer_slot : Connector → Connector × Bool
acquire_transfer_slot c =
    if leb (c.max_xfers + c.released) c.acquired
    then (c, false)
    else (record c { acquired = suc c.acquired }, true)

unfoldable pub release_transfer_slot : Connector → Connector
release_transfer_slot c = record c { released = suc c.released }
