-- ===== src/Transport/Connector/Flows.antt =====
-- The states that a flow reports, and whom a connection is with.
use ensemble.Common.{
  ◌≡◌, refl, sym, not, Option, none, some, List, [], ◌∷◌, if_intro, Option-cases, Result-cases, inl,
  inr,
}
use ensemble.Crypto.{Bytes, Sha256, Ripemd160, Base58, Ed25519}
use ensemble.Signaling.Client.{HandshakeResult, Codecs, Client, attempt_handshake}
use ensemble.Signaling.Client.Agreement.{Agreed, attempt_handshake-Agreed}
use ensemble.Transport.Connector.{
  ConnState, discovering, signaling, exchanging_ips, nat_traversal, connected, connected_tor,
  NatStrategy, PeerConnection, Connector, FlowEnv, FlowError, Flow, cached_or_fresh_lookup,
  any_multiaddr, is_tor_only, fall_back_to_tor, finish_flow, identify_and_finish,
  exchange_and_finish, signal_and_finish, connect_flow_from_strategy,
}

-- The steps from one reported state to the next.
pub data Step : ConnState → ConnState → Type 0 where
  looked_up : Step discovering signaling
  shook_hands : Step signaling exchanging_ips
  got_addrs : Step exchanging_ips nat_traversal
  no_addrs : Step exchanging_ips connected_tor
  traversed : Step nat_traversal connected
  fell_back : Step nat_traversal connected_tor

-- Each state follows the one before it by a step; the last is the one that is given.
abbrev pub Trail : ConnState → List ConnState → ConnState → Type 0
Trail s [] last = s ≡ last
Trail s (t ∷ ts) last = Step s t × Trail t ts last

pub data IsConnected : ConnState → Type 0 where
  directly : IsConnected connected
  over_tor : IsConnected connected_tor

module _ (h : Sha256) (rip : Ripemd160) (b58 : Base58) (ed : Ed25519) (codecs : Codecs) where
  -- What a flow that succeeds has established: the peer proved in the handshake to own the address,
  -- the peer's identifier is that of the proved key, and the connection is direct or over Tor.
  pub record Established (addr : Bytes) (env : FlowEnv) (pc : PeerConnection) : Type 0 where
    pub result : HandshakeResult
    pub agreed : Agreed h rip b58 ed codecs addr env.session result
    pub identified :
        (id : Bytes) × (env.derive_peer_id result.peer_pub_key ≡ some id) × (pc.peer_id ≡ some id)
    pub up : IsConnected pc.state
    pub addressed : pc.address ≡ addr

  -- The reported states are a trail from the first, the connection is in the last of them, and it
  -- is established if there is no error.
  pub record IsFlow (addr : Bytes) (env : FlowEnv) (flow : Flow) : Type 0 where
    pub later : List ConnState
    pub from_start : flow.events ≡ discovering ∷ later
    pub trail : Trail discovering later flow.pc.state
    pub kept : flow.pc.address ≡ addr
    pub established : flow.error ≡ none → Established addr env flow.pc

  stopped-IsFlow :
      (addr : Bytes) (env : FlowEnv) (pc : PeerConnection) (later : List ConnState) (e : FlowError)
      → pc.address ≡ addr
      → Trail discovering later pc.state
      → IsFlow addr env (record { pc = pc; events = discovering ∷ later; error = some e })
  stopped-IsFlow addr env pc later e kept trail = record {
    later = later;
    from_start = refl;
    trail = trail;
    kept = kept;
    established = λ none_there. absurd (cc);
  }

  finish_flow-IsFlow :
      (pc : PeerConnection) (hs : HandshakeResult) (id : Bytes) (addrs : List Bytes) (env : FlowEnv)
      (from : NatStrategy)
      → Agreed h rip b58 ed codecs pc.address env.session hs
      → env.derive_peer_id hs.peer_pub_key ≡ some id
      → pc.peer_id ≡ some id
      → IsFlow pc.address env
          (finish_flow pc addrs env from (discovering ∷ signaling ∷ exchanging_ips ∷ []))
  unfolding finish_flow fall_back_to_tor
  finish_flow-IsFlow pc hs id [] env from agreed derived known = record {
    later = signaling ∷ exchanging_ips ∷ connected_tor ∷ [];
    from_start = refl;
    trail = (looked_up, (shook_hands, (no_addrs, refl)));
    kept = refl;
    established = λ e. record {
      result = hs;
      agreed = agreed;
      identified = (id, derived, known);
      up = over_tor;
      addressed = refl;
    };
  }
  finish_flow-IsFlow pc hs id (a ∷ addrs) env from agreed derived known =
      if_intro (λ (t : Flow). IsFlow pc.address env t)
        (not (any_multiaddr env.is_multiaddr (a ∷ addrs)))
        (λ bad.
          stopped-IsFlow pc.address env (record pc { state = nat_traversal })
            (signaling ∷ exchanging_ips ∷ nat_traversal ∷ []) FlowError.parsing_multiaddrs refl
            (looked_up, (shook_hands, (got_addrs, refl))))
        (λ good.
          if_intro (λ (t : Flow). IsFlow pc.address env t)
            (is_tor_only (env.traverse from).nat_strategy)
            (λ tor. record {
              later = signaling ∷ exchanging_ips ∷ nat_traversal ∷ connected_tor ∷ [];
              from_start = refl;
              trail = (looked_up, (shook_hands, (got_addrs, (fell_back, refl))));
              kept = refl;
              established = λ e. record {
                result = hs;
                agreed = agreed;
                identified = (id, derived, known);
                up = over_tor;
                addressed = refl;
              };
            })
            (λ other. record {
              later = signaling ∷ exchanging_ips ∷ nat_traversal ∷ connected ∷ [];
              from_start = refl;
              trail = (looked_up, (shook_hands, (got_addrs, (traversed, refl))));
              kept = refl;
              established = λ e. record {
                result = hs;
                agreed = agreed;
                identified = (id, derived, known);
                up = directly;
                addressed = refl;
              };
            }))

  identify_and_finish-IsFlow :
      (pc : PeerConnection) (hs : HandshakeResult) (addrs : List Bytes) (env : FlowEnv)
      (from : NatStrategy) (id : Option Bytes)
      → pc.state ≡ exchanging_ips
      → Agreed h rip b58 ed codecs pc.address env.session hs
      → env.derive_peer_id hs.peer_pub_key ≡ id
      → IsFlow pc.address env (identify_and_finish pc addrs env from id)
  unfolding identify_and_finish
  identify_and_finish-IsFlow pc hs addrs env from none at agreed e =
      stopped-IsFlow pc.address env pc (signaling ∷ exchanging_ips ∷ []) FlowError.deriving_peer_id
        refl (looked_up, (shook_hands, sym at))
  identify_and_finish-IsFlow pc hs addrs env from (some id) at agreed e =
      finish_flow-IsFlow (record pc { peer_id = some id }) hs id addrs env from agreed e refl

  exchange_and_finish-IsFlow :
      (pc : PeerConnection) (hs : HandshakeResult) (env : FlowEnv) (from : NatStrategy)
      (addrs : Option (List Bytes))
      → Agreed h rip b58 ed codecs pc.address env.session hs
      → IsFlow pc.address env (exchange_and_finish pc hs env from addrs)
  unfolding exchange_and_finish
  exchange_and_finish-IsFlow pc hs env from none agreed =
      stopped-IsFlow pc.address env (record pc { state = exchanging_ips })
        (signaling ∷ exchanging_ips ∷ []) FlowError.exchanging refl (looked_up, (shook_hands, refl))
  exchange_and_finish-IsFlow pc hs env from (some addrs) agreed =
      identify_and_finish-IsFlow (record pc { state = exchanging_ips }) hs addrs env from
        (env.derive_peer_id hs.peer_pub_key) refl agreed refl

  signal_and_finish-IsFlow :
      (client : Client) (pc : PeerConnection) (env : FlowEnv) (from : NatStrategy)
      → IsFlow pc.address env (signal_and_finish h rip b58 ed codecs client pc env from)
  unfolding signal_and_finish
  signal_and_finish-IsFlow client pc env from =
      elim (Result-cases (attempt_handshake h rip b58 ed codecs client pc.address env.session).1) [
        | inr (e, r) ↦
            rw (r, signal_and_finish)
              (stopped-IsFlow pc.address env (record pc { state = signaling }) (signaling ∷ [])
                (FlowError.handshake e) refl (looked_up, refl))
        | inl (hs, r) ↦
            rw (r, signal_and_finish)
              (exchange_and_finish-IsFlow pc hs env from env.peer_addrs
                (attempt_handshake-Agreed h rip b58 ed codecs client pc.address env.session hs r))
      ]

  -- The states that a flow reports begin with discovering and go on by the steps of the
  -- connection; the connection is left in the last of them. If the flow succeeds, the connection
  -- is direct or over Tor, and with a peer that proved to own the address in the flow's
  -- handshake, under the identifier that belongs to the key that it proved.
  pub connect_flow_from_strategy-IsFlow :
      (c : Connector) (pc : PeerConnection) (env : FlowEnv) (from : NatStrategy)
      → IsFlow pc.address env (connect_flow_from_strategy h rip b58 ed codecs c pc env from).1
  unfolding connect_flow_from_strategy
  connect_flow_from_strategy-IsFlow c pc env from =
      elim (Option-cases (cached_or_fresh_lookup c.lookup_cache pc.address env).1) [
        | inl e ↦
            rw (e, connect_flow_from_strategy)
              (stopped-IsFlow pc.address env (record pc { state = discovering }) []
                FlowError.discovering_peer refl refl)
        | inr (r, e) ↦
            rw (e, connect_flow_from_strategy) (signal_and_finish-IsFlow c.client pc env from)
      ]
