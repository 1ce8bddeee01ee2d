-- ===== src/Transport/Connector/Keeping.antt =====
-- What each operation of the connector does to the active peers of its table.
use ensemble.Common.{
  ℕ, zero, suc, ◌≡◌, ◌⊎◌, refl, sym, subst, Bool, true, false, Option, none, some, List, [], ◌∷◌,
  ◌++◌, length, ltb, if_intro, bytes_eq, bytes_eq_iff, Bool-cases, Option-cases, Nat-cases, inl,
  inr, arith,
}
use ensemble.Common.Maps.{lookup, delete, bytes_beq, Each, lookup-insert, lookup-delete}
use ensemble.Crypto.{Bytes, Sha256, Ripemd160, Base58, Ed25519}
use ensemble.Signaling.Client.{Codecs}
use ensemble.Transport.Connector.{
  ConnState, reconnecting, NatStrategy, direct, PeerConnection, Connector, reconnect_max_retries,
  is_active, FlowEnv, Flow, new_peer_connection, cached_or_fresh_lookup, connect_flow_from_strategy,
}
use ensemble.Transport.Connector.Peers.{
  oldest_active, evict_if_needed, get_peer, active_peer, with_peer, failed_peer, strategies_after,
  settle, connect, retry, reconnect, try_strategies, reconnect_with_fallback, disconnect,
}
use ensemble.Transport.Connector.Flows.{Established, connect_flow_from_strategy-IsFlow}

-- The table before a call, and the flows that run in it.
module _ (h : Sha256) (rip : Ripemd160) (b58 : Base58) (ed : Ed25519) (codecs : Codecs)
    (before : Connector) (Ran : FlowEnv → Type 0) where
  -- If the connection is active, it stood there before, or a flow that ran has established it with
  -- the owner of the address.
  unfoldable pub IsKnown : Bytes → PeerConnection → Type 0
  IsKnown addr pc =
      is_active pc.state ≡ true
      → (get_peer before addr ≡ some pc)
        ⊎ ((env : FlowEnv) × Ran env × Established h rip b58 ed codecs addr env pc)

  unfoldable pub IsTrusted : Connector → Type 0
  IsTrusted c = Each IsKnown c.peers

  with_peer-IsTrusted :
      (c : Connector) (pc : PeerConnection)
      → IsKnown pc.address pc
      → IsTrusted c
      → IsTrusted (with_peer c pc)
  unfolding IsTrusted
  with_peer-IsTrusted c pc known v addr q found = elim (Bool-cases (bytes_eq pc.address addr)) [
    | inl here ↦
        let same : pc ≡ q = ground (arith, lookup-insert pc.address addr pc c.peers) in
        subst (λ a. IsKnown a q) ((bytes_eq_iff pc.address addr).0 here)
          (subst (IsKnown pc.address) same known)
    | inr apart ↦ v addr q (ground (arith, lookup-insert pc.address addr pc c.peers))
  ]

  delete-IsTrusted :
      (c : Connector) (addr : Bytes)
      → IsTrusted c
      → IsTrusted (record c { peers = delete addr c.peers })
  unfolding IsTrusted
  delete-IsTrusted c addr v other q found =
      v other q (ground (arith, lookup-delete addr other c.peers))

  -- What is not active needs no proof.
  failed-IsKnown : (pc : PeerConnection) → IsKnown (failed_peer pc).address (failed_peer pc)
  unfolding IsKnown failed_peer is_active
  failed-IsKnown pc e = absurd (cc)

  -- The activity of a connection does not matter.
  touched-Established :
      (addr : Bytes) (env : FlowEnv) (pc : PeerConnection) (now : ℕ)
      → Established h rip b58 ed codecs addr env pc
      → Established h rip b58 ed codecs addr env (record pc { last_activity = now })
  touched-Established addr env pc now v = record {
    result = v.result;
    agreed = v.agreed;
    identified = v.identified;
    up = v.up;
    addressed = v.addressed;
  }

  Established-IsKnown :
      (addr : Bytes) (env : FlowEnv) (pc : PeerConnection)
      → Ran env
      → Established h rip b58 ed codecs addr env pc
      → IsKnown addr pc
  unfolding IsKnown
  Established-IsKnown addr env pc ran v active = inr (env, ran, v)

  evict_if_needed-IsTrusted : (c : Connector) → IsTrusted c → IsTrusted (evict_if_needed c)
  unfolding evict_if_needed
  evict_if_needed-IsTrusted c v =
      if_intro IsTrusted (ltb (length c.peers) c.max_peers) (λ room. v)
        (λ full. go (oldest_active c.peers))
    where
      go :
          (o : Option (Bytes × PeerConnection))
          → IsTrusted (elim o [
            | none ↦ c
            | some ([], _) ↦ c
            | some (b ∷ addr, _) ↦ record c { peers = delete (b ∷ addr) c.peers }
          ])
      go none = v
      go (some ([], pc)) = v
      go (some (b ∷ addr, pc)) = delete-IsTrusted c (b ∷ addr) v

  -- A flow without an error gives a connection that is known.
  flow-Established :
      (c : Connector) (pc : PeerConnection) (env : FlowEnv) (from : NatStrategy)
      → let flow = connect_flow_from_strategy h rip b58 ed codecs c pc env from in
        flow.1.error ≡ none → Established h rip b58 ed codecs flow.1.pc.address env flow.1.pc
  flow-Established c pc env from e =
      let flow = connect_flow_from_strategy h rip b58 ed codecs c pc env from in
      let v = (connect_flow_from_strategy-IsFlow h rip b58 ed codecs c pc env from).established e in
      subst (λ a. Established h rip b58 ed codecs a env flow.1.pc) (sym v.addressed) v

  -- A flow changes the cache only.
  flow-IsTrusted :
      (c : Connector) (pc : PeerConnection) (env : FlowEnv) (from : NatStrategy)
      → IsTrusted c
      → IsTrusted (connect_flow_from_strategy h rip b58 ed codecs c pc env from).0
  unfolding connect_flow_from_strategy IsTrusted
  flow-IsTrusted c pc env from v =
      elim (Option-cases (cached_or_fresh_lookup c.lookup_cache pc.address env).1) [
        | inl e ↦ rw (e, connect_flow_from_strategy) v
        | inr (r, e) ↦ rw (e, connect_flow_from_strategy) v
      ]

  new-IsTrusted :
      (c : Connector) (addr : Bytes) (now : ℕ) (state : ConnState)
      → is_active state ≡ false
      → IsTrusted c
      → IsTrusted (with_peer c (record (new_peer_connection addr now) { state = state }))
  unfolding IsKnown
  new-IsTrusted c addr now state idle v =
      with_peer-IsTrusted c (record (new_peer_connection addr now) { state = state })
        (λ active. absurd (ground arith)) v

  settle-IsTrusted :
      (c : Connector) (flow : Flow) (env : FlowEnv) (now : ℕ)
      → Ran env
      → (flow.error ≡ none → Established h rip b58 ed codecs flow.pc.address env flow.pc)
      → IsTrusted c
      → IsTrusted (settle h rip b58 ed codecs c flow now).0
  unfolding settle
  settle-IsTrusted c flow env now ran known v = elim (Option-cases flow.error) [
    | inl e ↦
        rw (e, settle)
          (with_peer-IsTrusted c (record flow.pc { last_activity = now })
            (Established-IsKnown flow.pc.address env (record flow.pc { last_activity = now }) ran
              (touched-Established flow.pc.address env flow.pc now (known e)))
            v)
    | inr (x, e) ↦
        rw (e, settle) (with_peer-IsTrusted c (failed_peer flow.pc) (failed-IsKnown flow.pc) v)
  ]

  pub connect-IsTrusted :
      (c : Connector) (addr : Bytes) (env : FlowEnv) (now later : ℕ)
      → Ran env
      → IsTrusted c
      → IsTrusted (connect h rip b58 ed codecs c addr env now later).0
  unfolding connect new_peer_connection
  connect-IsTrusted c addr env now later ran v = elim (Option-cases (active_peer c addr)) [
    | inr (pc, e) ↦ rw (e, connect) v
    | inl e ↦
        let pc = new_peer_connection addr now in
        let started = with_peer (evict_if_needed c) pc in
        let flow = connect_flow_from_strategy h rip b58 ed codecs started pc env direct in
        rw (e, connect)
          (settle-IsTrusted flow.0 flow.1 env later ran (flow-Established started pc env direct) (
            flow-IsTrusted started pc env direct (
              new-IsTrusted (evict_if_needed c) addr now ConnState.discovering refl
                (evict_if_needed-IsTrusted c v))))
  ]

  retry-IsTrusted :
      (c : Connector) (pc : PeerConnection) (env : ℕ → FlowEnv) (is_done : ℕ → Bool)
      (rounds attempt later : ℕ) (events : List ConnState)
      → ((k : ℕ) → Ran (env k))
      → IsTrusted c
      → IsTrusted (retry h rip b58 ed codecs c pc env is_done rounds attempt later events).0
  unfolding retry
  retry-IsTrusted c pc env is_done zero attempt later events ran v = v
  retry-IsTrusted c pc env is_done (suc rounds) attempt later events ran v =
      let flow = connect_flow_from_strategy h rip b58 ed codecs c pc (env attempt) direct in
      let kept = flow-IsTrusted c pc (env attempt) direct v in
      let given_up =
        with_peer-IsTrusted flow.0 (failed_peer flow.1.pc) (failed-IsKnown flow.1.pc) kept in
      elim (Option-cases flow.1.error) [
        | inl e ↦
            rw (e, retry)
              (with_peer-IsTrusted flow.0 (record flow.1.pc { last_activity = later })
                (Established-IsKnown flow.1.pc.address (env attempt)
                  (record flow.1.pc { last_activity = later }) (ran attempt)
                  (touched-Established flow.1.pc.address (env attempt) flow.1.pc later
                    (flow-Established c pc (env attempt) direct e)))
                kept)
        | inr (x, e) ↦ elim (Nat-cases rounds) [
          | inl z ↦ rw (e, z, retry) given_up
          | inr (k, z) ↦ elim (Bool-cases (is_done attempt)) [
            | inl d ↦ rw (e, z, d, retry) given_up
            | inr d ↦
                rw (e, z, d, retry)
                  (retry-IsTrusted flow.0 flow.1.pc env is_done rounds (suc attempt) later
                    (events ++ flow.1.events) ran kept)
          ]
        ]
      ]

  pub reconnect-IsTrusted :
      (c : Connector) (addr : Bytes) (env : ℕ → FlowEnv) (is_done : ℕ → Bool) (now later : ℕ)
      → ((k : ℕ) → Ran (env k))
      → IsTrusted c
      → IsTrusted (reconnect h rip b58 ed codecs c addr env is_done now later).0
  unfolding reconnect is_active
  reconnect-IsTrusted c addr env is_done now later ran v =
      elim (Option-cases (active_peer c addr)) [
        | inr (pc, e) ↦ rw (e, reconnect) v
        | inl e ↦
            let pc = record (new_peer_connection addr now) { state = reconnecting } in
            rw (e, reconnect)
              (retry-IsTrusted (with_peer c pc) pc env is_done reconnect_max_retries 0 later
                (reconnecting ∷ []) ran (new-IsTrusted c addr now reconnecting refl v))
      ]

  try_strategies-IsTrusted :
      (c : Connector) (pc : PeerConnection) (env : NatStrategy → FlowEnv) (ss : List NatStrategy)
      (events : List ConnState)
      → ((s : NatStrategy) → Ran (env s))
      → IsTrusted c
      → IsTrusted (try_strategies h rip b58 ed codecs c pc env ss events).0
  unfolding try_strategies
  try_strategies-IsTrusted c pc env [] events ran v =
      with_peer-IsTrusted c (failed_peer pc) (failed-IsKnown pc) v
  try_strategies-IsTrusted c pc env (s ∷ ss) events ran v =
      let flow = connect_flow_from_strategy h rip b58 ed codecs c pc (env s) s in
      let kept = flow-IsTrusted c pc (env s) s v in
      elim (Option-cases flow.1.error) [
        | inl e ↦
            rw (e, try_strategies)
              (with_peer-IsTrusted flow.0 flow.1.pc
                (Established-IsKnown flow.1.pc.address (env s) flow.1.pc (ran s)
                  (flow-Established c pc (env s) s e))
                kept)
        | inr (x, e) ↦
            rw (e, try_strategies)
              (try_strategies-IsTrusted flow.0 flow.1.pc env ss (events ++ flow.1.events) ran kept)
      ]

  pub falls_back-IsTrusted :
      (c : Connector) (addr : Bytes) (env : NatStrategy → FlowEnv) (now : ℕ)
      → ((s : NatStrategy) → Ran (env s))
      → IsTrusted c
      → IsTrusted (reconnect_with_fallback h rip b58 ed codecs c addr env now).0
  unfolding reconnect_with_fallback is_active
  falls_back-IsTrusted c addr env now ran v =
      let first : NatStrategy = elim (lookup addr c.peers) [
        | none ↦ direct
        | some prev ↦ prev.strategy
      ] in
      let pc = record (new_peer_connection addr now) { state = reconnecting } in
      try_strategies-IsTrusted (with_peer c pc) pc env (first ∷ strategies_after first)
        (reconnecting ∷ []) ran (new-IsTrusted c addr now reconnecting refl v)

  pub disconnect-IsTrusted :
      (c : Connector) (addr : Bytes) → IsTrusted c → IsTrusted (disconnect c addr).0
  unfolding disconnect
  disconnect-IsTrusted c addr v = elim (Option-cases (lookup addr c.peers)) [
    | inl e ↦ rw (e, disconnect) v
    | inr (pc, e) ↦ rw (e, disconnect) (delete-IsTrusted c addr v)
  ]
