-- ===== src/Transport/Connector/Trust.antt =====
-- Every active peer in the connector's table has proved its address, in a call of the connector.
use ensemble.Common.{ℕ, ◌≡◌, ◌⊎◌, refl, ap, Bool, true, some, List, [], ◌∷◌, ◌++◌, inl, inr}
use ensemble.Common.Maps.{lookup, bytes_beq}
use ensemble.Crypto.{Bytes, Sha256, Ripemd160, Base58, Ed25519}
use ensemble.Signaling.Client.{Codecs, Client}
use ensemble.Transport.Connector.{
  NatStrategy, PeerConnection, Connector, new_connector, is_active, FlowEnv,
}
use ensemble.Transport.Connector.Peers.{
  get_peer, connect, reconnect, reconnect_with_fallback, disconnect,
}
use ensemble.Transport.Connector.Flows.{Established}
use ensemble.Transport.Connector.Keeping.{
  IsKnown, IsTrusted, connect-IsTrusted, reconnect-IsTrusted, falls_back-IsTrusted,
  disconnect-IsTrusted,
}

-- The calls that change the table of peers, with what happens in them.
pub data ConnectorCall : Type 0 where
  connects : Bytes → FlowEnv → ℕ → ℕ → ConnectorCall
  reconnects : Bytes → (ℕ → FlowEnv) → (ℕ → Bool) → ℕ → ℕ → ConnectorCall
  falls_back : Bytes → (NatStrategy → FlowEnv) → ℕ → ConnectorCall
  disconnects : Bytes → ConnectorCall

-- What the network does in a flow of the call.
pub data Uses : ConnectorCall → FlowEnv → Type 0 where
  in_connect :
      (addr : Bytes) (env : FlowEnv) (now later : ℕ) → Uses (connects addr env now later) env
  in_reconnect :
      (addr : Bytes) (env : ℕ → FlowEnv) (is_done : ℕ → Bool) (now later k : ℕ)
      → Uses (reconnects addr env is_done now later) (env k)
  in_fallback :
      (addr : Bytes) (env : NatStrategy → FlowEnv) (now : ℕ) (s : NatStrategy)
      → Uses (falls_back addr env now) (env s)

module _ (h : Sha256) (rip : Ripemd160) (b58 : Base58) (ed : Ed25519) (codecs : Codecs) where
  unfoldable pub after_connector_call : Connector → ConnectorCall → Connector
  after_connector_call c (connects addr env now later) =
      (connect h rip b58 ed codecs c addr env now later).0
  after_connector_call c (reconnects addr env is_done now later) =
      (reconnect h rip b58 ed codecs c addr env is_done now later).0
  after_connector_call c (falls_back addr env now) =
      (reconnect_with_fallback h rip b58 ed codecs c addr env now).0
  after_connector_call c (disconnects addr) = (disconnect c addr).0

  unfoldable pub after_connector_calls : Connector → List ConnectorCall → Connector
  unfolding after_connector_call
  after_connector_calls c [] = c
  after_connector_calls c (x ∷ xs) = after_connector_calls (after_connector_call c x) xs

  -- An active peer after a call stood there before it, or a flow of this call established it.
  after_connector_call-IsTrusted :
      (c : Connector) (x : ConnectorCall)
      → IsTrusted h rip b58 ed codecs c (Uses x) (after_connector_call c x)
  unfolding after_connector_call IsTrusted IsKnown get_peer
  after_connector_call-IsTrusted c (connects addr env now later) =
      connect-IsTrusted h rip b58 ed codecs c (Uses (connects addr env now later)) c addr env now
        later (in_connect addr env now later) (λ a pc found active. inl found)
  after_connector_call-IsTrusted c (reconnects addr env is_done now later) =
      reconnect-IsTrusted h rip b58 ed codecs c (Uses (reconnects addr env is_done now later)) c
        addr env is_done now later (in_reconnect addr env is_done now later)
        (λ a pc found active. inl found)
  after_connector_call-IsTrusted c (falls_back addr env now) =
      falls_back-IsTrusted h rip b58 ed codecs c (Uses (falls_back addr env now)) c addr env now
        (in_fallback addr env now) (λ a pc found active. inl found)
  after_connector_call-IsTrusted c (disconnects addr) =
      disconnect-IsTrusted h rip b58 ed codecs c (Uses (disconnects addr)) c addr
        (λ a pc found active. inl found)

  -- One of the calls has left the connection as it is, and a flow of that very call has established
  -- it with the owner of the address.
  pub record Origin (c : Connector) (xs : List ConnectorCall) (addr : Bytes) (pc : PeerConnection)
      : Type 0 where
    pub earlier : List ConnectorCall
    pub call : ConnectorCall
    pub rest : List ConnectorCall
    pub split : xs ≡ earlier ++ call ∷ rest
    pub left : get_peer (after_connector_calls c (earlier ++ call ∷ [])) addr ≡ some pc
    pub env : FlowEnv
    pub used : Uses call env
    pub established : Established h rip b58 ed codecs addr env pc

  after_connector_calls-Origin :
      (c : Connector) (xs : List ConnectorCall) (addr : Bytes) (pc : PeerConnection)
      → get_peer (after_connector_calls c xs) addr ≡ some pc
      → is_active pc.state ≡ true
      → (get_peer c addr ≡ some pc) ⊎ Origin c xs addr pc
  unfolding after_connector_calls IsTrusted IsKnown get_peer
  after_connector_calls-Origin c [] addr pc found active = inl found
  after_connector_calls-Origin c (x ∷ xs) addr pc found active =
      elim (after_connector_calls-Origin (after_connector_call c x) xs addr pc found active) [
        | inr o ↦ inr (record {
          earlier = x ∷ o.earlier;
          call = o.call;
          rest = o.rest;
          split = ap (λ (l : List ConnectorCall). x ∷ l) o.split;
          left = o.left;
          env = o.env;
          used = o.used;
          established = o.established;
        })
        | inl here ↦ elim (after_connector_call-IsTrusted c x addr pc here active) [
          | inl before ↦ inl before
          | inr (env, used, v) ↦ inr (record {
            earlier = [];
            call = x;
            rest = xs;
            split = refl;
            left = here;
            env = env;
            used = used;
            established = v;
          })
        ]
      ]

  -- After any sequence of Connect, Reconnect, ReconnectWithFallback and Disconnect on a new
  -- connector, whatever the network does: a peer that is in the table as connected, directly or
  -- over Tor, was left there so by one of the calls, in a flow of which it proved to own the address
  -- under which it stands; its identifier is the one that this flow derived from the proved key.
  pub new_connector-after_connector_calls :
      (client : Client) (max_peers max_xfers : ℕ) (xs : List ConnectorCall) (addr : Bytes)
      (pc : PeerConnection)
      → get_peer (after_connector_calls (new_connector client max_peers max_xfers) xs) addr
        ≡ some pc
      → is_active pc.state ≡ true
      → Origin (new_connector client max_peers max_xfers) xs addr pc
  unfolding get_peer new_connector lookup
  new_connector-after_connector_calls client max_peers max_xfers xs addr pc found active =
      elim (after_connector_calls-Origin (new_connector client max_peers max_xfers) xs addr pc found
        active) [ inl before ↦ absurd (cc) | inr o ↦ o ]
