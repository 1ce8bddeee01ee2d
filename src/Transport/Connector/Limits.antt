-- ===== src/Transport/Connector/Limits.antt =====
-- The number of active peers.
use ensemble.Common.{
  ℕ, suc, ◌≤◌, ◌<◌, ◌≡◌, refl, sym, subst, Bool, true, false, Option, none, some, List, [], ◌∷◌,
  length, ltb, ltb→lt, ◌==◌, if_intro, if◌then◌else◌, bytes_eq, bytes_eq_iff, Bool-cases,
  Option-cases, inl, inr, arith,
}
use ensemble.Common.Maps.{lookup, insert, delete, bytes_beq}
use ensemble.Crypto.{Bytes, Sha256, Ripemd160, Base58, Ed25519}
use ensemble.Signaling.Client.{Codecs, Client}
use ensemble.Transport.Connector.{
  NatStrategy, direct, PeerConnection, Connector, new_connector, is_active, FlowEnv, Flow,
  new_peer_connection, cached_or_fresh_lookup, connect_flow_from_strategy,
}
use ensemble.Transport.Connector.Peers.{
  oldest_active, evict_if_needed, active_in, active_peers, active_peer, with_peer, failed_peer,
  settle, connect, disconnect,
}
use ensemble.Transport.Connector.Flows.{connect_flow_from_strategy-IsFlow}

abbrev pub Table : Type 0
Table = List (Bytes × PeerConnection)

unfoldable pub active_count : Table → ℕ
active_count [] = 0
active_count ((addr, pc) ∷ m) =
    let rest = active_count m in if is_active pc.state then suc rest else rest

abbrev is_nil : Bytes → Bool
is_nil [] = true
is_nil (_ ∷ _) = false

-- No empty address.
abbrev Named : Table → Type 0
Named [] = Unit
Named ((addr, pc) ∷ m) = (is_nil addr ≡ false) × Named m

active_count-le : (m : Table) → active_count m ≤ length m
unfolding active_count
active_count-le [] = omega arith
active_count-le ((addr, pc) ∷ m) = ground (arith, active_count-le m)

active_count-insert :
    (k : Bytes) (pc : PeerConnection) (m : Table)
    → active_count (insert k pc m) ≤ suc (active_count m)
unfolding active_count insert
active_count-insert k pc [] = ground arith
active_count-insert k pc ((j, q) ∷ m) = ground (arith, active_count-insert k pc m)

active_count-insert_idle :
    (k : Bytes) (pc : PeerConnection) (m : Table)
    → is_active pc.state ≡ false
    → active_count (insert k pc m) ≤ active_count m
unfolding active_count insert
active_count-insert_idle k pc [] h = ground arith
active_count-insert_idle k pc ((j, q) ∷ m) h = ground (arith, active_count-insert_idle k pc m h)

active_count-delete : (k : Bytes) (m : Table) → active_count (delete k m) ≤ active_count m
unfolding active_count delete
active_count-delete k [] = omega arith
active_count-delete k ((j, q) ∷ m) = ground (arith, active_count-delete k m)

insert-Named :
    (k : Bytes) (pc : PeerConnection) (m : Table)
    → is_nil k ≡ false
    → Named m
    → Named (insert k pc m)
unfolding insert
insert-Named k pc [] h v = (h, tt)
insert-Named k pc ((j, q) ∷ m) h v = elim (Bool-cases (bytes_eq j k)) [
  | inl e ↦ rw (e, insert) (h, v.1)
  | inr e ↦ rw (e, insert) (v.0, insert-Named k pc m h v.1)
]

delete-Named : (k : Bytes) (m : Table) → Named m → Named (delete k m)
unfolding delete
delete-Named k [] v = tt
delete-Named k ((j, q) ∷ m) v = elim (Bool-cases (bytes_eq j k)) [
  | inl e ↦ rw (e, delete) (delete-Named k m v.1)
  | inr e ↦ rw (e, delete) (v.0, delete-Named k m v.1)
]

oldest_active-none : (m : Table) → oldest_active m ≡ none → active_count m ≡ 0
unfolding oldest_active active_count
oldest_active-none [] e = refl
oldest_active-none ((addr, pc) ∷ m) e = elim (Bool-cases (is_active pc.state)) [
  | inr idle ↦ ground (arith, oldest_active-none m)
  | inl active ↦ elim (Option-cases (oldest_active m)) [
    | inl r ↦ absurd (ground arith)
    | inr ((b, q), r) ↦ elim (Bool-cases (ltb q.last_activity pc.last_activity)) [
      | inl older ↦ absurd (ground arith)
      | inr newer ↦ absurd (ground arith)
    ]
  ]
]

-- The oldest active peer has an address, and without it there are fewer.
oldest_active-some :
    (m : Table) (addr : Bytes) (pc : PeerConnection)
    → Named m
    → oldest_active m ≡ some (addr, pc)
    → (is_nil addr ≡ false) × (suc (active_count (delete addr m)) ≤ active_count m)
unfolding oldest_active active_count delete
oldest_active-some [] addr pc v e = absurd (cc)
oldest_active-some ((k, q) ∷ m) addr pc v e = elim (Bool-cases (is_active q.state)) [
  | inr idle ↦
      let (named, fewer) = oldest_active-some m addr pc v.1 (ground arith) in
      (named, ground (arith, fewer))
  | inl active ↦ elim (Option-cases (oldest_active m)) [
    | inl r ↦
        let here : k ≡ addr = ground arith in
        (
          subst (λ a. is_nil a ≡ false) here v.0,
          ground (arith, bytes_eq_iff k addr, active_count-delete addr m),
        )
    | inr ((b, p), r) ↦ elim (Bool-cases (ltb p.last_activity q.last_activity)) [
      | inl older ↦
          let there : oldest_active m ≡ some (addr, pc) = ground arith in
          let (named, fewer) = oldest_active-some m addr pc v.1 there in
          (named, ground (arith, fewer))
      | inr newer ↦
          let here : k ≡ addr = ground arith in
          (
            subst (λ a. is_nil a ≡ false) here v.0,
            ground (arith, bytes_eq_iff k addr, active_count-delete addr m),
          )
    ]
  ]
]

-- The limit `n` is not 0, no address is empty, and the active peers are within the limit.
record IsWithin (n : ℕ) (c : Connector) : Type 0 where
  limit : 0 < n
  same_limit : c.max_peers ≡ n
  named : Named c.peers
  within : active_count c.peers ≤ n

-- There is room for one more active peer.
record HasRoom (max_peers : ℕ) (c : Connector) : Type 0 where
  inside : IsWithin max_peers c
  room : active_count c.peers < max_peers

evict_if_needed-HasRoom : (n : ℕ) (c : Connector) → IsWithin n c → HasRoom n (evict_if_needed c)
unfolding evict_if_needed
evict_if_needed-HasRoom n c v =
    if_intro (HasRoom n) (ltb (length c.peers) c.max_peers)
      (λ few. record {
        inside = v;
        room = omega (arith, ltb→lt _ _ few, active_count-le c.peers, v.same_limit);
      })
      (λ full. evicted (oldest_active c.peers) refl)
  where
    evicted :
        (o : Option (Bytes × PeerConnection))
        → oldest_active c.peers ≡ o
        → HasRoom n (elim o [
          | none ↦ c
          | some ([], _) ↦ c
          | some (b ∷ addr, _) ↦ record c { peers = delete (b ∷ addr) c.peers }
        ])
    evicted none e = record {
      inside = v;
      room = omega (arith, oldest_active-none c.peers e, v.limit);
    }
    evicted (some ([], pc)) e =
        let (named, fewer) = oldest_active-some c.peers [] pc v.named e in absurd (cc)
    evicted (some (b ∷ addr, pc)) e =
        let (named, fewer) = oldest_active-some c.peers (b ∷ addr) pc v.named e in
        record {
          inside = record {
            limit = v.limit;
            same_limit = v.same_limit;
            named = delete-Named (b ∷ addr) c.peers v.named;
            within = omega (arith, fewer, v.within);
          };
          room = omega (arith, fewer, v.within);
        }

with_idle-HasRoom :
    (n : ℕ) (c : Connector) (pc : PeerConnection)
    → is_active pc.state ≡ false
    → is_nil pc.address ≡ false
    → HasRoom n c
    → HasRoom n (with_peer c pc)
with_idle-HasRoom n c pc idle named v =
    let fewer = active_count-insert_idle pc.address pc c.peers idle in
    record {
      inside = record {
        limit = v.inside.limit;
        same_limit = v.inside.same_limit;
        named = insert-Named pc.address pc c.peers named v.inside.named;
        within = omega (arith, fewer, v.inside.within);
      };
      room = omega (arith, fewer, v.room);
    }

with_peer-IsWithin :
    (n : ℕ) (c : Connector) (pc : PeerConnection)
    → is_nil pc.address ≡ false
    → HasRoom n c
    → IsWithin n (with_peer c pc)
with_peer-IsWithin n c pc named v = record {
  limit = v.inside.limit;
  same_limit = v.inside.same_limit;
  named = insert-Named pc.address pc c.peers named v.inside.named;
  within = omega (arith, active_count-insert pc.address pc c.peers, v.room);
}

module _ (h : Sha256) (rip : Ripemd160) (b58 : Base58) (ed : Ed25519) (codecs : Codecs) where
  flow-HasRoom :
      (n : ℕ) (c : Connector) (pc : PeerConnection) (env : FlowEnv) (from : NatStrategy)
      → HasRoom n c
      → HasRoom n (connect_flow_from_strategy h rip b58 ed codecs c pc env from).0
  unfolding connect_flow_from_strategy
  flow-HasRoom n c pc env from v =
      elim (Option-cases (cached_or_fresh_lookup c.lookup_cache pc.address env).1) [
        | inl e ↦ rw (e, connect_flow_from_strategy) kept
        | inr (r, e) ↦ rw (e, connect_flow_from_strategy) kept
      ]
    where
      kept :
          HasRoom n
            (record c { lookup_cache = (cached_or_fresh_lookup c.lookup_cache pc.address env).0 })
      kept = record {
        inside = record {
          limit = v.inside.limit;
          same_limit = v.inside.same_limit;
          named = v.inside.named;
          within = v.inside.within;
        };
        room = v.room;
      }

  settle-IsWithin :
      (n : ℕ) (c : Connector) (flow : Flow) (now : ℕ)
      → is_nil flow.pc.address ≡ false
      → HasRoom n c
      → IsWithin n (settle h rip b58 ed codecs c flow now).0
  unfolding settle failed_peer
  settle-IsWithin n c flow now named v = elim (Option-cases flow.error) [
    | inl e ↦
        rw (e, settle) (with_peer-IsWithin n c (record flow.pc { last_activity = now }) named v)
    | inr (x, e) ↦ rw (e, settle) (with_peer-IsWithin n c (failed_peer flow.pc) named v)
  ]

  connect-IsWithin :
      (n : ℕ) (c : Connector) (addr : Bytes) (env : FlowEnv) (now later : ℕ)
      → is_nil addr ≡ false
      → IsWithin n c
      → IsWithin n (connect h rip b58 ed codecs c addr env now later).0
  unfolding connect new_peer_connection is_active
  connect-IsWithin n c addr env now later named v = elim (Option-cases (active_peer c addr)) [
    | inr (pc, e) ↦ rw (e, connect) v
    | inl e ↦
        let pc = new_peer_connection addr now in
        let started = with_peer (evict_if_needed c) pc in
        let flow = connect_flow_from_strategy h rip b58 ed codecs started pc env direct in
        let kept : flow.1.pc.address ≡ addr =
          (connect_flow_from_strategy-IsFlow h rip b58 ed codecs started pc env direct).kept in
        rw (e, connect)
          (settle-IsWithin n flow.0 flow.1 later (subst (λ a. is_nil a ≡ false) (sym kept) named) (
            flow-HasRoom n started pc env direct (
              with_idle-HasRoom n (evict_if_needed c) pc refl named
                (evict_if_needed-HasRoom n c v))))
  ]

  disconnect-IsWithin :
      (n : ℕ) (c : Connector) (addr : Bytes) → IsWithin n c → IsWithin n (disconnect c addr).0
  unfolding disconnect
  disconnect-IsWithin n c addr v = elim (Option-cases (lookup addr c.peers)) [
    | inl e ↦ rw (e, disconnect) v
    | inr (pc, e) ↦
        rw (e, disconnect)
          (record {
            limit = v.limit;
            same_limit = v.same_limit;
            named = delete-Named addr c.peers v.named;
            within = omega (arith, active_count-delete addr c.peers, v.within);
          })
  ]

-- Calls in turn; an address to connect to is its first byte and the others.
pub data Turn : Type 0 where
  connects_to : ℕ → Bytes → FlowEnv → ℕ → ℕ → Turn
  disconnects_from : Bytes → Turn

module _ (h : Sha256) (rip : Ripemd160) (b58 : Base58) (ed : Ed25519) (codecs : Codecs) where
  unfoldable pub after_turns : Connector → List Turn → Connector
  after_turns c [] = c
  after_turns c (connects_to b addr env now later ∷ ts) =
      after_turns (connect h rip b58 ed codecs c (b ∷ addr) env now later).0 ts
  after_turns c (disconnects_from addr ∷ ts) = after_turns (disconnect c addr).0 ts

  after_turns-IsWithin :
      (n : ℕ) (c : Connector) (ts : List Turn) → IsWithin n c → IsWithin n (after_turns c ts)
  unfolding after_turns
  after_turns-IsWithin n c [] v = v
  after_turns-IsWithin n c (connects_to b addr env now later ∷ ts) v =
      after_turns-IsWithin n (connect h rip b58 ed codecs c (b ∷ addr) env now later).0 ts
        (connect-IsWithin h rip b58 ed codecs n c (b ∷ addr) env now later refl v)
  after_turns-IsWithin n c (disconnects_from addr ∷ ts) v =
      after_turns-IsWithin n (disconnect c addr).0 ts
        (disconnect-IsWithin h rip b58 ed codecs n c addr v)

  length-active_in : (m : Table) → length (active_in m) ≡ active_count m
  unfolding active_in active_count
  length-active_in [] = refl
  length-active_in ((addr, pc) ∷ m) = ground (arith, length-active_in m)

  -- After any sequence of Connect, to addresses that are not empty, and Disconnect on a new
  -- connector, one at a time, ActivePeers returns at most the maximal number of peers, which is 50
  -- if it is given as 0.
  pub new_connector-after_turns :
      (client : Client) (max_peers max_xfers : ℕ) (ts : List Turn)
      → length (active_peers (after_turns (new_connector client max_peers max_xfers) ts))
        ≤ (if max_peers == 0 then 50 else max_peers)
  unfolding active_peers
  new_connector-after_turns client max_peers max_xfers ts =
      let n = if max_peers == 0 then 50 else max_peers in
      let v = after_turns-IsWithin n (new_connector client max_peers max_xfers) ts (
        unfold new_connector in
        unfold active_count in
        record { limit = ground arith; same_limit = refl; named = tt; within = omega arith }) in
      omega (
        arith,
        v.within,
        length-active_in (after_turns (new_connector client max_peers max_xfers) ts).peers,
      )
