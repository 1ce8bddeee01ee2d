-- ===== src/Discovery/Dht/Tables.antt =====
-- A DHT node changes its routing table through the operations of the table only.
use ensemble.Common.{
  ℕ, zero, suc, ◌+◌, ◌≤◌, ◌≡◌, ◌==◌, refl, sym, ap, subst, ◌∙◌, Bool, true, false, not, ◌&&◌,
  Option, none, some, List, [], ◌∷◌, ◌++◌, bytes_eq, Bool-cases, Option-cases, Nat-cases,
  List-cases, inl, inr, arith, Result-cases,
}
use ensemble.Crypto.{Bytes, Base58}
use ensemble.Protocol.Envelope.{Envelope}
use ensemble.Discovery.NodeId.{NodeId}
use ensemble.Discovery.NodeId.Derivation.{node_id_from_address}
use ensemble.Discovery.Routing.{
  PeerInfo, RoutingTable, bucket_size, add_peer, record_failure, record_success, evict_by_failures,
  find_closest,
}
use ensemble.Discovery.Routing.Invariant.{
  Call, add, evicts_failed, fails, succeeds, after_call, after_calls,
}
use ensemble.Discovery.Routing.Limits.{Forward}
use ensemble.Discovery.Dht.{
  Dht, PeerRecord, DhtCodecs, record_to_peer_info, is_expired, seen_at, local_identities_snapshot,
  peer_info_to_record,
}
use ensemble.Discovery.Dht.Queries.{
  World, Run, dht_find_node, dht_put_record, response_to, send_find_node, send_put_record,
  add_answers, accepted_record, handle_put_record, handle_envelope,
}
use ensemble.Discovery.Dht.Search.{
  find_local, take_found, ask, query_round, query_rounds, was_queried, start_run, seed_of,
  dht_lookup, add_all, bootstrap, announce_to, announce_all, announce, AnnounceError,
  no_peers_to_announce_to, all_unreachable,
}

-- One table comes from another by calls of its operations, each with a clock that goes forward.
unfoldable pub Reached : RoutingTable → RoutingTable → Type 0
Reached rt rt' = (cs : List Call) × Forward cs × (rt' ≡ after_calls rt cs)

after_calls-append :
    (rt : RoutingTable) (cs ds : List Call)
    → after_calls rt (cs ++ ds) ≡ after_calls (after_calls rt cs) ds
unfolding after_calls
after_calls-append rt [] ds = refl
after_calls-append rt (c ∷ cs) ds = after_calls-append (after_call rt c) cs ds

Forward-append : (cs ds : List Call) → Forward cs → Forward ds → Forward (cs ++ ds)
Forward-append [] ds f g = g
Forward-append (c ∷ cs) ds f g = (f.0, Forward-append cs ds f.1 g)

pub Reached-refl : (rt : RoutingTable) → Reached rt rt
unfolding Reached after_calls
Reached-refl rt = ([], tt, refl)

pub Reached-trans : (a b c : RoutingTable) → Reached a b → Reached b c → Reached a c
unfolding Reached
Reached-trans a b c (cs, f, e) (ds, g, e') = (
  cs ++ ds,
  Forward-append cs ds f g,
  e' ∙ ap (λ t. after_calls t ds) e ∙ sym (after_calls-append a cs ds),
)

add_peer-Reached :
    (rt : RoutingTable) (p : PeerInfo) (source : NodeId) (checked recorded : ℕ)
    → checked ≤ recorded
    → Reached rt (add_peer rt p source checked recorded).0
unfolding Reached after_calls after_call
add_peer-Reached rt p source checked recorded mono =
    (add p source checked recorded ∷ [], (mono, tt), refl)

record_failure-Reached :
    (rt : RoutingTable) (onion : Bytes) → Reached rt (record_failure rt onion).0
unfolding Reached after_calls after_call
record_failure-Reached rt onion = (fails onion ∷ [], (tt, tt), refl)

record_success-Reached : (rt : RoutingTable) (onion : Bytes) → Reached rt (record_success rt onion)
unfolding Reached after_calls after_call
record_success-Reached rt onion = (succeeds onion ∷ [], (tt, tt), refl)

evict_by_failures-Reached :
    (rt : RoutingTable) (threshold : ℕ) → Reached rt (evict_by_failures rt threshold).0
unfolding Reached after_calls after_call
evict_by_failures-Reached rt threshold = (evicts_failed threshold ∷ [], (tt, tt), refl)

-- The clock does not run back.
abbrev pub IsForwardClock : World → Type 0
IsForwardClock w = (m n : ℕ) → m ≤ n → w.clock m ≤ w.clock n

module _ (w : World) (codecs : DhtCodecs) (mono : IsForwardClock w) where
  add_answers-Reached :
      (s : Run) (source : NodeId) (rs : List PeerRecord)
      → Reached s.rt (add_answers w codecs s source rs).rt
  unfolding add_answers
  add_answers-Reached s source [] = Reached-refl s.rt
  add_answers-Reached s source (r ∷ rs) = elim (Option-cases (record_to_peer_info (some r))) [
    | inl e ↦ rw (e, add_answers) (add_answers-Reached s source rs)
    | inr (p, e) ↦
        let added = add_peer s.rt p source (w.clock s.next) (w.clock (suc s.next)) in
        rw (e, add_answers)
          (Reached-trans s.rt added.0 _
            (add_peer-Reached s.rt p source _ _ (mono _ _ (omega arith)))
            (add_answers-Reached (record s { rt = added.0; next = 2 + s.next }) source rs))
  ]

  send_put_record-Reached :
      (s : Run) (peer ident : PeerInfo) → Reached s.rt (send_put_record w codecs s peer ident).0.rt
  unfolding send_put_record
  send_put_record-Reached s peer ident =
      elim (Result-cases (response_to w codecs s.next peer.onion_addr dht_put_record query)) [
        | inr (e, r) ↦ rw (r, send_put_record) (Reached-refl s.rt)
        | inl (resp, r) ↦
            rw (r, send_put_record)
              (add_answers-Reached (record s { next = suc s.next; asked = peer.id ∷ s.asked })
                peer.id resp.peers)
      ]
    where
      query : Option Bytes
      query = codecs.put_record.marshal (record { announced = some (peer_info_to_record ident) })

  -- A request for peers leaves the table as it is.
  pub send_find_node-rt :
      (ttl : ℕ) (s : Run) (peer : PeerInfo) (target : NodeId)
      → (send_find_node w codecs ttl s peer target).0.rt ≡ s.rt
  unfolding send_find_node
  send_find_node-rt ttl s peer target =
      elim (Result-cases (
        response_to w codecs s.next peer.onion_addr dht_find_node
          (codecs.find_node.marshal (record { target = target })))) [
            | inr (e, r) ↦ rw (r, send_find_node) refl
            | inl (resp, r) ↦ rw (r, send_find_node) refl
          ]

  take_found-Reached :
      (ttl : ℕ) (addr : Bytes) (source : NodeId) (s : Run) (ps : List PeerInfo)
      → Reached s.rt (take_found w codecs ttl addr source s ps).0.rt
  unfolding take_found
  take_found-Reached ttl addr source s [] = Reached-refl s.rt
  take_found-Reached ttl addr source s (p ∷ ps) =
      let n = s.next in
      let added = add_peer s.rt p source (w.clock (1 + n)) (w.clock (2 + n)) in
      elim (Bool-cases (bytes_eq p.address addr && not (is_expired (w.clock n) ttl p))) [
        | inl e ↦ rw (e, take_found) (Reached-refl s.rt)
        | inr e ↦
            rw (e, take_found)
              (Reached-trans s.rt added.0 _
                (add_peer-Reached s.rt p source _ _ (mono _ _ (omega arith)))
                (take_found-Reached ttl addr source (record s { rt = added.0; next = 3 + n }) ps))
      ]

  ask-Reached :
      (ttl : ℕ) (addr : Bytes) (target : NodeId) (s : Run) (peer : PeerInfo)
      → Reached s.rt (ask w codecs ttl addr target s peer).0.rt
  unfolding ask
  ask-Reached ttl addr target s peer =
      let got = send_find_node w codecs ttl s peer target in
      let same : got.0.rt ≡ s.rt = send_find_node-rt ttl s peer target in
      elim (Result-cases got.1) [
        | inr (e, r) ↦ rw (r, ask) (subst (Reached s.rt) (sym same) (Reached-refl s.rt))
        | inl (ps, r) ↦
            rw (r, ask)
              (subst (λ t. Reached t (take_found w codecs ttl addr peer.id got.0 ps).0.rt) same
                (take_found-Reached ttl addr peer.id got.0 ps))
      ]

  query_round-Reached :
      (ttl : ℕ) (addr : Bytes) (target : NodeId) (s : Run) (queried : List NodeId)
      (progressed : Bool) (ps : List PeerInfo)
      → Reached s.rt (query_round w codecs ttl addr target s queried progressed ps).run.rt
  unfolding query_round
  query_round-Reached ttl addr target s queried progressed [] = Reached-refl s.rt
  query_round-Reached ttl addr target s queried progressed (p ∷ ps) =
      let next : Run = record s { next = suc s.next } in
      let got = ask w codecs ttl addr target next p in
      elim (Bool-cases (w.is_done s.next)) [
        | inl d ↦ rw (d, query_round) (Reached-refl s.rt)
        | inr d ↦ elim (Bool-cases (was_queried queried p.id)) [
          | inl q ↦
              rw (d, q, query_round)
                (query_round-Reached ttl addr target next queried progressed ps)
          | inr q ↦ elim (Option-cases got.1) [
            | inr (found, r) ↦ rw (d, q, r, query_round) (ask-Reached ttl addr target next p)
            | inl r ↦
                rw (d, q, r, query_round)
                  (Reached-trans s.rt got.0.rt _ (ask-Reached ttl addr target next p)
                    (query_round-Reached ttl addr target got.0 (p.id ∷ queried) true ps))
          ]
        ]
      ]

  query_rounds-Reached :
      (ttl : ℕ) (addr : Bytes) (target : NodeId) (rounds : ℕ) (s : Run) (queried : List NodeId)
      → Reached s.rt (query_rounds w codecs ttl addr target rounds s queried).0.rt
  unfolding query_rounds
  query_rounds-Reached ttl addr target zero s queried = Reached-refl s.rt
  query_rounds-Reached ttl addr target (suc rounds) s queried =
      let closest = find_closest s.rt target bucket_size in
      let r = query_round w codecs ttl addr target s queried false closest in
      let here = query_round-Reached ttl addr target s queried false closest in
      elim (Option-cases r.ended) [
        | inr (result, e) ↦ rw (e, query_rounds) here
        | inl e ↦ elim (Bool-cases r.progressed) [
          | inr f ↦ rw (e, f, query_rounds) here
          | inl f ↦
              rw (e, f, query_rounds)
                (Reached-trans s.rt r.run.rt _ here
                  (query_rounds-Reached ttl addr target rounds r.run r.queried))
        ]
      ]

  pub dht_lookup-Reached :
      (b58 : Base58) (d : Dht) (addr : Bytes) (n : ℕ)
      → Reached d.rt (dht_lookup w codecs b58 d addr n).0.rt
  unfolding dht_lookup start_run
  dht_lookup-Reached b58 d addr n = elim (Result-cases (node_id_from_address b58 addr)) [
    | inr (e, r) ↦ rw (r, dht_lookup) (Reached-refl d.rt)
    | inl (target, r) ↦
        elim (Option-cases
          (find_local w codecs d.record_ttl addr n (find_closest d.rt target bucket_size))) [
            | inr (p, r') ↦ rw (r, r', dht_lookup) (Reached-refl d.rt)
            | inl r' ↦
                rw (r, r', dht_lookup) (query_rounds-Reached d.record_ttl addr target 20 _ [])
          ]
  ]

  add_all-Reached : (s : Run) (ps : List PeerInfo) → Reached s.rt (add_all w codecs s ps).rt
  unfolding add_all
  add_all-Reached s [] = Reached-refl s.rt
  add_all-Reached s (p ∷ ps) =
      let added = add_peer s.rt p p.id (w.clock s.next) (w.clock (suc s.next)) in
      Reached-trans s.rt added.0 _ (add_peer-Reached s.rt p p.id _ _ (mono _ _ (omega arith)))
        (add_all-Reached (record s { rt = added.0; next = 2 + s.next }) ps)

  pub bootstrap-Reached :
      (d : Dht) (onion : Bytes) (n : ℕ) → Reached d.rt (bootstrap w codecs d onion n).0.rt
  unfolding bootstrap start_run
  bootstrap-Reached d onion n =
      let got =
        send_find_node w codecs d.record_ttl (start_run d n) (seed_of onion) d.local_peer.id in
      let same : got.0.rt ≡ d.rt =
        send_find_node-rt d.record_ttl (start_run d n) (seed_of onion) d.local_peer.id in
      elim (Result-cases got.1) [
        | inr (e, r) ↦ rw (r, bootstrap) (subst (Reached d.rt) (sym same) (Reached-refl d.rt))
        | inl (ps, r) ↦
            rw (r, bootstrap)
              (subst (λ t. Reached t (add_all w codecs got.0 ps).rt) same
                (add_all-Reached got.0 ps))
      ]

  announce_to-Reached :
      (s : Run) (ident : PeerInfo) (ps : List PeerInfo)
      → Reached s.rt (announce_to w codecs s ident ps).0.rt
  unfolding announce_to
  announce_to-Reached s ident [] = Reached-refl s.rt
  announce_to-Reached s ident (p ∷ ps) =
      let put = send_put_record w codecs s p ident in
      let here = send_put_record-Reached s p ident in
      elim (Result-cases put.1) [
        | inl (u, r) ↦
            rw (r, announce_to)
              (Reached-trans s.rt put.0.rt _ here (
                Reached-trans put.0.rt (record_success put.0.rt p.onion_addr) _
                  (record_success-Reached put.0.rt p.onion_addr)
                  (announce_to-Reached (record put.0 { rt = record_success put.0.rt p.onion_addr })
                    ident ps)))
        | inr (e, r) ↦
            rw (r, announce_to)
              (Reached-trans s.rt put.0.rt _ here (
                Reached-trans put.0.rt (record_failure put.0.rt p.onion_addr).0 _
                  (record_failure-Reached put.0.rt p.onion_addr)
                  (announce_to-Reached
                    (record put.0 { rt = (record_failure put.0.rt p.onion_addr).0 }) ident ps)))
      ]

  announce_all-Reached :
      (s : Run) (any : Bool) (last : Option AnnounceError) (idents : List PeerInfo)
      → Reached s.rt (announce_all w codecs s any last idents).0.rt
  unfolding announce_all
  announce_all-Reached s any last [] = Reached-refl s.rt
  announce_all-Reached s any last (ident ∷ idents) =
      elim (List-cases (find_closest s.rt ident.id bucket_size)) [
        | inl e ↦
            rw (e, announce_all) (announce_all-Reached s any (some no_peers_to_announce_to) idents)
        | inr (p, ps, e) ↦
            let sent = announce_to w codecs s ident (p ∷ ps) in
            let here = announce_to-Reached s ident (p ∷ ps) in
            elim (Nat-cases sent.1) [
              | inl z ↦
                  rw (e, z, announce_all)
                    (Reached-trans s.rt sent.0.rt _ here
                      (announce_all-Reached sent.0 any (some all_unreachable) idents))
              | inr (k, z) ↦
                  rw (e, z, announce_all)
                    (Reached-trans s.rt sent.0.rt _ here
                      (announce_all-Reached sent.0 true last idents))
            ]
      ]

  pub announce-Reached : (d : Dht) (n : ℕ) → Reached d.rt (announce w codecs d n).0.rt
  unfolding announce start_run
  announce-Reached d n =
      let self = seen_at (w.clock n) d.local_peer in
      let identities = self ∷ local_identities_snapshot d (w.clock (suc n)) in
      let sent = announce_all w codecs (start_run d (2 + n)) false none identities in
      Reached-trans d.rt sent.0.rt _
        (announce_all-Reached (start_run d (2 + n)) false none identities)
        (evict_by_failures-Reached sent.0.rt d.failure_threshold)

  pub handle_envelope-Reached :
      (d : Dht) (n : ℕ) (env : Envelope) → Reached d.rt (handle_envelope w codecs d n env).0.rt
  unfolding handle_envelope handle_put_record
  handle_envelope-Reached d n env = elim (Bool-cases (env.kind == dht_find_node)) [
    | inl e ↦ rw e (Reached-refl d.rt)
    | inr e ↦ elim (Bool-cases (env.kind == dht_put_record)) [
      | inr e' ↦ rw (e, e') (Reached-refl d.rt)
      | inl e' ↦ elim (Option-cases (accepted_record w codecs d n env)) [
        | inl r ↦ rw (e, e', r, handle_put_record) (Reached-refl d.rt)
        | inr (p, r) ↦
            rw (e, e', r, handle_put_record)
              (add_peer-Reached d.rt p p.id _ _ (mono _ _ (omega arith)))
      ]
    ]
  ]
