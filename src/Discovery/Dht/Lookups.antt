-- ===== src/Discovery/Dht/Lookups.antt =====
-- What a lookup returns.
use ensemble.Common.{
  ℕ, zero, suc, ◌+◌, ◌≤◌, ◌<◌, ◌≡◌, subst, Bool, true, false, not, ◌&&◌, some, List, [], ◌∷◌,
  bytes_eq, bytes_eq_iff, Bool-cases, Option-cases, inl, inr, arith, Result, Result-cases, length,
}
use ensemble.Crypto.{Bytes, Base58}
use ensemble.Discovery.NodeId.{NodeId}
use ensemble.Discovery.NodeId.Derivation.{node_id_from_address}
use ensemble.Discovery.Routing.{PeerInfo, bucket_size, add_peer, find_closest}
use ensemble.Discovery.Dht.{Dht, DhtCodecs, is_expired}
use ensemble.Discovery.Dht.Queries.{World, Run, dht_find_node, response_to, send_find_node}
use ensemble.Discovery.Dht.Search.{
  find_local, take_found, ask, query_round, query_rounds, was_queried, start_run, dht_lookup,
}

module _ (w : World) (codecs : DhtCodecs) (ttl : ℕ) (addr : Bytes) where
  -- The address that was asked for; the time of the record was at most the lifetime ago at a reading
  -- of the clock between the two events.
  pub record IsAnswer (first after : ℕ) (p : PeerInfo) : Type 0 where
    pub asked_for : p.address ≡ addr
    pub event : ℕ
    pub since : first ≤ event
    pub until : event < after
    pub seen : ℕ
    pub dated : p.last_seen ≡ some seen
    pub alive : w.clock event ≤ seen + ttl

  hit-IsAnswer :
      (first after n : ℕ) (p q : PeerInfo)
      → (bytes_eq p.address addr && not (is_expired (w.clock n) ttl p)) ≡ true
      → first ≤ n
      → n < after
      → p ≡ q
      → IsAnswer first after q
  unfolding is_expired
  hit-IsAnswer first after n p q e low high same = elim (Option-cases p.last_seen) [
    | inl undated ↦ absurd (ground arith)
    | inr (t, dated) ↦ subst (IsAnswer first after) same (record {
      asked_for = (bytes_eq_iff p.address addr).0 (ground arith);
      event = n;
      since = low;
      until = high;
      seen = t;
      dated = dated;
      alive = ground arith;
    })
  ]

  find_local-IsAnswer :
      (first after n : ℕ) (ps : List PeerInfo) (p : PeerInfo)
      → first ≤ n
      → n + length ps ≤ after
      → find_local w codecs ttl addr n ps ≡ some p
      → IsAnswer first after p
  unfolding find_local
  find_local-IsAnswer first after n [] p low high e = absurd (cc)
  find_local-IsAnswer first after n (q ∷ ps) p low high e =
      elim (Bool-cases (bytes_eq q.address addr && not (is_expired (w.clock n) ttl q))) [
        | inl h ↦ hit-IsAnswer first after n q p h low (omega arith) (ground arith)
        | inr h ↦
            find_local-IsAnswer first after (suc n) ps p (omega arith) (omega arith) (ground arith)
      ]

  send_find_node-next :
      (s : Run) (peer : PeerInfo) (target : NodeId)
      → s.next ≤ (send_find_node w codecs ttl s peer target).0.next
  unfolding send_find_node
  send_find_node-next s peer target =
      elim (Result-cases (
        response_to w codecs s.next peer.onion_addr dht_find_node
          (codecs.find_node.marshal (record { target = target })))) [
            | inr (e, r) ↦ rw (r, send_find_node) (omega arith)
            | inl (resp, r) ↦ rw (r, send_find_node) (omega arith)
          ]

  take_found-next :
      (source : NodeId) (s : Run) (ps : List PeerInfo)
      → s.next ≤ (take_found w codecs ttl addr source s ps).0.next
  unfolding take_found
  take_found-next source s [] = omega arith
  take_found-next source s (q ∷ ps) =
      let n = s.next in
      let added = add_peer s.rt q source (w.clock (1 + n)) (w.clock (2 + n)) in
      let rest = take_found-next source (record s { rt = added.0; next = 3 + n }) ps in
      elim (Bool-cases (bytes_eq q.address addr && not (is_expired (w.clock n) ttl q))) [
        | inl h ↦ rw (h, take_found) (omega arith)
        | inr h ↦ rw (h, take_found) (omega (arith, rest))
      ]

  ask-next :
      (target : NodeId) (s : Run) (peer : PeerInfo)
      → s.next ≤ (ask w codecs ttl addr target s peer).0.next
  unfolding ask
  ask-next target s peer =
      let got = send_find_node w codecs ttl s peer target in
      let sent = send_find_node-next s peer target in
      elim (Result-cases got.1) [
        | inr (f, r) ↦ rw (r, ask) sent
        | inl (ps, r) ↦
            let took = take_found-next peer.id got.0 ps in rw (r, ask) (omega (arith, sent, took))
      ]

  query_round-next :
      (target : NodeId) (s : Run) (queried : List NodeId) (progressed : Bool) (ps : List PeerInfo)
      → s.next ≤ (query_round w codecs ttl addr target s queried progressed ps).run.next
  unfolding query_round
  query_round-next target s queried progressed [] = omega arith
  query_round-next target s queried progressed (q ∷ ps) =
      let next : Run = record s { next = suc s.next } in
      let got = ask w codecs ttl addr target next q in
      let asked = ask-next target next q in
      elim (Bool-cases (w.is_done s.next)) [
        | inl d ↦ rw (d, query_round) (omega arith)
        | inr d ↦ elim (Bool-cases (was_queried queried q.id)) [
          | inl h ↦
              let rest = query_round-next target next queried progressed ps in
              rw (d, h, query_round) (omega (arith, rest))
          | inr h ↦ elim (Option-cases got.1) [
            | inr (found, r) ↦ rw (d, h, r, query_round) (omega (arith, asked))
            | inl r ↦
                let rest = query_round-next target got.0 (q.id ∷ queried) true ps in
                rw (d, h, r, query_round) (omega (arith, asked, rest))
          ]
        ]
      ]

  module _ (first : ℕ) where
    take_found-IsAnswer :
        (source : NodeId) (s : Run) (ps : List PeerInfo) (p : PeerInfo)
        → first ≤ s.next
        → (take_found w codecs ttl addr source s ps).1 ≡ some p
        → IsAnswer first (take_found w codecs ttl addr source s ps).0.next p
    unfolding take_found
    take_found-IsAnswer source s [] p low e = absurd (cc)
    take_found-IsAnswer source s (q ∷ ps) p low e =
        let n = s.next in
        let added = add_peer s.rt q source (w.clock (1 + n)) (w.clock (2 + n)) in
        elim (Bool-cases (bytes_eq q.address addr && not (is_expired (w.clock n) ttl q))) [
          | inl h ↦
              rw (h, take_found)
                (hit-IsAnswer first (1 + n) n q p h low (omega arith) (ground arith))
          | inr h ↦
              rw (h, take_found)
                (take_found-IsAnswer source (record s { rt = added.0; next = 3 + n }) ps p
                  (omega arith) (ground arith))
        ]

    ask-IsAnswer :
        (target : NodeId) (s : Run) (peer p : PeerInfo)
        → first ≤ s.next
        → (ask w codecs ttl addr target s peer).1 ≡ some p
        → IsAnswer first (ask w codecs ttl addr target s peer).0.next p
    unfolding ask
    ask-IsAnswer target s peer p low e =
        let got = send_find_node w codecs ttl s peer target in
        let sent = send_find_node-next s peer target in
        elim (Result-cases got.1) [
          | inr (f, r) ↦ absurd (ground arith)
          | inl (ps, r) ↦
              rw (r, ask)
                (take_found-IsAnswer peer.id got.0 ps p (omega (arith, sent)) (ground arith))
        ]

    query_round-IsAnswer :
        (target : NodeId) (s : Run) (queried : List NodeId) (progressed : Bool) (ps : List PeerInfo)
        (p : PeerInfo)
        → first ≤ s.next
        → (query_round w codecs ttl addr target s queried progressed ps).ended ≡ some (Result.ok p)
        → IsAnswer first (query_round w codecs ttl addr target s queried progressed ps).run.next p
    unfolding query_round
    query_round-IsAnswer target s queried progressed [] p low e = absurd (cc)
    query_round-IsAnswer target s queried progressed (q ∷ ps) p low e =
        let next : Run = record s { next = suc s.next } in
        let got = ask w codecs ttl addr target next q in
        let asked = ask-next target next q in
        elim (Bool-cases (w.is_done s.next)) [
          | inl d ↦ absurd (ground arith)
          | inr d ↦ elim (Bool-cases (was_queried queried q.id)) [
            | inl h ↦
                rw (d, h, query_round)
                  (query_round-IsAnswer target next queried progressed ps p (omega arith)
                    (ground arith))
            | inr h ↦ elim (Option-cases got.1) [
              | inr (found, r) ↦
                  let same : found ≡ p = ground arith in
                  rw (d, h, r, query_round)
                    (subst (IsAnswer first got.0.next) same
                      (ask-IsAnswer target next q found (omega arith) r))
              | inl r ↦
                  rw (d, h, r, query_round)
                    (query_round-IsAnswer target got.0 (q.id ∷ queried) true ps p
                      (omega (arith, asked)) (ground arith))
            ]
          ]
        ]

    query_rounds-IsAnswer :
        (target : NodeId) (rounds : ℕ) (s : Run) (queried : List NodeId) (p : PeerInfo)
        → first ≤ s.next
        → (query_rounds w codecs ttl addr target rounds s queried).1 ≡ Result.ok p
        → IsAnswer first (query_rounds w codecs ttl addr target rounds s queried).0.next p
    unfolding query_rounds
    query_rounds-IsAnswer target zero s queried p low e = absurd (cc)
    query_rounds-IsAnswer target (suc rounds) s queried p low e =
        let closest = find_closest s.rt target bucket_size in
        let r = query_round w codecs ttl addr target s queried false closest in
        let later = query_round-next target s queried false closest in
        elim (Option-cases r.ended) [
          | inr (result, h) ↦
              rw (h, query_rounds)
                (query_round-IsAnswer target s queried false closest p low (ground arith))
          | inl h ↦ elim (Bool-cases r.progressed) [
            | inr f ↦ absurd (ground arith)
            | inl f ↦
                rw (h, f, query_rounds)
                  (query_rounds-IsAnswer target rounds r.run r.queried p (omega (arith, later))
                    (ground arith))
          ]
        ]

-- A peer that Lookup returns has the address that was asked for, and the time of its record was at
-- most the lifetime of records ago at one of the readings of the clock in this lookup.
pub dht_lookup-IsAnswer :
    (w : World) (codecs : DhtCodecs) (b58 : Base58) (d : Dht) (addr : Bytes) (n : ℕ) (p : PeerInfo)
    → (dht_lookup w codecs b58 d addr n).1 ≡ Result.ok p
    → IsAnswer w codecs d.record_ttl addr n (dht_lookup w codecs b58 d addr n).0.next p
unfolding dht_lookup start_run
dht_lookup-IsAnswer w codecs b58 d addr n p e =
    elim (Result-cases (node_id_from_address b58 addr)) [
      | inr (f, r) ↦ absurd (ground arith)
      | inl (target, r) ↦
          let closest = find_closest d.rt target bucket_size in
          elim (Option-cases (find_local w codecs d.record_ttl addr n closest)) [
            | inr (q, r') ↦
                rw (r, r', dht_lookup)
                  (find_local-IsAnswer w codecs d.record_ttl addr n (n + length closest) n closest p
                    (omega arith) (omega arith) (ground arith))
            | inl r' ↦
                rw (r, r', dht_lookup)
                  (query_rounds-IsAnswer w codecs d.record_ttl addr n target 20
                    (start_run d (n + length closest)) [] p (omega arith) (ground arith))
          ]
    ]
