-- ===== src/Discovery/Dht/Requests.antt =====
-- The requests that a lookup sends.
use ensemble.Common.{
  ℕ, zero, suc, ◌+◌, ◌*◌, ◌≤◌, ◌≡◌, refl, sym, ap, subst, ◌∙◌, Bool, true, false, not, ◌&&◌, List,
  [], ◌∷◌, bytes_eq, bytes_eq_refl, Bool-cases, Option-cases, inl, inr, arith, Result-cases, length,
  length-take,
}
use mathlib.Core.List.{Memᴰ}
use ensemble.Crypto.{Bytes, Base58}
use ensemble.Discovery.NodeId.{NodeId}
use ensemble.Discovery.NodeId.Derivation.{node_id_from_address}
use ensemble.Discovery.Routing.{
  PeerInfo, RoutingTable, bucket_size, add_peer, find_closest, all_peers, nearer, sort_by,
}
use ensemble.Discovery.Dht.{Dht, DhtCodecs, is_expired}
use ensemble.Discovery.Dht.Queries.{World, Run, dht_find_node, response_to, send_find_node}
use ensemble.Discovery.Dht.Search.{
  find_local, take_found, ask, query_round, query_rounds, was_queried, start_run, dht_lookup,
}

-- No identifier stands twice.
abbrev pub NoRepeat : List NodeId → Type 0
NoRepeat [] = Unit
NoRepeat (q ∷ qs) = (Memᴰ q qs → ⊥) × NoRepeat qs

was_queried-Memᴰ :
    (queried : List NodeId) (id : NodeId) → was_queried queried id ≡ false → Memᴰ id queried → ⊥
unfolding was_queried
was_queried-Memᴰ [] id e there = elim there [ ]
was_queried-Memᴰ (q ∷ queried) id e (Memᴰ.head same) =
    let here : bytes_eq q id ≡ true = rw same (bytes_eq_refl q) in ground arith
was_queried-Memᴰ (q ∷ queried) id e (Memᴰ.tail there) =
    was_queried-Memᴰ queried id (ground arith) there

length-find_closest :
    (rt : RoutingTable) (target : NodeId)
    → length (find_closest rt target bucket_size) ≤ bucket_size
unfolding find_closest
length-find_closest rt target =
    omega (arith, length-take bucket_size (sort_by (nearer target) (all_peers rt)))

-- The requests that were sent are those of the set `queried`, each sent once.
record IsTracked (s : Run) (queried : List NodeId) : Type 0 where
  same : s.asked ≡ queried
  fresh : NoRepeat queried

module _ (w : World) (codecs : DhtCodecs) (ttl : ℕ) (addr : Bytes) (target : NodeId) where
  take_found-asked :
      (source : NodeId) (s : Run) (ps : List PeerInfo)
      → (take_found w codecs ttl addr source s ps).0.asked ≡ s.asked
  unfolding take_found
  take_found-asked source s [] = refl
  take_found-asked source s (p ∷ ps) =
      let n = s.next in
      let added = add_peer s.rt p source (w.clock (1 + n)) (w.clock (2 + n)) in
      elim (Bool-cases (bytes_eq p.address addr && not (is_expired (w.clock n) ttl p))) [
        | inl e ↦ rw (e, take_found)
        | inr e ↦
            rw (e, take_found)
              (take_found-asked source (record s { rt = added.0; next = 3 + n }) ps)
      ]

  send_find_node-asked :
      (s : Run) (peer : PeerInfo)
      → (send_find_node w codecs ttl s peer target).0.asked ≡ peer.id ∷ s.asked
  unfolding send_find_node
  send_find_node-asked s peer =
      elim (Result-cases (
        response_to w codecs s.next peer.onion_addr dht_find_node
          (codecs.find_node.marshal (record { target = target })))) [
            | inr (e, r) ↦ rw (r, send_find_node)
            | inl (resp, r) ↦ rw (r, send_find_node)
          ]

  ask-asked :
      (s : Run) (peer : PeerInfo)
      → (ask w codecs ttl addr target s peer).0.asked ≡ peer.id ∷ s.asked
  unfolding ask
  ask-asked s peer =
      let got = send_find_node w codecs ttl s peer target in
      elim (Result-cases got.1) [
        | inr (e, r) ↦ rw (r, ask) (send_find_node-asked s peer)
        | inl (ps, r) ↦
            rw (r, ask) (take_found-asked peer.id got.0 ps ∙ send_find_node-asked s peer)
      ]

  ask-IsTracked :
      (s : Run) (queried : List NodeId) (peer : PeerInfo)
      → was_queried queried peer.id ≡ false
      → IsTracked s queried
      → IsTracked (ask w codecs ttl addr target s peer).0 (peer.id ∷ queried)
  ask-IsTracked s queried peer new v = record {
    same = ask-asked s peer ∙ ap (λ l. peer.id ∷ l) v.same;
    fresh = (was_queried-Memᴰ queried peer.id new, v.fresh);
  }

  query_round-IsTracked :
      (s : Run) (queried : List NodeId) (progressed : Bool) (ps : List PeerInfo)
      → IsTracked s queried
      → let r = query_round w codecs ttl addr target s queried progressed ps in
        IsTracked r.run r.queried × (length r.queried ≤ length queried + length ps)
  unfolding query_round
  query_round-IsTracked s queried progressed [] v = (v, omega arith)
  query_round-IsTracked s queried progressed (q ∷ ps) v =
      let next : Run = record s { next = suc s.next } in
      let got = ask w codecs ttl addr target next q in
      let v' : IsTracked next queried = record { same = v.same; fresh = v.fresh } in
      elim (Bool-cases (w.is_done s.next)) [
        | inl d ↦ rw (d, query_round) (v', omega arith)
        | inr d ↦ elim (Bool-cases (was_queried queried q.id)) [
          | inl h ↦
              let (t, n) = query_round-IsTracked next queried progressed ps v' in
              rw (d, h, query_round) (t, omega arith)
          | inr h ↦ elim (Option-cases got.1) [
            | inr (found, r) ↦
                rw (d, h, r, query_round) (ask-IsTracked next queried q h v', omega arith)
            | inl r ↦
                let (t, n) =
                  query_round-IsTracked got.0 (q.id ∷ queried) true ps
                    (ask-IsTracked next queried q h v') in
                rw (d, h, r, query_round) (t, omega arith)
          ]
        ]
      ]

  query_rounds-IsTracked :
      (rounds : ℕ) (s : Run) (queried : List NodeId)
      → IsTracked s queried
      → let asked = (query_rounds w codecs ttl addr target rounds s queried).0.asked in
        NoRepeat asked × (length asked ≤ length queried + rounds * bucket_size)
  unfolding query_rounds
  query_rounds-IsTracked zero s queried v = (
    subst NoRepeat (sym v.same) v.fresh,
    omega (arith, ap (λ (l : List NodeId). length l) v.same),
  )
  query_rounds-IsTracked (suc rounds) s queried v =
      let closest = find_closest s.rt target bucket_size in
      let r = query_round w codecs ttl addr target s queried false closest in
      let (t, n) = query_round-IsTracked s queried false closest v in
      let few : length closest ≤ bucket_size = length-find_closest s.rt target in
      let count = ap (λ (l : List NodeId). length l) t.same in
      let here : NoRepeat r.run.asked
          × (length r.run.asked ≤ length queried + suc rounds * bucket_size) =
        (subst NoRepeat (sym t.same) t.fresh, omega (arith, n, few, count)) in
      elim (Option-cases r.ended) [
        | inr (result, e) ↦ rw (e, query_rounds) here
        | inl e ↦ elim (Bool-cases r.progressed) [
          | inr f ↦ rw (e, f, query_rounds) here
          | inl f ↦
              let (fresh, m) = query_rounds-IsTracked rounds r.run r.queried t in
              rw (e, f, query_rounds) (fresh, omega (arith, n, m, few))
        ]
      ]

-- Lookup ends after at most 400 requests, 20 in each of 20 rounds, and sends no peer two,
-- whatever the network answers.
pub dht_lookup-asked :
    (w : World) (codecs : DhtCodecs) (b58 : Base58) (d : Dht) (addr : Bytes) (n : ℕ)
    → NoRepeat (dht_lookup w codecs b58 d addr n).0.asked
      × (length (dht_lookup w codecs b58 d addr n).0.asked ≤ 400)
unfolding dht_lookup start_run
dht_lookup-asked w codecs b58 d addr n = elim (Result-cases (node_id_from_address b58 addr)) [
  | inr (e, r) ↦ rw (r, dht_lookup) (tt, omega arith)
  | inl (target, r) ↦
      let closest = find_closest d.rt target bucket_size in
      elim (Option-cases (find_local w codecs d.record_ttl addr n closest)) [
        | inr (q, r') ↦ rw (r, r', dht_lookup) (tt, omega arith)
        | inl r' ↦
            let run : Run = start_run d (n + length closest) in
            let (fresh, m) =
              query_rounds-IsTracked w codecs d.record_ttl addr target 20 run []
                (record { same = refl; fresh = tt }) in
            rw (r, r', dht_lookup) (fresh, m)
      ]
]
