-- ===== src/Discovery/Dht/Exchange.antt =====
-- A request for peers between two nodes, and what a record says of a peer.
use ensemble.Common.{
  ℕ, suc, ◌+◌, ◌-◌, ◌*◌, ◌/◌, ◌≤◌, ◌<◌, ◌≡◌, refl, sym, ap, subst, ◌∙◌, true, false, none, some,
  List, [], ◌∷◌, ◌++◌, map, Bool-cases, Option-cases, inl, inr, append-nil, length, take,
  take-append_exact, ltb, arith, Result,
}
use ensemble.Crypto.{Bytes}
use ensemble.Protocol.Envelope.{write_msg, read_msg}
use ensemble.Protocol.Envelope.Framing.{write_msg-read_msg}
use ensemble.Discovery.NodeId.{NodeId, id_length}
use ensemble.Discovery.Routing.{PeerInfo, find_closest}
use ensemble.Discovery.Dht.{
  Dht, DhtCodecs, is_expired, seen_at, local_identities_snapshot, unix_milli, from_milli,
  peer_info_to_record, record_to_peer_info, peers_to_response,
}
use ensemble.Discovery.Dht.Queries.{
  World, connected, Run, dht_find_node, dht_node_response, wrap_unsigned, unexpired, converse,
  response_to, send_find_node, find_node_answer, answer_with, target_of, handle_find_node,
  handle_envelope, handle_conn,
}

take_all : (id : NodeId) → take (length id) id ≡ id
take_all id = ap (take (length id)) (sym (append-nil id)) ∙ take-append_exact id []

-- A record that is made of a peer with an identifier of 20 bytes gives back the peer, its time cut
-- to milliseconds and its failures forgotten.
pub record_to_peer_info-peer_info_to_record :
    (p : PeerInfo)
    → length p.id ≡ id_length
    → record_to_peer_info (some (peer_info_to_record p))
      ≡ some (record p { last_seen = from_milli (unix_milli p.last_seen); failures = 0 })
unfolding record_to_peer_info peer_info_to_record
record_to_peer_info-peer_info_to_record p n =
    let long : ltb (length p.id) id_length ≡ false = ground arith in
    let whole : take id_length p.id ≡ p.id = subst (λ k. take k p.id ≡ p.id) n (take_all p.id) in
    rw (long, whole)

abbrev seen_then : PeerInfo → ℕ → PeerInfo
seen_then p t = record p { last_seen = some t }

-- The peers that a node tells: the 20 closest of its table, itself and the identities that it hosts,
-- these two as seen at its two readings of the clock.
abbrev pub told : World → Dht → NodeId → ℕ → List PeerInfo
told w d target m =
    find_closest d.rt target 20
    ++ (seen_then d.local_peer (w.clock m)
        ∷ map (λ (p : PeerInfo). seen_then p (w.clock (suc m))) d.local_identities)

-- What arrives of a peer: its time is cut to milliseconds, its failures are not told.
abbrev pub arrived : PeerInfo → ℕ → PeerInfo
arrived p t = record p { id = take 20 p.id; last_seen = some (t / 1000000 * 1000000); failures = 0 }

-- The peers that are taken of those told, each at the next event: those whose time is at most the
-- lifetime before the reading of the clock.
pub data Taken (w : World) (ttl : ℕ) : ℕ → List PeerInfo → List PeerInfo → Type 0 where
  all_told : (n : ℕ) → Taken w ttl n [] []
  takes :
      (n : ℕ) (p : PeerInfo) (t : ℕ) (ps qs : List PeerInfo)
      → 20 ≤ length p.id
      → p.last_seen ≡ some t
      → w.clock n ≤ t / 1000000 * 1000000 + ttl
      → Taken w ttl (suc n) ps qs
      → Taken w ttl n (p ∷ ps) (arrived p t ∷ qs)
  leaves_outdated :
      (n : ℕ) (p : PeerInfo) (t : ℕ) (ps qs : List PeerInfo)
      → p.last_seen ≡ some t
      → t / 1000000 * 1000000 + ttl < w.clock n
      → Taken w ttl (suc n) ps qs
      → Taken w ttl n (p ∷ ps) qs
  leaves_undated :
      (n : ℕ) (p : PeerInfo) (ps qs : List PeerInfo)
      → p.last_seen ≡ none
      → Taken w ttl (suc n) ps qs
      → Taken w ttl n (p ∷ ps) qs
  leaves_short :
      (n : ℕ) (p : PeerInfo) (ps qs : List PeerInfo)
      → length p.id < 20
      → Taken w ttl (suc n) ps qs
      → Taken w ttl n (p ∷ ps) qs

unexpired-Taken :
    (w : World) (ttl n : ℕ) (ps : List PeerInfo)
    → Taken w ttl n ps (unexpired w ttl n (map peer_info_to_record ps))
unfolding unexpired record_to_peer_info peer_info_to_record is_expired from_milli unix_milli
unexpired-Taken w ttl n [] = all_told n
unexpired-Taken w ttl n (p ∷ ps) =
    let rest = unexpired-Taken w ttl (suc n) ps in
    let qs = unexpired w ttl (suc n) (map peer_info_to_record ps) in
    let all = unexpired w ttl n (map peer_info_to_record (p ∷ ps)) in
    elim (Bool-cases (ltb (length p.id) id_length)) [
      | inl short ↦
          let e : qs ≡ all = rw (short, unexpired) refl in
          subst (Taken w ttl n (p ∷ ps)) e (leaves_short n p ps qs (ground arith) rest)
      | inr long ↦ elim (Option-cases p.last_seen) [
        | inl never ↦
            let e : qs ≡ all = rw (long, never, unexpired) refl in
            subst (Taken w ttl n (p ∷ ps)) e (leaves_undated n p ps qs never rest)
        | inr (t, seen) ↦ elim (Bool-cases (ltb ttl (w.clock n - t / 1000000 * 1000000))) [
          | inl late ↦
              let e : qs ≡ all = rw (long, seen, late, unexpired) refl in
              subst (Taken w ttl n (p ∷ ps)) e
                (leaves_outdated n p t ps qs seen (ground arith) rest)
          | inr fresh ↦
              let e : arrived p t ∷ qs ≡ all = rw (long, seen, fresh, unexpired) refl in
              subst (Taken w ttl n (p ∷ ps)) e
                (takes n p t ps qs (ground arith) seen (ground arith) rest)
        ]
      ]
    ]

-- Two nodes, each with its own readings of the clock.
module _ (w peer_world : World) (codecs : DhtCodecs) where
  handle_conn-find_node :
      (d : Dht) (m now : ℕ) (target : NodeId) (query request payload answer : Bytes)
      → length target ≡ id_length
      → codecs.find_node.marshal (record { target = target }) ≡ some query
      → write_msg codecs.envelope (wrap_unsigned dht_find_node query now) true true
        ≡ Result.ok request
      → codecs.node_response.marshal
          (peers_to_response (find_node_answer peer_world codecs d target m))
        ≡ some payload
      → write_msg codecs.envelope
          (wrap_unsigned dht_node_response payload (peer_world.clock (2 + m)))
          true
          true
        ≡ Result.ok answer
      → (handle_conn peer_world codecs d m request).1 ≡ answer
  unfolding handle_conn handle_envelope handle_find_node answer_with wrap_unsigned target_of
  handle_conn-find_node d m now target query request payload answer n q r p a =
      let read : read_msg codecs.envelope request
          ≡ Result.ok (wrap_unsigned dht_find_node query now, []) =
        subst
          (λ b. read_msg codecs.envelope b ≡ Result.ok (wrap_unsigned dht_find_node query now, []))
          (append-nil request)
          (write_msg-read_msg codecs.envelope (wrap_unsigned dht_find_node query now) request []
            true true r) in
      let back = codecs.find_node.unmarshal-marshal (record { target = target }) query q in
      let long : ltb (length target) id_length ≡ false = ground arith in
      let whole : take id_length target ≡ target =
        subst (λ k. take k target ≡ target) n (take_all target) in
      rw (
        read, back, long, whole, p, a, handle_conn, handle_envelope, handle_find_node, answer_with,
        target_of,
      )

  -- A request for peers, over the wire to a node that answers: it succeeds, and gives of the 20
  -- closest peers that the other node knows, of the node itself and of the identities that it hosts,
  -- those whose time, cut to milliseconds, is at most the lifetime before the reading of the clock
  -- on arrival. The four messages must be encodable.
  pub send_find_node-handle_conn :
      (ttl : ℕ) (s : Run) (peer : PeerInfo) (d : Dht) (m : ℕ) (target : NodeId)
      (query request payload answer : Bytes)
      → w.dial s.next peer.onion_addr
        ≡ connected true true (λ incoming. (handle_conn peer_world codecs d m incoming).1)
      → length target ≡ id_length
      → codecs.find_node.marshal (record { target = target }) ≡ some query
      → write_msg codecs.envelope (wrap_unsigned dht_find_node query (w.clock s.next)) true true
        ≡ Result.ok request
      → codecs.node_response.marshal (peers_to_response (told peer_world d target m)) ≡ some payload
      → write_msg codecs.envelope
          (wrap_unsigned dht_node_response payload (peer_world.clock (2 + m)))
          true
          true
        ≡ Result.ok answer
      → (ps : List PeerInfo) × ((send_find_node w codecs ttl s peer target).1 ≡ Result.ok ps)
        × Taken w ttl (suc s.next) (told peer_world d target m) ps
  unfolding send_find_node response_to converse find_node_answer seen_at local_identities_snapshot
      peers_to_response
  send_find_node-handle_conn ttl s peer d m target query request payload answer link n q r p a =
      let env = wrap_unsigned dht_node_response payload (peer_world.clock (2 + m)) in
      let served =
        handle_conn-find_node d m (w.clock s.next) target query request payload answer n q r p a in
      let read : read_msg codecs.envelope answer ≡ Result.ok (env, []) =
        subst (λ b. read_msg codecs.envelope b ≡ Result.ok (env, [])) (append-nil answer)
          (write_msg-read_msg codecs.envelope env answer [] true true a) in
      let back =
        codecs.node_response.unmarshal-marshal (peers_to_response (told peer_world d target m))
          payload p in
      (
        unexpired w ttl (suc s.next) (map peer_info_to_record (told peer_world d target m)),
        rw (link, q, r, served, read, back, send_find_node, response_to, converse),
        unexpired-Taken w ttl (suc s.next) (told peer_world d target m),
      )
