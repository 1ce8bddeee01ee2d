-- ===== src/Discovery/Dht/Search.antt =====
-- internal/discovery/dht.go: Bootstrap, Announce and Lookup.
use ensemble.Common.{
  ℕ, zero, suc, ◌+◌, Bool, true, false, not, ◌&&◌, Option, none, some, List, [], ◌∷◌, length,
  replicate, bytes_eq, if◌then◌else◌, Result,
}
use ensemble.Crypto.{Bytes, Base58}
use ensemble.Discovery.NodeId.{NodeId, id_length}
use ensemble.Discovery.NodeId.Derivation.{AddressError, node_id_from_address}
use ensemble.Discovery.Routing.{
  PeerInfo, bucket_size, add_peer, find_closest, record_failure, record_success, evict_by_failures,
}
use ensemble.Discovery.Dht.{
  Dht, DhtCodecs, is_expired, seen_at, lookup_max_iterations, local_identities_snapshot,
}
use ensemble.Discovery.Dht.Queries.{World, Run, QueryError, send_find_node, send_put_record}

pub data LookupError : Type 0 where
  invalid_address : AddressError → LookupError
  context_done peer_not_found : LookupError

pub data AnnounceError : Type 0 where
  no_peers_to_announce_to all_unreachable : AnnounceError

-- A round over the candidates: the run after it, the peers queried so far, whether it asked one,
-- and the result if the lookup ends in it.
pub record Round : Type 0 where
  pub run : Run
  pub queried : List NodeId
  pub progressed : Bool
  pub ended : Option (Result LookupError PeerInfo)

unfoldable pub was_queried : List NodeId → NodeId → Bool
was_queried [] id = false
was_queried (q ∷ queried) id =
    let rest = was_queried queried id in if bytes_eq q id then true else rest

unfoldable pub start_run : Dht → ℕ → Run
start_run d n = record { rt = d.rt; next = n; asked = [] }

-- The seed is a peer with an onion address only.
unfoldable pub seed_of : Bytes → PeerInfo
seed_of onion = record {
  id = replicate id_length 0;
  address = [];
  onion_addr = onion;
  last_seen = none;
  failures = 0;
}

module _ (w : World) (codecs : DhtCodecs) where
  -- The check of the closest peers that are known.
  unfoldable pub find_local : ℕ → Bytes → ℕ → List PeerInfo → Option PeerInfo
  find_local ttl addr n [] = none
  find_local ttl addr n (p ∷ ps) =
      let rest = find_local ttl addr (suc n) ps in
      if bytes_eq p.address addr && not (is_expired (w.clock n) ttl p) then some p else rest

  -- The loop over an answer: the peer asked for, or all are added to the table.
  unfoldable pub take_found : ℕ → Bytes → NodeId → Run → List PeerInfo → Run × Option PeerInfo
  take_found ttl addr source s [] = (s, none)
  take_found ttl addr source s (found ∷ peers) =
      let n = s.next in
      let added = add_peer s.rt found source (w.clock (1 + n)) (w.clock (2 + n)) in
      let rest = take_found ttl addr source (record s { rt = added.0; next = 3 + n }) peers in
      if bytes_eq found.address addr && not (is_expired (w.clock n) ttl found)
      then (record s { next = 1 + n }, some found)
      else rest

  -- A request to one candidate.
  unfoldable pub ask : ℕ → Bytes → NodeId → Run → PeerInfo → Run × Option PeerInfo
  unfolding take_found
  ask ttl addr target s peer =
      let got = send_find_node w codecs ttl s peer target in
      elim got.1 [
        | Result.err _ ↦ (got.0, none)
        | Result.ok peers ↦ take_found ttl addr peer.id got.0 peers
      ]

  unfoldable pub query_round : ℕ → Bytes → NodeId → Run → List NodeId → Bool → List PeerInfo → Round
  unfolding ask
  query_round ttl addr target s queried progressed [] = record {
    run = s;
    queried = queried;
    progressed = progressed;
    ended = none;
  }
  query_round ttl addr target s queried progressed (peer ∷ peers) =
      let next : Run = record s { next = suc s.next } in
      elim (w.is_done s.next) [
        | true ↦ record {
          run = next;
          queried = queried;
          progressed = progressed;
          ended = some (Result.err context_done);
        }
        | false ↦ elim (was_queried queried peer.id) [
          | true ↦ query_round ttl addr target next queried progressed peers
          | false ↦
              let got = ask ttl addr target next peer in
              elim got.1 [
                | some p ↦ record {
                  run = got.0;
                  queried = peer.id ∷ queried;
                  progressed = true;
                  ended = some (Result.ok p);
                }
                | none ↦ query_round ttl addr target got.0 (peer.id ∷ queried) true peers
              ]
        ]
      ]

  -- The rounds that are left.
  unfoldable pub query_rounds :
      ℕ → Bytes → NodeId → ℕ → Run → List NodeId → Run × Result LookupError PeerInfo
  unfolding query_round
  query_rounds ttl addr target zero s queried = (s, Result.err peer_not_found)
  query_rounds ttl addr target (suc rounds) s queried =
      let r = query_round ttl addr target s queried false (find_closest s.rt target bucket_size) in
      elim r.ended [
        | some result ↦ (r.run, result)
        | none ↦ elim r.progressed [
          | true ↦ query_rounds ttl addr target rounds r.run r.queried
          | false ↦ (r.run, Result.err peer_not_found)
        ]
      ]

  -- `Lookup`, from the event of number `n` on.
  unfoldable pub dht_lookup : Base58 → Dht → Bytes → ℕ → Run × Result LookupError PeerInfo
  unfolding find_local query_rounds start_run
  dht_lookup b58 d addr n = elim (node_id_from_address b58 addr) [
    | Result.err e ↦ (start_run d n, Result.err (invalid_address e))
    | Result.ok target ↦
        let closest = find_closest d.rt target bucket_size in
        let after = start_run d (n + length closest) in
        elim (find_local d.record_ttl addr n closest) [
          | some p ↦ (after, Result.ok p)
          | none ↦ query_rounds d.record_ttl addr target lookup_max_iterations after []
        ]
  ]

  unfoldable pub add_all : Run → List PeerInfo → Run
  add_all s [] = s
  add_all s (p ∷ ps) =
      let added = add_peer s.rt p p.id (w.clock s.next) (w.clock (suc s.next)) in
      add_all (record s { rt = added.0; next = 2 + s.next }) ps

  unfoldable pub bootstrap : Dht → Bytes → ℕ → Run × Result QueryError ℕ
  unfolding add_all start_run seed_of
  bootstrap d onion n =
      let got =
        send_find_node w codecs d.record_ttl (start_run d n) (seed_of onion) d.local_peer.id in
      elim got.1 [
        | Result.err e ↦ (got.0, Result.err e)
        | Result.ok peers ↦ (add_all got.0 peers, Result.ok (length peers))
      ]

  -- The announcement of one identity to its closest peers, and how many of them took it.
  unfoldable pub announce_to : Run → PeerInfo → List PeerInfo → Run × ℕ
  announce_to s ident [] = (s, 0)
  announce_to s ident (peer ∷ peers) =
      let put = send_put_record w codecs s peer ident in
      elim put.1 [
        | Result.ok _ ↦
            let rest =
              announce_to (record put.0 { rt = record_success put.0.rt peer.onion_addr }) ident
                peers in
            (rest.0, suc rest.1)
        | Result.err _ ↦
            announce_to (record put.0 { rt = (record_failure put.0.rt peer.onion_addr).0 }) ident
              peers
      ]

  -- The loop over the identities: whether one was announced, and the last error.
  unfoldable pub announce_all :
      Run → Bool → Option AnnounceError → List PeerInfo → Run × Bool × Option AnnounceError
  unfolding announce_to
  announce_all s any last [] = (s, any, last)
  announce_all s any last (ident ∷ idents) = elim (find_closest s.rt ident.id bucket_size) [
    | [] ↦ announce_all s any (some no_peers_to_announce_to) idents
    | peer ∷ peers ↦
        let sent = announce_to s ident (peer ∷ peers) in
        elim sent.1 [
          | zero ↦ announce_all sent.0 any (some all_unreachable) idents
          | suc _ ↦ announce_all sent.0 true last idents
        ]
  ]

  unfoldable pub announce : Dht → ℕ → Dht × Option AnnounceError
  unfolding announce_all start_run seen_at
  announce d n =
      let self = seen_at (w.clock n) d.local_peer in
      let identities = self ∷ local_identities_snapshot d (w.clock (suc n)) in
      let sent = announce_all (start_run d (2 + n)) false none identities in
      let kept = (evict_by_failures sent.0.rt d.failure_threshold).0 in
      (record d { rt = kept; local_peer = self }, if sent.1 then none else sent.2)
