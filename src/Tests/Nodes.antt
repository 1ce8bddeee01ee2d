-- ===== src/Tests/Nodes.antt =====
-- Two DHT nodes; the second hosts an identity besides its own.
use ensemble.Common.{
  ℕ, ◌+◌, ◌*◌, ◌≤◌, ◌≡◌, refl, true, false, some, List, [], ◌∷◌, ◌++◌, replicate, length, arith,
  Result,
}
use ensemble.Crypto.{Bytes}
use ensemble.Discovery.NodeId.{NodeId}
use ensemble.Discovery.Routing.{PeerInfo, new_routing_table}
use ensemble.Discovery.Routing.Invariant.{Call, after_calls}
use ensemble.Discovery.Dht.{
  Dht, new_dht, unix_milli, from_milli, peer_info_to_record, record_to_peer_info, peers_to_response,
  add_local_identity,
}
use ensemble.Discovery.Dht.Queries.{
  World, unreachable, connected, wrap_unsigned, unexpired, send_find_node, find_node_answer,
  handle_conn,
}
use ensemble.Discovery.Dht.Search.{start_run, dht_lookup}
use ensemble.Discovery.Dht.Hosting.{DhtCall, after_dht_calls, IsSound, new_dht-after_dht_calls}
use ensemble.Discovery.Dht.Lookups.{IsAnswer, dht_lookup-IsAnswer}
use ensemble.Discovery.Dht.Exchange.{Taken, told, send_find_node-handle_conn}
use ensemble.Discovery.Dht.Requests.{NoRepeat, dht_lookup-asked}
use ensemble.Tests.Fixtures.{toy_base58, dht_codecs}
use ensemble.Discovery.NodeId.Derivation.{node_id_from_address}
use ensemble.Discovery.Routing.{
  find_closest, add_peer, add_new, all_peers, all_peers_of, check_rate_limit, count_in, evict,
  evict_by_failures, first_bucket, insert_by, is_stale, nearer, partition, partition_all,
  recent_times, record_failure, record_insertion, record_success, refresh, remove_from, remove_peer,
  sort_by, tracker_of, within_window,
}
use ensemble.Common.{bytes_eq}
use ensemble.Discovery.NodeId.{common_prefix_len, compare_dist, distance, prefix_from, top_bit}
use ensemble.Common.Maps.{lookup, insert}
use ensemble.Discovery.Dht.Search.{
  was_queried, ask, find_local, query_round, query_rounds, take_found,
}
use ensemble.Protocol.Envelope.{write_msg, read_msg, big_endian, from_big_endian, read_exactly}
use ensemble.Discovery.Dht.Queries.{
  accepted_record, answer_with, converse, handle_envelope, handle_find_node, handle_put_record,
  response_to, target_of,
}
use ensemble.Discovery.Dht.{is_expired, local_identities_snapshot, replace_identity, seen_at}
use ensemble.Discovery.Routing.Invariant.{after_call}

abbrev id_with : ℕ → NodeId
id_with b = b ∷ replicate 19 0

-- An address that the toy Base58 reads as a version, the identifier and a checksum.
abbrev address_of : ℕ → Bytes
address_of b = 0 ∷ (id_with b ++ replicate 4 0)

abbrev node_of : ℕ → ℕ → PeerInfo
node_of b ms = record {
  id = id_with b;
  address = address_of b;
  onion_addr = b ∷ [];
  last_seen = some (ms * 1000000);
  failures = 0;
}

abbrev server_world : World
server_world = record { clock = λ n. 5000000; is_done = λ n. false; dial = λ n onion. unreachable }

abbrev server : Dht
server =
    (add_local_identity toy_base58 (new_dht (new_routing_table (id_with 1)) (node_of 1 4))
      (address_of 3) (3 ∷ []) 4000000).0

-- Whoever is dialed, it is the server that answers.
abbrev world : World
world = record {
  clock = λ n. 6000000 + n;
  is_done = λ n. false;
  dial = λ n onion.
      connected true true (λ incoming. (handle_conn server_world dht_codecs server 0 incoming).1);
}

abbrev client : Dht
client = record (new_dht (new_routing_table (id_with 0)) (node_of 0 4)) {
  rt = after_calls (new_routing_table (id_with 0)) (Call.add (node_of 1 4) (id_with 1) 5 5 ∷ []);
}

lookup_finds :
    (dht_lookup world dht_codecs toy_base58 client (address_of 3) 0).1 ≡ Result.ok (node_of 3 5)
unfolding dht_lookup node_id_from_address find_closest after_calls add_peer bytes_eq
    new_routing_table common_prefix_len lookup was_queried send_find_node write_msg read_msg
    handle_conn peers_to_response add_local_identity new_dht insert accepted_record answer_with
    converse find_node_answer handle_envelope handle_find_node handle_put_record response_to
    target_of unexpired wrap_unsigned ask find_local query_round query_rounds start_run take_found
    from_milli is_expired local_identities_snapshot peer_info_to_record record_to_peer_info
    replace_identity seen_at unix_milli compare_dist distance prefix_from top_bit after_call add_new
    all_peers all_peers_of check_rate_limit count_in evict evict_by_failures first_bucket insert_by
    is_stale nearer partition partition_all recent_times record_failure record_insertion
    record_success refresh remove_from remove_peer sort_by tracker_of within_window big_endian
    from_big_endian read_exactly
lookup_finds = refl

dht_lookup-IsAnswer_example :
    IsAnswer world dht_codecs client.record_ttl
      (address_of 3)
      0
      (dht_lookup world dht_codecs toy_base58 client (address_of 3) 0).0.next
      (node_of 3 5)
dht_lookup-IsAnswer_example =
    dht_lookup-IsAnswer world dht_codecs toy_base58 client (address_of 3) 0 (node_of 3 5)
      lookup_finds

dht_lookup-asked_example :
    NoRepeat (dht_lookup world dht_codecs toy_base58 client (address_of 4) 0).0.asked
    × (length (dht_lookup world dht_codecs toy_base58 client (address_of 4) 0).0.asked ≤ 400)
dht_lookup-asked_example = dht_lookup-asked world dht_codecs toy_base58 client (address_of 4) 0

new_dht-after_dht_calls_example : IsSound toy_base58 (
    after_dht_calls world dht_codecs toy_base58
      (new_dht (new_routing_table (id_with 0)) (node_of 0 4))
      (DhtCall.boots (1 ∷ []) 0
        ∷ DhtCall.hosts (address_of 7) (7 ∷ []) 9
        ∷ DhtCall.looks_up (address_of 3) 10
        ∷ DhtCall.announces 50
        ∷ DhtCall.unhosts (address_of 7)
        ∷ []))
new_dht-after_dht_calls_example =
    new_dht-after_dht_calls world dht_codecs toy_base58 (λ m n p. omega arith) (id_with 0)
      (node_of 0 4)
      (DhtCall.boots (1 ∷ []) 0
        ∷ DhtCall.hosts (address_of 7) (7 ∷ []) 9
        ∷ DhtCall.looks_up (address_of 3) 10
        ∷ DhtCall.announces 50
        ∷ DhtCall.unhosts (address_of 7)
        ∷ [])

send_find_node-handle_conn_example :
    (ps : List PeerInfo) × ((send_find_node world dht_codecs client.record_ttl
        (start_run client 0)
        (node_of 1 4)
        (id_with 3)).1
      ≡ Result.ok ps)
    × Taken world client.record_ttl 1 (told server_world server (id_with 3) 0) ps
unfolding start_run write_msg wrap_unsigned peers_to_response find_node_answer find_closest
    add_local_identity node_id_from_address bytes_eq new_dht new_routing_table
    local_identities_snapshot
send_find_node-handle_conn_example =
    send_find_node-handle_conn world server_world dht_codecs client.record_ttl (start_run client 0)
      (node_of 1 4) server 0 (id_with 3) _ _ _ _ refl refl refl refl refl refl
