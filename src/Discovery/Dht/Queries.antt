-- ===== src/Discovery/Dht/Queries.antt =====
-- internal/discovery/dht.go: one request and its answer, on both sides. The network and the clock
-- are a world that answers by the number of the event.
use ensemble.Common.{
  ℕ, suc, ◌+◌, ◌/◌, Bool, true, false, Option, none, some, List, [], ◌∷◌, ◌++◌, length, take,
  replicate, ltb, ◌==◌, if◌then◌else◌, Result, require, relabel, ◌>>=◌,
}
use ensemble.Crypto.{Bytes}
use ensemble.Protocol.Envelope.{Envelope, CodecError, write_msg, read_msg}
use ensemble.Discovery.NodeId.{NodeId, id_length}
use ensemble.Discovery.Routing.{PeerInfo, RoutingTable, bucket_size, add_peer, find_closest}
use ensemble.Discovery.Dht.{
  Dht, PeerRecord, DhtNodeResponse, DhtCodecs, is_expired, seen_at, peer_info_to_record,
  record_to_peer_info, peers_to_response, local_identities_snapshot,
}

abbrev pub dht_find_node : ℕ
dht_find_node = 30

abbrev pub dht_node_response : ℕ
dht_node_response = 31

abbrev pub dht_put_record : ℕ
dht_put_record = 32

-- What dialing gives: nothing, or a connection on which the two writes of a message succeed or
-- not, and whose other end answers the bytes that it is sent with bytes.
pub data Link : Type 0 where
  unreachable : Link
  connected : Bool → Bool → (Bytes → Bytes) → Link

-- The answers of the outside to the event of a number: the time, whether the caller's context is
-- done, and the link to an onion address.
pub record World : Type 0 where
  pub clock : ℕ → ℕ
  pub is_done : ℕ → Bool
  pub dial : ℕ → Bytes → Link

-- The parts of the node that a call changes, with the number of the next event and the peers that
-- were sent a request, the last one first.
pub record Run : Type 0 where
  pub rt : RoutingTable
  pub next : ℕ
  pub asked : List NodeId

pub data QueryError : Type 0 where
  dialing marshalling_query unmarshalling_response : QueryError
  writing_query reading_answer : CodecError → QueryError

unfoldable pub wrap_unsigned : ℕ → Bytes → ℕ → Envelope
wrap_unsigned kind payload now = record {
  kind = kind;
  payload = payload;
  timestamp = now / 1000000;
  pub_key = [];
  signature = [];
}

-- The records that are readable and not expired, each at its own reading of the clock.
unfoldable pub unexpired : World → ℕ → ℕ → List PeerRecord → List PeerInfo
unexpired w ttl n [] = []
unexpired w ttl n (r ∷ rs) =
    let rest = unexpired w ttl (suc n) rs in
    elim (record_to_peer_info (some r)) [
      | none ↦ rest
      | some p ↦ if is_expired (w.clock n) ttl p then rest else p ∷ rest
    ]

module _ (w : World) (codecs : DhtCodecs) where
  -- The dial, the request of a kind and the answer's envelope, for an event's number.
  unfoldable pub converse : ℕ → Bytes → ℕ → Option Bytes → Result QueryError Envelope
  unfolding wrap_unsigned
  converse n onion kind marshalled = elim (w.dial n onion) [
    | unreachable ↦ Result.err dialing
    | connected length_ok payload_ok answer ↦ do
      let payload = (← require marshalling_query marshalled)
      let sent =
          (← relabel writing_query (
            write_msg codecs.envelope (wrap_unsigned kind payload (w.clock n)) length_ok
              payload_ok))
      let got = (← relabel reading_answer (read_msg codecs.envelope (answer sent)))
      Result.ok got.0
  ]

  unfoldable pub response_to : ℕ → Bytes → ℕ → Option Bytes → Result QueryError DhtNodeResponse
  unfolding converse
  response_to n onion kind marshalled = do
    let env = (← converse n onion kind marshalled)
    require unmarshalling_response (codecs.node_response.unmarshal env.payload)

  unfoldable pub send_find_node :
      ℕ → Run → PeerInfo → NodeId → Run × Result QueryError (List PeerInfo)
  unfolding response_to unexpired
  send_find_node ttl s peer target =
      let n = s.next in
      let query = codecs.find_node.marshal (record { target = target }) in
      let asked : Run = record s { next = suc n; asked = peer.id ∷ s.asked } in
      elim (response_to n peer.onion_addr dht_find_node query) [
        | Result.err e ↦ (asked, Result.err e)
        | Result.ok r ↦ (
          record asked { next = suc n + length r.peers },
          Result.ok (unexpired w ttl (suc n) r.peers),
        )
      ]

  -- The loop of `sendPutRecord` over the answer.
  unfoldable pub add_answers : Run → NodeId → List PeerRecord → Run
  add_answers s source [] = s
  add_answers s source (r ∷ rs) = elim (record_to_peer_info (some r)) [
    | none ↦ add_answers s source rs
    | some p ↦
        let added = add_peer s.rt p source (w.clock s.next) (w.clock (suc s.next)) in
        add_answers (record s { rt = added.0; next = 2 + s.next }) source rs
  ]

  -- Whether a failure comes after the request is written: the announcement has succeeded then.
  unfoldable pub delivered : QueryError → Bool
  delivered (reading_answer _) = true
  delivered unmarshalling_response = true
  delivered _ = false

  unfoldable pub send_put_record : Run → PeerInfo → PeerInfo → Run × Result QueryError (Unit {0})
  unfolding response_to delivered add_answers
  send_put_record s peer ident =
      let n = s.next in
      let query =
        codecs.put_record.marshal (record { announced = some (peer_info_to_record ident) }) in
      let asked : Run = record s { next = suc n; asked = peer.id ∷ s.asked } in
      elim (response_to n peer.onion_addr dht_put_record query) [
        | Result.err e ↦ (asked, if delivered e then Result.ok tt else Result.err e)
        | Result.ok r ↦ (add_answers asked peer.id r.peers, Result.ok tt)
      ]

  -- A message that answers, if it can be marshalled.
  unfoldable pub answer_with : List PeerInfo → ℕ → Option Envelope
  unfolding wrap_unsigned
  answer_with peers now = elim (codecs.node_response.marshal (peers_to_response peers)) [
    | none ↦ none
    | some payload ↦ some (wrap_unsigned dht_node_response payload now)
  ]

  unfoldable pub target_of : Bytes → NodeId
  target_of target =
      if ltb (length target) id_length then replicate id_length 0 else take id_length target

  -- The peers of the answer: the closest ones, this node, the identities it hosts.
  unfoldable pub find_node_answer : Dht → NodeId → ℕ → List PeerInfo
  unfolding seen_at
  find_node_answer d target n =
      find_closest d.rt target bucket_size
      ++ (seen_at (w.clock n) d.local_peer ∷ local_identities_snapshot d (w.clock (suc n)))

  unfoldable pub handle_find_node : Dht → ℕ → Envelope → Option Envelope
  unfolding answer_with target_of find_node_answer
  handle_find_node d n env = elim (codecs.find_node.unmarshal env.payload) [
    | none ↦ none
    | some msg ↦ answer_with (find_node_answer d (target_of msg.target) n) (w.clock (2 + n))
  ]

  -- The peer of a record that is stored.
  unfoldable pub accepted_record : Dht → ℕ → Envelope → Option PeerInfo
  accepted_record d n env = elim (codecs.put_record.unmarshal env.payload) [
    | none ↦ none
    | some msg ↦ elim (record_to_peer_info msg.announced) [
      | none ↦ none
      | some p ↦ if is_expired (w.clock n) d.record_ttl p then none else some p
    ]
  ]

  unfoldable pub handle_put_record : Dht → ℕ → Envelope → Dht × Option Envelope
  unfolding accepted_record answer_with
  handle_put_record d n env = elim (accepted_record d n env) [
    | none ↦ (d, none)
    | some p ↦
        let added = add_peer d.rt p p.id (w.clock (1 + n)) (w.clock (2 + n)) in
        (
          record d { rt = added.0 },
          answer_with (find_closest added.0 p.id bucket_size) (w.clock (3 + n)),
        )
  ]

  unfoldable pub handle_envelope : Dht → ℕ → Envelope → Dht × Option Envelope
  unfolding handle_find_node handle_put_record
  handle_envelope d n env =
      if env.kind == dht_find_node
      then (d, handle_find_node d n env)
      else if env.kind == dht_put_record
      then handle_put_record d n env
      else (d, none)

  -- `HandleConn` for the bytes that come in: the bytes that go out, none if the message cannot be
  -- read or has no answer.
  unfoldable pub handle_conn : Dht → ℕ → Bytes → Dht × Bytes
  unfolding handle_envelope
  handle_conn d n incoming = elim (read_msg codecs.envelope incoming) [
    | Result.err _ ↦ (d, [])
    | Result.ok (env, _) ↦
        let handled = handle_envelope d n env in
        elim handled.1 [
          | none ↦ (handled.0, [])
          | some resp ↦ elim (write_msg codecs.envelope resp true true) [
            | Result.err _ ↦ (handled.0, [])
            | Result.ok bytes ↦ (handled.0, bytes)
          ]
        ]
  ]
