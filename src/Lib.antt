-- ===== src/Lib.antt =====
-- Ensemble: a peer-to-peer messenger whose peers find each other in a distributed hash table, meet
-- by a signed handshake over onion connections, and send files in chunks under a Merkle root.
-- This library models the parts that decide what a peer believes: whom it talks to, which peers
-- it knows, and which bytes it saves.
--
-- The parts. A peer's identity is an Ed25519 key pair; its address is a checked hash of the public
-- key, and its node identifier that hash. The routing table holds known peers by the distance of
-- their identifiers. To connect, the initiator sends a request with a nonce, the responder answers
-- with its key and a signature of the nonce, and the initiator confirms in the same way. The sender
-- of a file cuts it into chunks, offers the Merkle root of their hashes, and sends each chunk with
-- its proof in a window; the receiver checks each chunk against the root, acknowledges it, and
-- writes the file at the end. A node finds the onion address of a peer by an iterative lookup in the
-- hash table, whose nodes answer with the closest peers that they know and the identities that they
-- host. A daemon registers its services under a name and an onion address each, and advertises
-- them in the hash table. Chat messages and their acknowledgements are signed envelopes. The
-- connector takes a peer from its lookup over the handshake to a direct connection or one over Tor.
--
-- The files.
--   Common, with children: Boolean tests, lists over the native numbers, results, maps as
--     association lists, counting of keys, bits.
--   Crypto: interfaces of SHA-256, RIPEMD-160, base58 and Ed25519, with the laws relied on.
--   FileTransfer.Merkle: internal/filetransfer/merkle.go. BuildMerkleTree is build_merkle_tree,
--     Proof is proof_of, VerifyProof is verify_proof.
--   FileTransfer.Chunker: internal/filetransfer/chunker.go. NewChunkerWithSize, ReadChunk,
--     AllChunkHashes under their names; the file is an argument.
--   FileTransfer.Receiver: internal/filetransfer/receiver.go. receiveChunks is a function of the
--     list of messages, reassemble of the chunks kept and of what the disk answers.
--   FileTransfer.Sender: internal/filetransfer/sender.go. sendOneChunk and sendChunks, as a
--     function of the list of rounds: what the context, the stream and the peer do in each.
--   Protocol.Envelope: internal/protocol/codec.go. A stream is the list of its bytes.
--   Discovery.NodeId, Discovery.Routing: internal/discovery/routing.go. Each method of
--     RoutingTable is a function from the table to the table and the result.
--   Discovery.Dht: internal/discovery/dht.go. The state and the records; Discovery.Dht.Queries has
--     sendFindNode, sendPutRecord and the handlers, Discovery.Dht.Search has Lookup, Bootstrap and
--     Announce. The network, the clock and the caller's context are a World, asked by the number
--     of the event.
--   Identity.Address, Identity.Keypair: internal/identity/address.go and keypair.go.
--   Signaling.Handshake: internal/signaling/handshake.go. The nonce cache is threaded through, each
--     reading of the clock and each draw of random bytes is an argument, protobuf is a codec.
--   Signaling.Client: internal/signaling/client.go. An attempt is a function of what the dialer and
--     the connection do in it; RequestConnection is a loop of at most three attempts.
--   Signaling.Responder: internal/signaling/server.go. handleEnvelopeForService is handle_request, a
--     function of what the connection and the user do in the session.
--   Signaling.Registry: internal/signaling/server.go. Start, AddService, RemoveService,
--     SetOnConnectionRequest and Stop are functions from the server to the server and the error.
--   Services, Services.Registry: internal/services/service.go and registry.go. What other
--     goroutines do between the critical sections of Register is an argument.
--   Chat, Chat.Messaging: internal/chat/history.go and service.go.
--   Api.Auth: internal/api/auth.go.
--   Transport.Nat: internal/transport/nat.go. What a dial gives is an argument; a multiaddress is
--     its text.
--   Daemon.Gate: internal/daemon/service_gate.go, and the configuration of a service in daemon.go.
--   Transport.Connector, Transport.Connector.Peers: internal/transport/connector.go. A flow is a
--     function of what the finder, the peer and the network do in it; Connect, Reconnect,
--     ReconnectWithFallback, Disconnect and the transfer slots are functions from the connector to
--     the connector and what the caller sees.
--   Tests: the theorems applied to small cases.
--
-- Bounds and fuel. Counters of type uint32 wrap at 2^32; a theorem on a file asks for fewer
-- chunks than that. grow in the Merkle tree doubles at most as often as there are leaves, siblings
-- halves a position that is its own fuel, and fill_window sends at most all chunks of the file;
-- each of these bounds the rounds of its loop. The loops on a stream run over the list of
-- what the stream gives, and tell apart that the list is at its end.
--
-- A lookup has 20 rounds of at most 20 candidates, which is the loop's own bound.
--
-- Not modelled: the offers and decisions around a transfer, the server's accept loops and
-- dispatch, the exchange of IP addresses, contacts, the keystore, the rest of transport, Tor, the
-- rest of the daemon, the methods of the API besides its authentication, and the user interface;
-- JSON and file access of the routing table, of which Load is modelled from the decoded peers on.
-- Mutexes are not modelled: an operation holds its lock while it reads and changes the state that
-- others share, and the calls are taken in the order of the locks; where Register releases its
-- lock, the others' calls are explicit. Durations longer than 292 years, at which Go's arithmetic
-- on them stops, are modelled in the authentication only.
pub mod Common
pub mod Crypto
pub mod FileTransfer
pub mod Discovery
pub mod Identity
pub mod Signaling
pub mod Protocol
pub mod Services
pub mod Chat
pub mod Api
pub mod Transport
pub mod Daemon
pub mod Tests
