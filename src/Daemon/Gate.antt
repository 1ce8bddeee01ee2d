-- ===== src/Daemon/Gate.antt =====
-- internal/daemon/service_gate.go: the answer to unknown peers that a service's manifest gives,
-- and the configuration with which internal/daemon/daemon.go adds a service to the signaling
-- server.
pub mod Access
use ensemble.Common.{
  Bool, true, false, not, ◌&&◌, Option, none, some, List, [], ◌∷◌, bytes_eq, if◌then◌else◌,
}
use ensemble.Crypto.{Bytes, Sha256, Ripemd160, Base58, Ed25519}
use ensemble.Protocol.{Codec}
use ensemble.Services.{Acl, acl_public, acl_contacts, acl_allowlist, acl_other, Service}
use ensemble.Signaling.Handshake.{NonceCache, ConnRequest, ConnResponse, ConnConfirm}
use ensemble.Signaling.Responder
use ensemble.Signaling.Responder.{ConnectionDecision, Session, Served, handle_request}

abbrev pub accept_any : ConnectionDecision
accept_any = record { accepted = true; reason = [] }

-- "not on allowlist"
abbrev pub not_on_allowlist : Bytes
not_on_allowlist =
    110 ∷ 111 ∷ 116 ∷ 32 ∷ 111 ∷ 110 ∷ 32 ∷ 97 ∷ 108 ∷ 108 ∷ 111 ∷ 119 ∷ 108 ∷ 105 ∷ 115 ∷ 116 ∷ []

-- "no per-service contacts configured"
abbrev pub no_contacts_configured : Bytes
no_contacts_configured =
    110 ∷ 111 ∷ 32 ∷ 112 ∷ 101 ∷ 114 ∷ 45 ∷ 115 ∷ 101 ∷ 114 ∷ 118 ∷ 105 ∷ 99 ∷ 101 ∷ 32 ∷ 99 ∷ 111
    ∷ 110 ∷ 116 ∷ 97 ∷ 99 ∷ 116 ∷ 115 ∷ 32 ∷ 99 ∷ 111 ∷ 110 ∷ 102 ∷ 105 ∷ 103 ∷ 117 ∷ 114 ∷ 101
    ∷ 100 ∷ []

-- "unknown ACL"
abbrev pub unknown_acl : Bytes
unknown_acl = 117 ∷ 110 ∷ 107 ∷ 110 ∷ 111 ∷ 119 ∷ 110 ∷ 32 ∷ 65 ∷ 67 ∷ 76 ∷ []

-- The keys of the set that is built from the allowlist: its entries less the empty ones.
unfoldable pub allowlist_set : List Bytes → List Bytes
allowlist_set [] = []
allowlist_set ([] ∷ addrs) = allowlist_set addrs
allowlist_set ((b ∷ addr) ∷ addrs) = (b ∷ addr) ∷ allowlist_set addrs

unfoldable pub in_set : Bytes → List Bytes → Bool
in_set addr [] = false
in_set addr (a ∷ addrs) = let rest = in_set addr addrs in if bytes_eq a addr then true else rest

unfoldable pub decide_by : Acl → List Bytes → Bytes → ConnectionDecision
unfolding in_set allowlist_set
decide_by acl_public allowlist addr = accept_any
decide_by acl_allowlist allowlist addr =
    if in_set addr (allowlist_set allowlist)
    then accept_any
    else record { accepted = false; reason = not_on_allowlist }
decide_by acl_contacts allowlist addr = record { accepted = false; reason = no_contacts_configured }
decide_by acl_other allowlist addr = record { accepted = false; reason = unknown_acl }

unfoldable pub service_connection_gate : Service → Bytes → ConnectionDecision
unfolding decide_by
service_connection_gate svc addr = decide_by svc.manifest.acl svc.manifest.allowlist addr

-- The service as it is added to the signaling server: with the gate, and without a contact store.
unfoldable pub service_config : Service → Responder.Service
service_config svc = record {
  keypair = svc.identity;
  address = svc.address;
  contacts = none;
  has_callback = true;
}

-- The gate answers for the request's sender, unless the context is done before; it runs only for a
-- payload that is a request.
unfoldable pub gated_session : Codec ConnRequest → Service → Session → Session
unfolding service_connection_gate
gated_session requests svc env = record env {
  decided = elim env.decided [
    | none ↦ none
    | some _ ↦ elim (requests.unmarshal env.payload) [
      | none ↦ none
      | some req ↦ some (service_connection_gate svc req.from_address)
    ]
  ];
}

module _ (h : Sha256) (rip : Ripemd160) (b58 : Base58) (ed : Ed25519) (requests : Codec ConnRequest)
    (responses : Codec ConnResponse) (confirms : Codec ConnConfirm) where
  -- A hosted service answers a connection request.
  unfoldable pub serve : Service → Session → NonceCache → NonceCache × Served
  unfolding gated_session service_config
  serve svc env nc =
      handle_request h rip b58 ed requests responses confirms (service_config svc)
        (gated_session requests svc env) nc
