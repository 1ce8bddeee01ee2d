-- ===== src/Signaling/Registry.antt =====
-- internal/signaling/server.go, the server's registry of services and its life cycle. An accept
-- loop that runs is the flag `accepting`; `cancel` of a context is the loop's flag going off.
pub mod Lifecycle
use ensemble.Common.{
  ℕ, Bool, true, false, not, ◌||◌, Option, none, some, List, [], ◌∷◌, if◌then◌else◌, Result,
}
use ensemble.Common.Maps.{lookup, insert, delete, bytes_beq}
use ensemble.Crypto.{Bytes}

-- The fields of ServiceConfig that the registry reads; `has_keypair` and `has_listener` are false
-- for nil, and `callback` numbers the callbacks.
pub record ServiceConfig : Type 0 where
  pub name : Bytes
  pub has_keypair : Bool
  pub address : Bytes
  pub has_listener : Bool
  pub callback : Option ℕ

pub record ServiceState : Type 0 where
  pub config : ServiceConfig
  pub accepting : Bool

pub record Server : Type 0 where
  pub started : Bool
  pub stopped : Bool
  pub services : List (Bytes × ServiceState)
  pub ended : List Bytes  -- the services whose accept loops were cancelled

pub data ServerError : Type 0 where
  already_stopped requires_name requires_keypair requires_address requires_listener : ServerError
  service_exists service_not_found : ServerError

unfoldable pub new_server : Server
new_server = record { started = false; stopped = false; services = []; ended = [] }

unfoldable pub is_blank : Bytes → Bool
is_blank [] = true
is_blank (_ ∷ _) = false

-- startAcceptLocked for each of the services.
unfoldable pub start_all : List (Bytes × ServiceState) → List (Bytes × ServiceState)
start_all [] = []
start_all ((name, st) ∷ services) = (name, record st { accepting = true }) ∷ start_all services

unfoldable pub start : Server → Server × Option ServerError
unfolding start_all
start s =
    if s.started
    then (s, none)
    else if s.stopped
    then (s, some already_stopped)
    else (record s { started = true; services = start_all s.services }, none)

unfoldable pub add_service : Server → ServiceConfig → Server × Option ServerError
unfolding is_blank
add_service s cfg =
    let st : ServiceState = record { config = cfg; accepting = s.started } in
    if is_blank cfg.name
    then (s, some requires_name)
    else if not cfg.has_keypair
    then (s, some requires_keypair)
    else if is_blank cfg.address
    then (s, some requires_address)
    else if not cfg.has_listener
    then (s, some requires_listener)
    else if s.stopped
    then (s, some already_stopped)
    else elim (lookup cfg.name s.services) [
      | some _ ↦ (s, some service_exists)
      | none ↦ (record s { services = insert cfg.name st s.services }, none)
    ]

unfoldable pub cancelled : Bytes → ServiceState → List Bytes → List Bytes
cancelled name st ended = if st.accepting then name ∷ ended else ended

unfoldable pub remove_service : Server → Bytes → Server × Option ServerError
unfolding cancelled
remove_service s name = elim (lookup name s.services) [
  | none ↦ (s, some service_not_found)
  | some st ↦
      (record s { services = delete name s.services; ended = cancelled name st s.ended }, none)
]

unfoldable pub set_on_connection_request : Server → Bytes → Option ℕ → Server × Option ServerError
set_on_connection_request s name cb = elim (lookup name s.services) [
  | none ↦ (s, some service_not_found)
  | some st ↦ (
    record s {
      services = insert name (record st { config = record st.config { callback = cb } }) s.services;
    },
    none,
  )
]

-- The loop of `Stop`.
unfoldable pub cancel_all : List (Bytes × ServiceState) → List Bytes → List Bytes
unfolding cancelled
cancel_all [] ended = ended
cancel_all ((name, st) ∷ services) ended = cancel_all services (cancelled name st ended)

unfoldable pub stop : Server → Server
unfolding cancel_all
stop s =
    if s.stopped
    then s
    else record s { stopped = true; services = []; ended = cancel_all s.services s.ended }
