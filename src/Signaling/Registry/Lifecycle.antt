-- ===== src/Signaling/Registry/Lifecycle.antt =====
-- What holds of the registry at any time.
use ensemble.Common.{
  ℕ, ◌≡◌, refl, sym, ap, subst, ◌∙◌, true, false, Option, none, some, List, [], ◌∷◌, Bool-cases,
  Option-cases, bytes_eq, bytes_eq_iff, ◌⊎◌, inl, inr, arith,
}
use ensemble.Common.Maps.{
  lookup, insert, delete, bytes_beq, Each, Distinct, lookup-insert, lookup-delete, insert-Distinct,
  delete-Distinct,
}
use ensemble.Crypto.{Bytes}
use ensemble.Signaling.Registry.{
  ServiceConfig, ServiceState, Server, new_server, start_all, start, add_service, cancelled,
  remove_service, set_on_connection_request, cancel_all, stop,
}

-- No name twice, each service under its own name, its accept loop running if and only if the
-- server was started, and no service in a stopped server.
pub record IsServer (s : Server) : Type 0 where
  pub distinct : Distinct s.services
  pub running : Each (λ name st. (st.config.name ≡ name) × (st.accepting ≡ s.started)) s.services
  pub emptied : s.stopped ≡ true → s.services ≡ []

lookup-start_all :
    (name : Bytes) (m : List (Bytes × ServiceState))
    → lookup name (start_all m)
      ≡ elim (lookup name m) [ none ↦ none | some st ↦ some (record st { accepting = true }) ]
unfolding lookup start_all
lookup-start_all name [] = refl
lookup-start_all name ((k, st) ∷ m) = elim (Bool-cases (bytes_eq k name)) [
  | inl here ↦ rw (here, lookup)
  | inr apart ↦ rw (apart, lookup) (lookup-start_all name m)
]

start_all-Distinct : (m : List (Bytes × ServiceState)) → Distinct m → Distinct (start_all m)
unfolding start_all
start_all-Distinct [] d = tt
start_all-Distinct ((k, st) ∷ m) d = (lookup-start_all k m ∙ (rw d.0), start_all-Distinct m d.1)

same-IsServer : (t s : Server) → t ≡ s → IsServer s → IsServer t
same-IsServer t s e v = subst IsServer (sym e) v

start-IsServer : (s : Server) → IsServer s → IsServer (start s).0
unfolding start
start-IsServer s v = elim (Bool-cases s.started) [
  | inl on ↦ same-IsServer (start s).0 s (ground arith) v
  | inr off ↦ elim (Bool-cases s.stopped) [
    | inl ended ↦ same-IsServer (start s).0 s (ground arith) v
    | inr open_still ↦
        same-IsServer (start s).0 (record s { started = true; services = start_all s.services })
          (ground arith)
          (record {
            distinct = start_all-Distinct s.services v.distinct;
            running = λ name st found. elim (Option-cases (lookup name s.services)) [
              | inl r ↦ absurd (ground (arith, lookup-start_all name s.services))
              | inr (old, r) ↦
                  let was = v.running name old r in
                  let same : record old { accepting = true } ≡ st =
                    ground (arith, lookup-start_all name s.services) in
                  subst (λ (t : ServiceState). (t.config.name ≡ name) × (t.accepting ≡ true)) same
                    (was.0, refl)
            ];
            emptied = λ e. absurd (ground arith);
          })
  ]
]

insert-IsServer :
    (s : Server) (name : Bytes) (st : ServiceState)
    → IsServer s
    → s.stopped ≡ false
    → st.config.name ≡ name
    → st.accepting ≡ s.started
    → IsServer (record s { services = insert name st s.services })
insert-IsServer s name st v open_still named flag = record {
  distinct = insert-Distinct name st s.services v.distinct;
  running = λ k t found. elim (Bool-cases (bytes_eq name k)) [
    | inl here ↦
        let same : st ≡ t = ground (arith, lookup-insert name k st s.services) in
        let key : name ≡ k = (bytes_eq_iff name k).0 here in
        subst (λ (x : ServiceState). (x.config.name ≡ k) × (x.accepting ≡ s.started)) same
          (named ∙ key, flag)
    | inr apart ↦ v.running k t (ground (arith, lookup-insert name k st s.services))
  ];
  emptied = λ e. absurd (ground arith);
}

add_service-IsServer :
    (s : Server) (cfg : ServiceConfig) → IsServer s → IsServer (add_service s cfg).0
unfolding add_service
add_service-IsServer s cfg v =
    let st : ServiceState = record { config = cfg; accepting = s.started } in
    elim (Bool-cases s.stopped) [
      | inl ended ↦ same-IsServer (add_service s cfg).0 s (ground arith) v
      | inr open_still ↦ elim added [
        | inl kept ↦ same-IsServer (add_service s cfg).0 s kept v
        | inr new ↦
            same-IsServer (add_service s cfg).0
              (record s { services = insert cfg.name st s.services }) new
              (insert-IsServer s cfg.name st v open_still refl refl)
      ]
    ]
  where
    added :
        ((add_service s cfg).0 ≡ s)
        ⊎ ((add_service s cfg).0 ≡ record s {
          services = insert cfg.name (record { config = cfg; accepting = s.started }) s.services;
        })
    added = ground arith

remove_service-IsServer :
    (s : Server) (name : Bytes) → IsServer s → IsServer (remove_service s name).0
unfolding remove_service delete
remove_service-IsServer s name v = elim (Option-cases (lookup name s.services)) [
  | inl r ↦ same-IsServer (remove_service s name).0 s (ground arith) v
  | inr (st, r) ↦
      same-IsServer (remove_service s name).0
        (record s { services = delete name s.services; ended = cancelled name st s.ended })
        (ground arith)
        (record {
          distinct = delete-Distinct name s.services v.distinct;
          running = λ k t found. v.running k t (ground (arith, lookup-delete name k s.services));
          emptied = λ e. ap (delete name) (v.emptied e);
        })
]

stop-IsServer : (s : Server) → IsServer s → IsServer (stop s)
unfolding stop lookup
stop-IsServer s v = elim (Bool-cases s.stopped) [
  | inl ended ↦ same-IsServer (stop s) s (ground arith) v
  | inr open_still ↦
      same-IsServer (stop s)
        (record s { stopped = true; services = []; ended = cancel_all s.services s.ended })
        (ground arith) (record { distinct = tt; running = λ k t found. cc; emptied = λ e. refl })
]

set_on_connection_request-IsServer :
    (s : Server) (name : Bytes) (cb : Option ℕ)
    → IsServer s
    → IsServer (set_on_connection_request s name cb).0
unfolding set_on_connection_request lookup
set_on_connection_request-IsServer s name cb v = elim (Option-cases (lookup name s.services)) [
  | inl r ↦ same-IsServer (set_on_connection_request s name cb).0 s (ground arith) v
  | inr (st, r) ↦
      let new : ServiceState = record st { config = record st.config { callback = cb } } in
      let was = v.running name st r in
      elim (Bool-cases s.stopped) [
        | inl ended ↦
            let nothing : lookup name s.services ≡ none = ap (lookup name) (v.emptied ended) in
            absurd (ground arith)
        | inr open_still ↦
            same-IsServer (set_on_connection_request s name cb).0
              (record s { services = insert name new s.services }) (ground arith)
              (insert-IsServer s name new v open_still was.0 was.1)
      ]
]

pub data ServerCall : Type 0 where
  starts stops : ServerCall
  adds : ServiceConfig → ServerCall
  removes : Bytes → ServerCall
  sets : Bytes → Option ℕ → ServerCall

unfoldable pub after_server_calls : Server → List ServerCall → Server
after_server_calls s [] = s
after_server_calls s (starts ∷ calls) = after_server_calls (start s).0 calls
after_server_calls s (stops ∷ calls) = after_server_calls (stop s) calls
after_server_calls s (adds cfg ∷ calls) = after_server_calls (add_service s cfg).0 calls
after_server_calls s (removes name ∷ calls) = after_server_calls (remove_service s name).0 calls
after_server_calls s (sets name cb ∷ calls) =
    after_server_calls (set_on_connection_request s name cb).0 calls

after_server_calls-IsServer :
    (s : Server) (calls : List ServerCall) → IsServer s → IsServer (after_server_calls s calls)
unfolding after_server_calls
after_server_calls-IsServer s [] v = v
after_server_calls-IsServer s (starts ∷ calls) v =
    after_server_calls-IsServer (start s).0 calls (start-IsServer s v)
after_server_calls-IsServer s (stops ∷ calls) v =
    after_server_calls-IsServer (stop s) calls (stop-IsServer s v)
after_server_calls-IsServer s (adds cfg ∷ calls) v =
    after_server_calls-IsServer (add_service s cfg).0 calls (add_service-IsServer s cfg v)
after_server_calls-IsServer s (removes name ∷ calls) v =
    after_server_calls-IsServer (remove_service s name).0 calls (remove_service-IsServer s name v)
after_server_calls-IsServer s (sets name cb ∷ calls) v =
    after_server_calls-IsServer (set_on_connection_request s name cb).0 calls
      (set_on_connection_request-IsServer s name cb v)

-- After any sequence of Start, AddService, RemoveService, SetOnConnectionRequest and Stop on a new
-- server no name is registered twice, each service stands under its own name, its accept loop
-- runs if and only if the server was started, and a stopped server has no services.
pub new_server-after_server_calls :
    (calls : List ServerCall) → IsServer (after_server_calls new_server calls)
unfolding new_server lookup
new_server-after_server_calls calls =
    after_server_calls-IsServer new_server calls
      (record { distinct = tt; running = λ k t found. cc; emptied = λ e. refl })
