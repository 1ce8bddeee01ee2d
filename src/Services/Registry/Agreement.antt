-- ===== src/Services/Registry/Agreement.antt =====
-- The two maps of the registry agree, however the calls interleave.
use ensemble.Common.{
  ◌≡◌, ◌↔◌, refl, sym, ap, ◌∙◌, Bool, true, false, not, Option, some, List, bytes_eq_iff, if_intro,
  Option-cases, inl, inr, arith,
}
use ensemble.Common.Maps.{lookup, bytes_beq, Each, lookup-insert, lookup-delete}
use ensemble.Crypto.{Bytes, Sha256, Ripemd160, Base58}
use ensemble.Services.{Manifest, Handlers, Service}
use ensemble.Services.Registry.{
  Registry, Registered, new_registry, Effect, Answers, Others, store, withdraw, run_on_register,
  advertise, service_of, commit, register, unregister, set_on_register, set_on_unregister,
  set_discovery, get, lookup_by_onion,
}

-- A service stands under its name in one map and under its onion address in the other.
pub record IsRegistry (onion_of : Bytes → Bytes) (r : Registry) : Type 0 where
  pub named : Each (λ name svc. (svc.name ≡ name) × (svc.onion_addr ≡ onion_of name)) r.by_name
  pub known : Each (λ onion svc. onion ≡ onion_of svc.name) r.by_onion
  pub agree : (name : Bytes) → lookup (onion_of name) r.by_onion ≡ lookup name r.by_name

module _ (onion_of : Bytes → Bytes) (apart : (a b : Bytes) → onion_of a ≡ onion_of b → a ≡ b) where
  store-IsRegistry :
      (r : Registry) (svc : Service)
      → svc.onion_addr ≡ onion_of svc.name
      → IsRegistry onion_of r
      → IsRegistry onion_of (store r svc)
  unfolding store
  store-IsRegistry r svc own v = record {
    named = λ name s found. ground (
      arith,
      lookup-insert svc.name name svc r.by_name,
      bytes_eq_iff svc.name name,
      v.named name s,
    );
    known = λ onion s found. ground (
      arith,
      lookup-insert svc.onion_addr onion svc r.by_onion,
      bytes_eq_iff svc.onion_addr onion,
      v.known onion s,
    );
    agree = λ name. ground (
      arith,
      lookup-insert svc.onion_addr (onion_of name) svc r.by_onion,
      lookup-insert svc.name name svc r.by_name,
      bytes_eq_iff svc.onion_addr (onion_of name),
      bytes_eq_iff svc.name name,
      apart svc.name name,
      v.agree name,
    );
  }

  withdraw-IsRegistry :
      (r : Registry) (name onion : Bytes)
      → onion ≡ onion_of name
      → IsRegistry onion_of r
      → IsRegistry onion_of (withdraw r name onion)
  unfolding withdraw
  withdraw-IsRegistry r name onion own v = record {
    named = λ n s found. ground (arith, lookup-delete name n r.by_name, v.named n s);
    known = λ o s found. ground (arith, lookup-delete onion o r.by_onion, v.known o s);
    agree = λ n. ground (
      arith,
      lookup-delete onion (onion_of n) r.by_onion,
      lookup-delete name n r.by_name,
      bytes_eq_iff onion (onion_of n),
      bytes_eq_iff name n,
      apart name n,
      v.agree n,
    );
  }

  -- What the other goroutines do keeps the agreement.
  record Harmless (o : Others) : Type 0 where
    first : (r : Registry) → IsRegistry onion_of r → IsRegistry onion_of (o.before_store r)
    second : (r : Registry) → IsRegistry onion_of r → IsRegistry onion_of (o.while_advertising r)
    third : (r : Registry) → IsRegistry onion_of r → IsRegistry onion_of (o.while_hooked r)

  run_on_register-IsRegistry :
      (r : Registry) (svc : Service) (a : Answers) (o : Others) (advertises : Bool)
      (effects : List Effect)
      → svc.onion_addr ≡ onion_of svc.name
      → Harmless o
      → IsRegistry onion_of r
      → IsRegistry onion_of (run_on_register r svc a o advertises effects).0
  unfolding run_on_register
  run_on_register-IsRegistry r svc a o advertises effects own calm v =
      if_intro (λ (t : Registered). IsRegistry onion_of t.0) (not r.has_on_register) (λ off. v)
        (λ on.
          if_intro (λ (t : Registered). IsRegistry onion_of t.0) a.hook_ok
            (λ passed. calm.third r v)
            (λ failed.
              withdraw-IsRegistry (o.while_hooked r) svc.name svc.onion_addr own (calm.third r v)))

  advertise-IsRegistry :
      (r : Registry) (svc : Service) (a : Answers) (o : Others) (effects : List Effect)
      → svc.onion_addr ≡ onion_of svc.name
      → Harmless o
      → IsRegistry onion_of r
      → IsRegistry onion_of (advertise r svc a o effects).0
  unfolding advertise
  advertise-IsRegistry r svc a o effects own calm v =
      let after = calm.second r v in
      if_intro (λ (t : Registered). IsRegistry onion_of t.0) (not r.has_discovery)
        (λ off. run_on_register-IsRegistry (o.while_advertising r) svc a o false _ own calm after)
        (λ on.
          if_intro (λ (t : Registered). IsRegistry onion_of t.0) a.advertise_ok
            (λ shown.
              run_on_register-IsRegistry (o.while_advertising r) svc a o true _ own calm after)
            (λ failed.
              withdraw-IsRegistry (o.while_advertising r) svc.name svc.onion_addr own after))

  commit-IsRegistry :
      (h : Sha256) (rip : Ripemd160) (b58 : Base58) (r : Registry) (svc : Service) (a : Answers)
      (o : Others)
      → svc.onion_addr ≡ onion_of svc.name
      → Harmless o
      → IsRegistry onion_of r
      → IsRegistry onion_of (commit h rip b58 r svc a o).0
  unfolding commit
  commit-IsRegistry h rip b58 r svc a o own calm v =
      elim (Option-cases (lookup svc.name r.by_name)) [
        | inr (old, e) ↦ rw (e, commit) v
        | inl e ↦
            rw (e, commit)
              (advertise-IsRegistry (store r svc) svc a o _ own calm (store-IsRegistry r svc own v))
      ]

  register-IsRegistry :
      (h : Sha256) (rip : Ripemd160) (b58 : Base58) (r : Registry) (name : Bytes)
      (manifest : Manifest) (handlers : Option Handlers) (a : Answers) (o : Others)
      → ((onion : Bytes) → a.onion ≡ some onion → onion ≡ onion_of name)
      → Harmless o
      → IsRegistry onion_of r
      → IsRegistry onion_of (register h rip b58 r name manifest handlers a o).0
  unfolding register
  register-IsRegistry h rip b58 r name manifest handlers a o own calm v =
      elim (Option-cases (lookup name r.by_name)) [
        | inr (old, e) ↦ rw (e, register) v
        | inl e ↦ elim (Option-cases a.key) [
          | inl k ↦ rw (e, k, register) (calm.first r v)
          | inr (kp, k) ↦ elim (Option-cases a.onion) [
            | inl n ↦ rw (e, k, n, register) (calm.first r v)
            | inr (onion, n) ↦
                rw (e, k, n, register)
                  (commit-IsRegistry h rip b58 (o.before_store r)
                    (service_of h rip b58 name kp onion manifest handlers) a o
                    (unfold service_of in own onion n) calm (calm.first r v))
          ]
        ]
      ]

  unregister-IsRegistry :
      (r : Registry) (name : Bytes) (remove_ok : Bool)
      → IsRegistry onion_of r
      → IsRegistry onion_of (unregister r name remove_ok).0
  unfolding unregister
  unregister-IsRegistry r name remove_ok v = elim (Option-cases (lookup name r.by_name)) [
    | inl e ↦ rw (e, unregister) v
    | inr (svc, e) ↦
        rw (e, unregister) (withdraw-IsRegistry r name svc.onion_addr (v.named name svc e).1 v)
  ]

set_on_register-IsRegistry :
    (onion_of : Bytes → Bytes) (r : Registry) (on : Bool)
    → IsRegistry onion_of r
    → IsRegistry onion_of (set_on_register r on).0
unfolding set_on_register
set_on_register-IsRegistry onion_of r on v = record {
  named = v.named;
  known = v.known;
  agree = v.agree;
}

set_on_unregister-IsRegistry :
    (onion_of : Bytes → Bytes) (r : Registry) (on : Bool)
    → IsRegistry onion_of r
    → IsRegistry onion_of (set_on_unregister r on)
unfolding set_on_unregister
set_on_unregister-IsRegistry onion_of r on v = record {
  named = v.named;
  known = v.known;
  agree = v.agree;
}

set_discovery-IsRegistry :
    (onion_of : Bytes → Bytes) (r : Registry) (on : Bool)
    → IsRegistry onion_of r
    → IsRegistry onion_of (set_discovery r on).0
unfolding set_discovery
set_discovery-IsRegistry onion_of r on v = record {
  named = v.named;
  known = v.known;
  agree = v.agree;
}

new_registry-IsRegistry : (onion_of : Bytes → Bytes) → IsRegistry onion_of new_registry
unfolding new_registry lookup
new_registry-IsRegistry onion_of = record {
  named = λ name svc found. cc;
  known = λ onion svc found. cc;
  agree = λ name. refl;
}

-- The registries that come from one by any calls. While a call of `Register` has the mutex
-- released, others may run any calls too. The onion engine answers the onion address of the name.
pub data Reach (onion_of : Bytes → Bytes) (h : Sha256) (rip : Ripemd160) (b58 : Base58)
    : Registry → Registry → Type 0 where
  rest : (r : Registry) → Reach onion_of h rip b58 r r
  registers :
      (r s : Registry) (name : Bytes) (manifest : Manifest) (handlers : Option Handlers)
      (a : Answers) (o : Others)
      → ((onion : Bytes) → a.onion ≡ some onion → onion ≡ onion_of name)
      → ((x : Registry) → Reach onion_of h rip b58 x (o.before_store x))
      → ((x : Registry) → Reach onion_of h rip b58 x (o.while_advertising x))
      → ((x : Registry) → Reach onion_of h rip b58 x (o.while_hooked x))
      → Reach onion_of h rip b58 r s
      → Reach onion_of h rip b58 r (register h rip b58 s name manifest handlers a o).0
  unregisters :
      (r s : Registry) (name : Bytes) (remove_ok : Bool)
      → Reach onion_of h rip b58 r s
      → Reach onion_of h rip b58 r (unregister s name remove_ok).0
  sets_hook :
      (r s : Registry) (on : Bool)
      → Reach onion_of h rip b58 r s
      → Reach onion_of h rip b58 r (set_on_register s on).0
  sets_unhook :
      (r s : Registry) (on : Bool)
      → Reach onion_of h rip b58 r s
      → Reach onion_of h rip b58 r (set_on_unregister s on)
  sets_discovery :
      (r s : Registry) (on : Bool)
      → Reach onion_of h rip b58 r s
      → Reach onion_of h rip b58 r (set_discovery s on).0

module _ (onion_of : Bytes → Bytes) (apart : (a b : Bytes) → onion_of a ≡ onion_of b → a ≡ b)
    (h : Sha256) (rip : Ripemd160) (b58 : Base58) where
  Reach-IsRegistry :
      (r s : Registry)
      → Reach onion_of h rip b58 r s
      → IsRegistry onion_of r
      → IsRegistry onion_of s
  Reach-IsRegistry r _ (rest _) v = v
  Reach-IsRegistry r _ (registers _ s name manifest handlers a o own one two three steps) v =
      register-IsRegistry onion_of apart h rip b58 s name manifest handlers a o own
        (record {
          first = λ x. Reach-IsRegistry x (o.before_store x) (one x);
          second = λ x. Reach-IsRegistry x (o.while_advertising x) (two x);
          third = λ x. Reach-IsRegistry x (o.while_hooked x) (three x);
        })
        (Reach-IsRegistry r s steps v)
  Reach-IsRegistry r _ (unregisters _ s name remove_ok steps) v =
      unregister-IsRegistry onion_of apart s name remove_ok (Reach-IsRegistry r s steps v)
  Reach-IsRegistry r _ (sets_hook _ s on steps) v =
      set_on_register-IsRegistry onion_of s on (Reach-IsRegistry r s steps v)
  Reach-IsRegistry r _ (sets_unhook _ s on steps) v =
      set_on_unregister-IsRegistry onion_of s on (Reach-IsRegistry r s steps v)
  Reach-IsRegistry r _ (sets_discovery _ s on steps) v =
      set_discovery-IsRegistry onion_of s on (Reach-IsRegistry r s steps v)

  -- Of a registry that any calls have made of a new one, however they interleave, if different
  -- names get different onion addresses: LookupByOnion finds a service exactly if Get finds it under
  -- its name and the onion address is its own, and Get finds it exactly if LookupByOnion finds it
  -- under its onion address and the name is its own.
  pub Reach-agreement :
      (r : Registry) (name onion : Bytes) (svc : Service)
      → Reach onion_of h rip b58 new_registry r
      → ((lookup_by_onion r onion ≡ some svc)
          ↔ ((svc.onion_addr ≡ onion) × (get r svc.name ≡ some svc)))
        × ((get r name ≡ some svc)
            ↔ ((svc.name ≡ name) × (lookup_by_onion r svc.onion_addr ≡ some svc)))
  unfolding get lookup_by_onion
  Reach-agreement r name onion svc steps =
      let v : IsRegistry onion_of r =
        Reach-IsRegistry new_registry r steps (new_registry-IsRegistry onion_of) in
      let by_name_of : (o : Bytes)
          → lookup o r.by_onion ≡ some svc
          → lookup svc.name r.by_name ≡ some svc =
        λ o found.
          sym (v.agree svc.name)
          ∙ ap (λ k. lookup k r.by_onion) (sym (v.known o svc found))
          ∙ found in
      let by_onion_of : (n : Bytes)
          → lookup n r.by_name ≡ some svc
          → lookup svc.onion_addr r.by_onion ≡ some svc =
        λ n found. ap (λ o. lookup o r.by_onion) (v.named n svc found).1 ∙ v.agree n ∙ found in
      (
        (
          λ found. (
            (v.named svc.name svc (by_name_of onion found)).1 ∙ sym (v.known onion svc found),
            by_name_of onion found,
          ),
          λ (own, found). ap (λ o. lookup o r.by_onion) (sym own) ∙ by_onion_of svc.name found,
        ),
        (
          λ found. ((v.named name svc found).0, by_onion_of name found),
          λ (own, found). ap (λ n. lookup n r.by_name) (sym own) ∙ by_name_of svc.onion_addr found,
        ),
      )
