-- ===== src/Services/Registry/Rollback.antt =====
-- What a call of `Register` leaves behind when nothing else runs.
use ensemble.Common.{
  ℕ, suc, ◌≡◌, ◌≢◌, refl, ap₂, Bool, true, false, not, Option, none, some, List, [], ◌∷◌, ◌++◌,
  bytes_eq, if◌then◌else◌, if_intro, Option-cases, inl, inr, arith, Result,
}
use ensemble.Common.Maps.{
  Eq, lookup, insert, delete, bytes_beq, lookup-insert_self, lookup-insert_ne,
}
use ensemble.Crypto.{Bytes, Sha256, Ripemd160, Base58}
use ensemble.Services.{Manifest, Handlers, Service}
use ensemble.Services.Registry.{
  Registry, Registered, RegistryError, Effect, added_onion, removed_onion, advertised, withdrew,
  on_register_hook, advertising, Answers, Others, store, withdraw, remove_onion, run_on_register,
  advertise, service_of, commit, register, get, lookup_by_onion,
}

delete-insert_new {ℓ κ} :
    {K : Type ℓ} {V : Type κ} ⦃e : Eq K⦄ (k : K) (v : V) (m : List (K × V))
    → lookup k m ≡ none
    → delete k (insert k v m) ≡ m
unfolding lookup insert delete
delete-insert_new ⦃e⦄ k v [] h = ground (arith, e.beq_iff k k)
delete-insert_new ⦃e⦄ k v ((j, w) ∷ m) h = ground (arith, e.beq_iff j k, delete-insert_new k v m)

withdraw-store :
    (r : Registry) (svc : Service)
    → lookup svc.name r.by_name ≡ none
    → lookup svc.onion_addr r.by_onion ≡ none
    → withdraw (store r svc) svc.name svc.onion_addr ≡ r
unfolding withdraw store
withdraw-store r svc e e' =
    ap₂
      (λ (names : List (Bytes × Service)) (onions : List (Bytes × Service)). record r {
        by_name = names;
        by_onion = onions;
      })
      (delete-insert_new svc.name svc r.by_name e)
      (delete-insert_new svc.onion_addr svc r.by_onion e')

unfoldable pub tally : (Effect → Bool) → List Effect → ℕ
tally is_it [] = 0
tally is_it (x ∷ xs) = let rest = tally is_it xs in if is_it x then suc rest else rest

abbrev is_added : Bytes → Effect → Bool
is_added name (added_onion n) = bytes_eq n name
is_added name _ = false

abbrev is_removed : Bytes → Effect → Bool
is_removed name (removed_onion n) = bytes_eq n name
is_removed name _ = false

abbrev is_advertised : Bytes → Effect → Bool
is_advertised addr (advertised a _) = bytes_eq a addr
is_advertised addr _ = false

abbrev is_withdrawn : Bytes → Effect → Bool
is_withdrawn addr (withdrew a) = bytes_eq a addr
is_withdrawn addr _ = false

-- The onion of each name was removed as often as it was added, and each address withdrawn as often
-- as it was advertised.
pub record IsUndone (effects : List Effect) : Type 0 where
  pub onions : (name : Bytes) → tally (is_added name) effects ≡ tally (is_removed name) effects
  pub identities :
      (addr : Bytes) → tally (is_advertised addr) effects ≡ tally (is_withdrawn addr) effects

-- No other goroutine does anything.
abbrev pub quiet : Others
quiet = record { before_store = λ r. r; while_advertising = λ r. r; while_hooked = λ r. r }

nothing-IsUndone : IsUndone []
unfolding tally
nothing-IsUndone = record { onions = λ name. refl; identities = λ addr. refl }

-- The registry has the service besides its old ones.
pub record IsPlaced (r : Registry) (svc : Service) (r' : Registry) : Type 0 where
  pub named : get r' svc.name ≡ some svc
  pub routed : lookup_by_onion r' svc.onion_addr ≡ some svc
  pub other_names : (name : Bytes) → svc.name ≢ name → get r' name ≡ get r name
  pub other_onions :
      (onion : Bytes) → svc.onion_addr ≢ onion → lookup_by_onion r' onion ≡ lookup_by_onion r onion

store-IsPlaced : (r : Registry) (svc : Service) → IsPlaced r svc (store r svc)
unfolding store get lookup_by_onion
store-IsPlaced r svc = record {
  named = lookup-insert_self svc.name svc r.by_name;
  routed = lookup-insert_self svc.onion_addr svc r.by_onion;
  other_names = λ name apart. lookup-insert_ne svc.name name svc r.by_name apart;
  other_onions = λ onion apart. lookup-insert_ne svc.onion_addr onion svc r.by_onion apart;
}

-- The service is there under both keys and nothing else has changed, or all is as it was.
pub data AllOrNothing (r : Registry) (name : Bytes) (done : Registered) : Type 0 where
  placed :
      (svc : Service)
      → done.2 ≡ Result.ok svc
      → svc.name ≡ name
      → IsPlaced r svc done.0
      → AllOrNothing r name done
  undone :
      (e : RegistryError)
      → done.2 ≡ Result.err e
      → done.0 ≡ r
      → IsUndone done.1
      → AllOrNothing r name done

-- The calls of a registration before the hook.
abbrev effects_of : Service → Bool → List Effect
effects_of svc true = added_onion svc.name ∷ advertised svc.address svc.onion_addr ∷ []
effects_of svc false = added_onion svc.name ∷ []

removed-IsUndone :
    (svc : Service) (advertises ok : Bool) (e : Bool → RegistryError)
    → ok ≡ true
    → IsUndone (
        (if advertises
          then effects_of svc advertises ++ withdrew svc.address ∷ []
          else effects_of svc advertises)
        ++ (remove_onion svc.name ok e).0)
unfolding remove_onion tally
removed-IsUndone svc true ok e removes =
    rw removes (record { onions = λ name. refl; identities = λ addr. refl })
removed-IsUndone svc false ok e removes =
    rw removes (record { onions = λ name. refl; identities = λ addr. refl })

module _ (r : Registry) (svc : Service) (a : Answers) (removes : a.remove_ok ≡ true)
    (e : lookup svc.name r.by_name ≡ none) (e' : lookup svc.onion_addr r.by_onion ≡ none) where
  run_on_register-AllOrNothing :
      (advertises : Bool)
      → AllOrNothing r svc.name
          (run_on_register (store r svc) svc a quiet advertises (effects_of svc advertises))
  unfolding run_on_register
  run_on_register-AllOrNothing advertises =
      if_intro (λ (t : Registered). AllOrNothing r svc.name t) (not (store r svc).has_on_register)
        (λ off. placed svc refl refl (store-IsPlaced r svc))
        (λ on.
          if_intro (λ (t : Registered). AllOrNothing r svc.name t) a.hook_ok
            (λ passed. placed svc refl refl (store-IsPlaced r svc))
            (λ failed.
              undone _ refl (withdraw-store r svc e e')
                (removed-IsUndone svc advertises a.remove_ok on_register_hook removes)))

  advertise-AllOrNothing :
      AllOrNothing r svc.name (advertise (store r svc) svc a quiet (added_onion svc.name ∷ []))
  unfolding advertise
  advertise-AllOrNothing =
      if_intro (λ (t : Registered). AllOrNothing r svc.name t) (not (store r svc).has_discovery)
        (λ off. run_on_register-AllOrNothing false)
        (λ on.
          if_intro (λ (t : Registered). AllOrNothing r svc.name t) a.advertise_ok
            (λ shown. run_on_register-AllOrNothing true)
            (λ failed.
              undone _ refl (withdraw-store r svc e e')
                (removed-IsUndone svc false a.remove_ok advertising removes)))

-- A call of Register during which no other one runs, whose onion address is not in use and whose
-- rollback, if it comes to one, can remove the onion: it either returns the service, which is then
-- in both maps and nothing else changed, or it fails, the registry is as it was, the onion of each
-- name was removed as often as it was added, and each address withdrawn as often as advertised.
pub register-AllOrNothing :
    (h : Sha256) (rip : Ripemd160) (b58 : Base58) (r : Registry) (name : Bytes)
    (manifest : Manifest) (handlers : Option Handlers) (a : Answers)
    → ((onion : Bytes) → a.onion ≡ some onion → lookup onion r.by_onion ≡ none)
    → a.remove_ok ≡ true
    → AllOrNothing r name (register h rip b58 r name manifest handlers a quiet)
unfolding register commit
register-AllOrNothing h rip b58 r name manifest handlers a fresh removes =
    elim (Option-cases (lookup name r.by_name)) [
      | inr (old, e) ↦ rw (e, register) (undone _ refl refl nothing-IsUndone)
      | inl e ↦ elim (Option-cases a.key) [
        | inl k ↦ rw (e, k, register) (undone _ refl refl nothing-IsUndone)
        | inr (kp, k) ↦ elim (Option-cases a.onion) [
          | inl n ↦ rw (e, k, n, register) (undone _ refl refl nothing-IsUndone)
          | inr (onion, n) ↦
              rw (e, k, n, e, register, commit)
                (advertise-AllOrNothing r (service_of h rip b58 name kp onion manifest handlers) a
                  removes e (fresh onion n))
        ]
      ]
    ]
