-- ===== src/Services/Registry.antt =====
-- internal/services/registry.go. The mutex is released around the calls of the keystore, the onion
-- engine, discovery and the hooks: what these answer, and what other goroutines do to the registry
-- meanwhile, are arguments of a call. The calls that go out are listed in their order.
pub mod Agreement
pub mod Rollback
use ensemble.Common.{
  Bool, true, false, not, Option, none, some, List, [], ◌∷◌, ◌++◌, map, if◌then◌else◌, Result,
}
use ensemble.Common.Maps.{lookup, insert, delete, bytes_beq}
use ensemble.Crypto.{Bytes, Sha256, Ripemd160, Base58}
use ensemble.Identity.Address.{derive_address}
use ensemble.Identity.Keypair.{Keypair}
use ensemble.Services.{Manifest, Handlers, Service}

pub record Registry : Type 0 where
  pub by_name : List (Bytes × Service)
  pub by_onion : List (Bytes × Service)
  pub has_discovery : Bool
  pub has_on_register : Bool
  pub has_on_unregister : Bool

-- With no services, no discovery and no hooks.
unfoldable pub new_registry : Registry
new_registry = record {
  by_name = [];
  by_onion = [];
  has_discovery = false;
  has_on_register = false;
  has_on_unregister = false;
}

-- The calls outside of the registry that succeed.
pub data Effect : Type 0 where
  added_onion removed_onion : Bytes → Effect
  advertised : Bytes → Bytes → Effect
  withdrew : Bytes → Effect
  ran_on_register ran_on_unregister : Bytes → Effect

-- The flag says that the removal of the onion failed too.
pub data RegistryError : Type 0 where
  already_registered not_registered loading_identity publishing_onion : RegistryError
  rolling_back removing_onion : RegistryError
  advertising on_register_hook : Bool → RegistryError

-- What the others answer during a call of `Register`.
pub record Answers : Type 0 where
  pub key : Option Keypair
  pub onion : Option Bytes
  pub advertise_ok : Bool
  pub hook_ok : Bool
  pub remove_ok : Bool

-- What other goroutines do before the service is stored, from then until the hook is read, and
-- while it runs.
pub record Others : Type 0 where
  pub before_store : Registry → Registry
  pub while_advertising : Registry → Registry
  pub while_hooked : Registry → Registry

-- The three changes under the mutex.
unfoldable pub store : Registry → Service → Registry
store r svc = record r {
  by_name = insert svc.name svc r.by_name;
  by_onion = insert svc.onion_addr svc r.by_onion;
}

unfoldable pub withdraw : Registry → Bytes → Bytes → Registry
withdraw r name onion = record r {
  by_name = delete name r.by_name;
  by_onion = delete onion r.by_onion;
}

-- `RemoveOnion`, and the error that follows from its own.
unfoldable pub remove_onion : Bytes → Bool → (Bool → RegistryError) → List Effect × RegistryError
remove_onion name ok e = if ok then (removed_onion name ∷ [], e false) else ([], e true)

abbrev pub Registered : Type 0
Registered = Registry × List Effect × Result RegistryError Service

-- After the advertisement: the hook, and the rollback if it fails.
unfoldable pub run_on_register :
    Registry → Service → Answers → Others → Bool → List Effect → Registered
unfolding withdraw remove_onion
run_on_register r svc a o advertises effects =
    let undone = if advertises then effects ++ withdrew svc.address ∷ [] else effects in
    let removed = remove_onion svc.name a.remove_ok on_register_hook in
    let after = o.while_hooked r in
    if not r.has_on_register
    then (r, effects, Result.ok svc)
    else if a.hook_ok
    then (after, effects ++ ran_on_register svc.name ∷ [], Result.ok svc)
    else (withdraw after svc.name svc.onion_addr, undone ++ removed.0, Result.err removed.1)

-- After the service is stored: the advertisement, and the rollback if it fails.
unfoldable pub advertise : Registry → Service → Answers → Others → List Effect → Registered
unfolding run_on_register withdraw remove_onion
advertise r svc a o effects =
    let after = o.while_advertising r in
    let removed = remove_onion svc.name a.remove_ok advertising in
    if not r.has_discovery
    then run_on_register after svc a o false effects
    else if a.advertise_ok
    then run_on_register after svc a o true (effects ++ advertised svc.address svc.onion_addr ∷ [])
    else (withdraw after svc.name svc.onion_addr, effects ++ removed.0, Result.err removed.1)

module _ (h : Sha256) (rip : Ripemd160) (b58 : Base58) where
  unfoldable pub service_of : Bytes → Keypair → Bytes → Manifest → Option Handlers → Service
  service_of name kp onion manifest handlers = record {
    name = name;
    address = derive_address h rip b58 kp.pub_key;
    onion_addr = onion;
    identity = kp;
    manifest = manifest;
    handlers = handlers;
  }

  -- The second check of the name, with the onion up.
  unfoldable pub commit : Registry → Service → Answers → Others → Registered
  unfolding store advertise remove_onion
  commit r svc a o =
      let removed =
        remove_onion svc.name a.remove_ok
          (λ failed. if failed then rolling_back else already_registered) in
      elim (lookup svc.name r.by_name) [
        | some _ ↦ (r, added_onion svc.name ∷ removed.0, Result.err removed.1)
        | none ↦ advertise (store r svc) svc a o (added_onion svc.name ∷ [])
      ]

  unfoldable pub register :
      Registry → Bytes → Manifest → Option Handlers → Answers → Others → Registered
  unfolding service_of commit
  register r name manifest handlers a o = elim (lookup name r.by_name) [
    | some _ ↦ (r, [], Result.err already_registered)
    | none ↦ elim a.key [
      | none ↦ (o.before_store r, [], Result.err loading_identity)
      | some kp ↦ elim a.onion [
        | none ↦ (o.before_store r, [], Result.err publishing_onion)
        | some onion ↦ commit (o.before_store r) (service_of name kp onion manifest handlers) a o
      ]
    ]
  ]

unfoldable pub unregister : Registry → Bytes → Bool → Registry × List Effect × Option RegistryError
unfolding withdraw
unregister r name remove_ok = elim (lookup name r.by_name) [
  | none ↦ (r, [], some not_registered)
  | some svc ↦
      let hooked = if r.has_on_unregister then ran_on_unregister svc.name ∷ [] else [] in
      let hidden = if r.has_discovery then withdrew svc.address ∷ [] else [] in
      (
        withdraw r name svc.onion_addr,
        hooked ++ (hidden ++ (if remove_ok then removed_onion name ∷ [] else [])),
        if remove_ok then none else some removing_onion,
      )
]

unfoldable pub services_of : List (Bytes × Service) → List Service
services_of [] = []
services_of ((_, svc) ∷ m) = svc ∷ services_of m

-- The hook is replayed over the services that are there, in any order; its errors are ignored, so
-- that its calls are listed whatever they answer. `SetDiscovery` does so too.
unfoldable pub set_on_register : Registry → Bool → Registry × List Effect
unfolding services_of
set_on_register r on = (
  record r { has_on_register = on },
  if on then map (λ svc. ran_on_register svc.name) (services_of r.by_name) else [],
)

unfoldable pub set_on_unregister : Registry → Bool → Registry
set_on_unregister r on = record r { has_on_unregister = on }

unfoldable pub set_discovery : Registry → Bool → Registry × List Effect
unfolding services_of
set_discovery r on = (
  record r { has_discovery = on },
  if on then map (λ svc. advertised svc.address svc.onion_addr) (services_of r.by_name) else [],
)

unfoldable pub get : Registry → Bytes → Option Service
get r name = lookup name r.by_name

unfoldable pub lookup_by_onion : Registry → Bytes → Option Service
lookup_by_onion r onion = lookup onion r.by_onion
