-- ===== src/Tests/Registries.antt =====
-- A registry with one service.
use ensemble.Common.{◌≡◌, ◌↔◌, refl, sym, true, false, none, some, [], ◌∷◌, replicate}
use ensemble.Common.Maps.{lookup}
use ensemble.Crypto.{Bytes}
use ensemble.Services.{acl_contacts, Manifest, Service}
use ensemble.Services.Registry.{
  Registry, new_registry, Answers, service_of, register, get, lookup_by_onion,
}
use ensemble.Services.Registry.Agreement.{Reach, rest, registers, Reach-agreement}
use ensemble.Services.Registry.Rollback.{quiet, AllOrNothing, register-AllOrNothing}
use ensemble.Tests.Fixtures.{toy_sha, toy_ripemd, toy_base58, some-injective}

abbrev service_name : Bytes
service_name = 5 ∷ 6 ∷ []

abbrev manifest : Manifest
manifest = record { description = []; acl = acl_contacts; allowlist = [] }

abbrev onion_address : Bytes → Bytes
onion_address name = 9 ∷ name

onion_address-injective : (a b : Bytes) → onion_address a ≡ onion_address b → a ≡ b
onion_address-injective a b e = cc

abbrev answers : Answers
answers = record {
  key = some (record { pub_key = replicate 32 1; priv_key = replicate 64 1 });
  onion = some (onion_address service_name);
  advertise_ok = true;
  hook_ok = false;
  remove_ok = true;
}

abbrev registry : Registry
registry =
    (register toy_sha toy_ripemd toy_base58 new_registry service_name manifest none answers quiet).0

registry-Reach : Reach onion_address toy_sha toy_ripemd toy_base58 new_registry registry
registry-Reach =
    registers new_registry new_registry service_name manifest none answers quiet
      (λ onion e. sym (some-injective e)) (λ x. rest x) (λ x. rest x) (λ x. rest x)
      (rest new_registry)

abbrev service : Service
service =
    service_of toy_sha toy_ripemd toy_base58 service_name
      (record { pub_key = replicate 32 1; priv_key = replicate 64 1 }) (onion_address service_name)
      manifest none

Reach-agreement_example :
    ((lookup_by_onion registry (onion_address service_name) ≡ some service) ↔ (
      (service.onion_addr ≡ onion_address service_name)
      × (get registry service.name ≡ some service)))
    × ((get registry service_name ≡ some service) ↔ (
        (service.name ≡ service_name)
        × (lookup_by_onion registry service.onion_addr ≡ some service)))
Reach-agreement_example =
    Reach-agreement onion_address onion_address-injective toy_sha toy_ripemd toy_base58 registry
      service_name (onion_address service_name) service registry-Reach

-- With a hook that fails.
abbrev hooked : Registry
hooked = record new_registry { has_on_register = true }

register-AllOrNothing_example :
    AllOrNothing hooked service_name
      (register toy_sha toy_ripemd toy_base58 hooked service_name manifest none answers quiet)
unfolding lookup new_registry
register-AllOrNothing_example =
    register-AllOrNothing toy_sha toy_ripemd toy_base58 hooked service_name manifest none answers
      (λ onion e. refl) refl
