-- ===== src/Services.antt =====
-- internal/services: the registered services and their registry.
pub mod Registry
use ensemble.Common.{Bool, true, false, Option, none, some, List, [], ◌∷◌}
use ensemble.Crypto.{Bytes}
use ensemble.Identity.Keypair.{Keypair}

pub data Acl : Type 0 where
  acl_public acl_contacts acl_allowlist acl_other : Acl

abbrev pub acl_string : Acl → Bytes
acl_string acl_public = 112 ∷ 117 ∷ 98 ∷ 108 ∷ 105 ∷ 99 ∷ []
acl_string acl_contacts = 99 ∷ 111 ∷ 110 ∷ 116 ∷ 97 ∷ 99 ∷ 116 ∷ 115 ∷ []
acl_string acl_allowlist = 97 ∷ 108 ∷ 108 ∷ 111 ∷ 119 ∷ 108 ∷ 105 ∷ 115 ∷ 116 ∷ []
acl_string acl_other = 117 ∷ 110 ∷ 107 ∷ 110 ∷ 111 ∷ 119 ∷ 110 ∷ []

pub record Manifest : Type 0 where
  pub description : Bytes
  pub acl : Acl
  pub allowlist : List Bytes

-- Which handler interfaces the registered value implements.
pub record Handlers : Type 0 where
  pub chat : Bool
  pub file : Bool
  pub connection : Bool

pub record Service : Type 0 where
  pub name : Bytes
  pub address : Bytes
  pub onion_addr : Bytes
  pub identity : Keypair
  pub manifest : Manifest
  pub handlers : Option Handlers

unfoldable pub as_chat : Service → Bool
as_chat s = elim s.handlers [ none ↦ false | some h ↦ h.chat ]

unfoldable pub as_file : Service → Bool
as_file s = elim s.handlers [ none ↦ false | some h ↦ h.file ]

unfoldable pub as_connection : Service → Bool
as_connection s = elim s.handlers [ none ↦ false | some h ↦ h.connection ]
