-- ===== src/Daemon/Gate/Access.antt =====
-- Who gets through to a service that the daemon hosts.
use ensemble.Common.{◌≡◌, ◌≢◌, List, []}
use mathlib.Core.List.{Memᴰ}
use ensemble.Crypto.{Bytes}
use ensemble.Services.{acl_public, acl_allowlist, Manifest}
use ensemble.Signaling.Responder
use ensemble.Signaling.Responder.{Served}

-- Whom a manifest lets in: anyone, or who is on the list under an address that is not empty.
pub data Admits (manifest : Manifest) (addr : Bytes) : Type 0 where
  anyone : manifest.acl ≡ acl_public → Admits manifest addr
  listed :
      manifest.acl ≡ acl_allowlist → Memᴰ addr manifest.allowlist → addr ≢ [] → Admits manifest addr
