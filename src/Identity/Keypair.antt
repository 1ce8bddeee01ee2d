-- ===== src/Identity/Keypair.antt =====
-- internal/identity/keypair.go: key pairs of Ed25519. A nil key is the empty list.
use ensemble.Common.{Bool, [], length, ◌==◌, not, if◌then◌else◌}
use ensemble.Common.{Result}
use ensemble.Crypto.{Bytes, Ed25519}

pub record Keypair : Type 0 where
  pub pub_key : Bytes
  pub priv_key : Bytes

pub data KeyError : Type 0 where
  invalid_seed_size invalid_private_key_size invalid_public_key_size : KeyError

module _ (ed : Ed25519) where
  unfoldable pub from_seed : Bytes → Result KeyError Keypair
  from_seed seed =
      let priv_key = ed.new_key_from_seed seed in
      if not (length seed == 32)
      then Result.err invalid_seed_size
      else Result.ok (record { pub_key = ed.public priv_key; priv_key = priv_key })

  unfoldable pub unmarshal_private : Bytes → Result KeyError Keypair
  unmarshal_private bytes =
      if not (length bytes == 64)
      then Result.err invalid_private_key_size
      else Result.ok (record { pub_key = ed.public bytes; priv_key = bytes })

  unfoldable pub sign : Keypair → Bytes → Bytes
  sign k message = ed.sign k.priv_key message

  unfoldable pub verify : Keypair → Bytes → Bytes → Bool
  verify k message signature = ed.verify k.pub_key message signature

unfoldable pub from_public_key : Bytes → Result KeyError Keypair
from_public_key bytes =
    if not (length bytes == 32)
    then Result.err invalid_public_key_size
    else Result.ok (record { pub_key = bytes; priv_key = [] })
