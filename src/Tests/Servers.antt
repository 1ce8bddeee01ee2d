-- ===== src/Tests/Servers.antt =====
-- A server to which a service is added before and after it starts.
use ensemble.Common.{true, none, some, [], ◌∷◌, List}
use ensemble.Signaling.Registry.{ServiceConfig, new_server}
use ensemble.Signaling.Registry.Lifecycle.{
  IsServer, ServerCall, starts, stops, adds, removes, sets, after_server_calls,
  new_server-after_server_calls,
}

abbrev config : ServiceConfig
config = record {
  name = 1 ∷ [];
  has_keypair = true;
  address = 2 ∷ [];
  has_listener = true;
  callback = none;
}

abbrev calls : List ServerCall
calls =
    adds config
    ∷ starts
    ∷ adds (record config { name = 3 ∷ [] })
    ∷ sets (3 ∷ []) (some 4)
    ∷ removes (1 ∷ [])
    ∷ stops
    ∷ adds config
    ∷ []

new_server-after_server_calls_example : IsServer (after_server_calls new_server calls)
new_server-after_server_calls_example = new_server-after_server_calls calls
