-- ===== src/Examples/Routes.antt =====
-- An onion request over two nodes.
use beldex_storage_server.Prelude.{
  le_bytes, be_bytes, ◌%◌, find, ℕ, ◌≡◌, ◌≢◌, ◌<◌, ◌^◌, refl, true, false, Option, none, some, [],
  ◌∷◌, Bytes, length, arith, byte_range, ◌==◌, nat_eq, if◌then◌else◌,
}
use beldex_storage_server.Keys.{X25519Pubkey}
use beldex_storage_server.Keys.Coding.{hex_of, view}
use beldex_storage_server.Swarm.{MnRecord, find_node, find_node_ed25519}
use beldex_storage_server.MasterNode.{Node, mnode_ready}
use beldex_storage_server.Onion.{aes_gcm}
use beldex_storage_server.Channel.{
  encrypt_xchacha20, encrypt_evp, encrypt_openssl, xchacha20_shared_key, cipher_key,
  derive_symmetric_key, ChannelEncryption, encrypt, decrypt, plain,
}
use beldex_storage_server.Channel.RoundTrip.{AreEnds, decrypt-encrypt}
use beldex_storage_server.Handler.Onion.{requested}
use beldex_storage_server.BmqServer.Onion.{Server}
use beldex_storage_server.HttpsServer.Onion.{process_onion_req_v2}
use beldex_storage_server.OnionClient.{
  build, final_layer, wrap_layer, seal, entry_blob, encode_size, Hop, onion_request,
}
use beldex_storage_server.OnionRoute.{ended, exhausted, travel, follow}
use beldex_storage_server.OnionRoute.Ends.{travel-ends}
use beldex_storage_server.OnionRoute.Layers.{IsHop}
use beldex_storage_server.OnionRoute.Delivered.{Route, arrived, passed, onion_request-delivered}
use beldex_storage_server.Examples.Concrete.{to_digits}
use beldex_storage_server.Examples.Channels.{prim, random, onion_env, edge_json, dumps, final_json}
use beldex_storage_server.Examples.Peers.{node, node_of, member}

abbrev client : ChannelEncryption
client = record { private_key = 5; public_key = 5; server = false }

abbrev service : ℕ → ChannelEncryption
service key = record { private_key = key; public_key = key; server = true }

abbrev last_mn : MnRecord
last_mn = record (member 2) { pubkey_x25519 = 13 }

-- The first node knows the last one.
abbrev first_node : Node
first_node = record node {
  swarm = record node.swarm {
    all_funded_nodes = (2, last_mn) ∷ [];
    all_funded_ed25519 = (102, 2) ∷ [];
  };
}

abbrev first : Server
first = record { node = first_node; channel = service 11 }

abbrev last : Server
last = record { node = node_of 2 1; channel = service 13 }

abbrev server_of : X25519Pubkey → Option Server
server_of key = if key == 13 then some last else none

abbrev first_hop : Hop
first_hop = record { ed25519 = 101; x25519 = 11; seckey = 5; draw = 2; random = random }

abbrev last_hop : Hop
last_hop = record { ed25519 = 102; x25519 = 13; seckey = 6; draw = 1; random = random }

first-IsHop : IsHop onion_env first first_hop
unfolding mnode_ready byte_range
first-IsHop = record { ready = refl; key = refl; pair = refl; role = refl; range = omega arith }

last-IsHop : IsHop onion_env last last_hop
unfolding mnode_ready byte_range
last-IsHop = record { ready = refl; key = refl; pair = refl; role = refl; range = omega arith }

route : Route onion_env server_of first first_hop (last_hop ∷ []) last last_hop
unfolding find_node_ed25519 find find_node
route =
    passed first last last first_hop last_hop last_hop [] last_mn first-IsHop refl refl
      (arrived last last_hop last-IsHop)

travel-ends_example : travel onion_env server_of 16 first (1 ∷ 2 ∷ []) ≢ exhausted
travel-ends_example = travel-ends onion_env server_of first (1 ∷ 2 ∷ [])

abbrev payload : Bytes
payload = 123 ∷ 125 ∷ []

abbrev body_of : Option Bytes → Bytes
body_of none = []
body_of (some b) = b

-- What the client posts.
abbrev posted : Bytes
posted = body_of (onion_request onion_env edge_json dumps none first_hop (last_hop ∷ []) payload [])

posted-some :
    onion_request onion_env edge_json dumps none first_hop (last_hop ∷ []) payload [] ≡ some posted
unfolding onion_request build final_layer wrap_layer seal entry_blob encode_size encrypt
    encrypt_xchacha20 encrypt_evp encrypt_openssl xchacha20_shared_key cipher_key
    derive_symmetric_key byte_range
posted-some = refl

posted-small : length posted < 2 ^ 32
unfolding onion_request build final_layer wrap_layer seal entry_blob encode_size encrypt
    encrypt_xchacha20 encrypt_evp encrypt_openssl xchacha20_shared_key cipher_key
    derive_symmetric_key byte_range hex_of view le_bytes to_digits be_bytes
posted-small = omega arith

onion_request-delivered_example :
    follow onion_env server_of
      (travel onion_env server_of 15)
      (process_onion_req_v2 edge_json onion_env first posted)
    ≡ ended (
        requested payload
          (record { ephem_key = 6 % byte_range 32; hop_no = 1; enc_type = aes_gcm })
          false
          true)
onion_request-delivered_example =
    onion_request-delivered onion_env edge_json dumps none server_of payload [] final_json false
      true refl refl refl refl first last first_hop last_hop (last_hop ∷ []) posted route
      posted-some posted-small (omega arith)

ends : AreEnds prim client (service 13)
unfolding byte_range
ends = record { first = refl; second = refl; roles = refl }

abbrev sealed : Bytes
sealed = body_of (encrypt prim client aes_gcm random payload 13)

sealed-some : encrypt prim client aes_gcm random payload 13 ≡ some sealed
unfolding encrypt encrypt_evp encrypt_openssl cipher_key derive_symmetric_key byte_range
sealed-some = refl

decrypt-encrypt_example : decrypt prim (service 13) aes_gcm sealed 5 ≡ plain payload
decrypt-encrypt_example =
    decrypt-encrypt prim client (service 13) aes_gcm random payload sealed ends sealed-some
