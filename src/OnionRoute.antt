-- ===== src/OnionRoute.antt =====
-- The way of an onion request from node to node: httpserver/bmq_server.cpp and request_handler.cpp run
-- on each node in turn, and what one relays is the message that the next one gets.
pub mod Ends
pub mod Layers
pub mod Steps
pub mod Delivered
use beldex_storage_server.Prelude.{
  ℕ, zero, suc, Option, none, some, List, [], ◌∷◌, Bytes, String, Bool,
}
use beldex_storage_server.Keys.{X25519Pubkey}
use beldex_storage_server.Swarm.{MnRecord}
use beldex_storage_server.MasterNode.{Node}
use beldex_storage_server.Handler.Onion.{
  OnionRequestMetadata, OnionAction, replied, wrapped, requested, relayed, proxied,
}
use beldex_storage_server.BmqServer.Onion.{
  OnionEnv, Server, encode_onion_data, handle_onion_request,
}

-- Where a request ends: at an action that is no relay, at a node that is not there, at a read past the
-- end, or not within the fuel.
pub data Journey : Type 0 where
  ended : OnionAction → Journey
  lost undefined exhausted : Journey

module _ (env : OnionEnv) (server_of : X25519Pubkey → Option Server) where
  -- The next node, if the action is a relay; `continue` is the rest of the way.
  unfoldable pub follow : (Server → Bytes → Journey) → Option (Node × OnionAction) → Journey
  follow continue none = undefined
  follow continue (some (node, replied status message)) = ended (replied status message)
  follow continue (some (node, wrapped status message m json b64)) =
      ended (wrapped status message m json b64)
  follow continue (some (node, requested body m json b64)) = ended (requested body m json b64)
  follow continue (some (node, proxied url payload)) = ended (proxied url payload)
  follow continue (some (node, relayed mn payload m)) = elim (server_of mn.pubkey_x25519) [
    | none ↦ lost
    | some server ↦ continue server (encode_onion_data env payload m)
  ]

  unfoldable pub travel : ℕ → Server → Bytes → Journey
  travel zero server wire = exhausted
  travel (suc fuel) server wire = follow (travel fuel) (handle_onion_request env server (wire ∷ []))
