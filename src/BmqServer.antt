-- ===== src/BmqServer.antt =====
-- httpserver/bmq_server.cpp: what a node does with the messages of other nodes and of clients. The
-- coding of values as bytes is libbmq's.
pub mod Values
pub mod Onion
pub mod StorageTest
use beldex_storage_server.Prelude.{
  ℕ, Bool, true, false, Option, none, some, List, [], ◌∷◌, ◌==◌, nat_eq, bytes_eq, Bytes, String,
  codes, if◌then◌else◌, length, ◌++◌,
}
use beldex_storage_server.Keys.Coding.{load_from_bytes}
use beldex_storage_server.Swarm.{find_node_x25519}
use beldex_storage_server.Storage.{RowIds, Disk}
use beldex_storage_server.Common.{Hex}
use beldex_storage_server.Serialization.{Codec}
use beldex_storage_server.Reachability.{bmq}
use beldex_storage_server.MasterNode.{Node, update_last_ping}
use beldex_storage_server.MasterNode.Relay.{process_push_batch}

-- The stringstream over the parts of a message.
unfoldable pub joined : List Bytes → Bytes
joined [] = []
joined (part ∷ parts) = part ++ joined parts

-- The address of a peer by its key, its parts being those that are formatted; none is an empty text.
unfoldable pub peer_lookup : Node → Bytes → Option (String × ℕ)
peer_lookup node pubkey_bin = elim (load_from_bytes pubkey_bin) [
  | none ↦ none
  | some pubkey ↦ elim (find_node_x25519 node.swarm pubkey) [
    | none ↦ none
    | some mn ↦ some (mn.ip, mn.bmq_port)
  ]
]

-- The new state and the parts of the reply.
unfoldable pub handle_mn_data :
    Hex → Codec → Bool → RowIds → Disk → Node → List Bytes → Option (Node × List Bytes)
unfolding joined
handle_mn_data hex codec is_mainnet ids disk node parts =
    elim (process_push_batch hex codec is_mainnet ids disk (joined parts) node) [
      | none ↦ none
      | some node' ↦ some (node', [])
    ]

unfoldable pub handle_ping : Node → ℕ → Node × List Bytes
handle_ping node now = (update_last_ping node bmq now, codes "pong" ∷ [])
