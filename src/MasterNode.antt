-- ===== src/MasterNode.antt =====
-- httpserver/master_node.h and master_node.cpp: the state of a node and what its handlers and timers
-- share. A lock is held across each operation, so an operation is one step on the state. What goes to
-- other nodes is added to `outbox`, what beldexd is told of other nodes to `reports`.
pub mod Parse
pub mod Relay
pub mod Peers
pub mod StorageTest
pub mod Update
use Prim.Native.Nat.{max}
use beldex_storage_server.Prelude.{
  ℕ, ◌+◌, Bool, true, false, not, ◌&&◌, ◌||◌, Option, none, some, List, [], ◌∷◌, ◌++◌, ◌==◌, ◌!=◌,
  nat_eq, string_eq, Bytes, String, ltb, leb, map, length, if◌then◌else◌,
}
use beldex_storage_server.Keys.{LegacyPubkey, X25519Pubkey}
use beldex_storage_server.Common.{Hex, Message}
use beldex_storage_server.Swarm.{
  MnRecord, Swarm, SwarmInfo, BlockUpdate, invalid_swarm_id, has_mnode, our_swarm,
  apply_swarm_changes,
}
use beldex_storage_server.Storage.{
  RowIds, Disk, Database, Stored, inserted, already_there, db_full, raised,
}
use beldex_storage_server.Storage
use beldex_storage_server.Rpc.{BtDict}
use beldex_storage_server.Serialization.{Codec, serialize_old}
use beldex_storage_server.Stats.{AllStats, bump_requests, store, proxy, onion}
use beldex_storage_server.Reachability.{Reachability, ReachType, incoming_ping}

-- What goes to other nodes: a command of mn.storage_cc, a batch of messages (mn.data), a storage test
-- with its height and the bytes of a hash, or the two pings of a reachability test, with the earlier
-- failures.
pub data Sent : Type 0 where
  storage_cc : String → BtDict → Sent
  batch : Bytes → Sent
  storage_test https_storage_test : ℕ → Bytes → Sent
  pings : ℕ → Sent

pub data MnodeStatus : Type 0 where
  unknown unstaked decommissioned active : MnodeStatus

-- MasterNode. `swarm_` is set by the constructor for good; `active_mns` is what bmqServer was given.
-- The keys of block_hashes_cache are in order.
pub record Node : Type 0 where
  pub syncing : Bool
  pub is_active : Bool
  pub got_first_response : Bool
  pub force_start : Bool
  pub shutting_down : Bool
  pub hardfork : ℕ × ℕ
  pub block_height : ℕ
  pub target_height : ℕ
  pub block_hash : Bytes
  pub swarm : Swarm
  pub db : Database
  pub status : MnodeStatus
  pub block_hashes_cache : List (ℕ × Bytes)
  pub beldexd_pings : ℕ
  pub reach : Reachability
  pub stats : AllStats
  pub active_mns : List X25519Pubkey
  pub outbox : List (X25519Pubkey × Sent)
  pub reports : List (LegacyPubkey × Bool)

abbrev pub block_hash_cache_size : ℕ
block_hash_cache_size = 30

abbrev pub test_blocks_buffer : ℕ
test_blocks_buffer = 4

abbrev pub client_retrieve_message_limit : ℕ
client_retrieve_message_limit = 100

abbrev pub storage_server_hardfork : ℕ × ℕ
storage_server_hardfork = (12, 0)

abbrev pub hardfork_https_ping_test_url : ℕ × ℕ
hardfork_https_ping_test_url = (12, 1)

abbrev pub hardfork_bmq_storage_tests : ℕ × ℕ
hardfork_bmq_storage_tests = (12, 1)

abbrev pub hardfork_recursive_store : ℕ × ℕ
hardfork_recursive_store = (12, 1)

abbrev pub hardfork_bt_message_serialization : ℕ × ℕ
hardfork_bt_message_serialization = (12, 1)

abbrev pub hardfork_hash_blake2b : ℕ × ℕ
hardfork_hash_blake2b = (12, 1)

-- The comparison of a std::pair.
abbrev pub hf_le : ℕ × ℕ → ℕ × ℕ → Bool
hf_le (major, minor) (a, b) = ltb major a || (a == major && leb minor b)

unfoldable pub hf_at_least : Node → ℕ × ℕ → Bool
hf_at_least node hf = hf_le hf node.hardfork

unfoldable pub send_to : List MnRecord → Sent → Node → Node
send_to peers sent node = record node {
  outbox = node.outbox ++ map (λ p. (p.pubkey_x25519, sent)) peers;
}

-- Whether Database::store has thrown, which ends process_store.
pub has_raised : Stored → Bool
has_raised inserted = false
has_raised already_there = false
has_raised db_full = false
has_raised raised = true

abbrev front : List Bytes → Bytes
front [] = []
front (b ∷ bs) = b

module _ (hex : Hex) (codec : Codec) (is_mainnet : Bool) where
  -- Before the hardfork of recursive requests a node relays what it stores itself.
  unfoldable pub relay_legacy : Message → Node → Node
  unfolding hf_at_least send_to
  relay_legacy msg node =
      if not (hf_at_least node hardfork_recursive_store)
      then send_to node.swarm.swarm_peers
          (batch (front (serialize_old hex codec is_mainnet [] (msg ∷ [])))) node
      else node

  -- The last component is what Database::store gave.
  unfoldable pub process_store : RowIds → Disk → Node → Message → Node × Stored
  unfolding relay_legacy has_raised
  process_store ids disk node msg =
      let (db', stored) = Storage.store ids disk node.db msg in
      let node' : Node = record node { db = db'; stats = bump_requests store node.stats } in
      (if has_raised stored then node' else relay_legacy msg node', stored)

unfoldable pub record_proxy_request : Node → Node
record_proxy_request node = record node { stats = bump_requests proxy node.stats }

unfoldable pub record_onion_request : Node → Node
record_onion_request node = record node { stats = bump_requests onion node.stats }

unfoldable pub update_last_ping : Node → ReachType → ℕ → Node
update_last_ping node type now = record node { reach = incoming_ping node.reach type now }

unfoldable pub shutdown : Node → Node
shutdown node = record node { shutting_down = true }

-- mnode_ready, without its reason
unfoldable pub mnode_ready : Node → Bool
unfolding hf_at_least
mnode_ready node =
    not node.shutting_down
    && ((hf_at_least node storage_server_hardfork
          && (node.swarm.cur_swarm_id != invalid_swarm_id && not node.syncing))
        || node.force_start)

unfoldable pub on_bootstrap_update : Node → BlockUpdate → Node
unfolding apply_swarm_changes
on_bootstrap_update node bu = record node {
  swarm = apply_swarm_changes node.swarm bu.swarms;
  target_height = max node.target_height bu.height;
  active_mns = if node.syncing then bu.active_x25519_pubkeys else node.active_mns;
}

unfoldable pub derive_mnode_status : BlockUpdate → MnRecord → MnodeStatus
unfolding our_swarm has_mnode
derive_mnode_status bu our_address = elim (our_swarm our_address bu.swarms) [
  | some si ↦ active
  | none ↦ if has_mnode our_address bu.decommissioned_nodes then decommissioned else unstaked
]

-- The response to admin.storage_server_ping: a failed request or an empty body, a body that is no
-- json with a status, or its status.
pub data PingReply : Type 0 where
  no_reply bad_json : PingReply
  status_text : String → PingReply

-- The counter of beldexd_ping: only a status other than OK ends a run of good pings.
pub beldexd_ping_reply : Node → PingReply → Node
beldexd_ping_reply node no_reply = node
beldexd_ping_reply node bad_json = node
beldexd_ping_reply node (status_text text) = record node {
  beldexd_pings = if text == "OK" then node.beldexd_pings + 1 else 0;
}

-- The timer that runs an hour after the start.
unfoldable pub end_syncing : Node → Node
end_syncing node = record node { syncing = false }
