-- ===== src/MasterNode/Update.antt =====
-- Block updates in httpserver/master_node.cpp: on_swarm_update and the handler of update_swarms, with
-- count_missing_data of httpserver/swarm.cpp. std::map is a list in the order of its keys.
pub mod Kept
pub mod Gated
use beldex_storage_server.Prelude.{
  ℕ, ◌+◌, ◌*◌, ◌/◌, Bool, true, false, not, ◌&&◌, ◌||◌, Option, none, some, List, [], ◌∷◌, ◌++◌,
  ◌==◌, ◌!=◌, nat_eq, string_eq, bytes_eq, Bytes, ltb, leb, length, if◌then◌else◌,
}
use beldex_storage_server.Keys.{is_set}
use beldex_storage_server.Common.{Hex, Message}
use beldex_storage_server.Swarm.{
  MnRecord, SwarmId, SwarmInfo, SwarmEvents, BlockUpdate, derive_swarm_events, set_swarm_id,
  update_state,
}
use beldex_storage_server.Storage.{MessageRow, retrieve_all}
use beldex_storage_server.Serialization.{Codec}
use beldex_storage_server.MasterNode.{Node, derive_mnode_status, mnode_ready, block_hash_cache_size}
use beldex_storage_server.MasterNode.Relay.{relay_messages, bootstrap_swarms}
use beldex_storage_server.MasterNode.StorageTest.{initiate_peer_test}

-- while (block_hashes_cache_.size() >= BLOCK_HASH_CACHE_SIZE) erase(begin());
unfoldable pub trim_cache : List (ℕ × Bytes) → List (ℕ × Bytes)
trim_cache [] = []
trim_cache (p ∷ ps) =
    let rest = trim_cache ps in if leb block_hash_cache_size (length (p ∷ ps)) then rest else p ∷ ps

-- insert_or_assign, which keeps the order of the keys
unfoldable pub cache_hash : ℕ → Bytes → List (ℕ × Bytes) → List (ℕ × Bytes)
cache_hash height hash [] = (height, hash) ∷ []
cache_hash height hash ((h, old) ∷ rest) =
    let later = cache_hash height hash rest in
    if height == h
    then (height, hash) ∷ rest
    else if ltb height h
    then (height, hash) ∷ (h, old) ∷ rest
    else (h, old) ∷ later

-- The hardfork and whether the node still syncs.
unfoldable pub take_height : BlockUpdate → Node → Node
take_height bu node = record node {
  hardfork = (bu.hardfork, bu.mnode_revision);
  syncing =
      if node.syncing && node.target_height != 0
      then ltb bu.height node.target_height
      else node.syncing;
}

-- The new block and its hash, the active nodes, our status and our swarm.
unfoldable pub take_block : BlockUpdate → Node → Node
unfolding derive_mnode_status
take_block bu node = record node {
  block_height = bu.height;
  block_hash = bu.block_hash;
  block_hashes_cache = cache_hash bu.height bu.block_hash (trim_cache node.block_hashes_cache);
  active_mns = bu.active_x25519_pubkeys;
  status = derive_mnode_status bu node.swarm.our_address;
  swarm = set_swarm_id node.swarm (derive_swarm_events node.swarm bu.swarms).our_swarm_id;
}

unfoldable pub take_state : BlockUpdate → SwarmEvents → Bool → Node → Node
unfolding update_state
take_state bu events ready node = record node {
  swarm = update_state node.swarm bu.swarms bu.decommissioned_nodes events ready;
  is_active = node.is_active || ready;
}

abbrev and_then : Option Node → (Node → Option Node) → Option Node
and_then none f = none
and_then (some node) f = f node

module _ (hex : Hex) (codec : Codec) (is_mainnet : Bool) where
  -- What the events of the swarms make a node relay.
  unfoldable pub relay_new_mnodes : List MnRecord → Node → Node
  unfolding retrieve_all
  relay_new_mnodes [] node = node
  relay_new_mnodes (mn ∷ mns) node =
      relay_messages hex codec is_mainnet (retrieve_all node.db) (mn ∷ mns) node

  unfoldable pub bootstrap_new_swarms : List SwarmId → Node → Option Node
  bootstrap_new_swarms [] node = some node
  bootstrap_new_swarms (s ∷ ss) node = bootstrap_swarms hex codec is_mainnet (s ∷ ss) node

  unfoldable pub bootstrap_dissolved : Bool → Node → Option Node
  bootstrap_dissolved dissolved node =
      if dissolved then bootstrap_swarms hex codec is_mainnet [] node else some node

  unfoldable pub spread : SwarmEvents → Node → Option Node
  spread events node =
      and_then (bootstrap_new_swarms events.new_swarms (relay_new_mnodes events.new_mnodes node))
        (bootstrap_dissolved events.dissolved)

  module _ (fuel : ℕ) (mt19937_64 : ℕ → ℕ → ℕ) (pick : List MessageRow → Option MessageRow)
      (now : ℕ) where
    -- The rest of the update once the block is new.
    unfoldable pub apply_block : BlockUpdate → Node → Option Node
    apply_block bu node =
        let events = derive_swarm_events node.swarm bu.swarms in
        let node' = take_block bu node in
        if not (mnode_ready node')
        then some (take_state bu events false node')
        else and_then (spread events (take_state bu events true node'))
            (initiate_peer_test hex codec pick now fuel mt19937_64)

    -- `none` is an index into no swarms, or fuel that runs out in the choice of a tester.
    unfoldable pub on_swarm_update : BlockUpdate → Node → Option Node
    on_swarm_update bu node =
        let node' = take_height bu node in
        if node'.syncing
        then some node'
        else if bu.block_hash == node'.block_hash
        then some node'
        else apply_block bu node'

abbrev lacks_data : MnRecord → Bool
lacks_data mn =
    mn.ip == ""
    || (mn.ip == "0.0.0.0"
        || (mn.port == 0
            || (mn.bmq_port == 0
                || (not (is_set mn.pubkey_ed25519) || not (is_set mn.pubkey_x25519)))))

-- The two loops of count_missing_data.
unfoldable pub count_missing : List MnRecord → ℕ × ℕ → ℕ × ℕ
count_missing [] counts = counts
count_missing (mn ∷ mns) (missing, total) =
    count_missing mns (if lacks_data mn then missing + 1 else missing, total + 1)

unfoldable pub count_missing_swarms : List SwarmInfo → ℕ × ℕ → ℕ × ℕ
count_missing_swarms [] counts = counts
count_missing_swarms (si ∷ sis) counts = count_missing_swarms sis (count_missing si.mnodes counts)

unfoldable pub count_missing_data : BlockUpdate → ℕ × ℕ
count_missing_data bu = count_missing_swarms bu.swarms (0, 0)

-- The first response ends the syncing if it is not sparse: at most 3% of the data is missing, of at
-- least 100 nodes, or 10 on the test network. The requests that a first response makes are left out.
unfoldable pub take_first_response : Bool → BlockUpdate → Node → Node
take_first_response is_mainnet bu node =
    let (missing, total) = count_missing_data bu in
    if node.got_first_response then node else record node {
      got_first_response = true;
      syncing =
          if leb (if is_mainnet then 100 else 10) total && leb missing (3 * total / 100)
          then false
          else node.syncing;
    }
