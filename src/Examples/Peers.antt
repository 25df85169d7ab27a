-- ===== src/Examples/Peers.antt =====
-- A concrete node, and the members of its swarm.
use beldex_storage_server.Prelude.{ℕ, ◌+◌, true, false, [], ◌∷◌}
use beldex_storage_server.Swarm.{MnRecord, new_swarm}
use beldex_storage_server.Storage.{empty}
use beldex_storage_server.Stats.{no_requests}
use beldex_storage_server.Reachability.{new_reachability}
use beldex_storage_server.MasterNode.{Node, active}

abbrev pub member : ℕ → MnRecord
member k = record {
  ip = "10.0.0.1";
  port = 22021;
  bmq_port = 22020;
  pubkey_legacy = k;
  pubkey_ed25519 = 100 + k;
  pubkey_x25519 = 200 + k;
}

-- Member 1 of a swarm of two, in which the other is member 2, or the other way round.
abbrev pub node_of : ℕ → ℕ → Node
node_of own peer = record {
  syncing = false;
  is_active = true;
  got_first_response = true;
  force_start = false;
  shutting_down = false;
  hardfork = (12, 1);
  block_height = 50;
  target_height = 0;
  block_hash = 1 ∷ 2 ∷ 3 ∷ 4 ∷ 5 ∷ 6 ∷ 7 ∷ 8 ∷ 9 ∷ [];
  swarm = record (new_swarm (member own)) {
    cur_swarm_id = 1000;
    swarm_peers = member peer ∷ [];
    all_valid_swarms = record { swarm_id = 1000; mnodes = member 1 ∷ member 2 ∷ [] } ∷ [];
  };
  db = empty;
  status = active;
  block_hashes_cache = (46, 8 ∷ 7 ∷ 6 ∷ 5 ∷ 4 ∷ 3 ∷ 2 ∷ 1 ∷ []) ∷ [];
  beldexd_pings = 0;
  reach = new_reachability 0;
  stats = record {
    total = no_requests;
    current = no_requests;
    previous_stats = [];
    last_rotate = 0;
    peer_report = [];
  };
  active_mns = [];
  outbox = [];
  reports = [];
}

abbrev pub node : Node
node = node_of 1 2
