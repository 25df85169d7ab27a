-- ===== src/Examples/Network.antt =====
-- A concrete network of two swarms.
use beldex_storage_server.Prelude.{
  ◌+◌, ◌≤◌, ◌≡◌, inl, inr, true, false, some, List, [], ◌∷◌, arith, refl, In, find, emplace, nat_eq,
  string_eq, ne_of_==, Bytes,
}
use beldex_storage_server.Keys.{LegacyPubkey}
use beldex_storage_server.Swarm.{
  SwarmEvents, update_state, MnRecord, SwarmInfo, Swarm, new_swarm, null_swarm, invalid_swarm_id,
  apply_ips, apply_swarm_changes, find_node, get_mnode_map_from_swarms, with_ips, apply_ip,
  update_mnode,
}
use beldex_storage_server.Swarm.Space.{
  pubkey_to_swarm_space, from_le, from_be, to_le, swap64, xor_words,
}
use beldex_storage_server.Swarm.Closest.{get_swarm_by_pk}
use beldex_storage_server.Swarm.Closest.Distance.{IsActive, ring_dist}
use beldex_storage_server.Swarm.Closest.Ring.{IdsFit, get_swarm_by_pk-nearest}
use beldex_storage_server.Swarm.Ips.{ip_stays}
use beldex_storage_server.Swarm.Nodes.{find_node_complete}

abbrev node : LegacyPubkey → MnRecord
node pk = record {
  ip = "10.0.0.1";
  port = 22021;
  bmq_port = 22020;
  pubkey_legacy = pk;
  pubkey_ed25519 = pk + 100;
  pubkey_x25519 = pk + 200;
}

abbrev east : SwarmInfo
east = record { swarm_id = 1000; mnodes = node 1 ∷ node 2 ∷ [] }

abbrev west : SwarmInfo
west = record { swarm_id = 5000; mnodes = node 3 ∷ [] }

abbrev all_swarms : List SwarmInfo
all_swarms = east ∷ west ∷ []

abbrev raw_key : Bytes
raw_key = 1 ∷ 2 ∷ 3 ∷ []

ids_fit : IdsFit all_swarms
ids_fit x (inl e) = ground (arith, e)
ids_fit x (inr (inl e)) = ground (arith, e)
ids_fit x (inr (inr i)) = absurd i

nearest_example :
    In (get_swarm_by_pk all_swarms raw_key) all_swarms
    × IsActive (get_swarm_by_pk all_swarms raw_key)
    × (ring_dist (pubkey_to_swarm_space raw_key) (get_swarm_by_pk all_swarms raw_key).swarm_id
        ≤ ring_dist (pubkey_to_swarm_space raw_key) 5000)
unfolding pubkey_to_swarm_space xor_words from_le from_be to_le swap64
nearest_example =
    get_swarm_by_pk-nearest all_swarms raw_key west ids_fit (λ e. omega (arith, e)) (inr (inl refl))
      (omega arith)

abbrev idle_swarms : List SwarmInfo
idle_swarms = null_swarm ∷ []

idle : (x : SwarmInfo) → In x idle_swarms → x.swarm_id ≡ invalid_swarm_id
idle x (inl e) = ground (arith, e)
idle x (inr i) = absurd i

abbrev member : Swarm
member = record (new_swarm (node 1)) { cur_swarm_id = 1000; all_valid_swarms = all_swarms }

-- Node 3 moves, and keeps its address.
abbrev moved : MnRecord
moved = record (node 3) { ip = "10.9.9.9" }

abbrev kept : MnRecord
kept = node 3

ip_stays_example : kept.ip ≡ "10.0.0.1"
unfolding find get_mnode_map_from_swarms apply_swarm_changes apply_ips with_ips apply_ip
    update_mnode emplace
ip_stays_example =
    ip_stays member (record { swarm_id = 5000; mnodes = moved ∷ [] } ∷ []) (node 3)
      (record { swarm_id = 5000; mnodes = kept ∷ [] }) kept refl
      (ne_of_== "10.0.0.1" "0.0.0.0" refl) (inl refl) (inl refl)

-- The node joins the swarm in the east.
abbrev joining : SwarmEvents
joining = record {
  our_swarm_id = 1000;
  dissolved = false;
  new_swarms = [];
  new_mnodes = [];
  our_swarm_members = node 1 ∷ node 2 ∷ [];
}

complete_example :
    (x : MnRecord) × (find_node (update_state member all_swarms [] joining true) 3 ≡ some x)
    × (x.pubkey_legacy ≡ 3)
complete_example =
    find_node_complete member all_swarms [] joining true (inr (λ q. cc)) (node 3)
      (inl (west, inr (inl refl), inl refl))
