-- ===== src/Examples/Blocks.antt =====
-- Concrete blocks, storage tests, pings and relayed batches.
use beldex_storage_server.Prelude.{
  ◌-◌, ℕ, ◌+◌, ◌≡◌, ◌≢◌, ◌⊎◌, ◌↔◌, ◌^◌, if◌then◌else◌, inl, inr, refl, true, false, not, ◌&&◌, ◌||◌,
  none, some, Option, List, [], ◌∷◌, ◌++◌, arith, Bytes, length, In, nat_eq, ◌==◌, bytes_eq,
  bytes_beq, find, from_le, All, ltb, Pairwise,
}
use beldex_storage_server.Common.{Message}
use beldex_storage_server.Keys.{X25519Pubkey}
use beldex_storage_server.Swarm.{MnRecord, SwarmId, BlockUpdate, derive_swarm_events, set_swarm_id}
use beldex_storage_server.Swarm.Space.{pubkey_to_swarm_space}
use beldex_storage_server.Swarm.Closest.{get_swarm_by_pk}
use beldex_storage_server.MasterNode.Relay.Groups.{belongs}
use beldex_storage_server.Storage.{retrieve_random, clean_expired, MessageRow, retrieve_all}
use beldex_storage_server.Reachability.{is_failing}
use beldex_storage_server.MasterNode.{
  test_blocks_buffer, send_to, Node, Sent, batch, storage_test, mnode_ready, hf_at_least,
  hardfork_bt_message_serialization,
}
use beldex_storage_server.Utils.{secure_max, uniform_loop, uniform_distribution_portable}
use beldex_storage_server.MasterNode.Relay.{bootstrap_swarms, mnodes_of}
use beldex_storage_server.MasterNode.Relay.Delivery.{Carries, CarriesOnly}
use beldex_storage_server.Serialization.Batches.{HasKey}
use beldex_storage_server.MasterNode.Relay.Bootstrap.{
  bootstrap_swarms-delivers, bootstrap_swarms_sound,
}
use beldex_storage_server.MasterNode.StorageTest.{
  spinning, start_test, choose_by_hash, draw_pair, draw_testee, choose, member_at, sort_members,
  insert_member, send_found, send_storage_test_req, hash_at, derive_tester_testee,
  process_storage_test_req, success, initiate_peer_test,
}
use beldex_storage_server.MasterNode.StorageTest.Agreement.{
  IsMember, keys_of, derive_tester_testee-agree,
}
use beldex_storage_server.MasterNode.StorageTest.Answer.{
  Answered, Tests, process_storage_test_req_lem, initiate_peer_test_lem,
}
use beldex_storage_server.MasterNode.Peers.Joined.{after_replies, after_replies_lem}
use beldex_storage_server.MasterNode.Update.{
  apply_block, take_state, on_swarm_update, take_block, take_height,
}
use beldex_storage_server.MasterNode.Update.Gated.{Gated, on_swarm_update_lem}
use beldex_storage_server.MasterNode.Parse.{parse_states, Document, parse_swarm_update}
use beldex_storage_server.MasterNode.Parse.Sorted.{IsOrdered, parse_swarm_update-IsOrdered}
use beldex_storage_server.Examples.Concrete.{hex, user, user-IsKey}
use beldex_storage_server.Examples.Codes.{codec}
use beldex_storage_server.Examples.Peers.{member, node_of, node}

-- A stream of draws.
abbrev mt19937_64 : ℕ → ℕ → ℕ
mt19937_64 seed i = if i == 0 then seed else 2 ^ 63 + seed

abbrev pick : List MessageRow → Option MessageRow
pick [] = none
pick (m ∷ ms) = some m

member_1-IsMember : IsMember (node_of 1 2) (member 1 ∷ member 2 ∷ [])
member_1-IsMember = record { peers = refl; own = inl refl }

member_2-IsMember : IsMember (node_of 2 1) (member 1 ∷ member 2 ∷ [])
member_2-IsMember = record { peers = refl; own = inr (inl refl) }

keys_differ : Pairwise {A = ℕ} ◌≢◌ (1 ∷ 2 ∷ [])
keys_differ = (second, (λ y i. absurd i, tt))
  where
    second : (y : ℕ) → In y (2 ∷ []) → 1 ≢ y
    second y (inl e) = λ q. omega (arith, e, q)
    second y (inr i) = absurd i

derive_tester_testee_example :
    keys_of (derive_tester_testee 5 mt19937_64 (node_of 1 2) 50)
    ≡ keys_of (derive_tester_testee 5 mt19937_64 (node_of 2 1) 50)
unfolding hash_at
derive_tester_testee_example =
    derive_tester_testee-agree 5 mt19937_64 (node_of 1 2) (node_of 2 1) (member 1 ∷ member 2 ∷ [])
      50 keys_differ member_1-IsMember member_2-IsMember refl

process_storage_test_req_example :
    (process_storage_test_req 5 mt19937_64 node 50 1 (1 ∷ []) ≡ some (success, 9 ∷ []))
    ↔ Answered 5 mt19937_64 node 50 1 (1 ∷ []) (9 ∷ [])
process_storage_test_req_example =
    process_storage_test_req_lem 5 mt19937_64 node 50 1 (1 ∷ []) (9 ∷ [])

after_replies_example :
    ((after_replies (member 2) 0 0 10 node true false).reports
      ≡ node.reports ++ ((member 2).pubkey_legacy, true && false) ∷ [])
    × (after_replies (member 2) 0 0 10 node true false
        ≡ after_replies (member 2) 0 0 10 node false true)
    × (is_failing
          (member 2).pubkey_legacy
          (after_replies (member 2) 0 0 10 node true false).reach.failing
        ≡ (not (true && false)
            || (is_failing (member 2).pubkey_legacy node.reach.failing && not (ltb 0 0))))
after_replies_example = after_replies_lem (member 2) 0 0 10 node true false

abbrev update : BlockUpdate
update = record {
  swarms = [];
  decommissioned_nodes = [];
  active_x25519_pubkeys = [];
  height = 51;
  block_hash = 9 ∷ 8 ∷ 7 ∷ 6 ∷ 5 ∷ 4 ∷ 3 ∷ 2 ∷ 1 ∷ [];
  hardfork = 12;
  mnode_revision = 1;
  unchanged = false;
}

abbrev document : Document
document = record {
  height = some 51;
  block_hash = some (1 ∷ []);
  hardfork = some 12;
  mnode_revision = none;
  unchanged = none;
  master_node_states = some [];
}

abbrev from_hex : Bytes → Option ℕ
from_hex b = some (length b)

abbrev parsed_update : BlockUpdate
parsed_update = record {
  swarms = [];
  decommissioned_nodes = [];
  active_x25519_pubkeys = [];
  height = 51;
  block_hash = 1 ∷ [];
  hardfork = 12;
  mnode_revision = 0;
  unchanged = false;
}

document_parsed : parse_swarm_update from_hex document ≡ some parsed_update
unfolding parse_swarm_update parse_states
document_parsed = refl

parse_swarm_update_example : IsOrdered parsed_update.swarms
parse_swarm_update_example =
    parse_swarm_update-IsOrdered from_hex document parsed_update document_parsed

-- A node that holds a message of user 5.
abbrev full : Node
full = record (node_of 1 2) {
  hardfork = (19, 0);
  db = record {
    owners = record { id = 1; user = user 5 } ∷ [];
    messages =
        record { id = 1; hash = 1 ∷ []; owner = 1; timestamp = 100; expiry = 900; payload = 9 ∷ [] }
        ∷ [];
  };
}

abbrev held : Message
held = record { pubkey = user 5; hash = 1 ∷ []; timestamp = 100; expiry = 900; payload = 9 ∷ [] }

holds : retrieve_all full.db ≡ held ∷ []
unfolding retrieve_all
holds = refl

abbrev tested : Node
tested = record full { outbox = (202, storage_test 50 (1 ∷ [])) ∷ [] }

test_sent : initiate_peer_test hex codec pick 200 5 mt19937_64 full ≡ some tested
unfolding initiate_peer_test start_test derive_tester_testee hash_at find choose_by_hash draw_pair
    uniform_distribution_portable uniform_loop from_le secure_max draw_testee choose member_at
    sort_members insert_member send_found retrieve_random send_storage_test_req hf_at_least send_to
    clean_expired
test_sent = refl

initiate_peer_test_example :
    ((initiate_peer_test hex codec pick 200 5 mt19937_64 full ≡ none)
      × (derive_tester_testee 5 mt19937_64 full (50 - test_blocks_buffer) ≡ spinning))
    ⊎ ((node' : Node) × (initiate_peer_test hex codec pick 200 5 mt19937_64 full ≡ some node')
        × Tests 5 mt19937_64 full hex codec pick 200 node')
initiate_peer_test_example = initiate_peer_test_lem 5 mt19937_64 full hex codec pick 200

-- The node after an update in which it has no swarm.
abbrev updated : Node
updated =
    take_state update (derive_swarm_events node.swarm []) false
      (take_block update (take_height update node))

not_ready : on_swarm_update hex codec true 5 mt19937_64 pick 0 update node ≡ some updated
unfolding on_swarm_update apply_block take_height take_block bytes_beq mnode_ready
    derive_swarm_events set_swarm_id
not_ready = refl

on_swarm_update_example : Gated hex codec true 5 mt19937_64 pick 0 update node updated
on_swarm_update_example =
    on_swarm_update_lem hex codec true 5 mt19937_64 pick 0 update node updated (omega arith)
      not_ready

modern : hf_at_least full hardfork_bt_message_serialization ≡ true
unfolding hf_at_least
modern = refl

keyed : All HasKey (retrieve_all full.db)
keyed = rw holds ((5, user-IsKey 5), tt)

members_known : mnodes_of full.swarm.all_valid_swarms 1000 ≡ some (member 1 ∷ member 2 ∷ [])
unfolding mnodes_of
members_known = refl

held-In : In held (retrieve_all full.db)
held-In = rw holds (inl refl)

nearest_swarm : belongs full.swarm.all_valid_swarms [] 1000 held ≡ true
unfolding get_swarm_by_pk pubkey_to_swarm_space
nearest_swarm = refl

abbrev Delivered : Type 0
Delivered =
    (node' : Node) × (blob : Bytes) × (bootstrap_swarms hex codec true [] full ≡ some node')
    × In ((member 2).pubkey_x25519, batch blob) node'.outbox
    × Carries hex codec true blob held

delivery : Delivered
delivery =
    bootstrap_swarms-delivers hex codec true [] full modern keyed 1000 (member 1 ∷ member 2 ∷ [])
      (member 2) held members_known (inr (inl refl)) held-In nearest_swarm

bootstrap_swarms-delivers_example : Delivered
bootstrap_swarms-delivers_example =
    bootstrap_swarms-delivers hex codec true [] full modern keyed 1000 (member 1 ∷ member 2 ∷ [])
      (member 2) held members_known (inr (inl refl)) held-In nearest_swarm

bootstrap_swarms_sound_example :
    In ((member 2).pubkey_x25519, batch delivery.1) full.outbox
    ⊎ ((id : SwarmId) × (mnodes : List MnRecord) × (mn : MnRecord) × (blob : Bytes) × (mnodes_of
            full.swarm.all_valid_swarms id
          ≡ some mnodes)
        × In mn mnodes
        × (◌≡◌ {A = X25519Pubkey × Sent}
            ((member 2).pubkey_x25519, batch delivery.1)
            (mn.pubkey_x25519, batch blob))
        × CarriesOnly hex codec true
            (λ m.
              In m (retrieve_all full.db) × (belongs full.swarm.all_valid_swarms [] id m ≡ true))
            blob)
bootstrap_swarms_sound_example =
    bootstrap_swarms_sound hex codec true [] full modern keyed delivery.0
      ((member 2).pubkey_x25519, batch delivery.1) delivery.2 (λ q. cc) delivery.3
