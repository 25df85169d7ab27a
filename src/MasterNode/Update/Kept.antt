-- ===== src/MasterNode/Update/Kept.antt =====
-- What the sending that a block update starts leaves as it is in httpserver/master_node.cpp.
use beldex_storage_server.Prelude.{
  ◌-◌, ℕ, ◌≡◌, refl, ◌∙◌, Bool, true, false, Option, none, some, List, [], ◌∷◌, ◌==◌, nat_eq,
  bytes_eq, ltb, length, Bool-cases, Option-cases, inl, inr,
}
use beldex_storage_server.Common.{Hex, Message}
use beldex_storage_server.Swarm.{MnRecord, SwarmId, SwarmInfo, SwarmEvents, same_mnode}
use beldex_storage_server.Storage.{MessageRow, retrieve_random}
use beldex_storage_server.Serialization.{Codec}
use beldex_storage_server.MasterNode.{
  Node, hf_at_least, hardfork_bmq_storage_tests, test_blocks_buffer, send_to,
}
use beldex_storage_server.MasterNode.Relay.{
  relay_messages, relay_groups, bootstrap_swarms, mnodes_of,
}
use beldex_storage_server.MasterNode.StorageTest.{
  Choice, nobody, spinning, chosen, initiate_peer_test, start_test, send_found,
  send_storage_test_req,
}
use beldex_storage_server.MasterNode.Update.{
  and_then, relay_new_mnodes, bootstrap_new_swarms, bootstrap_dissolved, spread,
}

-- The parts of a node that sending leaves as they are.
pub record SameBlock (a b : Node) : Type 0 where
  pub cache : a.block_hashes_cache ≡ b.block_hashes_cache
  pub height : a.block_height ≡ b.block_height
  pub hash : a.block_hash ≡ b.block_hash
  pub syncing : a.syncing ≡ b.syncing

SameBlock-refl : (a : Node) → SameBlock a a
SameBlock-refl a = record { cache = refl; height = refl; hash = refl; syncing = refl }

SameBlock-trans : (a b c : Node) → SameBlock a b → SameBlock b c → SameBlock a c
SameBlock-trans a b c p q = record {
  cache = p.cache ∙ q.cache;
  height = p.height ∙ q.height;
  hash = p.hash ∙ q.hash;
  syncing = p.syncing ∙ q.syncing;
}

-- The node after a step that may be undefined.
abbrev pub Keeps : Node → Option Node → Type 0
Keeps a none = Unit
Keeps a (some b) = SameBlock b a

Keeps-after : (a b : Node) (o : Option Node) → SameBlock b a → Keeps b o → Keeps a o
Keeps-after a b none h k = tt
Keeps-after a b (some c) h k = SameBlock-trans c b a k h

pub Keeps-and_then :
    (a : Node) (o : Option Node) (f : Node → Option Node)
    → Keeps a o
    → ((b : Node) → Keeps b (f b))
    → Keeps a (and_then o f)
Keeps-and_then a none f h g = tt
Keeps-and_then a (some b) f h g = Keeps-after a b (f b) h (g b)

module _ (hex : Hex) (codec : Codec) (is_mainnet : Bool) where
  relay_groups-Keeps :
      (all_swarms : List SwarmInfo) (groups : List (SwarmId × List Message)) (node : Node)
      → Keeps node (relay_groups hex codec is_mainnet all_swarms groups node)
  unfolding relay_groups relay_messages
  relay_groups-Keeps all_swarms [] node = SameBlock-refl node
  relay_groups-Keeps all_swarms ((id, items) ∷ groups) node =
      elim (Option-cases (mnodes_of all_swarms id)) [
        | inl e ↦ rw (e, relay_groups) tt
        | inr (mnodes, e) ↦
            rw (e, relay_groups)
              (Keeps-after node (relay_messages hex codec is_mainnet items mnodes node) _
                (record { cache = refl; height = refl; hash = refl; syncing = refl })
                (relay_groups-Keeps all_swarms groups
                  (relay_messages hex codec is_mainnet items mnodes node)))
      ]

  bootstrap_swarms-Keeps :
      (swarms : List SwarmId) (node : Node)
      → Keeps node (bootstrap_swarms hex codec is_mainnet swarms node)
  unfolding bootstrap_swarms
  bootstrap_swarms-Keeps swarms node = relay_groups-Keeps node.swarm.all_valid_swarms _ node

  relay_new_mnodes-SameBlock :
      (mns : List MnRecord) (node : Node)
      → SameBlock (relay_new_mnodes hex codec is_mainnet mns node) node
  unfolding relay_new_mnodes relay_messages
  relay_new_mnodes-SameBlock [] node = SameBlock-refl node
  relay_new_mnodes-SameBlock (mn ∷ mns) node = record {
    cache = refl;
    height = refl;
    hash = refl;
    syncing = refl;
  }

  bootstrap_new_swarms-Keeps :
      (ss : List SwarmId) (node : Node)
      → Keeps node (bootstrap_new_swarms hex codec is_mainnet ss node)
  unfolding bootstrap_new_swarms
  bootstrap_new_swarms-Keeps [] node = SameBlock-refl node
  bootstrap_new_swarms-Keeps (s ∷ ss) node = bootstrap_swarms-Keeps (s ∷ ss) node

  bootstrap_dissolved-Keeps :
      (b : Bool) (node : Node) → Keeps node (bootstrap_dissolved hex codec is_mainnet b node)
  unfolding bootstrap_dissolved
  bootstrap_dissolved-Keeps true node = bootstrap_swarms-Keeps [] node
  bootstrap_dissolved-Keeps false node = SameBlock-refl node

  pub spread-Keeps :
      (events : SwarmEvents) (node : Node) → Keeps node (spread hex codec is_mainnet events node)
  unfolding spread
  spread-Keeps events node =
      let relayed = relay_new_mnodes hex codec is_mainnet events.new_mnodes node in
      Keeps-and_then node (bootstrap_new_swarms hex codec is_mainnet events.new_swarms relayed) _
        (Keeps-after node relayed _ (relay_new_mnodes-SameBlock events.new_mnodes node)
          (bootstrap_new_swarms-Keeps events.new_swarms relayed))
        (bootstrap_dissolved-Keeps events.dissolved)

  send-SameBlock :
      (testee : MnRecord) (test_height : ℕ) (found : Option Message) (node : Node)
      → SameBlock (send_found hex codec testee test_height found node) node
  unfolding send_found send_storage_test_req send_to
  send-SameBlock testee test_height none node = SameBlock-refl node
  send-SameBlock testee test_height (some msg) node =
      elim (Bool-cases (hf_at_least node hardfork_bmq_storage_tests)) [
        | inr f ↦ rw f (record { cache = refl; height = refl; hash = refl; syncing = refl })
        | inl t ↦ elim (Bool-cases (length msg.hash == 128)) [
          | inl h ↦ rw (t, h) (record { cache = refl; height = refl; hash = refl; syncing = refl })
          | inr h ↦ elim (Bool-cases (codec.is_base64 msg.hash)) [
            | inl b ↦
                rw (t, h, b) (record { cache = refl; height = refl; hash = refl; syncing = refl })
            | inr b ↦ rw (t, h, b) (SameBlock-refl node)
          ]
        ]
      ]

  module _ (fuel : ℕ) (mt19937_64 : ℕ → ℕ → ℕ) (pick : List MessageRow → Option MessageRow)
      (now : ℕ) where
    start_test-Keeps :
        (c : Choice) (node : Node) → Keeps node (start_test hex codec pick now node c)
    unfolding start_test
    start_test-Keeps nobody node = SameBlock-refl node
    start_test-Keeps spinning node = tt
    start_test-Keeps (chosen tester testee) node =
        elim (Bool-cases (same_mnode tester node.swarm.our_address)) [
          | inr f ↦ rw f (SameBlock-refl node)
          | inl t ↦
              let (db', found) = retrieve_random pick node.db now in
              rw t (
                SameBlock-trans _ (record node { db = db' }) node
                  (send-SameBlock testee (node.block_height - test_blocks_buffer) found
                    (record node { db = db' }))
                  (record { cache = refl; height = refl; hash = refl; syncing = refl }))
        ]

    pub initiate-Keeps :
        (node : Node) → Keeps node (initiate_peer_test hex codec pick now fuel mt19937_64 node)
    unfolding initiate_peer_test
    initiate-Keeps node = elim (Bool-cases (ltb node.block_height test_blocks_buffer)) [
      | inl low ↦ rw low (SameBlock-refl node)
      | inr high ↦ rw high (start_test-Keeps _ node)
    ]
