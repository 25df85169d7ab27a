-- ===== src/MasterNode/Relay.antt =====
-- The messages that httpserver/master_node.cpp moves between nodes: relay_messages, bootstrap_swarms,
-- process_push_batch and save_bulk. An unordered map is an association list in insertion order.
pub mod Groups
pub mod Delivery
pub mod Sending
pub mod Bootstrap
use beldex_storage_server.Prelude.{
  ℕ, Bool, true, false, not, ◌&&◌, ◌||◌, Option, none, some, List, [], ◌∷◌, ◌++◌, ◌==◌, nat_eq,
  Bytes, map, find, emplace, assign, find_if, any_of, if◌then◌else◌,
}
use beldex_storage_server.Keys.{X25519Pubkey}
use beldex_storage_server.Common.{Hex, UserPubkey, Message, is_valid, pubkey_eq}
use beldex_storage_server.Swarm.{MnRecord, SwarmId, SwarmInfo}
use beldex_storage_server.Swarm.Closest.{get_swarm_by_pk}
use beldex_storage_server.Storage.{RowIds, Disk, Database, bulk_store, retrieve_all}
use beldex_storage_server.Serialization.{
  Codec, Deserialized, deserialized, threw, undefined, serialize_messages, deserialize_messages,
  serialization_version_old, serialization_version_bt,
}
use beldex_storage_server.MasterNode.{
  Node, Sent, batch, hf_at_least, hardfork_bt_message_serialization,
}

-- The loops over the nodes and the batches in relay_messages, with relay_data_reliable.
unfoldable pub deliveries : List MnRecord → List Bytes → List (X25519Pubkey × Sent)
deliveries [] batches = []
deliveries (mn ∷ mns) batches =
    map (λ b. (mn.pubkey_x25519, batch b)) batches ++ deliveries mns batches

-- Whether the messages of a swarm are to be sent; all are for an empty list.
abbrev pub is_wanted : List SwarmId → SwarmId → Bool
is_wanted swarms id = (elim swarms [ [] ↦ true | s ∷ ss ↦ false ]) || any_of (λ s. s == id) swarms

-- The messages of a group, none where there is no group.
abbrev pub items_of : Option (List Message) → List Message
items_of none = []
items_of (some items) = items

abbrev pub group_of : SwarmId → List (SwarmId × List Message) → List Message
group_of id groups = items_of (find id groups)

-- pk_swarm_cache and to_relay
pub record Grouping : Type 0 where
  pub cache : List (UserPubkey × SwarmId)
  pub groups : List (SwarmId × List Message)

-- The id of the nearest swarm, from the cache where it is there.
unfoldable pub cached_swarm : List SwarmInfo → List (UserPubkey × SwarmId) → UserPubkey → SwarmId
cached_swarm all_swarms cache pk = elim (find pk cache) [
  | none ↦ (get_swarm_by_pk all_swarms pk.pubkey).swarm_id
  | some id ↦ id
]

-- A round of the loop over the messages.
unfoldable pub group_entry : List SwarmInfo → List SwarmId → Grouping → Message → Grouping
group_entry all_swarms swarms g entry =
    if not (is_valid entry.pubkey)
    then g
    else (let swarm_id = cached_swarm all_swarms g.cache entry.pubkey in
        record {
          cache = emplace entry.pubkey swarm_id g.cache;
          groups =
              if is_wanted swarms swarm_id
              then assign swarm_id (group_of swarm_id g.groups ++ entry ∷ []) g.groups
              else g.groups;
        })

unfoldable pub group_entries : List SwarmInfo → List SwarmId → Grouping → List Message → Grouping
group_entries all_swarms swarms g [] = g
group_entries all_swarms swarms g (entry ∷ entries) =
    group_entries all_swarms swarms (group_entry all_swarms swarms g entry) entries

-- all_swarms[swarm_id_to_idx[id]].mnodes: the first swarm of the id. The index of an id that is not
-- there is 0; an index into no swarms, which is undefined in C++, is `none`.
unfoldable pub mnodes_of : List SwarmInfo → SwarmId → Option (List MnRecord)
mnodes_of all_swarms id = elim (find_if (λ si. si.swarm_id == id) all_swarms) [
  | some si ↦ some si.mnodes
  | none ↦ elim all_swarms [ [] ↦ none | first ∷ rest ↦ some first.mnodes ]
]

module _ (hex : Hex) (codec : Codec) (is_mainnet : Bool) where
  unfoldable pub batches_of : List Message → Node → List Bytes
  batches_of messages node =
      elim (serialize_messages hex codec is_mainnet messages (
        if not (hf_at_least node hardfork_bt_message_serialization)
        then serialization_version_old
        else serialization_version_bt)) [ none ↦ [] | some batches ↦ batches ]

  unfoldable pub relay_messages : List Message → List MnRecord → Node → Node
  relay_messages messages mnodes node = record node {
    outbox = node.outbox ++ deliveries mnodes (batches_of messages node);
  }

  -- The last loop of bootstrap_swarms.
  unfoldable pub relay_groups : List SwarmInfo → List (SwarmId × List Message) → Node → Option Node
  relay_groups all_swarms [] node = some node
  relay_groups all_swarms ((id, items) ∷ groups) node = elim (mnodes_of all_swarms id) [
    | none ↦ none
    | some mnodes ↦ relay_groups all_swarms groups (relay_messages items mnodes node)
  ]

  unfoldable pub bootstrap_swarms : List SwarmId → Node → Option Node
  unfolding retrieve_all
  bootstrap_swarms swarms node =
      let all_swarms = node.swarm.all_valid_swarms in
      let g =
        group_entries all_swarms swarms (record { cache = []; groups = [] })
          (retrieve_all node.db) in
      relay_groups all_swarms g.groups node

  unfoldable pub save_bulk : RowIds → Disk → List Message → Node → Node
  unfolding bulk_store
  save_bulk ids disk msgs node = record node { db = bulk_store ids disk node.db msgs }

  -- An exception leaves the node as it is; `none` is a read past the end.
  unfoldable pub process_push_batch : RowIds → Disk → Bytes → Node → Option Node
  process_push_batch ids disk [] node = some node
  process_push_batch ids disk (b ∷ blob) node =
      elim (deserialize_messages hex codec is_mainnet (b ∷ blob)) [
        | some (deserialized items) ↦ some (save_bulk ids disk items node)
        | some threw ↦ some node
        | some undefined ↦ none
        | none ↦ none
      ]
