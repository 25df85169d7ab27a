-- ===== src/MasterNode/Relay/Bootstrap.antt =====
-- What bootstrap_swarms of httpserver/master_node.cpp sends to the swarms.
use beldex_storage_server.Prelude.{
  ◌≡◌, ◌≢◌, ◌⊎◌, inl, inr, refl, sym, ap, ◌∙◌, Bool, true, some, List, [], ◌∷◌, ◌++◌, find, select,
  In, In-append, In-append_right, In-select, In-select_of, In-find, All, All-select, All-of-In,
  Bytes, arith, nat_eq, Option-cases,
}
use mathlib.Core.List.{append_assoc, append-nil}
use beldex_storage_server.Keys.{X25519Pubkey}
use beldex_storage_server.Common.{Hex, Message}
use beldex_storage_server.Swarm.{MnRecord, SwarmId, SwarmInfo}
use beldex_storage_server.Storage.{retrieve_all}
use beldex_storage_server.Serialization.{Codec}
use beldex_storage_server.Serialization.Batches.{HasKey, read_batches, read-serialize_messages}
use beldex_storage_server.MasterNode.{
  Node, Sent, batch, hf_at_least, hardfork_bt_message_serialization,
}
use beldex_storage_server.MasterNode.Relay.{
  deliveries, items_of, group_entries, mnodes_of, batches_of, relay_messages, relay_groups,
  bootstrap_swarms,
}
use beldex_storage_server.MasterNode.Relay.Groups.{belongs, group_entries_lem}
use beldex_storage_server.MasterNode.Relay.Delivery.{
  Carries, CarriesOnly, read_batches-Carries, read_batches-CarriesOnly,
}
use beldex_storage_server.MasterNode.Relay.Sending.{
  members_of-some, sent, mnodes_of-some, mnodes_of-nonempty, In-sent, In-sent-FromGroup,
}

module _ (hex : Hex) (codec : Codec) (is_mainnet : Bool) where
  relay_groups-cons :
      (all_swarms : List SwarmInfo) (id : SwarmId) (items : List Message)
      (groups : List (SwarmId × List Message)) (node : Node) (mnodes : List MnRecord)
      → mnodes_of all_swarms id ≡ some mnodes
      → relay_groups hex codec is_mainnet all_swarms ((id, items) ∷ groups) node
        ≡ relay_groups hex codec is_mainnet all_swarms groups
            (relay_messages hex codec is_mainnet items mnodes node)
  unfolding relay_groups
  relay_groups-cons all_swarms id items groups node mnodes e = rw (e, relay_groups) refl

  relay_groups-sent :
      (si : SwarmInfo) (rest : List SwarmInfo) (groups : List (SwarmId × List Message))
      (node : Node)
      → relay_groups hex codec is_mainnet (si ∷ rest) groups node
        ≡ some (record node {
          outbox =
              node.outbox
              ++ sent (si ∷ rest) (λ items. batches_of hex codec is_mainnet items node) groups;
        })
  unfolding relay_groups sent batches_of relay_messages hf_at_least
  relay_groups-sent si rest [] node =
      ap (λ out. some (record node { outbox = out })) (sym (append-nil node.outbox))
  relay_groups-sent si rest ((id, items) ∷ groups) node =
      let (mnodes, e) = mnodes_of-some si rest id in
      relay_groups-cons (si ∷ rest) id items groups node mnodes e
      ∙ relay_groups-sent si rest groups (relay_messages hex codec is_mainnet items mnodes node)
      ∙ ap (λ out. some (record node { outbox = out }))
          (rw (members_of-some (si ∷ rest) id mnodes e) (
            append_assoc node.outbox
              (deliveries mnodes (batches_of hex codec is_mainnet items node)) _))

  -- With a swarm there is no index out of bounds.
  relay_groups_total :
      (all_swarms : List SwarmInfo) (groups : List (SwarmId × List Message)) (node : Node)
      → all_swarms ≢ []
      → relay_groups hex codec is_mainnet all_swarms groups node
        ≡ some (record node {
          outbox =
              node.outbox
              ++ sent all_swarms (λ items. batches_of hex codec is_mainnet items node) groups;
        })
  relay_groups_total [] groups node h = absurd (h refl)
  relay_groups_total (si ∷ rest) groups node h = relay_groups-sent si rest groups node

  batches_of-read :
      (items : List Message) (node : Node)
      → hf_at_least node hardfork_bt_message_serialization ≡ true
      → All HasKey items
      → read_batches hex codec is_mainnet (batches_of hex codec is_mainnet items node) ≡ some items
  unfolding batches_of
  batches_of-read items node hf h =
      let (bs, e, r) = read-serialize_messages hex codec is_mainnet items h in
      rw (hf, e, batches_of) r

  module _ (swarms : List SwarmId) (node : Node)
      (hf : hf_at_least node hardfork_bt_message_serialization ≡ true)
      (keys : All HasKey (retrieve_all node.db)) where
    abbrev goes_to : SwarmId → Message → Bool
    goes_to = belongs node.swarm.all_valid_swarms swarms

    -- What a group is read as by those who get it.
    group-read :
        (id : SwarmId)
        → read_batches hex codec is_mainnet
            (batches_of hex codec is_mainnet (select (goes_to id) (retrieve_all node.db)) node)
          ≡ some (select (goes_to id) (retrieve_all node.db))
    group-read id =
        batches_of-read _ node hf (All-select HasKey (goes_to id) (retrieve_all node.db) keys)

    groups : List (SwarmId × List Message)
    groups =
        (group_entries node.swarm.all_valid_swarms swarms (record { cache = []; groups = [] })
          (retrieve_all node.db)).groups

    after : Node
    after = record node {
      outbox =
          node.outbox
          ++ sent node.swarm.all_valid_swarms (λ items. batches_of hex codec is_mainnet items node)
              groups;
    }

    bootstrap_swarms-after :
        node.swarm.all_valid_swarms ≢ []
        → bootstrap_swarms hex codec is_mainnet swarms node ≡ some after
    unfolding bootstrap_swarms groups after
    bootstrap_swarms-after h = relay_groups_total node.swarm.all_valid_swarms groups node h

    -- A swarm that a message goes to has its group.
    In-groups :
        (id : SwarmId) (msg : Message)
        → In msg (select (goes_to id) (retrieve_all node.db))
        → In (id, select (goes_to id) (retrieve_all node.db)) groups
    unfolding groups
    In-groups id msg i =
        let (same, each) =
          group_entries_lem node.swarm.all_valid_swarms swarms (retrieve_all node.db) in
        elim (Option-cases (find id groups)) [
          | inl e ↦
              let none_there : [] ≡ select (goes_to id) (retrieve_all node.db) =
                sym (ap items_of e) ∙ same id in
              absurd (rw (← none_there) at i)
          | inr (items, e) ↦
              let there = In-find id items groups e in rw (each id items there) at there
        ]

    -- bootstrap_swarms sends each message to each member of its nearest swarm: a batch that is read
    -- back with the message in it. This holds from the hardfork of the bencoded format on, if there
    -- are swarms, if the users of the messages have 32-byte keys with a network byte, and if the
    -- swarm is wanted: one of `swarms`, or any if these are none.
    pub bootstrap_swarms-delivers :
        (id : SwarmId) (mnodes : List MnRecord) (mn : MnRecord) (msg : Message)
        → mnodes_of node.swarm.all_valid_swarms id ≡ some mnodes
        → In mn mnodes
        → In msg (retrieve_all node.db)
        → goes_to id msg ≡ true
        → (node' : Node) × (blob : Bytes) × (bootstrap_swarms hex codec is_mainnet swarms node
            ≡ some node')
          × In (mn.pubkey_x25519, batch blob) node'.outbox
          × Carries hex codec is_mainnet blob msg
    unfolding after
    bootstrap_swarms-delivers id mnodes mn msg e i j b =
        let k = In-select_of msg (goes_to id) (retrieve_all node.db) j b in
        let (blob, l, carries) =
          read_batches-Carries hex codec is_mainnet _ _ msg (group-read id) k in
        (
          after,
          blob,
          bootstrap_swarms-after (mnodes_of-nonempty node.swarm.all_valid_swarms id mnodes e),
          In-append_right _ node.outbox _ (
              In-sent node.swarm.all_valid_swarms _ id _ groups mnodes mn blob (In-groups id msg k)
                e i l),
          carries,
        )

    -- From the hardfork of the bencoded format on, if the users of all stored messages have keys of 32
    -- bytes and a network byte, and there is a swarm, bootstrap_swarms sends, beside what was in the
    -- outbox already, nothing but batches that are read as messages of the database, to members of the
    -- swarm that is nearest to each of them and wanted.
    pub bootstrap_swarms_sound :
        (node' : Node) (x : X25519Pubkey × Sent)
        → bootstrap_swarms hex codec is_mainnet swarms node ≡ some node'
        → node.swarm.all_valid_swarms ≢ []
        → In x node'.outbox
        → In x node.outbox
          ⊎ ((id : SwarmId) × (mnodes : List MnRecord) × (mn : MnRecord) × (blob : Bytes)
              × (mnodes_of node.swarm.all_valid_swarms id ≡ some mnodes)
              × In mn mnodes
              × (x ≡ (mn.pubkey_x25519, batch blob))
              × CarriesOnly hex codec is_mainnet
                  (λ m. In m (retrieve_all node.db) × (goes_to id m ≡ true))
                  blob)
    unfolding after
    bootstrap_swarms_sound node' x e h i =
        let all_swarms = node.swarm.all_valid_swarms in
        let same : node' ≡ after = ground (arith, bootstrap_swarms-after h) in
        elim (In-append x node.outbox _ (rw same at i)) [
          | inl old ↦ inl old
          | inr new ↦
              let (id, items, mnodes, mn, b, k, f, l, m, q) =
                In-sent-FromGroup all_swarms _ groups x h new in
              let exact : items ≡ select (goes_to id) (retrieve_all node.db) =
                unfold groups in
                (group_entries_lem all_swarms swarms (retrieve_all node.db)).1 id items k in
              let carries =
                read_batches-CarriesOnly hex codec is_mainnet
                  (λ msg. In msg (retrieve_all node.db) × (goes_to id msg ≡ true)) _ _ b
                  (group-read id)
                  (All-of-In _ _ (λ msg j. In-select msg (goes_to id) (retrieve_all node.db) j))
                  (rw exact at m) in
              inr (id, mnodes, mn, b, f, l, q, carries)
        ]
