-- ===== src/MasterNode/Relay/Sending.antt =====
-- What the last loop of bootstrap_swarms in httpserver/master_node.cpp puts out for the groups.
use beldex_storage_server.Prelude.{
  ◌≡◌, ◌≢◌, inl, inr, refl, none, some, List, [], ◌∷◌, ◌++◌, find_if, In, In-append, In-append_left,
  In-append_right, Bytes, arith, nat_eq, ◌==◌, Option-cases,
}
use beldex_storage_server.Keys.{X25519Pubkey}
use beldex_storage_server.Common.{Message}
use beldex_storage_server.Swarm.{MnRecord, SwarmId, SwarmInfo}
use beldex_storage_server.MasterNode.{Sent, batch}
use beldex_storage_server.MasterNode.Relay.{deliveries, mnodes_of}
use beldex_storage_server.MasterNode.Relay.Delivery.{In-deliveries, In-deliveries_inv}

unfoldable pub members_of : List SwarmInfo → SwarmId → List MnRecord
members_of all_swarms id = elim (mnodes_of all_swarms id) [ none ↦ [] | some mnodes ↦ mnodes ]

pub members_of-some :
    (all_swarms : List SwarmInfo) (id : SwarmId) (mnodes : List MnRecord)
    → mnodes_of all_swarms id ≡ some mnodes
    → members_of all_swarms id ≡ mnodes
unfolding members_of
members_of-some all_swarms id mnodes e = rw (e, members_of) refl

-- What the last loop puts out, where `blobs` makes batches of messages.
unfoldable pub sent :
    List SwarmInfo
    → (List Message → List Bytes)
    → List (SwarmId × List Message)
    → List (X25519Pubkey × Sent)
sent all_swarms blobs [] = []
sent all_swarms blobs ((id, items) ∷ groups) =
    deliveries (members_of all_swarms id) (blobs items) ++ sent all_swarms blobs groups

pub mnodes_of-some :
    (si : SwarmInfo) (rest : List SwarmInfo) (id : SwarmId)
    → (mnodes : List MnRecord) × (mnodes_of (si ∷ rest) id ≡ some mnodes)
unfolding mnodes_of
mnodes_of-some si rest id = elim (Option-cases (find_if (λ s. s.swarm_id == id) (si ∷ rest))) [
  | inl e ↦ (si.mnodes, rw (e, mnodes_of) refl)
  | inr (s, e) ↦ (s.mnodes, rw (e, mnodes_of) refl)
]

pub mnodes_of-nonempty :
    (all_swarms : List SwarmInfo) (id : SwarmId) (mnodes : List MnRecord)
    → mnodes_of all_swarms id ≡ some mnodes
    → all_swarms ≢ []
unfolding mnodes_of
mnodes_of-nonempty [] id mnodes e = absurd (cc)
mnodes_of-nonempty (si ∷ rest) id mnodes e = λ q. cc

-- A batch for each message of each group, and nothing else.
pub In-sent :
    (all_swarms : List SwarmInfo) (blobs : List Message → List Bytes) (id : SwarmId)
    (items : List Message) (groups : List (SwarmId × List Message)) (mnodes : List MnRecord)
    (mn : MnRecord) (b : Bytes)
    → In (id, items) groups
    → mnodes_of all_swarms id ≡ some mnodes
    → In mn mnodes
    → In b (blobs items)
    → In (mn.pubkey_x25519, batch b) (sent all_swarms blobs groups)
unfolding sent
In-sent all_swarms blobs id items [] mnodes mn b i e j k = absurd i
In-sent all_swarms blobs id items ((id', items') ∷ groups) mnodes mn b (inl q) e j k =
    let same_id : id' ≡ id = ground arith in
    let same_items : items' ≡ items = ground arith in
    rw (same_id, same_items, members_of-some all_swarms id mnodes e)
      (In-append_left _ (deliveries mnodes (blobs items)) _
        (In-deliveries mnodes (blobs items) mn b j k))
In-sent all_swarms blobs id items ((id', items') ∷ groups) mnodes mn b (inr i) e j k =
    In-append_right _ (deliveries (members_of all_swarms id') (blobs items')) _
      (In-sent all_swarms blobs id items groups mnodes mn b i e j k)

-- A batch of a group, to a member of its swarm.
abbrev pub FromGroup :
    List SwarmInfo
    → (List Message → List Bytes)
    → List (SwarmId × List Message)
    → X25519Pubkey × Sent
    → Type 0
FromGroup all_swarms blobs groups x =
    (id : SwarmId) × (items : List Message) × (mnodes : List MnRecord) × (mn : MnRecord)
    × (b : Bytes) × In (id, items) groups
    × (mnodes_of all_swarms id ≡ some mnodes)
    × In mn mnodes
    × In b (blobs items)
    × (x ≡ (mn.pubkey_x25519, batch b))

In-sent_inv :
    (si : SwarmInfo) (rest : List SwarmInfo) (blobs : List Message → List Bytes)
    (groups : List (SwarmId × List Message)) (x : X25519Pubkey × Sent)
    → In x (sent (si ∷ rest) blobs groups)
    → FromGroup (si ∷ rest) blobs groups x
unfolding sent
In-sent_inv si rest blobs [] x i = absurd i
In-sent_inv si rest blobs ((id, items) ∷ groups) x i =
    let (mnodes, e) = mnodes_of-some si rest id in
    elim (In-append x (deliveries mnodes (blobs items)) (sent (si ∷ rest) blobs groups)
      (rw (members_of-some (si ∷ rest) id mnodes e) at i)) [
        | inl j ↦
            let (mn, b, k, l, q) = In-deliveries_inv mnodes (blobs items) x j in
            (id, items, mnodes, mn, b, inl refl, e, k, l, q)
        | inr j ↦
            let (id', items', ms, mn, b, k, f, l, m, q) = In-sent_inv si rest blobs groups x j in
            (id', items', ms, mn, b, inr k, f, l, m, q)
      ]

pub In-sent-FromGroup :
    (all_swarms : List SwarmInfo) (blobs : List Message → List Bytes)
    (groups : List (SwarmId × List Message)) (x : X25519Pubkey × Sent)
    → all_swarms ≢ []
    → In x (sent all_swarms blobs groups)
    → FromGroup all_swarms blobs groups x
In-sent-FromGroup [] blobs groups x h i = absurd (h refl)
In-sent-FromGroup (si ∷ rest) blobs groups x h i = In-sent_inv si rest blobs groups x i
