-- ===== src/Swarm/Nodes.antt =====
-- The three maps of all funded nodes, as `store_nodes` (the end of update_state) builds them.
use beldex_storage_server.Prelude.{
  false, Bool, ◌≢◌, select, true, not, ℕ, ◌≡◌, refl, sym, ap, ◌∙◌, subst, none, some, List, [], ◌∷◌,
  arith, In, find, emplace, find-emplace, nat_eq, inl, inr, ◌⊎◌, Option-cases, KeysUnique,
  emplace-KeysUnique, find-In,
}
use beldex_storage_server.Keys.{LegacyPubkey, Ed25519Pubkey, X25519Pubkey}
use beldex_storage_server.Swarm.{
  same_mnode, apply_swarm_changes, SwarmEvents, update_state, update_members, MnRecord, SwarmInfo,
  Swarm, add_mnodes, add_swarms, index_ed25519, index_x25519, store_nodes, find_node,
  find_node_ed25519, find_node_x25519, SwarmEvents, update_members, update_state,
  apply_swarm_changes,
}

abbrev NodeMap : Type 0
NodeMap = List (LegacyPubkey × MnRecord)

-- Each node stands under its own key.
abbrev Filed : NodeMap → Type 0
Filed m = (k : LegacyPubkey) (mn : MnRecord) → find k m ≡ some mn → mn.pubkey_legacy ≡ k

emplace-Filed : (mn : MnRecord) (m : NodeMap) → Filed m → Filed (emplace mn.pubkey_legacy mn m)
emplace-Filed mn m f k x h = ground (arith, find-emplace mn.pubkey_legacy k mn m, f k x)

add_mnodes-kept :
    (mns : List MnRecord) (m : NodeMap)
    → KeysUnique m × Filed m
    → KeysUnique (add_mnodes mns m) × Filed (add_mnodes mns m)
unfolding add_mnodes
add_mnodes-kept [] m h = h
add_mnodes-kept (mn ∷ mns) m (u, f) =
    add_mnodes-kept mns (emplace mn.pubkey_legacy mn m)
      (emplace-KeysUnique mn.pubkey_legacy mn m u, emplace-Filed mn m f)

add_swarms-kept :
    (sis : List SwarmInfo) (m : NodeMap)
    → KeysUnique m × Filed m
    → KeysUnique (add_swarms sis m) × Filed (add_swarms sis m)
unfolding add_swarms
add_swarms-kept [] m h = h
add_swarms-kept (si ∷ sis) m h =
    add_swarms-kept sis (add_mnodes si.mnodes m) (add_mnodes-kept si.mnodes m h)

-- A node that has an entry keeps one.
abbrev Has : LegacyPubkey → NodeMap → Type 0
Has k m = (mn : MnRecord) × (find k m ≡ some mn)

emplace-Has : (k j : LegacyPubkey) (mn : MnRecord) (m : NodeMap) → Has k m → Has k (emplace j mn m)
emplace-Has k j mn m (x, e) = (x, rw find-emplace (rw e))

emplace-Has_self : (k : LegacyPubkey) (mn : MnRecord) (m : NodeMap) → Has k (emplace k mn m)
emplace-Has_self k mn m = elim (Option-cases (find k m)) [
  | inl e ↦ (mn, rw find-emplace (rw e (ground arith)))
  | inr (x, e) ↦ (x, rw find-emplace (rw e))
]

add_mnodes-Has :
    (k : LegacyPubkey) (mns : List MnRecord) (m : NodeMap) → Has k m → Has k (add_mnodes mns m)
unfolding add_mnodes
add_mnodes-Has k [] m h = h
add_mnodes-Has k (mn ∷ mns) m h = add_mnodes-Has k mns _ (emplace-Has k mn.pubkey_legacy mn m h)

add_swarms-Has :
    (k : LegacyPubkey) (sis : List SwarmInfo) (m : NodeMap) → Has k m → Has k (add_swarms sis m)
unfolding add_swarms
add_swarms-Has k [] m h = h
add_swarms-Has k (si ∷ sis) m h = add_swarms-Has k sis _ (add_mnodes-Has k si.mnodes m h)

add_mnodes-In :
    (mn : MnRecord) (mns : List MnRecord) (m : NodeMap)
    → In mn mns
    → Has mn.pubkey_legacy (add_mnodes mns m)
unfolding add_mnodes
add_mnodes-In mn [] m i = absurd i
add_mnodes-In mn (x ∷ mns) m (inl e) =
    rw e (add_mnodes-Has x.pubkey_legacy mns _ (emplace-Has_self x.pubkey_legacy x m))
add_mnodes-In mn (x ∷ mns) m (inr i) = add_mnodes-In mn mns _ i

add_swarms-In :
    (mn : MnRecord) (si : SwarmInfo) (sis : List SwarmInfo) (m : NodeMap)
    → In si sis
    → In mn si.mnodes
    → Has mn.pubkey_legacy (add_swarms sis m)
unfolding add_swarms
add_swarms-In mn si [] m i j = absurd i
add_swarms-In mn si (x ∷ sis) m (inl e) j =
    add_swarms-Has mn.pubkey_legacy sis _
      (add_mnodes-In mn x.mnodes m (subst (λ (t : SwarmInfo). In mn t.mnodes) e j))
add_swarms-In mn si (x ∷ sis) m (inr i) j = add_swarms-In mn si sis _ i j

-- An index maps a key to the legacy key of a node that has it.
module _ (nodes : NodeMap) where
  abbrev Indexed : (MnRecord → ℕ) → List (ℕ × LegacyPubkey) → Type 0
  Indexed key m =
      (k : ℕ) (l : LegacyPubkey)
      → find k m ≡ some l
      → (mn : MnRecord) × (find l nodes ≡ some mn) × (key mn ≡ k)

  emplace-Indexed :
      (key : MnRecord → ℕ) (l : LegacyPubkey) (mn : MnRecord) (m : List (ℕ × LegacyPubkey))
      → find l nodes ≡ some mn
      → Indexed key m
      → Indexed key (emplace (key mn) l m)
  emplace-Indexed key l mn m e h k j f = elim (Option-cases (find k m)) [
    | inr (i, g) ↦
        let same : i ≡ j = ground (arith, find-emplace (key mn) k l m) in h k j (g ∙ ap some same)
    | inl g ↦
        let (same, hit) : (l ≡ j) × (key mn ≡ k) = (
          ground (arith, find-emplace (key mn) k l m),
          ground (arith, find-emplace (key mn) k l m),
        ) in
        (mn, subst (λ t. find t nodes ≡ some mn) same e, hit)
  ]

  index_ed25519-Indexed :
      (rest : NodeMap) (m : List (ℕ × LegacyPubkey))
      → ((k : LegacyPubkey) (mn : MnRecord) → In (k, mn) rest → find k nodes ≡ some mn)
      → Indexed (λ mn. mn.pubkey_ed25519) m
      → Indexed (λ mn. mn.pubkey_ed25519) (index_ed25519 rest m)
  unfolding index_ed25519
  index_ed25519-Indexed [] m h i = i
  index_ed25519-Indexed ((k, mn) ∷ rest) m h i =
      index_ed25519-Indexed rest _ (λ j x p. h j x (inr p))
        (emplace-Indexed (λ x. x.pubkey_ed25519) k mn m (h k mn (inl refl)) i)

  index_x25519-Indexed :
      (rest : NodeMap) (m : List (ℕ × LegacyPubkey))
      → ((k : LegacyPubkey) (mn : MnRecord) → In (k, mn) rest → find k nodes ≡ some mn)
      → Indexed (λ mn. mn.pubkey_x25519) m
      → Indexed (λ mn. mn.pubkey_x25519) (index_x25519 rest m)
  unfolding index_x25519
  index_x25519-Indexed [] m h i = i
  index_x25519-Indexed ((k, mn) ∷ rest) m h i =
      index_x25519-Indexed rest _ (λ j x p. h j x (inr p))
        (emplace-Indexed (λ x. x.pubkey_x25519) k mn m (h k mn (inl refl)) i)

module _ (s : Swarm) (swarms : List SwarmInfo) (decommissioned : List MnRecord) where
  nodes-kept :
      let m = (store_nodes s swarms decommissioned).all_funded_nodes in KeysUnique m × Filed m
  unfolding store_nodes
  nodes-kept =
      add_mnodes-kept decommissioned (add_swarms swarms [])
        (add_swarms-kept swarms [] (tt, λ k mn h. unfold find in cc))

  stored_complete :
      (mn : MnRecord)
      → ((si : SwarmInfo) × In si swarms × In mn si.mnodes) ⊎ In mn decommissioned
      → (x : MnRecord) × (find_node (store_nodes s swarms decommissioned) mn.pubkey_legacy ≡ some x)
        × (x.pubkey_legacy ≡ mn.pubkey_legacy)
  unfolding find_node store_nodes
  stored_complete mn h = let (x, e) = has h in (x, e, nodes-kept.1 mn.pubkey_legacy x e)
    where
      has :
          ((si : SwarmInfo) × In si swarms × In mn si.mnodes) ⊎ In mn decommissioned
          → Has mn.pubkey_legacy (store_nodes s swarms decommissioned).all_funded_nodes
      has (inl (si, i, j)) =
          add_mnodes-Has mn.pubkey_legacy decommissioned _ (add_swarms-In mn si swarms [] i j)
      has (inr i) = add_mnodes-In mn decommissioned _ i

  find_entry :
      (k : LegacyPubkey) (mn : MnRecord)
      → In (k, mn) (store_nodes s swarms decommissioned).all_funded_nodes
      → find k (store_nodes s swarms decommissioned).all_funded_nodes ≡ some mn
  find_entry k mn i = find-In k mn _ nodes-kept.0 i

  -- A lookup through an index.
  found_by_key :
      (key : MnRecord → ℕ) (m : List (ℕ × LegacyPubkey)) (pk : ℕ) (mn : MnRecord)
      → Indexed (store_nodes s swarms decommissioned).all_funded_nodes key m
      → elim (find pk m) [
        | some legacy ↦ find_node (store_nodes s swarms decommissioned) legacy
        | none ↦ none
      ]
        ≡ some mn
      → (key mn ≡ pk) × (find_node (store_nodes s swarms decommissioned) mn.pubkey_legacy ≡ some mn)
  unfolding find_node
  found_by_key key m pk mn h f = elim (Option-cases (find pk m)) [
    | inl e ↦ absurd (let g = rw e at f in cc)
    | inr (l, e) ↦
        let nodes = (store_nodes s swarms decommissioned).all_funded_nodes in
        let g : find l nodes ≡ some mn = rw e at f in
        let (x, at, hit) = h pk l e in
        let same : x ≡ mn = ground arith in
        let own = nodes-kept.1 l mn g in (ap key (sym same) ∙ hit, ap (λ k. find k nodes) own ∙ g)
  ]

  -- A lookup by the ed25519 key after an update returns only a node that has this key, and that
  -- the lookup by its legacy key returns too.
  find_node_ed25519_sound :
      (pk : Ed25519Pubkey) (mn : MnRecord)
      → find_node_ed25519 (store_nodes s swarms decommissioned) pk ≡ some mn
      → (mn.pubkey_ed25519 ≡ pk)
        × (find_node (store_nodes s swarms decommissioned) mn.pubkey_legacy ≡ some mn)
  unfolding find_node_ed25519 store_nodes
  find_node_ed25519_sound pk mn =
      found_by_key (λ x. x.pubkey_ed25519) _ pk mn
        (index_ed25519-Indexed _ _ [] find_entry (λ k l h. unfold find in cc))

  -- A lookup by the x25519 key after an update returns only a node that has this key, and that the
  -- lookup by its legacy key returns too.
  find_node_x25519_sound :
      (pk : X25519Pubkey) (mn : MnRecord)
      → find_node_x25519 (store_nodes s swarms decommissioned) pk ≡ some mn
      → (mn.pubkey_x25519 ≡ pk)
        × (find_node (store_nodes s swarms decommissioned) mn.pubkey_legacy ≡ some mn)
  unfolding find_node_x25519 store_nodes
  find_node_x25519_sound pk mn =
      found_by_key (λ x. x.pubkey_x25519) _ pk mn
        (index_x25519-Indexed _ _ [] find_entry (λ k l h. unfold find in cc))

members_complete :
    (s : Swarm) (swarms : List SwarmInfo) (decommissioned members : List MnRecord) (mn : MnRecord)
    → members ≢ []
    → ((si : SwarmInfo) × In si swarms × In mn si.mnodes) ⊎ In mn decommissioned
    → (x : MnRecord) × (find_node (update_members s swarms decommissioned members) mn.pubkey_legacy
        ≡ some x)
      × (x.pubkey_legacy ≡ mn.pubkey_legacy)
unfolding update_members
members_complete s swarms decommissioned [] mn ne h = absurd (ne refl)
members_complete s swarms decommissioned (m ∷ ms) mn ne h =
    stored_complete
      (record s { swarm_peers = select (λ x. not (same_mnode x s.our_address)) (m ∷ ms) }) swarms
      decommissioned mn h

-- After an update of a node that is not active, or whose own swarm has members, every node of the
-- swarms and every decommissioned node is found by its legacy key.
pub find_node_complete :
    (s : Swarm) (swarms : List SwarmInfo) (decommissioned : List MnRecord) (events : SwarmEvents)
    (active : Bool)
    → (active ≡ false) ⊎ (events.our_swarm_members ≢ [])
    → (mn : MnRecord) → ((si : SwarmInfo) × In si swarms × In mn si.mnodes) ⊎ In mn decommissioned
    → (x : MnRecord) × (find_node
          (update_state s swarms decommissioned events active)
          mn.pubkey_legacy
        ≡ some x)
      × (x.pubkey_legacy ≡ mn.pubkey_legacy)
unfolding update_state
find_node_complete s swarms decommissioned events false k mn h =
    stored_complete s swarms decommissioned mn h
find_node_complete s swarms decommissioned events true (inl e) mn h = cc
find_node_complete s swarms decommissioned events true (inr ne) mn h =
    members_complete (apply_swarm_changes s swarms) swarms decommissioned events.our_swarm_members
      mn ne h
