-- ===== src/MasterNode/Relay/Groups.antt =====
-- How bootstrap_swarms of httpserver/master_node.cpp groups the messages by their swarms: the cache of
-- swarm ids makes no difference, and each swarm gets its messages in their order.
use beldex_storage_server.Prelude.{
  ◌≡◌, refl, sym, ap, ◌∙◌, Bool, true, false, ◌&&◌, Option, some, List, [], ◌∷◌, ◌++◌, ◌==◌, nat_eq,
  find, emplace, assign, find-emplace, find-assign, select, if◌then◌else◌, Bool-cases, Option-cases,
  inl, inr, arith, KeysUnique, assign-KeysUnique, find-In, In, eq_of_==, ==_refl,
}
use mathlib.Core.List.{append_assoc, append-nil}
use beldex_storage_server.Common.{UserPubkey, Message, is_valid, pubkey_eq}
use beldex_storage_server.Swarm.{SwarmId, SwarmInfo}
use beldex_storage_server.Swarm.Closest.{get_swarm_by_pk}
use beldex_storage_server.MasterNode.Relay.{
  Grouping, items_of, is_wanted, group_of, cached_swarm, group_entry, group_entries,
}

module _ (all_swarms : List SwarmInfo) (swarms : List SwarmId) where
  abbrev pub nearest : UserPubkey → SwarmId
  nearest pk = (get_swarm_by_pk all_swarms pk.pubkey).swarm_id

  -- The messages that go to the swarm of an id.
  abbrev pub belongs : SwarmId → Message → Bool
  belongs id m = is_valid m.pubkey && (is_wanted swarms id && nearest m.pubkey == id)

  -- The cache holds nothing but nearest swarms.
  pub record IsExact (g : Grouping) : Type 0 where
    pub cached : (pk : UserPubkey) (id : SwarmId) → find pk g.cache ≡ some id → id ≡ nearest pk
    pub unique : KeysUnique g.groups

  cached_swarm-IsExact :
      (g : Grouping) (pk : UserPubkey) → IsExact g → cached_swarm all_swarms g.cache pk ≡ nearest pk
  unfolding cached_swarm
  cached_swarm-IsExact g pk x = elim (Option-cases (find pk g.cache)) [
    | inl e ↦ rw (e, cached_swarm) refl
    | inr (id, e) ↦ rw (e, cached_swarm) (x.cached pk id e)
  ]

  group_entry-IsExact :
      (g : Grouping) (m : Message) → IsExact g → IsExact (group_entry all_swarms swarms g m)
  unfolding group_entry
  group_entry-IsExact g m x = elim (Bool-cases (is_valid m.pubkey)) [
    | inr f ↦ rw f x
    | inl t ↦
        rw (t, cached_swarm-IsExact g m.pubkey x)
          (record {
            cached = λ pk id h. cached pk id h;
            unique = elim (Bool-cases (is_wanted swarms (nearest m.pubkey))) [
              | inl w ↦ rw w (assign-KeysUnique (nearest m.pubkey) _ g.groups x.unique)
              | inr w ↦ rw w x.unique
            ];
          })
  ]
    where
      cached :
          (pk : UserPubkey) (id : SwarmId)
          → find pk (emplace m.pubkey (nearest m.pubkey) g.cache) ≡ some id
          → id ≡ nearest pk
      cached pk id h = ground (
        arith,
        find-emplace m.pubkey pk (nearest m.pubkey) g.cache,
        x.cached pk id,
        pubkey_eq.beq_iff m.pubkey pk,
        ap nearest,
      )

  items_of-if :
      (b : Bool) (v : List Message) (o : Option (List Message))
      → items_of (if b then some v else o) ≡ (if b then v else items_of o)
  items_of-if true v o = refl
  items_of-if false v o = refl

  group_of-assign :
      (k id : SwarmId) (v : List Message) (groups : List (SwarmId × List Message))
      → group_of id (assign k v groups) ≡ (if k == id then v else group_of id groups)
  group_of-assign k id v groups =
      ap items_of (find-assign k id v groups) ∙ items_of-if (k == id) v (find id groups)

  -- A message joins the group of its own swarm, if that is wanted, and no other.
  group_of-join :
      (near id : SwarmId) (m : Message) (groups : List (SwarmId × List Message))
      → group_of id (
          if is_wanted swarms near
          then assign near (group_of near groups ++ m ∷ []) groups
          else groups)
        ≡ group_of id groups ++ (if is_wanted swarms id && near == id then m ∷ [] else [])
  group_of-join near id m groups = elim (Bool-cases (near == id)) [
    | inr f ↦ elim (Bool-cases (is_wanted swarms near)) [
      | inl w ↦ rw w (
          group_of-assign near id _ groups
          ∙ rw (f, nothing (is_wanted swarms id)) (sym (append-nil (group_of id groups))))
      | inr w ↦ rw (w, f, nothing (is_wanted swarms id)) (sym (append-nil (group_of id groups)))
    ]
    | inl t ↦ rw (← eq_of_== near id t) (elim (Bool-cases (is_wanted swarms near)) [
      | inl w ↦ rw (w, ==_refl near) (group_of-assign near near _ groups ∙ rw (==_refl near) refl)
      | inr w ↦ rw w (sym (append-nil (group_of near groups)))
    ])
  ]
    where
      nothing : (b : Bool) → (b && false) ≡ false
      nothing true = refl
      nothing false = refl

  group_of-group_entry :
      (g : Grouping) (m : Message) (id : SwarmId)
      → IsExact g
      → group_of id (group_entry all_swarms swarms g m).groups
        ≡ group_of id g.groups ++ (if belongs id m then m ∷ [] else [])
  unfolding group_entry
  group_of-group_entry g m id x = elim (Bool-cases (is_valid m.pubkey)) [
    | inr f ↦ rw f (sym (append-nil (group_of id g.groups)))
    | inl t ↦
        rw (t, cached_swarm-IsExact g m.pubkey x) (group_of-join (nearest m.pubkey) id m g.groups)
  ]

  group_of-group_entries :
      (entries : List Message) (g : Grouping) (id : SwarmId)
      → IsExact g
      → (group_of id (group_entries all_swarms swarms g entries).groups
          ≡ group_of id g.groups ++ select (belongs id) entries)
        × KeysUnique (group_entries all_swarms swarms g entries).groups
  unfolding group_entries
  group_of-group_entries [] g id x = (sym (append-nil (group_of id g.groups)), x.unique)
  group_of-group_entries (m ∷ ms) g id x =
      let rest =
        group_of-group_entries ms (group_entry all_swarms swarms g m) id
          (group_entry-IsExact g m x) in
      (
        rest.0
            ∙ rw (group_of-group_entry g m id x) (elim (Bool-cases (belongs id m)) [
              | inl t ↦ rw t (append_assoc (group_of id g.groups) (m ∷ []) (select (belongs id) ms))
              | inr f ↦ rw (f, append-nil (group_of id g.groups)) refl
            ]),
        rest.1,
      )

  -- The groups that the loop over the messages makes are one for a swarm, and hold exactly the
  -- messages whose nearest swarm it is, in their order, if the swarm is wanted.
  pub group_entries_lem :
      (entries : List Message)
      → let g =
          (group_entries all_swarms swarms (record { cache = []; groups = [] }) entries).groups in
        ((id : SwarmId) → group_of id g ≡ select (belongs id) entries)
        × ((id : SwarmId) (items : List Message)
            → In (id, items) g
            → items ≡ select (belongs id) entries)
  unfolding find
  group_entries_lem entries = (
    λ id. (group_of-group_entries entries _ id empty).0,
    λ id items i.
        let (same, unique) = group_of-group_entries entries _ id empty in
        sym (ap items_of (find-In id items _ unique i)) ∙ same,
  )
    where
      empty : IsExact (record { cache = []; groups = [] })
      empty = record { cached = λ pk id h. cc; unique = tt }
