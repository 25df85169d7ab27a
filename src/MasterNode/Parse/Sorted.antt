-- ===== src/MasterNode/Parse/Sorted.antt =====
-- What a parsed block update of httpserver/master_node.cpp is like.
use beldex_storage_server.Prelude.{
  ℕ, ◌<◌, ◌≡◌, ◌≢◌, ◌⊎◌, Bool, true, false, not, ◌||◌, Option, none, some, List, [], ◌∷◌, ◌++◌,
  ◌==◌, nat_eq, Bytes, ltb, In, Pairwise, All, arith, if◌then◌else◌, Bool-cases, inl, inr, ne_of_==,
  subst,
}
use beldex_storage_server.Swarm.{MnRecord, SwarmId, SwarmInfo, BlockUpdate, invalid_swarm_id}
use beldex_storage_server.MasterNode.Parse.{
  Document, MnodeState, get_or, push_mnode, place_mnode, no_key, parse_record, parse_funded,
  parse_state, parse_states, parse_swarm_update, ◌>>=◌,
}

abbrev Below : SwarmInfo → SwarmInfo → Type 0
Below a b = a.swarm_id < b.swarm_id

-- The swarms of an update: in the strict order of their ids, none of them the id of no swarm, and
-- each with a member.
pub record IsOrdered (swarms : List SwarmInfo) : Type 0 where
  pub order : Pairwise (λ (a b : SwarmInfo). a.swarm_id < b.swarm_id) swarms
  pub proper : All (λ (si : SwarmInfo). (si.swarm_id ≢ invalid_swarm_id) × (si.mnodes ≢ [])) swarms

In-push_mnode :
    (id : SwarmId) (mn : MnRecord) (sis : List SwarmInfo) (si : SwarmInfo)
    → In si (push_mnode id mn sis)
    → (si.swarm_id ≡ id) ⊎ In si sis
unfolding push_mnode
In-push_mnode id mn [] si (inl e) = inl (ground arith)
In-push_mnode id mn [] si (inr i) = absurd i
In-push_mnode id mn (s ∷ sis) si i = elim (Bool-cases (id == s.swarm_id)) [
  | inl t ↦ elim (go t) [ inl e ↦ inl (ground arith) | inr j ↦ inr (inr j) ]
  | inr f ↦ elim (Bool-cases (ltb id s.swarm_id)) [
    | inl t ↦ elim (before f t) [ inl e ↦ inl (ground arith) | inr j ↦ inr j ]
    | inr g ↦ elim (later f g) [
      | inl e ↦ inr (inl e)
      | inr j ↦ elim (In-push_mnode id mn sis si j) [ inl e ↦ inl e | inr k ↦ inr (inr k) ]
    ]
  ]
]
  where
    go : (id == s.swarm_id) ≡ true → (si ≡ record s { mnodes = s.mnodes ++ mn ∷ [] }) ⊎ In si sis
    go t = rw t at i

    before :
        (id == s.swarm_id) ≡ false
        → ltb id s.swarm_id ≡ true
        → (si ≡ record { swarm_id = id; mnodes = mn ∷ [] }) ⊎ In si (s ∷ sis)
    before f t = rw (f, t) at i

    later :
        (id == s.swarm_id) ≡ false
        → ltb id s.swarm_id ≡ false
        → (si ≡ s) ⊎ In si (push_mnode id mn sis)
    later f g = rw (f, g) at i

snoc-ne-nil : (ms : List MnRecord) (mn : MnRecord) → ms ++ mn ∷ [] ≢ []
snoc-ne-nil [] mn h = cc
snoc-ne-nil (m ∷ ms) mn h = cc

push_mnode-IsOrdered :
    (id : SwarmId) (mn : MnRecord) (sis : List SwarmInfo)
    → id ≢ invalid_swarm_id
    → IsOrdered sis
    → IsOrdered (push_mnode id mn sis)
unfolding push_mnode
push_mnode-IsOrdered id mn [] h o = record {
  order = (λ y i. absurd i, tt);
  proper = ((h, λ q. cc), tt);
}
push_mnode-IsOrdered id mn (s ∷ sis) h o = elim (Bool-cases (id == s.swarm_id)) [
  | inl t ↦
      rw t
        (record { order = o.order; proper = ((o.proper.0.0, snoc-ne-nil s.mnodes mn), o.proper.1) })
  | inr f ↦ elim (Bool-cases (ltb id s.swarm_id)) [
    | inl t ↦ rw (f, t) (record { order = (first t, o.order); proper = ((h, λ q. cc), o.proper) })
    | inr g ↦
        let rest =
          push_mnode-IsOrdered id mn sis h (record { order = o.order.1; proper = o.proper.1 }) in
        rw (f, g) (record { order = (above f g, rest.order); proper = (o.proper.0, rest.proper) })
  ]
]
  where
    first : ltb id s.swarm_id ≡ true → (y : SwarmInfo) → In y (s ∷ sis) → id < y.swarm_id
    first t y (inl e) = ground arith
    first t y (inr i) = let below = o.order.0 y i in ground arith

    above :
        (id == s.swarm_id) ≡ false
        → ltb id s.swarm_id ≡ false
        → (y : SwarmInfo) → In y (push_mnode id mn sis)
        → s.swarm_id < y.swarm_id
    above f g y i = elim (In-push_mnode id mn sis y i) [
      | inl e ↦ ground arith
      | inr j ↦ o.order.0 y j
    ]

place_mnode-IsOrdered :
    (bu : BlockUpdate) (id : SwarmId) (mn : MnRecord)
    → IsOrdered bu.swarms
    → IsOrdered (place_mnode bu id mn).swarms
unfolding place_mnode
place_mnode-IsOrdered bu id mn o = elim (Bool-cases (id == invalid_swarm_id)) [
  | inl t ↦ rw t o
  | inr f ↦ rw f (push_mnode-IsOrdered id mn bu.swarms (ne_of_== id invalid_swarm_id f) o)
]

-- If an update is made, its swarms are ordered.
abbrev Makes : Option BlockUpdate → Type 0
Makes none = Unit
Makes (some bu) = IsOrdered bu.swarms

Makes-bind :
    {A : Type 0} (o : Option A) (f : A → Option BlockUpdate)
    → ((a : A) → Makes (f a))
    → Makes (o >>= f)
Makes-bind none f h = tt
Makes-bind (some a) f h = h a

module _ (from_hex : Bytes → Option ℕ) where
  parse_funded-Makes :
      (bu : BlockUpdate) (mn : MnodeState)
      → IsOrdered bu.swarms
      → Makes (parse_funded from_hex bu mn)
  unfolding parse_funded
  parse_funded-Makes bu mn o = Makes-bind mn.master_node_pubkey _ (λ pk.
      Makes-bind mn.pubkey_x25519 _ (λ x25519. Makes-bind mn.pubkey_ed25519 _ (λ ed25519.
        elim (Bool-cases (no_key x25519 || no_key ed25519)) [
          | inl t ↦ rw t o
          | inr f ↦ rw f (
              Makes-bind (parse_record from_hex mn) _
                (λ mnode. Makes-bind mn.swarm_id _ (λ id. place_mnode-IsOrdered bu id mnode o)))
        ])))

  parse_state-Makes :
      (bu : BlockUpdate) (mn : MnodeState)
      → IsOrdered bu.swarms
      → Makes (parse_state from_hex bu mn)
  unfolding parse_state
  parse_state-Makes bu mn o = Makes-bind mn.funded _ (λ funded. go funded)
    where
      go : (funded : Bool) → Makes (if not funded then some bu else parse_funded from_hex bu mn)
      go true = parse_funded-Makes bu mn o
      go false = o

  Makes-next :
      (o : Option BlockUpdate) (f : BlockUpdate → Option BlockUpdate)
      → Makes o
      → ((bu : BlockUpdate) → IsOrdered bu.swarms → Makes (f bu))
      → Makes (o >>= f)
  Makes-next none f h g = tt
  Makes-next (some bu) f h g = g bu h

  parse_states-Makes :
      (mns : List MnodeState) (bu : BlockUpdate)
      → IsOrdered bu.swarms
      → Makes (parse_states from_hex mns bu)
  unfolding parse_states
  parse_states-Makes [] bu o = o
  parse_states-Makes (mn ∷ mns) bu o =
      Makes-next (parse_state from_hex bu mn) (parse_states from_hex mns)
        (parse_state-Makes bu mn o) (λ b k. parse_states-Makes mns b k)

  parse-Makes : (doc : Document) → Makes (parse_swarm_update from_hex doc)
  unfolding parse_swarm_update
  parse-Makes doc = Makes-bind doc.height _ (λ height. Makes-bind doc.block_hash _ (λ hash.
      Makes-bind doc.hardfork _ (λ hf. elim (Bool-cases (get_or doc.unchanged false)) [
        | inl t ↦ rw t empty
        | inr f ↦
            rw f (Makes-bind doc.master_node_states _ (λ states. parse_states-Makes states _ empty))
      ])))
    where
      empty : IsOrdered []
      empty = record { order = tt; proper = tt }

  -- The swarms of a parsed block update are in the strict order of their ids, so that no id comes
  -- twice, none has the id of no swarm, and each has a member.
  pub parse_swarm_update-IsOrdered :
      (doc : Document) (bu : BlockUpdate)
      → parse_swarm_update from_hex doc ≡ some bu
      → IsOrdered bu.swarms
  parse_swarm_update-IsOrdered doc bu e = subst Makes e (parse-Makes doc)
