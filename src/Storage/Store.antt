-- ===== src/Storage/Store.antt =====
-- Inserting messages: what `store` returns and what can be read back afterwards.
use beldex_storage_server.Prelude.{
  ℕ, ◌≡◌, ◌≢◌, refl, sym, ap, ◌∙◌, subst, true, false, none, some, List, [], ◌∷◌, ◌++◌, arith, In,
  ◌==◌, nat_eq, bytes_eq, find_if, Pairwise, snoc-Pairwise, In-append, In-map, Bool-cases,
  Option-cases, inl, inr, any_of-none, eq_of_==, ne_of_==, ==_refl, find, emplace, find-emplace,
}
use beldex_storage_server.Common.{UserPubkey, Message, is_valid, pubkey_eq}
use beldex_storage_server.Storage.{
  OwnerRow, MessageRow, Database, RowIds, Disk, fine, full, broken, Stored, inserted, already_there,
  db_full, raised, find_owner, user_of, owner_ids, message_ids, has_hash, add_owner, add_message,
  store, joined, retrieve_by_hash, bulk_owner, bulk_owners, bulk_messages, new_row, bulk_store,
}
use beldex_storage_server.Storage.Invariant.{Earlier, OtherOwner, HasOwner, WellFormed}

-- No row has a user that the lookup does not find.
find_owner-none :
    (os : List OwnerRow) (user : UserPubkey) (o : OwnerRow)
    → find_owner os user ≡ none
    → In o os
    → o.user ≢ user
unfolding find_owner
find_owner-none [] user o h i e = i
find_owner-none (x ∷ os) user o h (inl p) e =
    let hit : (x.user == user) ≡ true = rw (← p, e) (==_refl user) in ground arith
find_owner-none (x ∷ os) user o h (inr i) e = find_owner-none os user o (ground arith) i e

find_owner-In :
    (os : List OwnerRow) (user : UserPubkey) (id : ℕ)
    → find_owner os user ≡ some id
    → (x : OwnerRow) × In x os × (x.id ≡ id)
unfolding find_owner
find_owner-In [] user id g = cc
find_owner-In (x ∷ os) user id g = elim (Bool-cases (x.user == user)) [
  | inl t ↦ (x, inl refl, ground arith)
  | inr f ↦ let (y, i, e) = find_owner-In os user id (ground arith) in (y, inr i, e)
]

-- Ids are unique, so the id that a user has leads back to the user.
user_of-find_owner :
    (os : List OwnerRow) (user : UserPubkey) (id : ℕ)
    → Pairwise OtherOwner os
    → find_owner os user ≡ some id
    → user_of os id ≡ some user
unfolding find_owner user_of
user_of-find_owner [] user id u h = cc
user_of-find_owner (o ∷ os) user id u h = elim (Bool-cases (o.user == user)) [
  | inl t ↦
      let e = eq_of_== o.user user t in
      let f : (o.id == id) ≡ true = ground arith in rw f (ap some e)
  | inr f ↦
      let rest : find_owner os user ≡ some id = ground arith in
      let (x, i, e) = find_owner-In os user id rest in
      let ne = (u.0 x i).0 in
      let other : (o.id == id) ≡ false = ground arith in
      rw other (user_of-find_owner os user id u.1 rest)
]

user_of-append :
    (os : List OwnerRow) (id : ℕ) (o : OwnerRow) (u : UserPubkey)
    → user_of os id ≡ some u
    → user_of (os ++ o ∷ []) id ≡ some u
unfolding user_of
user_of-append [] id o u f = cc
user_of-append (x ∷ os) id o u f = ground (arith, user_of-append os id o u)

find_owner-append :
    (os : List OwnerRow) (o : OwnerRow)
    → find_owner os o.user ≡ none
    → find_owner (os ++ o ∷ []) o.user ≡ some o.id
unfolding find_owner
find_owner-append [] o h = rw (==_refl o.user)
find_owner-append (x ∷ os) o h = ground (arith, find_owner-append os o)

-- A new row is found by its hash where no older one has it.
find_if-append :
    (ms : List MessageRow) (row : MessageRow)
    → has_hash row.hash ms ≡ false
    → find_if (λ m. m.hash == row.hash) (ms ++ row ∷ []) ≡ some row
find_if-append [] row h = rw (==_refl row.hash)
find_if-append (m ∷ ms) row h = ground (arith, find_if-append ms row)

module _ (ids : RowIds) where
  add_owner-WellFormed :
      (user : UserPubkey) (db : Database) → WellFormed db → WellFormed (add_owner ids user db)
  unfolding add_owner
  add_owner-WellFormed user db w = elim (Option-cases (find_owner db.owners user)) [
    | inr (id, e) ↦ rw (e, add_owner) w
    | inl e ↦
        rw (e, add_owner)
          (record {
            rows = w.rows;
            users = snoc-Pairwise OtherOwner db.owners _ w.users (λ o i.
                let lt = ids.above (owner_ids db) o.id (In-map (λ x. x.id) o db.owners i) in
                (omega arith, find_owner-none db.owners user o e i));
            owned = λ m i. let (u, f) = w.owned m i in (u, user_of-append db.owners m.owner _ u f);
          })
  ]

  -- After the insertion of the owner the owner is there.
  find_owner-add_owner :
      (user : UserPubkey) (db : Database)
      → (id : ℕ) × (find_owner (add_owner ids user db).owners user ≡ some id)
  unfolding add_owner
  find_owner-add_owner user db = elim (Option-cases (find_owner db.owners user)) [
    | inr (id, e) ↦ (id, rw (e, add_owner) e)
    | inl e ↦ (
      ids.next (owner_ids db),
      rw (e, add_owner) (find_owner-append db.owners (record { id = _; user = user }) e),
    )
  ]

  -- The insertion of an owner does not touch the messages.
  messages-add_owner :
      (user : UserPubkey) (db : Database) → (add_owner ids user db).messages ≡ db.messages
  unfolding add_owner
  messages-add_owner user db = ground arith

  add_message-WellFormed :
      (owner : ℕ) (msg : Message) (db : Database)
      → WellFormed db
      → HasOwner db.owners owner
      → has_hash msg.hash db.messages ≡ false
      → WellFormed (add_message ids owner msg db)
  unfolding add_message
  add_message-WellFormed owner msg db w o h = record {
    rows = snoc-Pairwise Earlier db.messages _ w.rows (λ m i. (
      ids.above (message_ids db) m.id (In-map (λ x. x.id) m db.messages i),
      ne_of_== m.hash msg.hash (any_of-none (λ x. x.hash == msg.hash) db.messages m h i),
    ));
    users = w.users;
    owned = λ m i. elim (In-append m db.messages _ i) [
      | inl j ↦ w.owned m j
      | inr (inl e) ↦ rw e o
      | inr (inr j) ↦ absurd j
    ];
  }

  -- The result of a call of `store`, by its answer.
  abbrev pub StoreResult : Disk → Database → Message → Database × Stored → Type 0
  StoreResult disk db msg (db', inserted) =
      (has_hash msg.hash db.messages ≡ false)
      × WellFormed db'
      × (retrieve_by_hash db' msg.hash ≡ some msg)
  StoreResult disk db msg (db', already_there) = (has_hash msg.hash db.messages ≡ true) × (db' ≡ db)
  StoreResult disk db msg (db', db_full) = (disk ≡ full) × (db' ≡ db)
  StoreResult disk db msg (db', raised) = (disk ≡ broken) × (db' ≡ db)

  retrieve-add_message :
      (id : ℕ) (msg : Message) (db : Database)
      → has_hash msg.hash db.messages ≡ false
      → user_of db.owners id ≡ some msg.pubkey
      → retrieve_by_hash (add_message ids id msg db) msg.hash ≡ some msg
  unfolding retrieve_by_hash joined add_message
  retrieve-add_message id msg db h u =
      rw (find_if-append db.messages (new_row ids id msg db) h, retrieve_by_hash) (rw (u, joined))

  -- `store` answers "inserted" exactly if the hash is new and the database does not fail; then the
  -- message is read back by its hash. With any other answer the database is unchanged: the hash was
  -- there, the disk is full, or the database threw.
  pub store_lem :
      (disk : Disk) (db : Database) (msg : Message)
      → WellFormed db
      → StoreResult disk db msg (store ids disk db msg)
  unfolding store
  store_lem full db msg w = (refl, refl)
  store_lem broken db msg w = (refl, refl)
  store_lem fine db msg w = elim (Bool-cases (has_hash msg.hash db.messages)) [
    | inl t ↦ rw t (t, refl)
    | inr f ↦
        let (id, e) = find_owner-add_owner msg.pubkey db in
        let w' = add_owner-WellFormed msg.pubkey db w in
        let u = user_of-find_owner _ msg.pubkey id w'.users e in
        let new : has_hash msg.hash (add_owner ids msg.pubkey db).messages ≡ false =
          rw (messages-add_owner msg.pubkey db) f in
        rw (f, e)
          (
            f,
            add_message-WellFormed id msg _ w' (msg.pubkey, u) new,
            retrieve-add_message id msg _ new u,
          )
  ]

  -- What the second loop of bulk_store may rely on.
  abbrev SeenOwned : List (UserPubkey × ℕ) → Database → Type 0
  SeenOwned seen db =
      (user : UserPubkey) (id : ℕ) → find user seen ≡ some id → HasOwner db.owners id

  owners-add_owner :
      (user : UserPubkey) (db : Database) (id : ℕ)
      → HasOwner db.owners id
      → HasOwner (add_owner ids user db).owners id
  unfolding add_owner
  owners-add_owner user db id (u, h) = elim (Option-cases (find_owner db.owners user)) [
    | inr (j, e) ↦ (u, rw (e, add_owner) h)
    | inl e ↦ (u, rw (e, add_owner) (user_of-append db.owners id _ u h))
  ]

  emplace-SeenOwned :
      (user : UserPubkey) (id : ℕ) (seen : List (UserPubkey × ℕ)) (db : Database)
      → HasOwner db.owners id
      → SeenOwned seen db
      → SeenOwned (emplace user id seen) db
  emplace-SeenOwned user id seen db h s k j f = elim (Option-cases (find k seen)) [
    | inr (i, g) ↦ s k j (g ∙ sym (rw g at (find-emplace user k id seen)) ∙ f)
    | inl g ↦
        let same : id ≡ j = ground (arith, find-emplace user k id seen) in
        subst (HasOwner db.owners) same h
  ]

  abbrev Kept : List (UserPubkey × ℕ) × Database → Type 0
  Kept (seen, db) = WellFormed db × SeenOwned seen db

  bulk_owner-Kept :
      (m : Message) (seen : List (UserPubkey × ℕ)) (db : Database)
      → Kept (seen, db)
      → Kept (bulk_owner ids m (seen, db))
  bulk_owner-Kept m seen db (w, s) = elim (Bool-cases (is_valid m.pubkey)) [
    | inr f ↦ unfold bulk_owner in rw f (w, s)
    | inl t ↦ elim (Option-cases (find m.pubkey seen)) [
      | inr (id, e) ↦ unfold bulk_owner in rw t (rw e (w, s))
      | inl e ↦
          let (id, g) = find_owner-add_owner m.pubkey db in
          let w' = add_owner-WellFormed m.pubkey db w in
          let own = user_of-find_owner _ m.pubkey id w'.users g in
          unfold bulk_owner in
          rw t (
            rw e (
              rw g (
                w',
                emplace-SeenOwned m.pubkey id seen (add_owner ids m.pubkey db) (m.pubkey, own)
                    (λ u j f. owners-add_owner m.pubkey db j (s u j f)),
              )))
    ]
  ]

  bulk_owners_lem :
      (ms : List Message) (state : List (UserPubkey × ℕ) × Database)
      → Kept state
      → Kept (bulk_owners ids ms state)
  unfolding bulk_owners
  bulk_owners_lem [] state h = h
  bulk_owners_lem (m ∷ ms) (seen, db) (w, s) =
      bulk_owners_lem ms (bulk_owner ids m (seen, db)) (bulk_owner-Kept m seen db (w, s))

  bulk_messages-WellFormed :
      (ms : List Message) (seen : List (UserPubkey × ℕ)) (db : Database)
      → SeenOwned seen db
      → WellFormed db
      → WellFormed (bulk_messages ids ms seen db)
  unfolding bulk_messages
  bulk_messages-WellFormed [] seen db s w = w
  bulk_messages-WellFormed (m ∷ ms) seen db s w = elim (Bool-cases (is_valid m.pubkey)) [
    | inr f ↦ rw f (bulk_messages-WellFormed ms seen db s w)
    | inl t ↦ elim (Option-cases (find m.pubkey seen)) [
      | inl e ↦ rw (t, e) (bulk_messages-WellFormed ms seen db s w)
      | inr (id, e) ↦ elim (Bool-cases (has_hash m.hash db.messages)) [
        | inl old ↦ rw (t, e, old) (bulk_messages-WellFormed ms seen db s w)
        | inr new ↦
            rw (t, e, new)
              (bulk_messages-WellFormed ms seen _ (unfold add_message in s)
                (add_message-WellFormed id m db w (s m.pubkey id e) new))
      ]
    ]
  ]

  -- A bulk insertion keeps the database well formed.
  bulk_store-WellFormed :
      (disk : Disk) (db : Database) (items : List Message)
      → WellFormed db
      → WellFormed (bulk_store ids disk db items)
  unfolding bulk_store
  bulk_store-WellFormed full db items w = w
  bulk_store-WellFormed broken db items w = w
  bulk_store-WellFormed fine db items w =
      let (w', s) = bulk_owners_lem items ([], db) (w, λ u i f. unfold find in cc) in
      bulk_messages-WellFormed items _ _ s w'
