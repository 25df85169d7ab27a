-- ===== src/Storage.antt =====
-- storage/src/Database.cpp: the message database. The SQL of the source is translated to functions
-- on its two tables; a table is the list of its rows in rowid order, the order in which SQLite scans
-- it. What the source leaves to SQLite is a parameter: the rowid of a new row (`RowIds`), whether a
-- write meets a full disk or another error (`Disk`), and the row that ORDER BY RANDOM() picks.
pub mod Invariant
pub mod Store
pub mod Delete
pub mod Expiry
use beldex_storage_server.Prelude.{
  ℕ, ◌+◌, ◌<◌, ◌≤◌, ◌≡◌, Bool, true, false, not, ◌&&◌, Option, none, some, List, [], ◌∷◌, ◌++◌,
  arith, In, ltb, leb, ◌==◌, nat_eq, bytes_eq, Bytes, length, take, select, any_of, find_if, find,
  emplace, map, if◌then◌else◌,
}
use beldex_storage_server.Common.{UserPubkey, Message, invalid_pubkey, is_valid, pubkey_eq}

-- CREATE TABLE owners; the type and the key together are a `UserPubkey`.
pub record OwnerRow : Type 0 where
  pub id : ℕ
  pub user : UserPubkey

-- CREATE TABLE messages
pub record MessageRow : Type 0 where
  pub id : ℕ
  pub hash : Bytes
  pub owner : ℕ
  pub timestamp : ℕ
  pub expiry : ℕ
  pub payload : Bytes

pub record Database : Type 0 where
  pub owners : List OwnerRow
  pub messages : List MessageRow

abbrev pub empty : Database
empty = record { owners = []; messages = [] }

-- The id of a new row, from those in the table: SQLite takes one above them all.
pub record RowIds : Type 0 where
  pub next : List ℕ → ℕ
  pub above : (ids : List ℕ) (i : ℕ) → In i ids → i < next ids

pub data Disk : Type 0 where
  fine full broken : Disk

-- SELECT id FROM owners WHERE pubkey = ? AND type = ?
unfoldable pub find_owner : List OwnerRow → UserPubkey → Option ℕ
find_owner [] user = none
find_owner (o ∷ os) user = if o.user == user then some o.id else find_owner os user

abbrev pub owner_ids : Database → List ℕ
owner_ids db = map (λ o. o.id) db.owners

abbrev pub message_ids : Database → List ℕ
message_ids db = map (λ m. m.id) db.messages

abbrev pub has_hash : Bytes → List MessageRow → Bool
has_hash hash = any_of (λ m. m.hash == hash)

-- The trigger owner_autoclean, after the deletion of a row of `owner`.
pub owner_autoclean : ℕ → Database → Database
owner_autoclean owner db =
    if any_of (λ m. m.owner == owner) db.messages
    then db
    else record db { owners = select (λ o. not (o.id == owner)) db.owners }

-- A deletion fires the trigger for each row that it removes.
pub delete_rows : List MessageRow → Database → Database
unfolding owner_autoclean
delete_rows [] db = db
delete_rows (row ∷ rows) db = delete_rows rows (
    owner_autoclean row.owner
      (record db { messages = select (λ m. not (m.id == row.id)) db.messages }))

-- DELETE FROM messages WHERE ... RETURNING hash
pub delete_where : (MessageRow → Bool) → Database → Database × List Bytes
unfolding delete_rows
delete_where p db = let rows = select p db.messages in (delete_rows rows db, map (λ m. m.hash) rows)

-- `owner = (SELECT id FROM owners WHERE pubkey = ? AND type = ?)`; no owner gives NULL, which is
-- equal to nothing.
unfoldable pub owned_by : Database → UserPubkey → MessageRow → Bool
unfolding find_owner
owned_by db user m = elim (find_owner db.owners user) [ none ↦ false | some id ↦ m.owner == id ]

unfoldable pub clean_expired : Database → ℕ → Database
unfolding delete_where
clean_expired db now = (delete_where (λ m. leb m.expiry now) db).0

unfoldable pub get_message_count : Database → ℕ
get_message_count db = length db.messages

unfoldable pub get_owner_count : Database → ℕ
get_owner_count db = length db.owners

-- The user of an owner id, in the join of owned_messages.
unfoldable pub user_of : List OwnerRow → ℕ → Option UserPubkey
user_of [] id = none
user_of (o ∷ os) id = if o.id == id then some o.user else user_of os id

-- A row of owned_messages as a message; `load_pubkey` rebuilds the key.
pub joined : Database → MessageRow → Option Message
unfolding user_of
joined db m = elim (user_of db.owners m.owner) [
  | none ↦ none
  | some user ↦ some (record {
    pubkey = user;
    hash = m.hash;
    timestamp = m.timestamp;
    expiry = m.expiry;
    payload = m.payload;
  })
]

unfoldable pub retrieve_by_hash : Database → Bytes → Option Message
unfolding joined
retrieve_by_hash db msg_hash = elim (find_if (λ m. m.hash == msg_hash) db.messages) [
  | none ↦ none
  | some m ↦ joined db m
]

-- `pick` is the row that the subquery ORDER BY RANDOM() LIMIT 1 gives.
unfoldable pub retrieve_random :
    (List MessageRow → Option MessageRow) → Database → ℕ → Database × Option Message
unfolding clean_expired joined
retrieve_random pick db now =
    let db' = clean_expired db now in
    (db', elim (pick db'.messages) [ none ↦ none | some m ↦ joined db' m ])

-- INSERT INTO owners ... ON CONFLICT DO NOTHING
pub add_owner : RowIds → UserPubkey → Database → Database
unfolding find_owner
add_owner ids user db = elim (find_owner db.owners user) [
  | some id ↦ db
  | none ↦ record db {
    owners = db.owners ++ record { id = ids.next (owner_ids db); user = user } ∷ [];
  }
]

abbrev pub new_row : RowIds → ℕ → Message → Database → MessageRow
new_row ids owner msg db = record {
  id = ids.next (message_ids db);
  hash = msg.hash;
  owner = owner;
  timestamp = msg.timestamp;
  expiry = msg.expiry;
  payload = msg.payload;
}

-- INSERT INTO messages
pub add_message : RowIds → ℕ → Message → Database → Database
add_message ids owner msg db = record db { messages = db.messages ++ new_row ids owner msg db ∷ [] }

-- What `store` returns, or that it throws.
pub data Stored : Type 0 where
  inserted already_there db_full raised : Stored

-- The INSERT into the view fires owned_messages_insert. A conflict on the hash undoes the whole
-- statement, the new owner included.
unfoldable pub store : RowIds → Disk → Database → Message → Database × Stored
store ids full db msg = (db, db_full)
store ids broken db msg = (db, raised)
store ids fine db msg =
    if has_hash msg.hash db.messages
    then (db, already_there)
    else (let with_owner = add_owner ids msg.pubkey db in
        elim (find_owner with_owner.owners msg.pubkey) [
          | some id ↦ (add_message ids id msg with_owner, inserted)
          | none ↦ (db, raised)
        ])

-- A round of the first loop of bulk_store: the owner id of a valid key, added where it is missing.
pub bulk_owner :
    RowIds → Message → List (UserPubkey × ℕ) × Database → List (UserPubkey × ℕ) × Database
bulk_owner ids m (seen, db) =
    if not (is_valid m.pubkey) then (seen, db) else elim (find m.pubkey seen) [
      | some id ↦ (seen, db)
      | none ↦
          let db' = add_owner ids m.pubkey db in
          elim (find_owner db'.owners m.pubkey) [
            | some id ↦ (emplace m.pubkey id seen, db')
            | none ↦ (seen, db')
          ]
    ]

pub bulk_owners :
    RowIds → List Message → List (UserPubkey × ℕ) × Database → List (UserPubkey × ℕ) × Database
bulk_owners ids [] state = state
bulk_owners ids (m ∷ ms) state = bulk_owners ids ms (bulk_owner ids m state)

-- The second loop: INSERT INTO messages ... ON CONFLICT DO NOTHING
pub bulk_messages : RowIds → List Message → List (UserPubkey × ℕ) → Database → Database
bulk_messages ids [] seen db = db
bulk_messages ids (m ∷ ms) seen db = bulk_messages ids ms seen (
    if not (is_valid m.pubkey) then db else elim (find m.pubkey seen) [
      | none ↦ db
      | some id ↦ if has_hash m.hash db.messages then db else add_message ids id m db
    ])

-- The transaction rolls back where a statement throws.
unfoldable pub bulk_store : RowIds → Disk → Database → List Message → Database
bulk_store ids fine db items =
    let (seen, db') = bulk_owners ids items ([], db) in bulk_messages ids items seen db'
bulk_store ids disk db items = db

-- A message that `retrieve` returns has no key.
abbrev pub unowned : MessageRow → Message
unowned m = record {
  pubkey = invalid_pubkey;
  hash = m.hash;
  timestamp = m.timestamp;
  expiry = m.expiry;
  payload = m.payload;
}

-- LIMIT ?, where a missing limit is bound as -1.
abbrev pub limited {ℓ} : {A : Type ℓ} → Option ℕ → List A → List A
limited none xs = xs
limited (some n) xs = take n xs

-- SELECT id FROM messages WHERE owner = ? AND hash = ?
pub find_last : List MessageRow → ℕ → Bytes → Option ℕ
find_last [] owner hash = none
find_last (m ∷ ms) owner hash =
    if m.owner == owner && m.hash == hash then some m.id else find_last ms owner hash

unfoldable pub retrieve : Database → UserPubkey → Bytes → Option ℕ → List Message
unfolding find_owner find_last
retrieve db pubkey last_hash num_results = elim (find_owner db.owners pubkey) [
  | none ↦ []
  | some owner ↦
      let last_id : Option ℕ = elim last_hash [
        | [] ↦ none
        | b ∷ bs ↦ find_last db.messages owner (b ∷ bs)
      ] in
      let rows : List MessageRow = elim last_id [
        | none ↦ select (λ m. m.owner == owner) db.messages
        | some last ↦ select (λ m. m.owner == owner && ltb last m.id) db.messages
      ] in
      map unowned (limited num_results rows)
]

pub retrieve_rows : Database → List MessageRow → List Message
unfolding joined
retrieve_rows db [] = []
retrieve_rows db (m ∷ ms) =
    let rest = retrieve_rows db ms in elim (joined db m) [ none ↦ rest | some msg ↦ msg ∷ rest ]

unfoldable pub retrieve_all : Database → List Message
unfolding retrieve_rows
retrieve_all db = retrieve_rows db db.messages

unfoldable pub delete_all : Database → UserPubkey → Database × List Bytes
unfolding delete_where owned_by
delete_all db pubkey = delete_where (owned_by db pubkey) db

-- `hash IN (?,...)`; the statement for a single hash has the same meaning.
abbrev pub listed : List Bytes → MessageRow → Bool
listed hashes m = any_of (λ h. m.hash == h) hashes

unfoldable pub delete_by_hash : Database → UserPubkey → List Bytes → Database × List Bytes
unfolding delete_where owned_by
delete_by_hash db pubkey msg_hashes =
    delete_where (λ m. owned_by db pubkey m && listed msg_hashes m) db

unfoldable pub delete_by_timestamp : Database → UserPubkey → ℕ → Database × List Bytes
unfolding delete_where owned_by
delete_by_timestamp db pubkey timestamp =
    delete_where (λ m. owned_by db pubkey m && leb m.timestamp timestamp) db

-- UPDATE messages SET expiry = ? WHERE ... RETURNING hash
unfoldable pub set_expiry : ℕ → (MessageRow → Bool) → List MessageRow → List MessageRow
set_expiry new_exp p [] = []
set_expiry new_exp p (m ∷ ms) =
    (if p m then record m { expiry = new_exp } else m) ∷ set_expiry new_exp p ms

unfoldable pub update_where : ℕ → (MessageRow → Bool) → Database → Database × List Bytes
unfolding set_expiry
update_where new_exp p db = (
  record db { messages = set_expiry new_exp p db.messages },
  map (λ m. m.hash) (select p db.messages),
)

unfoldable pub update_expiry : Database → UserPubkey → List Bytes → ℕ → Database × List Bytes
unfolding update_where owned_by
update_expiry db pubkey msg_hashes new_exp =
    update_where new_exp
      (λ m. ltb new_exp m.expiry && (owned_by db pubkey m && listed msg_hashes m)) db

unfoldable pub update_all_expiries : Database → UserPubkey → ℕ → Database × List Bytes
unfolding update_where owned_by
update_all_expiries db pubkey new_exp =
    update_where new_exp (λ m. ltb new_exp m.expiry && owned_by db pubkey m) db
