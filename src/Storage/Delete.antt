-- ===== src/Storage/Delete.antt =====
-- What the deletions remove, and what they leave.
use beldex_storage_server.Prelude.{
  ℕ, ◌≡◌, refl, sym, ap, ◌∙◌, Bool, false, not, ◌&&◌, List, [], ◌∷◌, arith, In, ◌==◌, nat_eq,
  bytes_eq, Bytes, select, any_of, any_of-false, Pairwise, In-select, select-select, select-cong,
  select-all, map, leb, Bool-cases, inl, inr, ==_refl,
}
use beldex_storage_server.Common.{UserPubkey}
use beldex_storage_server.Storage.{
  MessageRow, Database, owner_autoclean, delete_rows, delete_where, owned_by, listed, clean_expired,
  delete_all, delete_by_hash, delete_by_timestamp,
}
use beldex_storage_server.Storage.Invariant.{Earlier, WellFormed}

messages-autoclean : (owner : ℕ) (db : Database) → (owner_autoclean owner db).messages ≡ db.messages
unfolding owner_autoclean
messages-autoclean owner db = ground arith

-- A deletion leaves the rows that have the id of no deleted row.
messages-delete_rows :
    (rows : List MessageRow) (db : Database)
    → (delete_rows rows db).messages
      ≡ select (λ m. not (any_of (λ r. m.id == r.id) rows)) db.messages
unfolding delete_rows
messages-delete_rows [] db = sym (select-all _ db.messages (λ x i. refl))
messages-delete_rows (row ∷ rows) db =
    messages-delete_rows rows (owner_autoclean row.owner left)
    ∙ ap (select (λ m. not (any_of (λ r. m.id == r.id) rows))) (messages-autoclean row.owner left)
    ∙ select-select _ _ db.messages
    ∙ select-cong
        (λ (m : MessageRow). not (m.id == row.id) && not (any_of (λ r. m.id == r.id) rows))
        (λ (m : MessageRow). not (any_of (λ r. m.id == r.id) (row ∷ rows))) db.messages
        (λ m i. ground arith)
  where
    left : Database
    left = record db { messages = select (λ m. not (m.id == row.id)) db.messages }

-- Rows with equal ids are the same row, so a row is deleted exactly if it was selected.
ids-select :
    (p : MessageRow → Bool) (ms : List MessageRow) (m : MessageRow)
    → Pairwise Earlier ms
    → In m ms
    → any_of (λ (r : MessageRow). m.id == r.id) (select p ms) ≡ p m
ids-select p [] m h i = absurd i
ids-select p (x ∷ ms) m h (inl e) = elim (Bool-cases (p x)) [
  | inl t ↦ rw (e, t) (rw (==_refl x.id))
  | inr f ↦
      rw (e, f)
        (any_of-false (λ (r : MessageRow). x.id == r.id) (select p ms)
          (λ r j. let lt = (h.0 r (In-select r p ms j).0).0 in ground arith))
]
ids-select p (x ∷ ms) m h (inr i) = elim (Bool-cases (p x)) [
  | inl t ↦
      let lt = (h.0 m i).0 in
      let other : (m.id == x.id) ≡ false = ground arith in rw (t, other) (ids-select p ms m h.1 i)
  | inr f ↦ rw f (ids-select p ms m h.1 i)
]

-- DELETE removes exactly the rows that it selects, and returns their hashes.
pub delete_where_lem :
    (p : MessageRow → Bool) (db : Database)
    → WellFormed db
    → ((delete_where p db).0.messages ≡ select (λ m. not (p m)) db.messages)
      × ((delete_where p db).1 ≡ map (λ m. m.hash) (select p db.messages))
unfolding delete_where
delete_where_lem p db w = (
  messages-delete_rows (select p db.messages) db
      ∙ select-cong _ _ db.messages (λ m i. ap not (ids-select p db.messages m w.rows i)),
  refl,
)

-- Each deletion of a user's messages (all of them, those with a listed hash, those up to a time)
-- leaves exactly the rows that are not the user's or not selected, in their order, and returns the
-- hashes of those that it removed.
pub deletions_lem :
    (db : Database) (user : UserPubkey) (hashes : List Bytes) (time : ℕ)
    → WellFormed db
    → ((delete_all db user).0.messages ≡ select (λ m. not (owned_by db user m)) db.messages)
      × ((delete_all db user).1 ≡ map (λ m. m.hash) (select (owned_by db user) db.messages))
      × ((delete_by_hash db user hashes).0.messages
          ≡ select (λ m. not (owned_by db user m && listed hashes m)) db.messages)
      × ((delete_by_hash db user hashes).1
          ≡ map (λ m. m.hash) (select (λ m. owned_by db user m && listed hashes m) db.messages))
      × ((delete_by_timestamp db user time).0.messages
          ≡ select (λ m. not (owned_by db user m && leb m.timestamp time)) db.messages)
      × ((delete_by_timestamp db user time).1
          ≡ map
              (λ m. m.hash)
              (select (λ m. owned_by db user m && leb m.timestamp time) db.messages))
unfolding delete_all delete_by_hash delete_by_timestamp
deletions_lem db user hashes time w =
    let (a, a') = delete_where_lem (owned_by db user) db w in
    let (b, b') = delete_where_lem (λ m. owned_by db user m && listed hashes m) db w in
    let (c, c') = delete_where_lem (λ m. owned_by db user m && leb m.timestamp time) db w in
    (a, a', b, b', c, c')

-- After the clean-up no message is left that has expired, and all others are.
clean_expired_lem :
    (db : Database) (now : ℕ)
    → WellFormed db
    → (clean_expired db now).messages ≡ select (λ m. not (leb m.expiry now)) db.messages
unfolding clean_expired
clean_expired_lem db now w = (delete_where_lem (λ m. leb m.expiry now) db w).0
