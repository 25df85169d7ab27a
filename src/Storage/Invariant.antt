-- ===== src/Storage/Invariant.antt =====
-- The well-formedness of the database, which every operation keeps.
use beldex_storage_server.Prelude.{
  ℕ, ◌<◌, ◌≡◌, ◌≢◌, refl, sym, ◌∙◌, subst, Bool, false, not, some, List, [], ◌∷◌, arith, In, ◌==◌,
  nat_eq, bytes_eq, select, any_of, Pairwise, select-Pairwise, In-select, Bool-cases, inl, inr,
  any_of-none, if◌then◌else◌,
}
use beldex_storage_server.Common.{UserPubkey, pubkey_eq}
use beldex_storage_server.Storage.{
  OwnerRow, MessageRow, Database, empty, user_of, owner_autoclean, delete_rows, delete_where,
  set_expiry, update_where,
}

-- Earlier rows have smaller ids, and no two rows share a hash.
abbrev pub Earlier : MessageRow → MessageRow → Type 0
Earlier a b = (a.id < b.id) × (a.hash ≢ b.hash)

abbrev pub OtherOwner : OwnerRow → OwnerRow → Type 0
OtherOwner a b = (a.id ≢ b.id) × (a.user ≢ b.user)

abbrev pub HasOwner : List OwnerRow → ℕ → Type 0
HasOwner owners id = (user : UserPubkey) × (user_of owners id ≡ some user)

pub record WellFormed (db : Database) : Type 0 where
  pub rows : Pairwise Earlier db.messages
  pub users : Pairwise OtherOwner db.owners
  pub owned : (m : MessageRow) → In m db.messages → HasOwner db.owners m.owner

pub empty-WellFormed : WellFormed empty
empty-WellFormed = record { rows = tt; users = tt; owned = λ m i. absurd i }

select-WellFormed :
    (db : Database) (p : MessageRow → Bool)
    → WellFormed db
    → WellFormed (record db { messages = select p db.messages })
select-WellFormed db p w = record {
  rows = select-Pairwise Earlier p db.messages w.rows;
  users = w.users;
  owned = λ m i. w.owned m (In-select m p db.messages i).0;
}

-- The owner of another row is not cleaned away.
user_of-select :
    (owner id : ℕ) (os : List OwnerRow)
    → (id == owner) ≡ false
    → user_of (select (λ o. not (o.id == owner)) os) id ≡ user_of os id
unfolding user_of
user_of-select owner id [] h = refl
user_of-select owner id (o ∷ os) h = elim (Bool-cases (o.id == owner)) [
  | inl t ↦ ground (arith, user_of-select owner id os h)
  | inr f ↦ rw f (ground (arith, user_of-select owner id os h))
]

owner_autoclean-WellFormed :
    (owner : ℕ) (db : Database) → WellFormed db → WellFormed (owner_autoclean owner db)
unfolding owner_autoclean
owner_autoclean-WellFormed owner db w =
    elim (Bool-cases (any_of (λ m. m.owner == owner) db.messages)) [
      | inl t ↦ rw t w
      | inr f ↦ rw f (record {
        rows = w.rows;
        users = select-Pairwise OtherOwner _ db.owners w.users;
        owned = λ m i.
            let (user, e) = w.owned m i in
            (user, user_of-select owner m.owner db.owners (any_of-none _ db.messages m f i) ∙ e);
      })
    ]

pub delete_rows-WellFormed :
    (rows : List MessageRow) (db : Database) → WellFormed db → WellFormed (delete_rows rows db)
unfolding delete_rows
delete_rows-WellFormed [] db w = w
delete_rows-WellFormed (row ∷ rows) db w =
    delete_rows-WellFormed rows _
      (owner_autoclean-WellFormed row.owner _ (select-WellFormed db _ w))

delete_where-WellFormed :
    (p : MessageRow → Bool) (db : Database) → WellFormed db → WellFormed (delete_where p db).0
unfolding delete_where
delete_where-WellFormed p db w = delete_rows-WellFormed (select p db.messages) db w

-- An update of the expiry keeps the id, the hash and the owner of each row.
pub In-set_expiry :
    (new_exp : ℕ) (p : MessageRow → Bool) (m : MessageRow) (ms : List MessageRow)
    → In m (set_expiry new_exp p ms)
    → (old : MessageRow) × In old ms
      × (m ≡ (if p old then record old { expiry = new_exp } else old))
unfolding set_expiry
In-set_expiry new_exp p m [] i = absurd i
In-set_expiry new_exp p m (x ∷ ms) (inl e) = (x, inl refl, e)
In-set_expiry new_exp p m (x ∷ ms) (inr i) =
    let (old, j, e) = In-set_expiry new_exp p m ms i in (old, inr j, e)

set_expiry-Pairwise :
    (new_exp : ℕ) (p : MessageRow → Bool) (ms : List MessageRow)
    → Pairwise Earlier ms
    → Pairwise Earlier (set_expiry new_exp p ms)
unfolding set_expiry
set_expiry-Pairwise new_exp p [] h = tt
set_expiry-Pairwise new_exp p (x ∷ ms) h = (
  λ y i.
      let (old, j, e) = In-set_expiry new_exp p y ms i in
      let (lt, ne) = h.0 old j in (ground arith, λ q. ne (ground arith)),
  set_expiry-Pairwise new_exp p ms h.1,
)

update_where-WellFormed :
    (new_exp : ℕ) (p : MessageRow → Bool) (db : Database)
    → WellFormed db
    → WellFormed (update_where new_exp p db).0
unfolding update_where
update_where-WellFormed new_exp p db w = record {
  rows = set_expiry-Pairwise new_exp p db.messages w.rows;
  users = w.users;
  owned = λ m i.
      let (old, j, e) = In-set_expiry new_exp p m db.messages i in
      let same : m.owner ≡ old.owner = ground arith in
      subst (HasOwner db.owners) (sym same) (w.owned old j);
}
