-- ===== src/Examples/Data.antt =====
-- A concrete database, and a concrete hex coding.
use beldex_storage_server.Prelude.{
  ◌≡◌, ◌≢◌, inl, inr, not, ◌&&◌, [], ◌∷◌, arith, refl, ap, ◌∙◌, In, map, select, Bytes, nat_eq,
  bytes_eq, ne_of_==, bytes_beq, leb,
}
use beldex_storage_server.Common.{UserPubkey, pubkey_eq}
use beldex_storage_server.Storage.{
  MessageRow, Database, empty, fine, store, user_of, owned_by, listed, delete_all, delete_by_hash,
  delete_by_timestamp,
}
use beldex_storage_server.Storage.Invariant.{WellFormed, Earlier, HasOwner, empty-WellFormed}
use beldex_storage_server.Storage.Store.{StoreResult, store_lem}
use beldex_storage_server.Storage.Delete.{deletions_lem}
use beldex_storage_server.Examples.Concrete.{user, ids, message}

store_example : StoreResult ids fine empty message (store ids fine empty message)
store_example = store_lem ids fine empty message empty-WellFormed

abbrev row : MessageRow
row = record { id = 1; hash = 1 ∷ []; owner = 1; timestamp = 100; expiry = 900; payload = [] }

abbrev row' : MessageRow
row' = record { id = 2; hash = 2 ∷ []; owner = 1; timestamp = 300; expiry = 400; payload = [] }

abbrev filled : Database
filled = record { owners = record { id = 1; user = user 5 } ∷ []; messages = row ∷ row' ∷ [] }

ones : ◌≢◌ {A = Bytes} (1 ∷ []) (2 ∷ [])
unfolding bytes_beq
ones = ne_of_== {A = Bytes} ⦃e = bytes_eq⦄ (1 ∷ []) (2 ∷ []) refl

later : (y : MessageRow) → In y (row' ∷ []) → Earlier row y
later y (inl e) = (omega (arith, ap (λ r. r.id) e), λ h. ones (h ∙ ap (λ r. r.hash) e))
later y (inr i) = absurd i

owner-there : (m : MessageRow) → In m (row ∷ row' ∷ []) → HasOwner filled.owners m.owner
unfolding user_of
owner-there m (inl e) = (user 5, ap (λ r. user_of filled.owners r.owner) e)
owner-there m (inr (inl e)) = (user 5, ap (λ r. user_of filled.owners r.owner) e)
owner-there m (inr (inr i)) = absurd i

filled-WellFormed : WellFormed filled
filled-WellFormed = record {
  rows = (λ y i. later y i, (λ y i. absurd i, tt));
  users = (λ y i. absurd i, tt);
  owned = λ m i. owner-there m i;
}

abbrev owner : UserPubkey
owner = user 5

deletions_example :
    ((delete_all filled owner).0.messages
      ≡ select (λ m. not (owned_by filled owner m)) filled.messages)
    × ((delete_all filled owner).1
        ≡ map (λ m. m.hash) (select (owned_by filled owner) filled.messages))
    × ((delete_by_hash filled owner ((2 ∷ []) ∷ [])).0.messages
        ≡ select (λ m. not (owned_by filled owner m && listed ((2 ∷ []) ∷ []) m)) filled.messages)
    × ((delete_by_hash filled owner ((2 ∷ []) ∷ [])).1
        ≡ map
            (λ m. m.hash)
            (select (λ m. owned_by filled owner m && listed ((2 ∷ []) ∷ []) m) filled.messages))
    × ((delete_by_timestamp filled owner 200).0.messages
        ≡ select (λ m. not (owned_by filled owner m && leb m.timestamp 200)) filled.messages)
    × ((delete_by_timestamp filled owner 200).1
        ≡ map
            (λ m. m.hash)
            (select (λ m. owned_by filled owner m && leb m.timestamp 200) filled.messages))
deletions_example = deletions_lem filled owner ((2 ∷ []) ∷ []) 200 filled-WellFormed
