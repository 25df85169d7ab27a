-- ===== src/Storage/Expiry.antt =====
-- Updates of the expiry only shorten it.
use beldex_storage_server.Prelude.{
  ℕ, ◌<◌, ◌≡◌, Bool, true, false, ◌&&◌, ◌⊎◌, List, arith, In, nat_eq, bytes_eq, Bytes, ltb,
  Bool-cases, inl, inr, if◌then◌else◌,
}
use beldex_storage_server.Common.{UserPubkey}
use beldex_storage_server.Storage.{
  MessageRow, Database, owned_by, listed, update_where, update_expiry, update_all_expiries,
}
use beldex_storage_server.Storage.Invariant.{In-set_expiry}

-- A row after an update: a row from before, unchanged because `p` does not select it or its expiry is
-- no later than the new one, or with its later expiry reduced to the new one because `p` selects it.
abbrev pub Shortened : (MessageRow → Bool) → ℕ → MessageRow → MessageRow → Type 0
Shortened p new_exp old m =
    ((m ≡ old) × ((ltb new_exp old.expiry && p old) ≡ false))
    ⊎ ((m ≡ record old { expiry = new_exp }) × (new_exp < old.expiry) × (p old ≡ true))

shortened :
    (p : MessageRow → Bool) (new_exp : ℕ) (old m : MessageRow)
    → m ≡ (if ltb new_exp old.expiry && p old then record old { expiry = new_exp } else old)
    → Shortened p new_exp old m
shortened p new_exp old m e = elim (Bool-cases (ltb new_exp old.expiry && p old)) [
  | inl t ↦ inr (ground arith)
  | inr f ↦ inl (ground arith)
]

-- update_expiry never extends an expiry: every row afterwards is a row from before, where those of the
-- user that have a listed hash and a later expiry now expire at the new time, and all others are as
-- they were.
update_expiry-Shortened :
    (db : Database) (user : UserPubkey) (hashes : List Bytes) (new_exp : ℕ) (m : MessageRow)
    → In m (update_expiry db user hashes new_exp).0.messages
    → (old : MessageRow) × In old db.messages
      × Shortened (λ x. owned_by db user x && listed hashes x) new_exp old m
unfolding update_expiry update_where
update_expiry-Shortened db user hashes new_exp m i =
    let (old, j, e) =
      In-set_expiry new_exp
        (λ (x : MessageRow). ltb new_exp x.expiry && (owned_by db user x && listed hashes x)) m
        db.messages i in
    (old, j, shortened (λ (x : MessageRow). owned_by db user x && listed hashes x) new_exp old m e)

-- update_all_expiries never extends an expiry: every row afterwards is a row from before, where those
-- of the user with a later expiry now expire at the new time, and all others are as they were.
update_all_expiries-Shortened :
    (db : Database) (user : UserPubkey) (new_exp : ℕ) (m : MessageRow)
    → In m (update_all_expiries db user new_exp).0.messages
    → (old : MessageRow) × In old db.messages × Shortened (owned_by db user) new_exp old m
unfolding update_all_expiries update_where
update_all_expiries-Shortened db user new_exp m i =
    let (old, j, e) =
      In-set_expiry new_exp (λ (x : MessageRow). ltb new_exp x.expiry && owned_by db user x) m
        db.messages i in
    (old, j, shortened (owned_by db user) new_exp old m e)
