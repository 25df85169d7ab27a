-- ===== src/MasterNode/StorageTest/Sorting.antt =====
-- The sort of the members of a swarm by their keys in httpserver/master_node.cpp, on the keys alone.
use beldex_storage_server.Prelude.{
  ℕ, suc, ◌≡◌, ◌≢◌, refl, ap, ◌∙◌, true, not, List, [], ◌∷◌, ◌++◌, ◌==◌, nat_eq, leb, length, map,
  select, select-all, In, Pairwise, arith, if◌then◌else◌, Bool-cases, inl, inr,
}
use beldex_storage_server.Keys.{LegacyPubkey}
use beldex_storage_server.Swarm.{MnRecord}
use beldex_storage_server.MasterNode.StorageTest.{insert_member, sort_members}

abbrev pub key : MnRecord → LegacyPubkey
key mn = mn.pubkey_legacy

-- The sort, on keys alone.
unfoldable pub insert_key : ℕ → List ℕ → List ℕ
insert_key k [] = k ∷ []
insert_key k (j ∷ js) = let rest = insert_key k js in if leb k j then k ∷ j ∷ js else j ∷ rest

unfoldable pub sort_keys : List ℕ → List ℕ
sort_keys [] = []
sort_keys (k ∷ ks) = insert_key k (sort_keys ks)

map-insert_member :
    (mn : MnRecord) (ms : List MnRecord)
    → map key (insert_member mn ms) ≡ insert_key (key mn) (map key ms)
unfolding insert_member insert_key
map-insert_member mn [] = refl
map-insert_member mn (m ∷ ms) = elim (Bool-cases (leb (key mn) (key m))) [
  | inl t ↦ rw t refl
  | inr f ↦ rw f (ap (◌∷◌ (key m)) (map-insert_member mn ms))
]

pub map-sort_members : (ms : List MnRecord) → map key (sort_members ms) ≡ sort_keys (map key ms)
unfolding sort_members sort_keys
map-sort_members [] = refl
map-sort_members (m ∷ ms) =
    map-insert_member m (sort_members ms) ∙ ap (insert_key (key m)) (map-sort_members ms)

insert_key_comm :
    (a b : ℕ) (ks : List ℕ) → insert_key a (insert_key b ks) ≡ insert_key b (insert_key a ks)
unfolding insert_key
insert_key_comm a b [] = ground arith
insert_key_comm a b (k ∷ ks) = ground (arith, insert_key_comm a b ks)

length-insert_key : (k : ℕ) (ks : List ℕ) → length (insert_key k ks) ≡ suc (length ks)
unfolding insert_key
length-insert_key k [] = refl
length-insert_key k (j ∷ js) = ground (arith, length-insert_key k js)

pub length-sort_keys : (ks : List ℕ) → length (sort_keys ks) ≡ length ks
unfolding sort_keys
length-sort_keys [] = refl
length-sort_keys (k ∷ ks) = omega (arith, length-insert_key k (sort_keys ks), length-sort_keys ks)

pub sort_keys-snoc : (ks : List ℕ) (k : ℕ) → sort_keys (ks ++ k ∷ []) ≡ insert_key k (sort_keys ks)
unfolding sort_keys
sort_keys-snoc [] k = refl
sort_keys-snoc (j ∷ js) k =
    ap (insert_key j) (sort_keys-snoc js k) ∙ insert_key_comm j k (sort_keys js)

abbrev pub without : ℕ → List ℕ → List ℕ
without a = select (λ k. not (k == a))

-- With its own key put back, a node sorts the keys of all members.
pub sort_keys-without :
    (a : ℕ) (ks : List ℕ)
    → Pairwise ◌≢◌ ks
    → In a ks
    → insert_key a (sort_keys (without a ks)) ≡ sort_keys ks
unfolding sort_keys
sort_keys-without a [] d i = absurd i
sort_keys-without a (k ∷ ks) d i = elim (Bool-cases (k == a)) [
  | inl t ↦
      let all : without a ks ≡ ks = select-all _ ks (λ j l. other j l t) in
      rw (t, all) (ap (λ c. insert_key c (sort_keys ks)) (ground arith))
  | inr f ↦ rw f (
      insert_key_comm a k (sort_keys (without a ks))
      ∙ ap (insert_key k)
          (sort_keys-without a ks d.1 (elim i [ inl e ↦ absurd (ground arith) | inr j ↦ j ])))
]
  where
    other : (j : ℕ) → In j ks → (k == a) ≡ true → not (j == a) ≡ true
    other j l t = let ne = d.0 j l in ground arith

pub map-select :
    (a : ℕ) (ms : List MnRecord)
    → map key (select (λ mn. not (key mn == a)) ms) ≡ without a (map key ms)
map-select a [] = refl
map-select a (m ∷ ms) = elim (Bool-cases (key m == a)) [
  | inl t ↦ rw t (map-select a ms)
  | inr f ↦ rw f (ap (◌∷◌ (key m)) (map-select a ms))
]

pub length-map : (ms : List MnRecord) → length (map key ms) ≡ length ms
length-map [] = refl
length-map (m ∷ ms) = ap suc (length-map ms)
