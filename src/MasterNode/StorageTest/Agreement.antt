-- ===== src/MasterNode/StorageTest/Agreement.antt =====
-- The nodes of a swarm choose the same tester and the same testee for a block.
use beldex_storage_server.Prelude.{
  ℕ, zero, suc, ◌≡◌, ◌≢◌, refl, sym, ap, ◌∙◌, Bool, true, false, not, Option, none, some, List, [],
  ◌∷◌, nat_eq, Bytes, ltb, length, take, map, select, In, Pairwise, Bool-cases, inl, inr, from_le,
}
use mathlib.Core.List.{map-append}
use beldex_storage_server.Keys.{LegacyPubkey}
use beldex_storage_server.Swarm.{MnRecord, same_mnode}
use beldex_storage_server.MasterNode.{Node}
use beldex_storage_server.MasterNode.StorageTest.Sorting.{
  key, insert_key, sort_keys, map-sort_members, length-sort_keys, sort_keys-snoc, sort_keys-without,
  map-select, length-map,
}
use beldex_storage_server.MasterNode.StorageTest.{
  sort_members, member_at, hash_at, Choice, nobody, spinning, chosen, draw_pair, choose, members_of,
  choose_by_hash, derive_tester_testee,
}

-- A node of a swarm with the members `ms`, as update_state leaves it.
pub record IsMember (node : Node) (ms : List MnRecord) : Type 0 where
  pub peers : node.swarm.swarm_peers ≡ select (λ mn. not (same_mnode mn node.swarm.our_address)) ms
  pub own : In (key node.swarm.our_address) (map key ms)

members-sorted :
    (node : Node) (ms : List MnRecord)
    → Pairwise ◌≢◌ (map key ms)
    → IsMember node ms
    → map key (sort_members (members_of node)) ≡ sort_keys (map key ms)
members-sorted node ms d m =
    let own = node.swarm.our_address in
    map-sort_members (members_of node)
    ∙ ap sort_keys (map-append key node.swarm.swarm_peers (own ∷ []))
    ∙ sort_keys-snoc (map key node.swarm.swarm_peers) (key own)
    ∙ ap (λ (ks : List ℕ). insert_key (key own) (sort_keys ks))
        (ap (map key) m.peers ∙ map-select (key own) ms)
    ∙ sort_keys-without (key own) (map key ms) d m.own

-- The two keys of a choice, and whether it was made.
pub keys_of : Choice → Option (LegacyPubkey × LegacyPubkey) × Bool
keys_of nobody = (none, true)
keys_of spinning = (none, false)
keys_of (chosen tester testee) = (some (key tester, key testee), true)

key_at : List ℕ → ℕ → Option ℕ
key_at [] i = none
key_at (k ∷ ks) zero = some k
key_at (k ∷ ks) (suc i) = key_at ks i

member_key : Option MnRecord → Option ℕ
member_key none = none
member_key (some mn) = some (key mn)

member_at-key : (ms : List MnRecord) (i : ℕ) → member_key (member_at ms i) ≡ key_at (map key ms) i
unfolding member_at key_at member_key
member_at-key [] i = refl
member_at-key (m ∷ ms) zero = refl
member_at-key (m ∷ ms) (suc i) = member_at-key ms i

pair_of : Option ℕ → Option ℕ → Option (ℕ × ℕ) × Bool
pair_of none j = (none, true)
pair_of (some a) none = (none, true)
pair_of (some a) (some b) = (some (a, b), true)

choose-keys :
    (ms : List MnRecord) (i j : ℕ)
    → keys_of (choose ms i j) ≡ pair_of (key_at (map key ms) i) (key_at (map key ms) j)
unfolding choose keys_of pair_of member_key
choose-keys ms i j =
    rw (sym (member_at-key ms i), sym (member_at-key ms j)) (go (member_at ms i) (member_at ms j))
  where
    go :
        (a b : Option MnRecord)
        → keys_of (elim a [
          | none ↦ nobody
          | some tester ↦ elim b [ none ↦ nobody | some testee ↦ chosen tester testee ]
        ])
          ≡ pair_of (member_key a) (member_key b)
    go none b = refl
    go (some a) none = refl
    go (some a) (some b) = refl

module _ (fuel : ℕ) (mt19937_64 : ℕ → ℕ → ℕ) where
  -- The choice depends on the sorted keys alone.
  choose_by_hash-keys :
      (xs ys : List MnRecord) (block_hash : Bytes)
      → map key (sort_members xs) ≡ map key (sort_members ys)
      → length xs ≡ length ys
      → keys_of (choose_by_hash fuel mt19937_64 xs block_hash)
        ≡ keys_of (choose_by_hash fuel mt19937_64 ys block_hash)
  unfolding choose_by_hash
  choose_by_hash-keys xs ys block_hash e l = elim (Bool-cases (ltb (length block_hash) 8)) [
    | inl short ↦ rw short refl
    | inr long ↦
        rw (long, l) (go (draw_pair fuel (mt19937_64 (from_le (take 8 block_hash))) (length ys)))
  ]
    where
      go :
          (pair : Option (ℕ × ℕ))
          → keys_of (elim pair [ none ↦ spinning | some (i, j) ↦ choose (sort_members xs) i j ])
            ≡ keys_of (elim pair [ none ↦ spinning | some (i, j) ↦ choose (sort_members ys) i j ])
      go none = refl
      go (some (i, j)) =
          choose-keys (sort_members xs) i j ∙ rw e (sym (choose-keys (sort_members ys) i j))

  members-length :
      (node : Node) (ms : List MnRecord)
      → Pairwise ◌≢◌ (map key ms)
      → IsMember node ms
      → length (members_of node) ≡ length ms
  members-length node ms d m =
      sym (length-map (members_of node))
      ∙ sym (length-sort_keys (map key (members_of node)))
      ∙ ap length (sym (map-sort_members (members_of node)) ∙ members-sorted node ms d m)
      ∙ length-sort_keys (map key ms)
      ∙ length-map ms

  -- Two nodes of a swarm whose members have different keys choose the same tester and the same testee
  -- for a block, by their keys, if they know the same hash of the block, or both know none.
  pub derive_tester_testee-agree :
      (a b : Node) (ms : List MnRecord) (blk_height : ℕ)
      → Pairwise ◌≢◌ (map key ms)
      → IsMember a ms
      → IsMember b ms
      → hash_at a blk_height ≡ hash_at b blk_height
      → keys_of (derive_tester_testee fuel mt19937_64 a blk_height)
        ≡ keys_of (derive_tester_testee fuel mt19937_64 b blk_height)
  unfolding derive_tester_testee
  derive_tester_testee-agree a b ms blk_height d x y h =
      let sorted = members-sorted a ms d x ∙ sym (members-sorted b ms d y) in
      let size = members-length a ms d x ∙ sym (members-length b ms d y) in
      rw (size, h)
        (elim (Bool-cases (ltb (length (members_of b)) 2)) [
          | inl few ↦ rw few refl
          | inr enough ↦ rw enough (go (hash_at b blk_height) sorted size)
        ])
    where
      go :
          (o : Option Bytes)
          → map key (sort_members (members_of a)) ≡ map key (sort_members (members_of b))
          → length (members_of a) ≡ length (members_of b)
          → keys_of (elim o [
            | none ↦ nobody
            | some hash ↦ choose_by_hash fuel mt19937_64 (members_of a) hash
          ])
            ≡ keys_of (elim o [
              | none ↦ nobody
              | some hash ↦ choose_by_hash fuel mt19937_64 (members_of b) hash
            ])
      go none e l = refl
      go (some hash) e l = choose_by_hash-keys (members_of a) (members_of b) hash e l
