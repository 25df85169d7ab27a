-- ===== src/MasterNode/Update/Gated.antt =====
-- When a block update makes a node of httpserver/master_node.cpp send anything, and what it keeps.
use beldex_storage_server.Prelude.{
  if_of_true, if_of_false, ℕ, suc, ◌<◌, ◌≤◌, ◌≡◌, ◌≢◌, ◌⊎◌, refl, sym, ◌∙◌, Bool, true, false,
  Option, some, List, [], ◌∷◌, ◌==◌, nat_eq, bytes_eq, Bytes, length, arith, Bool-cases, inl, inr,
  ne_of_==, subst,
}
use beldex_storage_server.Common.{Hex}
use beldex_storage_server.Swarm.{BlockUpdate, derive_swarm_events}
use beldex_storage_server.Storage.{MessageRow}
use beldex_storage_server.Serialization.{Codec}
use beldex_storage_server.MasterNode.{Node, mnode_ready, block_hash_cache_size}
use beldex_storage_server.MasterNode.StorageTest.{initiate_peer_test}
use beldex_storage_server.MasterNode.Update.Kept.{
  SameBlock, Keeps, Keeps-and_then, spread-Keeps, initiate-Keeps,
}
use beldex_storage_server.MasterNode.Update.{
  trim_cache, cache_hash, take_height, take_block, take_state, and_then, spread, apply_block,
  on_swarm_update,
}

trim_cache-lt : (c : List (ℕ × Bytes)) → length (trim_cache c) < block_hash_cache_size
unfolding trim_cache
trim_cache-lt [] = omega arith
trim_cache-lt (p ∷ ps) = ground (arith, trim_cache-lt ps)

length-cache_hash :
    (height : ℕ) (hash : Bytes) (c : List (ℕ × Bytes))
    → length (cache_hash height hash c) ≤ suc (length c)
unfolding cache_hash
length-cache_hash height hash [] = omega arith
length-cache_hash height hash ((h, old) ∷ rest) = ground (arith, length-cache_hash height hash rest)

module _ (hex : Hex) (codec : Codec) (is_mainnet : Bool) where
  module _ (fuel : ℕ) (mt19937_64 : ℕ → ℕ → ℕ) (pick : List MessageRow → Option MessageRow)
      (now : ℕ) where
    -- What an update does to the cache of hashes and to the outbox.
    abbrev pub Gated : BlockUpdate → Node → Node → Type 0
    Gated bu node node' =
        (length node'.block_hashes_cache ≤ block_hash_cache_size)
        × ((node'.outbox ≡ node.outbox)
            ⊎ ((node'.syncing ≡ false)
                × (node'.block_hash ≡ bu.block_hash)
                × (node'.block_height ≡ bu.height)
                × (bu.block_hash ≢ node.block_hash)
                × (mnode_ready (take_block bu (take_height bu node)) ≡ true)))

    cache-le :
        (bu : BlockUpdate) (node : Node)
        → length (take_block bu node).block_hashes_cache ≤ block_hash_cache_size
    unfolding take_block
    cache-le bu node = omega (
      arith,
      trim_cache-lt node.block_hashes_cache,
      length-cache_hash bu.height bu.block_hash (trim_cache node.block_hashes_cache),
    )

    apply_block-Gated :
        (bu : BlockUpdate) (node node' : Node)
        → (take_height bu node).syncing ≡ false
        → (bu.block_hash == node.block_hash) ≡ false
        → apply_block hex codec is_mainnet fuel mt19937_64 pick now bu (take_height bu node)
          ≡ some node'
        → Gated bu node node'
    unfolding apply_block take_state
    apply_block-Gated bu node node' s n h =
        elim (Bool-cases (mnode_ready (take_block bu (take_height bu node)))) [
          | inr f ↦
              let before = take_height bu node in
              let same : some (
                    take_state bu (derive_swarm_events before.swarm bu.swarms) false
                      (take_block bu before))
                  ≡ some node' =
                rw f at h in
              let q : take_state bu (derive_swarm_events before.swarm bu.swarms) false
                    (take_block bu before)
                  ≡ node' =
                ground arith in
              rw (← q) (cache-le bu before, inl (unfold take_block take_height in refl))
          | inl t ↦
              let before = take_height bu node in
              let events = derive_swarm_events before.swarm bu.swarms in
              let base = take_state bu events true (take_block bu before) in
              let kept : Keeps base (
                  and_then (spread hex codec is_mainnet events base)
                    (initiate_peer_test hex codec pick now fuel mt19937_64)) =
                Keeps-and_then base (spread hex codec is_mainnet events base) _
                  (spread-Keeps hex codec is_mainnet events base)
                  (initiate-Keeps hex codec is_mainnet fuel mt19937_64 pick now) in
              let k : SameBlock node' base = subst (Keeps base) (rw t at h) kept in
              (
                rw (k.cache) (cache-le bu before),
                inr (
                  k.syncing ∙ unfold take_block in s,
                  k.hash ∙ unfold take_block in refl,
                  k.height ∙ unfold take_block in refl,
                  ne_of_== bu.block_hash node.block_hash n,
                  t,
                ),
              )
        ]

    -- A block update never leaves more than 30 hashes in the cache, if there were no more. It makes the
    -- node send anything only if it ends in a state that does not sync, holds the new block's hash,
    -- which differs from the one before, and height, and is ready with them.
    pub on_swarm_update_lem :
        (bu : BlockUpdate) (node node' : Node)
        → length node.block_hashes_cache ≤ block_hash_cache_size
        → on_swarm_update hex codec is_mainnet fuel mt19937_64 pick now bu node ≡ some node'
        → Gated bu node node'
    unfolding on_swarm_update
    on_swarm_update_lem bu node node' c h = elim (Bool-cases (take_height bu node).syncing) [
      | inl t ↦ unsent (sym (if_of_true _ _ _ t) ∙ h)
      | inr s ↦
          let rest = sym (if_of_false _ _ _ s) ∙ h in
          elim (Bool-cases (bu.block_hash == node.block_hash)) [
            | inl seen ↦
                let old : (bu.block_hash == (take_height bu node).block_hash) ≡ true =
                  unfold take_height in seen in
                unsent (sym (if_of_true _ _ _ old) ∙ rest)
            | inr new ↦
                let fresh : (bu.block_hash == (take_height bu node).block_hash) ≡ false =
                  unfold take_height in new in
                apply_block-Gated bu node node' s new (sym (if_of_false _ _ _ fresh) ∙ rest)
          ]
    ]
      where
        unsent : some (take_height bu node) ≡ some node' → Gated bu node node'
        unsent same =
            let q : take_height bu node ≡ node' = ground arith in
            rw (← q) (unfold take_height in (c, inl refl))
