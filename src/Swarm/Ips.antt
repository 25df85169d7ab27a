-- ===== src/Swarm/Ips.antt =====
-- What `apply_ips` keeps and what it overrides.
use text.Mathlib.TextEquality.{eq_iff}
use beldex_storage_server.Prelude.{
  ◌≡◌, ◌≢◌, refl, sym, ap, ◌∙◌, subst, some, List, [], ◌∷◌, arith, In, map, find, nat_eq, string_eq,
  In-map_inv,
}
use beldex_storage_server.Keys.{LegacyPubkey, Ed25519Pubkey, X25519Pubkey}
use beldex_storage_server.Swarm.{
  MnRecord, SwarmInfo, SwarmId, Swarm, get_mnode_map_from_swarms, apply_ip, with_ips, apply_ips,
  apply_swarm_changes, swarm_exists,
}

-- The part of a swarm that is not its addresses.
abbrev pub keys_of : MnRecord → LegacyPubkey × Ed25519Pubkey × X25519Pubkey
keys_of mn = (mn.pubkey_legacy, mn.pubkey_ed25519, mn.pubkey_x25519)

abbrev pub shape : SwarmInfo → SwarmId × List (LegacyPubkey × Ed25519Pubkey × X25519Pubkey)
shape si = (si.swarm_id, map keys_of si.mnodes)

module _ (m : List (LegacyPubkey × MnRecord)) where
  keys_of-apply_ip : (mn : MnRecord) → keys_of (apply_ip m mn) ≡ keys_of mn
  unfolding apply_ip
  keys_of-apply_ip mn = ground arith

  map-keys_of : (mns : List MnRecord) → map keys_of (map (apply_ip m) mns) ≡ map keys_of mns
  map-keys_of [] = refl
  map-keys_of (mn ∷ mns) = cc (keys_of-apply_ip mn, map-keys_of mns)

  map-shape : (sis : List SwarmInfo) → map shape (map (with_ips m) sis) ≡ map shape sis
  unfolding with_ips
  map-shape [] = refl
  map-shape (si ∷ sis) = cc (map-keys_of si.mnodes, map-shape sis)

  exists-with_ips :
      (sid : SwarmId) (sis : List SwarmInfo)
      → swarm_exists (map (with_ips m) sis) sid ≡ swarm_exists sis sid
  unfolding swarm_exists with_ips
  exists-with_ips sid [] = refl
  exists-with_ips sid (si ∷ sis) = rw (exists-with_ips sid sis)

-- Updating the addresses changes neither which swarms there are, nor their members and their
-- order, nor any key.
shape-apply_ips :
    (swarms_to_keep other_swarms : List SwarmInfo)
    → map shape (apply_ips swarms_to_keep other_swarms) ≡ map shape swarms_to_keep
unfolding apply_ips
shape-apply_ips keep other = map-shape (get_mnode_map_from_swarms other) keep

pub swarm_exists-apply_ips :
    (keep other : List SwarmInfo) (sid : SwarmId)
    → swarm_exists (apply_ips keep other) sid ≡ swarm_exists keep sid
unfolding apply_ips
swarm_exists-apply_ips keep other sid = exists-with_ips (get_mnode_map_from_swarms other) sid keep

ip-apply_ip :
    (m : List (LegacyPubkey × MnRecord)) (mn old : MnRecord)
    → find (apply_ip m mn).pubkey_legacy m ≡ some old
    → old.ip ≢ "0.0.0.0"
    → (apply_ip m mn).ip ≡ old.ip
ip-apply_ip m mn old found ne =
    let same = ap (λ t. t.0) (keys_of-apply_ip m mn) in
    let e : find mn.pubkey_legacy m ≡ some old = ap (λ k. find k m) (sym same) ∙ found in
    unfold apply_ip in
    rw (e, apply_ip) (ground (arith, eq_iff old.ip "0.0.0.0", eq_iff old.ip mn.ip))

-- An address that the node has once recorded for a master node stays: if the swarms known before
-- list a node under a key with an address other than 0.0.0.0, every node under that key has that
-- old address after a swarm change, whatever address the new swarms give.
pub ip_stays :
    (s : Swarm) (new_swarms : List SwarmInfo) (old : MnRecord) (si : SwarmInfo) (mn : MnRecord)
    → find mn.pubkey_legacy (get_mnode_map_from_swarms s.all_valid_swarms) ≡ some old
    → old.ip ≢ "0.0.0.0"
    → In si (apply_swarm_changes s new_swarms).all_valid_swarms
    → In mn si.mnodes
    → mn.ip ≡ old.ip
unfolding apply_swarm_changes apply_ips
ip_stays s new_swarms old si mn found ne i j =
    let m = get_mnode_map_from_swarms s.all_valid_swarms in
    let (before, _, e) = In-map_inv (with_ips m) si new_swarms i in
    let (mn', _, e') =
      In-map_inv (apply_ip m) mn before.mnodes
        (unfold with_ips in subst (λ (t : SwarmInfo). In mn t.mnodes) e j) in
    rw e' (ip-apply_ip m mn' old (rw e' at found) ne)
