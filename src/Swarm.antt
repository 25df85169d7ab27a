-- ===== src/Swarm.antt =====
-- httpserver/swarm.h and swarm.cpp, with httpserver/mn_record.h: the swarms of the network, the
-- swarm of a public key, and what a node keeps of its own swarm. Loops over std::vector are
-- recursions on lists; the unordered maps are association lists in insertion order.
pub mod Space
pub mod Closest
pub mod Events
pub mod Ips
pub mod Nodes
use Prim.Native.Nat.{min}
use Space.{pubkey_to_swarm_space}
use beldex_storage_server.Prelude.{
  ℕ, ◌+◌, ◌-◌, ◌%◌, ◌^◌, ◌≡◌, String, Bool, true, false, not, ◌&&◌, ◌||◌, Option, none, some, List,
  [], ◌∷◌, ltb, leb, ◌==◌, ◌!=◌, nat_eq, string_eq, if◌then◌else◌, find, emplace, select, any_of,
  find_if, map, Bytes,
}
use beldex_storage_server.Keys.{LegacyPubkey, Ed25519Pubkey, X25519Pubkey, is_set}

-- uint64_t
abbrev pub SwarmId : Type 0
SwarmId = ℕ

abbrev pub u64_mod : ℕ
u64_mod = 2 ^ 64

abbrev pub invalid_swarm_id : SwarmId
invalid_swarm_id = u64_mod - 1

pub record MnRecord : Type 0 where
  pub ip : String
  pub port : ℕ
  pub bmq_port : ℕ
  pub pubkey_legacy : LegacyPubkey
  pub pubkey_ed25519 : Ed25519Pubkey
  pub pubkey_x25519 : X25519Pubkey

-- operator== of two records looks at the legacy key alone.
abbrev pub same_mnode : MnRecord → MnRecord → Bool
same_mnode lhs rhs = lhs.pubkey_legacy == rhs.pubkey_legacy

pub record SwarmInfo : Type 0 where
  pub swarm_id : SwarmId
  pub mnodes : List MnRecord

abbrev pub null_swarm : SwarmInfo
null_swarm = record { swarm_id = invalid_swarm_id; mnodes = [] }

pub record BlockUpdate : Type 0 where
  pub swarms : List SwarmInfo
  pub decommissioned_nodes : List MnRecord
  pub active_x25519_pubkeys : List X25519Pubkey
  pub height : ℕ
  pub block_hash : Bytes
  pub hardfork : ℕ
  pub mnode_revision : ℕ
  pub unchanged : Bool

pub record SwarmEvents : Type 0 where
  pub our_swarm_id : SwarmId
  pub dissolved : Bool
  pub new_swarms : List SwarmId
  pub new_mnodes : List MnRecord
  pub our_swarm_members : List MnRecord

pub record Swarm : Type 0 where
  pub cur_swarm_id : SwarmId
  pub all_valid_swarms : List SwarmInfo
  pub our_address : MnRecord
  pub swarm_peers : List MnRecord
  pub all_funded_nodes : List (LegacyPubkey × MnRecord)
  pub all_funded_ed25519 : List (Ed25519Pubkey × LegacyPubkey)
  pub all_funded_x25519 : List (X25519Pubkey × LegacyPubkey)

-- The constructor.
abbrev pub new_swarm : MnRecord → Swarm
new_swarm address = record {
  cur_swarm_id = invalid_swarm_id;
  all_valid_swarms = [];
  our_address = address;
  swarm_peers = [];
  all_funded_nodes = [];
  all_funded_ed25519 = [];
  all_funded_x25519 = [];
}

-- `swarm_exists` and `Swarm::is_existing_swarm`
unfoldable pub swarm_exists : List SwarmInfo → SwarmId → Bool
swarm_exists all_swarms swarm = any_of (λ si. si.swarm_id == swarm) all_swarms

-- std::find of a node in a vector of nodes
unfoldable pub has_mnode : MnRecord → List MnRecord → Bool
has_mnode mn = any_of (λ other. same_mnode other mn)

-- The swarm that holds our address, the first one.
unfoldable pub our_swarm : MnRecord → List SwarmInfo → Option SwarmInfo
unfolding has_mnode
our_swarm our_address = find_if (λ si. has_mnode our_address si.mnodes)

abbrev no_events : SwarmEvents
no_events = record {
  our_swarm_id = 0;
  dissolved = false;
  new_swarms = [];
  new_mnodes = [];
  our_swarm_members = [];
}

unfoldable pub derive_swarm_events : Swarm → List SwarmInfo → SwarmEvents
unfolding our_swarm swarm_exists has_mnode
derive_swarm_events s swarms = elim (our_swarm s.our_address swarms) [
  | none ↦ record no_events { our_swarm_id = invalid_swarm_id }
  | some our ↦
      let events : SwarmEvents = record no_events {
        our_swarm_id = our.swarm_id;
        our_swarm_members = our.mnodes;
      } in
      if s.cur_swarm_id == invalid_swarm_id
      then events
      else if s.cur_swarm_id != our.swarm_id
      then (if not (swarm_exists swarms s.cur_swarm_id)
          then record events { dissolved = true }
          else events)
      else record events {
        new_mnodes =
            select (λ mn. not (has_mnode mn s.swarm_peers) && not (same_mnode mn s.our_address))
              our.mnodes;
        new_swarms =
            select (λ sid. not (swarm_exists s.all_valid_swarms sid))
              (map (λ si. si.swarm_id) swarms);
      }
]

-- What the function logs is left out.
unfoldable pub set_swarm_id : Swarm → SwarmId → Swarm
set_swarm_id s sid = record s { cur_swarm_id = sid }

-- The inner and the outer loop of get_mnode_map_from_swarms.
unfoldable pub add_mnodes :
    List MnRecord → List (LegacyPubkey × MnRecord) → List (LegacyPubkey × MnRecord)
add_mnodes [] m = m
add_mnodes (mn ∷ mns) m = add_mnodes mns (emplace mn.pubkey_legacy mn m)

unfoldable pub add_swarms :
    List SwarmInfo → List (LegacyPubkey × MnRecord) → List (LegacyPubkey × MnRecord)
unfolding add_mnodes
add_swarms [] m = m
add_swarms (si ∷ sis) m = add_swarms sis (add_mnodes si.mnodes m)

unfoldable pub get_mnode_map_from_swarms : List SwarmInfo → List (LegacyPubkey × MnRecord)
unfolding add_swarms
get_mnode_map_from_swarms swarms = add_swarms swarms []

-- The new value of `val`. Whether it changed only feeds a log line.
abbrev pub update_if_changed {ℓ} : {A : Type ℓ} → (A → A → Bool) → A → A → A → A
update_if_changed eq val new_val ignore_val =
    if not (eq new_val ignore_val) && not (eq new_val val) then new_val else val

abbrev str_test : String → String → Bool
str_test a b = a == b

abbrev nat_test : ℕ → ℕ → Bool
nat_test a b = a == b

unfoldable pub update_mnode : MnRecord → MnRecord → MnRecord
update_mnode mnode mn = record mnode {
  ip = update_if_changed str_test mnode.ip mn.ip "0.0.0.0";
  port = update_if_changed nat_test mnode.port mn.port 0;
  bmq_port = update_if_changed nat_test mnode.bmq_port mn.bmq_port 0;
}

unfoldable pub apply_ip : List (LegacyPubkey × MnRecord) → MnRecord → MnRecord
unfolding update_mnode
apply_ip other_mnode_map mnode = elim (find mnode.pubkey_legacy other_mnode_map) [
  | none ↦ mnode
  | some mn ↦ update_mnode mnode mn
]

unfoldable pub with_ips : List (LegacyPubkey × MnRecord) → SwarmInfo → SwarmInfo
unfolding apply_ip
with_ips other_mnode_map si = record si { mnodes = map (apply_ip other_mnode_map) si.mnodes }

unfoldable pub apply_ips : List SwarmInfo → List SwarmInfo → List SwarmInfo
unfolding get_mnode_map_from_swarms with_ips
apply_ips swarms_to_keep other_swarms =
    map (with_ips (get_mnode_map_from_swarms other_swarms)) swarms_to_keep

unfoldable pub apply_swarm_changes : Swarm → List SwarmInfo → Swarm
apply_swarm_changes s new_swarms = record s {
  all_valid_swarms = apply_ips new_swarms s.all_valid_swarms;
}

unfoldable pub index_ed25519 :
    List (LegacyPubkey × MnRecord)
    → List (Ed25519Pubkey × LegacyPubkey)
    → List (Ed25519Pubkey × LegacyPubkey)
index_ed25519 [] m = m
index_ed25519 ((pk, mn) ∷ rest) m = index_ed25519 rest (emplace mn.pubkey_ed25519 pk m)

unfoldable pub index_x25519 :
    List (LegacyPubkey × MnRecord)
    → List (X25519Pubkey × LegacyPubkey)
    → List (X25519Pubkey × LegacyPubkey)
index_x25519 [] m = m
index_x25519 ((pk, mn) ∷ rest) m = index_x25519 rest (emplace mn.pubkey_x25519 pk m)

-- The end of update_state, after its early return: every node goes into the three maps.
unfoldable pub store_nodes : Swarm → List SwarmInfo → List MnRecord → Swarm
unfolding add_mnodes add_swarms index_ed25519 index_x25519
store_nodes s swarms decommissioned =
    let nodes = add_mnodes decommissioned (add_swarms swarms []) in
    record s {
      all_funded_nodes = nodes;
      all_funded_ed25519 = index_ed25519 nodes [];
      all_funded_x25519 = index_x25519 nodes [];
    }

-- The rest of an active update: with no members (the "sanity check") it returns early.
unfoldable pub update_members : Swarm → List SwarmInfo → List MnRecord → List MnRecord → Swarm
unfolding store_nodes
update_members s swarms decommissioned [] = s
update_members s swarms decommissioned (m ∷ ms) =
    store_nodes
      (record s { swarm_peers = select (λ mn. not (same_mnode mn s.our_address)) (m ∷ ms) }) swarms
      decommissioned

unfoldable pub update_state : Swarm → List SwarmInfo → List MnRecord → SwarmEvents → Bool → Swarm
unfolding store_nodes apply_swarm_changes update_members
update_state s swarms decommissioned events active =
    if active
    then update_members (apply_swarm_changes s swarms) swarms decommissioned
        events.our_swarm_members
    else store_nodes s swarms decommissioned

-- The three overloads of find_node.
unfoldable pub find_node : Swarm → LegacyPubkey → Option MnRecord
find_node s pk = find pk s.all_funded_nodes

unfoldable pub find_node_ed25519 : Swarm → Ed25519Pubkey → Option MnRecord
find_node_ed25519 s pk = elim (find pk s.all_funded_ed25519) [
  | some legacy ↦ find_node s legacy
  | none ↦ none
]

unfoldable pub find_node_x25519 : Swarm → X25519Pubkey → Option MnRecord
find_node_x25519 s pk = elim (find pk s.all_funded_x25519) [
  | some legacy ↦ find_node s legacy
  | none ↦ none
]
