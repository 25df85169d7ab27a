-- ===== src/MasterNode/Parse.antt =====
-- `parse_swarm_update` of httpserver/master_node.cpp. The json document is a record of its fields, a
-- missing field or one of another type being `none`; the parsing itself and from_hex of the keys are
-- parameters. std::map is a list in the order of its keys.
pub mod Sorted
use beldex_storage_server.Prelude.{
  ℕ, Bool, true, false, not, ◌&&◌, ◌||◌, Option, none, some, List, [], ◌∷◌, ◌++◌, ◌==◌, nat_eq,
  Bytes, String, ltb, any_of, if◌then◌else◌,
}
use beldex_storage_server.Keys.{X25519Pubkey}
use beldex_storage_server.Swarm.{MnRecord, SwarmId, SwarmInfo, BlockUpdate, invalid_swarm_id}

pub record MnodeState : Type 0 where
  pub funded : Option Bool
  pub master_node_pubkey : Option Bytes
  pub pubkey_x25519 : Option Bytes
  pub pubkey_ed25519 : Option Bytes
  pub public_ip : Option String
  pub storage_port : Option ℕ
  pub storage_lmq_port : Option ℕ
  pub swarm_id : Option SwarmId

-- The last list is `none` where there is no array.
pub record Document : Type 0 where
  pub height : Option ℕ
  pub block_hash : Option Bytes
  pub hardfork : Option ℕ
  pub mnode_revision : Option ℕ
  pub unchanged : Option Bool
  pub master_node_states : Option (List MnodeState)

infixl 10 ◌>>=◌
abbrev pub ◌>>=◌ {ℓ κ} : {A : Type ℓ} {B : Type κ} → Option A → (A → Option B) → Option B
none >>= f = none
some a >>= f = f a

-- get_or, of a field that is missing or has its type; one of another type throws in the source and is not
-- represented.
abbrev pub get_or {ℓ} : {A : Type ℓ} → Option A → A → A
get_or none default_val = default_val
get_or (some a) default_val = a

-- swarm_map[id].push_back(mn)
unfoldable pub push_mnode : SwarmId → MnRecord → List SwarmInfo → List SwarmInfo
push_mnode id mn [] = record { swarm_id = id; mnodes = mn ∷ [] } ∷ []
push_mnode id mn (si ∷ sis) =
    let rest = push_mnode id mn sis in
    if id == si.swarm_id
    then record si { mnodes = si.mnodes ++ mn ∷ [] } ∷ sis
    else if ltb id si.swarm_id
    then record { swarm_id = id; mnodes = mn ∷ [] } ∷ si ∷ sis
    else si ∷ rest

-- active_x25519_pubkeys is a set.
abbrev pub add_key : X25519Pubkey → List X25519Pubkey → List X25519Pubkey
add_key pk keys = if any_of (λ k. k == pk) keys then keys else keys ++ pk ∷ []

abbrev pub no_key : Bytes → Bool
no_key [] = true
no_key (b ∷ bs) = false

-- A node goes to the decommissioned ones or to its swarm.
unfoldable pub place_mnode : BlockUpdate → SwarmId → MnRecord → BlockUpdate
place_mnode bu id mn =
    if id == invalid_swarm_id
    then record bu { decommissioned_nodes = bu.decommissioned_nodes ++ mn ∷ [] }
    else record bu {
      active_x25519_pubkeys = add_key mn.pubkey_x25519 bu.active_x25519_pubkeys;
      swarms = push_mnode id mn bu.swarms;
    }

module _ (from_hex : Bytes → Option ℕ) where
  unfoldable pub parse_record : MnodeState → Option MnRecord
  parse_record mn = do
    ip ← mn.public_ip
    port ← mn.storage_port
    bmq_port ← mn.storage_lmq_port
    pk ← mn.master_node_pubkey
    legacy ← from_hex pk
    pk_ed25519 ← mn.pubkey_ed25519
    ed25519 ← from_hex pk_ed25519
    pk_x25519 ← mn.pubkey_x25519
    x25519 ← from_hex pk_x25519
    some (record {
      ip = ip;
      port = port;
      bmq_port = bmq_port;
      pubkey_legacy = legacy;
      pubkey_ed25519 = ed25519;
      pubkey_x25519 = x25519;
    })

  -- A funded node; one whose auxiliary keys are missing is passed over.
  unfoldable pub parse_funded : BlockUpdate → MnodeState → Option BlockUpdate
  parse_funded bu mn = do
    pk ← mn.master_node_pubkey
    x25519 ← mn.pubkey_x25519
    ed25519 ← mn.pubkey_ed25519
    if no_key x25519 || no_key ed25519
        then some bu
        else (do mnode ← parse_record mn; id ← mn.swarm_id; some (place_mnode bu id mnode))

  unfoldable pub parse_state : BlockUpdate → MnodeState → Option BlockUpdate
  parse_state bu mn = mn.funded >>= λ funded. (if not funded then some bu else parse_funded bu mn)

  unfoldable pub parse_states : List MnodeState → BlockUpdate → Option BlockUpdate
  parse_states [] bu = some bu
  parse_states (mn ∷ mns) bu = parse_state bu mn >>= parse_states mns

  -- `none` is the exception.
  unfoldable pub parse_swarm_update : Document → Option BlockUpdate
  parse_swarm_update doc = do
    height ← doc.height
    block_hash ← doc.block_hash
    hardfork ← doc.hardfork
    let bu : BlockUpdate = record {
      swarms = [];
      decommissioned_nodes = [];
      active_x25519_pubkeys = [];
      height = height;
      block_hash = block_hash;
      hardfork = hardfork;
      mnode_revision = get_or doc.mnode_revision 0;
      unchanged = get_or doc.unchanged false;
    }
    if get_or doc.unchanged false
        then some bu
        else (doc.master_node_states >>= λ states. parse_states states bu)
