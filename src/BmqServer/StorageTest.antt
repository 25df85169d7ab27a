-- ===== src/BmqServer/StorageTest.antt =====
-- handle_storage_test of httpserver/bmq_server.cpp: how a node reads another node's storage test.
pub mod Sent
use beldex_storage_server.Prelude.{
  ℕ, ◌+◌, ◌-◌, Bool, true, false, not, ◌||◌, Option, none, some, List, [], ◌∷◌, ◌==◌, nat_eq,
  bytes_eq, Bytes, codes, length, take, if◌then◌else◌,
}
use beldex_storage_server.Common.{Hex}
use beldex_storage_server.Serialization.{Codec}
use beldex_storage_server.Keys.{LegacyPubkey}
use beldex_storage_server.Keys.Coding.{load_from_bytes}
use beldex_storage_server.Swarm.{MnRecord, find_node_x25519}
use beldex_storage_server.MasterNode.{Node}
use beldex_storage_server.MasterNode.StorageTest.{MessageTestStatus, success, retry, wrong_req}

-- A reply, or the test that process_storage_test_req is asked for.
pub data TestRequest : Type 0 where
  replied : Bytes → TestRequest
  asked : ℕ → LegacyPubkey → Bytes → TestRequest

-- pop_back
abbrev pub pop_back : Bytes → Bytes
pop_back s = take (length s - 1) s

-- `parse_int` is util::parse_int for a uint64_t.
module _ (hex : Hex) (codec : Codec) (parse_int : Bytes → Option ℕ) where
  -- The printed hash of a message, for the two sizes of its bytes.
  unfoldable pub hash_text : Bytes → Option Bytes
  hash_text b =
      if length b == 64
      then some (hex.to_hex b)
      else if length b == 32
      then some (pop_back (codec.to_base64 b))
      else none

  unfoldable pub ask : ℕ → LegacyPubkey → Bytes → TestRequest
  unfolding hash_text
  ask height tester_pk hash = elim (hash_text hash) [
    | none ↦ replied (codes "invalid msg hash")
    | some msg_hash ↦ asked height tester_pk msg_hash
  ]

  unfoldable pub ask_height : LegacyPubkey → Bytes → Bytes → TestRequest
  unfolding ask
  ask_height tester_pk height_text hash = elim (parse_int height_text) [
    | none ↦ replied (codes "invalid height")
    | some height ↦
        if height == 0 then replied (codes "invalid height") else ask height tester_pk hash
  ]

  -- `pubkey` is the key of the connection.
  unfoldable pub ask_sender : Node → Bytes → Bytes → Bytes → TestRequest
  unfolding ask_height
  ask_sender node pubkey height_text hash = elim (load_from_bytes pubkey) [
    | none ↦ replied (codes "invalid parameters")
    | some key ↦ elim (find_node_x25519 node.swarm key) [
      | none ↦ replied (codes "invalid pubkey")
      | some mn ↦ ask_height mn.pubkey_legacy height_text hash
    ]
  ]

  unfoldable pub handle_storage_test : Node → Bytes → List Bytes → TestRequest
  unfolding ask_sender
  handle_storage_test node pubkey [] = replied (codes "invalid parameters")
  handle_storage_test node pubkey (part ∷ []) = replied (codes "invalid parameters")
  handle_storage_test node pubkey (height_text ∷ hash ∷ parts) =
      ask_sender node pubkey height_text hash

-- The reply to a test that was answered.
abbrev pub test_reply : MessageTestStatus → Bytes → List Bytes
test_reply success answer = codes "OK" ∷ answer ∷ []
test_reply wrong_req answer = codes "wrong request" ∷ []
test_reply retry answer = codes "other" ∷ []
