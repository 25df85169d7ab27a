-- ===== src/MasterNode/StorageTest.antt =====
-- The storage tests of httpserver/master_node.cpp: the choice of the tester and the testee of a block,
-- the answer of the testee, and the test that a tester starts. std::sort is an insertion sort by the
-- legacy key. std::mt19937_64 is a parameter: its seed gives the stream of its draws.
pub mod Sorting
pub mod Agreement
pub mod Answer
use beldex_storage_server.Prelude.{
  ℕ, zero, suc, ◌+◌, ◌-◌, Bool, true, false, not, ◌&&◌, ◌||◌, Option, none, some, List, [], ◌∷◌,
  ◌++◌, ◌==◌, nat_eq, string_eq, bytes_eq, Bytes, String, ltb, leb, length, take, find, from_le,
  if◌then◌else◌,
}
use beldex_storage_server.Keys.{LegacyPubkey}
use beldex_storage_server.Common.{Hex, Message}
use beldex_storage_server.Swarm.{MnRecord, same_mnode}
use beldex_storage_server.Storage.{MessageRow, retrieve_by_hash, retrieve_random}
use beldex_storage_server.Utils.{uniform_distribution_portable}
use beldex_storage_server.Serialization.{Codec}
use beldex_storage_server.Stats.{ResultType, mismatch, other, rejected, record_storage_test_result}
use beldex_storage_server.Stats
use beldex_storage_server.MasterNode.{
  Node, Sent, storage_test, https_storage_test, send_to, test_blocks_buffer, hf_at_least,
  hardfork_bmq_storage_tests,
}

-- std::sort of the members
unfoldable pub insert_member : MnRecord → List MnRecord → List MnRecord
insert_member mn [] = mn ∷ []
insert_member mn (m ∷ ms) =
    let rest = insert_member mn ms in
    if leb mn.pubkey_legacy m.pubkey_legacy then mn ∷ m ∷ ms else m ∷ rest

unfoldable pub sort_members : List MnRecord → List MnRecord
sort_members [] = []
sort_members (m ∷ ms) = insert_member m (sort_members ms)

-- members[i]
unfoldable pub member_at : List MnRecord → ℕ → Option MnRecord
member_at [] i = none
member_at (m ∷ ms) zero = some m
member_at (m ∷ ms) (suc i) = member_at ms i

-- The hash of a block at the current height or in the cache.
unfoldable pub hash_at : Node → ℕ → Option Bytes
hash_at node blk_height =
    if blk_height == node.block_height
    then some node.block_hash
    else if ltb blk_height node.block_height
    then find blk_height node.block_hashes_cache
    else none

-- std::nullopt, or the pair. `spinning` means that the fuel ran out.
pub data Choice : Type 0 where
  nobody spinning : Choice
  chosen : MnRecord → MnRecord → Choice

-- The loop that draws the index of the testee until it is not the tester's.
unfoldable pub draw_testee : ℕ → ℕ → (ℕ → ℕ) → ℕ → ℕ → ℕ → Option ℕ
draw_testee zero fuel draws p n tester_idx = none
draw_testee (suc rounds) fuel draws p n tester_idx =
    elim (uniform_distribution_portable fuel draws p n) [
      | none ↦ none
      | some (i, p') ↦
          let rest = draw_testee rounds fuel draws p' n tester_idx in
          if i == tester_idx then rest else some i
    ]

-- The indices of the tester and the testee among `n` members.
unfoldable pub draw_pair : ℕ → (ℕ → ℕ) → ℕ → Option (ℕ × ℕ)
draw_pair fuel draws n = elim (uniform_distribution_portable fuel draws 0 n) [
  | none ↦ none
  | some (tester_idx, p) ↦ elim (draw_testee fuel fuel draws p n tester_idx) [
    | none ↦ none
    | some testee_idx ↦ some (tester_idx, testee_idx)
  ]
]

unfoldable pub choose : List MnRecord → ℕ → ℕ → Choice
choose members i j = elim (member_at members i) [
  | none ↦ nobody
  | some tester ↦ elim (member_at members j) [ none ↦ nobody | some testee ↦ chosen tester testee ]
]

abbrev pub members_of : Node → List MnRecord
members_of node = node.swarm.swarm_peers ++ node.swarm.our_address ∷ []

-- The seed is the first eight characters of the hash.
unfoldable pub choose_by_hash : ℕ → (ℕ → ℕ → ℕ) → List MnRecord → Bytes → Choice
choose_by_hash fuel mt19937_64 members block_hash =
    if ltb (length block_hash) 8
    then nobody
    else elim (draw_pair fuel (mt19937_64 (from_le (take 8 block_hash))) (length members)) [
      | none ↦ spinning
      | some (i, j) ↦ choose (sort_members members) i j
    ]

unfoldable pub derive_tester_testee : ℕ → (ℕ → ℕ → ℕ) → Node → ℕ → Choice
derive_tester_testee fuel mt19937_64 node blk_height =
    if ltb (length (members_of node)) 2 then nobody else elim (hash_at node blk_height) [
      | none ↦ nobody
      | some block_hash ↦ choose_by_hash fuel mt19937_64 (members_of node) block_hash
    ]

-- MessageTestStatus::ERROR is never given.
pub data MessageTestStatus : Type 0 where
  success retry wrong_req : MessageTestStatus

-- The last step: the message, if it is there.
unfoldable pub answer_message : Option Message → MessageTestStatus × Bytes
answer_message none = (retry, [])
answer_message (some msg) = (success, msg.payload)

-- The steps from the choice on.
unfoldable pub answer_choice :
    Node → LegacyPubkey → Bytes → Choice → Option (MessageTestStatus × Bytes)
answer_choice node tester_pk msg_hash nobody = some (wrong_req, [])
answer_choice node tester_pk msg_hash spinning = none
answer_choice node tester_pk msg_hash (chosen tester testee) =
    if not (same_mnode testee node.swarm.our_address)
    then some (wrong_req, [])
    else if not (tester.pubkey_legacy == tester_pk)
    then some (wrong_req, [])
    else some (answer_message (retrieve_by_hash node.db msg_hash))

-- The status and the data; `none` where the choice runs out of fuel.
unfoldable pub process_storage_test_req :
    ℕ → (ℕ → ℕ → ℕ) → Node → ℕ → LegacyPubkey → Bytes → Option (MessageTestStatus × Bytes)
process_storage_test_req fuel mt19937_64 node blk_height tester_pk msg_hash =
    if ltb node.block_height blk_height
    then some (retry, [])
    else answer_choice node tester_pk msg_hash
        (derive_tester_testee fuel mt19937_64 node blk_height)

-- Before the hardfork of BMQ storage tests a test goes out by HTTPS with the height it is given, and then
-- over BMQ with the current height. The callbacks that read the answers are left out.
unfoldable pub send_storage_test_req : Hex → Codec → MnRecord → ℕ → Message → Node → Node
unfolding send_to
send_storage_test_req hex codec testee test_height msg node =
    if not (hf_at_least node hardfork_bmq_storage_tests)
    then send_to (testee ∷ []) (https_storage_test test_height msg.hash) node
    else if length msg.hash == 128
    then send_to (testee ∷ []) (storage_test node.block_height (hex.from_hex msg.hash)) node
    else if codec.is_base64 msg.hash
    then send_to (testee ∷ []) (storage_test node.block_height (codec.from_base64 msg.hash)) node
    else node

-- The request with the random message, if there is one.
unfoldable pub send_found : Hex → Codec → MnRecord → ℕ → Option Message → Node → Node
send_found hex codec testee test_height none node = node
send_found hex codec testee test_height (some msg) node =
    send_storage_test_req hex codec testee test_height msg node

module _ (hex : Hex) (codec : Codec) (pick : List MessageRow → Option MessageRow) (now : ℕ) where
  -- The steps from the choice on. `pick` draws the random message.
  unfoldable pub start_test : Node → Choice → Option Node
  start_test node nobody = some node
  start_test node spinning = none
  start_test node (chosen tester testee) =
      if not (same_mnode tester node.swarm.our_address)
      then some node
      else (let (db', found) = retrieve_random pick node.db now in
          some (
            send_found hex codec testee (node.block_height - test_blocks_buffer) found
              (record node { db = db' })))

  unfoldable pub initiate_peer_test : ℕ → (ℕ → ℕ → ℕ) → Node → Option Node
  initiate_peer_test fuel mt19937_64 node =
      if ltb node.block_height test_blocks_buffer
      then some node
      else start_test node
          (derive_tester_testee fuel mt19937_64 node (node.block_height - test_blocks_buffer))

-- The answer to a storage test, of two parts.
unfoldable pub test_result : Message → String → Bytes → ResultType
test_result msg status answer =
    if status == ""
    then other
    else if status == "OK"
    then (if answer == msg.payload then Stats.ResultType.ok else mismatch)
    else if status == "wrong request"
    then rejected
    else other

unfoldable pub process_storage_test_response : MnRecord → Message → String → Bytes → ℕ → Node → Node
process_storage_test_response testee msg status answer now node = record node {
  stats =
      record_storage_test_result node.stats testee.pubkey_legacy now
        (test_result msg status answer);
}
