-- ===== src/MasterNode/Peers.antt =====
-- The reachability tests of httpserver/master_node.cpp: which nodes are tested, and how the two pings
-- of a test join. The draws of reachability_testing are arguments.
pub mod Joined
use beldex_storage_server.Prelude.{
  ℕ, Bool, true, false, not, ◌&&◌, ◌||◌, Option, none, some, List, [], ◌∷◌, ◌++◌, ◌==◌, nat_eq,
  string_eq, ltb, if◌then◌else◌,
}
use beldex_storage_server.Keys.{LegacyPubkey}
use beldex_storage_server.Swarm.{MnRecord}
use beldex_storage_server.Reachability.{
  check_incoming_tests, get_failing, next_random, add_failing_node, remove_node_from_failing,
}
use beldex_storage_server.MasterNode.{
  Node, MnodeStatus, unknown, unstaked, decommissioned, active, Sent, pings, send_to,
}

-- A node that has no public address yet is not tested.
unfoldable pub test_reachability : Node → MnRecord × ℕ → Node
unfolding send_to
test_reachability node (mn, previous_failures) =
    if mn.ip == "0.0.0.0" then node else send_to (mn ∷ []) (pings previous_failures) node

unfoldable pub test_all : Node → List (MnRecord × ℕ) → Node
unfolding test_reachability
test_all node [] = node
test_all node (t ∷ ts) = test_all (test_reachability node t) ts

module _ (shuffle : List LegacyPubkey → List LegacyPubkey) (now interval interval' : ℕ) where
  -- The tests of an active node: the failing nodes that are due, and one that is not failing.
  unfoldable pub test_peers : Node → Node
  unfolding get_failing test_all
  test_peers node =
      let (reach, to_test) = get_failing node.reach node.swarm now in
      let (reach', rando) = next_random shuffle reach node.swarm now interval interval' in
      test_all (record node { reach = reach' })
        (to_test ++ (elim rando [ none ↦ [] | some mn ↦ (mn, 0) ∷ [] ]))

  abbrev pub check_own : Node → Node
  check_own node = record node { reach = (check_incoming_tests node.reach now).0 }

  unfoldable pub ping_by_status : MnodeStatus → Node → Node
  unfolding test_peers
  ping_by_status unknown node = node
  ping_by_status unstaked node = node
  ping_by_status decommissioned node = check_own node
  ping_by_status active node = test_peers (check_own node)

  unfoldable pub ping_peers : Node → Node
  unfolding ping_by_status
  ping_peers node = ping_by_status node.status node

-- TEST_WAITING, TEST_FAILED, TEST_PASSED
pub data TestResult : Type 0 where
  waiting failed passed : TestResult

-- What report_reachability tells beldexd and keeps itself.
unfoldable pub report_reachability : MnRecord → Bool → ℕ → ℕ → ℕ → Node → Node
report_reachability mn reachable previous_failures now interval node =
    let reported : Node = record node {
      reports = node.reports ++ (mn.pubkey_legacy, reachable) ∷ [];
    } in
    if not reachable || ltb 0 previous_failures
    then record reported {
      reach =
          if not reachable
          then add_failing_node node.reach mn.pubkey_legacy previous_failures now interval
          else remove_node_from_failing node.reach mn.pubkey_legacy;
    }
    else reported

abbrev pub result_of : Bool → TestResult
result_of success = if success then passed else failed

-- A reply to one of the two pings, as both callbacks handle it: `result.exchange`, and the report by
-- the later of them.
unfoldable pub ping_reply : MnRecord → ℕ → ℕ → ℕ → Bool → TestResult × Node → TestResult × Node
unfolding report_reachability
ping_reply mn previous_failures now interval success (waiting, node) = (result_of success, node)
ping_reply mn previous_failures now interval success (failed, node) =
    (result_of success, report_reachability mn false previous_failures now interval node)
ping_reply mn previous_failures now interval success (passed, node) =
    (result_of success, report_reachability mn success previous_failures now interval node)

-- The reply to the HTTPS ping: an error, or the status, whether there is a signature header, and the
-- public key of the public-key header.
pub data HttpsReply : Type 0 where
  error : HttpsReply
  response : ℕ → Bool → Option LegacyPubkey → HttpsReply

unfoldable pub https_success : Bool → LegacyPubkey → HttpsReply → Bool
https_success old_ping_test pk error = false
https_success old_ping_test pk (response status has_signature remote_pk) =
    status == 200
    && (if old_ping_test then has_signature else elim remote_pk [ none ↦ false | some k ↦ k == pk ])
