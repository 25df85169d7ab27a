-- ===== src/Examples/Retries.antt =====
-- A storage test of a block that the node does not have yet.
use beldex_storage_server.Prelude.{
  ℕ, ◌+◌, ◌≡◌, ◌≢◌, inl, inr, refl, none, some, Option, Bytes, List, [], ◌∷◌, arith,
}
use beldex_storage_server.MasterNode.{Node}
use beldex_storage_server.MasterNode.StorageTest.{MessageTestStatus, retry}
use beldex_storage_server.MasterNode.StorageTest
use beldex_storage_server.Handler.StorageTest.{attempt, process_storage_test_req}
use beldex_storage_server.Handler.StorageTest.Called.{Called, process_storage_test_req-Called}
use beldex_storage_server.Examples.Peers.{node}

abbrev draws : ℕ → ℕ → ℕ
draws seed i = seed + i

abbrev calls : List (ℕ × Node)
calls = (50, node) ∷ (55000, node) ∷ []

behind : attempt 5 draws 51 1 [] 0 node ≡ some (retry, [])
unfolding StorageTest.process_storage_test_req
behind = refl

answers : attempt 5 draws 51 1 [] 0 node ≢ none
answers h =
    let q : ◌≡◌ {A = Option (MessageTestStatus × Bytes)} (some (retry, [])) none = rw behind at h in
    cc

process_storage_test_req-Called_example :
    Called 5 draws 51 1 [] 0 node 1 calls (process_storage_test_req 5 draws 51 1 [] 0 node 1 calls)
process_storage_test_req-Called_example =
    process_storage_test_req-Called 5 draws 51 1 [] 0 node 1 calls
      (answers, (answers, (answers, tt))) (55000, node) (inr (inl refl)) (inl (omega arith))
