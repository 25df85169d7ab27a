-- ===== src/Handler/StorageTest.antt =====
-- process_storage_test_req of httpserver/request_handler.cpp: a storage test that cannot be answered yet
-- is tried again by a timer. A call of the timer is its time and the node that it finds. Times are in
-- milliseconds.
pub mod Called
use beldex_storage_server.Prelude.{
  ℕ, ◌+◌, ◌-◌, ◌≤◌, ◌≡◌, ◌≢◌, ◌⊎◌, inl, inr, refl, Bool, true, false, not, ◌&&◌, none, some, Option,
  List, [], ◌∷◌, Bytes, ltb, if◌then◌else◌, In, All, Bool-cases, Option-cases, arith,
}
use beldex_storage_server.Keys.{LegacyPubkey}
use beldex_storage_server.MasterNode.{Node}
use beldex_storage_server.MasterNode.StorageTest.{MessageTestStatus, success, retry, wrong_req}
use beldex_storage_server.MasterNode.StorageTest

abbrev pub test_retry_period : ℕ
test_retry_period = 55000

-- What has been called back so far; `stuck` is a choice of the tester that ran out of fuel.
pub data Callback : Type 0 where
  pending stuck : Callback
  called : MessageTestStatus → Bytes → ℕ → Callback

abbrev pub is_retry : MessageTestStatus → Bool
is_retry success = false
is_retry retry = true
is_retry wrong_req = false

module _ (fuel : ℕ) (mt19937_64 : ℕ → ℕ → ℕ) (height : ℕ) (tester : LegacyPubkey)
    (msg_hash_hex : Bytes) (started : ℕ) where
  abbrev pub attempt : Node → Option (MessageTestStatus × Bytes)
  attempt node =
      StorageTest.process_storage_test_req fuel mt19937_64 node height tester msg_hash_hex

  -- Whether the timer goes on after an attempt.
  abbrev pub goes_on : ℕ → Node → MessageTestStatus → Bool
  goes_on now node status =
      is_retry status && (ltb (now - started) test_retry_period && not node.shutting_down)

  -- The calls of the timer, until it is cancelled.
  unfoldable pub retry_calls : List (ℕ × Node) → Callback
  retry_calls [] = pending
  retry_calls ((now, node) ∷ calls) =
      let rest = retry_calls calls in
      elim (attempt node) [
        | none ↦ stuck
        | some (status, answer) ↦
            if goes_on now node status then rest else called status answer (now - started)
      ]

  -- `now` is the time after the first attempt.
  unfoldable pub process_storage_test_req : Node → ℕ → List (ℕ × Node) → Callback
  process_storage_test_req node now calls = elim (attempt node) [
    | none ↦ stuck
    | some (status, answer) ↦
        if is_retry status then retry_calls calls else called status answer (now - started)
  ]
