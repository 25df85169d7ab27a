-- ===== src/Reachability.antt =====
-- httpserver/reachability_testing.{h,cpp}: which nodes are to be tested, and whether this node is
-- tested by others. Times are in milliseconds of the steady clock. A draw from TESTING_INTERVAL and the
-- order that std::shuffle makes are arguments.
pub mod Queue
pub mod Random
use beldex_storage_server.Prelude.{
  ℕ, ◌+◌, ◌*◌, ◌<◌, ◌≡◌, Bool, true, false, not, ◌&&◌, ◌||◌, Option, none, some, List, [], ◌∷◌,
  ◌++◌, ◌==◌, ◌!=◌, nat_eq, ltb, leb, any_of, select, if◌then◌else◌, arith, map,
}
use beldex_storage_server.Keys.{LegacyPubkey}
use beldex_storage_server.Swarm.{MnRecord, Swarm, find_node}

abbrev pub testing_backoff : ℕ
testing_backoff = 10 * 1000

abbrev pub testing_backoff_max : ℕ
testing_backoff_max = 120 * 1000

abbrev pub max_retests_per_tick : ℕ
max_retests_per_tick = 4

abbrev pub max_time_without_ping : ℕ
max_time_without_ping = 120 * 1000

abbrev pub whining_interval : ℕ
whining_interval = 120 * 1000

-- incoming_test_state
pub record IncomingTestState : Type 0 where
  pub last_test : ℕ
  pub last_whine : ℕ
  pub was_failing : Bool

-- FailingPK
pub record Failing : Type 0 where
  pub pk : LegacyPubkey
  pub retest_time : ℕ
  pub failures : ℕ

-- `testing_queue` has the back of the vector first. `next_general_test` is `none` for
-- time_point::min(). The priority queue is in the order of its retest times.
pub record Reachability : Type 0 where
  pub testing_queue : List LegacyPubkey
  pub next_general_test : Option ℕ
  pub startup : ℕ
  pub failing_queue : List Failing
  pub failing : List LegacyPubkey
  pub last_https : IncomingTestState
  pub last_bmq : IncomingTestState

pub data ReachType : Type 0 where
  https bmq : ReachType

abbrev pub never_tested : IncomingTestState
never_tested = record { last_test = 0; last_whine = 0; was_failing = false }

abbrev pub new_reachability : ℕ → Reachability
new_reachability now = record {
  testing_queue = [];
  next_general_test = none;
  startup = now;
  failing_queue = [];
  failing = [];
  last_https = never_tested;
  last_bmq = never_tested;
}

abbrev pub is_failing : LegacyPubkey → List LegacyPubkey → Bool
is_failing pk = any_of (λ x. pk == x)

-- What check_incoming_tests_impl logs, if it whines.
pub data Whine : Type 0 where
  ping_received never_pinged not_pinged : Whine

abbrev pub max : ℕ → ℕ → ℕ
max a b = if ltb a b then b else a

pub check_incoming_tests_impl : ℕ → ℕ → IncomingTestState → IncomingTestState × Option Whine
check_incoming_tests_impl now startup incoming =
    let failing : Bool = ltb (max startup incoming.last_test + max_time_without_ping) now in
    let whine : Bool =
      not (if failing then incoming.was_failing else not incoming.was_failing)
      || (failing && ltb (incoming.last_whine + whining_interval) now) in
    if whine
    then (
      record incoming { was_failing = failing; last_whine = now },
      some (
          if not failing
          then ping_received
          else if incoming.last_test == 0
          then never_pinged
          else not_pinged),
    )
    else (record incoming { was_failing = failing }, none)

pub check_incoming_tests : Reachability → ℕ → Reachability × Option Whine × Option Whine
unfolding check_incoming_tests_impl
check_incoming_tests r now =
    let (https', a) = check_incoming_tests_impl now r.startup r.last_https in
    let (bmq', b) = check_incoming_tests_impl now r.startup r.last_bmq in
    (record r { last_https = https'; last_bmq = bmq' }, a, b)

pub incoming_ping : Reachability → ReachType → ℕ → Reachability
incoming_ping r bmq now = record r { last_bmq = record r.last_bmq { last_test = now } }
incoming_ping r https now = record r { last_https = record r.last_https { last_test = now } }

-- A key of the queue that is to be tested: not this node's, not of a failing node, and registered.
unfoldable pub candidate : Swarm → List LegacyPubkey → LegacyPubkey → Option MnRecord
unfolding find_node
candidate swarm failing pk =
    if pk == swarm.our_address.pubkey_legacy
    then none
    else if is_failing pk failing
    then none
    else find_node swarm pk

-- The while loop of next_random: the rest of the queue after the first node that is to be tested.
unfoldable pub pull :
    Swarm → List LegacyPubkey → List LegacyPubkey → List LegacyPubkey × Option MnRecord
pull swarm failing [] = ([], none)
pull swarm failing (pk ∷ rest) =
    let later = pull swarm failing rest in
    elim (candidate swarm failing pk) [ none ↦ later | some mn ↦ (rest, some mn) ]

abbrev pub not_due : Option ℕ → ℕ → Bool
not_due none now = false
not_due (some time) now = ltb now time

-- next_random with `requeue` false; `interval` is the draw that it makes.
unfoldable pub next_of_queue : Reachability → Swarm → ℕ → ℕ → Reachability × Option MnRecord
unfolding pull
next_of_queue r swarm now interval =
    if not_due r.next_general_test now
    then (r, none)
    else (let (rest, found) = pull swarm r.failing r.testing_queue in
        (record r { testing_queue = rest; next_general_test = some (now + interval) }, found))

-- With an empty queue, next_random fills it and calls itself, for which the time of the next test
-- that it has just set is as a rule too early.
pub next_random :
    (List LegacyPubkey → List LegacyPubkey)
    → Reachability
    → Swarm
    → ℕ
    → ℕ
    → ℕ
    → Reachability × Option MnRecord
next_random shuffle r swarm now interval interval' =
    let (r', found) = next_of_queue r swarm now interval in
    if not_due r.next_general_test now then (r, none) else elim found [
      | some mn ↦ (r', some mn)
      | none ↦
          next_of_queue
            (record r' { testing_queue = shuffle (map (λ n. n.0) swarm.all_funded_nodes) }) swarm
            now interval'
    ]

unfoldable pub remove_node_from_failing : Reachability → LegacyPubkey → Reachability
remove_node_from_failing r pk = record r { failing = select (λ x. not (x == pk)) r.failing }

-- The loop of get_failing over the queue: what it takes, the queue and the set of failing nodes.
unfoldable pub take_failing :
    Swarm
    → ℕ
    → ℕ
    → List Failing
    → List LegacyPubkey
    → List (MnRecord × ℕ) × List Failing × List LegacyPubkey
unfolding find_node
take_failing swarm now size [] failing = ([], [], failing)
take_failing swarm now size (f ∷ fs) failing =
    let kept = take_failing swarm now (size + 1) fs failing in
    let gone = take_failing swarm now size fs (select (λ x. not (x == f.pk)) failing) in
    if not (ltb size max_retests_per_tick) || ltb now f.retest_time
    then ([], f ∷ fs, failing)
    else elim (find_node swarm f.pk) [
      | some mn ↦ ((mn, f.failures) ∷ kept.0, kept.1, kept.2)
      | none ↦ gone
    ]

unfoldable pub get_failing : Reachability → Swarm → ℕ → Reachability × List (MnRecord × ℕ)
unfolding take_failing
get_failing r swarm now =
    let (result, queue, failing) = take_failing swarm now 0 r.failing_queue r.failing in
    (record r { failing_queue = queue; failing = failing }, result)

unfoldable pub push_failing : Failing → List Failing → List Failing
push_failing f [] = f ∷ []
push_failing f (g ∷ gs) =
    let rest = push_failing f gs in if ltb f.retest_time g.retest_time then f ∷ g ∷ gs else g ∷ rest

-- The callers pass no negative count.
unfoldable pub add_failing_node : Reachability → LegacyPubkey → ℕ → ℕ → ℕ → Reachability
unfolding push_failing
add_failing_node r pk previous_failures now interval =
    let next = previous_failures * testing_backoff + interval in
    let next_test_in : ℕ = if ltb testing_backoff_max next then testing_backoff_max else next in
    record r {
      failing = if is_failing pk r.failing then r.failing else pk ∷ r.failing;
      failing_queue =
          push_failing
            (record { pk = pk; retest_time = now + next_test_in; failures = previous_failures + 1 })
            r.failing_queue;
    }
