-- ===== src/Stats.antt =====
-- httpserver/stats.{h,cpp}: the counters of requests and the results of storage tests. A deque is a
-- list with its front first; the clock's readings are arguments, in minutes.
pub mod Window
use beldex_storage_server.Prelude.{
  ℕ, ◌+◌, ◌-◌, ◌<◌, ◌≡◌, Bool, true, false, List, [], ◌∷◌, ◌++◌, ◌==◌, nat_eq, arith, Option, none,
  some, ltb, leb, length, find, assign, map, if◌then◌else◌,
}
use beldex_storage_server.Keys.{LegacyPubkey}

abbrev pub recent_stats_count : ℕ
recent_stats_count = 6

abbrev pub rolling_window : ℕ
rolling_window = 120

pub data ResultType : Type 0 where
  ok mismatch other rejected : ResultType

pub record TestResult : Type 0 where
  pub timestamp : ℕ
  pub result : ResultType

pub record PeerStats : Type 0 where
  pub requests_failed : ℕ
  pub pushes_failed : ℕ
  pub storage_tests : List TestResult

pub record PeriodStats : Type 0 where
  pub client_store_requests : ℕ
  pub client_retrieve_requests : ℕ
  pub proxy_requests : ℕ
  pub onion_requests : ℕ

abbrev pub no_requests : PeriodStats
no_requests = record {
  client_store_requests = 0;
  client_retrieve_requests = 0;
  proxy_requests = 0;
  onion_requests = 0;
}

-- `total` and `current` are the atomic counters; those of the source are unsigned 64-bit numbers,
-- which no run counts through.
pub record AllStats : Type 0 where
  pub total : PeriodStats
  pub current : PeriodStats
  pub previous_stats : List (ℕ × PeriodStats)
  pub last_rotate : ℕ
  pub peer_report : List (LegacyPubkey × PeerStats)

-- while (previous_stats.size() >= RECENT_STATS_COUNT) previous_stats.pop_front();
pub pop_old : List (ℕ × PeriodStats) → List (ℕ × PeriodStats)
pop_old [] = []
pop_old (p ∷ ps) =
    let rest = pop_old ps in if leb recent_stats_count (length (p ∷ ps)) then rest else p ∷ ps

-- `now - ROLLING_WINDOW` is below every time stamp in the first two hours of the clock.
pub cleanup_old : ℕ → List TestResult → List TestResult
cleanup_old now [] = []
cleanup_old now (t ∷ ts) =
    let rest = cleanup_old now ts in if leb (t.timestamp + rolling_window) now then rest else t ∷ ts

pub cleanup : AllStats → ℕ → AllStats
unfolding pop_old cleanup_old
cleanup s now = record s {
  previous_stats = pop_old s.previous_stats ++ (s.last_rotate, s.current) ∷ [];
  current = no_requests;
  last_rotate = now;
  peer_report =
      map (λ (mn, p). (mn, record p { storage_tests = cleanup_old now p.storage_tests }))
        s.peer_report;
}

-- peer_report_[mn], which makes an entry of zeros where there is none.
pub peer_stats : LegacyPubkey → List (LegacyPubkey × PeerStats) → PeerStats
peer_stats mn report = elim (find mn report) [
  | none ↦ record { requests_failed = 0; pushes_failed = 0; storage_tests = [] }
  | some p ↦ p
]

pub record_request_failed : AllStats → LegacyPubkey → AllStats
unfolding peer_stats assign
record_request_failed s mn =
    let p = peer_stats mn s.peer_report in
    record s {
      peer_report = assign mn (record p { requests_failed = p.requests_failed + 1 }) s.peer_report;
    }

pub record_push_failed : AllStats → LegacyPubkey → AllStats
unfolding peer_stats assign
record_push_failed s mn =
    let p = peer_stats mn s.peer_report in
    record s {
      peer_report = assign mn (record p { pushes_failed = p.pushes_failed + 1 }) s.peer_report;
    }

pub record_storage_test_result : AllStats → LegacyPubkey → ℕ → ResultType → AllStats
unfolding peer_stats assign
record_storage_test_result s mn now result =
    let p = peer_stats mn s.peer_report in
    let tests = p.storage_tests ++ record { timestamp = now; result = result } ∷ [] in
    record s { peer_report = assign mn (record p { storage_tests = tests }) s.peer_report }

-- The kinds of requests that are counted.
pub data Kind : Type 0 where
  store retrieve proxy onion : Kind

pub bump : Kind → PeriodStats → PeriodStats
bump store p = record p { client_store_requests = p.client_store_requests + 1 }
bump retrieve p = record p { client_retrieve_requests = p.client_retrieve_requests + 1 }
bump proxy p = record p { proxy_requests = p.proxy_requests + 1 }
bump onion p = record p { onion_requests = p.onion_requests + 1 }

-- bump_store_requests and its like
pub bump_requests : Kind → AllStats → AllStats
unfolding bump
bump_requests kind s = record s { total = bump kind s.total; current = bump kind s.current }

pub add_period : PeriodStats → PeriodStats → PeriodStats
add_period stats ps = record {
  client_store_requests = stats.client_store_requests + ps.client_store_requests;
  client_retrieve_requests = stats.client_retrieve_requests + ps.client_retrieve_requests;
  proxy_requests = stats.proxy_requests + ps.proxy_requests;
  onion_requests = stats.onion_requests + ps.onion_requests;
}

pub add_periods : PeriodStats → List (ℕ × PeriodStats) → PeriodStats
unfolding add_period
add_periods stats [] = stats
add_periods stats ((ts, ps) ∷ rest) = add_periods (add_period stats ps) rest

pub get_recent_requests : AllStats → ℕ → ℕ × PeriodStats
unfolding add_periods
get_recent_requests s now = (
  now - (elim s.previous_stats [ [] ↦ s.last_rotate | (ts, ps) ∷ rest ↦ ts ]),
  add_periods s.current s.previous_stats,
)
