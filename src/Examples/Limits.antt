-- ===== src/Examples/Limits.antt =====
-- Concrete runs of the rate limiter, the statistics and the reachability tests.
use beldex_storage_server.Prelude.{
  some, All, ℕ, ◌+◌, ◌*◌, ◌-◌, ◌≡◌, ◌≤◌, ◌<◌, ◌⊎◌, inl, List, [], ◌∷◌, arith, refl, Pairwise,
  length, nat_eq, find,
}
use beldex_storage_server.Keys.{LegacyPubkey}
use beldex_storage_server.RateLimiter.{
  TokenBucket, RateLimiter, Event, mnode_request, client_request, timer, run, should_rate_limit,
  clean_buckets,
}
use beldex_storage_server.RateLimiter.Invariant.{IsValid, run-IsValid}
use beldex_storage_server.RateLimiter.Rate.{admitted, Schedule, admitted-le}
use beldex_storage_server.RateLimiter.Cleaning.{credited_twice}
use beldex_storage_server.Stats.{AllStats, no_requests, store, retrieve, get_recent_requests}
use beldex_storage_server.Stats.Window.{
  Event as StatsEvent, requests_in, request, rotate, handle_all, requests, recent-total,
}
use beldex_storage_server.Swarm.{MnRecord, Swarm, new_swarm}
use beldex_storage_server.Reachability.{
  Failing, Reachability, new_reachability, get_failing, add_failing_node, max_retests_per_tick,
}
use beldex_storage_server.Reachability.Queue.{Sooner, get_failing_lem}

abbrev limiter : RateLimiter
limiter = record {
  mnode_buckets = [];
  client_buckets = (7, record { num_tokens = 3; last_time_point = 0 }) ∷ [];
}

limiter-IsValid : IsValid limiter
limiter-IsValid = record { mnodes = tt; clients = (omega arith, tt); room = omega arith }

abbrev traffic : List (ℕ × Event)
traffic = (5, mnode_request 1) ∷ (6, client_request 7) ∷ (10000000000, timer) ∷ []

run-IsValid_example : IsValid (run limiter traffic)
run-IsValid_example = run-IsValid limiter traffic limiter-IsValid

abbrev schedule : Schedule
schedule = (1, 10) ∷ (2, 20) ∷ (1, 30) ∷ []

admitted-le_example : admitted 1 limiter schedule * 1666000 ≤ 600 * 1666000 + (30 - 0)
unfolding find
admitted-le_example =
    admitted-le 1 limiter 0 schedule refl (omega arith, (omega arith, (omega arith, tt)))

abbrev bucket : TokenBucket
bucket = record { num_tokens = 5; last_time_point = 1000 }

abbrev idle : RateLimiter
idle = record { mnode_buckets = (1, bucket) ∷ []; client_buckets = [] }

idle_bucket : find 1 idle.mnode_buckets ≡ some bucket
unfolding find
idle_bucket = refl

credited_twice_example :
    ((c : TokenBucket) × (find 1 (should_rate_limit idle 1 5001000).0.mnode_buckets ≡ some c)
      × (c.num_tokens + 1 ≡ 5 + 3))
    × ((c : TokenBucket) × (find 1
            (should_rate_limit (clean_buckets idle 5001000) 1 5001000).0.mnode_buckets
          ≡ some c)
        × (c.num_tokens + 1 ≡ 5 + 2 * 3))
credited_twice_example =
    credited_twice idle 1 5001000 bucket idle_bucket (omega arith) (omega arith) (omega arith)

abbrev stats : AllStats
stats = record {
  total = no_requests;
  current = no_requests;
  previous_stats = [];
  last_rotate = 0;
  peer_report = [];
}

abbrev counted : List StatsEvent
counted = request store ∷ request retrieve ∷ rotate 10 ∷ request store ∷ []

recent-total_example :
    ((length (handle_all stats counted).previous_stats ≤ 5)
      × (requests store (get_recent_requests (handle_all stats counted) 15).1
          ≡ requests store (handle_all stats counted).total))
    ⊎ ((length (handle_all stats counted).previous_stats ≡ 6)
        × (requests store (get_recent_requests (handle_all stats counted) 15).1
            ≤ requests store (handle_all stats counted).total))
unfolding requests requests_in
recent-total_example = recent-total store stats counted 15 (inl (omega arith, refl))

abbrev mn : LegacyPubkey → MnRecord
mn pk = record {
  ip = "10.0.0.1";
  port = 22021;
  bmq_port = 22020;
  pubkey_legacy = pk;
  pubkey_ed25519 = pk + 100;
  pubkey_x25519 = pk + 200;
}

abbrev network : Swarm
network = record (new_swarm (mn 1)) { all_funded_nodes = (1, mn 1) ∷ (2, mn 2) ∷ [] }

abbrev late : Failing
late = record { pk = 3; retest_time = 900; failures = 1 }

abbrev testing : Reachability
testing = record (new_reachability 0) {
  testing_queue = 1 ∷ 2 ∷ [];
  failing_queue = late ∷ [];
  failing = 3 ∷ [];
}

get_failing_example :
    Pairwise Sooner (add_failing_node testing 2 0 50 9000).failing_queue
    × Pairwise Sooner (get_failing testing network 50).0.failing_queue
    × (length (get_failing testing network 50).1 ≤ max_retests_per_tick)
    × (All (λ (g : Failing). 50 < g.retest_time) (get_failing testing network 50).0.failing_queue
        ⊎ (max_retests_per_tick ≤ length (get_failing testing network 50).1))
get_failing_example = get_failing_lem testing network 2 0 50 9000 ((λ y i. absurd i), tt)
