-- ===== src/RateLimiter.antt =====
-- httpserver/rate_limiter.h and rate_limiter.cpp: token buckets for master nodes and for clients.
-- A time point of the steady clock is its count of nanoseconds. The mutex makes each member
-- function atomic; the current time is an argument where the code reads the clock.
pub mod Invariant
pub mod Rate
pub mod Cleaning
use Prim.Native.Nat.{min}
use beldex_storage_server.Prelude.{
  ℕ, ◌+◌, ◌-◌, ◌*◌, ◌/◌, ◌%◌, ◌^◌, String, Bool, true, false, not, Option, none, some, List, [],
  ◌∷◌, ltb, leb, ◌==◌, nat_eq, if◌then◌else◌, find, emplace, assign, length,
}
use beldex_storage_server.Keys.{LegacyPubkey}

abbrev pub bucket_size : ℕ
bucket_size = 600

abbrev pub token_rate : ℕ
token_rate = 300

abbrev pub token_rate_mn : ℕ
token_rate_mn = 600

abbrev pub max_clients : ℕ
max_clients = 10000

abbrev pub token_period_us : ℕ
token_period_us = 1000000 / token_rate

abbrev pub token_period_mn_us : ℕ
token_period_mn_us = 1000000 / token_rate_mn

abbrev pub fill_empty_bucket_us : ℕ
fill_empty_bucket_us = token_period_us * bucket_size

pub record TokenBucket : Type 0 where
  pub num_tokens : ℕ
  pub last_time_point : ℕ

abbrev pub token_period : Bool → ℕ
token_period master_node = if master_node then token_period_mn_us else token_period_us

-- `token_added`, a uint32_t. A clock that went backwards makes the elapsed time negative, and the
-- quotient wraps around.
pub token_added : TokenBucket → ℕ → Bool → ℕ
token_added b now master_node =
    if leb b.last_time_point now
    then min ((now - b.last_time_point) / 1000) fill_empty_bucket_us / token_period master_node
    else (2 ^ 32 - (b.last_time_point - now) / 1000 / token_period master_node % 2 ^ 32) % 2 ^ 32

-- The bucket, and whether it is full.
pub fill_bucket : TokenBucket → ℕ → Bool → TokenBucket × Bool
unfolding token_added
fill_bucket b now master_node =
    let num = (b.num_tokens + token_added b now master_node) % 2 ^ 32 in
    if leb bucket_size num
    then (record b { num_tokens = bucket_size }, true)
    else (record b { num_tokens = num }, false)

-- The bucket, and whether a token was there.
pub remove_token : TokenBucket → ℕ → Bool → TokenBucket × Bool
unfolding fill_bucket
remove_token b now mn =
    let filled = (fill_bucket b now mn).0 in
    if filled.num_tokens == 0
    then (filled, false)
    else (record { num_tokens = filled.num_tokens - 1; last_time_point = now }, true)

pub record RateLimiter : Type 0 where
  pub mnode_buckets : List (LegacyPubkey × TokenBucket)
  pub client_buckets : List (ℕ × TokenBucket)

-- One of the two loops of clean_buckets.
pub clean : ℕ → Bool → List (ℕ × TokenBucket) → List (ℕ × TokenBucket)
unfolding fill_bucket
clean now mn [] = []
clean now mn ((k, b) ∷ m) =
    let rest = clean now mn m in
    let (filled, full) = fill_bucket b now mn in if full then rest else (k, filled) ∷ rest

pub clean_buckets : RateLimiter → ℕ → RateLimiter
unfolding clean
clean_buckets r now = record {
  mnode_buckets = clean now true r.mnode_buckets;
  client_buckets = clean now false r.client_buckets;
}

abbrev pub fresh_bucket : ℕ → TokenBucket
fresh_bucket now = record { num_tokens = bucket_size - 1; last_time_point = now }

pub should_rate_limit : RateLimiter → LegacyPubkey → ℕ → RateLimiter × Bool
unfolding remove_token
should_rate_limit r pubkey now = elim (find pubkey r.mnode_buckets) [
  | none ↦ (record r { mnode_buckets = emplace pubkey (fresh_bucket now) r.mnode_buckets }, false)
  | some b ↦
      let (b', removed) = remove_token b now true in
      (record r { mnode_buckets = assign pubkey b' r.mnode_buckets }, not removed)
]

-- The last step for an address with no bucket.
abbrev pub add_client : RateLimiter → ℕ → ℕ → RateLimiter
add_client r ip now = record r { client_buckets = emplace ip (fresh_bucket now) r.client_buckets }

pub should_rate_limit_client : RateLimiter → ℕ → ℕ → RateLimiter × Bool
unfolding remove_token clean_buckets
should_rate_limit_client r ip now = elim (find ip r.client_buckets) [
  | some b ↦
      let (b', removed) = remove_token b now false in
      (record r { client_buckets = assign ip b' r.client_buckets }, not removed)
  | none ↦
      if leb max_clients (length r.client_buckets)
      then (let r' = clean_buckets r now in
          if leb max_clients (length r'.client_buckets)
          then (r', true)
          else (add_client r' ip now, false))
      else (add_client r ip now, false)
]

-- The overload that takes a dotted quad. `inet_pton` gives the address, or none. The overload
-- does not pass its `now` on: the callee reads the clock again, which shows `clock`.
pub should_rate_limit_client_quad :
    (String → Option ℕ) → RateLimiter → String → ℕ → ℕ → RateLimiter × Bool
unfolding should_rate_limit_client
should_rate_limit_client_quad inet_pton r ip_dotted_quad now clock =
    elim (inet_pton ip_dotted_quad) [
      | some ip ↦ should_rate_limit_client r ip clock
      | none ↦ (r, false)
    ]

-- What reaches the limiter: requests, and the timer of its constructor.
pub data Event : Type 0 where
  mnode_request : LegacyPubkey → Event
  client_request : ℕ → Event
  timer : Event

pub step : RateLimiter → ℕ × Event → RateLimiter
step r (now, mnode_request pubkey) = (should_rate_limit r pubkey now).0
step r (now, client_request ip) = (should_rate_limit_client r ip now).0
step r (now, timer) = clean_buckets r now

pub run : RateLimiter → List (ℕ × Event) → RateLimiter
run r [] = r
run r (e ∷ es) = run (step r e) es
