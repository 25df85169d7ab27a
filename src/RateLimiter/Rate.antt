-- ===== src/RateLimiter/Rate.antt =====
-- How many requests of one master node a limiter lets through between two cleanups.
use beldex_storage_server.Prelude.{
  ℕ, ◌+◌, ◌-◌, ◌*◌, ◌≤◌, ◌≡◌, refl, true, false, not, none, some, List, [], ◌∷◌, arith, inl, inr,
  ◌==◌, nat_eq, find, find-assign, find-emplace, Option-cases, Bool-cases, if◌then◌else◌, eq_of_==,
  ==_refl, ◌∙◌,
}
use beldex_storage_server.Keys.{LegacyPubkey}
use beldex_storage_server.RateLimiter.{
  TokenBucket, RateLimiter, fill_bucket, remove_token, should_rate_limit, fresh_bucket, bucket_size,
}

-- A schedule of requests: who asks, and when.
abbrev pub Schedule : Type 0
Schedule = List (LegacyPubkey × ℕ)

-- The times do not decrease, from `t` on.
abbrev pub Ascending : ℕ → Schedule → Type 0
Ascending t [] = Unit
Ascending t ((k, now) ∷ rest) = (t ≤ now) × Ascending now rest

abbrev pub last_time : ℕ → Schedule → ℕ
last_time t [] = t
last_time t ((k, now) ∷ rest) = last_time now rest

last_time-le : (t : ℕ) (s : Schedule) → Ascending t s → t ≤ last_time t s
last_time-le t [] a = omega arith
last_time-le t ((k, now) ∷ rest) a = omega (arith, a.0, last_time-le now rest a.1)

-- How many requests of `pk` are let through.
pub admitted : LegacyPubkey → RateLimiter → Schedule → ℕ
admitted pk r [] = 0
admitted pk r ((k, now) ∷ rest) =
    let (r', limited) = should_rate_limit r k now in
    let count = admitted pk r' rest in
    if k == pk then (if limited then count else count + 1) else count

abbrev period_ns : ℕ
period_ns = 1666000

-- A fill adds at most what the time since the last token has earned.
fill_bucket_cost :
    (b : TokenBucket) (now : ℕ)
    → b.last_time_point ≤ now
    → let b' = (fill_bucket b now true).0 in
      (b'.num_tokens * period_ns + b.last_time_point ≤ b.num_tokens * period_ns + now)
      × (b'.last_time_point ≡ b.last_time_point)
unfolding fill_bucket
fill_bucket_cost b now h = ground arith

-- A token that is taken was there, or was earned since the last one was taken.
remove_token_cost :
    (b : TokenBucket) (now : ℕ)
    → b.last_time_point ≤ now
    → let (b', taken) = remove_token b now true in
      (b'.num_tokens * period_ns + b.last_time_point + (if taken then period_ns else 0)
        ≤ b.num_tokens * period_ns + b'.last_time_point)
      × (b'.last_time_point ≤ now)
unfolding remove_token
remove_token_cost b now h = ground (arith, fill_bucket_cost b now h)

module _ (pk : LegacyPubkey) where
  -- A request changes the bucket of its own key alone.
  find-should_rate_limit_ne :
      (r : RateLimiter) (k : LegacyPubkey) (now : ℕ)
      → (k == pk) ≡ false
      → find pk (should_rate_limit r k now).0.mnode_buckets ≡ find pk r.mnode_buckets
  unfolding should_rate_limit
  find-should_rate_limit_ne r k now h = elim (Option-cases (find k r.mnode_buckets)) [
    | inl e ↦
        rw (e, should_rate_limit)
          (ground (arith, find-emplace k pk (fresh_bucket now) r.mnode_buckets))
    | inr (b, e) ↦
        rw (e, should_rate_limit)
          (ground (arith, find-assign k pk (remove_token b now true).0 r.mnode_buckets))
  ]

  find-should_rate_limit_self :
      (r : RateLimiter) (now : ℕ) (b : TokenBucket)
      → find pk r.mnode_buckets ≡ some b
      → (find pk (should_rate_limit r pk now).0.mnode_buckets ≡ some (remove_token b now true).0)
        × ((should_rate_limit r pk now).1 ≡ not (remove_token b now true).1)
  unfolding should_rate_limit
  find-should_rate_limit_self r now b e =
      rw (e, should_rate_limit)
        (ground (arith, find-assign pk pk (remove_token b now true).0 r.mnode_buckets), refl)

  find-should_rate_limit_new :
      (r : RateLimiter) (now : ℕ)
      → find pk r.mnode_buckets ≡ none
      → (find pk (should_rate_limit r pk now).0.mnode_buckets ≡ some (fresh_bucket now))
        × ((should_rate_limit r pk now).1 ≡ false)
  unfolding should_rate_limit
  find-should_rate_limit_new r now e =
      rw (e, should_rate_limit)
        (ground (arith, find-emplace pk pk (fresh_bucket now) r.mnode_buckets), refl)

  admitted-le_of_bucket :
      (r : RateLimiter) (t : ℕ) (s : Schedule) (b : TokenBucket)
      → find pk r.mnode_buckets ≡ some b
      → b.last_time_point ≤ t
      → Ascending t s
      → admitted pk r s * period_ns + b.last_time_point ≤ b.num_tokens * period_ns + last_time t s
  unfolding admitted
  admitted-le_of_bucket r t [] b e h a = omega arith
  admitted-le_of_bucket r t ((k, now) ∷ rest) b e h a = elim (Bool-cases (k == pk)) [
    | inl same ↦
        let (found, reply) = find-should_rate_limit_self r now b e in
        rw (eq_of_== k pk same, ==_refl pk, reply)
          (ground (
            arith,
            remove_token_cost b now,
            admitted-le_of_bucket (should_rate_limit r pk now).0 now rest
                (remove_token b now true).0 found,
          ))
    | inr other ↦ rw other (
        omega (
          arith,
          admitted-le_of_bucket (should_rate_limit r k now).0 now rest b
              (find-should_rate_limit_ne r k now other ∙ e) (omega arith) a.1,
        ))
  ]

  -- In any schedule of requests at times that do not decrease, with no cleanup in between, a master
  -- node that has no bucket at the start gets at most 600 requests through, and one more for
  -- each full period of 1666 microseconds that passes.
  pub admitted-le :
      (r : RateLimiter) (t : ℕ) (s : Schedule)
      → find pk r.mnode_buckets ≡ none
      → Ascending t s
      → admitted pk r s * period_ns ≤ bucket_size * period_ns + (last_time t s - t)
  unfolding admitted
  admitted-le r t [] e a = omega arith
  admitted-le r t ((k, now) ∷ rest) e a = elim (Bool-cases (k == pk)) [
    | inl same ↦
        let (found, reply) = find-should_rate_limit_new r now e in
        rw (eq_of_== k pk same, ==_refl pk, reply)
          (omega (
            arith,
            a.0,
            last_time-le now rest a.1,
            admitted-le_of_bucket (should_rate_limit r pk now).0 now rest (fresh_bucket now) found
                (omega arith) a.1,
          ))
    | inr other ↦ rw other (
        omega (
          arith,
          a.0,
          last_time-le now rest a.1,
          admitted-le (should_rate_limit r k now).0 now rest
              (find-should_rate_limit_ne r k now other ∙ e) a.1,
        ))
  ]
