-- ===== src/RateLimiter/Cleaning.antt =====
-- What a cleanup does to the buckets, and when a client is let through.
use beldex_storage_server.Prelude.{
  ℕ, ◌+◌, ◌-◌, ◌/◌, ◌*◌, ◌≤◌, ◌<◌, ◌≡◌, true, false, some, arith, nat_eq, find, List, [], ◌∷◌, ◌==◌,
  Bool-cases, inl, inr, refl, ==_refl, find-assign, ◌⊎◌,
}
use beldex_storage_server.Keys.{LegacyPubkey}
use beldex_storage_server.RateLimiter.{
  TokenBucket, RateLimiter, bucket_size, fill_bucket, remove_token, clean, clean_buckets,
  should_rate_limit, should_rate_limit_client,
}

-- A client whose bucket had a token, or who has waited for a token period since its last admitted
-- request, is let through.
client_admitted :
    (r : RateLimiter) (ip now : ℕ) (b : TokenBucket)
    → find ip r.client_buckets ≡ some b
    → b.num_tokens ≤ bucket_size
    → b.last_time_point ≤ now
    → (0 < b.num_tokens) ⊎ (b.last_time_point + 3333000 ≤ now)
    → (should_rate_limit_client r ip now).1 ≡ false
unfolding should_rate_limit_client
client_admitted r ip now b e bounded order h = rw (e, should_rate_limit_client) (ground arith)

-- The tokens that a bucket of a master node earns until `now`.
abbrev pub earned : TokenBucket → ℕ → ℕ
earned b now = (now - b.last_time_point) / 1000 / 1666

not_full :
    (b : TokenBucket) (now : ℕ)
    → b.last_time_point ≤ now
    → b.num_tokens + 2 * earned b now < bucket_size
    → (fill_bucket b now true).1 ≡ false
unfolding fill_bucket
not_full b now order room = ground arith

tokens_after :
    (b : TokenBucket) (now : ℕ)
    → b.last_time_point ≤ now
    → 0 < earned b now
    → b.num_tokens + 2 * earned b now < bucket_size
    → ((remove_token b now true).0.num_tokens + 1 ≡ b.num_tokens + earned b now)
      × ((remove_token (fill_bucket b now true).0 now true).0.num_tokens + 1
          ≡ b.num_tokens + 2 * earned b now)
unfolding remove_token
tokens_after b now order pos room = ground arith

find-clean :
    (pk now : ℕ) (b : TokenBucket) (m : List (ℕ × TokenBucket))
    → find pk m ≡ some b
    → (fill_bucket b now true).1 ≡ false
    → find pk (clean now true m) ≡ some (fill_bucket b now true).0
unfolding find clean
find-clean pk now b [] h f = cc
find-clean pk now b ((k, c) ∷ m) h f = elim (Bool-cases (k == pk)) [
  | inl t ↦
      let same : some c ≡ some b = rw t at h in
      let first : c ≡ b = ground arith in rw (first, f, t) refl
  | inr g ↦
      let rest = find-clean pk now b m (rw g at h) f in
      elim (Bool-cases (fill_bucket c now true).1) [
        | inl full ↦ rw full rest
        | inr kept ↦ rw (kept, g) rest
      ]
]

find-should_rate_limit :
    (r : RateLimiter) (pk now : ℕ) (b : TokenBucket)
    → find pk r.mnode_buckets ≡ some b
    → find pk (should_rate_limit r pk now).0.mnode_buckets ≡ some (remove_token b now true).0
unfolding should_rate_limit
find-should_rate_limit r pk now b h =
    let same = ==_refl pk in
    rw (h, should_rate_limit, find-assign pk pk (remove_token b now true).0 r.mnode_buckets, same)
      refl

-- The bucket of a master node, that has earned some tokens since its last one and has room for twice as
-- many, is charged a token by the next request and credited with the tokens that it has earned. But if a cleanup
-- comes right before the request, they are credited twice: clean_buckets keeps the old time stamp.
pub credited_twice :
    (r : RateLimiter) (pubkey : LegacyPubkey) (now : ℕ) (b : TokenBucket)
    → find pubkey r.mnode_buckets ≡ some b
    → b.last_time_point ≤ now
    → 0 < earned b now
    → b.num_tokens + 2 * earned b now < bucket_size
    → ((c : TokenBucket) × (find pubkey (should_rate_limit r pubkey now).0.mnode_buckets ≡ some c)
        × (c.num_tokens + 1 ≡ b.num_tokens + earned b now))
      × ((c : TokenBucket) × (find pubkey
              (should_rate_limit (clean_buckets r now) pubkey now).0.mnode_buckets
            ≡ some c)
          × (c.num_tokens + 1 ≡ b.num_tokens + 2 * earned b now))
unfolding clean_buckets
credited_twice r pubkey now b h order pos room =
    let (once, twice) = tokens_after b now order pos room in
    let cleaned = find-clean pubkey now b r.mnode_buckets h (not_full b now order room) in
    (
      ((remove_token b now true).0, find-should_rate_limit r pubkey now b h, once),
      (
        (remove_token (fill_bucket b now true).0 now true).0,
        find-should_rate_limit (clean_buckets r now) pubkey now (fill_bucket b now true).0 cleaned,
        twice,
      ),
    )
