-- ===== src/RateLimiter/Invariant.antt =====
-- Bounds that every operation of the rate limiter keeps: on the tokens of a bucket, and on the
-- number of client buckets.
use beldex_storage_server.Prelude.{
  ℕ, ◌+◌, ◌≤◌, ◌≡◌, Bool, true, false, some, List, [], ◌∷◌, arith, inl, inr, nat_eq, find, emplace,
  assign, length, All, Option-cases, Bool-cases, leb,
}
use beldex_storage_server.RateLimiter.{
  TokenBucket, RateLimiter, Event, mnode_request, client_request, timer, bucket_size, max_clients,
  fill_bucket, remove_token, clean, clean_buckets, should_rate_limit, add_client, fresh_bucket,
  should_rate_limit_client, step, run,
}

abbrev pub Bounded : ℕ × TokenBucket → Type 0
Bounded (k, b) = b.num_tokens ≤ bucket_size

pub record IsValid (r : RateLimiter) : Type 0 where
  pub mnodes : All Bounded r.mnode_buckets
  pub clients : All Bounded r.client_buckets
  pub room : length r.client_buckets ≤ max_clients

pub fill_bucket-le :
    (b : TokenBucket) (now : ℕ) (mn : Bool) → (fill_bucket b now mn).0.num_tokens ≤ bucket_size
unfolding fill_bucket
fill_bucket-le b now mn = ground arith

remove_token-le :
    (b : TokenBucket) (now : ℕ) (mn : Bool) → (remove_token b now mn).0.num_tokens ≤ bucket_size
unfolding remove_token
remove_token-le b now mn = ground (arith, fill_bucket-le b now mn)

clean-Bounded : (now : ℕ) (mn : Bool) (m : List (ℕ × TokenBucket)) → All Bounded (clean now mn m)
unfolding clean
clean-Bounded now mn [] = tt
clean-Bounded now mn ((k, b) ∷ m) = ground (arith, clean-Bounded now mn m, fill_bucket-le b now mn)

pub length-clean :
    (now : ℕ) (mn : Bool) (m : List (ℕ × TokenBucket)) → length (clean now mn m) ≤ length m
unfolding clean
length-clean now mn [] = omega arith
length-clean now mn ((k, b) ∷ m) = ground (arith, length-clean now mn m)

emplace-Bounded :
    (k : ℕ) (b : TokenBucket) (m : List (ℕ × TokenBucket))
    → b.num_tokens ≤ bucket_size
    → All Bounded m
    → All Bounded (emplace k b m)
unfolding emplace
emplace-Bounded k b [] h a = (h, tt)
emplace-Bounded k b ((j, c) ∷ m) h a = ground (arith, emplace-Bounded k b m h a.1)

assign-Bounded :
    (k : ℕ) (b : TokenBucket) (m : List (ℕ × TokenBucket))
    → b.num_tokens ≤ bucket_size
    → All Bounded m
    → All Bounded (assign k b m)
unfolding assign
assign-Bounded k b [] h a = (h, tt)
assign-Bounded k b ((j, c) ∷ m) h a = ground (arith, assign-Bounded k b m h a.1)

length-emplace :
    (k : ℕ) (b : TokenBucket) (m : List (ℕ × TokenBucket)) → length (emplace k b m) ≤ length m + 1
unfolding emplace
length-emplace k b [] = omega arith
length-emplace k b ((j, c) ∷ m) = ground (arith, length-emplace k b m)

length-assign :
    (k : ℕ) (b c : TokenBucket) (m : List (ℕ × TokenBucket))
    → find k m ≡ some c
    → length (assign k b m) ≡ length m
unfolding assign find
length-assign k b c [] h = cc
length-assign k b c ((j, d) ∷ m) h = ground (arith, length-assign k b c m)

clean_buckets-IsValid : (r : RateLimiter) (now : ℕ) → IsValid r → IsValid (clean_buckets r now)
unfolding clean_buckets
clean_buckets-IsValid r now v = record {
  mnodes = clean-Bounded now true r.mnode_buckets;
  clients = clean-Bounded now false r.client_buckets;
  room = omega (arith, length-clean now false r.client_buckets, v.room);
}

should_rate_limit-IsValid :
    (r : RateLimiter) (pubkey now : ℕ) → IsValid r → IsValid (should_rate_limit r pubkey now).0
unfolding should_rate_limit
should_rate_limit-IsValid r pubkey now v = elim (Option-cases (find pubkey r.mnode_buckets)) [
  | inl e ↦
      rw (e, should_rate_limit)
        (record {
          mnodes = emplace-Bounded pubkey _ r.mnode_buckets (omega arith) v.mnodes;
          clients = v.clients;
          room = v.room;
        })
  | inr (b, e) ↦
      rw (e, should_rate_limit)
        (record {
          mnodes = assign-Bounded pubkey _ r.mnode_buckets (remove_token-le b now true) v.mnodes;
          clients = v.clients;
          room = v.room;
        })
]

add_client-IsValid :
    (r : RateLimiter) (ip now : ℕ)
    → leb max_clients (length r.client_buckets) ≡ false
    → IsValid r
    → IsValid (add_client r ip now)
add_client-IsValid r ip now h v = record {
  mnodes = v.mnodes;
  clients = emplace-Bounded ip (fresh_bucket now) r.client_buckets (omega arith) v.clients;
  room = ground (arith, length-emplace ip (fresh_bucket now) r.client_buckets);
}

should_rate_limit_client-IsValid :
    (r : RateLimiter) (ip now : ℕ) → IsValid r → IsValid (should_rate_limit_client r ip now).0
unfolding should_rate_limit_client
should_rate_limit_client-IsValid r ip now v = elim (Option-cases (find ip r.client_buckets)) [
  | inr (b, e) ↦
      rw (e, should_rate_limit_client)
        (record {
          mnodes = v.mnodes;
          clients = assign-Bounded ip _ r.client_buckets (remove_token-le b now false) v.clients;
          room =
              omega
                (arith, v.room, length-assign ip (remove_token b now false).0 b r.client_buckets e);
        })
  | inl e ↦ elim (Bool-cases (leb max_clients (length r.client_buckets))) [
    | inr room ↦
        rw (e, should_rate_limit_client)
          (rw (room, should_rate_limit_client) (add_client-IsValid r ip now room v))
    | inl full ↦ elim (Bool-cases (leb max_clients (length (clean_buckets r now).client_buckets))) [
      | inr room ↦
          rw (e, should_rate_limit_client)
            (rw (full, should_rate_limit_client)
              (rw (room, should_rate_limit_client)
                (add_client-IsValid (clean_buckets r now) ip now room
                  (clean_buckets-IsValid r now v))))
      | inl still ↦
          rw (e, should_rate_limit_client)
            (rw (full, should_rate_limit_client)
              (rw (still, should_rate_limit_client) (clean_buckets-IsValid r now v)))
    ]
  ]
]

pub step-IsValid : (r : RateLimiter) (now : ℕ) (e : Event) → IsValid r → IsValid (step r (now, e))
unfolding step
step-IsValid r now (mnode_request pubkey) v = should_rate_limit-IsValid r pubkey now v
step-IsValid r now (client_request ip) v = should_rate_limit_client-IsValid r ip now v
step-IsValid r now timer v = clean_buckets-IsValid r now v

-- Whatever requests and timer ticks reach the limiter, at whatever times: no bucket ever holds more
-- than 600 tokens, and there are never more than 10000 client buckets.
pub run-IsValid : (r : RateLimiter) (es : List (ℕ × Event)) → IsValid r → IsValid (run r es)
unfolding run
run-IsValid r [] v = v
run-IsValid r ((now, e) ∷ es) v = run-IsValid (step r (now, e)) es (step-IsValid r now e v)
