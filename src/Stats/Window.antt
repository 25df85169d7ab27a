-- ===== src/Stats/Window.antt =====
-- What the recent counts cover.
use beldex_storage_server.Prelude.{
  ℕ, ◌+◌, ◌≤◌, ◌≡◌, ◌⊎◌, List, [], ◌∷◌, ◌++◌, arith, length, leb, Bool-cases, inl, inr, refl, ap,
  ◌∙◌, length-append,
}
use beldex_storage_server.Stats.{
  add_period, AllStats, PeriodStats, no_requests, Kind, store, retrieve, proxy, onion, bump,
  bump_requests, pop_old, cleanup, add_periods, get_recent_requests,
}

-- What happens to the counters: a request of a kind, or a clean-up.
pub data Event : Type 0 where
  request : Kind → Event
  rotate : ℕ → Event

pub handle : AllStats → Event → AllStats
unfolding bump_requests cleanup
handle s (request kind) = bump_requests kind s
handle s (rotate now) = cleanup s now

pub handle_all : AllStats → List Event → AllStats
unfolding handle
handle_all s [] = s
handle_all s (e ∷ es) = handle_all (handle s e) es

-- The number of the requests of one kind.
unfoldable pub requests : Kind → PeriodStats → ℕ
requests store p = p.client_store_requests
requests retrieve p = p.client_retrieve_requests
requests proxy p = p.proxy_requests
requests onion p = p.onion_requests

unfoldable pub requests_in : Kind → List (ℕ × PeriodStats) → ℕ
unfolding requests
requests_in kind [] = 0
requests_in kind ((ts, ps) ∷ rest) = requests kind ps + requests_in kind rest

length-pop_old : (ps : List (ℕ × PeriodStats)) → length (pop_old ps) ≤ 5
unfolding pop_old
length-pop_old [] = omega arith
length-pop_old (p ∷ ps) = ground (arith, length-pop_old ps)

pop_old-long : (ps : List (ℕ × PeriodStats)) → 5 ≤ length ps → length (pop_old ps) ≡ 5
unfolding pop_old
pop_old-long [] h = absurd (omega arith)
pop_old-long (p ∷ ps) h = elim (Bool-cases (leb 5 (length ps))) [
  | inl t ↦ let rest : 5 ≤ length ps = ground arith in ground (arith, pop_old-long ps rest)
  | inr f ↦ ground arith
]

requests_in-pop_old :
    (kind : Kind) (ps : List (ℕ × PeriodStats))
    → requests_in kind (pop_old ps) ≤ requests_in kind ps
unfolding pop_old requests_in
requests_in-pop_old kind [] = omega arith
requests_in-pop_old kind (p ∷ ps) = ground (arith, requests_in-pop_old kind ps)

requests_in-append :
    (kind : Kind) (ps : List (ℕ × PeriodStats)) (q : ℕ × PeriodStats)
    → requests_in kind (ps ++ q ∷ []) ≡ requests_in kind ps + requests kind q.1
unfolding requests_in
requests_in-append kind [] q = omega arith
requests_in-append kind (p ∷ ps) q = ground (arith, requests_in-append kind ps q)

requests-add_period :
    (kind : Kind) (p q : PeriodStats)
    → requests kind (add_period p q) ≡ requests kind p + requests kind q
unfolding add_period requests
requests-add_period store p q = refl
requests-add_period retrieve p q = refl
requests-add_period proxy p q = refl
requests-add_period onion p q = refl

requests-add_periods :
    (kind : Kind) (ps : List (ℕ × PeriodStats)) (stats : PeriodStats)
    → requests kind (add_periods stats ps) ≡ requests kind stats + requests_in kind ps
unfolding add_periods requests_in
requests-add_periods kind [] stats = omega arith
requests-add_periods kind ((ts, p) ∷ ps) stats =
    let rest = requests-add_periods kind ps (add_period stats p) in
    let one = requests-add_period kind stats p in omega arith

pop_old-short : (ps : List (ℕ × PeriodStats)) → length ps ≤ 5 → pop_old ps ≡ ps
unfolding pop_old
pop_old-short [] h = refl
pop_old-short (p ∷ ps) h = ground arith

-- The counts of the kept periods and the current one are the total, unless six are kept: then they
-- are at most the total.
abbrev pub Covers : Kind → AllStats → Type 0
Covers kind s =
    let recent = requests kind s.current + requests_in kind s.previous_stats in
    ((length s.previous_stats ≤ 5) × (recent ≡ requests kind s.total))
    ⊎ ((length s.previous_stats ≡ 6) × (recent ≤ requests kind s.total))

bump-Covers :
    (kind other : Kind) (s : AllStats) → Covers kind s → Covers kind (bump_requests other s)
unfolding bump_requests bump requests
bump-Covers store store s c = ground (arith, c)
bump-Covers store retrieve s c = c
bump-Covers store proxy s c = c
bump-Covers store onion s c = c
bump-Covers retrieve store s c = c
bump-Covers retrieve retrieve s c = ground (arith, c)
bump-Covers retrieve proxy s c = c
bump-Covers retrieve onion s c = c
bump-Covers proxy store s c = c
bump-Covers proxy retrieve s c = c
bump-Covers proxy proxy s c = ground (arith, c)
bump-Covers proxy onion s c = c
bump-Covers onion store s c = c
bump-Covers onion retrieve s c = c
bump-Covers onion proxy s c = c
bump-Covers onion onion s c = ground (arith, c)

no-requests : (kind : Kind) → requests kind no_requests ≡ 0
unfolding requests
no-requests store = refl
no-requests retrieve = refl
no-requests proxy = refl
no-requests onion = refl

cleanup-Covers :
    (kind : Kind) (s : AllStats) (now : ℕ) → Covers kind s → Covers kind (cleanup s now)
unfolding cleanup
cleanup-Covers kind s now c =
    let n = length-append (pop_old s.previous_stats) ((s.last_rotate, s.current) ∷ []) in
    let sum = requests_in-append kind (pop_old s.previous_stats) (s.last_rotate, s.current) in
    let few = length-pop_old s.previous_stats in
    let less = requests_in-pop_old kind s.previous_stats in
    let z = no-requests kind in
    elim c [
      | inl (l, e) ↦
          let same = pop_old-short s.previous_stats l in
          let k = ap length same in let m = ap (requests_in kind) same in ground arith
      | inr (l, e) ↦
          let k = pop_old-long s.previous_stats (omega arith) in inr (n ∙ omega arith, omega arith)
    ]

-- From a start with no requests, the recent counts of each kind never exceed the number of all
-- requests of the kind, and are that number while at most five clean-ups' periods are kept; at most
-- six are ever kept.
pub recent-total :
    (kind : Kind) (s : AllStats) (es : List Event) (now : ℕ)
    → Covers kind s
    → let s' = handle_all s es in
      let recent = requests kind (get_recent_requests s' now).1 in
      ((length s'.previous_stats ≤ 5) × (recent ≡ requests kind s'.total))
      ⊎ ((length s'.previous_stats ≡ 6) × (recent ≤ requests kind s'.total))
unfolding handle_all handle get_recent_requests
recent-total kind s [] now c = rw (requests-add_periods kind s.previous_stats s.current) c
recent-total kind s (request other ∷ es) now c =
    recent-total kind (bump_requests other s) es now (bump-Covers kind other s c)
recent-total kind s (rotate at ∷ es) now c =
    recent-total kind (cleanup s at) es now (cleanup-Covers kind s at c)
