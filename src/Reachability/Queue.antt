-- ===== src/Reachability/Queue.antt =====
-- Which nodes get_failing and next_random give.
use beldex_storage_server.Prelude.{
  ℕ, ◌+◌, ◌≤◌, ◌<◌, ◌≡◌, ◌⊎◌, inl, inr, true, not, ◌||◌, List, [], ◌∷◌, ◌==◌, nat_eq, ltb, select,
  arith, In, All, All-of-In, Pairwise, length, Bool-cases, Option-cases,
}
use beldex_storage_server.Keys.{LegacyPubkey}
use beldex_storage_server.Swarm.{Swarm, find_node}
use beldex_storage_server.Reachability.{
  Failing, Reachability, take_failing, get_failing, push_failing, add_failing_node,
  max_retests_per_tick,
}

-- The order of the priority queue.
abbrev pub Sooner : Failing → Failing → Type 0
Sooner a b = a.retest_time ≤ b.retest_time

push_front : (f g x : Failing) (fs : List Failing) → In g (f ∷ x ∷ fs) → (g ≡ f) ⊎ In g (x ∷ fs)
push_front f g x fs (inl e) = inl e
push_front f g x fs (inr i) = inr i

push_later :
    (f g x : Failing) (fs rest : List Failing)
    → (In g rest → (g ≡ f) ⊎ In g fs)
    → In g (x ∷ rest)
    → (g ≡ f) ⊎ In g (x ∷ fs)
push_later f g x fs rest k (inl e) = inr (inl e)
push_later f g x fs rest k (inr i) = elim (k i) [ inl e ↦ inl e | inr j ↦ inr (inr j) ]

push_failing-In : (f g : Failing) (fs : List Failing) → In g (push_failing f fs) → (g ≡ f) ⊎ In g fs
unfolding push_failing
push_failing-In f g [] i = ground arith
push_failing-In f g (x ∷ fs) i = elim (Bool-cases (ltb f.retest_time x.retest_time)) [
  | inl t ↦ push_front f g x fs (rw t at i)
  | inr h ↦ push_later f g x fs (push_failing f fs) (push_failing-In f g fs) (rw h at i)
]

push_failing-Sooner :
    (f : Failing) (fs : List Failing) → Pairwise Sooner fs → Pairwise Sooner (push_failing f fs)
unfolding push_failing
push_failing-Sooner f [] h = (λ y i. absurd i, tt)
push_failing-Sooner f (x ∷ fs) h = elim (Bool-cases (ltb f.retest_time x.retest_time)) [
  | inl t ↦
      rw t (λ y i. elim i [ inl e ↦ ground arith | inr j ↦ let le = h.0 y j in ground arith ], h)
  | inr g ↦ rw g (
    λ y i. elim (push_failing-In f y fs i) [ inl e ↦ ground arith | inr j ↦ h.0 y j ],
    push_failing-Sooner f fs h.1,
  )
]

-- The loop takes at most four nodes.
length-take_failing :
    (swarm : Swarm) (now size : ℕ) (fs : List Failing) (failing : List LegacyPubkey)
    → size ≤ max_retests_per_tick
    → size + length (take_failing swarm now size fs failing).0 ≤ max_retests_per_tick
unfolding take_failing
length-take_failing swarm now size [] failing h = omega (arith, h)
length-take_failing swarm now size (f ∷ fs) failing h =
    elim (Bool-cases (not (ltb size max_retests_per_tick) || ltb now f.retest_time)) [
      | inl t ↦ rw t (omega (arith, h))
      | inr g ↦ elim (Option-cases (find_node swarm f.pk)) [
        | inl e ↦
            rw (g, e)
              (length-take_failing swarm now size fs (select (λ x. not (x == f.pk)) failing) h)
        | inr (mn, e) ↦
            let rest = length-take_failing swarm now (size + 1) fs failing (ground arith) in
            rw (g, e) (omega arith)
      ]
    ]

later-All :
    (now : ℕ) (f : Failing) (fs : List Failing)
    → Pairwise Sooner (f ∷ fs)
    → now < f.retest_time
    → All (λ (g : Failing). now < g.retest_time) (f ∷ fs)
later-All now f fs h l = (
  l,
  All-of-In (λ (g : Failing). now < g.retest_time) fs
      (λ g i. let le = h.0 g i in omega (arith, le, l)),
)

stopped :
    (swarm : Swarm) (now size : ℕ) (f : Failing) (fs : List Failing)
    → Pairwise Sooner (f ∷ fs)
    → (not (ltb size max_retests_per_tick) || ltb now f.retest_time) ≡ true
    → All (λ (g : Failing). now < g.retest_time) (f ∷ fs) ⊎ (max_retests_per_tick ≤ size + 0)
stopped swarm now size f fs h t = elim (Bool-cases (ltb now f.retest_time)) [
  | inl due ↦ inl (later-All now f fs h (ground arith))
  | inr over ↦ inr (ground arith)
]

-- What the loop leaves is due later, unless it has taken four nodes.
take_failing-rest :
    (swarm : Swarm) (now size : ℕ) (fs : List Failing) (failing : List LegacyPubkey)
    → Pairwise Sooner fs
    → All (λ (g : Failing). now < g.retest_time) (take_failing swarm now size fs failing).1
      ⊎ (max_retests_per_tick ≤ size + length (take_failing swarm now size fs failing).0)
unfolding take_failing
take_failing-rest swarm now size [] failing h = inl tt
take_failing-rest swarm now size (f ∷ fs) failing h =
    elim (Bool-cases (not (ltb size max_retests_per_tick) || ltb now f.retest_time)) [
      | inl t ↦ rw t (stopped swarm now size f fs h t)
      | inr c ↦ elim (Option-cases (find_node swarm f.pk)) [
        | inl e ↦
            rw (c, e)
              (take_failing-rest swarm now size fs (select (λ x. not (x == f.pk)) failing) h.1)
        | inr (mn, e) ↦
            rw (c, e)
              (elim (take_failing-rest swarm now (size + 1) fs failing h.1) [
                | inl later ↦ inl later
                | inr full ↦ inr (omega (arith, full))
              ])
      ]
    ]

take_failing-Sooner :
    (swarm : Swarm) (now size : ℕ) (fs : List Failing) (failing : List LegacyPubkey)
    → Pairwise Sooner fs
    → Pairwise Sooner (take_failing swarm now size fs failing).1
unfolding take_failing
take_failing-Sooner swarm now size [] failing h = tt
take_failing-Sooner swarm now size (f ∷ fs) failing h =
    elim (Bool-cases (not (ltb size max_retests_per_tick) || ltb now f.retest_time)) [
      | inl t ↦ rw t h
      | inr c ↦ elim (Option-cases (find_node swarm f.pk)) [
        | inl e ↦
            rw (c, e)
              (take_failing-Sooner swarm now size fs (select (λ x. not (x == f.pk)) failing) h.1)
        | inr (mn, e) ↦ rw (c, e) (take_failing-Sooner swarm now (size + 1) fs failing h.1)
      ]
    ]

-- The queue of failing nodes stays in the order of its retest times, under a new failure and under
-- get_failing. get_failing gives at most four nodes; and the queue that it leaves holds no node that is
-- due, or it gives four.
pub get_failing_lem :
    (r : Reachability) (swarm : Swarm) (pk : LegacyPubkey) (failures now interval : ℕ)
    → Pairwise Sooner r.failing_queue
    → Pairwise Sooner (add_failing_node r pk failures now interval).failing_queue
      × Pairwise Sooner (get_failing r swarm now).0.failing_queue
      × (length (get_failing r swarm now).1 ≤ max_retests_per_tick)
      × (All (λ (g : Failing). now < g.retest_time) (get_failing r swarm now).0.failing_queue
          ⊎ (max_retests_per_tick ≤ length (get_failing r swarm now).1))
unfolding get_failing add_failing_node
get_failing_lem r swarm pk failures now interval h = (
  push_failing-Sooner _ r.failing_queue h,
  take_failing-Sooner swarm now 0 r.failing_queue r.failing h,
  (let few = length-take_failing swarm now 0 r.failing_queue r.failing (omega arith) in
      omega arith),
  elim (take_failing-rest swarm now 0 r.failing_queue r.failing h) [
    | inl later ↦ inl later
    | inr full ↦ inr (omega (arith, full))
  ],
)
