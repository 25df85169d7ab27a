-- ===== src/Reachability/Random.antt =====
-- Which node a general test picks.
use beldex_storage_server.Prelude.{
  ℕ, ◌+◌, ◌<◌, ◌≡◌, ◌≢◌, inl, inr, true, false, none, some, List, [], ◌∷◌, ◌==◌, nat_eq, ltb, arith,
  refl, ap, ◌∙◌, In, Bool-cases, Option-cases, map, ne_of_==,
}
use beldex_storage_server.Keys.{LegacyPubkey}
use beldex_storage_server.Swarm.{MnRecord, Swarm, find_node}
use beldex_storage_server.Reachability.{
  Reachability, candidate, pull, is_failing, next_of_queue, next_random, not_due,
}

candidate_sound :
    (swarm : Swarm) (failing : List LegacyPubkey) (pk : LegacyPubkey) (mn : MnRecord)
    → candidate swarm failing pk ≡ some mn
    → (find_node swarm pk ≡ some mn)
      × (pk ≢ swarm.our_address.pubkey_legacy)
      × (is_failing pk failing ≡ false)
unfolding candidate
candidate_sound swarm failing pk mn h = elim (Bool-cases (pk == swarm.our_address.pubkey_legacy)) [
  | inl t ↦ let no : none ≡ some mn = rw t at h in cc
  | inr f ↦ elim (Bool-cases (is_failing pk failing)) [
    | inl t ↦ let no : none ≡ some mn = rw (f, t) at h in cc
    | inr g ↦ (rw (f, g) at h, ne_of_== pk swarm.our_address.pubkey_legacy f, g)
  ]
]

pull_sound :
    (swarm : Swarm) (failing queue : List LegacyPubkey) (mn : MnRecord)
    → (pull swarm failing queue).1 ≡ some mn
    → (pk : LegacyPubkey) × In pk queue
      × (find_node swarm pk ≡ some mn)
      × (pk ≢ swarm.our_address.pubkey_legacy)
      × (is_failing pk failing ≡ false)
unfolding pull
pull_sound swarm failing [] mn h = cc
pull_sound swarm failing (pk ∷ rest) mn h = elim (Option-cases (candidate swarm failing pk)) [
  | inl e ↦
      let (k, i, a, b, c) = pull_sound swarm failing rest mn (rw (e, pull) at h) in
      (k, inr i, a, b, c)
  | inr (x, e) ↦
      let same : some x ≡ some mn = rw (e, pull) at h in
      let (a, b, c) = candidate_sound swarm failing pk mn (e ∙ same) in (pk, inl refl, a, b, c)
]

-- A node that a general test picks is in the queue and registered, is not this node, and is not one
-- of the failing nodes.
next_of_queue_sound :
    (r : Reachability) (swarm : Swarm) (now interval : ℕ) (mn : MnRecord)
    → (next_of_queue r swarm now interval).1 ≡ some mn
    → (pk : LegacyPubkey) × In pk r.testing_queue
      × (find_node swarm pk ≡ some mn)
      × (pk ≢ swarm.our_address.pubkey_legacy)
      × (is_failing pk r.failing ≡ false)
unfolding next_of_queue
next_of_queue_sound r swarm now interval mn h =
    elim (Bool-cases (not_due r.next_general_test now)) [
      | inl t ↦ (let no : none ≡ some mn = rw t at h in cc)
      | inr f ↦ pull_sound swarm r.failing r.testing_queue mn (rw f at h)
    ]

too_early :
    (r : Reachability) (swarm : Swarm) (now interval : ℕ)
    → not_due r.next_general_test now ≡ true
    → next_of_queue r swarm now interval ≡ (r, none)
unfolding next_of_queue
too_early r swarm now interval h = rw h refl

next_test-set :
    (r : Reachability) (swarm : Swarm) (now interval : ℕ)
    → not_due r.next_general_test now ≡ false
    → (next_of_queue r swarm now interval).0.next_general_test ≡ some (now + interval)
unfolding next_of_queue
next_test-set r swarm now interval h = rw h refl

-- When the queue holds no node to test, next_random fills it but tests none, for every draw above
-- zero: its call of itself finds the time of the next test in the future.
next_random-refill :
    (shuffle : List LegacyPubkey → List LegacyPubkey) (r : Reachability) (swarm : Swarm)
    (now interval interval' : ℕ)
    → 0 < interval
    → not_due r.next_general_test now ≡ false
    → (next_of_queue r swarm now interval).1 ≡ none
    → ((next_random shuffle r swarm now interval interval').1 ≡ none)
      × ((next_random shuffle r swarm now interval interval').0.testing_queue
          ≡ shuffle (map (λ n. n.0) swarm.all_funded_nodes))
unfolding next_random
next_random-refill shuffle r swarm now interval interval' pos due empty =
    let r' : Reachability = record (next_of_queue r swarm now interval).0 {
      testing_queue = shuffle (map (λ n. n.0) swarm.all_funded_nodes);
    } in
    let late : ltb now (now + interval) ≡ true = ground arith in
    let later : not_due r'.next_general_test now ≡ true =
      ap (λ t. not_due t now) (next_test-set r swarm now interval due) ∙ late in
    rw (due, empty, too_early r' swarm now interval' later) (refl, refl)
