-- ===== src/HttpsServer/Address/Zeros.antt =====
-- The zeros that the text of an IPv6 address leaves out: the loop in get_remote_address of
-- httpserver/https_server.cpp.
use beldex_storage_server.Prelude.{
  ℕ, zero, suc, ◌+◌, ◌-◌, ◌<◌, ◌≤◌, ◌≡◌, ◌≢◌, ◌==◌, nat_eq, ltb, leb, arith, Bool-cases, inl, inr,
  ◌⊎◌,
}
use beldex_storage_server.HttpsServer.Address.{ZeroRun, no_run, extend, see, zero_run}

-- A run of zeros of the words before `i`.
pub record IsRun (a : ℕ → ℕ) (i s e : ℕ) : Type 0 where
  pub before : e ≤ i
  pub zeros : (k : ℕ) → s ≤ k → k < e → a k ≡ 0

-- What the loop knows before the word at `i`: the two runs are runs, the last one reaches back as far as
-- its zeros do, no run is longer than the longest, and none as long starts before it.
record Known (a : ℕ → ℕ) (i : ℕ) (z : ZeroRun) : Type 0 where
  longest : IsRun a i z.zero_start z.zero_end
  ordered : z.zero_start ≤ z.zero_end
  begun : z.start ≤ z.end
  behind : z.end ≤ i
  past : (k : ℕ) → z.end ≤ k → k < i → a k ≢ 0
  back : (s : ℕ) → s < i → z.end ≡ i → IsRun a i s i → z.start ≤ s
  current : (k : ℕ) → z.start ≤ k → k < z.end → a k ≡ 0
  most : (s e : ℕ) → s < e → IsRun a i s e → e - s ≤ z.zero_end - z.zero_start
  earliest :
      (s e : ℕ) → s < e → IsRun a i s e → e - s ≡ z.zero_end - z.zero_start → z.zero_start ≤ s

module _ (a : ℕ → ℕ) where
  shorter : (i s e : ℕ) → e ≤ i → IsRun a (i + 1) s e → IsRun a i s e
  shorter i s e h r = record { before = h; zeros = r.zeros }

  nonzero-ends : (i s e : ℕ) → a i ≢ 0 → s < e → IsRun a (i + 1) s e → e ≤ i
  nonzero-ends i s e nz h r = elim (Bool-cases (leb e i)) [
    | inl t ↦ ground arith
    | inr f ↦ absurd (nz (r.zeros i (ground (arith, r.before)) (ground (arith, r.before))))
  ]

  nonzero-past :
      (i : ℕ) (z : ZeroRun) → Known a i z → a i ≢ 0 → (k : ℕ) → z.end ≤ k → k < i + 1 → a k ≢ 0
  nonzero-past i z known nz k h l q = elim (Bool-cases (ltb k i)) [
    | inl t ↦ known.past k h (ground arith) q
    | inr f ↦ let here : k ≡ i = ground arith in nz (rw here at q)
  ]

  see-nonzero : (i : ℕ) (z : ZeroRun) → Known a i z → a i ≢ 0 → Known a (i + 1) z
  see-nonzero i z known nz = record {
    longest = record { before = omega (arith, known.longest.before); zeros = known.longest.zeros };
    ordered = known.ordered;
    begun = known.begun;
    behind = omega (arith, known.behind);
    past = nonzero-past i z known nz;
    back = λ s h e r. absurd (omega (arith, known.behind, e));
    current = known.current;
    most = λ s e h r. known.most s e h (shorter i s e (nonzero-ends i s e nz h r) r);
    earliest = λ s e h r q. known.earliest s e h (shorter i s e (nonzero-ends i s e nz h r) r) q;
  }

  -- The last run, with a zero at `i`.
  record IsLast (i start : ℕ) : Type 0 where
    within : start ≤ i
    all : (k : ℕ) → start ≤ k → k < i + 1 → a k ≡ 0
    widest : (s : ℕ) → s ≤ i → IsRun a (i + 1) s (i + 1) → start ≤ s

  last_or_before : (i k : ℕ) → a i ≡ 0 → k < i + 1 → (k < i → a k ≡ 0) → a k ≡ 0
  last_or_before i k here h before = elim (Bool-cases (ltb k i)) [
    | inl t ↦ before (ground arith)
    | inr f ↦ let same : k ≡ i = ground arith in rw same here
  ]

  continued : (i : ℕ) (z : ZeroRun) → Known a i z → a i ≡ 0 → z.end ≡ i → IsLast i z.start
  continued i z known here same = record {
    within = omega (arith, known.begun, same);
    all = λ k h l. last_or_before i k here l (λ b. known.current k h (omega (arith, b, same)));
    widest = λ s h r. elim (Bool-cases (ltb s i)) [
      | inl t ↦
          known.back s (ground arith) same
            (record { before = omega arith; zeros = λ k q l. r.zeros k q (omega (arith, l)) })
      | inr f ↦ ground (arith, known.begun, same)
    ];
  }

  begun_here : (i : ℕ) (z : ZeroRun) → Known a i z → a i ≡ 0 → z.end ≢ i → IsLast i i
  begun_here i z known here other = record {
    within = omega arith;
    all = λ k h l. last_or_before i k here l (λ b. absurd (omega (arith, h, b)));
    widest = λ s h r. elim (Bool-cases (ltb s i)) [
      | inl t ↦
          let low : s ≤ i - 1 = ground arith in
          let some_word : 1 ≤ i = ground arith in
          absurd (
            known.past (i - 1) (omega (arith, known.behind, other, some_word))
              (omega (arith, some_word)) (r.zeros (i - 1) low (omega (arith, some_word))))
      | inr f ↦ ground arith
    ];
  }

  extend-IsLast : (i : ℕ) (z : ZeroRun) → Known a i z → a i ≡ 0 → IsLast i (extend z i).start
  extend-IsLast i z known here = elim (Bool-cases (z.end == i)) [
    | inl t ↦ rw t (continued i z known here (ground arith))
    | inr f ↦ rw f (begun_here i z known here (ground arith))
  ]

  -- A run of the words up to `i` ends before `i`, or with it.
  ends_before : (i s e : ℕ) → IsRun a (i + 1) s e → (e ≤ i) ⊎ (e ≡ i + 1)
  ends_before i s e r = elim (Bool-cases (leb e i)) [
    | inl t ↦ inl (ground arith)
    | inr f ↦ inr (ground (arith, r.before))
  ]

  shorten-IsRun : (i s e : ℕ) → IsRun a (i + 1) s e → e ≡ i + 1 → IsRun a (i + 1) s (i + 1)
  shorten-IsRun i s e r q = rw q at r

  longer-Known :
      (i : ℕ) (z : ZeroRun) (start : ℕ)
      → Known a i z
      → IsLast i start
      → z.zero_end - z.zero_start < i + 1 - start
      → Known a
          (i + 1)
          (record { zero_start = start; zero_end = i + 1; start = start; end = i + 1 })
  longer-Known i z start known last new = record {
    longest = record { before = omega arith; zeros = last.all };
    ordered = omega (arith, last.within);
    begun = omega (arith, last.within);
    behind = omega arith;
    past = λ k h l. absurd (omega (arith, h, l));
    back = λ s h q r. last.widest s (omega (arith, h)) r;
    current = last.all;
    most = λ s e h r. elim (ends_before i s e r) [
      | inl b ↦ omega (arith, known.most s e h (shorter i s e b r), new)
      | inr q ↦ omega (arith, last.widest s (omega (arith, h, q)) (shorten-IsRun i s e r q), q)
    ];
    earliest = λ s e h r size. elim (ends_before i s e r) [
      | inl b ↦ absurd (omega (arith, known.most s e h (shorter i s e b r), new, size))
      | inr q ↦ last.widest s (omega (arith, h, q)) (shorten-IsRun i s e r q)
    ];
  }

  no_longer-Known :
      (i : ℕ) (z : ZeroRun) (start : ℕ)
      → Known a i z
      → IsLast i start
      → i + 1 - start ≤ z.zero_end - z.zero_start
      → Known a (i + 1) (record z { start = start; end = i + 1 })
  no_longer-Known i z start known last old = record {
    longest = record { before = omega (arith, known.longest.before); zeros = known.longest.zeros };
    ordered = known.ordered;
    begun = omega (arith, last.within);
    behind = omega arith;
    past = λ k h l. absurd (omega (arith, h, l));
    back = λ s h q r. last.widest s (omega (arith, h)) r;
    current = last.all;
    most = λ s e h r. elim (ends_before i s e r) [
      | inl b ↦ known.most s e h (shorter i s e b r)
      | inr q ↦ omega (arith, last.widest s (omega (arith, h, q)) (shorten-IsRun i s e r q), q, old)
    ];
    earliest = λ s e h r size. elim (ends_before i s e r) [
      | inl b ↦ known.earliest s e h (shorter i s e b r) size
      | inr q ↦ omega (arith, known.longest.before, known.ordered, size, q, h)
    ];
  }

  see-Known : (i : ℕ) (z : ZeroRun) → Known a i z → Known a (i + 1) (see z i (a i))
  see-Known i z known = elim (Bool-cases (a i == 0)) [
    | inr f ↦ rw f (see-nonzero i z known (ground arith))
    | inl t ↦
        let last = extend-IsLast i z known (ground arith) in
        elim (Bool-cases (ltb (z.zero_end - z.zero_start) (i + 1 - (extend z i).start))) [
          | inl l ↦ rw (t, l) (longer-Known i z (extend z i).start known last (ground arith))
          | inr l ↦ rw (t, l) (no_longer-Known i z (extend z i).start known last (ground arith))
        ]
  ]

  zero_run-Known : (n i : ℕ) (z : ZeroRun) → Known a i z → Known a (i + n) (zero_run a n i z)
  unfolding zero_run
  zero_run-Known zero i z known = let same : i + 0 ≡ i = omega arith in rw same known
  zero_run-Known (suc n) i z known =
      let same : i + suc n ≡ i + 1 + n = omega arith in
      rw same (zero_run-Known n (i + 1) (see z i (a i)) (see-Known i z known))

  none-Known : Known a 0 no_run
  none-Known = record {
    longest = record { before = omega arith; zeros = λ k h l. absurd (omega (arith, l)) };
    ordered = omega arith;
    begun = omega arith;
    behind = omega arith;
    past = λ k h l. absurd (omega (arith, l));
    back = λ s h q r. absurd (omega (arith, h));
    current = λ k h l. absurd (omega (arith, l));
    most = λ s e h r. absurd (omega (arith, h, r.before));
    earliest = λ s e h r q. absurd (omega (arith, h, r.before));
  }

  -- The run that the loop finds is a run of zeros, and any other one is shorter, or as long and starts no
  -- earlier.
  pub zero_run-longest :
      (n : ℕ)
      → let z = zero_run a n 0 no_run in
        IsRun a n z.zero_start z.zero_end
        × ((s e : ℕ)
            → s < e
            → IsRun a n s e
            → (e - s < z.zero_end - z.zero_start)
              ⊎ ((e - s ≡ z.zero_end - z.zero_start) × (z.zero_start ≤ s)))
  zero_run-longest n =
      let same : 0 + n ≡ n = omega arith in
      let known = rw same at (zero_run-Known n 0 no_run none-Known) in
      let z = zero_run a n 0 no_run in
      (
        known.longest,
        λ s e h r.
            let most = known.most s e h r in
            elim (Bool-cases (ltb (e - s) (z.zero_end - z.zero_start))) [
              | inl t ↦ inl (ground arith)
              | inr f ↦
                  let size : e - s ≡ z.zero_end - z.zero_start = ground arith in
                  inr (size, known.earliest s e h r size)
            ],
      )
