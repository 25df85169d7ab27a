-- ===== src/Utils/Uniform.antt =====
-- The portable uniform distribution of utils/src/utils.cpp: it ends with the first draw below
-- secure_max, and gives each number below `n` for as many draws.
use beldex_storage_server.Prelude.{
  ℕ, zero, suc, ◌+◌, ◌-◌, ◌*◌, ◌/◌, ◌%◌, ◌<◌, ◌≤◌, ◌≡◌, ◌↔◌, refl, ap, ◌⊎◌, some, ltb, arith,
  Bool-cases, inl, inr,
}
use native.Mathlib.Nat.{div-lt_iff_lt-mul, lt-mul-div-succ, mul-div-le, le-div_iff_mul-le, mul_comm}
use beldex_storage_server.Utils.{mt_max, secure_max, uniform_loop, uniform_distribution_portable}

-- The number that the draw `x` stands for.
abbrev bucket : ℕ → ℕ → ℕ
bucket n x = x / (secure_max n / n)

secure_max-mul : (n : ℕ) → 0 < n → secure_max n ≡ n * (secure_max n / n)
unfolding secure_max
secure_max-mul n h = grind arith

le-sub-mod : (m n : ℕ) → 0 < n → n ≤ m → n ≤ m - m % n
le-sub-mod m n h k = grind arith

quotient_pos : (n : ℕ) → 0 < n → n ≤ mt_max → 0 < secure_max n / n
unfolding secure_max
quotient_pos n h k =
    (le-div_iff_mul-le {k = n} {x = 1} {y = secure_max n} h).1
      (omega (arith, le-sub-mod mt_max n h k))

bucket-lt : (n x : ℕ) → 0 < n → n ≤ mt_max → x < secure_max n → bucket n x < n
bucket-lt n x h k l =
    (div-lt_iff_lt-mul {k = secure_max n / n} (quotient_pos n h k)).1 (rw (← secure_max-mul n h) l)

distrib : (q r : ℕ) → q * (r + 1) ≡ q * r + q
distrib q r = grind arith

-- A draw stands for `r` exactly if it lies in the interval of `r`.
bucket_interval : (q x r : ℕ) → 0 < q → (x / q ≡ r) ↔ ((q * r ≤ x) × (x < q * r + q))
bucket_interval q x r h = (
  λ e. (rw (← e) (mul-div-le x q), omega (arith, rw e at (lt-mul-div-succ x h), distrib q r)),
  λ b. omega (
    arith,
    (le-div_iff_mul-le {k = q} {x = r} {y = x} h).1 (omega (arith, mul_comm r q, b.0)),
    (div-lt_iff_lt-mul {k = q} {x = x} {y = r + 1} h).1
        (omega (arith, mul_comm (r + 1) q, distrib q r, b.1)),
  ),
)

zero_or_pos : (i : ℕ) → (i ≡ 0) ⊎ (0 < i)
zero_or_pos zero = inl refl
zero_or_pos (suc i) = inr (omega arith)

le-of-mul : (n q r m : ℕ) → m ≡ n * q → r < n → q * r + q ≤ m
le-of-mul n q r m e l = grind arith

module _ (draws : ℕ → ℕ) (n : ℕ) (h : 0 < n) (k : n ≤ mt_max) where
  loop_first :
      (fuel p i : ℕ)
      → i < fuel
      → draws (p + i) < secure_max n
      → (q : ℕ) × (p ≤ q)
        × (uniform_loop fuel draws p n ≡ some (bucket n (draws q), q + 1))
        × (draws q < secure_max n)
        × ((e : ℕ) → (e < p) ⊎ (q ≤ e) ⊎ (secure_max n ≤ draws e))
  unfolding uniform_loop
  loop_first zero p i f d = absurd (omega arith)
  loop_first (suc fuel) p i f d = elim (Bool-cases (ltb (draws p) (secure_max n))) [
    | inl hit ↦ rw hit (
      p,
      omega arith,
      refl,
      ground arith,
      λ e. elim (Bool-cases (ltb e p)) [
        | inl t ↦ inl (ground arith)
        | inr g ↦ inr (inl (ground arith))
      ],
    )
    | inr miss ↦
        let pos : 0 < i = elim (zero_or_pos i) [
          | inl e ↦ let same : draws (p + i) ≡ draws p = ap draws (omega arith) in ground arith
          | inr g ↦ g
        ] in
        let next : p + 1 + (i - 1) ≡ p + i = omega arith in
        let (q, le, e, low, first) = loop_first fuel (p + 1) (i - 1) (omega arith) (rw next d) in
        rw miss (
          q,
          omega (arith, le),
          e,
          low,
          λ x. elim (first x) [
            | inl l ↦ elim (Bool-cases (ltb x p)) [
              | inl t ↦ inl (ground arith)
              | inr g ↦ let same : x ≡ p = ground (arith, l) in inr (inr (rw same (ground arith)))
            ]
            | inr rest ↦ inr rest
          ],
        )
  ]

-- For `n` from 1 to the largest draw, if one of the draws that the fuel allows is below secure_max, the
-- loop ends with the number for the first such draw, which is below `n`: it is `r` exactly if that draw
-- lies in the interval of `r`. All `r` below `n` have intervals of secure_max / n numbers, which lie below secure_max.
pub uniform_distribution_portable_lem :
    (draws : ℕ → ℕ) (n : ℕ)
    → 0 < n
    → n ≤ mt_max
    → (fuel p i : ℕ) → i < fuel
    → draws (p + i) < secure_max n
    → (r : ℕ) → r < n
    → ((q v : ℕ) × (p ≤ q)
        × (uniform_distribution_portable fuel draws p n ≡ some (v, q + 1))
        × (v < n)
        × (draws q < secure_max n)
        × ((e : ℕ) → (e < p) ⊎ (q ≤ e) ⊎ (secure_max n ≤ draws e))
        × ((v ≡ r) ↔ (
            (secure_max n / n * r ≤ draws q)
            × (draws q < secure_max n / n * r + secure_max n / n))))
      × (secure_max n / n * r + secure_max n / n ≤ secure_max n)
unfolding uniform_distribution_portable
uniform_distribution_portable_lem draws n h k fuel p i f d r l =
    let (q, le, e, low, first) = loop_first draws n h k fuel p i f d in
    (
      (
        q,
        bucket n (draws q),
        le,
        e,
        bucket-lt n (draws q) h k low,
        low,
        first,
        bucket_interval (secure_max n / n) (draws q) r (quotient_pos n h k),
      ),
      le-of-mul n (secure_max n / n) r (secure_max n) (secure_max-mul n h) l,
    )
