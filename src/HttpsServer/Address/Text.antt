-- ===== src/HttpsServer/Address/Text.antt =====
-- The text of an IPv6 address: the output loop in get_remote_address of httpserver/https_server.cpp.
use beldex_storage_server.Prelude.{
  ℕ, zero, suc, ◌+◌, ◌-◌, ◌<◌, ◌≤◌, ◌≡◌, ◌≢◌, ◌==◌, nat_eq, ltb, leb, arith, Bool-cases, inl, inr,
  ◌⊎◌, refl, ap, sym, subst, List, [], ◌∷◌, ◌++◌, Bytes, codes, length, take, drop, not, ◌&&◌, true,
  false,
}
use mathlib.Core.List.{append_assoc}
use beldex_storage_server.HttpsServer.Address.{
  ZeroRun, no_run, extend, keep_longest, see, zero_run, shorts, word_at, colons, remote_address,
}
use beldex_storage_server.HttpsServer.Address.Zeros.{IsRun, zero_run-longest}

-- A run that is found is not empty; without one both ends are 0.
abbrev Found : ZeroRun → Type 0
Found z = (z.zero_start < z.zero_end) ⊎ ((z.zero_start ≡ 0) × (z.zero_end ≡ 0))

keep_longest-Found : (z : ZeroRun) → Found z → Found (keep_longest z)
keep_longest-Found z h = elim (Bool-cases (ltb (z.zero_end - z.zero_start) (z.end - z.start))) [
  | inl t ↦ rw t (inl (ground arith))
  | inr f ↦ rw f h
]

see-Found : (z : ZeroRun) (i word : ℕ) → Found z → Found (see z i word)
see-Found z i word h = elim (Bool-cases (word == 0)) [
  | inl t ↦ rw t (keep_longest-Found (extend z i) h)
  | inr f ↦ rw f h
]

zero_run-Found : (a : ℕ → ℕ) (n i : ℕ) (z : ZeroRun) → Found z → Found (zero_run a n i z)
unfolding zero_run
zero_run-Found a zero i z h = h
zero_run-Found a (suc n) i z h = zero_run-Found a n (i + 1) (see z i (a i)) (see-Found z i (a i) h)

length-shorts : (n : ℕ) (bytes : Bytes) → length bytes ≡ n + n → length (shorts bytes) ≡ n
unfolding shorts
length-shorts zero [] h = refl
length-shorts (suc n) [] h = absurd (omega (arith, h))
length-shorts n (b ∷ []) h = absurd (omega (arith, h))
length-shorts zero (b ∷ c ∷ bytes) h = absurd (omega (arith, h))
length-shorts (suc n) (b ∷ c ∷ bytes) h =
    let rest = length-shorts n bytes (omega (arith, h)) in omega (arith, rest)

module _ (to_hex_string : ℕ → Bytes) where
  -- Words behind others, and words from the first one on.
  unfoldable tailed : List ℕ → Bytes
  tailed [] = []
  tailed (w ∷ ws) = codes ":" ++ (to_hex_string w ++ tailed ws)

  unfoldable pub joined : List ℕ → Bytes
  unfolding tailed
  joined [] = []
  joined (w ∷ ws) = to_hex_string w ++ tailed ws

  module _ (to_string : ℕ → Bytes) (to_hex : Bytes → Bytes) (z : ZeroRun) where
    colons-behind :
        (i : ℕ) (ws : List ℕ)
        → z.zero_end < i
        → colons to_string to_hex_string to_hex z i ws ≡ tailed ws
    unfolding colons tailed
    colons-behind i [] h = refl
    colons-behind i (w ∷ ws) h =
        let out : (leb z.zero_start i && ltb i z.zero_end) ≡ false = ground arith in
        let next : (ltb 0 i && not (i == z.zero_end)) ≡ true = ground arith in
        rw (out, next, colons-behind (i + 1) ws (omega (arith, h))) refl

    colons-end : (ws : List ℕ) → colons to_string to_hex_string to_hex z z.zero_end ws ≡ joined ws
    unfolding colons joined
    colons-end [] = refl
    colons-end (w ∷ ws) =
        let out : (leb z.zero_start z.zero_end && ltb z.zero_end z.zero_end) ≡ false =
          ground arith in
        let first : (ltb 0 z.zero_end && not (z.zero_end == z.zero_end)) ≡ false = ground arith in
        rw (out, first, colons-behind (z.zero_end + 1) ws (omega arith)) refl

    colons-inside :
        (k i : ℕ) (ws : List ℕ)
        → z.zero_start < i
        → i + k ≡ z.zero_end
        → colons to_string to_hex_string to_hex z i ws ≡ joined (drop k ws)
    unfolding colons joined
    colons-inside zero i ws h e =
        let same : i ≡ z.zero_end = omega (arith, e) in rw same (colons-end ws)
    colons-inside (suc k) i [] h e = refl
    colons-inside (suc k) i (w ∷ ws) h e =
        let within : (leb z.zero_start i && ltb i z.zero_end) ≡ true = ground arith in
        let later : (i == z.zero_start) ≡ false = ground arith in
        rw (within, later) (colons-inside k (i + 1) ws (omega (arith, h)) (omega (arith, e)))

    colons-start :
        (k : ℕ) (ws : List ℕ)
        → 0 < length ws
        → z.zero_start + suc k ≡ z.zero_end
        → colons to_string to_hex_string to_hex z z.zero_start ws
          ≡ codes "::" ++ joined (drop (suc k) ws)
    unfolding colons
    colons-start k [] l e = absurd (omega (arith, l))
    colons-start k (w ∷ ws) l e =
        let within : (leb z.zero_start z.zero_start && ltb z.zero_start z.zero_end) ≡ true =
          ground arith in
        let first : (z.zero_start == z.zero_start) ≡ true = ground arith in
        rw (within, first)
          (ap (λ t. codes "::" ++ t)
            (colons-inside k (z.zero_start + 1) ws (omega arith) (omega (arith, e))))

    colons-before :
        (j k i : ℕ) (ws : List ℕ)
        → 0 < i
        → j < length ws
        → i + j ≡ z.zero_start
        → z.zero_start + suc k ≡ z.zero_end
        → colons to_string to_hex_string to_hex z i ws
          ≡ tailed (take j ws) ++ (codes "::" ++ joined (drop (suc k) (drop j ws)))
    unfolding colons tailed
    colons-before j k i [] p l s e = absurd (omega (arith, l))
    colons-before zero k i (w ∷ ws) p l s e =
        let same : i ≡ z.zero_start = omega (arith, s) in rw same (colons-start k (w ∷ ws) l e)
    colons-before (suc j) k i (w ∷ ws) p l s e =
        let out : (leb z.zero_start i && ltb i z.zero_end) ≡ false = ground arith in
        let next : (ltb 0 i && not (i == z.zero_end)) ≡ true = ground arith in
        let rest =
          colons-before j k (i + 1) ws (omega arith) (omega (arith, l)) (omega (arith, s)) e in
        let after = codes "::" ++ joined (drop (suc k) (drop j ws)) in
        rw (out, next, rest)
          (ap (λ t. codes ":" ++ t)
            (sym (append_assoc (to_hex_string w) (tailed (take j ws)) after)))

-- The words from `s` to `e` are zeros, and any other zeros in a row are fewer, or as many and start no
-- earlier.
pub record IsLongest (a : ℕ → ℕ) (n s e : ℕ) : Type 0 where
  pub nonempty : s < e
  pub run : IsRun a n s e
  pub longest :
      (s' e' : ℕ) → s' < e' → IsRun a n s' e' → (e' - s' < e - s) ⊎ ((e' - s' ≡ e - s) × (s ≤ s'))

one_zero : (a : ℕ → ℕ) (n i : ℕ) → i < n → a i ≡ 0 → IsRun a n i (i + 1)
one_zero a n i h e = record {
  before = omega (arith, h);
  zeros = λ k l m. let same : k ≡ i = omega (arith, l, m) in rw same e;
}

no_zero :
    (a : ℕ → ℕ) (s e : ℕ)
    → s ≡ 0
    → e ≡ 0
    → ((s' e' : ℕ) → s' < e' → IsRun a 8 s' e' → (e' - s' < e - s) ⊎ ((e' - s' ≡ e - s) × (s ≤ s')))
    → (i : ℕ) → (8 ≤ i) ⊎ (a i ≢ 0)
no_zero a s e start end longest i = elim (Bool-cases (ltb i 8)) [
  | inl t ↦ inr (λ q. elim (longest i (i + 1) (omega arith) (one_zero a 8 i (ground arith) q)) [
    | inl l ↦ omega (arith, l, start, end)
    | inr (l, m) ↦ omega (arith, l, start, end)
  ])
  | inr f ↦ inl (ground arith)
]

module _ (to_string to_hex_string : ℕ → Bytes) (to_hex : Bytes → Bytes) where
  -- The text with the words from `s` to `e` left out.
  abbrev pub shortened : List ℕ → ℕ → ℕ → Bytes
  shortened ws s e =
      joined to_hex_string (take s ws)
      ++ (codes "::" ++ joined to_hex_string (drop (e - s) (drop s ws)))

  colons-shortened :
      (z : ZeroRun) (s k : ℕ) (ws : List ℕ)
      → s < length ws
      → s ≡ z.zero_start
      → z.zero_start + suc k ≡ z.zero_end
      → colons to_string to_hex_string to_hex z 0 ws
        ≡ joined to_hex_string (take s ws)
          ++ (codes "::" ++ joined to_hex_string (drop (suc k) (drop s ws)))
  unfolding colons joined
  colons-shortened z zero k ws l s e =
      subst
        (λ i.
          colons to_string to_hex_string to_hex z i ws
          ≡ codes "::" ++ joined to_hex_string (drop (suc k) ws))
        (sym s) (colons-start to_hex_string to_string to_hex z k ws l e)
  colons-shortened z (suc j) k [] l s e = absurd (omega (arith, l))
  colons-shortened z (suc j) k (w ∷ ws) l s e =
      let out : (leb z.zero_start 0 && ltb 0 z.zero_end) ≡ false = ground arith in
      let rest =
        colons-before to_hex_string to_string to_hex z j k 1 ws (omega arith) (omega (arith, l))
          (omega (arith, s)) e in
      rw (out, rest, append_assoc) refl

  colons-whole :
      (z : ZeroRun) (ws : List ℕ)
      → z.zero_end ≡ 0
      → colons to_string to_hex_string to_hex z 0 ws ≡ joined to_hex_string ws
  colons-whole z ws e =
      subst (λ i. colons to_string to_hex_string to_hex z i ws ≡ joined to_hex_string ws) e
        (colons-end to_hex_string to_string to_hex z ws)

  -- The text of an IPv6 address of 16 bytes is that of its eight words with colons between them, in
  -- brackets; if there are words that are 0, the first longest run of them is left out for two colons.
  pub remote_address-IsLongest :
      (addr : Bytes)
      → length addr ≡ 16
      → ((s e : ℕ) × IsLongest (word_at (shorts addr)) 8 s e
          × (remote_address to_string to_hex_string to_hex addr
              ≡ codes "[" ++ (shortened (shorts addr) s e ++ codes "]")))
        ⊎ (((i : ℕ) → (8 ≤ i) ⊎ (word_at (shorts addr) i ≢ 0))
            × (remote_address to_string to_hex_string to_hex addr
                ≡ codes "[" ++ (joined to_hex_string (shorts addr) ++ codes "]")))
  unfolding remote_address
  remote_address-IsLongest addr h =
      let ws = shorts addr in
      let a = word_at ws in
      let z = zero_run a 8 0 no_run in
      let not_4 : (length addr == 4) ≡ false = ground arith in
      let is_16 : (length addr == 16) ≡ true = ground arith in
      let size = length-shorts 8 addr h in
      let (run, longest) = zero_run-longest a 8 in
      elim (zero_run-Found a 8 0 no_run (inr (refl, refl))) [
        | inl found ↦
            let k = z.zero_end - (z.zero_start + 1) in
            let same : suc k ≡ z.zero_end - z.zero_start = omega (arith, found) in
            let text =
              colons-shortened z z.zero_start k ws (omega (arith, run.before, found, size)) refl
                (omega (arith, found)) in
            inl (
              z.zero_start,
              z.zero_end,
              record { nonempty = found; run = run; longest = longest },
              rw (not_4, is_16, ← same, text) refl,
            )
        | inr (start, end) ↦
            let text = colons-whole z ws end in
            inr (
              (λ i. no_zero a z.zero_start z.zero_end start end longest i),
              rw (not_4, is_16, text) refl,
            )
      ]
