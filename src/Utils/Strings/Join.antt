-- ===== src/Utils/Strings/Join.antt =====
-- What is split at a delimiter is joined again to the same string.
use beldex_storage_server.Prelude.{
  ℕ, zero, suc, ◌+◌, ◌<◌, ◌≡◌, ◌≢◌, refl, sym, ap, ◌∙◌, true, false, Option, none, some, List, [],
  ◌∷◌, ◌++◌, bytes_eq, Bytes, length, take, drop, take-append-drop, length-append, map, arith,
  Bool-cases, Option-cases, inl, inr, eq_of_==,
}
use beldex_storage_server.Utils.Strings.{
  starts_with, succ_of, find_text, push_last, split_loop, split, join,
}

pub prefix-parts :
    (str delim : Bytes) → starts_with str delim ≡ true → str ≡ delim ++ drop (length delim) str
unfolding starts_with
prefix-parts str delim h =
    sym (take-append-drop (length delim) str)
    ∙ ap (λ (t : Bytes). t ++ drop (length delim) str) (eq_of_== (take (length delim) str) delim h)

at_front :
    (delim str : Bytes) (pos : ℕ)
    → starts_with str delim ≡ true
    → some 0 ≡ some pos
    → str ≡ take pos str ++ (delim ++ drop (pos + length delim) str)
at_front delim str pos t h =
    let zero_pos : 0 ≡ pos = ground arith in
    let sum : 0 + length delim ≡ length delim = omega arith in
    rw (← zero_pos) (rw sum (prefix-parts str delim t))

-- A string in which the delimiter is found, in its three parts.
find_text-parts :
    (delim str : Bytes) (pos : ℕ)
    → find_text delim str ≡ some pos
    → str ≡ take pos str ++ (delim ++ drop (pos + length delim) str)
unfolding find_text
find_text-parts delim [] pos h = elim (Bool-cases (starts_with [] delim)) [
  | inl t ↦ at_front delim [] pos t (rw t at h)
  | inr f ↦ let none_there : none ≡ some pos = rw f at h in cc
]
find_text-parts delim (c ∷ str) pos h = elim (Bool-cases (starts_with (c ∷ str) delim)) [
  | inl t ↦ at_front delim (c ∷ str) pos t (rw t at h)
  | inr f ↦ later (find_text delim str) (λ n e. find_text-parts delim str n e) pos (rw f at h)
]
  where
    later :
        (o : Option ℕ)
        → ((n : ℕ) → o ≡ some n → str ≡ take n str ++ (delim ++ drop (n + length delim) str))
        → (p : ℕ) → succ_of o ≡ some p
        → (c ∷ str) ≡ take p (c ∷ str) ++ (delim ++ drop (p + length delim) (c ∷ str))
    later none ih p q = cc
    later (some n) ih p q =
        let same : suc n ≡ p = ground arith in
        let sum : suc n + length delim ≡ suc (n + length delim) = omega arith in
        rw (← same) (rw sum (ap (◌∷◌ c) (ih n refl)))

join-snoc :
    (delim : Bytes) (rs : List Bytes) (a b : Bytes)
    → join delim ((rs ++ a ∷ []) ++ b ∷ []) ≡ join delim (rs ++ (a ++ (delim ++ b)) ∷ [])
unfolding join
join-snoc delim [] a b = refl
join-snoc delim (r ∷ []) a b = refl
join-snoc delim (r ∷ s ∷ rs) a b =
    ap (λ (t : Bytes). r ++ (delim ++ t)) (join-snoc delim (s ∷ rs) a b)

length-parts :
    (delim str : Bytes) (pos : ℕ)
    → delim ≢ []
    → find_text delim str ≡ some pos
    → length (drop (pos + length delim) str) < length str
length-parts [] str pos h e = absurd (h refl)
length-parts (d ∷ ds) str pos h e =
    let size = ap length (find_text-parts (d ∷ ds) str pos e) in
    omega (
      arith,
      size,
      length-append (take pos str) ((d ∷ ds) ++ drop (pos + length (d ∷ ds)) str),
      length-append (d ∷ ds) (drop (pos + length (d ∷ ds)) str),
    )

-- The loop ends, and what it gives is joined to what was there and the rest of the string.
split_loop-join :
    (fuel : ℕ) (delim str : Bytes) (results : List Bytes)
    → delim ≢ []
    → length str < fuel
    → (parts : List Bytes) × (split_loop fuel delim false str results ≡ some parts)
      × (join delim parts ≡ join delim (results ++ str ∷ []))
unfolding split_loop push_last
split_loop-join zero delim str results h l = absurd (omega arith)
split_loop-join (suc fuel) delim str results h l = elim (Option-cases (find_text delim str)) [
  | inl e ↦ (results ++ str ∷ [], rw (e, split_loop) refl, refl)
  | inr (pos, e) ↦
      let rest = drop (pos + length delim) str in
      let (parts, q, j) =
        split_loop-join fuel delim rest (results ++ take pos str ∷ []) h
          (omega (arith, length-parts delim str pos h e)) in
      (
        parts,
        rw (e, split_loop) q,
        j
            ∙ join-snoc delim results (take pos str) rest
            ∙ ap (λ (s : Bytes). join delim (results ++ s ∷ []))
                (sym (find_text-parts delim str pos e)),
      )
]

join-chars : (str : Bytes) → join [] (map (λ c. c ∷ []) str) ≡ str
unfolding join
join-chars [] = refl
join-chars (c ∷ []) = refl
join-chars (c ∷ d ∷ str) = ap (◌∷◌ c) (join-chars (d ∷ str))

-- Splitting a string at any delimiter, without trimming, ends, and its pieces joined with the
-- delimiter are the string; an empty delimiter splits it into its characters.
join-split :
    (str delim : Bytes)
    → (parts : List Bytes) × (split str delim false ≡ some parts) × (join delim parts ≡ str)
unfolding split
join-split str [] = (map (λ c. c ∷ []) str, refl, join-chars str)
join-split str (d ∷ ds) =
    let (parts, q, j) =
      split_loop-join (suc (length str)) (d ∷ ds) str [] (λ e. cc) (omega arith) in
    (parts, q, j ∙ unfold join in refl)
