-- ===== src/Prelude/Maps.antt =====
-- Laws of the list tests and of the association lists that several components use.
use mathlib.Core.Path.{◌≡◌, refl, sym, ◌∙◌, ap}
use mathlib.Core.Logic.{◌⊎◌, inl, inr}
use mathlib.Core.Bool.{Bool, true, false}
use mathlib.Core.List.{List, [], ◌∷◌, ◌++◌, map}
use mathlib.Core.Option.{none, some}
use native.Mathlib.Omega.{arith}
use beldex_storage_server.Prelude.Tests.{Bool-cases}
use beldex_storage_server.Prelude.Lists.{All, In, select, any_of, find_if}
use beldex_storage_server.Prelude.Keys.{Eq, ◌==◌, find, emplace, find-emplace, assign, find-assign}

module _ {A : Type 0} where
  pub In-append_left : (a : A) (xs ys : List A) → In a xs → In a (xs ++ ys)
  In-append_left a [] ys h = absurd h
  In-append_left a (x ∷ xs) ys (inl e) = inl e
  In-append_left a (x ∷ xs) ys (inr h) = inr (In-append_left a xs ys h)

  pub In-append_right : (a : A) (xs ys : List A) → In a ys → In a (xs ++ ys)
  In-append_right a [] ys h = h
  In-append_right a (x ∷ xs) ys h = inr (In-append_right a xs ys h)

  pub In-append : (a : A) (xs ys : List A) → In a (xs ++ ys) → In a xs ⊎ In a ys
  In-append a [] ys h = inr h
  In-append a (x ∷ xs) ys (inl e) = inl (inl e)
  In-append a (x ∷ xs) ys (inr h) = elim (In-append a xs ys h) [
    | inl i ↦ inl (inr i)
    | inr i ↦ inr i
  ]

  pub In-select : (a : A) (p : A → Bool) (xs : List A) → In a (select p xs) → In a xs × (p a ≡ true)
  In-select a p [] h = absurd h
  In-select a p (x ∷ xs) h = elim (Bool-cases (p x)) [
    | inl t ↦ elim (go t) [
      | inl e ↦ (inl e, ap p e ∙ t)
      | inr i ↦ let (j, q) = In-select a p xs i in (inr j, q)
    ]
    | inr f ↦ let (j, q) = In-select a p xs (skip f) in (inr j, q)
  ]
    where
      go : p x ≡ true → (a ≡ x) ⊎ In a (select p xs)
      go t = rw t at h

      skip : p x ≡ false → In a (select p xs)
      skip f = rw f at h

  pub In-select_of :
      (a : A) (p : A → Bool) (xs : List A) → In a xs → p a ≡ true → In a (select p xs)
  In-select_of a p [] h q = absurd h
  In-select_of a p (x ∷ xs) (inl e) q = rw (sym (ap p e) ∙ q) (inl e)
  In-select_of a p (x ∷ xs) (inr h) q = elim (Bool-cases (p x)) [
    | inl t ↦ rw t (inr (In-select_of a p xs h q))
    | inr f ↦ rw f (In-select_of a p xs h q)
  ]

  -- Nothing is selected where no element passes.
  pub select-none :
      (p : A → Bool) (xs : List A) → ((a : A) → In a xs → p a ≡ false) → select p xs ≡ []
  select-none p [] h = refl
  select-none p (x ∷ xs) h = rw (h x (inl refl)) (select-none p xs (λ a i. h a (inr i)))

  pub any_of-In : (a : A) (p : A → Bool) (xs : List A) → In a xs → p a ≡ true → any_of p xs ≡ true
  any_of-In a p [] h q = absurd h
  any_of-In a p (x ∷ xs) (inl e) q = rw (sym (ap p e) ∙ q)
  any_of-In a p (x ∷ xs) (inr h) q = ground (arith, any_of-In a p xs h q)

  pub find_if-In :
      (p : A → Bool) (xs : List A) (a : A) → find_if p xs ≡ some a → In a xs × (p a ≡ true)
  find_if-In p [] a h = cc
  find_if-In p (x ∷ xs) a h = elim (Bool-cases (p x)) [
    | inl t ↦ let e : x ≡ a = ground arith in (inl (sym e), rw (← e) t)
    | inr f ↦
        let rest : find_if p xs ≡ some a = ground arith in
        let (i, q) = find_if-In p xs a rest in (inr i, q)
  ]

module _ {A : Type 0} (P : A → Type 0) where
  pub All-select : (p : A → Bool) (xs : List A) → All P xs → All P (select p xs)
  All-select p [] h = tt
  All-select p (x ∷ xs) (q, h) = elim (Bool-cases (p x)) [
    | inl t ↦ rw t (q, All-select p xs h)
    | inr f ↦ rw f (All-select p xs h)
  ]

  pub All-of-In : (xs : List A) → ((a : A) → In a xs → P a) → All P xs
  All-of-In [] h = tt
  All-of-In (x ∷ xs) h = (h x (inl refl), All-of-In xs (λ a i. h a (inr i)))

module _ {A B : Type 0} (f : A → B) where
  pub In-map : (a : A) (xs : List A) → In a xs → In (f a) (map f xs)
  In-map a [] h = absurd h
  In-map a (x ∷ xs) (inl e) = inl (ap f e)
  In-map a (x ∷ xs) (inr h) = inr (In-map a xs h)

  pub In-map_inv : (b : B) (xs : List A) → In b (map f xs) → (a : A) × In a xs × (b ≡ f a)
  In-map_inv b [] h = absurd h
  In-map_inv b (x ∷ xs) (inl e) = (x, inl refl, e)
  In-map_inv b (x ∷ xs) (inr h) = let (a, i, e) = In-map_inv b xs h in (a, inr i, e)

-- Maps with one entry for each key, as the containers keep them.
module _ {K V : Type 0} ⦃e : Eq K⦄ where
  abbrev pub KeysUnique : List (K × V) → Type 0
  KeysUnique [] = Unit
  KeysUnique ((k, v) ∷ m) = (find k m ≡ none) × KeysUnique m

  pub emplace-KeysUnique :
      (k : K) (v : V) (m : List (K × V)) → KeysUnique m → KeysUnique (emplace k v m)
  unfolding emplace find
  emplace-KeysUnique k v [] u = (refl, tt)
  emplace-KeysUnique k v ((j, w) ∷ m) u = elim (Bool-cases (j == k)) [
    | inl t ↦ rw t u
    | inr f ↦ rw f (
      ground (arith, find-emplace k j v m, e.beq_iff j k, e.beq_iff k j),
      emplace-KeysUnique k v m u.1,
    )
  ]

  pub assign-KeysUnique :
      (k : K) (v : V) (m : List (K × V)) → KeysUnique m → KeysUnique (assign k v m)
  unfolding assign find
  assign-KeysUnique k v [] u = (refl, tt)
  assign-KeysUnique k v ((j, w) ∷ m) u = elim (Bool-cases (j == k)) [
    | inl t ↦ rw t u
    | inr f ↦ rw f (
      ground (arith, find-assign k j v m, e.beq_iff j k, e.beq_iff k j),
      assign-KeysUnique k v m u.1,
    )
  ]

  pub find-In : (k : K) (v : V) (m : List (K × V)) → KeysUnique m → In (k, v) m → find k m ≡ some v
  unfolding find
  find-In k v [] u h = absurd h
  find-In k v ((j, w) ∷ m) u (inl p) = ground (arith, e.beq_iff j k)
  find-In k v ((j, w) ∷ m) u (inr h) = elim (Bool-cases (j == k)) [
    | inl t ↦ ground (arith, find-In k v m u.1 h, e.beq_iff j k)
    | inr f ↦ rw f (find-In k v m u.1 h)
  ]

  pub In-find : (k : K) (v : V) (m : List (K × V)) → find k m ≡ some v → In (k, v) m
  unfolding find
  In-find k v [] h = cc
  In-find k v ((j, w) ∷ m) h = elim (Bool-cases (j == k)) [
    | inl t ↦ inl (ground (arith, e.beq_iff j k))
    | inr f ↦ inr (In-find k v m (ground arith))
  ]
