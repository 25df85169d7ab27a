-- ===== src/Prelude/Pairs.antt =====
-- A relation between the earlier and the later elements of a list, and selections from lists.
use mathlib.Core.Path.{◌≡◌, refl}
use mathlib.Core.Logic.{inl, inr, ◌⊎◌}
use mathlib.Core.Bool.{Bool, true, false, ◌&&◌}
use mathlib.Core.List.{List, [], ◌∷◌, ◌++◌}
use native.Mathlib.Omega.{arith}
use beldex_storage_server.Prelude.Tests.{Bool-cases}
use beldex_storage_server.Prelude.Lists.{In, select, any_of}
use beldex_storage_server.Prelude.Maps.{In-select, In-append}

module _ {A : Type 0} (R : A → A → Type 0) where
  abbrev pub Pairwise : List A → Type 0
  Pairwise [] = Unit
  Pairwise (x ∷ xs) = ((y : A) → In y xs → R x y) × Pairwise xs

  pub select-Pairwise : (p : A → Bool) (xs : List A) → Pairwise xs → Pairwise (select p xs)
  select-Pairwise p [] h = tt
  select-Pairwise p (x ∷ xs) h = elim (Bool-cases (p x)) [
    | inl t ↦ rw t (λ y i. h.0 y (In-select y p xs i).0, select-Pairwise p xs h.1)
    | inr f ↦ rw f (select-Pairwise p xs h.1)
  ]

  pub snoc-Pairwise :
      (xs : List A) (z : A) → Pairwise xs → ((x : A) → In x xs → R x z) → Pairwise (xs ++ z ∷ [])
  snoc-Pairwise [] z h k = (λ y i. absurd i, tt)
  snoc-Pairwise (x ∷ xs) z h k =
      (λ y i. before y (In-append y xs (z ∷ []) i), snoc-Pairwise xs z h.1 (λ y i. k y (inr i)))
    where
      before : (y : A) → In y xs ⊎ In y (z ∷ []) → R x y
      before y (inl i) = h.0 y i
      before y (inr (inl e)) = rw e (k x (inl refl))
      before y (inr (inr i)) = absurd i

module _ {A : Type 0} where
  pub select-select :
      (p q : A → Bool) (xs : List A) → select q (select p xs) ≡ select (λ x. p x && q x) xs
  select-select p q [] = refl
  select-select p q (x ∷ xs) = elim (Bool-cases (p x)) [
    | inl t ↦ rw (t, select-select p q xs)
    | inr f ↦ rw (f, select-select p q xs)
  ]

  pub select-cong :
      (p q : A → Bool) (xs : List A) → ((x : A) → In x xs → p x ≡ q x) → select p xs ≡ select q xs
  select-cong p q [] h = refl
  select-cong p q (x ∷ xs) h = rw (h x (inl refl), select-cong p q xs (λ y i. h y (inr i)))

  pub select-all :
      (p : A → Bool) (xs : List A) → ((x : A) → In x xs → p x ≡ true) → select p xs ≡ xs
  select-all p [] h = refl
  select-all p (x ∷ xs) h = rw (h x (inl refl), select-all p xs (λ y i. h y (inr i)))

  pub select-append :
      (p : A → Bool) (xs ys : List A) → select p (xs ++ ys) ≡ select p xs ++ select p ys
  select-append p [] ys = refl
  select-append p (x ∷ xs) ys = elim (Bool-cases (p x)) [
    | inl t ↦ rw (t, select-append p xs ys)
    | inr f ↦ rw (f, select-append p xs ys)
  ]

  -- A test of some element fails where it fails at each.
  pub any_of-none :
      (p : A → Bool) (xs : List A) (a : A) → any_of p xs ≡ false → In a xs → p a ≡ false
  any_of-none p [] a h i = absurd i
  any_of-none p (x ∷ xs) a h (inl e) = rw e (ground arith)
  any_of-none p (x ∷ xs) a h (inr i) = any_of-none p xs a (ground arith) i

  pub any_of-false :
      (p : A → Bool) (xs : List A) → ((a : A) → In a xs → p a ≡ false) → any_of p xs ≡ false
  any_of-false p [] h = refl
  any_of-false p (x ∷ xs) h = rw (h x (inl refl)) (any_of-false p xs (λ a i. h a (inr i)))
