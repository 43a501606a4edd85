-- ===== src/Common/Sort.antt =====
-- `xs.sort(compare)` of JavaScript: the stable sort, written as an insertion sort, and the default
-- order on strings. (The default order compares UTF-16 units; on the names of Kubernetes, which are
-- ASCII, that is the order of `compare`.)
use Prim.Native.Nat.{Ordering}
use Prim.Native.String.{String, compare}
use mathlib.Core.Path.{◌≡◌, refl, subst}
use mathlib.Core.Logic.{◌⊎◌, inl, inr}
use mathlib.Core.Bool.{Bool, true, false, ◌||◌}
use mathlib.Core.List.{List, [], ◌∷◌, Memᴰ}
use mathlib.Core.List.Memᴰ.{head, tail}
use native.Mathlib.Omega.{arith}
use installer.Common.Tests.{if◌then◌else◌, Bool-cases}
use installer.Common.Lists.{any}

List-cases {ℓ} :
    {A : Type ℓ} (xs : List A) → (xs ≡ []) ⊎ ((a : A) × (rest : List A) × (xs ≡ a ∷ rest))
List-cases [] = inl refl
List-cases (a ∷ rest) = inr (a, rest, refl)

-- `le a b`: `a` may stand before `b`, that is `compare(a, b) <= 0`.
module _ {ℓ} {A : Type ℓ} (le : A → A → Bool) where
  unfoldable pub insert_sorted : A → List A → List A
  insert_sorted a [] = a ∷ []
  insert_sorted a (x ∷ xs) = if le a x then a ∷ x ∷ xs else x ∷ insert_sorted a xs

  unfoldable pub sort : List A → List A
  unfolding insert_sorted
  sort [] = []
  sort (x ∷ xs) = insert_sorted x (sort xs)

  -- Every element may stand before each that follows it at once.
  abbrev pub IsSorted : List A → Type 0
  IsSorted [] = Unit
  IsSorted (x ∷ []) = Unit
  IsSorted (x ∷ y ∷ xs) = (le x y ≡ true) × IsSorted (y ∷ xs)

  pub any-insert_sorted :
      (p : A → Bool) (a : A) (xs : List A) → any p (insert_sorted a xs) ≡ (p a || any p xs)
  unfolding insert_sorted
  any-insert_sorted p a [] = refl
  any-insert_sorted p a (x ∷ xs) = ground (arith, any-insert_sorted p a xs)

  -- Sorting keeps the elements.
  pub any-sort : (p : A → Bool) (xs : List A) → any p (sort xs) ≡ any p xs
  unfolding sort
  any-sort p [] = refl
  any-sort p (x ∷ xs) = ground (arith, any-insert_sorted p x (sort xs), any-sort p xs)

  Mem-insert_sorted : (b a : A) (xs : List A) → Memᴰ b (insert_sorted a xs) → Memᴰ b (a ∷ xs)
  unfolding insert_sorted
  Mem-insert_sorted b a [] h = h
  Mem-insert_sorted b a (x ∷ xs) h = placed (le a x) (λ m. Mem-insert_sorted b a xs m) h
    where
      swapped : (b ≡ x) ⊎ Memᴰ b (a ∷ xs) → Memᴰ b (a ∷ x ∷ xs)
      swapped (inl e) = tail (head e)
      swapped (inr (head e)) = head e
      swapped (inr (tail m)) = tail (tail m)

      placed :
          (c : Bool)
          → (Memᴰ b (insert_sorted a xs) → Memᴰ b (a ∷ xs))
          → Memᴰ b (if c then a ∷ x ∷ xs else x ∷ insert_sorted a xs)
          → Memᴰ b (a ∷ x ∷ xs)
      placed true below m = m
      placed false below (head e) = swapped (inl e)
      placed false below (tail m) = swapped (inr (below m))

  pub Mem-sort : (b : A) (xs : List A) → Memᴰ b (sort xs) → Memᴰ b xs
  unfolding sort
  Mem-sort b [] h = h
  Mem-sort b (x ∷ xs) h = elim (Mem-insert_sorted b x (sort xs) h) [
    | head e ↦ head e
    | tail m ↦ tail (Mem-sort b xs m)
  ]

  module _ (total : (a b : A) → le a b ≡ false → le b a ≡ true) where
    insert_sorted-IsSorted : (a : A) (xs : List A) → IsSorted xs → IsSorted (insert_sorted a xs)
    unfolding insert_sorted
    insert_sorted-IsSorted a [] h = tt
    insert_sorted-IsSorted a (x ∷ []) h = elim (Bool-cases (le a x)) [
      | inl before ↦ rw before (before, tt)
      | inr after ↦ rw after (total a x after, tt)
    ]
    insert_sorted-IsSorted a (x ∷ y ∷ xs) h = elim (Bool-cases (le a x)) [
      | inl before ↦ rw before (before, h)
      | inr after ↦
          rw after (ground (arith, total a x after, insert_sorted-IsSorted a (y ∷ xs) h.1))
    ]

    pub sort-IsSorted : (xs : List A) → IsSorted (sort xs)
    unfolding sort
    sort-IsSorted [] = tt
    sort-IsSorted (x ∷ xs) = insert_sorted-IsSorted x (sort xs) (sort-IsSorted xs)

-- A test of an order is passed from one pair to the next.
abbrev pub IsTransitive {ℓ} : {A : Type ℓ} → (A → A → Bool) → Type ℓ
IsTransitive {A} le = (a b c : A) → le a b ≡ true → le b c ≡ true → le a c ≡ true

-- `a` may stand before every element of a list.
abbrev pub Precedes {ℓ} : {A : Type ℓ} → (A → A → Bool) → A → List A → Type 0
Precedes le a [] = Unit
Precedes le a (x ∷ xs) = (le a x ≡ true) × Precedes le a xs

module _ {ℓ} {A : Type ℓ} (le : A → A → Bool) (trans : IsTransitive le) where
  Precedes-trans : (a b : A) (xs : List A) → le a b ≡ true → Precedes le b xs → Precedes le a xs
  Precedes-trans a b [] h k = tt
  Precedes-trans a b (x ∷ xs) h k = (trans a b x h k.0, Precedes-trans a b xs h k.1)

  -- The first of a sorted list precedes the others.
  pub IsSorted-head : (x : A) (xs : List A) → IsSorted le (x ∷ xs) → Precedes le x xs
  IsSorted-head x [] h = tt
  IsSorted-head x (y ∷ ys) h = (h.0, Precedes-trans x y ys h.0 (IsSorted-head y ys h.1))

  -- What precedes all elements of a sorted list precedes all of the list that was sorted.
  insert_sorted-Precedes :
      (a x : A) (xs : List A)
      → Precedes le a (insert_sorted le x xs)
      → (le a x ≡ true) × Precedes le a xs
  unfolding insert_sorted
  insert_sorted-Precedes a x [] h = h
  insert_sorted-Precedes a x (y ∷ ys) h = elim (Bool-cases (le x y)) [
    | inl before ↦ ground (arith, h, before)
    | inr after ↦ ground (arith, h, after, insert_sorted-Precedes a x ys)
  ]

  pub sort-Precedes : (a : A) (xs : List A) → Precedes le a (sort le xs) → Precedes le a xs
  unfolding sort
  sort-Precedes a [] h = tt
  sort-Precedes a (x ∷ xs) h =
      let (first, rest) = insert_sorted-Precedes a x (sort le xs) h in
      (first, sort-Precedes a xs rest)

  -- A list that is not empty is sorted to one whose first element precedes all.
  pub sort-first :
      (total : (a b : A) → le a b ≡ false → le b a ≡ true) (x : A) (xs : List A)
      → (a : A) × (rest : List A) × (sort le (x ∷ xs) ≡ a ∷ rest) × Precedes le a (x ∷ xs)
  sort-first total x xs = elim (List-cases (sort le (x ∷ xs))) [
    | inl empty ↦ absurd (ground (arith, empty, any-sort le (λ a. true) (x ∷ xs)))
    | inr (a, rest, e) ↦
        let first : le a a ≡ true = elim (Bool-cases (le a a)) [
          | inl before ↦ before
          | inr after ↦ total a a after
        ] in
        let sorted : IsSorted le (a ∷ rest) =
          subst (λ ys. IsSorted le ys) e (sort-IsSorted le total (x ∷ xs)) in
        (a, rest, e, sort-Precedes a (x ∷ xs) (rw e (first, IsSorted-head a rest sorted)))
  ]

abbrev pub string_le : String → String → Bool
string_le s t = elim (compare s t) [ Ordering.gt ↦ false | _ ↦ true ]
