-- ===== src/Common/Lists.antt =====
-- Lists as JavaScript arrays: the predicates and methods that the dashboard uses.
use Prim.Native.Nat.{ℕ, zero, suc}
use Prim.Native.String.{String}
use mathlib.Core.Path.{◌≡◌, refl}
use mathlib.Core.Bool.{Bool, true, false, ◌||◌}
use mathlib.Core.Option.{Option, none, some}
use mathlib.Core.List.{List, [], ◌∷◌, ◌++◌}
use native.Mathlib.Omega.{arith}
use text.Mathlib.Text.{◌==◌}
use installer.Common.Tests.{if◌then◌else◌}

abbrev pub shift : Option ℕ → Option ℕ
shift none = none
shift (some i) = some (suc i)

module _ {ℓ} {A : Type ℓ} where
  abbrev pub length : List A → ℕ
  length [] = 0
  length (x ∷ xs) = suc (length xs)

  -- `xs.some(p)`
  abbrev pub any : (A → Bool) → List A → Bool
  any p [] = false
  any p (x ∷ xs) = p x || any p xs

  -- `xs.find(p)`
  abbrev pub find : (A → Bool) → List A → Option A
  find p [] = none
  find p (x ∷ xs) = if p x then some x else find p xs

  abbrev pub head? : List A → Option A
  head? [] = none
  head? (x ∷ xs) = some x

  -- The array with `f` applied to its first element that satisfies `p`, if there is one: what
  -- `findIndex` and a write at the index that it returns come to.
  unfoldable pub update_first : (A → Bool) → (A → A) → List A → List A
  update_first p f [] = []
  update_first p f (x ∷ xs) = if p x then f x ∷ xs else x ∷ update_first p f xs

  -- `xs.findIndex(p)`; `none` is -1.
  unfoldable pub find_index : (A → Bool) → List A → Option ℕ
  find_index p [] = none
  find_index p (x ∷ xs) = if p x then some 0 else shift (find_index p xs)

  abbrev pub get_elem? : List A → ℕ → Option A
  get_elem? [] i = none
  get_elem? (x ∷ xs) zero = some x
  get_elem? (x ∷ xs) (suc i) = get_elem? xs i

  -- `xs[i] = v`, for an index of the array.
  abbrev pub set : List A → ℕ → A → List A
  set [] i v = []
  set (x ∷ xs) zero v = v ∷ xs
  set (x ∷ xs) (suc i) v = x ∷ set xs i v

  -- `xs.slice(0, n)` and `xs.slice(n)`
  abbrev pub take : ℕ → List A → List A
  take zero xs = []
  take (suc n) [] = []
  take (suc n) (x ∷ xs) = x ∷ take n xs

  abbrev pub drop : ℕ → List A → List A
  drop zero xs = xs
  drop (suc n) [] = []
  drop (suc n) (x ∷ xs) = drop n xs

  pub any-append : (p : A → Bool) (xs ys : List A) → any p (xs ++ ys) ≡ (any p xs || any p ys)
  any-append p [] ys = refl
  any-append p (x ∷ xs) ys = ground (arith, any-append p xs ys)

  pub update_first-none :
      (p : A → Bool) (f : A → A) (xs : List A) → any p xs ≡ false → update_first p f xs ≡ xs
  unfolding update_first
  update_first-none p f [] h = refl
  update_first-none p f (x ∷ xs) h = ground (arith, update_first-none p f xs)

module _ {ℓ} {A : Type ℓ} (p : A → Bool) where
  pub find_index-none : (xs : List A) → find_index p xs ≡ none → any p xs ≡ false
  unfolding find_index
  find_index-none [] h = refl
  find_index-none (x ∷ xs) h = ground (arith, h, find_index-none xs)

  pub find_index-some : (xs : List A) (i : ℕ) → find_index p xs ≡ some i → any p xs ≡ true
  unfolding find_index
  find_index-some [] i h = cc
  find_index-some (x ∷ xs) zero h = ground (arith, h)
  find_index-some (x ∷ xs) (suc i) h = ground (arith, h, find_index-some xs i)

  -- A write at the index that `findIndex` returned.
  pub set-find_index :
      (xs : List A) (i : ℕ) (v : A)
      → find_index p xs ≡ some i
      → set xs i v ≡ update_first p (λ _. v) xs
  unfolding find_index update_first
  set-find_index [] i v h = refl
  set-find_index (x ∷ xs) zero v h = ground (arith, h)
  set-find_index (x ∷ xs) (suc i) v h = ground (arith, h, set-find_index xs i v)

module _ {ℓ κ} {A : Type ℓ} where
  -- Every element satisfies `P`.
  abbrev pub All : (A → Type κ) → List A → Type κ
  All P [] = Unit
  All P (x ∷ xs) = P x × All P xs

-- `xs.includes(s)`
abbrev pub includes : List String → String → Bool
includes xs s = any (λ x. x == s) xs
