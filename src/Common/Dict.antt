-- ===== src/Common/Dict.antt =====
-- A JavaScript object used as a map from strings: its entries in insertion order. A write to a key
-- that is there keeps its place.
use Prim.Native.String.{String}
use mathlib.Core.Path.{◌≡◌, refl}
use mathlib.Core.Logic.{◌≢◌}
use mathlib.Core.Option.{Option, none, some}
use mathlib.Core.List.{List, [], ◌∷◌}
use native.Mathlib.Omega.{arith}
use text.Mathlib.Text.{◌==◌}
use text.Mathlib.TextEquality.{eq_iff}
use installer.Common.Tests.{if◌then◌else◌}

abbrev pub Dict {ℓ} : Type ℓ → Type ℓ
Dict V = List (String × V)

module _ {ℓ} {V : Type ℓ} where
  -- `{ ...m, [k]: v }`
  unfoldable pub insert : String → V → Dict V → Dict V
  insert key value [] = (key, value) ∷ []
  insert key value ((k, old) ∷ m) =
      if k == key then (key, value) ∷ m else (k, old) ∷ insert key value m

  -- `const { [k]: found, ...others } = m`: what is left of `m`.
  unfoldable pub without : String → Dict V → Dict V
  without k [] = []
  without k ((j, v) ∷ m) = let rest = without k m in if j == k then rest else (j, v) ∷ rest

  -- `m[k]`
  unfoldable pub lookup : String → Dict V → Option V
  lookup k [] = none
  lookup k ((j, v) ∷ m) = if j == k then some v else lookup k m

  pub lookup-insert :
      (key j : String) (value : V) (m : Dict V)
      → lookup j (insert key value m) ≡ (if key == j then some value else lookup j m)
  unfolding lookup insert
  lookup-insert key j value [] = refl
  lookup-insert key j value ((k, old) ∷ m) =
      ground (arith, lookup-insert key j value m, eq_iff key j, eq_iff k key, eq_iff k j)

  pub lookup-without :
      (k j : String) (m : Dict V) → lookup j (without k m) ≡ (if k == j then none else lookup j m)
  unfolding lookup without
  lookup-without k j [] = ground arith
  lookup-without k j ((i, v) ∷ m) =
      ground (arith, lookup-without k j m, eq_iff i k, eq_iff i j, eq_iff k j)

  pub lookup-insert_self : (k : String) (v : V) (m : Dict V) → lookup k (insert k v m) ≡ some v
  lookup-insert_self k v m = ground (arith, lookup-insert k k v m, eq_iff k k)

  pub lookup-insert_ne :
      (k j : String) (v : V) (m : Dict V) → k ≢ j → lookup j (insert k v m) ≡ lookup j m
  lookup-insert_ne k j v m h = ground (arith, lookup-insert k j v m, eq_iff k j)

  pub ruleset dict_laws = (lookup-insert, lookup-without)

module _ {ℓ} {V : Type ℓ} where
  without-absent : (k : String) (m : Dict V) → lookup k m ≡ none → without k m ≡ m
  unfolding lookup without
  without-absent k [] h = refl
  without-absent k ((j, v) ∷ m) h = ground (arith, h, without-absent k m)

  -- Taking a new key out again.
  pub without-insert :
      (k : String) (v : V) (m : Dict V) → lookup k m ≡ none → without k (insert k v m) ≡ m
  unfolding lookup without insert
  without-insert k v [] h = ground (arith, eq_iff k k)
  without-insert k v ((j, w) ∷ m) h = ground (arith, h, without-insert k v m)
