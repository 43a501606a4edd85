-- ===== src/Views/Catalog/Paging/Waiting.antt =====
-- dashboard/src/components/Catalog/Catalog.tsx: for which queries requests wait.
use installer.Common.{
  ℕ, zero, suc, String, true, some, List, [], ◌∷◌, ◌++◌, ◌≡◌, inl, inr, arith, eq_refl, includes,
  Option-cases,
}
use mathlib.Core.Path.{subst}
use installer.Views.Catalog.Paging.{PageRequest, take_at}

-- Every request that waits is about one of the queries.
abbrev pub AllOwn : List String → List PageRequest → Type 0
AllOwn qs [] = Unit
AllOwn qs (r ∷ rs) = (includes qs r.query ≡ true) × AllOwn qs rs

pub AllOwn-append :
    (qs : List String) (rs : List PageRequest) (r : PageRequest)
    → AllOwn qs rs
    → includes qs r.query ≡ true
    → AllOwn qs (rs ++ r ∷ [])
AllOwn-append qs [] r h own = (own, tt)
AllOwn-append qs (x ∷ rs) r h own = (h.0, AllOwn-append qs rs r h.1 own)

-- A further query is allowed.
pub includes-cons :
    (q r : String) (qs : List String) → includes qs r ≡ true → includes (q ∷ qs) r ≡ true
includes-cons q r qs h = ground (arith, h)

pub includes-head : (q : String) (qs : List String) → includes (q ∷ qs) q ≡ true
includes-head q qs = ground (arith, eq_refl q)

pub AllOwn-cons :
    (q : String) (qs : List String) (rs : List PageRequest) → AllOwn qs rs → AllOwn (q ∷ qs) rs
AllOwn-cons q qs [] h = tt
AllOwn-cons q qs (r ∷ rs) h = (includes-cons q r.query qs h.0, AllOwn-cons q qs rs h.1)

pub take_at-AllOwn :
    (qs : List String) (i : ℕ) (rs : List PageRequest) (r : PageRequest) (rest : List PageRequest)
    → AllOwn qs rs
    → take_at i rs ≡ some (r, rest)
    → (includes qs r.query ≡ true) × AllOwn qs rest
unfolding take_at
take_at-AllOwn qs i [] r rest h e = absurd (ground (arith, e))
take_at-AllOwn qs zero (x ∷ rs) r rest h e =
    let at_head : x ≡ r = ground (arith, e) in
    let others : rs ≡ rest = ground (arith, e) in
    (
      subst (λ (y : PageRequest). includes qs y.query ≡ true) at_head h.0,
      subst (AllOwn qs) others h.1,
    )
take_at-AllOwn qs (suc i) (x ∷ rs) r rest h e = elim (Option-cases (take_at i rs)) [
  | inl missing ↦ absurd (ground (arith, missing, e))
  | inr ((y, left), found) ↦
      let (own, others) = take_at-AllOwn qs i rs y left h.1 found in
      let same : y ≡ r = ground (arith, found, e) in
      let kept : x ∷ left ≡ rest = ground (arith, found, e) in
      (
        subst (λ (z : PageRequest). includes qs z.query ≡ true) same own,
        subst (AllOwn qs) kept (h.0, others),
      )
]
