-- ===== src/Views/Descriptions.antt =====
-- dashboard/src/shared/utils.ts: the description of an item of the catalog. Lengths and indices count
-- units of UTF-16, as the source does: a character beyond the first 65536 has two.
use Prim.Native.Char.{Char, code}
use Prim.Native.Nat.{suc}
use Prim.Native.String.{String, [], ◌∷◌, ◌++◌}
use text.Mathlib.TextLemmas.{nil-append, cons-append}
use text.Mathlib.TextEquality.{Char-path}
use installer.Common.Text.{head_of, single-append}
use installer.Common.{
  ℕ, ◌+◌, ◌-◌, ◌≤◌, ◌<◌, Option, none, some, ◌≡◌, refl, ap, ◌∙◌, sym, ◌⊎◌, inl, inr, arith, true,
  nat_eq, nat_eq_iff, ltb, leb, if◌then◌else◌, Bool-cases,
}

abbrev pub units : Char → ℕ
units c = if leb 65536 (code c) then 2 else 1

abbrev pub size : String → ℕ
size [] = 0
size (c ∷ s) = units c + size s

abbrev pub max_desc_length : ℕ
max_desc_length = 90

-- `desc.substr(0, desc.lastIndexOf(" ", limit))`: what precedes the last space at an index of at most
-- `limit`, if there is one.
unfoldable pub before_space : (limit : ℕ) → String → Option String
before_space limit [] = none
before_space limit (c ∷ s) =
    let deeper = before_space (limit - units c) s in
    let rest = if leb (units c) limit then deeper else none in
    elim rest [ some t ↦ some (c ∷ t) | none ↦ if nat_eq (code c) b' ' then some [] else none ]

-- `substr(0, -1)` is empty.
unfoldable pub trim_description : String → String
unfolding before_space
trim_description desc =
    if ltb max_desc_length (size desc)
    then elim (before_space max_desc_length desc) [ none ↦ [] ++ "..." | some t ↦ t ++ "..." ]
    else desc

size-append : (s t : String) → size (s ++ t) ≡ size s + size t
size-append [] t = rw (nil-append t) (ground arith)
size-append (c ∷ s) t = rw (cons-append c s t) (omega (arith, size-append s t))

-- The spaces of a text, and those at an index of at most `limit`.
abbrev one_if_space : Char → ℕ
one_if_space c = if nat_eq (code c) b' ' then 1 else 0

abbrev pub spaces : String → ℕ
spaces [] = 0
spaces (c ∷ s) = one_if_space c + spaces s

abbrev pub spaces_within : (limit : ℕ) → String → ℕ
spaces_within limit [] = 0
spaces_within limit (c ∷ s) =
    let deeper = spaces_within (limit - units c) s in
    one_if_space c + (if leb (units c) limit then deeper else 0)

-- `t` is what precedes the last space of `s` at an index of at most `limit`.
pub record IsCut (limit : ℕ) (s t : String) : Type 0 where
  pub rest : String
  pub whole : s ≡ t ++ (" " ++ rest)
  pub short : size t ≤ limit
  pub last : suc (spaces t) ≡ spaces_within limit s

cons-IsCut :
    (limit : ℕ) (c : Char) (s t : String)
    → leb (units c) limit ≡ true
    → IsCut (limit - units c) s t
    → IsCut limit (c ∷ s) (c ∷ t)
cons-IsCut limit c s t fits cut = record {
  rest = cut.rest;
  whole = ap (λ u. c ∷ u) cut.whole ∙ sym (cons-append c t (" " ++ cut.rest));
  short = ground (arith, fits, cut.short);
  last = ground (arith, fits, cut.last);
}

space-append : (c : Char) (s : String) → nat_eq (code c) b' ' ≡ true → c ∷ s ≡ [] ++ (" " ++ s)
space-append c s h =
    ap (λ (d : Char). d ∷ s) (Char-path c (head_of " ") ((nat_eq_iff (code c) b' ').0 h))
    ∙ sym (single-append (head_of " ") s)
    ∙ sym (nil-append (" " ++ s))

-- The search for the last space finds it, or there is none.
before_space-cases :
    (limit : ℕ) (s : String)
    → ((before_space limit s ≡ none) × (spaces_within limit s ≡ 0))
      ⊎ ((t : String) × (before_space limit s ≡ some t) × IsCut limit s t)
unfolding before_space
before_space-cases limit [] = inl (refl, refl)
before_space-cases limit (c ∷ s) = elim (Bool-cases (leb (units c) limit)) [
  | inl fits ↦ elim (before_space-cases (limit - units c) s) [
    | inr (t, found, cut) ↦
        inr (c ∷ t, ground (arith, fits, found), cons-IsCut limit c s t fits cut)
    | inl (missing, none_there) ↦ elim (Bool-cases (nat_eq (code c) b' ')) [
      | inl space ↦ inr (
        [],
        ground (arith, fits, missing, space),
        record {
          rest = s;
          whole = space-append c s space;
          short = omega arith;
          last = ground (arith, fits, space, none_there);
        },
      )
      | inr other ↦
          inl (ground (arith, fits, missing, other), ground (arith, fits, other, none_there))
    ]
  ]
  | inr past ↦ elim (Bool-cases (nat_eq (code c) b' ')) [
    | inl space ↦ inr (
      [],
      ground (arith, past, space),
      record {
        rest = s;
        whole = space-append c s space;
        short = omega arith;
        last = ground (arith, past, space);
      },
    )
    | inr other ↦ inl (ground (arith, past, other), ground (arith, past, other))
  ]
]

-- A description of at most 90 units of UTF-16 is shown as it is, and a longer one as what precedes its last space
-- at an index of at most 90, which is at most 90 units long, followed by three dots; if it has no such
-- space, only the dots are shown.
pub size-trim_description :
    (desc : String)
    → ((size desc ≤ max_desc_length) × (trim_description desc ≡ desc))
      ⊎ ((max_desc_length < size desc)
          × (spaces_within max_desc_length desc ≡ 0)
          × (trim_description desc ≡ "..."))
      ⊎ ((max_desc_length < size desc)
          × (t : String) × IsCut max_desc_length desc t
          × (trim_description desc ≡ t ++ "..."))
unfolding trim_description
size-trim_description desc = elim (Bool-cases (ltb max_desc_length (size desc))) [
  | inr short ↦ inl (ground (arith, short), rw (short, trim_description) refl)
  | inl long ↦
      let longer : max_desc_length < size desc = ground (arith, long) in
      elim (before_space-cases max_desc_length desc) [
        | inl (missing, no_space) ↦ inr (
            inl (
              longer,
              no_space,
              rw (long, trim_description) (rw (missing, trim_description) (nil-append "...")),
            ))
        | inr (t, found, cut) ↦
            inr (
              inr (longer, t, cut, rw (long, trim_description) (rw (found, trim_description) refl)))
      ]
]
