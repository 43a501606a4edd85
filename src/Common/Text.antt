-- ===== src/Common/Text.antt =====
-- Texts that the dashboard takes apart: matching a fixed prefix, reading up to a slash, and splitting
-- at a character.
use Prim.Native.Char.{Char, code, nul}
use Prim.Native.String.{String, [], ◌∷◌, ◌++◌}
use mathlib.Core.Path.{◌≡◌, refl, ap, ◌∙◌}
use mathlib.Core.Bool.{Bool, true, false, ◌||◌}
use mathlib.Core.Logic.{inl, inr}
use mathlib.Core.Option.{Option, none, some}
use Prim.Native.Nat.{ℕ}
use mathlib.Core.List.{List}
use native.Mathlib.Omega.{arith}
use text.Mathlib.TextLemmas.{nil-append, cons-append}
use installer.Common.Tests.{if◌then◌else◌, nat_eq, nat_eq_iff, Bool-cases}

-- What follows the prefix `p` of a text, if it has that prefix.
unfoldable pub strip_prefix : String → String → Option String
strip_prefix [] s = some s
strip_prefix (c ∷ p) [] = none
strip_prefix (c ∷ p) (d ∷ s) = if nat_eq (code c) (code d) then strip_prefix p s else none

-- The longest prefix with no slash, `[^/]*`.
unfoldable pub segment : String → String
segment [] = []
segment (c ∷ s) = if nat_eq (code c) b'/' then [] else c ∷ segment s

-- What follows that prefix.
unfoldable pub after_segment : String → String
after_segment [] = []
after_segment (c ∷ s) = if nat_eq (code c) b'/' then c ∷ s else after_segment s

abbrev pub has_slash : String → Bool
has_slash [] = false
has_slash (c ∷ s) = nat_eq (code c) b'/' || has_slash s

-- A text that is empty or begins with a slash.
abbrev pub at_slash : String → Bool
at_slash [] = true
at_slash (c ∷ s) = nat_eq (code c) b'/'

pub strip_prefix-append : (p s : String) → strip_prefix p (p ++ s) ≡ some s
unfolding strip_prefix
strip_prefix-append [] s = rw (nil-append s)
strip_prefix-append (c ∷ p) s = rw (cons-append c p s) (ground (arith, strip_prefix-append p s))

pub segment-append : (s t : String) → has_slash s ≡ false → at_slash t ≡ true → segment (s ++ t) ≡ s
unfolding segment
segment-append [] [] h k = rw (nil-append [])
segment-append [] (c ∷ t) h k = rw (nil-append (c ∷ t)) (ground arith)
segment-append (c ∷ s) t h k = rw (cons-append c s t) (ground (arith, segment-append s t))

pub after_segment-append :
    (s t : String) → has_slash s ≡ false → at_slash t ≡ true → after_segment (s ++ t) ≡ t
unfolding after_segment
after_segment-append [] [] h k = rw (nil-append [])
after_segment-append [] (c ∷ t) h k = rw (nil-append (c ∷ t)) (ground arith)
after_segment-append (c ∷ s) t h k =
    rw (cons-append c s t) (ground (arith, after_segment-append s t))

-- A segment read from a text holds no slash, and the two parts make up the text.
pub segment-no_slash : (s : String) → has_slash (segment s) ≡ false
unfolding segment
segment-no_slash [] = refl
segment-no_slash (c ∷ s) = elim (Bool-cases (nat_eq (code c) b'/')) [
  | inl slash ↦ rw slash refl
  | inr other ↦ rw other (rw other (segment-no_slash s))
]

pub segment-append-after_segment : (s : String) → segment s ++ after_segment s ≡ s
unfolding segment after_segment
segment-append-after_segment [] = nil-append []
segment-append-after_segment (c ∷ s) = ground (
  arith,
  segment-append-after_segment s,
  nil-append (c ∷ s),
  cons-append c (segment s) (after_segment s),
)

-- `s.split(c)` for a separator of one character, given by its code: the first part and the others.
unfoldable pub split_parts : (separator : ℕ) → String → String × List String
split_parts separator [] = ([], List.[])
split_parts separator (c ∷ s) =
    let (first, rest) = split_parts separator s in
    if nat_eq (code c) separator then ([], List.◌∷◌ first rest) else (c ∷ first, rest)

-- The first character of a text that is not empty.
abbrev pub head_of : String → Char
head_of [] = nul
head_of (c ∷ s) = c

pub single-append : (c : Char) (s : String) → (c ∷ []) ++ s ≡ c ∷ s
single-append c s = cons-append c [] s ∙ ap (λ t. c ∷ t) (nil-append s)

-- Whether a text has the character of a code.
abbrev pub has_char : (n : ℕ) → String → Bool
has_char n [] = false
has_char n (c ∷ s) = nat_eq (code c) n || has_char n s

pub split_parts-bare : (n : ℕ) (s : String) → has_char n s ≡ false → split_parts n s ≡ (s, List.[])
unfolding split_parts
split_parts-bare n [] h = refl
split_parts-bare n (c ∷ s) h = elim (Bool-cases (nat_eq (code c) n)) [
  | inl found ↦ absurd (ground (arith, h, found))
  | inr other ↦
      rw other (ap (λ r. (c ∷ r.0, r.1)) (split_parts-bare n s (ground (arith, h, other))))
]

-- What stands before the first separator is the first part.
pub split_parts-append :
    (d : Char) (s t : String)
    → has_char (code d) s ≡ false
    → split_parts (code d) (s ++ (d ∷ t))
      ≡ (s, List.◌∷◌ (split_parts (code d) t).0 (split_parts (code d) t).1)
unfolding split_parts
split_parts-append d [] t h =
    rw (nil-append (d ∷ t)) (rw ((nat_eq_iff (code d) (code d)).1 refl) refl)
split_parts-append d (c ∷ s) t h = elim (Bool-cases (nat_eq (code c) (code d))) [
  | inl found ↦ absurd (ground (arith, h, found))
  | inr other ↦
      rw (cons-append c s (d ∷ t))
        (rw other (ap (λ r. (c ∷ r.0, r.1)) (split_parts-append d s t (ground (arith, h, other)))))
]
