-- ===== src/Thunks/Olm/Names.antt =====
-- dashboard/src/actions/operators.ts: the plural and the group in the name of a definition.
use Prim.Native.Char.{Char, code}
use text.Mathlib.TextEquality.{Char-path}
use Prim.Native.String.{String, [], ◌∷◌, ◌++◌}
use text.Mathlib.TextLemmas.{nil-append, cons-append}
use mathlib.Core.List as List
use installer.Common.{
  Bool, true, false, ◌≡◌, refl, ap, ◌∙◌, sym, nat_eq, nat_eq_iff, Bool-cases, inl, inr,
}
use installer.Common.Text.{split_parts, head_of, single-append, has_char, split_parts-append}
use installer.Client.Http.{join}
use installer.Thunks.Olm.{parse_crd}

abbrev pub has_dot : String → Bool
has_dot s = has_char b'.' s

abbrev dot : Char
dot = head_of "."

dot-append : (t : String) → "." ++ t ≡ dot ∷ t
dot-append t = single-append dot t

is_dot : (c : Char) → nat_eq (code c) b'.' ≡ true → (c ∷ []) ≡ "."
is_dot c h = ap (λ d. d ∷ []) (Char-path c dot ((nat_eq_iff (code c) b'.').0 h))

-- The parts of a text, joined again.
abbrev joined : String × List.List String → String
joined r = join "." (List.◌∷◌ r.0 r.1)

join-cons :
    (c : Char) (s : String) (rest : List.List String)
    → join "." (List.◌∷◌ (c ∷ s) rest) ≡ c ∷ join "." (List.◌∷◌ s rest)
unfolding join
join-cons c s List.[] = refl
join-cons c s (List.◌∷◌ t rest) = cons-append c s _

join-split_parts : (s : String) → joined (split_parts b'.' s) ≡ s
unfolding split_parts join
join-split_parts [] = refl
join-split_parts (c ∷ s) = elim (Bool-cases (nat_eq (code c) b'.')) [
  | inl found ↦ rw found (
      nil-append _
      ∙ ap (λ t. "." ++ t) (join-split_parts s)
      ∙ ap (λ t. t ++ s) (sym (is_dot c found))
      ∙ cons-append c [] s
      ∙ ap (λ t. c ∷ t) (nil-append s))
  | inr other ↦ rw other (
      join-cons c (split_parts b'.' s).0 (split_parts b'.' s).1
      ∙ ap (λ t. c ∷ t) (join-split_parts s))
]

-- The name of a definition is taken apart at its first dot: from a plural without a dot and any
-- group, put together with a dot, both are read again.
pub parse_crd-append :
    (plural group : String)
    → has_dot plural ≡ false
    → parse_crd (plural ++ ("." ++ group)) ≡ (plural, group)
unfolding parse_crd
parse_crd-append plural group h =
    ap (λ (r : String × List.List String). (r.0, join "." r.1))
      (ap (λ u. split_parts b'.' (plural ++ u)) (dot-append group)
        ∙ split_parts-append dot plural group h)
    ∙ ap (λ t. (plural, t)) (join-split_parts group)
