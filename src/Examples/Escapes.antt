-- ===== src/Examples/Escapes.antt =====
-- An encoding of texts for the examples: `%` and `&` are preceded by `%`.
use Prim.Native.Char.{Char, code}
use Prim.Native.String.{String, [], ◌∷◌, ◌++◌}
use text.Mathlib.TextLemmas.{nil-append, cons-append, append-nil}
use installer.Common.{
  Bool, false, ◌||◌, ◌≡◌, refl, ap, ◌∙◌, sym, arith, nat_eq, Bool-cases, inl, inr, if◌then◌else◌,
}
use installer.Common.Text.{head_of, single-append}
use installer.Views.Catalog.Query.{IsEncoding}

abbrev percent : Char
percent = head_of "%"

abbrev is_special : Char → Bool
is_special c = nat_eq (code c) b'%' || nat_eq (code c) b'&'

unfoldable pub escape : String → String
escape [] = []
escape (c ∷ s) = let rest = escape s in if is_special c then percent ∷ c ∷ rest else c ∷ rest

unfoldable pub unescape : String → String
unescape [] = []
unescape (c ∷ []) = c ∷ []
unescape (c ∷ d ∷ s) =
    let matched = d ∷ unescape s in
    let other = c ∷ unescape (d ∷ s) in if nat_eq (code c) b'%' then matched else other

unescape-cons :
    (c : Char) (s : String) → nat_eq (code c) b'%' ≡ false → unescape (c ∷ s) ≡ c ∷ unescape s
unfolding unescape
unescape-cons c [] h = refl
unescape-cons c (d ∷ s) h = rw h refl

unescape-escape : (s t : String) → unescape (escape s ++ t) ≡ s ++ unescape t
unfolding escape unescape
unescape-escape [] t = rw (nil-append t) (sym (nil-append (unescape t)))
unescape-escape (c ∷ s) t = elim (Bool-cases (is_special c)) [
  | inl special ↦ rw special (
      ap unescape
        (cons-append percent (c ∷ escape s) t ∙ ap (λ u. percent ∷ u) (cons-append c (escape s) t))
      ∙ ap (λ u. c ∷ u) (unescape-escape s t)
      ∙ sym (cons-append c s (unescape t)))
  | inr plain ↦ rw plain (
      ap unescape (cons-append c (escape s) t)
      ∙ unescape-cons c (escape s ++ t) (ground (arith, plain))
      ∙ ap (λ u. c ∷ u) (unescape-escape s t)
      ∙ sym (cons-append c s (unescape t)))
]

pub escape-IsEncoding : IsEncoding escape unescape
unfolding unescape
escape-IsEncoding = record {
  decode-encode =
      λ s. ap unescape (sym (append-nil (escape s))) ∙ unescape-escape s [] ∙ append-nil s;
  decode-comma = λ s t.
      unescape-escape s ("," ++ t)
      ∙ ap (λ u. s ++ u)
          (ap unescape (single-append (head_of ",") t)
            ∙ unescape-cons (head_of ",") t refl
            ∙ sym (single-append (head_of ",") (unescape t)));
}
