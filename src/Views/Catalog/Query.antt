-- ===== src/Views/Catalog/Query.antt =====
-- dashboard/src/components/Catalog/Catalog.tsx: the values of a filter, written to an address and read
-- again.
use Prim.Native.Char.{Char, code}
use Prim.Native.String.{String, [], ◌∷◌, ◌++◌}
use text.Mathlib.TextEquality.{Char-path}
use text.Mathlib.TextLemmas.{cons-append}
use mathlib.Core.List.{List}
use installer.Common.{
  Bool, false, ◌||◌, map, any, ◌≡◌, refl, ap, ◌∙◌, sym, arith, nat_eq, nat_eq_iff, Bool-cases, inl,
  inr,
}
use installer.Common.Text.{
  split_parts, head_of, single-append, has_char, split_parts-bare, split_parts-append,
}
use installer.Client.Http.{join}
use installer.Views.Catalog.{hide_commas, show_commas, read_values, values_text}

-- Whether a text has an underscore, and whether it has a comma.
abbrev pub has_underscore : String → Bool
has_underscore [] = false
has_underscore (c ∷ s) = nat_eq (code c) b'_' || has_underscore s

abbrev has_comma : String → Bool
has_comma s = has_char b',' s

abbrev comma : Char
comma = head_of ","

abbrev line : Char
line = head_of "_"

comma-append : (s : String) → "," ++ s ≡ comma ∷ s
comma-append s = single-append comma s

lines-append : (s : String) → "__" ++ s ≡ line ∷ line ∷ s
lines-append s = cons-append line (line ∷ []) s ∙ ap (λ t. line ∷ t) (single-append line s)

show_commas-cons :
    (c : Char) (s : String) → nat_eq (code c) b'_' ≡ false → show_commas (c ∷ s) ≡ c ∷ show_commas s
unfolding show_commas
show_commas-cons c [] h = refl
show_commas-cons c (d ∷ s) h = rw h refl

-- A value without an underscore is read as it was.
show_commas-hide_commas : (s : String) → has_underscore s ≡ false → show_commas (hide_commas s) ≡ s
unfolding show_commas hide_commas
show_commas-hide_commas [] h = refl
show_commas-hide_commas (c ∷ s) h = elim (Bool-cases (nat_eq (code c) b',')) [
  | inl found ↦ rw found (
      ap show_commas (lines-append (hide_commas s))
      ∙ comma-append (show_commas (hide_commas s))
      ∙ ap (λ d. d ∷ show_commas (hide_commas s))
          (sym (Char-path c comma ((nat_eq_iff (code c) b',').0 found)))
      ∙ ap (λ t. c ∷ t) (show_commas-hide_commas s (ground (arith, h))))
  | inr other ↦ rw other (
      show_commas-cons c (hide_commas s) (ground (arith, h))
      ∙ ap (λ t. c ∷ t) (show_commas-hide_commas s (ground (arith, h))))
]

has_comma-hide_commas : (s : String) → has_comma (hide_commas s) ≡ false
unfolding hide_commas
has_comma-hide_commas [] = refl
has_comma-hide_commas (c ∷ s) = elim (Bool-cases (nat_eq (code c) b',')) [
  | inl found ↦ rw found (ap has_comma (lines-append (hide_commas s)) ∙ has_comma-hide_commas s)
  | inr other ↦ rw other (rw other (has_comma-hide_commas s))
]

plain_lem :
    (v : String) (vs : List String)
    → any has_underscore (List.◌∷◌ v vs) ≡ false
    → read_values (values_text (λ t. t) (List.◌∷◌ v vs)) ≡ List.◌∷◌ v vs
unfolding read_values values_text join
plain_lem v List.[] h =
    ap (λ (r : String × List String). List.◌∷◌ (show_commas r.0) (map show_commas r.1))
      (split_parts-bare b',' (hide_commas v) (has_comma-hide_commas v))
    ∙ ap (λ t. List.◌∷◌ t List.[]) (show_commas-hide_commas v (ground (arith, h)))
plain_lem v (List.◌∷◌ w ws) h =
    ap (λ (r : String × List String). List.◌∷◌ (show_commas r.0) (map show_commas r.1))
      (ap (λ u. split_parts b',' (hide_commas v ++ u))
          (comma-append (values_text (λ t. t) (List.◌∷◌ w ws)))
        ∙ split_parts-append comma (hide_commas v) (values_text (λ t. t) (List.◌∷◌ w ws))
            (has_comma-hide_commas v))
    ∙ ap (λ t. List.◌∷◌ t (read_values (values_text (λ t. t) (List.◌∷◌ w ws))))
        (show_commas-hide_commas v (ground (arith, h)))
    ∙ ap (λ ts. List.◌∷◌ v ts) (plain_lem w ws (ground (arith, h)))

-- What is documented of `encodeURIComponent`, and of how `qs` decodes the address: a value that was
-- encoded is decoded to what it was, also where a comma and more of the text follow.
pub record IsEncoding (encode decode : String → String) : Type 0 where
  pub decode-encode : (s : String) → decode (encode s) ≡ s
  pub decode-comma : (s t : String) → decode (encode s ++ ("," ++ t)) ≡ s ++ ("," ++ decode t)

decode-values_text :
    (encode decode : String → String)
    → IsEncoding encode decode
    → (v : String) (vs : List String)
    → decode (values_text encode (List.◌∷◌ v vs)) ≡ values_text (λ t. t) (List.◌∷◌ v vs)
unfolding values_text join
decode-values_text encode decode laws v List.[] = laws.decode-encode (hide_commas v)
decode-values_text encode decode laws v (List.◌∷◌ w ws) =
    laws.decode-comma (hide_commas v) (values_text encode (List.◌∷◌ w ws))
    ∙ ap (λ (t : String). hide_commas v ++ ("," ++ t)) (decode-values_text encode decode laws w ws)

-- The values of a filter that is set, if none of them has an underscore, are read from the decoded
-- address as they were before they were encoded and written to it, those with commas included. (The
-- encoding is assumed to do what is documented of it.)
pub read_values-values_text :
    (encode decode : String → String)
    → IsEncoding encode decode
    → (v : String) (vs : List String) → any has_underscore (List.◌∷◌ v vs) ≡ false
    → read_values (decode (values_text encode (List.◌∷◌ v vs))) ≡ List.◌∷◌ v vs
read_values-values_text encode decode laws v vs h =
    ap read_values (decode-values_text encode decode laws v vs) ∙ plain_lem v vs h
