-- ===== src/Views/RepoFilter/Flags.antt =====
-- dashboard/src/shared/jq.ts: the form of a filter, written and read again.
use Prim.Native.Char.{code}
use Prim.Native.String.{String, [], ◌∷◌, ◌++◌}
use text.Mathlib.TextLemmas.{nil-append, cons-append}
use mathlib.Core.List.{List}
use installer.Common.{
  ℕ, ◌+◌, Bool, true, false, ◌||◌, map, ◌≡◌, refl, ap, arith, if◌then◌else◌, nat_eq,
}
use installer.Client.Http.{join}
use installer.Views.RepoFilter.{
  FilterParams, includes_text, names_array, variables_from, tests_from, to_filter_rule, to_params,
}

-- Whether a text has the character of a pipe.
abbrev pub has_pipe : String → Bool
has_pipe [] = false
has_pipe (c ∷ s) = nat_eq (code c) b'|' || has_pipe s

has_pipe-append : (s t : String) → has_pipe (s ++ t) ≡ (has_pipe s || has_pipe t)
has_pipe-append [] t = ap has_pipe (nil-append t)
has_pipe-append (c ∷ s) t = rw (cons-append c s t) (ground (arith, has_pipe-append s t))

abbrev opens_pipe : String → Bool
opens_pipe [] = false
opens_pipe (c ∷ q) = nat_eq (code c) b'|'

-- A text without a pipe includes nothing that begins with one, alone or before another text.
includes_text-no_pipe :
    (q s : String) → opens_pipe q ≡ true → has_pipe s ≡ false → includes_text q s ≡ false
unfolding includes_text
includes_text-no_pipe [] s opens h = absurd (ground (arith, opens))
includes_text-no_pipe (c ∷ q) [] opens h = refl
includes_text-no_pipe (c ∷ q) (d ∷ s) opens h =
    ground (arith, includes_text-no_pipe (c ∷ q) s opens, opens, h)

includes_text-append :
    (q s t : String)
    → opens_pipe q ≡ true
    → has_pipe s ≡ false
    → includes_text q (s ++ t) ≡ includes_text q t
unfolding includes_text
includes_text-append [] s t opens h = absurd (ground (arith, opens))
includes_text-append (c ∷ q) [] t opens h = rw (nil-append t) refl
includes_text-append (c ∷ q) (d ∷ s) t opens h =
    rw (cons-append d s t) (ground (arith, includes_text-append (c ∷ q) s t opens, opens, h))

params-path :
    {m n : String} {a b c d : Bool}
    → m ≡ n
    → a ≡ b
    → c ≡ d
    → Path FilterParams
        (record { names = m; regex = a; exclude = c })
        (record { names = n; regex = b; exclude = d })
params-path e f g i = record { names = e i; regex = f i; exclude = g i }

module _ (trim : String → String) (show : ℕ → String)
    (plain : (i : ℕ) → has_pipe (show i) ≡ false) where
  has_pipe-tests_from :
      (i : ℕ) (ns : List String) → has_pipe (join " or " (tests_from trim show i ns)) ≡ false
  unfolding tests_from join
  has_pipe-tests_from i List.[] = refl
  has_pipe-tests_from i (List.◌∷◌ n List.[]) =
      ground (arith, has_pipe-append ".name == $var" (show i), plain i)
  has_pipe-tests_from i (List.◌∷◌ n (List.◌∷◌ m ns)) =
      let item = ".name == $var" ++ show i in
      let rest = join " or " (tests_from trim show (i + 1) (List.◌∷◌ m ns)) in
      ground (
        arith,
        has_pipe-append item (" or " ++ rest),
        has_pipe-append ".name == $var" (show i),
        has_pipe-append " or " rest,
        plain i,
        has_pipe-tests_from (i + 1) (List.◌∷◌ m ns),
      )

  values-variables_from :
      (i : ℕ) (ns : List String) → map (λ v. v.1) (variables_from trim show i ns) ≡ ns
  unfolding variables_from
  values-variables_from i List.[] = refl
  values-variables_from i (List.◌∷◌ n ns) =
      ap (λ rest. List.◌∷◌ n rest) (values-variables_from (i + 1) ns)

  -- What is read back from a filter of the form is what was written to it: whether the names are an
  -- expression, whether they are excluded, and the names, which come back trimmed and separated by a comma
  -- and a space if they are no expression. (The decimal text of a number has no pipe.)
  pub to_params-to_filter_rule :
      (names : String) (regex exclude : Bool)
      → to_params (to_filter_rule trim show names regex exclude) ≡ record {
        names = if regex then names else join ", " (names_array trim names);
        regex = regex;
        exclude = exclude;
      }
  unfolding to_params to_filter_rule
  to_params-to_filter_rule names true true = refl
  to_params-to_filter_rule names true false = refl
  to_params-to_filter_rule names false false =
      let ns = names_array trim names in
      let tests = join " or " (tests_from trim show 0 ns) in
      let bare = has_pipe-tests_from 0 ns in
      params-path (ap (join ", ") (values-variables_from 0 ns))
        (includes_text-no_pipe "| test" tests refl bare)
        (includes_text-no_pipe "| not" tests refl bare)
  to_params-to_filter_rule names false true =
      let ns = names_array trim names in
      let tests = join " or " (tests_from trim show 0 ns) in
      let bare = has_pipe-tests_from 0 ns in
      params-path (ap (join ", ") (values-variables_from 0 ns))
        (includes_text-append "| test" tests " | not" refl bare)
        (includes_text-append "| not" tests " | not" refl bare)
