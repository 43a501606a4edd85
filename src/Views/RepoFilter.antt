-- ===== src/Views/RepoFilter.antt =====
-- dashboard/src/shared/jq.ts: the filter of a repository, written as an expression of jq and read back
-- from it. `show` is the decimal text of a number.
pub mod Flags
use Prim.Native.Char.{Char, code}
use Prim.Native.String.{String, [], ◌∷◌, ◌++◌}
use mathlib.Core.List as List
use mathlib.Core.List.{List}
use installer.Common.{
  ℕ, ◌+◌, Bool, true, false, ◌&&◌, ◌||◌, Option, none, some, map, if◌then◌else◌, nat_eq,
}
use installer.Common.Dict.{Dict}
use installer.Common.Text.{split_parts}
use installer.Client.Http.{join}

-- `IAppRepositoryFilter`. `variables` is optional.
pub record AppRepositoryFilter : Type 0 where
  pub jq : String
  pub variables : Option (Dict String)

pub record FilterParams : Type 0 where
  pub names : String
  pub regex : Bool
  pub exclude : Bool

abbrev pub starts_with : (p s : String) → Bool
starts_with [] s = true
starts_with (c ∷ p) [] = false
starts_with (c ∷ p) (d ∷ s) = nat_eq (code c) (code d) && starts_with p s

-- `s.includes(p)`
unfoldable pub includes_text : (p s : String) → Bool
includes_text p [] = starts_with p []
includes_text p (c ∷ s) = starts_with p (c ∷ s) || includes_text p s

-- `names.split(",").map(n => n.trim())`
unfoldable pub names_array : (trim : String → String) (names : String) → List String
unfolding split_parts
names_array trim names =
    let (first, rest) = split_parts b',' names in map trim (List.◌∷◌ first rest)

module _ (trim : String → String) (show : ℕ → String) where
  -- The entries of `variables` from the number `i`.
  unfoldable pub variables_from : (i : ℕ) → List String → Dict String
  variables_from i List.[] = List.[]
  variables_from i (List.◌∷◌ n ns) = List.◌∷◌ ("$var" ++ show i, n) (variables_from (i + 1) ns)

  unfoldable pub tests_from : (i : ℕ) → List String → List String
  tests_from i List.[] = List.[]
  tests_from i (List.◌∷◌ n ns) = List.◌∷◌ (".name == $var" ++ show i) (tests_from (i + 1) ns)

  unfoldable pub to_filter_rule : (names : String) (regex exclude : Bool) → AppRepositoryFilter
  unfolding names_array variables_from tests_from join
  to_filter_rule names regex exclude =
      let filter : AppRepositoryFilter =
        if regex
        then record {
          jq = ".name | test($var)";
          variables = some (List.◌∷◌ ("$var", names) List.[]);
        }
        else record {
          jq = join " or " (tests_from 0 (names_array trim names));
          variables = some (variables_from 0 (names_array trim names));
        } in
      if exclude then record filter { jq = filter.jq ++ " | not" } else filter

unfoldable pub to_params : AppRepositoryFilter → FilterParams
unfolding includes_text join
to_params rule = record {
  names = join ", " (elim rule.variables [ none ↦ List.[] | some vs ↦ map (λ v. v.1) vs ]);
  regex = includes_text "| test" rule.jq;
  exclude = includes_text "| not" rule.jq;
}
