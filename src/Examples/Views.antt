-- ===== src/Examples/Views.antt =====
-- Examples for what the pages compute.
use Prim.Native.String.{String, ◌++◌}
use installer.Examples.Escapes.{escape, unescape, escape-IsEncoding}
use installer.Common.{
  ℕ, ◌≤◌, ◌<◌, true, false, [], ◌∷◌, ◌≡◌, refl, ◌⊎◌, nat_eq, if◌then◌else◌, Bool-cases, inl, inr,
}
use installer.Common.Result.{ok}
use installer.Types.{KubeState}
use installer.Reducers.Kube.{Browser, initial_state}
use installer.Client.Http.{join}
use installer.Thunks.Resources.Fallback.{kube_run}
use installer.Views.Descriptions.{
  size, max_desc_length, trim_description, size-trim_description, IsCut, spaces_within,
}
use installer.Views.RepoFilter.{names_array, to_filter_rule, to_params}
use installer.Views.RepoFilter.Flags.{has_pipe, to_params-to_filter_rule}
use installer.Views.Application.{
  Documents, single, listed, no_documents, and, AppViewResourceRefs, no_refs, parse_resources,
  cleanup, all_refs,
}
use installer.Views.Application.Places.{
  other, refs_at, refs_for, resources_of, parse_resources-refs_for,
}
use installer.Views.Application.Watches.{IsUnwatched, cleanup-IsUnwatched}
use installer.Views.Catalog.{read_values, values_text}
use installer.Views.Catalog.Query.{read_values-values_text}
use installer.Examples.Data.{resource, pods, quiet}

abbrev long : String
long =
    "A description of a chart that goes on for more than ninety characters, which the catalog cuts at a space"

size-trim_description_example :
    ((size long ≤ max_desc_length) × (trim_description long ≡ long))
    ⊎ ((max_desc_length < size long)
        × (spaces_within max_desc_length long ≡ 0)
        × (trim_description long ≡ "..."))
    ⊎ ((max_desc_length < size long)
        × (t : String) × IsCut max_desc_length long t
        × (trim_description long ≡ t ++ "..."))
size-trim_description_example = size-trim_description long

abbrev trim : String → String
trim s = s

abbrev show : ℕ → String
show i = if nat_eq i 0 then "0" else "1"

show-plain : (i : ℕ) → has_pipe (show i) ≡ false
show-plain i = elim (Bool-cases (nat_eq i 0)) [
  | inl first ↦ rw first refl
  | inr later ↦ rw later refl
]

to_params-to_filter_rule_example :
    to_params (to_filter_rule trim show "nginx,redis" false true)
    ≡ record { names = join ", " (names_array trim "nginx,redis"); regex = false; exclude = true }
to_params-to_filter_rule_example =
    to_params-to_filter_rule trim show show-plain "nginx,redis" false true

-- A pod, and a list with another.
abbrev manifest : Documents
manifest =
    and (single (resource "web"))
      (and (listed (and (single (resource "db")) no_documents)) no_documents)

parse_resources-refs_for_example :
    refs_at other (parse_resources [] "default" "ns" manifest)
    ≡ refs_for [] "default" "ns" other (resources_of manifest)
parse_resources-refs_for_example = parse_resources-refs_for [] "default" "ns" other manifest

abbrev refs : AppViewResourceRefs
refs = record no_refs { other_resources = pods ∷ [] }

cleanup-IsUnwatched_example :
    (t : KubeState) × (c : Browser) × (kube_run "wss://host" (cleanup refs) initial_state quiet
      ≡ ok (t, c))
    × IsUnwatched "wss://host" pods t
unfolding all_refs
cleanup-IsUnwatched_example = cleanup-IsUnwatched "wss://host" refs initial_state quiet 0 pods refl

read_values-values_text_example :
    read_values (unescape (values_text escape ("db, sql" ∷ "R&D" ∷ []))) ≡ "db, sql" ∷ "R&D" ∷ []
read_values-values_text_example =
    read_values-values_text escape unescape escape-IsEncoding "db, sql" ("R&D" ∷ []) refl
