-- ===== src/Views/ContextSelector.antt =====
-- dashboard/src/components/Header/ContextSelector.tsx: the address after another cluster and namespace
-- were selected.
use Prim.Native.String.{◌++◌}
use text.Mathlib.TextLemmas.{cons-append}
use installer.Common.{String, true, Option, none, some, ◌≡◌, refl, arith}
use installer.Common.Result.{ok}
use installer.Common.Text.{
  strip_prefix, after_segment, at_slash, strip_prefix-append, after_segment-append,
}
use installer.Shared.Url.App.{in_context}
use installer.Reducers.Cluster.{ClustersState, change_location}
use installer.Reducers.Cluster.Location.{visit, IsName, change_location-in_context}

-- What follows `/^\/c\/([^/]*)\/ns\/[^/]*\//`, if the path matches it.
unfoldable pub after_context : (pathname : String) → Option String
unfolding strip_prefix after_segment
after_context pathname = elim (strip_prefix "/c/" pathname) [
  | none ↦ none
  | some t ↦ elim (strip_prefix "/ns/" (after_segment t)) [
    | none ↦ none
    | some u ↦ strip_prefix "/" (after_segment u)
  ]
]

-- The path that `changeContext` goes to, before its query; `none`: the address stays.
unfoldable pub change_context : (cluster namespace pathname : String) → Option String
unfolding after_context
change_context cluster namespace pathname = elim (after_context pathname) [
  | none ↦ none
  | some rest ↦ some (in_context cluster namespace ("/" ++ rest))
]

slash_lem : (t : String) → at_slash ("/" ++ t) ≡ true
slash_lem t = rw (cons-append "/" "" t) refl

ns_lem : (t : String) → at_slash ("/ns/" ++ t) ≡ true
ns_lem t = rw (cons-append "/" "ns/" t) refl

-- On a page of one cluster and namespace, changing the context to another goes to the same page of the
-- other, and the reducer of the clusters then has the selected cluster and namespace as its current ones.
pub change_context-change_location :
    (s : ClustersState) (old_cluster old_namespace cluster namespace rest : String)
    → IsName old_cluster
    → IsName old_namespace
    → IsName cluster
    → IsName namespace
    → (change_context cluster namespace (in_context old_cluster old_namespace ("/" ++ rest))
        ≡ some (in_context cluster namespace ("/" ++ rest)))
      × (change_location s (in_context cluster namespace ("/" ++ rest))
          ≡ ok (visit s cluster namespace))
unfolding change_context after_context
change_context-change_location s old_cluster old_namespace cluster namespace rest oc on c n =
    let tail = "/" ++ rest in
    let t = "/ns/" ++ (old_namespace ++ tail) in
    (
      ground (
        arith,
        strip_prefix-append "/c/" (old_cluster ++ t),
        after_segment-append old_cluster t oc.no_slash (ns_lem (old_namespace ++ tail)),
        strip_prefix-append "/ns/" (old_namespace ++ tail),
        after_segment-append old_namespace tail on.no_slash (slash_lem rest),
        strip_prefix-append "/" rest,
      ),
      change_location-in_context s cluster namespace tail c n (slash_lem rest),
    )
