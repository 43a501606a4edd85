-- ===== src/Reducers/Cluster/Location.antt =====
-- dashboard/src/reducers/cluster.ts with dashboard/src/shared/url.ts: what a change of address does
-- to the current cluster and namespace.
use Prim.Native.String.{◌++◌}
use text.Mathlib.TextLemmas.{cons-append, append_assoc}
use installer.Common.{
  inl, inr, Option-cases, String, true, false, none, some, ◌≡◌, refl, ◌≢◌, arith, eq_iff, truthy,
}
use installer.Common.Dict.{lookup, insert}
use installer.Common.Result.{type_error, ok, throw, ◌>>=◌}
use installer.Common.Text.{
  strip_prefix, has_slash, at_slash, strip_prefix-append, segment-append, after_segment-append,
}
use installer.Actions.{clear_clusters}
use installer.Shared.Storage.{Storage, Externals}
use installer.Shared.Url.App
use installer.Shared.Url.App.{in_context}
use installer.Reducers.Cluster.{
  ClustersState, key_of, entry, match_cluster, match_namespace, move_to, change_location,
  initial_state, namespace_reducer,
}

-- The state with the cluster and the namespace of an address.
abbrev pub visit : ClustersState → (cluster namespace : String) → ClustersState
visit s cluster ns = record {
  current_cluster = some cluster;
  clusters = insert cluster (record (entry s cluster) { current_namespace = some ns }) s.clusters;
}

-- A name that can stand in an address: not empty, and with no slash.
pub record IsName (s : String) : Type 0 where
  pub not_empty : truthy s ≡ true
  pub no_slash : has_slash s ≡ false

ns_at_slash : (t : String) → at_slash ("/ns/" ++ t) ≡ true
ns_at_slash t = rw (cons-append "/" "ns/" t) refl

match_cluster-in_context :
    (cluster namespace rest : String)
    → has_slash cluster ≡ false
    → match_cluster (in_context cluster namespace rest)
      ≡ (some cluster, "/ns/" ++ (namespace ++ rest))
unfolding match_cluster
match_cluster-in_context cluster namespace rest h =
    let t = "/ns/" ++ (namespace ++ rest) in
    ground (
      arith,
      strip_prefix-append "/c/" (cluster ++ t),
      segment-append cluster t h (ns_at_slash (namespace ++ rest)),
      after_segment-append cluster t h (ns_at_slash (namespace ++ rest)),
    )

match_namespace-append :
    (namespace rest : String)
    → has_slash namespace ≡ false
    → at_slash rest ≡ true
    → match_namespace ("/ns/" ++ (namespace ++ rest)) ≡ some namespace
unfolding match_namespace
match_namespace-append namespace rest h k =
    ground
      (arith, strip_prefix-append "/ns/" (namespace ++ rest), segment-append namespace rest h k)

pub change_location-in_context :
    (s : ClustersState) (cluster namespace rest : String)
    → IsName cluster
    → IsName namespace
    → at_slash rest ≡ true
    → change_location s (in_context cluster namespace rest) ≡ ok (visit s cluster namespace)
unfolding change_location move_to
change_location-in_context s cluster namespace rest c n k = ground (
  arith,
  match_cluster-in_context cluster namespace rest c.no_slash,
  match_namespace-append namespace rest n.no_slash k,
)

in_context-append :
    (cluster namespace s t : String)
    → in_context cluster namespace s ++ t ≡ in_context cluster namespace (s ++ t)
in_context-append cluster namespace s t = simp append_assoc

slash_append : (p t : String) → at_slash ("/" ++ t) ≡ true
slash_append p t = rw (cons-append "/" "" t) refl

apps_slash : (t : String) → at_slash ("/apps" ++ t) ≡ true
apps_slash t = rw (cons-append "/" "apps" t) refl

-- Each page of a release, of the catalog, of a repository, of the operators and of the
-- repositories' settings, when it is opened, makes the cluster and the namespace of its address the
-- current ones, whatever they were, and the reducer does not throw. The names are not empty and
-- hold no slash; the name of the release or repository is free.
pub pages-visit :
    (s : ClustersState) (cluster namespace name : String)
    → IsName cluster
    → IsName namespace
    → (change_location s (App.apps_list cluster namespace) ≡ ok (visit s cluster namespace))
      × (change_location s (App.apps_get cluster namespace name) ≡ ok (visit s cluster namespace))
      × (change_location s (App.apps_upgrade cluster namespace name)
          ≡ ok (visit s cluster namespace))
      × (change_location s (App.catalog cluster namespace) ≡ ok (visit s cluster namespace))
      × (change_location s (App.repo cluster namespace name) ≡ ok (visit s cluster namespace))
      × (change_location s (App.operators_list cluster namespace) ≡ ok (visit s cluster namespace))
      × (change_location s (App.config_apprepositories cluster namespace)
          ≡ ok (visit s cluster namespace))
unfolding App.apps_upgrade App.repo App.operators_list App.config_apprepositories
pages-visit s cluster namespace name c n = (
  here "/apps" refl,
  rw (in_context-append cluster namespace "/apps" ("/" ++ name))
      (here ("/apps" ++ ("/" ++ name)) (apps_slash ("/" ++ name))),
  rw (in_context-append cluster namespace "/apps" ("/" ++ name)) (
      rw (in_context-append cluster namespace ("/apps" ++ ("/" ++ name)) "/upgrade") (
        rw (append_assoc "/apps" ("/" ++ name) "/upgrade") (
          here ("/apps" ++ (("/" ++ name) ++ "/upgrade"))
            (apps_slash (("/" ++ name) ++ "/upgrade"))))),
  here "/catalog" refl,
  rw (in_context-append cluster namespace "/catalog" ("/" ++ name))
      (here ("/catalog" ++ ("/" ++ name)) (rw (cons-append "/" "catalog" ("/" ++ name)) refl)),
  here "/operators" refl,
  here "/config/repos" refl,
)
  where
    here :
        (rest : String)
        → at_slash rest ≡ true
        → change_location s (in_context cluster namespace rest) ≡ ok (visit s cluster namespace)
    here rest k = change_location-in_context s cluster namespace rest c n k

match_cluster-none :
    (path : String) → strip_prefix "/c/" path ≡ none → match_cluster path ≡ (none, path)
unfolding match_cluster
match_cluster-none path h = rw (h, match_cluster)

match_namespace-none :
    (path : String) → strip_prefix "/ns/" path ≡ none → match_namespace path ≡ none
unfolding match_namespace
match_namespace-none path h = rw (h, match_namespace)

move_to-none :
    (s : ClustersState)
    → move_to s none none ≡ elim (lookup (key_of s.current_cluster) s.clusters) [
      | none ↦ throw type_error
      | some c ↦ ok (record s { clusters = insert (key_of s.current_cluster) c s.clusters })
    ]
unfolding move_to
move_to-none s = elim (Option-cases (lookup (key_of s.current_cluster) s.clusters)) [
  | inl missing ↦ ground (arith, missing)
  | inr (c, found) ↦ ground (arith, found)
]

-- A path that begins with neither `/c/` nor `/ns/`, wherever else these stand in it: if the current
-- cluster is known, it and its namespace stay; if it is not, the reducer throws.
pub change_location-elsewhere :
    (s : ClustersState) (path : String)
    → strip_prefix "/c/" path ≡ none
    → strip_prefix "/ns/" path ≡ none
    → change_location s path ≡ elim (lookup (key_of s.current_cluster) s.clusters) [
      | none ↦ throw type_error
      | some c ↦ ok (record s { clusters = insert (key_of s.current_cluster) c s.clusters })
    ]
unfolding change_location
change_location-elsewhere s path h k =
    rw (match_cluster-none path h) (rw (match_namespace-none path k) (move_to-none s))

-- After `clearClusters`, the action of a logout, with a current cluster that is not called
-- `default`, every path that begins with neither `/c/` nor `/ns/` (such as `/login`) makes the
-- reducer throw: the clusters are reset, and the current cluster is not.
pub clear_clusters-throws :
    (x : Externals) (stored storage : Storage) (s : ClustersState) (cluster path : String)
    → s.current_cluster ≡ some cluster
    → cluster ≢ "default"
    → strip_prefix "/c/" path ≡ none
    → strip_prefix "/ns/" path ≡ none
    → (namespace_reducer x stored storage s clear_clusters >>= λ t. change_location t path)
      ≡ throw type_error
unfolding namespace_reducer lookup
clear_clusters-throws x stored storage s cluster path current other h k =
    let t = record s { clusters = (initial_state x stored).clusters } in
    rw (change_location-elsewhere t path h k)
      (rw (current, key_of) (ground (arith, eq_iff "default" cluster)))
