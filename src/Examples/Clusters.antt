-- ===== src/Examples/Clusters.antt =====
-- Examples for the reducer of the clusters.
use installer.Common.{true, none, some, [], ◌∷◌, ◌≡◌, refl, arith, eq_iff}
use installer.Common.Dict.{lookup, insert}
use installer.Common.Result.{ok, throw, type_error, ◌>>=◌}
use installer.Actions.{set_allow_create, clear_clusters, namespace, location_change}
use installer.Common.Text.{strip_prefix, segment}
use installer.Shared.Url.App
use installer.Reducers.Cluster.{
  ClusterState, ClustersState, match_cluster, blank, with_entry, change_location, namespace_reducer,
  cluster_reducer, add_clusters,
}
use installer.Reducers.Cluster.Safety.{receive_config-IsSafe}
use installer.Reducers.Cluster.Progress.{Succeeds, cluster_reducer-Succeeds}
use installer.Reducers.Cluster.Entries.{cluster_reducer-lookup}
use installer.Reducers.Cluster.Location.{visit, IsName, pages-visit, clear_clusters-throws}
use installer.Examples.Server.{externals}

abbrev dev : ClusterState
dev = record {
  current_namespace = some "team";
  namespaces = some ("team" ∷ []);
  can_create_ns = some true;
  error = none;
}

-- Two clusters, of which the second is the current one.
abbrev pub two : ClustersState
two = record { current_cluster = some "dev"; clusters = ("prod", blank) ∷ ("dev", dev) ∷ [] }

-- What `receiveConfig` leaves for the clusters `dev` and `prod`.
abbrev configured : ClustersState
configured = record {
  current_cluster = some "dev";
  clusters = ("dev", blank) ∷ ("prod", blank) ∷ [];
}

cluster_reducer-Succeeds_example :
    Succeeds (cluster_reducer externals [] [] configured (location_change "/c/prod/ns/team/apps"))
unfolding add_clusters lookup insert match_cluster strip_prefix segment
cluster_reducer-Succeeds_example =
    cluster_reducer-Succeeds externals [] [] configured (location_change "/c/prod/ns/team/apps")
      (receive_config-IsSafe "dev" ("prod" ∷ [])) refl

cluster_reducer-lookup_example :
    lookup "dev" (with_entry two "prod" (record blank { can_create_ns = some true })).clusters
    ≡ lookup "dev" two.clusters
unfolding cluster_reducer
cluster_reducer-lookup_example =
    cluster_reducer-lookup externals [] [] two (namespace (set_allow_create "prod" true)) "dev"
      (ground (arith, eq_iff "prod" "dev")) refl

pub dev-IsName : IsName "dev"
dev-IsName = record { not_empty = refl; no_slash = refl }

pages-visit_example :
    (change_location two (App.apps_list "dev" "dev") ≡ ok (visit two "dev" "dev"))
    × (change_location two (App.apps_get "dev" "dev" "web") ≡ ok (visit two "dev" "dev"))
    × (change_location two (App.apps_upgrade "dev" "dev" "web") ≡ ok (visit two "dev" "dev"))
    × (change_location two (App.catalog "dev" "dev") ≡ ok (visit two "dev" "dev"))
    × (change_location two (App.repo "dev" "dev" "web") ≡ ok (visit two "dev" "dev"))
    × (change_location two (App.operators_list "dev" "dev") ≡ ok (visit two "dev" "dev"))
    × (change_location two (App.config_apprepositories "dev" "dev") ≡ ok (visit two "dev" "dev"))
pages-visit_example = pages-visit two "dev" "dev" "web" dev-IsName dev-IsName

abbrev moved : ClustersState
moved = record { current_cluster = some "prod"; clusters = insert "prod" dev two.clusters }

clear_clusters-throws_example :
    (namespace_reducer externals [] [] two clear_clusters >>= λ t. change_location t "/login")
    ≡ throw type_error
unfolding strip_prefix
clear_clusters-throws_example =
    clear_clusters-throws externals [] [] two "dev" "/login" refl
      (ground (arith, eq_iff "dev" "default")) refl refl
