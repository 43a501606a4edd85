-- ===== src/Reducers/Cluster/Safety.antt =====
-- dashboard/src/reducers/cluster.ts: which actions the reducer takes without throwing, and the
-- invariant that makes it so.
use installer.Common.{
  String, true, some, List, [], ◌∷◌, ◌≡◌, refl, ◌≢◌, arith, is_some, Option-cases, Bool-cases, ◌==◌,
  inl, inr,
}
use mathlib.Core.Path.{subst}
use installer.Common.Dict.{Dict, lookup, insert, lookup-insert, lookup-insert_self}
use installer.Actions.{
  receive_config, receive_namespace, receive_namespaces, error_namespaces, set_allow_create,
  clear_clusters, Action, config, namespace, location_change, Action,
}
use installer.Reducers.Cluster.{
  ClusterState, ClustersState, key_of, blank, match_cluster, choose_cluster, add_clusters,
}

-- An entry that has the three fields that its type promises.
pub record IsComplete (c : ClusterState) : Type 0 where
  pub has_current : is_some c.current_namespace ≡ true
  pub has_namespaces : is_some c.namespaces ≡ true
  pub has_can_create : is_some c.can_create_ns ≡ true

abbrev pub IsKnown : Dict ClusterState → String → Type 0
IsKnown m k = is_some (lookup k m) ≡ true

abbrev pub AllComplete : Dict ClusterState → Type 0
AllComplete m = (k : String) (c : ClusterState) → lookup k m ≡ some c → IsComplete c

-- Every entry is complete, and the current cluster has one.
pub record IsSafe (s : ClustersState) : Type 0 where
  pub complete : AllComplete s.clusters
  pub current : IsKnown s.clusters (key_of s.current_cluster)

-- What an action must refer to: a known cluster where it names one, at least one cluster in the
-- configuration, and, at a logout, the current cluster called `default`.
abbrev pub Refers : ClustersState → Action → Type 0
Refers s (namespace (receive_namespace cluster ns)) = IsKnown s.clusters cluster
Refers s (namespace (receive_namespaces cluster names)) = IsKnown s.clusters cluster
Refers s (namespace (error_namespaces cluster err op)) = IsKnown s.clusters cluster
Refers s (namespace (set_allow_create cluster allowed)) = IsKnown s.clusters cluster
Refers s (namespace clear_clusters) = s.current_cluster ≡ some "default"
Refers s (config (receive_config c)) = c.clusters ≢ []
Refers s (location_change pathname) =
    IsKnown s.clusters (key_of (choose_cluster (match_cluster pathname).0 s.current_cluster))
Refers s _ = Unit

pub insert-AllComplete :
    (k : String) (c : ClusterState) (m : Dict ClusterState)
    → AllComplete m
    → IsComplete c
    → AllComplete (insert k c m)
insert-AllComplete k c m all here j d h = elim (Bool-cases (k == j)) [
  | inl same ↦
      let e : c ≡ d = ground (arith, same, lookup-insert k j c m, h) in subst IsComplete e here
  | inr other ↦ all j d (ground (arith, other, lookup-insert k j c m, h))
]

pub insert-IsKnown :
    (k j : String) (c : ClusterState) (m : Dict ClusterState)
    → IsKnown m j
    → IsKnown (insert k c m) j
insert-IsKnown k j c m h = ground (arith, h, lookup-insert k j c m)

pub insert-IsKnown_self :
    (k : String) (c : ClusterState) (m : Dict ClusterState) → IsKnown (insert k c m) k
insert-IsKnown_self k c m = rw (lookup-insert_self k c m) refl

pub IsKnown-some :
    (m : Dict ClusterState) (k : String) → IsKnown m k → (c : ClusterState) × (lookup k m ≡ some c)
IsKnown-some m k h = elim (Option-cases (lookup k m)) [
  | inl missing ↦ absurd (ground (arith, h, missing))
  | inr found ↦ found
]

blank-AllComplete :
    (cs : List String) (m : Dict ClusterState) → AllComplete m → AllComplete (add_clusters cs m)
unfolding add_clusters
blank-AllComplete [] m all = all
blank-AllComplete (c ∷ cs) m all = blank-AllComplete cs (insert c blank m) (
    insert-AllComplete c blank m all
      (record { has_current = refl; has_namespaces = refl; has_can_create = refl }))

add_clusters-IsKnown :
    (cs : List String) (m : Dict ClusterState) (k : String)
    → IsKnown m k
    → IsKnown (add_clusters cs m) k
unfolding add_clusters
add_clusters-IsKnown [] m k h = h
add_clusters-IsKnown (c ∷ cs) m k h =
    add_clusters-IsKnown cs (insert c blank m) k (insert-IsKnown c k blank m h)

-- The state after a configuration that names a cluster is safe.
pub receive_config-IsSafe :
    (c : String) (cs : List String)
    → IsSafe (record { current_cluster = some c; clusters = add_clusters (c ∷ cs) [] })
unfolding add_clusters lookup
receive_config-IsSafe c cs = record {
  complete = blank-AllComplete (c ∷ cs) [] (λ k d h. absurd (ground (arith, h)));
  current = add_clusters-IsKnown cs (insert c blank []) c (insert-IsKnown_self c blank []);
}
