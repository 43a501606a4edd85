-- ===== src/Reducers/Cluster/Entries.antt =====
-- dashboard/src/reducers/cluster.ts: an action changes the entry of one cluster, and which entry a
-- change of namespace starts from.
use installer.Common.{
  String, Option, none, some, List, [], ◌∷◌, ◌++◌, ◌≡◌, ◌≢◌, arith, includes, Option-cases,
  Bool-cases, inl, inr,
}
use installer.Common.Dict.{lookup, insert, lookup-insert_ne, lookup-insert_self}
use installer.Common.Result.{TypeError, Result, ok, Result-cases}
use installer.Common.Sort.{sort, string_le}
use installer.Actions.{
  receive_config, NamespaceAction, receive_namespace, set_namespace_state, receive_namespaces,
  error_namespaces, set_allow_create, clear_clusters, Action, config, namespace, location_change,
}
use installer.Shared.Storage.{Storage, Externals}
use installer.Reducers.Cluster.{
  ClusterState, ClustersState, key_of, entry, match_cluster, match_namespace, choose_cluster,
  choose_namespace, move_to, receive_one, receive_all, namespace_reducer, cluster_reducer,
}

-- The action is about another cluster than `j`, and does not replace the whole map.
abbrev pub Spares : ClustersState → Action → String → Type 0
Spares s (namespace (receive_namespace cluster ns)) j = cluster ≢ j
Spares s (namespace (receive_namespaces cluster names)) j = cluster ≢ j
Spares s (namespace (set_namespace_state cluster ns)) j = cluster ≢ j
Spares s (namespace (error_namespaces cluster err op)) j = cluster ≢ j
Spares s (namespace (set_allow_create cluster allowed)) j = cluster ≢ j
Spares s (namespace clear_clusters) j = ⊥
Spares s (config (receive_config c)) j = ⊥
Spares s (location_change pathname) j =
    key_of (choose_cluster (match_cluster pathname).0 s.current_cluster) ≢ j
Spares s _ j = Unit

module _ (s : ClustersState) (j : String) {t : ClustersState} where
  -- A result in which one other entry is replaced.
  replaced-lookup :
      (k : String) (d : ClusterState) (current : Option String)
      → k ≢ j
      → ◌≡◌ {A = Result TypeError ClustersState}
          (ok (record { current_cluster = current; clusters = insert k d s.clusters }))
          (ok t)
      → lookup j t.clusters ≡ lookup j s.clusters
  replaced-lookup k d current other e = ground (arith, e, lookup-insert_ne k j d s.clusters other)

  receive_one-lookup :
      (cluster name : String) (o : Option ClusterState)
      → cluster ≢ j
      → receive_one s cluster name o ≡ ok t
      → lookup j t.clusters ≡ lookup j s.clusters
  unfolding receive_one
  receive_one-lookup cluster name none other e = absurd (cc)
  receive_one-lookup cluster name (some c) other e = elim (Option-cases c.namespaces) [
    | inl missing ↦ absurd (ground (arith, e, missing))
    | inr (names, found) ↦ elim (Bool-cases (includes names name)) [
      | inl old ↦ ground (arith, e, found, old)
      | inr new ↦
          replaced-lookup cluster
            (record c { namespaces = some (sort string_le (names ++ name ∷ [])); error = none })
            s.current_cluster other (ground (arith, e, found, new))
    ]
  ]

  receive_all-lookup :
      (x : Externals) (storage : Storage) (cluster : String) (names : List String)
      (o : Option ClusterState)
      → cluster ≢ j
      → receive_all x storage s cluster names o ≡ ok t
      → lookup j t.clusters ≡ lookup j s.clusters
  unfolding receive_all
  receive_all-lookup x storage cluster names none other e = absurd (cc)
  receive_all-lookup x storage cluster names (some c) other e =
      replaced-lookup cluster _ s.current_cluster other e

  move_to-lookup :
      (cluster ns : Option String)
      → key_of (choose_cluster cluster s.current_cluster) ≢ j
      → move_to s cluster ns ≡ ok t
      → lookup j t.clusters ≡ lookup j s.clusters
  unfolding move_to
  move_to-lookup cluster ns other e =
      let k = choose_cluster cluster s.current_cluster in
      elim (Result-cases (choose_namespace ns (lookup (key_of k) s.clusters))) [
        | inl (err, failed) ↦ absurd (ground (arith, e, failed))
        | inr (n, chosen) ↦
            replaced-lookup (key_of k) (record (entry s (key_of k)) { current_namespace = n }) k
              other (ground (arith, e, chosen))
      ]

  namespace_reducer-lookup :
      (x : Externals) (stored storage : Storage) (a : NamespaceAction)
      → Spares s (namespace a) j
      → namespace_reducer x stored storage s a ≡ ok t
      → lookup j t.clusters ≡ lookup j s.clusters
  unfolding namespace_reducer
  namespace_reducer-lookup x stored storage (receive_namespace cluster ns) other e =
      receive_one-lookup cluster ns.metadata.name (lookup cluster s.clusters) other e
  namespace_reducer-lookup x stored storage (receive_namespaces cluster names) other e =
      receive_all-lookup x storage cluster names (lookup cluster s.clusters) other e
  namespace_reducer-lookup x stored storage (set_namespace_state cluster ns) other e =
      replaced-lookup cluster _ (some cluster) other e
  namespace_reducer-lookup x stored storage (error_namespaces cluster err op) other e =
      replaced-lookup cluster _ s.current_cluster other e
  namespace_reducer-lookup x stored storage clear_clusters other e = absurd other
  namespace_reducer-lookup x stored storage (set_allow_create cluster allowed) other e =
      replaced-lookup cluster _ s.current_cluster other e
  namespace_reducer-lookup x stored storage _ other e = ground (arith, e)

-- An action that the reducer takes leaves the entry of every cluster but the one it is about as it
-- was: for a change of address, the cluster of the address, or the current one if it has none.
-- (A configuration and `clearClusters` replace all the entries.)
pub cluster_reducer-lookup :
    (x : Externals) (stored storage : Storage) (s : ClustersState) (a : Action) (j : String)
    {t : ClustersState}
    → Spares s a j
    → cluster_reducer x stored storage s a ≡ ok t
    → lookup j t.clusters ≡ lookup j s.clusters
unfolding cluster_reducer
cluster_reducer-lookup x stored storage s (namespace a) j other e =
    namespace_reducer-lookup s j x stored storage a other e
cluster_reducer-lookup x stored storage s (location_change pathname) j other e =
    move_to-lookup s j (match_cluster pathname).0 (match_namespace (match_cluster pathname).1) other
      e
cluster_reducer-lookup x stored storage s (config (receive_config c)) j other e = absurd other
cluster_reducer-lookup x stored storage s _ j other e = ground (arith, e)

-- Whatever namespaces a cluster had, after it was selected by `setNamespaceState` it has those of
-- the cluster that was the current one before, and its permission to create namespaces.
pub set_namespace_state-copies :
    (x : Externals) (stored storage : Storage) (s t : ClustersState) (cluster ns : String)
    → namespace_reducer x stored storage s (set_namespace_state cluster ns) ≡ ok t
    → (t.current_cluster ≡ some cluster)
      × ((entry t cluster).current_namespace ≡ some ns)
      × ((entry t cluster).namespaces ≡ (entry s (key_of s.current_cluster)).namespaces)
      × ((entry t cluster).can_create_ns ≡ (entry s (key_of s.current_cluster)).can_create_ns)
unfolding namespace_reducer
set_namespace_state-copies x stored storage s t cluster ns e =
    let here = entry s (key_of s.current_cluster) in
    let d = record here { current_namespace = some ns; error = none } in
    let found = lookup-insert_self cluster d s.clusters in
    (
      ground (arith, e),
      ground (arith, e, found),
      ground (arith, e, found),
      ground (arith, e, found),
    )
