-- ===== src/Reducers/Cluster/Progress.antt =====
-- dashboard/src/reducers/cluster.ts: an action that refers to what is there does not make the reducer
-- throw, and keeps the invariant.
use installer.Common.{
  ◌⊎◌, String, includes, ◌++◌, truthy, or_empty, true, Option, none, some, List, [], ◌∷◌, ◌≡◌, refl,
  arith, is_some, Option-cases, Bool-cases, inl, inr,
}
use installer.Common.Dict.{lookup, insert}
use installer.Common.Result.{TypeError, Result, ok}
use installer.Common.Sort.{sort, string_le}
use installer.Actions.{
  ConfigAction, receive_config, NamespaceAction, receive_namespace, set_namespace_state,
  receive_namespaces, error_namespaces, set_allow_create, clear_clusters, Action, config, namespace,
  location_change, Action,
}
use installer.Shared.Storage.{Storage, Externals}
use installer.Reducers.Cluster.{
  ClusterState, ClustersState, key_of, with_entry, receive_one, receive_all, entry, match_cluster,
  match_namespace, move_to, choose_namespace, choose_cluster, initial_state, namespace_reducer,
  cluster_reducer,
}
use installer.Reducers.Cluster.Safety.{
  IsComplete, IsKnown, AllComplete, IsSafe, Refers, insert-AllComplete, insert-IsKnown,
  insert-IsKnown_self, IsKnown-some, receive_config-IsSafe,
}

is_some-truthy : (o : Option String) → truthy (or_empty o) ≡ true → is_some o ≡ true
is_some-truthy none h = cc
is_some-truthy (some t) h = refl

-- The reducer does not throw, and its result is safe.
abbrev pub Succeeds : Result TypeError ClustersState → Type 0
Succeeds r = (t : ClustersState) × (r ≡ ok t) × IsSafe t

module _ (s : ClustersState) (safe : IsSafe s) where
  -- The entry of one cluster is replaced, and the current cluster stays.
  with_entry-IsSafe : (k : String) (c : ClusterState) → IsComplete c → IsSafe (with_entry s k c)
  with_entry-IsSafe k c complete = record {
    complete = insert-AllComplete k c s.clusters safe.complete complete;
    current = insert-IsKnown k (key_of s.current_cluster) c s.clusters safe.current;
  }

  -- The entry of the cluster that becomes the current one is replaced.
  moved-IsSafe :
      (k : Option String) (c : ClusterState)
      → IsComplete c
      → IsSafe (record { current_cluster = k; clusters = insert (key_of k) c s.clusters })
  moved-IsSafe k c complete = record {
    complete = insert-AllComplete (key_of k) c s.clusters safe.complete complete;
    current = insert-IsKnown_self (key_of k) c s.clusters;
  }

  spread-IsComplete : (k : String) → IsKnown s.clusters k → IsComplete (entry s k)
  spread-IsComplete k known =
      let (c, found) = IsKnown-some s.clusters k known in rw found (safe.complete k c found)

  receive_one-Succeeds :
      (cluster name : String)
      → IsKnown s.clusters cluster
      → Succeeds (receive_one s cluster name (lookup cluster s.clusters))
  unfolding receive_one
  receive_one-Succeeds cluster name known =
      let (c, found) = IsKnown-some s.clusters cluster known in
      let here = safe.complete cluster c found in
      elim (Option-cases c.namespaces) [
        | inl missing ↦ absurd (ground (arith, here.has_namespaces, missing))
        | inr (names, e) ↦ elim (Bool-cases (includes names name)) [
          | inl old ↦ (s, ground (arith, found, e, old), safe)
          | inr new ↦
              let d = record c {
                namespaces = some (sort string_le (names ++ name ∷ []));
                error = none;
              } in
              (
                with_entry s cluster d,
                ground (arith, found, e, new),
                with_entry-IsSafe cluster d (record {
                  has_current = here.has_current;
                  has_namespaces = refl;
                  has_can_create = here.has_can_create;
                }),
              )
        ]
      ]

  receive_all-Succeeds :
      (x : Externals) (storage : Storage) (cluster : String) (names : List String)
      → IsKnown s.clusters cluster
      → Succeeds (receive_all x storage s cluster names (lookup cluster s.clusters))
  unfolding receive_all
  receive_all-Succeeds x storage cluster names known =
      let (c, found) = IsKnown-some s.clusters cluster known in
      let here = safe.complete cluster c found in
      rw found (
        _,
        refl,
        with_entry-IsSafe cluster _ (record {
          has_current = refl;
          has_namespaces = refl;
          has_can_create = here.has_can_create;
        }),
      )

  move_to-Succeeds :
      (cluster ns : Option String)
      → IsKnown s.clusters (key_of (choose_cluster cluster s.current_cluster))
      → Succeeds (move_to s cluster ns)
  unfolding move_to choose_namespace
  move_to-Succeeds cluster ns known =
      let k = choose_cluster cluster s.current_cluster in
      let (c, found) = IsKnown-some s.clusters (key_of k) known in
      let here = safe.complete (key_of k) c found in
      elim (Bool-cases (truthy (or_empty ns))) [
        | inl given ↦ (
          _,
          ground (arith, given),
          moved-IsSafe k (record (entry s (key_of k)) { current_namespace = ns })
              (rw found (record {
                has_current = is_some-truthy ns given;
                has_namespaces = here.has_namespaces;
                has_can_create = here.has_can_create;
              })),
        )
        | inr absent ↦ (_, ground (arith, absent, found), moved-IsSafe k c here)
      ]

list_cases :
    (xs : List String) → (xs ≡ []) ⊎ ((x : String) × (rest : List String) × (xs ≡ x ∷ rest))
list_cases [] = inl refl
list_cases (x ∷ rest) = inr (x, rest, refl)

none-AllComplete : AllComplete []
unfolding lookup
none-AllComplete k c h = absurd (ground (arith, h))

pub initial_state-IsSafe : (x : Externals) (stored : Storage) → IsSafe (initial_state x stored)
unfolding initial_state lookup insert
initial_state-IsSafe x stored = record {
  complete =
      insert-AllComplete "default" _ [] none-AllComplete
        (record { has_current = refl; has_namespaces = refl; has_can_create = refl });
  current = refl;
}

module _ (x : Externals) (stored storage : Storage) (s : ClustersState) (safe : IsSafe s) where
  namespace_reducer-Succeeds :
      (a : NamespaceAction)
      → Refers s (namespace a)
      → Succeeds (namespace_reducer x stored storage s a)
  unfolding namespace_reducer
  namespace_reducer-Succeeds (receive_namespace cluster ns) refers =
      receive_one-Succeeds s safe cluster ns.metadata.name refers
  namespace_reducer-Succeeds (receive_namespaces cluster names) refers =
      receive_all-Succeeds s safe x storage cluster names refers
  namespace_reducer-Succeeds (set_namespace_state cluster ns) refers =
      let here = spread-IsComplete s safe (key_of s.current_cluster) safe.current in
      (
        _,
        refl,
        moved-IsSafe s safe (some cluster) _ (record {
          has_current = refl;
          has_namespaces = here.has_namespaces;
          has_can_create = here.has_can_create;
        }),
      )
  namespace_reducer-Succeeds (error_namespaces cluster err op) refers =
      let here = spread-IsComplete s safe cluster refers in
      (
        _,
        refl,
        with_entry-IsSafe s safe cluster _ (record {
          has_current = here.has_current;
          has_namespaces = here.has_namespaces;
          has_can_create = here.has_can_create;
        }),
      )
  namespace_reducer-Succeeds clear_clusters refers =
      let start = initial_state-IsSafe x stored in
      (_, refl, record { complete = start.complete; current = rw refers start.current })
  namespace_reducer-Succeeds (set_allow_create cluster allowed) refers =
      let here = spread-IsComplete s safe cluster refers in
      (
        _,
        refl,
        with_entry-IsSafe s safe cluster _ (record {
          has_current = here.has_current;
          has_namespaces = here.has_namespaces;
          has_can_create = refl;
        }),
      )
  namespace_reducer-Succeeds _ refers = (s, refl, safe)

  config_reducer-Succeeds :
      (a : ConfigAction)
      → Refers s (config a)
      → Succeeds (cluster_reducer x stored storage s (config a))
  unfolding cluster_reducer
  config_reducer-Succeeds (receive_config c) refers = elim (list_cases c.clusters) [
    | inl empty ↦ absurd (refers empty)
    | inr (first, rest, e) ↦ rw e (_, refl, receive_config-IsSafe first rest)
  ]
  config_reducer-Succeeds _ refers = (s, refl, safe)

-- In a state in which every entry is complete and the current cluster is known, an action that
-- refers to a known cluster does not make the reducer throw, and the next state is again such a
-- state. For a configuration, it has to name a cluster; for `clearClusters`, the current cluster has
-- to be called `default`; other actions refer to nothing.
pub cluster_reducer-Succeeds :
    (x : Externals) (stored storage : Storage) (s : ClustersState) (a : Action)
    → IsSafe s
    → Refers s a
    → Succeeds (cluster_reducer x stored storage s a)
unfolding cluster_reducer
cluster_reducer-Succeeds x stored storage s (namespace a) safe refers =
    namespace_reducer-Succeeds x stored storage s safe a refers
cluster_reducer-Succeeds x stored storage s (location_change pathname) safe refers =
    move_to-Succeeds s safe (match_cluster pathname).0 (match_namespace (match_cluster pathname).1)
      refers
cluster_reducer-Succeeds x stored storage s (config a) safe refers =
    config_reducer-Succeeds x stored storage s safe a refers
cluster_reducer-Succeeds x stored storage s _ safe refers = (s, refl, safe)
