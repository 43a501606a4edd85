-- ===== src/Reducers/Cluster.antt =====
-- dashboard/src/reducers/cluster.ts: the clusters, the current one, and the namespaces of each.
-- A field of an entry is optional: the spread of an entry that is missing has none of its fields.
-- Reading a property of such a missing value throws, which is the result `throw type_error`.
pub mod Choice
pub mod Entries
pub mod Location
pub mod Names
pub mod Progress
pub mod Safety
use installer.Common.{
  String, Bool, true, false, Option, none, some, List, [], ◌∷◌, ◌++◌, if◌then◌else◌, truthy,
  or_empty, includes, head?,
}
use installer.Common.Dict.{Dict, lookup, insert}
use installer.Common.Result.{Result, ok, throw, TypeError, type_error}
use installer.Common.Sort.{sort, string_le}
use installer.Common.Text.{strip_prefix, segment, after_segment}
use installer.Types.{JsError}
use installer.Actions.{
  Config, ConfigAction, receive_config, NamespaceAction, receive_namespace, set_namespace_state,
  receive_namespaces, error_namespaces, set_allow_create, clear_clusters, Action, config, namespace,
  location_change,
}
use installer.Shared.Storage.{Storage, Externals}
use installer.Shared.Auth.{get_auth_token, default_namespace_from_token}
use installer.Shared.Namespace.{get_current_namespace}

pub record ClusterError : Type 0 where
  pub action : String
  pub error : JsError

pub record ClusterState : Type 0 where
  pub current_namespace : Option String
  pub namespaces : Option (List String)
  pub can_create_ns : Option Bool
  pub error : Option ClusterError

pub record ClustersState : Type 0 where
  pub current_cluster : Option String
  pub clusters : Dict ClusterState

-- An undefined value used as a key is the text "undefined".
abbrev pub key_of : Option String → String
key_of none = "undefined"
key_of (some k) = k

-- `...undefined`
abbrev pub no_fields : ClusterState
no_fields = record {
  current_namespace = none;
  namespaces = none;
  can_create_ns = none;
  error = none;
}

abbrev pub spread : Option ClusterState → ClusterState
spread none = no_fields
spread (some c) = c

-- `...state.clusters[k]`
abbrev pub entry : ClustersState → String → ClusterState
entry s k = spread (lookup k s.clusters)

-- `{ ...state, clusters: { ...state.clusters, [k]: c } }`
abbrev pub with_entry : ClustersState → String → ClusterState → ClustersState
with_entry s k c = record s { clusters = insert k c s.clusters }

abbrev pub blank : ClusterState
blank = record {
  current_namespace = some "";
  namespaces = some [];
  can_create_ns = some false;
  error = none;
}

-- The two groups of `/(?:\/c\/(?<cluster>[^/]*))?(?:\/ns\/(?<namespace>[^/]*))?/`. Each part is
-- optional, so the expression matches at the first character of every path, if only the empty text.
unfoldable pub match_cluster : (pathname : String) → Option String × String
match_cluster pathname = elim (strip_prefix "/c/" pathname) [
  | none ↦ (none, pathname)
  | some s ↦ (some (segment s), after_segment s)
]

unfoldable pub match_namespace : (rest : String) → Option String
match_namespace rest = elim (strip_prefix "/ns/" rest) [ none ↦ none | some s ↦ some (segment s) ]

-- `config.clusters.forEach(...)`
unfoldable pub add_clusters : List String → Dict ClusterState → Dict ClusterState
add_clusters [] m = m
add_clusters (c ∷ cs) m = add_clusters cs (insert c blank m)

module _ (x : Externals) where
  -- `getInitialState`: `stored` is what `localStorage` held when the page was loaded.
  unfoldable pub initial_state : (stored : Storage) → ClustersState
  unfolding get_auth_token default_namespace_from_token
  initial_state stored = record {
    current_cluster = some "default";
    clusters =
        (
          "default",
          record {
            current_namespace =
                some (default_namespace_from_token x (or_empty (get_auth_token stored)));
            namespaces = some [];
            can_create_ns = some false;
            error = none;
          },
        )
        ∷ [];
  }

-- The branch `receiveNamespace`, given the entry of the cluster.
unfoldable pub receive_one :
    ClustersState → (cluster name : String) → Option ClusterState → Result TypeError ClustersState
receive_one s cluster name none = throw type_error
receive_one s cluster name (some c) = elim c.namespaces [
  | none ↦ throw type_error
  | some names ↦
      if includes names name
      then ok s
      else ok (
          with_entry s cluster
            (record c { namespaces = some (sort string_le (names ++ name ∷ [])); error = none }))
]

-- The branch `receiveNamespaces`.
unfoldable pub receive_all :
    Externals
    → Storage
    → ClustersState
    → (cluster : String) → List String
    → Option ClusterState
    → Result TypeError ClustersState
unfolding get_current_namespace
receive_all x storage s cluster names none = throw type_error
receive_all x storage s cluster names (some c) = ok (
    with_entry s cluster (record c {
      namespaces = some names;
      current_namespace =
          some (get_current_namespace x storage cluster (or_empty c.current_namespace) names);
      error = none;
    }))

-- `groups.namespace || state.clusters[currentCluster].currentNamespace`
unfoldable pub choose_namespace :
    (found : Option String) → Option ClusterState → Result TypeError (Option String)
choose_namespace found current =
    if truthy (or_empty found)
    then ok found
    else elim current [ none ↦ throw type_error | some c ↦ ok c.current_namespace ]

-- `groups.cluster || state.currentCluster`
abbrev pub choose_cluster : (found current : Option String) → Option String
choose_cluster found current = if truthy (or_empty found) then found else current

-- The branch `LOCATION_CHANGE`, given the two groups of the match.
unfoldable pub move_to :
    ClustersState → (cluster namespace : Option String) → Result TypeError ClustersState
unfolding choose_namespace
move_to s cluster ns =
    let current_cluster = choose_cluster cluster s.current_cluster in
    let key = key_of current_cluster in
    elim (choose_namespace ns (lookup key s.clusters)) [
      | throw e ↦ throw e
      | ok current_namespace ↦ ok (record {
        current_cluster = current_cluster;
        clusters =
            insert key (record (entry s key) { current_namespace = current_namespace }) s.clusters;
      })
    ]

unfoldable pub change_location :
    ClustersState → (pathname : String) → Result TypeError ClustersState
unfolding match_cluster match_namespace move_to
change_location s pathname =
    let groups = match_cluster pathname in move_to s groups.0 (match_namespace groups.1)

-- `stored` is the storage at the start, `storage` the present one.
module _ (x : Externals) (stored storage : Storage) where
  unfoldable pub namespace_reducer :
      ClustersState → NamespaceAction → Result TypeError ClustersState
  unfolding receive_one receive_all initial_state
  namespace_reducer s (receive_namespace cluster ns) =
      receive_one s cluster ns.metadata.name (lookup cluster s.clusters)
  namespace_reducer s (receive_namespaces cluster names) =
      receive_all x storage s cluster names (lookup cluster s.clusters)
  namespace_reducer s (set_namespace_state cluster ns) = ok (record {
    current_cluster = some cluster;
    clusters =
        insert cluster
          (record (entry s (key_of s.current_cluster)) {
            current_namespace = some ns;
            error = none;
          })
          s.clusters;
  })
  namespace_reducer s (error_namespaces cluster err op) = ok (
      with_entry s cluster
        (record (entry s cluster) { error = some (record { action = op; error = err }) }))
  namespace_reducer s clear_clusters =
      ok (record s { clusters = (initial_state x stored).clusters })
  namespace_reducer s (set_allow_create cluster allowed) =
      ok (with_entry s cluster (record (entry s cluster) { can_create_ns = some allowed }))
  namespace_reducer s _ = ok s

  unfoldable pub cluster_reducer : ClustersState → Action → Result TypeError ClustersState
  unfolding namespace_reducer change_location add_clusters
  cluster_reducer s (namespace a) = namespace_reducer s a
  cluster_reducer s (location_change pathname) = change_location s pathname
  cluster_reducer s (config (receive_config c)) =
      ok (record { current_cluster = head? c.clusters; clusters = add_clusters c.clusters [] })
  cluster_reducer s _ = ok s
