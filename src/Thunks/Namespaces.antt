-- ===== src/Thunks/Namespaces.antt =====
-- dashboard/src/actions/namespace.ts: its thunks.
pub mod Outcome
use installer.Common.{
  String, Bool, true, false, Option, none, some, List, [], ◌∷◌, map, if◌then◌else◌,
}
use installer.Types.{JsError, error, Resource}
use installer.Actions.{
  request_namespace, receive_namespace, set_namespace_state, post_namespace, receive_namespaces,
  error_namespaces, set_allow_create, namespace,
}
use installer.Shared.Namespace.{set_stored_namespace}
use installer.Client.Page.{Page, Run, pure, catch, detach, dispatch, modify, ◌>>=◌, ◌>>◌}
use installer.Client.Platform.{Platform}
use installer.Client.Endpoints.Cluster.{list_namespaces, create_namespace, get_namespace, can_i}

-- `get(namespaceList, "namespaces", []).map(...)`
abbrev names_of : Option (List Resource) → List String
names_of none = []
names_of (some rs) = map (λ r. r.metadata.name) rs

abbrev pub no_access : JsError
no_access = record {
  constructor = error;
  message = "The current account does not have access to any namespaces";
}

-- What is dispatched for the names that were listed, and what is returned.
abbrev report_names : (cluster : String) → List String → Run (List String)
report_names cluster [] = do
  dispatch (namespace (error_namespaces cluster no_access "list"))
  pure []
report_names cluster (n ∷ ns) = do
  dispatch (namespace (receive_namespaces cluster (n ∷ ns)))
  pure (n ∷ ns)

-- The `catch` of `fetchNamespaces`.
abbrev fail_with : (cluster : String) → JsError → Run (List String)
fail_with cluster e = do dispatch (namespace (error_namespaces cluster e "list")); pure []

module _ (x : Platform) (uri : String) where
  unfoldable pub fetch_namespaces : (cluster : String) → Run (List String)
  unfolding list_namespaces
  fetch_namespaces cluster =
      catch (do listed ← list_namespaces x uri cluster; report_names cluster (names_of listed))
        (fail_with cluster)

  unfoldable pub create : (cluster ns : String) → Run Bool
  unfolding create_namespace fetch_namespaces
  create cluster ns =
      catch
        (do
          create_namespace x uri cluster ns
          dispatch (namespace (post_namespace cluster ns))
          detach (fetch_namespaces cluster)
          pure true)
        (λ e. do dispatch (namespace (error_namespaces cluster e "create")); pure false)

  unfoldable pub get : (cluster ns : String) → Run Bool
  unfolding get_namespace
  get cluster ns =
      catch
        (do
          dispatch (namespace (request_namespace cluster ns))
          found ← get_namespace x uri cluster ns
          dispatch (namespace (receive_namespace cluster found))
          pure true)
        (λ e. do dispatch (namespace (error_namespaces cluster e "get")); pure false)

  abbrev store_namespace : (cluster ns : String) → Page → Page
  store_namespace cluster ns p = record p {
    storage = set_stored_namespace x.externals cluster ns p.storage;
  }

  unfoldable pub set_namespace : (cluster ns : String) → Run (Unit {0})
  unfolding set_stored_namespace
  set_namespace cluster ns = do
    modify (store_namespace cluster ns)
    dispatch (namespace (set_namespace_state cluster ns))

  unfoldable pub can_create : (cluster : String) → Run (Unit {0})
  unfolding can_i
  can_create cluster =
      catch
        (do
          allowed ← can_i x uri cluster "" "namespaces" "create" ""
          dispatch (namespace (set_allow_create cluster allowed)))
        (λ e. dispatch (namespace (error_namespaces cluster e "get")))
