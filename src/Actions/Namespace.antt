-- ===== src/Actions/Namespace.antt =====
-- dashboard/src/actions/namespace.ts: its actions.
use installer.Common.{Bool, String, List}
use installer.Types.{JsError, Resource}

pub data NamespaceAction : Type 0 where
  request_namespace : (cluster namespace : String) → NamespaceAction
  receive_namespace : (cluster : String) → Resource → NamespaceAction
  set_namespace_state : (cluster namespace : String) → NamespaceAction
  post_namespace : (cluster namespace : String) → NamespaceAction
  receive_namespaces : (cluster : String) → List String → NamespaceAction
  error_namespaces : (cluster : String) → JsError → (op : String) → NamespaceAction
  set_allow_create : (cluster : String) → (allowed : Bool) → NamespaceAction
  clear_clusters : NamespaceAction
