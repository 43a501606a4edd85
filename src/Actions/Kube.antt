-- ===== src/Actions/Kube.antt =====
-- dashboard/src/actions/kube.tsx: its actions.
use installer.Common.{String}
use installer.Common.Dict.{Dict}
use installer.Types.{JsError, Resource, KubeObject, Kind, ResourceRef, Callback}

pub data KubeAction : Type 0 where
  request_resource : String → KubeAction
  receive_resource : (key : String) → KubeObject → KubeAction
  request_resource_kinds : KubeAction
  receive_resource_kinds : Dict Kind → KubeAction
  receive_kinds_error : JsError → KubeAction
  receive_resource_from_list : (key : String) → Resource → KubeAction
  receive_resource_error : (key : String) → JsError → KubeAction
  open_watch_resource : ResourceRef → (handler on_error : Callback) → KubeAction
  close_watch_resource : ResourceRef → KubeAction
  add_timer : (id : String) → (timer : Callback) → KubeAction
  remove_timer : (id : String) → KubeAction
