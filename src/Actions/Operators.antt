-- ===== src/Actions/Operators.antt =====
-- dashboard/src/actions/operators.ts: its actions. Package manifests and cluster service versions
-- are Kubernetes resources.
use installer.Common.{List}
use installer.Types.{JsError, Resource}

pub data OperatorAction : Type 0 where
  checking_olm olm_installed : OperatorAction
  error_olm_check : JsError → OperatorAction
  request_operators : OperatorAction
  receive_operators : List Resource → OperatorAction
  request_operator : OperatorAction
  receive_operator : Resource → OperatorAction
  error_operators : JsError → OperatorAction
  request_csvs : OperatorAction
  receive_csvs : List Resource → OperatorAction
  error_csvs : JsError → OperatorAction
  request_csv : OperatorAction
  receive_csv : Resource → OperatorAction
  creating_resource : OperatorAction
  resource_created : Resource → OperatorAction
  error_resource_create : JsError → OperatorAction
  updating_resource : OperatorAction
  resource_updated : Resource → OperatorAction
  error_resource_update : JsError → OperatorAction
  deleting_resource resource_deleted : OperatorAction
  error_resource_delete : JsError → OperatorAction
  request_custom_resources : OperatorAction
  receive_custom_resources : List Resource → OperatorAction
  error_custom_resource : JsError → OperatorAction
  request_custom_resource : OperatorAction
  receive_custom_resource : Resource → OperatorAction
  creating_operator : OperatorAction
  operator_created : Resource → OperatorAction
  error_operator_create : JsError → OperatorAction
  request_subscriptions : OperatorAction
  receive_subscriptions : List Resource → OperatorAction
  error_subscription_list : JsError → OperatorAction
