-- ===== src/Actions/Apps.antt =====
-- dashboard/src/actions/apps.ts: its actions.
use installer.Common.{String, List}
use installer.Types.{JsError, ChartUpdateInfo, Release, AppOverview}

pub data AppsAction : Type 0 where
  request_apps : AppsAction
  receive_apps : List Release → AppsAction
  list_apps : AppsAction
  receive_app_list : List AppOverview → AppsAction
  request_app_update_info : AppsAction
  receive_app_update_info : (release_name : String) → ChartUpdateInfo → AppsAction
  request_delete_app receive_delete_app : AppsAction
  request_deploy_app receive_deploy_app : AppsAction
  request_upgrade_app receive_upgrade_app : AppsAction
  request_rollback_app receive_rollback_app : AppsAction
  error_app : JsError → AppsAction
  select_app : Release → AppsAction
