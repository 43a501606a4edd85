-- ===== src/Actions/Configuration.antt =====
-- dashboard/src/actions/config.ts: its actions, and the configuration that they carry
-- (dashboard/src/shared/Config.ts).
use installer.Common.{Bool, String, Option, List}
use installer.Types.{JsError}

pub data SupportedThemes : Type 0 where
  dark light : SupportedThemes

pub record Config : Type 0 where
  pub kubeapps_cluster : String
  pub kubeapps_namespace : String
  pub app_version : String
  pub auth_proxy_enabled : Bool
  pub oauth_login_uri : String
  pub oauth_logout_uri : String
  pub auth_proxy_skip_login_page : Bool
  pub error : Option JsError
  pub clusters : List String
  pub theme : SupportedThemes

pub data ConfigAction : Type 0 where
  request_config : ConfigAction
  receive_config : Config → ConfigAction
  receive_theme set_theme_state : SupportedThemes → ConfigAction
  error_config : JsError → ConfigAction
