-- ===== src/Reducers/Config.antt =====
-- dashboard/src/reducers/config.ts: the configuration. `theme` is `Config.getTheme()` when the page
-- was loaded. A configuration that carries no error leaves the error that was kept.
use installer.Common.{Bool, true, false, Option, none, some, []}
use installer.Types.{JsError}
use installer.Actions.{
  SupportedThemes, dark, light, Config, request_config, receive_config, receive_theme,
  set_theme_state, error_config, Action, config,
}
use installer.Shared.Storage.{Storage, set_item}

pub record ConfigState : Type 0 where
  pub loaded : Bool
  pub config : Config

unfoldable pub initial_state : (theme : SupportedThemes) → ConfigState
initial_state theme = record {
  loaded = false;
  config = record {
    kubeapps_cluster = "";
    kubeapps_namespace = "";
    app_version = "";
    auth_proxy_enabled = false;
    oauth_login_uri = "";
    oauth_logout_uri = "";
    auth_proxy_skip_login_page = false;
    error = none;
    clusters = [];
    theme = theme;
  };
}

-- `...action.payload`: `error` is not a key of a payload that has none.
abbrev spread_error : Option JsError → Option JsError → Option JsError
spread_error none old = old
spread_error (some e) old = some e

-- `Config.setTheme`, less the attribute of the document.
unfoldable pub set_theme : SupportedThemes → Storage → Storage
unfolding set_item
set_theme dark storage = set_item "theme" "dark" storage
set_theme light storage = set_item "theme" "light" storage

-- The new state, and the new storage: the reducer itself stores a theme that it receives.
unfoldable pub config_reducer :
    (theme : SupportedThemes) → ConfigState → Storage → Action → ConfigState × Storage
unfolding initial_state set_theme
config_reducer theme s storage (config request_config) = (initial_state theme, storage)
config_reducer theme s storage (config (receive_config c)) = (
  record { loaded = true; config = record c { error = spread_error c.error s.config.error } },
  storage,
)
config_reducer theme s storage (config (receive_theme t)) =
    (record s { config = record s.config { theme = t } }, set_theme t storage)
config_reducer theme s storage (config (set_theme_state t)) =
    (record s { config = record s.config { theme = t } }, storage)
config_reducer theme s storage (config (error_config e)) =
    (record s { config = record s.config { error = some e } }, storage)
config_reducer theme s storage _ = (s, storage)
