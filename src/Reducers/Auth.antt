-- ===== src/Reducers/Auth.antt =====
-- dashboard/src/reducers/auth.ts: the state of the session.
pub mod Session
use installer.Common.{String, Bool, true, false, Option, none, some, or_empty, truthy}
use installer.Actions.{
  set_authenticated, authenticating, authentication_error, set_session_expired, Action, auth,
}
use installer.Shared.Storage.{Storage}
use installer.Shared.Auth.{get_auth_token, using_oidc_token}

pub record AuthState : Type 0 where
  pub session_expired : Bool
  pub authenticated : Bool
  pub authenticating : Bool
  pub oidc_authenticated : Bool
  pub authentication_error : Option String

-- `getInitialState`
unfoldable pub initial_state : Storage → AuthState
unfolding get_auth_token using_oidc_token
initial_state storage = record {
  session_expired = false;
  authenticated = truthy (or_empty (get_auth_token storage));
  authenticating = false;
  oidc_authenticated = using_oidc_token storage;
  authentication_error = none;
}

unfoldable pub auth_reducer : AuthState → Action → AuthState
auth_reducer s (auth (set_authenticated authenticated oidc)) = record s {
  authenticated = authenticated;
  oidc_authenticated = oidc;
  authenticating = false;
}
auth_reducer s (auth authenticating) = record s { authenticated = false; authenticating = true }
auth_reducer s (auth (authentication_error message)) = record s {
  authentication_error = some message;
  authenticating = false;
}
auth_reducer s (auth (set_session_expired expired)) = record s { session_expired = expired }
auth_reducer s _ = s
