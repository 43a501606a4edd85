-- ===== src/Thunks/Login.antt =====
-- dashboard/src/actions/auth.ts: the start of a session.
pub mod Outcome
use installer.Common.{String, Bool, true, false, List, if◌then◌else◌}
use installer.Actions.{
  set_authenticated, authenticating, authentication_error, set_session_expired, auth,
}
use installer.Shared.Auth.{set_auth_token}
use installer.Client.Page.{Page, Run, pure, catch, dispatch, modify, ◌>>=◌, ◌>>◌}
use installer.Client.Platform.{Platform}
use installer.Client.Endpoints.Cluster.{validate_token, is_authenticated_with_cookie}

abbrev when : Bool → Run (Unit {0}) → Run (Unit {0})
when true m = m
when false m = pure tt

-- `Auth.setAuthToken`
abbrev store_token : (token : String) (oidc : Bool) → Page → Page
store_token token oidc p = record p { storage = set_auth_token token oidc p.storage }

module _ (x : Platform) where
  abbrev unless_valid : (cluster token : String) (oidc : Bool) → Run (Unit {0})
  unless_valid cluster token true = pure tt
  unless_valid cluster token false = validate_token x cluster token

  unfoldable pub authenticate : (cluster token : String) (oidc : Bool) → Run (Unit {0})
  unfolding validate_token set_auth_token
  authenticate cluster token oidc = do
    dispatch (auth authenticating)
    catch
        (do
          unless_valid cluster token oidc
          modify (store_token token oidc)
          dispatch (auth (set_authenticated true oidc))
          when oidc (dispatch (auth (set_session_expired false))))
        (λ e. dispatch (auth (authentication_error (x.error_text e))))

  abbrev pub cookie_steps : (cluster : String) → (is_authed : Bool) → Run Bool
  unfolding authenticate
  cookie_steps cluster is_authed = do
    (if is_authed
        then authenticate cluster "" true
        else dispatch (auth (set_authenticated false false)))
    pure is_authed

  unfoldable pub check_cookie_authentication : (cluster : String) → Run Bool
  unfolding is_authenticated_with_cookie authenticate
  check_cookie_authentication cluster = do
    dispatch (auth authenticating)
    is_authed ← is_authenticated_with_cookie x cluster
    cookie_steps cluster is_authed
