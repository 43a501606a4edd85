-- ===== src/Thunks/Session.antt =====
-- dashboard/src/actions/auth.ts: the end of a session. A thunk changes the storage, dispatches
-- actions and may send the browser to another address.
pub mod Logout
use installer.Common.{String, true, false, Option, some, List, [], ◌∷◌, ◌++◌, if◌then◌else◌}
use installer.Client.Page.{Page, send}
use installer.Actions.{
  set_authenticated, set_session_expired, clear_clusters, Action, auth, namespace,
}
use installer.Shared.Storage.{Storage}
use installer.Shared.Auth.{unset_auth_token, unset_auth_cookie, using_oidc_token}
use installer.Shared.Namespace.{unset_stored_namespace}

-- The sign-out of a session of the authentication proxy.
abbrev sign_out : (oauth_logout_uri : String) → Page → Page
sign_out uri p = record p {
  storage = (unset_auth_cookie uri p.storage).0;
  address = some (unset_auth_cookie uri p.storage).1;
}

-- The sign-out of a session with a token.
abbrev forget_token : Page → Page
forget_token p = send (namespace clear_clusters) (
    send (auth (set_authenticated false false)) (record p { storage = unset_auth_token p.storage }))

abbrev forget_namespace : Page → Page
forget_namespace p = record p { storage = unset_stored_namespace p.storage }

unfoldable pub logout : (oauth_logout_uri : String) → Page → Page
unfolding unset_auth_token unset_auth_cookie using_oidc_token unset_stored_namespace
logout uri p =
    forget_namespace (if using_oidc_token p.storage then sign_out uri p else forget_token p)

unfoldable pub expire_session : (oauth_logout_uri : String) → Page → Page
unfolding logout
expire_session uri p =
    logout uri (if using_oidc_token p.storage then send (auth (set_session_expired true)) p else p)
