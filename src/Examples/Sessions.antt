-- ===== src/Examples/Sessions.antt =====
-- Examples for the session.
use Prim.Native.String.{◌++◌}
use installer.Common.{true, false, none, some, [], ◌∷◌, ◌≡◌, refl, or_else}
use installer.Common.Dict.{lookup}
use installer.Actions.{set_session_expired, auth}
use installer.Shared.Storage.{get_item}
use installer.Shared.Auth.{
  auth_token_key, auth_token_oidc_key, set_auth_token, unset_auth_token, using_oidc_token,
  authorization,
}
use installer.Shared.Namespace.{namespace_key}
use installer.Reducers.Auth as Auth
use installer.Reducers.Auth.{auth_reducer}
use installer.Reducers.Auth.Session.{signed_in, initial_state-set_auth_token}
use installer.Client.Page.{Page}
use installer.Thunks.Session.{expire_session}
use installer.Thunks.Session.Logout.{expire_session-oidc}

initial_state-set_auth_token_example :
    (Auth.initial_state (set_auth_token "abc" true []) ≡ signed_in true)
    × (authorization (set_auth_token "abc" true []) ≡ some ("Bearer " ++ "abc"))
    × ((Auth.initial_state (unset_auth_token (set_auth_token "abc" true []))).authenticated ≡ false)
    × (authorization (unset_auth_token (set_auth_token "abc" true [])) ≡ none)
initial_state-set_auth_token_example = initial_state-set_auth_token "abc" true [] refl

-- A page with a token, and a page behind the authentication proxy.
abbrev by_token : Page
by_token = record {
  storage = (auth_token_key, "abc") ∷ (namespace_key, "{}") ∷ [];
  sent = [];
  requests = [];
  address = none;
}

abbrev by_proxy : Page
by_proxy = record {
  storage = (auth_token_oidc_key, "true") ∷ [];
  sent = [];
  requests = [];
  address = none;
}

expire_session-oidc_example :
    ((expire_session "" by_proxy).sent ≡ auth (set_session_expired true) ∷ [])
    × ((expire_session "" by_proxy).address ≡ some (or_else "" "/oauth2/sign_out"))
    × (get_item auth_token_oidc_key (expire_session "" by_proxy).storage ≡ none)
    × (get_item namespace_key (expire_session "" by_proxy).storage ≡ none)
unfolding using_oidc_token lookup
expire_session-oidc_example = expire_session-oidc "" by_proxy refl
