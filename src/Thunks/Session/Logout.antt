-- ===== src/Thunks/Session/Logout.antt =====
-- dashboard/src/actions/auth.ts: what is left of a session after a logout.
use installer.Common.{
  String, true, false, none, some, List, [], ◌∷◌, ◌++◌, ◌≡◌, refl, arith, eq_iff, or_else,
}
use installer.Common.Dict.{lookup, without, lookup-without}
use installer.Actions.{
  set_authenticated, set_session_expired, clear_clusters, Action, auth, namespace,
}
use installer.Shared.Storage.{Storage, get_item}
use installer.Shared.Auth.{auth_token_key, auth_token_oidc_key, get_auth_token, using_oidc_token}
use installer.Shared.Namespace.{namespace_key}
use installer.Reducers.Auth.{AuthState, initial_state, auth_reducer}
use installer.Client.Page.{Page, run, run-append}
use installer.Thunks.Session.{logout, expire_session}

lookup-removed : (k j : String) (m : Storage) → lookup k (without j (without k m)) ≡ none
lookup-removed k j m =
    ground (arith, lookup-without j k (without k m), lookup-without k k m, eq_iff k k)

initial_state-none :
    (storage : Storage)
    → get_auth_token storage ≡ none
    → (initial_state storage).authenticated ≡ false
unfolding initial_state
initial_state-none storage h = rw (h, initial_state) refl

append_two :
    (actions : List Action) (a b : Action) → (actions ++ a ∷ []) ++ b ∷ [] ≡ actions ++ a ∷ b ∷ []
append_two [] a b = refl
append_two (c ∷ actions) a b = cc (append_two actions a b)

-- A logout from a session with a token: the storage holds no token and no namespace, so that the
-- next page starts without authentication; the session is no longer authenticated, and the clusters
-- are cleared; the browser stays at its address.
pub logout-token :
    (uri : String) (p : Page) (s : AuthState)
    → using_oidc_token p.storage ≡ false
    → ((logout uri p).sent
        ≡ p.sent ++ auth (set_authenticated false false) ∷ namespace clear_clusters ∷ [])
      × ((run auth_reducer s (logout uri p).sent).authenticated ≡ false)
      × ((initial_state (logout uri p).storage).authenticated ≡ false)
      × (get_item namespace_key (logout uri p).storage ≡ none)
      × ((logout uri p).address ≡ p.address)
unfolding logout auth_reducer get_item get_auth_token
logout-token uri p s h =
    let end = auth (set_authenticated false false) ∷ namespace clear_clusters ∷ [] in
    let two = append_two p.sent (auth (set_authenticated false false)) (namespace clear_clusters) in
    rw (h, logout)
      (
        two,
        rw two (rw (run-append auth_reducer s p.sent end) refl),
        initial_state-none _ (lookup-removed auth_token_key namespace_key p.storage),
        ground (
          arith,
          lookup-without namespace_key namespace_key (without auth_token_key p.storage),
          eq_iff namespace_key namespace_key,
        ),
        refl,
      )

-- The expiry of a session of the authentication proxy: it is reported, and nothing else is
-- dispatched; the browser is sent to the configured address, or to `/oauth2/sign_out` if it is
-- empty; the storage neither marks such a session any more nor holds a namespace.
pub expire_session-oidc :
    (uri : String) (p : Page)
    → using_oidc_token p.storage ≡ true
    → ((expire_session uri p).sent ≡ p.sent ++ auth (set_session_expired true) ∷ [])
      × ((expire_session uri p).address ≡ some (or_else uri "/oauth2/sign_out"))
      × (get_item auth_token_oidc_key (expire_session uri p).storage ≡ none)
      × (get_item namespace_key (expire_session uri p).storage ≡ none)
unfolding expire_session get_item
expire_session-oidc uri p h =
    rw (h, expire_session)
      (rw (h, logout)
        (
          refl,
          refl,
          lookup-removed auth_token_oidc_key namespace_key p.storage,
          ground (
            arith,
            lookup-without namespace_key namespace_key (without auth_token_oidc_key p.storage),
            eq_iff namespace_key namespace_key,
          ),
        ))
