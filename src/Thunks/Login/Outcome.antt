-- ===== src/Thunks/Login/Outcome.antt =====
-- dashboard/src/actions/auth.ts with dashboard/src/reducers/auth.ts: how a login ends.
use installer.Common.{
  String, Bool, true, false, none, some, List, [], ◌∷◌, ◌++◌, ◌≡◌, refl, ◌⊎◌, inl, inr,
}
use installer.Common.Result.{Result, ok, throw}
use installer.Types.{JsError}
use installer.Actions.{
  Action, auth, authenticating, set_authenticated, authentication_error, set_session_expired,
}
use installer.Shared.Storage.{Storage}
use installer.Shared.Auth.{set_auth_token}
use installer.Reducers.Auth.{AuthState, auth_reducer}
use installer.Client.Page.{
  Page, send, ask, catch, dispatch, modify, run, run-append, bind-throw, ◌>>◌,
}
use installer.Client.Platform.{Failure, any_reply, Platform}
use installer.Client.Endpoints.Cluster.{
  root_request, validate_token, is_cookie_error, is_authenticated_with_cookie,
}
use installer.Thunks.Login.{
  store_token, when, cookie_steps, authenticate, check_cookie_authentication,
}

-- How a login that started in the storage `before` ends: the promise is fulfilled, nothing is pending, and
-- either the session is authenticated and the token is stored, or it is not, an error is shown, and the
-- storage is as before.
abbrev pub Ended :
    (token : String) (oidc : Bool)
    → AuthState
    → (before : Storage) → Result JsError (Unit {0}) × Page
    → Type 0
Ended token oidc s before r =
    let t = run auth_reducer s r.1.sent in
    (r.0 ≡ ok tt)
    × (t.authenticating ≡ false)
    × ((t.authenticated ≡ true) × (r.1.storage ≡ set_auth_token token oidc before)
        ⊎ (message : String) × (t.authenticated ≡ false)
          × (t.authentication_error ≡ some message)
          × (r.1.storage ≡ before))

-- The login after its validation had the result `r`.
abbrev login_after :
    Platform
    → (token : String) (oidc : Bool) → Result JsError (Unit {0}) × Page
    → Result JsError (Unit {0}) × Page
login_after x token oidc r =
    catch
      ((λ q. r)
        >> (modify (store_token token oidc)
            >> (dispatch (auth (set_authenticated true oidc))
                >> when oidc (dispatch (auth (set_session_expired false))))))
      (λ e. dispatch (auth (authentication_error (x.error_text e)))) r.1

login_after-Ended :
    (x : Platform) (token : String) (oidc : Bool) (s : AuthState) (first : List Action)
    (r : Result JsError (Unit {0}) × Page)
    → r.1.sent ≡ first ++ auth authenticating ∷ []
    → Ended token oidc s r.1.storage (login_after x token oidc r)
unfolding auth_reducer
login_after-Ended x token true s first (ok done, q) e =
    rw
      (run-append auth_reducer s (q.sent ++ auth (set_authenticated true true) ∷ [])
        (auth (set_session_expired false) ∷ []))
      (rw (run-append auth_reducer s q.sent (auth (set_authenticated true true) ∷ []))
        (refl, refl, inl (refl, refl)))
login_after-Ended x token false s first (ok done, q) e =
    rw (run-append auth_reducer s q.sent (auth (set_authenticated true false) ∷ []))
      (refl, refl, inl (refl, refl))
login_after-Ended x token oidc s first (throw failure, q) e =
    rw (run-append auth_reducer s q.sent (auth (authentication_error (x.error_text failure)) ∷ []))
      (rw e (
        rw (run-append auth_reducer s first (auth authenticating ∷ []))
          (refl, refl, inr (x.error_text failure, refl, refl, refl))))

-- However the login goes, with an answer of any status or with none: it ends (see `Ended`); it does not
-- stay pending.
pub authenticate-Ended :
    (x : Platform) (cluster token : String) (oidc : Bool) (s : AuthState) (p : Page)
    → Ended token oidc s p.storage (authenticate x cluster token oidc p)
unfolding authenticate validate_token
authenticate-Ended x cluster token true s p =
    login_after-Ended x token true s p.sent (ok tt, send (auth authenticating) p) refl
authenticate-Ended x cluster token false s p =
    login_after-Ended x token false s p.sent
      (validate_token x cluster token (send (auth authenticating) p)) refl

-- Where the network fails, so that there is no response, the check of the cookie throws a `TypeError`
-- and stays pending: `authenticating` remains true.
pub check_cookie_authentication-no_response :
    (x : Platform) (cluster : String) (s : AuthState) (p : Page) (e : Failure)
    → x.answer p.requests any_reply (root_request x cluster none) ≡ throw e
    → e.response ≡ none
    → let end = check_cookie_authentication x cluster p in
      (end.0 ≡ throw x.null_error) × ((run auth_reducer s end.1.sent).authenticating ≡ true)
unfolding check_cookie_authentication is_authenticated_with_cookie is_cookie_error auth_reducer
check_cookie_authentication-no_response x cluster s p e failed missing =
    let q = send (auth authenticating) p in
    let asked = ask (root_request x cluster none) q in
    let found : is_authenticated_with_cookie x cluster q ≡ (throw x.null_error, asked) =
      rw (failed, is_authenticated_with_cookie) (rw (missing, is_cookie_error) refl) in
    rw
      (bind-throw (is_authenticated_with_cookie x cluster) (cookie_steps x cluster) q asked
        x.null_error found)
      (refl, rw (run-append auth_reducer s p.sent (auth authenticating ∷ [])) refl)
