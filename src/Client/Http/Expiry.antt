-- ===== src/Client/Http/Expiry.antt =====
-- dashboard/src/shared/AxiosInstance.ts: what a request leaves of the page and of the session.
use installer.Common.{
  String, true, false, none, some, [], ◌∷◌, ◌++◌, ◌≡◌, refl, ◌∙◌, arith, nat_eq, inl, inr, ◌⊎◌,
}
use mathlib.Core.List.{append_assoc}
use installer.Common.Result.{ok, throw, Result-cases}
use installer.Types.{Json, unauthorized_error}
use installer.Actions.{set_authenticated, authentication_error, clear_clusters, auth, namespace}
use installer.Shared.Storage.{Storage, get_item}
use installer.Shared.Auth.{Response, using_oidc_token, authorization}
use installer.Shared.Namespace.{namespace_key}
use installer.Reducers.Auth.{AuthState, initial_state, auth_reducer}
use installer.Client.Page.{Method, Request, Page, send, ask, run}
use installer.Client.Platform.{Reply, ReplyOf, Failure, Platform}
use installer.Client.Http.{
  class_of, message_in, is_network_error, ends_session, error_and_logout, reject, handle_error,
  request,
}
use installer.Thunks.Session.{logout, expire_session}
use installer.Thunks.Session.Logout.{logout-token}

expire_session-requests : (uri : String) (p : Page) → (expire_session uri p).requests ≡ p.requests
unfolding expire_session logout
expire_session-requests uri p = ground arith

pub handle_error-requests :
    (x : Platform) (uri : String) (e : Failure) (p : Page)
    → (handle_error x uri e p).1.requests ≡ p.requests
unfolding handle_error reject error_and_logout
handle_error-requests x uri e p =
    let q = expire_session uri p in
    ground (
      arith,
      expire_session-requests uri p,
      λ (message : String).
          expire_session-requests uri (send (auth (authentication_error message)) p),
      λ (message : String).
          expire_session-requests uri (send (auth (authentication_error message)) q),
    )

authorization-none :
    (storage : Storage)
    → (initial_state storage).authenticated ≡ false
    → authorization storage ≡ none
unfolding initial_state authorization
authorization-none storage h = ground (arith, h)

-- The error and the page after an answer of status 401 in a session with a token.
handle_error-unauthorized :
    (x : Platform) (uri : String) (p : Page) (e : Failure) (r : Response) (message : String)
    → using_oidc_token p.storage ≡ false
    → e.response ≡ some r
    → message_in x e ≡ some message
    → nat_eq r.status 401 ≡ true
    → handle_error x uri e p ≡ (
      record { constructor = unauthorized_error; message = message },
      logout uri (send (auth (authentication_error message)) p),
    )
unfolding handle_error reject ends_session error_and_logout expire_session is_network_error class_of
handle_error-unauthorized x uri p e r message oidc found known status =
    ground (arith, oidc, found, known, status)

abbrev pub request_of : Method → (url : String) → (body : Json) → Storage → Request
request_of method url body storage = record {
  method = method;
  url = url;
  body = body;
  authorization = authorization storage;
}

-- A request that is answered leaves the page as it was.
pub request-answered :
    (x : Platform) (uri : String) (k : Reply) (method : Method) (url : String) (body : Json)
    (p : Page) (a : ReplyOf k)
    → x.answer p.requests k (request_of method url body p.storage) ≡ ok a
    → request x uri k method url body p ≡ (ok a, ask (request_of method url body p.storage) p)
unfolding request
request-answered x uri k method url body p a h = rw (h, request) refl

-- Whatever the answer is, the errors that end the session included: a call makes one request, with
-- the token that is stored before it.
pub request-requests :
    (x : Platform) (uri : String) (k : Reply) (method : Method) (url : String) (body : Json)
    (p : Page)
    → (request x uri k method url body p).1.requests
      ≡ p.requests ++ request_of method url body p.storage ∷ []
unfolding request
request-requests x uri k method url body p =
    let r = request_of method url body p.storage in
    elim (Result-cases (x.answer p.requests k r)) [
      | inl (e, failed) ↦ rw (failed, request) (handle_error-requests x uri e (ask r p))
      | inr (a, worked) ↦ rw (worked, request) refl
    ]

-- In a session with a token, an answer of status 401 ends the session: the call throws an
-- `UnauthorizedError` with the message, the error, the end of the session and the reset of the
-- clusters are dispatched in this order, the session is no longer authenticated, and neither the
-- token nor a namespace is stored.
pub request-unauthorized :
    (x : Platform) (uri : String) (k : Reply) (method : Method) (url : String) (body : Json)
    (p : Page) (s : AuthState) (e : Failure) (r : Response) (message : String)
    → using_oidc_token p.storage ≡ false
    → x.answer p.requests k (request_of method url body p.storage) ≡ throw e
    → e.response ≡ some r
    → message_in x e ≡ some message
    → nat_eq r.status 401 ≡ true
    → let end = request x uri k method url body p in
      (end.0 ≡ throw (record { constructor = unauthorized_error; message = message }))
      × (end.1.sent
          ≡ p.sent
            ++ auth (authentication_error message)
              ∷ auth (set_authenticated false false)
              ∷ namespace clear_clusters
              ∷ [])
      × ((run auth_reducer s end.1.sent).authenticated ≡ false)
      × (authorization end.1.storage ≡ none)
      × (get_item namespace_key end.1.storage ≡ none)
unfolding request
request-unauthorized x uri k method url body p s e r message oidc failed found known status =
    let q = ask (request_of method url body p.storage) p in
    let after = logout-token uri (send (auth (authentication_error message)) q) s oidc in
    rw (failed, request)
      (rw (handle_error-unauthorized x uri q e r message oidc found known status)
        (refl, after.0 ∙ append_assoc p.sent _ _, after.1, authorization-none _ after.2, after.3))

-- The two outcomes of a request, by the answer of the server.
pub request-cases :
    (x : Platform) (uri : String) (k : Reply) (method : Method) (url : String) (body : Json)
    (p : Page)
    → let r = request_of method url body p.storage in
      ((f : Failure) × (x.answer p.requests k r ≡ throw f)
        × (request x uri k method url body p
            ≡ (throw (handle_error x uri f (ask r p)).0, (handle_error x uri f (ask r p)).1)))
      ⊎ ((a : ReplyOf k) × (x.answer p.requests k r ≡ ok a)
          × (request x uri k method url body p ≡ (ok a, ask r p)))
unfolding request
request-cases x uri k method url body p =
    elim (Result-cases (x.answer p.requests k (request_of method url body p.storage))) [
      | inl (f, failed) ↦ inl (f, failed, rw (failed, request) refl)
      | inr (a, worked) ↦ inr (a, worked, rw (worked, request) refl)
    ]
