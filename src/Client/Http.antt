-- ===== src/Client/Http.antt =====
-- dashboard/src/shared/AxiosInstance.ts: the errors of requests. An error of the server becomes an
-- error of the dashboard, and some end the session.
pub mod Expiry
use Prim.Native.String.{◌++◌}
use text.Mathlib.Text.{find?}
use installer.Common.{
  ℕ, String, Bool, true, false, not, ◌&&◌, ◌||◌, Option, none, some, List, [], ◌∷◌, if◌then◌else◌,
  is_some, nat_eq, ◌==◌,
}
use installer.Common.Result.{Result, ok, throw}
use installer.Types.{
  Json, null, bool, num, str, arr, obj, Elems, nil, cons, Props, end, prop, JsError, ErrorClass,
  error, forbidden_error, unauthorized_error, not_found_error, conflict_error, unprocessable_entity,
  internal_server_error,
}
use installer.Actions.{authentication_error, auth}
use installer.Shared.Json.{falsy, message_of}
use installer.Shared.Auth.{
  Response, using_oidc_token, is_403_from_auth_proxy, is_anonymous, authorization,
}
use installer.Client.Page.{
  Method, get, post, put, delete, Request, Page, send, ask, Run, pure, raise, catch, lift, modify,
  ◌>>=◌, ◌>>◌,
}
use installer.Client.Platform.{Reply, ReplyOf, Failure, Platform}
use installer.Thunks.Session.{expire_session}

-- `[...].join(separator)`
unfoldable pub join : (separator : String) → List String → String
join separator [] = ""
join separator (s ∷ []) = s
join separator (s ∷ t ∷ rest) = s ++ (separator ++ join separator (t ∷ rest))

abbrev pub find_prop : String → Props → Option Json
find_prop k end = none
find_prop k (prop j v ps) = if j == k then some v else find_prop k ps

-- The error that is handed to `Promise.reject` for a status other than 403.
unfoldable pub class_of : (status : ℕ) → ErrorClass
class_of status =
    if nat_eq status 401
    then unauthorized_error
    else if nat_eq status 403
    then forbidden_error
    else if nat_eq status 404
    then not_found_error
    else if nat_eq status 409
    then conflict_error
    else if nat_eq status 422
    then unprocessable_entity
    else if nat_eq status 500
    then internal_server_error
    else error

module _ (x : Platform) where
  -- `${v}` where the property may be missing.
  unfoldable pub shown : Option Json → String
  shown none = "undefined"
  shown (some v) = x.to_text v

  -- An element of an array that is joined: null is empty.
  unfoldable pub elements : Elems → List String
  elements nil = []
  elements (cons null vs) = "" ∷ elements vs
  elements (cons v vs) = x.to_text v ∷ elements vs

  -- `verbs.join(", ")`, which throws unless `verbs` is an array.
  unfoldable pub join_verbs : Option Json → Option String
  unfolding join elements
  join_verbs (some (arr vs)) = some (join ", " (elements vs))
  join_verbs _ = none

  abbrev is_set : Option Json → Bool
  is_set none = false
  is_set (some v) = not (falsy v)

  -- One role of the message of a 403, or `none` if reading it throws.
  unfoldable pub role_text : Json → Option String
  unfolding shown join_verbs
  role_text (obj ps) = elim (join_verbs (find_prop "verbs" ps)) [
    | none ↦ none
    | some verbs ↦ some (
        "apiGroup: \""
        ++ (shown (find_prop "apiGroup" ps)
            ++ ("\", resource: \""
                ++ (shown (find_prop "resource" ps)
                    ++ ("\", action: \""
                        ++ (verbs
                            ++ ("\", "
                                ++ (if is_set (find_prop "clusterWide" ps)
                                    then "in all namespaces"
                                    else ("namespace: " ++ shown (find_prop "namespace" ps))))))))))
  ]
  role_text v = none

  unfoldable pub roles_text : Elems → Option (List String)
  unfolding role_text
  roles_text nil = some []
  roles_text (cons v vs) =
      let rest = roles_text vs in
      elim (role_text v) [
        | none ↦ none
        | some t ↦ elim rest [ none ↦ none | some ts ↦ some (t ∷ ts) ]
      ]

  -- The message of the `ForbiddenError`: the roles if the message is a list of them, or the message.
  unfoldable pub forbidden_message : (message : String) → String
  unfolding roles_text join
  forbidden_message message = elim (x.parse_json message) [
    | some (arr vs) ↦ elim (roles_text vs) [
      | none ↦ message
      | some ts ↦ "Forbidden error, missing permissions: " ++ join "; " ts
    ]
    | _ ↦ message
  ]

  -- `message`: the one of the response, if it has one. `none`: the body is null, and reading its
  -- message throws.
  unfoldable pub message_in : Failure → Option String
  message_in e = elim e.response [
    | none ↦ some e.message
    | some r ↦ elim r.body [
      | null ↦ none
      | str s ↦ some s
      | v ↦ some (if falsy (message_of v) then e.message else x.to_text (message_of v))
    ]
  ]

  -- `dispatchErrorAndLogout`
  unfoldable pub error_and_logout : (uri message : String) → Page → Page
  unfolding expire_session
  error_and_logout uri message p = expire_session uri (send (auth (authentication_error message)) p)

  -- The OIDC token is no longer valid.
  unfoldable pub is_network_error : Failure → Page → Bool
  is_network_error e p =
      not (is_some e.code)
      && (e.message == "Network Error" && (not (is_some e.response) && using_oidc_token p.storage))

  unfoldable pub ends_session : Response → Bool
  unfolding is_403_from_auth_proxy is_anonymous
  ends_session r =
      nat_eq r.status 401
      || nat_eq r.status 403 && (is_403_from_auth_proxy r || is_anonymous x.externals r)

  -- The rejection of a response, once its message is known.
  unfoldable pub reject : (uri message : String) → Response → Page → JsError × Page
  unfolding ends_session error_and_logout forbidden_message class_of
  reject uri message r p = (
    record {
      constructor = class_of r.status;
      message = if nat_eq r.status 403 then forbidden_message message else message;
    },
    if ends_session r then error_and_logout uri message p else p,
  )

  -- The interceptor of `addErrorHandling`: the error of the promise, and the page. `uri` is the
  -- configured address of the logout.
  unfoldable pub handle_error : (uri : String) → Failure → Page → JsError × Page
  unfolding is_network_error message_in reject expire_session
  handle_error uri e p =
      let q = if is_network_error e p then expire_session uri p else p in
      elim (message_in e) [
        | none ↦ (x.null_error, q)
        | some message ↦ elim e.response [
          | none ↦ (record { constructor = error; message = message }, q)
          | some r ↦ reject uri message r q
        ]
      ]

  -- A request by `axiosWithAuth`: its body's data, or the interceptor's error.
  unfoldable pub request :
      (uri : String) (k : Reply) → Method → (url : String) → (body : Json) → Run (ReplyOf k)
  unfolding handle_error authorization
  request uri k method url body p =
      let r : Request = record {
        method = method;
        url = url;
        body = body;
        authorization = authorization p.storage;
      } in
      let q = ask r p in
      elim (x.answer p.requests k r) [
        | ok value ↦ (ok value, q)
        | throw e ↦ (throw (handle_error uri e q).0, (handle_error uri e q).1)
      ]

-- Requests by method.
module _ (x : Platform) (uri : String) (k : Reply) where
  abbrev pub get_at : (url : String) → Run (ReplyOf k)
  get_at url = request x uri k get url null

  abbrev pub post_at : (url : String) → Json → Run (ReplyOf k)
  post_at url body = request x uri k post url body

  abbrev pub put_at : (url : String) → Json → Run (ReplyOf k)
  put_at url body = request x uri k put url body

  abbrev pub delete_at : (url : String) → Run (ReplyOf k)
  delete_at url = request x uri k delete url null
