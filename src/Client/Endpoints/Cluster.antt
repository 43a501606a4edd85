-- ===== src/Client/Endpoints/Cluster.antt =====
-- dashboard/src/shared/Kube.ts, dashboard/src/shared/Namespace.ts and dashboard/src/shared/Auth.ts:
-- the requests to the Kubernetes API itself.
use Prim.Native.String.{◌++◌}
use text.Mathlib.Text.{find?}
use installer.Common.{
  String, Bool, true, false, not, Option, none, some, List, [], ◌∷◌, if◌then◌else◌, is_some, nat_eq,
}
use installer.Common.Dict.{Dict, insert}
use installer.Common.Result.{Result, ok, throw}
use installer.Types.{
  Json, null, str, obj, end, prop, JsError, error, forbidden_error, not_found_error, Resource,
  KubeObject, Kind, ApiResource,
}
use installer.Shared.Url.Api.{
  k8s_base, k8s_namespaces, k8s_namespace, backend_namespaces, can_i_url,
}
use installer.Shared.Kube.{get_resource_url}
use installer.Shared.Auth.{is_403_from_auth_proxy, is_anonymous}
use installer.Client.Page.{Request, get, ask, Run, raise, catch, ◌>>=◌}
use installer.Client.Platform.{
  any_reply, resource_reply, object_reply, namespaces_reply, allowed_reply, groups_reply,
  kinds_reply, Failure, Platform,
}
use installer.Client.Http.{request, get_at, post_at}

-- `addResource`: subresources are left out.
unfoldable pub add_resource : (version : String) → ApiResource → Dict Kind → Dict Kind
unfolding insert
add_resource version r kinds =
    if is_some (find? r.name "/")
    then kinds
    else insert r.kind
        (record { api_version = version; plural = r.name; namespaced = r.namespaced }) kinds

unfoldable pub add_resources : (version : String) → List ApiResource → Dict Kind → Dict Kind
unfolding add_resource
add_resources version [] kinds = kinds
add_resources version (r ∷ rs) kinds = add_resources version rs (add_resource version r kinds)

-- `resourceList.resources?.forEach(...)`
unfoldable pub add_listed : (version : String) → Option (List ApiResource) → Dict Kind → Dict Kind
unfolding add_resources
add_listed version none kinds = kinds
add_listed version (some rs) kinds = add_resources version rs kinds

-- The error that `Namespace.get` throws in place of another.
unfoldable pub namespace_error : (namespace : String) → JsError → JsError
namespace_error namespace e = elim e.constructor [
  | forbidden_error ↦ record {
    constructor = forbidden_error;
    message = "You don't have sufficient permissions to use the namespace " ++ namespace;
  }
  | not_found_error ↦ record {
    constructor = not_found_error;
    message = "Namespace " ++ (namespace ++ " not found. Create it before using it.");
  }
  | _ ↦ e
]

module _ (x : Platform) (uri : String) where
  -- `Kube.getResource`
  unfoldable pub get_object :
      (cluster api_version resource : String) (namespaced : Bool) (namespace name query : String)
      → Run KubeObject
  unfolding request get_resource_url
  get_object cluster api_version resource namespaced namespace name query =
      get_at x uri object_reply
        (get_resource_url cluster api_version resource namespaced namespace name query)

  unfoldable pub can_i : (cluster group resource verb namespace : String) → Run Bool
  unfolding request can_i_url
  can_i cluster group resource verb namespace = post_at x uri allowed_reply (can_i_url cluster) (
      obj (
        prop "group" (str group) (
          prop "resource" (str resource)
            (prop "verb" (str verb) (prop "namespace" (str namespace) end)))))

  unfoldable pub get_api_groups : (cluster : String) → Run (List String)
  unfolding request k8s_base
  get_api_groups cluster = get_at x uri groups_reply (k8s_base cluster ++ "/apis")

  -- The groups' requests, which are all made; the first error is thrown. Their answers are taken in
  -- the order of the groups.
  unfoldable pub get_group_kinds : (cluster : String) → List String → Dict Kind → Run (Dict Kind)
  unfolding request k8s_base add_listed
  get_group_kinds cluster [] kinds p = (ok kinds, p)
  get_group_kinds cluster (g ∷ gs) kinds p =
      let (r, q) = get_at x uri kinds_reply (k8s_base cluster ++ ("/apis/" ++ g)) p in
      let listed : Option (List ApiResource) = elim r [ ok rs ↦ rs | throw e ↦ none ] in
      let (rest, last) = get_group_kinds cluster gs (add_listed g listed kinds) q in
      elim r [ ok rs ↦ (rest, last) | throw e ↦ (throw e, last) ]

  unfoldable pub get_resource_kinds : (cluster : String) → List String → Run (Dict Kind)
  unfolding request k8s_base get_group_kinds
  get_resource_kinds cluster groups = do
    core ← get_at x uri kinds_reply (k8s_base cluster ++ "/api/v1")
    get_group_kinds cluster groups (add_listed "v1" core [])

  -- The class `Namespace`. The reply of `list` is its `namespaces`, if it has them.
  unfoldable pub list_namespaces : (cluster : String) → Run (Option (List Resource))
  unfolding request backend_namespaces
  list_namespaces cluster = get_at x uri namespaces_reply (backend_namespaces cluster)

  unfoldable pub create_namespace : (cluster namespace : String) → Run Resource
  unfolding request k8s_namespaces
  create_namespace cluster namespace = post_at x uri resource_reply (k8s_namespaces cluster) (
      obj (
        prop "apiVersion" (str "v1") (
          prop "kind" (str "Namespace")
            (prop "metadata" (obj (prop "name" (str namespace) end)) end))))

  unfoldable pub get_namespace : (cluster namespace : String) → Run Resource
  unfolding request k8s_namespace namespace_error
  get_namespace cluster namespace =
      catch (get_at x uri resource_reply (k8s_namespace cluster namespace))
        (λ e. raise (namespace_error namespace e))

-- The class `Auth` sends its requests by `Axios`, which has no interceptors.
module _ (x : Platform) where
  abbrev pub root_request : (cluster : String) (authorization : Option String) → Request
  root_request cluster authorization = record {
    method = get;
    url = k8s_base cluster ++ "/";
    body = null;
    authorization = authorization;
  }

  -- What `validateToken` makes of a failure; a failure without a response throws a `TypeError`.
  unfoldable pub token_error : Failure → Result JsError (Unit {0})
  token_error e = elim e.response [
    | none ↦ throw x.null_error
    | some r ↦
        if nat_eq r.status 401
        then throw (record { constructor = error; message = "invalid token" })
        else if nat_eq r.status 403
        then ok tt
        else throw (record {
          constructor = error;
          message = x.to_text (Json.num r.status) ++ (": " ++ x.to_text r.body);
        })
  ]

  unfoldable pub validate_token : (cluster token : String) → Run (Unit {0})
  unfolding k8s_base token_error
  validate_token cluster token p =
      let r = root_request cluster (some ("Bearer " ++ token)) in
      (
        elim (x.answer p.requests any_reply r) [ ok body ↦ ok tt | throw e ↦ token_error e ],
        ask r p,
      )

  -- What a failure says on the cookie.
  unfoldable pub is_cookie_error : Failure → Result JsError Bool
  unfolding is_403_from_auth_proxy is_anonymous
  is_cookie_error e = elim e.response [
    | none ↦ throw x.null_error
    | some r ↦ ok (
        if not (nat_eq r.status 403)
        then false
        else if is_403_from_auth_proxy r
        then false
        else not (is_anonymous x.externals r))
  ]

  unfoldable pub is_authenticated_with_cookie : (cluster : String) → Run Bool
  unfolding k8s_base is_cookie_error
  is_authenticated_with_cookie cluster p = (
    elim (x.answer p.requests any_reply (root_request cluster none)) [
      | ok body ↦ ok true
      | throw e ↦ is_cookie_error e
    ],
    ask (root_request cluster none) p,
  )
