-- ===== src/Examples/Requests.antt =====
-- Examples for the requests, and for the thunks of the session, the namespaces, the operators and the
-- resources.
use installer.Client.Http.{handle_error}
use installer.Client.Platform.{Failure, any_reply}
use installer.Client.Page.{ask}
use installer.Types.{Json}
use installer.Common.{true, false, none, some, [], ◌∷◌, ◌≡◌, refl, ◌⊎◌}
use installer.Common.Dict.{lookup}
use installer.Common.Result.{ok, throw}
use installer.Types.{KubeState, null, bool, unauthorized_error, poll}
use installer.Actions.{set_authenticated, authentication_error, clear_clusters, auth, namespace}
use installer.Shared.Storage.{get_item}
use installer.Shared.Auth.{authorization, set_auth_token, using_oidc_token}
use installer.Shared.Namespace.{namespace_key}
use installer.Shared.Kube.{ref_url}
use installer.Reducers.Auth.{auth_reducer}
use installer.Reducers.Auth.Session.{signed_in}
use installer.Reducers.Kube.{Browser, initial_state, timer_at}
use installer.Client.Page.{get, Page, run}
use installer.Client.Platform.{any_reply}
use installer.Client.Http.{find_prop, message_in, request}
use installer.Client.Http.Expiry.{request-unauthorized}
use installer.Client.Endpoints.AppRepositories.{RepoRequest, create_body, update_body}
use installer.Client.Endpoints.AppRepositories.Filter.{filter-update_body}
use installer.Client.Endpoints.Olm.{create_operator}
use installer.Thunks.Login.{authenticate}
use installer.Thunks.Login.Outcome.{Ended, authenticate-Ended}
use installer.Thunks.Olm.Install.{ask_groups, create_group, subscribe, create_operator-no_group}
use installer.Thunks.Resources.{handle_message, handle_socket_error}
use installer.Thunks.Resources.Fallback.{actions_of, kube_run, handle_message-handle_socket_error}
use installer.Examples.Data.{pods, quiet}
use installer.Examples.Server.{offline, refusing, empty_cluster, refused, refusal, visitor}

-- A page with a token.
abbrev member : Page
member = record visitor { storage = set_auth_token "abc" false [] }

request-unauthorized_example :
    let end = request refusing "" any_reply get "api/" null member in
    (end.0 ≡ throw (record { constructor = unauthorized_error; message = "Unauthorized" }))
    × (end.1.sent
        ≡ auth (authentication_error "Unauthorized")
          ∷ auth (set_authenticated false false)
          ∷ namespace clear_clusters
          ∷ [])
    × ((run auth_reducer (signed_in false) end.1.sent).authenticated ≡ false)
    × (authorization end.1.storage ≡ none)
    × (get_item namespace_key end.1.storage ≡ none)
unfolding using_oidc_token set_auth_token message_in
request-unauthorized_example =
    request-unauthorized refusing "" any_reply get "api/" null member (signed_in false) refusal
      refused "Unauthorized" refl refl refl refl refl

abbrev repository : RepoRequest
repository = record {
  name = "bitnami";
  repo_url = "https://charts";
  type_of = "helm";
  description = "";
  auth_header = "";
  auth_reg_creds = "";
  custom_ca = "";
  sync_job_pod_template = null;
  registry_secrets = [];
  oci_repositories = [];
  skip_tls = false;
  pass_credentials = false;
  filter = some (bool true);
}

filter-update_body_example :
    (find_prop "filterRule" (create_body repository) ≡ some (bool true))
    × (find_prop "filterRule" (update_body repository) ≡ none)
    × (find_prop "filter" (update_body repository) ≡ some (bool true))
filter-update_body_example = filter-update_body repository

authenticate-Ended_example :
    Ended "abc" false (signed_in false) [] (authenticate refusing "default" "abc" false visitor)
authenticate-Ended_example =
    authenticate-Ended refusing "default" "abc" false (signed_in false) visitor

create_operator-no_group_example :
    let out =
      create_operator empty_cluster "" "default" "team" "etcd" "alpha" "Automatic" "etcd.v1"
        visitor in
    let asked = ask (ask_groups "default" "team" visitor) visitor in
    let posted = create_group "default" "team" visitor in
    ((f : Failure) × (empty_cluster.answer asked.requests any_reply posted ≡ throw f)
      × (out.0 ≡ throw (handle_error empty_cluster "" f (ask posted asked)).0)
      × (out.1.requests ≡ ask_groups "default" "team" visitor ∷ posted ∷ []))
    ⊎ ((a : Json) × (empty_cluster.answer asked.requests any_reply posted ≡ ok a)
        × (out.1.requests
            ≡ ask_groups "default" "team" visitor
              ∷ posted
              ∷ subscribe "default" "team" visitor "etcd" "alpha" "Automatic" "etcd.v1"
              ∷ []))
create_operator-no_group_example =
    create_operator-no_group empty_cluster "" "default" "team" "etcd" "alpha" "Automatic" "etcd.v1"
      visitor refl refl

handle_message-handle_socket_error_example :
    (t : KubeState) × (c : Browser) × (u : KubeState) × (d : Browser) × (kube_run "wss://host"
        (actions_of (handle_socket_error pods) visitor)
        initial_state
        quiet
      ≡ ok (t, c))
    × (timer_at t.timers (ref_url pods) ≡ some 1)
    × (c.intervals 1 ≡ some (poll pods))
    × (kube_run "wss://host" (actions_of (handle_message offline pods "{}") visitor) t c
        ≡ ok (u, d))
    × (timer_at u.timers (ref_url pods) ≡ none)
    × (d.intervals 1 ≡ none)
unfolding initial_state lookup
handle_message-handle_socket_error_example =
    handle_message-handle_socket_error offline "wss://host" pods "{}" visitor initial_state quiet
      refl refl
