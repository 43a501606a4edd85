-- ===== src/Thunks/Repositories.antt =====
-- dashboard/src/actions/repos.ts: its thunks. The state that they read, when they start, is an
-- argument: the current cluster, and the namespace of Kubeapps or of the cluster.
use Prim.Native.String.{◌++◌}
use installer.Common.{
  String, Bool, true, false, not, ◌||◌, Option, none, some, List, [], ◌∷◌, if◌then◌else◌, nat_eq,
  ◌==◌, truthy,
}
use installer.Types.{
  Json, null, num, obj, end, JsError, error, not_found_error, AppRepository, RepoAuth,
}
use installer.Shared.Json.{prop_of}
use installer.Actions.{
  create, update, fetch, delete, validate, RepoOp, add_repo, added_repo, request_repo_update,
  repo_updated, request_repos, receive_repos, receive_repos_secret, request_repo, receive_repo,
  repo_validating, repo_validated, error_repos, request_image_pull_secrets,
  receive_image_pull_secrets, create_image_pull_secret, error_chart, repos, charts,
}
use installer.Client.Page.{Run, pure, raise, catch, detach, lift, dispatch, ◌>>=◌, ◌>>◌}
use installer.Client.Platform.{Platform}
use installer.Client.Endpoints.Catalog.{fetch_chart_versions}
use installer.Client.Endpoints.AppRepositories.{
  RepoRequest, list_repos, get_repo, resync, update_at, delete_named, create_at, validate_at,
}
use installer.Client.Endpoints.Secrets.{get_secret, list_secrets, create_pull_secret}

abbrev pub report : RepoOp → JsError → Run (Unit {0})
report op e = dispatch (repos (error_repos e op))

abbrev pub fail : RepoOp → JsError → Run Bool
fail op e = do report op e; pure false

-- `data.code === 200`, which throws if there is no body.
unfoldable pub is_success : (null_error : JsError) → Json → Run Bool
is_success null_error null = raise null_error
is_success null_error (obj ps) = elim (prop_of "code" ps) [
  | num n ↦ pure (nat_eq n 200)
  | _ ↦ pure false
]
is_success null_error v = pure false

module _ (x : Platform) (uri : String) (current_cluster : String) where
  unfoldable pub delete_repo : (name namespace : String) → Run Bool
  unfolding delete_named
  delete_repo name namespace =
      catch (do delete_named x uri current_cluster namespace name; pure true) (fail delete)

  unfoldable pub resync_repo : (name namespace : String) → Run (Unit {0})
  unfolding resync
  resync_repo name namespace =
      catch (do resync x uri current_cluster namespace name; pure tt) (report update)

  -- The keys are pairs of a name and a namespace.
  unfoldable pub resync_all_repos : List (String × String) → Run (Unit {0})
  unfolding resync_repo
  resync_all_repos [] = pure tt
  resync_all_repos (k ∷ ks) = do detach (resync_repo k.0 k.1); resync_all_repos ks

  unfoldable pub fetch_repo_secret : (namespace name : String) → Run (Unit {0})
  unfolding get_secret
  fetch_repo_secret namespace name =
      catch
        (do
          secret ← get_secret x uri current_cluster namespace name
          dispatch (repos (receive_repos_secret secret)))
        (report fetch)

  -- The repositories of a namespace, joined by the global ones; no repository comes twice.
  unfoldable pub join_global : (kubeapps_namespace : String) → List AppRepository → Run (Unit {0})
  unfolding list_repos
  join_global kubeapps_namespace own = do
    dispatch (repos (request_repos kubeapps_namespace))
    global ← list_repos x uri current_cluster kubeapps_namespace
    dispatch (repos (receive_repos (x.uniq_by_uid (mathlib.Core.List.◌++◌ own global))))

  unfoldable pub fetch_repos :
      (kubeapps_namespace namespace : String) (list_global : Bool) → Run (Unit {0})
  unfolding list_repos join_global
  fetch_repos kubeapps_namespace namespace list_global =
      catch
        (do
          dispatch (repos (request_repos namespace))
          own ← list_repos x uri current_cluster namespace
          (if not list_global || namespace == kubeapps_namespace
              then dispatch (repos (receive_repos own))
              else join_global kubeapps_namespace own))
        (report fetch)

  unfoldable pub parse_pod_template : (template : String) → Run Json
  parse_pod_template template =
      if truthy template then lift (x.load_yaml template) else pure (obj end)

  -- `template` is the text of the sync job's template, which takes the place of the object in `r`.
  unfoldable pub install_repo : (namespace : String) → RepoRequest → (template : String) → Run Bool
  unfolding parse_pod_template create_at
  install_repo namespace r template =
      catch
        (do
          parsed ← parse_pod_template template
          dispatch (repos add_repo)
          created ←
              create_at x uri current_cluster namespace
                (record r { sync_job_pod_template = parsed })
          dispatch (repos (added_repo created))
          pure true)
        (fail create)

  abbrev fetch_named : (namespace : String) → Option String → Run (Unit {0})
  fetch_named namespace none = pure tt
  fetch_named namespace (some name) = detach (fetch_repo_secret namespace name)

  -- The secret of the CA is fetched unless it is the one of the header.
  abbrev other_secret : (header custom_ca : Option String) → Option String
  other_secret header none = none
  other_secret none (some c) = if "" == c then none else some c
  other_secret (some h) (some c) = if h == c then none else some c

  unfoldable pub fetch_auth_secrets : (namespace : String) → Option RepoAuth → Run (Unit {0})
  unfolding fetch_repo_secret
  fetch_auth_secrets namespace none = pure tt
  fetch_auth_secrets namespace (some a) = do
    fetch_named namespace a.header
    fetch_named namespace (other_secret a.header a.custom_ca)

  unfoldable pub update_repo : (namespace : String) → RepoRequest → (template : String) → Run Bool
  unfolding parse_pod_template update_at fetch_auth_secrets
  update_repo namespace r template =
      catch
        (do
          parsed ← parse_pod_template template
          dispatch (repos request_repo_update)
          updated ←
              update_at x uri current_cluster namespace
                (record r { sync_job_pod_template = parsed })
          dispatch (repos (repo_updated updated))
          fetch_auth_secrets namespace updated.auth
          pure true)
        (fail update)

  abbrev report_validation : Json → Bool → Run Bool
  report_validation answer true = do dispatch (repos (repo_validated answer)); pure true
  report_validation answer false =
      fail validate (record { constructor = error; message = x.stringify answer })

  -- `namespace` is the current one of the current cluster.
  unfoldable pub validate_repo : (namespace : String) → RepoRequest → Run Bool
  unfolding validate_at is_success
  validate_repo namespace r =
      catch
        (do
          dispatch (repos repo_validating)
          answer ← validate_at x uri current_cluster namespace r
          good ← is_success x.null_error answer
          report_validation answer good)
        (fail validate)

  unfoldable pub fetch_image_pull_secrets : (namespace : String) → Run (Unit {0})
  unfolding list_secrets
  fetch_image_pull_secrets namespace =
      catch
        (do
          dispatch (repos (request_image_pull_secrets namespace))
          found ← list_secrets x uri current_cluster namespace "type=kubernetes.io/dockerconfigjson"
          dispatch (repos (receive_image_pull_secrets found)))
        (report fetch)

  unfoldable pub create_docker_registry_secret :
      (name user password email server namespace : String) → Run Bool
  unfolding create_pull_secret
  create_docker_registry_secret name user password email server namespace =
      catch
        (do
          secret ←
              create_pull_secret x uri current_cluster name user password email server namespace
          dispatch (repos (create_image_pull_secret secret))
          pure true)
        (fail fetch)

module _ (x : Platform) (uri : String) where
  unfoldable pub check_chart : (cluster repo_namespace repo chart_name : String) → Run Bool
  unfolding get_repo fetch_chart_versions
  check_chart cluster repo_namespace repo chart_name = do
    dispatch (repos request_repo)
    found ← get_repo x uri cluster repo_namespace repo
    catch
        (do
          fetch_chart_versions x uri cluster repo_namespace (repo ++ ("/" ++ chart_name))
          dispatch (repos (receive_repo (some found)))
          pure true)
        (λ e. do
          dispatch (
              charts (
                error_chart (record {
                  constructor = not_found_error;
                  message =
                      "Chart "
                      ++ (chart_name ++ (" not found in the repository " ++ (repo ++ ".")));
                })))
          pure false)
