-- ===== src/Client/Endpoints/AppRepositories.antt =====
-- dashboard/src/shared/AppRepository.ts: the endpoints of application repositories.
pub mod Filter
use Prim.Native.String.{◌++◌}
use installer.Common.{String, Bool, Option, List, if◌then◌else◌, truthy}
use installer.Types.{Json, null, bool, str, obj, Props, end, prop, AppRepository}
use installer.Shared.Url.Api.{
  apprepositories_base, apprepositories_validate, apprepositories_named, apprepositories_refresh,
  k8s_base,
}
use installer.Client.Page.{Run}
use installer.Client.Platform.{any_reply, repo_reply, repos_reply, Platform}
use installer.Client.Http.{request, get_at, post_at, put_at, delete_at}
use installer.Client.Body.{maybe, texts}

-- What is written of a repository. `filter` is undefined if no filter is set.
pub record RepoRequest : Type 0 where
  pub name : String
  pub repo_url : String
  pub type_of : String
  pub description : String
  pub auth_header : String
  pub auth_reg_creds : String
  pub custom_ca : String
  pub sync_job_pod_template : Json
  pub registry_secrets : List String
  pub oci_repositories : List String
  pub skip_tls : Bool
  pub pass_credentials : Bool
  pub filter : Option Json

-- The last properties of the three bodies.
abbrev flags : RepoRequest → Props → Props
flags r rest = prop "ociRepositories" (texts r.oci_repositories) (
    prop "tlsInsecureSkipVerify" (bool r.skip_tls)
      (prop "passCredentials" (bool r.pass_credentials) rest))

unfoldable pub update_body : RepoRequest → Props
update_body r = prop "name" (str r.name) (
    prop "repoURL" (str r.repo_url) (
      prop "type" (str r.type_of) (
        prop "description" (str r.description) (
          prop "authHeader" (str r.auth_header) (
            prop "authRegCreds" (str r.auth_reg_creds) (
              prop "customCA" (str r.custom_ca) (
                prop "syncJobPodTemplate" r.sync_job_pod_template (
                  prop "registrySecrets" (texts r.registry_secrets)
                    (flags r (maybe "filter" r.filter end))))))))))

unfoldable pub create_body : RepoRequest → Props
create_body r = prop "name" (str r.name) (
    prop "repoURL" (str r.repo_url) (
      prop "authHeader" (str r.auth_header) (
        prop "authRegCreds" (str r.auth_reg_creds) (
          prop "type" (str r.type_of) (
            prop "description" (str r.description) (
              prop "customCA" (str r.custom_ca) (
                prop "syncJobPodTemplate" r.sync_job_pod_template (
                  prop "registrySecrets" (texts r.registry_secrets)
                    (flags r (maybe "filterRule" r.filter end))))))))))

unfoldable pub validate_body : RepoRequest → Props
validate_body r = prop "repoURL" (str r.repo_url) (
    prop "type" (str r.type_of) (
      prop "authHeader" (str r.auth_header) (
        prop "authRegCreds" (str r.auth_reg_creds)
          (prop "customCA" (str r.custom_ca) (flags r end)))))

-- `{ appRepository: { ... } }`
abbrev pub in_repository : Props → Json
in_repository ps = obj (prop "appRepository" (obj ps) end)

unfoldable pub self_link : (cluster namespace name : String) → String
unfolding k8s_base
self_link cluster namespace name =
    let item : String = if truthy name then "/" ++ name else "" in
    k8s_base cluster
    ++ ("/apis/kubeapps.com/v1alpha1/namespaces/" ++ (namespace ++ ("/apprepositories" ++ item)))

module _ (x : Platform) (uri : String) where
  unfoldable pub list_repos : (cluster namespace : String) → Run (List AppRepository)
  unfolding request apprepositories_base
  list_repos cluster namespace = get_at x uri repos_reply (apprepositories_base cluster namespace)

  unfoldable pub get_repo : (cluster namespace name : String) → Run AppRepository
  unfolding request self_link
  get_repo cluster namespace name = get_at x uri repo_reply (self_link cluster namespace name)

  unfoldable pub resync : (cluster namespace name : String) → Run Json
  unfolding request apprepositories_refresh
  resync cluster namespace name =
      post_at x uri any_reply (apprepositories_refresh cluster namespace name) null

  unfoldable pub update_at : (cluster namespace : String) → RepoRequest → Run AppRepository
  unfolding request apprepositories_named update_body
  update_at cluster namespace r =
      put_at x uri repo_reply (apprepositories_named cluster namespace r.name)
        (in_repository (update_body r))

  unfoldable pub delete_named : (cluster namespace name : String) → Run Json
  unfolding request apprepositories_named
  delete_named cluster namespace name =
      delete_at x uri any_reply (apprepositories_named cluster namespace name)

  unfoldable pub create_at : (cluster namespace : String) → RepoRequest → Run AppRepository
  unfolding request apprepositories_base create_body
  create_at cluster namespace r =
      post_at x uri repo_reply (apprepositories_base cluster namespace)
        (in_repository (create_body r))

  unfoldable pub validate_at : (cluster namespace : String) → RepoRequest → Run Json
  unfolding request apprepositories_validate validate_body
  validate_at cluster namespace r =
      post_at x uri any_reply (apprepositories_validate cluster namespace)
        (in_repository (validate_body r))
