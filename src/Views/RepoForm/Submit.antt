-- ===== src/Views/RepoForm/Submit.antt =====
-- dashboard/src/components/Config/AppRepoList/AppRepoForm.tsx and AppRepoButton.tsx: the button that
-- validates and submits the form.
pub mod Phases
pub mod Stale
use Prim.Native.String.{◌++◌}
use installer.Common.{
  ℕ, String, Bool, true, false, not, ◌&&◌, ◌||◌, Option, none, some, List, [], ◌∷◌, if◌then◌else◌,
  ◌==◌,
}
use installer.Common.Dict.{Dict}
use installer.Common.Result.{Result, ok, throw}
use installer.Types.{Json, null, str, obj, Props, end, prop, JsError}
use installer.Client.Page.{Page, Run, pure, ◌>>=◌}
use installer.Client.Platform.{Platform}
use installer.Client.Endpoints.AppRepositories.{RepoRequest}
use installer.Thunks.Repositories.{validate_repo, install_repo, update_repo}
use installer.Views.RepoFilter.{AppRepositoryFilter, to_filter_rule}
use installer.Views.RepoForm.{AppRepoForm, final_header, docker_reg_creds, oci_repo_list, final_url}

-- What the form is given: the platform, the clusters and namespaces of its thunks, whether a
-- repository is edited, `trim` and `toString` of the language, and `btoa`, which throws
-- `character_error` where it is `none`.
pub record FormSetting : Type 0 where
  pub platform : Platform
  pub uri : String
  pub cluster : String
  pub namespace : String
  pub current_namespace : String
  pub edited : Bool
  pub trim : String → String
  pub show : ℕ → String
  pub btoa : String → Option String
  pub character_error : JsError

abbrev is_true : Option Bool → Bool
is_true (some true) = true
is_true _ = false

abbrev is_refused : Option Bool → Bool
is_refused (some false) = true
is_refused _ = false

abbrev variables_json : Dict String → Props
variables_json [] = end
variables_json ((k, v) ∷ vs) = prop k (str v) (variables_json vs)

-- A rule as it is sent.
unfoldable pub filter_json : AppRepositoryFilter → Json
filter_json r = obj (
    prop "jq" (str r.jq)
      (elim r.variables [ none ↦ end | some vs ↦ prop "variables" (obj (variables_json vs)) end ]))

module _ (s : FormSetting) where
  -- The arguments of `validateRepo`.
  unfoldable pub validation_request : AppRepoForm → (header : String) → RepoRequest
  unfolding docker_reg_creds oci_repo_list final_url
  validation_request f header = record {
    name = "";
    repo_url = final_url f;
    type_of = f.type_of;
    description = "";
    auth_header = header;
    auth_reg_creds = docker_reg_creds f;
    custom_ca = f.custom_ca;
    sync_job_pod_template = null;
    registry_secrets = [];
    oci_repositories = oci_repo_list s.trim f;
    skip_tls = f.skip_tls;
    pass_credentials = f.pass_credentials;
    filter = none;
  }

  unfoldable pub form_filter : AppRepoForm → Option Json
  unfolding to_filter_rule filter_json
  form_filter f =
      if f.type_of == "helm" && not (f.filter_names == "")
      then some (
          filter_json (to_filter_rule s.trim s.show f.filter_names f.filter_regex f.filter_exclude))
      else none

  -- The arguments of `onSubmit`; the template goes beside them.
  unfoldable pub submission : AppRepoForm → (header : String) → RepoRequest
  unfolding validation_request form_filter
  submission f header = record (validation_request f header) {
    name = f.name;
    description = f.description;
    registry_secrets =
        if f.selected_image_pull_secret == "" then [] else f.selected_image_pull_secret ∷ [];
    filter = form_filter f;
  }

  -- `onSubmit` of AppRepoAddButton.
  unfoldable pub on_submit : AppRepoForm → (header : String) → Run Bool
  unfolding submission
  on_submit f header =
      let x = s.platform in
      if s.edited
      then update_repo x s.uri s.cluster s.namespace (submission f header) f.sync_job_pod_template
      else install_repo x s.uri s.cluster s.namespace (submission f header) f.sync_job_pod_template

  -- `currentlyValidated`, which is asked for unless the form was validated, or refused before.
  unfoldable pub currently_validated : AppRepoForm → (header : String) → Run (Option Bool)
  unfolding validation_request
  currently_validated f header =
      if not (is_true f.validated) && not (is_refused f.validated)
      then (do
        valid ←
            validate_repo s.platform s.uri s.cluster s.current_namespace
              (validation_request f header)
        pure (some valid))
      else pure f.validated

  -- What follows the check: the form is submitted if it is valid, or was refused before the click.
  unfoldable pub after_check :
      AppRepoForm
      → (header : String) → Result JsError (Option Bool) × Page
      → Result JsError Bool × AppRepoForm × Page
  unfolding on_submit
  after_check f header (throw e, q) = (throw e, f, q)
  after_check f header (ok current, q) =
      let g = record f { validated = current } in
      if is_true current || is_refused f.validated
      then (let (success, r) = on_submit f header q in (success, g, r))
      else (ok false, g, q)

  -- `install`: the result says whether `onAfterInstall` is called.
  unfoldable pub install : AppRepoForm → Page → Result JsError Bool × AppRepoForm × Page
  unfolding final_header currently_validated after_check
  install f p = elim (final_header s.btoa f) [
    | none ↦ (throw s.character_error, f, p)
    | some header ↦ after_check f header (currently_validated f header p)
  ]
