-- ===== src/Actions/Repos.antt =====
-- dashboard/src/actions/repos.ts: its actions. `receive_repo none` is the action of `clearRepo`,
-- whose payload is the empty object.
use installer.Common.{String, Option, List}
use installer.Types.{Json, JsError, Secret, AppRepository}

-- What an error was met at.
pub data RepoOp : Type 0 where
  create update fetch delete validate : RepoOp

pub data AppReposAction : Type 0 where
  add_repo : AppReposAction
  added_repo : AppRepository → AppReposAction
  request_repo_update : AppReposAction
  repo_updated : AppRepository → AppReposAction
  request_repos : (namespace : String) → AppReposAction
  receive_repos : List AppRepository → AppReposAction
  receive_repos_secrets : List Secret → AppReposAction
  receive_repos_secret : Secret → AppReposAction
  request_repo : AppReposAction
  receive_repo : Option AppRepository → AppReposAction
  repo_validating : AppReposAction
  repo_validated : Json → AppReposAction
  show_form hide_form reset_form submit_form : AppReposAction
  redirect : (path : String) → AppReposAction
  redirected : AppReposAction
  error_repos : JsError → RepoOp → AppReposAction
  request_image_pull_secrets : (namespace : String) → AppReposAction
  receive_image_pull_secrets : List Secret → AppReposAction
  create_image_pull_secret : Secret → AppReposAction
