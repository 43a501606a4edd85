-- ===== src/Reducers/Repos.antt =====
-- dashboard/src/reducers/repos.ts: the application repositories and their secrets.
pub mod Errors
pub mod Fetching
pub mod Lookup
use installer.Common.{
  String, Bool, true, false, ◌&&◌, ◌||◌, ◌==◌, Option, none, some, List, [], ◌∷◌, ◌++◌, map,
  if◌then◌else◌, find_index, set,
}
use installer.Types.{JsError, ResourceMetadata, Secret, AppRepository}
use installer.Actions.{
  RepoOp, create, update, fetch, delete, validate, AppReposAction, add_repo, added_repo,
  repo_updated, request_repos, receive_repos, receive_repos_secrets, receive_repos_secret,
  receive_repo, repo_validating, repo_validated, show_form, hide_form, reset_form, redirect,
  redirected, error_repos, request_image_pull_secrets, receive_image_pull_secrets, Action, repos,
  location_change,
}

pub record RepoErrors : Type 0 where
  pub create : Option JsError
  pub delete : Option JsError
  pub fetch : Option JsError
  pub update : Option JsError
  pub validate : Option JsError

pub record FetchingElem : Type 0 where
  pub repositories : Bool
  pub secrets : Bool

pub record RepoForm : Type 0 where
  pub name : String
  pub namespace : String
  pub url : String
  pub show : Bool

-- `repo` is `none` for the empty object.
pub record AppRepositoryState : Type 0 where
  pub adding_repo : Bool
  pub errors : RepoErrors
  pub last_added : Option AppRepository
  pub is_fetching : Bool
  pub is_fetching_elem : FetchingElem
  pub validating : Bool
  pub repo : Option AppRepository
  pub repos : List AppRepository
  pub repo_secrets : List Secret
  pub form : RepoForm
  pub image_pull_secrets : List Secret
  pub redirect_to : Option String

abbrev pub no_errors : RepoErrors
no_errors = record { create = none; delete = none; fetch = none; update = none; validate = none }

abbrev pub none_fetching : FetchingElem
none_fetching = record { repositories = false; secrets = false }

unfoldable pub initial_state : AppRepositoryState
initial_state = record {
  adding_repo = false;
  errors = no_errors;
  last_added = none;
  is_fetching = false;
  is_fetching_elem = none_fetching;
  validating = false;
  repo = none;
  repos = [];
  repo_secrets = [];
  form = record { name = ""; namespace = ""; url = ""; show = false };
  image_pull_secrets = [];
  redirect_to = none;
}

-- The names of the fields of `isFetchingElem`.
pub data RepoItem : Type 0 where
  repositories secrets : RepoItem

abbrev compose_fetching : FetchingElem → RepoItem → Bool → FetchingElem
compose_fetching e repositories b = record e { repositories = b }
compose_fetching e secrets b = record e { secrets = b }

-- `{ ...state, ...isFetching(state, item, fetching) }`
unfoldable pub with_fetching : AppRepositoryState → RepoItem → Bool → AppRepositoryState
with_fetching s item fetching =
    let elem = compose_fetching s.is_fetching_elem item fetching in
    record s { is_fetching = elem.repositories || elem.secrets; is_fetching_elem = elem }

abbrev pub same_name : ResourceMetadata → ResourceMetadata → Bool
same_name m n = m.name == n.name && m.namespace == n.namespace

-- The branch `receiveReposSecret`.
unfoldable pub put_secret : Secret → List Secret → List Secret
unfolding find_index
put_secret secret known = elim (find_index (λ s. same_name s.metadata secret.metadata) known) [
  | none ↦ known ++ secret ∷ []
  | some i ↦ set known i secret
]

-- The branch `repoUpdated`.
unfoldable pub update_repos : AppRepository → List AppRepository → List AppRepository
update_repos updated rs = map (λ r. if same_name r.metadata updated.metadata then updated else r) rs

-- `{ fetch: state.errors.fetch, [op]: err }`
unfoldable pub errors_with : (fetch_error : Option JsError) → JsError → RepoOp → RepoErrors
errors_with f err create = record no_errors { fetch = f; create = some err }
errors_with f err update = record no_errors { fetch = f; update = some err }
errors_with f err fetch = record no_errors { fetch = some err }
errors_with f err delete = record no_errors { fetch = f; delete = some err }
errors_with f err validate = record no_errors { fetch = f; validate = some err }

unfoldable pub repos_action : AppRepositoryState → AppReposAction → AppRepositoryState
unfolding with_fetching put_secret update_repos errors_with
repos_action s (receive_repos rs) = record (with_fetching s repositories false) {
  repos = rs;
  errors = no_errors;
}
repos_action s (receive_repo r) = record (with_fetching s repositories false) {
  repo = r;
  errors = no_errors;
}
repos_action s (receive_repos_secrets ss) = record s { repo_secrets = ss }
repos_action s (receive_repos_secret secret) = record s {
  repo_secrets = put_secret secret s.repo_secrets;
}
repos_action s (request_repos ns) = with_fetching s repositories true
repos_action s add_repo = record s { adding_repo = true }
repos_action s (added_repo r) = record s {
  adding_repo = false;
  last_added = some r;
  repos = s.repos ++ r ∷ [];
}
repos_action s (repo_updated r) = record s { repos = update_repos r s.repos }
repos_action s repo_validating = record s { validating = true }
repos_action s (repo_validated response) = record s {
  validating = false;
  errors = record s.errors { validate = none };
}
repos_action s reset_form = record s {
  form = record s.form { name = ""; namespace = ""; url = "" };
}
repos_action s show_form = record s { form = record s.form { show = true } }
repos_action s hide_form = record s { form = record s.form { show = false } }
repos_action s (redirect path) = record s { redirect_to = some path }
repos_action s redirected = record s { redirect_to = none }
repos_action s (request_image_pull_secrets ns) = with_fetching s secrets true
repos_action s (receive_image_pull_secrets ss) = record (with_fetching s secrets false) {
  image_pull_secrets = ss;
}
repos_action s (error_repos err op) = record s {
  errors = errors_with s.errors.fetch err op;
  is_fetching = false;
  is_fetching_elem = none_fetching;
  validating = false;
}
repos_action s _ = s

unfoldable pub repos_reducer : AppRepositoryState → Action → AppRepositoryState
unfolding repos_action
repos_reducer s (repos a) = repos_action s a
repos_reducer s (location_change pathname) = record s {
  errors = no_errors;
  is_fetching = false;
  is_fetching_elem = none_fetching;
}
repos_reducer s _ = s
