-- ===== src/Views/RepoForm.antt =====
-- dashboard/src/components/Config/AppRepoList/AppRepoForm.tsx: the form of a repository, its fields
-- and what each control changes.
pub mod Submit
pub mod Effects
use Prim.Native.String.{◌++◌}
use installer.Common.{
  ℕ, String, Bool, true, false, not, Option, none, some, List, [], ◌∷◌, map, if◌then◌else◌, ◌==◌,
}
use installer.Common.Text.{split_parts}
use installer.Views.RepoFilter.{starts_with}

-- `AUTH_METHOD_NONE` and its like.
pub data AuthMethod : Type 0 where
  public basic bearer custom registry : AuthMethod

-- What `useState` keeps. `password` and `token` are `none` for `undefined`, which the form gets when
-- it reads a header without them.
pub record AppRepoForm : Type 0 where
  pub auth_method : AuthMethod
  pub user : String
  pub password : Option String
  pub auth_header : String
  pub token : Option String
  pub name : String
  pub description : String
  pub url : String
  pub custom_ca : String
  pub sync_job_pod_template : String
  pub type_of : String
  pub oci_repositories : String
  pub skip_tls : Bool
  pub pass_credentials : Bool
  pub filter_names : String
  pub filter_regex : Bool
  pub filter_exclude : Bool
  pub selected_image_pull_secret : String
  pub validated : Option Bool

-- The form when it opens; the two flags are those of the repository that is edited.
unfoldable pub blank_form : (skip_tls pass_credentials : Bool) → AppRepoForm
blank_form skip_tls pass_credentials = record {
  auth_method = public;
  user = "";
  password = some "";
  auth_header = "";
  token = some "";
  name = "";
  description = "";
  url = "";
  custom_ca = "";
  sync_job_pod_template = "";
  type_of = "helm";
  oci_repositories = "";
  skip_tls = skip_tls;
  pass_credentials = pass_credentials;
  filter_names = "";
  filter_regex = false;
  filter_exclude = false;
  selected_image_pull_secret = "";
  validated = none;
}

-- What the user changes, with the value of the control.
pub data FormEvent : Type 0 where
  name_change description_change url_change auth_header_change : (value : String) → FormEvent
  auth_token_change custom_ca_change type_change user_change : (value : String) → FormEvent
  password_change sync_job_change oci_change filter_names_change : (value : String) → FormEvent
  auth_method_change : (value : AuthMethod) → FormEvent
  skip_tls_change pass_credentials_change filter_regex_change filter_exclude_change : FormEvent
  select_pull_secret : (secret : String) → FormEvent

unfoldable pub handle : AppRepoForm → FormEvent → AppRepoForm
handle f (name_change v) = record f { name = v }
handle f (description_change v) = record f { description = v }
handle f (url_change v) = record f { url = v; validated = none }
handle f (auth_header_change v) = record f { auth_header = v; validated = none }
handle f (auth_token_change v) = record f { token = some v; validated = none }
handle f (custom_ca_change v) = record f { custom_ca = v; validated = none }
handle f (type_change v) = record f { type_of = v; validated = none }
handle f (user_change v) = record f { user = v; validated = none }
handle f (password_change v) = record f { password = some v; validated = none }
handle f (sync_job_change v) = record f { sync_job_pod_template = v; validated = none }
handle f (oci_change v) = record f { oci_repositories = v; validated = none }
handle f (filter_names_change v) = record f { filter_names = v }
handle f (auth_method_change v) = record f { auth_method = v; validated = none }
handle f skip_tls_change = record f { skip_tls = not f.skip_tls; validated = none }
handle f pass_credentials_change = record f {
  pass_credentials = not f.pass_credentials;
  validated = none;
}
handle f filter_regex_change = record f { filter_regex = not f.filter_regex }
handle f filter_exclude_change = record f { filter_exclude = not f.filter_exclude }
handle f (select_pull_secret v) = record f { selected_image_pull_secret = v }

-- A value that may be undefined, in a template literal.
abbrev pub shown : Option String → String
shown none = "undefined"
shown (some t) = t

-- `btoa` is `none` where it throws.
unfoldable pub final_header : (btoa : String → Option String) → AppRepoForm → Option String
final_header btoa f = elim f.auth_method [
  | custom ↦ some f.auth_header
  | basic ↦ elim (btoa (f.user ++ (":" ++ shown f.password))) [
    | none ↦ none
    | some encoded ↦ some ("Basic " ++ encoded)
  ]
  | bearer ↦ some ("Bearer " ++ shown f.token)
  | _ ↦ some ""
]

unfoldable pub docker_reg_creds : AppRepoForm → String
docker_reg_creds f = elim f.auth_method [ registry ↦ f.selected_image_pull_secret | _ ↦ "" ]

unfoldable pub oci_repo_list : (trim : String → String) → AppRepoForm → List String
unfolding split_parts
oci_repo_list trim f =
    if f.oci_repositories == ""
    then []
    else let (first, rest) = split_parts b',' f.oci_repositories in map trim (first ∷ rest)

-- An address without a scheme is taken for one of HTTPS.
unfoldable pub final_url : AppRepoForm → String
final_url f = if starts_with "http" f.url then f.url else "https://" ++ f.url
