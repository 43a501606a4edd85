-- ===== src/Views/RepoForm/Effects.antt =====
-- dashboard/src/components/Config/AppRepoList/AppRepoForm.tsx: the effects of the form, which fill it
-- from the repository and the secrets, and run again when what they depend on has changed.
pub mod Rested
pub mod Settling
pub mod Stored
pub mod Lost
use installer.Common.{
  ℕ, zero, suc, String, Bool, true, false, ◌&&◌, Option, none, some, List, [], ◌∷◌, if◌then◌else◌,
  ◌==◌, includes, truthy, or_empty, is_some,
}
use installer.Common.Text.{split_parts}
use installer.Client.Http.{join}
use installer.Views.RepoFilter.{AppRepositoryFilter, to_params, starts_with}
use installer.Views.RepoForm.{AppRepoForm, basic, bearer, custom, registry, blank_form}

-- What the form reads of the repository that is edited; a text that is missing is empty. `template`
-- is the text of `yaml.dump`.
pub record SavedRepo : Type 0 where
  pub name : String
  pub url : String
  pub type_of : String
  pub description : String
  pub template : String
  pub oci_repositories : List String
  pub skip_tls : Bool
  pub pass_credentials : Bool
  pub filter_rule : Option AppRepositoryFilter
  pub docker_registry_secrets : List String

-- The data of the secret of the repository.
pub record SecretData : Type 0 where
  pub ca_crt : Option String
  pub authorization_header : Option String
  pub dockerconfigjson : Option String

-- `image_pull_secrets` are the names of the secrets.
pub record FormProps : Type 0 where
  pub repo : Option SavedRepo
  pub secret : Option SecretData
  pub image_pull_secrets : List String

abbrev saved_secrets : Option SavedRepo → List String
saved_secrets none = []
saved_secrets (some r) = r.docker_registry_secrets

-- The last of the secrets that the repository has, or else the selected one.
unfoldable pub select_from : (saved names : List String) (selected : String) → String
select_from saved [] selected = selected
select_from saved (n ∷ names) selected =
    select_from saved names (if includes saved n then n else selected)

unfoldable pub select_effect : FormProps → AppRepoForm → AppRepoForm
unfolding select_from
select_effect props f = record f {
  selected_image_pull_secret =
      select_from (saved_secrets props.repo) props.image_pull_secrets f.selected_image_pull_secret;
}

unfoldable pub load_filter : Option AppRepositoryFilter → AppRepoForm → AppRepoForm
unfolding to_params
load_filter none f = f
load_filter (some rule) f =
    let params = to_params rule in
    if truthy rule.jq
    then record f {
      filter_names = params.names;
      filter_regex = params.regex;
      filter_exclude = params.exclude;
    }
    else f

-- The fields that come from the repository. The requests for its secrets are not part of the form.
unfoldable pub load_effect : Option SavedRepo → AppRepoForm → AppRepoForm
unfolding load_filter join
load_effect none f = f
load_effect (some r) f = load_filter r.filter_rule (record f {
  name = r.name;
  url = r.url;
  type_of = r.type_of;
  description = r.description;
  sync_job_pod_template = r.template;
  oci_repositories = join ", " r.oci_repositories;
  skip_tls = r.skip_tls;
  pass_credentials = r.pass_credentials;
})

-- `t.split(c)[1]`
abbrev pub second_part : (separator : ℕ) → String → Option String
second_part c t = elim (split_parts c t).1 [ [] ↦ none | part ∷ rest ↦ some part ]

-- `none` is the argument `undefined`, of which `atob` takes the text.
abbrev or_undefined : Option String → String
or_undefined none = "undefined"
or_undefined (some t) = t

-- Whether nothing that the effects depend on has changed, the props aside.
abbrev pub same_deps : (previous current : AppRepoForm) → Bool
same_deps previous current =
    current.selected_image_pull_secret == previous.selected_image_pull_secret
    && current.auth_header == previous.auth_header

module _ (atob : String → Option String) where
  -- The three branches on `authHeader`, which is the header that the form shows.
  unfoldable pub read_basic : (encoded : Option String) → AppRepoForm → Option AppRepoForm
  unfolding split_parts
  read_basic encoded f = elim (atob (or_undefined encoded)) [
    | none ↦ none
    | some pair ↦ some (record f {
      user = (split_parts b':' pair).0;
      password = second_part b':' pair;
      auth_method = basic;
    })
  ]

  unfoldable pub read_stored : (authorization : String) → AppRepoForm → Option AppRepoForm
  read_stored authorization f = elim (atob authorization) [
    | none ↦ none
    | some header ↦ some (record f { auth_method = custom; auth_header = header })
  ]

  unfoldable pub read_header : Option String → AppRepoForm → Option AppRepoForm
  unfolding read_basic read_stored
  read_header authorization f =
      if truthy (or_empty authorization)
      then (if starts_with "Basic" f.auth_header
          then read_basic (second_part b' ' f.auth_header) f
          else (if starts_with "Bearer" f.auth_header
              then some (record f { token = second_part b' ' f.auth_header; auth_method = bearer })
              else read_stored (or_empty authorization) f))
      else some f

  unfoldable pub read_ca : Option String → AppRepoForm → Option AppRepoForm
  read_ca ca f =
      if truthy (or_empty ca)
      then elim (atob (or_empty ca)) [
        | none ↦ none
        | some text ↦ some (record f { custom_ca = text })
      ]
      else some f

  abbrev read_docker : Option String → AppRepoForm → AppRepoForm
  read_docker config f = if truthy (or_empty config) then record f { auth_method = registry } else f

  -- `none`: `atob` throws, and React takes the page down.
  unfoldable pub secret_effect : Option SecretData → AppRepoForm → Option AppRepoForm
  unfolding read_header read_ca
  secret_effect none f = some f
  secret_effect (some d) f = elim (read_ca d.ca_crt f) [
    | none ↦ none
    | some g ↦ elim (read_header d.authorization_header g) [
      | none ↦ none
      | some h ↦ some (read_docker d.dockerconfigjson h)
    ]
  ]

  -- The effects after a render of `current` that follows one of `previous`, with the same props.
  unfoldable pub run_effects : FormProps → (previous current : AppRepoForm) → Option AppRepoForm
  unfolding select_effect secret_effect
  run_effects props previous current =
      let selected =
        if current.selected_image_pull_secret == previous.selected_image_pull_secret
        then current
        else select_effect props current in
      if current.auth_header == previous.auth_header
      then some selected
      else secret_effect props.secret selected

-- What becomes of a form: it is rendered and stays so, the page is taken down, or the renders that
-- were allowed did not suffice.
pub data Settled : Type 0 where
  rendered : AppRepoForm → Settled
  crashed unsettled : Settled

module _ (atob : String → Option String) where
  -- Renders, until one that changes nothing that an effect depends on.
  unfoldable pub settle : ℕ → FormProps → (previous current : AppRepoForm) → Settled
  unfolding run_effects
  settle zero props previous current = unsettled
  settle (suc n) props previous current = elim (same_deps previous current) [
    | true ↦ rendered current
    | false ↦ elim (run_effects atob props previous current) [
      | none ↦ crashed
      | some next ↦ settle n props current next
    ]
  ]

  -- The form is opened: every effect runs once after the first render.
  unfoldable pub open_form : ℕ → FormProps → AppRepoForm → Settled
  unfolding settle load_effect select_effect secret_effect
  open_form n props f =
      elim (secret_effect atob props.secret (load_effect props.repo (select_effect props f))) [
        | none ↦ crashed
        | some next ↦ settle n props f next
      ]

  -- The secret arrives in the props.
  unfoldable pub receive_secret : ℕ → FormProps → AppRepoForm → Settled
  unfolding settle secret_effect
  receive_secret n props f = elim (secret_effect atob props.secret f) [
    | none ↦ crashed
    | some next ↦ settle n props f next
  ]
