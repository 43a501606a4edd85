-- ===== src/Examples/Forms.antt =====
-- Examples for the form of a repository.
use mathlib.Core.Path.{subst}
use installer.Common.{
  ℕ, String, Bool, true, false, Option, none, some, List, [], ◌∷◌, ◌≡◌, refl, arith, eq_iff, ◌==◌,
  if◌then◌else◌, nat_eq, ◌⊎◌, Bool-cases, inl, inr, ◌≢◌, includes,
}
use installer.Common.Text.{has_char}
use installer.Client.Page.{Page}
use installer.Views.RepoForm.{
  AppRepoForm, basic, custom, registry, blank_form, handle, auth_header_change, select_pull_secret,
  final_header,
}
use installer.Views.RepoForm.Submit.{FormSetting, install}
use installer.Views.RepoForm.Submit.Phases.{Verdict, Clicked, install-Clicked}
use installer.Views.RepoForm.Submit.Stale.{Kept, handle-Kept}
use installer.Views.RepoForm.Effects.{FormProps, rendered, settle, receive_secret}
use installer.Views.RepoForm.Effects.Settling.{Ends, settle-Ends}
use installer.Views.RepoForm.Effects.Stored.{IsCodec, only_header, receive_secret-final_header}
use installer.Views.RepoForm.Effects.Lost.{settle-auth_header_change, settle-select_pull_secret}
use installer.Examples.Data.{boom}
use installer.Examples.Server.{offline, visitor}

abbrev saved_header : String
saved_header = "Basic me:pw"

-- A codec for the texts without a blank, and for one header.
abbrev btoa : String → Option String
btoa t =
    if has_char b' ' t
    then (if t == saved_header then some "token" else none)
    else (if t == "token" then none else some t)

abbrev atob : String → Option String
atob e = if e == "token" then some saved_header else some e

btoa-IsCodec : IsCodec btoa atob
btoa-IsCodec = record {
  undone = λ t e h. ground (arith, h, eq_iff t saved_header, eq_iff e "token", eq_iff t "token");
  no_blank = λ t e h. plain t e h;
}
  where
    plain : (t e : String) → btoa t ≡ some e → has_char b' ' e ≡ false
    plain t e h = elim (Bool-cases (has_char b' ' t)) [
      | inl blank ↦
          let same : "token" ≡ e = ground (arith, blank, h, eq_iff t saved_header) in
          subst (λ (u : String). has_char b' ' u ≡ false) same refl
      | inr bare ↦
          let same : t ≡ e = ground (arith, bare, h, eq_iff t "token") in
          subst (λ (u : String). has_char b' ' u ≡ false) same bare
    ]

abbrev setting : FormSetting
setting = record {
  platform = offline;
  uri = "/";
  cluster = "default";
  namespace = "ns";
  current_namespace = "ns";
  edited = false;
  trim = λ t. t;
  show = λ i. if nat_eq i 0 then "0" else "1";
  btoa = btoa;
  character_error = boom;
}

abbrev empty_form : AppRepoForm
unfolding blank_form
empty_form = blank_form false false

-- A public repository, with an address.
abbrev with_url : AppRepoForm
with_url = record (blank_form false false) { url = "https://charts.example.com" }

install-Clicked_example :
    (v : Bool) × (q : Page) × Verdict setting with_url "" visitor v q
    × Clicked setting with_url "" visitor v q (install setting with_url visitor)
unfolding final_header blank_form
install-Clicked_example = install-Clicked setting with_url "" visitor refl

handle-Kept_example :
    ((handle with_url (select_pull_secret "docker")).validated ≡ none)
    ⊎ Kept setting with_url (handle with_url (select_pull_secret "docker"))
    ⊎ ((t : String) × (select_pull_secret "docker" ≡ select_pull_secret t)
        × (with_url.auth_method ≡ registry))
handle-Kept_example = handle-Kept setting with_url (select_pull_secret "docker")

-- A form that was accepted with one pull secret.
abbrev by_secret : AppRepoForm
by_secret = record (blank_form false false) {
  auth_method = registry;
  selected_image_pull_secret = "docker";
  validated = some true;
}

abbrev props : FormProps
props = record {
  repo = some (record {
    name = "charts";
    url = "https://charts.example.com";
    type_of = "helm";
    description = "";
    template = "";
    oci_repositories = [];
    skip_tls = false;
    pass_credentials = false;
    filter_rule = none;
    docker_registry_secrets = "docker" ∷ [];
  });
  secret = none;
  image_pull_secrets = "docker" ∷ "other" ∷ [];
}

settle-Ends_example :
    Ends atob (settle atob 3 props by_secret (handle by_secret (select_pull_secret "other")))
settle-Ends_example =
    settle-Ends atob 0 props by_secret (handle by_secret (select_pull_secret "other"))

abbrev by_password : AppRepoForm
by_password = record (blank_form false false) {
  auth_method = basic;
  user = "me";
  password = some "pw";
}

receive_secret-final_header_example :
    receive_secret atob 3 (only_header props "token") with_url
    ≡ rendered (record with_url {
      auth_method = basic;
      auth_header = saved_header;
      user = "me";
      password = some "pw";
    })
unfolding final_header blank_form installer.Common.Text.split_parts
receive_secret-final_header_example =
    receive_secret-final_header btoa atob btoa-IsCodec by_password with_url props saved_header
      "token" "pw" refl refl refl refl refl refl refl refl

abbrev with_custom : AppRepoForm
with_custom = record (blank_form false false) { auth_method = custom; auth_header = "Token a" }

settle-auth_header_change_example :
    settle atob 3
      (only_header props "Token-a")
      with_custom
      (handle with_custom (auth_header_change "Token b"))
    ≡ rendered
        (record with_custom { auth_method = custom; auth_header = "Token-a"; validated = none })
settle-auth_header_change_example =
    settle-auth_header_change atob with_custom props "Token-a" "Token-a" "Token b" refl refl refl
      refl refl refl (ground (arith, eq_iff "Token b" "Token a"))

settle-select_pull_secret_example :
    (n : String) × (includes ("docker" ∷ []) n ≡ true)
    × ((t : String)
        → t ≢ "docker"
        → settle atob 3 props by_secret (handle by_secret (select_pull_secret t))
          ≡ rendered (record by_secret { selected_image_pull_secret = n }))
settle-select_pull_secret_example = settle-select_pull_secret atob props by_secret refl
