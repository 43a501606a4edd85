-- ===== src/Views/RepoForm/Submit/Stale.antt =====
-- dashboard/src/components/Config/AppRepoList/AppRepoForm.tsx: which changes of the form need a new
-- validation.
use installer.Common.{String, none, ◌≡◌, refl, arith, ◌⊎◌, inl, inr, ◌≢◌}
use installer.Views.RepoForm.{
  AppRepoForm, AuthMethod, registry, FormEvent, name_change, description_change,
  filter_names_change, filter_regex_change, filter_exclude_change, select_pull_secret, handle,
  final_header, docker_reg_creds, oci_repo_list, final_url,
}
use installer.Views.RepoForm.Submit.{FormSetting, validation_request}
use installer.Views.RepoForm.Submit.Phases.{phase}

module _ (s : FormSetting) where
  -- The verdict on `f` is kept for `g`, and what is validated of the two is the same.
  pub record Kept (f g : AppRepoForm) : Type 0 where
    pub verdict : g.validated ≡ f.validated
    pub same_header : final_header s.btoa g ≡ final_header s.btoa f
    pub same_request :
        (header : String) → validation_request s g header ≡ validation_request s f header

  same-Kept :
      (f g : AppRepoForm)
      → g.validated ≡ f.validated
      → final_header s.btoa g ≡ final_header s.btoa f
      → ((header : String) → validation_request s g header ≡ validation_request s f header)
      → Kept f g
  same-Kept f g v h r = record { verdict = v; same_header = h; same_request = r }

  other_method : (m : AuthMethod) → (m ≡ registry) ⊎ (m ≢ registry)
  other_method registry = inl refl
  other_method _ = inr (λ e. cc)

  -- Every change of the form takes back the verdict of the server, or leaves what was validated as it
  -- was, with one exception: selecting a pull secret, where the repository is accessed by it.
  pub handle-Kept :
      (f : AppRepoForm) (e : FormEvent)
      → ((handle f e).validated ≡ none)
        ⊎ Kept f (handle f e)
        ⊎ ((t : String) × (e ≡ select_pull_secret t) × (f.auth_method ≡ registry))
  unfolding handle final_header validation_request docker_reg_creds oci_repo_list final_url
  handle-Kept f (name_change v) = inr (inl (same-Kept f _ refl refl (λ h. refl)))
  handle-Kept f (description_change v) = inr (inl (same-Kept f _ refl refl (λ h. refl)))
  handle-Kept f (filter_names_change v) = inr (inl (same-Kept f _ refl refl (λ h. refl)))
  handle-Kept f filter_regex_change = inr (inl (same-Kept f _ refl refl (λ h. refl)))
  handle-Kept f filter_exclude_change = inr (inl (same-Kept f _ refl refl (λ h. refl)))
  handle-Kept f (select_pull_secret t) = elim (other_method f.auth_method) [
    | inl by_secret ↦ inr (inr (t, refl, by_secret))
    | inr other ↦ inr (inl (same-Kept f _ refl refl (λ h. ground (arith, other))))
  ]
  handle-Kept f _ = inl refl

  -- A form that is accessed by a pull secret keeps its phase when another one is selected, although
  -- what would be validated now is about the other one.
  pub select_pull_secret-stale :
      (f : AppRepoForm) (t header : String)
      → f.auth_method ≡ registry
      → (phase (handle f (select_pull_secret t)) ≡ phase f)
        × ((validation_request s (handle f (select_pull_secret t)) header).auth_reg_creds ≡ t)
  unfolding handle validation_request docker_reg_creds
  select_pull_secret-stale f t header by_secret = (refl, rw by_secret refl)
