-- ===== src/Views/RepoForm/Effects/Lost.antt =====
-- dashboard/src/components/Config/AppRepoList/AppRepoForm.tsx: what the effects do to a change of the
-- user.
use installer.Common.{
  String, any, includes, Bool-cases, true, false, Option, none, some, ◌≡◌, refl, ap, ◌∙◌, inl, inr,
  arith, eq_iff, ◌==◌, truthy, ◌≢◌,
}
use installer.Views.RepoFilter.{starts_with}
use installer.Views.RepoForm.{AppRepoForm, custom, handle, auth_header_change, select_pull_secret}
use installer.Views.RepoForm.Effects.{
  FormProps, saved_secrets, select_from, select_effect, same_deps, run_effects, rendered, settle,
}
use installer.Views.RepoForm.Effects.Rested.{select_from-cases}
use installer.Views.RepoForm.Effects.Settling.{
  settle-same, settle-some, run_effects-header, same_deps-eq,
}
use installer.Views.RepoForm.Effects.Stored.{only_header, first_lem}

-- What the user types into the field of a custom header is lost where the repository has a secret with
-- only a header, and neither of the two headers is one of the two kinds: the form comes to rest with
-- the stored header again, whatever was typed.
pub settle-auth_header_change :
    (atob : String → Option String) (f : AppRepoForm) (props : FormProps)
    (raw stored typed : String)
    → truthy raw ≡ true
    → atob raw ≡ some stored
    → starts_with "Basic" typed ≡ false
    → starts_with "Bearer" typed ≡ false
    → starts_with "Basic" stored ≡ false
    → starts_with "Bearer" stored ≡ false
    → typed ≢ f.auth_header
    → settle atob 3 (only_header props raw) f (handle f (auth_header_change typed))
      ≡ rendered (record f { auth_method = custom; auth_header = stored; validated = none })
unfolding handle
settle-auth_header_change atob f props raw stored typed there decoded nb nr sb sr differs =
    let given = only_header props raw in
    let one = handle f (auth_header_change typed) in
    let two : AppRepoForm = record f {
      auth_method = custom;
      auth_header = stored;
      validated = none;
    } in
    let changed : (typed == f.auth_header) ≡ false =
      ground (arith, differs, eq_iff typed f.auth_header) in
    let (ran, other) = run_effects-header atob given f one refl changed in
    let first = first_lem atob props one raw stored there decoded nb nr in
    let again = first_lem atob props two raw stored there decoded sb sr in
    settle-some atob 2 given f one two other (ran ∙ first) ∙ elim (Bool-cases (stored == typed)) [
      | inl same ↦
          settle-same atob 1 given one two
            (same_deps-eq atob one two refl (ground (arith, same, eq_iff stored typed)))
      | inr new ↦
          let (ran', other') = run_effects-header atob given one two refl new in
          settle-some atob 1 given one two two other' (ran' ∙ again)
          ∙ settle-same atob 0 given two two (same_deps-eq atob two two refl refl)
    ]

module _ (atob : String → Option String) (props : FormProps) where
  -- The selection after the effect.
  abbrev reselected : String → String
  reselected t = select_from (saved_secrets props.repo) props.image_pull_secrets t

  run_effects-selection :
      (f g : AppRepoForm)
      → (g.selected_image_pull_secret == f.selected_image_pull_secret) ≡ false
      → g.auth_header ≡ f.auth_header
      → (run_effects atob props f g
          ≡ some
              (record g { selected_image_pull_secret = reselected g.selected_image_pull_secret }))
        × (same_deps f g ≡ false)
  unfolding run_effects select_effect
  run_effects-selection f g other same =
      (ground (arith, other, same, eq_iff g.auth_header f.auth_header), ground (arith, other))

  -- Where a repository has a pull secret that exists, the user cannot select another one: whichever
  -- is selected, the form comes to rest with the same one of the repository.
  pub settle-select_pull_secret :
      (f : AppRepoForm)
      → any (includes (saved_secrets props.repo)) props.image_pull_secrets ≡ true
      → (n : String) × (includes (saved_secrets props.repo) n ≡ true)
        × ((t : String)
            → t ≢ f.selected_image_pull_secret
            → settle atob 3 props f (handle f (select_pull_secret t))
              ≡ rendered (record f { selected_image_pull_secret = n }))
  unfolding handle
  settle-select_pull_secret f there =
      elim (select_from-cases (saved_secrets props.repo) props.image_pull_secrets) [
        | inr (unknown, kept) ↦ absurd (ground (arith, unknown, there))
        | inl (n, known, always) ↦ (n, known, λ t differs. settles n always t differs)
      ]
    where
      settles :
          (n : String)
          → ((t : String) → reselected t ≡ n)
          → (t : String) → t ≢ f.selected_image_pull_secret
          → settle atob 3 props f (handle f (select_pull_secret t))
            ≡ rendered (record f { selected_image_pull_secret = n })
      settles n always t differs =
          let one : AppRepoForm = record f { selected_image_pull_secret = t } in
          let two : AppRepoForm = record f { selected_image_pull_secret = n } in
          let selects = λ (u : String). record f { selected_image_pull_secret = u } in
          let (ran, other) =
            run_effects-selection f one
              (ground (arith, differs, eq_iff t f.selected_image_pull_secret)) refl in
          settle-some atob 2 props f one two other
            (ran ∙ ap (λ (u : String). some (selects u)) (always t))
          ∙ elim (Bool-cases (n == t)) [
            | inl same ↦
                settle-same atob 1 props one two
                  (same_deps-eq atob one two (ground (arith, same, eq_iff n t)) refl)
            | inr new ↦
                let (ran', other') = run_effects-selection one two new refl in
                settle-some atob 1 props one two two other'
                  (ran' ∙ ap (λ (u : String). some (selects u)) (always n))
                ∙ settle-same atob 0 props two two (same_deps-eq atob two two refl refl)
          ]
