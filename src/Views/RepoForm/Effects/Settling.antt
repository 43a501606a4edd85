-- ===== src/Views/RepoForm/Effects/Settling.antt =====
-- dashboard/src/components/Config/AppRepoList/AppRepoForm.tsx: the effects come to rest.
use installer.Common.{
  ℕ, suc, String, true, false, Option, none, some, ◌≡◌, refl, ◌∙◌, ◌⊎◌, inl, inr, arith, eq_iff,
  ◌==◌, Bool-cases, Option-cases, eq_refl,
}
use installer.Views.RepoForm.{AppRepoForm}
use installer.Views.RepoForm.Effects.{
  FormProps, secret_effect, same_deps, run_effects, Settled, rendered, crashed, settle,
  receive_secret,
}
use installer.Views.RepoForm.Effects.Rested.{Rested, run_effects-Rested, Rested-run_effects}

module _ (atob : String → Option String) where
  pub settle-same :
      (n : ℕ) (props : FormProps) (previous current : AppRepoForm)
      → same_deps previous current ≡ true
      → settle atob (suc n) props previous current ≡ rendered current
  unfolding settle
  settle-same n props previous current same = rw (same, settle) refl

  pub settle-some :
      (n : ℕ) (props : FormProps) (previous current next : AppRepoForm)
      → same_deps previous current ≡ false
      → run_effects atob props previous current ≡ some next
      → settle atob (suc n) props previous current ≡ settle atob n props current next
  unfolding settle
  settle-some n props previous current next other ran = rw (other, settle) (rw (ran, settle) refl)

  pub settle-none :
      (n : ℕ) (props : FormProps) (previous current : AppRepoForm)
      → same_deps previous current ≡ false
      → run_effects atob props previous current ≡ none
      → settle atob (suc n) props previous current ≡ crashed
  unfolding settle
  settle-none n props previous current other threw = rw (other, settle) (rw (threw, settle) refl)

  pub receive_secret-some :
      (n : ℕ) (props : FormProps) (f next : AppRepoForm)
      → secret_effect atob props.secret f ≡ some next
      → receive_secret atob n props f ≡ settle atob n props f next
  unfolding receive_secret
  receive_secret-some n props f next ran = rw (ran, receive_secret) refl

  -- After a change of the header alone, only the effect of the secret runs.
  pub run_effects-header :
      (props : FormProps) (previous current : AppRepoForm)
      → current.selected_image_pull_secret ≡ previous.selected_image_pull_secret
      → (current.auth_header == previous.auth_header) ≡ false
      → (run_effects atob props previous current ≡ secret_effect atob props.secret current)
        × (same_deps previous current ≡ false)
  unfolding run_effects
  run_effects-header props previous current same other = (
    ground (
      arith,
      same,
      other,
      eq_iff current.selected_image_pull_secret previous.selected_image_pull_secret,
    ),
    ground (arith, other),
  )

  -- Forms that agree on what the effects depend on.
  pub same_deps-eq :
      (f g : AppRepoForm)
      → g.selected_image_pull_secret ≡ f.selected_image_pull_secret
      → g.auth_header ≡ f.auth_header
      → same_deps f g ≡ true
  same_deps-eq f g sel auth = ground (
    arith,
    sel,
    auth,
    eq_iff g.selected_image_pull_secret f.selected_image_pull_secret,
    eq_iff g.auth_header f.auth_header,
  )

  -- The renders come to an end, with a form or because an effect threw.
  abbrev pub Ends : Settled → Type 0
  Ends r = (r ≡ crashed) ⊎ ((f : AppRepoForm) × (r ≡ rendered f))

  -- A form whose effects have just been run is at rest after one more render.
  pub Rested-settle :
      (n : ℕ) (props : FormProps) (previous current : AppRepoForm)
      → Rested atob props previous current
      → (settle atob (suc (suc n)) props previous current ≡ crashed)
        ⊎ ((f : AppRepoForm) × (settle atob (suc (suc n)) props previous current ≡ rendered f)
            × (same_deps current f ≡ true))
  Rested-settle n props previous current rested = elim (Bool-cases (same_deps previous current)) [
    | inl same ↦ inr (
      current,
      settle-same (suc n) props previous current same,
      ground (arith, eq_refl current.selected_image_pull_secret, eq_refl current.auth_header),
    )
    | inr other ↦ elim (Option-cases (run_effects atob props previous current)) [
      | inl threw ↦ inl (settle-none (suc n) props previous current other threw)
      | inr (next, ran) ↦
          let same = Rested-run_effects atob props previous current next rested ran in
          inr (
            next,
            settle-some (suc n) props previous current next other ran
                ∙ settle-same n props current next same,
            same,
          )
    ]
  ]

  -- Whatever the user changed and whatever the props are, the effects of the form do not run for ever:
  -- after three renders at most nothing they depend on changes any more, or one of them has thrown.
  pub settle-Ends :
      (n : ℕ) (props : FormProps) (previous current : AppRepoForm)
      → Ends (settle atob (suc (suc (suc n))) props previous current)
  settle-Ends n props previous current = elim (Bool-cases (same_deps previous current)) [
    | inl same ↦ inr (current, settle-same (suc (suc n)) props previous current same)
    | inr other ↦ elim (Option-cases (run_effects atob props previous current)) [
      | inl threw ↦ inl (settle-none (suc (suc n)) props previous current other threw)
      | inr (next, ran) ↦
          let now = settle-some (suc (suc n)) props previous current next other ran in
          elim (Rested-settle n props current next
            (run_effects-Rested atob props previous current next ran)) [
              | inl threw ↦ inl (now ∙ threw)
              | inr (f, done, kept) ↦ inr (f, now ∙ done)
            ]
    ]
  ]
