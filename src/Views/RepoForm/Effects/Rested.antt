-- ===== src/Views/RepoForm/Effects/Rested.antt =====
-- dashboard/src/components/Config/AppRepoList/AppRepoForm.tsx: what one run of the effects leaves.
use installer.Common.{
  any, String, true, false, Option, none, some, List, [], ◌∷◌, ◌≡◌, refl, sym, ap, ◌∙◌, ◌⊎◌, inl,
  inr, arith, eq_iff, ◌==◌, includes, or_empty, Bool-cases, Option-cases, if◌then◌else◌, eq_refl,
}
use mathlib.Core.Path.{subst}
use installer.Views.RepoForm.{AppRepoForm}
use installer.Views.RepoForm.Effects.{
  SecretData, FormProps, saved_secrets, select_from, select_effect, read_basic, read_stored,
  read_header, read_ca, secret_effect, same_deps, run_effects,
}

-- Either a secret of the repository is there, and is selected whatever was, or the selection stays.
pub select_from-cases :
    (saved names : List String)
    → ((n : String) × (includes saved n ≡ true) × ((t : String) → select_from saved names t ≡ n))
      ⊎ ((any (includes saved) names ≡ false) × ((t : String) → select_from saved names t ≡ t))
unfolding select_from
select_from-cases saved [] = inr (refl, λ t. refl)
select_from-cases saved (n ∷ names) = elim (select_from-cases saved names) [
  | inl (m, known, always) ↦ inl (m, known, λ t. always (if includes saved n then n else t))
  | inr (unknown, kept) ↦ elim (Bool-cases (includes saved n)) [
    | inl found ↦ inl (n, found, λ t. rw found (kept n))
    | inr other ↦ inr (rw other unknown, λ t. rw other (kept t))
  ]
]

select_from-select_from :
    (saved names : List String) (t : String)
    → select_from saved names (select_from saved names t) ≡ select_from saved names t
select_from-select_from saved names t = elim (select_from-cases saved names) [
  | inl (n, known, always) ↦ always (select_from saved names t) ∙ sym (always t)
  | inr (unknown, kept) ↦ kept (select_from saved names t)
]

module _ (atob : String → Option String) where
  -- The effect of the secret leaves the selection alone, and the header is the shown or the stored one.
  abbrev Keeps : Option SecretData → AppRepoForm → AppRepoForm → Type 0
  Keeps secret f g =
      (g.selected_image_pull_secret ≡ f.selected_image_pull_secret)
      × ((g.auth_header ≡ f.auth_header)
          ⊎ ((d : SecretData) × (secret ≡ some d)
              × (atob (or_empty d.authorization_header) ≡ some g.auth_header)))

  read_ca_lem :
      (ca : Option String) (f g : AppRepoForm)
      → read_ca atob ca f ≡ some g
      → (g.selected_image_pull_secret ≡ f.selected_image_pull_secret)
        × (g.auth_header ≡ f.auth_header)
  unfolding read_ca
  read_ca_lem ca f g h = ground arith

  read_header_lem :
      (a : Option String) (f g : AppRepoForm)
      → read_header atob a f ≡ some g
      → (g.selected_image_pull_secret ≡ f.selected_image_pull_secret)
        × ((g.auth_header ≡ f.auth_header) ⊎ (atob (or_empty a) ≡ some g.auth_header))
  unfolding read_header read_basic read_stored
  read_header_lem a f g h = ground arith

  secret_effect-Keeps :
      (secret : Option SecretData) (f g : AppRepoForm)
      → secret_effect atob secret f ≡ some g
      → Keeps secret f g
  unfolding secret_effect
  secret_effect-Keeps none f g h = (ground arith, inl (ground arith))
  secret_effect-Keeps (some d) f g h = elim (Option-cases (read_ca atob d.ca_crt f)) [
    | inl thrown ↦ absurd (ground (arith, thrown, h))
    | inr (f', ca) ↦ elim (Option-cases (read_header atob d.authorization_header f')) [
      | inl thrown ↦ absurd (ground (arith, ca, thrown, h))
      | inr (f'', read) ↦
          let first = read_ca_lem d.ca_crt f f' ca in
          let then_read = read_header_lem d.authorization_header f' f'' read in
          (
            ground (arith, ca, read, h, first, then_read.0),
            elim then_read.1 [
              | inl shown ↦ inl (ground (arith, ca, read, h, first, shown))
              | inr stored ↦ inr (d, refl, ground (arith, ca, read, h, stored))
            ],
          )
    ]
  ]

  -- A form that the effects have just been run on: what they set will not be set otherwise again.
  abbrev pub Rested : FormProps → (before after : AppRepoForm) → Type 0
  Rested props f g =
      ((g.selected_image_pull_secret ≡ f.selected_image_pull_secret)
        ⊎ (select_from (saved_secrets props.repo) props.image_pull_secrets
              g.selected_image_pull_secret
            ≡ g.selected_image_pull_secret))
      × ((g.auth_header ≡ f.auth_header)
          ⊎ ((d : SecretData) × (props.secret ≡ some d)
              × (atob (or_empty d.authorization_header) ≡ some g.auth_header)))

  -- The form after the first of the two effects.
  abbrev chosen : FormProps → (previous current : AppRepoForm) → AppRepoForm
  chosen props previous current =
      if current.selected_image_pull_secret == previous.selected_image_pull_secret
      then current
      else select_effect props current

  chosen-sel :
      (props : FormProps) (previous current : AppRepoForm)
      → ((chosen props previous current).selected_image_pull_secret
          ≡ current.selected_image_pull_secret)
        ⊎ (select_from
              (saved_secrets props.repo)
              props.image_pull_secrets
              (chosen props previous current).selected_image_pull_secret
            ≡ (chosen props previous current).selected_image_pull_secret)
  unfolding select_effect
  chosen-sel props previous current = ground (
    arith,
    select_from-select_from (saved_secrets props.repo) props.image_pull_secrets
        current.selected_image_pull_secret,
  )

  chosen-auth :
      (props : FormProps) (previous current : AppRepoForm)
      → (chosen props previous current).auth_header ≡ current.auth_header
  unfolding select_effect
  chosen-auth props previous current = ground arith

  pub run_effects-Rested :
      (props : FormProps) (previous current next : AppRepoForm)
      → run_effects atob props previous current ≡ some next
      → Rested props current next
  unfolding run_effects
  run_effects-Rested props previous current next h =
      let mid = chosen props previous current in
      let sel = chosen-sel props previous current in
      let auth = chosen-auth props previous current in
      elim (Bool-cases (current.auth_header == previous.auth_header)) [
        | inl same ↦
            let e : mid ≡ next = ground (arith, same, h) in
            subst (Rested props current) e (sel, inl auth)
        | inr other ↦
            let e : secret_effect atob props.secret mid ≡ some next = ground (arith, other, h) in
            let keeps = secret_effect-Keeps props.secret mid next e in
            (
              rw keeps.0 sel,
              elim keeps.1 [ inl shown ↦ inl (shown ∙ auth) | inr stored ↦ inr stored ],
            )
      ]

  pub Rested-run_effects :
      (props : FormProps) (previous current next : AppRepoForm)
      → Rested props previous current
      → run_effects atob props previous current ≡ some next
      → same_deps current next ≡ true
  unfolding run_effects select_effect
  Rested-run_effects props previous current next rested h =
      let mid = chosen props previous current in
      let auth = chosen-auth props previous current in
      let sel : mid.selected_image_pull_secret ≡ current.selected_image_pull_secret = ground (
        arith,
        rested.0,
        eq_iff current.selected_image_pull_secret previous.selected_image_pull_secret,
      ) in
      let settled : (next.selected_image_pull_secret ≡ current.selected_image_pull_secret)
          × (next.auth_header ≡ current.auth_header) =
        elim (Bool-cases (current.auth_header == previous.auth_header)) [
          | inl same ↦
              let e : mid ≡ next = ground (arith, same, h) in
              (
                ap (λ (g : AppRepoForm). g.selected_image_pull_secret) (sym e) ∙ sel,
                ap (λ (g : AppRepoForm). g.auth_header) (sym e) ∙ auth,
              )
          | inr other ↦
              let e : secret_effect atob props.secret mid ≡ some next = ground (arith, other, h) in
              let keeps = secret_effect-Keeps props.secret mid next e in
              (
                keeps.0 ∙ sel,
                elim keeps.1 [
                  | inl shown ↦ shown ∙ auth
                  | inr (d, here, read) ↦ elim rested.1 [
                    | inl kept ↦ absurd (ground (arith, other, kept, eq_refl current.auth_header))
                    | inr (d', here', read') ↦
                        let same_data : d ≡ d' = ground (arith, here, here') in
                        let read'' : atob (or_empty d'.authorization_header)
                            ≡ some next.auth_header =
                          subst
                            (λ (k : SecretData).
                              atob (or_empty k.authorization_header) ≡ some next.auth_header)
                            same_data read in
                        ground (arith, read', read'')
                  ]
                ],
              )
        ] in
      ground (
        arith,
        settled,
        eq_iff next.selected_image_pull_secret current.selected_image_pull_secret,
        eq_iff next.auth_header current.auth_header,
      )
