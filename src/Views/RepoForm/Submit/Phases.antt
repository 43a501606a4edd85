-- ===== src/Views/RepoForm/Submit/Phases.antt =====
-- dashboard/src/components/Config/AppRepoList/AppRepoForm.tsx: the form seen as a machine with three
-- phases.
use mathlib.Core.Path.{subst}
use installer.Common.{
  ap, sym, String, Bool, true, false, Option, none, some, ◌≡◌, refl, arith, if◌then◌else◌, ◌⊎◌, inl,
  inr, ◌∙◌,
}
use installer.Common.Result.{Result, ok, throw}
use installer.Types.{JsError}
use installer.Client.Page.{Run, Page, bind-ok, pure, catch, ◌>>=◌}
use installer.Actions.{validate}
use installer.Thunks.Repositories.{validate_repo, fail}
use installer.Views.RepoForm.{AppRepoForm, final_header}
use installer.Views.RepoForm.Submit.{
  FormSetting, validation_request, on_submit, currently_validated, after_check, install,
}

-- What is known of the form: nothing, that it was accepted, or that it was refused, so that the
-- button submits it all the same.
pub data Phase : Type 0 where
  unchecked accepted refused : Phase

abbrev pub phase : AppRepoForm → Phase
phase f = elim f.validated [ none ↦ unchecked | some true ↦ accepted | some false ↦ refused ]

-- The next phase after a click, given the verdict of the server, and whether the form is submitted.
abbrev pub press : Phase → (verdict : Bool) → Phase × Bool
press unchecked true = (accepted, true)
press unchecked false = (refused, false)
press accepted verdict = (accepted, true)
press refused verdict = (refused, true)

-- Whether a click asks the server.
abbrev pub asks : Phase → Bool
asks unchecked = true
asks _ = false

-- What catches all errors, and then returns, returns.
abbrev Returns : {A : Type 0} → Result JsError A × Page → Type 0
Returns {A} r = (a : A) × (q : Page) × (r ≡ (ok a, q))

caught-Returns :
    {A : Type 0} (r : Result JsError A × Page) (handler : JsError → Page → Result JsError A × Page)
    → ((e : JsError) (q : Page) → Returns (handler e q))
    → Returns (catch (λ p. r) handler r.1)
caught-Returns (ok a, q) handler h = (a, q, refl)
caught-Returns (throw e, q) handler h = h e q

validate_repo-Returns :
    (s : FormSetting) (f : AppRepoForm) (header : String) (p : Page)
    → Returns (
        validate_repo s.platform s.uri s.cluster s.current_namespace
          (validation_request s f header)
          p)
unfolding validate_repo
validate_repo-Returns s f header p =
    caught-Returns _ _ (λ e q. (false, (fail validate e q).1, refl))

validated-cases : (o : Option Bool) → (o ≡ none) ⊎ ((b : Bool) × (o ≡ some b))
validated-cases none = inl refl
validated-cases (some b) = inr (b, refl)

module _ (s : FormSetting) (f : AppRepoForm) (header : String) where
  -- The verdict of the server on the form, at a page.
  abbrev pub Verdict : Page → Bool → Page → Type 0
  Verdict p v q =
      validate_repo s.platform s.uri s.cluster s.current_namespace (validation_request s f header) p
      ≡ (ok v, q)

  -- What a click does, by the phase alone: the page goes on from the question, if there is one, and
  -- from the submission, if there is one.
  abbrev pub Clicked : Page → Bool → Page → Result JsError Bool × AppRepoForm × Page → Type 0
  Clicked p v q out =
      let asked = if asks (phase f) then q else p in
      (phase out.1 ≡ (press (phase f) v).0)
      × (out.1 ≡ record f { validated = out.1.validated })
      × ((if (press (phase f) v).1 then on_submit s f header asked else (ok false, asked))
          ≡ (out.0, out.2))

  checked_lem :
      (p q : Page) (v : Bool)
      → f.validated ≡ none
      → Verdict p v q
      → currently_validated s f header p ≡ (ok (some v), q)
  unfolding currently_validated
  checked_lem p q v none_yet verdict =
      let ask_server : Run Bool =
        validate_repo s.platform s.uri s.cluster s.current_namespace
          (validation_request s f header) in
      let verdict_of : Bool → Run (Option Bool) = λ b. pure (some b) in
      let asked : currently_validated s f header p ≡ (ask_server >>= verdict_of) p =
        ground (arith, none_yet) in
      asked ∙ bind-ok ask_server verdict_of p q v verdict

  known_lem :
      (p : Page) (b : Bool)
      → f.validated ≡ some b
      → currently_validated s f header p ≡ (ok (some b), p)
  unfolding currently_validated
  known_lem p true known = ground (arith, known)
  known_lem p false known = ground (arith, known)

  install_lem :
      (p : Page)
      → final_header s.btoa f ≡ some header
      → install s f p ≡ after_check s f header (currently_validated s f header p)
  unfolding install
  install_lem p built = rw (built, install) refl

  unchecked_lem :
      (p q : Page) (v : Bool)
      → f.validated ≡ none
      → Clicked p v q (after_check s f header (ok (some v), q))
  unfolding after_check
  unchecked_lem p q true none_yet =
      (ground (arith, none_yet), ground (arith, none_yet), ground (arith, none_yet))
  unchecked_lem p q false none_yet =
      (ground (arith, none_yet), ground (arith, none_yet), ground (arith, none_yet))

  decided_lem :
      (p q : Page) (b v : Bool)
      → f.validated ≡ some b
      → Clicked p v q (after_check s f header (ok (some b), p))
  unfolding after_check
  decided_lem p q true v known =
      (ground (arith, known), ground (arith, known), ground (arith, known))
  decided_lem p q false v known =
      (ground (arith, known), ground (arith, known), ground (arith, known))

  -- A click on the button of a form whose header can be encoded does what the phase says: in an
  -- unchecked form the server is asked, and the form is submitted if it is accepted; an accepted or a
  -- refused form is submitted at once, without a question. The next phase is that of the verdict,
  -- and no field but `validated` changes.
  pub install-Clicked :
      (p : Page)
      → final_header s.btoa f ≡ some header
      → (v : Bool) × (q : Page) × Verdict p v q × Clicked p v q (install s f p)
  install-Clicked p built =
      let (v, q, verdict) = validate_repo-Returns s f header p in
      let at_check = install_lem p built in
      elim (validated-cases f.validated) [
        | inl none_yet ↦
            let e = at_check ∙ ap (after_check s f header) (checked_lem p q v none_yet verdict) in
            (v, q, verdict, subst (Clicked p v q) (sym e) (unchecked_lem p q v none_yet))
        | inr (b, known) ↦
            let e = at_check ∙ ap (after_check s f header) (known_lem p b known) in
            (v, q, verdict, subst (Clicked p v q) (sym e) (decided_lem p q b v known))
      ]
