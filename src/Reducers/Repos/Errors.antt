-- ===== src/Reducers/Repos/Errors.antt =====
-- dashboard/src/reducers/repos.ts: which errors are kept when one is reported.
use installer.Common.{Bool, true, false, Option, none, some, ◌≡◌, refl, if◌then◌else◌}
use installer.Types.{JsError}
use installer.Actions.{RepoOp, create, update, fetch, delete, validate, error_repos, repos}
use installer.Reducers.Repos.{RepoErrors, AppRepositoryState, repos_reducer}

-- The error of an operation.
abbrev pub error_at : RepoErrors → RepoOp → Option JsError
error_at e create = e.create
error_at e update = e.update
error_at e fetch = e.fetch
error_at e delete = e.delete
error_at e validate = e.validate

abbrev pub same_op : RepoOp → RepoOp → Bool
same_op create create = true
same_op update update = true
same_op fetch fetch = true
same_op delete delete = true
same_op validate validate = true
same_op _ _ = false

-- The error of an operation replaces all others, but for the error of the last fetch, which stays
-- until a fetch fails again; nothing is left marked as being fetched or validated.
pub error_repos-error_at :
    (s : AppRepositoryState) (err : JsError) (op other : RepoOp)
    → (error_at (repos_reducer s (repos (error_repos err op))).errors other ≡ (
        if same_op op other
        then some err
        else if same_op fetch other
        then s.errors.fetch
        else none))
      × ((repos_reducer s (repos (error_repos err op))).is_fetching ≡ false)
      × ((repos_reducer s (repos (error_repos err op))).validating ≡ false)
unfolding repos_reducer
error_repos-error_at s err create create = (refl, refl, refl)
error_repos-error_at s err create update = (refl, refl, refl)
error_repos-error_at s err create _ = (refl, refl, refl)
error_repos-error_at s err update create = (refl, refl, refl)
error_repos-error_at s err update _ = (refl, refl, refl)
error_repos-error_at s err fetch create = (refl, refl, refl)
error_repos-error_at s err fetch _ = (refl, refl, refl)
error_repos-error_at s err delete create = (refl, refl, refl)
error_repos-error_at s err delete _ = (refl, refl, refl)
error_repos-error_at s err validate create = (refl, refl, refl)
error_repos-error_at s err validate _ = (refl, refl, refl)
