-- ===== src/Reducers/Repos/Fetching.antt =====
-- dashboard/src/reducers/repos.ts: the loading flag sums up the flags of its parts.
use installer.Common.{◌||◌, ◌≡◌, refl, arith}
use installer.Actions.{AppReposAction, receive_repos, Action, repos, location_change}
use installer.Reducers.Repos.{AppRepositoryState, repos_action, repos_reducer}

-- `isFetching` is true exactly while the repositories or the secrets are being fetched.
abbrev pub IsConsistent : AppRepositoryState → Type 0
IsConsistent s = s.is_fetching ≡ (s.is_fetching_elem.repositories || s.is_fetching_elem.secrets)

repos_action-IsConsistent :
    (s : AppRepositoryState) (a : AppReposAction) → IsConsistent s → IsConsistent (repos_action s a)
unfolding repos_action
repos_action-IsConsistent s (receive_repos rs) h = ground arith
repos_action-IsConsistent s _ h = ground arith

-- Every action keeps the loading flag equal to the disjunction of the flags of its parts.
pub repos_reducer-IsConsistent :
    (s : AppRepositoryState) (a : Action) → IsConsistent s → IsConsistent (repos_reducer s a)
unfolding repos_reducer
repos_reducer-IsConsistent s (repos a) h = repos_action-IsConsistent s a h
repos_reducer-IsConsistent s (location_change pathname) h = refl
repos_reducer-IsConsistent s _ h = h
