-- ===== src/Client/Endpoints/AppRepositories/Filter.antt =====
-- dashboard/src/shared/AppRepository.ts: the filter of a repository in the bodies of the requests.
use installer.Common.{none, Option-cases, inl, inr, ◌≡◌, refl}
use installer.Client.Http.{find_prop}
use installer.Client.Endpoints.AppRepositories.{RepoRequest, update_body, create_body}

-- The server reads the filter of a repository as `filterRule`: the body that creates a repository
-- has the filter there, and the body that updates it has none, whichever filter is set.
pub filter-update_body :
    (r : RepoRequest)
    → (find_prop "filterRule" (create_body r) ≡ r.filter)
      × (find_prop "filterRule" (update_body r) ≡ none)
      × (find_prop "filter" (update_body r) ≡ r.filter)
unfolding create_body update_body
filter-update_body r = elim (Option-cases r.filter) [
  | inl missing ↦ rw missing (refl, refl, refl)
  | inr (f, set) ↦ rw set (refl, refl, refl)
]
