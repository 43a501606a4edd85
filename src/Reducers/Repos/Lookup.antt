-- ===== src/Reducers/Repos/Lookup.antt =====
-- dashboard/src/reducers/repos.ts: repositories and secrets are found by name and namespace.
use installer.Common.{
  false, ◌&&◌, Option, some, List, [], ◌∷◌, ◌++◌, ◌≡◌, refl, arith, eq_iff, if◌then◌else◌, any,
  find, find_index, find_index-none, set-find_index, update_first, Option-cases, inl, inr,
  find_index-some, length, ap, suc,
}
use installer.Types.{ResourceMetadata, Secret, AppRepository}
use installer.Reducers.Repos.{same_name, put_secret, update_repos}

abbrev pub find_secret : ResourceMetadata → List Secret → Option Secret
find_secret m secrets = find (λ s. same_name s.metadata m) secrets

abbrev pub find_repo : ResourceMetadata → List AppRepository → Option AppRepository
find_repo m rs = find (λ r. same_name r.metadata m) rs

find-update_first :
    (m : ResourceMetadata) (secret : Secret) (secrets : List Secret)
    → find_secret m (update_first (λ s. same_name s.metadata secret.metadata) (λ _. secret) secrets)
      ≡ (if same_name secret.metadata m && any (λ s. same_name s.metadata secret.metadata) secrets
          then some secret
          else find_secret m secrets)
unfolding update_first
find-update_first m secret [] = ground arith
find-update_first m secret (s ∷ secrets) = ground (
  arith,
  find-update_first m secret secrets,
  eq_iff s.metadata.name secret.metadata.name,
  eq_iff s.metadata.namespace secret.metadata.namespace,
  eq_iff s.metadata.name m.name,
  eq_iff s.metadata.namespace m.namespace,
  eq_iff secret.metadata.name m.name,
  eq_iff secret.metadata.namespace m.namespace,
)

find-append_new :
    (m : ResourceMetadata) (secret : Secret) (secrets : List Secret)
    → any (λ s. same_name s.metadata secret.metadata) secrets ≡ false
    → find_secret m (secrets ++ secret ∷ [])
      ≡ (if same_name secret.metadata m then some secret else find_secret m secrets)
find-append_new m secret [] h = refl
find-append_new m secret (s ∷ secrets) h = ground (
  arith,
  h,
  find-append_new m secret secrets,
  eq_iff s.metadata.name secret.metadata.name,
  eq_iff s.metadata.namespace secret.metadata.namespace,
  eq_iff s.metadata.name m.name,
  eq_iff s.metadata.namespace m.namespace,
  eq_iff secret.metadata.name m.name,
  eq_iff secret.metadata.namespace m.namespace,
)

-- The secret that is received takes the place of the one with its name and namespace, or is added:
-- a search by name and namespace finds it, and every other secret is found as before.
pub find-put_secret :
    (m : ResourceMetadata) (secret : Secret) (secrets : List Secret)
    → find_secret m (put_secret secret secrets)
      ≡ (if same_name secret.metadata m then some secret else find_secret m secrets)
unfolding put_secret
find-put_secret m secret secrets =
    let p = λ (s : Secret). same_name s.metadata secret.metadata in
    elim (Option-cases (find_index p secrets)) [
      | inl new ↦
          rw (new, put_secret) (find-append_new m secret secrets (find_index-none p secrets new))
      | inr (i, old) ↦
          rw (old, put_secret)
            (rw (set-find_index p secrets i secret old) (
              rw (find-update_first m secret secrets)
                (rw (find_index-some p secrets i old) (ground arith))))
    ]

-- A repository that was updated takes the place of the ones with its name and namespace: a search
-- finds it exactly if one was there, every other repository is found as before, and none is added.
pub find-update_repos :
    (m : ResourceMetadata) (updated : AppRepository) (rs : List AppRepository)
    → (find_repo m (update_repos updated rs) ≡ (
        if same_name updated.metadata m && any (λ r. same_name r.metadata updated.metadata) rs
        then some updated
        else find_repo m rs))
      × (length (update_repos updated rs) ≡ length rs)
unfolding update_repos
find-update_repos m updated [] = (ground arith, refl)
find-update_repos m updated (r ∷ rs) = (
  ground (
    arith,
    (find-update_repos m updated rs).0,
    eq_iff r.metadata.name updated.metadata.name,
    eq_iff r.metadata.namespace updated.metadata.namespace,
    eq_iff r.metadata.name m.name,
    eq_iff r.metadata.namespace m.namespace,
    eq_iff updated.metadata.name m.name,
    eq_iff updated.metadata.namespace m.namespace,
  ),
  ap suc (find-update_repos m updated rs).1,
)
