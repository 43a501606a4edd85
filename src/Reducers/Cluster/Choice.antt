-- ===== src/Reducers/Cluster/Choice.antt =====
-- dashboard/src/shared/Namespace.ts: which namespace is chosen when the list of a cluster arrives.
use installer.Common.{
  String, true, some, List, [], ◌∷◌, ◌≡◌, ◌∙◌, ◌≢◌, ◌⊎◌, arith, eq_iff, truthy, or_empty, includes,
}
use installer.Common.Dict.{lookup, insert, lookup-insert_self, lookup-insert_ne}
use installer.Shared.Storage.{Storage, Externals, IsFaithful}
use installer.Shared.Auth.{get_auth_token, default_namespace_from_token}
use installer.Shared.Namespace.{
  choose, namespace_key, parse_stored_ns, get_stored_namespace, set_stored_namespace,
  get_current_namespace,
}

choose_cases :
    (current stored token : String) (available : List String)
    → (choose current stored token available ≡ current) × (truthy current ≡ true)
      ⊎ (includes available (choose current stored token available) ≡ true)
      ⊎ (available ≡ []) × (choose current stored token available ≡ "")
unfolding choose
choose_cases current stored token [] = ground arith
choose_cases current stored token (first ∷ rest) = ground (arith, eq_iff first first)

-- The namespace chosen when the list of a cluster arrives is the one that was selected, if there
-- was one; otherwise it is one of the list, or empty if the list is.
pub get_current_namespace_cases :
    (x : Externals) (storage : Storage) (cluster current : String) (available : List String)
    → (get_current_namespace x storage cluster current available ≡ current)
        × (truthy current ≡ true)
      ⊎ (includes available (get_current_namespace x storage cluster current available) ≡ true)
      ⊎ (available ≡ []) × (get_current_namespace x storage cluster current available ≡ "")
unfolding get_current_namespace
get_current_namespace_cases x storage cluster current available =
    choose_cases current (get_stored_namespace x cluster storage)
      (default_namespace_from_token x (or_empty (get_auth_token storage))) available

choose_stored :
    (stored token : String) (available : List String)
    → truthy stored ≡ true
    → includes available stored ≡ true
    → choose "" stored token available ≡ stored
unfolding choose
choose_stored stored token available h k = ground (arith, h, k)

module _ (x : Externals) (faithful : IsFaithful x) (storage : Storage) (cluster ns : String) where
  parse_stored_ns-set_stored_namespace :
      parse_stored_ns x (set_stored_namespace x cluster ns storage)
      ≡ insert cluster ns (parse_stored_ns x storage)
  unfolding parse_stored_ns set_stored_namespace
  parse_stored_ns-set_stored_namespace =
      let m = insert cluster ns (parse_stored_ns x storage) in
      ground (
        arith,
        lookup-insert_self namespace_key (x.stringify m) storage,
        faithful.stringify_not_empty m,
        faithful.parse-stringify m,
      )

  -- What was stored for a cluster is read back.
  pub get-set_stored_namespace :
      get_stored_namespace x cluster (set_stored_namespace x cluster ns storage) ≡ ns
  unfolding get_stored_namespace
  get-set_stored_namespace =
      rw (parse_stored_ns-set_stored_namespace, get_stored_namespace)
        (faithful.get_own _ cluster "" ns
          (lookup-insert_self cluster ns (parse_stored_ns x storage)))

  -- Once a namespace was stored for a cluster, and none is selected, it is the one that is chosen
  -- from every list that holds it, before the one of the token and the first of the list; and what
  -- is stored for another cluster stays. (`JSON` and lodash's `get` are assumed to do what is
  -- documented of them; the name is not empty, and `other` had the namespace `kept`.)
  pub get_current_namespace-set_stored :
      (available : List String) (other kept : String)
      → truthy ns ≡ true
      → includes available ns ≡ true
      → cluster ≢ other
      → lookup other (parse_stored_ns x storage) ≡ some kept
      → (get_current_namespace x (set_stored_namespace x cluster ns storage) cluster "" available
          ≡ ns)
        × (get_stored_namespace x other (set_stored_namespace x cluster ns storage) ≡ kept)
  unfolding get_current_namespace get_stored_namespace
  get_current_namespace-set_stored available other kept h k differ there = (
    rw get-set_stored_namespace (choose_stored ns _ available h k),
    rw (parse_stored_ns-set_stored_namespace, get_stored_namespace)
        (faithful.get_own _ other "" kept
          (lookup-insert_ne cluster other ns (parse_stored_ns x storage) differ ∙ there)),
  )
