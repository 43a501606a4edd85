-- ===== src/Reducers/Cluster/Names.antt =====
-- dashboard/src/reducers/cluster.ts: the list of namespaces when one more is received.
use installer.Common.{
  String, ◌||◌, none, some, List, [], ◌∷◌, ◌++◌, ◌≡◌, refl, arith, eq_iff, ◌==◌, includes,
  any-append, Bool-cases, inl, inr,
}
use installer.Common.Dict.{lookup, lookup-insert_self}
use installer.Common.Result.{ok}
use installer.Common.Sort.{sort, string_le, any-sort}
use installer.Reducers.Cluster.{ClusterState, ClustersState, receive_one, with_entry}

includes-received :
    (names : List String) (name other : String)
    → includes (sort string_le (names ++ name ∷ [])) other ≡ (includes names other || name == other)
includes-received names name other = ground (
  arith,
  any-sort string_le (λ (n : String). n == other) (names ++ name ∷ []),
  any-append (λ (n : String). n == other) names (name ∷ []),
)

-- When a namespace is received for a known cluster with the list `names`, its list afterwards holds
-- a name exactly if it was there before or is the one received.
pub receive_one-includes :
    (s : ClustersState) (cluster name : String) (c : ClusterState) (names : List String)
    → c.namespaces ≡ some names
    → lookup cluster s.clusters ≡ some c
    → (t : ClustersState) × (d : ClusterState) × (names' : List String) × (receive_one s cluster
          name
          (some c)
        ≡ ok t)
      × (lookup cluster t.clusters ≡ some d)
      × (d.namespaces ≡ some names')
      × ((other : String) → includes names' other ≡ (includes names other || name == other))
unfolding receive_one
receive_one-includes s cluster name c names h found =
    let sorted = sort string_le (names ++ name ∷ []) in
    let d = record c { namespaces = some sorted; error = none } in
    elim (Bool-cases (includes names name)) [
      | inl old ↦ (
        s,
        c,
        names,
        ground (arith, h, old),
        found,
        h,
        λ other. ground (arith, old, eq_iff name other),
      )
      | inr new ↦ (
        with_entry s cluster d,
        d,
        sorted,
        ground (arith, h, new),
        lookup-insert_self cluster d s.clusters,
        refl,
        includes-received names name,
      )
    ]
