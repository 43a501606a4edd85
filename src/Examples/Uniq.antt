-- ===== src/Examples/Uniq.antt =====
-- A function with the documented behaviour of `uniqBy(items, "id")`.
use installer.Common.{
  String, false, not, ◌&&◌, List, [], ◌∷◌, ◌≡◌, refl, arith, eq_iff, ◌==◌, if◌then◌else◌,
}
use installer.Types.{Chart}
use installer.Reducers.Charts.Pages.{has_id, IsUnique, IsUniqBy}

unfoldable pub without_id : String → List Chart → List Chart
without_id id [] = []
without_id id (c ∷ cs) = let rest = without_id id cs in if c.id == id then rest else c ∷ rest

unfoldable pub uniq_by_id : List Chart → List Chart
unfolding without_id
uniq_by_id [] = []
uniq_by_id (c ∷ cs) = c ∷ without_id c.id (uniq_by_id cs)

has_id-without_id :
    (i j : String) (cs : List Chart) → has_id j (without_id i cs) ≡ (has_id j cs && not (i == j))
unfolding without_id
has_id-without_id i j [] = refl
has_id-without_id i j (c ∷ cs) =
    ground (arith, has_id-without_id i j cs, eq_iff c.id i, eq_iff c.id j, eq_iff i j)

without_id-absent : (i : String) (cs : List Chart) → has_id i cs ≡ false → without_id i cs ≡ cs
unfolding without_id
without_id-absent i [] h = refl
without_id-absent i (c ∷ cs) h = ground (arith, h, without_id-absent i cs)

without_id-IsUnique : (i : String) (cs : List Chart) → IsUnique cs → IsUnique (without_id i cs)
unfolding without_id
without_id-IsUnique i [] h = tt
without_id-IsUnique i (c ∷ cs) h =
    ground (arith, h, without_id-IsUnique i cs, has_id-without_id i c.id cs)

uniq_by_id-IsUnique : (cs : List Chart) → IsUnique (uniq_by_id cs)
unfolding uniq_by_id
uniq_by_id-IsUnique [] = tt
uniq_by_id-IsUnique (c ∷ cs) = (
  ground (arith, has_id-without_id c.id c.id (uniq_by_id cs), eq_iff c.id c.id),
  without_id-IsUnique c.id (uniq_by_id cs) (uniq_by_id-IsUnique cs),
)

has_id-uniq_by_id : (cs : List Chart) (id : String) → has_id id (uniq_by_id cs) ≡ has_id id cs
unfolding uniq_by_id
has_id-uniq_by_id [] id = refl
has_id-uniq_by_id (c ∷ cs) id =
    ground (arith, has_id-without_id c.id id (uniq_by_id cs), has_id-uniq_by_id cs id)

uniq_by_id-kept : (cs : List Chart) → IsUnique cs → uniq_by_id cs ≡ cs
unfolding uniq_by_id
uniq_by_id-kept [] h = refl
uniq_by_id-kept (c ∷ cs) h = ground (arith, uniq_by_id-kept cs h.1, without_id-absent c.id cs h.0)

pub uniq_by_id-IsUniqBy : IsUniqBy uniq_by_id
uniq_by_id-IsUniqBy = record {
  unique = uniq_by_id-IsUnique;
  same_ids = has_id-uniq_by_id;
  kept = uniq_by_id-kept;
}
