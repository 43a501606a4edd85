-- ===== src/Reducers/Apps/UpdateInfo.antt =====
-- dashboard/src/reducers/apps.ts: which release of the list gets the information on its updates.
use installer.Common.{
  ℕ, zero, suc, String, Bool, true, false, some, List, [], ◌∷◌, ◌++◌, ◌≡◌, refl, arith, eq_iff,
  ◌==◌, any, find_index, get_elem?, update_first, Option-cases, inl, inr, sym, Bool-cases, ◌∙◌,
  find_index-none, update_first-none,
}
use installer.Types.{ChartUpdateInfo, AppOverview, AppState}
use installer.Actions.{receive_app_update_info, apps}
use installer.Reducers.Apps.{with_info, splice_info, update_overview, apps_reducer}

abbrev pub named : String → AppOverview → Bool
named release_name a = a.release_name == release_name

splice_info-cons :
    (info : ChartUpdateInfo) (i : ℕ) (x : AppOverview) (xs : List AppOverview)
    → splice_info info (suc i) (x ∷ xs) ≡ x ∷ splice_info info i xs
unfolding splice_info
splice_info-cons info i x xs = elim (Option-cases (get_elem? xs i)) [
  | inl missing ↦ ground (arith, missing)
  | inr (a, found) ↦ ground (arith, found)
]

splice_info-first :
    (name : String) (info : ChartUpdateInfo) (xs : List AppOverview) (i : ℕ)
    → find_index (named name) xs ≡ some i
    → splice_info info i xs ≡ update_first (named name) (with_info info) xs
unfolding splice_info find_index update_first
splice_info-first name info [] i h = absurd (ground (arith, h))
splice_info-first name info (x ∷ xs) zero h = ground (arith, h)
splice_info-first name info (x ∷ xs) (suc i) h =
    splice_info-cons info i x xs ∙ ground (arith, h, splice_info-first name info xs i)

-- Finding the index and rebuilding the array around it changes the first release with the name.
pub update_overview-eq-update_first :
    (name : String) (info : ChartUpdateInfo) (xs : List AppOverview)
    → update_overview name info xs ≡ update_first (named name) (with_info info) xs
unfolding update_overview
update_overview-eq-update_first name info xs = elim (Option-cases (find_index (named name) xs)) [
  | inl absent ↦
      rw (absent, update_overview)
        (sym (
          update_first-none (named name) (with_info info) xs
            (find_index-none (named name) xs absent)))
  | inr (i, found) ↦ rw (found, update_overview) (splice_info-first name info xs i found)
]

update_first-append :
    (name : String) (info : ChartUpdateInfo) (before : List AppOverview) (a : AppOverview)
    (after : List AppOverview)
    → any (named name) before ≡ false
    → named name a ≡ true
    → update_first (named name) (with_info info) (before ++ a ∷ after)
      ≡ before ++ with_info info a ∷ after
unfolding update_first
update_first-append name info [] a after h k = ground (arith, k)
update_first-append name info (x ∷ before) a after h k =
    ground (arith, h, update_first-append name info before a after)

update_first-twice :
    (name : String) (one two : ChartUpdateInfo) (xs : List AppOverview)
    → update_first (named name) (with_info two) (update_first (named name) (with_info one) xs)
      ≡ update_first (named name) (with_info two) xs
unfolding update_first
update_first-twice name one two [] = refl
update_first-twice name one two (x ∷ xs) = elim (Bool-cases (named name x)) [
  | inl here ↦ ground (arith, here)
  | inr later ↦ ground (arith, later, update_first-twice name one two xs)
]

-- The information on the updates of a release is written to the first release of the list with that
-- name. All others, releases of the same name in other namespaces among them, stay as they are, in
-- their order.
pub receive_app_update_info-first :
    (s : AppState) (name : String) (info : ChartUpdateInfo) (before : List AppOverview)
    (a : AppOverview) (after : List AppOverview)
    → s.list_overview ≡ some (before ++ a ∷ after)
    → any (named name) before ≡ false
    → a.release_name ≡ name
    → (apps_reducer s (apps (receive_app_update_info name info))).list_overview
      ≡ some (before ++ with_info info a ∷ after)
unfolding apps_reducer
receive_app_update_info-first s name info before a after h fresh same = ground (
  arith,
  h,
  update_overview-eq-update_first name info (before ++ a ∷ after),
  update_first-append name info before a after fresh ((eq_iff a.release_name name).1 same),
)

-- Information for a second release of the same name, in whatever namespace, overwrites that of the
-- first: after both arrived, the list is as if only the second had.
pub receive_app_update_info-overwrites :
    (s : AppState) (name : String) (one two : ChartUpdateInfo)
    → (apps_reducer
        (apps_reducer s (apps (receive_app_update_info name one)))
        (apps (receive_app_update_info name two))).list_overview
      ≡ (apps_reducer s (apps (receive_app_update_info name two))).list_overview
unfolding apps_reducer
receive_app_update_info-overwrites s name one two = elim (Option-cases s.list_overview) [
  | inl absent ↦ ground (arith, absent)
  | inr (xs, found) ↦ ground (
    arith,
    found,
    update_overview-eq-update_first name one xs,
    update_overview-eq-update_first name two (update_first (named name) (with_info one) xs),
    update_overview-eq-update_first name two xs,
    update_first-twice name one two xs,
  )
]
