-- ===== src/Reducers/Apps.antt =====
-- dashboard/src/reducers/apps.ts: the applications.
pub mod UpdateInfo
use installer.Common.{
  ℕ, suc, String, Bool, true, false, Option, none, some, List, [], ◌∷◌, ◌++◌, ◌==◌, if◌then◌else◌,
  find_index, get_elem?, take, drop,
}
use installer.Types.{ChartUpdateInfo, Release, AppOverview, AppState}
use installer.Actions.{
  AppsAction, request_apps, receive_apps, error_app, select_app, list_apps, receive_app_list,
  request_app_update_info, request_delete_app, receive_delete_app, request_deploy_app,
  receive_deploy_app, request_rollback_app, receive_rollback_app, receive_app_update_info, Action,
  apps, location_change,
}

unfoldable pub initial_state : AppState
initial_state = record {
  is_fetching = false;
  error = none;
  items = [];
  list_overview = none;
  selected = none;
}

abbrev pub with_info : ChartUpdateInfo → AppOverview → AppOverview
with_info info a = record a { update_info = some info }

-- `[...xs.slice(0, i), { ...xs[i], updateInfo }, ...xs.slice(i + 1)]`
unfoldable pub splice_info : ChartUpdateInfo → ℕ → List AppOverview → List AppOverview
splice_info info i xs = elim (get_elem? xs i) [
  | none ↦ take i xs ++ drop (suc i) xs
  | some a ↦ take i xs ++ with_info info a ∷ drop (suc i) xs
]

unfoldable pub update_overview :
    (release_name : String) → ChartUpdateInfo → List AppOverview → List AppOverview
unfolding splice_info find_index
update_overview release_name info xs = elim (find_index (λ a. a.release_name == release_name) xs) [
  | none ↦ xs
  | some i ↦ splice_info info i xs
]

unfoldable pub update_selected : (release_name : String) → ChartUpdateInfo → Release → Release
update_selected release_name info r =
    if r.name == release_name then record r { update_info = some info } else r

abbrev apply_to {ℓ} : {A : Type ℓ} → (A → A) → Option A → Option A
apply_to f none = none
apply_to f (some a) = some (f a)

unfoldable pub apps_action : AppState → AppsAction → AppState
unfolding update_overview update_selected
apps_action s request_apps = record s { is_fetching = true }
apps_action s (receive_apps rs) = record s { is_fetching = false; items = rs }
apps_action s (error_app e) = record s { is_fetching = false; error = some e }
apps_action s (select_app r) = record s { is_fetching = false; selected = some r }
apps_action s list_apps = record s { is_fetching = true }
apps_action s (receive_app_list xs) = record s { is_fetching = false; list_overview = some xs }
apps_action s request_app_update_info = record s { is_fetching = true }
apps_action s request_delete_app = record s { is_fetching = true }
apps_action s receive_delete_app = record s { is_fetching = false }
apps_action s request_deploy_app = record s { is_fetching = true }
apps_action s receive_deploy_app = record s { is_fetching = false }
apps_action s request_rollback_app = record s { is_fetching = true }
apps_action s receive_rollback_app = record s { is_fetching = false }
apps_action s (receive_app_update_info release_name info) = record s {
  is_fetching = false;
  list_overview = apply_to (update_overview release_name info) s.list_overview;
  selected = apply_to (update_selected release_name info) s.selected;
}
apps_action s _ = s

unfoldable pub apps_reducer : AppState → Action → AppState
unfolding apps_action
apps_reducer s (apps a) = apps_action s a
apps_reducer s (location_change pathname) = record s {
  error = none;
  is_fetching = false;
  selected = none;
}
apps_reducer s _ = s
