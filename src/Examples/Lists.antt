-- ===== src/Examples/Lists.antt =====
-- Examples for the reducers of the applications, charts, repositories and operators.
use installer.Common.{some, List, [], ◌∷◌, ◌≡◌, update_first}
use installer.Types.{ChartState, AppState, AppOverview}
use installer.Reducers.Repos.{put_secret}
use installer.Reducers.Repos.Lookup.{find_secret, find-put_secret}
use installer.Reducers.Charts as Charts
use installer.Reducers.Charts.{charts_reducer}
use installer.Reducers.Apps as Apps
use installer.Reducers.Apps.{with_info, update_overview, apps_reducer}
use installer.Reducers.Apps.UpdateInfo.{update_overview-eq-update_first}
use installer.Examples.Data.{meta, secret, info, release, chart}

find-put_secret_example :
    find_secret (meta "a" "x") (put_secret (secret "b" "x") (secret "a" "x" ∷ []))
    ≡ some (secret "a" "x")
find-put_secret_example = find-put_secret (meta "a" "x") (secret "b" "x") (secret "a" "x" ∷ [])

abbrev two_pages : ChartState
two_pages = record Charts.initial_state { items = chart "repo/a" ∷ [] }

abbrev overview : List AppOverview
overview = release "db" "one" ∷ release "web" "one" ∷ release "web" "two" ∷ []

abbrev listed : AppState
listed = record Apps.initial_state { list_overview = some overview }

update_overview-eq-update_first_example :
    update_overview "web" (info "2.0.0") overview
    ≡ release "db" "one" ∷ with_info (info "2.0.0") (release "web" "one") ∷ release "web" "two" ∷ []
unfolding update_first
update_overview-eq-update_first_example =
    update_overview-eq-update_first "web" (info "2.0.0") overview
