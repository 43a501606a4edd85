-- ===== src/Examples/Pages.antt =====
-- Examples for the pages of the catalog.
use installer.Common.{ℕ, String, true, [], ◌∷◌, ◌≡◌, refl, arith, eq_iff}
use installer.Common.Result.{Result, ok}
use installer.Types.{JsError}
use installer.Client.Platform.{ChartsPage}
use installer.Reducers.Charts as Charts
use installer.Reducers.Charts.{charts_reducer}
use installer.Reducers.Charts.Pages.{has_id}
use installer.Views.Catalog.Paging.{
  CatalogSetting, CatalogState, search, answer, step, open_catalog, blank, observe, change_query,
  fetch_page,
}
use installer.Views.Catalog.Paging.Races.{late-answer, Ended, scrolls, late_page-Ended}
use installer.Examples.Data.{chart}
use installer.Examples.Uniq.{uniq_by_id, uniq_by_id-IsUniqBy}

-- Every search has two pages; a chart is called as the search.
abbrev answers : String → ℕ → Result JsError ChartsPage
answers q n = ok (record { charts = chart q ∷ []; total_pages = 2 })

abbrev setting : CatalogSetting
setting = record { uniq_by_id = uniq_by_id; shows_charts = true; server = answers }

abbrev start : CatalogState
start = open_catalog setting "web" "web" Charts.initial_state

-- The catalog is opened with a repository in the address: the charts of all of them come first.
abbrev with_repo : CatalogState
with_repo = open_catalog setting "all" "repo" Charts.initial_state

late-answer_example :
    ((step setting (step setting start (search "db")) (answer 0)).query ≡ "db")
    × (has_id "web" (step setting (step setting start (search "db")) (answer 0)).charts.items
        ≡ true)
unfolding open_catalog change_query observe fetch_page charts_reducer step
late-answer_example =
    late-answer setting uniq_by_id-IsUniqBy start "db" (record { query = "web"; page = 1 }) []
      (record { charts = chart "web" ∷ []; total_pages = 2 }) "web"
      (ground (arith, eq_iff "db" "web")) refl refl refl

abbrev third : CatalogState
third = record (blank "web" Charts.initial_state) { page = 3 }

late_page-Ended_example : Ended setting (
    scrolls setting 1
      (step setting (step setting (step setting third (search "db")) (answer 1)) (answer 0)))
late_page-Ended_example =
    late_page-Ended setting 1 third "db" (record { charts = chart "db" ∷ []; total_pages = 2 })
      (record { charts = chart "db" ∷ []; total_pages = 2 }) (ground (arith, eq_iff "db" "web"))
      refl refl refl refl refl
