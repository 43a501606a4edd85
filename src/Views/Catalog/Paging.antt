-- ===== src/Views/Catalog/Paging.antt =====
-- dashboard/src/components/Catalog/Catalog.tsx: the pages of charts that the catalog asks for while it
-- is scrolled, and what a change of the search does to them. `query` stands for what a request
-- depends on beside the page: the cluster, the namespace, the repositories and the search. The page
-- takes the search from the address when it renders, and the repositories in an effect after it: an
-- address that changes both is two changes of the query, one after the other.
pub mod Waiting
pub mod Fresh
pub mod Races
use installer.Common.{
  ℕ, zero, suc, ◌+◌, String, Bool, true, false, not, ◌&&◌, ◌||◌, Option, none, some, List, [], ◌∷◌,
  ◌++◌, if◌then◌else◌, ◌==◌, nat_eq, is_some,
}
use installer.Common.Result.{Result, ok, throw}
use installer.Types.{JsError, Chart, ChartState}
use installer.Actions.{
  ChartsAction, request_charts, receive_charts, reset_request_charts, error_chart,
  clear_error_chart, charts,
}
use installer.Client.Platform.{ChartsPage}
use installer.Reducers.Charts.{charts_reducer}

-- A request that was not answered yet.
pub record PageRequest : Type 0 where
  pub query : String
  pub page : ℕ

-- The page of the catalog, with the state of the reducer of the charts.
pub record CatalogState : Type 0 where
  pub query : String
  pub page : ℕ
  pub has_requested_first_page : Bool
  pub has_loaded_first_page : Bool
  pub charts : ChartState
  pub pending : List PageRequest

-- A new query in the address, the end of the list coming into view, the button that tries again, and
-- the answer to a request that waits, by its place.
pub data CatalogEvent : Type 0 where
  search : (query : String) → CatalogEvent
  scroll retry : CatalogEvent
  answer : (place : ℕ) → CatalogEvent

-- An element of a list, and the others.
unfoldable pub take_at {ℓ} : {A : Type ℓ} → ℕ → List A → Option (A × List A)
take_at i [] = none
take_at zero (x ∷ xs) = some (x, xs)
take_at (suc i) (x ∷ xs) = elim (take_at i xs) [ none ↦ none | some (y, rest) ↦ some (y, x ∷ rest) ]

abbrev pub blank : String → ChartState → CatalogState
blank q c = record {
  query = q;
  page = 1;
  has_requested_first_page = false;
  has_loaded_first_page = false;
  charts = c;
  pending = [];
}

-- lodash's `uniqBy(items, "id")`, whether charts are shown (no type is selected, or that of charts
-- is), and what the server answers to a query and a page.
pub record CatalogSetting : Type 0 where
  pub uniq_by_id : List Chart → List Chart
  pub shows_charts : Bool
  pub server : String → ℕ → Result JsError ChartsPage

module _ (x : CatalogSetting) where
  abbrev pub send_action : ChartsAction → CatalogState → CatalogState
  send_action a s = record s { charts = charts_reducer x.uniq_by_id s.charts (charts a) }

  -- `fetchCharts(cluster, namespace, reposFilter, page, size, searchFilter)`, up to its `await`.
  unfoldable pub fetch_page : ℕ → CatalogState → CatalogState
  unfolding charts_reducer
  fetch_page n s = record (send_action (request_charts (some n)) s) {
    pending = s.pending ++ record { query = s.query; page = n } ∷ [];
  }

  -- The effect on `isFetching`, after a render.
  unfoldable pub observe : CatalogState → CatalogState
  observe s = record s {
    has_requested_first_page = s.has_requested_first_page || s.charts.is_fetching;
    has_loaded_first_page =
        s.has_loaded_first_page || (s.has_requested_first_page && not s.charts.is_fetching);
  }

  -- The effects after a change of the query: the page that is shown is fetched, then the first page is
  -- chosen and the list is emptied; the first page is fetched where it was another one.
  unfoldable pub change_query : String → CatalogState → CatalogState
  unfolding fetch_page charts_reducer
  change_query q s =
      let fetched = fetch_page s.page (record s { query = q }) in
      let emptied = send_action reset_request_charts (record fetched { page = 1 }) in
      if nat_eq s.page 1 then emptied else fetch_page 1 emptied

  -- `setPageWithContext`, from the observer of the end of the list that the last render made; those of
  -- earlier renders, which the code does not disconnect, are left out.
  unfoldable pub increase_page : CatalogState → CatalogState
  unfolding fetch_page
  increase_page s =
      if x.shows_charts
        && (not s.charts.is_fetching
            && (not s.charts.has_finished_fetching && s.has_loaded_first_page))
      then (if is_some s.charts.selected.error
          then s
          else fetch_page (s.page + 1) (record s { page = s.page + 1 }))
      else s

  -- The rest of `fetchCharts`, after its `await`.
  unfoldable pub receive : PageRequest → CatalogState → CatalogState
  unfolding charts_reducer
  receive r s = elim (x.server r.query r.page) [
    | throw e ↦ send_action (error_chart e) s
    | ok response ↦
        send_action
          (receive_charts
            (record { items = response.charts; page = r.page; total_pages = response.total_pages }))
          s
  ]

  unfoldable pub force_retry : CatalogState → CatalogState
  unfolding fetch_page charts_reducer
  force_retry s = fetch_page s.page (send_action clear_error_chart s)

  unfoldable pub step : CatalogState → CatalogEvent → CatalogState
  unfolding change_query increase_page force_retry take_at receive observe
  step s (search q) = observe (if q == s.query then s else change_query q s)
  step s scroll = observe (increase_page s)
  step s retry = observe (force_retry s)
  step s (answer place) = elim (take_at place s.pending) [
    | none ↦ s
    | some (r, rest) ↦ observe (receive r (record s { pending = rest }))
  ]

  -- The page when it is opened: what was listed before is dropped, and the first page is fetched, for
  -- the query without repositories (`first`), as the filters are empty until an effect has set them,
  -- and then for that of the address.
  unfoldable pub open_catalog : (first query : String) → ChartState → CatalogState
  unfolding step change_query observe
  open_catalog first q c = step (observe (change_query first (blank first c))) (search q)
