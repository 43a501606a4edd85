-- ===== src/Views/Catalog/Paging/Fresh.antt =====
-- dashboard/src/components/Catalog/Catalog.tsx: for which queries the charts of the list were sent.
use installer.Views.Catalog.Paging.Waiting.{AllOwn}
use installer.Common.{ℕ, String, true, List, [], ◌∷◌, ◌≡◌, includes, ◌≢◌}
use installer.Common.Result.{ok}
use installer.Types.{ChartState}
use installer.Client.Platform.{ChartsPage}
use installer.Reducers.Charts.Pages.{has_id, IsUniqBy}
use installer.Views.Catalog.Paging.{
  CatalogSetting, CatalogState, search, scroll, retry, answer, blank, observe, change_query, step,
  open_catalog,
}

module _ (x : CatalogSetting) (uniq : IsUniqBy x.uniq_by_id) where
  -- A page of one of the queries, as the server answers it, has a chart of the id.
  abbrev pub Serves : List String → String → Type 0
  Serves qs id =
      (q : String) × (includes qs q ≡ true)
      × (n : ℕ) × (response : ChartsPage) × (x.server q n ≡ ok response)
      × (has_id id response.charts ≡ true)

  -- `old` are queries before the present one.
  pub record IsFresh (old : List String) (s : CatalogState) : Type 0 where
    pub pending : AllOwn (s.query ∷ old) s.pending
    pub items : (id : String) → has_id id s.charts.items ≡ true → Serves (s.query ∷ old) id

  -- What is reached from the opening of the page. A search while answers are outstanding leaves the
  -- query before it among those of which answers may come; a search when all are in leaves none.
  pub data Browsed : List String → CatalogState → Type 0 where
    opened : (q : String) (c : ChartState) → Browsed [] (open_catalog x q q c)
    opened_with_repos :
        (first q : String) (c : ChartState) → Browsed (first ∷ []) (open_catalog x first q c)
    searched :
        {old : List String} {s : CatalogState} (q : String)
        → Browsed old s
        → Browsed (s.query ∷ old) (step x s (search q))
    searched_when_quiet :
        {old : List String} {s : CatalogState} (q : String)
        → Browsed old s
        → q ≢ s.query
        → s.pending ≡ []
        → Browsed [] (step x s (search q))
    scrolled :
        {old : List String} {s : CatalogState} → Browsed old s → Browsed old (step x s scroll)
    retried : {old : List String} {s : CatalogState} → Browsed old s → Browsed old (step x s retry)
    answered :
        {old : List String} {s : CatalogState} (place : ℕ)
        → Browsed old s
        → Browsed old (step x s (answer place))

  first_fetch : String → ChartState → CatalogState
  first_fetch q c = observe x (change_query x q (blank q c))
