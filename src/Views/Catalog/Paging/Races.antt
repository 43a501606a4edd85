-- ===== src/Views/Catalog/Paging/Races.antt =====
-- dashboard/src/components/Catalog/Catalog.tsx: what answers do that arrive after the search was changed.
use installer.Common.{
  ℕ, zero, suc, String, Bool, true, false, ◌||◌, List, [], ◌∷◌, ◌++◌, ◌≡◌, refl, sym, ap, ◌∙◌, ◌≢◌,
  arith, eq_iff, ◌==◌, nat_eq, Bool-cases, any-append, inl, inr, leb,
}
use mathlib.Core.Path.{subst}
use installer.Common.Result.{ok}
use installer.Types.{Chart}
use installer.Client.Platform.{ChartsPage}
use installer.Reducers.Charts.{charts_action, charts_reducer}
use installer.Reducers.Charts.Pages.{has_id, IsUniqBy}
use installer.Views.Catalog.Paging.{
  PageRequest, CatalogSetting, CatalogState, search, scroll, answer, take_at, fetch_page, observe,
  change_query, increase_page, receive, step,
}

or_true : (b : Bool) → (b || true) ≡ true
or_true true = refl
or_true false = refl

module _ (x : CatalogSetting) where
  -- The state after a search of another query, before the effects that observe the answers.
  search_lem :
      (s : CatalogState) (q : String)
      → q ≢ s.query
      → step x s (search q) ≡ observe x (change_query x q s)
  unfolding step
  search_lem s q new = ground (arith, new, eq_iff q s.query)

  head_pending :
      (s : CatalogState) (q : String) (r : PageRequest) (rest : List PageRequest)
      → s.pending ≡ r ∷ rest
      → (more : List PageRequest) × ((observe x (change_query x q s)).pending ≡ r ∷ more)
        × ((observe x (change_query x q s)).query ≡ q)
  unfolding observe change_query fetch_page
  head_pending s q r rest first = elim (Bool-cases (nat_eq s.page 1)) [
    | inl one ↦ rw (one, change_query) (rw first (_, refl, refl))
    | inr other ↦ rw (other, change_query) (rw first (_, refl, refl))
  ]

  answer_lem :
      (s : CatalogState) (r : PageRequest) (rest : List PageRequest) (response : ChartsPage)
      → s.pending ≡ r ∷ rest
      → x.server r.query r.page ≡ ok response
      → ((step x s (answer 0)).query ≡ s.query)
        × ((step x s (answer 0)).charts.items ≡ x.uniq_by_id (s.charts.items ++ response.charts))
  unfolding step take_at receive observe charts_reducer charts_action
  answer_lem s r rest response first answered =
      rw (first, step) (rw (answered, receive) (refl, refl))

  -- An answer to the search before is not told from one to the present search: where a search is
  -- changed while an answer is outstanding, and that answer arrives next, its charts are listed for the
  -- new search. (lodash's `uniqBy` is assumed to do what is documented of it.)
  pub late-answer :
      IsUniqBy x.uniq_by_id
      → (s : CatalogState) (q : String) (r : PageRequest) (rest : List PageRequest)
        (response : ChartsPage) (id : String)
      → q ≢ s.query
      → s.pending ≡ r ∷ rest
      → x.server r.query r.page ≡ ok response
      → has_id id response.charts ≡ true
      → ((step x (step x s (search q)) (answer 0)).query ≡ q)
        × (has_id id (step x (step x s (search q)) (answer 0)).charts.items ≡ true)
  late-answer uniq s q r rest response id new first answered there =
      let t = observe x (change_query x q s) in
      let (more, waits, asks) = head_pending s q r rest first in
      let (same, items) = answer_lem t r more response waits answered in
      rw (search_lem s q new) (
        same ∙ asks,
        ap (has_id id) items
            ∙ uniq.same_ids (t.charts.items ++ response.charts) id
            ∙ any-append (λ (c : Chart). c.id == id) t.charts.items response.charts
            ∙ ap (λ (b : Bool). has_id id t.charts.items || b) there
            ∙ or_true (has_id id t.charts.items),
      )

  -- A list that ends at the first page: no request is outstanding, and none will be made by scrolling.
  pub record Ended (s : CatalogState) : Type 0 where
    pub first_page : s.page ≡ 1
    pub nothing_waits : s.pending ≡ []
    pub finished : s.charts.has_finished_fetching ≡ true

  scroll-Ended : (s : CatalogState) → Ended s → Ended (step x s scroll)
  unfolding step observe increase_page
  scroll-Ended s e =
      let same : increase_page x s ≡ s = ground (arith, e.finished) in
      subst (λ (t : CatalogState). Ended (observe x t)) (sym same)
        (record {
          first_page = e.first_page;
          nothing_waits = e.nothing_waits;
          finished = e.finished;
        })

  first_lem :
      (s : CatalogState) (q : String) (one last : ChartsPage)
      → q ≢ s.query
      → s.pending ≡ []
      → nat_eq s.page 1 ≡ false
      → x.server q 1 ≡ ok one
      → x.server q s.page ≡ ok last
      → leb last.total_pages s.page ≡ true
      → Ended (step x (step x (step x s (search q)) (answer 1)) (answer 0))
  unfolding step change_query fetch_page take_at receive observe charts_reducer charts_action
  first_lem s q one last new quiet later at_one at_last past = rw (search_lem s q new) (
      rw (later, change_query)
        (rw quiet (
          rw (at_one, receive)
            (rw (at_last, receive)
              (record { first_page = refl; nothing_waits = refl; finished = past })))))

  abbrev pub scrolls : ℕ → CatalogState → CatalogState
  scrolls zero s = s
  scrolls (suc n) s = scrolls n (step x s scroll)

  scrolls-Ended : (n : ℕ) (s : CatalogState) → Ended s → Ended (scrolls n s)
  scrolls-Ended zero s e = e
  scrolls-Ended (suc n) s e = scrolls-Ended n (step x s scroll) (scroll-Ended s e)

  -- A search that is changed on a later page asks for that page of the new search and for its first
  -- page. Where the first page is answered first, and the other is not before the last one, the list
  -- ends at the first page, however many pages the new search has: no request is outstanding, and
  -- however often the list is scrolled, none is made.
  pub late_page-Ended :
      (n : ℕ) (s : CatalogState) (q : String) (one last : ChartsPage)
      → q ≢ s.query
      → s.pending ≡ []
      → nat_eq s.page 1 ≡ false
      → x.server q 1 ≡ ok one
      → x.server q s.page ≡ ok last
      → leb last.total_pages s.page ≡ true
      → Ended (scrolls n (step x (step x (step x s (search q)) (answer 1)) (answer 0)))
  late_page-Ended n s q one last new quiet later at_one at_last past =
      scrolls-Ended n _ (first_lem s q one last new quiet later at_one at_last past)
