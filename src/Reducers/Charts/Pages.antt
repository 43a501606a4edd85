-- ===== src/Reducers/Charts/Pages.antt =====
-- dashboard/src/reducers/charts.ts: the pages of the catalog that were received.
use installer.Common.{
  String, Bool, false, ◌||◌, List, [], ◌∷◌, ◌++◌, ◌≡◌, ◌==◌, any, any-append, ◌∙◌,
}
use installer.Types.{Chart, ReceiveChartsActionPayload, ChartState}
use installer.Actions.{ChartsAction, receive_charts, reset_request_charts, Action, charts}
use installer.Reducers.Charts.{charts_action, charts_reducer}

abbrev pub has_id : String → List Chart → Bool
has_id id cs = any (λ c. c.id == id) cs

-- No two charts have the same id.
abbrev pub IsUnique : List Chart → Type 0
IsUnique [] = Unit
IsUnique (c ∷ cs) = (has_id c.id cs ≡ false) × IsUnique cs

-- What is documented of lodash's `uniqBy(items, "id")`: no id occurs twice in its result, it has
-- the ids of its argument, and an argument in which no id occurs twice is its own result.
pub record IsUniqBy (uniq_by_id : List Chart → List Chart) : Type 0 where
  pub unique : (cs : List Chart) → IsUnique (uniq_by_id cs)
  pub same_ids : (cs : List Chart) (id : String) → has_id id (uniq_by_id cs) ≡ has_id id cs
  pub kept : (cs : List Chart) → IsUnique cs → uniq_by_id cs ≡ cs

module _ (uniq_by_id : List Chart → List Chart) (uniq : IsUniqBy uniq_by_id) where
  charts_action-IsUnique :
      (s : ChartState) (a : ChartsAction)
      → IsUnique s.items
      → IsUnique (charts_action uniq_by_id s a).items
  unfolding charts_action
  charts_action-IsUnique s (receive_charts payload) h = uniq.unique (s.items ++ payload.items)
  charts_action-IsUnique s reset_request_charts h = tt
  charts_action-IsUnique s _ h = h

  -- Whatever the action, no chart is listed twice after it if none was before. (lodash's `uniqBy` is
  -- assumed to do what is documented of it.)
  pub charts_reducer-IsUnique :
      (s : ChartState) (a : Action)
      → IsUnique s.items
      → IsUnique (charts_reducer uniq_by_id s a).items
  unfolding charts_reducer
  charts_reducer-IsUnique s (charts a) h = charts_action-IsUnique s a h
  charts_reducer-IsUnique s _ h = h

  -- A page adds its charts: afterwards exactly the charts are listed that were, and those of the
  -- page, whichever page it is and however often it was received.
  pub receive_charts-has_id :
      (s : ChartState) (payload : ReceiveChartsActionPayload) (id : String)
      → has_id id (charts_reducer uniq_by_id s (charts (receive_charts payload))).items
        ≡ (has_id id s.items || has_id id payload.items)
  unfolding charts_reducer
  receive_charts-has_id s payload id =
      uniq.same_ids (s.items ++ payload.items) id
      ∙ any-append (λ (c : Chart). c.id == id) s.items payload.items
