-- ===== src/Reducers/Charts.antt =====
-- dashboard/src/reducers/charts.ts: the catalog of charts. `uniq_by_id` is lodash's
-- `uniqBy(items, "id")`.
pub mod Pages
use installer.Common.{ℕ, String, Bool, true, false, Option, none, some, List, [], ◌∷◌, ◌++◌, leb}
use installer.Types.{
  JsError, Chart, ChartVersion, SelectedChart, DeployedChart, ReceiveChartsActionPayload,
  ChartState,
}
use installer.Actions.{
  ChartsAction, request_charts, receive_charts, receive_chart_categories, receive_chart_versions,
  select_chart_version, request_deployed_chart_version, receive_deployed_chart_version,
  reset_request_charts, reset_chart_version, select_readme, error_readme, error_chart,
  clear_error_chart, error_chart_catetories, Action, charts,
}

abbrev pub initial_selected : SelectedChart
initial_selected = record {
  error = none;
  version = none;
  versions = [];
  readme = none;
  readme_error = none;
  values = none;
  schema = none;
}

abbrev pub nothing_deployed : DeployedChart
nothing_deployed = record { chart_version = none; values = none; schema = none }

unfoldable pub initial_state : ChartState
initial_state = record {
  is_fetching = false;
  has_finished_fetching = false;
  items = [];
  categories = [];
  selected = initial_selected;
  deployed = nothing_deployed;
  size = 20;
}

unfoldable pub charts_selected_reducer : SelectedChart → ChartsAction → SelectedChart
charts_selected_reducer s (select_chart_version version values schema) = record s {
  error = none;
  readme_error = none;
  version = some version;
  values = values;
  schema = schema;
}
charts_selected_reducer s (receive_chart_versions versions) = record s {
  error = none;
  versions = versions;
}
charts_selected_reducer s (select_readme readme) = record s {
  readme = some readme;
  readme_error = none;
}
charts_selected_reducer s (error_chart e) = record s { error = some e }
charts_selected_reducer s clear_error_chart = record s { error = none }
charts_selected_reducer s (error_readme message) = record s { readme_error = some message }
charts_selected_reducer s reset_chart_version = initial_selected
charts_selected_reducer s _ = s

-- The four actions that share a branch: the selection changes, and the loading flags are reset.
unfoldable pub reset_flags : ChartState → ChartsAction → ChartState
unfolding charts_selected_reducer
reset_flags s a = record s {
  is_fetching = false;
  has_finished_fetching = false;
  selected = charts_selected_reducer s.selected a;
}

module _ (uniq_by_id : List Chart → List Chart) where
  unfoldable pub charts_action : ChartState → ChartsAction → ChartState
  unfolding charts_selected_reducer reset_flags
  charts_action s (request_charts page) = record s { is_fetching = true }
  charts_action s (receive_charts payload) = record s {
    is_fetching = false;
    has_finished_fetching = leb payload.total_pages payload.page;
    items = uniq_by_id (s.items ++ payload.items);
  }
  charts_action s (receive_chart_categories categories) = record s { categories = categories }
  charts_action s (receive_chart_versions versions) = record s {
    is_fetching = false;
    selected = charts_selected_reducer s.selected (receive_chart_versions versions);
  }
  charts_action s (select_chart_version version values schema) = record s {
    is_fetching = false;
    selected = charts_selected_reducer s.selected (select_chart_version version values schema);
  }
  charts_action s request_deployed_chart_version = record s { deployed = nothing_deployed }
  charts_action s (receive_deployed_chart_version version values schema) = record s {
    is_fetching = false;
    deployed = record { chart_version = some version; values = values; schema = schema };
  }
  charts_action s reset_request_charts = record s { has_finished_fetching = false; items = [] }
  charts_action s reset_chart_version = reset_flags s reset_chart_version
  charts_action s (select_readme readme) = reset_flags s (select_readme readme)
  charts_action s (error_readme message) = reset_flags s (error_readme message)
  charts_action s (error_chart e) = reset_flags s (error_chart e)
  charts_action s clear_error_chart = record s {
    selected = charts_selected_reducer s.selected clear_error_chart;
  }
  charts_action s (error_chart_catetories e) = record s { is_fetching = false; categories = [] }
  charts_action s _ = s

  unfoldable pub charts_reducer : ChartState → Action → ChartState
  unfolding charts_action
  charts_reducer s (charts a) = charts_action s a
  charts_reducer s _ = s
