-- ===== src/Actions/Charts.antt =====
-- dashboard/src/actions/charts.ts: its actions.
use installer.Common.{ℕ, String, Option, List}
use installer.Types.{Json, JsError, ChartCategory, ChartVersion, ReceiveChartsActionPayload}

pub data ChartsAction : Type 0 where
  request_charts : Option ℕ → ChartsAction
  request_chart : ChartsAction
  receive_charts : ReceiveChartsActionPayload → ChartsAction
  request_charts_categories : ChartsAction
  receive_chart_categories : List ChartCategory → ChartsAction
  receive_chart_versions : List ChartVersion → ChartsAction
  error_chart : JsError → ChartsAction
  clear_error_chart : ChartsAction
  error_chart_catetories : JsError → ChartsAction
  select_chart_version : ChartVersion → Option String → Option Json → ChartsAction
  request_deployed_chart_version : ChartsAction
  receive_deployed_chart_version : ChartVersion → Option String → Option Json → ChartsAction
  reset_chart_version reset_request_charts : ChartsAction
  select_readme error_readme : String → ChartsAction
