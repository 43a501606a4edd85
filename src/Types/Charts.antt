-- ===== src/Types/Charts.antt =====
-- dashboard/src/shared/types.ts: charts.
use installer.Common.{ℕ, Bool, String, Option, List}
use installer.Types.Values.{Json, JsError}

pub record Repo : Type 0 where
  pub namespace : String
  pub name : String
  pub url : String

pub record ChartCategory : Type 0 where
  pub name : String
  pub count : ℕ

pub record ChartVersionAttributes : Type 0 where
  pub version : String
  pub app_version : String
  pub created : String

pub record Maintainer : Type 0 where
  pub name : String
  pub email : Option String

pub record ChartAttributes : Type 0 where
  pub name : String
  pub description : String
  pub home : Option String
  pub icon : Option String
  pub keywords : List String
  pub maintainers : List Maintainer
  pub repo : Repo
  pub sources : List String
  pub category : String

-- `chart` is `relationships.chart.data`.
pub record ChartVersion : Type 0 where
  pub id : String
  pub attributes : ChartVersionAttributes
  pub chart : ChartAttributes

-- `latest_chart_version` is `relationships.latestChartVersion.data`.
pub record Chart : Type 0 where
  pub id : String
  pub attributes : ChartAttributes
  pub latest_chart_version : ChartVersionAttributes

-- The payload of `receiveCharts`.
pub record ReceiveChartsActionPayload : Type 0 where
  pub items : List Chart
  pub page : ℕ
  pub total_pages : ℕ

pub record ChartUpdateInfo : Type 0 where
  pub up_to_date : Bool
  pub chart_latest_version : String
  pub app_latest_version : String
  pub repository : Repo
  pub error : Option JsError

-- `IChartState["selected"]`
pub record SelectedChart : Type 0 where
  pub error : Option JsError
  pub version : Option ChartVersion
  pub versions : List ChartVersion
  pub readme : Option String
  pub readme_error : Option String
  pub values : Option String
  pub schema : Option Json

-- `IChartState["deployed"]`
pub record DeployedChart : Type 0 where
  pub chart_version : Option ChartVersion
  pub values : Option String
  pub schema : Option Json

pub record ChartState : Type 0 where
  pub is_fetching : Bool
  pub has_finished_fetching : Bool
  pub selected : SelectedChart
  pub deployed : DeployedChart
  pub items : List Chart
  pub categories : List ChartCategory
  pub size : ℕ
