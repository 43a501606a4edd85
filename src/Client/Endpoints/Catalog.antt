-- ===== src/Client/Endpoints/Catalog.antt =====
-- dashboard/src/shared/Chart.ts: the endpoints of charts.
use installer.Common.{ℕ, String, Option, List}
use installer.Types.{Json, num, Chart, ChartCategory, ChartVersion}
use installer.Shared.Url.Api.{
  charts_list, charts_categories, charts_versions, charts_version, charts_asset, charts_filtered,
}
use installer.Client.Page.{Run}
use installer.Client.Platform.{
  any_reply, charts_page_reply, charts_reply, categories_reply, versions_reply, version_reply,
  text_reply, ChartsPage, Platform,
}
use installer.Client.Http.{request, get_at}

module _ (x : Platform) (uri : String) where
  unfoldable pub fetch_charts :
      (cluster namespace repos : String) (page size : ℕ) (query : String) → Run ChartsPage
  unfolding request charts_list
  fetch_charts cluster namespace repos page size query =
      get_at x uri charts_page_reply
        (charts_list (λ n. x.to_text (num n)) cluster namespace repos page size query)

  unfoldable pub fetch_chart_categories :
      (cluster namespace : String) → Run (Option (List ChartCategory))
  unfolding request charts_categories
  fetch_chart_categories cluster namespace =
      get_at x uri categories_reply (charts_categories cluster namespace)

  unfoldable pub fetch_chart_versions : (cluster namespace id : String) → Run (List ChartVersion)
  unfolding request charts_versions
  fetch_chart_versions cluster namespace id =
      get_at x uri versions_reply (charts_versions cluster namespace id)

  unfoldable pub get_chart_version :
      (cluster namespace id version : String) → Run (Option ChartVersion)
  unfolding request charts_version
  get_chart_version cluster namespace id version =
      get_at x uri version_reply (charts_version x.encode cluster namespace id version)

  unfoldable pub get_readme : (cluster namespace id version : String) → Run String
  unfolding request charts_asset
  get_readme cluster namespace id version =
      get_at x uri text_reply (charts_asset x.encode "README.md" cluster namespace id version)

  unfoldable pub get_values : (cluster namespace id version : String) → Run String
  unfolding request charts_asset
  get_values cluster namespace id version =
      get_at x uri text_reply (charts_asset x.encode "values.yaml" cluster namespace id version)

  unfoldable pub get_schema : (cluster namespace id version : String) → Run Json
  unfolding request charts_asset
  get_schema cluster namespace id version =
      get_at x uri any_reply
        (charts_asset x.encode "values.schema.json" cluster namespace id version)

  unfoldable pub list_with_filters :
      (cluster namespace name version app_version : String) → Run (List Chart)
  unfolding request charts_filtered
  list_with_filters cluster namespace name version app_version =
      get_at x uri charts_reply
        (charts_filtered x.encode cluster namespace name version app_version)
