-- ===== src/Thunks/Catalog.antt =====
-- dashboard/src/actions/charts.ts: its thunks. The list of versions that is sorted is also the one
-- that was dispatched before; that the sort reorders it in the store too is not modelled.
use installer.Common.{
  ℕ, String, Bool, true, false, ◌&&◌, not, Option, none, some, List, [], ◌∷◌, any, find, length,
  leb, ◌==◌, if◌then◌else◌, truthy, or_empty,
}
use installer.Common.Result.{Result, ok, throw}
use installer.Common.Sort.{sort}
use installer.Types.{
  Json, obj, end, JsError, error, not_found_error, fetch_error, ChartCategory, ChartVersion,
}
use installer.Actions.{
  request_charts, request_chart, receive_charts, request_charts_categories,
  receive_chart_categories, receive_chart_versions, error_chart, error_chart_catetories,
  select_chart_version, request_deployed_chart_version, receive_deployed_chart_version,
  select_readme, error_readme, charts,
}
use installer.Client.Page.{Run, pure, raise, catch, lift, dispatch, ◌>>=◌, ◌>>◌}
use installer.Client.Platform.{Platform}
use installer.Client.Endpoints.Catalog as Endpoint
use installer.Thunks.Releases.{rewrapped}

abbrev pub report : JsError → Run (Unit {0})
report e = dispatch (charts (error_chart (rewrapped fetch_error e)))

abbrev pub is_not_found : JsError → Bool
is_not_found e = elim e.constructor [ not_found_error ↦ true | _ ↦ false ]

-- `chartVersion`, `values` and `schema`.
pub record FetchedChart : Type 0 where
  pub chart_version : Option ChartVersion
  pub values : String
  pub schema : Json

module _ (x : Platform) where
  abbrev pub version_of : ChartVersion → String
  version_of v = v.attributes.version

  -- `versions.sort((a, b) => semver.compare(b..., a...))`, the newest first.
  unfoldable pub sort_versions : List ChartVersion → Result JsError (List ChartVersion)
  sort_versions vs =
      if leb 2 (length vs) && any (λ v. not (x.is_version (version_of v))) vs
      then throw x.version_error
      else ok (sort (λ a b. x.version_le (version_of b) (version_of a)) vs)

  -- The version that is selected: the newest, or the one that was asked for.
  unfoldable pub choose_version :
      (version : Option String) → List ChartVersion → Result JsError (Option ChartVersion)
  unfolding sort_versions
  choose_version version vs = elim (sort_versions vs) [
    | throw e ↦ throw e
    | ok [] ↦ ok none
    | ok (newest ∷ rest) ↦
        if truthy (or_empty version)
        then elim (find (λ v. version_of v == or_empty version) (newest ∷ rest)) [
          | none ↦ throw (record { constructor = error; message = "could not find chart version" })
          | some found ↦ ok (some found)
        ]
        else ok (some newest)
  ]

abbrev select_chosen : Option ChartVersion → Run (Unit {0})
select_chosen none = pure tt
select_chosen (some v) = dispatch (charts (select_chart_version v none none))

module _ (x : Platform) (uri : String) where
  unfoldable pub fetch_charts :
      (cluster namespace repos : String) (page size : ℕ) (query : String) → Run (Unit {0})
  unfolding Endpoint.fetch_charts
  fetch_charts cluster namespace repos page size query = do
    dispatch (charts (request_charts (some page)))
    catch
        (do
          response ← Endpoint.fetch_charts x uri cluster namespace repos page size query
          dispatch (
              charts (
                receive_charts (record {
                  items = response.charts;
                  page = page;
                  total_pages = response.total_pages;
                }))))
        report

  abbrev receive_found : Option (List ChartCategory) → Run (Unit {0})
  receive_found none = pure tt
  receive_found (some found) = dispatch (charts (receive_chart_categories found))

  unfoldable pub fetch_chart_categories : (cluster namespace : String) → Run (Unit {0})
  unfolding Endpoint.fetch_chart_categories
  fetch_chart_categories cluster namespace = do
    dispatch (charts request_charts_categories)
    catch (do found ← Endpoint.fetch_chart_categories x uri cluster namespace; receive_found found)
        (λ e. dispatch (charts (error_chart_catetories (rewrapped fetch_error e))))

  -- The reply is a list, so that the test `if (versions)` always holds.
  unfoldable pub fetch_chart_versions : (cluster namespace id : String) → Run (List ChartVersion)
  unfolding Endpoint.fetch_chart_versions
  fetch_chart_versions cluster namespace id = do
    dispatch (charts (request_charts none))
    catch
        (do
          versions ← Endpoint.fetch_chart_versions x uri cluster namespace id
          dispatch (charts (receive_chart_versions versions))
          pure versions)
        (λ e. do report e; pure [])

  -- The values and the schema of a version that exists. An error other than `NotFoundError` is thrown
  -- again; what was read before it stays.
  abbrev keep_if_missing : FetchedChart → JsError → Run FetchedChart
  keep_if_missing c e = if is_not_found e then pure c else raise e

  unfoldable pub get_files :
      (cluster namespace id version : String) → FetchedChart → Run FetchedChart
  unfolding Endpoint.get_values Endpoint.get_schema
  get_files cluster namespace id version c p =
      let (r, q) = Endpoint.get_values x uri cluster namespace id version p in
      elim r [
        | throw e ↦ keep_if_missing c e q
        | ok values ↦
            catch
              (do
                schema ← Endpoint.get_schema x uri cluster namespace id version
                pure (record c { values = values; schema = schema }))
              (keep_if_missing (record c { values = values })) q
      ]

  unfoldable pub get_chart : (cluster namespace id version : String) → Run FetchedChart
  unfolding Endpoint.get_chart_version get_files
  get_chart cluster namespace id version = do
    found ← Endpoint.get_chart_version x uri cluster namespace id version
    let c : FetchedChart = record { chart_version = found; values = ""; schema = obj end }
    elim found [ none ↦ pure c | some v ↦ get_files cluster namespace id version c ]

  abbrev select_fetched : FetchedChart → Run (Unit {0})
  select_fetched c = elim c.chart_version [
    | none ↦ pure tt
    | some v ↦ dispatch (charts (select_chart_version v (some c.values) (some c.schema)))
  ]

  abbrev receive_fetched : FetchedChart → Run (Unit {0})
  receive_fetched c = elim c.chart_version [
    | none ↦ pure tt
    | some v ↦ dispatch (charts (receive_deployed_chart_version v (some c.values) (some c.schema)))
  ]

  unfoldable pub get_chart_version : (cluster namespace id version : String) → Run (Unit {0})
  unfolding get_chart
  get_chart_version cluster namespace id version =
      catch
        (do
          dispatch (charts request_chart)
          c ← get_chart cluster namespace id version
          select_fetched c)
        report

  unfoldable pub get_deployed_chart_version :
      (cluster namespace id version : String) → Run (Unit {0})
  unfolding get_chart
  get_deployed_chart_version cluster namespace id version =
      catch
        (do
          dispatch (charts request_deployed_chart_version)
          c ← get_chart cluster namespace id version
          receive_fetched c)
        report

  unfoldable pub fetch_chart_versions_and_select_version :
      (cluster namespace id : String) (version : Option String) → Run (Unit {0})
  unfolding fetch_chart_versions choose_version
  fetch_chart_versions_and_select_version cluster namespace id version = do
    versions ← fetch_chart_versions cluster namespace id
    chosen ← lift (choose_version x version versions)
    select_chosen chosen

  unfoldable pub get_chart_readme : (cluster namespace id version : String) → Run (Unit {0})
  unfolding Endpoint.get_readme
  get_chart_readme cluster namespace id version =
      catch
        (do
          readme ← Endpoint.get_readme x uri cluster namespace id version
          dispatch (charts (select_readme readme)))
        (λ e. dispatch (charts (error_readme (x.error_text e))))
