-- ===== src/Thunks/Releases.antt =====
-- dashboard/src/actions/apps.ts: its thunks. What is dispatched without being awaited runs to its end
-- where it starts.
pub mod Delivery
pub mod Settles
pub mod Latest
use Prim.Native.String.{◌++◌}
use installer.Common.{
  ℕ, String, Bool, true, false, ◌&&◌, ◌||◌, not, Option, none, some, List, [], ◌∷◌, map, any,
  length, leb, if◌then◌else◌, truthy,
}
use installer.Common.Result.{Result, ok, throw}
use installer.Common.Sort.{sort}
use installer.Types.{
  Json, JsError, ErrorClass, unprocessable_entity, fetch_error, create_error, upgrade_error,
  rollback_error, delete_error, Repo, Chart, ChartVersion, ChartUpdateInfo, Metadata, Release,
  AppOverview,
}
use installer.Actions.{
  AppsAction, request_apps, list_apps, receive_app_list, request_app_update_info,
  receive_app_update_info, request_delete_app, receive_delete_app, request_deploy_app,
  receive_deploy_app, request_upgrade_app, receive_upgrade_app, request_rollback_app,
  receive_rollback_app, error_app, select_app, apps,
}
use installer.Shared.Json.{falsy}
use installer.Reducers.Cluster.{key_of}
use installer.Client.Page.{Run, pure, raise, catch, detach, lift, dispatch, ◌>>=◌, ◌>>◌}
use installer.Client.Platform.{Platform}
use installer.Client.Http.{join}
use installer.Client.Endpoints.Catalog.{list_with_filters}
use installer.Client.Endpoints.Releases as Endpoint

-- `new FetchError(e.message)` and the like.
abbrev pub rewrapped : ErrorClass → JsError → JsError
rewrapped c e = record { constructor = c; message = e.message }

abbrev pub report : ErrorClass → JsError → Run (Unit {0})
report c e = dispatch (apps (error_app (rewrapped c e)))

-- The frame of the thunks that return whether they succeeded.
abbrev pub attempt : (request success : AppsAction) → ErrorClass → Run (Unit {0}) → Run Bool
attempt request success c m = do
  dispatch (apps request)
  catch (do m; dispatch (apps success); pure true) (λ e. do report c e; pure false)

abbrev pub no_info : ChartUpdateInfo
no_info = record {
  up_to_date = true;
  chart_latest_version = "";
  app_latest_version = "";
  repository = record { namespace = ""; name = ""; url = "" };
  error = none;
}

-- `e.instancePath` and `e.message` of each error of the schema.
unfoldable pub format_text : List (String × String) → String
unfolding join
format_text errors =
    "The given values don't match the required format. The following errors were found:\n"
    ++ join "\n" (map (λ e. "  - " ++ (e.0 ++ (": " ++ e.1))) errors)

module _ (x : Platform) where
  abbrev pub latest : Chart → String
  latest c = c.latest_chart_version.version

  -- `charts.sort((a, b) => semver.compare(...))`: the comparison throws on what is no version, and
  -- every element of a list of two or more is compared.
  unfoldable pub sort_charts : List Chart → Result JsError (List Chart)
  sort_charts cs =
      if leb 2 (length cs) && any (λ c. not (x.is_version (latest c))) cs
      then throw x.version_error
      else ok (sort (λ a b. x.version_le (latest a) (latest b)) cs)

  -- `semver.gte(current, latest)`
  unfoldable pub is_up_to_date : (current : Option String) → (latest : String) → Result JsError Bool
  is_up_to_date none l = throw x.version_error
  is_up_to_date (some v) l =
      if x.is_version v && x.is_version l then ok (x.version_le l v) else throw x.version_error

  -- The information that is made of the charts that were found.
  unfoldable pub update_info_of :
      (current : Option String) → List Chart → Result JsError ChartUpdateInfo
  unfolding sort_charts is_up_to_date
  update_info_of current cs = elim (sort_charts cs) [
    | throw e ↦ throw e
    | ok [] ↦ ok no_info
    | ok (c ∷ rest) ↦ elim (is_up_to_date current (latest c)) [
      | throw e ↦ throw e
      | ok b ↦ ok (record {
        up_to_date = b;
        chart_latest_version = latest c;
        app_latest_version = c.latest_chart_version.app_version;
        repository = c.attributes.repo;
        error = none;
      })
    ]
  ]

  -- `if (values && schema) { ... }`: the validation of the values.
  unfoldable pub check_values : (values : Option String) (schema : Option Json) → Run (Unit {0})
  unfolding format_text
  check_values (some values) (some schema) =
      if not (truthy values) || falsy schema then pure tt else do
        errors ← lift (x.validation_errors values schema)
        elim errors [
          | [] ↦ pure tt
          | e ∷ es ↦
              raise (record { constructor = unprocessable_entity; message = format_text (e ∷ es) })
        ]
  check_values values schema = pure tt

module _ (x : Platform) (uri : String) where
  unfoldable pub get_app : (cluster namespace release_name : String) → Run (Option Release)
  unfolding Endpoint.get_release
  get_app cluster namespace release_name = do
    dispatch (apps request_apps)
    catch
        (do
          app ← Endpoint.get_release x uri cluster namespace release_name
          dispatch (apps (select_app app))
          pure (some app))
        (λ e. do report fetch_error e; pure none)

  unfoldable pub get_app_update_info :
      (cluster namespace release_name : String)
      (chart_name current_version app_version : Option String)
      → Run (Unit {0})
  unfolding list_with_filters update_info_of
  get_app_update_info cluster namespace release_name chart_name current_version app_version = do
    dispatch (apps request_app_update_info)
    catch
        (do
          found ←
              list_with_filters x uri cluster namespace (key_of chart_name) (key_of current_version)
                (key_of app_version)
          info ← lift (update_info_of x current_version found)
          dispatch (apps (receive_app_update_info release_name info)))
        (λ e. dispatch (
          apps (
            receive_app_update_info release_name
              (record no_info { up_to_date = false; error = some e }))))

  -- The texts of a release's metadata, if all are there and not empty.
  abbrev given : Option String → Bool
  given none = false
  given (some s) = truthy s

  abbrev follow_up : (cluster namespace : String) → Option Release → Run (Unit {0})
  follow_up cluster namespace none = pure tt
  follow_up cluster namespace (some app) = elim app.metadata [
    | none ↦ pure tt
    | some m ↦
        if given m.name && (given m.version && given m.app_version)
        then detach (get_app_update_info cluster namespace app.name m.name m.version m.app_version)
        else pure tt
  ]

  unfoldable pub get_app_with_update_info :
      (cluster namespace release_name : String) → Run (Unit {0})
  unfolding get_app get_app_update_info
  get_app_with_update_info cluster namespace release_name =
      catch (do app ← get_app cluster namespace release_name; follow_up cluster namespace app)
        (report fetch_error)

  -- What `deleteApp`, `deployChart` and `upgradeApp` do in their `try`.
  abbrev pub delete_steps :
      (cluster namespace release_name : String) (purge : Bool) → Run (Unit {0})
  unfolding Endpoint.remove
  delete_steps cluster namespace release_name purge = do
    Endpoint.remove x uri cluster namespace release_name purge
    pure tt

  abbrev pub deploy_steps :
      (cluster namespace : String)
      → ChartVersion
      → (chart_namespace release_name : String) → (values : Option String) → (schema : Option Json)
      → Run (Unit {0})
  unfolding check_values Endpoint.create
  deploy_steps cluster namespace cv chart_namespace release_name values schema = do
    check_values x values schema
    Endpoint.create x uri cluster namespace release_name chart_namespace cv values
    pure tt

  abbrev pub upgrade_steps :
      (cluster namespace : String)
      → ChartVersion
      → (chart_namespace release_name : String) → (values : Option String) → (schema : Option Json)
      → Run (Unit {0})
  unfolding check_values Endpoint.upgrade
  upgrade_steps cluster namespace cv chart_namespace release_name values schema = do
    check_values x values schema
    Endpoint.upgrade x uri cluster namespace release_name chart_namespace cv values
    pure tt

  unfoldable pub delete_app : (cluster namespace release_name : String) (purge : Bool) → Run Bool
  delete_app cluster namespace release_name purge =
      attempt request_delete_app receive_delete_app delete_error
        (delete_steps cluster namespace release_name purge)

  unfoldable pub fetch_apps : (cluster ns : String) → Run (List AppOverview)
  unfolding Endpoint.list_apps
  fetch_apps cluster ns = do
    dispatch (apps list_apps)
    catch
        (do
          found ← Endpoint.list_apps x uri cluster ns
          dispatch (apps (receive_app_list found))
          pure found)
        (λ e. do report fetch_error e; pure [])

  unfoldable pub update_each : (cluster : String) → List AppOverview → Run (Unit {0})
  unfolding get_app_update_info
  update_each cluster [] = pure tt
  update_each cluster (a ∷ rest) = do
    detach (
        get_app_update_info cluster a.namespace a.release_name a.chart_metadata.name
          a.chart_metadata.version a.chart_metadata.app_version)
    update_each cluster rest

  unfoldable pub fetch_apps_with_update_info : (cluster namespace_or_all : String) → Run (Unit {0})
  unfolding fetch_apps update_each
  fetch_apps_with_update_info cluster namespace_or_all =
      catch (do found ← fetch_apps cluster namespace_or_all; update_each cluster found)
        (report fetch_error)

  unfoldable pub deploy_chart :
      (cluster namespace : String)
      → ChartVersion
      → (chart_namespace release_name : String) → (values : Option String) → (schema : Option Json)
      → Run Bool
  deploy_chart cluster namespace cv chart_namespace release_name values schema =
      attempt request_deploy_app receive_deploy_app create_error
        (deploy_steps cluster namespace cv chart_namespace release_name values schema)

  unfoldable pub upgrade_app :
      (cluster namespace : String)
      → ChartVersion
      → (chart_namespace release_name : String) → (values : Option String) → (schema : Option Json)
      → Run Bool
  upgrade_app cluster namespace cv chart_namespace release_name values schema =
      attempt request_upgrade_app receive_upgrade_app upgrade_error
        (upgrade_steps cluster namespace cv chart_namespace release_name values schema)

  unfoldable pub rollback_app : (cluster namespace release_name : String) (revision : ℕ) → Run Bool
  unfolding Endpoint.rollback get_app_with_update_info
  rollback_app cluster namespace release_name revision = do
    dispatch (apps request_rollback_app)
    catch
        (do
          Endpoint.rollback x uri cluster namespace release_name revision
          dispatch (apps receive_rollback_app)
          detach (get_app_with_update_info cluster namespace release_name)
          pure true)
        (λ e. do report rollback_error e; pure false)
