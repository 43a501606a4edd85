-- ===== src/Thunks/Olm.antt =====
-- dashboard/src/actions/operators.ts: its thunks. Names are sorted by their characters. The requests of
-- `getResources`, which the source makes at once, are made one after the other.
pub mod Names
pub mod Install
use Prim.Native.String.{◌++◌}
use installer.Common.{
  String, Bool, true, false, Option, none, some, List, [], ◌∷◌, map, find, ◌==◌, if◌then◌else◌,
}
use installer.Common.Sort.{sort, string_le}
use installer.Common.Text.{split_parts}
use installer.Types.{Json, JsError, error, Resource, ClusterServiceVersion, CustomDefinition}
use installer.Actions.{
  OperatorAction, checking_olm, olm_installed, error_olm_check, request_operators,
  receive_operators, request_operator, receive_operator, error_operators, request_csvs,
  receive_csvs, error_csvs, request_csv, receive_csv, creating_resource, resource_created,
  error_resource_create, updating_resource, resource_updated, error_resource_update,
  deleting_resource, resource_deleted, error_resource_delete, request_custom_resources,
  receive_custom_resources, error_custom_resource, request_custom_resource, receive_custom_resource,
  creating_operator, operator_created, error_operator_create, request_subscriptions,
  receive_subscriptions, error_subscription_list, operators,
}
use installer.Client.Page.{Run, pure, catch, dispatch, ◌>>=◌, ◌>>◌}
use installer.Client.Platform.{Platform}
use installer.Client.Http.{join}
use installer.Client.Endpoints.Olm as Endpoint

abbrev tell : OperatorAction → Run (Unit {0})
tell a = dispatch (operators a)

-- The frame of the thunks that return whether they succeeded.
abbrev pub attempt :
    {A : Type 0}
    → OperatorAction
    → (A → OperatorAction)
    → (JsError → OperatorAction)
    → Run A
    → Run Bool
attempt request success failure m = do
  tell request
  catch (do a ← m; tell (success a); pure true) (λ e. do tell (failure e); pure false)

abbrev pub name_le : Resource → Resource → Bool
name_le a b = string_le a.metadata.name b.metadata.name

abbrev pub csv_le : ClusterServiceVersion → ClusterServiceVersion → Bool
csv_le a b = name_le a.resource b.resource

-- The plural and the group of the name of a definition.
unfoldable pub parse_crd : (crd_name : String) → String × String
unfolding split_parts join
parse_crd crd_name = let (plural, rest) = split_parts b'.' crd_name in (plural, join "." rest)

abbrev pub api_version_of : CustomDefinition → String
api_version_of crd = (parse_crd crd.name).1 ++ ("/" ++ crd.version)

abbrev pub missing : (message : String) → Run (Unit {0})
missing message = tell (error_custom_resource (record { constructor = error; message = message }))

module _ (x : Platform) (uri : String) where
  unfoldable pub check_olm_installed : (cluster namespace : String) → Run Bool
  unfolding Endpoint.is_olm_installed
  check_olm_installed cluster namespace = do
    tell checking_olm
    catch
        (do
          installed ← Endpoint.is_olm_installed x uri cluster namespace
          (if installed then tell olm_installed else pure tt)
          pure installed)
        (λ e. do tell (error_olm_check e); pure false)

  unfoldable pub get_operators : (cluster namespace : String) → Run (Unit {0})
  unfolding Endpoint.get_operators
  get_operators cluster namespace = do
    tell request_operators
    catch
        (do
          found ← Endpoint.get_operators x uri cluster namespace
          tell (receive_operators (sort name_le found)))
        (λ e. tell (error_operators e))

  unfoldable pub get_operator : (cluster namespace operator_name : String) → Run (Unit {0})
  unfolding Endpoint.get_operator
  get_operator cluster namespace operator_name = do
    tell request_operator
    catch
        (do
          found ← Endpoint.get_operator x uri cluster namespace operator_name
          tell (receive_operator found))
        (λ e. tell (error_operators e))

  unfoldable pub get_csvs : (cluster namespace : String) → Run (List ClusterServiceVersion)
  unfolding Endpoint.get_csvs
  get_csvs cluster namespace = do
    tell request_csvs
    catch
        (do
          found ← Endpoint.get_csvs x uri cluster namespace
          tell (receive_csvs (map (λ c. c.resource) (sort csv_le found)))
          pure (sort csv_le found))
        (λ e. do tell (error_csvs e); pure [])

  unfoldable pub get_csv : (cluster namespace name : String) → Run (Option ClusterServiceVersion)
  unfolding Endpoint.get_csv
  get_csv cluster namespace name = do
    tell request_csv
    catch
        (do
          found ← Endpoint.get_csv x uri cluster namespace name
          tell (receive_csv found.resource)
          pure (some found))
        (λ e. do tell (error_csvs e); pure none)

  unfoldable pub create_resource :
      (cluster namespace api_version resource : String) → Json → Run Bool
  unfolding Endpoint.create_resource
  create_resource cluster namespace api_version resource body =
      attempt creating_resource resource_created error_resource_create
        (Endpoint.create_resource x uri cluster namespace api_version resource body)

  unfoldable pub delete_resource : (cluster namespace plural : String) → Resource → Run Bool
  unfolding Endpoint.delete_resource
  delete_resource cluster namespace plural r =
      attempt deleting_resource (λ answer. resource_deleted) error_resource_delete
        (Endpoint.delete_resource x uri cluster namespace r.api_version plural r.metadata.name)

  unfoldable pub update_resource :
      (cluster namespace api_version resource name : String) → Json → Run Bool
  unfolding Endpoint.update_resource
  update_resource cluster namespace api_version resource name body =
      attempt updating_resource resource_updated error_resource_update
        (Endpoint.update_resource x uri cluster namespace api_version resource name body)

  -- The resources of one definition; an error is reported, and stands for none.
  unfoldable pub list_owned : (cluster namespace : String) → CustomDefinition → Run (List Resource)
  unfolding Endpoint.list_resources parse_crd
  list_owned cluster namespace crd =
      catch
        (Endpoint.list_resources x uri cluster namespace (api_version_of crd)
          (parse_crd crd.name).0)
        (λ e. do tell (error_custom_resource e); pure [])

  unfoldable pub list_each :
      (cluster namespace : String) → List CustomDefinition → Run (List Resource)
  unfolding list_owned
  list_each cluster namespace [] = pure []
  list_each cluster namespace (crd ∷ crds) = do
    found ← list_owned cluster namespace crd
    rest ← list_each cluster namespace crds
    pure (mathlib.Core.List.◌++◌ found rest)

  abbrev owned_by : ClusterServiceVersion → List CustomDefinition
  owned_by csv = elim csv.owned [ none ↦ [] | some crds ↦ crds ]

  unfoldable pub list_all :
      (cluster namespace : String) → List ClusterServiceVersion → Run (List Resource)
  unfolding list_each
  list_all cluster namespace [] = pure []
  list_all cluster namespace (csv ∷ csvs) = do
    found ← list_each cluster namespace (owned_by csv)
    rest ← list_all cluster namespace csvs
    pure (mathlib.Core.List.◌++◌ found rest)

  unfoldable pub get_resources : (cluster namespace : String) → Run (List Resource)
  unfolding get_csvs list_all
  get_resources cluster namespace = do
    tell request_custom_resources
    csvs ← get_csvs cluster namespace
    resources ← list_all cluster namespace csvs
    tell (receive_custom_resources resources)
    pure resources

  abbrev fetch_custom :
      (cluster namespace resource_name : String) → CustomDefinition → Run (Unit {0})
  fetch_custom cluster namespace resource_name crd =
      catch
        (do
          found ←
              Endpoint.get_custom_resource x uri cluster namespace (api_version_of crd)
                (parse_crd crd.name).0 resource_name
          tell (receive_custom_resource found))
        (λ e. tell (error_custom_resource e))

  unfoldable pub get_resource :
      (cluster namespace csv_name crd_name resource_name : String) → Run (Unit {0})
  unfolding get_csv Endpoint.get_custom_resource parse_crd
  get_resource cluster namespace csv_name crd_name resource_name = do
    tell request_custom_resource
    csv ← get_csv cluster namespace csv_name
    elim csv [
      | none ↦ missing ("CSV " ++ (csv_name ++ (" not found in " ++ namespace)))
      | some found ↦ elim (find (λ c. c.name == crd_name) (owned_by found)) [
        | none ↦
            missing ("Not found a valid CRD definition for " ++ (csv_name ++ ("/" ++ crd_name)))
        | some crd ↦ fetch_custom cluster namespace resource_name crd
      ]
    ]

  unfoldable pub create_operator : (cluster namespace name channel approval csv : String) → Run Bool
  unfolding Endpoint.create_operator
  create_operator cluster namespace name channel approval csv =
      attempt creating_operator operator_created error_operator_create
        (Endpoint.create_operator x uri cluster namespace name channel approval csv)

  -- The global subscriptions, and those of the namespace if it is another.
  unfoldable pub all_subscriptions : (cluster namespace : String) → Run (List Resource)
  unfolding Endpoint.list_subscriptions
  all_subscriptions cluster namespace = do
    global ← Endpoint.list_subscriptions x uri cluster "operators"
    (if namespace == "operators" then pure global else (do
      own ← Endpoint.list_subscriptions x uri cluster namespace
      pure (mathlib.Core.List.◌++◌ global own)))

  unfoldable pub list_subscriptions : (cluster namespace : String) → Run Bool
  unfolding all_subscriptions
  list_subscriptions cluster namespace =
      attempt request_subscriptions receive_subscriptions error_subscription_list
        (all_subscriptions cluster namespace)
