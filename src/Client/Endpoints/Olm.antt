-- ===== src/Client/Endpoints/Olm.antt =====
-- dashboard/src/shared/Operators.ts: the endpoints of operators.
use installer.Common.{
  String, Bool, Option, none, some, List, [], ◌∷◌, if◌then◌else◌, nat_eq, find, ◌==◌,
}
use installer.Types.{Json, str, obj, end, prop, Resource, ClusterServiceVersion, CustomDefinition}
use installer.Shared.Url.Api.{
  package_manifests, package_manifest, cluster_service_versions, cluster_service_version,
  operators_resources, operators_resource, operator_groups, subscriptions_url, subscription_url,
}
use installer.Client.Page.{Run, pure, ◌>>=◌, ◌>>◌}
use installer.Client.Platform.{
  any_reply, status_reply, resource_reply, resources_reply, csv_reply, csvs_reply, Platform,
}
use installer.Client.Http.{request, get_at, post_at, put_at, delete_at}
use installer.Client.Body.{texts}

-- The bodies of `createOperator` and `createOperatorGroupIfNotExists`.
unfoldable pub subscription_body : (namespace name channel approval csv : String) → Json
subscription_body namespace name channel approval csv = obj (
    prop "apiVersion" (str "operators.coreos.com/v1alpha1") (
      prop "kind" (str "Subscription") (
        prop "metadata" (obj (prop "name" (str name) (prop "namespace" (str namespace) end))) (
          prop "spec"
            (obj (
              prop "channel" (str channel) (
                prop "installPlanApproval" (str approval) (
                  prop "name" (str name) (
                    prop "source" (str "operatorhubio-catalog")
                      (prop "sourceNamespace" (str "olm") (prop "startingCSV" (str csv) end)))))))
            end))))

unfoldable pub operator_group_body : (namespace : String) → Json
operator_group_body namespace = obj (
    prop "apiVersion" (str "operators.coreos.com/v1") (
      prop "kind" (str "OperatorGroup") (
        prop "metadata"
          (obj (prop "generateName" (str "default-") (prop "namespace" (str namespace) end)))
          (prop "spec" (obj (prop "targetNamespaces" (texts (namespace ∷ [])) end)) end))))

-- `findOwnedKind`: a list that is missing or empty has no definition.
unfoldable pub find_owned_kind : ClusterServiceVersion → (kind : String) → Option CustomDefinition
find_owned_kind csv kind = elim csv.owned [
  | none ↦ none
  | some owned ↦ find (λ c. c.kind == kind) owned
]

module _ (x : Platform) (uri : String) where
  -- The reply is the status of the response.
  unfoldable pub is_olm_installed : (cluster namespace : String) → Run Bool
  unfolding request package_manifests
  is_olm_installed cluster namespace = do
    status ← get_at x uri status_reply (package_manifests cluster namespace)
    pure (nat_eq status 200)

  unfoldable pub get_operators : (cluster namespace : String) → Run (List Resource)
  unfolding request package_manifests
  get_operators cluster namespace =
      get_at x uri resources_reply (package_manifests cluster namespace)

  unfoldable pub get_operator : (cluster namespace name : String) → Run Resource
  unfolding request package_manifest
  get_operator cluster namespace name =
      get_at x uri resource_reply (package_manifest cluster namespace name)

  unfoldable pub get_csvs : (cluster namespace : String) → Run (List ClusterServiceVersion)
  unfolding request cluster_service_versions
  get_csvs cluster namespace = get_at x uri csvs_reply (cluster_service_versions cluster namespace)

  unfoldable pub get_csv : (cluster namespace name : String) → Run ClusterServiceVersion
  unfolding request cluster_service_version
  get_csv cluster namespace name =
      get_at x uri csv_reply (cluster_service_version cluster namespace name)

  unfoldable pub create_resource :
      (cluster namespace api_version resource : String) → Json → Run Resource
  unfolding request operators_resources
  create_resource cluster namespace api_version resource body =
      post_at x uri resource_reply (operators_resources cluster namespace api_version resource) body

  unfoldable pub list_resources :
      (cluster namespace api_version resource : String) → Run (List Resource)
  unfolding request operators_resources
  list_resources cluster namespace api_version resource =
      get_at x uri resources_reply (operators_resources cluster namespace api_version resource)

  unfoldable pub get_custom_resource :
      (cluster namespace api_version crd name : String) → Run Resource
  unfolding request operators_resource
  get_custom_resource cluster namespace api_version crd name =
      get_at x uri resource_reply (operators_resource cluster namespace api_version crd name)

  unfoldable pub delete_resource : (cluster namespace api_version plural name : String) → Run Json
  unfolding request operators_resource
  delete_resource cluster namespace api_version plural name =
      delete_at x uri any_reply (operators_resource cluster namespace api_version plural name)

  unfoldable pub update_resource :
      (cluster namespace api_version resource name : String) → Json → Run Resource
  unfolding request operators_resource
  update_resource cluster namespace api_version resource name body =
      put_at x uri resource_reply (operators_resource cluster namespace api_version resource name)
        body

  abbrev pub create_group_unless : (cluster namespace : String) → List Resource → Run (Unit {0})
  unfolding request operator_groups operator_group_body
  create_group_unless cluster namespace [] = do
    post_at x uri any_reply (operator_groups cluster namespace) (operator_group_body namespace)
    pure tt
  create_group_unless cluster namespace (group ∷ rest) = pure tt

  -- The group is created unless the namespace has one; `operators` always has.
  unfoldable pub create_operator_group_if_not_exists : (cluster namespace : String) → Run (Unit {0})
  unfolding request operator_groups operator_group_body
  create_operator_group_if_not_exists cluster namespace =
      if namespace == "operators" then pure tt else do
        groups ← get_at x uri resources_reply (operator_groups cluster namespace)
        create_group_unless cluster namespace groups

  unfoldable pub create_operator :
      (cluster namespace name channel approval csv : String) → Run Resource
  unfolding create_operator_group_if_not_exists request subscription_url subscription_body
  create_operator cluster namespace name channel approval csv = do
    create_operator_group_if_not_exists cluster namespace
    post_at x uri resource_reply (subscription_url cluster namespace name)
        (subscription_body namespace name channel approval csv)

  unfoldable pub list_subscriptions : (cluster namespace : String) → Run (List Resource)
  unfolding request subscriptions_url
  list_subscriptions cluster namespace =
      get_at x uri resources_reply (subscriptions_url cluster namespace)
