-- ===== src/Examples/Operators.antt =====
-- Examples for the pages of the operators.
use Prim.Native.String.{◌++◌}
use installer.Common.{String, true, false, some, [], ◌∷◌, map, ◌≡◌, refl}
use installer.Common.Result.{ok}
use installer.Types.{Kind}
use installer.Shared.Url.App.{in_context}
use installer.Shared.Kube.{get_resource_url, ref_url}
use installer.Reducers.Cluster.{change_location}
use installer.Reducers.Cluster.Location.{visit, IsName}
use installer.Views.Application.Places.{Place, refs_at}
use installer.Views.OperatorForm.{
  PackageManifestChannel, PackageManifest, channel_named, global, OperatorForm, blank_operator_form,
  load_operator, select_channel, set_installation_mode, disable_install, target_ns,
}
use installer.Views.OperatorForm.Modes.{Chosen, loaded, channel, everywhere, target_ns-operators}
use installer.Views.ContextSelector.{change_context, change_context-change_location}
use installer.Views.OperatorInstance.{parse_resource}
use installer.Views.OperatorInstance.Addresses.{kinds_at, ref_at, parse_resource-ref_url}
use installer.Examples.Data.{resource}
use installer.Examples.Clusters.{two, dev-IsName}

abbrev alpha : PackageManifestChannel
alpha = record {
  name = "alpha";
  current_csv = "etcd.0.9.2";
  install_modes = record { supported = false; type_of = "AllNamespaces" } ∷ [];
}

abbrev stable : PackageManifestChannel
stable = record {
  name = "stable";
  current_csv = "etcd.0.9.4";
  install_modes = record { supported = true; type_of = "AllNamespaces" } ∷ [];
}

abbrev etcd : PackageManifest
etcd = record { name = "etcd"; default_channel = "alpha"; channels = alpha ∷ stable ∷ [] }

-- The user selects the channel that supports all namespaces, and installs everywhere.
abbrev chosen : OperatorForm
chosen =
    set_installation_mode true
      (select_channel etcd "stable" (load_operator etcd blank_operator_form))

chosen-Chosen : Chosen etcd chosen
unfolding select_channel load_operator set_installation_mode
    installer.Views.OperatorForm.use_channel global
chosen-Chosen = everywhere (channel "stable" loaded) refl

target_ns-operators_example :
    (global (some stable) ≡ true) × (channel_named "stable" (alpha ∷ stable ∷ []) ≡ some stable)
unfolding select_channel load_operator set_installation_mode
    installer.Views.OperatorForm.use_channel global disable_install target_ns
target_ns-operators_example =
    target_ns-operators etcd chosen "operators" stable chosen-Chosen refl refl refl

prod-IsName : IsName "prod"
prod-IsName = record { not_empty = refl; no_slash = refl }

change_context-change_location_example :
    (change_context "prod" "dev" (in_context "dev" "dev" ("/" ++ "apps"))
      ≡ some (in_context "prod" "dev" ("/" ++ "apps")))
    × (change_location two (in_context "prod" "dev" ("/" ++ "apps")) ≡ ok (visit two "prod" "dev"))
change_context-change_location_example =
    change_context-change_location two "dev" "dev" "prod" "dev" "apps" dev-IsName dev-IsName
      prod-IsName dev-IsName

abbrev clusters_kind : Kind
clusters_kind = record {
  api_version = "etcd.database.coreos.com/v1beta2";
  plural = "etcdclusters";
  namespaced = true;
}

parse_resource-ref_url_example :
    ((c : Place)
      → refs_at c (
          parse_resource clusters_kind "dev" "ns"
            (resource "example")
            (some ("Service" ∷ "Pod" ∷ [])))
        ≡ map
            (ref_at clusters_kind "dev" "ns" (resource "example"))
            (kinds_at c ("Service" ∷ "Pod" ∷ [])))
    × ((k : String)
        → ref_url (ref_at clusters_kind "dev" "ns" (resource "example") k)
          ≡ get_resource_url "dev" "etcd.database.coreos.com/v1beta2" "etcdclusters" true "ns" ""
              "")
parse_resource-ref_url_example =
    parse_resource-ref_url clusters_kind "dev" "ns" (resource "example") ("Service" ∷ "Pod" ∷ [])
