-- ===== src/Views/OperatorForm.antt =====
-- dashboard/src/components/OperatorNew/OperatorNew.tsx: the form that installs an operator.
pub mod Modes
use installer.Common.{
  String, Bool, true, false, not, ◌&&◌, Option, none, some, List, [], ◌∷◌, if◌then◌else◌, ◌==◌,
  find,
}
use installer.Shared.Url.App.{operators_list}
use installer.Client.Page.{Run, pure, ◌>>=◌}
use installer.Client.Platform.{Platform}
use installer.Thunks.Olm.{create_operator}

pub record InstallMode : Type 0 where
  pub supported : Bool
  pub type_of : String

-- `IPackageManifestChannel`, with the install modes of its description.
pub record PackageManifestChannel : Type 0 where
  pub name : String
  pub current_csv : String
  pub install_modes : List InstallMode

-- `IPackageManifest`, with the name of its metadata and its status.
pub record PackageManifest : Type 0 where
  pub name : String
  pub default_channel : String
  pub channels : List PackageManifestChannel

abbrev pub channel_named : String → List PackageManifestChannel → Option PackageManifestChannel
channel_named name channels = find (λ ch. ch.name == name) channels

-- `Operators.getDefaultChannel`
unfoldable pub get_default_channel : PackageManifest → Option PackageManifestChannel
get_default_channel operator = channel_named operator.default_channel operator.channels

abbrev supported_by : Option InstallMode → Bool
supported_by none = false
supported_by (some m) = m.supported

-- `Operators.global`
unfoldable pub global : Option PackageManifestChannel → Bool
global none = false
global (some ch) = supported_by (find (λ m. m.type_of == "AllNamespaces") ch.install_modes)

-- What `useState` keeps.
pub record OperatorForm : Type 0 where
  pub update_channel : Option PackageManifestChannel
  pub update_channel_global : Bool
  pub installation_mode_global : Bool
  pub approval_strategy_automatic : Bool

unfoldable pub blank_operator_form : OperatorForm
blank_operator_form = record {
  update_channel = none;
  update_channel_global = false;
  installation_mode_global = false;
  approval_strategy_automatic = true;
}

-- What the effect on the operator and `selectChannel` set.
unfoldable pub use_channel : Option PackageManifestChannel → OperatorForm → OperatorForm
unfolding global
use_channel ch f = record f {
  update_channel = ch;
  update_channel_global = global ch;
  installation_mode_global = global ch;
}

unfoldable pub load_operator : PackageManifest → OperatorForm → OperatorForm
unfolding use_channel get_default_channel
load_operator operator f = use_channel (get_default_channel operator) f

unfoldable pub select_channel : PackageManifest → (channel : String) → OperatorForm → OperatorForm
unfolding use_channel
select_channel operator channel f = use_channel (channel_named channel operator.channels) f

unfoldable pub set_installation_mode : Bool → OperatorForm → OperatorForm
set_installation_mode g f = record f { installation_mode_global = g }

unfoldable pub set_approval_strategy : Bool → OperatorForm → OperatorForm
set_approval_strategy automatic f = record f { approval_strategy_automatic = automatic }

-- Whether the button is disabled.
unfoldable pub disable_install : (namespace : String) → OperatorForm → Bool
disable_install namespace f = namespace == "operators" && not f.update_channel_global

unfoldable pub target_ns : (namespace : String) → OperatorForm → String
target_ns namespace f = if f.installation_mode_global then "operators" else namespace

-- `handleDeploy` of a form with a channel: the address that is pushed, if any.
unfoldable pub handle_deploy :
    (x : Platform) (uri cluster namespace : String)
    → PackageManifest
    → PackageManifestChannel
    → OperatorForm
    → Run (Option String)
unfolding target_ns create_operator operators_list
handle_deploy x uri cluster namespace operator channel f = do
  deployed ←
      create_operator x uri cluster (target_ns namespace f) operator.name channel.name
        (if f.approval_strategy_automatic then "Automatic" else "Manual") channel.current_csv
  pure (if deployed then some (operators_list cluster namespace) else none)
