-- ===== src/Views/OperatorForm/Modes.antt =====
-- dashboard/src/components/OperatorNew/OperatorNew.tsx: where an operator is installed.
use mathlib.Core.Path.{subst}
use installer.Common.{
  sym, String, Bool, true, false, some, List, [], ◌∷◌, ◌≡◌, refl, arith, ◌==◌, eq_iff, Bool-cases,
  inl, inr,
}
use installer.Views.OperatorForm.{
  PackageManifestChannel, PackageManifest, channel_named, get_default_channel, global, OperatorForm,
  blank_operator_form, use_channel, load_operator, select_channel, set_installation_mode,
  set_approval_strategy, disable_install, target_ns,
}

-- The form as the user can bring it about: the operator was loaded, and the radio button of the global
-- mode is disabled unless the channel supports it.
pub data Chosen (operator : PackageManifest) : OperatorForm → Type 0 where
  loaded : Chosen operator (load_operator operator blank_operator_form)
  channel :
      {f : OperatorForm} (name : String)
      → Chosen operator f
      → Chosen operator (select_channel operator name f)
  namespaced :
      {f : OperatorForm} → Chosen operator f → Chosen operator (set_installation_mode false f)
  everywhere :
      {f : OperatorForm}
      → Chosen operator f
      → f.update_channel_global ≡ true
      → Chosen operator (set_installation_mode true f)
  approval :
      {f : OperatorForm} (automatic : Bool)
      → Chosen operator f
      → Chosen operator (set_approval_strategy automatic f)

-- The channel is one of the operator, found by its name, and the modes are those of the channel.
pub record IsAllowed (operator : PackageManifest) (f : OperatorForm) : Type 0 where
  pub from_operator :
      (ch : PackageManifestChannel)
      → f.update_channel ≡ some ch
      → channel_named ch.name operator.channels ≡ some ch
  pub mode_of_channel : f.update_channel_global ≡ global f.update_channel
  pub supported : f.installation_mode_global ≡ true → f.update_channel_global ≡ true

found_name :
    (name : String) (channels : List PackageManifestChannel) (ch : PackageManifestChannel)
    → channel_named name channels ≡ some ch
    → ch.name ≡ name
found_name name [] ch h = cc
found_name name (c ∷ channels) ch h = elim (Bool-cases (c.name == name)) [
  | inl here ↦ ground (arith, h, here, eq_iff c.name name)
  | inr later ↦ found_name name channels ch (ground (arith, h, later))
]

channel_named_lem :
    (name : String) (channels : List PackageManifestChannel) (ch : PackageManifestChannel)
    → channel_named name channels ≡ some ch
    → channel_named ch.name channels ≡ some ch
channel_named_lem name channels ch h =
    subst (λ (n : String). channel_named n channels ≡ some ch) (sym (found_name name channels ch h))
      h

use_channel-IsAllowed :
    (operator : PackageManifest) (name : String) (f : OperatorForm)
    → IsAllowed operator (use_channel (channel_named name operator.channels) f)
unfolding use_channel
use_channel-IsAllowed operator name f = record {
  from_operator = λ ch h. channel_named_lem name operator.channels ch h;
  mode_of_channel = refl;
  supported = λ h. h;
}

Chosen-IsAllowed :
    (operator : PackageManifest) {f : OperatorForm} → Chosen operator f → IsAllowed operator f
unfolding load_operator get_default_channel select_channel set_installation_mode
    set_approval_strategy
Chosen-IsAllowed operator loaded =
    use_channel-IsAllowed operator operator.default_channel blank_operator_form
Chosen-IsAllowed operator (channel {f} name before) = use_channel-IsAllowed operator name f
Chosen-IsAllowed operator (namespaced before) =
    let h = Chosen-IsAllowed operator before in
    record {
      from_operator = h.from_operator;
      mode_of_channel = h.mode_of_channel;
      supported = λ e. cc;
    }
Chosen-IsAllowed operator (everywhere before allowed) =
    let h = Chosen-IsAllowed operator before in
    record {
      from_operator = h.from_operator;
      mode_of_channel = h.mode_of_channel;
      supported = λ e. allowed;
    }
Chosen-IsAllowed operator (approval automatic before) =
    let h = Chosen-IsAllowed operator before in
    record {
      from_operator = h.from_operator;
      mode_of_channel = h.mode_of_channel;
      supported = h.supported;
    }

-- Whatever the user chooses, an operator is installed in the namespace `operators` only from a channel
-- that supports all namespaces, where the button is not disabled; and the channel is the one of its
-- name in the manifest of the operator.
pub target_ns-operators :
    (operator : PackageManifest) (f : OperatorForm) (namespace : String)
    (ch : PackageManifestChannel)
    → Chosen operator f
    → f.update_channel ≡ some ch
    → disable_install namespace f ≡ false
    → target_ns namespace f ≡ "operators"
    → (global (some ch) ≡ true) × (channel_named ch.name operator.channels ≡ some ch)
unfolding disable_install target_ns
target_ns-operators operator f namespace ch chosen uses enabled target =
    let h = Chosen-IsAllowed operator chosen in
    let allowed : f.update_channel_global ≡ true = elim (Bool-cases f.installation_mode_global) [
      | inl everywhere' ↦ h.supported everywhere'
      | inr here ↦ ground (arith, here, enabled, target, eq_iff namespace "operators")
    ] in
    (ground (arith, allowed, h.mode_of_channel, uses), h.from_operator ch uses)
