-- ===== src/Views/OperatorInstance.antt =====
-- dashboard/src/components/OperatorInstance/OperatorInstance.tsx, with `fromCRD` of
-- dashboard/src/shared/ResourceRef.ts: the references to what the instance of an operator owns.
pub mod Addresses
use Prim.Native.String.{◌++◌}
use installer.Common.{String, Option, none, some, List, [], ◌∷◌}
use installer.Types.{Json, null, str, arr, obj, nil, cons, end, prop, Kind, Resource, ResourceRef}
use installer.Shared.Kube.{resource_ref}
use installer.Views.Application.{AppViewResourceRefs, no_refs, push_ref}

-- `ownerRef`
unfoldable pub owner_reference : Resource → Json
owner_reference r = obj (prop "name" (str r.metadata.name) (prop "kind" (str r.kind) end))

-- `fromCRD` of a resource of a definition, of which it reads the kind. The metadata are empty.
unfoldable pub from_crd :
    (kind : Kind) (cluster namespace : String) (owner : Json) (resource_kind : String) → ResourceRef
unfolding resource_ref
from_crd kind cluster namespace owner resource_kind =
    let resource : Resource = record {
      api_version = kind.api_version;
      kind = resource_kind;
      metadata = record { name = ""; namespace = ""; uid = ""; self_link = none; rest = null };
      rest = null;
    } in
    record (resource_ref resource cluster kind.plural kind.namespaced namespace) {
      filter = obj (prop "metadata" (obj (prop "ownerReferences" (arr (cons owner nil)) end)) end);
    }

module _ (kind : Kind) (cluster namespace : String) (resource : Resource) where
  -- The loop over `crd.resources`, given their kinds, with the result so far.
  unfoldable pub push_resources : List String → AppViewResourceRefs → AppViewResourceRefs
  unfolding push_ref from_crd owner_reference
  push_resources [] acc = acc
  push_resources (k ∷ ks) acc =
      push_resources ks
        (push_ref k (from_crd kind cluster namespace (owner_reference resource) k) acc)

  abbrev every_kind : List String
  every_kind = "Deployment" ∷ "Ingress" ∷ "StatefulSet" ∷ "DaemonSet" ∷ "Service" ∷ "Secret" ∷ []

  -- `parseResource`: a definition without resources stands for one of each kind.
  unfoldable pub parse_resource : (resources : Option (List String)) → AppViewResourceRefs
  unfolding push_resources
  parse_resource none = push_resources every_kind no_refs
  parse_resource (some ks) = push_resources ks no_refs

-- An icon, and `getIcon`: `placeholder` is the address of a picture of the page.
pub record CsvIcon : Type 0 where
  pub mediatype : String
  pub base64data : String

unfoldable pub get_icon : (placeholder : String) → Option (List CsvIcon) → String
get_icon placeholder none = placeholder
get_icon placeholder (some []) = placeholder
get_icon placeholder (some (i ∷ icons)) = "data:" ++ (i.mediatype ++ (";base64," ++ i.base64data))
