-- ===== src/Views/Application.antt =====
-- dashboard/src/components/AppView/AppView.tsx: the references to the resources of a release, read
-- from its manifest.
pub mod Places
pub mod Watches
use installer.Common.{
  String, Bool, false, Option, none, some, List, [], ◌∷◌, ◌++◌, map, if◌then◌else◌, ◌==◌,
}
use installer.Common.Dict.{Dict, lookup}
use installer.Actions.{Action, kube, close_watch_resource}
use installer.Types.{Resource, ResourceRef, Kind}
use installer.Shared.Kube.{resource_ref}

-- A document of a manifest: a resource, or a list of documents.
mutual
  pub data Document : Type 0 where
    single : Resource → Document
    listed : Documents → Document

  pub data Documents : Type 0 where
    no_documents : Documents
    and : Document → Documents → Documents

pub record AppViewResourceRefs : Type 0 where
  pub deployments : List ResourceRef
  pub statefulsets : List ResourceRef
  pub daemonsets : List ResourceRef
  pub services : List ResourceRef
  pub ingresses : List ResourceRef
  pub secrets : List ResourceRef
  pub other_resources : List ResourceRef

abbrev pub no_refs : AppViewResourceRefs
no_refs = record {
  deployments = [];
  statefulsets = [];
  daemonsets = [];
  services = [];
  ingresses = [];
  secrets = [];
  other_resources = [];
}

-- `assignWith(prev, new, (prev, newArray) => prev.concat(newArray))`
unfoldable pub merge : (prev new : AppViewResourceRefs) → AppViewResourceRefs
merge prev new = record {
  deployments = prev.deployments ++ new.deployments;
  statefulsets = prev.statefulsets ++ new.statefulsets;
  daemonsets = prev.daemonsets ++ new.daemonsets;
  services = prev.services ++ new.services;
  ingresses = prev.ingresses ++ new.ingresses;
  secrets = prev.secrets ++ new.secrets;
  other_resources = prev.other_resources ++ new.other_resources;
}

-- The `switch` on the kind: the reference is pushed to the list of its kind, or to the others.
unfoldable pub push_ref : (kind : String) → ResourceRef → AppViewResourceRefs → AppViewResourceRefs
push_ref kind ref acc =
    if kind == "Deployment"
    then record acc { deployments = acc.deployments ++ ref ∷ [] }
    else if kind == "StatefulSet"
    then record acc { statefulsets = acc.statefulsets ++ ref ∷ [] }
    else if kind == "DaemonSet"
    then record acc { daemonsets = acc.daemonsets ++ ref ∷ [] }
    else if kind == "Service"
    then record acc { services = acc.services ++ ref ∷ [] }
    else if kind == "Ingress"
    then record acc { ingresses = acc.ingresses ++ ref ∷ [] }
    else if kind == "Secret"
    then record acc { secrets = acc.secrets ++ ref ∷ [] }
    else record acc { other_resources = acc.other_resources ++ ref ∷ [] }

module _ (kinds : Dict Kind) (cluster release_namespace : String) where
  -- The reference to a resource. The plural of a kind that is not known is undefined, which an address
  -- shows as a text, and it is not namespaced.
  unfoldable pub ref_of : Resource → ResourceRef
  unfolding resource_ref
  ref_of r = elim (lookup r.kind kinds) [
    | none ↦ resource_ref r cluster "undefined" false release_namespace
    | some k ↦ resource_ref r cluster k.plural k.namespaced release_namespace
  ]

  -- The loop of `parseResources`, with the result so far.
  unfoldable pub parse_into : Documents → AppViewResourceRefs → AppViewResourceRefs
  unfolding ref_of push_ref merge
  parse_into no_documents acc = acc
  parse_into (and (listed ds) rest) acc = parse_into rest (merge acc (parse_into ds no_refs))
  parse_into (and (single r) rest) acc = parse_into rest (push_ref r.kind (ref_of r) acc)

  unfoldable pub parse_resources : Documents → AppViewResourceRefs
  unfolding parse_into
  parse_resources ds = parse_into ds no_refs

-- `Object.values(resourceRefs)`, joined: the lists stand in the order of the first state.
unfoldable pub all_refs : AppViewResourceRefs → List ResourceRef
all_refs rs =
    rs.ingresses
    ++ (rs.deployments
        ++ (rs.statefulsets
            ++ (rs.daemonsets ++ (rs.other_resources ++ (rs.services ++ rs.secrets)))))

-- What the effect's `cleanup` dispatches, when the page is left or the references change.
unfoldable pub cleanup : AppViewResourceRefs → List Action
unfolding all_refs
cleanup rs = map (λ ref. kube (close_watch_resource ref)) (all_refs rs)
