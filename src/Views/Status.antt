-- ===== src/Views/Status.antt =====
-- dashboard/src/components/ApplicationStatus/ApplicationStatus.tsx, with `flattenResources` of
-- dashboard/src/shared/utils.ts and dashboard/src/components/AppView/helpers/index.ts: what is counted of
-- the workloads of a release. The API sends the numbers of replicas as numbers, or not at all.
use installer.Common.{ℕ, ◌+◌, String, Bool, Option, none, some, List, [], ◌∷◌, ◌++◌, map, any}
use installer.Common.Dict.{Dict, lookup}
use installer.Types.{Json, obj, num, str, Resource, KubeObject, KubeItem, ResourceRef, JsError}
use installer.Shared.Kube.{ref_url}
use installer.Client.Http.{find_prop}

-- A resource of a list, or a resource that came by itself.
pub data Found : Type 0 where
  entry : Resource → Found
  whole : KubeObject → Found

-- `isSomeResourceLoading`
unfoldable pub is_some_resource_loading : List KubeItem → Bool
is_some_resource_loading items = any (λ i. i.is_fetching) items

-- `flattenItemList`: an item that is missing is left out.
unfoldable pub flatten_item_list : List KubeItem → List Found
flatten_item_list [] = []
flatten_item_list (i ∷ rest) =
    let found = flatten_item_list rest in
    elim i.item [
      | none ↦ found
      | some o ↦ elim o.items [ some rs ↦ map entry rs ++ found | none ↦ whole o ∷ found ]
    ]

-- The element of an array of items: an entry of a list, with the flags of its list, or the item itself.
pub data FlatItem : Type 0 where
  listed : (is_fetching : Bool) → (error : Option JsError) → Resource → FlatItem
  alone : KubeItem → FlatItem

abbrev flatten_item : KubeItem → List FlatItem
flatten_item i = elim i.item [
  | none ↦ alone i ∷ []
  | some o ↦ elim o.items [
    | some rs ↦ map (λ r. listed i.is_fetching i.error r) rs
    | none ↦ alone i ∷ []
  ]
]

unfoldable pub flatten_resources : List ResourceRef → Dict KubeItem → List FlatItem
unfolding ref_url lookup
flatten_resources [] resources = []
flatten_resources (ref ∷ refs) resources =
    let rest = flatten_resources refs resources in
    elim (lookup (ref_url ref) resources) [ none ↦ rest | some i ↦ flatten_item i ++ rest ]

-- lodash's `get(w, path, 0)` on a number.
abbrev step_in : String → Option Json → Option Json
step_in k (some (obj ps)) = find_prop k ps
step_in k v = none

abbrev number_of : Option Json → ℕ
number_of (some (num n)) = n
number_of v = 0

abbrev number_at : (section key : String) → Json → ℕ
number_at section key v = number_of (step_in key (step_in section (some v)))

abbrev fields_of : Found → Json
fields_of (entry r) = r.rest
fields_of (whole o) = o.rest

abbrev text_of : Option Json → String
text_of (some (str s)) = s
text_of v = ""

abbrev name_of : Found → String
name_of (entry r) = r.metadata.name
name_of (whole o) = text_of (step_in "name" (step_in "metadata" (some o.rest)))

pub record Workload : Type 0 where
  pub replicas : ℕ
  pub ready_replicas : ℕ
  pub name : String
  pub type_of : String

pub record Counted : Type 0 where
  pub workloads : List Workload
  pub ready_pods : ℕ
  pub total_pods : ℕ

-- The inner loop: `ready` and `total` are the two paths.
unfoldable pub count_in :
    (ready total : String × String) (type_of : String) → List Found → Counted → Counted
count_in ready total type_of [] c = c
count_in ready total type_of (w ∷ ws) c =
    let r = number_at ready.0 ready.1 (fields_of w) in
    let t = number_at total.0 total.1 (fields_of w) in
    count_in ready total type_of ws (record {
      workloads =
          c.workloads
          ++ record { replicas = t; ready_replicas = r; name = name_of w; type_of = type_of } ∷ [];
      ready_pods = c.ready_pods + r;
      total_pods = c.total_pods + t;
    })

unfoldable pub count_all : (deployments statefulsets daemonsets : List KubeItem) → Counted
unfolding count_in flatten_item_list
count_all deployments statefulsets daemonsets =
    count_in ("status", "numberReady") ("status", "currentNumberScheduled") "daemonset"
      (flatten_item_list daemonsets)
      (count_in ("status", "readyReplicas") ("spec", "replicas") "statefulset"
        (flatten_item_list statefulsets)
        (count_in ("status", "availableReplicas") ("spec", "replicas") "deployment"
          (flatten_item_list deployments)
          (record { workloads = []; ready_pods = 0; total_pods = 0 })))
