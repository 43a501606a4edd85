-- ===== src/Views/Application/Places.antt =====
-- dashboard/src/components/AppView/AppView.tsx: which list of references a resource goes to.
use mathlib.Core.Path.{subst}
use installer.Common.{
  String, Bool, true, false, not, ◌&&◌, List, [], ◌∷◌, ◌++◌, map, ◌≡◌, refl, ap, ◌∙◌, sym, arith,
  if◌then◌else◌, ◌==◌, Bool-cases, inl, inr, eq_iff,
}
use mathlib.Core.List.{append_assoc, append-nil}
use installer.Common.Dict.{Dict}
use installer.Types.{Resource, ResourceRef, Kind}
use installer.Views.Application.{
  Documents, single, listed, no_documents, and, AppViewResourceRefs, no_refs, merge, push_ref,
  ref_of, parse_into, parse_resources,
}

-- The seven lists.
pub data Place : Type 0 where
  deployment statefulset daemonset service ingress secret other : Place

abbrev pub refs_at : Place → AppViewResourceRefs → List ResourceRef
refs_at deployment rs = rs.deployments
refs_at statefulset rs = rs.statefulsets
refs_at daemonset rs = rs.daemonsets
refs_at service rs = rs.services
refs_at ingress rs = rs.ingresses
refs_at secret rs = rs.secrets
refs_at other rs = rs.other_resources

-- Whether a kind belongs to a list.
unfoldable pub belongs : Place → (kind : String) → Bool
belongs deployment kind = kind == "Deployment"
belongs statefulset kind = kind == "StatefulSet"
belongs daemonset kind = kind == "DaemonSet"
belongs service kind = kind == "Service"
belongs ingress kind = kind == "Ingress"
belongs secret kind = kind == "Secret"
belongs other kind =
    not (kind == "Deployment")
    && (not (kind == "StatefulSet")
        && (not (kind == "DaemonSet")
            && (not (kind == "Service") && (not (kind == "Ingress") && not (kind == "Secret")))))

-- The resources of the documents, from the first to the last, without the lists.
unfoldable pub resources_of : Documents → List Resource
resources_of no_documents = []
resources_of (and (listed ds) rest) = resources_of ds ++ resources_of rest
resources_of (and (single r) rest) = r ∷ resources_of rest

unfoldable pub keep : (Resource → Bool) → List Resource → List Resource
keep test [] = []
keep test (r ∷ rs) = let rest = keep test rs in if test r then r ∷ rest else rest

refs_at-merge :
    (c : Place) (a b : AppViewResourceRefs) → refs_at c (merge a b) ≡ refs_at c a ++ refs_at c b
unfolding merge
refs_at-merge deployment a b = refl
refs_at-merge statefulset a b = refl
refs_at-merge daemonset a b = refl
refs_at-merge service a b = refl
refs_at-merge ingress a b = refl
refs_at-merge secret a b = refl
refs_at-merge other a b = refl

pub refs_at-no_refs : (c : Place) → refs_at c no_refs ≡ []
refs_at-no_refs deployment = refl
refs_at-no_refs statefulset = refl
refs_at-no_refs daemonset = refl
refs_at-no_refs service = refl
refs_at-no_refs ingress = refl
refs_at-no_refs secret = refl
refs_at-no_refs other = refl

is_other : (kind a b : String) → (a == b) ≡ false → (kind == a) ≡ true → (kind == b) ≡ false
is_other kind a b apart h = subst (λ t. (t == b) ≡ false) (sym ((eq_iff kind a).0 h)) apart

pub refs_at-push_ref :
    (c : Place) (kind : String) (ref : ResourceRef) (acc : AppViewResourceRefs)
    → refs_at c (push_ref kind ref acc)
      ≡ (if belongs c kind then refs_at c acc ++ ref ∷ [] else refs_at c acc)
unfolding push_ref belongs
refs_at-push_ref deployment kind ref acc = ground arith
refs_at-push_ref statefulset kind ref acc =
    ground (arith, is_other kind "StatefulSet" "Deployment" refl)
refs_at-push_ref daemonset kind ref acc = ground (
  arith,
  is_other kind "DaemonSet" "Deployment" refl,
  is_other kind "DaemonSet" "StatefulSet" refl,
)
refs_at-push_ref service kind ref acc = ground (
  arith,
  is_other kind "Service" "Deployment" refl,
  is_other kind "Service" "StatefulSet" refl,
  is_other kind "Service" "DaemonSet" refl,
)
refs_at-push_ref ingress kind ref acc = ground (
  arith,
  is_other kind "Ingress" "Deployment" refl,
  is_other kind "Ingress" "StatefulSet" refl,
  is_other kind "Ingress" "DaemonSet" refl,
  is_other kind "Ingress" "Service" refl,
)
refs_at-push_ref secret kind ref acc = ground (
  arith,
  is_other kind "Secret" "Deployment" refl,
  is_other kind "Secret" "StatefulSet" refl,
  is_other kind "Secret" "DaemonSet" refl,
  is_other kind "Secret" "Service" refl,
  is_other kind "Secret" "Ingress" refl,
)
refs_at-push_ref other kind ref acc = ground arith

map-append :
    (f : Resource → ResourceRef) (xs ys : List Resource) → map f (xs ++ ys) ≡ map f xs ++ map f ys
map-append f [] ys = refl
map-append f (x ∷ xs) ys = ap (λ rs. f x ∷ rs) (map-append f xs ys)

keep-append :
    (test : Resource → Bool) (xs ys : List Resource)
    → keep test (xs ++ ys) ≡ keep test xs ++ keep test ys
unfolding keep
keep-append test [] ys = refl
keep-append test (x ∷ xs) ys = ground (arith, keep-append test xs ys)

module _ (kinds : Dict Kind) (cluster release_namespace : String) where
  -- The references to those resources that belong to a place.
  abbrev pub refs_for : Place → List Resource → List ResourceRef
  refs_for c rs = map (ref_of kinds cluster release_namespace) (keep (λ r. belongs c r.kind) rs)

  refs_for-append :
      (c : Place) (xs ys : List Resource) → refs_for c (xs ++ ys) ≡ refs_for c xs ++ refs_for c ys
  refs_for-append c xs ys =
      ap (map (ref_of kinds cluster release_namespace)) (keep-append (λ r. belongs c r.kind) xs ys)
      ∙ map-append (ref_of kinds cluster release_namespace) _ _

  refs_for-cons :
      (c : Place) (r : Resource) (before : List ResourceRef) (rs : List Resource)
      → (if belongs c r.kind
            then before ++ ref_of kinds cluster release_namespace r ∷ []
            else before)
          ++ refs_for c rs
        ≡ before ++ refs_for c (r ∷ rs)
  unfolding keep
  refs_for-cons c r before rs = elim (Bool-cases (belongs c r.kind)) [
    | inl here ↦ rw here (append_assoc before _ _)
    | inr away ↦ rw away refl
  ]

  parse_into-refs_for :
      (c : Place) (ds : Documents) (acc : AppViewResourceRefs)
      → refs_at c (parse_into kinds cluster release_namespace ds acc)
        ≡ refs_at c acc ++ refs_for c (resources_of ds)
  unfolding parse_into resources_of keep
  parse_into-refs_for c no_documents acc = sym (append-nil (refs_at c acc))
  parse_into-refs_for c (and (listed ds) rest) acc =
      let inner = parse_into kinds cluster release_namespace ds no_refs in
      parse_into-refs_for c rest (merge acc inner)
      ∙ ap (λ rs. rs ++ refs_for c (resources_of rest))
          (refs_at-merge c acc inner
            ∙ ap (λ rs. refs_at c acc ++ rs)
                (parse_into-refs_for c ds no_refs
                  ∙ ap (λ rs. rs ++ refs_for c (resources_of ds)) (refs_at-no_refs c)))
      ∙ append_assoc (refs_at c acc) (refs_for c (resources_of ds)) (refs_for c (resources_of rest))
      ∙ ap (λ rs. refs_at c acc ++ rs)
          (sym (refs_for-append c (resources_of ds) (resources_of rest)))
  parse_into-refs_for c (and (single r) rest) acc =
      let ref = ref_of kinds cluster release_namespace r in
      parse_into-refs_for c rest (push_ref r.kind ref acc)
      ∙ ap (λ rs. rs ++ refs_for c (resources_of rest)) (refs_at-push_ref c r.kind ref acc)
      ∙ refs_for-cons c r (refs_at c acc) (resources_of rest)

  -- Each of the seven lists of references of a release has the references to exactly the resources of the
  -- manifest that are of its kind, or of no listed kind for the others, in the order of the manifest, and
  -- documents that are lists of documents count as their resources.
  pub parse_resources-refs_for :
      (c : Place) (ds : Documents)
      → refs_at c (parse_resources kinds cluster release_namespace ds)
        ≡ refs_for c (resources_of ds)
  unfolding parse_resources
  parse_resources-refs_for c ds =
      parse_into-refs_for c ds no_refs
      ∙ ap (λ rs. rs ++ refs_for c (resources_of ds)) (refs_at-no_refs c)
