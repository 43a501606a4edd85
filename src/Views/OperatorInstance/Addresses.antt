-- ===== src/Views/OperatorInstance/Addresses.antt =====
-- dashboard/src/components/OperatorInstance/OperatorInstance.tsx: which references there are, and which
-- addresses they have.
use mathlib.Core.List.{append_assoc, append-nil}
use installer.Common.{
  String, Bool, true, false, some, List, [], ◌∷◌, ◌++◌, map, ◌≡◌, refl, sym, ap, ◌∙◌, arith,
  if◌then◌else◌,
}
use installer.Types.{Kind, Resource, ResourceRef}
use installer.Shared.Kube.{get_resource_url, ref_url}
use installer.Views.Application.{AppViewResourceRefs, no_refs, push_ref}
use installer.Views.Application.Places.{Place, refs_at, belongs, refs_at-push_ref, refs_at-no_refs}
use installer.Views.OperatorInstance.{owner_reference, from_crd, push_resources, parse_resource}

-- The kinds that belong to a list.
abbrev pub kinds_at : Place → List String → List String
kinds_at c [] = []
kinds_at c (k ∷ ks) = if belongs c k then k ∷ kinds_at c ks else kinds_at c ks

module _ (kind : Kind) (cluster namespace : String) (resource : Resource) where
  abbrev pub ref_at : String → ResourceRef
  ref_at k = from_crd kind cluster namespace (owner_reference resource) k

  push_resources_lem :
      (c : Place) (ks : List String) (acc : AppViewResourceRefs)
      → refs_at c (push_resources kind cluster namespace resource ks acc)
        ≡ refs_at c acc ++ map ref_at (kinds_at c ks)
  unfolding push_resources
  push_resources_lem c [] acc = sym (append-nil (refs_at c acc))
  push_resources_lem c (k ∷ ks) acc =
      push_resources_lem c ks (push_ref k (ref_at k) acc)
      ∙ ap (λ (l : List ResourceRef). l ++ map ref_at (kinds_at c ks))
          (refs_at-push_ref c k (ref_at k) acc)
      ∙ pushed (belongs c k)
    where
      pushed :
          (b : Bool)
          → (if b then refs_at c acc ++ ref_at k ∷ [] else refs_at c acc)
              ++ map ref_at (kinds_at c ks)
            ≡ refs_at c acc ++ map ref_at (if b then k ∷ kinds_at c ks else kinds_at c ks)
      pushed true = append_assoc (refs_at c acc) (ref_at k ∷ []) (map ref_at (kinds_at c ks))
      pushed false = refl

  -- Where the definition of an operator lists resources, each list of the page has a reference for each
  -- resource of its kind, in their order; but every reference has the address that the kind of the
  -- instance itself has, whichever kind of resource it stands for.
  pub parse_resource-ref_url :
      (ks : List String)
      → ((c : Place)
          → refs_at c (parse_resource kind cluster namespace resource (some ks))
            ≡ map ref_at (kinds_at c ks))
        × ((k : String)
            → ref_url (ref_at k)
              ≡ get_resource_url cluster kind.api_version kind.plural kind.namespaced namespace ""
                  "")
  unfolding parse_resource ref_url from_crd get_resource_url
  parse_resource-ref_url ks = (
    λ c.
        push_resources_lem c ks no_refs
        ∙ ap (λ (l : List ResourceRef). l ++ map ref_at (kinds_at c ks)) (refs_at-no_refs c),
    λ k. ground arith,
  )
