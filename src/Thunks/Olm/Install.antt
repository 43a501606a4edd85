-- ===== src/Thunks/Olm/Install.antt =====
-- dashboard/src/shared/Operators.ts with dashboard/src/actions/operators.ts: the requests that install
-- an operator.
use installer.Common.{String, false, List, [], ◌∷◌, ◌++◌, ◌≡◌, refl, ap, ◌∙◌, ◌⊎◌, inl, inr, ◌==◌}
use mathlib.Core.List.{append_assoc}
use installer.Common.Result.{ok, throw}
use installer.Types.{Json, null, Resource}
use installer.Shared.Url.Api.{operator_groups, subscription_url}
use installer.Client.Page.{get, post, Request, Page, Run, pure, ask, bind-ok, bind-throw, ◌>>◌}
use installer.Client.Platform.{any_reply, resource_reply, resources_reply, Failure, Platform}
use installer.Client.Http.{get_at, post_at, handle_error}
use installer.Client.Http.Expiry.{
  handle_error-requests, request_of, request-answered, request-requests, request-cases,
}
use installer.Client.Endpoints.Olm.{
  subscription_body, operator_group_body, create_group_unless, create_operator_group_if_not_exists,
  create_operator,
}

-- The request for the groups of a namespace, the one that creates a group, and the subscription.
module _ (cluster namespace : String) (p : Page) where
  abbrev pub ask_groups : Request
  ask_groups = request_of get (operator_groups cluster namespace) null p.storage

  abbrev pub create_group : Request
  create_group =
      request_of post (operator_groups cluster namespace) (operator_group_body namespace) p.storage

  abbrev pub subscribe : (name channel approval csv : String) → Request
  subscribe name channel approval csv =
      request_of post (subscription_url cluster namespace name)
        (subscription_body namespace name channel approval csv) p.storage

append_three :
    (rs : List Request) (a b c : Request)
    → ((rs ++ a ∷ []) ++ b ∷ []) ++ c ∷ [] ≡ rs ++ a ∷ b ∷ c ∷ []
append_three rs a b c =
    ap (λ qs. qs ++ c ∷ []) (append_assoc rs (a ∷ []) (b ∷ []))
    ∙ append_assoc rs (a ∷ b ∷ []) (c ∷ [])

group_then :
    (x : Platform) (uri cluster namespace : String) (p : Page)
    → (namespace == "operators") ≡ false
    → x.answer p.requests resources_reply (ask_groups cluster namespace p) ≡ ok []
    → create_operator_group_if_not_exists x uri cluster namespace p
      ≡ (post_at x uri any_reply (operator_groups cluster namespace) (operator_group_body namespace)
            >> pure tt)
          (ask (ask_groups cluster namespace p) p)
unfolding create_operator_group_if_not_exists
group_then x uri cluster namespace p other none =
    rw (other, create_operator_group_if_not_exists)
      (bind-ok (get_at x uri resources_reply (operator_groups cluster namespace))
        (create_group_unless x uri cluster namespace) p (ask (ask_groups cluster namespace p) p) []
        (request-answered x uri resources_reply get (operator_groups cluster namespace) null p []
          none))

-- In a namespace other than `operators` that has no operator group, a request creates one: if the server
-- refuses it, the installation fails with the error that the interceptor makes of the refusal, and
-- subscribes to nothing; only if the server accepts it is the subscription requested after it.
pub create_operator-no_group :
    (x : Platform) (uri cluster namespace name channel approval csv : String) (p : Page)
    → (namespace == "operators") ≡ false
    → x.answer p.requests resources_reply (ask_groups cluster namespace p) ≡ ok []
    → let out = create_operator x uri cluster namespace name channel approval csv p in
      let asked = ask (ask_groups cluster namespace p) p in
      let posted = create_group cluster namespace p in
      ((f : Failure) × (x.answer asked.requests any_reply posted ≡ throw f)
        × (out.0 ≡ throw (handle_error x uri f (ask posted asked)).0)
        × (out.1.requests ≡ p.requests ++ ask_groups cluster namespace p ∷ posted ∷ []))
      ⊎ ((a : Json) × (x.answer asked.requests any_reply posted ≡ ok a)
          × (out.1.requests
              ≡ p.requests
                ++ ask_groups cluster namespace p
                  ∷ posted
                  ∷ subscribe cluster namespace p name channel approval csv
                  ∷ []))
unfolding create_operator
create_operator-no_group x uri cluster namespace name channel approval csv p other none =
    let q = ask (ask_groups cluster namespace p) p in
    let last = ask (create_group cluster namespace p) q in
    let groups = create_operator_group_if_not_exists x uri cluster namespace in
    let posting = group_then x uri cluster namespace p other none in
    let url = subscription_url cluster namespace name in
    let body = subscription_body namespace name channel approval csv in
    let post_group : Run Json =
      post_at x uri any_reply (operator_groups cluster namespace) (operator_group_body namespace) in
    let sub : Run Resource = post_at x uri resource_reply url body in
    elim (request-cases x uri any_reply post (operator_groups cluster namespace)
      (operator_group_body namespace) q) [
        | inl (f, refused, failed) ↦
            let (e, after) = handle_error x uri f last in
            rw
              (bind-throw groups (λ done. sub) p after e
                (posting ∙ bind-throw post_group (λ a. pure tt) q after e failed))
              (inl (
                f,
                refused,
                refl,
                handle_error-requests x uri f last ∙ append_assoc p.requests _ _,
              ))
        | inr (a, accepted, worked) ↦
            rw
              (bind-ok groups (λ done. sub) p last tt
                (posting ∙ bind-ok post_group (λ a. pure tt) q last a worked))
              (inr (
                a,
                accepted,
                request-requests x uri resource_reply post url body last
                    ∙ append_three p.requests (ask_groups cluster namespace p)
                        (create_group cluster namespace p)
                        (subscribe cluster namespace p name channel approval csv),
              ))
      ]
