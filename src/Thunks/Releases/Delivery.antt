-- ===== src/Thunks/Releases/Delivery.antt =====
-- dashboard/src/actions/apps.ts: what the steps of an installation and a deletion come to.
use installer.Common.{String, Option, ◌≡◌, refl, ap, ◌∙◌, arith, inl, inr}
use installer.Common.Result.{Result, ok, throw, Result-cases}
use installer.Types.{Json, JsError}
use installer.Client.Page.{Method, Page, Run, ask, bind-ok, bind-throw, pure, ◌>>◌}
use installer.Client.Platform.{Platform, any_reply}
use installer.Client.Http.{request, handle_error}
use installer.Client.Http.Expiry.{request_of, request-cases}
use installer.Thunks.Releases.{check_values}

-- What a request comes to: the error that the interceptor makes of the server's refusal, or nothing.
abbrev pub delivered :
    (x : Platform) (uri : String)
    → Method
    → (url : String) → Json
    → Page
    → Result JsError (Unit {0})
delivered x uri method url body p =
    let r = request_of method url body p.storage in
    elim (x.answer p.requests any_reply r) [
      | ok a ↦ ok tt
      | throw f ↦ throw (handle_error x uri f (ask r p)).0
    ]

pub delivered_lem :
    (x : Platform) (uri : String) (method : Method) (url : String) (body : Json) (p : Page)
    → ((request x uri any_reply method url body >> pure tt) p).0 ≡ delivered x uri method url body p
delivered_lem x uri method url body p =
    let m : Run Json = request x uri any_reply method url body in
    let r = request_of method url body p.storage in
    elim (request-cases x uri any_reply method url body p) [
      | inl (f, refused, failed) ↦
          let (e, after) = handle_error x uri f (ask r p) in
          rw (bind-throw m (λ a. pure tt) p after e failed) (rw (refused, delivered) refl)
      | inr (a, accepted, worked) ↦
          rw (bind-ok m (λ a. pure tt) p (ask r p) a worked) (rw (accepted, delivered) refl)
    ]

check_values-page :
    (x : Platform) (values : Option String) (schema : Option Json) (p : Page)
    → check_values x values schema p ≡ ((check_values x values schema p).0, p)
unfolding check_values
check_values-page x values schema p = ground arith

-- What the validation of the values and the request after it come to.
abbrev pub checked :
    (x : Platform) (values : Option String) (schema : Option Json)
    → (rest : Result JsError (Unit {0})) → Page
    → Result JsError (Unit {0})
checked x values schema rest p = elim (check_values x values schema p).0 [
  | throw e ↦ throw e
  | ok done ↦ rest
]

pub checked_lem :
    (x : Platform) (values : Option String) (schema : Option Json) (m : Run (Unit {0})) (p : Page)
    → ((check_values x values schema >> m) p).0 ≡ checked x values schema (m p).0 p
checked_lem x values schema m p = elim (Result-cases (check_values x values schema p).0) [
  | inl (e, refused) ↦
      let same = check_values-page x values schema p in
      rw
        (bind-throw (check_values x values schema) (λ a. m) p p e
          (same ∙ ap (λ (r : Result JsError (Unit {0})). (r, p)) refused))
        (rw (refused, checked) refl)
  | inr (a, fine) ↦
      let same = check_values-page x values schema p in
      rw
        (bind-ok (check_values x values schema) (λ a. m) p p a
          (same ∙ ap (λ (r : Result JsError (Unit {0})). (r, p)) fine))
        (rw (fine, checked) refl)
]
