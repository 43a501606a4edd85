-- ===== src/Client/Page.antt =====
-- What a function with effects changes: the browser's page. A function that may fail takes the page
-- to a result, which is thrown or returned, and the next page: what was done before a throw stays.
use installer.Common.{String, Option, List, [], ◌∷◌, ◌++◌, ◌≡◌, refl, ap}
use installer.Common.Result.{Result, ok, throw}
use installer.Types.{Json, JsError}
use installer.Actions.{Action}
use installer.Shared.Storage.{Storage}

pub data Method : Type 0 where
  get post put delete : Method

-- A request, with its header `Authorization`. `body` is `null` where there is none.
pub record Request : Type 0 where
  pub method : Method
  pub url : String
  pub body : Json
  pub authorization : Option String

-- `sent` are the actions that were dispatched and `requests` the requests that were made, both in
-- their order; `address` is the one that the browser was sent to.
pub record Page : Type 0 where
  pub storage : Storage
  pub sent : List Action
  pub requests : List Request
  pub address : Option String

-- The page with one more action.
abbrev pub send : Action → Page → Page
send a p = record p { sent = p.sent ++ a ∷ [] }

abbrev pub Run : Type 0 → Type 0
Run A = Page → Result JsError A × Page

module _ {A : Type 0} where
  abbrev pub pure : A → Run A
  pure a p = (ok a, p)

  abbrev pub raise : JsError → Run A
  raise e p = (throw e, p)

  -- `try { m } catch (e) { handler }`
  abbrev pub catch : Run A → (JsError → Run A) → Run A
  catch m handler p = let (r, q) = m p in elim r [ ok a ↦ (ok a, q) | throw e ↦ handler e q ]

  -- What runs without being awaited: its result is dropped, thrown or not.
  abbrev pub detach : Run A → Run (Unit {0})
  detach m p = (ok tt, (m p).1)

  abbrev pub lift : Result JsError A → Run A
  lift r p = (r, p)

infixl 5 ◌>>=◌ ◌>>◌
abbrev pub ◌>>=◌ : {A B : Type 0} → Run A → (A → Run B) → Run B
◌>>=◌ m f p = let (r, q) = m p in elim r [ ok a ↦ f a q | throw e ↦ (throw e, q) ]

abbrev pub ◌>>◌ : {A B : Type 0} → Run A → Run B → Run B
m >> k = m >>= λ _. k

abbrev pub dispatch : Action → Run (Unit {0})
dispatch a p = (ok tt, send a p)

abbrev pub modify : (Page → Page) → Run (Unit {0})
modify f p = (ok tt, f p)

-- The page with one more request.
abbrev pub ask : Request → Page → Page
ask r p = record p { requests = p.requests ++ r ∷ [] }

-- The steps of a `do` block.
module _ {A B : Type 0} (m : Run A) (f : A → Run B) (p q : Page) where
  pub bind-ok : (a : A) → m p ≡ (ok a, q) → (m >>= f) p ≡ f a q
  bind-ok a h =
      ap
        (λ (r : Result JsError A × Page). elim r.0 as (λ r'. Result JsError B × Page) [
          | ok b ↦ f b r.1
          | throw e ↦ (throw e, r.1)
        ])
        h

  pub bind-throw : (e : JsError) → m p ≡ (throw e, q) → (m >>= f) p ≡ (throw e, q)
  bind-throw e h =
      ap
        (λ (r : Result JsError A × Page). elim r.0 as (λ r'. Result JsError B × Page) [
          | ok b ↦ f b r.1
          | throw e ↦ (throw e, r.1)
        ])
        h

-- The steps of a `try`.
module _ {A : Type 0} (m : Run A) (handler : JsError → Run A) (p q : Page) where
  pub catch-ok : (a : A) → m p ≡ (ok a, q) → catch m handler p ≡ (ok a, q)
  catch-ok a h =
      ap
        (λ (r : Result JsError A × Page). elim r.0 as (λ r'. Result JsError A × Page) [
          | ok b ↦ (ok b, r.1)
          | throw e ↦ handler e r.1
        ])
        h

  pub catch-throw : (e : JsError) → m p ≡ (throw e, q) → catch m handler p ≡ handler e q
  catch-throw e h =
      ap
        (λ (r : Result JsError A × Page). elim r.0 as (λ r'. Result JsError A × Page) [
          | ok b ↦ (ok b, r.1)
          | throw e ↦ handler e r.1
        ])
        h

-- What a reducer makes of actions, in their order.
abbrev pub run {ℓ} : {S : Type ℓ} → (S → Action → S) → S → List Action → S
run step s [] = s
run step s (a ∷ actions) = run step (step s a) actions

pub run-append {ℓ} :
    {S : Type ℓ} (step : S → Action → S) (s : S) (first last : List Action)
    → run step s (first ++ last) ≡ run step (run step s first) last
run-append step s [] last = refl
run-append step s (a ∷ first) last = run-append step (step s a) first last
