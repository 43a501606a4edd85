-- ===== src/Types/Values.antt =====
-- dashboard/src/shared/types.ts: untyped values (`any`) and the error classes.
use installer.Common.{ℕ, Bool, String}

-- A value of type `any`. Numbers are natural here.
mutual
  pub data Json : Type 0 where
    null : Json
    obj : Props → Json
    arr : Elems → Json
    str : String → Json
    bool : Bool → Json
    num : ℕ → Json

  pub data Props : Type 0 where
    end : Props
    prop : String → Json → Props → Props

  pub data Elems : Type 0 where
    nil : Elems
    cons : Json → Elems → Elems

-- The class of an error, which callers compare by `err.constructor`.
pub data ErrorClass : Type 0 where
  error forbidden_error unauthorized_error not_found_error conflict_error : ErrorClass
  unprocessable_entity internal_server_error : ErrorClass
  fetch_error create_error upgrade_error rollback_error delete_error : ErrorClass

pub record JsError : Type 0 where
  pub constructor : ErrorClass
  pub message : String
