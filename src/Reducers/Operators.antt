-- ===== src/Reducers/Operators.antt =====
-- dashboard/src/reducers/operators.ts: operators, their cluster service versions and resources.
pub mod Fetching
use installer.Common.{Bool, true, false, ◌||◌, Option, none, some, List, [], ◌∷◌, any}
use installer.Types.{JsError, Resource}
use installer.Actions.{
  OperatorAction, checking_olm, olm_installed, error_olm_check, request_operators,
  receive_operators, request_operator, receive_operator, error_operators, request_csvs,
  receive_csvs, error_csvs, request_csv, receive_csv, creating_resource, resource_created,
  error_resource_create, updating_resource, resource_updated, error_resource_update,
  deleting_resource, resource_deleted, error_resource_delete, request_custom_resources,
  receive_custom_resources, error_custom_resource, request_custom_resource, receive_custom_resource,
  creating_operator, operator_created, error_operator_create, request_subscriptions,
  receive_subscriptions, error_subscription_list, NamespaceAction, set_namespace_state, Action,
  operators, namespace, location_change,
}

pub record OperatorsStateError : Type 0 where
  pub fetch : Option JsError
  pub create : Option JsError
  pub delete : Option JsError
  pub update : Option JsError

pub record FetchingElem : Type 0 where
  pub olm : Bool
  pub operator : Bool
  pub csv : Bool
  pub resource : Bool
  pub subscriptions : Bool

pub record OperatorsErrors : Type 0 where
  pub operator : OperatorsStateError
  pub csv : OperatorsStateError
  pub resource : OperatorsStateError
  pub subscriptions : OperatorsStateError

pub record OperatorsState : Type 0 where
  pub is_fetching : Bool
  pub is_fetching_elem : FetchingElem
  pub is_olm_installed : Bool
  pub operators : List Resource
  pub operator : Option Resource
  pub errors : OperatorsErrors
  pub csvs : List Resource
  pub csv : Option Resource
  pub resources : List Resource
  pub resource : Option Resource
  pub subscriptions : List Resource

abbrev pub no_error : OperatorsStateError
no_error = record { fetch = none; create = none; delete = none; update = none }

abbrev pub no_errors : OperatorsErrors
no_errors = record {
  operator = no_error;
  csv = no_error;
  resource = no_error;
  subscriptions = no_error;
}

unfoldable pub operators_initial_state : OperatorsState
operators_initial_state = record {
  is_fetching = false;
  is_fetching_elem = record {
    olm = false;
    operator = false;
    csv = false;
    resource = false;
    subscriptions = false;
  };
  is_olm_installed = false;
  operators = [];
  operator = none;
  errors = no_errors;
  csvs = [];
  csv = none;
  resources = [];
  resource = none;
  subscriptions = [];
}

-- The names of the fields of `isFetchingElem`.
pub data OperatorItem : Type 0 where
  olm operator csv resource subscriptions : OperatorItem

abbrev compose_fetching : FetchingElem → OperatorItem → Bool → FetchingElem
compose_fetching e olm b = record e { olm = b }
compose_fetching e operator b = record e { operator = b }
compose_fetching e csv b = record e { csv = b }
compose_fetching e resource b = record e { resource = b }
compose_fetching e subscriptions b = record e { subscriptions = b }

-- `Object.values(elem).some(v => v)`
abbrev pub some_fetching : FetchingElem → Bool
some_fetching e = any (λ v. v) (e.olm ∷ e.operator ∷ e.csv ∷ e.resource ∷ e.subscriptions ∷ [])

-- `{ ...state, ...isFetching(state, item, fetching) }`
unfoldable pub with_fetching : OperatorsState → OperatorItem → Bool → OperatorsState
with_fetching s item fetching =
    let elem = compose_fetching s.is_fetching_elem item fetching in
    record s { is_fetching = some_fetching elem; is_fetching_elem = elem }

unfoldable pub operator_action : OperatorsState → OperatorAction → OperatorsState
unfolding with_fetching
operator_action s checking_olm = with_fetching s olm true
operator_action s olm_installed = record (with_fetching s olm false) { is_olm_installed = true }
operator_action s (error_olm_check e) = record (with_fetching s olm false) {
  errors = record s.errors { operator = record no_error { fetch = some e } };
}
operator_action s request_operators = with_fetching s operator true
operator_action s (receive_operators rs) = record (with_fetching s operator false) {
  operators = rs;
}
operator_action s request_operator = with_fetching s operator true
operator_action s (receive_operator r) = record (with_fetching s operator false) {
  operator = some r;
}
operator_action s (error_operators e) = record (with_fetching s operator false) {
  operator = none;
  errors = record s.errors { operator = record no_error { fetch = some e } };
}
operator_action s request_csvs = with_fetching s csv true
operator_action s (receive_csvs rs) = record (with_fetching s csv false) { csvs = rs }
operator_action s request_csv = with_fetching s csv true
operator_action s (receive_csv r) = record (with_fetching s csv false) { csv = some r }
operator_action s (error_csvs e) = record (with_fetching s csv false) {
  csv = none;
  errors = record s.errors { csv = record no_error { fetch = some e } };
}
operator_action s creating_resource = with_fetching s resource true
operator_action s (resource_created r) = with_fetching s resource false
operator_action s updating_resource = with_fetching s resource true
operator_action s (resource_updated r) = with_fetching s resource false
operator_action s deleting_resource = with_fetching s resource true
operator_action s resource_deleted = with_fetching s resource false
operator_action s (error_resource_delete e) = record (with_fetching s resource false) {
  errors = record s.errors { resource = record no_error { delete = some e } };
}
operator_action s (error_resource_create e) = record (with_fetching s resource false) {
  errors = record s.errors { resource = record no_error { create = some e } };
}
operator_action s (error_resource_update e) = record (with_fetching s resource false) {
  errors = record s.errors { resource = record no_error { update = some e } };
}
operator_action s request_custom_resources = with_fetching s resource true
operator_action s (receive_custom_resources rs) = record (with_fetching s resource false) {
  resources = rs;
}
operator_action s (error_custom_resource e) = record (with_fetching s resource false) {
  resource = none;
  errors = record s.errors { resource = record no_error { fetch = some e } };
}
operator_action s request_custom_resource = with_fetching s resource true
operator_action s (receive_custom_resource r) = record (with_fetching s resource false) {
  resource = some r;
}
operator_action s creating_operator = with_fetching s operator true
operator_action s (operator_created r) = with_fetching s operator false
operator_action s (error_operator_create e) = record (with_fetching s operator false) {
  errors = record s.errors { operator = record no_error { create = some e } };
}
operator_action s request_subscriptions = with_fetching s subscriptions true
operator_action s (receive_subscriptions rs) = record (with_fetching s subscriptions false) {
  subscriptions = rs;
}
operator_action s (error_subscription_list e) = record (with_fetching s subscriptions false) {
  resource = none;
  errors = record s.errors { subscriptions = record no_error { fetch = some e } };
}

-- `catalogReducer`
unfoldable pub catalog_reducer : OperatorsState → Action → OperatorsState
unfolding operator_action operators_initial_state
catalog_reducer s (operators a) = operator_action s a
catalog_reducer s (location_change pathname) = record s { errors = no_errors }
catalog_reducer s (namespace (set_namespace_state cluster ns)) = record operators_initial_state {
  is_olm_installed = s.is_olm_installed;
}
catalog_reducer s _ = s
