-- ===== src/Reducers/Operators/Fetching.antt =====
-- dashboard/src/reducers/operators.ts: the loading flag sums up the flags of its parts.
use installer.Common.{true, ◌≡◌, refl}
use installer.Actions.{
  OperatorAction, checking_olm, olm_installed, set_namespace_state, Action, operators, namespace,
}
use installer.Reducers.Operators.{OperatorsState, some_fetching, operator_action, catalog_reducer}

-- `isFetching` is true exactly while one of the five parts is being fetched.
abbrev pub IsConsistent : OperatorsState → Type 0
IsConsistent s = s.is_fetching ≡ some_fetching s.is_fetching_elem

operator_action-IsConsistent :
    (s : OperatorsState) (a : OperatorAction) → IsConsistent s → IsConsistent (operator_action s a)
unfolding operator_action
operator_action-IsConsistent s checking_olm h = refl
operator_action-IsConsistent s _ h = refl

-- Every action keeps the loading flag equal to the disjunction of the flags of the five parts.
pub catalog_reducer-IsConsistent :
    (s : OperatorsState) (a : Action) → IsConsistent s → IsConsistent (catalog_reducer s a)
unfolding catalog_reducer
catalog_reducer-IsConsistent s (operators a) h = operator_action-IsConsistent s a h
catalog_reducer-IsConsistent s (namespace (set_namespace_state cluster ns)) h = refl
catalog_reducer-IsConsistent s _ h = h

-- What is known of OLM is only ever learned: no action clears it.
pub catalog_reducer-is_olm_installed :
    (s : OperatorsState) (a : Action)
    → s.is_olm_installed ≡ true
    → (catalog_reducer s a).is_olm_installed ≡ true
unfolding catalog_reducer
catalog_reducer-is_olm_installed s (operators checking_olm) h = h
catalog_reducer-is_olm_installed s (operators olm_installed) h = refl
catalog_reducer-is_olm_installed s (operators _) h = h
catalog_reducer-is_olm_installed s (namespace (set_namespace_state cluster ns)) h = h
catalog_reducer-is_olm_installed s _ h = h
