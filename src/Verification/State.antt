-- ===== src/Verification/State.antt =====
-- The two verification state machines, backend/app/modules/verification/state.py and
-- ownership_state.py: the statuses, the transitions, and what becomes of a provider's result.
use wheelmatch.Base.{
  ℕ, Bool, true, false, not, ◌&&◌, ◌||◌, Option, some, eq_option, if◌then◌else◌, Result, ok, err,
  ◌==◌, ◌≡◌, ◌⊎◌, arith, List, [], ◌∷◌, any,
}

pub data Status : Type 0 where
  session_pending pending manual_review verified failed expired revoked : Status

abbrev pub status_index : Status → ℕ
status_index session_pending = 0
status_index pending = 1
status_index manual_review = 2
status_index verified = 3
status_index failed = 4
status_index expired = 5
status_index revoked = 6

abbrev pub eq_status : Status → Status → Bool
eq_status a b = status_index a == status_index b

-- `status in {…}`
abbrev pub one_of : List Status → Status → Bool
one_of set s = any (eq_status s) set

abbrev pub active_statuses : List Status
active_statuses = session_pending ∷ pending ∷ manual_review ∷ []

abbrev pub terminal_statuses : List Status
terminal_statuses = manual_review ∷ verified ∷ failed ∷ expired ∷ revoked ∷ []

pub Status-cases :
    (s : Status) → (s ≡ session_pending) ⊎ ((s ≡ pending) ⊎ (one_of terminal_statuses s ≡ true))
Status-cases s = ground arith

-- the values that a provider's result may carry
abbrev pub provider_result_statuses : List Status
provider_result_statuses = manual_review ∷ verified ∷ failed ∷ []

-- `_TRANSITIONS.get(current, frozenset())`
transitions : Status → List Status
transitions session_pending = pending ∷ failed ∷ []
transitions pending = manual_review ∷ verified ∷ failed ∷ []
transitions _ = []

unfoldable pub transition_allowed : Status → Status → Bool
unfolding transitions
transition_allowed current target = eq_status current target || one_of (transitions current) target

-- the `ValueError`s of the two modules
pub data StateError : Type 0 where
  invalid_transition result_conflict : StateError

unfoldable pub require_transition : Status → Status → Result StateError Unit
unfolding transition_allowed
require_transition current target =
    if one_of terminal_statuses current || not (transition_allowed current target)
    then err invalid_transition
    else ok tt

pub data Disposition : Type 0 where
  stale duplicate applied : Disposition

-- An attempt as its row shows it, beside a result that has arrived for it.
pub record Arrival : Type 0 where
  pub attempt_status : Status
  pub attempt_event_id : Option ℕ
  pub result_event_id : ℕ
  pub result_matches : Bool

abbrev pub same_event : Arrival → Bool
same_event a = eq_option a.attempt_event_id (some a.result_event_id)

-- `ownership_result_disposition`
unfoldable pub ownership_result_disposition : Arrival → Bool → Result StateError Disposition
ownership_result_disposition a is_stale =
    if is_stale
    then ok stale
    else if same_event a && a.result_matches
    then ok duplicate
    else if one_of terminal_statuses a.attempt_status || same_event a
    then err result_conflict
    else ok applied

-- `result_disposition`, of identity verification
unfoldable pub result_disposition : Arrival → Bool → Bool → Result StateError Disposition
result_disposition a superseded projection_current =
    if superseded || not projection_current
    then ok stale
    else if same_event a && a.result_matches
    then ok duplicate
    else if one_of terminal_statuses a.attempt_status || same_event a
    then err result_conflict
    else ok applied

pub data ProviderError : Type 0 where
  transient permanent other : ProviderError

pub data SafeFailureCode : Type 0 where
  provider_temporary provider_unavailable : SafeFailureCode

pub record ProviderFailureClassification : Type 0 where
  pub retryable : Bool
  pub safe_failure_code : SafeFailureCode

unfoldable pub classify_provider_failure : ProviderError → ProviderFailureClassification
classify_provider_failure transient = record {
  retryable = true;
  safe_failure_code = provider_temporary;
}
classify_provider_failure permanent = record {
  retryable = false;
  safe_failure_code = provider_unavailable;
}
classify_provider_failure other = record {
  retryable = true;
  safe_failure_code = provider_temporary;
}
