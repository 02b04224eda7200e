-- ===== src/Listings/Readiness/Outcome.antt =====
-- What an evaluation says: the blockers and the status of a submission, the properties of
-- `ReadinessEvaluation` in backend/app/modules/listings/readiness.py.
use wheelmatch.Base.{
  ℕ, Bool, true, false, not, ◌&&◌, none, some, List, [], ◌∷◌, ◌==◌, if◌then◌else◌, any,
  select_where,
}
use wheelmatch.Listings.Readiness.{
  GateName, identity_verification, ownership_verification, GateCode, GateDecision,
  ReadinessEvaluation, is_ready, all_ready, seller_restricted, listing_version_changed,
  listing_details_incomplete, ownership_verification_required, listing_location_required,
  identity_verification_required, identity_verification_pending, identity_verification_failed,
  identity_verification_expired, ownership_verification_expired, ownership_fingerprint_mismatch,
  ownership_verification_pending, ownership_verification_revoked, ownership_verification_failed,
  media_processing_incomplete,
}

-- `gates[:-1]`
abbrev pub but_last : List GateDecision → List GateDecision
but_last [] = []
but_last (gate ∷ []) = []
but_last (gate ∷ next ∷ rest) = gate ∷ but_last (next ∷ rest)

unfoldable pub pre_moderation_ready : ReadinessEvaluation → Bool
pre_moderation_ready evaluation = all_ready (but_last evaluation.gates)

abbrev pub is_verification : GateName → Bool
is_verification identity_verification = true
is_verification ownership_verification = true
is_verification _ = false

unfoldable pub code_index : GateCode → ℕ
code_index seller_restricted = 0
code_index listing_version_changed = 1
code_index listing_details_incomplete = 2
code_index ownership_verification_required = 3
code_index listing_location_required = 4
code_index identity_verification_required = 5
code_index identity_verification_pending = 6
code_index identity_verification_failed = 7
code_index identity_verification_expired = 8
code_index ownership_verification_expired = 9
code_index ownership_fingerprint_mismatch = 10
code_index ownership_verification_pending = 11
code_index ownership_verification_revoked = 12
code_index ownership_verification_failed = 13
code_index media_processing_incomplete = 14
code_index GateCode.moderation_pending = 15

abbrev pub eq_code : GateCode → GateCode → Bool
eq_code a b = code_index a == code_index b

-- the codes of the gates that have one, in order
abbrev pub gate_codes : List GateDecision → List GateCode
gate_codes [] = []
gate_codes (gate ∷ rest) =
    let more = gate_codes rest in elim gate.code [ none ↦ more | some code ↦ code ∷ more ]

-- `tuple(dict.fromkeys(…))`: the first of each
unique : List GateCode → List GateCode
unique [] = []
unique (code ∷ rest) = code ∷ select_where (λ other. not (eq_code code other)) (unique rest)

unfoldable pub blocker_codes : ReadinessEvaluation → List GateCode
unfolding unique
blocker_codes evaluation = unique (gate_codes evaluation.gates)

pub data SubmissionStatus : Type 0 where
  verification_pending blocked moderation_pending : SubmissionStatus

unfoldable pub submission_status : ReadinessEvaluation → SubmissionStatus
unfolding pre_moderation_ready
submission_status evaluation =
    if any (λ gate. is_verification gate.name && not (is_ready gate.state))
      (but_last evaluation.gates)
    then verification_pending
    else if not (pre_moderation_ready evaluation)
    then SubmissionStatus.blocked
    else SubmissionStatus.moderation_pending
