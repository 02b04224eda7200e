-- ===== src/Media/Worker/Finish.antt =====
-- The ends of a claim: `_finalize_success`, `_finalize_failure`, `_retry_or_fail` and the part of
-- `process` after the claim, backend/app/modules/media/worker.py.
use Prim.Native.String.{String}
use wheelmatch.Base.{
  ℕ, max, Bool, true, false, not, ◌||◌, Option, none, some, List, [], ◌∷◌, ◌++◌, map, length, ◌==◌,
  leb, if◌then◌else◌, eq_option, any, select_where,
}
use wheelmatch.Media.{MediaStatus}
use wheelmatch.Core.Events.{Value, add}
use wheelmatch.Media.Worker.{
  ObjectKey, eq_key, derivative, ListingMedia, EvidenceStatus, moderation_pending, rejected, failed,
  ProcessingDetails, MediaProcessingEvidence, MediaDerivative, Store, ProcessingClaim,
  MediaWorkerResult, completed, stale, retry, is_worked_on, is_processing, get, get_evidence,
  write_media, write_evidence,
}

pub record Current : Type 0 where
  pub media : ListingMedia
  pub evidence : MediaProcessingEvidence

-- the rows that are there, if the claim still holds them
abbrev pub current_rows :
    ProcessingClaim → Option ListingMedia → Option MediaProcessingEvidence → Option Current
current_rows claim none evidence = none
current_rows claim (some media) none = none
current_rows claim (some media) (some evidence) =
    if not (media.processing_version == claim.processing_version)
      || not (is_worked_on media.status)
      || not (is_processing evidence.status)
      || not (eq_option evidence.claim_token (some claim.claim_token))
    then none
    else some (record { media = media; evidence = evidence })

unfoldable pub lock_current_claim : ProcessingClaim → Store → Option Current
lock_current_claim claim store =
    current_rows claim (get claim.media_id store.media)
      (get_evidence claim.media_id claim.processing_version store.evidence)

-- the last state of a piece of evidence, and the media's that goes with it
abbrev pub state_text : EvidenceStatus → String
state_text EvidenceStatus.processing = "processing"
state_text moderation_pending = "moderation_pending"
state_text rejected = "rejected"
state_text failed = "failed"

abbrev pub media_status : EvidenceStatus → MediaStatus
media_status EvidenceStatus.processing = MediaStatus.processing
media_status moderation_pending = MediaStatus.moderation_pending
media_status rejected = MediaStatus.rejected
media_status failed = MediaStatus.failed

abbrev pub failure_entry : Option String → List (String × Value)
failure_entry none = []
failure_entry (some failure_code) = ("failure_code", Value.text failure_code) ∷ []

abbrev pub terminal_action : EvidenceStatus → String
terminal_action EvidenceStatus.processing = "listing.media.sanitization_processing"
terminal_action moderation_pending = "listing.media.sanitization_moderation_pending"
terminal_action rejected = "listing.media.sanitization_rejected"
terminal_action failed = "listing.media.sanitization_failed"

abbrev pub terminal_event : EvidenceStatus → String
terminal_event EvidenceStatus.processing = "media.sanitization.processing"
terminal_event moderation_pending = "media.sanitization.moderation_pending"
terminal_event rejected = "media.sanitization.rejected"
terminal_event failed = "media.sanitization.failed"

abbrev pub terminal_outcome : EvidenceStatus → String
terminal_outcome moderation_pending = "success"
terminal_outcome _ = "failure"

-- `_record_terminal`
abbrev pub record_terminal : ListingMedia → EvidenceStatus → Option String → ℕ → Store → Store
record_terminal media state failure_code derivative_count store = record store {
  audit =
      add
        (record {
          action = terminal_action state;
          outcome = terminal_outcome state;
          reason_code = failure_code;
          resource_type = "listing_media";
          actor_user_id = none;
          resource_id = some media.id;
          organization_id = none;
          membership_id = none;
          changes =
              ("status", Value.text (state_text state))
              ∷ ("processing_version", Value.number media.processing_version)
              ∷ ("derivative_count", Value.number derivative_count)
              ∷ failure_entry failure_code;
        })
        store.audit;
  outbox =
      add
        (record {
          event_type = terminal_event state;
          aggregate_type = "listing_media";
          aggregate_id = media.id;
          payload =
              ("media_id", Value.uuid media.id)
              ∷ ("listing_id", Value.uuid media.listing_id)
              ∷ ("processing_version", Value.number media.processing_version)
              ∷ ("state", Value.text (state_text state))
              ∷ failure_entry failure_code;
        })
        store.outbox;
}

-- the rows of a claim that ends in a state, with the codes of the evidence and of the media
abbrev pub settle :
    ℕ → ProcessingDetails → EvidenceStatus → Option String → Option String → Current → Store → Store
settle now details state evidence_code failure_code current store = record store {
  evidence =
      write_evidence
        (record (current.evidence) {
          details = some details;
          status = state;
          failure_code = evidence_code;
          claim_token = none;
          completed_at = some now;
        })
        store.evidence;
  media =
      write_media
        (record (current.media) {
          status = media_status state;
          failure_code = failure_code;
          processed_at = some now;
        })
        store.media;
}

abbrev pub derivative_row : Current → ObjectKey → MediaDerivative
derivative_row current key = record {
  media_id = current.media.id;
  evidence_id = current.evidence.id;
  processing_version = current.media.processing_version;
  object_key = key;
}

abbrev pub succeed_found :
    ℕ → ProcessingDetails → List ObjectKey → Option Current → Store → Bool × Store
succeed_found now details keys none store = (false, store)
succeed_found now details keys (some current) store = (
  true,
  record_terminal current.media moderation_pending none (length keys) (
      settle now details moderation_pending current.evidence.failure_code none current
        (record store { derivatives = store.derivatives ++ map (derivative_row current) keys })),
)

unfoldable pub finalize_success :
    ℕ → ProcessingClaim → ProcessingDetails → List ObjectKey → Store → Bool × Store
finalize_success now claim details keys store =
    succeed_found now details keys (lock_current_claim claim store) store

abbrev pub fail_found :
    ℕ → ProcessingDetails → EvidenceStatus → String → Option Current → Store → Bool × Store
fail_found now details state failure_code none store = (false, store)
fail_found now details state failure_code (some current) store = (
  true,
  record_terminal current.media state (some failure_code) 0
      (settle now details state (some failure_code) (some failure_code) current store),
)

unfoldable pub finalize_failure :
    ℕ → ProcessingClaim → ProcessingDetails → EvidenceStatus → String → Store → Bool × Store
finalize_failure now claim details state failure_code store =
    fail_found now details state failure_code (lock_current_claim claim store) store

-- the release of a claim for another attempt
abbrev pub release_found :
    ℕ → ProcessingDetails → Option Current → Store → MediaWorkerResult × Store
release_found now details none store = (stale, store)
release_found now details (some current) store = (
  retry,
  record store {
    evidence =
        write_evidence
          (record (current.evidence) {
            details = some details;
            claim_token = none;
            lease_expires_at = now;
          })
          store.evidence;
    media = write_media (record (current.media) { status = MediaStatus.processing }) store.media;
  },
)

-- How often a message may be received is `max_attempts`.
unfoldable pub retry_or_fail :
    ℕ → ℕ → ℕ → ProcessingClaim → ProcessingDetails → String → Store → MediaWorkerResult × Store
retry_or_fail max_attempts receive_count now claim details failure_code store =
    if leb max_attempts (max claim.attempt_count receive_count)
    then (retry, (finalize_failure now claim details failed failure_code store).1)
    else release_found now details (lock_current_claim claim store) store

-- `_derivative_keys`, for the kinds of the derivatives
abbrev pub derivative_keys : ProcessingClaim → List ℕ → List ObjectKey
derivative_keys claim = map (derivative claim.listing_id claim.media_id claim.processing_version)

abbrev pub is_one_of : List ObjectKey → ObjectKey → Bool
is_one_of keys key = any (λ other. eq_key other key) keys

abbrev pub put_derivatives : List ObjectKey → Store → Store
put_derivatives keys store = record store { objects = store.objects ++ keys }

abbrev pub delete_derivatives : List ObjectKey → Store → Store
delete_derivatives keys store = record store {
  objects = select_where (λ key. not (is_one_of keys key)) store.objects;
}

-- what became of the image before the derivatives are stored
pub data Sanitizing : Type 0 where
  sanitized : (kinds : List ℕ) → Sanitizing
  image_rejected : (failure_code : String) → Sanitizing
  scanner_permanent scanner_transient broken : Sanitizing

abbrev pub after_finalize : List ObjectKey → Bool × Store → MediaWorkerResult × Store
after_finalize keys (true, store) = (completed, store)
after_finalize keys (false, store) = (stale, delete_derivatives keys store)

-- The upload of the derivatives has been tried, and `uploaded` is whether every one was stored.
unfoldable pub complete_upload :
    ℕ
    → ℕ
    → ℕ
    → ProcessingClaim
    → ProcessingDetails
    → List ObjectKey
    → Bool
    → Store
    → MediaWorkerResult × Store
complete_upload max_attempts receive_count now claim details keys true store =
    after_finalize keys (finalize_success now claim details keys store)
complete_upload max_attempts receive_count now claim details keys false store =
    retry_or_fail max_attempts receive_count now claim details "STORAGE_RETRY_EXHAUSTED"
      (delete_derivatives keys store)

abbrev pub with_scanner_error : ProcessingDetails → ProcessingDetails
with_scanner_error details = record details { scanner_status = some "error" }

-- `process` after its claim and up to the upload, which `complete_upload` goes on from
unfoldable pub finish_processing :
    ℕ
    → ℕ
    → ℕ
    → ProcessingClaim
    → ProcessingDetails
    → Sanitizing
    → Bool
    → Store
    → MediaWorkerResult × Store
finish_processing max_attempts receive_count now claim details (sanitized kinds) uploaded store =
    complete_upload max_attempts receive_count now claim details (derivative_keys claim kinds)
      uploaded (put_derivatives (derivative_keys claim kinds) store)
finish_processing max_attempts receive_count now claim details (image_rejected failure_code)
      uploaded store =
    (completed, (finalize_failure now claim details rejected failure_code store).1)
finish_processing max_attempts receive_count now claim details scanner_permanent uploaded store = (
  completed,
  (finalize_failure now claim (with_scanner_error details) failed "SCANNER_PERMANENT_FAILURE"
      store).1,
)
finish_processing max_attempts receive_count now claim details scanner_transient uploaded store =
    retry_or_fail max_attempts receive_count now claim (with_scanner_error details)
      "SCANNER_RETRY_EXHAUSTED" store
finish_processing max_attempts receive_count now claim details broken uploaded store =
    retry_or_fail max_attempts receive_count now claim details "PROCESSING_RETRY_EXHAUSTED" store
