-- ===== src/Media/Worker.antt =====
-- Claims of the media worker, backend/app/modules/media/worker.py: what it reads and writes in the
-- tables and in the object storage. A downloaded object, a scan and a sanitized image are inputs.
pub mod Finish
pub mod Claims
pub mod Storage
mod Tests
use Prim.Native.String.{String}
use wheelmatch.Base.{
  ℕ, suc, ◌+◌, ◌*◌, max, Bool, true, false, not, ◌&&◌, ◌||◌, Option, none, some, List, [], ◌∷◌,
  ◌++◌, map, length, ◌==◌, ltb, leb, if◌then◌else◌, eq_option, find, any, select_where,
  update_first,
}
use wheelmatch.Media.{MediaStatus}
use wheelmatch.Core.Events.{Event, AuditLog, Value, add}

-- `quarantine/listings/…`, `private/derivatives/listings/…`, and any other key
pub data ObjectKey : Type 0 where
  quarantine : (listing_id media_id : ℕ) → ObjectKey
  derivative : (listing_id media_id version kind : ℕ) → ObjectKey
  other : ℕ → ObjectKey

abbrev pub eq_key : ObjectKey → ObjectKey → Bool
eq_key (quarantine l m) (quarantine l' m') = l == l' && m == m'
eq_key (derivative l m v k) (derivative l' m' v' k') = l == l' && m == m' && v == v' && k == k'
eq_key (other a) (other b) = a == b
eq_key _ _ = false

pub record ListingMedia : Type 0 where
  pub id : ℕ
  pub listing_id : ℕ
  pub object_key : ObjectKey
  pub status : MediaStatus
  pub processing_version : ℕ
  pub processed_at : Option ℕ
  pub failure_code : Option String

pub data EvidenceStatus : Type 0 where
  processing moderation_pending rejected failed : EvidenceStatus

pub record ProcessingDetails : Type 0 where
  pub input_checksum_sha256 : Option ℕ
  pub detected_content_type : Option String
  pub source_format : Option String
  pub source_width : Option ℕ
  pub source_height : Option ℕ
  pub sanitized_checksum_sha256 : Option ℕ
  pub perceptual_hash : Option ℕ
  pub scanner_status : Option String

pub record MediaProcessingEvidence : Type 0 where
  pub id : ℕ
  pub media_id : ℕ
  pub processing_version : ℕ
  pub status : EvidenceStatus
  pub attempt_count : ℕ
  pub claim_token : Option ℕ
  pub claimed_at : ℕ
  pub lease_expires_at : ℕ
  pub details : Option ProcessingDetails
  pub failure_code : Option String
  pub completed_at : Option ℕ

pub record MediaDerivative : Type 0 where
  pub media_id : ℕ
  pub evidence_id : ℕ
  pub processing_version : ℕ
  pub object_key : ObjectKey

-- the tables and the keys of the private storage
pub record Store : Type 0 where
  pub media : List ListingMedia
  pub evidence : List MediaProcessingEvidence
  pub derivatives : List MediaDerivative
  pub objects : List ObjectKey
  pub outbox : List Event
  pub audit : List AuditLog

pub record MediaProcessingRequested : Type 0 where
  pub media_id : ℕ
  pub listing_id : ℕ
  pub processing_version : ℕ

pub record ProcessingClaim : Type 0 where
  pub media_id : ℕ
  pub listing_id : ℕ
  pub processing_version : ℕ
  pub evidence_id : ℕ
  pub claim_token : ℕ
  pub attempt_count : ℕ

pub data MediaWorkerResult : Type 0 where
  completed stale in_progress retry : MediaWorkerResult

pub data ClaimResult : Type 0 where
  claimed : ProcessingClaim → ClaimResult
  refused : MediaWorkerResult → ClaimResult

-- `status in {"processing", "scanning"}`
abbrev pub is_worked_on : MediaStatus → Bool
is_worked_on MediaStatus.processing = true
is_worked_on MediaStatus.scanning = true
is_worked_on _ = false

abbrev pub is_processing : EvidenceStatus → Bool
is_processing processing = true
is_processing _ = false

abbrev pub get : ℕ → List ListingMedia → Option ListingMedia
get media_id = find (λ row. row.id == media_id)

abbrev pub is_evidence_of : ℕ → ℕ → MediaProcessingEvidence → Bool
is_evidence_of media_id version row = row.media_id == media_id && row.processing_version == version

abbrev pub get_evidence : ℕ → ℕ → List MediaProcessingEvidence → Option MediaProcessingEvidence
get_evidence media_id version = find (is_evidence_of media_id version)

abbrev pub write_media : ListingMedia → List ListingMedia → List ListingMedia
write_media media = update_first (λ row. row.id == media.id) (λ row. media)

abbrev pub write_evidence :
    MediaProcessingEvidence → List MediaProcessingEvidence → List MediaProcessingEvidence
write_evidence evidence =
    update_first (is_evidence_of evidence.media_id evidence.processing_version) (λ row. evidence)

abbrev pub processing_request_is_current : ListingMedia → MediaProcessingRequested → Bool
processing_request_is_current media request =
    media.id == request.media_id
    && media.listing_id == request.listing_id
    && media.processing_version == request.processing_version
    && is_worked_on media.status

-- What a claim draws: its time, the lease, the token, and the id of new evidence.
pub record ClaimCall : Type 0 where
  pub now : ℕ
  pub lease_seconds : ℕ
  pub claim_token : ℕ
  pub evidence_id : ℕ

abbrev pub lease_end : ClaimCall → ℕ
lease_end call = call.now + call.lease_seconds * 1000000

abbrev pub new_evidence : ClaimCall → ListingMedia → MediaProcessingEvidence
new_evidence call media = record {
  id = call.evidence_id;
  media_id = media.id;
  processing_version = media.processing_version;
  status = processing;
  attempt_count = 1;
  claim_token = some call.claim_token;
  claimed_at = call.now;
  lease_expires_at = lease_end call;
  details = none;
  failure_code = none;
  completed_at = none;
}

abbrev pub renewed : ClaimCall → MediaProcessingEvidence → MediaProcessingEvidence
renewed call evidence = record evidence {
  attempt_count = suc evidence.attempt_count;
  claim_token = some call.claim_token;
  claimed_at = call.now;
  lease_expires_at = lease_end call;
}

abbrev pub claim_of : ListingMedia → MediaProcessingEvidence → ClaimCall → ProcessingClaim
claim_of media evidence call = record {
  media_id = media.id;
  listing_id = media.listing_id;
  processing_version = media.processing_version;
  evidence_id = evidence.id;
  claim_token = call.claim_token;
  attempt_count = evidence.attempt_count;
}

abbrev pub scan : ListingMedia → List ListingMedia → List ListingMedia
scan media = write_media (record media { status = MediaStatus.scanning })

pub claim_evidence :
    ClaimCall → ListingMedia → Option MediaProcessingEvidence → Store → ClaimResult × Store
claim_evidence call media none store = (
  claimed (claim_of media (new_evidence call media) call),
  record store {
    evidence = add (new_evidence call media) store.evidence;
    media = scan media store.media;
  },
)
claim_evidence call media (some evidence) store =
    if not (is_processing evidence.status)
    then (refused stale, store)
    else if ltb call.now evidence.lease_expires_at
    then (refused in_progress, store)
    else (
      claimed (claim_of media (renewed call evidence) call),
      record store {
        evidence = write_evidence (renewed call evidence) store.evidence;
        media = scan media store.media;
      },
    )

pub claim_media :
    ClaimCall → MediaProcessingRequested → Option ListingMedia → Store → ClaimResult × Store
claim_media call request none store = (refused stale, store)
claim_media call request (some media) store =
    if not (processing_request_is_current media request)
      || not (eq_key media.object_key (quarantine request.listing_id request.media_id))
    then (refused stale, store)
    else claim_evidence call media
        (get_evidence request.media_id request.processing_version store.evidence) store

-- `_claim`
pub claim : ClaimCall → MediaProcessingRequested → Store → ClaimResult × Store
claim call request store = claim_media call request (get request.media_id store.media) store
