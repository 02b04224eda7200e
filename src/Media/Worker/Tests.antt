-- ===== src/Media/Worker/Tests.antt =====
-- An image whose first worker is too slow: a second one takes the claim over.
use wheelmatch.Base.{ℕ, ◌≡◌, refl, ◌≢◌, true, false, none, some, [], ◌∷◌, arith}
use wheelmatch.Media.{MediaStatus}
use wheelmatch.Media.Worker.{
  quarantine, derivative, ListingMedia, failed, processing, ProcessingDetails,
  MediaProcessingEvidence, Store, ProcessingClaim, ClaimCall, claimed, MediaProcessingRequested,
  stale, claim, claim_media, claim_evidence,
}
use wheelmatch.Media.Worker.Finish.{
  lock_current_claim, finalize_success, finalize_failure, complete_upload, derivative_keys,
  is_one_of,
}
use wheelmatch.Media.Worker.Claims.{claim-supersedes}
use wheelmatch.Media.Worker.Storage.{complete_upload-stale}

abbrev image : ListingMedia
image = record {
  id = 3;
  listing_id = 2;
  object_key = quarantine 2 3;
  status = MediaStatus.scanning;
  processing_version = 1;
  processed_at = none;
  failure_code = none;
}

-- the evidence of the first worker, whose lease ends at 10
abbrev first_evidence : MediaProcessingEvidence
first_evidence = record {
  id = 30;
  media_id = 3;
  processing_version = 1;
  status = processing;
  attempt_count = 1;
  claim_token = some 8;
  claimed_at = 0;
  lease_expires_at = 10;
  details = none;
  failure_code = none;
  completed_at = none;
}

abbrev slow : Store
slow = record {
  media = image ∷ [];
  evidence = first_evidence ∷ [];
  derivatives = [];
  objects = derivative 2 3 1 0 ∷ [];
  outbox = [];
  audit = [];
}

abbrev request : MediaProcessingRequested
request = record { media_id = 3; listing_id = 2; processing_version = 1 }

abbrev second_call : ClaimCall
second_call = record { now = 20; lease_seconds = 1; claim_token = 9; evidence_id = 31 }

abbrev claim_with : ℕ → ℕ → ProcessingClaim
claim_with token attempts = record {
  media_id = 3;
  listing_id = 2;
  processing_version = 1;
  evidence_id = 30;
  claim_token = token;
  attempt_count = attempts;
}

abbrev taken_over : Store
taken_over = record slow {
  evidence =
      record first_evidence {
        attempt_count = 2;
        claim_token = some 9;
        claimed_at = 20;
        lease_expires_at = 1000020;
      }
      ∷ [];
}

takes_over : claim second_call request slow ≡ (claimed (claim_with 9 2), taken_over)
unfolding claim claim_media claim_evidence
takes_over = refl

abbrev no_details : ProcessingDetails
no_details = record {
  input_checksum_sha256 = none;
  detected_content_type = none;
  source_format = none;
  source_width = none;
  source_height = none;
  sanitized_checksum_sha256 = none;
  perceptual_hash = none;
  scanner_status = none;
}

different : ◌≢◌ {A = ℕ} 8 9
different e = absurd (omega arith)

claim-supersedes_example :
    (finalize_success 25 (claim_with 8 1) no_details [] taken_over ≡ (false, taken_over))
    × (finalize_failure 25 (claim_with 8 1) no_details failed "MALWARE_DETECTED" taken_over
        ≡ (false, taken_over))
claim-supersedes_example =
    claim-supersedes second_call request slow taken_over (claim_with 9 2) (claim_with 8 1) 25
      no_details [] failed "MALWARE_DETECTED" takes_over refl refl different

claim_gone : lock_current_claim (claim_with 8 1) taken_over ≡ none
unfolding lock_current_claim
claim_gone = refl

complete_upload-stale_example :
    ((complete_upload 3 1 25
        (claim_with 8 1)
        no_details
        (derivative_keys (claim_with 8 1) (0 ∷ []))
        true
        taken_over).0
      ≡ stale)
    × (is_one_of
          (complete_upload 3 1 25
            (claim_with 8 1)
            no_details
            (derivative_keys (claim_with 8 1) (0 ∷ []))
            true
            taken_over).1.objects
          (derivative 2 3 1 0)
        ≡ false)
    × ((complete_upload 3 1 25
          (claim_with 8 1)
          no_details
          (derivative_keys (claim_with 8 1) (0 ∷ []))
          true
          taken_over).1.derivatives
        ≡ taken_over.derivatives)
complete_upload-stale_example =
    complete_upload-stale 3 1 25 0 (claim_with 8 1) (claim_with 9 2) no_details (0 ∷ []) taken_over
      claim_gone refl refl refl refl
