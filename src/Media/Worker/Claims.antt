-- ===== src/Media/Worker/Claims.antt =====
-- A claim that another took over changes nothing any more.
use Prim.Native.String.{String}
use wheelmatch.Base.{
  ℕ, ◌≡◌, refl, ◌≢◌, true, false, none, some, List, find_sound, find-append_none, find-update_first,
  Option-cases, inl, inr, arith,
}
use wheelmatch.Media.Worker.{
  ObjectKey, ListingMedia, EvidenceStatus, ProcessingDetails, MediaProcessingEvidence, Store,
  ProcessingClaim, ClaimCall, claimed, MediaProcessingRequested, get, get_evidence, is_evidence_of,
  new_evidence, renewed, claim_evidence, claim_media, claim, processing_request_is_current,
}
use wheelmatch.Media.Worker.Finish.{lock_current_claim, finalize_success, finalize_failure}

-- the evidence after a claim carries its token
record Holds (call : ClaimCall) (request : MediaProcessingRequested) (store : Store) : Type 0 where
  row : MediaProcessingEvidence
  found : get_evidence request.media_id request.processing_version store.evidence ≡ some row
  token : row.claim_token ≡ some call.claim_token

claim_evidence-Holds :
    (call : ClaimCall) (request : MediaProcessingRequested) (media : ListingMedia)
    (store next : Store) (c : ProcessingClaim)
    → processing_request_is_current media request ≡ true
    → claim_evidence call media
        (get_evidence request.media_id request.processing_version store.evidence)
        store
      ≡ (claimed c, next)
    → Holds call request next
unfolding claim_evidence
claim_evidence-Holds call request media store next c current e =
    elim (Option-cases (get_evidence request.media_id request.processing_version store.evidence)) [
      | inl missing ↦ record {
        row = new_evidence call media;
        found = ground (
          arith,
          missing,
          find-append_none (is_evidence_of request.media_id request.processing_version)
              store.evidence (new_evidence call media) missing,
        );
        token = refl;
      }
      | inr (evidence, f) ↦
          let hit =
            find_sound (is_evidence_of request.media_id request.processing_version) store.evidence
              evidence f in
          let written =
            find-update_first (is_evidence_of evidence.media_id evidence.processing_version)
              (is_evidence_of request.media_id request.processing_version) (renewed call evidence)
              store.evidence evidence f (ground arith) hit in
          record { row = renewed call evidence; found = ground (arith, f, written); token = refl }
    ]

claim-Holds :
    (call : ClaimCall) (request : MediaProcessingRequested) (store next : Store)
    (c : ProcessingClaim)
    → claim call request store ≡ (claimed c, next)
    → Holds call request next
unfolding claim claim_media
claim-Holds call request store next c e = elim (Option-cases (get request.media_id store.media)) [
  | inl missing ↦ absurd (ground arith)
  | inr (media, f) ↦
      claim_evidence-Holds call request media store next c (ground arith) (ground arith)
]

superseded :
    (call : ClaimCall) (request : MediaProcessingRequested) (store : Store) (old : ProcessingClaim)
    → Holds call request store
    → old.media_id ≡ request.media_id
    → old.processing_version ≡ request.processing_version
    → old.claim_token ≢ call.claim_token
    → lock_current_claim old store ≡ none
unfolding lock_current_claim
superseded call request store old h media version differs =
    let token = h.token in
    let found : get_evidence old.media_id old.processing_version store.evidence ≡ some h.row =
      rw (media, version) h.found in
    elim (Option-cases (get old.media_id store.media)) [
      | inl missing ↦ rw missing refl
      | inr (row, f) ↦ rw (f, found) (ground arith)
    ]

-- Once a worker has claimed the processing of a media version, a claim of it with another token can
-- neither finish it nor fail it: both ends find the claim gone and leave every table as it is.
pub claim-supersedes :
    (call : ClaimCall) (request : MediaProcessingRequested) (store next : Store)
    (new old : ProcessingClaim) (now : ℕ) (details : ProcessingDetails) (keys : List ObjectKey)
    (state : EvidenceStatus) (code : String)
    → claim call request store ≡ (claimed new, next)
    → old.media_id ≡ request.media_id
    → old.processing_version ≡ request.processing_version
    → old.claim_token ≢ call.claim_token
    → (finalize_success now old details keys next ≡ (false, next))
      × (finalize_failure now old details state code next ≡ (false, next))
unfolding finalize_success finalize_failure
claim-supersedes call request store next new old now details keys state code e media version
      differs =
    let gone =
      superseded call request next old (claim-Holds call request store next new e) media version
        differs in
    (rw gone refl, rw gone refl)
