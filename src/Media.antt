-- ===== src/Media.antt =====
-- Images of a listing and their processing, backend/app/modules/media.
pub mod Worker

-- `ListingMedia.status`
pub data MediaStatus : Type 0 where
  intent_created processing scanning moderation_pending rejected removed expired failed :
      MediaStatus
