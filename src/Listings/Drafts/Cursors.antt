-- ===== src/Listings/Drafts/Cursors.antt =====
-- Page cursors, backend/app/modules/listings/cursors.py. A token is the payload with its signature;
-- the text that base64 and JSON write it down in is left out, and a text that they do not read is
-- `garbage`. `mac` is the keyed HMAC of a payload, and `digest` the SHA-256 of a filter key. Times
-- are in microseconds, and a cursor ends at a whole second.
use Prim.Native.Nat.{◌/◌}
use wheelmatch.Base.{
  ◌*◌, ℕ, ◌+◌, ◌≡◌, not, ◌&&◌, ◌==◌, ltb, leb, if◌then◌else◌, Result, ok, err, ◌>>◌, raise_if,
  arith,
}
use wheelmatch.Listings.Drafts.{ErrorCode}

pub record ListingCursor : Type 0 where
  pub updated_at : ℕ
  pub listing_id : ℕ

pub record Payload : Type 0 where
  pub updated_at : ℕ
  pub listing_id : ℕ
  pub filter : ℕ
  pub expires_at : ℕ

pub data Text : Type 0 where
  garbage : Text
  token : (raw : Payload) (signature : ℕ) → Text

-- `int(time.timestamp())`
abbrev pub timestamp : ℕ → ℕ
timestamp time = time / 1000000

module _ {K : Type 0} (mac : Payload → ℕ) (digest : K → ℕ) (ttl : ℕ) where
  unfoldable pub encode : ℕ → ListingCursor → K → Text
  encode now cursor filter_key =
      let payload : Payload = record {
        updated_at = cursor.updated_at;
        listing_id = cursor.listing_id;
        filter = digest filter_key;
        expires_at = timestamp (now + ttl * 1000000);
      } in
      token payload (mac payload)

  unfoldable pub decode : ℕ → Text → K → Result ErrorCode ListingCursor
  decode now garbage filter_key = err ErrorCode.listing_cursor_invalid
  decode now (token raw signature) filter_key = do
    raise_if (not (signature == mac raw)) ErrorCode.listing_cursor_invalid
    raise_if (not (raw.filter == digest filter_key)) ErrorCode.listing_cursor_invalid
    raise_if (ltb raw.expires_at (timestamp now)) ErrorCode.listing_cursor_invalid
    ok (record { updated_at = raw.updated_at; listing_id = raw.listing_id })

  -- A cursor is read again for a filter with the same digest until the second in which its time to
  -- live has passed, and is refused for every other filter and later.
  pub decode-encode :
      (now later : ℕ) (cursor : ListingCursor) (filter_key other_key : K)
      → decode later (encode now cursor filter_key) other_key ≡ (
          if (digest filter_key == digest other_key)
            && leb (timestamp later) (timestamp (now + ttl * 1000000))
          then ok cursor
          else err ErrorCode.listing_cursor_invalid)
  unfolding decode encode
  decode-encode now later cursor filter_key other_key = ground arith
