-- ===== src/Media/Worker/Storage.antt =====
-- What a superseded claim does to the storage: the keys of the derivatives do not name the claim.
use wheelmatch.Base.{
  ℕ, ◌≡◌, refl, sym, subst, true, false, not, none, List, [], ◌∷◌, ◌==◌, any, select_where,
  Bool-cases, inl, inr, arith,
}
use wheelmatch.Media.Worker.{
  ObjectKey, quarantine, derivative, other, eq_key, ProcessingDetails, Store, ProcessingClaim,
  stale,
}
use wheelmatch.Media.Worker.Finish.{
  lock_current_claim, finalize_success, complete_upload, derivative_keys, is_one_of,
}

eq_key_sound : (a b : ObjectKey) → eq_key a b ≡ true → a ≡ b
eq_key_sound (quarantine l m) (quarantine k n) h = ground arith
eq_key_sound (derivative l m v k) (derivative l2 m2 v2 k2) h = ground arith
eq_key_sound (other a) (other b) h = ground arith
eq_key_sound (quarantine l m) (derivative l2 m2 v2 k2) h = absurd (cc)
eq_key_sound (quarantine l m) (other b) h = absurd (cc)
eq_key_sound (derivative l m v k) (quarantine l2 m2) h = absurd (cc)
eq_key_sound (derivative l m v k) (other b) h = absurd (cc)
eq_key_sound (other a) (quarantine l m) h = absurd (cc)
eq_key_sound (other a) (derivative l m v k) h = absurd (cc)

derivative_keys-is_one_of :
    (claim : ProcessingClaim) (kinds : List ℕ) (kind : ℕ)
    → any (λ k. k == kind) kinds ≡ true
    → is_one_of
        (derivative_keys claim kinds)
        (derivative claim.listing_id claim.media_id claim.processing_version kind)
      ≡ true
derivative_keys-is_one_of claim [] kind h = absurd (cc)
derivative_keys-is_one_of claim (k ∷ kinds) kind h =
    ground (arith, derivative_keys-is_one_of claim kinds kind)

select_where-is_one_of :
    (keys objects : List ObjectKey) (key : ObjectKey)
    → is_one_of keys key ≡ true
    → is_one_of (select_where (λ k. not (is_one_of keys k)) objects) key ≡ false
select_where-is_one_of keys [] key h = refl
select_where-is_one_of keys (k ∷ objects) key h =
    let rest = select_where-is_one_of keys objects key h in
    elim (Bool-cases (eq_key k key)) [
      | inl same ↦
          let at : is_one_of keys k ≡ true =
            subst (λ x. is_one_of keys x ≡ true) (sym (eq_key_sound k key same)) h in
          rw at rest
      | inr differs ↦ ground (arith, rest, differs)
    ]

-- A worker whose claim was taken over deletes, when it is done, the derivatives that any other
-- claim of the same media version has stored, while the rows that name them stay.
pub complete_upload-stale :
    (max_attempts receive_count now kind : ℕ) (old new : ProcessingClaim)
    (details : ProcessingDetails) (kinds : List ℕ) (store : Store)
    → lock_current_claim old store ≡ none
    → new.listing_id ≡ old.listing_id
    → new.media_id ≡ old.media_id
    → new.processing_version ≡ old.processing_version
    → any (λ k. k == kind) kinds ≡ true
    → ((complete_upload max_attempts receive_count now old details
          (derivative_keys old kinds)
          true
          store).0
        ≡ stale)
      × (is_one_of
            (complete_upload max_attempts receive_count now old details
              (derivative_keys old kinds)
              true
              store).1.objects
            (derivative new.listing_id new.media_id new.processing_version kind)
          ≡ false)
      × ((complete_upload max_attempts receive_count now old details
            (derivative_keys old kinds)
            true
            store).1.derivatives
          ≡ store.derivatives)
unfolding complete_upload finalize_success
complete_upload-stale max_attempts receive_count now kind old new details kinds store gone listing
      media version made =
    let gone_key =
      select_where-is_one_of (derivative_keys old kinds) store.objects
        (derivative old.listing_id old.media_id old.processing_version kind)
        (derivative_keys-is_one_of old kinds kind made) in
    rw (gone, listing, media, version) (refl, gone_key, refl)
