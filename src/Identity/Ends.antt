-- ===== src/Identity/Ends.antt =====
-- The ends of a session: no access token of it is accepted afterwards.
use wheelmatch.Base.{
  ℕ, ◌≡◌, refl, sym, subst, Bool, true, false, ◌&&◌, some, List, ◌==◌, Option-cases, inl, inr,
  arith, ok, err, find_sound, find-update_where, any-find,
}
use wheelmatch.Identity.Sessions.{
  Store, SessionFamily, session_invalid, Reason, get_session_family_for_user, revoke_family,
  revoke_user_sessions, open_family_id, is_open_of,
}
use wheelmatch.Identity.Sessions.Closed.{is_closed, is_revoked, IsClosed, revoke_family-closes}
use wheelmatch.Identity.Signout.{
  Principal, authenticate_access_token, logout_session, logout_every_session,
}
use wheelmatch.Identity.History.{Service, Call, run}
use wheelmatch.Identity.Revocation.{run-IsClosed}

-- The token of a revoked family is refused.
pub authenticate-IsClosed :
    (now : ℕ) (claims : Principal) (store : Store)
    → IsClosed claims.session_family_id claims.user_id store
    → authenticate_access_token now (some claims) store ≡ err session_invalid
unfolding authenticate_access_token is_closed
authenticate-IsClosed now claims store h =
    elim (Option-cases
      (get_session_family_for_user claims.session_family_id claims.user_id store.families)) [
        | inl missing ↦ absurd (cc)
        | inr (family, f) ↦ ground arith
      ]

-- A token is accepted while its family and its user's row stand as they should.
pub authenticate-found :
    (now : ℕ) (claims : Principal) (store : Store)
    → authenticate_access_token now (some claims) store ≡ ok claims
    → (family : SessionFamily) × (get_session_family_for_user claims.session_family_id
          claims.user_id store.families
        ≡ some family)
      × (is_revoked family ≡ false)
unfolding authenticate_access_token
authenticate-found now claims store e =
    elim (Option-cases
      (get_session_family_for_user claims.session_family_id claims.user_id store.families)) [
        | inl missing ↦ absurd (ground arith)
        | inr (family, f) ↦ (family, f, ground arith)
      ]

get_session_family_for_user-closes :
    (family_id user_id : ℕ) (now : ℕ) (reason : Reason) (reuse : Bool) (family : SessionFamily)
    (store : Store)
    → get_session_family_for_user family_id user_id store.families ≡ some family
    → IsClosed family_id user_id (revoke_family family now reason reuse store)
get_session_family_for_user-closes family_id user_id now reason reuse family store f =
    let same =
      find_sound (λ (g : SessionFamily). g.id == family_id && g.user_id == user_id) store.families
        family f in
    let id : family_id ≡ family.id = ground arith in
    let owner_id : user_id ≡ family.user_id = ground arith in
    let row : get_session_family_for_user family.id family.user_id store.families ≡ some family =
      subst (λ i. get_session_family_for_user i family.user_id store.families ≡ some family) id
        (subst (λ u. get_session_family_for_user family_id u store.families ≡ some family) owner_id
          f) in
    subst (λ i. IsClosed i user_id (revoke_family family now reason reuse store)) (sym id)
      (subst (λ u. IsClosed family.id u (revoke_family family now reason reuse store))
        (sym owner_id) (revoke_family-closes family now reason reuse store row))

logout_session-closes :
    (now issued : ℕ) (principal : Principal) (store : Store)
    → authenticate_access_token issued (some principal) store ≡ ok principal
    → IsClosed principal.session_family_id principal.user_id (logout_session now principal store)
unfolding logout_session
logout_session-closes now issued principal store e =
    let (family, f, live) = authenticate-found issued principal store e in
    let closed =
      get_session_family_for_user-closes principal.session_family_id principal.user_id now
        Reason.logout false family store f in
    rw f (ground (arith, closed))

-- A caller that logs out with an accepted access token never has it accepted again, at any time
-- and after any history of calls.
pub logout_session-run :
    (service : Service) (now issued later : ℕ) (principal : Principal) (store : Store)
    (calls : List Call)
    → authenticate_access_token issued (some principal) store ≡ ok principal
    → authenticate_access_token later
        (some principal)
        (run service (logout_session now principal store) calls)
      ≡ err session_invalid
logout_session-run service now issued later principal store calls e =
    authenticate-IsClosed later principal _ (
      run-IsClosed principal.session_family_id principal.user_id service _ calls
        (logout_session-closes now issued principal store e))

pub revoke_user_sessions-closes :
    (now issued : ℕ) (claims : Principal) (reason : Reason) (store : Store)
    → authenticate_access_token issued (some claims) store ≡ ok claims
    → IsClosed claims.session_family_id claims.user_id
        (revoke_user_sessions claims.user_id now reason store).1
unfolding revoke_user_sessions is_closed
revoke_user_sessions-closes now issued claims reason store e =
    let (family, f, live) = authenticate-found issued claims store e in
    let same =
      find_sound
        (λ (g : SessionFamily). g.id == claims.session_family_id && g.user_id == claims.user_id)
        store.families family f in
    let selected : open_family_id claims.user_id store.families family.id ≡ true =
      any-find (λ g. is_open_of claims.user_id g && g.id == family.id) _ store.families family f
        (ground arith) in
    rw
      (
        find-update_where (λ g. open_family_id claims.user_id store.families g.id)
            (λ (g : SessionFamily). g.id == claims.session_family_id && g.user_id == claims.user_id)
            (λ g. record g { revoked_at = some now; revocation_reason = some reason })
            store.families family (λ x. refl) f,
        selected,
      )
      refl

-- Logging out of every session ends all of them: no access token of the user that was accepted
-- before is ever accepted again.
pub logout_every_session-run :
    (service : Service) (now issued later : ℕ) (principal claims : Principal) (store : Store)
    (calls : List Call)
    → claims.user_id ≡ principal.user_id
    → authenticate_access_token issued (some claims) store ≡ ok claims
    → authenticate_access_token later
        (some claims)
        (run service (logout_every_session now principal store).1 calls)
      ≡ err session_invalid
unfolding logout_every_session
logout_every_session-run service now issued later principal claims store calls same e =
    authenticate-IsClosed later claims _ (
      run-IsClosed claims.session_family_id claims.user_id service _ calls (
        subst
          (λ u.
            IsClosed claims.session_family_id claims.user_id
              (revoke_user_sessions u now Reason.logout_all store).1)
          same (revoke_user_sessions-closes now issued claims Reason.logout_all store e)))
