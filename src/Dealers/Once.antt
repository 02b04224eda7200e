-- ===== src/Dealers/Once.antt =====
-- Who accepts an invitation, and that it is accepted once.
use wheelmatch.Base.{
  ℕ, suc, ◌≡◌, refl, ◌<◌, true, false, none, some, ok, err, arith, Option-cases, inl, inr, ◌==◌,
  find_sound, find-update_first,
}
use wheelmatch.Authorization.{MembershipStatus, is_active_organization}
use wheelmatch.Identity.Users.{User, get_user_by_id}
use wheelmatch.Dealers.{
  Store, DealerOrganization, DealerMembership, ErrorCode, get_membership, get_organization,
}
use wheelmatch.Dealers.Accepting.{accept_invitation, activate, is_invited}

-- what an accepted invitation shows of the stored rows
pub record Accepted (now actor_user_id membership_id digest : ℕ) (store : Store) : Type 0 where
  pub row : DealerMembership
  pub organization : DealerOrganization
  pub stored : get_membership membership_id store.memberships ≡ some row
  pub own : row.user_id ≡ actor_user_id
  pub invited : is_invited row.status ≡ true
  pub token : row.invitation_token_hash ≡ some digest
  pub deadline : ℕ
  pub expires : row.invite_expires_at ≡ some deadline
  pub in_time : now < deadline
  pub dealer : get_organization row.organization_id store.organizations ≡ some organization
  pub active : is_active_organization organization.status ≡ true

accept_invitation-not_invited :
    (now actor_user_id membership_id digest : ℕ) (row : DealerMembership) (store : Store)
    → get_membership membership_id store.memberships ≡ some row
    → is_invited row.status ≡ false
    → accept_invitation now actor_user_id membership_id digest store
      ≡ err ErrorCode.membership_invitation_invalid
unfolding accept_invitation
accept_invitation-not_invited now actor_user_id membership_id digest row store found e =
    elim (Option-cases (get_user_by_id actor_user_id store.users)) [
      | inl missing ↦ rw missing refl
      | inr (actor, a) ↦ rw (a, found) (ground arith)
    ]

abbrev accepted_row : ℕ → DealerMembership → DealerMembership
accepted_row now row = record row {
  status = MembershipStatus.active;
  accepted_at = some now;
  invitation_token_hash = none;
  version = suc row.version;
}

activate-found :
    (now membership_id : ℕ) (actor : User) (organization : DealerOrganization)
    (row : DealerMembership) (store : Store)
    → get_membership membership_id store.memberships ≡ some row
    → get_membership membership_id (activate now actor organization row store).1.memberships
      ≡ some (accepted_row now row)
unfolding activate
activate-found now membership_id actor organization row store found =
    let hit =
      find_sound (λ (r : DealerMembership). r.id == membership_id) store.memberships row found in
    find-update_first (λ (r : DealerMembership). r.id == row.id)
      (λ (r : DealerMembership). r.id == membership_id) (accepted_row now row) store.memberships row
      found (ground arith) hit

-- An invitation is accepted only by the invited user, with the token that was sent, before it
-- expires, into an active organization; and once it was accepted, no one accepts it again.
pub accept_invitation-once :
    (now actor_user_id membership_id digest now' actor_user_id' digest' : ℕ) (store next : Store)
    (m : DealerMembership)
    → accept_invitation now actor_user_id membership_id digest store ≡ ok (m, next)
    → Accepted now actor_user_id membership_id digest store
      × (accept_invitation now' actor_user_id' membership_id digest' next
          ≡ err ErrorCode.membership_invitation_invalid)
unfolding accept_invitation
accept_invitation-once now actor_user_id membership_id digest now' actor' digest' store next m e =
    elim (Option-cases (get_user_by_id actor_user_id store.users)) [
      | inl missing ↦ absurd (ground arith)
      | inr (actor, a) ↦ elim (Option-cases (get_membership membership_id store.memberships)) [
        | inl missing ↦ absurd (ground arith)
        | inr (row, r) ↦
            elim (Option-cases (get_organization row.organization_id store.organizations)) [
              | inl missing ↦ absurd (ground arith)
              | inr (organization, o) ↦ elim (Option-cases row.invite_expires_at) [
                | inl missing ↦ absurd (ground arith)
                | inr (deadline, d) ↦ (
                  record {
                    row = row;
                    organization = organization;
                    stored = r;
                    own = ground arith;
                    invited = ground arith;
                    token = ground arith;
                    deadline = deadline;
                    expires = d;
                    in_time = ground arith;
                    dealer = o;
                    active = ground arith;
                  },
                  let same : next ≡ (activate now actor organization row store).1 = ground arith in
                      rw same (
                        accept_invitation-not_invited now' actor' membership_id digest'
                          (accepted_row now row) (activate now actor organization row store).1
                          (activate-found now membership_id actor organization row store r) refl),
                )
              ]
            ]
      ]
    ]
