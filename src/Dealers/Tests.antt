-- ===== src/Dealers/Tests.antt =====
-- An organization with one active owner, who tries to leave it and to hand it over.
use wheelmatch.Base.{ℕ, ◌≡◌, refl, none, some, List, [], ◌∷◌, ok, err}
use wheelmatch.Authorization.{
  Role, owner, admin, UserStatus, OrganizationStatus, OrganizationVerification, MembershipStatus,
}
use wheelmatch.Identity.Users.{User}
use wheelmatch.Dealers.{
  Store, DealerOrganization, DealerMembership, ErrorCode, MembershipUpdateRequest,
}
use wheelmatch.Dealers.Service.{
  Loaded, update_membership, load_authorization_context, require_membership_permission,
  has_other_owner, removes_active_owner, commit_update,
}
use wheelmatch.Dealers.Leaving.{leave_organization}
use wheelmatch.Dealers.Owners.{HasOwner}
use wheelmatch.Dealers.History.{Call, run, update, leave, run-HasOwner}
use wheelmatch.Dealers.Accepting.{accept_invitation, activate}
use wheelmatch.Dealers.Once.{Accepted, accept_invitation-once}
use wheelmatch.Dealers.Rights.{Allowed, update_membership-Allowed}

abbrev person : ℕ → User
person id = record {
  id = id;
  normalized_email = id;
  password_hash = 100;
  status = UserStatus.active;
  email_verified_at = some 1;
  phone_verified_at = some 1;
  password_changed_at = 0;
  failed_login_attempts = 0;
  login_locked_until = none;
  authorization_version = 1;
  deleted_at = none;
}

abbrev member : ℕ → ℕ → Role → DealerMembership
member id user_id role = record {
  id = id;
  organization_id = 5;
  user_id = user_id;
  role = role;
  status = MembershipStatus.active;
  invited_by_user_id = none;
  invitation_token_hash = none;
  invite_expires_at = none;
  accepted_at = some 1;
  suspended_at = none;
  left_at = none;
  revoked_at = none;
  version = 1;
  created_at = 1;
}

abbrev dealer : DealerOrganization
dealer = record {
  id = 5;
  legal_name = "Wheels Ltd";
  display_name = "Wheels";
  status = OrganizationStatus.active;
  verification_status = OrganizationVerification.verified;
  authorization_version = 1;
  created_by_user_id = 1;
  created_at = 1;
}

abbrev shop : Store
shop = record {
  users = person 1 ∷ person 2 ∷ [];
  organizations = dealer ∷ [];
  memberships = member 11 1 owner ∷ member 12 2 admin ∷ [];
  idempotency = [];
  outbox = [];
  audit = [];
  invalidated = [];
  sent = [];
}

abbrev promote : MembershipUpdateRequest
promote = record { role = some owner; status = none; expected_version = 1 }

abbrev calls : List Call
calls = leave 2 1 11 1 ∷ update 3 1 5 12 promote ∷ leave 4 1 11 1 ∷ leave 5 2 12 2 ∷ []

-- the last owner may not leave
lone_owner_stays : leave_organization 2 1 11 1 shop ≡ err ErrorCode.owner_transfer_required
unfolding leave_organization has_other_owner wheelmatch.Dealers.count_other_active_owners
lone_owner_stays = refl

shop-HasOwner : HasOwner 5 shop
shop-HasOwner = refl

run-HasOwner_example : HasOwner 5 (run shop calls)
run-HasOwner_example = run-HasOwner 5 shop calls shop-HasOwner

abbrev promoted : DealerMembership
promoted = record (member 12 2 owner) { version = 2 }

abbrev after_promotion : Store
after_promotion =
    (commit_update 1
      (record { actor = person 1; organization = dealer; membership = member 11 1 owner })
      (member 12 2 admin) (member 12 2 owner) shop).1

promotes : update_membership 3 1 5 12 promote shop ≡ ok (promoted, after_promotion)
unfolding update_membership load_authorization_context require_membership_permission commit_update
    removes_active_owner has_other_owner wheelmatch.Authorization.permits
    wheelmatch.Authorization.dealer_permissions wheelmatch.Authorization.role_permissions
promotes = refl

update_membership-Allowed_example :
    (loaded : Loaded) × (row : DealerMembership) × (load_authorization_context 1 5 shop ≡ ok loaded)
    × Allowed 5 12 promote shop loaded row
update_membership-Allowed_example =
    update_membership-Allowed 3 1 5 12 promote shop after_promotion promoted promotes

-- an invitation of the second user that waits
abbrev invitation : DealerMembership
invitation = record (member 13 2 admin) {
  status = MembershipStatus.invited;
  invitation_token_hash = some 77;
  invite_expires_at = some 100;
  accepted_at = none;
}

abbrev inviting_shop : Store
inviting_shop = record shop { memberships = member 11 1 owner ∷ invitation ∷ [] }

abbrev joined : DealerMembership × Store
joined = activate 50 (person 2) dealer invitation inviting_shop

accepts : accept_invitation 50 2 13 77 inviting_shop ≡ ok (joined.0, joined.1)
unfolding accept_invitation
accepts = refl

accept_invitation-once_example :
    Accepted 50 2 13 77 inviting_shop
    × (accept_invitation 60 2 13 77 joined.1 ≡ err ErrorCode.membership_invitation_invalid)
accept_invitation-once_example =
    accept_invitation-once 50 2 13 77 60 2 77 inviting_shop joined.1 joined.0 accepts
