-- ===== src/Dealers.antt =====
-- Dealer organizations and their memberships, backend/app/modules/dealers: the tables, the
-- requests and the errors. `Service`, `Founding`, `Inviting`, `Accepting` and
-- `Leaving` have the handlers.
-- Ids, token hashes, keys and times are numbers.
pub mod Service
pub mod Leaving
pub mod Founding
pub mod Inviting
pub mod Accepting
pub mod Owners
pub mod History
pub mod Rights
pub mod Once
mod Tests
use Prim.Native.String.{String}
use wheelmatch.Base.{
  ℕ, Bool, true, false, not, ◌&&◌, Option, none, some, List, ◌==◌, find, update_first, count_where,
  Result,
}
use wheelmatch.Authorization.{
  Role, owner, admin, inventory_manager, sales_agent, unlisted, OrganizationStatus,
  OrganizationVerification, MembershipStatus, is_active_membership,
}
use wheelmatch.Identity.Users.{User}
use wheelmatch.Core.Events.{Event, AuditLog}
use wheelmatch.Core.Idempotency.{IdempotencyRecord}

pub record DealerOrganization : Type 0 where
  pub id : ℕ
  pub legal_name : String
  pub display_name : String
  pub status : OrganizationStatus
  pub verification_status : OrganizationVerification
  pub authorization_version : ℕ
  pub created_by_user_id : ℕ
  pub created_at : ℕ

pub record DealerMembership : Type 0 where
  pub id : ℕ
  pub organization_id : ℕ
  pub user_id : ℕ
  pub role : Role
  pub status : MembershipStatus
  pub invited_by_user_id : Option ℕ
  pub invitation_token_hash : Option ℕ
  pub invite_expires_at : Option ℕ
  pub accepted_at : Option ℕ
  pub suspended_at : Option ℕ
  pub left_at : Option ℕ
  pub revoked_at : Option ℕ
  pub version : ℕ
  pub created_at : ℕ

-- the body that an idempotency key records
pub data Body : Type 0 where
  organization_body : DealerOrganization → Body
  membership_body : DealerMembership → Body

-- an invitation that was handed to the delivery
pub record Invitation : Type 0 where
  pub user_id : ℕ
  pub organization_id : ℕ
  pub membership_id : ℕ
  pub token : ℕ

-- The tables, and what the handlers do after the commit: dropped cache entries, sent invitations.
pub record Store : Type 0 where
  pub users : List User
  pub organizations : List DealerOrganization
  pub memberships : List DealerMembership
  pub idempotency : List (IdempotencyRecord Body)
  pub outbox : List Event
  pub audit : List AuditLog
  pub invalidated : List ℕ
  pub sent : List Invitation

pub data ErrorCode : Type 0 where
  idempotency_key_conflict idempotency_in_progress invalid_replay account_inactive
        organization_not_found dealer_permission_denied membership_target_not_found
        membership_already_exists membership_invitation_invalid membership_update_empty
        membership_not_found membership_version_conflict last_active_owner_required
        membership_transition_invalid owner_transfer_required :
      ErrorCode

-- A raise inside the transaction rolls the store back, so an error carries none.
abbrev pub Outcome : Type 0 → Type 0
Outcome A = Result ErrorCode (A × Store)

abbrev pub get_organization : ℕ → List DealerOrganization → Option DealerOrganization
get_organization id = find (λ row. row.id == id)

abbrev pub get_membership : ℕ → List DealerMembership → Option DealerMembership
get_membership id = find (λ row. row.id == id)

abbrev pub get_membership_for_user : ℕ → ℕ → List DealerMembership → Option DealerMembership
get_membership_for_user organization_id user_id =
    find (λ row. row.organization_id == organization_id && row.user_id == user_id)

abbrev pub write_organization :
    DealerOrganization → List DealerOrganization → List DealerOrganization
write_organization organization =
    update_first (λ row. row.id == organization.id) (λ row. organization)

abbrev pub write_membership : DealerMembership → List DealerMembership → List DealerMembership
write_membership membership = update_first (λ row. row.id == membership.id) (λ row. membership)

abbrev pub is_owner : Role → Bool
is_owner owner = true
is_owner _ = false

-- an active owner of the organization
abbrev pub is_active_owner : ℕ → DealerMembership → Bool
is_active_owner organization_id row =
    row.organization_id == organization_id && (is_owner row.role && is_active_membership row.status)

unfoldable pub count_other_active_owners : ℕ → ℕ → List DealerMembership → ℕ
count_other_active_owners organization_id excluded =
    count_where (λ row. is_active_owner organization_id row && not (row.id == excluded))

abbrev pub role_text : Role → String
role_text owner = "owner"
role_text admin = "admin"
role_text inventory_manager = "inventory_manager"
role_text sales_agent = "sales_agent"
role_text unlisted = ""

abbrev pub status_text : MembershipStatus → String
status_text MembershipStatus.invited = "invited"
status_text MembershipStatus.active = "active"
status_text MembershipStatus.suspended = "suspended"
status_text MembershipStatus.left = "left"
status_text MembershipStatus.revoked = "revoked"

abbrev pub role_index : Role → ℕ
role_index owner = 0
role_index admin = 1
role_index inventory_manager = 2
role_index sales_agent = 3
role_index unlisted = 4

abbrev pub status_index : MembershipStatus → ℕ
status_index MembershipStatus.invited = 0
status_index MembershipStatus.active = 1
status_index MembershipStatus.suspended = 2
status_index MembershipStatus.left = 3
status_index MembershipStatus.revoked = 4

-- `MembershipUpdateRequest`
pub record MembershipUpdateRequest : Type 0 where
  pub role : Option Role
  pub status : Option MembershipStatus
  pub expected_version : ℕ
