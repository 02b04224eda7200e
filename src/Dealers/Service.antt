-- ===== src/Dealers/Service.antt =====
-- The handlers of backend/app/modules/dealers/service.py. Each takes the time and the ids that it
-- would draw, and the store; the digest of a token is a function `digest`.
use wheelmatch.Base.{
  ℕ, suc, Bool, true, false, not, ◌&&◌, ◌||◌, Option, none, some, List, [], ◌∷◌, ◌++◌, ◌==◌, ltb,
  if◌then◌else◌, is_none, is_some, Result, ok, err, ◌>>=◌, ◌>>◌, raise_if, or_raise,
}
use wheelmatch.Authorization.{
  Role, MembershipStatus, DealerPermission, membership_manage, permits, is_active_membership,
  AuthorizationContext,
}
use wheelmatch.Identity.Users.{User, get_user_by_id, write_user}
use wheelmatch.Core.Events.{Value, add}
use wheelmatch.Dealers.{
  Store, Outcome, ErrorCode, DealerOrganization, DealerMembership, get_organization, get_membership,
  get_membership_for_user, write_organization, write_membership, is_owner,
  count_other_active_owners, role_text, status_text, role_index, status_index,
  MembershipUpdateRequest,
}

-- `_load_authorization_context`
pub record Loaded : Type 0 where
  pub actor : User
  pub organization : DealerOrganization
  pub membership : DealerMembership

unfoldable pub load_authorization_context : ℕ → ℕ → Store → Result ErrorCode Loaded
load_authorization_context actor_user_id organization_id store = do
  actor ← or_raise (get_user_by_id actor_user_id store.users) ErrorCode.organization_not_found
  organization ←
      or_raise (get_organization organization_id store.organizations)
        ErrorCode.organization_not_found
  membership ←
      or_raise (get_membership_for_user organization_id actor_user_id store.memberships)
        ErrorCode.organization_not_found
  ok (record { actor = actor; organization = organization; membership = membership })

-- the context that `_require_membership_permission` builds
abbrev pub context_of : Loaded → AuthorizationContext
context_of loaded = record {
  user_id = loaded.actor.id;
  user_status = loaded.actor.status;
  email_verified = is_some loaded.actor.email_verified_at;
  phone_verified = is_some loaded.actor.phone_verified_at;
  seller_profile_active = false;
  seller_readiness_ready = false;
  organization = some (record {
    organization_id = loaded.organization.id;
    organization_status = loaded.organization.status;
    organization_verification_status = loaded.organization.verification_status;
    membership_id = loaded.membership.id;
    membership_status = loaded.membership.status;
    membership_role = loaded.membership.role;
  });
}

unfoldable pub require_membership_permission : Loaded → DealerPermission → Result ErrorCode Unit
require_membership_permission loaded permission =
    raise_if (not (permits (context_of loaded) permission)) ErrorCode.dealer_permission_denied

unfoldable pub has_other_owner : DealerMembership → Store → Bool
has_other_owner membership store =
    ltb 0 (count_other_active_owners membership.organization_id membership.id store.memberships)

-- `target_status in allowed.get(membership.status, set())`
transition_allowed : MembershipStatus → MembershipStatus → Bool
transition_allowed MembershipStatus.active MembershipStatus.suspended = true
transition_allowed MembershipStatus.active MembershipStatus.revoked = true
transition_allowed MembershipStatus.suspended MembershipStatus.active = true
transition_allowed MembershipStatus.suspended MembershipStatus.revoked = true
transition_allowed MembershipStatus.invited MembershipStatus.revoked = true
transition_allowed _ _ = false

-- the columns that go with a new status
stamp : DealerMembership → MembershipStatus → ℕ → DealerMembership
stamp membership MembershipStatus.active now = record membership {
  suspended_at = none;
  status = MembershipStatus.active;
}
stamp membership MembershipStatus.suspended now = record membership {
  suspended_at = some now;
  status = MembershipStatus.suspended;
}
stamp membership MembershipStatus.revoked now = record membership {
  revoked_at = some now;
  status = MembershipStatus.revoked;
}
stamp membership other now = record membership { status = other }

unfoldable pub apply_status_transition :
    DealerMembership → MembershipStatus → ℕ → Result ErrorCode DealerMembership
unfolding transition_allowed stamp
apply_status_transition membership target now =
    if status_index target == status_index membership.status
    then ok membership
    else if not (transition_allowed membership.status target)
    then err ErrorCode.membership_transition_invalid
    else ok (stamp membership target now)

-- the role and the status that a request asks for
abbrev pub with_role : DealerMembership → Option Role → DealerMembership
with_role membership none = membership
with_role membership (some role) = record membership { role = role }

abbrev pub with_status :
    DealerMembership → Option MembershipStatus → ℕ → Result ErrorCode DealerMembership
with_status membership none now = ok membership
with_status membership (some status) now = apply_status_transition membership status now

abbrev pub asks_owner : Option Role → Bool
asks_owner none = false
asks_owner (some role) = is_owner role

-- `request.role is not None and request.role != "owner"`
abbrev pub asks_other_role : Option Role → Bool
asks_other_role none = false
asks_other_role (some role) = not (is_owner role)

-- `request.status in {"suspended", "revoked"}`
abbrev pub asks_end : Option MembershipStatus → Bool
asks_end (some MembershipStatus.suspended) = true
asks_end (some MembershipStatus.revoked) = true
asks_end _ = false

unfoldable pub removes_active_owner : DealerMembership → MembershipUpdateRequest → Bool
removes_active_owner membership request =
    is_owner membership.role
    && is_active_membership membership.status
    && (asks_other_role request.role || asks_end request.status)

abbrev pub bump_user : ℕ → List User → List User
bump_user id users = elim (get_user_by_id id users) [
  | none ↦ users
  | some user ↦
      write_user (record user { authorization_version = suc user.authorization_version }) users
]

abbrev pub bump_organization :
    DealerOrganization → List DealerOrganization → List DealerOrganization
bump_organization organization =
    write_organization
      (record organization { authorization_version = suc organization.authorization_version })

-- the rest of `update_membership`, from the comparison with the previous role and status on
unfoldable pub commit_update :
    ℕ → Loaded → DealerMembership → DealerMembership → Store → DealerMembership × Store
commit_update actor_user_id loaded previous membership store =
    if role_index membership.role == role_index previous.role
      && status_index membership.status == status_index previous.status
    then (
      membership,
      record store {
        memberships = write_membership membership store.memberships;
        invalidated = store.invalidated ++ actor_user_id ∷ [];
      },
    )
    else let updated : DealerMembership = record membership { version = suc membership.version } in
      let version = suc loaded.organization.authorization_version in
      (
        updated,
        record store {
          users = bump_user membership.user_id store.users;
          organizations = bump_organization loaded.organization store.organizations;
          memberships = write_membership updated store.memberships;
          audit =
              add
                (record {
                  action = "dealer.membership.updated";
                  outcome = "success";
                  reason_code = none;
                  resource_type = "dealer_membership";
                  actor_user_id = some loaded.actor.id;
                  resource_id = some updated.id;
                  organization_id = some loaded.organization.id;
                  membership_id = some loaded.membership.id;
                  changes =
                      ("previous_role", Value.text (role_text previous.role))
                      ∷ ("role", Value.text (role_text updated.role))
                      ∷ ("previous_status", Value.text (status_text previous.status))
                      ∷ ("status", Value.text (status_text updated.status))
                      ∷ ("version", Value.number updated.version)
                      ∷ [];
                })
                store.audit;
          outbox =
              add
                (record {
                  event_type = "dealer.membership.authorization_changed";
                  aggregate_type = "dealer_organization";
                  aggregate_id = loaded.organization.id;
                  payload =
                      ("membership_id", Value.uuid updated.id)
                      ∷ ("role", Value.text (role_text updated.role))
                      ∷ ("status", Value.text (status_text updated.status))
                      ∷ ("authorization_version", Value.number version)
                      ∷ [];
                })
                store.outbox;
          invalidated = store.invalidated ++ membership.user_id ∷ actor_user_id ∷ [];
        },
      )

unfoldable pub update_membership :
    ℕ → ℕ → ℕ → ℕ → MembershipUpdateRequest → Store → Outcome DealerMembership
update_membership now actor_user_id organization_id membership_id request store = do
  raise_if (is_none request.role && is_none request.status) ErrorCode.membership_update_empty
  loaded ← load_authorization_context actor_user_id organization_id store
  require_membership_permission loaded membership_manage
  membership ←
      or_raise (get_membership membership_id store.memberships) ErrorCode.membership_not_found
  raise_if (not (membership.organization_id == organization_id)) ErrorCode.membership_not_found
  raise_if (not (membership.version == request.expected_version))
      ErrorCode.membership_version_conflict
  raise_if
      ((is_owner membership.role || asks_owner request.role)
        && not (is_owner loaded.membership.role))
      ErrorCode.dealer_permission_denied
  raise_if (removes_active_owner membership request && not (has_other_owner membership store))
      ErrorCode.last_active_owner_required
  changed ← with_status (with_role membership request.role) request.status now
  ok (commit_update actor_user_id loaded membership changed store)
