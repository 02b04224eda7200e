-- ===== src/Dealers/Inviting.antt =====
-- `invite_member` of backend/app/modules/dealers/service.py.
use wheelmatch.Base.{
  ℕ, suc, ◌+◌, not, ◌&&◌, Option, none, some, List, [], ◌∷◌, ◌++◌, if◌then◌else◌, is_some, ok, err,
  ◌>>=◌, ◌>>◌, raise_if, or_raise,
}
use wheelmatch.Authorization.{Role, MembershipStatus, membership_manage, is_active_user}
use wheelmatch.Identity.Users.{User, get_user_by_id, write_user}
use wheelmatch.Core.Events.{Value, add}
use wheelmatch.Core.Idempotency.{
  IdempotencyRecord, RequestKey, membership_invite, reserve, complete,
}
use wheelmatch.Dealers.{
  Store, Outcome, ErrorCode, DealerMembership, Body, organization_body, membership_body,
  get_membership_for_user, is_owner, role_text,
}
use wheelmatch.Dealers.Service.{
  Loaded, load_authorization_context, require_membership_permission, bump_organization,
}
use wheelmatch.Dealers.Founding.{key_ttl, or_conflict}

abbrev pub replay_membership : Option Body → Store → Outcome DealerMembership
replay_membership none store = err ErrorCode.idempotency_in_progress
replay_membership (some (membership_body membership)) store = ok (membership, store)
replay_membership (some (organization_body organization)) store = err ErrorCode.invalid_replay

-- What an invitation was asked with: the time, the drawn id and token, and the request.
pub record InviteCall : Type 0 where
  pub now : ℕ
  pub membership_id : ℕ
  pub token : ℕ
  pub token_hash : ℕ
  pub invitation_ttl : ℕ
  pub actor_user_id : ℕ
  pub organization_id : ℕ
  pub target_user_id : ℕ
  pub role : Role
  pub idempotency_key : ℕ
  pub request_hash : ℕ

abbrev pub invite_key : InviteCall → RequestKey
invite_key c = record {
  scope = c.actor_user_id;
  operation = membership_invite c.organization_id;
  key = c.idempotency_key;
}

abbrev pub invited_membership : InviteCall → DealerMembership
invited_membership c = record {
  id = c.membership_id;
  organization_id = c.organization_id;
  user_id = c.target_user_id;
  role = c.role;
  status = MembershipStatus.invited;
  invited_by_user_id = some c.actor_user_id;
  invitation_token_hash = some c.token_hash;
  invite_expires_at = some (c.now + c.invitation_ttl);
  accepted_at = none;
  suspended_at = none;
  left_at = none;
  revoked_at = none;
  version = 1;
  created_at = c.now;
}

-- the writes of an invitation, and the delivery after the commit
unfoldable pub send_invitation :
    InviteCall → Loaded → User → List (IdempotencyRecord Body) → Store → DealerMembership × Store
send_invitation c loaded target rows store = (
  invited_membership c,
  record store {
    users =
        write_user (record target { authorization_version = suc target.authorization_version })
          store.users;
    organizations = bump_organization loaded.organization store.organizations;
    memberships = add (invited_membership c) store.memberships;
    audit =
        add
          (record {
            action = "dealer.membership.invited";
            outcome = "success";
            reason_code = none;
            resource_type = "dealer_membership";
            actor_user_id = some loaded.actor.id;
            resource_id = some c.membership_id;
            organization_id = some loaded.organization.id;
            membership_id = some loaded.membership.id;
            changes =
                ("role", Value.text (role_text c.role)) ∷ ("status", Value.text "invited") ∷ [];
          })
          store.audit;
    outbox =
        add
          (record {
            event_type = "dealer.membership.invited";
            aggregate_type = "dealer_organization";
            aggregate_id = loaded.organization.id;
            payload =
                ("membership_id", Value.uuid c.membership_id)
                ∷ ("role", Value.text (role_text c.role))
                ∷ (
                  "authorization_version",
                  Value.number (suc loaded.organization.authorization_version),
                )
                ∷ [];
          })
          store.outbox;
    idempotency = complete (invite_key c) 201 (membership_body (invited_membership c)) rows;
    invalidated = store.invalidated ++ c.target_user_id ∷ c.actor_user_id ∷ [];
    sent =
        store.sent
        ++ record {
          user_id = c.target_user_id;
          organization_id = c.organization_id;
          membership_id = c.membership_id;
          token = c.token;
        }
          ∷ [];
  },
)

unfoldable pub invite_acquired :
    InviteCall → List (IdempotencyRecord Body) → Store → Outcome DealerMembership
invite_acquired c rows store = do
  loaded ← load_authorization_context c.actor_user_id c.organization_id store
  require_membership_permission loaded membership_manage
  raise_if (is_owner c.role && not (is_owner loaded.membership.role))
      ErrorCode.dealer_permission_denied
  target ←
      or_raise (get_user_by_id c.target_user_id store.users) ErrorCode.membership_target_not_found
  raise_if (not (is_active_user target.status)) ErrorCode.membership_target_not_found
  raise_if (is_some (get_membership_for_user c.organization_id c.target_user_id store.memberships))
      ErrorCode.membership_already_exists
  ok (send_invitation c loaded target rows store)

unfoldable pub invite_member : InviteCall → Store → Outcome DealerMembership
invite_member c store =
    or_conflict (reserve (invite_key c) c.request_hash (c.now + key_ttl) store.idempotency)
    >>= λ reserved.
        if not reserved.0.acquired
        then replay_membership reserved.0.replay_body store
        else invite_acquired c reserved.1 store
