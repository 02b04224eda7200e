-- ===== src/Dealers/Founding.antt =====
-- `create_organization` of backend/app/modules/dealers/service.py.
use Prim.Native.String.{String}
use wheelmatch.Base.{
  ℕ, suc, ◌+◌, not, Option, none, some, List, [], ◌∷◌, ◌++◌, if◌then◌else◌, Result, ok, err, ◌>>=◌,
  ◌>>◌, raise_if, or_raise,
}
use wheelmatch.Authorization.{
  owner, OrganizationStatus, OrganizationVerification, MembershipStatus, is_active_user,
}
use wheelmatch.Identity.Users.{User, get_user_by_id, write_user}
use wheelmatch.Core.Events.{Value, add}
use wheelmatch.Core.Idempotency.{
  IdempotencyRecord, Reservation, RequestKey, organization_create, reserve, complete, ConflictError,
}
use wheelmatch.Dealers.{
  Store, Outcome, ErrorCode, DealerOrganization, DealerMembership, Body, organization_body,
  membership_body,
}

-- `timedelta(hours=24)` in microseconds
abbrev pub key_ttl : ℕ
key_ttl = 86400000000

abbrev pub or_conflict :
    Result ConflictError (Reservation Body × List (IdempotencyRecord Body))
    → Result ErrorCode (Reservation Body × List (IdempotencyRecord Body))
or_conflict (ok r) = ok r
or_conflict (err e) = err ErrorCode.idempotency_key_conflict

-- the recorded organization, or the error of a key without a response
abbrev pub replay_organization : Option Body → Store → Outcome DealerOrganization
replay_organization none store = err ErrorCode.idempotency_in_progress
replay_organization (some (organization_body organization)) store = ok (organization, store)
replay_organization (some (membership_body membership)) store = err ErrorCode.invalid_replay

-- What a creation was asked with: the time, the two ids that it draws, and the request.
pub record Creation : Type 0 where
  pub now : ℕ
  pub organization_id : ℕ
  pub membership_id : ℕ
  pub actor_user_id : ℕ
  pub legal_name : String
  pub display_name : String
  pub idempotency_key : ℕ
  pub request_hash : ℕ

abbrev pub creation_key : Creation → RequestKey
creation_key c = record {
  scope = c.actor_user_id;
  operation = organization_create;
  key = c.idempotency_key;
}

abbrev pub new_organization : Creation → DealerOrganization
new_organization c = record {
  id = c.organization_id;
  legal_name = c.legal_name;
  display_name = c.display_name;
  status = OrganizationStatus.active;
  verification_status = OrganizationVerification.pending;
  authorization_version = 1;
  created_by_user_id = c.actor_user_id;
  created_at = c.now;
}

abbrev pub owner_membership : Creation → DealerMembership
owner_membership c = record {
  id = c.membership_id;
  organization_id = c.organization_id;
  user_id = c.actor_user_id;
  role = owner;
  status = MembershipStatus.active;
  invited_by_user_id = some c.actor_user_id;
  invitation_token_hash = none;
  invite_expires_at = none;
  accepted_at = some c.now;
  suspended_at = none;
  left_at = none;
  revoked_at = none;
  version = 1;
  created_at = c.now;
}

-- the writes of a call that acquired its key
unfoldable pub found_organization :
    Creation → User → List (IdempotencyRecord Body) → Store → DealerOrganization × Store
found_organization c actor rows store = (
  new_organization c,
  record store {
    users =
        write_user (record actor { authorization_version = suc actor.authorization_version })
          store.users;
    organizations = add (new_organization c) store.organizations;
    memberships = add (owner_membership c) store.memberships;
    audit =
        add
          (record {
            action = "dealer.organization.created";
            outcome = "success";
            reason_code = none;
            resource_type = "dealer_organization";
            actor_user_id = some actor.id;
            resource_id = some c.organization_id;
            organization_id = some c.organization_id;
            membership_id = some c.membership_id;
            changes =
                ("status", Value.text "active")
                ∷ ("verification_status", Value.text "pending")
                ∷ [];
          })
          store.audit;
    outbox =
        add
          (record {
            event_type = "dealer.organization.created";
            aggregate_type = "dealer_organization";
            aggregate_id = c.organization_id;
            payload =
                ("owner_membership_id", Value.uuid c.membership_id)
                ∷ ("verification_status", Value.text "pending")
                ∷ [];
          })
          store.outbox;
    idempotency = complete (creation_key c) 201 (organization_body (new_organization c)) rows;
    invalidated = store.invalidated ++ c.actor_user_id ∷ [];
  },
)

unfoldable pub create_acquired :
    Creation → List (IdempotencyRecord Body) → Store → Outcome DealerOrganization
create_acquired c rows store = do
  actor ← or_raise (get_user_by_id c.actor_user_id store.users) ErrorCode.account_inactive
  raise_if (not (is_active_user actor.status)) ErrorCode.account_inactive
  ok (found_organization c actor rows store)

unfoldable pub create_organization : Creation → Store → Outcome DealerOrganization
create_organization c store =
    or_conflict (reserve (creation_key c) c.request_hash (c.now + key_ttl) store.idempotency)
    >>= λ reserved.
        if not reserved.0.acquired
        then replay_organization reserved.0.replay_body store
        else create_acquired c reserved.1 store
