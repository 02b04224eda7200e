-- ===== src/Dealers/Leaving.antt =====
-- `leave_organization` of backend/app/modules/dealers/service.py.
use wheelmatch.Base.{
  ℕ, suc, not, ◌&&◌, ◌||◌, none, some, [], ◌∷◌, ◌++◌, ◌==◌, ok, ◌>>=◌, ◌>>◌, raise_if, or_raise,
}
use wheelmatch.Authorization.{MembershipStatus, is_active_user, is_active_membership}
use wheelmatch.Identity.Users.{User, get_user_by_id, write_user}
use wheelmatch.Core.Events.{Value, add}
use wheelmatch.Dealers.{
  Store, Outcome, ErrorCode, DealerOrganization, DealerMembership, get_organization, get_membership,
  write_membership, is_owner,
}
use wheelmatch.Dealers.Service.{bump_organization, has_other_owner}

-- the writes after the checks
unfoldable pub depart :
    ℕ → User → DealerOrganization → DealerMembership → Store → DealerMembership × Store
depart now actor organization membership store =
    let gone : DealerMembership = record membership {
      status = MembershipStatus.left;
      left_at = some now;
      version = suc membership.version;
    } in
    (
      gone,
      record store {
        users =
            write_user (record actor { authorization_version = suc actor.authorization_version })
              store.users;
        organizations = bump_organization organization store.organizations;
        memberships = write_membership gone store.memberships;
        audit =
            add
              (record {
                action = "dealer.membership.left";
                outcome = "success";
                reason_code = none;
                resource_type = "dealer_membership";
                actor_user_id = some actor.id;
                resource_id = some gone.id;
                organization_id = some organization.id;
                membership_id = some gone.id;
                changes =
                    ("status", Value.text "left") ∷ ("version", Value.number gone.version) ∷ [];
              })
              store.audit;
        outbox =
            add
              (record {
                event_type = "dealer.membership.authorization_changed";
                aggregate_type = "dealer_organization";
                aggregate_id = organization.id;
                payload =
                    ("membership_id", Value.uuid gone.id)
                    ∷ ("status", Value.text "left")
                    ∷ (
                      "authorization_version",
                      Value.number (suc organization.authorization_version),
                    )
                    ∷ [];
              })
              store.outbox;
        invalidated = store.invalidated ++ actor.id ∷ [];
      },
    )

unfoldable pub leave_organization : ℕ → ℕ → ℕ → ℕ → Store → Outcome DealerMembership
leave_organization now actor_user_id membership_id expected_version store = do
  actor ← or_raise (get_user_by_id actor_user_id store.users) ErrorCode.membership_not_found
  membership ←
      or_raise (get_membership membership_id store.memberships) ErrorCode.membership_not_found
  raise_if
      (not (is_active_user actor.status)
        || not (membership.user_id == actor_user_id)
        || not (is_active_membership membership.status))
      ErrorCode.membership_not_found
  raise_if (not (membership.version == expected_version)) ErrorCode.membership_version_conflict
  organization ←
      or_raise (get_organization membership.organization_id store.organizations)
        ErrorCode.membership_not_found
  raise_if (is_owner membership.role && not (has_other_owner membership store))
      ErrorCode.owner_transfer_required
  ok (depart now actor organization membership store)
