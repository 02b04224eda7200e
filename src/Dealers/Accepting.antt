-- ===== src/Dealers/Accepting.antt =====
-- `accept_invitation` of backend/app/modules/dealers/service.py.
use wheelmatch.Base.{
  ℕ, suc, Bool, true, false, not, ◌||◌, Option, none, some, [], ◌∷◌, ◌++◌, ◌==◌, leb, ok, ◌>>=◌,
  ◌>>◌, raise_if, or_raise,
}
use wheelmatch.Authorization.{MembershipStatus, is_active_user, is_active_organization}
use wheelmatch.Identity.Users.{User, get_user_by_id, write_user}
use wheelmatch.Core.Events.{Value, add}
use wheelmatch.Dealers.{
  Store, Outcome, ErrorCode, DealerOrganization, DealerMembership, get_organization, get_membership,
  write_membership, role_text,
}
use wheelmatch.Dealers.Service.{bump_organization}

abbrev pub is_invited : MembershipStatus → Bool
is_invited MembershipStatus.invited = true
is_invited _ = false

-- `value is None or value <= now`
abbrev pub none_or_past : Option ℕ → ℕ → Bool
none_or_past none now = true
none_or_past (some t) now = leb t now

-- `hash is None or not verify(token, hash)`, for the digest of the token
abbrev pub none_or_other : Option ℕ → ℕ → Bool
none_or_other none digest = true
none_or_other (some hash) digest = not (digest == hash)

unfoldable pub activate :
    ℕ → User → DealerOrganization → DealerMembership → Store → DealerMembership × Store
activate now actor organization membership store =
    let accepted : DealerMembership = record membership {
      status = MembershipStatus.active;
      accepted_at = some now;
      invitation_token_hash = none;
      version = suc membership.version;
    } in
    (
      accepted,
      record store {
        users =
            write_user (record actor { authorization_version = suc actor.authorization_version })
              store.users;
        organizations = bump_organization organization store.organizations;
        memberships = write_membership accepted store.memberships;
        audit =
            add
              (record {
                action = "dealer.membership.accepted";
                outcome = "success";
                reason_code = none;
                resource_type = "dealer_membership";
                actor_user_id = some actor.id;
                resource_id = some accepted.id;
                organization_id = some organization.id;
                membership_id = some accepted.id;
                changes =
                    ("status", Value.text "active")
                    ∷ ("role", Value.text (role_text accepted.role))
                    ∷ [];
              })
              store.audit;
        outbox =
            add
              (record {
                event_type = "dealer.membership.activated";
                aggregate_type = "dealer_organization";
                aggregate_id = organization.id;
                payload =
                    ("membership_id", Value.uuid accepted.id)
                    ∷ (
                      "authorization_version",
                      Value.number (suc organization.authorization_version),
                    )
                    ∷ [];
              })
              store.outbox;
        invalidated = store.invalidated ++ actor.id ∷ [];
      },
    )

-- `digest` is the digest of the token that the caller presents. Every refusal is the same error.
unfoldable pub accept_invitation : ℕ → ℕ → ℕ → ℕ → Store → Outcome DealerMembership
accept_invitation now actor_user_id membership_id digest store = do
  actor ←
      or_raise (get_user_by_id actor_user_id store.users) ErrorCode.membership_invitation_invalid
  membership ←
      or_raise (get_membership membership_id store.memberships)
        ErrorCode.membership_invitation_invalid
  raise_if
      (not (is_active_user actor.status)
        || not (membership.user_id == actor_user_id)
        || not (is_invited membership.status)
        || none_or_past membership.invite_expires_at now
        || none_or_other membership.invitation_token_hash digest)
      ErrorCode.membership_invitation_invalid
  organization ←
      or_raise (get_organization membership.organization_id store.organizations)
        ErrorCode.membership_invitation_invalid
  raise_if (not (is_active_organization organization.status))
      ErrorCode.membership_invitation_invalid
  ok (activate now actor organization membership store)
