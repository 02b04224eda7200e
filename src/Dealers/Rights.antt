-- ===== src/Dealers/Rights.antt =====
-- Who may change a membership, and that no change is lost.
use wheelmatch.Base.{ℕ, ◌≡◌, inl, inr, true, ◌||◌, some, ok, arith, Option-cases, Result-cases}
use wheelmatch.Authorization.{membership_manage, permits}
use wheelmatch.Dealers.{Store, DealerMembership, MembershipUpdateRequest, get_membership, is_owner}
use wheelmatch.Dealers.Service.{
  Loaded, context_of, update_membership, load_authorization_context, require_membership_permission,
  asks_owner,
}

-- What a successful update shows of the caller and of the row: the caller holds the permission in
-- the organization, the row belongs to it and has the version that the request expects, and an
-- owner's membership or the owner's role is touched by an owner alone.
pub record Allowed (organization_id membership_id : ℕ) (request : MembershipUpdateRequest)
    (store : Store) (loaded : Loaded) (row : DealerMembership) : Type 0 where
  pub stored : get_membership membership_id store.memberships ≡ some row
  pub granted : permits (context_of loaded) membership_manage ≡ true
  pub here : row.organization_id ≡ organization_id
  pub expected : row.version ≡ request.expected_version
  pub by_owner :
      (is_owner row.role || asks_owner request.role) ≡ true → is_owner loaded.membership.role ≡ true

-- A membership is updated only by a caller who may manage it.
pub update_membership-Allowed :
    (now actor_user_id organization_id membership_id : ℕ) (request : MembershipUpdateRequest)
    (store after : Store) (m : DealerMembership)
    → update_membership now actor_user_id organization_id membership_id request store
      ≡ ok (m, after)
    → (loaded : Loaded) × (row : DealerMembership) × (load_authorization_context actor_user_id
          organization_id store
        ≡ ok loaded)
      × Allowed organization_id membership_id request store loaded row
unfolding update_membership require_membership_permission
update_membership-Allowed now actor organization_id membership_id request store after m e =
    elim (Result-cases (load_authorization_context actor organization_id store)) [
      | inl (_, denied) ↦ absurd (ground arith)
      | inr (loaded, l) ↦ elim (Option-cases (get_membership membership_id store.memberships)) [
        | inl missing ↦ absurd (ground arith)
        | inr (row, found) ↦ (
          loaded,
          row,
          l,
          record {
            stored = found;
            granted = ground arith;
            here = ground arith;
            expected = ground arith;
            by_owner = λ h. ground arith;
          },
        )
      ]
    ]
