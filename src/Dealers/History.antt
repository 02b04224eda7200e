-- ===== src/Dealers/History.antt =====
-- Histories of the dealer handlers: every call, in any order, by anyone.
use wheelmatch.Base.{
  ◌+◌, ℕ, ◌≡◌, refl, List, [], ◌∷◌, ok, err, arith, any-append, Result-cases, inl, inr,
}
use wheelmatch.Core.Idempotency.{IdempotencyRecord, reserve}
use wheelmatch.Dealers.{
  Store, Outcome, DealerOrganization, DealerMembership, Body, is_active_owner,
  MembershipUpdateRequest,
}
use wheelmatch.Dealers.Service.{update_membership}
use wheelmatch.Dealers.Leaving.{leave_organization}
use wheelmatch.Dealers.Inviting.{
  invited_membership, InviteCall, invite_member, invite_acquired, send_invitation, invite_key,
}
use wheelmatch.Dealers.Founding.{
  Creation, create_organization, create_acquired, found_organization, owner_membership,
  creation_key, key_ttl,
}
use wheelmatch.Dealers.Accepting.{accept_invitation}
use wheelmatch.Dealers.Owners.{
  HasOwner, update_membership-HasOwner, leave_organization-HasOwner, accept_invitation-HasOwner,
}

pub data Call : Type 0 where
  create : Creation → Call
  invite : InviteCall → Call
  accept : (now actor_user_id membership_id digest : ℕ) → Call
  update : (now actor_user_id organization_id membership_id : ℕ) → MembershipUpdateRequest → Call
  leave : (now actor_user_id membership_id version : ℕ) → Call

-- A call that raises leaves the store as it was.
abbrev pub after : {A : Type 0} → Store → Outcome A → Store
after store (ok (a, next)) = next
after store (err e) = store

pub step : Store → Call → Store
step store (create c) = after store (create_organization c store)
step store (invite c) = after store (invite_member c store)
step store (accept now actor membership digest) =
    after store (accept_invitation now actor membership digest store)
step store (update now actor organization membership request) =
    after store (update_membership now actor organization membership request store)
step store (leave now actor membership version) =
    after store (leave_organization now actor membership version store)

pub run : Store → List Call → Store
run store [] = store
run store (c ∷ calls) = run (step store c) calls

create_acquired-HasOwner :
    (c : Creation) (rows : List (IdempotencyRecord Body)) (store next : Store)
    (o : DealerOrganization) (organization : ℕ)
    → HasOwner organization store
    → create_acquired c rows store ≡ ok (o, next)
    → HasOwner organization next
unfolding create_acquired found_organization
create_acquired-HasOwner c rows store next o organization h e =
    ground (
      arith,
      any-append (is_active_owner organization) store.memberships (owner_membership c ∷ []) h,
    )

create_organization-HasOwner :
    (c : Creation) (store next : Store) (o : DealerOrganization) (organization : ℕ)
    → HasOwner organization store
    → create_organization c store ≡ ok (o, next)
    → HasOwner organization next
unfolding create_organization
create_organization-HasOwner c store next o organization h e =
    elim (Result-cases
      (reserve (creation_key c) c.request_hash (c.now + key_ttl) store.idempotency)) [
        | inl (_, conflict) ↦ absurd (ground arith)
        | inr (reserved, r) ↦
            ground (arith, create_acquired-HasOwner c reserved.1 store next o organization h)
      ]

invite_acquired-HasOwner :
    (c : InviteCall) (rows : List (IdempotencyRecord Body)) (store next : Store)
    (m : DealerMembership) (organization : ℕ)
    → HasOwner organization store
    → invite_acquired c rows store ≡ ok (m, next)
    → HasOwner organization next
unfolding invite_acquired send_invitation
invite_acquired-HasOwner c rows store next m organization h e = ground (
  arith,
  any-append (is_active_owner organization) store.memberships (invited_membership c ∷ []) h,
)

invite_member-HasOwner :
    (c : InviteCall) (store next : Store) (m : DealerMembership) (organization : ℕ)
    → HasOwner organization store
    → invite_member c store ≡ ok (m, next)
    → HasOwner organization next
unfolding invite_member
invite_member-HasOwner c store next m organization h e =
    elim (Result-cases
      (reserve (invite_key c) c.request_hash (c.now + key_ttl) store.idempotency)) [
        | inl (_, conflict) ↦ absurd (ground arith)
        | inr (reserved, r) ↦
            ground (arith, invite_acquired-HasOwner c reserved.1 store next m organization h)
      ]

after-HasOwner :
    {A : Type 0} (organization : ℕ) (store : Store) (result : Outcome A)
    → HasOwner organization store
    → ((a : A) (next : Store) → result ≡ ok (a, next) → HasOwner organization next)
    → HasOwner organization (after store result)
after-HasOwner organization store (ok (a, next)) h keeps = keeps a next refl
after-HasOwner organization store (err e) h keeps = h

-- Every call, also one that raises, leaves an active owner to each organization that has one.
pub step-HasOwner :
    (organization : ℕ) (store : Store) (c : Call)
    → HasOwner organization store
    → HasOwner organization (step store c)
unfolding step
step-HasOwner organization store (create c) h =
    after-HasOwner organization store _ h
      λ o next e. create_organization-HasOwner c store next o organization h e
step-HasOwner organization store (invite c) h =
    after-HasOwner organization store _ h
      λ m next e. invite_member-HasOwner c store next m organization h e
step-HasOwner organization store (accept now actor membership digest) h =
    after-HasOwner organization store _ h λ m next e.
      accept_invitation-HasOwner now actor membership digest store next m organization h e
step-HasOwner organization store (update now actor dealer membership request) h =
    after-HasOwner organization store _ h λ m next e.
      update_membership-HasOwner now actor dealer membership request store next m organization h e
step-HasOwner organization store (leave now actor membership version) h =
    after-HasOwner organization store _ h λ m next e.
      leave_organization-HasOwner now actor membership version store next m organization h e

-- An organization that has an active owner has one after any history of calls: creations,
-- invitations, acceptances, updates and departures, in any order, by anyone, failed ones included.
pub run-HasOwner :
    (organization : ℕ) (store : Store) (calls : List Call)
    → HasOwner organization store
    → HasOwner organization (run store calls)
unfolding run
run-HasOwner organization store [] h = h
run-HasOwner organization store (c ∷ calls) h =
    run-HasOwner organization (step store c) calls (step-HasOwner organization store c h)
