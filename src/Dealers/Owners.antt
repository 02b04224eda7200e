-- ===== src/Dealers/Owners.antt =====
-- An organization that has an active owner keeps one, whatever its members do.
use wheelmatch.Base.{
  update_first, ==_iff, suc, ℕ, ◌≡◌, refl, sym, subst, ◌⊎◌, inl, inr, true, false, not, ◌&&◌,
  Option, Result-cases, Option-cases, none, some, List, ◌==◌, arith, any, ok, any-update_first,
  any-count_where, Bool-cases, find_sound,
}
use wheelmatch.Authorization.{is_active_membership, Role, MembershipStatus}
use wheelmatch.Identity.Users.{get_user_by_id, User}
use wheelmatch.Dealers.{
  is_owner, get_organization, Store, DealerOrganization, DealerMembership, is_active_owner,
  count_other_active_owners, MembershipUpdateRequest, write_membership, get_membership,
}
use wheelmatch.Dealers.Service.{
  load_authorization_context, asks_end, asks_other_role, Loaded, update_membership, commit_update,
  removes_active_owner, has_other_owner, with_role, with_status, apply_status_transition,
}
use wheelmatch.Dealers.Leaving.{leave_organization, depart}
use wheelmatch.Dealers.Accepting.{accept_invitation, activate}

abbrev pub HasOwner : ℕ → Store → Type 0
HasOwner organization store = any (is_active_owner organization) store.memberships ≡ true

changed_same_row :
    (m changed : DealerMembership) (request : MembershipUpdateRequest) (now : ℕ)
    → with_status (with_role m request.role) request.status now ≡ ok changed
    → (changed.id ≡ m.id) × (changed.organization_id ≡ m.organization_id)
unfolding apply_status_transition
changed_same_row m changed request now h = (ground arith, ground arith)

role-owner :
    (organization : ℕ) (m : DealerMembership) (r : Option Role)
    → asks_other_role r ≡ false
    → is_active_owner organization m ≡ true
    → is_active_owner organization (with_role m r) ≡ true
role-owner organization m none h is = is
role-owner organization m (some r) h is = ground arith

status-owner :
    (organization : ℕ) (m changed : DealerMembership) (s : Option MembershipStatus) (now : ℕ)
    → with_status m s now ≡ ok changed
    → asks_end s ≡ false
    → is_active_owner organization m ≡ true
    → is_active_owner organization changed ≡ true
unfolding apply_status_transition
status-owner organization m changed none now e h is = ground arith
status-owner organization m changed (some s) now e h is = ground arith

-- Only a request that removes an active owner ends one's being an active owner.
changed-owner :
    (organization : ℕ) (m changed : DealerMembership) (request : MembershipUpdateRequest) (now : ℕ)
    → with_status (with_role m request.role) request.status now ≡ ok changed
    → removes_active_owner m request ≡ false
    → is_active_owner organization m ≡ true
    → is_active_owner organization changed ≡ true
unfolding removes_active_owner
changed-owner organization m changed request now h keeps is =
    status-owner organization (with_role m request.role) changed request.status now h (ground arith)
      (role-owner organization m request.role (ground arith) is)

other-owner :
    (organization : ℕ) (m : DealerMembership) (store : Store)
    → has_other_owner m store ≡ true
    → m.organization_id ≡ organization
    → any (λ x. is_active_owner organization x && not (x.id == m.id)) store.memberships ≡ true
unfolding has_other_owner count_other_active_owners
other-owner organization m store h e = rw (← e) (
    any-count_where (λ x. is_active_owner m.organization_id x && not (x.id == m.id))
      store.memberships (ground arith))

owner_left :
    (organization : ℕ) (m changed : DealerMembership) (store : Store)
    → ((is_active_owner organization m ≡ false)
        ⊎ ((is_active_owner organization changed ≡ true) ⊎ (has_other_owner m store ≡ true)))
    → ((is_active_owner organization m ≡ false)
        ⊎ ((is_active_owner organization changed ≡ true)
            ⊎ (any (λ x. is_active_owner organization x && not (x.id == m.id)) store.memberships
                ≡ true)))
owner_left organization m changed store (inl a) = inl a
owner_left organization m changed store (inr (inl b)) = inr (inl b)
owner_left organization m changed store (inr (inr c)) =
    elim (Bool-cases (m.organization_id == organization)) [
      | inl here ↦ inr (
          inr (other-owner organization m store c ((==_iff m.organization_id organization).0 here)))
      | inr there ↦ inl (ground arith)
    ]

-- a write to the row `m`, of which `changed` is the new version
write-HasOwner :
    (organization : ℕ) (m changed : DealerMembership) (store : Store)
    → get_membership m.id store.memberships ≡ some m
    → changed.id ≡ m.id
    → ((is_active_owner organization m ≡ false)
        ⊎ ((is_active_owner organization changed ≡ true) ⊎ (has_other_owner m store ≡ true)))
    → HasOwner organization store
    → any (is_active_owner organization) (write_membership changed store.memberships) ≡ true
write-HasOwner organization m changed store found same keeps h =
    subst
      (λ id.
        any (is_active_owner organization)
          (update_first (λ row. row.id == id) (λ row. changed) store.memberships)
        ≡ true)
      (sym same)
      (any-update_first (is_active_owner organization) (λ row. row.id == m.id) (λ row. changed)
        store.memberships m h found (owner_left organization m changed store keeps))

-- a row that is found by an id has it
found_id :
    (id : ℕ) (m : DealerMembership) (rows : List DealerMembership)
    → get_membership id rows ≡ some m
    → get_membership m.id rows ≡ some m
found_id id m rows h =
    let same : m.id ≡ id = (==_iff m.id id).0 (find_sound (λ row. row.id == id) rows m h) in
    subst (λ k. get_membership k rows ≡ some m) (sym same) h

commit-HasOwner :
    (organization actor_user_id : ℕ) (loaded : Loaded) (m changed : DealerMembership)
    (store : Store)
    → get_membership m.id store.memberships ≡ some m
    → changed.id ≡ m.id
    → ((is_active_owner organization m ≡ false)
        ⊎ ((is_active_owner organization changed ≡ true) ⊎ (has_other_owner m store ≡ true)))
    → HasOwner organization store
    → HasOwner organization (commit_update actor_user_id loaded m changed store).1
unfolding commit_update
commit-HasOwner organization actor_user_id loaded m changed store found same keeps h = ground (
  arith,
  write-HasOwner organization m changed store found same keeps h,
  write-HasOwner organization m (record changed { version = suc changed.version }) store found same
      keeps h,
)

kept-owner :
    (organization : ℕ) (m changed : DealerMembership) (request : MembershipUpdateRequest) (now : ℕ)
    (store : Store)
    → (removes_active_owner m request && not (has_other_owner m store)) ≡ false
    → with_status (with_role m request.role) request.status now ≡ ok changed
    → (is_active_owner organization m ≡ false)
      ⊎ ((is_active_owner organization changed ≡ true) ⊎ (has_other_owner m store ≡ true))
kept-owner organization m changed request now store guard asked =
    elim (Bool-cases (removes_active_owner m request)) [
      | inl removes ↦ inr (inr (ground arith))
      | inr stays ↦ elim (Bool-cases (is_active_owner organization m)) [
        | inl is ↦ inr (inl (changed-owner organization m changed request now asked stays is))
        | inr is_not ↦ inl is_not
      ]
    ]

-- An update of a membership never takes the last active owner from an organization.
pub update_membership-HasOwner :
    (now actor_user_id organization_id membership_id : ℕ) (request : MembershipUpdateRequest)
    (store after : Store) (m : DealerMembership) (organization : ℕ)
    → HasOwner organization store
    → update_membership now actor_user_id organization_id membership_id request store
      ≡ ok (m, after)
    → HasOwner organization after
unfolding update_membership
update_membership-HasOwner now actor organization_id membership_id request store after m
      organization h e =
    elim (Result-cases (load_authorization_context actor organization_id store)) [
      | inl (_, denied) ↦ absurd (ground arith)
      | inr (loaded, l) ↦ elim (Option-cases (get_membership membership_id store.memberships)) [
        | inl missing ↦ absurd (ground arith)
        | inr (membership, found) ↦
            elim (Result-cases
              (with_status (with_role membership request.role) request.status now)) [
                | inl (_, refused) ↦ absurd (ground arith)
                | inr (changed, asked) ↦
                    let (same, _) = changed_same_row membership changed request now asked in
                    let kept =
                      commit-HasOwner organization actor loaded membership changed store
                        (found_id membership_id membership store.memberships found) same
                        (kept-owner organization membership changed request now store (ground arith)
                          asked)
                        h in
                    ground arith
              ]
      ]
    ]

depart-HasOwner :
    (organization now : ℕ) (actor : User) (dealer : DealerOrganization) (m : DealerMembership)
    (store : Store)
    → get_membership m.id store.memberships ≡ some m
    → ((is_active_owner organization m ≡ false) ⊎ (has_other_owner m store ≡ true))
    → HasOwner organization store
    → HasOwner organization (depart now actor dealer m store).1
unfolding depart
depart-HasOwner organization now actor dealer m store found keeps h =
    write-HasOwner organization m _ store found refl
      (elim keeps [ inl a ↦ inl a | inr b ↦ inr (inr b) ]) h

activate-HasOwner :
    (organization now : ℕ) (actor : User) (dealer : DealerOrganization) (m : DealerMembership)
    (store : Store)
    → get_membership m.id store.memberships ≡ some m
    → is_active_membership m.status ≡ false
    → HasOwner organization store
    → HasOwner organization (activate now actor dealer m store).1
unfolding activate
activate-HasOwner organization now actor dealer m store found invited h =
    write-HasOwner organization m _ store found refl (inl (ground arith)) h

left-owner :
    (organization : ℕ) (m : DealerMembership) (store : Store)
    → (is_owner m.role && not (has_other_owner m store)) ≡ false
    → (is_active_owner organization m ≡ false) ⊎ (has_other_owner m store ≡ true)
left-owner organization m store guard = elim (Bool-cases (has_other_owner m store)) [
  | inl other ↦ inr other
  | inr alone ↦ inl (ground arith)
]

-- A member who leaves is never the last active owner of an organization.
pub leave_organization-HasOwner :
    (now actor_user_id membership_id version : ℕ) (store after : Store) (m : DealerMembership)
    (organization : ℕ)
    → HasOwner organization store
    → leave_organization now actor_user_id membership_id version store ≡ ok (m, after)
    → HasOwner organization after
unfolding leave_organization
leave_organization-HasOwner now actor_user_id membership_id version store after m organization h e =
    elim (Option-cases (get_user_by_id actor_user_id store.users)) [
      | inl missing ↦ absurd (ground arith)
      | inr (actor, a) ↦ elim (Option-cases (get_membership membership_id store.memberships)) [
        | inl missing ↦ absurd (ground arith)
        | inr (membership, found) ↦
            elim (Option-cases (get_organization membership.organization_id store.organizations)) [
              | inl missing ↦ absurd (ground arith)
              | inr (dealer, o) ↦
                  let kept =
                    depart-HasOwner organization now actor dealer membership store
                      (found_id membership_id membership store.memberships found)
                      (left-owner organization membership store (ground arith)) h in
                  ground arith
            ]
      ]
    ]

-- Accepting an invitation takes no owner from an organization.
pub accept_invitation-HasOwner :
    (now actor_user_id membership_id digest : ℕ) (store after : Store) (m : DealerMembership)
    (organization : ℕ)
    → HasOwner organization store
    → accept_invitation now actor_user_id membership_id digest store ≡ ok (m, after)
    → HasOwner organization after
unfolding accept_invitation
accept_invitation-HasOwner now actor_user_id membership_id digest store after m organization h e =
    elim (Option-cases (get_user_by_id actor_user_id store.users)) [
      | inl missing ↦ absurd (ground arith)
      | inr (actor, a) ↦ elim (Option-cases (get_membership membership_id store.memberships)) [
        | inl missing ↦ absurd (ground arith)
        | inr (membership, found) ↦
            elim (Option-cases (get_organization membership.organization_id store.organizations)) [
              | inl missing ↦ absurd (ground arith)
              | inr (dealer, o) ↦
                  let kept =
                    activate-HasOwner organization now actor dealer membership store
                      (found_id membership_id membership store.memberships found) (ground arith)
                      h in
                  ground arith
            ]
      ]
    ]
