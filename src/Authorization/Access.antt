-- ===== src/Authorization/Access.antt =====
-- Who the policy lets act: its decisions against the conditions that they stand for.
use wheelmatch.Base.{
  ℕ, ◌≡◌, refl, ◌↔◌, ◌⊎◌, inl, inr, true, Option, none, some, arith, Option-cases,
}
use wheelmatch.Authorization.{
  DealerPermission, UserStatus, OrganizationStatus, verified, MembershipStatus, OrganizationAccess,
  AuthorizationContext, contains, role_permissions, permits, can_manage_owned_resource,
  dealer_permissions, organization_permissions,
}

-- An active membership in an active, verified organization, by an active user.
pub record IsStanding (status : UserStatus) (o : OrganizationAccess) : Type 0 where
  pub user : status ≡ UserStatus.active
  pub organization_active : o.organization_status ≡ OrganizationStatus.active
  pub organization_verified : o.organization_verification_status ≡ verified
  pub membership : o.membership_status ≡ MembershipStatus.active

-- What a role grants to a member, and to nobody else.
pub record Granted (c : AuthorizationContext) (o : OrganizationAccess) (p : DealerPermission)
    : Type 0 where
  pub organization : c.organization ≡ some o
  pub standing : IsStanding c.user_status o
  pub listed : contains p (role_permissions o.membership_role) ≡ true

organization_grant :
    (status : UserStatus) (o : OrganizationAccess) (p : DealerPermission)
    → contains p (organization_permissions status (some o)) ≡ true
    → IsStanding status o × (contains p (role_permissions o.membership_role) ≡ true)
unfolding organization_permissions
organization_grant status o p h = ground arith

-- A permission is granted exactly to a member in good standing whose role lists it.
pub permits_iff :
    (c : AuthorizationContext) (p : DealerPermission)
    → (permits c p ≡ true) ↔ ((o : OrganizationAccess) × Granted c o p)
unfolding permits dealer_permissions
permits_iff c p = (λ h. ground (arith), λ (o, g). ground arith)

-- Who may manage a resource: its personal owner, or a granted member of the owning organization.
abbrev pub MayManage : AuthorizationContext → Option ℕ → Option ℕ → DealerPermission → Type 0
MayManage c owner_user owner_organization p =
    (c.user_status ≡ UserStatus.active)
    × (((owner_user ≡ some c.user_id) × (owner_organization ≡ none))
        ⊎ ((o : OrganizationAccess) × (owner_user ≡ none)
            × (owner_organization ≡ some o.organization_id)
            × Granted c o p))

managed_by_member :
    (c : AuthorizationContext) (g : Option ℕ) (p : DealerPermission)
    → can_manage_owned_resource c none g p ≡ true
    → (o : OrganizationAccess) × (g ≡ some o.organization_id) × Granted c o p
unfolding can_manage_owned_resource
managed_by_member c g p h = elim (Option-cases c.organization) [
  | inl missing ↦ absurd (ground arith)
  | inr (o, e) ↦ (o, ground arith, ground (arith, (permits_iff c p).0))
]

managed-MayManage :
    (c : AuthorizationContext) (u g : Option ℕ) (p : DealerPermission)
    → can_manage_owned_resource c u g p ≡ true
    → MayManage c u g p
unfolding can_manage_owned_resource
managed-MayManage c (some x) g p h = (ground arith, inl (ground arith, ground arith))
managed-MayManage c none g p h =
    let (o, e, granted) = managed_by_member c g p h in (ground arith, inr (o, refl, e, granted))

-- A resource is managed exactly by its active personal owner, or by a member with the permission
-- of the organization that owns it; a resource with two owners, or with none, by nobody.
pub can_manage_owned_resource_iff :
    (c : AuthorizationContext) (owner_user owner_organization : Option ℕ) (p : DealerPermission)
    → (can_manage_owned_resource c owner_user owner_organization p ≡ true)
      ↔ MayManage c owner_user owner_organization p
unfolding can_manage_owned_resource
can_manage_owned_resource_iff c u g p =
    (managed-MayManage c u g p, λ h. ground (arith, permits_iff c p))
