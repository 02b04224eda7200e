-- ===== src/Authorization/Tests.antt =====
-- A sales agent of a verified dealer, and what the policy lets that user do.
use wheelmatch.Base.{◌≡◌, refl, true, false, none, some, ◌↔◌}
use wheelmatch.Authorization.{
  AuthorizationContext, OrganizationAccess, UserStatus, OrganizationStatus, verified,
  MembershipStatus, sales_agent, admin, interest_manage, inventory_manage, permits,
  can_manage_owned_resource, role_permissions, contains, organization_settings, owner,
}
use wheelmatch.Authorization.Access.{Granted, permits_iff, MayManage, can_manage_owned_resource_iff}

abbrev dealer : OrganizationAccess
dealer = record {
  organization_id = 40;
  organization_status = OrganizationStatus.active;
  organization_verification_status = verified;
  membership_id = 7;
  membership_status = MembershipStatus.active;
  membership_role = sales_agent;
}

abbrev agent : AuthorizationContext
agent = record {
  user_id = 3;
  user_status = UserStatus.active;
  email_verified = true;
  phone_verified = false;
  seller_profile_active = false;
  seller_readiness_ready = false;
  organization = some dealer;
}

agent-no_inventory : permits agent inventory_manage ≡ false
unfolding permits role_permissions wheelmatch.Authorization.dealer_permissions
agent-no_inventory = refl

agent-Granted : Granted agent dealer interest_manage
unfolding role_permissions
agent-Granted = record {
  organization = refl;
  standing = record {
    user = refl;
    organization_active = refl;
    organization_verified = refl;
    membership = refl;
  };
  listed = refl;
}

permits_iff_example : permits agent interest_manage ≡ true
permits_iff_example = (permits_iff agent interest_manage).1 (dealer, agent-Granted)

can_manage_owned_resource_iff_example :
    (can_manage_owned_resource agent none (some 40) interest_manage ≡ true)
    ↔ MayManage agent none (some 40) interest_manage
can_manage_owned_resource_iff_example =
    can_manage_owned_resource_iff agent none (some 40) interest_manage
