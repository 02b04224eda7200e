-- ===== src/Authorization.antt =====
-- The deny-by-default authorization policy, backend/app/modules/authorization/policy.py: roles,
-- permissions and the policy's decisions.
-- Ids are numbers, since they are only compared. A status is one of the values that the column's
-- CHECK allows; a role that the table of permissions does not list is `unlisted`.
pub mod Access
mod Tests
use wheelmatch.Base.{
  ℕ, Bool, true, false, not, ◌&&◌, ◌||◌, Option, none, some, List, [], ◌∷◌, ◌==◌, if◌then◌else◌,
  any, is_none, is_some,
}

pub data DealerPermission : Type 0 where
  organization_settings organization_settings_limited membership_manage inventory_manage
        request_metadata_view interest_manage conversation_assign conversation_work_assigned :
      DealerPermission

pub data Role : Type 0 where
  owner admin inventory_manager sales_agent unlisted : Role

pub data UserStatus : Type 0 where
  active suspended deleted : UserStatus

pub data OrganizationStatus : Type 0 where
  active suspended : OrganizationStatus

pub data OrganizationVerification : Type 0 where
  pending verified rejected : OrganizationVerification

pub data MembershipStatus : Type 0 where
  invited active suspended left revoked : MembershipStatus

abbrev pub permission_index : DealerPermission → ℕ
permission_index organization_settings = 0
permission_index organization_settings_limited = 1
permission_index membership_manage = 2
permission_index inventory_manage = 3
permission_index request_metadata_view = 4
permission_index interest_manage = 5
permission_index conversation_assign = 6
permission_index conversation_work_assigned = 7

-- `permission in permissions`
abbrev pub contains : DealerPermission → List DealerPermission → Bool
contains p = any (λ q. permission_index q == permission_index p)

-- `ROLE_PERMISSIONS.get(role, frozenset())`
unfoldable pub role_permissions : Role → List DealerPermission
role_permissions owner =
    organization_settings ∷ organization_settings_limited ∷ membership_manage ∷ inventory_manage
    ∷ request_metadata_view ∷ interest_manage ∷ conversation_assign ∷ conversation_work_assigned
    ∷ []
role_permissions admin =
    organization_settings_limited ∷ membership_manage ∷ inventory_manage ∷ request_metadata_view
    ∷ interest_manage ∷ conversation_assign ∷ []
role_permissions inventory_manager = inventory_manage ∷ []
role_permissions sales_agent = interest_manage ∷ conversation_work_assigned ∷ []
role_permissions unlisted = []

pub record OrganizationAccess : Type 0 where
  pub organization_id : ℕ
  pub organization_status : OrganizationStatus
  pub organization_verification_status : OrganizationVerification
  pub membership_id : ℕ
  pub membership_status : MembershipStatus
  pub membership_role : Role

-- Of a seller profile the policy asks only whether it is active and whether it is ready.
pub record AuthorizationContext : Type 0 where
  pub user_id : ℕ
  pub user_status : UserStatus
  pub email_verified : Bool
  pub phone_verified : Bool
  pub seller_profile_active : Bool
  pub seller_readiness_ready : Bool
  pub organization : Option OrganizationAccess

abbrev pub is_active_user : UserStatus → Bool
is_active_user UserStatus.active = true
is_active_user _ = false

abbrev pub is_active_organization : OrganizationStatus → Bool
is_active_organization OrganizationStatus.active = true
is_active_organization _ = false

abbrev pub is_verified_organization : OrganizationVerification → Bool
is_verified_organization verified = true
is_verified_organization _ = false

abbrev pub is_active_membership : MembershipStatus → Bool
is_active_membership MembershipStatus.active = true
is_active_membership _ = false

unfoldable pub can_buy : AuthorizationContext → Bool
can_buy context = is_active_user context.user_status

unfoldable pub can_create_private_draft : AuthorizationContext → Bool
can_create_private_draft context =
    is_active_user context.user_status && context.email_verified && context.phone_verified

unfoldable pub can_sell_personally : AuthorizationContext → Bool
can_sell_personally context =
    is_active_user context.user_status
    && context.seller_profile_active
    && context.seller_readiness_ready

-- the organization's part of `dealer_permissions`
organization_permissions : UserStatus → Option OrganizationAccess → List DealerPermission
organization_permissions status none = []
organization_permissions status (some organization) =
    if not (is_active_user status)
      || not (is_active_organization organization.organization_status)
      || not (is_verified_organization organization.organization_verification_status)
      || not (is_active_membership organization.membership_status)
    then []
    else role_permissions organization.membership_role

unfoldable pub dealer_permissions : AuthorizationContext → List DealerPermission
unfolding organization_permissions
dealer_permissions context = organization_permissions context.user_status context.organization

unfoldable pub permits : AuthorizationContext → DealerPermission → Bool
permits context permission = contains permission (dealer_permissions context)

-- the last return of `can_manage_owned_resource`
owned_by_organization :
    AuthorizationContext → Option ℕ → Option OrganizationAccess → DealerPermission → Bool
owned_by_organization context none organization permission = false
owned_by_organization context (some owner_id) none permission = false
owned_by_organization context (some owner_id) (some organization) permission =
    owner_id == organization.organization_id && permits context permission

owned_resource : AuthorizationContext → Option ℕ → Option ℕ → DealerPermission → Bool
unfolding owned_by_organization
owned_resource context (some user) owner_organization_id permission =
    user == context.user_id && is_none owner_organization_id
owned_resource context none owner_organization_id permission =
    owned_by_organization context owner_organization_id context.organization permission

unfoldable pub can_manage_owned_resource :
    AuthorizationContext → Option ℕ → Option ℕ → DealerPermission → Bool
unfolding owned_resource
can_manage_owned_resource context owner_user_id owner_organization_id permission =
    if not (is_active_user context.user_status)
    then false
    else owned_resource context owner_user_id owner_organization_id permission
