-- ===== src/Auth/Permissions.antt =====
-- backend/src/modules/auth/permissions.ts and resource-authorization.service.ts.
use swar.Prelude.{ℕ, Bool, true, false, List, ◌||◌, not, ◌==◌, any, Result, throw_if}
use swar.Auth.Accounts.{OrganizationRole, AuthPrincipal}
use swar.Auth.Limiter.{AuthError, forbidden}

pub data Permission : Type 0 where
  organization_read organization_manage membership_manage device_manage_self call_create call_read
        call_end enrollment_manage voiceprint_delete risk_event_read intervention_resolve
        risk_policy_read risk_policy_manage audit_read :
      Permission

-- rolePermissions
unfoldable pub role_has : OrganizationRole → Permission → Bool
role_has OrganizationRole.owner p = true
role_has OrganizationRole.admin p = true
role_has OrganizationRole.security_analyst organization_read = true
role_has OrganizationRole.security_analyst device_manage_self = true
role_has OrganizationRole.security_analyst call_create = true
role_has OrganizationRole.security_analyst call_read = true
role_has OrganizationRole.security_analyst call_end = true
role_has OrganizationRole.security_analyst risk_event_read = true
role_has OrganizationRole.security_analyst intervention_resolve = true
role_has OrganizationRole.security_analyst risk_policy_read = true
role_has OrganizationRole.security_analyst audit_read = true
role_has OrganizationRole.security_analyst p = false
role_has OrganizationRole.call_operator organization_read = true
role_has OrganizationRole.call_operator device_manage_self = true
role_has OrganizationRole.call_operator call_create = true
role_has OrganizationRole.call_operator call_read = true
role_has OrganizationRole.call_operator call_end = true
role_has OrganizationRole.call_operator risk_event_read = true
role_has OrganizationRole.call_operator p = false
role_has OrganizationRole.enrollment_operator organization_read = true
role_has OrganizationRole.enrollment_operator device_manage_self = true
role_has OrganizationRole.enrollment_operator call_read = true
role_has OrganizationRole.enrollment_operator enrollment_manage = true
role_has OrganizationRole.enrollment_operator voiceprint_delete = true
role_has OrganizationRole.enrollment_operator p = false
role_has OrganizationRole.member organization_read = true
role_has OrganizationRole.member device_manage_self = true
role_has OrganizationRole.member call_read = true
role_has OrganizationRole.member p = false

-- hasPermission
unfoldable pub has_permission : List OrganizationRole → Permission → Bool
unfolding role_has
has_permission roles p = any (λ r. role_has r p) roles

-- ResourceAuthorizationService.assert
unfoldable pub assert : AuthPrincipal → Permission → ℕ → Result AuthError (Unit {0})
unfolding has_permission
assert principal p resource_organization =
    throw_if
      (not (principal.organization_id == resource_organization)
        || not (has_permission principal.roles p))
      forbidden
