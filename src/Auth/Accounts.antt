-- ===== src/Auth/Accounts.antt =====
-- The rows behind a session: Device, OrganizationMembership and User of backend/prisma/schema.prisma, and
-- the records that backend/src/modules/auth/refresh-session.repository.ts makes of them.
use swar.Prelude.{ℕ, Bool, List, String}

pub data OrganizationRole : Type 0 where
  owner admin security_analyst call_operator enrollment_operator member : OrganizationRole

-- Whether a status is ACTIVE is all that is read of an account.
pub record User : Type 0 where
  pub user_key : ℕ
  pub email : String
  pub user_active : Bool
  pub password_hash : String

pub record Membership : Type 0 where
  pub membership_key : ℕ
  pub membership_active : Bool
  pub user : User
  pub membership_roles : List OrganizationRole

pub record Device : Type 0 where
  pub device_key : ℕ
  pub device_public_id : String
  pub device_organization : ℕ
  pub organization_slug : String
  pub organization_active : Bool
  pub device_active : Bool
  pub membership : Membership

-- What the queries read of the other tables: the devices, and the device and the membership that a
-- session's foreign keys name.
pub record Directory : Type 0 where
  pub devices : List Device
  pub device_of : ℕ → Device
  pub membership_of : ℕ → Membership

pub record AuthPrincipal : Type 0 where
  pub user_id : ℕ
  pub organization_id : ℕ
  pub membership_id : ℕ
  pub device_id : ℕ
  pub session_id : ℕ
  pub roles : List OrganizationRole

-- LoginIdentity
pub record LoginIdentity : Type 0 where
  pub identity_user : ℕ
  pub identity_organization : ℕ
  pub identity_membership : ℕ
  pub identity_device : ℕ
  pub identity_roles : List OrganizationRole
  pub identity_password_hash : String
