-- ===== src/Governance/Rbac/Laws.antt =====
-- What the table grants, and that role names are read back as written.
use contract_agent_capstone.Prelude.{◌≡◌, refl, ◌⊎◌, true, some, arith}
use contract_agent_capstone.Governance.Rbac.{
  UserRole, admin, legal_reviewer, auditor, viewer, role_value, parse_role, Permission, delete,
  manage_policies, manage_users, has_permission,
}

pub parse_role-role_value : (r : UserRole) → parse_role (role_value r) ≡ some r
unfolding parse_role
parse_role-role_value admin = refl
parse_role-role_value legal_reviewer = refl
parse_role-role_value auditor = refl
parse_role-role_value viewer = refl

-- Only an administrator may delete, manage policies or manage users.
pub privileged_is_admin :
    (r : UserRole) (p : Permission)
    → (p ≡ delete) ⊎ ((p ≡ manage_policies) ⊎ (p ≡ manage_users))
    → has_permission r p ≡ true
    → r ≡ admin
unfolding has_permission
privileged_is_admin r p h g = ground arith
