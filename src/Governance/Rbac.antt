-- ===== src/Governance/Rbac.antt =====
-- backend/governance/rbac.py: roles, permissions and the static table between them.
pub mod Laws
use contract_agent_capstone.Prelude.{
  Bool, true, false, Option, none, some, List, [], ◌∷◌, any, ◌==◌, if◌then◌else◌,
}
use contract_agent_capstone.Prelude.Text.{Text, codes, text_eq}

pub data UserRole : Type 0 where
  admin legal_reviewer auditor viewer : UserRole

-- `UserRole.value`
abbrev pub role_value : UserRole → Text
role_value admin = codes "ADMIN"
role_value legal_reviewer = codes "LEGAL_REVIEWER"
role_value auditor = codes "AUDITOR"
role_value viewer = codes "VIEWER"

-- `UserRole(text)`, which raises where this is `none`.
unfoldable pub parse_role : Text → Option UserRole
parse_role t =
    if t == role_value admin
    then some admin
    else if t == role_value legal_reviewer
    then some legal_reviewer
    else if t == role_value auditor
    then some auditor
    else if t == role_value viewer
    then some viewer
    else none

pub data Permission : Type 0 where
  upload delete analyze view_reports manage_policies view_audit manage_users : Permission

-- `set(Permission)`
abbrev pub all_permissions : List Permission
all_permissions =
    upload ∷ delete ∷ analyze ∷ view_reports ∷ manage_policies ∷ view_audit ∷ manage_users ∷ []

-- `ROLE_PERMISSIONS`
unfoldable pub role_permissions : UserRole → List Permission
role_permissions admin = all_permissions
role_permissions legal_reviewer = analyze ∷ upload ∷ view_reports ∷ []
role_permissions auditor = view_reports ∷ view_audit ∷ []
role_permissions viewer = analyze ∷ []

abbrev pub same_permission : Permission → Permission → Bool
same_permission upload upload = true
same_permission delete delete = true
same_permission analyze analyze = true
same_permission view_reports view_reports = true
same_permission manage_policies manage_policies = true
same_permission view_audit view_audit = true
same_permission manage_users manage_users = true
same_permission _ _ = false

unfoldable pub has_permission : UserRole → Permission → Bool
unfolding role_permissions
has_permission role permission = any (same_permission permission) (role_permissions role)
