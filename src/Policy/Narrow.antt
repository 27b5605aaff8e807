-- ===== src/Policy/Narrow.antt =====
-- internal/policy/admin.go: who administers, and the narrowing of an actor to selected roles.
pub mod Roles
pub mod Reads
use tallox_go.Prelude.{
  String, List, [], ◌∷◌, Option, none, some, Bool, true, false, ◌&&◌, not, if◌then◌else◌, ◌==◌,
  string_comparable, contains, is_empty,
}
use tallox_go.Principal.{Actor, RoleScope}
use tallox_go.Policy.Role.{
  Role, admin, role_string, all_roles, role_comparable, RoleSet, parse_role, roles_of, has,
}
use tallox_go.Policy.Onlooker.{may_read_interactive_only, may_act_with_full_reach}

unfoldable pub may_administer_people : Actor → Bool
may_administer_people a = may_read_interactive_only a && has (roles_of a) admin

unfoldable pub may_administer_subject_groups : Actor → Bool
may_administer_subject_groups a = may_act_with_full_reach a && has (roles_of a) admin

-- The loop over `AllRoles`: the inner loop appends a role once if it is selected.
effective_roles : RoleSet → List Role → List Role → List String
effective_roles held selected [] = []
effective_roles held selected (r ∷ rs) =
    let out = effective_roles held selected rs in
    if not (has held r) then out else if contains selected r then role_string r ∷ out else out

-- The set `keep` holds the texts in `effective`.
keep_scopes : List String → List RoleScope → List RoleScope
keep_scopes effective [] = []
keep_scopes effective (scope ∷ rest) =
    let out = keep_scopes effective rest in
    if contains effective scope.role then scope ∷ out else out

scopes_of_roles : List RoleScope → List String → List RoleScope
unfolding keep_scopes
scopes_of_roles scopes effective = if is_empty scopes then scopes else keep_scopes effective scopes

unfoldable pub narrow : Actor → List Role → Actor
unfolding effective_roles scopes_of_roles
narrow a selected =
    let effective = effective_roles (roles_of a) selected all_roles in
    record a {
      roles = effective;
      narrowed_from = some a.roles;
      role_scopes = scopes_of_roles a.role_scopes effective;
    }

unfoldable pub parse_roles : List String → List Role
parse_roles [] = []
parse_roles (s ∷ rest) =
    let out = parse_roles rest in elim (parse_role s) [ some r ↦ r ∷ out | none ↦ out ]
