-- ===== src/Policy/Narrow/Roles.antt =====
-- Narrowing is an intersection of roles, and no planning right survives the loss of its grant.
use tallox_go.Prelude.{
  String, List, [], ◌∷◌, Bool, true, ◌&&◌, ◌≡◌, refl, sym, ap, ◌∙◌, inl, inr, arith, ◌==◌, contains,
  any, string_comparable, Bool-cases, Bool_ext, eq_self, nat_comparable,
}
use tallox_go.Principal.{Actor, RoleScope, Uuid}
use tallox_go.Policy.Role.{
  Role, subject_group_lead, programme_lead, deans_office, role_string, all_roles, role_eq_law,
  role_comparable, RoleSet, parse_role, roles_of, has,
}
use tallox_go.Policy.Role.Parsing.{parse_role-role_string, granted, has-roles_of}
use tallox_go.Policy.IdScope.Laws.{names}
use tallox_go.Policy.Programme.{may_plan_programme}
use tallox_go.Policy.SubjectGroup.{may_act_in_subject_group}
use tallox_go.Policy.Reach.{may_plan_programme-plans, may_act_in_subject_group-leads}
use tallox_go.Policy.Narrow.{effective_roles, keep_scopes, scopes_of_roles, narrow}

role_string-injective : (r q : Role) → role_string r ≡ role_string q → r ≡ q
role_string-injective r q e =
    cc (parse_role-role_string r, parse_role-role_string q, ap parse_role e)

role_string-eq : (r q : Role) → (role_string r == role_string q) ≡ (r == q)
role_string-eq r q =
    Bool_ext _ _
      (λ h. (role_eq_law r q).1 (role_string-injective r q ((string_comparable.eq_law _ _).0 h)))
      (λ h. (string_comparable.eq_law _ _).1 (ap role_string ((role_eq_law r q).0 h)))

eq_sym : (q r : Role) → (q == r) ≡ (r == q)
eq_sym q r =
    Bool_ext _ _ (λ h. (role_eq_law r q).1 (sym ((role_eq_law q r).0 h)))
      (λ h. (role_eq_law q r).1 (sym ((role_eq_law r q).0 h)))

contains-all_roles : (r : Role) → contains all_roles r ≡ true
contains-all_roles r = ground arith

granted-effective_roles :
    (held : RoleSet) (selected rs : List Role) (q : Role)
    → granted (effective_roles held selected rs) q
      ≡ (contains rs q && (has held q && contains selected q))
unfolding effective_roles
granted-effective_roles held selected [] q = refl
granted-effective_roles held selected (r ∷ rs) q = elim (Bool-cases (r == q)) [
  | inl same ↦ ground (
    arith,
    (role_eq_law r q).0 same,
    same,
    eq_self (role_string q),
    granted-effective_roles held selected rs q,
  )
  | inr other ↦
      ground
        (arith, other, role_string-eq q r, eq_sym q r, granted-effective_roles held selected rs q)
]

-- The roles after narrowing are those held before and selected.
pub has-narrow :
    (a : Actor) (selected : List Role) (r : Role)
    → has (roles_of (narrow a selected)) r ≡ (has (roles_of a) r && contains selected r)
unfolding narrow
has-narrow a selected r =
    has-roles_of (narrow a selected) r
    ∙ granted-effective_roles (roles_of a) selected all_roles r
    ∙ ap (λ b. b && (has (roles_of a) r && contains selected r)) (contains-all_roles r)

any-keep_scopes :
    (p : RoleScope → Bool) (effective : List String) (scopes : List RoleScope)
    → any p (keep_scopes effective scopes) ≡ true
    → any p scopes ≡ true
unfolding keep_scopes
any-keep_scopes p effective [] h = h
any-keep_scopes p effective (scope ∷ rest) h = ground (arith, any-keep_scopes p effective rest)

pub any-narrow :
    (p : RoleScope → Bool) (a : Actor) (selected : List Role)
    → any p (narrow a selected).role_scopes ≡ true
    → any p a.role_scopes ≡ true
unfolding narrow scopes_of_roles
any-narrow p a selected h =
    ground
      (arith, any-keep_scopes p (effective_roles (roles_of a) selected all_roles) a.role_scopes)

-- Narrowing gains no programme to plan and no subject group to act in.
pub narrow-planning_le :
    (a : Actor) (selected : List Role) (id : Uuid)
    → (may_plan_programme (narrow a selected) id ≡ true → may_plan_programme a id ≡ true)
      × (may_act_in_subject_group (narrow a selected) id ≡ true
          → may_act_in_subject_group a id ≡ true)
narrow-planning_le a selected id = (
  λ h. ground (
    arith,
    h,
    may_plan_programme-plans a id,
    may_plan_programme-plans (narrow a selected) id,
    has-narrow a selected deans_office,
    has-narrow a selected programme_lead,
    any-narrow (names programme_lead (λ s. s.programme_id) id) a selected,
  ),
  λ h. ground (
    arith,
    h,
    may_act_in_subject_group-leads a id,
    may_act_in_subject_group-leads (narrow a selected) id,
    has-narrow a selected deans_office,
    has-narrow a selected subject_group_lead,
    any-narrow (names subject_group_lead (λ s. s.subject_group_id) id) a selected,
  ),
)
