-- ===== src/Policy/Role/Parsing.antt =====
-- What `parse_role` and `roles_of` compute, by the text of the roles alone.
use mathlib.Core.Bool.{false≢true}
use tallox_go.Prelude.{
  ◌≢◌, String, List, [], ◌∷◌, some, Bool, true, false, ◌||◌, ◌≡◌, refl, sym, ap, ◌∙◌, inl, inr,
  arith, ◌⊎◌, ◌==◌, string_comparable, contains, any, Bool-cases, Option-cases,
}
use tallox_go.Principal.{Actor}
use tallox_go.Policy.Role.{
  Role, lecturer, subject_group_lead, programme_lead, deans_office, partner_reader, observer, admin,
  role_string, all_roles, role_eq_law, role_comparable, find_role, parse_role, RoleSet, put,
  collect, roles_of, has,
}

pub parse_role-role_string : (r : Role) → parse_role (role_string r) ≡ some r
unfolding parse_role
parse_role-role_string lecturer = refl
parse_role-role_string subject_group_lead = refl
parse_role-role_string programme_lead = refl
parse_role-role_string deans_office = refl
parse_role-role_string partner_reader = refl
parse_role-role_string observer = refl
parse_role-role_string admin = refl

find_role_sound :
    (s : String) (rs : List Role) (r : Role) → find_role s rs ≡ some r → role_string r ≡ s
unfolding find_role
find_role_sound s [] r h = ground arith
find_role_sound s (x ∷ xs) r h = elim (Bool-cases (role_string x == s)) [
  | inl hit ↦ ground (arith, (string_comparable.eq_law (role_string x) s).0 hit)
  | inr miss ↦ find_role_sound s xs r (rw miss at h)
]

pub role_string-parse_role : (s : String) (r : Role) → parse_role s ≡ some r → role_string r ≡ s
unfolding parse_role
role_string-parse_role s r h = find_role_sound s all_roles r h

pub has-put : (set : RoleSet) (r s : Role) → has (put set r) s ≡ (r == s) || has set s
unfolding has put
has-put set r s = elim (Bool-cases (contains set r)) [
  | inl old ↦ rw old (elim (Bool-cases (r == s)) [
    | inl same ↦ ground (arith, (role_eq_law r s).0 same, old)
    | inr other ↦ rw other refl
  ])
  | inr new ↦ rw new refl
]

-- `roles_of` holds a role exactly when its text is among the grants; other texts grant nothing.
abbrev pub granted : List String → Role → Bool
granted raws r = any (λ raw. role_string r == raw) raws

parse_role-cases :
    (raw : String) (r : Role)
    → ((parse_role raw ≡ some r) × ((role_string r == raw) ≡ true))
      ⊎ ((parse_role raw ≢ some r) × ((role_string r == raw) ≡ false))
parse_role-cases raw r = elim (Bool-cases (role_string r == raw)) [
  | inl hit ↦ inl (
    ap parse_role (sym ((string_comparable.eq_law (role_string r) raw).0 hit))
        ∙ parse_role-role_string r,
    hit,
  )
  | inr miss ↦ inr (
    (λ h. false≢true (
        sym miss
        ∙ (string_comparable.eq_law (role_string r) raw).1 (role_string-parse_role raw r h))),
    miss,
  )
]

has-collect :
    (raws : List String) (set : RoleSet) (r : Role)
    → has (collect raws set) r ≡ has set r || granted raws r
unfolding collect
has-collect [] set r = ground arith
has-collect (raw ∷ rest) set r = elim (Option-cases (parse_role raw)) [
  | inl e ↦ rw e (ground (arith, has-collect rest set r, parse_role-cases raw r))
  | inr (q, e) ↦ rw e (
      ground (
        arith,
        has-collect rest (put set q) r,
        parse_role-cases raw r,
        has-put set q r,
        role_eq_law q r,
      ))
]

pub has-roles_of : (a : Actor) (r : Role) → has (roles_of a) r ≡ granted a.roles r
unfolding roles_of has
has-roles_of a r = has-collect a.roles [] r
