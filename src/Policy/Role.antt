-- ===== src/Policy/Role.antt =====
-- internal/policy/role.go: the roles, and the set of them that an actor holds.
pub mod Parsing
use tallox_go.Prelude.{
  ℕ, String, List, [], ◌∷◌, Option, none, some, Bool, true, false, ◌||◌, ◌≡◌, ◌↔◌, refl, arith,
  nat_eq, if◌then◌else◌, Comparable, ◌==◌, string_comparable, contains, any, length,
}
use tallox_go.Principal.{Actor}

pub data Role : Type 0 where
  lecturer subject_group_lead programme_lead deans_office partner_reader observer admin : Role

-- The text of the constant.
unfoldable pub role_string : Role → String
role_string lecturer = "LECTURER"
role_string subject_group_lead = "SUBJECT_GROUP_LEAD"
role_string programme_lead = "PROGRAMME_LEAD"
role_string deans_office = "DEANS_OFFICE"
role_string partner_reader = "PARTNER_READER"
role_string observer = "OBSERVER"
role_string admin = "ADMIN"

abbrev pub all_roles : List Role
all_roles =
    lecturer ∷ subject_group_lead ∷ programme_lead ∷ deans_office ∷ partner_reader ∷ observer
    ∷ admin ∷ []

-- Two roles are the same if they stand at the same place.
abbrev place : Role → ℕ
place lecturer = 0
place subject_group_lead = 1
place programme_lead = 2
place deans_office = 3
place partner_reader = 4
place observer = 5
place admin = 6

abbrev pub role_eq : Role → Role → Bool
role_eq r s = nat_eq (place r) (place s)

pub role_eq_law : (r s : Role) → (role_eq r s ≡ true) ↔ (r ≡ s)
role_eq_law r s = ground arith

instance abbrev pub role_comparable : Comparable Role
role_comparable = record { eq = role_eq; eq_law = role_eq_law }

find_role : String → List Role → Option Role
find_role s [] = none
find_role s (r ∷ rs) = if role_string r == s then some r else find_role s rs

unfoldable pub parse_role : String → Option Role
unfolding find_role role_string
parse_role s = find_role s all_roles

-- The keys of a `map[Role]bool`; the source only ever stores `true`.
abbrev pub RoleSet : Type 0
RoleSet = List Role

-- `rs[r] = true`.
unfoldable pub put : RoleSet → Role → RoleSet
put rs r = if contains rs r then rs else r ∷ rs

collect : List String → RoleSet → RoleSet
collect [] set = set
collect (raw ∷ rest) set = collect rest (elim (parse_role raw) [ some r ↦ put set r | none ↦ set ])

unfoldable pub roles_of : Actor → RoleSet
unfolding collect parse_role put
roles_of a = collect a.roles []

unfoldable pub has : RoleSet → Role → Bool
has rs r = contains rs r

unfoldable pub has_any : RoleSet → List Role → Bool
has_any rs [] = false
has_any rs (r ∷ roles) = has rs r || has_any rs roles
