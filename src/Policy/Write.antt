-- ===== src/Policy/Write.antt =====
-- internal/policy/write.go: who may change what in which phase.
pub mod Closed
use tallox_go.Prelude.{
  String, List, [], ◌∷◌, Option, none, some, Bool, true, false, ◌&&◌, ◌||◌, ◌≡◌, ◌↔◌, arith, ℕ,
  nat_eq, if◌then◌else◌, Comparable, ◌==◌, contains, any,
}
use mathlib.Core.Path.{subst}
use text.Mathlib.TextEquality.{eq_iff}
use text.Mathlib.Text.{◌==◌ as str_eq}
use tallox_go.Principal.{Actor, Uuid}
use tallox_go.Policy.Role.{
  Role, lecturer, subject_group_lead, programme_lead, deans_office, roles_of, has,
}
use tallox_go.Policy.Phase.{Phase, phase_comparable}
use tallox_go.Policy.Programme.{
  programme_scope_missing_reason, may_plan_programme, holds_programme_lead_without_scope,
  planning_refusal,
}
use tallox_go.Policy.SubjectGroup.{
  subject_group_scope_missing_reason, assignment_reason, may_act_in_subject_group,
  holds_subject_group_lead_without_scope,
}

-- `other` stands for any text that is none of the four constants.
pub data WriteArea : Type 0 where
  demand wishes assignment desired_hours : WriteArea
  other : String → WriteArea

abbrev place : WriteArea → ℕ
place demand = 0
place wishes = 1
place assignment = 2
place desired_hours = 3
place (other s) = 4

abbrev rest : WriteArea → String
rest (other s) = s
rest _ = ""

abbrev pub area_eq : WriteArea → WriteArea → Bool
area_eq x y = nat_eq (place x) (place y) && str_eq (rest x) (rest y)

area_eq_sound : (x y : WriteArea) → area_eq x y ≡ true → x ≡ y
area_eq_sound x y h = ground (arith, eq_iff (rest x) (rest y))

area_eq_refl : (x : WriteArea) → area_eq x x ≡ true
area_eq_refl x = ground (arith, eq_iff (rest x) (rest x))

pub area_eq_law : (x y : WriteArea) → (area_eq x y ≡ true) ↔ (x ≡ y)
area_eq_law x y = (area_eq_sound x y, λ e. subst (λ z. area_eq x z ≡ true) e (area_eq_refl x))

instance abbrev pub area_comparable : Comparable WriteArea
area_comparable = record { eq = area_eq; eq_law = area_eq_law }

abbrev pub all_write_areas : List WriteArea
all_write_areas = demand ∷ wishes ∷ desired_hours ∷ assignment ∷ []

unfoldable pub valid : WriteArea → Bool
valid area = contains all_write_areas area

-- A key that is not there reads as `none`.
abbrev lookup {ℓ κ} : {K : Type ℓ} {V : Type κ} ⦃c : Comparable K⦄ → List (K × V) → K → Option V
lookup [] k = none
lookup ((j, v) ∷ m) k = if j == k then some v else lookup m k

-- A row whose writers are the same until the semester is over; `nil` writers are `[]`.
abbrev row : List Role → List (Phase × List Role)
row writers =
    (Phase.demand_planning, writers)
    ∷ (Phase.wishes, writers)
    ∷ (Phase.assignment, writers)
    ∷ (Phase.review, writers)
    ∷ (Phase.final, [])
    ∷ []

unfoldable pub write_matrix : List (WriteArea × List (Phase × List Role))
write_matrix =
    (demand, row (programme_lead ∷ deans_office ∷ []))
    ∷ (wishes, row (lecturer ∷ []))
    ∷ (desired_hours, row (lecturer ∷ []))
    ∷ (assignment, row (subject_group_lead ∷ programme_lead ∷ deans_office ∷ []))
    ∷ []

-- Go's reading of a missing key: the zero value, which is the empty map or the empty slice.
abbrev or_empty {ℓ} : {A : Type ℓ} → Option (List A) → List A
or_empty none = []
or_empty (some xs) = xs

unfoldable pub writers_in : WriteArea → Phase → List Role
unfolding write_matrix
writers_in area phase = or_empty (lookup (or_empty (lookup write_matrix area)) phase)

unfoldable pub decided : WriteArea → Phase → Bool
unfolding write_matrix
decided area phase = elim (lookup write_matrix area) [
  | none ↦ false
  | some phases ↦ elim (lookup phases phase) [ none ↦ false | some writers ↦ true ]
]

unfoldable pub may_write_in_phase : WriteArea → Phase → Actor → Bool
unfolding writers_in
may_write_in_phase area phase a =
    let roles = roles_of a in any (λ r. has roles r) (writers_in area phase)

unfoldable pub may_write_demand : Actor → Uuid → Phase → Bool
may_write_demand a programme_id phase =
    may_write_in_phase demand phase a && may_plan_programme a programme_id

abbrev pub phase_closed_reason : String
phase_closed_reason = "Dieses Semester ist abgeschlossen und wird nicht mehr geändert."

unfoldable pub demand_refusal : Actor → Uuid → Phase → String
demand_refusal a programme_id phase =
    if may_plan_programme a programme_id then phase_closed_reason else planning_refusal a

abbrev pub assignment_phase_closed_reason : String
assignment_phase_closed_reason = phase_closed_reason

unfoldable pub may_write_assignment : Actor → Uuid → Uuid → Phase → Bool
may_write_assignment a subject_group_id programme_id phase =
    if may_write_in_phase assignment phase a
    then may_act_in_subject_group a subject_group_id || may_plan_programme a programme_id
    else false

unfoldable pub may_write_instance_format : Actor → Uuid → Uuid → Phase → Bool
may_write_instance_format a subject_group_id programme_id phase =
    may_write_assignment a subject_group_id programme_id phase

unfoldable pub may_write_instance_cie : Actor → Uuid → Uuid → Phase → Bool → Bool
unfolding may_write_instance_format
may_write_instance_cie a subject_group_id programme_id phase teaches =
    if may_write_instance_format a subject_group_id programme_id phase
    then true
    else teaches && may_write_in_phase wishes phase a

unfoldable pub may_write_instance_topic : Actor → Uuid → Uuid → Phase → Bool
may_write_instance_topic a subject_group_id programme_id phase =
    may_write_demand a programme_id phase
    || may_write_assignment a subject_group_id programme_id phase

unfoldable pub may_divide_instance_part : Actor → Uuid → Uuid → Phase → Bool
may_divide_instance_part a subject_group_id programme_id phase =
    may_write_assignment a subject_group_id programme_id phase

unfoldable pub assignment_write_refusal : Actor → Uuid → Uuid → Phase → String
assignment_write_refusal a subject_group_id programme_id phase =
    if may_act_in_subject_group a subject_group_id || may_plan_programme a programme_id
    then assignment_phase_closed_reason
    else if holds_subject_group_lead_without_scope a
    then subject_group_scope_missing_reason
    else if holds_programme_lead_without_scope a
    then programme_scope_missing_reason
    else assignment_reason
