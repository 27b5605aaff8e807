-- ===== src/Policy/Write/Closed.antt =====
-- When the plan may be written.
use tallox_go.Prelude.{false, ◌||◌, ◌≡◌, ◌≢◌, refl, arith, string_comparable, nat_comparable}
use tallox_go.Principal.{Actor, Uuid}
use tallox_go.Policy.Role.{roles_of, has, programme_lead, subject_group_lead, deans_office}
use tallox_go.Policy.Phase.{Phase}
use tallox_go.Policy.Phase.Steps.{IsKnown}
use tallox_go.Policy.Programme.{may_plan_programme, planning_refusal}
use tallox_go.Policy.SubjectGroup.{may_act_in_subject_group}
use text.Mathlib.TextEquality.{eq_iff}
use tallox_go.Policy.Programme.{programme_scope_missing_reason, planning_reason}
use tallox_go.Policy.SubjectGroup.{subject_group_scope_missing_reason, assignment_reason}
use tallox_go.Policy.Reach.{may_plan_programme-plans, may_act_in_subject_group-leads}
use tallox_go.Policy.Write.{
  WriteArea, demand, assignment, other, writers_in, may_write_in_phase, may_write_demand,
  may_write_assignment, demand_refusal, assignment_write_refusal, phase_closed_reason,
}

abbrev pub IsArea : WriteArea → Type 0
IsArea (other s) = ⊥
IsArea _ = Unit {0}

-- In a semester that is over nobody writes anything, whatever the area; nor in a phase that is
-- none of the five.
pub closed_final :
    (area : WriteArea) (phase : Phase) (a : Actor)
    → (may_write_in_phase area Phase.final a ≡ false)
      × ((IsKnown phase → ⊥) → may_write_in_phase area phase a ≡ false)
unfolding may_write_in_phase
closed_final area phase a = (ground arith, λ h. ground (arith, h))

writers_in-running :
    (area : WriteArea) (phase : Phase)
    → IsKnown phase
    → phase ≢ Phase.final
    → writers_in area phase ≡ writers_in area Phase.demand_planning
unfolding writers_in
writers_in-running area Phase.demand_planning known running = refl
writers_in-running area Phase.wishes known running = ground arith
writers_in-running area Phase.assignment known running = ground arith
writers_in-running area Phase.review known running = ground arith
writers_in-running area Phase.final known running = absurd (running refl)
writers_in-running area (Phase.other s) known running = elim known [ ]

-- While the semester is not over, who may write an area does not depend on the phase.
pub open_same :
    (area : WriteArea) (p q : Phase) (a : Actor)
    → IsKnown p
    → IsKnown q
    → p ≢ Phase.final
    → q ≢ Phase.final
    → may_write_in_phase area p a ≡ may_write_in_phase area q a
unfolding may_write_in_phase
open_same area p q a hp hq np nq =
    rw (writers_in-running area p hp np, writers_in-running area q hq nq)

-- The two rows that the demand and the assignment are written by.
planners :
    (phase : Phase) (a : Actor)
    → IsKnown phase
    → phase ≢ Phase.final
    → (may_write_in_phase demand phase a
        ≡ (has (roles_of a) programme_lead || has (roles_of a) deans_office))
      × (may_write_in_phase assignment phase a ≡ (
          has (roles_of a) subject_group_lead
          || (has (roles_of a) programme_lead || has (roles_of a) deans_office)))
unfolding may_write_in_phase
planners phase a known running = (
  rw (writers_in-running demand phase known running) (ground arith),
  rw (writers_in-running assignment phase known running) (ground arith),
)

-- Before the semester is over, the demand is written by exactly those who plan the programme and
-- an assignment by exactly those who answer for its subject group or its programme.
pub open_responsible :
    (a : Actor) (group programme : Uuid) (phase : Phase)
    → IsKnown phase
    → phase ≢ Phase.final
    → (may_write_demand a programme phase ≡ may_plan_programme a programme)
      × (may_write_assignment a group programme phase
          ≡ (may_act_in_subject_group a group || may_plan_programme a programme))
unfolding may_write_demand may_write_assignment
open_responsible a group programme phase known running =
    let (row, rows) = planners phase a known running in
    (
      rw row (rw (may_plan_programme-plans a programme) (ground arith)),
      rw rows (
          ground
            (arith, may_plan_programme-plans a programme, may_act_in_subject_group-leads a group)),
    )

-- Somebody who is refused while the semester runs is not told that it is over.
pub refusal_honest :
    (a : Actor) (group programme : Uuid) (phase : Phase)
    → IsKnown phase
    → phase ≢ Phase.final
    → (may_write_demand a programme phase ≡ false
        → demand_refusal a programme phase ≢ phase_closed_reason)
      × (may_write_assignment a group programme phase ≡ false
          → assignment_write_refusal a group programme phase ≢ phase_closed_reason)
unfolding demand_refusal assignment_write_refusal planning_refusal
refusal_honest a group programme phase known running =
    let (own, rows) = open_responsible a group programme phase known running in
    (
      λ h e. ground (
        arith,
        h,
        e,
        own,
        eq_iff programme_scope_missing_reason phase_closed_reason,
        eq_iff planning_reason phase_closed_reason,
      ),
      λ h e. ground (
        arith,
        h,
        e,
        rows,
        eq_iff programme_scope_missing_reason phase_closed_reason,
        eq_iff subject_group_scope_missing_reason phase_closed_reason,
        eq_iff assignment_reason phase_closed_reason,
      ),
    )
