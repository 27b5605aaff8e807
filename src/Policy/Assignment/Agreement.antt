-- ===== src/Policy/Assignment/Agreement.antt =====
-- The two forms of the assignment rule, and the question a sum over a programme asks.
use tallox_go.Prelude.{◌≡◌, refl, ◌↔◌, true, arith}
use tallox_go.Principal.{Actor, Uuid, nil_uuid, authenticated, owns}
use tallox_go.Policy.IdScope.{id_scope_allows}
use tallox_go.Policy.IdScope.Laws.{id_scope_allows-all, not-allows_of_empty, id_scope_allows-nil}
use tallox_go.Policy.Programme
use tallox_go.Policy.Programme.{planning_scope, demand_read_scope}
use tallox_go.Policy.SubjectGroup
use tallox_go.Policy.SubjectGroup.{assignment_scope}
use tallox_go.Policy.Semester.{SemesterState}
use tallox_go.Policy.Assignment.{
  Assignment, AssignmentFilter, matches, can_see_assignment, assignment_visibility,
  covers_programme,
}

-- The filter lets through exactly the assignments that the guard shows.
pub matches-assignment_visibility :
    (actor : Actor) (s : SemesterState) (a : Assignment)
    → matches (assignment_visibility actor s) a ≡ can_see_assignment actor s a
unfolding matches assignment_visibility can_see_assignment authenticated owns Programme.allows
    SubjectGroup.allows Programme.empty SubjectGroup.empty demand_read_scope
matches-assignment_visibility actor s a = ground (
  arith,
  id_scope_allows-all (planning_scope actor).ids a.programme_id,
  id_scope_allows-all (assignment_scope actor).ids a.subject_group_id,
  not-allows_of_empty (planning_scope actor).all (planning_scope actor).ids a.programme_id,
  not-allows_of_empty (assignment_scope actor).all (assignment_scope actor).ids a.subject_group_id,
  not-allows_of_empty (demand_read_scope actor).all (demand_read_scope actor).ids a.programme_id,
  id_scope_allows-nil a.subject_group_id,
)

covers-matches :
    (f : AssignmentFilter) (a : Assignment)
    → covers_programme f a.programme_id ≡ true
    → matches f a ≡ true
unfolding covers_programme matches
covers-matches f a h = ground arith

abbrev unheld : Uuid → Assignment
unheld programme_id = record {
  assignee_id = nil_uuid;
  programme_id = programme_id;
  subject_group_id = nil_uuid;
}

-- A filter covers a programme exactly when it lets through every assignment of the programme's
-- instances, whoever holds them and whatever subject group the module is in.
pub covers_programme-iff-matches :
    (f : AssignmentFilter) (programme_id : Uuid)
    → (covers_programme f programme_id ≡ true)
      ↔ ((a : Assignment) → a.programme_id ≡ programme_id → matches f a ≡ true)
unfolding covers_programme matches id_scope_allows
covers_programme-iff-matches f programme_id =
    (λ h a e. covers-matches f a (rw e h), λ all. ground (arith, all (unheld programme_id) refl))
