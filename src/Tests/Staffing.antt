-- ===== src/Tests/Staffing.antt =====
-- A programme lead staffs the parts of the summer of 2026.
use tallox_go.Store.Rows.{set_rows}
use tallox_go.Store.Assignments.{why_not_filled}
use tallox_go.Store.Assignments.{teacher_exists}
use tallox_go.Store.Assignments.{replace_assignment}
use tallox_go.Store.Assignments.{person_exists}
use tallox_go.Store.Assignments.{fill_part}
use tallox_go.Store.Assignments.{checked}
use tallox_go.Policy.Write.{writers_in}
use tallox_go.Policy.Write.{write_matrix}
use tallox_go.Domain.Assignments.{write_part}
use tallox_go.Domain.Assignments.{set_checked}
use tallox_go.Domain.Assignments.{read_back}
use tallox_go.Domain.Assignments.{canonical}
use tallox_go.Policy.Programme.{may_plan_programme}
use tallox_go.Policy.SubjectGroup.{may_act_in_subject_group}
use tallox_go.Policy.Write.{may_write_in_phase}
use tallox_go.Policy.Write.{may_write_assignment}
use tallox_go.Store.Assignments.{part_write_context}
use tallox_go.Store.Semesters.{select}
use tallox_go.Store.Rows.{pick_rows}
use tallox_go.Store.Rows.{find_row}
use tallox_go.Store.Assignments.{shown_row}
use tallox_go.Store.Assignments.{read}
use tallox_go.Store.Assignments.{in_scope}
use tallox_go.Store.Assignments.{assignment_filter_params}
use tallox_go.Prelude.{trim_right}
use tallox_go.Prelude.{trim_left}
use tallox_go.Policy.Role.{role_string}
use tallox_go.Policy.Role.{put}
use tallox_go.Policy.Role.{parse_role}
use tallox_go.Policy.Programme.{demand_read_scope}
use tallox_go.Policy.Assignment.{unpublished_assignment_scope}
use tallox_go.Policy.IdScope.{id_scope_empty}
use tallox_go.Policy.Assignment.{assignment_visibility}
use tallox_go.Store.Assignments.{assignment_by_id}
use tallox_go.Store.Assignments.{assignment_write_context}
use tallox_go.Store.Assignments.{found}
use tallox_go.Policy.IdScope.{scoped_ids}
use tallox_go.Policy.SubjectGroup.{assignment_scope}
use tallox_go.Policy.SubjectGroup
use tallox_go.Policy.Programme.{planning_scope}
use tallox_go.Policy.IdScope.{id_scope_allows}
use tallox_go.Policy.Programme
use tallox_go.Store.Semesters.{semester_from}
use tallox_go.Domain.Semesters.{state}
use tallox_go.Policy.Semester.{assignments_published}
use tallox_go.Policy.Role.{roles_of}
use tallox_go.Policy.Role.{has}
use tallox_go.Policy.Onlooker.{partner_only}
use tallox_go.Principal.{owns}
use tallox_go.Prelude.{
  ascii, Text, codes, List, [], ◌∷◌, Option, none, some, true, ◌≡◌, ◌≢◌, refl, arith,
}
use tallox_go.Prelude.Results.{err, ok}
use tallox_go.Principal.{
  Actor, Uuid, nil_uuid, authenticated, acts_with_full_reach, is_interactive_actor,
}
use tallox_go.Policy.Onlooker.{may_act_with_full_reach}
use tallox_go.Policy.Phase
use tallox_go.Domain.Calendar.{semester_code_pattern}
use tallox_go.Domain.Assignments.{set, clear, by_id, mine, may_write}
use tallox_go.Domain.Semesters.Invariant.{WellFormed}
use tallox_go.Store.Semesters.{Row, fresh_row}
use tallox_go.Store.Rows.{IsIn, at_head}
use tallox_go.Store.Assignments.{
  InstancePart, AssignmentRow, Database, Assignee, Assignment, assignment_from, with_assignments,
  refers, part_with_semester, write_context_from, assignment_moved_on,
}
use tallox_go.Store.Assignments.WellFormed.{PartSound, DatabaseWellFormed}
use tallox_go.Store.Assignments.Reads.{Joined}
use tallox_go.Domain.Assignments.Visible.{Sees, by_id_iff}
use tallox_go.Domain.Assignments.SetOutcome.{Outcome, set_cases}
use tallox_go.Domain.Assignments.Readback.{by_id-set, clear-set}
use tallox_go.Domain.Assignments.Holder.{mine-set}
use tallox_go.Domain.Assignments.Cleared.{without, clear_answer, clear_lem}
use tallox_go.Domain.Assignments.Invariant.{perform, gives, takes, perform-DatabaseWellFormed}
use tallox_go.Prelude.{trim_space}
use tallox_go.Policy.Assignment.{can_see_assignment}
use tallox_go.Store.Assignments.{account_of_teacher, assignment_not_found}
use tallox_go.Tests.People.{dean, lead, group_lead}
use tallox_go.Tests.Terms.{in_july}

abbrev this_term : Text
this_term = codes "2026-SS"

abbrev term_row : Row
term_row = record (fresh_row 1 91 this_term) { phase = Phase.assignment }

abbrev part_of : Uuid → Uuid → Option Uuid → Option Text → InstancePart
part_of id programme group elsewhere = record {
  id = id;
  course_instance_id = 71;
  semester_id = 91;
  programme_id = programme;
  programme_code = codes "IF";
  module_id = 31;
  subject_group_id = group;
  taught_by = elsewhere;
}

abbrev ours : InstancePart
ours = part_of 61 41 none none

abbrev theirs : InstancePart
theirs = part_of 63 42 (some 51) none

abbrev held : AssignmentRow
held = record {
  id = 81;
  instance_part_id = 63;
  person_id = some 8;
  teacher_id = none;
  note = [];
  assigned_by = some 7;
  created_at = 3;
  updated_at = 3;
}

abbrev tables : Database
tables = record {
  semesters = term_row ∷ [];
  parts = ours ∷ part_of 62 41 none (some (codes "FK03")) ∷ theirs ∷ [];
  assignments = held ∷ [];
  people =
      record { id = 7; mail = codes "lead@example.org"; active = true }
      ∷ record { id = 8; mail = codes "eight@example.org"; active = true }
      ∷ [];
  teachers =
      record { id = 21; mail = some (codes "eight@example.org"); retired_at = none }
      ∷ record { id = 22; mail = none; retired_at = none }
      ∷ [];
}

abbrev eight : Actor
eight = record dean { id = 8; roles = "LECTURER" ∷ [] }

term_sound : WellFormed (term_row ∷ [])
unfolding semester_code_pattern
term_sound = record { sound_rows = ((refl, tt, λ published. published), tt); apart = (tt, tt) }

part_sound :
    (id programme : Uuid) (elsewhere : Option Text)
    → id ≢ nil_uuid
    → programme ≢ nil_uuid
    → PartSound (part_of id programme none elsewhere)
part_sound id programme elsewhere h k = record {
  id_given = h;
  programme_given = k;
  group_given = λ e. ground (arith, e);
}

tables_sound : DatabaseWellFormed tables
unfolding refers
tables_sound = record {
  semesters_sound = term_sound;
  semesters_given = (omega arith, tt);
  parts_sound = (
    part_sound 61 41 none (omega arith) (omega arith),
    (
      part_sound 62 41 (some (codes "FK03")) (omega arith) (omega arith),
      (
        record {
          id_given = omega arith;
          programme_given = omega arith;
          group_given = λ e. ground (arith, e);
        },
        tt,
      ),
    ),
  );
  parts_apart = ((omega arith, (omega arith, tt)), ((omega arith, tt), (tt, tt)));
  assignments_sound = (
    record {
      one_assignee = refl;
      person_given = λ e. ground (arith, e);
      id_not_nil = omega arith;
      of_part = refl;
      references = refl;
    },
    tt,
  );
  assignments_apart = (tt, tt);
}

held-Joined : Joined tables held theirs term_row
unfolding part_with_semester
held-Joined = record { listed = at_head refl; joins = refl }

leader-Sees : Sees group_lead theirs term_row held
unfolding can_see_assignment authenticated owns partner_only has roles_of assignments_published
    state semester_from acts_with_full_reach Programme.allows id_scope_allows planning_scope
    SubjectGroup.allows assignment_scope scoped_ids
leader-Sees = refl

by_id_iff_example : by_id group_lead 81 tables ≡ ok (assignment_from theirs term_row held)
unfolding authenticated
by_id_iff_example =
    ((by_id_iff tables tables_sound group_lead 81 refl).0 (assignment_from theirs term_row held)).1
      (held, theirs, term_row, held-Joined, refl, leader-Sees, refl)

-- The planning of programme 41 does not see the one of programme 42.
hidden_from_lead : by_id lead 81 tables ≡ err assignment_not_found
unfolding by_id authenticated found assignment_write_context assignment_by_id assignment_visibility
    partner_only has roles_of assignments_published acts_with_full_reach planning_scope
    assignment_scope Programme.empty id_scope_empty scoped_ids
hidden_from_lead = refl

-- The teacher 21 has the account 8.
abbrev teacher_21 : Assignee
teacher_21 = record { person_id = nil_uuid; teacher_id = 21 }

abbrev given_row : AssignmentRow
given_row = record {
  id = 82;
  instance_part_id = 61;
  person_id = some 8;
  teacher_id = none;
  note = codes "ok";
  assigned_by = some 7;
  created_at = 5;
  updated_at = 5;
}

abbrev staffed : Database
staffed = with_assignments tables (given_row ∷ held ∷ [])

fills :
    set ascii 5 82 lead 61 teacher_21 (codes " ok ") nil_uuid tables
    ≡ (ok (assignment_from ours term_row given_row), staffed)
unfolding set authenticated may_act_with_full_reach acts_with_full_reach trim_space found
    part_write_context may_write may_write_assignment may_write_in_phase has roles_of
    may_act_in_subject_group SubjectGroup.allows id_scope_allows assignment_scope may_plan_programme
    Programme.allows canonical read_back set_checked write_part assignment_visibility
    unpublished_assignment_scope id_scope_empty scoped_ids partner_only demand_read_scope
    Programme.empty planning_scope parse_role put role_string assignments_published
    SubjectGroup.empty write_matrix writers_in trim_left trim_right is_interactive_actor
    account_of_teacher assignment_by_id assignment_filter_params assignment_from checked fill_part
    in_scope part_with_semester person_exists read refers replace_assignment shown_row
    teacher_exists why_not_filled write_context_from find_row pick_rows set_rows select
fills = refl

-- A part is not taken from somebody who is not named.
moved_on : set ascii 5 82 group_lead 63 teacher_21 [] 99 tables ≡ (err assignment_moved_on, tables)
unfolding set authenticated may_act_with_full_reach acts_with_full_reach trim_space found
    part_write_context may_write may_write_assignment may_write_in_phase has roles_of
    may_act_in_subject_group SubjectGroup.allows id_scope_allows assignment_scope scoped_ids
    canonical read_back set_checked write_part assignment_visibility unpublished_assignment_scope
    id_scope_empty partner_only Programme.allows demand_read_scope Programme.empty
    may_plan_programme planning_scope parse_role put role_string assignments_published
    SubjectGroup.empty write_matrix writers_in trim_left trim_right is_interactive_actor
    account_of_teacher assignment_by_id assignment_filter_params assignment_from checked fill_part
    in_scope part_with_semester person_exists read refers replace_assignment shown_row
    teacher_exists why_not_filled write_context_from find_row pick_rows set_rows select
moved_on = refl

set_cases_example :
    Outcome lead 61 teacher_21
      (trim_space ascii (codes " ok "))
      nil_uuid
      tables
      (set ascii 5 82 lead 61 teacher_21 (codes " ok ") nil_uuid tables)
set_cases_example =
    set_cases ascii 5 82 lead 61 teacher_21 (codes " ok ") nil_uuid tables tables_sound
      (omega arith)

by_id-set_example : by_id lead 82 staffed ≡ ok (assignment_from ours term_row given_row)
unfolding assignment_from
by_id-set_example =
    by_id-set ascii 5 82 lead 61 teacher_21 (codes " ok ") tables staffed
      (assignment_from ours term_row given_row) nil_uuid tables_sound (omega arith) fills

clear-set_example : clear lead 82 staffed ≡ (none, without 82 staffed)
unfolding assignment_from
clear-set_example =
    (clear-set ascii 5 82 lead 61 teacher_21 (codes " ok ") tables staffed
      (assignment_from ours term_row given_row) tables_sound (omega arith) fills).0

mine-set_example :
    (xs : List Assignment) × (mine ascii in_july eight [] staffed ≡ ok xs)
    × IsIn (assignment_from ours term_row given_row) xs
unfolding authenticated account_of_teacher
mine-set_example =
    mine-set ascii 5 82 lead 61 teacher_21 (codes " ok ") nil_uuid tables staffed
      (assignment_from ours term_row given_row) in_july eight tables_sound (omega arith) fills refl
      refl

clear_lem_example :
    clear group_lead 81 tables
    ≡ clear_answer (may_write group_lead (write_context_from theirs term_row (some 81))) 81 tables
unfolding authenticated may_act_with_full_reach acts_with_full_reach
clear_lem_example =
    (clear_lem tables tables_sound group_lead 81 refl refl).0 held theirs term_row held-Joined refl
      leader-Sees

-- The lead of programme 41 does not clear what they do not see.
kept_from_lead : clear lead 81 tables ≡ (some assignment_not_found, tables)
unfolding clear authenticated may_act_with_full_reach acts_with_full_reach found
    assignment_write_context assignment_by_id assignment_visibility partner_only has roles_of
    assignments_published planning_scope assignment_scope Programme.empty id_scope_empty scoped_ids
kept_from_lead = refl

perform-DatabaseWellFormed_example : DatabaseWellFormed (
    perform ascii
      (gives 5 82 (omega arith) lead 61 teacher_21 [] nil_uuid ∷ takes lead 82 ∷ [])
      tables)
perform-DatabaseWellFormed_example =
    perform-DatabaseWellFormed ascii
      (gives 5 82 (omega arith) lead 61 teacher_21 [] nil_uuid ∷ takes lead 82 ∷ []) tables
      tables_sound
