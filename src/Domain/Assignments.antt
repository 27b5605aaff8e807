-- ===== src/Domain/Assignments.antt =====
-- internal/domain/assignmentservice.go: who is given which part to teach. `u` are the tables of the
-- unicode package, `at` is the semester service's clock, `now` that of the database, `fresh` the id for a
-- new row. The database is taken to answer: a connection that breaks, and a text that PostgreSQL does not
-- hold, are not modelled.
pub mod Visible
pub mod Listed
pub mod Own
pub mod Writes
pub mod SetOutcome
pub mod Cleared
pub mod Readback
pub mod Invariant
pub mod Holder
use tallox_go.Prelude.{
  ℕ, ◌+◌, Text, Unicode, trim_space, List, [], ◌∷◌, Option, none, some, Bool, true, false, not,
  ◌&&◌, ◌||◌, ◌==◌, nat_comparable, ltb, if◌then◌else◌,
}
use tallox_go.Prelude.Results.{Result, err, ok}
use tallox_go.Principal.{Actor, Uuid, nil_uuid, authenticated}
use tallox_go.Policy.Onlooker.{may_act_with_full_reach}
use tallox_go.Policy.Programme.{may_plan_programme}
use tallox_go.Policy.SubjectGroup.{may_act_in_subject_group}
use tallox_go.Policy.Semester.{Time}
use tallox_go.Policy.Assignment.{AssignmentFilter, own, assignment_visibility}
use tallox_go.Policy.Write.{may_write_assignment}
use tallox_go.Domain.Calendar.{Moment}
use tallox_go.Domain.Semesters.{by_code, state}
use tallox_go.Store.Assignments.{
  Database, Assignee, Assignment, AssignmentQuery, PartWriteContext, AssignmentError,
  not_authenticated, full_reach_required, semester_required, semester_refused, assignment_not_found,
  part_not_found, assignee_invalid, assignee_not_found, note_too_long, not_your_subject,
  assignment_phase_closed, no_text, found, assignments_of, assignment_by_id, part_write_context,
  assignment_write_context, fill_part, replace_assignment, clear_assignment, account_of_teacher,
  teacher_exists, person_exists,
}

abbrev pub max_assignment_note_length : ℕ
max_assignment_note_length = 500

-- `len` of a text: the bytes of its UTF-8 form.
abbrev pub utf8_width : ℕ → ℕ
utf8_width c = if ltb c 128 then 1 else if ltb c 2048 then 2 else if ltb c 65536 then 3 else 4

abbrev pub byte_length : Text → ℕ
byte_length [] = 0
byte_length (c ∷ t) = utf8_width c + byte_length t

abbrev pub all_of_semester : Text → Uuid → AssignmentQuery
all_of_semester code person = record {
  semester_code = code;
  programme = [];
  module_id = nil_uuid;
  instance = nil_uuid;
  person = person;
}

unfoldable pub may_write : Actor → PartWriteContext → Option AssignmentError
may_write actor where_ =
    if may_write_assignment actor where_.subject_group_id where_.programme_id where_.semester.phase
    then none
    else if not (may_act_in_subject_group actor where_.subject_group_id)
        && not (may_plan_programme actor where_.programme_id)
    then some not_your_subject
    else some assignment_phase_closed

abbrev pub account : Uuid → Assignee
account id = record { person_id = id; teacher_id = nil_uuid }

unfoldable pub canonical : Assignee → Database → Result AssignmentError Assignee
canonical who db =
    if not (who.person_id == nil_uuid)
    then (if not (person_exists who.person_id db)
        then err assignee_not_found
        else ok (account who.person_id))
    else if not (teacher_exists who.teacher_id db)
    then err assignee_not_found
    else if not (account_of_teacher who.teacher_id db == nil_uuid)
    then ok (account (account_of_teacher who.teacher_id db))
    else ok (record { person_id = nil_uuid; teacher_id = who.teacher_id })

unfoldable pub by_id : Actor → Uuid → Database → Result AssignmentError Assignment
by_id actor id db =
    if not (authenticated actor)
    then err not_authenticated
    else let where_ = assignment_write_context id db in
      if not (found where_)
      then err assignment_not_found
      else elim (assignment_by_id id (assignment_visibility actor where_.semester) db) [
        | none ↦ err assignment_not_found
        | some a ↦ ok a
      ]

-- The write, and the answer that is read back.
unfoldable pub write_part :
    Time
    → Uuid
    → Actor
    → Uuid
    → Assignee
    → Text
    → Uuid
    → Database
    → Result AssignmentError Uuid × Database
write_part now fresh actor part who note replacing db =
    if replacing == nil_uuid
    then fill_part now fresh part who note actor.id db
    else replace_assignment now part replacing who note actor.id db

unfoldable pub read_back :
    Actor
    → PartWriteContext
    → Result AssignmentError Uuid × Database
    → Result AssignmentError Assignment × Database
read_back actor where_ (err e, db) = (err e, db)
read_back actor where_ (ok id, db) =
    elim (assignment_by_id id (assignment_visibility actor where_.semester) db) [
      | none ↦ (err assignment_not_found, db)
      | some a ↦ (ok a, db)
    ]

unfoldable pub set_checked :
    Time
    → Uuid
    → Actor
    → Uuid
    → Assignee
    → Text
    → Uuid
    → Database
    → Result AssignmentError Assignment × Database
unfolding write_part read_back
set_checked now fresh actor part who note replacing db =
    let where_ = part_write_context part db in
    if not (found where_) then (err part_not_found, db) else elim (may_write actor where_) [
      | some e ↦ (err e, db)
      | none ↦ elim (canonical who db) [
        | err e ↦ (err e, db)
        | ok resolved ↦
            read_back actor where_ (write_part now fresh actor part resolved note replacing db)
      ]
    ]

unfoldable pub clear : Actor → Uuid → Database → Option AssignmentError × Database
clear actor id db =
    if not (authenticated actor)
    then (some not_authenticated, db)
    else if not (may_act_with_full_reach actor)
    then (some full_reach_required, db)
    else let where_ = assignment_write_context id db in
      if not (found where_)
      then (some assignment_not_found, db)
      else elim (assignment_by_id id (assignment_visibility actor where_.semester) db) [
        | none ↦ (some assignment_not_found, db)
        | some visible ↦ elim (may_write actor where_) [
          | some e ↦ (some e, db)
          | none ↦
              let (removed, db') = clear_assignment id db in
              if not removed then (some assignment_not_found, db') else (none, db')
        ]
      ]

module _ (u : Unicode) where
  unfoldable pub list :
      Moment → Actor → AssignmentQuery → Database → Result AssignmentError (List Assignment)
  list at actor q db =
      if not (authenticated actor)
      then err not_authenticated
      else if no_text q.semester_code
      then err semester_required
      else elim (by_code u at actor q.semester_code db.semesters) [
        | err e ↦ err semester_refused
        | ok semester ↦ ok (assignments_of q (assignment_visibility actor (state semester)) db)
      ]

  unfoldable pub mine : Moment → Actor → Text → Database → Result AssignmentError (List Assignment)
  unfolding list
  mine at actor code db =
      if not (authenticated actor)
      then err not_authenticated
      else if not (no_text code)
      then list at actor (all_of_semester code actor.id) db
      else ok (
          assignments_of (all_of_semester [] actor.id)
            (record {
              scope = own;
              assignee_id = actor.id;
              programme_ids = [];
              subject_group_ids = [];
            })
            db)

  unfoldable pub set :
      Time
      → Uuid
      → Actor
      → Uuid
      → Assignee
      → Text
      → Uuid
      → Database
      → Result AssignmentError Assignment × Database
  unfolding set_checked
  set now fresh actor part who note replacing db =
      if not (authenticated actor)
      then (err not_authenticated, db)
      else if not (may_act_with_full_reach actor)
      then (err full_reach_required, db)
      else let trimmed = trim_space u note in
        if ltb max_assignment_note_length (byte_length trimmed)
        then (err note_too_long, db)
        else if (who.person_id == nil_uuid && who.teacher_id == nil_uuid)
            || (not (who.person_id == nil_uuid) && not (who.teacher_id == nil_uuid))
        then (err assignee_invalid, db)
        else set_checked now fresh actor part who trimmed replacing db
