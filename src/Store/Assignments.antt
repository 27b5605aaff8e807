-- ===== src/Store/Assignments.antt =====
-- internal/store/assignments.go over the statements of db/queries/assignment.sql. Of a joined row the
-- columns are kept that a rule or a query reads; names, hours and languages are left out. A `uuid.Nil`
-- in a domain record stands for NULL.
pub mod WellFormed
pub mod Reads
pub mod Lookup
pub mod Selected
pub mod Changes
pub mod Kept
use tallox_go.Prelude.{
  Text, codes, List, [], ◌∷◌, Option, none, some, Bool, true, false, not, ◌&&◌, ◌||◌, ◌==◌,
  nat_comparable, text_comparable, any, length, leb, contains, if◌then◌else◌,
}
use tallox_go.Prelude.Results.{Result, err, ok}
use tallox_go.Principal.{Uuid, nil_uuid}
use tallox_go.Policy.Phase.{Phase}
use tallox_go.Policy.Semester.{Time, SemesterState, zero_state}
use tallox_go.Policy.Assignment.{AssignmentFilter, nothing, own, own_or_scoped, everything}
use tallox_go.Store.Semesters.{Row, Table, select, nullable_time, non_nil_uuid, never}
use tallox_go.Store.Rows.{find_row, keep_rows, set_rows, pick_rows, first_of}

-- A part of a course instance with the columns of its instance, programme and module; the subject
-- group is NULL for a module that is in none.
pub record InstancePart : Type 0 where
  pub id : Uuid
  pub course_instance_id : Uuid
  pub semester_id : Uuid
  pub programme_id : Uuid
  pub programme_code : Text
  pub module_id : Uuid
  pub subject_group_id : Option Uuid
  pub taught_by : Option Text

pub record AssignmentRow : Type 0 where
  pub id : Uuid
  pub instance_part_id : Uuid
  pub person_id : Option Uuid
  pub teacher_id : Option Uuid
  pub note : Text
  pub assigned_by : Option Uuid
  pub created_at : Time
  pub updated_at : Time

-- A mail is a text in lower case: the columns are compared without regard to case.
pub record PersonRow : Type 0 where
  pub id : Uuid
  pub mail : Text
  pub active : Bool

pub record TeacherRow : Type 0 where
  pub id : Uuid
  pub mail : Option Text
  pub retired_at : Option Time

pub record Database : Type 0 where
  pub semesters : Table
  pub parts : List InstancePart
  pub assignments : List AssignmentRow
  pub people : List PersonRow
  pub teachers : List TeacherRow

pub record Assignee : Type 0 where
  pub person_id : Uuid
  pub teacher_id : Uuid

pub record Assignment : Type 0 where
  pub id : Uuid
  pub part_id : Uuid
  pub instance_id : Uuid
  pub semester_code : Text
  pub semester_phase : Phase
  pub programme_id : Uuid
  pub programme_code : Text
  pub module_id : Uuid
  pub assignee : Assignee
  pub note : Text
  pub assigned_by : Uuid
  pub created_at : Time
  pub updated_at : Time

-- An empty text and `uuid.Nil` narrow to nothing.
pub record AssignmentQuery : Type 0 where
  pub semester_code : Text
  pub programme : Text
  pub module_id : Uuid
  pub instance : Uuid
  pub person : Uuid

pub record PartWriteContext : Type 0 where
  pub instance_part_id : Uuid
  pub course_instance_id : Uuid
  pub semester_code : Text
  pub semester : SemesterState
  pub programme_id : Uuid
  pub subject_group_id : Uuid
  pub assignment_id : Uuid

-- The refusals of the assignment area; `semester_refused` is whatever the semester service said.
pub data AssignmentError : Type 0 where
  not_authenticated full_reach_required semester_required semester_refused : AssignmentError
  assignment_not_found part_not_found part_taught_elsewhere part_already_assigned : AssignmentError
  assignment_moved_on assignee_invalid assignee_not_found note_too_long : AssignmentError
  not_your_subject assignment_phase_closed storing_failed : AssignmentError

abbrev pub uuid_or_nil : Option Uuid → Uuid
uuid_or_nil none = nil_uuid
uuid_or_nil (some id) = id

-- SQL's `column = value` in a condition: NULL is not true.
abbrev pub is_id : Option Uuid → Uuid → Bool
is_id none id = false
is_id (some x) id = x == id

abbrev pub is_one_of : Option Uuid → List Uuid → Bool
is_one_of none ids = false
is_one_of (some x) ids = contains ids x

pub record FilterParams : Type 0 where
  pub scope : Text
  pub assignee : Uuid
  pub programmes : List Uuid
  pub groups : List Uuid

abbrev pub scope_all : Text
scope_all = codes "all"

abbrev pub scope_own : Text
scope_own = codes "own"

abbrev pub scope_own_or_scoped : Text
scope_own_or_scoped = codes "own_or_scoped"

abbrev pub scope_none : Text
scope_none = codes "none"

unfoldable pub assignment_filter_params : AssignmentFilter → FilterParams
assignment_filter_params f = elim f.scope [
  | everything ↦ record { scope = scope_all; assignee = nil_uuid; programmes = []; groups = [] }
  | own ↦ record { scope = scope_own; assignee = f.assignee_id; programmes = []; groups = [] }
  | own_or_scoped ↦ record {
    scope = scope_own_or_scoped;
    assignee = f.assignee_id;
    programmes = f.programme_ids;
    groups = f.subject_group_ids;
  }
  | nothing ↦ record { scope = scope_none; assignee = nil_uuid; programmes = []; groups = [] }
]

-- The condition on the scope that both reads have.
unfoldable pub in_scope : FilterParams → InstancePart → AssignmentRow → Bool
in_scope q p a =
    q.scope == scope_all
    || ((q.scope == scope_own && is_id a.person_id q.assignee)
        || (q.scope == scope_own_or_scoped
            && (is_id a.person_id q.assignee
                || (contains q.programmes p.programme_id
                    || is_one_of p.subject_group_id q.groups))))

-- A part joined with its semester.
unfoldable pub part_with_semester : Database → Uuid → Option (InstancePart × Row)
unfolding find_row select
part_with_semester db id = elim (find_row (λ (p : InstancePart). p.id == id) db.parts) [
  | none ↦ none
  | some p ↦ elim (select (λ s. s.id == p.semester_id) db.semesters) [
    | none ↦ none
    | some s ↦ some (p, s)
  ]
]

unfoldable pub assignment_from : InstancePart → Row → AssignmentRow → Assignment
assignment_from p s a = record {
  id = a.id;
  part_id = a.instance_part_id;
  instance_id = p.course_instance_id;
  semester_code = s.code;
  semester_phase = s.phase;
  programme_id = p.programme_id;
  programme_code = p.programme_code;
  module_id = p.module_id;
  assignee = record { person_id = uuid_or_nil a.person_id; teacher_id = uuid_or_nil a.teacher_id };
  note = a.note;
  assigned_by = uuid_or_nil a.assigned_by;
  created_at = a.created_at;
  updated_at = a.updated_at;
}

unfoldable pub shown_row :
    Database → (InstancePart → Row → AssignmentRow → Bool) → AssignmentRow → Option Assignment
unfolding part_with_semester assignment_from
shown_row db holds a = elim (part_with_semester db a.instance_part_id) [
  | none ↦ none
  | some (p, s) ↦ if holds p s a then some (assignment_from p s a) else none
]

-- The assignments of which the condition holds. Their order, by names, is left out.
unfoldable pub read : Database → (InstancePart → Row → AssignmentRow → Bool) → List Assignment
unfolding shown_row pick_rows
read db holds = pick_rows (shown_row db holds) db.assignments

-- A condition that a parameter left NULL does not make.
abbrev pub no_text : Text → Bool
no_text [] = true
no_text (c ∷ t) = false

abbrev pub narrows : AssignmentQuery → InstancePart → AssignmentRow → Bool
narrows q p a =
    (no_text q.programme || p.programme_code == q.programme)
    && ((q.module_id == nil_uuid || p.module_id == q.module_id)
        && ((q.instance == nil_uuid || p.course_instance_id == q.instance)
            && (q.person == nil_uuid || is_id a.person_id q.person)))

unfoldable pub assignments_of : AssignmentQuery → AssignmentFilter → Database → List Assignment
unfolding assignment_filter_params in_scope read select
assignments_of q f db =
    let params = assignment_filter_params f in
    if no_text q.semester_code
    then read db (λ p s a. narrows q p a && in_scope params p a)
    else elim (select (λ s. s.code == q.semester_code) db.semesters) [
      | none ↦ []
      | some semester ↦
          read db (λ p s a. p.semester_id == semester.id && (narrows q p a && in_scope params p a))
    ]

unfoldable pub assignment_by_id : Uuid → AssignmentFilter → Database → Option Assignment
unfolding assignment_filter_params in_scope read
assignment_by_id id f db =
    let params = assignment_filter_params f in
    first_of (read db (λ p s a. a.id == id && in_scope params p a))

unfoldable pub write_context_from : InstancePart → Row → Option Uuid → PartWriteContext
write_context_from p s assignment = record {
  instance_part_id = p.id;
  course_instance_id = p.course_instance_id;
  semester_code = s.code;
  semester = record {
    phase = s.phase;
    wishes_published_at = never;
    assignments_published_at = nullable_time s.assignments_published_at;
    desired_hours_frozen_at = never;
    desired_hours_published_at = never;
  };
  programme_id = p.programme_id;
  subject_group_id = uuid_or_nil p.subject_group_id;
  assignment_id = uuid_or_nil assignment;
}

abbrev pub no_context : PartWriteContext
no_context = record {
  instance_part_id = nil_uuid;
  course_instance_id = nil_uuid;
  semester_code = [];
  semester = zero_state;
  programme_id = nil_uuid;
  subject_group_id = nil_uuid;
  assignment_id = nil_uuid;
}

unfoldable pub found : PartWriteContext → Bool
found c = not (c.instance_part_id == nil_uuid)

abbrev pub row_id : Option AssignmentRow → Option Uuid
row_id none = none
row_id (some a) = some a.id

unfoldable pub part_write_context : Uuid → Database → PartWriteContext
unfolding part_with_semester write_context_from find_row
part_write_context id db = elim (part_with_semester db id) [
  | none ↦ no_context
  | some (p, s) ↦
      write_context_from p s
        (row_id (find_row (λ (a : AssignmentRow). a.instance_part_id == id) db.assignments))
]

unfoldable pub assignment_write_context : Uuid → Database → PartWriteContext
unfolding part_with_semester write_context_from find_row
assignment_write_context id db =
    elim (find_row (λ (a : AssignmentRow). a.id == id) db.assignments) [
      | none ↦ no_context
      | some a ↦ elim (part_with_semester db a.instance_part_id) [
        | none ↦ no_context
        | some (p, s) ↦ write_context_from p s (some a.id)
      ]
    ]

-- The foreign keys of a row, and the check that there is exactly one assignee.
abbrev pub is_row_of {ℓ} : {A : Type ℓ} → (A → Uuid) → List A → Option Uuid → Bool
is_row_of key rows none = true
is_row_of key rows (some id) = any (λ r. key r == id) rows

abbrev pub is_set {ℓ} : {A : Type ℓ} → Option A → Bool
is_set none = false
is_set (some a) = true

unfoldable pub refers : Database → AssignmentRow → Bool
refers db a =
    is_row_of (λ (p : PersonRow). p.id) db.people a.person_id
    && (is_row_of (λ (t : TeacherRow). t.id) db.teachers a.teacher_id
        && is_row_of (λ (p : PersonRow). p.id) db.people a.assigned_by)

abbrev pub exactly_one : Bool → Bool → Bool
exactly_one true b = not b
exactly_one false b = b

-- `num_nonnulls(person_id, teacher_id) = 1` and `length(note) <= 500`.
unfoldable pub checked : AssignmentRow → Bool
checked a = exactly_one (is_set a.person_id) (is_set a.teacher_id) && leb (length a.note) 500

unfoldable pub why_not_filled : Uuid → Database → AssignmentError
unfolding find_row
why_not_filled id db = elim (find_row (λ (p : InstancePart). p.id == id) db.parts) [
  | none ↦ part_not_found
  | some p ↦ if is_set p.taught_by then part_taught_elsewhere else part_already_assigned
]

abbrev pub new_row : Time → Uuid → Uuid → Assignee → Text → Uuid → AssignmentRow
new_row now id part who note by = record {
  id = id;
  instance_part_id = part;
  person_id = non_nil_uuid who.person_id;
  teacher_id = non_nil_uuid who.teacher_id;
  note = note;
  assigned_by = non_nil_uuid by;
  created_at = now;
  updated_at = now;
}

abbrev pub with_assignments : Database → List AssignmentRow → Database
with_assignments db rows = record db { assignments = rows }

-- `fresh` is the id that the database gives the new row. Only a constraint of the table or a taken id
-- makes the statement fail.
unfoldable pub fill_part :
    Time → Uuid → Uuid → Assignee → Text → Uuid → Database → Result AssignmentError Uuid × Database
unfolding find_row why_not_filled refers checked
fill_part now fresh part who note by db =
    let row = new_row now fresh part who note by in
    if not (any (λ (p : InstancePart). p.id == part && not (is_set p.taught_by)) db.parts)
    then (err (why_not_filled part db), db)
    else if not (checked row)
    then (err storing_failed, db)
    else if any (λ (a : AssignmentRow). a.instance_part_id == part) db.assignments
    then (err (why_not_filled part db), db)
    else if any (λ (a : AssignmentRow). a.id == fresh) db.assignments
    then (err storing_failed, db)
    else if not (refers db row)
    then (err part_not_found, db)
    else (ok fresh, with_assignments db (row ∷ db.assignments))

abbrev pub replaced_row : Time → Assignee → Text → Uuid → AssignmentRow → AssignmentRow
replaced_row now who note by a = record a {
  person_id = non_nil_uuid who.person_id;
  teacher_id = non_nil_uuid who.teacher_id;
  note = note;
  assigned_by = non_nil_uuid by;
  updated_at = now;
}

unfoldable pub replace_assignment :
    Time → Uuid → Uuid → Assignee → Text → Uuid → Database → Result AssignmentError Uuid × Database
unfolding find_row set_rows refers checked
replace_assignment now part replacing who note by db =
    let named = λ (a : AssignmentRow). a.id == replacing && a.instance_part_id == part in
    elim (find_row named db.assignments) [
      | none ↦ (err assignment_moved_on, db)
      | some a ↦
          if not (checked (replaced_row now who note by a))
          then (err storing_failed, db)
          else if not (refers db (replaced_row now who note by a))
          then (err assignee_not_found, db)
          else (
            ok a.id,
            with_assignments db (set_rows named (replaced_row now who note by) db.assignments),
          )
    ]

-- Whether there was one to delete.
unfoldable pub clear_assignment : Uuid → Database → Bool × Database
unfolding keep_rows
clear_assignment id db = (
  any (λ (a : AssignmentRow). a.id == id) db.assignments,
  with_assignments db (keep_rows (λ (a : AssignmentRow). not (a.id == id)) db.assignments),
)

abbrev pub has_mail : Option Text → Text → Bool
has_mail none mail = false
has_mail (some m) mail = m == mail

unfoldable pub account_of_teacher : Uuid → Database → Uuid
unfolding find_row
account_of_teacher id db = elim (find_row (λ (t : TeacherRow). t.id == id) db.teachers) [
  | none ↦ nil_uuid
  | some t ↦ elim (find_row (λ (p : PersonRow). has_mail t.mail p.mail) db.people) [
    | none ↦ nil_uuid
    | some p ↦ p.id
  ]
]

unfoldable pub teacher_exists : Uuid → Database → Bool
teacher_exists id db = any (λ (t : TeacherRow). t.id == id && not (is_set t.retired_at)) db.teachers

unfoldable pub person_exists : Uuid → Database → Bool
person_exists id db = any (λ (p : PersonRow). p.id == id && p.active) db.people
