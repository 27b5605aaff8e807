-- ===== src/Domain/Semesters.antt =====
-- internal/domain/semester.go: the workflow of a semester, over the table of semesters. `at` is the
-- service's clock, `now` that of the database, `fresh` the id for a new row.
pub mod Listing
pub mod Requests
pub mod Shape
pub mod Invariant
pub mod Evolution
pub mod Refinement
pub mod Recorded
use tallox_go.Prelude.{
  Text, Unicode, trim_space, to_upper, List, [], ◌∷◌, Option, none, some, Bool, true, false, not,
  ◌&&◌, ◌==◌, nat_comparable, is_empty, if◌then◌else◌,
}
use tallox_go.Prelude.Results.{Result, err, ok}
use tallox_go.Principal.{Actor, Uuid, nil_uuid, authenticated}
use tallox_go.Policy.Phase.{Phase, demand_planning, final, valid, may_move_to, phase_comparable}
use tallox_go.Policy.Semester.{
  Time, SemesterState, may_read_semesters, may_administer_semesters, may_publish_wishes,
  may_publish_assignments, may_set_assignment_confirmation_due, may_freeze_desired_hours,
  may_publish_desired_hours,
}
use tallox_go.Domain.Calendar.{Moment, semester_code_pattern, is_plannable}
use tallox_go.Store.Semesters.{
  Semester, no_semester, never, Table, ensure_semester, semester_by_code, planning_semester,
  advance_semester_phase, publish_semester_wishes, publish_semester_assignments,
  freeze_semester_desired_hours, publish_semester_desired_hours,
  set_semester_assignment_confirmation_due, set_planning_semester_once,
}

-- The refusals; `storing_failed` is an error of the database.
pub data SemesterError : Type 0 where
  forbidden not_authenticated code_invalid out_of_range phase_unknown phase_not_adjacent :
      SemesterError
  phase_moved_on wish_windows_open assignment_phase_closed : SemesterError
  desired_hours_not_frozen storing_failed : SemesterError

unfoldable pub recorded : Semester → Bool
recorded s = not (s.id == nil_uuid)

unfoldable pub state : Semester → SemesterState
state s = record {
  phase = s.phase;
  wishes_published_at = s.wishes_published_at;
  assignments_published_at = s.assignments_published_at;
  desired_hours_frozen_at = s.desired_hours_frozen_at;
  desired_hours_published_at = s.desired_hours_published_at;
}

unfoldable pub untouched : Text → Semester
untouched code = record no_semester { code = code; phase = demand_planning }

-- What a statement returns, or the error that stands for no row.
abbrev pub or_error :
    SemesterError → Option Semester × Table → Result SemesterError Semester × Table
or_error e (none, t) = (err e, t)
or_error e (some s, t) = (ok s, t)

abbrev pub Answer : Type 0
Answer = Result SemesterError Semester × Table

unfoldable pub advance_row : Time → Phase → Semester → Table → Answer
advance_row now to current t =
    if not (valid current.phase)
    then (err phase_unknown, t)
    else if not (may_move_to current.phase to)
    then (err phase_not_adjacent, t)
    else or_error phase_moved_on (advance_semester_phase now current.id current.phase to t)

-- `open_windows` are the subject groups of a semester whose wish round is open.
unfoldable pub publish_wishes_of : Time → (Uuid → List Text) → Semester → Table → Answer
publish_wishes_of now open_windows existing t =
    if existing.wishes_published_at == never && not (is_empty (open_windows existing.id))
    then (err wish_windows_open, t)
    else or_error storing_failed (publish_semester_wishes now existing.id t)

unfoldable pub set_due_of : Time → Time → Uuid → Semester → Table → Answer
set_due_of now due by existing t =
    if existing.phase == final
    then (err assignment_phase_closed, t)
    else or_error storing_failed (set_semester_assignment_confirmation_due now existing.id due by t)

unfoldable pub publish_hours_of : Time → Uuid → Semester → Table → Answer
publish_hours_of now by existing t =
    if existing.desired_hours_frozen_at == never
    then (err desired_hours_not_frozen, t)
    else or_error desired_hours_not_frozen (publish_semester_desired_hours now existing.id by t)

module _ (u : Unicode) where
  unfoldable pub plannable : Moment → Text → Result SemesterError Text
  plannable at code =
      let normal = to_upper u (trim_space u code) in
      if not (semester_code_pattern normal)
      then err code_invalid
      else if not (is_plannable at normal)
      then err out_of_range
      else ok normal

  unfoldable pub by_code : Moment → Actor → Text → Table → Result SemesterError Semester
  by_code at actor code t =
      if not (may_read_semesters actor) then err forbidden else elim (plannable at code) [
        | err e ↦ err e
        | ok normal ↦
            if not (recorded (semester_by_code normal t))
            then ok (untouched normal)
            else ok (semester_by_code normal t)
      ]

  unfoldable pub read_planning_semester : Actor → Table → Result SemesterError Semester
  read_planning_semester actor t =
      if not (may_read_semesters actor) then err forbidden else ok (planning_semester t)

  -- What every decision about a semester goes through after its guard: the code, then the row.
  unfoldable pub with_row :
      Moment → Time → Uuid → Text → (Semester → Table → Answer) → Table → Answer
  with_row at now fresh code decide t = elim (plannable at code) [
    | err e ↦ (err e, t)
    | ok normal ↦
        let (row, t') = ensure_semester now fresh normal t in
        elim row [ none ↦ (err storing_failed, t') | some current ↦ decide current t' ]
  ]

  unfoldable pub advance_phase : Moment → Time → Uuid → Actor → Text → Phase → Table → Answer
  advance_phase at now fresh actor code to t =
      if not (may_administer_semesters actor)
      then (err forbidden, t)
      else if not (valid to)
      then (err phase_unknown, t)
      else with_row at now fresh code (advance_row now to) t

  unfoldable pub set_planning_semester : Moment → Time → Uuid → Actor → Text → Table → Answer
  set_planning_semester at now fresh actor code t =
      if not (may_administer_semesters actor)
      then (err forbidden, t)
      else with_row at now fresh code
          (λ existing t'.
            or_error storing_failed (set_planning_semester_once now existing.id actor.id t'))
          t

  unfoldable pub publish_wishes :
      Moment → Time → Uuid → (Uuid → List Text) → Actor → Text → Table → Answer
  publish_wishes at now fresh open_windows actor code t =
      if not (may_publish_wishes actor)
      then (err forbidden, t)
      else with_row at now fresh code (publish_wishes_of now open_windows) t

  unfoldable pub publish_assignments : Moment → Time → Uuid → Actor → Text → Table → Answer
  publish_assignments at now fresh actor code t =
      if not (may_publish_assignments actor)
      then (err forbidden, t)
      else with_row at now fresh code
          (λ existing t'. or_error storing_failed (publish_semester_assignments now existing.id t'))
          t

  unfoldable pub set_assignment_confirmation_due :
      Moment → Time → Uuid → Actor → Text → Time → Table → Answer
  set_assignment_confirmation_due at now fresh actor code due t =
      if not (may_set_assignment_confirmation_due actor)
      then (err forbidden, t)
      else with_row at now fresh code (set_due_of now due actor.id) t

  unfoldable pub freeze_desired_hours : Moment → Time → Uuid → Actor → Text → Table → Answer
  freeze_desired_hours at now fresh actor code t =
      if not (may_freeze_desired_hours actor)
      then (err forbidden, t)
      else with_row at now fresh code
          (λ existing t'.
            or_error storing_failed (freeze_semester_desired_hours now existing.id actor.id t'))
          t

  unfoldable pub publish_desired_hours : Moment → Time → Uuid → Actor → Text → Table → Answer
  publish_desired_hours at now fresh actor code t =
      if not (may_publish_desired_hours actor)
      then (err forbidden, t)
      else with_row at now fresh code (publish_hours_of now actor.id) t

  unfoldable pub ensure_recorded : Moment → Time → Uuid → Actor → Text → Table → Answer
  ensure_recorded at now fresh actor code t =
      if not (authenticated actor)
      then (err not_authenticated, t)
      else with_row at now fresh code (λ current t'. (ok current, t')) t
