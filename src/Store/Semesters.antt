-- ===== src/Store/Semesters.antt =====
-- internal/store/semesters.go over the statements of db/queries/semester.sql: the table of semesters.
-- `none` stands for NULL, and a statement's `now()` is an argument. Each call is one statement or one
-- transaction, and they come one after another.
pub mod Rewrites
pub mod Careful
pub mod Apart
use tallox_go.Prelude.{
  Text, List, [], ◌∷◌, map, Option, none, some, Bool, true, false, not, ◌&&◌, ◌==◌, nat_comparable,
  text_comparable, any, if◌then◌else◌,
}
use tallox_go.Principal.{Uuid, nil_uuid}
use tallox_go.Policy.Phase.{Phase, demand_planning, phase_comparable}
use tallox_go.Policy.Semester.{Time}

-- A row. The database holds the phase as a text.
pub record Row : Type 0 where
  pub id : Uuid
  pub code : Text
  pub phase : Phase
  pub is_planning : Bool
  pub planning_set_at : Option Time
  pub planning_set_by : Option Uuid
  pub wishes_published_at : Option Time
  pub assignments_published_at : Option Time
  pub desired_hours_frozen_at : Option Time
  pub desired_hours_frozen_by : Option Uuid
  pub desired_hours_published_at : Option Time
  pub desired_hours_published_by : Option Uuid
  pub assignment_confirmation_due : Option Time
  pub assignment_confirmation_due_by : Option Uuid
  pub created_at : Time
  pub updated_at : Time

-- The zero `time.Time`.
abbrev pub never : Time
never = 0

abbrev pub Table : Type 0
Table = List Row

-- The semester as the rest of the program sees it; `id` is `uuid.Nil` where there is no row.
pub record Semester : Type 0 where
  pub id : Uuid
  pub code : Text
  pub phase : Phase
  pub is_planning : Bool
  pub wishes_published_at : Time
  pub assignments_published_at : Time
  pub desired_hours_frozen_at : Time
  pub desired_hours_published_at : Time
  pub assignment_confirmation_due : Time
  pub created_at : Time
  pub updated_at : Time

abbrev pub no_semester : Semester
no_semester = record {
  id = nil_uuid;
  code = [];
  phase = Phase.other "";
  is_planning = false;
  wishes_published_at = never;
  assignments_published_at = never;
  desired_hours_frozen_at = never;
  desired_hours_published_at = never;
  assignment_confirmation_due = never;
  created_at = never;
  updated_at = never;
}

abbrev pub nullable_time : Option Time → Time
nullable_time none = never
nullable_time (some t) = t

abbrev pub non_nil_uuid : Uuid → Option Uuid
non_nil_uuid id = if id == nil_uuid then none else some id

unfoldable pub semester_from : Row → Semester
semester_from row = record {
  id = row.id;
  code = row.code;
  phase = row.phase;
  is_planning = row.is_planning;
  wishes_published_at = nullable_time row.wishes_published_at;
  assignments_published_at = nullable_time row.assignments_published_at;
  desired_hours_frozen_at = nullable_time row.desired_hours_frozen_at;
  desired_hours_published_at = nullable_time row.desired_hours_published_at;
  assignment_confirmation_due = nullable_time row.assignment_confirmation_due;
  created_at = row.created_at;
  updated_at = row.updated_at;
}

-- `COALESCE(at, now())`, and `CASE WHEN at IS NULL THEN new ELSE old END`.
abbrev pub coalesce : Option Time → Time → Option Time
coalesce none now = some now
coalesce (some t) now = some t

abbrev pub when_null {ℓ} : {A : Type ℓ} → Option Time → A → A → A
when_null none new old = new
when_null (some t) new old = old

-- `SELECT ... WHERE`, of which the first row is returned.
unfoldable pub select : (Row → Bool) → Table → Option Row
select p [] = none
select p (r ∷ rs) = let rest = select p rs in if p r then some r else rest

-- `UPDATE ... WHERE ... RETURNING`, of which the first row is returned.
unfoldable pub update : (Row → Bool) → (Row → Row) → Table → Option Row × Table
update p f [] = (none, [])
update p f (r ∷ rs) =
    let (found, rest) = update p f rs in if p r then (some (f r), f r ∷ rest) else (found, r ∷ rest)

abbrev pub fresh_row : Time → Uuid → Text → Row
fresh_row now id code = record {
  id = id;
  code = code;
  phase = demand_planning;
  is_planning = false;
  planning_set_at = none;
  planning_set_by = none;
  wishes_published_at = none;
  assignments_published_at = none;
  desired_hours_frozen_at = none;
  desired_hours_frozen_by = none;
  desired_hours_published_at = none;
  desired_hours_published_by = none;
  assignment_confirmation_due = none;
  assignment_confirmation_due_by = none;
  created_at = now;
  updated_at = now;
}

-- `fresh` is the id that the database would give a new row; a row that has it already is a violation
-- of the primary key.
unfoldable pub ensure_semester : Time → Uuid → Text → Table → Option Semester × Table
unfolding select semester_from
ensure_semester now fresh code t = elim (select (λ r. r.code == code) t) [
  | some row ↦ (some (semester_from row), t)
  | none ↦
      if any (λ r. r.id == fresh) t
      then (none, t)
      else (some (semester_from (fresh_row now fresh code)), fresh_row now fresh code ∷ t)
]

unfoldable pub semester_by_code : Text → Table → Semester
unfolding select semester_from
semester_by_code code t = elim (select (λ r. r.code == code) t) [
  | none ↦ no_semester
  | some row ↦ semester_from row
]

unfoldable pub planning_semester : Table → Semester
unfolding select semester_from
planning_semester t = elim (select (λ r. r.is_planning) t) [
  | none ↦ no_semester
  | some row ↦ semester_from row
]

-- A statement's returned row, if there is one.
abbrev pub returned : Option Row × Table → Option Semester × Table
returned (none, t) = (none, t)
returned (some row, t) = (some (semester_from row), t)

unfoldable pub advance_semester_phase :
    Time → Uuid → Phase → Phase → Table → Option Semester × Table
unfolding update semester_from
advance_semester_phase now id from to t =
    returned (
      update (λ r. r.id == id && r.phase == from) (λ r. record r { phase = to; updated_at = now })
        t)

abbrev pub publish_wishes_row : Time → Row → Row
publish_wishes_row now r = record r {
  wishes_published_at = coalesce r.wishes_published_at now;
  updated_at = when_null r.wishes_published_at now r.updated_at;
}

unfoldable pub publish_semester_wishes : Time → Uuid → Table → Option Semester × Table
unfolding update semester_from
publish_semester_wishes now id t = returned (update (λ r. r.id == id) (publish_wishes_row now) t)

abbrev pub publish_assignments_row : Time → Row → Row
publish_assignments_row now r = record r {
  assignments_published_at = coalesce r.assignments_published_at now;
  updated_at = when_null r.assignments_published_at now r.updated_at;
}

unfoldable pub publish_semester_assignments : Time → Uuid → Table → Option Semester × Table
unfolding update semester_from
publish_semester_assignments now id t =
    returned (update (λ r. r.id == id) (publish_assignments_row now) t)

abbrev pub freeze_row : Time → Uuid → Row → Row
freeze_row now by r = record r {
  desired_hours_frozen_at = coalesce r.desired_hours_frozen_at now;
  desired_hours_frozen_by =
      when_null r.desired_hours_frozen_at (non_nil_uuid by) r.desired_hours_frozen_by;
  updated_at = when_null r.desired_hours_frozen_at now r.updated_at;
}

unfoldable pub freeze_semester_desired_hours : Time → Uuid → Uuid → Table → Option Semester × Table
unfolding update semester_from
freeze_semester_desired_hours now id by t =
    returned (update (λ r. r.id == id) (freeze_row now by) t)

abbrev pub is_set : Option Time → Bool
is_set none = false
is_set (some t) = true

abbrev pub publish_hours_row : Time → Uuid → Row → Row
publish_hours_row now by r = record r {
  desired_hours_published_at = coalesce r.desired_hours_published_at now;
  desired_hours_published_by =
      when_null r.desired_hours_published_at (non_nil_uuid by) r.desired_hours_published_by;
  updated_at = when_null r.desired_hours_published_at now r.updated_at;
}

unfoldable pub publish_semester_desired_hours : Time → Uuid → Uuid → Table → Option Semester × Table
unfolding update semester_from
publish_semester_desired_hours now id by t =
    returned
      (update (λ r. r.id == id && is_set r.desired_hours_frozen_at) (publish_hours_row now by) t)

-- `due` is the zero time where the request is withdrawn.
abbrev pub set_due_row : Time → Time → Uuid → Row → Row
set_due_row now due by r = record r {
  assignment_confirmation_due = if due == never then none else some due;
  assignment_confirmation_due_by = non_nil_uuid by;
  updated_at = now;
}

unfoldable pub set_semester_assignment_confirmation_due :
    Time → Uuid → Time → Uuid → Table → Option Semester × Table
unfolding update semester_from
set_semester_assignment_confirmation_due now id due by t =
    returned (update (λ r. r.id == id) (set_due_row now due by) t)

unfoldable pub clear_planning_semester : Time → Uuid → Table → Table
clear_planning_semester now id t =
    map
      (λ (r : Row).
        if r.is_planning && not (r.id == id)
        then record r { is_planning = false; updated_at = now }
        else r)
      t

abbrev pub mark_planning_row : Time → Uuid → Row → Row
mark_planning_row now by r = record r {
  is_planning = true;
  planning_set_at = some now;
  planning_set_by = non_nil_uuid by;
  updated_at = now;
}

-- One transaction, which is rolled back when there is no row to mark.
unfoldable pub set_planning_semester_once : Time → Uuid → Uuid → Table → Option Semester × Table
unfolding clear_planning_semester update semester_from
set_planning_semester_once now id by t =
    let (found, t') =
      update (λ r. r.id == id) (mark_planning_row now by) (clear_planning_semester now id t) in
    elim found [ none ↦ (none, t) | some row ↦ (some (semester_from row), t') ]
