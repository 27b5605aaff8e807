-- ===== src/Domain/Assignments/SetOutcome.antt =====
-- internal/domain/assignmentservice.go: what Set answers, and what it leaves.
use mathlib.Core.Path.{subst}
use tallox_go.Prelude.{
  Text, Unicode, trim_space, List, Option, none, some, Bool, true, false, not, ◌&&◌, ◌||◌, ◌==◌,
  nat_comparable, ltb, if◌then◌else◌, ◌≡◌, ◌≢◌, ◌⊎◌, inl, inr, refl, sym, ap, ◌∙◌, arith,
  Bool-cases, Option-cases,
}
use tallox_go.Prelude.Results.{Result, err, ok, Result-cases}
use tallox_go.Principal.{Actor, Uuid, nil_uuid, authenticated}
use tallox_go.Policy.Onlooker.{may_act_with_full_reach}
use tallox_go.Policy.Semester.{Time}
use tallox_go.Policy.Write.{may_write_assignment}
use tallox_go.Policy.Assignment.{assignment_visibility}
use tallox_go.Policy.Assignment.Writers.{may_write_assignment-sees}
use tallox_go.Domain.Semesters.{state}
use tallox_go.Domain.Assignments.{
  set, set_checked, may_write, canonical, read_back, write_part, byte_length,
  max_assignment_note_length,
}
use tallox_go.Domain.Assignments.Visible.{Sees, assignment_by_id-can_see}
use tallox_go.Domain.Assignments.Writes.{Written, write_part_cases}
use tallox_go.Store.Semesters.{Row, semester_from}
use tallox_go.Store.Rows.{find_row}
use tallox_go.Store.Assignments.{
  InstancePart, AssignmentRow, Database, Assignee, Assignment, AssignmentError, not_authenticated,
  full_reach_required, note_too_long, assignee_invalid, part_not_found, found, row_id,
  assignment_from, with_assignments, part_with_semester, part_write_context, write_context_from,
  assignment_by_id,
}
use tallox_go.Store.Assignments.WellFormed.{DatabaseWellFormed}
use tallox_go.Store.Assignments.Reads.{Joined, subject}

-- The answer `x` and the rows that a call of Set leaves: the part's row is the assignee that was
-- resolved, with the caller and the note, and the answer is that row with its part and semester.
pub record SetDone (actor : Actor) (part : Uuid) (who : Assignee) (note : Text) (replacing : Uuid)
    (db : Database) (x : Assignment) (rows : List AssignmentRow) : Type 0 where
  pub resolved : Assignee
  pub is_resolved : canonical who db ≡ ok resolved
  pub id : Uuid
  pub written : Written part resolved note actor.id replacing id db rows
  pub place : InstancePart
  pub semester : Row
  pub joined : Joined (with_assignments db rows) written.row place semester
  pub is_from : assignment_from place semester written.row ≡ x
  pub allowed : may_write actor (write_context_from place semester (some id)) ≡ none
  pub reach : may_act_with_full_reach actor ≡ true

-- Of the context, the rule on writing reads the part and the semester.
same_rule :
    (actor : Actor) (p : InstancePart) (s : Row) (o o' : Option Uuid)
    → may_write actor (write_context_from p s o) ≡ may_write actor (write_context_from p s o')
unfolding may_write write_context_from
same_rule actor p s o o' = refl

pub may_write-Sees :
    (actor : Actor) (p : InstancePart) (s : Row) (o : Option Uuid) (a : AssignmentRow)
    → may_write actor (write_context_from p s o) ≡ none
    → may_act_with_full_reach actor ≡ true
    → Sees actor p s a
unfolding may_write write_context_from
may_write-Sees actor p s o a h reach =
    elim (Bool-cases
      (may_write_assignment actor (subject p a).subject_group_id p.programme_id s.phase)) [
        | inl may ↦
            may_write_assignment-sees actor (state (semester_from s)) (subject p a) s.phase may
              reach
        | inr barred ↦ absurd (ground (arith, barred, h))
      ]

same_place :
    (db : Database) (rows : List AssignmentRow) (id : Uuid)
    → part_with_semester (with_assignments db rows) id ≡ part_with_semester db id
unfolding part_with_semester
same_place db rows id = refl

context_cases :
    (part : Uuid) (db : Database)
    → (found (part_write_context part db) ≡ false)
      ⊎ ((p : InstancePart) × (s : Row) × (o : Option Uuid) × (part_with_semester db part
            ≡ some (p, s))
          × (part_write_context part db ≡ write_context_from p s o))
unfolding part_write_context found
context_cases part db = elim (Option-cases (part_with_semester db part)) [
  | inl missing ↦ inl (rw (part_write_context, missing) refl)
  | inr ((p, s), there) ↦ inr (
    p,
    s,
    row_id (find_row (λ (a : AssignmentRow). a.instance_part_id == part) db.assignments),
    there,
    rw (part_write_context, there) refl,
  )
]

abbrev pub either_or : Assignee → Bool
either_or who =
    (who.person_id == nil_uuid && who.teacher_id == nil_uuid)
    || (not (who.person_id == nil_uuid) && not (who.teacher_id == nil_uuid))

-- Either a refusal, with everything as it was, or the write.
abbrev pub Outcome :
    Actor
    → Uuid
    → Assignee
    → Text
    → Uuid
    → Database
    → Result AssignmentError Assignment × Database
    → Type 0
Outcome actor part who note replacing db r =
    ((e : AssignmentError) × (r ≡ (err e, db)))
    ⊎ ((x : Assignment) × (rows : List AssignmentRow) × (r ≡ (ok x, with_assignments db rows))
        × SetDone actor part who note replacing db x rows)

module _ (now : Time) (fresh : Uuid) (actor : Actor) (part : Uuid) (who : Assignee)
    (replacing : Uuid) (db : Database) (w : DatabaseWellFormed db) (given : fresh ≢ nil_uuid) where
  read_back_written :
      (note : Text) (p : InstancePart) (s : Row) (o : Option Uuid) (resolved : Assignee)
      → part_with_semester db part ≡ some (p, s)
      → may_write actor (write_context_from p s o) ≡ none
      → may_act_with_full_reach actor ≡ true
      → canonical who db ≡ ok resolved
      → Outcome actor part who note replacing db (
          read_back actor
            (write_context_from p s o)
            (write_part now fresh actor part resolved note replacing db))
  unfolding read_back
  read_back_written note p s o resolved there may reach is =
      elim (write_part_cases now actor part resolved note db w fresh replacing given) [
        | inl (e, failed) ↦ inl (e, rw failed refl)
        | inr (id, rows, written, done) ↦
            let j : Joined (with_assignments db rows) written.row p s = record {
              listed = written.stored;
              joins =
                  ap (part_with_semester (with_assignments db rows)) written.row_part
                  ∙ same_place db rows part
                  ∙ there;
            } in
            let sees = may_write-Sees actor p s o written.row may reach in
            let shown =
              assignment_by_id-can_see (with_assignments db rows) written.sound actor written.row p
                s o j
              ∙ ap (λ b. if b then some (assignment_from p s written.row) else none) sees in
            let shown' =
              subst
                (λ i.
                  assignment_by_id i
                    (assignment_visibility actor (write_context_from p s o).semester)
                    (with_assignments db rows)
                  ≡ some (assignment_from p s written.row))
                written.row_id shown in
            inr (
              assignment_from p s written.row,
              rows,
              rw done (rw (read_back, shown') refl),
              record {
                resolved = resolved;
                is_resolved = is;
                id = id;
                written = written;
                place = p;
                semester = s;
                joined = j;
                is_from = refl;
                allowed = same_rule actor p s (some id) o ∙ may;
                reach = reach;
              },
            )
      ]

  set_checked_cases :
      (note : Text)
      → may_act_with_full_reach actor ≡ true
      → Outcome actor part who note replacing db
          (set_checked now fresh actor part who note replacing db)
  unfolding set_checked
  set_checked_cases note reach = elim (Bool-cases (found (part_write_context part db))) [
    | inr gone ↦ inl (part_not_found, rw (set_checked, gone) refl)
    | inl there ↦ elim (Option-cases (may_write actor (part_write_context part db))) [
      | inr (e, barred) ↦ inl (e, rw (set_checked, there) (rw barred refl))
      | inl may ↦ elim (Result-cases (canonical who db)) [
        | inl (e, nobody) ↦ inl (e, rw (set_checked, there) (rw may (rw nobody refl)))
        | inr (resolved, is) ↦ elim (context_cases part db) [
          | inl missing ↦ absurd (ground (arith, there, missing))
          | inr (p, s, o, joins, context) ↦
              let runs : set_checked now fresh actor part who note replacing db
                  ≡ read_back actor (part_write_context part db)
                      (write_part now fresh actor part resolved note replacing db) =
                rw (set_checked, there) (rw may (rw is refl)) in
              rw (runs, context)
                (read_back_written note p s o resolved joins
                  (ap (may_write actor) (sym context) ∙ may) reach is)
        ]
      ]
    ]
  ]

module _ (u : Unicode) (now : Time) (fresh : Uuid) (actor : Actor) (part : Uuid) (who : Assignee)
    (note : Text) (replacing : Uuid) (db : Database) where
  -- Set refuses and leaves the tables as they were, or it has written the part and answers with what
  -- it wrote: then the caller has full reach and may write there, the assignee is the one resolved, every
  -- assignment of another part is as it was, and whoever held the part was named by the caller.
  pub set_cases :
      DatabaseWellFormed db
      → fresh ≢ nil_uuid
      → Outcome actor part who
          (trim_space u note)
          replacing
          db
          (set u now fresh actor part who note replacing db)
  unfolding set
  set_cases w given = elim (Bool-cases (authenticated actor)) [
    | inr nobody ↦ inl (not_authenticated, rw (set, nobody) refl)
    | inl known ↦ elim (Bool-cases (may_act_with_full_reach actor)) [
      | inr narrow ↦ inl (full_reach_required, rw (set, known, narrow) refl)
      | inl reach ↦
          elim (Bool-cases (ltb max_assignment_note_length (byte_length (trim_space u note)))) [
            | inl long ↦ inl (note_too_long, rw (set, known, reach, long) refl)
            | inr short ↦ elim (Bool-cases (either_or who)) [
              | inl unclear ↦ inl (assignee_invalid, rw (set, known, reach, short, unclear) refl)
              | inr clear ↦
                  rw (set, known, reach, short, clear)
                    (set_checked_cases now fresh actor part who replacing db w given
                      (trim_space u note) reach)
            ]
          ]
    ]
  ]
