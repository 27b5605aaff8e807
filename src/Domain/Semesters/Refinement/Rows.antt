-- ===== src/Domain/Semesters/Refinement/Rows.antt =====
-- internal/domain/semester.go: the decisions on a row execute only permitted statements.
use tallox_go.Prelude.{
  Text, List, Option, none, some, Bool, true, false, not, ◌&&◌, ◌==◌, nat_comparable, is_empty, ◌≡◌,
  refl, arith, Bool-cases, inl, inr, if◌then◌else◌,
}
use tallox_go.Prelude.Results.{err, ok}
use tallox_go.Principal.{Uuid}
use tallox_go.Policy.Phase.{Phase, valid, may_move_to, final, phase_comparable}
use tallox_go.Policy.Semester.{Time}
use tallox_go.Store.Semesters.{Semester, Table, never}
use tallox_go.Domain.Semesters.{
  SemesterError, Answer, or_error, advance_row, publish_wishes_of, set_due_of, publish_hours_of,
  code_invalid, out_of_range, phase_moved_on, storing_failed, desired_hours_not_frozen,
}
use tallox_go.Domain.Semesters.Requests.{
  next, Statement, Reach, here, advances, releases_wishes, asks_confirmation, releases_hours,
}

pub guarded :
    (fits near : Bool) (code normal : Text)
    → (if not fits then err code_invalid else if not near then err out_of_range else ok code)
      ≡ ok normal
    → (fits ≡ true) × (code ≡ normal)
guarded true true code normal h = ground (arith, h)
guarded true false code normal h = ground (arith, h)
guarded false near code normal h = ground (arith, h)

pub or_error-Reach :
    {t : Table} (e : SemesterError) (x : Option Semester × Table)
    → Statement t x.1
    → Reach t (or_error e x).1
or_error-Reach e (none, t') st = next here st
or_error-Reach e (some s, t') st = next here st

pub advance_row-Reach :
    (now : Time) (to : Phase) (s : Semester) (t : Table) → Reach t (advance_row now to s t).1
unfolding advance_row
advance_row-Reach now to s t = elim (Bool-cases (valid s.phase)) [
  | inr odd ↦ rw (advance_row, odd) here
  | inl known ↦ elim (Bool-cases (may_move_to s.phase to)) [
    | inr far ↦ rw (advance_row, known, far) here
    | inl near ↦
        rw (advance_row, known, near)
          (or_error-Reach phase_moved_on _ (advances now s.id s.phase to near refl))
  ]
]

pub publish_wishes_of-Reach :
    (now : Time) (open_windows : Uuid → List Text) (s : Semester) (t : Table)
    → Reach t (publish_wishes_of now open_windows s t).1
unfolding publish_wishes_of
publish_wishes_of-Reach now open_windows s t =
    elim (Bool-cases (s.wishes_published_at == never && not (is_empty (open_windows s.id)))) [
      | inl running ↦ rw (publish_wishes_of, running) here
      | inr closed ↦
          rw (publish_wishes_of, closed)
            (or_error-Reach storing_failed _ (releases_wishes now s.id refl))
    ]

pub set_due_of-Reach :
    (now due : Time) (by : Uuid) (s : Semester) (t : Table) → Reach t (set_due_of now due by s t).1
unfolding set_due_of
set_due_of-Reach now due by s t = elim (Bool-cases (s.phase == final)) [
  | inl over ↦ rw (set_due_of, over) here
  | inr running ↦
      rw (set_due_of, running)
        (or_error-Reach storing_failed _ (asks_confirmation now s.id due by refl))
]

pub publish_hours_of-Reach :
    (now : Time) (by : Uuid) (s : Semester) (t : Table) → Reach t (publish_hours_of now by s t).1
unfolding publish_hours_of
publish_hours_of-Reach now by s t = elim (Bool-cases (s.desired_hours_frozen_at == never)) [
  | inl unfrozen ↦ rw (publish_hours_of, unfrozen) here
  | inr frozen ↦
      rw (publish_hours_of, frozen)
        (or_error-Reach desired_hours_not_frozen _ (releases_hours now s.id by refl))
]

-- An operation with its guard: refused, or the decision on its row.
pub guarded-Reach :
    (permitted : Bool) (e : SemesterError) (x : Answer) (t : Table)
    → Reach t x.1
    → Reach t (if not permitted then (err e, t) else x).1
guarded-Reach true e x t r = r
guarded-Reach false e x t r = here
