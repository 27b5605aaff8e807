-- ===== src/Domain/Semesters/Shape.antt =====
-- internal/domain/semester.go: what one permitted statement makes of the table.
use mathlib.Core.Path.{subst}
use tallox_go.Prelude.{
  Text, ◌∷◌, map, Bool, true, ◌==◌, nat_comparable, text_comparable, any, ◌≡◌, refl, sym, ◌∙◌,
  Bool-cases, Option-cases, inl, inr,
}
use tallox_go.Principal.{Uuid}
use tallox_go.Policy.Phase.{phase_comparable}
use tallox_go.Policy.Semester.{Time}
use tallox_go.Domain.Calendar.{semester_code_pattern}
use tallox_go.Store.Semesters.{
  Row, Table, select, update, returned, fresh_row, ensure_semester, advance_semester_phase,
  publish_semester_wishes, publish_semester_assignments, freeze_semester_desired_hours,
  publish_semester_desired_hours, set_semester_assignment_confirmation_due,
  set_planning_semester_once,
}
use tallox_go.Store.Semesters.Rewrites.{rewritten, rewritten-property, returned-map}
use tallox_go.Store.Semesters.Careful.{
  Careful, advance-Careful, publish_wishes-Careful, publish_assignments-Careful, freeze-Careful,
  publish_hours-Careful, set_due-Careful,
}
use tallox_go.Store.Semesters.Apart.{
  Every, Apart, Careful-Apart, fresh_row-AllApart, moved, moved-Careful, moved-Apart,
  set_planning_semester_once-table,
}
use tallox_go.Domain.Semesters.Requests.{
  Statement, ensures, advances, plans, releases_wishes, releases_assignments, asks_confirmation,
  freezes, releases_hours,
}

-- No change, columns of rows, or one more row.
pub data Shape (t : Table) : Table → Type 0 where
  unchanged : (t' : Table) → t' ≡ t → Shape t t'
  rewrites :
      (t' : Table) (g : Row → Row)
      → Careful g
      → ((r r' : Row) → Apart r r' → Apart (g r) (g r'))
      → t' ≡ map g t
      → Shape t t'
  adds :
      (t' : Table) (now : Time) (id : Uuid) (code : Text)
      → semester_code_pattern code ≡ true
      → Every (Apart (fresh_row now id code)) t
      → t' ≡ fresh_row now id code ∷ t
      → Shape t t'

-- An `UPDATE` that marks no row.
rewriting :
    (p : Row → Bool) (f : Row → Row) (t t' : Table)
    → Careful (rewritten p f)
    → ((r : Row) → (f r).is_planning ≡ r.is_planning)
    → t' ≡ (returned (update p f t)).1
    → Shape t t'
rewriting p f t t' c m e =
    rewrites t' (rewritten p f) c
      (Careful-Apart _ c (λ r.
        rewritten-property (λ x. x.is_planning ≡ true → r.is_planning ≡ true) p f r (λ h. h)
          (λ hit h. sym (m r) ∙ h)))
      (e ∙ returned-map p f t)

ensure_semester-Shape :
    (now : Time) (id : Uuid) (code : Text) (t : Table)
    → semester_code_pattern code ≡ true
    → Shape t (ensure_semester now id code t).1
unfolding ensure_semester
ensure_semester-Shape now id code t h = elim (Option-cases (select (λ r. r.code == code) t)) [
  | inr (r, found) ↦ rw (ensure_semester, found) (unchanged t refl)
  | inl absent ↦ elim (Bool-cases (any (λ r. r.id == id) t)) [
    | inl taken ↦ rw (ensure_semester, absent, taken) (unchanged t refl)
    | inr free ↦
        rw (ensure_semester, absent, free)
          (adds _ now id code h (fresh_row-AllApart now id code t absent free) refl)
  ]
]

set_planning_semester_once-Shape :
    (now : Time) (id by : Uuid) (t : Table) → Shape t (set_planning_semester_once now id by t).1
set_planning_semester_once-Shape now id by t = elim (set_planning_semester_once-table now id by t) [
  | inl same ↦ unchanged _ same
  | inr changed ↦
      rewrites _ (moved now id by) (moved-Careful now id by) (moved-Apart now id by) changed
]

pub Statement-Shape : (t t' : Table) → Statement t t' → Shape t t'
unfolding advance_semester_phase publish_semester_wishes publish_semester_assignments
    freeze_semester_desired_hours publish_semester_desired_hours
    set_semester_assignment_confirmation_due
Statement-Shape t t' (ensures now id code h e) =
    subst (Shape t) (sym e) (ensure_semester-Shape now id code t h)
Statement-Shape t t' (advances now id from to m e) =
    rewriting _ _ t t' (advance-Careful now id from to m) (λ r. refl) e
Statement-Shape t t' (plans now id by e) =
    subst (Shape t) (sym e) (set_planning_semester_once-Shape now id by t)
Statement-Shape t t' (releases_wishes now id e) =
    rewriting _ _ t t' (publish_wishes-Careful now id) (λ r. refl) e
Statement-Shape t t' (releases_assignments now id e) =
    rewriting _ _ t t' (publish_assignments-Careful now id) (λ r. refl) e
Statement-Shape t t' (asks_confirmation now id due by e) =
    rewriting _ _ t t' (set_due-Careful now due id by) (λ r. refl) e
Statement-Shape t t' (freezes now id by e) =
    rewriting _ _ t t' (freeze-Careful now id by) (λ r. refl) e
Statement-Shape t t' (releases_hours now id by e) =
    rewriting _ _ t t' (publish_hours-Careful now id by) (λ r. refl) e
