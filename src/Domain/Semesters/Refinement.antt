-- ===== src/Domain/Semesters/Refinement.antt =====
-- internal/domain/semester.go: the service executes only permitted statements.
pub mod Rows
use tallox_go.Prelude.{
  Text, Unicode, List, [], ◌∷◌, Option, none, some, Bool, true, false, not, ◌&&◌, ◌==◌,
  nat_comparable, is_empty, ◌≡◌, refl, arith, Bool-cases, Option-cases, inl, inr, trim_space,
  to_upper, if◌then◌else◌,
}
use mathlib.Core.Path.{subst}
use tallox_go.Prelude.Results.{Result-cases, err, ok}
use tallox_go.Principal.{Actor, Uuid, authenticated}
use tallox_go.Policy.Phase.{Phase, valid, may_move_to, final, phase_comparable}
use tallox_go.Policy.Semester.{
  Time, may_administer_semesters, may_publish_wishes, may_publish_assignments,
  may_set_assignment_confirmation_due, may_freeze_desired_hours, may_publish_desired_hours,
}
use tallox_go.Domain.Calendar.{Moment, semester_code_pattern, is_plannable}
use tallox_go.Store.Semesters
use tallox_go.Store.Semesters.{Semester, Table, never}
use tallox_go.Domain.Semesters.{
  SemesterError, Answer, or_error, plannable, with_row, advance_row, advance_phase,
  set_planning_semester, publish_wishes_of, publish_wishes, publish_assignments, set_due_of,
  set_assignment_confirmation_due, freeze_desired_hours, publish_hours_of, publish_desired_hours,
  ensure_recorded, code_invalid, out_of_range, phase_moved_on, storing_failed,
  desired_hours_not_frozen,
}
use tallox_go.Domain.Semesters.Requests.{
  next, Request, Call, Statement, Reach, here, ensures, advances, plans, releases_wishes,
  releases_assignments, asks_confirmation, freezes, releases_hours, advance, plan, release_wishes,
  release_assignments, ask_confirmation, freeze_hours, release_hours, touch, Reach_trans, answer_to,
  answer, serve,
}
use tallox_go.Domain.Semesters.Refinement.Rows.{
  guarded, or_error-Reach, advance_row-Reach, publish_wishes_of-Reach, set_due_of-Reach,
  publish_hours_of-Reach, guarded-Reach,
}

module _ (u : Unicode) where
  plannable_ok :
      (at : Moment) (code normal : Text)
      → plannable u at code ≡ ok normal
      → semester_code_pattern normal ≡ true
  unfolding plannable
  plannable_ok at code normal h =
      let both =
        guarded (semester_code_pattern (to_upper u (trim_space u code)))
          (is_plannable at (to_upper u (trim_space u code))) (to_upper u (trim_space u code)) normal
          h in
      subst (λ x. semester_code_pattern x ≡ true) both.1 both.0

  with_row-Reach :
      (at : Moment) (now : Time) (fresh : Uuid) (code : Text) (decide : Semester → Table → Answer)
      (t : Table)
      → ((s : Semester) (t' : Table) → Reach t' (decide s t').1)
      → Reach t (with_row u at now fresh code decide t).1
  unfolding with_row
  with_row-Reach at now fresh code decide t r = elim (Result-cases (plannable u at code)) [
    | inl (e, p) ↦ rw (with_row, p) here
    | inr (normal, p) ↦
        let ensured : Reach t (Semesters.ensure_semester now fresh normal t).1 =
          next here (ensures now fresh normal (plannable_ok at code normal p) refl) in
        elim (Option-cases (Semesters.ensure_semester now fresh normal t).0) [
          | inl failed ↦ rw (with_row, p, failed) ensured
          | inr (s, found) ↦ rw (with_row, p, found) (Reach_trans ensured (r s _))
        ]
  ]

  advance_phase-Reach :
      (at : Moment) (now : Time) (fresh : Uuid) (actor : Actor) (code : Text) (to : Phase)
      (t : Table)
      → Reach t (advance_phase u at now fresh actor code to t).1
  unfolding advance_phase
  advance_phase-Reach at now fresh actor code to t =
      guarded-Reach (may_administer_semesters actor) _ _ t (
        guarded-Reach (valid to) _ _ t
          (with_row-Reach at now fresh code (advance_row now to) t (advance_row-Reach now to)))

  set_planning_semester-Reach :
      (at : Moment) (now : Time) (fresh : Uuid) (actor : Actor) (code : Text) (t : Table)
      → Reach t (set_planning_semester u at now fresh actor code t).1
  unfolding set_planning_semester
  set_planning_semester-Reach at now fresh actor code t =
      guarded-Reach (may_administer_semesters actor) _ _ t (
        with_row-Reach at now fresh code _ t
          (λ s t'. or_error-Reach storing_failed _ (plans now s.id actor.id refl)))

  publish_wishes-Reach :
      (at : Moment) (now : Time) (fresh : Uuid) (open_windows : Uuid → List Text) (actor : Actor)
      (code : Text) (t : Table)
      → Reach t (publish_wishes u at now fresh open_windows actor code t).1
  unfolding publish_wishes
  publish_wishes-Reach at now fresh open_windows actor code t =
      guarded-Reach (may_publish_wishes actor) _ _ t
        (with_row-Reach at now fresh code _ t (publish_wishes_of-Reach now open_windows))

  publish_assignments-Reach :
      (at : Moment) (now : Time) (fresh : Uuid) (actor : Actor) (code : Text) (t : Table)
      → Reach t (publish_assignments u at now fresh actor code t).1
  unfolding publish_assignments
  publish_assignments-Reach at now fresh actor code t =
      guarded-Reach (may_publish_assignments actor) _ _ t (
        with_row-Reach at now fresh code _ t
          (λ s t'. or_error-Reach storing_failed _ (releases_assignments now s.id refl)))

  set_assignment_confirmation_due-Reach :
      (at : Moment) (now : Time) (fresh : Uuid) (actor : Actor) (code : Text) (due : Time)
      (t : Table)
      → Reach t (set_assignment_confirmation_due u at now fresh actor code due t).1
  unfolding set_assignment_confirmation_due
  set_assignment_confirmation_due-Reach at now fresh actor code due t =
      guarded-Reach (may_set_assignment_confirmation_due actor) _ _ t
        (with_row-Reach at now fresh code _ t (set_due_of-Reach now due actor.id))

  freeze_desired_hours-Reach :
      (at : Moment) (now : Time) (fresh : Uuid) (actor : Actor) (code : Text) (t : Table)
      → Reach t (freeze_desired_hours u at now fresh actor code t).1
  unfolding freeze_desired_hours
  freeze_desired_hours-Reach at now fresh actor code t =
      guarded-Reach (may_freeze_desired_hours actor) _ _ t (
        with_row-Reach at now fresh code _ t
          (λ s t'. or_error-Reach storing_failed _ (freezes now s.id actor.id refl)))

  publish_desired_hours-Reach :
      (at : Moment) (now : Time) (fresh : Uuid) (actor : Actor) (code : Text) (t : Table)
      → Reach t (publish_desired_hours u at now fresh actor code t).1
  unfolding publish_desired_hours
  publish_desired_hours-Reach at now fresh actor code t =
      guarded-Reach (may_publish_desired_hours actor) _ _ t
        (with_row-Reach at now fresh code _ t (publish_hours_of-Reach now actor.id))

  ensure_recorded-Reach :
      (at : Moment) (now : Time) (fresh : Uuid) (actor : Actor) (code : Text) (t : Table)
      → Reach t (ensure_recorded u at now fresh actor code t).1
  unfolding ensure_recorded
  ensure_recorded-Reach at now fresh actor code t =
      guarded-Reach (authenticated actor) _ _ t
        (with_row-Reach at now fresh code _ t (λ s t'. here))

  answer_to-Reach :
      (at : Moment) (now : Time) (fresh : Uuid) (r : Request) (t : Table)
      → Reach t (answer_to u at now fresh r t).1
  unfolding answer_to
  answer_to-Reach at now fresh (advance actor code to) t =
      advance_phase-Reach at now fresh actor code to t
  answer_to-Reach at now fresh (plan actor code) t =
      set_planning_semester-Reach at now fresh actor code t
  answer_to-Reach at now fresh (release_wishes open_windows actor code) t =
      publish_wishes-Reach at now fresh open_windows actor code t
  answer_to-Reach at now fresh (release_assignments actor code) t =
      publish_assignments-Reach at now fresh actor code t
  answer_to-Reach at now fresh (ask_confirmation actor code due) t =
      set_assignment_confirmation_due-Reach at now fresh actor code due t
  answer_to-Reach at now fresh (freeze_hours actor code) t =
      freeze_desired_hours-Reach at now fresh actor code t
  answer_to-Reach at now fresh (release_hours actor code) t =
      publish_desired_hours-Reach at now fresh actor code t
  answer_to-Reach at now fresh (touch actor code) t =
      ensure_recorded-Reach at now fresh actor code t

  -- Whatever calls are served, in whatever order and however each is answered, the table that they
  -- leave is reached from the first by permitted statements alone: one adds a row of a well-formed
  -- code, or switches a phase by a step that `may_move_to` allows, or sets the planning semester, a
  -- publication, the freeze or the due date of one row.
  pub serve-Reach : (cs : List Call) (t : Table) → Reach t (serve u cs t)
  unfolding serve
  serve-Reach [] t = here
  serve-Reach (c ∷ cs) t =
      Reach_trans (answer_to-Reach c.at c.now c.fresh c.request t) (serve-Reach cs (answer u c t).1)
