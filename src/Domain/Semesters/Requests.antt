-- ===== src/Domain/Semesters/Requests.antt =====
-- The requests that change the table of semesters, and the statements that they come down to.
use tallox_go.Prelude.{Text, Unicode, List, [], ◌∷◌, true, nat_comparable, ◌≡◌}
use tallox_go.Principal.{Actor, Uuid}
use tallox_go.Policy.Phase.{Phase, may_move_to, phase_comparable}
use tallox_go.Policy.Semester.{Time}
use tallox_go.Domain.Calendar.{Moment, semester_code_pattern}
use tallox_go.Store.Semesters
use tallox_go.Store.Semesters.{Semester, Table, never}
use tallox_go.Domain.Semesters.{
  Answer, advance_phase, set_planning_semester, publish_wishes, publish_assignments,
  set_assignment_confirmation_due, freeze_desired_hours, publish_desired_hours, ensure_recorded,
}

-- A call of the service that may write.
pub data Request : Type 0 where
  advance : Actor → Text → Phase → Request
  plan : Actor → Text → Request
  release_wishes : (Uuid → List Text) → Actor → Text → Request
  release_assignments : Actor → Text → Request
  ask_confirmation : Actor → Text → Time → Request
  freeze_hours : Actor → Text → Request
  release_hours : Actor → Text → Request
  touch : Actor → Text → Request

-- A request with the clocks of its time and the id for a new row.
pub record Call : Type 0 where
  pub at : Moment
  pub now : Time
  pub fresh : Uuid
  pub request : Request

-- One statement or transaction on the table; a phase is only switched by a step.
pub data Statement (t t' : Table) : Type 0 where
  ensures :
      (now : Time) (fresh : Uuid) (code : Text)
      → semester_code_pattern code ≡ true
      → t' ≡ (Semesters.ensure_semester now fresh code t).1
      → Statement t t'
  advances :
      (now : Time) (id : Uuid) (from to : Phase)
      → may_move_to from to ≡ true
      → t' ≡ (Semesters.advance_semester_phase now id from to t).1
      → Statement t t'
  plans :
      (now : Time) (id by : Uuid)
      → t' ≡ (Semesters.set_planning_semester_once now id by t).1
      → Statement t t'
  releases_wishes :
      (now : Time) (id : Uuid)
      → t' ≡ (Semesters.publish_semester_wishes now id t).1
      → Statement t t'
  releases_assignments :
      (now : Time) (id : Uuid)
      → t' ≡ (Semesters.publish_semester_assignments now id t).1
      → Statement t t'
  asks_confirmation :
      (now : Time) (id : Uuid) (due : Time) (by : Uuid)
      → t' ≡ (Semesters.set_semester_assignment_confirmation_due now id due by t).1
      → Statement t t'
  freezes :
      (now : Time) (id by : Uuid)
      → t' ≡ (Semesters.freeze_semester_desired_hours now id by t).1
      → Statement t t'
  releases_hours :
      (now : Time) (id by : Uuid)
      → t' ≡ (Semesters.publish_semester_desired_hours now id by t).1
      → Statement t t'

-- The tables that a sequence of statements leads to.
pub data Reach (t : Table) : Table → Type 0 where
  here : Reach t t
  next : {t' t'' : Table} → Reach t t' → Statement t' t'' → Reach t t''

pub Reach_trans : {t t' t'' : Table} → Reach t t' → Reach t' t'' → Reach t t''
Reach_trans r here = r
Reach_trans r (next s st) = next (Reach_trans r s) st

module _ (u : Unicode) (at : Moment) (now : Time) (fresh : Uuid) where
  unfoldable pub answer_to : Request → Table → Answer
  answer_to (advance actor code to) t = advance_phase u at now fresh actor code to t
  answer_to (plan actor code) t = set_planning_semester u at now fresh actor code t
  answer_to (release_wishes open_windows actor code) t =
      publish_wishes u at now fresh open_windows actor code t
  answer_to (release_assignments actor code) t = publish_assignments u at now fresh actor code t
  answer_to (ask_confirmation actor code due) t =
      set_assignment_confirmation_due u at now fresh actor code due t
  answer_to (freeze_hours actor code) t = freeze_desired_hours u at now fresh actor code t
  answer_to (release_hours actor code) t = publish_desired_hours u at now fresh actor code t
  answer_to (touch actor code) t = ensure_recorded u at now fresh actor code t

module _ (u : Unicode) where
  abbrev pub answer : Call → Table → Answer
  answer c t = answer_to u c.at c.now c.fresh c.request t

  -- One call after another.
  unfoldable pub serve : List Call → Table → Table
  unfolding answer_to
  serve [] t = t
  serve (c ∷ cs) t = serve cs (answer c t).1
