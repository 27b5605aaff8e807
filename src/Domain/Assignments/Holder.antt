-- ===== src/Domain/Assignments/Holder.antt =====
-- internal/domain/assignmentservice.go: Set, and then Mine of whoever was given the part.
use mathlib.Core.Path.{subst}
use tallox_go.Prelude.{
  Text, Unicode, List, [], some, true, not, ◌==◌, nat_comparable, nat_eq_iff, if◌then◌else◌, ◌≡◌,
  ◌≢◌, inl, inr, refl, sym, ap, ◌∙◌, arith, Bool-cases,
}
use tallox_go.Prelude.Results.{err, ok, ok_unique}
use tallox_go.Principal.{Actor, Uuid, nil_uuid, authenticated}
use tallox_go.Policy.Semester.{Time}
use tallox_go.Policy.Assignment.{own}
use tallox_go.Domain.Calendar.{Moment}
use tallox_go.Domain.Assignments.{set, mine, canonical, account, all_of_semester}
use tallox_go.Domain.Assignments.Own.{mine_iff}
use tallox_go.Domain.Assignments.Readback.{set_done}
use tallox_go.Store.Semesters.{non_nil_uuid}
use tallox_go.Store.Rows.{IsIn}
use tallox_go.Store.Assignments.{
  Database, Assignee, Assignment, assignee_not_found, with_assignments, account_of_teacher,
  person_exists, teacher_exists, assignments_of,
}
use tallox_go.Store.Assignments.WellFormed.{DatabaseWellFormed}

-- The account that an assignee stands for: the one that is named, or the one of the teacher.
abbrev pub account_of : Assignee → Database → Uuid
account_of who db =
    if not (who.person_id == nil_uuid) then who.person_id else account_of_teacher who.teacher_id db

canonical-account_of :
    (who resolved : Assignee) (db : Database)
    → canonical who db ≡ ok resolved
    → account_of who db ≢ nil_uuid
    → resolved ≡ account (account_of who db)
unfolding canonical
canonical-account_of who resolved db h real = elim (Bool-cases (who.person_id == nil_uuid)) [
  | inr person ↦ elim (Bool-cases (person_exists who.person_id db)) [
    | inr missing ↦
        let refused : canonical who db ≡ err assignee_not_found =
          rw (canonical, person, missing) refl in
        absurd (ground (arith, refused, h))
    | inl there ↦
        let found : canonical who db ≡ ok (account who.person_id) =
          rw (canonical, person, there) refl in
        rw person (ok_unique (canonical who db) resolved (account who.person_id) h found)
  ]
  | inl none_named ↦ elim (Bool-cases (teacher_exists who.teacher_id db)) [
    | inr missing ↦
        let refused : canonical who db ≡ err assignee_not_found =
          rw (canonical, none_named, missing) refl in
        absurd (ground (arith, refused, h))
    | inl there ↦
        let real' : account_of_teacher who.teacher_id db ≢ nil_uuid =
          ground (arith, real, none_named) in
        elim (Bool-cases (account_of_teacher who.teacher_id db == nil_uuid)) [
          | inl nil ↦
              absurd (real' ((nat_eq_iff (account_of_teacher who.teacher_id db) nil_uuid).0 nil))
          | inr held ↦
              let found : canonical who db ≡ ok (account (account_of_teacher who.teacher_id db)) =
                rw (canonical, none_named, there, held) refl in
              rw none_named (
                ok_unique (canonical who db) resolved
                  (account (account_of_teacher who.teacher_id db)) h found)
        ]
  ]
]

mine_answers :
    (u : Unicode) (at : Moment) (holder : Actor) (db : Database)
    → authenticated holder ≡ true
    → (xs : List Assignment) × (mine u at holder [] db ≡ ok xs)
unfolding mine
mine_answers u at holder db known = (
  assignments_of (all_of_semester [] holder.id)
      (record { scope = own; assignee_id = holder.id; programme_ids = []; subject_group_ids = [] })
      db,
  rw (mine, known) refl,
)

module _ (u : Unicode) (now : Time) (fresh : Uuid) (actor : Actor) (part : Uuid) (who : Assignee)
    (note : Text) (replacing : Uuid) (db db' : Database) (x : Assignment) where
  -- Whoever is given a part, by their account or by the teacher that has the mail of their account,
  -- finds it among their own assignments of all semesters right after, whatever has been published.
  pub mine-set :
      (at : Moment) (holder : Actor)
      → DatabaseWellFormed db
      → fresh ≢ nil_uuid
      → set u now fresh actor part who note replacing db ≡ (ok x, db')
      → authenticated holder ≡ true
      → account_of who db ≡ holder.id
      → (xs : List Assignment) × (mine u at holder [] db' ≡ ok xs) × IsIn x xs
  unfolding authenticated
  mine-set at holder w given h known is_holder =
      let (rows, is, d) = set_done u now fresh actor part who note db db' x replacing w given h in
      let real : holder.id ≢ nil_uuid =
        λ e. ground (arith, known, (nat_eq_iff holder.id nil_uuid).1 e) in
      let resolved =
        canonical-account_of who d.resolved db d.is_resolved (λ e. real (sym is_holder ∙ e)) in
      let kept : non_nil_uuid holder.id ≡ some holder.id = ground (arith, known) in
      let person =
        d.written.row_person
        ∙ ap (λ (y : Assignee). non_nil_uuid y.person_id) resolved
        ∙ ap non_nil_uuid is_holder
        ∙ kept in
      let (xs, answer) = mine_answers u at holder db' known in
      let iff =
        mine_iff u (with_assignments db rows) d.written.sound at holder [] xs
          (subst (λ t. mine u at holder [] t ≡ ok xs) is answer) x in
      (
        xs,
        answer,
        iff.1 (d.written.row, d.place, d.semester, d.joined, inl refl, person, d.is_from),
      )
