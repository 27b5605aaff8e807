-- ===== src/Domain/Assignments/Readback.antt =====
-- internal/domain/assignmentservice.go: Set, and then ByID and Clear.
use mathlib.Core.Path.{subst}
use tallox_go.Prelude.{
  Text, Unicode, trim_space, List, none, some, true, not, ◌==◌, nat_comparable, nat_eq_iff,
  both_true, ◌≡◌, ◌≢◌, ◌↔◌, inl, inr, refl, sym, ap, ◌∙◌, arith, Bool-cases,
}
use tallox_go.Prelude.Results.{Result, err, ok}
use tallox_go.Principal.{Actor, Uuid, nil_uuid, authenticated, acts_with_full_reach}
use tallox_go.Policy.Onlooker.{may_act_with_full_reach}
use tallox_go.Policy.Semester.{Time}
use tallox_go.Domain.Assignments.{set, clear, by_id, may_write}
use tallox_go.Domain.Assignments.Visible.{by_id_iff}
use tallox_go.Domain.Assignments.SetOutcome.{SetDone, Outcome, may_write-Sees, set_cases}
use tallox_go.Domain.Assignments.Cleared.{without, clear_answer, clear_lem}
use tallox_go.Store.Rows.{IsIn, keep_rows, keep_rows_sound, keep_rows_complete}
use tallox_go.Store.Assignments.{
  AssignmentRow, Database, Assignee, Assignment, AssignmentError, assignment_from, with_assignments,
  write_context_from,
}
use tallox_go.Store.Assignments.WellFormed.{DatabaseWellFormed}
use tallox_go.Store.Assignments.Lookup.{same_id, same_part, sound_row}

known_reach : (actor : Actor) → may_act_with_full_reach actor ≡ true → authenticated actor ≡ true
unfolding may_act_with_full_reach
known_reach actor h = (both_true (authenticated actor) (acts_with_full_reach actor) h).0

abbrev answered_or : Assignment → Result AssignmentError Assignment × Database → Assignment
answered_or x (err e, db) = x
answered_or x (ok y, db) = y

done_of :
    (actor : Actor) (part : Uuid) (who : Assignee) (note : Text) (replacing : Uuid)
    (db db' : Database) (r : Result AssignmentError Assignment × Database) (x : Assignment)
    → Outcome actor part who note replacing db r
    → r ≡ (ok x, db')
    → (rows : List AssignmentRow) × (db' ≡ with_assignments db rows)
      × SetDone actor part who note replacing db x rows
done_of actor part who note replacing db db' r x (inl (e, failed)) h =
    absurd (ground (arith, failed, h))
done_of actor part who note replacing db db' r x (inr (y, rows, is, d)) h =
    let same : y ≡ x = ap (answered_or x) (sym is ∙ h) in
    (
      rows,
      ap (λ t. t.1) (sym h ∙ is),
      subst (λ z. SetDone actor part who note replacing db z rows) same d,
    )

module _ (u : Unicode) (now : Time) (fresh : Uuid) (actor : Actor) (part : Uuid) (who : Assignee)
    (note : Text) (db db' : Database) (x : Assignment) where
  pub set_done :
      (replacing : Uuid)
      → DatabaseWellFormed db
      → fresh ≢ nil_uuid
      → set u now fresh actor part who note replacing db ≡ (ok x, db')
      → (rows : List AssignmentRow) × (db' ≡ with_assignments db rows)
        × SetDone actor part who (trim_space u note) replacing db x rows
  set_done replacing w given h =
      done_of actor part who (trim_space u note) replacing db db'
        (set u now fresh actor part who note replacing db) x
        (set_cases u now fresh actor part who note replacing db w given) h

  -- What Set answers is what ByID then answers to the same caller under the id of the answer.
  pub by_id-set :
      (replacing : Uuid)
      → DatabaseWellFormed db
      → fresh ≢ nil_uuid
      → set u now fresh actor part who note replacing db ≡ (ok x, db')
      → by_id actor x.id db' ≡ ok x
  unfolding assignment_from
  by_id-set replacing w given h =
      let (rows, is, d) = set_done replacing w given h in
      let sees =
        may_write-Sees actor d.place d.semester (some d.id) d.written.row d.allowed d.reach in
      let reads =
        (by_id_iff (with_assignments db rows) d.written.sound actor x.id
            (known_reach actor d.reach)).0
          x in
      subst (λ t. by_id actor x.id t ≡ ok x) (sym is)
        (reads.1 (
          d.written.row,
          d.place,
          d.semester,
          d.joined,
          ap (λ (y : Assignment). y.id) d.is_from,
          sees,
          d.is_from,
        ))

  same_rows :
      (rows : List AssignmentRow)
      → DatabaseWellFormed db
      → SetDone actor part who (trim_space u note) nil_uuid db x rows
      → (a : AssignmentRow)
      → IsIn a (keep_rows (λ (b : AssignmentRow). not (b.id == x.id)) rows) ↔ IsIn a db.assignments
  unfolding assignment_from
  same_rows rows w d a =
      let keep = λ (b : AssignmentRow). not (b.id == x.id) in
      let x_id : d.written.row.id ≡ x.id = ap (λ (y : Assignment). y.id) d.is_from in
      let db'' = with_assignments db rows in
      (
        λ i.
            let (j, kept) = keep_rows_sound keep rows a i in
            (d.written.others a (λ e.
                let same =
                  same_part db'' d.written.sound a d.written.row j d.written.stored
                    (e ∙ sym d.written.row_part) in
                ground (arith, kept, (nat_eq_iff a.id x.id).1 (ap (λ y. y.id) same ∙ x_id)))).1
              j,
        λ i.
            let elsewhere = λ (e : a.instance_part_id ≡ part).
              (sound_row db w a i).id_not_nil (d.written.holder_named a i e) in
            let j = (d.written.others a elsewhere).0 i in
            keep_rows_complete keep rows a j (elim (Bool-cases (a.id == x.id)) [
              | inr other ↦ rw other refl
              | inl same ↦
                  let one =
                    same_id db'' d.written.sound a d.written.row j d.written.stored
                      ((nat_eq_iff a.id x.id).0 same ∙ sym x_id) in
                  absurd (elsewhere (ap (λ y. y.instance_part_id) one ∙ d.written.row_part))
            ]),
      )

  -- Filling a part and then clearing it as the same caller succeeds, and leaves the assignments that
  -- there were before.
  pub clear-set :
      DatabaseWellFormed db
      → fresh ≢ nil_uuid
      → set u now fresh actor part who note nil_uuid db ≡ (ok x, db')
      → (clear actor x.id db' ≡ (none, without x.id db'))
        × ((a : AssignmentRow) → IsIn a (without x.id db').assignments ↔ IsIn a db.assignments)
  unfolding assignment_from
  clear-set w given h =
      let (rows, is, d) = set_done nil_uuid w given h in
      let db'' = with_assignments db rows in
      let x_id : d.written.row.id ≡ x.id = ap (λ (y : Assignment). y.id) d.is_from in
      let sees =
        may_write-Sees actor d.place d.semester (some d.id) d.written.row d.allowed d.reach in
      let cleared =
        (clear_lem db'' d.written.sound actor x.id (known_reach actor d.reach) d.reach).0
          d.written.row d.place d.semester d.joined x_id sees in
      let may : may_write actor (write_context_from d.place d.semester (some x.id)) ≡ none =
        ap (λ i. may_write actor (write_context_from d.place d.semester (some i)))
          (sym x_id ∙ d.written.row_id)
        ∙ d.allowed in
      (
        subst (λ t. clear actor x.id t ≡ (none, without x.id t)) (sym is)
            (cleared ∙ ap (λ o. clear_answer o x.id db'') may),
        λ a.
            subst (λ t. IsIn a (without x.id t).assignments ↔ IsIn a db.assignments) (sym is)
              (same_rows rows w d a),
      )
