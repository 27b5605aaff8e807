-- ===== src/Domain/Assignments/Listed.antt =====
-- internal/domain/assignmentservice.go: what List and Mine return.
use mathlib.Core.Path.{subst}
use tallox_go.Prelude.{
  Text, Unicode, List, [], ◌∷◌, true, false, ◌==◌, nat_comparable, text_comparable, ◌≡◌, ◌≢◌, ◌↔◌,
  inl, inr, refl, sym, ap, ◌∙◌, arith, Bool-cases,
}
use tallox_go.Prelude.Results.{err, ok, ok_unique, Result-cases}
use tallox_go.Principal.{Actor, nil_uuid, authenticated}
use tallox_go.Policy.Assignment.{assignment_visibility, can_see_assignment, matches}
use tallox_go.Policy.Assignment.Agreement.{matches-assignment_visibility}
use tallox_go.Domain.Calendar.{Moment}
use tallox_go.Domain.Semesters.{by_code, state}
use tallox_go.Domain.Semesters.Recorded.{by_code-listed}
use tallox_go.Domain.Assignments.{list}
use tallox_go.Domain.Assignments.Visible.{Sees}
use tallox_go.Store.Semesters.{Row, Table, Semester, semester_from}
use tallox_go.Store.Semesters.Apart.{select-IsIn, select_code, Every-IsIn}
use tallox_go.Store.Semesters.Apart
use tallox_go.Store.Rows.{IsIn, Every}
use tallox_go.Store.Assignments.{
  InstancePart, AssignmentRow, Database, Assignment, AssignmentQuery, not_authenticated,
  semester_required, semester_refused, no_text, narrows, assignment_from, assignments_of,
}
use tallox_go.Store.Assignments.WellFormed.{DatabaseWellFormed}
use tallox_go.Store.Assignments.Reads.{Joined, subject}
use tallox_go.Store.Assignments.Lookup.{part_with_semester_sound}
use tallox_go.Store.Assignments.Selected.{no_other, assignments_of_iff}

each_semester {ℓ} : (P : Row → Type ℓ) (t : Table) → Every P t → Apart.Every P t
each_semester P [] e = tt
each_semester P (r ∷ rs) (p, e) = (p, each_semester P rs e)

module _ (u : Unicode) where
  answered_list :
      (at : Moment) (actor : Actor) (q : AssignmentQuery) (db : Database) (xs : List Assignment)
      → list u at actor q db ≡ ok xs
      → (authenticated actor ≡ true)
        × (no_text q.semester_code ≡ false)
        × ((semester : Semester) × (by_code u at actor q.semester_code db.semesters ≡ ok semester)
            × (assignments_of q (assignment_visibility actor (state semester)) db ≡ xs))
  unfolding list
  answered_list at actor q db xs h = elim (Bool-cases (authenticated actor)) [
    | inr nobody ↦
        let refused : list u at actor q db ≡ err not_authenticated = rw (list, nobody) refl in
        absurd (ground (arith, refused, h))
    | inl known ↦ elim (Bool-cases (no_text q.semester_code)) [
      | inl all ↦
          let refused : list u at actor q db ≡ err semester_required = rw (list, known, all) refl in
          absurd (ground (arith, refused, h))
      | inr one ↦ elim (Result-cases (by_code u at actor q.semester_code db.semesters)) [
        | inl (e, failed) ↦
            let refused : list u at actor q db ≡ err semester_refused =
              rw (list, known, one) (rw failed refl) in
            absurd (ground (arith, refused, h))
        | inr (semester, read) ↦
            let answer : list u at actor q db
                ≡ ok (assignments_of q (assignment_visibility actor (state semester)) db) =
              rw (list, known, one) (rw read refl) in
            (known, one, (semester, read, ok_unique (list u at actor q db) _ xs answer h))
      ]
    ]
  ]

module _ (u : Unicode) (db : Database) (w : DatabaseWellFormed db) where
  -- By the answer about the semester, the filter is the guard at the assignment's own semester.
  filter-Sees :
      (at : Moment) (actor : Actor) (code : Text) (semester : Semester) (a : AssignmentRow)
      (p : InstancePart) (s : Row)
      → by_code u at actor code db.semesters ≡ ok semester
      → Joined db a p s
      → s.code ≡ code
      → matches (assignment_visibility actor (state semester)) (subject p a)
        ≡ can_see_assignment actor (state (semester_from s)) (subject p a)
  filter-Sees at actor code semester a p s read j e =
      let (listed, _) =
        select-IsIn (λ x. x.id == p.semester_id) db.semesters s
          (part_with_semester_sound db a.instance_part_id p s j.joins).semester_found in
      let given =
        Every-IsIn (λ (r : Row). r.id ≢ nil_uuid) s db.semesters
          (each_semester (λ (r : Row). r.id ≢ nil_uuid) db.semesters w.semesters_given) listed in
      let same =
        by_code-listed u at actor code db.semesters s semester w.semesters_sound given read listed
          e in
      matches-assignment_visibility actor (state semester) (subject p a)
      ∙ ap (λ x. can_see_assignment actor (state x) (subject p a)) same

  pub list_iff :
      (at : Moment) (actor : Actor) (q : AssignmentQuery) (xs : List Assignment)
      → list u at actor q db ≡ ok xs
      → (x : Assignment)
      → IsIn x xs ↔ (
          (a : AssignmentRow) × (p : InstancePart) × (s : Row) × Joined db a p s
          × (s.code ≡ q.semester_code)
          × (narrows q p a ≡ true)
          × Sees actor p s a
          × (assignment_from p s a ≡ x))
  list_iff at actor q xs h x =
      let (known, one, (semester, read, is)) = answered_list u at actor q db xs h in
      let reads = assignments_of_iff db w q (assignment_visibility actor (state semester)) x in
      (
        λ i.
            let c = reads.0 (subst (IsIn x) (sym is) i) in
            let here = no_other q.semester_code c.semester one c.of_semester in
            (
              c.row,
              c.part,
              c.semester,
              c.joined,
              here,
              c.narrowed,
              sym (
                    filter-Sees at actor q.semester_code semester c.row c.part c.semester read
                      c.joined here)
                  ∙ c.matched,
              c.is_from,
            ),
        λ (a, p, s, j, here, narrow, sees, same). subst (IsIn x) is (
            reads.1 (record {
              row = a;
              part = p;
              semester = s;
              joined = j;
              of_semester = inr here;
              narrowed = narrow;
              matched = filter-Sees at actor q.semester_code semester a p s read j here ∙ sees;
              is_from = same;
            })),
      )
