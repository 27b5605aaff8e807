-- ===== src/Store/Assignments/Selected.antt =====
-- internal/store/assignments.go: what the list of a query holds.
use mathlib.Core.Option.{some-injective}
use tallox_go.Prelude.{
  Text, [], none, some, Bool, true, false, ◌&&◌, ◌==◌, nat_comparable, nat_eq_iff, text_comparable,
  text_eq_law, ◌≡◌, ◌⊎◌, ◌↔◌, inl, inr, refl, sym, ap, ◌∙◌, arith, Bool-cases, Option-cases,
}
use tallox_go.Policy.Assignment.{AssignmentFilter, matches}
use tallox_go.Store.Semesters.{Row, select}
use tallox_go.Store.Semesters.Apart.{select-IsIn, select_code, same_semester, AllApart}
use tallox_go.Store.Semesters.Apart
use tallox_go.Store.Rows.{IsIn}
use tallox_go.Store.Assignments.{
  InstancePart, AssignmentRow, Database, Assignment, AssignmentQuery, no_text, narrows, in_scope,
  assignment_filter_params, assignment_from, read, assignments_of,
}
use tallox_go.Store.Assignments.WellFormed.{DatabaseWellFormed}
use tallox_go.Store.Assignments.Reads.{Joined, subject, in_scope-matches, read_iff}
use tallox_go.Store.Assignments.Lookup.{part_with_semester_sound, sound_part, sound_row}

-- A query for no semester is one for all of them.
abbrev pub OfSemester : Text → Row → Type 0
OfSemester code s = (no_text code ≡ true) ⊎ (s.code ≡ code)

pub no_other : (code : Text) (s : Row) → no_text code ≡ false → OfSemester code s → s.code ≡ code
no_other code s one (inl all) = absurd (ground (arith, one, all))
no_other code s one (inr there) = there

-- The row of the query's semester behind an assignment that is selected.
pub record Selected (db : Database) (q : AssignmentQuery) (f : AssignmentFilter) (x : Assignment)
    : Type 0 where
  pub row : AssignmentRow
  pub part : InstancePart
  pub semester : Row
  pub joined : Joined db row part semester
  pub of_semester : OfSemester q.semester_code semester
  pub narrowed : narrows q part row ≡ true
  pub matched : matches f (subject part row) ≡ true
  pub is_from : assignment_from part semester row ≡ x

module _ (db : Database) (w : DatabaseWellFormed db) (q : AssignmentQuery)
    (f : AssignmentFilter) where
  by_filter :
      (a : AssignmentRow) (p : InstancePart) (s : Row)
      → Joined db a p s
      → in_scope (assignment_filter_params f) p a ≡ matches f (subject p a)
  by_filter a p s j =
      in_scope-matches f p a (sound_part db w a.instance_part_id p s j.joins)
        (sound_row db w a j.listed).person_given

  placed :
      (a : AssignmentRow) (p : InstancePart) (s : Row)
      → Joined db a p s
      → Apart.IsIn s db.semesters × (s.id ≡ p.semester_id)
  placed a p s j =
      let found = (part_with_semester_sound db a.instance_part_id p s j.joins).semester_found in
      let (listed, named) = select-IsIn (λ x. x.id == p.semester_id) db.semesters s found in
      (listed, (nat_eq_iff s.id p.semester_id).0 named)

  -- The condition of the read, beside that on the semester.
  abbrev wanted : InstancePart → AssignmentRow → Bool
  wanted p a = narrows q p a && in_scope (assignment_filter_params f) p a

  each_semester :
      no_text q.semester_code ≡ true → assignments_of q f db ≡ read db (λ p s a. wanted p a)
  unfolding assignments_of
  each_semester all = rw (assignments_of, all) refl

  one_semester :
      (r : Row)
      → no_text q.semester_code ≡ false
      → select (λ s. s.code == q.semester_code) db.semesters ≡ some r
      → assignments_of q f db ≡ read db (λ p s a. p.semester_id == r.id && wanted p a)
  unfolding assignments_of
  one_semester r one there = rw (assignments_of, one) (rw there refl)

  no_such_semester :
      no_text q.semester_code ≡ false
      → select (λ s. s.code == q.semester_code) db.semesters ≡ none
      → assignments_of q f db ≡ []
  unfolding assignments_of
  no_such_semester one missing = rw (assignments_of, one) (rw missing refl)

  selects :
      (x : Assignment) (a : AssignmentRow) (p : InstancePart) (s : Row)
      → Joined db a p s
      → OfSemester q.semester_code s
      → wanted p a ≡ true
      → assignment_from p s a ≡ x
      → Selected db q f x
  selects x a p s j there hit same = record {
    row = a;
    part = p;
    semester = s;
    joined = j;
    of_semester = there;
    narrowed = ground (arith, hit);
    matched = sym (by_filter a p s j) ∙ ground (arith, hit);
    is_from = same;
  }

  is_wanted : (x : Assignment) (c : Selected db q f x) → wanted c.part c.row ≡ true
  is_wanted x c = ground (arith, c.narrowed, by_filter c.row c.part c.semester c.joined, c.matched)

  -- The row of a code is the semester of a part exactly if the code is that semester's.
  code_iff :
      (a : AssignmentRow) (p : InstancePart) (s r : Row)
      → Joined db a p s
      → select (λ s. s.code == q.semester_code) db.semesters ≡ some r
      → ((p.semester_id == r.id) ≡ true) ↔ (s.code ≡ q.semester_code)
  code_iff a p s r j there =
      let (listed, coded) = select-IsIn (λ s. s.code == q.semester_code) db.semesters r there in
      let (listed', is_id) = placed a p s j in
      (
        λ h.
            ap (λ y. y.code)
              (same_semester db.semesters s r w.semesters_sound.apart listed' listed
                (is_id ∙ (nat_eq_iff p.semester_id r.id).0 h))
            ∙ (text_eq_law r.code q.semester_code).0 coded,
        λ h.
            let found = select_code db.semesters s w.semesters_sound.apart listed' in
            let same =
              some-injective _ _
                (sym found ∙ ap (λ c. select (λ x. x.code == c) db.semesters) h ∙ there) in
            (nat_eq_iff p.semester_id r.id).1 (sym is_id ∙ ap (λ y. y.id) same),
      )

  held_everywhere :
      (x : Assignment)
      → no_text q.semester_code ≡ true
      → IsIn x (assignments_of q f db) ↔ Selected db q f x
  held_everywhere x all =
      let reads = read_iff db (λ p s a. wanted p a) x in
      rw (each_semester all) (
        λ i. let (a, p, s, j, hit, same) = reads.0 i in selects x a p s j (inl all) hit same,
        λ c. reads.1 (c.row, c.part, c.semester, c.joined, is_wanted x c, c.is_from),
      )

  held_once_named :
      (x : Assignment) (r : Row)
      → no_text q.semester_code ≡ false
      → select (λ s. s.code == q.semester_code) db.semesters ≡ some r
      → IsIn x (assignments_of q f db) ↔ Selected db q f x
  held_once_named x r one there =
      let reads = read_iff db (λ p s a. p.semester_id == r.id && wanted p a) x in
      rw (one_semester r one there) (
        λ i.
            let (a, p, s, j, hit, same) = reads.0 i in
            selects x a p s j (inr ((code_iff a p s r j there).0 (ground (arith, hit))))
              (ground (arith, hit)) same,
        λ c.
            let here =
              (code_iff c.row c.part c.semester r c.joined there).1
                (no_other q.semester_code c.semester one c.of_semester) in
            reads.1
              (c.row, c.part, c.semester, c.joined, ground (arith, here, is_wanted x c), c.is_from),
      )

  held_nowhere :
      (x : Assignment)
      → no_text q.semester_code ≡ false
      → select (λ s. s.code == q.semester_code) db.semesters ≡ none
      → IsIn x (assignments_of q f db) ↔ Selected db q f x
  held_nowhere x one missing = rw (no_such_semester one missing) (
    λ i. elim i [ ],
    λ c.
        let (listed, is_id) = placed c.row c.part c.semester c.joined in
        let found = select_code db.semesters c.semester w.semesters_sound.apart listed in
        absurd (
          ground (
            arith,
            missing,
            found,
            no_other q.semester_code c.semester one c.of_semester,
            ap (λ t. select (λ x. x.code == t) db.semesters)
                (no_other q.semester_code c.semester one c.of_semester),
          )),
  )

  -- The list holds what the query and the filter let through, each with its own part and semester.
  pub assignments_of_iff : (x : Assignment) → IsIn x (assignments_of q f db) ↔ Selected db q f x
  assignments_of_iff x = elim (Bool-cases (no_text q.semester_code)) [
    | inl all ↦ held_everywhere x all
    | inr one ↦ elim (Option-cases (select (λ s. s.code == q.semester_code) db.semesters)) [
      | inl missing ↦ held_nowhere x one missing
      | inr (r, there) ↦ held_once_named x r one there
    ]
  ]
