-- ===== src/Store/Assignments/Lookup.antt =====
-- internal/store/assignments.go: the row, the part and the semester behind an id.
use mathlib.Core.Path.{subst}
use mathlib.Core.Option.{some-injective}
use tallox_go.Prelude.{
  none, some, ◌&&◌, ◌==◌, nat_comparable, nat_eq_iff, text_comparable, eq_self, if◌then◌else◌, ◌≡◌,
  ◌≢◌, ◌⊎◌, inl, inr, refl, sym, ap, ◌∙◌, arith, Option-cases,
}
use tallox_go.Principal.{Uuid}
use tallox_go.Policy.Assignment.{AssignmentFilter, matches}
use tallox_go.Store.Semesters.{Row, select}
use tallox_go.Store.Rows.{
  IsIn, find_row, find_row_sound, find_row_only, not_found, Every_lookup, same_or_apart,
  first_of-pick_rows,
}
use tallox_go.Store.Assignments.{
  InstancePart, AssignmentRow, Database, no_context, in_scope, assignment_filter_params,
  part_with_semester, assignment_from, shown_row, read, assignment_by_id, assignment_write_context,
  write_context_from,
}
use tallox_go.Store.Assignments.WellFormed.{
  PartSound, AssignmentSound, Separate, DatabaseWellFormed,
}
use tallox_go.Store.Assignments.Reads.{Joined, subject, in_scope-matches, shown_row_iff}

-- A part and the semester that it is joined with.
pub record Placed (db : Database) (id : Uuid) (p : InstancePart) (s : Row) : Type 0 where
  pub part_listed : IsIn p db.parts
  pub part_id_is : p.id ≡ id
  pub semester_found : select (λ x. x.id == p.semester_id) db.semesters ≡ some s

joins_as :
    (db : Database) (id : Uuid) (q : InstancePart) (r : Row)
    → find_row (λ (p : InstancePart). p.id == id) db.parts ≡ some q
    → select (λ x. x.id == q.semester_id) db.semesters ≡ some r
    → part_with_semester db id ≡ some (q, r)
unfolding part_with_semester
joins_as db id q r there found = rw (part_with_semester, there) (rw found refl)

pub part_with_semester_sound :
    (db : Database) (id : Uuid) (p : InstancePart) (s : Row)
    → part_with_semester db id ≡ some (p, s)
    → Placed db id p s
unfolding part_with_semester
part_with_semester_sound db id p s h =
    elim (Option-cases (find_row (λ (p : InstancePart). p.id == id) db.parts)) [
      | inl missing ↦ absurd (ground (arith, missing, h))
      | inr (q, there) ↦ elim (Option-cases (select (λ x. x.id == q.semester_id) db.semesters)) [
        | inl no_semester ↦ absurd (ground (arith, there, no_semester, h))
        | inr (r, found) ↦
            let both = sym (joins_as db id q r there found) ∙ h in
            let same_part : q ≡ p = ap (λ x. x.0) (some-injective _ _ both) in
            let same_row : r ≡ s = ap (λ x. x.1) (some-injective _ _ both) in
            let (listed, named) =
              find_row_sound (λ (p : InstancePart). p.id == id) db.parts q there in
            record {
              part_listed = subst (λ x. IsIn x db.parts) same_part listed;
              part_id_is =
                  subst (λ (x : InstancePart). x.id ≡ id) same_part ((nat_eq_iff q.id id).0 named);
              semester_found =
                  subst
                    (λ (x : InstancePart).
                      select (λ y. y.id == x.semester_id) db.semesters ≡ some s)
                    same_part (found ∙ ap some same_row);
            }
      ]
    ]

module _ (db : Database) (w : DatabaseWellFormed db) where
  -- The primary key.
  pub same_id :
      (a a' : AssignmentRow)
      → IsIn a db.assignments
      → IsIn a' db.assignments
      → a.id ≡ a'.id
      → a ≡ a'
  same_id a a' i j e = elim (same_or_apart Separate a a' db.assignments w.assignments_apart i j) [
    | inl same ↦ same
    | inr (inl apart) ↦ absurd (apart.0 e)
    | inr (inr apart) ↦ absurd (apart.0 (sym e))
  ]

  pub same_part :
      (a a' : AssignmentRow)
      → IsIn a db.assignments
      → IsIn a' db.assignments
      → a.instance_part_id ≡ a'.instance_part_id
      → a ≡ a'
  same_part a a' i j e = elim (same_or_apart Separate a a' db.assignments w.assignments_apart i j) [
    | inl same ↦ same
    | inr (inl apart) ↦ absurd (apart.1 e)
    | inr (inr apart) ↦ absurd (apart.1 (sym e))
  ]

  pub sound_part :
      (id : Uuid) (p : InstancePart) (s : Row)
      → part_with_semester db id ≡ some (p, s)
      → PartSound p
  sound_part id p s h =
      Every_lookup PartSound p db.parts w.parts_sound
        (part_with_semester_sound db id p s h).part_listed

  pub sound_row : (a : AssignmentRow) → IsIn a db.assignments → AssignmentSound db a
  sound_row a i = Every_lookup (AssignmentSound db) a db.assignments w.assignments_sound i

  pub find_by_id :
      (a : AssignmentRow)
      → IsIn a db.assignments
      → find_row (λ (x : AssignmentRow). x.id == a.id) db.assignments ≡ some a
  find_by_id a i =
      find_row_only (λ (x : AssignmentRow). x.id == a.id) db.assignments a i (eq_self a.id)
        (λ x j e. same_id x a j i ((nat_eq_iff x.id a.id).0 e))

  pub assignment_write_context-Joined :
      (a : AssignmentRow) (p : InstancePart) (s : Row)
      → Joined db a p s
      → assignment_write_context a.id db ≡ write_context_from p s (some a.id)
  unfolding assignment_write_context
  assignment_write_context-Joined a p s j =
      rw (assignment_write_context, find_by_id a j.listed) (rw j.joins refl)

  -- A row by its id, through a filter.
  pub assignment_by_id-matches :
      (f : AssignmentFilter) (a : AssignmentRow) (p : InstancePart) (s : Row)
      → Joined db a p s
      → assignment_by_id a.id f db
        ≡ (if matches f (subject p a) then some (assignment_from p s a) else none)
  unfolding assignment_by_id read shown_row
  assignment_by_id-matches f a p s j =
      let wanted = λ (p : InstancePart) (s : Row) (x : AssignmentRow).
        x.id == a.id && in_scope (assignment_filter_params f) p x in
      first_of-pick_rows (shown_row db wanted) db.assignments a j.listed (λ x b k e.
        let (p', s', joins, hit, same) = (shown_row_iff db wanted x b).0 e in
        same_id x a k j.listed ((nat_eq_iff x.id a.id).0 (ground (arith, hit))))
      ∙ rw (shown_row, j.joins)
          (rw
            (
              eq_self a.id,
              in_scope-matches f p a (sound_part a.instance_part_id p s j.joins)
                  (sound_row a j.listed).person_given,
            )
            refl)

  -- Either a row with its part and semester stands behind an id, or its context is the zero value.
  pub row_behind :
      (id : Uuid)
      → ((assignment_write_context id db ≡ no_context)
          × ((a : AssignmentRow) (p : InstancePart) (s : Row) → Joined db a p s → a.id ≢ id))
        ⊎ ((a : AssignmentRow) × (p : InstancePart) × (s : Row) × Joined db a p s × (a.id ≡ id))
  unfolding assignment_write_context
  row_behind id =
      elim (Option-cases (find_row (λ (a : AssignmentRow). a.id == id) db.assignments)) [
        | inl missing ↦ inl (
          rw (assignment_write_context, missing) refl,
          λ a p s j e. ground (
            arith,
            not_found (λ (a : AssignmentRow). a.id == id) db.assignments missing a j.listed,
            (nat_eq_iff a.id id).1 e,
          ),
        )
        | inr (a, there) ↦
            let (listed, named) =
              find_row_sound (λ (a : AssignmentRow). a.id == id) db.assignments a there in
            let is_id : a.id ≡ id = (nat_eq_iff a.id id).0 named in
            elim (Option-cases (part_with_semester db a.instance_part_id)) [
              | inr ((p, s), joins) ↦
                  inr (a, p, s, record { listed = listed; joins = joins }, is_id)
              | inl unplaced ↦ inl (
                rw (assignment_write_context, there) (rw unplaced refl),
                λ a' p s j e.
                    let same = same_id a' a j.listed listed (e ∙ sym is_id) in
                    ground (
                      arith,
                      unplaced,
                      subst
                          (λ (x : AssignmentRow).
                            part_with_semester db x.instance_part_id ≡ some (p, s))
                          same j.joins,
                    ),
              )
            ]
      ]
