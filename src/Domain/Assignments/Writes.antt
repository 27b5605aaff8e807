-- ===== src/Domain/Assignments/Writes.antt =====
-- internal/domain/assignmentservice.go: what the write of Set leaves, and nothing besides.
use mathlib.Core.Path.{subst}
use tallox_go.Prelude.{
  Text, List, ◌∷◌, Bool, true, ◌==◌, nat_comparable, nat_eq_iff, if◌then◌else◌, ◌≡◌, ◌≢◌, ◌⊎◌, ◌↔◌,
  inl, inr, refl, sym, ap, ◌∙◌, arith, Bool-cases,
}
use tallox_go.Prelude.Results.{err, ok}
use tallox_go.Principal.{Actor, Uuid, nil_uuid}
use tallox_go.Policy.Semester.{Time}
use tallox_go.Store.Semesters.{non_nil_uuid}
use tallox_go.Store.Rows.{
  IsIn, at_head, later, any_none, set_rows, set_rows_sound, IsIn-set_rows, changed,
  changed_property,
}
use tallox_go.Store.Assignments.{
  AssignmentRow, Database, Assignee, AssignmentError, new_row, replaced_row, with_assignments,
}
use tallox_go.Store.Assignments.WellFormed.{DatabaseWellFormed}
use tallox_go.Store.Assignments.Lookup.{same_part}
use tallox_go.Store.Assignments.Changes.{
  Free, Named, names_row, names_row_iff, fill_part_cases, replace_assignment_cases,
}
use tallox_go.Store.Assignments.Kept.{fill-DatabaseWellFormed, replace-DatabaseWellFormed}
use tallox_go.Domain.Assignments.{write_part}

changed_same :
    (p : AssignmentRow → Bool) (f : AssignmentRow → AssignmentRow) (a : AssignmentRow)
    → (p a ≡ true → ⊥)
    → changed p f a ≡ a
changed_same p f a h = elim (Bool-cases (p a)) [
  | inl hit ↦ absurd (h hit)
  | inr miss ↦ rw miss refl
]

-- A table of assignments after one of them was written: the row that stands on the part now, and every
-- row of another part as it was. Whoever held the part was named.
pub record Written (part : Uuid) (who : Assignee) (note : Text) (by replacing id : Uuid)
    (db : Database) (rows : List AssignmentRow) : Type 0 where
  pub sound : DatabaseWellFormed (with_assignments db rows)
  pub row : AssignmentRow
  pub stored : IsIn row rows
  pub row_id : row.id ≡ id
  pub row_part : row.instance_part_id ≡ part
  pub row_person : row.person_id ≡ non_nil_uuid who.person_id
  pub row_teacher : row.teacher_id ≡ non_nil_uuid who.teacher_id
  pub row_note : row.note ≡ note
  pub row_by : row.assigned_by ≡ non_nil_uuid by
  pub others : (a : AssignmentRow) → a.instance_part_id ≢ part → IsIn a db.assignments ↔ IsIn a rows
  pub holder_named :
      (a : AssignmentRow) → IsIn a db.assignments → a.instance_part_id ≡ part → a.id ≡ replacing

module _ (now : Time) (actor : Actor) (part : Uuid) (who : Assignee) (note : Text) (db : Database)
    (w : DatabaseWellFormed db) where
  filled-Written :
      (fresh replacing : Uuid)
      → fresh ≢ nil_uuid
      → Free now fresh part who note actor.id db
      → Written part who note actor.id replacing fresh db
          (new_row now fresh part who note actor.id ∷ db.assignments)
  filled-Written fresh replacing given f = record {
    sound = fill-DatabaseWellFormed now part who note actor.id db w fresh given f;
    row = new_row now fresh part who note actor.id;
    stored = at_head refl;
    row_id = refl;
    row_part = refl;
    row_person = refl;
    row_teacher = refl;
    row_note = refl;
    row_by = refl;
    others = λ a other. (
      λ i. later i,
      λ i. elim i [
        | at_head e ↦ absurd (other (sym (ap (λ y. y.instance_part_id) e)))
        | later j ↦ j
      ],
    );
    holder_named = λ a i e. absurd (
        ground (
          arith,
          any_none (λ (a : AssignmentRow). a.instance_part_id == part) db.assignments f.nobody a i,
          (nat_eq_iff a.instance_part_id part).1 e,
        ));
  }

  replaced-others :
      (replacing : Uuid) (a : AssignmentRow)
      → a.instance_part_id ≢ part
      → IsIn a db.assignments
        ↔ IsIn a (
            set_rows (names_row replacing part) (replaced_row now who note actor.id) db.assignments)
  replaced-others replacing a other =
      let p = names_row replacing part in
      let f = replaced_row now who note actor.id in
      (
        λ i.
            subst (λ x. IsIn x (set_rows p f db.assignments))
              (changed_same p f a (λ h. other (((names_row_iff replacing part a).0 h).1)))
              (IsIn-set_rows p f db.assignments a i),
        λ i.
            let (x, j, e) = set_rows_sound p f db.assignments a i in
            let of_x : x.instance_part_id ≡ (changed p f x).instance_part_id =
              changed_property (λ y. x.instance_part_id ≡ y.instance_part_id) p f x refl
                (λ _. refl) in
            let same_x = changed_same p f x (λ h. other (
              sym (ap (λ y. y.instance_part_id) e)
              ∙ sym of_x
              ∙ ((names_row_iff replacing part x).0 h).1)) in
            subst (λ y. IsIn y db.assignments) (sym same_x ∙ e) j,
      )

  replaced-Written :
      (replacing : Uuid) (a : AssignmentRow)
      → Named now part replacing who note actor.id db a
      → Written part who note actor.id replacing a.id db
          (set_rows (names_row replacing part) (replaced_row now who note actor.id) db.assignments)
  replaced-Written replacing a named =
      let p = names_row replacing part in
      let f = replaced_row now who note actor.id in
      let hit = (names_row_iff replacing part a).1 (named.is_named, named.of_part) in
      record {
        sound = replace-DatabaseWellFormed now part who note actor.id db w replacing a named;
        row = f a;
        stored =
            subst (λ b. IsIn (if b then f a else a) (set_rows p f db.assignments)) hit
              (IsIn-set_rows p f db.assignments a named.listed);
        row_id = refl;
        row_part = named.of_part;
        row_person = refl;
        row_teacher = refl;
        row_note = refl;
        row_by = refl;
        others = replaced-others replacing;
        holder_named = λ b i e.
            ap (λ y. y.id) (same_part db w b a i named.listed (e ∙ sym named.of_part))
            ∙ named.is_named;
      }

  -- The write of Set fails and leaves the tables, or has written the part.
  pub write_part_cases :
      (fresh replacing : Uuid)
      → fresh ≢ nil_uuid
      → ((e : AssignmentError) × (write_part now fresh actor part who note replacing db
            ≡ (err e, db)))
        ⊎ ((id : Uuid) × (rows : List AssignmentRow) × Written part who note actor.id replacing id
              db rows
            × (write_part now fresh actor part who note replacing db
                ≡ (ok id, with_assignments db rows)))
  unfolding write_part
  write_part_cases fresh replacing given = elim (Bool-cases (replacing == nil_uuid)) [
    | inl empty ↦ elim (fill_part_cases now part who note actor.id db fresh) [
      | inl (e, failed) ↦ inl (e, rw (write_part, empty) failed)
      | inr (free, done) ↦ inr (
        fresh,
        new_row now fresh part who note actor.id ∷ db.assignments,
        filled-Written fresh replacing given free,
        rw (write_part, empty) done,
      )
    ]
    | inr real ↦ elim (replace_assignment_cases now part who note actor.id db replacing) [
      | inl (e, failed) ↦ inl (e, rw (write_part, real) failed)
      | inr (a, named, done) ↦ inr (
        a.id,
        set_rows (names_row replacing part) (replaced_row now who note actor.id) db.assignments,
        replaced-Written replacing a named,
        rw (write_part, real) done,
      )
    ]
  ]
