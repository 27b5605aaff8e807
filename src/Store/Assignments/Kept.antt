-- ===== src/Store/Assignments/Kept.antt =====
-- internal/store/assignments.go: the three writes keep the constraints of the tables.
use mathlib.Core.Option.{some-injective}
use tallox_go.Prelude.{
  Text, List, [], ◌∷◌, length, leb, Bool, true, not, ◌&&◌, ◌==◌, nat_comparable, nat_eq_iff, any,
  ◌≡◌, ◌≢◌, inl, inr, sym, arith, Bool-cases, both_true,
}
use tallox_go.Principal.{Uuid, nil_uuid}
use tallox_go.Policy.Semester.{Time}
use tallox_go.Store.Semesters.{non_nil_uuid}
use tallox_go.Store.Rows.{
  Every, Pairs, all_rows, Every_lookup, Every-keep_rows, Pairs-keep_rows, Every-set_rows,
  Pairs-set_rows, changed, changed_property, any_none, set_rows, keep_rows,
}
use tallox_go.Store.Assignments.{
  InstancePart, AssignmentRow, Database, Assignee, is_set, checked, refers, exactly_one, new_row,
  replaced_row, with_assignments, clear_assignment,
}
use tallox_go.Store.Assignments.WellFormed.{Given, AssignmentSound, Separate, DatabaseWellFormed}
use tallox_go.Store.Assignments.Changes.{Free, Named, names_row}

-- What a row refers to is not in the table of assignments.
still_sound :
    (db : Database) (rows : List AssignmentRow) (a : AssignmentRow)
    → AssignmentSound db a
    → AssignmentSound (with_assignments db rows) a
unfolding refers
still_sound db rows a h = record {
  one_assignee = h.one_assignee;
  person_given = h.person_given;
  id_not_nil = h.id_not_nil;
  of_part = h.of_part;
  references = h.references;
}

pub with_rows-DatabaseWellFormed :
    (db : Database) (rows : List AssignmentRow)
    → DatabaseWellFormed db
    → Every (AssignmentSound db) rows
    → Pairs Separate rows
    → DatabaseWellFormed (with_assignments db rows)
with_rows-DatabaseWellFormed db rows w sound apart = record {
  semesters_sound = w.semesters_sound;
  semesters_given = w.semesters_given;
  parts_sound = w.parts_sound;
  parts_apart = w.parts_apart;
  assignments_sound =
      all_rows (AssignmentSound (with_assignments db rows)) rows
        (λ a i. still_sound db rows a (Every_lookup (AssignmentSound db) a rows sound i));
  assignments_apart = apart;
}

any_weaker {ℓ} :
    {A : Type ℓ} (p q : A → Bool) (xs : List A) → any (λ x. p x && q x) xs ≡ true → any p xs ≡ true
any_weaker p q [] h = h
any_weaker p q (x ∷ xs) h = ground (arith, h, any_weaker p q xs)

non_nil-Given : (id : Uuid) → Given (non_nil_uuid id)
non_nil-Given id = elim (Bool-cases (id == nil_uuid)) [
  | inl nil ↦ rw nil (λ e. ground (arith, e))
  | inr real ↦
      rw real (λ e. ground (arith, real, (nat_eq_iff id nil_uuid).1 (some-injective _ _ e)))
]

any_part :
    (part : Uuid) (db : Database)
    → any (λ (p : InstancePart). p.id == part && not (is_set p.taught_by)) db.parts ≡ true
    → any (λ (p : InstancePart). p.id == part) db.parts ≡ true
any_part part db h =
    any_weaker (λ (p : InstancePart). p.id == part) (λ (p : InstancePart). not (is_set p.taught_by))
      db.parts h

checked_one :
    (a : AssignmentRow)
    → checked a ≡ true
    → exactly_one (is_set a.person_id) (is_set a.teacher_id) ≡ true
unfolding checked
checked_one a h =
    (both_true (exactly_one (is_set a.person_id) (is_set a.teacher_id)) (leb (length a.note) 500)
      h).0

module _ (now : Time) (part : Uuid) (who : Assignee) (note : Text) (by : Uuid) (db : Database)
    (w : DatabaseWellFormed db) where
  new_row-AssignmentSound :
      (fresh : Uuid)
      → fresh ≢ nil_uuid
      → Free now fresh part who note by db
      → AssignmentSound db (new_row now fresh part who note by)
  new_row-AssignmentSound fresh given f = record {
    one_assignee = checked_one (new_row now fresh part who note by) f.row_checked;
    person_given = non_nil-Given who.person_id;
    id_not_nil = given;
    of_part = any_part part db f.ours;
    references = f.row_refers;
  }

  pub fill-DatabaseWellFormed :
      (fresh : Uuid)
      → fresh ≢ nil_uuid
      → Free now fresh part who note by db
      → DatabaseWellFormed
          (with_assignments db (new_row now fresh part who note by ∷ db.assignments))
  fill-DatabaseWellFormed fresh given f =
      with_rows-DatabaseWellFormed db (new_row now fresh part who note by ∷ db.assignments) w
        (new_row-AssignmentSound fresh given f, w.assignments_sound)
        (
          all_rows (Separate (new_row now fresh part who note by)) db.assignments (λ a i. (
            λ e. ground (
              arith,
              any_none (λ (a : AssignmentRow). a.id == fresh) db.assignments f.unused a i,
              (nat_eq_iff a.id fresh).1 (sym e),
            ),
            λ e. ground (
              arith,
              any_none (λ (a : AssignmentRow). a.instance_part_id == part) db.assignments f.nobody a
                  i,
              (nat_eq_iff a.instance_part_id part).1 (sym e),
            ),
          )),
          w.assignments_apart,
        )

  replaced_row-AssignmentSound :
      (a b : AssignmentRow)
      → checked (replaced_row now who note by a) ≡ true
      → refers db (replaced_row now who note by a) ≡ true
      → AssignmentSound db b
      → AssignmentSound db (replaced_row now who note by b)
  unfolding refers
  replaced_row-AssignmentSound a b fit points sound = record {
    one_assignee = checked_one (replaced_row now who note by a) fit;
    person_given = non_nil-Given who.person_id;
    id_not_nil = sound.id_not_nil;
    of_part = sound.of_part;
    references = points;
  }

  pub replace-DatabaseWellFormed :
      (replacing : Uuid) (a : AssignmentRow)
      → Named now part replacing who note by db a
      → DatabaseWellFormed (
          with_assignments db
            (set_rows (names_row replacing part) (replaced_row now who note by) db.assignments))
  replace-DatabaseWellFormed replacing a named =
      let p = names_row replacing part in
      let f = replaced_row now who note by in
      with_rows-DatabaseWellFormed db (set_rows p f db.assignments) w
        (Every-set_rows (AssignmentSound db) (AssignmentSound db) p f db.assignments
          (λ b sound.
            changed_property (AssignmentSound db) p f b sound
              (λ _. replaced_row-AssignmentSound a b named.row_checked named.row_refers sound))
          w.assignments_sound)
        (Pairs-set_rows Separate p f db.assignments
          (λ r r' apart.
            changed_property (λ x. Separate x (changed p f r')) p f r
              (changed_property (λ x. Separate r x) p f r' apart (λ _. apart))
              (λ _. changed_property (λ x. Separate (f r) x) p f r' apart (λ _. apart)))
          w.assignments_apart)

pub clear_assignment-DatabaseWellFormed :
    (id : Uuid) (db : Database)
    → DatabaseWellFormed db
    → DatabaseWellFormed (clear_assignment id db).1
unfolding clear_assignment
clear_assignment-DatabaseWellFormed id db w =
    let keep = λ (a : AssignmentRow). not (a.id == id) in
    with_rows-DatabaseWellFormed db (keep_rows keep db.assignments) w
      (Every-keep_rows (AssignmentSound db) keep db.assignments w.assignments_sound)
      (Pairs-keep_rows Separate keep db.assignments w.assignments_apart)
