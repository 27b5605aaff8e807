-- ===== src/Store/Assignments/Changes.antt =====
-- internal/store/assignments.go: what the three writes leave, on each of their branches.
use tallox_go.Prelude.{
  Text, ◌∷◌, Bool, true, false, not, ◌&&◌, ◌==◌, nat_comparable, nat_eq_iff, any, ◌≡◌, ◌⊎◌, ◌↔◌,
  inl, inr, refl, arith, Bool-cases, Option-cases,
}
use tallox_go.Prelude.Results.{err, ok}
use tallox_go.Principal.{Uuid}
use tallox_go.Policy.Semester.{Time}
use tallox_go.Store.Rows.{IsIn, find_row, find_row_sound, set_rows}
use tallox_go.Store.Assignments.{
  InstancePart, AssignmentRow, Database, Assignee, AssignmentError, assignment_moved_on,
  assignee_not_found, storing_failed, part_not_found, is_set, checked, refers, new_row,
  replaced_row, with_assignments, fill_part, replace_assignment, why_not_filled,
}

-- What a fill that succeeds has found.
pub record Free (now : Time) (fresh part : Uuid) (who : Assignee) (note : Text) (by : Uuid)
    (db : Database) : Type 0 where
  pub ours : any (λ (p : InstancePart). p.id == part && not (is_set p.taught_by)) db.parts ≡ true
  pub row_checked : checked (new_row now fresh part who note by) ≡ true
  pub nobody : any (λ (a : AssignmentRow). a.instance_part_id == part) db.assignments ≡ false
  pub unused : any (λ (a : AssignmentRow). a.id == fresh) db.assignments ≡ false
  pub row_refers : refers db (new_row now fresh part who note by) ≡ true

-- What a replacement that succeeds has found: the row that is named, on the part.
pub record Named (now : Time) (part replacing : Uuid) (who : Assignee) (note : Text) (by : Uuid)
    (db : Database) (a : AssignmentRow) : Type 0 where
  pub listed : IsIn a db.assignments
  pub is_named : a.id ≡ replacing
  pub of_part : a.instance_part_id ≡ part
  pub row_checked : checked (replaced_row now who note by a) ≡ true
  pub row_refers : refers db (replaced_row now who note by a) ≡ true

abbrev pub names_row : Uuid → Uuid → AssignmentRow → Bool
names_row replacing part a = a.id == replacing && a.instance_part_id == part

pub names_row_iff :
    (replacing part : Uuid) (a : AssignmentRow)
    → (names_row replacing part a ≡ true) ↔ ((a.id ≡ replacing) × (a.instance_part_id ≡ part))
names_row_iff replacing part a = (
  λ h. (
    (nat_eq_iff a.id replacing).0 (ground (arith, h)),
    (nat_eq_iff a.instance_part_id part).0 (ground (arith, h)),
  ),
  λ (e, e').
      ground (arith, (nat_eq_iff a.id replacing).1 e, (nat_eq_iff a.instance_part_id part).1 e'),
)

module _ (now : Time) (part : Uuid) (who : Assignee) (note : Text) (by : Uuid) (db : Database) where
  pub fill_part_cases :
      (fresh : Uuid)
      → ((e : AssignmentError) × (fill_part now fresh part who note by db ≡ (err e, db)))
        ⊎ (Free now fresh part who note by db
            × (fill_part now fresh part who note by db ≡ (
              ok fresh,
              with_assignments db (new_row now fresh part who note by ∷ db.assignments),
            )))
  unfolding fill_part
  fill_part_cases fresh =
      elim (Bool-cases
        (any (λ (p : InstancePart). p.id == part && not (is_set p.taught_by)) db.parts)) [
          | inr elsewhere ↦ inl (why_not_filled part db, rw (fill_part, elsewhere) refl)
          | inl ours ↦ elim (Bool-cases (checked (new_row now fresh part who note by))) [
            | inr unfit ↦ inl (storing_failed, rw (fill_part, ours, unfit) refl)
            | inl fit ↦
                elim (Bool-cases
                  (any (λ (a : AssignmentRow). a.instance_part_id == part) db.assignments)) [
                    | inl held ↦ inl (why_not_filled part db, rw (fill_part, ours, fit, held) refl)
                    | inr nobody ↦
                        elim (Bool-cases
                          (any (λ (a : AssignmentRow). a.id == fresh) db.assignments)) [
                            | inl taken ↦
                                inl (storing_failed, rw (fill_part, ours, fit, nobody, taken) refl)
                            | inr unused ↦
                                elim (Bool-cases (refers db (new_row now fresh part who note by))) [
                                  | inr dangling ↦ inl (
                                    part_not_found,
                                    rw (fill_part, ours, fit, nobody, unused, dangling) refl,
                                  )
                                  | inl points ↦ inr (
                                    record {
                                      ours = ours;
                                      row_checked = fit;
                                      nobody = nobody;
                                      unused = unused;
                                      row_refers = points;
                                    },
                                    rw (fill_part, ours, fit, nobody, unused, points) refl,
                                  )
                                ]
                          ]
                  ]
          ]
        ]

  pub replace_assignment_cases :
      (replacing : Uuid)
      → ((e : AssignmentError) × (replace_assignment now part replacing who note by db
            ≡ (err e, db)))
        ⊎ ((a : AssignmentRow) × Named now part replacing who note by db a
            × (replace_assignment now part replacing who note by db ≡ (
              ok a.id,
              with_assignments db (
                  set_rows
                    (names_row replacing part)
                    (replaced_row now who note by)
                    db.assignments),
            )))
  unfolding replace_assignment
  replace_assignment_cases replacing =
      elim (Option-cases (find_row (names_row replacing part) db.assignments)) [
        | inl missing ↦ inl (assignment_moved_on, rw (replace_assignment, missing) refl)
        | inr (a, there) ↦
            let (listed, named) =
              find_row_sound (names_row replacing part) db.assignments a there in
            elim (Bool-cases (checked (replaced_row now who note by a))) [
              | inr unfit ↦ inl (storing_failed, rw (replace_assignment, there) (rw unfit refl))
              | inl fit ↦ elim (Bool-cases (refers db (replaced_row now who note by a))) [
                | inr dangling ↦
                    inl
                      (assignee_not_found, rw (replace_assignment, there) (rw (fit, dangling) refl))
                | inl points ↦ inr (
                  a,
                  record {
                    listed = listed;
                    is_named = ((names_row_iff replacing part a).0 named).0;
                    of_part = ((names_row_iff replacing part a).0 named).1;
                    row_checked = fit;
                    row_refers = points;
                  },
                  rw (replace_assignment, there) (rw (fit, points) refl),
                )
              ]
            ]
      ]
