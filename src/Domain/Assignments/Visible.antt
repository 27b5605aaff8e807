-- ===== src/Domain/Assignments/Visible.antt =====
-- internal/domain/assignmentservice.go: what ByID tells about an assignment.
use mathlib.Core.Path.{subst}
use tallox_go.Prelude.{
  Option, none, some, true, nat_comparable, nat_eq_iff, if◌then◌else◌, ◌≡◌, ◌⊎◌, ◌↔◌, inl, inr,
  refl, ap, ◌∙◌, arith, Bool-cases,
}
use tallox_go.Prelude.Results.{err, ok, ok_unique}
use tallox_go.Principal.{Actor, Uuid, nil_uuid, authenticated}
use tallox_go.Policy.Semester.{assignments_published}
use tallox_go.Policy.Assignment.{assignment_visibility, can_see_assignment}
use tallox_go.Policy.Assignment.{Assignment as Subject}
use tallox_go.Policy.Assignment.Agreement.{matches-assignment_visibility}
use tallox_go.Domain.Semesters.{state}
use tallox_go.Domain.Assignments.{by_id}
use tallox_go.Store.Semesters.{Row, semester_from}
use tallox_go.Store.Assignments.{
  InstancePart, AssignmentRow, Database, Assignment, assignment_not_found, no_context,
  assignment_from, found, assignment_by_id, assignment_write_context, write_context_from,
}
use tallox_go.Store.Assignments.WellFormed.{PartSound, DatabaseWellFormed}
use tallox_go.Store.Assignments.Reads.{Joined, subject}
use tallox_go.Store.Assignments.Lookup.{
  sound_part, assignment_write_context-Joined, assignment_by_id-matches, row_behind,
}

-- Whether somebody sees an assignment, by the state of its semester.
abbrev pub Sees : Actor → InstancePart → Row → AssignmentRow → Type 0
Sees actor p s a = can_see_assignment actor (state (semester_from s)) (subject p a) ≡ true

-- Of the semester the rule reads the publication alone, and that is in both states.
pub same_publication :
    (actor : Actor) (p : InstancePart) (s : Row) (o : Option Uuid) (x : Subject)
    → can_see_assignment actor (write_context_from p s o).semester x
      ≡ can_see_assignment actor (state (semester_from s)) x
unfolding can_see_assignment assignments_published state semester_from write_context_from
same_publication actor p s o x = refl

module _ (db : Database) (w : DatabaseWellFormed db) where
  pub found_context :
      (p : InstancePart) (s : Row) (id : Uuid) (o : Option Uuid)
      → PartSound p
      → found (write_context_from p s o) ≡ true
  unfolding found write_context_from
  found_context p s id o sound = ground (arith, sound.id_given, nat_eq_iff p.id nil_uuid)

  -- A row through the filter of somebody is what the guard shows.
  pub assignment_by_id-can_see :
      (actor : Actor) (a : AssignmentRow) (p : InstancePart) (s : Row) (o : Option Uuid)
      → Joined db a p s
      → assignment_by_id a.id (assignment_visibility actor (write_context_from p s o).semester) db
        ≡ (if can_see_assignment actor (state (semester_from s)) (subject p a)
            then some (assignment_from p s a)
            else none)
  assignment_by_id-can_see actor a p s o j =
      assignment_by_id-matches db w
        (assignment_visibility actor (write_context_from p s o).semester) a p s j
      ∙ ap (λ b. if b then some (assignment_from p s a) else none)
          (matches-assignment_visibility actor (write_context_from p s o).semester (subject p a)
            ∙ same_publication actor p s o (subject p a))

  by_id-Joined :
      (actor : Actor) (a : AssignmentRow) (p : InstancePart) (s : Row)
      → authenticated actor ≡ true
      → Joined db a p s
      → by_id actor a.id db ≡ (
          if can_see_assignment actor (state (semester_from s)) (subject p a)
          then ok (assignment_from p s a)
          else err assignment_not_found)
  unfolding by_id
  by_id-Joined actor a p s known j =
      let context = assignment_write_context-Joined db w a p s j in
      let there =
        found_context p s a.id (some a.id) (sound_part db w a.instance_part_id p s j.joins) in
      let read = assignment_by_id-can_see actor a p s (some a.id) j in
      elim (Bool-cases (can_see_assignment actor (state (semester_from s)) (subject p a))) [
        | inl sees ↦
            let shown = read ∙ ap (λ b. if b then some (assignment_from p s a) else none) sees in
            rw (by_id, known, context, there) (rw (shown, sees) refl)
        | inr hidden ↦
            let gone = read ∙ ap (λ b. if b then some (assignment_from p s a) else none) hidden in
            rw (by_id, known, context, there) (rw (gone, hidden) refl)
      ]

  by_id_missing :
      (actor : Actor) (id : Uuid)
      → authenticated actor ≡ true
      → assignment_write_context id db ≡ no_context
      → by_id actor id db ≡ err assignment_not_found
  unfolding by_id found
  by_id_missing actor id known missing = rw (by_id, known, missing) refl

  shown_only :
      (actor : Actor) (id : Uuid) (a : AssignmentRow) (p : InstancePart) (s : Row) (x : Assignment)
      → authenticated actor ≡ true
      → Joined db a p s
      → a.id ≡ id
      → Sees actor p s a
      → assignment_from p s a ≡ x
      → by_id actor id db ≡ ok x
  shown_only actor id a p s x known j e sees same =
      subst (λ y. by_id actor y db ≡ ok x) e
        (by_id-Joined actor a p s known j
          ∙ ap (λ b. if b then ok (assignment_from p s a) else err assignment_not_found) sees
          ∙ ap ok same)

  -- To somebody who is known, an assignment is answered exactly if they see it, with its own part and
  -- semester; whether an id is nobody's or the assignment is hidden, the answer is the same refusal.
  pub by_id_iff :
      (actor : Actor) (id : Uuid)
      → authenticated actor ≡ true
      → ((x : Assignment)
          → (by_id actor id db ≡ ok x) ↔ (
              (a : AssignmentRow) × (p : InstancePart) × (s : Row) × Joined db a p s
              × (a.id ≡ id)
              × Sees actor p s a
              × (assignment_from p s a ≡ x)))
        × ((by_id actor id db ≡ err assignment_not_found)
            ⊎ ((x : Assignment) × (by_id actor id db ≡ ok x)))
  by_id_iff actor id known = elim (row_behind db w id) [
    | inl (missing, nobody) ↦
        let refused = by_id_missing actor id known missing in
        (
          λ x. (
            λ h. absurd (ground (arith, refused, h)),
            λ (a, p, s, j, e, _, _). absurd (nobody a p s j e),
          ),
          inl refused,
        )
    | inr (a, p, s, j, e) ↦
        let answer =
          subst
            (λ y. by_id actor y db ≡ (
              if can_see_assignment actor (state (semester_from s)) (subject p a)
              then ok (assignment_from p s a)
              else err assignment_not_found))
            e (by_id-Joined actor a p s known j) in
        elim (Bool-cases (can_see_assignment actor (state (semester_from s)) (subject p a))) [
          | inl sees ↦
              let shown =
                answer
                ∙ ap (λ b. if b then ok (assignment_from p s a) else err assignment_not_found)
                    sees in
              (
                λ x. (
                  λ h. (
                    a,
                    p,
                    s,
                    j,
                    e,
                    sees,
                    ok_unique (by_id actor id db) (assignment_from p s a) x shown h,
                  ),
                  λ (a', p', s', j', e', sees', same).
                      shown_only actor id a' p' s' x known j' e' sees' same,
                ),
                inr (assignment_from p s a, shown),
              )
          | inr hidden ↦
              let refused =
                answer
                ∙ ap (λ b. if b then ok (assignment_from p s a) else err assignment_not_found)
                    hidden in
              (
                λ x. (
                  λ h. absurd (ground (arith, refused, h)),
                  λ (a', p', s', j', e', sees', same).
                      shown_only actor id a' p' s' x known j' e' sees' same,
                ),
                inl refused,
              )
        ]
  ]
