-- ===== src/Domain/Assignments/Own.antt =====
-- internal/domain/assignmentservice.go: what Mine returns.
use mathlib.Core.Path.{subst}
use mathlib.Core.Option.{some-injective}
use tallox_go.Prelude.{
  Text, Unicode, List, [], ◌∷◌, Option, none, some, true, false, ◌==◌, nat_comparable, nat_eq_iff,
  text_comparable, ◌≡◌, ◌≢◌, ◌↔◌, inl, inr, refl, sym, ap, ◌∙◌, arith, Bool-cases,
}
use tallox_go.Prelude.Results.{err, ok, ok_unique}
use tallox_go.Principal.{Actor, Uuid, nil_uuid, authenticated, owns}
use tallox_go.Policy.Assignment.{AssignmentFilter, own, can_see_assignment, matches, holds}
use tallox_go.Domain.Calendar.{Moment}
use tallox_go.Domain.Assignments.{list, mine, all_of_semester}
use tallox_go.Domain.Assignments.Visible.{Sees}
use tallox_go.Store.Semesters.{Row}
use tallox_go.Store.Rows.{IsIn}
use tallox_go.Store.Assignments.{
  InstancePart, AssignmentRow, Database, Assignment, not_authenticated, no_text, narrows, is_id,
  assignment_from, assignments_of,
}
use tallox_go.Store.Assignments.WellFormed.{DatabaseWellFormed}
use tallox_go.Store.Assignments.Reads.{Joined, subject}
use tallox_go.Store.Assignments.Selected.{OfSemester, no_other, assignments_of_iff}
use tallox_go.Domain.Assignments.Listed.{list_iff}

-- A filter for what somebody holds themselves.
abbrev own_rows : Uuid → AssignmentFilter
own_rows id = record { scope = own; assignee_id = id; programme_ids = []; subject_group_ids = [] }

is_id_iff : (o : Option Uuid) (id : Uuid) → (is_id o id ≡ true) ↔ (o ≡ some id)
is_id_iff none id = (λ h. absurd (ground (arith, h)), λ h. absurd (ground (arith, h)))
is_id_iff (some x) id =
    (λ h. ap some ((nat_eq_iff x id).0 h), λ h. (nat_eq_iff x id).1 (some-injective _ _ h))

narrows-own :
    (code : Text) (id : Uuid) (p : InstancePart) (a : AssignmentRow)
    → id ≢ nil_uuid
    → narrows (all_of_semester code id) p a ≡ is_id a.person_id id
narrows-own code id p a h = elim (Bool-cases (id == nil_uuid)) [
  | inl nil ↦ absurd (h ((nat_eq_iff id nil_uuid).0 nil))
  | inr real ↦ rw real refl
]

-- Whoever is known sees what they hold, whatever the state of the semester.
own_seen :
    (actor : Actor) (p : InstancePart) (s : Row) (a : AssignmentRow)
    → actor.id ≢ nil_uuid
    → a.person_id ≡ some actor.id
    → Sees actor p s a
unfolding can_see_assignment authenticated owns
own_seen actor p s a h e = rw e (ground (arith, nat_eq_iff actor.id nil_uuid))

matches-own_rows :
    (id : Uuid) (p : InstancePart) (a : AssignmentRow)
    → id ≢ nil_uuid
    → a.person_id ≡ some id
    → matches (own_rows id) (subject p a) ≡ true
unfolding matches holds
matches-own_rows id p a h e = rw e (ground (arith, nat_eq_iff id nil_uuid))

blank_text : (t : Text) → no_text t ≡ true → t ≡ []
blank_text [] h = refl
blank_text (c ∷ t) h = absurd (ground (arith, h))

module _ (u : Unicode) (db : Database) (w : DatabaseWellFormed db) where
  abbrev pub Holds : Actor → Text → Assignment → Type 0
  Holds actor code x =
      (a : AssignmentRow) × (p : InstancePart) × (s : Row) × Joined db a p s
      × OfSemester code s
      × (a.person_id ≡ some actor.id)
      × (assignment_from p s a ≡ x)

  held_of_one :
      (at : Moment) (actor : Actor) (code : Text) (xs : List Assignment)
      → actor.id ≢ nil_uuid
      → no_text code ≡ false
      → list u at actor (all_of_semester code actor.id) db ≡ ok xs
      → (x : Assignment) → IsIn x xs ↔ Holds actor code x
  held_of_one at actor code xs known one h x =
      let listed = list_iff u db w at actor (all_of_semester code actor.id) xs h x in
      (
        λ i.
            let (a, p, s, j, here, narrow, _, same) = listed.0 i in
            (
              a,
              p,
              s,
              j,
              inr here,
              (is_id_iff a.person_id actor.id).0
                  (sym (narrows-own code actor.id p a known) ∙ narrow),
              same,
            ),
        λ (a, p, s, j, here, mine_too, same). listed.1 (
          a,
          p,
          s,
          j,
          no_other code s one here,
          narrows-own code actor.id p a known ∙ (is_id_iff a.person_id actor.id).1 mine_too,
          own_seen actor p s a known mine_too,
          same,
        ),
      )

  held_anywhere :
      (actor : Actor)
      → actor.id ≢ nil_uuid
      → (x : Assignment)
      → IsIn x (assignments_of (all_of_semester [] actor.id) (own_rows actor.id) db)
        ↔ Holds actor [] x
  held_anywhere actor known x =
      let reads = assignments_of_iff db w (all_of_semester [] actor.id) (own_rows actor.id) x in
      (
        λ i.
            let c = reads.0 i in
            (
              c.row,
              c.part,
              c.semester,
              c.joined,
              inl refl,
              (is_id_iff c.row.person_id actor.id).0
                  (sym (narrows-own [] actor.id c.part c.row known) ∙ c.narrowed),
              c.is_from,
            ),
        λ (a, p, s, j, here, mine_too, same). reads.1 (record {
          row = a;
          part = p;
          semester = s;
          joined = j;
          of_semester = inl refl;
          narrowed =
              narrows-own [] actor.id p a known ∙ (is_id_iff a.person_id actor.id).1 mine_too;
          matched = matches-own_rows actor.id p a known mine_too;
          is_from = same;
        }),
      )

  pub mine_iff :
      (at : Moment) (actor : Actor) (code : Text) (xs : List Assignment)
      → mine u at actor code db ≡ ok xs
      → (x : Assignment) → IsIn x xs ↔ Holds actor code x
  unfolding mine authenticated
  mine_iff at actor code xs h x = elim (Bool-cases (actor.id == nil_uuid)) [
    | inl nil ↦
        let refused : mine u at actor code db ≡ err not_authenticated = rw (mine, nil) refl in
        absurd (ground (arith, refused, h))
    | inr real ↦
        let known : actor.id ≢ nil_uuid =
          λ e. ground (arith, real, (nat_eq_iff actor.id nil_uuid).1 e) in
        elim (Bool-cases (no_text code)) [
          | inr one ↦
              let answer : mine u at actor code db
                  ≡ list u at actor (all_of_semester code actor.id) db =
                rw (mine, real, one) refl in
              held_of_one at actor code xs known one (sym answer ∙ h) x
          | inl all ↦
              let blank = blank_text code all in
              let answer : mine u at actor [] db
                  ≡ ok (assignments_of (all_of_semester [] actor.id) (own_rows actor.id) db) =
                rw (mine, real) refl in
              let is =
                ok_unique (mine u at actor [] db) _ xs answer
                  (subst (λ c. mine u at actor c db ≡ ok xs) blank h) in
              subst (λ c. IsIn x xs ↔ Holds actor c x) (sym blank)
                (subst (λ ys. IsIn x ys ↔ Holds actor [] x) is (held_anywhere actor known x))
        ]
  ]
