-- ===== src/Store/Assignments/Reads.antt =====
-- internal/store/assignments.go: what the two reads return, against the filter of the policy.
use mathlib.Core.Path.{subst}
use mathlib.Core.Option.{some-injective}
use tallox_go.Prelude.{
  List, Option, none, some, Bool, true, false, not, ◌&&◌, ◌||◌, ◌==◌, nat_comparable, nat_eq_iff,
  text_comparable, contains, if◌then◌else◌, ◌≡◌, ◌≢◌, ◌↔◌, inl, inr, refl, ap, arith, Bool-cases,
  Option-cases,
}
use tallox_go.Principal.{Uuid, nil_uuid}
use tallox_go.Policy.IdScope.{id_scope_allows}
use tallox_go.Policy.Assignment.{
  AssignmentFilter, AssignmentReadScope, nothing, own, own_or_scoped, everything, matches, holds,
}
use tallox_go.Policy.Assignment.{Assignment as Subject}
use tallox_go.Store.Semesters.{Row}
use tallox_go.Store.Rows.{IsIn, pick_rows_sound, pick_rows_complete}
use tallox_go.Store.Assignments.{
  InstancePart, AssignmentRow, Database, Assignment, uuid_or_nil, is_id, is_one_of, in_scope,
  assignment_filter_params, part_with_semester, assignment_from, shown_row, read,
}
use tallox_go.Store.Assignments.WellFormed.{Given, PartSound}

-- The row as the rules see it.
abbrev pub subject : InstancePart → AssignmentRow → Subject
subject p a = record {
  assignee_id = uuid_or_nil a.person_id;
  programme_id = p.programme_id;
  subject_group_id = uuid_or_nil p.subject_group_id;
}

not_nil : (x id : Uuid) → (x ≢ nil_uuid) → (x == id) ≡ (not (id == nil_uuid) && x == id)
not_nil x id h = ground (arith, h)

is_id-nil :
    (o : Option Uuid) (id : Uuid)
    → Given o
    → is_id o id ≡ (not (id == nil_uuid) && uuid_or_nil o == id)
is_id-nil none id g = ground (arith, nat_eq_iff nil_uuid id)
is_id-nil (some x) id g = not_nil x id (λ e. g (ap some e))

allows_given :
    (id : Uuid) (ids : List Uuid) → id ≢ nil_uuid → contains ids id ≡ id_scope_allows false ids id
unfolding id_scope_allows
allows_given id ids h = elim (Bool-cases (id == nil_uuid)) [
  | inl nil ↦ absurd (h ((nat_eq_iff id nil_uuid).0 nil))
  | inr real ↦ rw real refl
]

is_one_of-allows :
    (o : Option Uuid) (ids : List Uuid)
    → Given o
    → is_one_of o ids ≡ id_scope_allows false ids (uuid_or_nil o)
unfolding id_scope_allows
is_one_of-allows none ids g = refl
is_one_of-allows (some x) ids g = allows_given x ids (λ e. g (ap some e))

in_scope-scope :
    (scope : AssignmentReadScope) (id : Uuid) (ps gs : List Uuid) (p : InstancePart)
    (a : AssignmentRow)
    → PartSound p
    → Given a.person_id
    → let f : AssignmentFilter = record {
      scope = scope;
      assignee_id = id;
      programme_ids = ps;
      subject_group_ids = gs;
    } in
      in_scope (assignment_filter_params f) p a ≡ matches f (subject p a)
unfolding in_scope assignment_filter_params matches holds
in_scope-scope everything id ps gs p a sound given = refl
in_scope-scope nothing id ps gs p a sound given = refl
in_scope-scope own id ps gs p a sound given = ground (arith, is_id-nil a.person_id id given)
in_scope-scope own_or_scoped id ps gs p a sound given = λ i.
    is_id-nil a.person_id id given i
    || (allows_given p.programme_id ps sound.programme_given i
        || is_one_of-allows p.subject_group_id gs sound.group_given i)

-- The condition in the query is the filter of the policy.
pub in_scope-matches :
    (f : AssignmentFilter) (p : InstancePart) (a : AssignmentRow)
    → PartSound p
    → Given a.person_id
    → in_scope (assignment_filter_params f) p a ≡ matches f (subject p a)
in_scope-matches f p a =
    in_scope-scope f.scope f.assignee_id f.programme_ids f.subject_group_ids p a

-- An assignment of the table with its part and the semester.
pub record Joined (db : Database) (a : AssignmentRow) (p : InstancePart) (s : Row) : Type 0 where
  pub listed : IsIn a db.assignments
  pub joins : part_with_semester db a.instance_part_id ≡ some (p, s)

module _ (db : Database) (wanted : InstancePart → Row → AssignmentRow → Bool) where
  pub shown_row_iff :
      (a : AssignmentRow) (x : Assignment)
      → (shown_row db wanted a ≡ some x) ↔ (
          (p : InstancePart) × (s : Row) × (part_with_semester db a.instance_part_id ≡ some (p, s))
          × (wanted p s a ≡ true)
          × (assignment_from p s a ≡ x))
  unfolding shown_row
  shown_row_iff a x = (
    λ h. elim (Option-cases (part_with_semester db a.instance_part_id)) [
      | inl none_there ↦ absurd (ground (arith, none_there, h))
      | inr ((p, s), there) ↦
          let h' =
            subst
              (λ o.
                (elim o [
                  | none ↦ none
                  | some (p, s) ↦ if wanted p s a then some (assignment_from p s a) else none
                ])
                ≡ some x)
              there h in
          elim (Bool-cases (wanted p s a)) [
            | inl hit ↦ (
              p,
              s,
              there,
              hit,
              some-injective _ _
                  (subst (λ b. (if b then some (assignment_from p s a) else none) ≡ some x) hit h'),
            )
            | inr miss ↦ absurd (
                ground (
                  arith,
                  subst (λ b. (if b then some (assignment_from p s a) else none) ≡ some x) miss h',
                ))
          ]
    ],
    λ (p, s, there, hit, same). rw (shown_row, there) (rw hit (ap some same)),
  )

  -- What a read returns.
  pub read_iff :
      (x : Assignment)
      → IsIn x (read db wanted) ↔ (
          (a : AssignmentRow) × (p : InstancePart) × (s : Row) × Joined db a p s
          × (wanted p s a ≡ true)
          × (assignment_from p s a ≡ x))
  unfolding read
  read_iff x = (
    λ i.
        let (a, j, e) = pick_rows_sound (shown_row db wanted) db.assignments x i in
        let (p, s, joins, h, same) = (shown_row_iff a x).0 e in
        (a, p, s, record { listed = j; joins = joins }, h, same),
    λ (a, p, s, j, h, same).
        pick_rows_complete (shown_row db wanted) db.assignments a x j.listed
          ((shown_row_iff a x).1 (p, s, j.joins, h, same)),
  )
