-- ===== src/Store/Assignments/WellFormed.antt =====
-- internal/store/assignments.go: the constraints of the tables that the assignments are read from.
use tallox_go.Prelude.{Option, some, true, any, ◌==◌, nat_comparable, ◌≡◌, ◌≢◌}
use tallox_go.Principal.{Uuid, nil_uuid}
use tallox_go.Store.Semesters.{Row}
use tallox_go.Store.Rows.{Every, Pairs}
use tallox_go.Domain.Semesters.Invariant.{WellFormed as SemestersWellFormed}
use tallox_go.Store.Assignments.{InstancePart, AssignmentRow, Database, is_set, exactly_one, refers}

-- An id that the database gave is not `uuid.Nil`.
abbrev pub Given : Option Uuid → Type 0
Given id = id ≢ some nil_uuid

pub record PartSound (p : InstancePart) : Type 0 where
  pub id_given : p.id ≢ nil_uuid
  pub programme_given : p.programme_id ≢ nil_uuid
  pub group_given : Given p.subject_group_id

-- Exactly one assignee, and references that lead somewhere.
pub record AssignmentSound (db : Database) (a : AssignmentRow) : Type 0 where
  pub one_assignee : exactly_one (is_set a.person_id) (is_set a.teacher_id) ≡ true
  pub person_given : Given a.person_id
  pub id_not_nil : a.id ≢ nil_uuid
  pub of_part : any (λ (p : InstancePart). p.id == a.instance_part_id) db.parts ≡ true
  pub references : refers db a ≡ true

-- Two rows that the primary key and the unique index on the part allow beside each other.
abbrev pub Separate : AssignmentRow → AssignmentRow → Type 0
Separate a a' = (a.id ≢ a'.id) × (a.instance_part_id ≢ a'.instance_part_id)

pub record DatabaseWellFormed (db : Database) : Type 0 where
  pub semesters_sound : SemestersWellFormed db.semesters
  pub semesters_given : Every (λ (s : Row). s.id ≢ nil_uuid) db.semesters
  pub parts_sound : Every PartSound db.parts
  pub parts_apart : Pairs (λ (p p' : InstancePart). p.id ≢ p'.id) db.parts
  pub assignments_sound : Every (AssignmentSound db) db.assignments
  pub assignments_apart : Pairs Separate db.assignments
