-- ===== src/Domain/Assignments/Invariant.antt =====
-- internal/domain/assignmentservice.go: what holds of the tables however the service is used.
use mathlib.Core.Path.{subst}
use tallox_go.Prelude.{Text, Unicode, List, [], ◌∷◌, ◌≢◌, inl, inr, sym, ap}
use tallox_go.Principal.{Actor, Uuid, nil_uuid}
use tallox_go.Policy.Semester.{Time}
use tallox_go.Domain.Assignments.{set, clear}
use tallox_go.Domain.Assignments.SetOutcome.{set_cases}
use tallox_go.Domain.Assignments.Cleared.{without, clear_table}
use tallox_go.Store.Assignments.{Database, Assignee, clear_assignment}
use tallox_go.Store.Assignments.WellFormed.{DatabaseWellFormed}
use tallox_go.Store.Assignments.Kept.{clear_assignment-DatabaseWellFormed}

-- A call that changes the table; a call of Set brings the id that the database would give a new row,
-- which is not `uuid.Nil`.
pub data Act : Type 0 where
  gives :
      (now : Time) (fresh : Uuid) → fresh ≢ nil_uuid → Actor → Uuid → Assignee → Text → Uuid → Act
  takes : Actor → Uuid → Act

module _ (u : Unicode) where
  unfoldable pub perform : List Act → Database → Database
  perform [] db = db
  perform (gives now fresh given actor part who note replacing ∷ acts) db =
      perform acts (set u now fresh actor part who note replacing db).1
  perform (takes actor id ∷ acts) db = perform acts (clear actor id db).1

set-DatabaseWellFormed :
    (u : Unicode) (now : Time) (fresh : Uuid) (actor : Actor) (part : Uuid) (who : Assignee)
    (note : Text) (replacing : Uuid) (db : Database)
    → fresh ≢ nil_uuid
    → DatabaseWellFormed db
    → DatabaseWellFormed (set u now fresh actor part who note replacing db).1
set-DatabaseWellFormed u now fresh actor part who note replacing db given w =
    elim (set_cases u now fresh actor part who note replacing db w given) [
      | inl (e, is) ↦ subst DatabaseWellFormed (sym (ap (λ r. r.1) is)) w
      | inr (x, rows, is, d) ↦ subst DatabaseWellFormed (sym (ap (λ r. r.1) is)) d.written.sound
    ]

without-DatabaseWellFormed :
    (id : Uuid) (db : Database) → DatabaseWellFormed db → DatabaseWellFormed (without id db)
unfolding clear_assignment
without-DatabaseWellFormed id db w = clear_assignment-DatabaseWellFormed id db w

clear-DatabaseWellFormed :
    (actor : Actor) (id : Uuid) (db : Database)
    → DatabaseWellFormed db
    → DatabaseWellFormed (clear actor id db).1
clear-DatabaseWellFormed actor id db w = elim (clear_table db w actor id) [
  | inl same ↦ subst DatabaseWellFormed (sym same) w
  | inr gone ↦ subst DatabaseWellFormed (sym gone) (without-DatabaseWellFormed id db w)
]

-- Whoever calls Set and Clear, in whatever order and with whatever answers, the tables stay
-- well-formed: a part has at most one assignment, ids are unique, every assignment has exactly one
-- assignee, and what it refers to is there.
pub perform-DatabaseWellFormed :
    (u : Unicode) (acts : List Act) (db : Database)
    → DatabaseWellFormed db
    → DatabaseWellFormed (perform u acts db)
unfolding perform
perform-DatabaseWellFormed u [] db w = w
perform-DatabaseWellFormed u (gives now fresh given actor part who note replacing ∷ acts) db w =
    perform-DatabaseWellFormed u acts (set u now fresh actor part who note replacing db).1
      (set-DatabaseWellFormed u now fresh actor part who note replacing db given w)
perform-DatabaseWellFormed u (takes actor id ∷ acts) db w =
    perform-DatabaseWellFormed u acts (clear actor id db).1 (clear-DatabaseWellFormed actor id db w)
