-- ===== src/Domain/Assignments/Cleared.antt =====
-- internal/domain/assignmentservice.go: what Clear answers, and what it leaves.
use mathlib.Core.Path.{subst}
use tallox_go.Prelude.{
  Option, none, some, true, not, ◌==◌, nat_comparable, eq_self, any, if◌then◌else◌, ◌≡◌, ◌⊎◌, inl,
  inr, refl, sym, ap, ◌∙◌, Bool-cases, Option-cases,
}
use tallox_go.Principal.{Actor, Uuid, authenticated}
use tallox_go.Policy.Onlooker.{may_act_with_full_reach}
use tallox_go.Policy.Assignment.{can_see_assignment, assignment_visibility}
use tallox_go.Domain.Semesters.{state}
use tallox_go.Domain.Assignments.{clear, may_write}
use tallox_go.Domain.Assignments.Visible.{Sees, assignment_by_id-can_see, found_context}
use tallox_go.Store.Semesters.{Row, semester_from}
use tallox_go.Store.Rows.{any_some, keep_rows}
use tallox_go.Store.Assignments.{
  InstancePart, AssignmentRow, Database, Assignment, AssignmentError, assignment_not_found,
  no_context, found, assignment_from, with_assignments, assignment_write_context,
  write_context_from, assignment_by_id, clear_assignment,
}
use tallox_go.Store.Assignments.WellFormed.{DatabaseWellFormed}
use tallox_go.Store.Assignments.Reads.{Joined, subject}
use tallox_go.Store.Assignments.Lookup.{sound_part, assignment_write_context-Joined, row_behind}

-- The table without the assignment of an id.
abbrev pub without : Uuid → Database → Database
without id db =
    with_assignments db (keep_rows (λ (a : AssignmentRow). not (a.id == id)) db.assignments)

-- What somebody is answered about an assignment that they see.
abbrev pub clear_answer :
    Option AssignmentError → Uuid → Database → Option AssignmentError × Database
clear_answer (some e) id db = (some e, db)
clear_answer none id db = (none, without id db)

module _ (actor : Actor) (id : Uuid) (db : Database) (known : authenticated actor ≡ true)
    (reach : may_act_with_full_reach actor ≡ true) where
  unfound :
      assignment_write_context id db ≡ no_context
      → clear actor id db ≡ (some assignment_not_found, db)
  unfolding clear found
  unfound missing = rw (clear, known, reach, missing) refl

  unseen :
      found (assignment_write_context id db) ≡ true
      → assignment_by_id id
          (assignment_visibility actor (assignment_write_context id db).semester)
          db
        ≡ none
      → clear actor id db ≡ (some assignment_not_found, db)
  unfolding clear
  unseen there hidden = rw (clear, known, reach, there) (rw hidden refl)

  removes :
      (x : Assignment)
      → found (assignment_write_context id db) ≡ true
      → assignment_by_id id
          (assignment_visibility actor (assignment_write_context id db).semester)
          db
        ≡ some x
      → any (λ (a : AssignmentRow). a.id == id) db.assignments ≡ true
      → clear actor id db ≡ clear_answer (may_write actor (assignment_write_context id db)) id db
  unfolding clear clear_assignment
  removes x there shown listed =
      elim (Option-cases (may_write actor (assignment_write_context id db))) [
        | inr (e, barred) ↦ rw (clear, known, reach, there) (rw shown (rw barred refl))
        | inl may ↦ rw (clear, known, reach, there) (rw shown (rw may (rw listed refl)))
      ]

module _ (db : Database) (w : DatabaseWellFormed db) (actor : Actor) where
  clear-Joined :
      (a : AssignmentRow) (p : InstancePart) (s : Row)
      → authenticated actor ≡ true
      → may_act_with_full_reach actor ≡ true
      → Joined db a p s
      → clear actor a.id db ≡ (
          if can_see_assignment actor (state (semester_from s)) (subject p a)
          then clear_answer (may_write actor (write_context_from p s (some a.id))) a.id db
          else (some assignment_not_found, db))
  clear-Joined a p s known reach j =
      let context = assignment_write_context-Joined db w a p s j in
      let there =
        ap found context
        ∙ found_context db w p s a.id (some a.id)
            (sound_part db w a.instance_part_id p s j.joins) in
      let read =
        ap (λ c. assignment_by_id a.id (assignment_visibility actor c.semester) db) context
        ∙ assignment_by_id-can_see db w actor a p s (some a.id) j in
      elim (Bool-cases (can_see_assignment actor (state (semester_from s)) (subject p a))) [
        | inl sees ↦
            let shown = read ∙ ap (λ b. if b then some (assignment_from p s a) else none) sees in
            let answer = removes actor a.id db known reach (assignment_from p s a) there shown (
              any_some (λ (x : AssignmentRow). x.id == a.id) db.assignments a j.listed
                (eq_self a.id)) in
            rw sees (answer ∙ ap (λ c. clear_answer (may_write actor c) a.id db) context)
        | inr hidden ↦
            let gone = read ∙ ap (λ b. if b then some (assignment_from p s a) else none) hidden in
            rw hidden (unseen actor a.id db known reach there gone)
      ]

  -- Somebody with full reach who sees the assignment of an id is refused as the rule on writing says,
  -- with everything as it was, or else that assignment is removed and nothing besides; to anybody
  -- who does not see it the answer is the one for an id that is nobody's, and everything stays.
  pub clear_lem :
      (id : Uuid)
      → authenticated actor ≡ true
      → may_act_with_full_reach actor ≡ true
      → ((a : AssignmentRow) (p : InstancePart) (s : Row)
          → Joined db a p s
          → a.id ≡ id
          → Sees actor p s a
          → clear actor id db
            ≡ clear_answer (may_write actor (write_context_from p s (some id))) id db)
        × (((a : AssignmentRow) (p : InstancePart) (s : Row)
              → Joined db a p s
              → a.id ≡ id
              → Sees actor p s a
              → ⊥)
            → clear actor id db ≡ (some assignment_not_found, db))
  clear_lem id known reach = (
    λ a p s j e sees.
        subst
          (λ i.
            clear actor i db
            ≡ clear_answer (may_write actor (write_context_from p s (some i))) i db)
          e
          (clear-Joined a p s known reach j
            ∙ ap
                (λ b.
                  if b
                  then clear_answer (may_write actor (write_context_from p s (some a.id))) a.id db
                  else (some assignment_not_found, db))
                sees),
    λ nobody. elim (row_behind db w id) [
      | inl (missing, _) ↦ unfound actor id db known reach missing
      | inr (a, p, s, j, e) ↦
          elim (Bool-cases (can_see_assignment actor (state (semester_from s)) (subject p a))) [
            | inl sees ↦ absurd (nobody a p s j e sees)
            | inr hidden ↦
                subst (λ i. clear actor i db ≡ (some assignment_not_found, db)) e
                  (clear-Joined a p s known reach j
                    ∙ ap
                        (λ b.
                          if b
                          then clear_answer (may_write actor (write_context_from p s (some a.id)))
                              a.id db
                          else (some assignment_not_found, db))
                        hidden)
          ]
    ],
  )

  clear_answer_table :
      (o : Option AssignmentError) (id : Uuid)
      → ((clear_answer o id db).1 ≡ db) ⊎ ((clear_answer o id db).1 ≡ without id db)
  clear_answer_table none id = inr refl
  clear_answer_table (some e) id = inl refl

  pub clear_table :
      (id : Uuid) → ((clear actor id db).1 ≡ db) ⊎ ((clear actor id db).1 ≡ without id db)
  unfolding clear
  clear_table id = elim (Bool-cases (authenticated actor)) [
    | inr nobody ↦ inl (rw (clear, nobody) refl)
    | inl known ↦ elim (Bool-cases (may_act_with_full_reach actor)) [
      | inr narrow ↦ inl (rw (clear, known, narrow) refl)
      | inl reach ↦ elim (row_behind db w id) [
        | inl (missing, _) ↦ inl (ap (λ r. r.1) (unfound actor id db known reach missing))
        | inr (a, p, s, j, e) ↦
            elim (Bool-cases (can_see_assignment actor (state (semester_from s)) (subject p a))) [
              | inl sees ↦
                  subst (λ t. (t ≡ db) ⊎ (t ≡ without id db))
                    (sym (ap (λ r. r.1) ((clear_lem id known reach).0 a p s j e sees)))
                    (clear_answer_table (may_write actor (write_context_from p s (some id))) id)
              | inr hidden ↦
                  let here =
                    clear-Joined a p s known reach j
                    ∙ ap
                        (λ b.
                          if b
                          then clear_answer (may_write actor (write_context_from p s (some a.id)))
                              a.id db
                          else (some assignment_not_found, db))
                        hidden in
                  inl (subst (λ i. (clear actor i db).1 ≡ db) e (ap (λ r. r.1) here))
            ]
      ]
    ]
  ]
