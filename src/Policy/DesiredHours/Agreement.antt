-- ===== src/Policy/DesiredHours/Agreement.antt =====
-- The two forms of the rules on desired hours, on their notes and on the assigned load.
use tallox_go.Prelude.{List, [], ◌∷◌, Bool, true, false, ◌≡◌, refl, arith, any}
use tallox_go.Principal.{Actor, Uuid, authenticated, owns}
use tallox_go.Policy.IdScope.{id_scope_allows, id_scope_empty}
use tallox_go.Policy.IdScope.Laws.{not-allows_of_empty}
use tallox_go.Policy.SubjectGroup.{allows, empty, assignment_scope}
use tallox_go.Policy.Semester.{SemesterState}
use tallox_go.Policy.DesiredHours.{
  DesiredHours, AssignedLoad, matches, can_read_desired_hours_note, can_see_desired_hours,
  can_see_assigned_load, desired_hours_note_visibility, desired_hours_visibility,
  assigned_load_visibility,
}

any-allows_of_empty :
    (all : Bool) (ids members : List Uuid)
    → id_scope_empty all ids ≡ true
    → any (λ g. id_scope_allows all ids g) members ≡ false
any-allows_of_empty all ids [] h = refl
any-allows_of_empty all ids (g ∷ gs) h =
    ground (arith, not-allows_of_empty all ids g h, any-allows_of_empty all ids gs h)

-- The note's filter lets through exactly the notes that its guard shows.
pub matches-desired_hours_note_visibility :
    (a : Actor) (d : DesiredHours)
    → matches (desired_hours_note_visibility a) d ≡ can_read_desired_hours_note a d
unfolding matches desired_hours_note_visibility can_read_desired_hours_note authenticated owns
    allows empty
matches-desired_hours_note_visibility a d =
    ground
      (arith, any-allows_of_empty (assignment_scope a).all (assignment_scope a).ids d.member_of)

-- The same of the hours.
pub matches-desired_hours_visibility :
    (a : Actor) (s : SemesterState) (d : DesiredHours)
    → matches (desired_hours_visibility a s) d ≡ can_see_desired_hours a s d
unfolding matches desired_hours_visibility can_see_desired_hours authenticated owns allows empty
matches-desired_hours_visibility a s d =
    ground
      (arith, any-allows_of_empty (assignment_scope a).all (assignment_scope a).ids d.member_of)

-- The same of the assigned load.
pub matches-assigned_load_visibility :
    (a : Actor) (s : SemesterState) (l : AssignedLoad)
    → matches (assigned_load_visibility a s) l ≡ can_see_assigned_load a s l
unfolding matches assigned_load_visibility can_see_assigned_load authenticated owns allows empty
matches-assigned_load_visibility a s l =
    ground
      (arith, any-allows_of_empty (assignment_scope a).all (assignment_scope a).ids l.member_of)
