-- ===== src/Policy/Wish/Agreement.antt =====
-- The two forms of the wish rule.
use tallox_go.Prelude.{◌≡◌, arith}
use tallox_go.Principal.{Actor, authenticated, owns}
use tallox_go.Policy.IdScope.Laws.{id_scope_allows-all, not-allows_of_empty}
use tallox_go.Policy.Programme
use tallox_go.Policy.Programme.{planning_scope}
use tallox_go.Policy.SubjectGroup
use tallox_go.Policy.SubjectGroup.{assignment_scope}
use tallox_go.Policy.Semester.{SemesterState}
use tallox_go.Policy.Wish.{Wish, matches, can_see_wish, wish_visibility}

-- The filter lets through exactly the wishes that the guard shows, for every actor, semester and wish.
pub matches-wish_visibility :
    (a : Actor) (s : SemesterState) (w : Wish)
    → matches (wish_visibility a s) w ≡ can_see_wish a s w
unfolding matches wish_visibility can_see_wish authenticated owns Programme.allows
    SubjectGroup.allows Programme.empty SubjectGroup.empty
matches-wish_visibility a s w = ground (
  arith,
  id_scope_allows-all (planning_scope a).ids w.programme_id,
  id_scope_allows-all (assignment_scope a).ids w.subject_group_id,
  not-allows_of_empty (planning_scope a).all (planning_scope a).ids w.programme_id,
  not-allows_of_empty (assignment_scope a).all (assignment_scope a).ids w.subject_group_id,
)
