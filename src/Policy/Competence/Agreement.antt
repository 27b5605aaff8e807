-- ===== src/Policy/Competence/Agreement.antt =====
-- The two forms of the rule on competences.
use tallox_go.Prelude.{◌≡◌, arith}
use tallox_go.Principal.{Actor, authenticated, owns}
use tallox_go.Policy.IdScope.Laws.{id_scope_allows-all, not-allows_of_empty}
use tallox_go.Policy.Programme
use tallox_go.Policy.Programme.{planning_scope}
use tallox_go.Policy.SubjectGroup
use tallox_go.Policy.SubjectGroup.{assignment_scope}
use tallox_go.Policy.Competence.{Competence, matches, can_see_competence, competence_visibility}

-- The filter lets through exactly the competences that the guard shows.
pub matches-competence_visibility :
    (a : Actor) (c : Competence) → matches (competence_visibility a) c ≡ can_see_competence a c
unfolding matches competence_visibility can_see_competence authenticated owns Programme.allows
    SubjectGroup.allows Programme.empty SubjectGroup.empty
matches-competence_visibility a c = ground (
  arith,
  id_scope_allows-all (planning_scope a).ids c.programme_id,
  id_scope_allows-all (assignment_scope a).ids c.subject_group_id,
  not-allows_of_empty (planning_scope a).all (planning_scope a).ids c.programme_id,
  not-allows_of_empty (assignment_scope a).all (assignment_scope a).ids c.subject_group_id,
)
