-- ===== src/Policy/Competence.antt =====
-- internal/policy/competence.go: who sees and states competences.
pub mod Agreement
use tallox_go.Prelude.{
  List, [], ◌∷◌, Bool, true, false, ◌&&◌, ◌||◌, not, if◌then◌else◌, ◌==◌, nat_comparable,
}
use tallox_go.Principal.{Actor, Uuid, nil_uuid, authenticated, owns, acts_with_full_reach}
use tallox_go.Policy.IdScope.{id_scope_allows}
use tallox_go.Policy.Programme
use tallox_go.Policy.Programme.{ProgrammeScope, planning_scope}
use tallox_go.Policy.SubjectGroup
use tallox_go.Policy.SubjectGroup.{SubjectGroupScope, assignment_scope}

pub record Competence : Type 0 where
  pub owner_id : Uuid
  pub programme_id : Uuid
  pub subject_group_id : Uuid

pub data CompetenceScope : Type 0 where
  nothing own own_or_scoped everything : CompetenceScope

pub record CompetenceFilter : Type 0 where
  pub scope : CompetenceScope
  pub owner_id : Uuid
  pub programme_ids : List Uuid
  pub subject_group_ids : List Uuid

filter_owns : CompetenceFilter → Competence → Bool
filter_owns f c = not (f.owner_id == nil_uuid) && c.owner_id == f.owner_id

match_scope : CompetenceScope → CompetenceFilter → Competence → Bool
match_scope everything f c = true
match_scope own f c = filter_owns f c
match_scope own_or_scoped f c =
    filter_owns f c
    || (id_scope_allows false f.programme_ids c.programme_id
        || id_scope_allows false f.subject_group_ids c.subject_group_id)
match_scope nothing f c = false

unfoldable pub matches : CompetenceFilter → Competence → Bool
unfolding match_scope filter_owns
matches f c = match_scope f.scope f c

unfoldable pub competence_read_scope : Actor → ProgrammeScope × SubjectGroupScope
competence_read_scope a = (planning_scope a, assignment_scope a)

unfoldable pub can_see_competence : Actor → Competence → Bool
unfolding competence_read_scope
can_see_competence a c =
    if not (authenticated a)
    then false
    else if owns a c.owner_id
    then true
    else if not (acts_with_full_reach a)
    then false
    else let (programmes, groups) = competence_read_scope a in
      Programme.allows programmes c.programme_id || SubjectGroup.allows groups c.subject_group_id

abbrev only_own : Actor → CompetenceFilter
only_own a = record { scope = own; owner_id = a.id; programme_ids = []; subject_group_ids = [] }

abbrev all_or_none : CompetenceScope → CompetenceFilter
all_or_none scope = record {
  scope = scope;
  owner_id = nil_uuid;
  programme_ids = [];
  subject_group_ids = [];
}

unfoldable pub competence_visibility : Actor → CompetenceFilter
unfolding competence_read_scope
competence_visibility a =
    if not (authenticated a)
    then all_or_none nothing
    else if not (acts_with_full_reach a)
    then only_own a
    else let (programmes, groups) = competence_read_scope a in
      if programmes.all || groups.all
      then all_or_none everything
      else if Programme.empty programmes && SubjectGroup.empty groups
      then only_own a
      else record {
        scope = own_or_scoped;
        owner_id = a.id;
        programme_ids = programmes.ids;
        subject_group_ids = groups.ids;
      }

unfoldable pub may_read_subject_group_competences : Actor → Uuid → Bool
unfolding competence_read_scope
may_read_subject_group_competences a subject_group_id =
    if not (authenticated a) || not (acts_with_full_reach a)
    then false
    else SubjectGroup.allows (competence_read_scope a).1 subject_group_id

unfoldable pub may_state_own_competence : Actor → Bool → Bool
may_state_own_competence a module_in_a_group_of_mine = authenticated a && module_in_a_group_of_mine

unfoldable pub may_state_competence_for_teacher : Actor → Uuid → Bool
may_state_competence_for_teacher a subject_group_id =
    authenticated a
    && (acts_with_full_reach a && SubjectGroup.allows (assignment_scope a) subject_group_id)
