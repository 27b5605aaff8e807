-- ===== src/Policy/Assignment.antt =====
-- internal/policy/assignment.go: who sees an assignment, as a guard and as a filter.
pub mod Agreement
pub mod Writers
use tallox_go.Prelude.{
  List, [], ◌∷◌, Bool, true, false, ◌&&◌, ◌||◌, not, if◌then◌else◌, ◌==◌, nat_comparable,
}
use tallox_go.Principal.{Actor, Uuid, nil_uuid, authenticated, owns, acts_with_full_reach}
use tallox_go.Policy.IdScope.{id_scope_allows}
use tallox_go.Policy.Onlooker.{partner_only}
use tallox_go.Policy.Programme
use tallox_go.Policy.Programme.{ProgrammeScope, planning_scope, demand_read_scope}
use tallox_go.Policy.SubjectGroup
use tallox_go.Policy.SubjectGroup.{SubjectGroupScope, assignment_scope}
use tallox_go.Policy.Semester.{SemesterState, assignments_published}

-- The assignee is nil for somebody without an account.
pub record Assignment : Type 0 where
  pub assignee_id : Uuid
  pub programme_id : Uuid
  pub subject_group_id : Uuid

pub data AssignmentReadScope : Type 0 where
  nothing own own_or_scoped everything : AssignmentReadScope

pub record AssignmentFilter : Type 0 where
  pub scope : AssignmentReadScope
  pub assignee_id : Uuid
  pub programme_ids : List Uuid
  pub subject_group_ids : List Uuid

unfoldable pub holds : AssignmentFilter → Assignment → Bool
holds f a = not (f.assignee_id == nil_uuid) && a.assignee_id == f.assignee_id

match_scope : AssignmentReadScope → AssignmentFilter → Assignment → Bool
match_scope everything f a = true
match_scope own f a = holds f a
match_scope own_or_scoped f a =
    holds f a
    || (id_scope_allows false f.programme_ids a.programme_id
        || id_scope_allows false f.subject_group_ids a.subject_group_id)
match_scope nothing f a = false

unfoldable pub matches : AssignmentFilter → Assignment → Bool
unfolding match_scope holds
matches f a = match_scope f.scope f a

covers_scope : AssignmentReadScope → AssignmentFilter → Uuid → Bool
covers_scope everything f programme_id = true
covers_scope own_or_scoped f programme_id = id_scope_allows false f.programme_ids programme_id
covers_scope _ f programme_id = false

unfoldable pub covers_programme : AssignmentFilter → Uuid → Bool
unfolding covers_scope
covers_programme f programme_id = covers_scope f.scope f programme_id

unfoldable pub unpublished_assignment_scope : Actor → ProgrammeScope × SubjectGroupScope
unpublished_assignment_scope a = (planning_scope a, assignment_scope a)

unfoldable pub can_see_assignment : Actor → SemesterState → Assignment → Bool
unfolding unpublished_assignment_scope
can_see_assignment actor s a =
    if not (authenticated actor)
    then false
    else if owns actor a.assignee_id
    then true
    else if partner_only actor
    then assignments_published s && Programme.allows (demand_read_scope actor) a.programme_id
    else if assignments_published s
    then true
    else if not (acts_with_full_reach actor)
    then false
    else let (programmes, groups) = unpublished_assignment_scope actor in
      Programme.allows programmes a.programme_id || SubjectGroup.allows groups a.subject_group_id

abbrev only_own : Actor → AssignmentFilter
only_own a = record { scope = own; assignee_id = a.id; programme_ids = []; subject_group_ids = [] }

-- The fields that a composite literal leaves out are zero.
abbrev all_or_none : AssignmentReadScope → AssignmentFilter
all_or_none scope = record {
  scope = scope;
  assignee_id = nil_uuid;
  programme_ids = [];
  subject_group_ids = [];
}

partner_visibility : Actor → SemesterState → AssignmentFilter
partner_visibility actor s =
    if not (assignments_published s)
    then only_own actor
    else let programmes = demand_read_scope actor in
      if Programme.empty programmes then only_own actor else record {
        scope = own_or_scoped;
        assignee_id = actor.id;
        programme_ids = programmes.ids;
        subject_group_ids = [];
      }

unfoldable pub assignment_visibility : Actor → SemesterState → AssignmentFilter
unfolding unpublished_assignment_scope partner_visibility
assignment_visibility actor s =
    if not (authenticated actor)
    then all_or_none nothing
    else if partner_only actor
    then partner_visibility actor s
    else if assignments_published s
    then all_or_none everything
    else if not (acts_with_full_reach actor)
    then only_own actor
    else let (programmes, groups) = unpublished_assignment_scope actor in
      if programmes.all || groups.all
      then all_or_none everything
      else if Programme.empty programmes && SubjectGroup.empty groups
      then only_own actor
      else record {
        scope = own_or_scoped;
        assignee_id = actor.id;
        programme_ids = programmes.ids;
        subject_group_ids = groups.ids;
      }
