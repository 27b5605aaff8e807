-- ===== src/Policy/DesiredHours.antt =====
-- internal/policy/desiredhours.go and assignedload.go: who sees, states and corrects desired
-- teaching hours, and who sees what somebody has been assigned.
pub mod Agreement
use tallox_go.Prelude.{
  List, [], ◌∷◌, Bool, true, false, ◌&&◌, ◌||◌, not, if◌then◌else◌, ◌==◌, nat_comparable, any,
}
use tallox_go.Principal.{Actor, Uuid, nil_uuid, authenticated, owns, acts_with_full_reach}
use tallox_go.Policy.Role.{deans_office, roles_of, has}
use tallox_go.Policy.IdScope.{id_scope_allows}
use tallox_go.Policy.Onlooker.{onlooker, may_act_with_full_reach}
use tallox_go.Policy.Phase.{Phase, phase_comparable}
use tallox_go.Policy.SubjectGroup.{allows, empty, assignment_scope}
use tallox_go.Policy.Semester.{
  SemesterState, assignments_published, desired_hours_published, desired_hours_frozen,
}
use tallox_go.Policy.Write.{WriteArea, may_write_in_phase}

-- `AssignedLoad` has the same two fields.
pub record DesiredHours : Type 0 where
  pub owner_id : Uuid
  pub member_of : List Uuid

abbrev pub AssignedLoad : Type 0
AssignedLoad = DesiredHours

pub data DesiredHoursScope : Type 0 where
  nothing own own_or_scoped everything : DesiredHoursScope

pub record DesiredHoursFilter : Type 0 where
  pub scope : DesiredHoursScope
  pub owner_id : Uuid
  pub subject_group_ids : List Uuid

filter_owns : DesiredHoursFilter → DesiredHours → Bool
filter_owns f d = not (f.owner_id == nil_uuid) && d.owner_id == f.owner_id

match_scope : DesiredHoursScope → DesiredHoursFilter → DesiredHours → Bool
match_scope everything f d = true
match_scope own f d = filter_owns f d
match_scope own_or_scoped f d =
    filter_owns f d || any (λ g. id_scope_allows false f.subject_group_ids g) d.member_of
match_scope nothing f d = false

unfoldable pub matches : DesiredHoursFilter → DesiredHours → Bool
unfolding match_scope filter_owns
matches f d = match_scope f.scope f d

-- The reach of whoever leads one of the groups, by `groups.All || slices.ContainsFunc(…)`.
leads_one_of : Actor → List Uuid → Bool
leads_one_of a member_of =
    let groups = assignment_scope a in groups.all || any (λ g. allows groups g) member_of

unfoldable pub can_read_desired_hours_note : Actor → DesiredHours → Bool
unfolding leads_one_of
can_read_desired_hours_note a d =
    if not (authenticated a)
    then false
    else if owns a d.owner_id
    then true
    else if not (acts_with_full_reach a)
    then false
    else leads_one_of a d.member_of

unfoldable pub can_see_desired_hours : Actor → SemesterState → DesiredHours → Bool
unfolding can_read_desired_hours_note
can_see_desired_hours a s d =
    if not (authenticated a)
    then false
    else if owns a d.owner_id
    then true
    else if onlooker a || not (acts_with_full_reach a)
    then false
    else if desired_hours_published s
    then true
    else can_read_desired_hours_note a d

unfoldable pub can_see_assigned_load : Actor → SemesterState → AssignedLoad → Bool
unfolding leads_one_of
can_see_assigned_load a s l =
    if not (authenticated a)
    then false
    else if owns a l.owner_id
    then true
    else if onlooker a || not (acts_with_full_reach a)
    then false
    else if assignments_published s
    then true
    else leads_one_of a l.member_of

abbrev only_own : Actor → DesiredHoursFilter
only_own a = record { scope = own; owner_id = a.id; subject_group_ids = [] }

abbrev all_or_none : DesiredHoursScope → DesiredHoursFilter
all_or_none scope = record { scope = scope; owner_id = nil_uuid; subject_group_ids = [] }

unfoldable pub desired_hours_note_visibility : Actor → DesiredHoursFilter
desired_hours_note_visibility a =
    if not (authenticated a)
    then all_or_none nothing
    else if not (acts_with_full_reach a)
    then only_own a
    else let groups = assignment_scope a in
      if groups.all
      then all_or_none everything
      else if empty groups
      then only_own a
      else record { scope = own_or_scoped; owner_id = a.id; subject_group_ids = groups.ids }

unfoldable pub desired_hours_visibility : Actor → SemesterState → DesiredHoursFilter
unfolding desired_hours_note_visibility
desired_hours_visibility a s =
    if not (authenticated a)
    then all_or_none nothing
    else if onlooker a || not (acts_with_full_reach a)
    then only_own a
    else if desired_hours_published s
    then all_or_none everything
    else desired_hours_note_visibility a

unfoldable pub assigned_load_visibility : Actor → SemesterState → DesiredHoursFilter
unfolding desired_hours_note_visibility
assigned_load_visibility a s =
    if not (authenticated a)
    then all_or_none nothing
    else if onlooker a || not (acts_with_full_reach a)
    then only_own a
    else if assignments_published s
    then all_or_none everything
    else desired_hours_note_visibility a

unfoldable pub may_state_desired_hours : Actor → SemesterState → Bool
may_state_desired_hours a s =
    authenticated a
    && (not (onlooker a)
        && (not (desired_hours_frozen s) && may_write_in_phase WriteArea.desired_hours s.phase a))

unfoldable pub may_correct_desired_hours : Actor → SemesterState → Bool
may_correct_desired_hours a s =
    may_act_with_full_reach a
    && (has (roles_of a) deans_office && (desired_hours_frozen s && not (s.phase == Phase.final)))
