-- ===== src/Policy/Wish.antt =====
-- internal/policy/wish.go: who sees a wish, as a guard on one record and as a filter for a query.
pub mod Agreement
use tallox_go.Prelude.{
  List, [], ◌∷◌, Bool, true, false, ◌&&◌, ◌||◌, not, if◌then◌else◌, ◌==◌, nat_comparable,
}
use tallox_go.Principal.{Actor, Uuid, nil_uuid, authenticated, owns, acts_with_full_reach}
use tallox_go.Policy.IdScope.{id_scope_allows}
use tallox_go.Policy.Onlooker.{onlooker}
use tallox_go.Policy.Programme
use tallox_go.Policy.Programme.{ProgrammeScope, planning_scope}
use tallox_go.Policy.SubjectGroup
use tallox_go.Policy.SubjectGroup.{SubjectGroupScope, assignment_scope}
use tallox_go.Policy.Semester.{SemesterState, wishes_published, zero_state}

pub record Wish : Type 0 where
  pub owner_id : Uuid
  pub programme_id : Uuid
  pub subject_group_id : Uuid

pub data WishScope : Type 0 where
  nothing own own_or_scoped everything : WishScope

pub record WishFilter : Type 0 where
  pub scope : WishScope
  pub owner_id : Uuid
  pub programme_ids : List Uuid
  pub subject_group_ids : List Uuid

unfoldable pub filter_owns : WishFilter → Wish → Bool
filter_owns f w = not (f.owner_id == nil_uuid) && w.owner_id == f.owner_id

match_scope : WishScope → WishFilter → Wish → Bool
match_scope everything f w = true
match_scope own f w = filter_owns f w
match_scope own_or_scoped f w =
    filter_owns f w
    || (id_scope_allows false f.programme_ids w.programme_id
        || id_scope_allows false f.subject_group_ids w.subject_group_id)
match_scope nothing f w = false

unfoldable pub matches : WishFilter → Wish → Bool
unfolding match_scope filter_owns
matches f w = match_scope f.scope f w

unfoldable pub unpublished_wish_scope : Actor → ProgrammeScope × SubjectGroupScope
unpublished_wish_scope a = (planning_scope a, assignment_scope a)

unfoldable pub can_see_wish : Actor → SemesterState → Wish → Bool
unfolding unpublished_wish_scope
can_see_wish a s w =
    if not (authenticated a)
    then false
    else if owns a w.owner_id
    then true
    else if onlooker a
    then false
    else if wishes_published s
    then true
    else if not (acts_with_full_reach a)
    then false
    else let (programmes, groups) = unpublished_wish_scope a in
      Programme.allows programmes w.programme_id || SubjectGroup.allows groups w.subject_group_id

unfoldable pub can_read_wish_details : Actor → Wish → Bool
unfolding can_see_wish
can_read_wish_details a w = can_see_wish a zero_state w

abbrev only_own : Actor → WishFilter
only_own a = record { scope = own; owner_id = a.id; programme_ids = []; subject_group_ids = [] }

-- The fields that a composite literal leaves out are zero.
abbrev all_or_none : WishScope → WishFilter
all_or_none scope = record {
  scope = scope;
  owner_id = nil_uuid;
  programme_ids = [];
  subject_group_ids = [];
}

unfoldable pub wish_visibility : Actor → SemesterState → WishFilter
unfolding unpublished_wish_scope
wish_visibility a s =
    if not (authenticated a)
    then all_or_none nothing
    else if onlooker a
    then only_own a
    else if wishes_published s
    then all_or_none everything
    else if not (acts_with_full_reach a)
    then only_own a
    else let (programmes, groups) = unpublished_wish_scope a in
      if programmes.all || groups.all
      then all_or_none everything
      else if Programme.empty programmes && SubjectGroup.empty groups
      then only_own a
      else record {
        scope = own_or_scoped;
        owner_id = a.id;
        programme_ids = programmes.ids;
        subject_group_ids = groups.ids;
      }
