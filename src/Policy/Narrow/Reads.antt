-- ===== src/Policy/Narrow/Reads.antt =====
-- What narrowing does to what an actor reads and writes.
use tallox_go.Prelude.{List, [], ◌∷◌, true, false, ◌≡◌, refl, arith, contains, any}
use tallox_go.Principal.{
  Actor, Uuid, authenticated, owns, acts_with_full_reach, is_interactive_actor,
}
use tallox_go.Policy.Role.{
  Role, role_comparable, deans_office, partner_reader, observer, admin, roles_of, has,
}
use tallox_go.Policy.Onlooker.{
  partner_only, observer_only, onlooker, may_act_with_full_reach, may_read_interactive_only,
}
use tallox_go.Policy.Programme.{may_plan_programme}
use tallox_go.Policy.SubjectGroup.{may_act_in_subject_group}
use tallox_go.Policy.Phase.{Phase}
use tallox_go.Policy.Write.{
  WriteArea, writers_in, may_write_in_phase, may_write_demand, may_write_assignment,
}
use tallox_go.Policy.Semester.{
  SemesterState, wishes_published, may_administer_semesters, may_publish_wishes,
}
use tallox_go.Policy.Wish.{Wish, can_see_wish}
use tallox_go.Policy.Assignment.{Assignment, can_see_assignment}
use tallox_go.Policy.Competence.{Competence, can_see_competence}
use tallox_go.Policy.Narrow.{narrow, may_administer_people}
use tallox_go.Policy.Narrow.Roles.{has-narrow, narrow-planning_le}

-- Narrowing changes neither who the caller is nor the door they came through.
narrow-identity :
    (a : Actor) (selected : List Role) (id : Uuid)
    → (authenticated (narrow a selected) ≡ authenticated a)
      × (owns (narrow a selected) id ≡ owns a id)
      × (acts_with_full_reach (narrow a selected) ≡ acts_with_full_reach a)
      × (is_interactive_actor (narrow a selected) ≡ is_interactive_actor a)
unfolding narrow authenticated owns acts_with_full_reach is_interactive_actor
narrow-identity a selected id = (refl, refl, refl, refl)

-- Somebody who is no onlooker sees, by narrowing, no wish, assignment or competence that they did
-- not see before.
pub narrow-reads_le :
    (a : Actor) (selected : List Role) (s : SemesterState) (w : Wish) (x : Assignment)
    (c : Competence)
    → onlooker a ≡ false
    → (can_see_wish (narrow a selected) s w ≡ true → can_see_wish a s w ≡ true)
      × (can_see_assignment (narrow a selected) s x ≡ true → can_see_assignment a s x ≡ true)
      × (can_see_competence (narrow a selected) c ≡ true → can_see_competence a c ≡ true)
unfolding can_see_wish can_see_assignment can_see_competence may_plan_programme
    may_act_in_subject_group onlooker
narrow-reads_le a selected s w x c colleague = (
  λ h. ground (
    arith,
    h,
    narrow-identity a selected w.owner_id,
    narrow-planning_le a selected w.programme_id,
    narrow-planning_le a selected w.subject_group_id,
  ),
  λ h. ground (
    arith,
    h,
    narrow-identity a selected x.assignee_id,
    narrow-planning_le a selected x.programme_id,
    narrow-planning_le a selected x.subject_group_id,
  ),
  λ h. ground (
    arith,
    h,
    narrow-identity a selected c.owner_id,
    narrow-planning_le a selected c.programme_id,
    narrow-planning_le a selected c.subject_group_id,
  ),
)

any-has-narrow :
    (a : Actor) (selected roles : List Role)
    → any (λ r. has (roles_of (narrow a selected)) r) roles ≡ true
    → any (λ r. has (roles_of a) r) roles ≡ true
any-has-narrow a selected [] h = h
any-has-narrow a selected (r ∷ rs) h =
    ground (arith, has-narrow a selected r, any-has-narrow a selected rs)

pub narrow-may_write_in_phase :
    (a : Actor) (selected : List Role) (area : WriteArea) (phase : Phase)
    → may_write_in_phase area phase (narrow a selected) ≡ true
    → may_write_in_phase area phase a ≡ true
unfolding may_write_in_phase
narrow-may_write_in_phase a selected area phase h =
    any-has-narrow a selected (writers_in area phase) h

-- By narrowing nobody, onlookers included, gains the right to write the demand or an assignment,
-- to move a semester, to publish its wishes or to administer people.
pub narrow-writes_le :
    (a : Actor) (selected : List Role) (group programme : Uuid) (phase : Phase)
    → (may_write_demand (narrow a selected) programme phase ≡ true
        → may_write_demand a programme phase ≡ true)
      × (may_write_assignment (narrow a selected) group programme phase ≡ true
          → may_write_assignment a group programme phase ≡ true)
      × (may_administer_semesters (narrow a selected) ≡ true → may_administer_semesters a ≡ true)
      × (may_publish_wishes (narrow a selected) ≡ true → may_publish_wishes a ≡ true)
      × (may_administer_people (narrow a selected) ≡ true → may_administer_people a ≡ true)
unfolding may_write_demand may_write_assignment may_administer_semesters may_publish_wishes
    may_administer_people may_act_with_full_reach may_read_interactive_only
narrow-writes_le a selected group programme phase = (
  λ h. ground (
    arith,
    h,
    narrow-may_write_in_phase a selected WriteArea.demand phase,
    narrow-planning_le a selected programme,
  ),
  λ h. ground (
    arith,
    h,
    narrow-may_write_in_phase a selected WriteArea.assignment phase,
    narrow-planning_le a selected programme,
    narrow-planning_le a selected group,
  ),
  λ h. ground (arith, h, narrow-identity a selected 0, has-narrow a selected deans_office),
  λ h. ground (arith, h, narrow-identity a selected 0, has-narrow a selected deans_office),
  λ h. ground (arith, h, narrow-identity a selected 0, has-narrow a selected admin),
)

-- An onlooker who selects neither of the two onlooker roles reads, after narrowing, every
-- published wish of somebody else, none of which they read before.
pub narrow-onlooker_widens :
    (a : Actor) (selected : List Role) (s : SemesterState) (w : Wish)
    → onlooker a ≡ true
    → contains selected partner_reader ≡ false
    → contains selected observer ≡ false
    → wishes_published s ≡ true
    → owns a w.owner_id ≡ false
    → (can_see_wish a s w ≡ false) × (can_see_wish (narrow a selected) s w ≡ true)
unfolding can_see_wish onlooker partner_only observer_only
narrow-onlooker_widens a selected s w looks p o published other = (
  ground arith,
  ground (
    arith,
    narrow-identity a selected w.owner_id,
    has-narrow a selected partner_reader,
    has-narrow a selected observer,
  ),
)
