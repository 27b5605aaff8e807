-- ===== src/Policy/TokenReach.antt =====
-- What a token reaches, against the browser session of the same person.
use tallox_go.Prelude.{true, false, ◌≡◌, arith}
use tallox_go.Principal.{Actor, interactive, token, authenticated, owns, acts_with_full_reach}
use tallox_go.Policy.Role.{roles_of}
use tallox_go.Policy.Onlooker.{partner_only, observer_only, onlooker}
use tallox_go.Policy.IdScope.{scoped_ids}
use tallox_go.Policy.Programme.{planning_scope, demand_read_scope}
use tallox_go.Policy.SubjectGroup.{assignment_scope}
use tallox_go.Policy.Semester.{SemesterState, wishes_published}
use tallox_go.Policy.Wish.{Wish, can_see_wish}
use tallox_go.Policy.Assignment.{Assignment, can_see_assignment}
use tallox_go.Policy.Competence.{Competence, can_see_competence}
use tallox_go.Policy.DesiredHours.{DesiredHours, can_see_desired_hours, can_see_assigned_load}

-- The same person with the same grants in a browser.
abbrev pub session : Actor → Actor
session a = record a { kind = interactive }

-- Whatever the kind of an actor, what it reads the browser session of the same person reads too.
pub reads-le-session :
    (a : Actor) (s : SemesterState) (w : Wish) (x : Assignment) (c : Competence) (d : DesiredHours)
    → (can_see_wish a s w ≡ true → can_see_wish (session a) s w ≡ true)
      × (can_see_assignment a s x ≡ true → can_see_assignment (session a) s x ≡ true)
      × (can_see_competence a c ≡ true → can_see_competence (session a) c ≡ true)
      × (can_see_desired_hours a s d ≡ true → can_see_desired_hours (session a) s d ≡ true)
      × (can_see_assigned_load a s d ≡ true → can_see_assigned_load (session a) s d ≡ true)
unfolding can_see_wish can_see_assignment can_see_competence can_see_desired_hours
    can_see_assigned_load authenticated owns acts_with_full_reach onlooker partner_only
    observer_only roles_of planning_scope assignment_scope demand_read_scope scoped_ids
reads-le-session a s w x c d = (
  λ h. ground (arith, h),
  λ h. ground (arith, h),
  λ h. ground (arith, h),
  λ h. ground (arith, h),
  λ h. ground (arith, h),
)

-- A token minted with full reach reads what the browser session reads.
pub full_reach-reads :
    (a : Actor) (s : SemesterState) (w : Wish) (x : Assignment) (c : Competence) (d : DesiredHours)
    → a.kind ≡ token
    → a.full_reach ≡ true
    → (can_see_wish a s w ≡ can_see_wish (session a) s w)
      × (can_see_assignment a s x ≡ can_see_assignment (session a) s x)
      × (can_see_competence a c ≡ can_see_competence (session a) c)
      × (can_see_desired_hours a s d ≡ can_see_desired_hours (session a) s d)
      × (can_see_assigned_load a s d ≡ can_see_assigned_load (session a) s d)
unfolding can_see_wish can_see_assignment can_see_competence can_see_desired_hours
    can_see_assigned_load authenticated owns acts_with_full_reach onlooker partner_only
    observer_only roles_of planning_scope assignment_scope demand_read_scope scoped_ids
full_reach-reads a s w x c d k f =
    (ground arith, ground arith, ground arith, ground arith, ground arith)

-- A plain token reads, of the wishes that are not published and of the competences, its owner's
-- alone, whatever roles the owner holds.
pub plain_token-reads_own :
    (a : Actor) (s : SemesterState) (w : Wish) (c : Competence)
    → a.kind ≡ token
    → a.full_reach ≡ false
    → wishes_published s ≡ false
    → (can_see_wish a s w ≡ owns a w.owner_id) × (can_see_competence a c ≡ owns a c.owner_id)
unfolding can_see_wish can_see_competence authenticated owns acts_with_full_reach
plain_token-reads_own a s w c k f p = (ground arith, ground arith)
