-- ===== src/Tests/People.antt =====
-- Actors, records and semesters that the tests share.
use tallox_go.Prelude.{String, List, [], ◌∷◌, none, true, false}
use tallox_go.Principal.{Actor, RoleScope, interactive, token}
use tallox_go.Policy.Phase
use tallox_go.Policy.Semester.{SemesterState}
use tallox_go.Policy.Wish.{Wish}
use tallox_go.Policy.Assignment.{Assignment}
use tallox_go.Policy.Competence.{Competence}
use tallox_go.Policy.DesiredHours.{DesiredHours}

abbrev pub person : List String → List RoleScope → Actor
person roles scopes = record {
  id = 7;
  mail = "lead@example.org";
  name = "Lead";
  roles = roles;
  narrowed_from = none;
  role_scopes = scopes;
  scopes = [];
  kind = interactive;
  full_reach = false;
  token_id = [];
}

abbrev leads_programme : RoleScope
leads_programme = record { role = "PROGRAMME_LEAD"; programme_id = 41; subject_group_id = 0 }

abbrev leads_group : RoleScope
leads_group = record { role = "SUBJECT_GROUP_LEAD"; programme_id = 0; subject_group_id = 51 }

-- A lecturer who leads programme 41.
abbrev pub lead : Actor
lead = person ("LECTURER" ∷ "PROGRAMME_LEAD" ∷ "NO_SUCH_ROLE" ∷ []) (leads_programme ∷ [])

-- Somebody who leads group 51.
abbrev pub group_lead : Actor
group_lead = person ("SUBJECT_GROUP_LEAD" ∷ []) (leads_group ∷ [])

abbrev pub dean : Actor
dean = person ("DEANS_OFFICE" ∷ "LECTURER" ∷ []) []

abbrev pub watcher : Actor
watcher = person ("OBSERVER" ∷ []) []

abbrev pub plain_token : Actor
plain_token = record lead { kind = token; token_id = 65 ∷ [] }

abbrev pub planning_token : Actor
planning_token = record lead { kind = token; full_reach = true; token_id = 65 ∷ [] }

abbrev pub running : SemesterState
running = record {
  phase = Phase.wishes;
  wishes_published_at = 0;
  assignments_published_at = 0;
  desired_hours_frozen_at = 0;
  desired_hours_published_at = 0;
}

abbrev pub published : SemesterState
published = record running { wishes_published_at = 9; assignments_published_at = 9 }

-- The wish, assignment, competence and hours of person 8, in programme 41 and group 51.
abbrev pub wish : Wish
wish = record { owner_id = 8; programme_id = 41; subject_group_id = 51 }

abbrev pub assigned : Assignment
assigned = record { assignee_id = 8; programme_id = 41; subject_group_id = 51 }

abbrev pub competence : Competence
competence = record { owner_id = 8; programme_id = 41; subject_group_id = 51 }

abbrev pub hours : DesiredHours
hours = record { owner_id = 8; member_of = 50 ∷ 51 ∷ [] }
