-- ===== src/Policy/Semester.antt =====
-- internal/policy/semester.go, windows.go, modulesplit.go and zpa.go: the acts on a semester, on a
-- subject group's window, on a module's split and on the import; and `SemesterState` of wish.go.
use tallox_go.Prelude.{ℕ, String, Bool, false, ◌&&◌, ◌||◌, not, if◌then◌else◌, ◌==◌, nat_comparable}
use tallox_go.Principal.{Actor, Uuid, authenticated, acts_with_full_reach}
use tallox_go.Policy.Role.{deans_office, admin, observer, RoleSet, roles_of, has}
use tallox_go.Policy.Phase.{Phase, phase_comparable}
use tallox_go.Policy.Onlooker.{may_serve_oneself, may_act_with_full_reach}
use tallox_go.Policy.Programme.{
  programme_scope_missing_reason, may_plan_programme, holds_programme_lead_without_scope,
}
use tallox_go.Policy.SubjectGroup.{
  subject_group_scope_missing_reason, may_act_in_subject_group,
  holds_subject_group_lead_without_scope,
}

-- A moment, counted from the zero `time.Time`.
abbrev pub Time : Type 0
Time = ℕ

abbrev pub is_zero : Time → Bool
is_zero t = t == 0

pub record SemesterState : Type 0 where
  pub phase : Phase
  pub wishes_published_at : Time
  pub assignments_published_at : Time
  pub desired_hours_frozen_at : Time
  pub desired_hours_published_at : Time

unfoldable pub wishes_published : SemesterState → Bool
wishes_published s = not (is_zero s.wishes_published_at)

unfoldable pub assignments_published : SemesterState → Bool
assignments_published s = not (is_zero s.assignments_published_at)

unfoldable pub desired_hours_frozen : SemesterState → Bool
desired_hours_frozen s = not (is_zero s.desired_hours_frozen_at)

unfoldable pub desired_hours_published : SemesterState → Bool
desired_hours_published s = not (is_zero s.desired_hours_published_at)

-- The zero value `SemesterState{}`.
abbrev pub zero_state : SemesterState
zero_state = record {
  phase = Phase.other "";
  wishes_published_at = 0;
  assignments_published_at = 0;
  desired_hours_frozen_at = 0;
  desired_hours_published_at = 0;
}

unfoldable pub may_read_semesters : Actor → Bool
may_read_semesters a = authenticated a

unfoldable pub may_administer_semesters : Actor → Bool
may_administer_semesters a = authenticated a && has (roles_of a) deans_office

unfoldable pub may_publish_assignments : Actor → Bool
unfolding may_administer_semesters
may_publish_assignments a = may_administer_semesters a && acts_with_full_reach a

unfoldable pub may_publish_wishes : Actor → Bool
may_publish_wishes a = may_act_with_full_reach a && has (roles_of a) deans_office

unfoldable pub may_freeze_desired_hours : Actor → Bool
unfolding may_publish_wishes
may_freeze_desired_hours a = may_publish_wishes a

unfoldable pub may_publish_desired_hours : Actor → Bool
unfolding may_publish_wishes
may_publish_desired_hours a = may_publish_wishes a

unfoldable pub may_set_programme_quota : Actor → Bool
unfolding may_administer_semesters
may_set_programme_quota a = may_administer_semesters a

unfoldable pub may_set_programme_degree : Actor → Bool
unfolding may_administer_semesters
may_set_programme_degree a = may_administer_semesters a

unfoldable pub may_set_assignment_confirmation_due : Actor → Bool
unfolding may_administer_semesters
may_set_assignment_confirmation_due a = may_administer_semesters a && acts_with_full_reach a

unfoldable pub may_confirm_own_assignments : Actor → SemesterState → Bool
may_confirm_own_assignments a s = may_serve_oneself a && not (s.phase == Phase.final)

abbrev pub demand_announcement_reason : String
demand_announcement_reason =
    "Nur die Leitung dieses Studiengangs und das Dekanat können den Bedarf als fertig melden."

abbrev pub wish_window_switch_reason : String
wish_window_switch_reason =
    "Nur die Leitung dieser Fachgruppe und das Dekanat können die Wunschphase dieser Fachgruppe öffnen und schließen."

unfoldable pub may_announce_demand_complete : Actor → Uuid → Bool
may_announce_demand_complete a programme_id = may_plan_programme a programme_id

unfoldable pub may_announce_review_complete : Actor → Uuid → Bool
may_announce_review_complete a programme_id = may_plan_programme a programme_id

unfoldable pub demand_completion_refusal : Actor → Uuid → String
demand_completion_refusal a programme_id =
    if holds_programme_lead_without_scope a
    then programme_scope_missing_reason
    else demand_announcement_reason

unfoldable pub may_set_wish_window : Actor → Uuid → Bool
may_set_wish_window a subject_group_id = may_act_in_subject_group a subject_group_id

unfoldable pub wish_window_refusal : Actor → String
wish_window_refusal a =
    if holds_subject_group_lead_without_scope a
    then subject_group_scope_missing_reason
    else wish_window_switch_reason

abbrev pub module_split_reason : String
module_split_reason =
    "Nur die Fachgruppenleitung dieses Moduls, die Studiengangsleitung seines Heimatstudiengangs und das Dekanat können die SWS-Aufteilung festlegen."

unfoldable pub may_write_module_split : Actor → Uuid → Uuid → Bool
may_write_module_split a subject_group_id home_programme_id =
    may_act_in_subject_group a subject_group_id || may_plan_programme a home_programme_id

unfoldable pub module_split_refusal : Actor → String
module_split_refusal a =
    if holds_subject_group_lead_without_scope a
    then subject_group_scope_missing_reason
    else if holds_programme_lead_without_scope a
    then programme_scope_missing_reason
    else module_split_reason

unfoldable pub may_run_zpa_import : RoleSet → Bool
may_run_zpa_import roles = has roles admin || has roles deans_office

unfoldable pub may_read_zpa_import : Actor → Bool
unfolding may_run_zpa_import
may_read_zpa_import a =
    if may_act_with_full_reach a
    then (let roles = roles_of a in may_run_zpa_import roles || has roles observer)
    else false

unfoldable pub may_trigger_zpa_sync : Actor → Bool
unfolding may_run_zpa_import
may_trigger_zpa_sync a = may_act_with_full_reach a && may_run_zpa_import (roles_of a)
