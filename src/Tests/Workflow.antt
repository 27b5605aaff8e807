-- ===== src/Tests/Workflow.antt =====
-- The dean's office takes the summer of 2026 through its workflow.
use tallox_go.Domain.Semesters.{
  out_of_range, untouched, advance_phase, advance_row, with_row, plannable, ensure_recorded,
  freeze_desired_hours, publish_assignments, publish_desired_hours, publish_hours_of,
  publish_wishes, publish_wishes_of, set_assignment_confirmation_due, set_due_of,
  set_planning_semester,
}
use tallox_go.Policy.Semester.{
  may_read_semesters, may_administer_semesters, may_freeze_desired_hours, may_publish_assignments,
  may_publish_desired_hours, may_publish_wishes, may_set_assignment_confirmation_due,
}
use tallox_go.Principal.{authenticated, acts_with_full_reach, is_interactive_actor}
use tallox_go.Policy.Role.{has, roles_of, parse_role, put, role_string}
use tallox_go.Policy.Onlooker.{may_act_with_full_reach}
use tallox_go.Domain.Calendar.{
  Moment, window_back, window_forward, semester_code_pattern, is_plannable, semesters_around,
  codes_back, semester_code, shift, decimal_digits, four_digits, semester_at, semester_of_half,
  term_offset, term_text, zeros,
}
use mathlib.Core.Path.{subst}
use tallox_go.Domain.Semesters.Listing.{
  list_semesters, list_of, all_semesters, newest_first, place_in, put_all, put_semester,
  put_planning, add_near, add_code, find_semester, passed_over,
}
use tallox_go.Domain.Semesters.Listing.Find.{or_wanted}
use tallox_go.Domain.Semesters.Listing.Complete.{NewestFirst, shown, list_semesters-find_semester}
use tallox_go.Prelude.{
  pos, ◌⊎◌, contains, ◌&&◌, not, ◌==◌, map, text_lt, to_upper, trim_space, trim_left, trim_right,
  is_even, quotient_by_two, twice, ◌+ℤ◌,
}
use tallox_go.Policy.Phase.{valid, index, may_move_to, parse_phase, phase_string}
use tallox_go.Store.Semesters.{
  planning_semester, advance_semester_phase, clear_planning_semester, ensure_semester,
  freeze_semester_desired_hours, publish_semester_assignments, publish_semester_desired_hours,
  publish_semester_wishes, select, set_planning_semester_once,
  set_semester_assignment_confirmation_due, update,
}
use tallox_go.Prelude.{
  ascii, Text, codes, List, [], ◌∷◌, some, true, ◌≡◌, refl, inl, text_comparable,
}
use tallox_go.Prelude.Results.{err, ok}
use tallox_go.Principal.{Uuid}
use tallox_go.Policy.Phase
use tallox_go.Policy.Semester.{Time}
use tallox_go.Store.Semesters.{Row, Semester, semester_by_code, fresh_row, semester_from}
use tallox_go.Domain.Semesters.{by_code, recorded}
use tallox_go.Domain.Semesters.Requests.{
  Request, Call, Reach, serve, answer_to, advance, plan, release_wishes, freeze_hours,
  release_hours,
}
use tallox_go.Domain.Semesters.Refinement.{serve-Reach}
use tallox_go.Domain.Semesters.Invariant.{WellFormed, serve-WellFormed}
use tallox_go.Domain.Semesters.Evolution.{Survives, Later, serve-Survives, by_code-serve}
use tallox_go.Tests.People.{dean, lead}
use tallox_go.Tests.Terms.{in_july}

abbrev call : Time → Uuid → Request → Call
call now fresh request = record { at = in_july; now = now; fresh = fresh; request = request }

abbrev this_summer : Text
this_summer = codes "2026-SS"

-- The wishes are released in their own phase; somebody who may not and a step too far change nothing.
abbrev early : List Call
early =
    call 1 91 (advance dean this_summer Phase.wishes)
    ∷ call 2 92 (release_wishes (λ id. []) dean this_summer)
    ∷ call 3 92 (advance dean this_summer Phase.final)
    ∷ call 4 92 (advance lead this_summer Phase.assignment)
    ∷ []

abbrev late : List Call
late =
    call 5 92 (plan dean (codes " 2026-ws "))
    ∷ call 6 93 (advance dean this_summer Phase.assignment)
    ∷ call 7 93 (release_wishes (λ id. []) dean this_summer)
    ∷ call 8 93 (release_hours dean this_summer)
    ∷ call 9 93 (freeze_hours dean this_summer)
    ∷ call 10 93 (release_hours dean this_summer)
    ∷ call 11 93 (plan dean this_summer)
    ∷ []

abbrev early_row : Row
early_row = record (fresh_row 1 91 this_summer) {
  phase = Phase.wishes;
  wishes_published_at = some 2;
  updated_at = 2;
}

early_table : serve ascii early [] ≡ early_row ∷ []
unfolding serve answer_to advance_phase advance_row with_row plannable ensure_recorded
    freeze_desired_hours publish_assignments publish_desired_hours publish_hours_of publish_wishes
    publish_wishes_of set_assignment_confirmation_due set_due_of set_planning_semester
    may_administer_semesters may_freeze_desired_hours may_publish_assignments
    may_publish_desired_hours may_publish_wishes may_set_assignment_confirmation_due authenticated
    acts_with_full_reach is_interactive_actor has roles_of parse_role put role_string
    may_act_with_full_reach semester_code_pattern is_plannable semesters_around codes_back
    semester_code shift decimal_digits four_digits semester_at semester_of_half term_offset
    term_text zeros to_upper trim_space trim_left trim_right is_even quotient_by_two twice ◌+ℤ◌
    valid index may_move_to parse_phase phase_string advance_semester_phase clear_planning_semester
    ensure_semester freeze_semester_desired_hours publish_semester_assignments
    publish_semester_desired_hours publish_semester_wishes select semester_from
    set_planning_semester_once set_semester_assignment_confirmation_due update
early_table = refl

serve-Reach_example : Reach [] (serve ascii early [])
serve-Reach_example = serve-Reach ascii early []

nothing_yet : WellFormed []
nothing_yet = record { sound_rows = tt; apart = tt }

serve-WellFormed_example : WellFormed (serve ascii early [])
serve-WellFormed_example = serve-WellFormed ascii early [] nothing_yet

serve-Survives_example : Survives early_row (serve ascii late (early_row ∷ []))
serve-Survives_example = serve-Survives ascii late (early_row ∷ []) early_row (inl refl)

late_table :
    serve ascii late (early_row ∷ [])
    ≡ record (fresh_row 5 92 (codes "2026-WS")) {
      planning_set_at = some 5;
      planning_set_by = some 7;
      updated_at = 11;
    }
      ∷ record early_row {
        phase = Phase.assignment;
        is_planning = true;
        planning_set_at = some 11;
        planning_set_by = some 7;
        desired_hours_frozen_at = some 9;
        desired_hours_frozen_by = some 7;
        desired_hours_published_at = some 10;
        desired_hours_published_by = some 7;
        updated_at = 11;
      }
      ∷ []
unfolding serve answer_to advance_phase advance_row with_row plannable ensure_recorded
    freeze_desired_hours publish_assignments publish_desired_hours publish_hours_of publish_wishes
    publish_wishes_of set_assignment_confirmation_due set_due_of set_planning_semester
    may_administer_semesters may_freeze_desired_hours may_publish_assignments
    may_publish_desired_hours may_publish_wishes may_set_assignment_confirmation_due authenticated
    acts_with_full_reach is_interactive_actor has roles_of parse_role put role_string
    may_act_with_full_reach semester_code_pattern is_plannable semesters_around codes_back
    semester_code shift decimal_digits four_digits semester_at semester_of_half term_offset
    term_text zeros to_upper trim_space trim_left trim_right is_even quotient_by_two twice ◌+ℤ◌
    valid index may_move_to parse_phase phase_string advance_semester_phase clear_planning_semester
    ensure_semester freeze_semester_desired_hours publish_semester_assignments
    publish_semester_desired_hours publish_semester_wishes select semester_from
    set_planning_semester_once set_semester_assignment_confirmation_due update
late_table = refl

early_WellFormed : WellFormed (early_row ∷ [])
early_WellFormed = subst WellFormed early_table (serve-WellFormed ascii early [] nothing_yet)

read_early : by_code ascii in_july lead this_summer (early_row ∷ []) ≡ ok (semester_from early_row)
unfolding by_code recorded may_read_semesters semester_by_code plannable authenticated has roles_of
    parse_role put role_string semester_code_pattern is_plannable semesters_around codes_back
    semester_code shift decimal_digits four_digits semester_at semester_of_half term_offset
    term_text zeros to_upper trim_space trim_left trim_right is_even quotient_by_two twice ◌+ℤ◌
    select semester_from
read_early = refl

early_recorded : recorded (semester_from early_row) ≡ true
unfolding recorded semester_from
early_recorded = refl

-- Eight months later.
abbrev in_march : Moment
in_march = record { year = pos 2027; month = 3; day = 1 }

by_code-serve_example :
    ((plannable ascii in_march this_summer ≡ err out_of_range)
      × (by_code ascii in_march lead this_summer (serve ascii late (early_row ∷ []))
          ≡ err out_of_range))
    ⊎ ((s' : Semester) × (by_code ascii in_march lead this_summer
            (serve ascii late (early_row ∷ []))
          ≡ ok s')
        × Later (semester_from early_row) s')
by_code-serve_example =
    by_code-serve ascii in_july in_march lead this_summer late (early_row ∷ [])
      (semester_from early_row) early_WellFormed read_early early_recorded

may_read_lead : may_read_semesters lead ≡ true
unfolding may_read_semesters authenticated
may_read_lead = refl

list_semesters-find_semester_example :
    (ss : List Semester) × (list_semesters in_july lead (early_row ∷ []) ≡ ok ss)
    × NewestFirst ss
    × (find_semester (codes "2026-WS") ss
        ≡ or_wanted
            (shown (select (λ r. r.code == codes "2026-WS") (early_row ∷ [])))
            (contains (semesters_around in_july window_back window_forward) (codes "2026-WS")
              && not (passed_over (planning_semester (early_row ∷ [])) (codes "2026-WS")))
            (codes "2026-WS"))
list_semesters-find_semester_example =
    list_semesters-find_semester in_july lead (early_row ∷ []) (codes "2026-WS") early_WellFormed
      may_read_lead

listed_codes :
    map (λ s. s.code) (list_of in_july (early_row ∷ []))
    ≡ codes "2029-SS"
      ∷ codes "2028-WS"
      ∷ codes "2028-SS"
      ∷ codes "2027-WS"
      ∷ codes "2027-SS"
      ∷ codes "2026-WS"
      ∷ codes "2026-SS"
      ∷ codes "2025-WS"
      ∷ codes "2025-SS"
      ∷ []
unfolding list_of all_semesters newest_first place_in put_all put_semester put_planning add_near
    add_code find_semester passed_over untouched recorded text_lt planning_semester semesters_around
    codes_back semester_code shift decimal_digits four_digits semester_at semester_of_half
    term_offset term_text zeros is_even quotient_by_two twice ◌+ℤ◌ select semester_from
listed_codes = refl
