-- ===== src/Domain/Semesters/Listing.antt =====
-- internal/domain/semester.go: the list of semesters, and Semesters of internal/store/semesters.go.
pub mod Find
pub mod Complete
use tallox_go.Prelude.{
  Text, List, [], ◌∷◌, map, Option, none, some, Bool, true, false, not, ◌&&◌, ◌==◌, text_comparable,
  text_lt, if◌then◌else◌,
}
use tallox_go.Prelude.Results.{Result, err, ok}
use tallox_go.Principal.{Actor}
use tallox_go.Policy.Semester.{may_read_semesters}
use tallox_go.Domain.Calendar.{Moment, semesters_around, window_back, window_forward}
use tallox_go.Store.Semesters.{Row, Table, Semester, semester_from, planning_semester}
use tallox_go.Domain.Semesters.{SemesterError, forbidden, recorded, untouched}

-- `ORDER BY code DESC`, and `sort.Slice` by the codes downwards.
unfoldable pub place_in : Semester → List Semester → List Semester
place_in s [] = s ∷ []
place_in s (x ∷ xs) =
    let later = place_in s xs in if text_lt s.code x.code then x ∷ later else s ∷ x ∷ xs

unfoldable pub newest_first : List Semester → List Semester
unfolding place_in
newest_first [] = []
newest_first (s ∷ ss) = place_in s (newest_first ss)

unfoldable pub all_semesters : Table → List Semester
unfolding newest_first
all_semesters t = newest_first (map semester_from t)

-- The map from codes to semesters, as the list of its values: a semester stands under its code.
unfoldable pub find_semester : Text → List Semester → Option Semester
find_semester code [] = none
find_semester code (s ∷ ss) = if s.code == code then some s else find_semester code ss

unfoldable pub put_semester : Semester → List Semester → List Semester
put_semester s [] = s ∷ []
put_semester s (x ∷ xs) =
    let rest = put_semester s xs in if x.code == s.code then s ∷ xs else x ∷ rest

unfoldable pub put_all : List Semester → List Semester → List Semester
unfolding put_semester
put_all [] m = m
put_all (s ∷ ss) m = put_all ss (put_semester s m)

unfoldable pub put_planning : Semester → List Semester → List Semester
unfolding put_semester recorded
put_planning planning m = if recorded planning then put_semester planning m else m

-- A code before the planning semester.
unfoldable pub passed_over : Semester → Text → Bool
unfolding recorded
passed_over planning code = recorded planning && text_lt code planning.code

-- The step of the loop over the calendar.
unfoldable pub add_code : Semester → Text → List Semester → List Semester
unfolding find_semester put_semester passed_over untouched
add_code planning code m =
    if passed_over planning code
    then m
    else elim (find_semester code m) [ none ↦ put_semester (untouched code) m | some s ↦ m ]

unfoldable pub add_near : Semester → List Text → List Semester → List Semester
unfolding add_code
add_near planning [] m = m
add_near planning (code ∷ codes) m = add_near planning codes (add_code planning code m)

unfoldable pub list_of : Moment → Table → List Semester
unfolding newest_first all_semesters put_all put_planning add_near
list_of at t =
    let planning = planning_semester t in
    newest_first (
      add_near planning (semesters_around at window_back window_forward)
        (put_planning planning (put_all (all_semesters t) [])))

unfoldable pub list_semesters : Moment → Actor → Table → Result SemesterError (List Semester)
unfolding list_of
list_semesters at actor t =
    if not (may_read_semesters actor) then err forbidden else ok (list_of at t)
