-- ===== src/Domain/Calendar.antt =====
-- internal/domain/semester_calendar.go, and the pattern of a semester's code of semester.go: what a
-- code is made of, and which semesters are near.
pub mod Shift
pub mod Codes
pub mod Near
use tallox_go.Prelude.{
  ℕ, zero, suc, ◌+◌, ◌-◌, ◌*◌, ◌/◌, ◌%◌, ℤ, pos, negsuc, above_zero, ◌+ℤ◌, twice, is_even,
  quotient_by_two, Text, codes, List, [], ◌∷◌, ◌++◌, Option, none, some, Bool, true, false, not,
  ◌&&◌, ◌||◌, ◌==◌, nat_comparable, text_comparable, contains, length, leb, ltb, if◌then◌else◌,
}

pub data Term : Type 0 where
  summer winter : Term

unfoldable pub term_text : Term → Text
term_text summer = codes "SS"
term_text winter = codes "WS"

-- A moment's calendar day.
pub record Moment : Type 0 where
  pub year : ℤ
  pub month : ℕ
  pub day : ℕ

abbrev pub summer_start_month : ℕ
summer_start_month = 3

abbrev pub summer_start_day : ℕ
summer_start_day = 15

abbrev pub winter_start_month : ℕ
winter_start_month = 10

abbrev pub window_back : ℕ
window_back = 2

abbrev pub window_forward : ℕ
window_forward = 6

abbrev pub plannable_back : ℕ
plannable_back = 20

abbrev pub plannable_forward : ℕ
plannable_forward = 20

-- `%d` of a natural number: the fuel counts its digits, and the number itself is enough.
unfoldable pub decimal_digits : ℕ → ℕ → Text
decimal_digits zero n = []
decimal_digits (suc fuel) n =
    let before = decimal_digits fuel (n / 10) in
    if ltb n 10 then (48 + n) ∷ [] else before ++ (48 + n % 10) ∷ []

unfoldable pub zeros : ℕ → Text
zeros zero = []
zeros (suc n) = b'0' ∷ zeros n

-- `%04d`.
unfoldable pub four_digits : ℤ → Text
four_digits (pos n) = let digits = decimal_digits (suc n) n in zeros (4 - length digits) ++ digits
four_digits (negsuc n) =
    let digits = decimal_digits (suc (suc n)) (suc n) in
    b'-' ∷ (zeros (3 - length digits) ++ digits)

unfoldable pub semester_code : ℤ → Term → Text
unfolding four_digits term_text
semester_code year term = four_digits year ++ (b'-' ∷ term_text term)

-- `[0-9]`.
abbrev pub is_digit : ℕ → Bool
is_digit c = leb 48 c && leb c 57

-- `^[0-9]{4}-(SS|WS)$`.
unfoldable pub semester_code_pattern : Text → Bool
semester_code_pattern (a ∷ b ∷ c ∷ d ∷ e ∷ term) =
    is_digit a
    && is_digit b
    && is_digit c
    && is_digit d
    && (e == b'-')
    && (term == codes "SS" || term == codes "WS")
semester_code_pattern _ = false

-- `Sscanf` of four digits: the first four symbols of a code that fits the pattern.
unfoldable pub scan_year : Text → ℕ
scan_year (a ∷ b ∷ c ∷ d ∷ rest) = (a - 48) * 1000 + (b - 48) * 100 + (c - 48) * 10 + (d - 48)
scan_year _ = 0

-- `code[5:]`, on a code that fits the pattern.
abbrev pub term_of_code : Text → Text
term_of_code (a ∷ b ∷ c ∷ d ∷ e ∷ term) = term
term_of_code _ = []

unfoldable pub study_year : Text → Option ℤ
unfolding semester_code_pattern scan_year
study_year code =
    if not (semester_code_pattern code)
    then none
    else if term_of_code code == codes "SS"
    then some (pos (scan_year code) +ℤ negsuc 0)
    else some (pos (scan_year code))

unfoldable pub semester_at : Moment → ℤ × Term
semester_at at =
    if leb winter_start_month at.month
    then (at.year, winter)
    else if ltb summer_start_month at.month
        || (at.month == summer_start_month && leb summer_start_day at.day)
    then (at.year, summer)
    else (at.year +ℤ negsuc 0, winter)

unfoldable pub term_offset : Term → ℤ
term_offset winter = pos 1
term_offset summer = pos 0

-- The end of `shift`, from the half-year counted on.
unfoldable pub semester_of_half : ℤ → ℤ × Term
semester_of_half half =
    if is_even half
    then (quotient_by_two half, summer)
    else (quotient_by_two (half +ℤ negsuc 0), winter)

unfoldable pub shift : ℤ → Term → ℤ → ℤ × Term
unfolding term_offset semester_of_half
shift year term n = semester_of_half (twice year +ℤ term_offset term +ℤ n)

unfoldable pub current_semester : Moment → Text
current_semester at = let (year, term) = semester_at at in semester_code year term

-- The loop, newest first.
unfoldable pub codes_back : ℕ → ℤ → Term → List Text
codes_back zero year term = []
codes_back (suc n) year term =
    let (year', term') = shift year term (negsuc 0) in
    semester_code year term ∷ codes_back n year' term'

unfoldable pub semesters_around : Moment → ℕ → ℕ → List Text
semesters_around at back forward =
    let (year, term) = semester_at at in
    let (year', term') = shift year term (pos forward) in
    codes_back (back + forward + 1) year' term'

unfoldable pub is_plannable : Moment → Text → Bool
is_plannable at code = contains (semesters_around at plannable_back plannable_forward) code
