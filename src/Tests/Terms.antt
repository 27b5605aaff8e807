-- ===== src/Tests/Terms.antt =====
-- Semesters around the summer of 2026.
use tallox_go.Prelude.{
  ◌+◌, pos, codes, [], ◌∷◌, ◌≡◌, refl, is_even, ◌+ℤ◌, twice, quotient_by_two, leb, ◌&&◌, arith,
}
use tallox_go.Domain.Calendar.{
  summer, Moment, semester_at, semester_code, four_digits, decimal_digits, zeros, term_text,
  semesters_around, codes_back, shift, is_plannable,
}
use tallox_go.Domain.Calendar.Codes.{place}
use tallox_go.Domain.Calendar.Near.{is_plannable_iff}

-- A day before the winter of 2026.
abbrev pub in_july : Moment
in_july = record { year = pos 2026; month = 7; day = 9 }

july_summer : semester_at in_july ≡ (pos 2026, summer)
unfolding semester_at
july_summer = refl

around_july :
    semesters_around in_july 1 1 ≡ codes "2026-WS" ∷ codes "2026-SS" ∷ codes "2025-WS" ∷ []
unfolding semesters_around semester_at codes_back semester_code four_digits decimal_digits zeros
    term_text shift is_even ◌+ℤ◌ twice quotient_by_two
around_july = refl

is_plannable_iff_example : is_plannable in_july (semester_code (pos 2037) summer) ≡ (
    leb (place 2026 summer) (place 2037 summer + 20)
    && leb (place 2037 summer) (place 2026 summer + 20))
is_plannable_iff_example =
    is_plannable_iff in_july 2026 2037 summer summer july_summer (omega arith) (omega arith)
      (omega arith)
