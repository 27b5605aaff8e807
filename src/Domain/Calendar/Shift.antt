-- ===== src/Domain/Calendar/Shift.antt =====
-- The steps between semesters, counted in half-years.
use tallox_go.Prelude.{
  ◌+◌, ℤ, pos, negsuc, above_zero, below_zero, ◌+ℤ◌, twice, is_even, quotient_by_two, add_balance,
  twice_balance, quotient_balance, odd-predecessor, ℤ_ext, ◌≡◌, refl, ap, ◌∙◌, arith, Bool-cases,
  inl, inr,
}
use tallox_go.Domain.Calendar.{Term, summer, winter, term_offset, semester_of_half, shift}

-- The number of half-years before a semester.
unfoldable pub half_year : ℤ → Term → ℤ
unfolding term_offset
half_year year term = twice year +ℤ term_offset term

pub half_year-parts :
    (y : ℤ) (t : Term)
    → above_zero (half_year y t) + (below_zero y + below_zero y)
      ≡ below_zero (half_year y t) + (above_zero y + above_zero y) + above_zero (term_offset t)
unfolding half_year term_offset
half_year-parts y summer = omega (arith, twice_balance y, add_balance (twice y) (pos 0))
half_year-parts y winter = omega (arith, twice_balance y, add_balance (twice y) (pos 1))

-- A semester is determined by its half-year.
pub half_year-injective :
    (y y' : ℤ) (t t' : Term) → half_year y t ≡ half_year y' t' → (y ≡ y') × (t ≡ t')
unfolding term_offset
half_year-injective y y' summer summer e = (
  ℤ_ext y y' (
      omega (
        arith,
        ap above_zero e,
        ap below_zero e,
        half_year-parts y summer,
        half_year-parts y' summer,
      )),
  refl,
)
half_year-injective y y' winter winter e = (
  ℤ_ext y y' (
      omega (
        arith,
        ap above_zero e,
        ap below_zero e,
        half_year-parts y winter,
        half_year-parts y' winter,
      )),
  refl,
)
half_year-injective y y' summer winter e = absurd (
    omega (
      arith,
      ap above_zero e,
      ap below_zero e,
      half_year-parts y summer,
      half_year-parts y' winter,
    ))
half_year-injective y y' winter summer e = absurd (
    omega (
      arith,
      ap above_zero e,
      ap below_zero e,
      half_year-parts y winter,
      half_year-parts y' summer,
    ))

half_year-of_half : (h : ℤ) → half_year (semester_of_half h).0 (semester_of_half h).1 ≡ h
unfolding semester_of_half term_offset
half_year-of_half h = elim (Bool-cases (is_even h)) [
  | inl even ↦ rw even (
      ℤ_ext _ h
        (omega (arith, half_year-parts (quotient_by_two h) summer, quotient_balance h even)))
  | inr odd ↦ rw odd (
      ℤ_ext _ h (
        omega (
          arith,
          half_year-parts (quotient_by_two (h +ℤ negsuc 0)) winter,
          quotient_balance (h +ℤ negsuc 0) (odd-predecessor h odd),
          add_balance h (negsuc 0),
        )))
]

-- `shift` moves by as many half-years as it is told.
pub half_year-shift :
    (y n : ℤ) (t : Term) → half_year (shift y t n).0 (shift y t n).1 ≡ half_year y t +ℤ n
unfolding shift half_year
half_year-shift y n t = half_year-of_half (half_year y t +ℤ n)

add_assoc : (x y z : ℤ) → x +ℤ y +ℤ z ≡ x +ℤ (y +ℤ z)
add_assoc x y z = ℤ_ext _ _ (
    omega (arith, add_balance x y, add_balance (x +ℤ y) z, add_balance y z, add_balance x (y +ℤ z)))

-- Two shifts are one by the sum of their steps.
pub shift-shift :
    (y n m : ℤ) (t : Term) → shift (shift y t n).0 (shift y t n).1 m ≡ shift y t (n +ℤ m)
unfolding shift half_year
shift-shift y n m t =
    ap (λ h. semester_of_half (h +ℤ m)) (half_year-shift y n t)
    ∙ ap semester_of_half (add_assoc (half_year y t) n m)
