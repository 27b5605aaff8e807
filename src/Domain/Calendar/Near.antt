-- ===== src/Domain/Calendar/Near.antt =====
-- The semesters near a moment, and those that a decision may reach.
use mathlib.Core.Path.{subst}
use tallox_go.Prelude.{
  ℕ, zero, suc, ◌+◌, ◌-◌, ◌*◌, ◌/◌, ◌%◌, ◌≤◌, ◌<◌, ℤ, pos, negsuc, ◌+ℤ◌, ℤ_ext, Text, List, [], ◌∷◌,
  true, false, ◌&&◌, ◌||◌, ◌==◌, nat_comparable, nat_eq, text_comparable, text_eq_law, text_lt, leb,
  ltb, if◌then◌else◌, contains, length, ◌≡◌, refl, sym, ap, ◌∙◌, arith, Bool-cases, Bool_ext, inl,
  inr,
}
use tallox_go.Domain.Calendar.{
  Term, summer, winter, Moment, term_offset, semester_at, semester_code, shift, codes_back,
  semesters_around, is_plannable,
}
use tallox_go.Domain.Calendar.Shift.{
  half_year, half_year-parts, half_year-injective, half_year-shift,
}
use tallox_go.Domain.Calendar.Codes.{place, text_lt-semester_code}

-- The semester at a place.
abbrev pub year_at : ℕ → ℕ
year_at k = k / 2

abbrev pub term_at : ℕ → Term
term_at k = if nat_eq (k % 2) 0 then summer else winter

abbrev pub code_at : ℕ → Text
code_at k = semester_code (pos (year_at k)) (term_at k)

half_year-place : (n : ℕ) (t : Term) → half_year (pos n) t ≡ pos (place n t)
unfolding term_offset
half_year-place n summer = ℤ_ext _ _ (omega (arith, half_year-parts (pos n) summer))
half_year-place n winter = ℤ_ext _ _ (omega (arith, half_year-parts (pos n) winter))

place-at : (k : ℕ) → place (year_at k) (term_at k) ≡ k
place-at k = elim (Bool-cases (nat_eq (k % 2) 0)) [
  | inl even ↦ rw even (ground (arith, even))
  | inr odd ↦ rw odd (ground (arith, odd))
]

at-place : (n : ℕ) (t : Term) → (year_at (place n t) ≡ n) × (term_at (place n t) ≡ t)
at-place n summer = (omega arith, ground arith)
at-place n winter = (omega arith, ground arith)

-- A shift from a place to another one.
shift-at :
    (k j : ℕ) (n : ℤ)
    → pos k +ℤ n ≡ pos j
    → shift (pos (year_at k)) (term_at k) n ≡ (pos (year_at j), term_at j)
shift-at k j n h =
    let (years, terms) =
      half_year-injective (shift (pos (year_at k)) (term_at k) n).0 (pos (year_at j))
        (shift (pos (year_at k)) (term_at k) n).1 (term_at j)
        (half_year-shift (pos (year_at k)) n (term_at k)
          ∙ ap (λ x. x +ℤ n) (half_year-place (year_at k) (term_at k) ∙ ap pos (place-at k))
          ∙ h
          ∙ ap pos (sym (place-at j))
          ∙ sym (half_year-place (year_at j) (term_at j))) in
    λ i. (years i, terms i)

-- So many codes from a place downwards.
unfoldable pub codes_down : ℕ → ℕ → List Text
codes_down zero k = []
codes_down (suc n) k = code_at k ∷ codes_down n (k - 1)

add-step : (k : ℕ) → 1 ≤ k → pos k +ℤ negsuc 0 ≡ pos (k - 1)
unfolding ◌+ℤ◌
add-step k h = ground (arith, h)

codes_back-down :
    (n k : ℕ) → n ≤ k → codes_back (suc n) (pos (year_at k)) (term_at k) ≡ codes_down (suc n) k
unfolding codes_back codes_down
codes_back-down zero k h = refl
codes_back-down (suc n) k h =
    ap (λ (rest : List Text). code_at k ∷ rest)
      ((λ i.
          let next = shift-at k (k - 1) (negsuc 0) (add-step k (omega arith)) i in
          codes_back (suc n) next.0 next.1)
        ∙ codes_back-down n (k - 1) (omega arith))

add-forward : (k m : ℕ) → pos k +ℤ pos m ≡ pos (k + m)
unfolding ◌+ℤ◌
add-forward k m = ground arith

-- The window around a moment, by places.
around-down :
    (at : Moment) (k back forward : ℕ)
    → semester_at at ≡ (pos (year_at k), term_at k)
    → back ≤ k
    → semesters_around at back forward ≡ codes_down (back + forward + 1) (k + forward)
unfolding semesters_around
around-down at k back forward e h =
    let count : back + forward + 1 ≡ suc (back + forward) = omega arith in
    ap
      (λ (p : ℤ × Term).
        codes_back (back + forward + 1) (shift p.0 p.1 (pos forward)).0
          (shift p.0 p.1 (pos forward)).1)
      e
    ∙ ap (λ (p : ℤ × Term). codes_back (back + forward + 1) p.0 p.1)
        (shift-at k (k + forward) (pos forward) (add-forward k forward))
    ∙ ap (λ n. codes_back n (pos (year_at (k + forward))) (term_at (k + forward))) count
    ∙ codes_back-down (back + forward) (k + forward) (omega arith)
    ∙ ap (λ n. codes_down n (k + forward)) (sym count)

text_lt_irrefl : (t : Text) → text_lt t t ≡ false
unfolding text_lt
text_lt_irrefl [] = refl
text_lt_irrefl (c ∷ t) = ground (arith, text_lt_irrefl t)

code_at_lt : (j k : ℕ) → j < 20000 → k < 20000 → text_lt (code_at j) (code_at k) ≡ ltb j k
code_at_lt j k hj hk =
    text_lt-semester_code (year_at j) (year_at k) (term_at j) (term_at k) (omega arith)
      (omega arith)
    ∙ λ i. ltb (place-at j i) (place-at k i)

code_at_eq : (j k : ℕ) → j < 20000 → k < 20000 → (code_at j == code_at k) ≡ nat_eq j k
code_at_eq j k hj hk =
    Bool_ext _ _
      (λ h.
        let same = (text_eq_law (code_at j) (code_at k)).0 h in
        ground (
          arith,
          code_at_lt j k hj hk,
          code_at_lt k j hk hj,
          ap (λ c. text_lt c (code_at k)) same,
          ap (λ c. text_lt (code_at k) c) same,
          text_lt_irrefl (code_at k),
        ))
      (λ h. (text_eq_law (code_at j) (code_at k)).1 (ap code_at (ground (arith, h))))

window_step :
    (n k j : ℕ)
    → suc (suc n) ≤ k + 1
    → (nat_eq k j || (leb j (k - 1) && ltb (k - 1) (j + suc n)))
      ≡ (leb j k && ltb k (j + suc (suc n)))
window_step n k j h = ground arith

window_end : (k j : ℕ) → (nat_eq k j || false) ≡ (leb j k && ltb k (j + 1))
window_end k j = ground arith

contains-codes_down :
    (n k j : ℕ)
    → suc n ≤ k + 1
    → k < 20000
    → j < 20000
    → contains (codes_down (suc n) k) (code_at j) ≡ (leb j k && ltb k (j + suc n))
unfolding codes_down
contains-codes_down zero k j hn hk hj = ap (λ b. b || false) (code_at_eq k j hk hj) ∙ window_end k j
contains-codes_down (suc n) k j hn hk hj =
    (λ i.
      code_at_eq k j hk hj i || contains-codes_down n (k - 1) j (omega arith) (omega arith) hj i)
    ∙ window_step n k j hn

window :
    (k j : ℕ)
    → 20 ≤ k
    → (leb j (k + 20) && ltb (k + 20) (j + 41)) ≡ (leb k (j + 20) && leb j (k + 20))
window k j h = ground arith

place_low : (n : ℕ) (t : Term) → 10 ≤ n → 20 ≤ place n t
place_low n summer h = omega arith
place_low n winter h = omega arith

place_below : (n m : ℕ) (t : Term) → n < m → place n t < m * 2
place_below n m summer h = omega arith
place_below n m winter h = omega arith

-- A decision may reach the semesters up to twenty half-years away, in both directions, and no
-- others of the four-digit years; the present is in the years 10 to 9989.
pub is_plannable_iff :
    (at : Moment) (n m : ℕ) (t t' : Term)
    → semester_at at ≡ (pos n, t)
    → 10 ≤ n
    → n < 9990
    → m < 10000
    → is_plannable at (semester_code (pos m) t')
      ≡ (leb (place n t) (place m t' + 20) && leb (place m t') (place n t + 20))
unfolding is_plannable
is_plannable_iff at n m t t' e low high hm =
    let k = place n t in
    let j = place m t' in
    let code : semester_code (pos m) t' ≡ code_at j =
      sym (λ i. semester_code (pos ((at-place m t').0 i)) ((at-place m t').1 i)) in
    let here : semester_at at ≡ (pos (year_at k), term_at k) =
      e ∙ sym (λ i. (pos ((at-place n t).0 i), (at-place n t).1 i)) in
    (λ i. contains (around-down at k 20 20 here (place_low n t low) i) (code i))
    ∙ contains-codes_down 40 (k + 20) j (omega (arith, place_low n t low))
        (omega (arith, place_below n 9990 t high)) (omega (arith, place_below m 10000 t' hm))
    ∙ window k j (place_low n t low)

-- The newest semester comes first: each code of the window is before the one ahead of it.
abbrev pub Descending : List Text → Type 0
Descending [] = Unit {0}
Descending (c ∷ []) = Unit {0}
Descending (c ∷ d ∷ rest) = (text_lt d c ≡ true) × Descending (d ∷ rest)

codes_down-Descending : (n k : ℕ) → n ≤ k + 1 → k < 20000 → Descending (codes_down n k)
unfolding codes_down
codes_down-Descending zero k h hk = tt
codes_down-Descending (suc zero) k h hk = tt
codes_down-Descending (suc (suc n)) k h hk = (
  code_at_lt (k - 1) k (omega arith) hk ∙ ground arith,
  codes_down-Descending (suc n) (k - 1) (omega arith) (omega arith),
)

length-codes_down : (n k : ℕ) → length (codes_down n k) ≡ n
unfolding codes_down
length-codes_down zero k = refl
length-codes_down (suc n) k = ap suc (length-codes_down n (k - 1))

-- The list around a moment has as many semesters as are asked for, back and forward and the present
-- one, the newest first, if all of them lie in the four-digit years.
pub semesters_around-Descending :
    (at : Moment) (n back forward : ℕ) (t : Term)
    → semester_at at ≡ (pos n, t)
    → back ≤ place n t
    → place n t + forward < 20000
    → (length (semesters_around at back forward) ≡ back + forward + 1)
      × Descending (semesters_around at back forward)
semesters_around-Descending at n back forward t e low high =
    let k = place n t in
    let here : semester_at at ≡ (pos (year_at k), term_at k) =
      e ∙ sym (λ i. (pos ((at-place n t).0 i), (at-place n t).1 i)) in
    let down = around-down at k back forward here low in
    (
      ap length down ∙ length-codes_down (back + forward + 1) (k + forward),
      subst Descending (sym down)
          (codes_down-Descending (back + forward + 1) (k + forward) (omega arith) high),
    )
