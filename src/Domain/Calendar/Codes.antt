-- ===== src/Domain/Calendar/Codes.antt =====
-- A semester's code: its form, its order, and what is read back from it.
use tallox_go.Prelude.{
  ℕ, zero, suc, ◌+◌, ◌-◌, ◌*◌, ◌/◌, ◌%◌, ◌≤◌, ◌<◌, ℤ, pos, negsuc, ◌+ℤ◌, Text, [], ◌∷◌, ◌++◌, some,
  true, ◌&&◌, ◌||◌, ◌==◌, nat_comparable, text_comparable, text_lt, ltb, ◌≡◌, refl, ap, ◌∙◌, arith,
  length, Bool-cases, inl, inr,
}
use tallox_go.Domain.Calendar.{
  Term, summer, winter, term_text, decimal_digits, zeros, four_digits, semester_code,
  semester_code_pattern, scan_year, study_year,
}

symbols :
    {a a' b b' c c' : ℕ}
    → a ≡ a'
    → b ≡ b'
    → c ≡ c'
    → (rest : Text)
    → (48 + a) ∷ (48 + b) ∷ (48 + c) ∷ rest ≡ (48 + a') ∷ (48 + b') ∷ (48 + c') ∷ rest
symbols p q r rest = λ i. (48 + p i) ∷ (48 + q i) ∷ (48 + r i) ∷ rest

digits_one : (f n : ℕ) → n < 10 → decimal_digits (suc f) n ≡ (48 + n) ∷ []
unfolding decimal_digits
digits_one f n h = ground (arith, h)

digits_more :
    (f n : ℕ) → 10 ≤ n → decimal_digits (suc f) n ≡ decimal_digits f (n / 10) ++ (48 + n % 10) ∷ []
unfolding decimal_digits
digits_more f n h = ground (arith, h)

digits_two :
    (f n : ℕ)
    → 1 ≤ f
    → 10 ≤ n
    → n < 100
    → decimal_digits (suc f) n ≡ (48 + n / 10) ∷ (48 + n % 10) ∷ []
digits_two zero n hf h h' = absurd (omega arith)
digits_two (suc f) n hf h h' =
    digits_more (suc f) n h
    ∙ ap (λ (t : Text). t ++ (48 + n % 10) ∷ []) (digits_one f (n / 10) (omega arith))

digits_three :
    (f n : ℕ)
    → 2 ≤ f
    → 100 ≤ n
    → n < 1000
    → decimal_digits (suc f) n ≡ (48 + n / 100) ∷ (48 + (n / 10) % 10) ∷ (48 + n % 10) ∷ []
digits_three zero n hf h h' = absurd (omega arith)
digits_three (suc f) n hf h h' =
    digits_more (suc f) n (omega arith)
    ∙ ap (λ (t : Text). t ++ (48 + n % 10) ∷ [])
        (digits_two f (n / 10) (omega arith) (omega arith) (omega arith)
          ∙ ap (λ (d : ℕ). (48 + d) ∷ (48 + (n / 10) % 10) ∷ []) (omega arith))

digits_four :
    (f n : ℕ)
    → 3 ≤ f
    → 1000 ≤ n
    → n < 10000
    → decimal_digits (suc f) n
      ≡ (48 + n / 1000) ∷ (48 + (n / 100) % 10) ∷ (48 + (n / 10) % 10) ∷ (48 + n % 10) ∷ []
digits_four zero n hf h h' = absurd (omega arith)
digits_four (suc f) n hf h h' =
    digits_more (suc f) n (omega arith)
    ∙ ap (λ (t : Text). t ++ (48 + n % 10) ∷ [])
        (digits_three f (n / 10) (omega arith) (omega arith) (omega arith)
          ∙ symbols (omega arith) (omega arith) refl [])

-- The four digits of a year below 10000.
abbrev pub padded : ℕ → Text
padded n = (48 + n / 1000) ∷ (48 + (n / 100) % 10) ∷ (48 + (n / 10) % 10) ∷ (48 + n % 10) ∷ []

pad : Text → Text
pad t = zeros (4 - length t) ++ t

padded_eq :
    (n a b c d : ℕ)
    → a ≡ n / 1000
    → b ≡ (n / 100) % 10
    → c ≡ (n / 10) % 10
    → d ≡ n % 10
    → (48 + a) ∷ (48 + b) ∷ (48 + c) ∷ (48 + d) ∷ [] ≡ padded n
padded_eq n a b c d p q r s = λ i. (48 + p i) ∷ (48 + q i) ∷ (48 + r i) ∷ (48 + s i) ∷ []

pad-digits : (n : ℕ) → n < 10000 → pad (decimal_digits (suc n) n) ≡ padded n
unfolding zeros pad
pad-digits n h = elim (Bool-cases (ltb n 10)) [
  | inl one ↦
      ap pad (digits_one n n (ground (arith, one)))
      ∙ padded_eq n 0 0 0 n (ground (arith, one)) (ground (arith, one)) (ground (arith, one))
          (ground (arith, one))
  | inr ten ↦ elim (Bool-cases (ltb n 100)) [
    | inl two ↦
        ap pad (digits_two n n (ground (arith, ten)) (ground (arith, ten)) (ground (arith, two)))
        ∙ padded_eq n 0 0 (n / 10) (n % 10) (ground (arith, two)) (ground (arith, two))
            (ground (arith, two)) refl
    | inr hundred ↦ elim (Bool-cases (ltb n 1000)) [
      | inl three ↦
          ap pad (
            digits_three n n (ground (arith, ten)) (ground (arith, hundred))
              (ground (arith, three)))
          ∙ padded_eq n 0 (n / 100) ((n / 10) % 10) (n % 10) (ground (arith, three))
              (ground (arith, three)) refl refl
      | inr thousand ↦ ap pad (digits_four n n (ground (arith, ten)) (ground (arith, thousand)) h)
    ]
  ]
]

four_digits-padded : (n : ℕ) → n < 10000 → four_digits (pos n) ≡ padded n
unfolding four_digits pad
four_digits-padded n h = pad-digits n h

-- The parts of a code in the four-digit years.
semester_code-padded :
    (n : ℕ) (t : Term) → n < 10000 → semester_code (pos n) t ≡ padded n ++ (b'-' ∷ term_text t)
unfolding semester_code
semester_code-padded n t h = ap (λ (d : Text). d ++ (b'-' ∷ term_text t)) (four_digits-padded n h)

fits :
    (n : ℕ) (t : Term) → n < 10000 → semester_code_pattern (padded n ++ (b'-' ∷ term_text t)) ≡ true
unfolding semester_code_pattern term_text
fits n summer h = ground arith
fits n winter h = ground arith

scan_year-padded : (n : ℕ) (rest : Text) → n < 10000 → scan_year (padded n ++ rest) ≡ n
unfolding scan_year
scan_year-padded n rest h = omega arith

-- A code of a four-digit year fits the pattern.
pub semester_code-fits :
    (n : ℕ) (t : Term) → n < 10000 → semester_code_pattern (semester_code (pos n) t) ≡ true
semester_code-fits n t h = ap semester_code_pattern (semester_code-padded n t h) ∙ fits n t h

-- The study year of a semester.
abbrev pub year_of_study : ℕ → Term → ℤ
year_of_study n winter = pos n
year_of_study n summer = pos n +ℤ negsuc 0

study_year-padded :
    (n : ℕ) (t : Term)
    → n < 10000
    → study_year (padded n ++ (b'-' ∷ term_text t)) ≡ some (year_of_study n t)
unfolding study_year term_text
study_year-padded n summer h =
    ground (arith, fits n summer h, scan_year-padded n (b'-' ∷ term_text summer) h)
study_year-padded n winter h =
    ground (arith, fits n winter h, scan_year-padded n (b'-' ∷ term_text winter) h)

-- `StudyYear` reads back the year of a winter semester, and for a summer the year before.
pub study_year-code :
    (n : ℕ) (t : Term) → n < 10000 → study_year (semester_code (pos n) t) ≡ some (year_of_study n t)
study_year-code n t h = ap study_year (semester_code-padded n t h) ∙ study_year-padded n t h

-- The place of a semester among the half-years.
abbrev pub place : ℕ → Term → ℕ
place n summer = n * 2
place n winter = n * 2 + 1

text_lt-padded :
    (n m : ℕ) (s t : Text)
    → n < 10000
    → m < 10000
    → text_lt (padded n ++ s) (padded m ++ t) ≡ (ltb n m || (n == m && text_lt s t))
unfolding text_lt
text_lt-padded n m s t hn hm = ground arith

terms :
    (n m : ℕ) (s t : Term)
    → (ltb n m || (n == m && text_lt (b'-' ∷ term_text s) (b'-' ∷ term_text t)))
      ≡ ltb (place n s) (place m t)
unfolding text_lt term_text
terms n m summer summer = ground arith
terms n m summer winter = ground arith
terms n m winter summer = ground arith
terms n m winter winter = ground arith

-- In the four-digit years the codes are ordered as the semesters are in time.
pub text_lt-semester_code :
    (n m : ℕ) (s t : Term)
    → n < 10000
    → m < 10000
    → text_lt (semester_code (pos n) s) (semester_code (pos m) t) ≡ ltb (place n s) (place m t)
text_lt-semester_code n m s t hn hm =
    (λ i. text_lt (semester_code-padded n s hn i) (semester_code-padded m t hm i))
    ∙ text_lt-padded n m _ _ hn hm
    ∙ terms n m s t
