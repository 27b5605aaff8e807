-- ===== src/Domain/Semesters/Listing/Find.antt =====
-- What the list of semesters holds for a code.
use mathlib.Core.Path.{subst}
use tallox_go.Prelude.{
  Text, List, [], ◌∷◌, contains, Option, none, some, Bool, true, false, not, ◌&&◌, ◌==◌,
  text_comparable, text_eq_law, text_lt, if◌then◌else◌, ◌≡◌, ◌⊎◌, refl, sym, ap, ◌∙◌, arith,
  Bool-cases, Option-cases, inl, inr, eq_self,
}
use tallox_go.Store.Semesters.{Semester}
use tallox_go.Domain.Semesters.{untouched}
use tallox_go.Domain.Semesters.Listing.{
  place_in, newest_first, find_semester, put_semester, put_all, passed_over, add_code, add_near,
}

text_lt_irrefl : (s : Text) → text_lt s s ≡ false
unfolding text_lt
text_lt_irrefl [] = refl
text_lt_irrefl (c ∷ s) = ground (arith, text_lt_irrefl s)

-- Of two texts that differ, at most one is a third one.
other_text : (a b c : Text) → (a ≡ b → ⊥) → (a == c) ≡ true → (b == c) ≡ false
other_text a b c n h = elim (Bool-cases (b == c)) [
  | inr differs ↦ differs
  | inl same ↦ absurd (n ((text_eq_law a c).0 h ∙ sym ((text_eq_law b c).0 same)))
]

pub find_semester-put_semester :
    (c : Text) (s : Semester) (m : List Semester)
    → find_semester c (put_semester s m) ≡ (if s.code == c then some s else find_semester c m)
unfolding find_semester put_semester
find_semester-put_semester c s [] = refl
find_semester-put_semester c s (x ∷ xs) = elim (Bool-cases (x.code == s.code)) [
  | inl same ↦ elim (Bool-cases (s.code == c)) [
    | inl hit ↦ rw (same, hit) refl
    | inr miss ↦
        let elsewhere : (x.code == c) ≡ false =
          ap (λ y. y == c) ((text_eq_law x.code s.code).0 same) ∙ miss in
        rw (same, miss, elsewhere) refl
  ]
  | inr other ↦ elim (Bool-cases (x.code == c)) [
    | inr miss ↦ rw (other, miss) (find_semester-put_semester c s xs)
    | inl hit ↦
        let elsewhere : (s.code == c) ≡ false =
          other_text x.code s.code c (λ e. ground (arith, other, (text_eq_law x.code s.code).1 e))
            hit in
        rw (other, hit, elsewhere) refl
  ]
]

find_semester-place_in :
    (c : Text) (s : Semester) (m : List Semester)
    → find_semester c (place_in s m) ≡ (if s.code == c then some s else find_semester c m)
unfolding find_semester place_in
find_semester-place_in c s [] = refl
find_semester-place_in c s (x ∷ xs) = elim (Bool-cases (text_lt s.code x.code)) [
  | inr later ↦ rw later refl
  | inl earlier ↦ elim (Bool-cases (x.code == c)) [
    | inr miss ↦ rw (earlier, miss) (find_semester-place_in c s xs)
    | inl hit ↦
        let elsewhere : (s.code == c) ≡ false =
          other_text x.code s.code c
            (λ e.
              ground (arith, subst (λ y. text_lt s.code y ≡ true) e earlier, text_lt_irrefl s.code))
            hit in
        rw (earlier, hit, elsewhere) refl
  ]
]

pub find_semester-newest_first :
    (c : Text) (m : List Semester) → find_semester c (newest_first m) ≡ find_semester c m
unfolding newest_first find_semester
find_semester-newest_first c [] = refl
find_semester-newest_first c (s ∷ ss) =
    find_semester-place_in c s (newest_first ss)
    ∙ ap (λ o. if s.code == c then some s else o) (find_semester-newest_first c ss)

-- What is there, or else what is wanted.
abbrev pub or_wanted : Option Semester → Bool → Text → Option Semester
or_wanted (some s) wanted code = some s
or_wanted none true code = some (untouched code)
or_wanted none false code = none

or_wanted-false : (o : Option Semester) (c : Text) → or_wanted o false c ≡ o
or_wanted-false none c = refl
or_wanted-false (some s) c = refl

or_wanted_twice :
    (o : Option Semester) (b w : Bool) (c : Text)
    → or_wanted (or_wanted o w c) (b && w) c ≡ or_wanted o w c
or_wanted_twice (some s) b w c = refl
or_wanted_twice none b true c = refl
or_wanted_twice none true false c = refl
or_wanted_twice none false false c = refl

find_semester-add_code_same :
    (c : Text) (planning : Semester) (m : List Semester)
    → find_semester c (add_code planning c m)
      ≡ or_wanted (find_semester c m) (not (passed_over planning c)) c
unfolding add_code untouched
find_semester-add_code_same c planning m = elim (Bool-cases (passed_over planning c)) [
  | inl passed ↦ rw (add_code, passed) (sym (or_wanted-false (find_semester c m) c))
  | inr near ↦ elim (Option-cases (find_semester c m)) [
    | inr (s, there) ↦ rw (add_code, near, there) there
    | inl absent ↦
        rw (add_code, near, absent)
          (find_semester-put_semester c (untouched c) m ∙ rw (eq_self c) refl)
  ]
]

find_semester-add_code_other :
    (c : Text) (planning : Semester) (code : Text) (m : List Semester)
    → (code == c) ≡ false
    → find_semester c (add_code planning code m) ≡ find_semester c m
unfolding add_code untouched
find_semester-add_code_other c planning code m other =
    elim (Bool-cases (passed_over planning code)) [
      | inl passed ↦ rw (add_code, passed) refl
      | inr near ↦ elim (Option-cases (find_semester code m)) [
        | inr (s, there) ↦ rw (add_code, near, there) refl
        | inl absent ↦
            rw (add_code, near, absent)
              (find_semester-put_semester c (untouched code) m ∙ rw other refl)
      ]
    ]

-- What the loop leaves under a code.
pub find_semester-add_near :
    (c : Text) (planning : Semester) (near : List Text) (m : List Semester)
    → find_semester c (add_near planning near m)
      ≡ or_wanted (find_semester c m) (contains near c && not (passed_over planning c)) c
unfolding add_near
find_semester-add_near c planning [] m = sym (or_wanted-false (find_semester c m) c)
find_semester-add_near c planning (code ∷ near) m = elim (Bool-cases (code == c)) [
  | inr other ↦ rw other (
      find_semester-add_near c planning near (add_code planning code m)
      ∙ ap (λ o. or_wanted o (contains near c && not (passed_over planning c)) c)
          (find_semester-add_code_other c planning code m other))
  | inl same ↦
      let added : find_semester c (add_code planning code m)
          ≡ or_wanted (find_semester c m) (not (passed_over planning c)) c =
        subst
          (λ x.
            find_semester c (add_code planning x m)
            ≡ or_wanted (find_semester c m) (not (passed_over planning c)) c)
          (sym ((text_eq_law code c).0 same)) (find_semester-add_code_same c planning m) in
      rw same (
        find_semester-add_near c planning near (add_code planning code m)
        ∙ ap (λ o. or_wanted o (contains near c && not (passed_over planning c)) c) added
        ∙ or_wanted_twice (find_semester c m) (contains near c) (not (passed_over planning c)) c)
]

-- Every one of these semesters that has the code.
abbrev pub AllOf : (Semester → Type 0) → List Semester → Type 0
AllOf P [] = Unit
AllOf P (s ∷ ss) = P s × AllOf P ss

AllOf-place_in :
    (P : Semester → Type 0) (s : Semester) (m : List Semester)
    → P s
    → AllOf P m
    → AllOf P (place_in s m)
unfolding place_in
AllOf-place_in P s [] p a = (p, tt)
AllOf-place_in P s (x ∷ xs) p (q, a) = elim (Bool-cases (text_lt s.code x.code)) [
  | inr later ↦ rw later (p, (q, a))
  | inl earlier ↦ rw earlier (q, AllOf-place_in P s xs p a)
]

pub AllOf-newest_first :
    (P : Semester → Type 0) (m : List Semester) → AllOf P m → AllOf P (newest_first m)
unfolding newest_first
AllOf-newest_first P [] a = tt
AllOf-newest_first P (s ∷ ss) (p, a) =
    AllOf-place_in P s (newest_first ss) p (AllOf-newest_first P ss a)

-- Storing semesters none of which has the code.
pub find_semester-put_all-none :
    (c : Text) (ss m : List Semester)
    → find_semester c ss ≡ none
    → find_semester c (put_all ss m) ≡ find_semester c m
unfolding put_all find_semester
find_semester-put_all-none c [] m h = refl
find_semester-put_all-none c (s ∷ ss) m h = elim (Bool-cases (s.code == c)) [
  | inl hit ↦
      absurd (ground (arith, subst (λ b. (if b then some s else find_semester c ss) ≡ none) hit h))
  | inr miss ↦
      find_semester-put_all-none c ss (put_semester s m)
        (subst (λ b. (if b then some s else find_semester c ss) ≡ none) miss h)
      ∙ find_semester-put_semester c s m
      ∙ rw miss refl
]

-- Storing semesters of which those with the code are one and the same.
pub find_semester-put_all-some :
    (c : Text) (ss m : List Semester) (only : Semester)
    → AllOf (λ s. (s.code == c) ≡ true → s ≡ only) ss
    → (find_semester c ss ≡ some only) ⊎ (find_semester c m ≡ some only)
    → find_semester c (put_all ss m) ≡ some only
unfolding put_all find_semester
find_semester-put_all-some c [] m only a (inl h) = absurd (ground (arith, h))
find_semester-put_all-some c [] m only a (inr h) = h
find_semester-put_all-some c (s ∷ ss) m only (p, a) o = elim (Bool-cases (s.code == c)) [
  | inl hit ↦
      find_semester-put_all-some c ss (put_semester s m) only a
        (inr (find_semester-put_semester c s m ∙ rw hit (ap some (p hit))))
  | inr miss ↦ elim o [
    | inl h ↦
        find_semester-put_all-some c ss (put_semester s m) only a
          (inl (subst (λ b. (if b then some s else find_semester c ss) ≡ some only) miss h))
    | inr h ↦
        find_semester-put_all-some c ss (put_semester s m) only a
          (inr (find_semester-put_semester c s m ∙ rw miss h))
  ]
]
