-- ===== src/Domain/Semesters/Listing/Complete.antt =====
-- The list of semesters against the table and the calendar.
use mathlib.Core.Path.{subst}
use mathlib.Core.Option.{some-injective}
use tallox_go.Prelude.{
  Text, List, [], ◌∷◌, map, contains, Option, none, some, true, false, not, ◌&&◌, ◌==◌, text_lt,
  text_comparable, text_eq_law, if◌then◌else◌, ◌≡◌, refl, sym, ap, ◌∙◌, arith, Bool-cases,
  Option-cases, inl, inr,
}
use tallox_go.Prelude.Results.{ok}
use tallox_go.Principal.{Actor}
use tallox_go.Policy.Semester.{may_read_semesters}
use tallox_go.Domain.Calendar.{Moment, semesters_around, window_back, window_forward}
use tallox_go.Store.Semesters.{Row, Table, Semester, semester_from, planning_semester, select}
use tallox_go.Store.Semesters.Apart.{AllApart, IsIn, select-IsIn, select_code}
use tallox_go.Domain.Semesters.{recorded}
use tallox_go.Domain.Semesters.Invariant.{WellFormed}
use tallox_go.Domain.Semesters.Listing.{
  place_in, newest_first, all_semesters, find_semester, put_all, put_planning, passed_over,
  add_near, list_of, list_semesters,
}
use tallox_go.Domain.Semesters.Listing.Find.{
  find_semester-newest_first, find_semester-put_semester, or_wanted, find_semester-add_near, AllOf,
  AllOf-newest_first, find_semester-put_all-none, find_semester-put_all-some,
}

-- The semester of a row, or none.
abbrev pub shown : Option Row → Option Semester
shown none = none
shown (some r) = some (semester_from r)

find_semester-map :
    (c : Text) (t : Table)
    → find_semester c (map semester_from t) ≡ shown (select (λ r. r.code == c) t)
unfolding find_semester select semester_from
find_semester-map c [] = refl
find_semester-map c (r ∷ rs) = elim (Bool-cases (r.code == c)) [
  | inl hit ↦ rw hit refl
  | inr miss ↦ rw miss (find_semester-map c rs)
]

find_semester-all_semesters :
    (c : Text) (t : Table) → find_semester c (all_semesters t) ≡ shown (select (λ r. r.code == c) t)
unfolding all_semesters
find_semester-all_semesters c t =
    find_semester-newest_first c (map semester_from t) ∙ find_semester-map c t

-- The rows of a code are one.
same_row :
    (c : Text) (t : Table) (r r' : Row)
    → AllApart t
    → select (λ x. x.code == c) t ≡ some r
    → IsIn r' t
    → (r'.code == c) ≡ true
    → r' ≡ r
same_row c t r r' a h listed e = some-injective _ _ (
    sym (
      subst (λ x. select (λ y. y.code == x) t ≡ some r') ((text_eq_law r'.code c).0 e)
        (select_code t r' a listed))
    ∙ h)

only_row :
    (c : Text) (t : Table) (r : Row) (rs : Table)
    → ((r' : Row) → IsIn r' rs → (r'.code == c) ≡ true → r' ≡ r)
    → AllOf (λ s. (s.code == c) ≡ true → s ≡ semester_from r) (map semester_from rs)
unfolding semester_from
only_row c t r [] h = tt
only_row c t r (x ∷ rs) h =
    (λ e. ap semester_from (h x (inl refl) e), only_row c t r rs (λ r' l. h r' (inr l)))

find_semester-stored :
    (c : Text) (t : Table)
    → AllApart t
    → find_semester c (put_all (all_semesters t) []) ≡ shown (select (λ r. r.code == c) t)
unfolding find_semester all_semesters
find_semester-stored c t a = elim (Option-cases (select (λ r. r.code == c) t)) [
  | inl absent ↦
      find_semester-put_all-none c (all_semesters t) []
        (find_semester-all_semesters c t ∙ ap shown absent)
      ∙ sym (ap shown absent)
  | inr (r, found) ↦
      find_semester-put_all-some c (all_semesters t) [] (semester_from r)
        (AllOf-newest_first _ _ (only_row c t r t (λ r' l e. same_row c t r r' a found l e)))
        (inl (find_semester-all_semesters c t ∙ ap shown found))
      ∙ sym (ap shown found)
]

already :
    (c : Text) (t : Table) (m : List Semester) (r : Row)
    → AllApart t
    → find_semester c m ≡ shown (select (λ x. x.code == c) t)
    → IsIn r t
    → (if r.code == c then some (semester_from r) else find_semester c m) ≡ find_semester c m
already c t m r a stored listed = elim (Bool-cases (r.code == c)) [
  | inr miss ↦ rw miss refl
  | inl hit ↦
      let selected : select (λ x. x.code == c) t ≡ some r =
        subst (λ y. select (λ x. x.code == y) t ≡ some r) ((text_eq_law r.code c).0 hit)
          (select_code t r a listed) in
      rw hit (sym (stored ∙ ap shown selected))
]

-- The planning semester is one of the table, so storing it once more changes nothing.
find_semester-put_planning :
    (c : Text) (t : Table) (m : List Semester)
    → AllApart t
    → find_semester c m ≡ shown (select (λ r. r.code == c) t)
    → find_semester c (put_planning (planning_semester t) m) ≡ find_semester c m
unfolding put_planning recorded planning_semester semester_from
find_semester-put_planning c t m a stored = elim (Option-cases (select (λ r. r.is_planning) t)) [
  | inl nobody ↦ rw (planning_semester, nobody) refl
  | inr (r, marked) ↦ elim (Bool-cases (recorded (semester_from r))) [
    | inr blank ↦ rw (planning_semester, marked, blank) refl
    | inl there ↦
        rw (planning_semester, marked, there)
          (find_semester-put_semester c (semester_from r) m
            ∙ already c t m r a stored (select-IsIn _ t r marked).0)
  ]
]

-- `a` is not before `b`.
abbrev pub NewestFirst : List Semester → Type 0
NewestFirst [] = Unit
NewestFirst (s ∷ []) = Unit
NewestFirst (s ∷ x ∷ xs) = (text_lt s.code x.code ≡ false) × NewestFirst (x ∷ xs)

text_lt_asym : (s t : Text) → text_lt s t ≡ true → text_lt t s ≡ false
unfolding text_lt
text_lt_asym s [] h = ground (arith, h)
text_lt_asym [] (d ∷ t) h = refl
text_lt_asym (c ∷ s) (d ∷ t) h = ground (arith, h, text_lt_asym s t)

NewestFirst-place_in :
    (s : Semester) (m : List Semester) → NewestFirst m → NewestFirst (place_in s m)
unfolding place_in
NewestFirst-place_in s [] h = tt
NewestFirst-place_in s (x ∷ []) h = elim (Bool-cases (text_lt s.code x.code)) [
  | inr later ↦ rw later (later, tt)
  | inl earlier ↦ rw earlier (text_lt_asym s.code x.code earlier, tt)
]
NewestFirst-place_in s (x ∷ y ∷ ys) (xy, h) = elim (Bool-cases (text_lt s.code x.code)) [
  | inr later ↦ rw later (later, (xy, h))
  | inl earlier ↦ elim (Bool-cases (text_lt s.code y.code)) [
    | inr between ↦ rw (earlier, between) (text_lt_asym s.code x.code earlier, (between, h))
    | inl before ↦
        rw (earlier, before)
          (
            xy,
            subst (λ b. NewestFirst (if b then y ∷ place_in s ys else s ∷ y ∷ ys)) before
                (NewestFirst-place_in s (y ∷ ys) h),
          )
  ]
]

pub NewestFirst-newest_first : (m : List Semester) → NewestFirst (newest_first m)
unfolding newest_first
NewestFirst-newest_first [] = tt
NewestFirst-newest_first (s ∷ ss) =
    NewestFirst-place_in s (newest_first ss) (NewestFirst-newest_first ss)

-- Whoever may read gets the semesters in the order of their codes, the newest first. Under each code
-- stands, if the table is well-formed, the row that it has for it, or else the untouched semester if
-- it is one of those around the moment and not before the planning semester, and nothing otherwise.
pub list_semesters-find_semester :
    (at : Moment) (actor : Actor) (t : Table) (c : Text)
    → WellFormed t
    → may_read_semesters actor ≡ true
    → (ss : List Semester) × (list_semesters at actor t ≡ ok ss)
      × NewestFirst ss
      × (find_semester c ss
          ≡ or_wanted
              (shown (select (λ r. r.code == c) t))
              (contains (semesters_around at window_back window_forward) c
                && not (passed_over (planning_semester t) c))
              c)
unfolding list_semesters list_of
list_semesters-find_semester at actor t c w may =
    let stored = find_semester-stored c t w.apart in
    (
      list_of at t,
      rw (list_semesters, may) refl,
      NewestFirst-newest_first (
          add_near (planning_semester t) (semesters_around at window_back window_forward)
            (put_planning (planning_semester t) (put_all (all_semesters t) []))),
      find_semester-newest_first c _
          ∙ find_semester-add_near c (planning_semester t)
              (semesters_around at window_back window_forward) _
          ∙ ap
              (λ o.
                or_wanted o
                  (contains (semesters_around at window_back window_forward) c
                    && not (passed_over (planning_semester t) c))
                  c)
              (find_semester-put_planning c t (put_all (all_semesters t) []) w.apart stored
                ∙ stored),
    )
