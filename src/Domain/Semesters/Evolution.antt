-- ===== src/Domain/Semesters/Evolution.antt =====
-- internal/domain/semester.go: what a reader sees of a semester after more calls.
use mathlib.Core.Path.{subst}
use tallox_go.Prelude.{
  Text, Unicode, List, Option, none, some, true, false, not, ◌==◌, nat_comparable, text_comparable,
  text_eq_law, ◌≡◌, ◌≢◌, refl, sym, ap, ◌∙◌, arith, Bool-cases, Option-cases, ◌⊎◌, inl, inr,
  to_upper, trim_space,
}
use tallox_go.Prelude.Results.{Result, Result-cases, err, ok}
use tallox_go.Principal.{Actor, nil_uuid}
use tallox_go.Policy.Semester.{Time, may_read_semesters}
use tallox_go.Domain.Calendar.{Moment, semester_code_pattern, is_plannable}
use tallox_go.Store.Semesters.{
  Row, Table, Semester, no_semester, never, nullable_time, semester_from, semester_by_code, select,
}
use tallox_go.Store.Semesters.Rewrites.{Kept, Kept-refl, Kept-trans, Stays}
use tallox_go.Store.Semesters.Apart.{IsIn, IsIn-map, select-IsIn, select_code}
use tallox_go.Domain.Semesters.{
  SemesterError, forbidden, out_of_range, untouched, recorded, plannable, by_code,
}
use tallox_go.Domain.Semesters.Requests.{Reach, here, next, Call, serve}
use tallox_go.Domain.Semesters.Refinement.{serve-Reach}
use tallox_go.Domain.Semesters.Refinement.Rows.{guarded}
use tallox_go.Domain.Semesters.Shape.{Shape, unchanged, rewrites, adds, Statement-Shape}
use tallox_go.Domain.Semesters.Invariant.{WellFormed, serve-WellFormed}

-- What has become of a row.
abbrev pub Survives : Row → Table → Type 0
Survives r t = (r' : Row) × IsIn r' t × Kept r r'

Shape-Survives : (t t' : Table) (r : Row) → Shape t t' → IsIn r t → Survives r t'
Shape-Survives t t' r (unchanged _ e) h = (r, subst (IsIn r) (sym e) h, Kept-refl r)
Shape-Survives t t' r (rewrites _ g k a e) h =
    (g r, subst (IsIn (g r)) (sym e) (IsIn-map g r t h), k.kept r)
Shape-Survives t t' r (adds _ now id code p a e) h =
    (r, subst (IsIn r) (sym e) (inr h), Kept-refl r)

Reach-Survives : {t t' : Table} (r : Row) → Reach t t' → IsIn r t → Survives r t'
Reach-Survives r here h = (r, h, Kept-refl r)
Reach-Survives r (next steps s) h =
    let (r', h', k) = Reach-Survives r steps h in
    let (r'', h'', k') = Shape-Survives _ _ r' (Statement-Shape _ _ s) h' in
    (r'', h'', Kept-trans r r' r'' k k')

-- A moment that is set is the same later.
abbrev pub Lasts : Time → Time → Type 0
Lasts before after = before ≢ never → after ≡ before

Lasts-Stays : (o o' : Option Time) → Stays o o' → Lasts (nullable_time o) (nullable_time o')
Lasts-Stays none o' h n = absurd (n refl)
Lasts-Stays (some t) o' h n = ap nullable_time h

pub found_row :
    (code : Text) (t : Table) (r : Row)
    → select (λ r. r.code == code) t ≡ some r
    → semester_by_code code t ≡ semester_from r
unfolding semester_by_code
found_row code t r found = rw (semester_by_code, found) refl

-- The row that stands for what is read.
read_row :
    (code : Text) (t : Table) (s : Semester)
    → semester_by_code code t ≡ s
    → recorded s ≡ true
    → (r : Row) × IsIn r t × (r.code ≡ code) × (semester_from r ≡ s)
unfolding semester_by_code recorded
read_row code t s e h = elim (Option-cases (select (λ r. r.code == code) t)) [
  | inl absent ↦
      let missing : semester_by_code code t ≡ no_semester = rw (semester_by_code, absent) refl in
      absurd (ground (arith, subst (λ x. recorded x ≡ true) (sym e ∙ missing) h))
  | inr (r, found) ↦ (
    r,
    (select-IsIn _ t r found).0,
    (text_eq_law r.code code).0 (select-IsIn _ t r found).1,
    sym (found_row code t r found) ∙ e,
  )
]

answered : Semester → Result SemesterError Semester
answered s = ok s

ok-injective : {s s' : Semester} → answered s ≡ answered s' → s ≡ s'
unfolding answered
ok-injective {s} {s'} h = ap (λ r. elim r [ ok x ↦ x | err e ↦ s ]) h

untouched_blank : (code : Text) → recorded (untouched code) ≡ false
unfolding recorded untouched
untouched_blank code = refl

-- One semester as it is read at two times.
abbrev pub Later : Semester → Semester → Type 0
Later s s' =
    (s'.id ≡ s.id)
    × (s'.code ≡ s.code)
    × Lasts s.wishes_published_at s'.wishes_published_at
    × Lasts s.assignments_published_at s'.assignments_published_at
    × Lasts s.desired_hours_published_at s'.desired_hours_published_at

Kept-Later : (r r' : Row) → Kept r r' → Later (semester_from r) (semester_from r')
unfolding semester_from
Kept-Later r r' k = (
  k.same_id,
  k.same_code,
  Lasts-Stays _ _ k.wishes_stay,
  Lasts-Stays _ _ k.assignments_stay,
  Lasts-Stays _ _ k.hours_stay,
)

recorded-Later : (s s' : Semester) → Later s s' → recorded s ≡ true → recorded s' ≡ true
unfolding recorded
recorded-Later s s' l h = subst (λ i. not (i == nil_uuid) ≡ true) (sym l.0) h

module _ (u : Unicode) where
  -- No call deletes a semester or takes anything back: a row is there after any calls, with the same
  -- id, code and moment of creation; the moments of publication and of the freeze that were set are
  -- the same, and its phase has only gone along steps between neighbours.
  pub serve-Survives : (cs : List Call) (t : Table) (r : Row) → IsIn r t → Survives r (serve u cs t)
  serve-Survives cs t r = Reach-Survives r (serve-Reach u cs t)

  by_code_read :
      (at : Moment) (actor : Actor) (code normal : Text) (t : Table)
      → may_read_semesters actor ≡ true
      → plannable u at code ≡ ok normal
      → recorded (semester_by_code normal t) ≡ true
      → by_code u at actor code t ≡ ok (semester_by_code normal t)
  unfolding by_code
  by_code_read at actor code normal t may fits there = rw (by_code, may, fits, there) refl

  -- A recorded answer is the row of a code that fits, for one who may read.
  by_code-recorded :
      (at : Moment) (actor : Actor) (code : Text) (t : Table) (s : Semester)
      → by_code u at actor code t ≡ ok s
      → recorded s ≡ true
      → (normal : Text) × (may_read_semesters actor ≡ true)
        × (plannable u at code ≡ ok normal)
        × (semester_by_code normal t ≡ s)
  unfolding by_code recorded answered
  by_code-recorded at actor code t s h there = elim (Bool-cases (may_read_semesters actor)) [
    | inr barred ↦
        let refused : by_code u at actor code t ≡ err forbidden = rw (by_code, barred) refl in
        absurd (ground (arith, sym h ∙ refused))
    | inl may ↦ elim (Result-cases (plannable u at code)) [
      | inl (e, unfit) ↦
          let refused : by_code u at actor code t ≡ err e = rw (by_code, may, unfit) refl in
          absurd (ground (arith, sym h ∙ refused))
      | inr (normal, fits) ↦ elim (Bool-cases (recorded (semester_by_code normal t))) [
        | inl found ↦ (
          normal,
          may,
          fits,
          ok-injective (sym (by_code_read at actor code normal t may fits found) ∙ h),
        )
        | inr absent ↦
            let blank : by_code u at actor code t ≡ ok (untouched normal) =
              rw (by_code, may, fits, absent) refl in
            absurd (
              ground (
                arith,
                untouched_blank normal,
                subst (λ x. recorded x ≡ true) (ok-injective (sym h ∙ blank)) there,
              ))
      ]
    ]
  ]

  -- The moment of a reading only decides whether the code is still near enough.
  plannable_again :
      (at at' : Moment) (code normal : Text)
      → plannable u at code ≡ ok normal
      → (plannable u at' code ≡ err out_of_range) ⊎ (plannable u at' code ≡ ok normal)
  unfolding plannable
  plannable_again at at' code normal h =
      let text = to_upper u (trim_space u code) in
      let both = guarded (semester_code_pattern text) (is_plannable at text) text normal h in
      elim (Bool-cases (is_plannable at' text)) [
        | inr far ↦ inl (rw (plannable, both.0, far) refl)
        | inl near ↦ inr (rw (plannable, both.0, near) (ap ok both.1))
      ]

  -- What a reader gets for a semester that is recorded, and then, after any calls and at any other
  -- moment, for the same code: the same semester, with the moments of publication that it had, unless
  -- at that moment the code is out of range and the reader is told so.
  pub by_code-serve :
      (at at' : Moment) (actor : Actor) (code : Text) (cs : List Call) (t : Table) (s : Semester)
      → WellFormed t
      → by_code u at actor code t ≡ ok s
      → recorded s ≡ true
      → ((plannable u at' code ≡ err out_of_range)
          × (by_code u at' actor code (serve u cs t) ≡ err out_of_range))
        ⊎ ((s' : Semester) × (by_code u at' actor code (serve u cs t) ≡ ok s') × Later s s')
  unfolding by_code
  by_code-serve at at' actor code cs t s w h there =
      let (normal, may, fits, seen) = by_code-recorded at actor code t s h there in
      let (r, listed, same_code, from_row) = read_row normal t s seen there in
      let (r', listed', k) = serve-Survives cs t r listed in
      let again = found_row normal (serve u cs t) r' (
        subst (λ c. select (λ x. x.code == c) (serve u cs t) ≡ some r') (k.same_code ∙ same_code)
          (select_code (serve u cs t) r' (serve-WellFormed u cs t w).apart listed')) in
      let now_on : Later s (semester_from r') =
        subst (λ x. Later x (semester_from r')) from_row (Kept-Later r r' k) in
      elim (plannable_again at at' code normal fits) [
        | inl far ↦ inl (far, rw (by_code, may, far) refl)
        | inr fits' ↦ inr (
          semester_from r',
          subst (λ x. by_code u at' actor code (serve u cs t) ≡ ok x) again
              (by_code_read at' actor code normal (serve u cs t) may fits' (
                subst (λ x. recorded x ≡ true) (sym again)
                  (recorded-Later s (semester_from r') now_on there))),
          now_on,
        )
      ]
