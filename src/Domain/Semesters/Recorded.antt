-- ===== src/Domain/Semesters/Recorded.antt =====
-- internal/domain/semester.go: what is read of a semester that has a row.
use mathlib.Core.Path.{subst}
use tallox_go.Prelude.{
  ℕ, leb, Text, codes, Unicode, trim_space, to_upper, is_plain, trim_space-plain, to_upper-plain,
  [], ◌∷◌, some, true, false, ◌&&◌, ◌||◌, ◌==◌, nat_comparable, nat_eq_iff, text_comparable,
  text_eq_law, ◌≡◌, ◌≢◌, inl, inr, refl, sym, ap, ◌∙◌, arith, Bool-cases, both_true,
}
use tallox_go.Prelude.Results.{err, ok, ok_unique, Result-cases}
use tallox_go.Principal.{Actor, nil_uuid}
use tallox_go.Policy.Semester.{may_read_semesters}
use tallox_go.Domain.Calendar.{Moment, semester_code_pattern, is_plannable, is_digit}
use tallox_go.Domain.Semesters.{SemesterError, forbidden, by_code, plannable, recorded}
use tallox_go.Domain.Semesters.Evolution.{found_row}
use tallox_go.Domain.Semesters.Refinement.Rows.{guarded}
use tallox_go.Domain.Semesters.Invariant.{Sound, WellFormed}
use tallox_go.Store.Semesters.{Row, Table, Semester, semester_from, semester_by_code, select}
use tallox_go.Store.Semesters.Apart.{select_code, Every-IsIn, IsIn}

term-is_plain :
    (term : Text) → (term == codes "SS" || term == codes "WS") ≡ true → is_plain term ≡ true
term-is_plain term h = elim (Bool-cases (term == codes "SS")) [
  | inl summer ↦ rw ((text_eq_law term (codes "SS")).0 summer) refl
  | inr other ↦ rw ((text_eq_law term (codes "WS")).0 (ground (arith, other, h))) refl
]

digit-is_plain :
    (c : ℕ) (t : Text) → is_digit c ≡ true → is_plain t ≡ true → is_plain (c ∷ t) ≡ true
digit-is_plain c t h plain = ground (arith, h, plain)

pattern-is_plain : (code : Text) → semester_code_pattern code ≡ true → is_plain code ≡ true
unfolding semester_code_pattern
pattern-is_plain [] h = refl
pattern-is_plain (a ∷ []) h = ground (arith, h)
pattern-is_plain (a ∷ b ∷ []) h = ground (arith, h)
pattern-is_plain (a ∷ b ∷ c ∷ []) h = ground (arith, h)
pattern-is_plain (a ∷ b ∷ c ∷ d ∷ []) h = ground (arith, h)
pattern-is_plain (a ∷ b ∷ c ∷ d ∷ e ∷ term) h =
    let (h4, in_term) = both_true _ (term == codes "SS" || term == codes "WS") h in
    let (h3, dash) = both_true _ (e == b'-') h4 in
    let (h2, d_digit) = both_true _ (is_digit d) h3 in
    let (h1, c_digit) = both_true _ (is_digit c) h2 in
    let (a_digit, b_digit) = both_true (is_digit a) (is_digit b) h1 in
    let dash_plain : (leb 33 e && (leb e 96 && is_plain term)) ≡ true =
      ground (arith, dash, term-is_plain term in_term) in
    digit-is_plain a (b ∷ c ∷ d ∷ e ∷ term) a_digit (
      digit-is_plain b (c ∷ d ∷ e ∷ term) b_digit
        (digit-is_plain c (d ∷ e ∷ term) c_digit (digit-is_plain d (e ∷ term) d_digit dash_plain)))

module _ (u : Unicode) where
  plannable-same :
      (at : Moment) (code normal : Text)
      → is_plain code ≡ true
      → plannable u at code ≡ ok normal
      → normal ≡ code
  unfolding plannable
  plannable-same at code normal h e =
      sym
        (guarded (semester_code_pattern (to_upper u (trim_space u code)))
          (is_plannable at (to_upper u (trim_space u code))) (to_upper u (trim_space u code)) normal
          e).1
      ∙ ap (to_upper u) (trim_space-plain u code h)
      ∙ to_upper-plain u code h

  by_code_barred :
      (at : Moment) (actor : Actor) (code : Text) (t : Table)
      → may_read_semesters actor ≡ false
      → by_code u at actor code t ≡ err forbidden
  unfolding by_code
  by_code_barred at actor code t barred = rw (by_code, barred) refl

  by_code_unfit :
      (at : Moment) (actor : Actor) (code : Text) (t : Table) (e : SemesterError)
      → may_read_semesters actor ≡ true
      → plannable u at code ≡ err e
      → by_code u at actor code t ≡ err e
  unfolding by_code
  by_code_unfit at actor code t e may unfit = rw (by_code, may, unfit) refl

  by_code_recorded :
      (at : Moment) (actor : Actor) (code : Text) (t : Table) (s : Row)
      → may_read_semesters actor ≡ true
      → plannable u at code ≡ ok code
      → semester_by_code code t ≡ semester_from s
      → s.id ≢ nil_uuid
      → by_code u at actor code t ≡ ok (semester_from s)
  unfolding by_code recorded semester_from
  by_code_recorded at actor code t s may fits row given =
      let there : recorded (semester_from s) ≡ true =
        ground (arith, given, nat_eq_iff s.id nil_uuid) in
      rw (by_code, may, fits, row) (rw there refl)

  -- What the rule is asked about is the row whose code is asked for.
  pub by_code-listed :
      (at : Moment) (actor : Actor) (code : Text) (t : Table) (s : Row) (semester : Semester)
      → WellFormed t
      → s.id ≢ nil_uuid
      → by_code u at actor code t ≡ ok semester
      → IsIn s t
      → s.code ≡ code
      → semester ≡ semester_from s
  unfolding by_code
  by_code-listed at actor code t s semester w given h i e =
      let fits = (Every-IsIn Sound s t w.sound_rows i).0 in
      let plain = pattern-is_plain code (subst (λ c. semester_code_pattern c ≡ true) e fits) in
      let row =
        found_row code t s
          (subst (λ c. select (λ x. x.code == c) t ≡ some s) e (select_code t s w.apart i)) in
      elim (Bool-cases (may_read_semesters actor)) [
        | inr barred ↦ absurd (ground (arith, h, by_code_barred at actor code t barred))
        | inl may ↦ elim (Result-cases (plannable u at code)) [
          | inl (r, unfit) ↦ absurd (ground (arith, h, by_code_unfit at actor code t r may unfit))
          | inr (normal, fit) ↦
              let same = plannable-same at code normal plain fit in
              ok_unique (by_code u at actor code t) semester (semester_from s) h
                (by_code_recorded at actor code t s may (fit ∙ ap ok same) row given)
        ]
      ]
