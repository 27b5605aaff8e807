-- ===== src/Domain/Semesters/Invariant.antt =====
-- internal/domain/semester.go: what holds of the table of semesters however it is used.
use mathlib.Core.Path.{subst}
use tallox_go.Prelude.{Unicode, List, true, ◌≡◌, sym}
use tallox_go.Policy.Phase.Steps.{IsKnown}
use tallox_go.Domain.Calendar.{semester_code_pattern}
use tallox_go.Store.Semesters.{Row, Table}
use tallox_go.Store.Semesters.Careful.{HoursInOrder, Careful}
use tallox_go.Store.Semesters.Apart.{Every, Every-map, AllApart, AllApart-map}
use tallox_go.Domain.Semesters.Requests.{Reach, here, next, Call, serve}
use tallox_go.Domain.Semesters.Refinement.{serve-Reach}
use tallox_go.Domain.Semesters.Shape.{Shape, unchanged, rewrites, adds, Statement-Shape}

-- A row by itself: a code of the pattern, one of the five phases, hours published only when frozen.
abbrev pub Sound : Row → Type 0
Sound r = (semester_code_pattern r.code ≡ true) × IsKnown r.phase × HoursInOrder r

-- Sound rows, no two of one id or one code, and no two that are the planning semester.
pub record WellFormed (t : Table) : Type 0 where
  pub sound_rows : Every Sound t
  pub apart : AllApart t

Careful-Sound : (g : Row → Row) → Careful g → (r : Row) → Sound r → Sound (g r)
Careful-Sound g k r (c, p, o) = (
  subst (λ x. semester_code_pattern x ≡ true) (sym ((k.kept r).same_code)) c,
  k.known r p,
  k.in_order r o,
)

Shape-WellFormed : (t t' : Table) → Shape t t' → WellFormed t → WellFormed t'
Shape-WellFormed t t' (unchanged _ e) w = subst WellFormed (sym e) w
Shape-WellFormed t t' (rewrites _ g k a e) w = subst WellFormed (sym e) (record {
  sound_rows = Every-map Sound Sound g t (Careful-Sound g k) w.sound_rows;
  apart = AllApart-map g t a w.apart;
})
Shape-WellFormed t t' (adds _ now id code h a e) w =
    subst WellFormed (sym e) (record {
      sound_rows = ((h, tt, λ published. published), w.sound_rows);
      apart = (a, w.apart);
    })

Reach-WellFormed : {t t' : Table} → Reach t t' → WellFormed t → WellFormed t'
Reach-WellFormed here w = w
Reach-WellFormed (next r s) w = Shape-WellFormed _ _ (Statement-Shape _ _ s) (Reach-WellFormed r w)

module _ (u : Unicode) where
  -- Every call keeps the table well-formed, whatever it answers: each code fits the pattern, each
  -- phase is one of the five, hours are published only when they are frozen, no two rows have one id
  -- or one code, and at most one semester is the planning semester.
  pub serve-WellFormed : (cs : List Call) (t : Table) → WellFormed t → WellFormed (serve u cs t)
  serve-WellFormed cs t = Reach-WellFormed (serve-Reach u cs t)
