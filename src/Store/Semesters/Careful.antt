-- ===== src/Store/Semesters/Careful.antt =====
-- The statements of db/queries/semester.sql row by row: what each leaves alone.
use mathlib.Core.Path.{subst}
use tallox_go.Prelude.{
  ℕ, Option, none, some, Bool, true, false, not, ◌&&◌, ◌==◌, nat_comparable, text_comparable, ◌≡◌,
  refl, sym, arith,
}
use tallox_go.Principal.{Uuid}
use tallox_go.Policy.Phase.{Phase, phase_comparable, may_move_to}
use tallox_go.Policy.Phase.Steps.{IsKnown, Moves, here, move, may_move_to_sym}
use tallox_go.Policy.Semester.{Time}
use tallox_go.Store.Semesters.{
  Row, coalesce, is_set, publish_wishes_row, publish_assignments_row, freeze_row, publish_hours_row,
  set_due_row, mark_planning_row,
}
use tallox_go.Store.Semesters.Rewrites.{
  Stays, Stays-refl, Stays-coalesce, Kept, Kept-refl, rewritten, rewritten-property,
}

-- Hours are published only once they are frozen.
abbrev pub HoursInOrder : Row → Type 0
HoursInOrder r =
    is_set r.desired_hours_published_at ≡ true → is_set r.desired_hours_frozen_at ≡ true

-- What a statement that sets columns of rows may do.
pub record Careful (g : Row → Row) : Type 0 where
  pub kept : (r : Row) → Kept r (g r)
  pub known : (r : Row) → IsKnown r.phase → IsKnown (g r).phase
  pub in_order : (r : Row) → HoursInOrder r → HoursInOrder (g r)

pub Careful-rewritten :
    (p : Row → Bool) (f : Row → Row)
    → ((r : Row) → p r ≡ true → Kept r (f r))
    → ((r : Row) → p r ≡ true → IsKnown r.phase → IsKnown (f r).phase)
    → ((r : Row) → p r ≡ true → HoursInOrder r → HoursInOrder (f r))
    → Careful (rewritten p f)
Careful-rewritten p f k n o = record {
  kept = λ r. rewritten-property (Kept r) p f r (Kept-refl r) (k r);
  known = λ r h. rewritten-property (λ x. IsKnown x.phase) p f r h (λ hit. n r hit h);
  in_order = λ r h. rewritten-property HoursInOrder p f r h (λ hit. o r hit h);
}

is_set-coalesce : (o : Option Time) (now : Time) → is_set (coalesce o now) ≡ true
is_set-coalesce none now = refl
is_set-coalesce (some t) now = refl

-- Rows that agree in id, code and creation.
alike :
    (r r' : Row)
    → (r'.id ≡ r.id) × (r'.code ≡ r.code) × (r'.created_at ≡ r.created_at)
    → (n : ℕ) × Moves n r.phase r'.phase
    → Stays r.wishes_published_at r'.wishes_published_at
    → Stays r.assignments_published_at r'.assignments_published_at
    → Stays r.desired_hours_frozen_at r'.desired_hours_frozen_at
    → Stays r.desired_hours_published_at r'.desired_hours_published_at
    → Kept r r'
alike r r' (i, c, a) m w s f h = record {
  same_id = i;
  same_code = c;
  same_creation = a;
  phase_moves = m;
  wishes_stay = w;
  assignments_stay = s;
  freeze_stays = f;
  hours_stay = h;
}

pub advance-Careful :
    (now : Time) (id : Uuid) (from to : Phase)
    → may_move_to from to ≡ true
    → Careful (
        rewritten
          (λ r. r.id == id && r.phase == from)
          (λ r. record r { phase = to; updated_at = now }))
advance-Careful now id from to m =
    Careful-rewritten _ _
      (λ r hit.
        alike r _ (refl, refl, refl) (1, move (stepping r hit) here) (Stays-refl _) (Stays-refl _)
          (Stays-refl _) (Stays-refl _))
      (λ r hit h. ((may_move_to_sym from to).2 m).1) (λ r hit h. h)
  where
    stepping : (r : Row) → (r.id == id && r.phase == from) ≡ true → may_move_to r.phase to ≡ true
    stepping r hit =
        subst (λ p. may_move_to p to ≡ true)
          (sym ((phase_comparable.eq_law r.phase from).0 (ground (arith, hit)))) m

pub publish_wishes-Careful :
    (now : Time) (id : Uuid) → Careful (rewritten (λ r. r.id == id) (publish_wishes_row now))
publish_wishes-Careful now id =
    Careful-rewritten _ _
      (λ r hit.
        alike r _ (refl, refl, refl) (0, here) (Stays-coalesce _ now) (Stays-refl _) (Stays-refl _)
          (Stays-refl _))
      (λ r hit h. h) (λ r hit h. h)

pub publish_assignments-Careful :
    (now : Time) (id : Uuid) → Careful (rewritten (λ r. r.id == id) (publish_assignments_row now))
publish_assignments-Careful now id =
    Careful-rewritten _ _
      (λ r hit.
        alike r _ (refl, refl, refl) (0, here) (Stays-refl _) (Stays-coalesce _ now) (Stays-refl _)
          (Stays-refl _))
      (λ r hit h. h) (λ r hit h. h)

pub freeze-Careful :
    (now : Time) (id by : Uuid) → Careful (rewritten (λ r. r.id == id) (freeze_row now by))
freeze-Careful now id by =
    Careful-rewritten _ _
      (λ r hit.
        alike r _ (refl, refl, refl) (0, here) (Stays-refl _) (Stays-refl _) (Stays-coalesce _ now)
          (Stays-refl _))
      (λ r hit h. h) (λ r hit h published. is_set-coalesce r.desired_hours_frozen_at now)

pub publish_hours-Careful :
    (now : Time) (id by : Uuid)
    → Careful
        (rewritten (λ r. r.id == id && is_set r.desired_hours_frozen_at) (publish_hours_row now by))
publish_hours-Careful now id by =
    Careful-rewritten _ _
      (λ r hit.
        alike r _ (refl, refl, refl) (0, here) (Stays-refl _) (Stays-refl _) (Stays-refl _)
          (Stays-coalesce _ now))
      (λ r hit h. h) (λ r hit h published. ground (arith, hit))

pub set_due-Careful :
    (now due : Time) (id by : Uuid) → Careful (rewritten (λ r. r.id == id) (set_due_row now due by))
set_due-Careful now due id by =
    Careful-rewritten _ _
      (λ r hit.
        alike r _ (refl, refl, refl) (0, here) (Stays-refl _) (Stays-refl _) (Stays-refl _)
          (Stays-refl _))
      (λ r hit h. h) (λ r hit h. h)

pub clear-Careful :
    (now : Time) (id : Uuid)
    → Careful (
        rewritten
          (λ r. r.is_planning && not (r.id == id))
          (λ r. record r { is_planning = false; updated_at = now }))
clear-Careful now id =
    Careful-rewritten _ _
      (λ r hit.
        alike r _ (refl, refl, refl) (0, here) (Stays-refl _) (Stays-refl _) (Stays-refl _)
          (Stays-refl _))
      (λ r hit h. h) (λ r hit h. h)

pub mark-Careful :
    (now : Time) (id by : Uuid) → Careful (rewritten (λ r. r.id == id) (mark_planning_row now by))
mark-Careful now id by =
    Careful-rewritten _ _
      (λ r hit.
        alike r _ (refl, refl, refl) (0, here) (Stays-refl _) (Stays-refl _) (Stays-refl _)
          (Stays-refl _))
      (λ r hit h. h) (λ r hit h. h)
