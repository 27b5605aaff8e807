-- ===== src/Store/Semesters/Rewrites.antt =====
-- The statements of db/queries/semester.sql as rewritings of the rows: which columns each leaves alone.
use tallox_go.Prelude.{
  ℕ, [], ◌∷◌, map, Option, none, some, Bool, true, nat_comparable, text_comparable, if◌then◌else◌,
  ◌≡◌, refl, ap, ◌∙◌, arith, Bool-cases, inl, inr,
}
use tallox_go.Policy.Phase.{phase_comparable}
use tallox_go.Policy.Phase.Steps.{Moves, here, Moves_trans}
use tallox_go.Policy.Semester.{Time}
use tallox_go.Store.Semesters.{Row, Table, update, returned, coalesce}

-- A moment that is set stays as it is.
abbrev pub Stays : Option Time → Option Time → Type 0
Stays none after = Unit
Stays (some t) after = after ≡ some t

pub Stays-refl : (o : Option Time) → Stays o o
Stays-refl none = tt
Stays-refl (some t) = refl

pub Stays-trans : (o o' o'' : Option Time) → Stays o o' → Stays o' o'' → Stays o o''
Stays-trans none o' o'' h h' = tt
Stays-trans (some t) none o'' h h' = ground (arith, h)
Stays-trans (some t) (some t') o'' h h' = h' ∙ h

pub Stays-coalesce : (o : Option Time) (now : Time) → Stays o (coalesce o now)
Stays-coalesce none now = tt
Stays-coalesce (some t) now = refl

-- What no statement changes, and what none takes back.
pub record Kept (r r' : Row) : Type 0 where
  pub same_id : r'.id ≡ r.id
  pub same_code : r'.code ≡ r.code
  pub same_creation : r'.created_at ≡ r.created_at
  pub phase_moves : (n : ℕ) × Moves n r.phase r'.phase
  pub wishes_stay : Stays r.wishes_published_at r'.wishes_published_at
  pub assignments_stay : Stays r.assignments_published_at r'.assignments_published_at
  pub freeze_stays : Stays r.desired_hours_frozen_at r'.desired_hours_frozen_at
  pub hours_stay : Stays r.desired_hours_published_at r'.desired_hours_published_at

pub Kept-refl : (r : Row) → Kept r r
Kept-refl r = record {
  same_id = refl;
  same_code = refl;
  same_creation = refl;
  phase_moves = (0, here);
  wishes_stay = Stays-refl _;
  assignments_stay = Stays-refl _;
  freeze_stays = Stays-refl _;
  hours_stay = Stays-refl _;
}

pub Kept-trans : (r r' r'' : Row) → Kept r r' → Kept r' r'' → Kept r r''
Kept-trans r r' r'' k k' = record {
  same_id = k'.same_id ∙ k.same_id;
  same_code = k'.same_code ∙ k.same_code;
  same_creation = k'.same_creation ∙ k.same_creation;
  phase_moves = Moves_trans k.phase_moves.1 k'.phase_moves.1;
  wishes_stay = Stays-trans _ _ _ k.wishes_stay k'.wishes_stay;
  assignments_stay = Stays-trans _ _ _ k.assignments_stay k'.assignments_stay;
  freeze_stays = Stays-trans _ _ _ k.freeze_stays k'.freeze_stays;
  hours_stay = Stays-trans _ _ _ k.hours_stay k'.hours_stay;
}

-- The row of a statement: `p` selects, `f` assigns.
abbrev pub rewritten : (Row → Bool) → (Row → Row) → Row → Row
rewritten p f r = if p r then f r else r

pub update-map :
    (p : Row → Bool) (f : Row → Row) (t : Table) → (update p f t).1 ≡ map (rewritten p f) t
unfolding update
update-map p f [] = refl
update-map p f (r ∷ rs) = elim (Bool-cases (p r)) [
  | inl hit ↦ rw hit (ap (λ x. f r ∷ x) (update-map p f rs))
  | inr miss ↦ rw miss (ap (λ x. r ∷ x) (update-map p f rs))
]

returned-table : (x : Option Row × Table) → (returned x).1 ≡ x.1
returned-table (none, t) = refl
returned-table (some r, t) = refl

pub returned-map :
    (p : Row → Bool) (f : Row → Row) (t : Table)
    → (returned (update p f t)).1 ≡ map (rewritten p f) t
returned-map p f t = returned-table (update p f t) ∙ update-map p f t

-- A property of the rewriting of one row: of `f` where `p` holds, of the row itself elsewhere.
pub rewritten-property {ℓ} :
    (Q : Row → Type ℓ) (p : Row → Bool) (f : Row → Row) (r : Row)
    → Q r
    → (p r ≡ true → Q (f r))
    → Q (rewritten p f r)
rewritten-property Q p f r q h = elim (Bool-cases (p r)) [
  | inl hit ↦ rw hit (h hit)
  | inr miss ↦ rw miss q
]
