-- ===== src/Store/Semesters/Apart.antt =====
-- The unique columns of the table of semesters: id, code, and the mark of the planning semester.
use mathlib.Core.Path.{subst}
use mathlib.Core.Option.{some-injective}
use tallox_go.Prelude.{
  Text, [], ◌∷◌, map, none, some, Bool, true, false, not, ◌&&◌, ◌==◌, nat_comparable,
  text_comparable, text_eq_law, nat_eq_iff, any, eq_self, if◌then◌else◌, ◌≡◌, ◌≢◌, ◌⊎◌, refl, sym,
  ap, ◌∙◌, arith, Bool-cases, Option-cases, inl, inr,
}
use tallox_go.Principal.{Uuid}
use tallox_go.Policy.Semester.{Time}
use tallox_go.Store.Semesters.{
  Row, Table, select, update, fresh_row, clear_planning_semester, mark_planning_row,
  set_planning_semester_once,
}
use tallox_go.Store.Semesters.Rewrites.{Kept-trans, rewritten-property, rewritten, update-map}
use tallox_go.Store.Semesters.Careful.{Careful, clear-Careful, mark-Careful}

abbrev pub Every {ℓ} : (Row → Type ℓ) → Table → Type ℓ
Every P [] = Unit
Every P (r ∷ rs) = P r × Every P rs

-- Two rows that the unique indexes allow beside each other.
abbrev pub Apart : Row → Row → Type 0
Apart r r' =
    (r.id ≢ r'.id) × (r.code ≢ r'.code) × (r.is_planning ≡ true → r'.is_planning ≡ true → ⊥)

abbrev pub AllApart : Table → Type 0
AllApart [] = Unit
AllApart (r ∷ rs) = Every (Apart r) rs × AllApart rs

pub Every-map {ℓ κ} :
    (P : Row → Type ℓ) (Q : Row → Type κ) (g : Row → Row) (t : Table)
    → ((r : Row) → P r → Q (g r))
    → Every P t
    → Every Q (map g t)
Every-map P Q g [] h e = tt
Every-map P Q g (r ∷ rs) h (p, e) = (h r p, Every-map P Q g rs h e)

-- Rewriting that leaves ids and codes, and marks no second row.
pub AllApart-map :
    (g : Row → Row) (t : Table)
    → ((r r' : Row) → Apart r r' → Apart (g r) (g r'))
    → AllApart t
    → AllApart (map g t)
AllApart-map g [] h a = tt
AllApart-map g (r ∷ rs) h (a, rest) =
    (Every-map (Apart r) (Apart (g r)) g rs (h r) a, AllApart-map g rs h rest)

-- A careful rewriting that marks no row keeps rows apart.
pub Careful-Apart :
    (g : Row → Row)
    → Careful g
    → ((r : Row) → (g r).is_planning ≡ true → r.is_planning ≡ true)
    → (r r' : Row) → Apart r r'
    → Apart (g r) (g r')
Careful-Apart g k m r r' (i, c, p) = (
  λ e. i (sym ((k.kept r).same_id) ∙ e ∙ (k.kept r').same_id),
  λ e. c (sym ((k.kept r).same_code) ∙ e ∙ (k.kept r').same_code),
  λ e e'. p (m r e) (m r' e'),
)

-- The rows that `SELECT` has not found.
pub select-none : (p : Row → Bool) (t : Table) → select p t ≡ none → Every (λ r. p r ≡ false) t
unfolding select
select-none p [] h = tt
select-none p (r ∷ rs) h = elim (Bool-cases (p r)) [
  | inl hit ↦ ground (arith, subst (λ b. (if b then some r else select p rs) ≡ none) hit h)
  | inr miss ↦
      (miss, select-none p rs (subst (λ b. (if b then some r else select p rs) ≡ none) miss h))
]

any_none : (p : Row → Bool) (t : Table) → any p t ≡ false → Every (λ r. p r ≡ false) t
any_none p [] h = tt
any_none p (r ∷ rs) h = (ground (arith, h), any_none p rs (ground (arith, h)))

Every-both {ℓ κ μ} :
    (P : Row → Type ℓ) (Q : Row → Type κ) (S : Row → Type μ) (t : Table)
    → ((r : Row) → P r → Q r → S r)
    → Every P t
    → Every Q t
    → Every S t
Every-both P Q S [] h p q = tt
Every-both P Q S (r ∷ rs) h (p, ps) (q, qs) = (h r p q, Every-both P Q S rs h ps qs)

-- A new row whose id and code no other row has.
pub fresh_row-AllApart :
    (now : Time) (id : Uuid) (code : Text) (t : Table)
    → select (λ r. r.code == code) t ≡ none
    → any (λ r. r.id == id) t ≡ false
    → Every (Apart (fresh_row now id code)) t
fresh_row-AllApart now id code t h h' =
    Every-both _ _ _ t
      (λ r differs other. (
        λ e. ground (arith, other, (nat_eq_iff r.id id).1 (sym e)),
        λ e. ground (arith, differs, (text_eq_law r.code code).1 (sym e)),
        λ marked _. ground (arith, marked),
      ))
      (select-none _ t h) (any_none _ t h')

abbrev cleared : Time → Uuid → Row → Row
cleared now id =
    rewritten (λ r. r.is_planning && not (r.id == id))
      (λ r. record r { is_planning = false; updated_at = now })

-- The row that one transaction makes of one.
abbrev pub moved : Time → Uuid → Uuid → Row → Row
moved now id by r = rewritten (λ r. r.id == id) (mark_planning_row now by) (cleared now id r)

map-rewritten : (f g : Row → Row) (t : Table) → map f (map g t) ≡ map (λ r. f (g r)) t
map-rewritten f g [] = refl
map-rewritten f g (r ∷ rs) = ap (λ x. f (g r) ∷ x) (map-rewritten f g rs)

pub set_planning_semester_once-table :
    (now : Time) (id by : Uuid) (t : Table)
    → ((set_planning_semester_once now id by t).1 ≡ t)
      ⊎ ((set_planning_semester_once now id by t).1 ≡ map (moved now id by) t)
unfolding set_planning_semester_once clear_planning_semester
set_planning_semester_once-table now id by t =
    elim (Option-cases
      (update (λ r. r.id == id) (mark_planning_row now by) (clear_planning_semester now id t)).0) [
        | inl missing ↦ inl (rw (set_planning_semester_once, missing) refl)
        | inr (r, found) ↦ inr (
            rw (set_planning_semester_once, found)
              (update-map _ _ (clear_planning_semester now id t) ∙ map-rewritten _ _ t))
      ]

pub moved-Careful : (now : Time) (id by : Uuid) → Careful (moved now id by)
moved-Careful now id by = record {
  kept = λ r. Kept-trans _ _ _ ((clear-Careful now id).kept r) ((mark-Careful now id by).kept _);
  known = λ r k. (mark-Careful now id by).known _ ((clear-Careful now id).known r k);
  in_order = λ r o. (mark-Careful now id by).in_order _ ((clear-Careful now id).in_order r o);
}

cleared-is_planning :
    (now : Time) (id : Uuid) (r : Row) → (cleared now id r).is_planning ≡ true → r.id ≡ id
cleared-is_planning now id r = elim (Bool-cases (r.is_planning && not (r.id == id))) [
  | inl hit ↦ rw hit (λ e. ground (arith, e))
  | inr miss ↦ rw miss (λ e. ground (arith, e, miss, nat_eq_iff r.id id))
]

-- Only the row of that id is marked then.
moved-is_planning :
    (now : Time) (id by : Uuid) (r : Row) → (moved now id by r).is_planning ≡ true → r.id ≡ id
moved-is_planning now id by r =
    rewritten-property (λ x. x.is_planning ≡ true → r.id ≡ id) (λ r. r.id == id)
      (mark_planning_row now by) (cleared now id r) (cleared-is_planning now id r)
      (λ hit marked. sym (((clear-Careful now id).kept r).same_id) ∙ (nat_eq_iff _ id).0 hit)

pub moved-Apart :
    (now : Time) (id by : Uuid) (r r' : Row)
    → Apart r r'
    → Apart (moved now id by r) (moved now id by r')
moved-Apart now id by r r' (i, c, p) =
    let k = (moved-Careful now id by).kept in
    (
      λ e. i (sym ((k r).same_id) ∙ e ∙ (k r').same_id),
      λ e. c (sym ((k r).same_code) ∙ e ∙ (k r').same_code),
      λ e e'. i (moved-is_planning now id by r e ∙ sym (moved-is_planning now id by r' e')),
    )

-- A row of the table.
abbrev pub IsIn : Row → Table → Type 0
IsIn r [] = ⊥
IsIn r (x ∷ rs) = (x ≡ r) ⊎ IsIn r rs

pub IsIn-map : (g : Row → Row) (r : Row) (t : Table) → IsIn r t → IsIn (g r) (map g t)
IsIn-map g r [] h = h
IsIn-map g r (x ∷ rs) (inl e) = inl (ap g e)
IsIn-map g r (x ∷ rs) (inr h) = inr (IsIn-map g r rs h)

pub Every-IsIn {ℓ} : (P : Row → Type ℓ) (r : Row) (t : Table) → Every P t → IsIn r t → P r
Every-IsIn P r [] e h = elim h [ ]
Every-IsIn P r (x ∷ rs) (p, ps) (inl e) = subst P e p
Every-IsIn P r (x ∷ rs) (p, ps) (inr h) = Every-IsIn P r rs ps h

pub select-IsIn :
    (p : Row → Bool) (t : Table) (r : Row) → select p t ≡ some r → IsIn r t × (p r ≡ true)
unfolding select
select-IsIn p [] r h = ground (arith, h)
select-IsIn p (x ∷ rs) r h = elim (Bool-cases (p x)) [
  | inl hit ↦
      let e : x ≡ r =
        some-injective _ _ (subst (λ b. (if b then some x else select p rs) ≡ some r) hit h) in
      (inl e, subst (λ y. p y ≡ true) e hit)
  | inr miss ↦
      let found =
        select-IsIn p rs r (subst (λ b. (if b then some x else select p rs) ≡ some r) miss h) in
      (inr found.0, found.1)
]

-- Codes are unique: the row of a code is the one that a query for it returns.
pub select_code :
    (t : Table) (r : Row) → AllApart t → IsIn r t → select (λ x. x.code == r.code) t ≡ some r
unfolding select
select_code [] r a h = elim h [ ]
select_code (x ∷ rs) r (a, rest) (inl e) =
    rw (ap (λ y. y.code == r.code) e, eq_self r.code) (ap some e)
select_code (x ∷ rs) r (a, rest) (inr h) = elim (Bool-cases (x.code == r.code)) [
  | inl same ↦ absurd ((Every-IsIn (Apart x) r rs a h).1 ((text_eq_law x.code r.code).0 same))
  | inr other ↦ rw other (select_code rs r rest h)
]

-- The primary key.
pub same_semester :
    (t : Table) (r r' : Row) → AllApart t → IsIn r t → IsIn r' t → r.id ≡ r'.id → r ≡ r'
same_semester [] r r' a i j e = elim i [ ]
same_semester (x ∷ rs) r r' (a, rest) (inl e) (inl e') h = sym e ∙ e'
same_semester (x ∷ rs) r r' (a, rest) (inl e) (inr j) h =
    absurd ((Every-IsIn (Apart x) r' rs a j).0 (ap (λ y. y.id) e ∙ h))
same_semester (x ∷ rs) r r' (a, rest) (inr i) (inl e) h =
    absurd ((Every-IsIn (Apart x) r rs a i).0 (ap (λ y. y.id) e ∙ sym h))
same_semester (x ∷ rs) r r' (a, rest) (inr i) (inr j) h = same_semester rs r r' rest i j h
